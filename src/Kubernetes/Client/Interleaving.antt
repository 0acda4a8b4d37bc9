-- ===== src/Kubernetes/Client/Interleaving.antt =====
-- src/callback_handler/kubernetes/client.rs: the client while several calls and the tasks of its
-- reflectors go on at once. A lock is held only for one look-up or one insertion, so that a step is
-- an insertion by some call, or one of the two things that a task does with an item: it sends the
-- instant, and it applies the event.
use mathlib.Core.List.{[], ◌∷◌}
use policy_evaluator.Prelude.{
  ℕ, ◌<◌, String, Option, none, some, refl, sym, List, All, Result, ok, err, ◌≡◌, >>=-eq-ok,
  ok_injective, subst, string_eq,
}
use policy_evaluator.Prelude.Dict.{get}
use policy_evaluator.Kubernetes.{api_version_kind_eq, KubeResource, Kube, Cluster, Watch}
use policy_evaluator.Kubernetes.Reflector.{
  Reflector, compute_id, announce, applied, apply_pending, see, see_all, create_and_run,
}
use policy_evaluator.Kubernetes.Client.{
  Client, search_resource, register_resource, register_reflector,
}

module _ {kube : Kube} where
  -- a cluster at whose calls nothing is of an instant before `since`, or of that instant
  pub record IsAfter (since : ℕ) (cluster : Cluster kube) : Type 0 where
    pub created : since < cluster.now
    pub items_seen :
        (watch : Watch) (items : List (ℕ × Result String kube.Event))
        → cluster.until_ready watch ≡ ok items
        → All (λ item. since < item.0) items

  announce-after :
      (since now : ℕ) (item : Result String kube.Event) (r : Reflector kube)
      → since < now
      → since < r.last_change_seen_at
      → since < (announce now item r).last_change_seen_at
  unfolding announce
  announce-after since now (ok event) r later before = later
  announce-after since now (err e) r later before = before

  applied-instant :
      (pending : Option kube.Event) (r : Reflector kube)
      → (applied pending r).last_change_seen_at ≡ r.last_change_seen_at
  applied-instant none r = refl
  applied-instant (some event) r = refl

  pub apply_pending-instant :
      (r : Reflector kube) → (apply_pending r).last_change_seen_at ≡ r.last_change_seen_at
  unfolding apply_pending
  apply_pending-instant r = applied-instant r.pending r

  see-after :
      (since now : ℕ) (item : Result String kube.Event) (r : Reflector kube)
      → since < now
      → since < r.last_change_seen_at
      → since < (see now item r).last_change_seen_at
  unfolding see
  see-after since now item r later before =
      subst (λ t. since < t) (sym (apply_pending-instant (announce now item r)))
        (announce-after since now item r later before)

  see_all-after :
      (since : ℕ) (items : List (ℕ × Result String kube.Event)) (r : Reflector kube)
      → All (λ item. since < item.0) items
      → since < r.last_change_seen_at
      → since < (see_all items r).last_change_seen_at
  unfolding see_all
  see_all-after since [] r later before = before
  see_all-after since ((now, item) ∷ rest) r (first, later) before =
      see_all-after since rest (see now item r) later (see-after since now item r first before)

  pub create_and_run-after :
      (since : ℕ) (cluster : Cluster kube) (resource : KubeResource) (ns ls fs : Option String)
      (r : Reflector kube)
      → IsAfter since cluster
      → create_and_run cluster resource ns ls fs ≡ ok r
      → since < r.last_change_seen_at
  unfolding create_and_run
  create_and_run-after since cluster resource ns ls fs r after h =
      let watch : Watch = record {
        api = record { resource = resource.resource; namespace = ns };
        label_selector = ls;
        field_selector = fs;
      } in
      let (items, got, made) = >>=-eq-ok (cluster.until_ready watch) _ h in
      subst (λ q. since < q.last_change_seen_at) (ok_injective made)
        (see_all-after since items _ (after.items_seen watch items got) after.created)

module _ (debug : String → String) {kube : Kube} where
  -- what a call or a task does to the client after the instant `since`
  pub data Step (since : ℕ) : Client kube → Client kube → Type 0 where
    learn :
        (client : Client kube) (cluster : Cluster kube) (api_version kind : String)
        (r : KubeResource)
        → search_resource debug cluster api_version kind ≡ ok r
        → Step since client
            (register_resource debug client (record { api_version = api_version; kind = kind }) r)
    start :
        (client : Client kube) (cluster : Cluster kube) (resource : KubeResource)
        (ns ls fs : Option String) (r : Reflector kube)
        → IsAfter since cluster
        → create_and_run cluster resource ns ls fs ≡ ok r
        → Step since client (register_reflector debug client (compute_id debug resource ns ls fs) r)
    hear :
        (client : Client kube) (id : String) (r : Reflector kube) (now : ℕ)
        (item : Result String kube.Event)
        → get client.reflectors id ≡ some r
        → r.pending ≡ none
        → since < now
        → Step since client (register_reflector debug client id (announce now item r))
    apply_event :
        (client : Client kube) (id : String) (r : Reflector kube)
        → get client.reflectors id ≡ some r
        → Step since client (register_reflector debug client id (apply_pending r))

  pub data Reach (since : ℕ) (client : Client kube) : Client kube → Type 0 where
    here : Reach since client client
    next :
        {middle last : Client kube}
        → Reach since client middle
        → Step since middle last
        → Reach since client last
