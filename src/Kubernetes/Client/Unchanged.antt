-- ===== src/Kubernetes/Client/Unchanged.antt =====
-- src/callback_handler/kubernetes/client.rs: a list of resources stays as it is until its reflector
-- has seen a change.
use policy_evaluator.Prelude.{
  ℕ, String, false, Option, none, some, ok, ◌≡◌, inl, inr, refl, sym, ◌∙◌, ap, string_eq, ltb,
  arith, ok_injective,
}
use policy_evaluator.Prelude.Dict.{get}
use policy_evaluator.Kubernetes.{ApiVersionKind, api_version_kind_eq, KubeResource, Kube, Cluster}
use policy_evaluator.Kubernetes.Reflector.{Reflector, compute_id}
use policy_evaluator.Kubernetes.Client.{
  Client, ObjectList, object_list, list_resources_all, changed_since,
  has_list_resources_all_result_changed_since_instant,
}
use policy_evaluator.Kubernetes.Client.Interleaving.{Reach}
use policy_evaluator.Kubernetes.Client.Coherent.{IsOf, IsCoherent, Reach-IsCoherent}
use policy_evaluator.Kubernetes.Client.Fresh.{IsHeld, Reach-IsKnown, Reach-IsKept}
use policy_evaluator.Kubernetes.Client.Lists.{listed, list_known, changed_known}

same-compute_id :
    (debug : String → String) (avk : ApiVersionKind) (r q : KubeResource) (ns ls fs : Option String)
    → IsOf avk r
    → IsOf avk q
    → compute_id debug r ns ls fs ≡ compute_id debug q ns ls fs
unfolding compute_id
same-compute_id debug avk r q ns ls fs (av, kind) (bv, kind') = rw (av, kind, bv, kind') refl

same-object_list :
    (kube : Kube) (avk : ApiVersionKind) (r q : KubeResource) (store : kube.Store)
    → IsOf avk r
    → IsOf avk q
    → object_list kube r store ≡ object_list kube q store
same-object_list kube avk r q store (av, kind) (bv, kind') = rw (av, kind, bv, kind') refl

module _ (debug : String → String) {kube : Kube} where
  kept_store :
      (since : ℕ) (rf : Reflector kube) (store : kube.Store)
      → IsHeld debug since store rf
      → ltb since rf.last_change_seen_at ≡ false
      → rf.reader ≡ store
  kept_store since rf store (inl later) unchanged = absurd (ground arith)
  kept_store since rf store (inr (same, settled)) unchanged = same

  -- the tasks of the reflectors have applied every event whose instant they have sent
  abbrev pub IsSettled : Client kube → Type 0
  IsSettled client =
      (id : String) (r : Reflector kube) → get client.reflectors id ≡ some r → r.pending ≡ none

  -- Let a client list all the resources of a version and a kind, at a time when the reflectors'
  -- tasks have applied every event whose instant they have sent. Let any calls follow, any instants
  -- that the tasks send and any events that they apply, in any order, the instants all of them after
  -- `since`. If the client is then asked and says that the list has not changed since `since`, the
  -- same list is given to whoever lists again, whatever the cluster answers by then, and nothing in
  -- the client changes.
  pub list_unchanged :
      {since : ℕ} (s t u v : Client kube) (objects : ObjectList kube.Object)
      (cluster asked last : Cluster kube) (api_version kind : String) (ls fs : Option String)
      → list_resources_all debug cluster s api_version kind ls fs ≡ (ok objects, t)
      → IsCoherent debug t
      → IsSettled t
      → Reach debug since t u
      → has_list_resources_all_result_changed_since_instant debug asked u api_version kind ls fs
          since
        ≡ (ok false, v)
      → list_resources_all debug last u api_version kind ls fs ≡ (ok objects, u)
  list_unchanged {since} s t u v objects cluster asked last api_version kind ls fs list coherent
        settled path unchanged =
      let avk : ApiVersionKind = record { api_version = api_version; kind = kind } in
      let (r, rf, known, there, made) =
        listed debug cluster api_version kind ls fs s t objects list in
      let id : String = compute_id debug r none ls fs in
      let (q, known') = Reach-IsKnown debug avk (r, known) path in
      let (qf, there', kept) =
        Reach-IsKept debug id rf.reader (rf, there, inr (refl, settled id rf there)) path in
      let of_r : IsOf avk r = coherent.resources_known avk r known in
      let of_q : IsOf avk q = (Reach-IsCoherent debug coherent path).resources_known avk q known' in
      let same : compute_id debug q none ls fs ≡ id =
        same-compute_id debug avk q r none ls fs of_q of_r in
      let at_q : get u.reflectors (compute_id debug q none ls fs) ≡ some qf =
        ap (λ i. get u.reflectors i) same ∙ there' in
      let answer : changed_since debug since (some qf) ≡ false =
        ap (changed_since debug since) (sym at_q)
        ∙ ok_injective (
            ap (λ p. p.0)
              (sym (changed_known debug asked api_version kind ls fs u q since known')
                ∙ unchanged)) in
      list_known debug last api_version kind ls fs u q qf known' at_q
      ∙ ap (λ o. (ok o, u))
          (same-object_list kube avk q r qf.reader of_q of_r
            ∙ ap (object_list kube r) (kept_store since qf rf.reader kept answer)
            ∙ sym made)
