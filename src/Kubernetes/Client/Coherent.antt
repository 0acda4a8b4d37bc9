-- ===== src/Kubernetes/Client/Coherent.antt =====
-- src/callback_handler/kubernetes/client.rs: what the client knows is filed where it is looked for.
use mathlib.Core.List.{[], ◌∷◌}
use policy_evaluator.Prelude.{
  ℕ, String, Option, none, some, Option, some, List, true, Result, ok, err, ok_or, ◌≡◌, refl, sym,
  ◌∙◌, ap, string_eq, >>=-eq-ok, ok_injective,
}
use policy_evaluator.Prelude.Dict.{get, get-insert_every}
use policy_evaluator.Kubernetes.{
  ApiVersionKind, api_version_kind_eq, KubeResource, Kube, Cluster, Watch,
}
use policy_evaluator.Kubernetes.Reflector.{
  Reflector, compute_id, announce, applied, apply_pending, see, see_all, create_and_run,
}
use policy_evaluator.Kubernetes.Client.{
  Client, new, listed_resources, find_kind, group_and_version, search_resource,
}
use policy_evaluator.Kubernetes.Client.Interleaving.{
  Step, learn, start, hear, apply_event, Reach, here, next,
}

-- a resource of this version and kind
abbrev pub IsOf : ApiVersionKind → KubeResource → Type 0
IsOf avk r = (r.resource.api_version ≡ avk.api_version) × (r.resource.kind ≡ avk.kind)

-- the identifier of a reflector that watches this
abbrev pub watch_id : (String → String) → Watch → String
watch_id debug w =
    compute_id debug (record { resource = w.api.resource; namespaced = true }) w.api.namespace
      w.label_selector w.field_selector

module _ {kube : Kube} where
  announce-watch :
      (now : ℕ) (item : Result String kube.Event) (r : Reflector kube)
      → (announce now item r).watch ≡ r.watch
  unfolding announce
  announce-watch now (ok event) r = refl
  announce-watch now (err e) r = refl

  applied-watch :
      (pending : Option kube.Event) (r : Reflector kube) → (applied pending r).watch ≡ r.watch
  applied-watch none r = refl
  applied-watch (some event) r = refl

  apply_pending-watch : (r : Reflector kube) → (apply_pending r).watch ≡ r.watch
  unfolding apply_pending
  apply_pending-watch r = applied-watch r.pending r

  see-watch :
      (now : ℕ) (item : Result String kube.Event) (r : Reflector kube)
      → (see now item r).watch ≡ r.watch
  unfolding see
  see-watch now item r = apply_pending-watch (announce now item r) ∙ announce-watch now item r

  see_all-watch :
      (items : List (ℕ × Result String kube.Event)) (r : Reflector kube)
      → (see_all items r).watch ≡ r.watch
  unfolding see_all
  see_all-watch [] r = refl
  see_all-watch ((now, item) ∷ rest) r = see_all-watch rest (see now item r) ∙ see-watch now item r

module _ (debug : String → String) {kube : Kube} where
  pub record IsCoherent (client : Client kube) : Type 0 where
    pub resources_known :
        (avk : ApiVersionKind) (r : KubeResource)
        → get client.kube_resources avk ≡ some r
        → IsOf avk r
    pub reflectors_filed :
        (id : String) (r : Reflector kube)
        → get client.reflectors id ≡ some r
        → id ≡ watch_id debug r.watch

  pub new-IsCoherent : IsCoherent (new debug)
  unfolding get
  new-IsCoherent = record {
    resources_known = λ avk r there. cc;
    reflectors_filed = λ id r there. cc;
  }

  pub search_resource-IsOf :
      (cluster : Cluster kube) (api_version kind : String) (r : KubeResource)
      → search_resource debug cluster api_version kind ≡ ok r
      → IsOf (record { api_version = api_version; kind = kind }) r
  unfolding search_resource
  search_resource-IsOf cluster api_version kind r h =
      let (resources, listed, h1) =
        >>=-eq-ok (listed_resources debug cluster api_version kind) _ h in
      let (resource, found, h2) = >>=-eq-ok (ok_or _ (find_kind kind resources)) _ h1 in
      let (parts, split, h3) = >>=-eq-ok (group_and_version api_version) _ h2 in
      let made = ok_injective h3 in
      (sym (ap (λ q. q.resource.api_version) made), sym (ap (λ q. q.resource.kind) made))

  create_and_run-filed :
      (cluster : Cluster kube) (resource : KubeResource) (ns ls fs : Option String)
      (r : Reflector kube)
      → create_and_run cluster resource ns ls fs ≡ ok r
      → compute_id debug resource ns ls fs ≡ watch_id debug r.watch
  unfolding create_and_run compute_id
  create_and_run-filed cluster resource ns ls fs r h =
      let watch : Watch = record {
        api = record { resource = resource.resource; namespace = ns };
        label_selector = ls;
        field_selector = fs;
      } in
      let (items, got, made) = >>=-eq-ok (cluster.until_ready watch) _ h in
      sym
        (ap (watch_id debug) (sym (ap (λ q. q.watch) (ok_injective made)) ∙ see_all-watch items _))

  Step-IsCoherent :
      {since : ℕ} {s t : Client kube} → Step debug since s t → IsCoherent s → IsCoherent t
  Step-IsCoherent (learn client cluster api_version kind r found) before = record {
    resources_known =
        get-insert_every IsOf client.kube_resources _ r before.resources_known
          (search_resource-IsOf cluster api_version kind r found);
    reflectors_filed = before.reflectors_filed;
  }
  Step-IsCoherent (start client cluster resource ns ls fs r after made) before = record {
    resources_known = before.resources_known;
    reflectors_filed =
        get-insert_every (λ id q. id ≡ watch_id debug q.watch) client.reflectors _ r
          before.reflectors_filed (create_and_run-filed cluster resource ns ls fs r made);
  }
  Step-IsCoherent (hear client id r now item there settled later) before = record {
    resources_known = before.resources_known;
    reflectors_filed =
        get-insert_every (λ id q. id ≡ watch_id debug q.watch) client.reflectors id
          (announce now item r) before.reflectors_filed
          (before.reflectors_filed id r there
            ∙ ap (watch_id debug) (sym (announce-watch now item r)));
  }
  Step-IsCoherent (apply_event client id r there) before = record {
    resources_known = before.resources_known;
    reflectors_filed =
        get-insert_every (λ id q. id ≡ watch_id debug q.watch) client.reflectors id
          (apply_pending r) before.reflectors_filed
          (before.reflectors_filed id r there ∙ ap (watch_id debug) (sym (apply_pending-watch r)));
  }

  -- However the calls and the tasks of the reflectors interleave, from a coherent client, as a new
  -- one is, the client stays coherent: a resource that it knows for a version and a kind has that
  -- version and that kind, and a reflector is filed under the identifier of what it watches.
  pub Reach-IsCoherent :
      {since : ℕ} {s t : Client kube} → IsCoherent s → Reach debug since s t → IsCoherent t
  Reach-IsCoherent before here = before
  Reach-IsCoherent before (next path step) = Step-IsCoherent step (Reach-IsCoherent before path)
