-- ===== src/Kubernetes/Client/Lists.antt =====
-- src/callback_handler/kubernetes/client.rs: a list of resources, and the list that is asked for
-- later.
use policy_evaluator.Prelude.{
  ℕ, String, Option, none, some, Result, ok, err, ◌≡◌, refl, sym, ◌∙◌, ap, string_eq, ok_injective,
}
use policy_evaluator.Prelude.Dict.{get, get-insert_same}
use policy_evaluator.Kubernetes.{ApiVersionKind, api_version_kind_eq, KubeResource, Kube, Cluster}
use policy_evaluator.Kubernetes.Reflector.{Reflector, compute_id, create_and_run}
use policy_evaluator.Kubernetes.Client.{
  Client, proceed, ObjectList, object_list, build_kube_resource, known_or_search, resource_found,
  search_resource, reader_created, reader_or_create, get_reflector_reader,
  list_resources_from_reflector, list_resources_all, changed_since,
  have_reflector_resources_changed_since, has_list_resources_all_result_changed_since_instant,
}

-- inversion of a successful sequence
proceed-eq-ok :
    {S A B : Type 0} (first : Result String A × S) (k : A → S → Result String B × S) {b : B} {t : S}
    → proceed first k ≡ (ok b, t)
    → (a : A) × (s : S) × (first ≡ (ok a, s)) × (k a s ≡ (ok b, t))
proceed-eq-ok (ok a, s) k h = (a, s, refl, h)
proceed-eq-ok (err e, s) k h = let failed : err e ≡ ok _ = ap (λ q. q.0) h in cc

module _ (debug : String → String) {kube : Kube} (cluster : Cluster kube) where
  found-known :
      (client : Client kube) (avk : ApiVersionKind) (found : Result String KubeResource)
      (r : KubeResource) (t : Client kube)
      → resource_found debug client avk found ≡ (ok r, t)
      → (get t.kube_resources avk ≡ some r) × (t.reflectors ≡ client.reflectors)
  found-known client avk (ok q) r t h =
      let same : q ≡ r = ok_injective (ap (λ p. p.0) h) in
      (
        ap (λ p. get p.1.kube_resources avk) (sym h)
            ∙ get-insert_same client.kube_resources avk q
            ∙ ap some same,
        ap (λ p. p.1.reflectors) (sym h),
      )
  found-known client avk (err e) r t h = let failed : err e ≡ ok r = ap (λ q. q.0) h in cc

  known-known :
      (client : Client kube) (api_version kind : String) (known : Option KubeResource)
      (r : KubeResource) (t : Client kube)
      → get client.kube_resources (record { api_version = api_version; kind = kind }) ≡ known
      → known_or_search debug cluster client api_version kind known ≡ (ok r, t)
      → get t.kube_resources (record { api_version = api_version; kind = kind }) ≡ some r
  known-known client api_version kind (some q) r t there h =
      ap (λ p. get p.1.kube_resources (record { api_version = api_version; kind = kind })) (sym h)
      ∙ there
      ∙ ap some (ok_injective (ap (λ p. p.0) h))
  known-known client api_version kind none r t there h =
      (found-known client (record { api_version = api_version; kind = kind })
        (search_resource debug cluster api_version kind) r t h).0

  created-known :
      (client : Client kube) (id : String) (created : Result String (Reflector kube))
      (store : kube.Store) (t : Client kube)
      → reader_created debug client id created ≡ (ok store, t)
      → (rf : Reflector kube) × (get t.reflectors id ≡ some rf)
        × (rf.reader ≡ store)
        × (t.kube_resources ≡ client.kube_resources)
  created-known client id (ok rf) store t h = (
    rf,
    ap (λ p. get p.1.reflectors id) (sym h) ∙ get-insert_same client.reflectors id rf,
    ok_injective (ap (λ p. p.0) h),
    ap (λ p. p.1.kube_resources) (sym h),
  )
  created-known client id (err e) store t h = let failed : err e ≡ ok store = ap (λ q. q.0) h in cc

  reader-known :
      (client : Client kube) (id : String) (resource : KubeResource) (ns ls fs : Option String)
      (known : Option (Reflector kube)) (store : kube.Store) (t : Client kube)
      → get client.reflectors id ≡ known
      → reader_or_create debug cluster client id resource ns ls fs known ≡ (ok store, t)
      → (rf : Reflector kube) × (get t.reflectors id ≡ some rf)
        × (rf.reader ≡ store)
        × (t.kube_resources ≡ client.kube_resources)
  reader-known client id resource ns ls fs (some rf) store t there h = (
    rf,
    ap (λ p. get p.1.reflectors id) (sym h) ∙ there,
    ok_injective (ap (λ p. p.0) h),
    ap (λ p. p.1.kube_resources) (sym h),
  )
  reader-known client id resource ns ls fs none store t there h =
      created-known client id (create_and_run cluster resource ns ls fs) store t h

  module _ (api_version kind : String) (ls fs : Option String) where
    abbrev avk : ApiVersionKind
    avk = record { api_version = api_version; kind = kind }

    -- what the client has after a list
    pub listed :
        (client t : Client kube) (objects : ObjectList kube.Object)
        → list_resources_all debug cluster client api_version kind ls fs ≡ (ok objects, t)
        → (r : KubeResource) × (rf : Reflector kube) × (get t.kube_resources avk ≡ some r)
          × (get t.reflectors (compute_id debug r none ls fs) ≡ some rf)
          × (objects ≡ object_list kube r rf.reader)
    unfolding list_resources_all list_resources_from_reflector build_kube_resource
        get_reflector_reader
    listed client t objects h =
        let (r, s, built, h1) =
          proceed-eq-ok (build_kube_resource debug cluster client api_version kind) _ h in
        let (store, u, read, h2) =
          proceed-eq-ok
            (get_reflector_reader debug cluster s (compute_id debug r none ls fs) r none ls fs) _
            h1 in
        let known =
          known-known client api_version kind (get client.kube_resources avk) r s refl built in
        let (rf, there, reads, stay) =
          reader-known s (compute_id debug r none ls fs) r none ls fs
            (get s.reflectors (compute_id debug r none ls fs)) store u refl read in
        let end : u ≡ t = ap (λ p. p.1) h2 in
        (
          r,
          rf,
          ap (λ c. get c.kube_resources avk) (sym end) ∙ ap (λ m. get m avk) stay ∙ known,
          ap (λ c. get c.reflectors (compute_id debug r none ls fs)) (sym end) ∙ there,
          sym (ok_injective (ap (λ p. p.0) h2)) ∙ ap (object_list kube r) (sym reads),
        )

    -- a list for which nothing has to be searched or made
    pub list_known :
        (client : Client kube) (r : KubeResource) (rf : Reflector kube)
        → get client.kube_resources avk ≡ some r
        → get client.reflectors (compute_id debug r none ls fs) ≡ some rf
        → list_resources_all debug cluster client api_version kind ls fs
          ≡ (ok (object_list kube r rf.reader), client)
    unfolding list_resources_all list_resources_from_reflector build_kube_resource
        get_reflector_reader
    list_known client r rf known there = rw (known, there) refl

    pub changed_known :
        (client : Client kube) (r : KubeResource) (since : ℕ)
        → get client.kube_resources avk ≡ some r
        → has_list_resources_all_result_changed_since_instant debug cluster client api_version kind
            ls fs since
          ≡ (
            ok (changed_since debug since (get client.reflectors (compute_id debug r none ls fs))),
            client,
          )
    unfolding has_list_resources_all_result_changed_since_instant
        have_reflector_resources_changed_since build_kube_resource
    changed_known client r since known = rw (known) refl
