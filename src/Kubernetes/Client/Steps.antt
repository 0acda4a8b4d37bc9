-- ===== src/Kubernetes/Client/Steps.antt =====
-- src/callback_handler/kubernetes/client.rs: the operations of the client, as steps.
use policy_evaluator.Prelude.{
  ℕ, String, Bool, true, false, Option, none, some, Result, ok, err, ◌≡◌, refl, string_eq,
  if◌then◌else◌,
}
use policy_evaluator.Prelude.Dict.{get}
use policy_evaluator.Kubernetes.{api_version_kind_eq, KubeResource, Kube, Cluster}
use policy_evaluator.Kubernetes.Reflector.{Reflector, compute_id, create_and_run}
use policy_evaluator.Kubernetes.Client.{
  Client, proceed, search_resource, resource_found, build_kube_resource, reader_created,
  known_or_search, reader_or_create, get_reflector_reader, list_resources_from_reflector,
  list_resources_by_namespace, list_resources_all,
  has_list_resources_all_result_changed_since_instant, get_resource, get_resource_plural_name,
  can_i,
}
use policy_evaluator.Kubernetes.Client.Interleaving.{IsAfter, learn, start, Reach, here, next}

module _ (debug : String → String) {kube : Kube} where
  Reach-trans :
      {since : ℕ} {s t u : Client kube}
      → Reach debug since s t
      → Reach debug since t u
      → Reach debug since s u
  Reach-trans first here = first
  Reach-trans first (next path step) = next (Reach-trans first path) step

  proceed-Reach :
      {since : ℕ} {s : Client kube} {A B : Type 0} (first : Result String A × Client kube)
      (k : A → Client kube → Result String B × Client kube)
      → Reach debug since s first.1
      → ((a : A) (t : Client kube) → Reach debug since t (k a t).1)
      → Reach debug since s (proceed first k).1
  proceed-Reach (ok a, t) k path rest = Reach-trans path (rest a t)
  proceed-Reach (err e, t) k path rest = path

  module _ (since : ℕ) (cluster : Cluster kube) (after : IsAfter since cluster) where
    found-Reach :
        (client : Client kube) (api_version kind : String) (found : Result String KubeResource)
        → search_resource debug cluster api_version kind ≡ found
        → Reach debug since client
            (resource_found debug client
              (record { api_version = api_version; kind = kind })
              found).1
    found-Reach client api_version kind (ok r) h =
        next here (learn client cluster api_version kind r h)
    found-Reach client api_version kind (err e) h = here

    known-Reach :
        (client : Client kube) (api_version kind : String) (known : Option KubeResource)
        → Reach debug since client (known_or_search debug cluster client api_version kind known).1
    known-Reach client api_version kind (some r) = here
    known-Reach client api_version kind none =
        found-Reach client api_version kind (search_resource debug cluster api_version kind) refl

    build_kube_resource-Reach :
        (client : Client kube) (api_version kind : String)
        → Reach debug since client (build_kube_resource debug cluster client api_version kind).1
    unfolding build_kube_resource
    build_kube_resource-Reach client api_version kind =
        known-Reach client api_version kind
          (get client.kube_resources (record { api_version = api_version; kind = kind }))

    created-Reach :
        (client : Client kube) (resource : KubeResource) (ns ls fs : Option String)
        (created : Result String (Reflector kube))
        → create_and_run cluster resource ns ls fs ≡ created
        → Reach debug since client
            (reader_created debug client (compute_id debug resource ns ls fs) created).1
    created-Reach client resource ns ls fs (ok r) h =
        next here (start client cluster resource ns ls fs r after h)
    created-Reach client resource ns ls fs (err e) h = here

    reader-Reach :
        (client : Client kube) (resource : KubeResource) (ns ls fs : Option String)
        (known : Option (Reflector kube))
        → Reach debug since client
            (reader_or_create debug cluster client
              (compute_id debug resource ns ls fs)
              resource
              ns
              ls
              fs
              known).1
    reader-Reach client resource ns ls fs (some r) = here
    reader-Reach client resource ns ls fs none =
        created-Reach client resource ns ls fs (create_and_run cluster resource ns ls fs) refl

    list-Reach :
        (client : Client kube) (resource : KubeResource) (ns ls fs : Option String)
        → Reach debug since client
            (list_resources_from_reflector debug cluster client resource ns ls fs).1
    unfolding list_resources_from_reflector get_reflector_reader
    list-Reach client resource ns ls fs =
        proceed-Reach
          (get_reflector_reader debug cluster client (compute_id debug resource ns ls fs) resource
            ns ls fs)
          _
          (reader-Reach client resource ns ls fs
            (get client.reflectors (compute_id debug resource ns ls fs)))
          (λ reader t. here)

    list_resources_all-Reach :
        (client : Client kube) (api_version kind : String) (ls fs : Option String)
        → Reach debug since client
            (list_resources_all debug cluster client api_version kind ls fs).1
    unfolding list_resources_all
    list_resources_all-Reach client api_version kind ls fs =
        proceed-Reach (build_kube_resource debug cluster client api_version kind) _
          (build_kube_resource-Reach client api_version kind)
          (λ resource t. list-Reach t resource none ls fs)

    in_namespace-Reach :
        (client : Client kube) (resource : KubeResource) (message ns : String)
        (ls fs : Option String) (namespaced : Bool)
        → Reach debug since client
            (if namespaced
              then list_resources_from_reflector debug cluster client resource (some ns) ls fs
              else (err message, client)).1
    in_namespace-Reach client resource message ns ls fs true =
        list-Reach client resource (some ns) ls fs
    in_namespace-Reach client resource message ns ls fs false = here

    list_resources_by_namespace-Reach :
        (client : Client kube) (api_version kind ns : String) (ls fs : Option String)
        → Reach debug since client
            (list_resources_by_namespace debug cluster client api_version kind ns ls fs).1
    unfolding list_resources_by_namespace
    list_resources_by_namespace-Reach client api_version kind ns ls fs =
        proceed-Reach (build_kube_resource debug cluster client api_version kind) _
          (build_kube_resource-Reach client api_version kind)
          (λ resource t. in_namespace-Reach t resource _ ns ls fs resource.namespaced)

    changed-Reach :
        (client : Client kube) (api_version kind : String) (ls fs : Option String) (instant : ℕ)
        → Reach debug since client
            (has_list_resources_all_result_changed_since_instant debug cluster client api_version
              kind ls fs instant).1
    unfolding has_list_resources_all_result_changed_since_instant
    changed-Reach client api_version kind ls fs instant =
        proceed-Reach (build_kube_resource debug cluster client api_version kind) _
          (build_kube_resource-Reach client api_version kind) (λ resource t. here)

    get_resource-Reach :
        (client : Client kube) (api_version kind name : String) (ns : Option String)
        → Reach debug since client (get_resource debug cluster client api_version kind name ns).1
    unfolding get_resource
    get_resource-Reach client api_version kind name ns =
        proceed-Reach (build_kube_resource debug cluster client api_version kind) _
          (build_kube_resource-Reach client api_version kind) (λ resource t. here)

    plural_name-Reach :
        (client : Client kube) (api_version kind : String)
        → Reach debug since client
            (get_resource_plural_name debug cluster client api_version kind).1
    unfolding get_resource_plural_name
    plural_name-Reach client api_version kind =
        proceed-Reach (build_kube_resource debug cluster client api_version kind) _
          (build_kube_resource-Reach client api_version kind) (λ resource t. here)

-- the operations of the client, with their arguments
pub data ClientOperation (SubjectAccessReview : Type 0) : Type 0 where
  list_by_namespace :
      (api_version kind namespace : String) (label_selector field_selector : Option String)
      → ClientOperation SubjectAccessReview
  list_all :
      (api_version kind : String) (label_selector field_selector : Option String)
      → ClientOperation SubjectAccessReview
  has_changed :
      (api_version kind : String) (label_selector field_selector : Option String) (instant : ℕ)
      → ClientOperation SubjectAccessReview
  get_one :
      (api_version kind name : String) (namespace : Option String)
      → ClientOperation SubjectAccessReview
  plural_name : (api_version kind : String) → ClientOperation SubjectAccessReview
  review : SubjectAccessReview → ClientOperation SubjectAccessReview

module _ (debug : String → String) {kube : Kube} where
  -- the client that an operation leaves
  abbrev pub operate :
      Cluster kube → Client kube → ClientOperation kube.SubjectAccessReview → Client kube
  operate cluster client (list_by_namespace api_version kind ns ls fs) =
      (list_resources_by_namespace debug cluster client api_version kind ns ls fs).1
  operate cluster client (list_all api_version kind ls fs) =
      (list_resources_all debug cluster client api_version kind ls fs).1
  operate cluster client (has_changed api_version kind ls fs instant) =
      (has_list_resources_all_result_changed_since_instant debug cluster client api_version kind ls
        fs instant).1
  operate cluster client (get_one api_version kind name ns) =
      (get_resource debug cluster client api_version kind name ns).1
  operate cluster client (plural_name api_version kind) =
      (get_resource_plural_name debug cluster client api_version kind).1
  operate cluster client (review request) = (can_i debug cluster client request).1

  -- Every operation of the client, whatever its result is, does nothing to the client but a
  -- sequence of steps, each with its instant after `since` if the cluster's instants are.
  pub operate-Reach :
      (since : ℕ) (cluster : Cluster kube) (client : Client kube)
      (operation : ClientOperation kube.SubjectAccessReview)
      → IsAfter since cluster
      → Reach debug since client (operate cluster client operation)
  unfolding can_i
  operate-Reach since cluster client (list_by_namespace api_version kind ns ls fs) after =
      list_resources_by_namespace-Reach debug since cluster after client api_version kind ns ls fs
  operate-Reach since cluster client (list_all api_version kind ls fs) after =
      list_resources_all-Reach debug since cluster after client api_version kind ls fs
  operate-Reach since cluster client (has_changed api_version kind ls fs instant) after =
      changed-Reach debug since cluster after client api_version kind ls fs instant
  operate-Reach since cluster client (get_one api_version kind name ns) after =
      get_resource-Reach debug since cluster after client api_version kind name ns
  operate-Reach since cluster client (plural_name api_version kind) after =
      plural_name-Reach debug since cluster after client api_version kind
  operate-Reach since cluster client (review request) after = here
