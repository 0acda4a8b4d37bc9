-- ===== src/Kubernetes/Client.antt =====
-- src/callback_handler/kubernetes/client.rs: the client, with the resources that it knows and the
-- reflectors that it runs. An operation returns the client that it leaves, also with an error.
pub mod Interleaving
pub mod Steps
pub mod Coherent
pub mod Fresh
pub mod Lists
pub mod Unchanged
use mathlib.Core.List.{[], ◌∷◌}
use policy_evaluator.Prelude.{
  ℕ, String, Bool, true, false, Option, none, some, List, Result, ok, err, ◌>>=◌, map_err, ok_or,
  ◌<>◌, ◌==◌, string_eq, ltb, if◌then◌else◌,
}
use policy_evaluator.Prelude.Dict.{Dict, get, insert}
use policy_evaluator.Metadata.Resources.{split_once}
use policy_evaluator.Kubernetes.{
  ApiVersionKind, api_version_kind_eq, ApiResource, KubeResource, ListedResource, Api, Kube,
  Cluster,
}
use policy_evaluator.Kubernetes.Reflector.{Reflector, compute_id, create_and_run, debug_option}

pub record ObjectList (Object : Type 0) : Type 0 where
  pub api_version : String
  pub kind : String
  pub items : List Object

module _ (kube : Kube) where
  pub record Client : Type 0 where
    pub kube_resources : Dict ApiVersionKind KubeResource
    pub reflectors : Dict String (Reflector kube)

  abbrev pub object_list : KubeResource → kube.Store → ObjectList kube.Object
  object_list resource reader = record {
    api_version = resource.resource.api_version;
    kind = resource.resource.kind <> "List";
    items = kube.state reader;
  }

-- `?` on what an operation of the client returns
abbrev pub proceed :
    {S A B : Type 0} → Result String A × S → (A → S → Result String B × S) → Result String B × S
proceed (ok a, s) k = k a s
proceed (err e, s) k = (err e, s)

-- `resources.iter().find(|r| r.kind == kind)`
unfoldable pub find_kind : String → List ListedResource → Option ListedResource
find_kind kind [] = none
find_kind kind (r ∷ rs) = if r.kind == kind then some r else find_kind kind rs

unfoldable pub group_and_version : String → Result String (String × String)
group_and_version api_version =
    if api_version == "v1"
    then ok ("", "v1")
    else ok_or ("cannot determine group and version for " <> api_version) (split_once api_version)

-- the `Api` of an object that is asked for by its name
abbrev pub api_of : String → String → KubeResource → Option String → Result String Api
api_of api_version kind resource namespace =
    if resource.namespaced
    then (ok_or
          ("Resource " <> api_version <> "/" <> kind
            <> " is namespaced, but no namespace was provided")
          namespace
        >>= λ ns. ok (record { resource = resource.resource; namespace = some ns }))
    else ok (record { resource = resource.resource; namespace = none })

-- `debug` is `{:?}` of a `&str`
module _ (debug : String → String) {kube : Kube} where
  abbrev pub new : Client kube
  new = record { kube_resources = []; reflectors = [] }

  abbrev pub listed_resources : Cluster kube → String → String → Result String (List ListedResource)
  listed_resources cluster api_version kind =
      if api_version == "v1"
      then cluster.list_core_api_resources api_version
      else map_err (λ e. "error finding resource " <> api_version <> " / " <> kind <> ": " <> e)
          (cluster.list_api_group_resources api_version)

  -- the search for a resource that is not known yet
  unfoldable pub search_resource : Cluster kube → String → String → Result String KubeResource
  search_resource cluster api_version kind = do
    resources ← listed_resources cluster api_version kind
    resource ←
        ok_or ("Cannot find resource " <> api_version <> "/" <> kind) (find_kind kind resources)
    parts ← group_and_version api_version
    ok (record {
      resource = record {
        group = parts.0;
        version = parts.1;
        api_version = api_version;
        kind = kind;
        plural = resource.name;
      };
      namespaced = resource.namespaced;
    })

  abbrev pub register_resource : Client kube → ApiVersionKind → KubeResource → Client kube
  register_resource client avk r = record client {
    kube_resources = insert client.kube_resources avk r;
  }

  abbrev pub resource_found :
      Client kube
      → ApiVersionKind
      → Result String KubeResource
      → Result String KubeResource × Client kube
  resource_found client avk (ok r) = (ok r, register_resource client avk r)
  resource_found client avk (err e) = (err e, client)

  -- the match on what the known resources have
  abbrev pub known_or_search :
      Cluster kube
      → Client kube
      → String
      → String
      → Option KubeResource
      → Result String KubeResource × Client kube
  known_or_search cluster client api_version kind (some r) = (ok r, client)
  known_or_search cluster client api_version kind none =
      resource_found client (record { api_version = api_version; kind = kind })
        (search_resource cluster api_version kind)

  unfoldable pub build_kube_resource :
      Cluster kube → Client kube → String → String → Result String KubeResource × Client kube
  build_kube_resource cluster client api_version kind =
      known_or_search cluster client api_version kind
        (get client.kube_resources (record { api_version = api_version; kind = kind }))

  abbrev pub register_reflector : Client kube → String → Reflector kube → Client kube
  register_reflector client id r = record client { reflectors = insert client.reflectors id r }

  abbrev pub reader_created :
      Client kube → String → Result String (Reflector kube) → Result String kube.Store × Client kube
  reader_created client id (ok r) = (ok r.reader, register_reflector client id r)
  reader_created client id (err e) = (err e, client)

  -- the match on what the reflectors have
  abbrev pub reader_or_create :
      Cluster kube
      → Client kube
      → String
      → KubeResource
      → Option String
      → Option String
      → Option String
      → Option (Reflector kube)
      → Result String kube.Store × Client kube
  reader_or_create cluster client id resource namespace label_selector field_selector (some r) =
      (ok r.reader, client)
  reader_or_create cluster client id resource namespace label_selector field_selector none =
      reader_created client id
        (create_and_run cluster resource namespace label_selector field_selector)

  unfoldable pub get_reflector_reader :
      Cluster kube
      → Client kube
      → String
      → KubeResource
      → Option String
      → Option String
      → Option String
      → Result String kube.Store × Client kube
  get_reflector_reader cluster client id resource namespace label_selector field_selector =
      reader_or_create cluster client id resource namespace label_selector field_selector
        (get client.reflectors id)

  unfoldable pub list_resources_from_reflector :
      Cluster kube
      → Client kube
      → KubeResource
      → Option String
      → Option String
      → Option String
      → Result String (ObjectList kube.Object) × Client kube
  list_resources_from_reflector cluster client resource namespace label_selector field_selector =
      proceed
        (get_reflector_reader cluster client
          (compute_id debug resource namespace label_selector field_selector) resource namespace
          label_selector field_selector)
        λ reader client'. (ok (object_list kube resource reader), client')

  unfoldable pub list_resources_by_namespace :
      Cluster kube
      → Client kube
      → String
      → String
      → String
      → Option String
      → Option String
      → Result String (ObjectList kube.Object) × Client kube
  list_resources_by_namespace cluster client api_version kind namespace label_selector
        field_selector =
      proceed (build_kube_resource cluster client api_version kind) λ resource client'.
        if resource.namespaced
        then list_resources_from_reflector cluster client' resource (some namespace) label_selector
            field_selector
        else (
          err (
              "resource " <> api_version <> "/" <> kind
              <> " is cluster wide. Cannot search for it inside of a namespace"),
          client',
        )

  unfoldable pub list_resources_all :
      Cluster kube
      → Client kube
      → String
      → String
      → Option String
      → Option String
      → Result String (ObjectList kube.Object) × Client kube
  list_resources_all cluster client api_version kind label_selector field_selector =
      proceed (build_kube_resource cluster client api_version kind) λ resource client'.
        list_resources_from_reflector cluster client' resource none label_selector field_selector

  -- `last_change_seen_at > since`, or `true` without a reflector
  abbrev pub changed_since : ℕ → Option (Reflector kube) → Bool
  changed_since since none = true
  changed_since since (some r) = ltb since r.last_change_seen_at

  unfoldable pub have_reflector_resources_changed_since :
      Client kube → KubeResource → Option String → Option String → Option String → ℕ → Bool
  have_reflector_resources_changed_since client resource namespace label_selector field_selector
        since =
      changed_since since
        (get client.reflectors (compute_id debug resource namespace label_selector field_selector))

  unfoldable pub has_list_resources_all_result_changed_since_instant :
      Cluster kube
      → Client kube
      → String
      → String
      → Option String
      → Option String
      → ℕ
      → Result String Bool × Client kube
  has_list_resources_all_result_changed_since_instant cluster client api_version kind label_selector
        field_selector since =
      proceed (build_kube_resource cluster client api_version kind) λ resource client'. (
        ok (
            have_reflector_resources_changed_since client' resource none label_selector
              field_selector since),
        client',
      )

  abbrev pub object_of :
      Cluster kube → String → String → String → Option String → Api → Result String kube.Object
  object_of cluster api_version kind name namespace api = do
    found ← cluster.get_opt api name
    ok_or
        ("Cannot find "
          <> api_version
          <> "/"
          <> kind
          <> " named '"
          <> name
          <> "' inside of namespace '"
          <> debug_option debug namespace
          <> "'")
        found

  unfoldable pub get_resource :
      Cluster kube
      → Client kube
      → String
      → String
      → String
      → Option String
      → Result String kube.Object × Client kube
  get_resource cluster client api_version kind name namespace =
      proceed (build_kube_resource cluster client api_version kind) λ resource client'. (
        api_of api_version kind resource namespace
            >>= object_of cluster api_version kind name namespace,
        client',
      )

  unfoldable pub get_resource_plural_name :
      Cluster kube → Client kube → String → String → Result String String × Client kube
  get_resource_plural_name cluster client api_version kind =
      proceed (build_kube_resource cluster client api_version kind)
        λ resource client'. (ok resource.resource.plural, client')

  -- the conversion of the review from the SDK is derived from the crates
  unfoldable pub can_i :
      Cluster kube
      → Client kube
      → kube.SubjectAccessReview
      → Result String kube.SubjectAccessReviewStatus × Client kube
  can_i cluster client request = (
    cluster.create_review request >>= ok_or "SubjectAccessReview did not return a response",
    client,
  )
