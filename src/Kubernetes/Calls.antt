-- ===== src/Kubernetes/Calls.antt =====
-- src/callback_handler/kubernetes.rs: the calls of the client, which may not be there.
use policy_evaluator.Prelude.{
  ℕ, String, Bool, true, false, Option, none, some, is_none, Result, ok, err, ◌<>◌, if◌then◌else◌,
}
use policy_evaluator.Kubernetes.{Kube, Cluster}
use policy_evaluator.Kubernetes.Reflector.{debug_option}
use policy_evaluator.Kubernetes.Client as K
use policy_evaluator.Kubernetes.Client.{Client, ObjectList}

-- `cached::Return`
pub record Return (A : Type 0) : Type 0 where
  pub value : A
  pub was_cached : Bool

abbrev pub returned : {A : Type 0} → Bool → Result String A → Result String (Return A)
returned was_cached (ok a) = ok (record { value = a; was_cached = was_cached })
returned was_cached (err e) = err e

module _ (kube : Kube) where
  -- what a call comes to, or nothing if it panics, with the client that it leaves
  abbrev pub Called : Type 0 → Type 0
  Called A = Option (Result String (Return A)) × Option (Client kube)

module _ {kube : Kube} where
  -- `unwrap` of the client and a call of it, which leaves the client in its place
  abbrev pub unwrapped :
      {A : Type 0}
      → Bool
      → Option (Client kube)
      → (Client kube → Result String A × Client kube)
      → Called kube A
  unwrapped was_cached none call = (none, none)
  unwrapped was_cached (some client) call =
      let (r, left) = call client in (some (returned was_cached r), some left)

  -- what the cache of a function has for the key of a call, or else the call
  abbrev pub or_cached :
      {A : Type 0} → Option A → Option (Client kube) → Called kube A → Called kube A
  or_cached (some a) client call = (some (ok (record { value = a; was_cached = true })), client)
  or_cached none client call = call

  module _ (debug : String → String) (cluster : Cluster kube) (client : Option (Client kube)) where
    unfoldable pub list_resources_by_namespace :
        String
        → String
        → String
        → Option String
        → Option String
        → Called kube (ObjectList kube.Object)
    list_resources_by_namespace api_version kind namespace label_selector field_selector =
        if is_none client
        then (some (err "kube::Client was not initialized properly"), client)
        else unwrapped false client λ c.
          K.list_resources_by_namespace debug cluster c api_version kind namespace label_selector
            field_selector

    unfoldable pub list_resources_all :
        String → String → Option String → Option String → Called kube (ObjectList kube.Object)
    list_resources_all api_version kind label_selector field_selector =
        if is_none client
        then (some (err "kube::Client was not initialized properly"), client)
        else unwrapped false client
            λ c. K.list_resources_all debug cluster c api_version kind label_selector field_selector

    unfoldable pub get_resource : String → String → String → Option String → Called kube kube.Object
    get_resource api_version kind name namespace =
        if is_none client
        then (some (err "kube::Client was not initialized properly"), client)
        else unwrapped false client
            λ c. K.get_resource debug cluster c api_version kind name namespace

    abbrev pub get_resource_key : String → String → String → Option String → String
    get_resource_key api_version kind name namespace =
        "get_resource_cached("
        <> api_version
        <> ","
        <> kind
        <> "),"
        <> name
        <> ","
        <> debug_option debug namespace

    -- `cached` is what the cache of the function has for a key
    unfoldable pub get_resource_cached :
        (String → Option kube.Object)
        → String
        → String
        → String
        → Option String
        → Called kube kube.Object
    get_resource_cached cached api_version kind name namespace =
        or_cached (cached (get_resource_key api_version kind name namespace)) client
          (get_resource api_version kind name namespace)

    unfoldable pub get_resource_plural_name : String → String → Called kube String
    get_resource_plural_name api_version kind =
        if is_none client
        then (some (err "kube::Client was not initialized properly"), client)
        else unwrapped true client λ c. K.get_resource_plural_name debug cluster c api_version kind

    unfoldable pub has_list_resources_all_result_changed_since_instant :
        String → String → Option String → Option String → ℕ → Called kube Bool
    has_list_resources_all_result_changed_since_instant api_version kind label_selector
          field_selector since =
        if is_none client
        then (some (err "kube::Client was not initialized properly"), client)
        else unwrapped false client λ c.
          K.has_list_resources_all_result_changed_since_instant debug cluster c api_version kind
            label_selector field_selector since

    unfoldable pub can_i : kube.SubjectAccessReview → Called kube kube.SubjectAccessReviewStatus
    can_i request =
        if is_none client
        then (some (err "kube::Client was not initialized properly"), client)
        else unwrapped false client λ c. K.can_i debug cluster c request

    unfoldable pub can_i_cached :
        (kube.SubjectAccessReview → Option kube.SubjectAccessReviewStatus)
        → kube.SubjectAccessReview
        → Called kube kube.SubjectAccessReviewStatus
    can_i_cached cached request = or_cached (cached request) client (can_i request)
