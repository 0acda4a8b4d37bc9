-- ===== src/Rego/Fetch.antt =====
-- src/runtimes/rego/context_aware.rs: the Kubernetes data of a policy, asked for on the callback
-- channel.
use policy_evaluator.Prelude.{
  ℕ, String, Bool, true, false, none, List, [], ◌∷◌, Result, ok, err, ◌>>=◌, map_err, if◌then◌else◌,
}
use policy_evaluator.Prelude.Dict.{Dict, insert}
use policy_evaluator.Metadata.{ContextAwareResource}
use policy_evaluator.Context.{resource_eq}
use policy_evaluator.Callback.Requests.{
  Bytes, Sdk, CallbackRequestType, kubernetes_list_resource_all,
  has_kubernetes_list_resource_all_result_changed_since_instant,
  kubernetes_get_resource_plural_name,
}
use policy_evaluator.Callback.Host.{Reply, refused, failed, answered, dropped, Channel}
use policy_evaluator.Rego.{
  DynamicObject, RegoRuntimeError, callback_convert_list, callback_convert_bool, callback_send,
  callback_response, callback_request, callback_get_plural_name,
}

-- `serde_json::from_slice`, at each type that is read from a payload
pub record Readers (Data : Type 0) : Type 0 where
  pub object_list : Bytes → Result String (List (DynamicObject Data))
  pub bool : Bytes → Result String Bool
  pub text : Bytes → Result String String
  -- the text of the error for a channel that is closed
  pub recv_error : String

module _ {sdk : Sdk} {Data : Type 0} (readers : Readers Data) (channel : Channel sdk) where
  abbrev delivered : Reply → Result RegoRuntimeError Bytes
  delivered (refused e) = err (callback_send e)
  delivered (answered payload) = ok payload
  delivered (failed e) = err (callback_request e)
  delivered dropped = err (callback_response readers.recv_error)

  unfoldable pub make_request_via_callback_channel :
      CallbackRequestType sdk → Result RegoRuntimeError Bytes
  make_request_via_callback_channel request = delivered (channel request)

  unfoldable pub get_all_resources_by_type :
      ContextAwareResource → Result RegoRuntimeError (List (DynamicObject Data))
  get_all_resources_by_type r = do
    payload ←
        make_request_via_callback_channel
          (kubernetes_list_resource_all r.api_version r.kind none none)
    map_err callback_convert_list (readers.object_list payload)

  -- the loop of `get_allowed_resources`
  unfoldable pub collect_resources :
      Dict ContextAwareResource (List (DynamicObject Data))
      → List ContextAwareResource
      → Result RegoRuntimeError (Dict ContextAwareResource (List (DynamicObject Data)))
  collect_resources kube_resources [] = ok kube_resources
  collect_resources kube_resources (r ∷ rs) = do
    objects ← get_all_resources_by_type r
    collect_resources (insert kube_resources r objects) rs

  unfoldable pub get_allowed_resources :
      List ContextAwareResource
      → Result RegoRuntimeError (Dict ContextAwareResource (List (DynamicObject Data)))
  get_allowed_resources allowed_resources = collect_resources [] allowed_resources

  unfoldable pub has_resource_changed_since :
      ContextAwareResource → ℕ → Result RegoRuntimeError Bool
  has_resource_changed_since r since = do
    payload ← make_request_via_callback_channel (
        has_kubernetes_list_resource_all_result_changed_since_instant r.api_version r.kind none none
          since)
    map_err callback_convert_bool (readers.bool payload)

  unfoldable pub have_allowed_resources_changed_since_instant :
      List ContextAwareResource → ℕ → Result RegoRuntimeError Bool
  have_allowed_resources_changed_since_instant [] since = ok false
  have_allowed_resources_changed_since_instant (r ∷ rs) since = do
    changed ← has_resource_changed_since r since
    let rest = have_allowed_resources_changed_since_instant rs since
    if changed then ok true else rest

  -- the loop of `get_plural_names`
  unfoldable pub collect_plural_names :
      Dict ContextAwareResource String
      → List ContextAwareResource
      → Result RegoRuntimeError (Dict ContextAwareResource String)
  collect_plural_names plural_names [] = ok plural_names
  collect_plural_names plural_names (r ∷ rs) = do
    payload ←
        make_request_via_callback_channel (kubernetes_get_resource_plural_name r.api_version r.kind)
    plural_name ← map_err callback_get_plural_name (readers.text payload)
    collect_plural_names (insert plural_names r plural_name) rs

  unfoldable pub get_plural_names :
      List ContextAwareResource → Result RegoRuntimeError (Dict ContextAwareResource String)
  get_plural_names allowed_resources = collect_plural_names [] allowed_resources
