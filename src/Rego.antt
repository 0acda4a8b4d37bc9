-- ===== src/Rego.antt =====
-- src/runtimes/rego: the runtime of the policies that are written in Rego.
pub mod Inventory
pub mod Runtime
pub mod Fetch
pub mod Cache
pub mod Build
pub mod Prepare
pub mod Sample
mod Tests
use policy_evaluator.Prelude.{◌<>◌, String, Option, none, some}

-- `DynamicObject` of kube: its name, its namespace and the rest of it
pub record DynamicObject (Data : Type 0) : Type 0 where
  pub name : Option String
  pub namespace : Option String
  pub content : Data

-- `RegoRuntimeError`; an error of serde_json, of wasmtime or of burrego is its text
pub data RegoRuntimeError : Type 0 where
  callback_channel_not_set : RegoRuntimeError
  callback_convert_list callback_convert_bool callback_send : String → RegoRuntimeError
  callback_response callback_request callback_get_plural_name : String → RegoRuntimeError
  gatekeeper_inventory_serialization_error : String → RegoRuntimeError
  gatekeeper_inventory_missing_name gatekeeper_inventory_missing_namespace : RegoRuntimeError
  opa_inventory_missing_name opa_inventory_missing_namespace : RegoRuntimeError
  opa_inventory_add_namespaced_res opa_inventory_add_clusterwide_res : RegoRuntimeError
  opa_inventory_missing_plural_name : String → RegoRuntimeError
  invalid_response : RegoRuntimeError
  invalid_response_with_error evaluator_error rego_engine_builder : String → RegoRuntimeError

-- the text of an error
unfoldable pub error_to_string : RegoRuntimeError → String
error_to_string callback_channel_not_set =
    "cannot build Rego context aware data: callback channel is not set"
error_to_string (callback_convert_list e) =
    "cannot convert callback response into a list of kubernetes objects: " <> e
error_to_string (callback_convert_bool e) = "cannot convert callback response into a boolean: " <> e
error_to_string (callback_send e) = "error sending request over callback channel: " <> e
error_to_string (callback_response e) = "error obtaining response from callback channel: " <> e
error_to_string (callback_request e) = "cannot perform a request via callback channel: " <> e
error_to_string (callback_get_plural_name e) =
    "get plural name failure, cannot convert callback response: " <> e
error_to_string (gatekeeper_inventory_serialization_error e) =
    "cannot convert Gatekeeper inventory to JSON: " <> e
error_to_string gatekeeper_inventory_missing_name = "DynamicObject does not have a name"
error_to_string gatekeeper_inventory_missing_namespace = "DynamicObject does not have a namespace"
error_to_string opa_inventory_missing_name = "DynamicObject does not have a name"
error_to_string opa_inventory_missing_namespace = "DynamicObject does not have a namespace"
error_to_string opa_inventory_add_namespaced_res =
    "trying to add a namespaced resource to a list of clusterwide resources"
error_to_string opa_inventory_add_clusterwide_res =
    "trying to add a clusterwide resource to a list of namespaced resources"
error_to_string (opa_inventory_missing_plural_name e) = "cannot find plural name for resource " <> e
error_to_string invalid_response = "invalid response from policy"
error_to_string (invalid_response_with_error e) = "invalid response from policy: " <> e
error_to_string (evaluator_error e) = "cannot allocate Rego evaluator: " <> e
error_to_string (rego_engine_builder e) = "cannot build Rego engine: " <> e
