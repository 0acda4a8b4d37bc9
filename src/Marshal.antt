-- ===== src/Marshal.antt =====
-- src/runtimes: what the runtimes of waPC and WASI write to a policy and read back from it.
pub mod Answer
use policy_evaluator.Prelude.{◌<>◌, String, Option, none, some, Result, ok, err, ◌≡◌}
use policy_evaluator.Prelude.Dict.{Dict}
use policy_evaluator.Json.{Serde}
use policy_evaluator.Callback.Requests.{Bytes}
use policy_evaluator.Group.{SettingsValidationResponse}
use policy_evaluator.Request.{K8s, JsonValue, ValidateRequest, raw, admission_request}
use policy_evaluator.Response.{
  PolicyValidationResponse, ResponseError, deserialize, reject_internal_server_error,
  from_policy_validation_response,
}
use policy_evaluator.Response.Types.{AdmissionResponse}

-- What the runtimes use of serde_json, at the types that they write and read.
pub record Marshal (k8s : K8s) (json : JsonValue) (serde : Serde) : Type 0 where
  -- `serde_json::to_value` of a request, which fails only if its implementation of `Serialize` does
  -- or if a key of a map is no string: that of a request is derived, and its keys are strings
  pub to_value : ValidateRequest k8s json → Result serde.Error serde.Value
  pub to_value_succeeds :
      (request : ValidateRequest k8s json) → (value : serde.Value) × (to_value request ≡ ok value)
  -- the object with the keys "request" and "settings", as a text and as bytes
  pub params_to_string :
      ValidateRequest k8s json → Dict String json.Value → Result serde.Error String
  pub params_to_vec : ValidateRequest k8s json → Dict String json.Value → Result serde.Error Bytes
  pub settings_to_string : Dict String json.Value → Result serde.Error String
  -- `from_slice` to the two types that a policy answers with
  pub response_from_slice : Bytes → Result serde.Error (PolicyValidationResponse serde)
  pub settings_response_from_slice : Bytes → Result serde.Error SettingsValidationResponse
  pub error_debug : serde.Error → String
  pub as_bytes : String → Bytes

module _ {k8s : K8s} {json : JsonValue} {serde : Serde} (m : Marshal k8s json serde) where
  -- `expect` of the conversion, by what is known of it
  abbrev pub expected : ValidateRequest k8s json → serde.Value
  expected request = (m.to_value_succeeds request).0

  -- the object that a mutation of the policy starts from; a delete has none
  unfoldable pub req_obj : ValidateRequest k8s json → Option serde.Value
  req_obj (raw req) = some (expected (raw req))
  req_obj (admission_request req) = serde.get_key (expected (admission_request req)) "object"

module _ {serde : Serde} where
  -- the text of a `ResponseError`
  abbrev pub response_error_to_string : ResponseError serde → String
  response_error_to_string (deserialize e) =
      "cannot deserialize JSONPatch: " <> serde.error_to_string e

  -- the response that could be built, or the error of it in the words of the runtime
  abbrev pub built_or_rejected :
      (String → String)
      → String
      → Result (ResponseError serde) AdmissionResponse
      → AdmissionResponse
  built_or_rejected invalid_format uid (ok response) = response
  built_or_rejected invalid_format uid (err e) =
      reject_internal_server_error uid (invalid_format (response_error_to_string e))

  -- what becomes of an answer that was read, with the words of the runtime for the two errors
  abbrev pub respond :
      (String → String)
      → (String → String)
      → String
      → Option serde.Value
      → Result serde.Error (PolicyValidationResponse serde)
      → AdmissionResponse
  respond invalid invalid_format uid obj (ok resp) =
      built_or_rejected invalid_format uid (from_policy_validation_response serde uid obj resp)
  respond invalid invalid_format uid obj (err e) =
      reject_internal_server_error uid (invalid (serde.error_to_string e))
