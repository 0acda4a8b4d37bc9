-- ===== src/Wapc/Runtime.antt =====
-- src/runtimes/wapc/runtime.rs: the validation of requests and of settings by a waPC policy.
pub mod Verdict
pub mod Recovery
use policy_evaluator.Prelude.{
  String, Bool, true, false, Option, some, List, [], Result, ok, err, map_err, ◌<>◌, text_contains,
  if◌then◌else◌,
}
use policy_evaluator.Prelude.Dict.{Dict}
use policy_evaluator.Json.{Serde}
use policy_evaluator.Callback.Requests.{Bytes, Sdk}
use policy_evaluator.Callback.Host.{Decoders}
use policy_evaluator.Group.{SettingsValidationResponse}
use policy_evaluator.Marshal.{Marshal, req_obj, respond}
use policy_evaluator.Request.{K8s, JsonValue, ValidateRequest, uid}
use policy_evaluator.Response.{reject, reject_internal_server_error}
use policy_evaluator.Response.Types.{AdmissionResponse}
use policy_evaluator.Wasm.{Wasm}
use policy_evaluator.Wapc.{
  WapcLibrary, WapcRuntimeError, invalid_response_format, invalid_response_with_error,
  create_protocol_version, invoke_protocol_version, runtime_error_to_string, WapcStack, reset, call,
}

abbrev pub wapc_epoch_interruption_err_msg : String
wapc_epoch_interruption_err_msg = "guest code interrupted, execution deadline exceeded"

module _ {wasm : Wasm} {sdk : Sdk} (l : WapcLibrary wasm sdk) (bytes_debug : Bytes → String) where
  abbrev pub with_error : String → String
  with_error e = runtime_error_to_string l bytes_debug (invalid_response_with_error e)

  abbrev pub format_error : String → String
  format_error e = runtime_error_to_string l bytes_debug (invalid_response_format e)

module _ {wasm : Wasm} {sdk : Sdk} (l : WapcLibrary wasm sdk) where
  abbrev pub is_interrupted : l.Error → Bool
  is_interrupted e = text_contains (l.error_to_string e) wapc_epoch_interruption_err_msg

module _ {wasm : Wasm} {sdk : Sdk} (decode : Decoders sdk) (l : WapcLibrary wasm sdk)
    (bytes_debug : Bytes → String) {k8s : K8s} {json : JsonValue} {serde : Serde}
    (m : Marshal k8s json serde) where
  -- what becomes of a call, with the stack that it leaves; a failed reset is only logged
  abbrev pub answer_call :
      ValidateRequest k8s json
      → Result l.Error Bytes
      → WapcStack decode l
      → AdmissionResponse × WapcStack decode l
  answer_call request (ok res) stack = (
    respond (with_error l bytes_debug) (format_error l bytes_debug) (uid k8s json request)
        (req_obj m request) (m.response_from_slice res),
    stack,
  )
  answer_call request (err e) stack =
      if is_interrupted l e
      then (
        reject (uid k8s json request)
            "Policy execution interrupted because it exceeded the allowed execution time" 500,
        (reset decode l stack).1,
      )
      else (reject_internal_server_error (uid k8s json request) (l.error_to_string e), stack)

  abbrev pub call_with :
      WapcStack decode l
      → ValidateRequest k8s json
      → Result serde.Error String
      → AdmissionResponse × WapcStack decode l
  call_with stack request (err e) =
      (reject_internal_server_error (uid k8s json request) (serde.error_to_string e), stack)
  call_with stack request (ok validate_str) =
      let called = call decode l stack "validate" (m.as_bytes validate_str) in
      answer_call request called.0 called.1

  -- `Runtime::validate`, with the stack that it leaves
  unfoldable pub validate :
      WapcStack decode l
      → Dict String json.Value
      → ValidateRequest k8s json
      → AdmissionResponse × WapcStack decode l
  validate stack settings request = call_with stack request (m.params_to_string request settings)

  invalid : String → SettingsValidationResponse
  invalid message = record { valid = false; message = some message }

  -- the error is wrapped in `InvalidResponseWithError`, and shown by its derived `Debug`
  settings_or_invalid : Result serde.Error SettingsValidationResponse → SettingsValidationResponse
  settings_or_invalid (ok response) = response
  settings_or_invalid (err e) =
      invalid ("error: InvalidResponseWithError(" <> m.error_debug e <> ")")

  settings_from_call : Result l.Error Bytes → SettingsValidationResponse
  settings_from_call (ok res) = settings_or_invalid (m.settings_response_from_slice res)
  settings_from_call (err e) =
      invalid ("Error invoking settings validation callback: " <> l.error_debug e)

  -- `Runtime::validate_settings`
  unfoldable pub validate_settings :
      WapcStack decode l → String → SettingsValidationResponse × WapcStack decode l
  unfolding settings_from_call settings_or_invalid invalid
  validate_settings stack settings =
      let called = call decode l stack "validate_settings" (m.as_bytes settings) in
      (settings_from_call called.0, called.1)

  abbrev pub version_from : Result l.Error Bytes → Result (WapcRuntimeError l) l.ProtocolVersion
  version_from (ok res) = map_err (λ e. create_protocol_version res e) (l.version_try_from res)
  version_from (err e) = err (invoke_protocol_version e)

  -- `Runtime::protocol_version`
  unfoldable pub protocol_version :
      WapcStack decode l → Result (WapcRuntimeError l) l.ProtocolVersion × WapcStack decode l
  protocol_version stack =
      let called = call decode l stack "protocol_version" [] in (version_from called.0, called.1)
