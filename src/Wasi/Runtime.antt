-- ===== src/Wasi/Runtime.antt =====
-- src/runtimes/wasi_cli/runtime.rs: the validation of requests and of settings by a WASI policy.
pub mod Verdict
use policy_evaluator.Prelude.{
  String, false, Option, none, some, List, [], ◌∷◌, Result, ok, err, ◌<>◌, ◌≡◌, refl,
}
use policy_evaluator.Prelude.Dict.{Dict}
use policy_evaluator.Json.{Serde}
use policy_evaluator.Callback.Requests.{Bytes, Sdk}
use policy_evaluator.Callback.Host.{Decoders}
use policy_evaluator.Group.{SettingsValidationResponse}
use policy_evaluator.Marshal.{Marshal, req_obj, respond}
use policy_evaluator.Request.{K8s, JsonValue, ValidateRequest, uid}
use policy_evaluator.Response.{reject, reject_internal_server_error}
use policy_evaluator.Response.Types.{AdmissionResponse}
use policy_evaluator.Wasm.{Wasm}
use policy_evaluator.Wasi.Errors.{WasiRuntimeError, error_to_string}
use policy_evaluator.Wasi.HostCall.{Utf8}
use policy_evaluator.Wasi.Stack.{Wasmtime, Stack, RunResult, run}

abbrev pub cannot_deserialize : String → String
cannot_deserialize e = "Cannot deserialize policy validation response: " <> e

abbrev pub cannot_convert : String → String
cannot_convert e = "Cannot convert policy validation response: " <> e

module _ {wasm : Wasm} {utf8 : Utf8} {sdk : Sdk} {decode : Decoders sdk}
    (w : Wasmtime wasm utf8 decode) {k8s : K8s} {json : JsonValue} {serde : Serde}
    (m : Marshal k8s json serde) where
  -- a run that gave an output is answered by what the output says, one that panics by nothing
  abbrev pub answer_run :
      ValidateRequest k8s json
      → Option (Result WasiRuntimeError (RunResult utf8 decode w))
      → Option AdmissionResponse
  answer_run request none = none
  answer_run request (some (err e)) = some (reject (uid k8s json request) (error_to_string e) 500)
  answer_run request (some (ok result)) = some (
      respond cannot_deserialize cannot_convert (uid k8s json request) (req_obj m request)
        (m.response_from_slice (m.as_bytes result.stdout)))

  abbrev pub run_with :
      Stack utf8 decode w
      → ValidateRequest k8s json
      → Result serde.Error Bytes
      → Option AdmissionResponse
  run_with stack request (err e) =
      some (reject_internal_server_error (uid k8s json request) (serde.error_to_string e))
  run_with stack request (ok input) =
      answer_run request (run utf8 decode w stack input ("policy.wasm" ∷ "validate" ∷ []))

  -- `Runtime::validate`
  unfoldable pub validate :
      Stack utf8 decode w
      → Dict String json.Value
      → ValidateRequest k8s json
      → Option AdmissionResponse
  validate stack settings request = run_with stack request (m.params_to_vec request settings)

  invalid : String → SettingsValidationResponse
  invalid message = record { valid = false; message = some message }

  settings_or_invalid : Result serde.Error SettingsValidationResponse → SettingsValidationResponse
  settings_or_invalid (ok response) = response
  settings_or_invalid (err e) =
      invalid ("Cannot deserialize settings validation response: " <> serde.error_to_string e)

  settings_from_run :
      Option (Result WasiRuntimeError (RunResult utf8 decode w)) → Option SettingsValidationResponse
  settings_from_run none = none
  settings_from_run (some (err e)) = some (invalid (error_to_string e))
  settings_from_run (some (ok result)) =
      some (settings_or_invalid (m.settings_response_from_slice (m.as_bytes result.stdout)))

  -- `Runtime::validate_settings`
  unfoldable pub validate_settings :
      Stack utf8 decode w → String → Option SettingsValidationResponse
  unfolding settings_from_run settings_or_invalid invalid
  validate_settings stack settings =
      settings_from_run
        (run utf8 decode w stack (m.as_bytes settings) ("policy.wasm" ∷ "validate-settings" ∷ []))

  settings_from_run-panics :
      (ran : Option (Result WasiRuntimeError (RunResult utf8 decode w)))
      → settings_from_run ran ≡ none
      → ran ≡ none
  unfolding settings_from_run
  settings_from_run-panics none h = refl
  settings_from_run-panics (some (err e)) h = cc
  settings_from_run-panics (some (ok result)) h = cc

  -- The validation of settings panics only if the run of the program on them does.
  pub validate_settings-panics :
      (stack : Stack utf8 decode w) (settings : String)
      → validate_settings stack settings ≡ none
      → run utf8 decode w stack (m.as_bytes settings) ("policy.wasm" ∷ "validate-settings" ∷ [])
        ≡ none
  unfolding validate_settings
  validate_settings-panics stack settings h = settings_from_run-panics _ h
