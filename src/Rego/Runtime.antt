-- ===== src/Rego/Runtime.antt =====
-- src/runtimes/rego/runtime.rs: the validation of a request by a Rego policy.
pub mod Verdict
pub mod Identity
pub mod Panics
pub mod Unreachable
use policy_evaluator.Prelude.{
  and_then, ℕ, String, Bool, true, false, Option, none, some, List, [], ◌∷◌, Result, ok, err, ◌>>=◌,
  map_err, ok_or, string_eq, if◌then◌else◌, is_empty, join,
}
use policy_evaluator.Prelude.Int.{ℤ}
use policy_evaluator.Prelude.Dict.{Dict, insert}
use policy_evaluator.Group.{SettingsValidationResponse}
use policy_evaluator.Request.{
  K8s, AdmissionRequest, JsonValue, ValidateRequest, raw, admission_request, uid,
  RegoPolicyExecutionMode, opa, gatekeeper,
}
use policy_evaluator.Response.{reject_internal_server_error}
use policy_evaluator.Response.Types.{AdmissionResponse, default_response, default_status}
use policy_evaluator.Rego.Inventory.Opa.{OpaInventory}

-- What the runtime uses of serde_json, of the derived conversions and of `burrego::Evaluator`.
pub record Burrego (k8s : K8s) (json : JsonValue) : Type 1 where
  pub Bytes : Type 0
  -- the text of an empty object, `"{}".as_bytes()`
  pub empty_object : Bytes
  pub JsonError : Type 0
  pub json_error_to_string : JsonError → String
  pub to_vec : json.Value → Result JsonError Bytes
  -- `json!` of a map, of a request and of an inventory
  pub object : Dict String json.Value → json.Value
  pub request_value : ValidateRequest k8s json → json.Value
  pub admission_value : AdmissionRequest k8s → json.Value
  pub Data : Type 0
  pub inventory_value : OpaInventory Data → json.Value
  -- `Value::get` on a position
  pub get_index : json.Value → ℕ → Option json.Value
  -- `from_value` to an `AdmissionResponse` and to the `msg` fields of `Violations`
  pub response_from : json.Value → Result JsonError AdmissionResponse
  pub violations_from : json.Value → Result JsonError (List (Option String))
  pub Evaluator : Type 0
  pub BurregoError : Type 0
  pub error_to_string : BurregoError → String
  -- `BurregoError::JSONError`, and the test for `ExecutionDeadlineExceeded`
  pub json_error : String → JsonError → BurregoError
  pub is_deadline_exceeded : BurregoError → Bool
  -- `none` where the evaluator panics
  pub evaluate :
      Evaluator → ℤ → json.Value → Bytes → Option (Result BurregoError json.Value × Evaluator)
  pub reset : Evaluator → Option (Result BurregoError Unit × Evaluator)

-- `unreachable!()`, and a panic of what runs a guest
pub data Panic : Type 0 where
  unreachable : Panic
  guest_panicked : Panic

-- the messages that violations have
abbrev pub messages : List (Option String) → List String
messages [] = []
messages (none ∷ vs) = messages vs
messages (some m ∷ vs) = m ∷ messages vs

module _ {k8s : K8s} {json : JsonValue} (b : Burrego k8s json) where
  pub data KubernetesContext : Type 0 where
    empty : KubernetesContext
    opa_context : OpaInventory b.Data → KubernetesContext
    gatekeeper_context : b.Bytes → KubernetesContext

  pub record Stack : Type 0 where
    pub evaluator : b.Evaluator
    pub entrypoint_id : ℤ
    pub policy_execution_mode : RegoPolicyExecutionMode

  -- the settings with the Kubernetes data under its key
  unfoldable pub opa_data : Dict String json.Value → KubernetesContext → json.Value
  opa_data settings (opa_context ctx) =
      b.object (insert settings "kubernetes" (b.inventory_value ctx))
  opa_data settings empty = b.object settings
  opa_data settings (gatekeeper_context ctx) = b.object settings

  abbrev pub evaluate_on :
      Stack
      → ValidateRequest k8s json
      → Result b.JsonError b.Bytes
      → Result Panic (Result b.BurregoError json.Value × b.Evaluator)
  evaluate_on stack request (err e) =
      ok (err (b.json_error "cannot convert OPA data to JSON" e), stack.evaluator)
  evaluate_on stack request (ok data_raw) = ok_or guest_panicked (
      b.evaluate stack.evaluator stack.entrypoint_id
        (b.object (("request", b.request_value request) ∷ [])) data_raw)

  unfoldable pub evaluate_opa :
      Stack
      → Dict String json.Value
      → ValidateRequest k8s json
      → KubernetesContext
      → Result Panic (Result b.BurregoError json.Value × b.Evaluator)
  evaluate_opa stack settings request ctx =
      evaluate_on stack request (b.to_vec (opa_data settings ctx))

  -- the `match` on the context
  unfoldable pub gatekeeper_data : KubernetesContext → Result Panic b.Bytes
  gatekeeper_data empty = ok b.empty_object
  gatekeeper_data (gatekeeper_context ctx) = ok ctx
  gatekeeper_data (opa_context ctx) = err unreachable

  unfoldable pub evaluate_gatekeeper :
      Stack
      → Dict String json.Value
      → AdmissionRequest k8s
      → KubernetesContext
      → Result Panic (Result b.BurregoError json.Value × b.Evaluator)
  evaluate_gatekeeper stack settings request ctx = do
    data_raw ← gatekeeper_data ctx
    ok_or guest_panicked (
        b.evaluate stack.evaluator stack.entrypoint_id
          (b.object
            (("parameters", b.object settings) ∷ ("review", b.admission_value request) ∷ []))
          data_raw)

  -- what the entrypoint of an OPA policy answered: `[0].result.response`
  abbrev pub opa_answer : json.Value → Option json.Value
  opa_answer value =
      and_then (and_then (b.get_index value 0) (λ r. json.get_key r "result"))
        (λ r. json.get_key r "response")

  abbrev pub opa_decoded : String → Result b.JsonError AdmissionResponse → AdmissionResponse
  opa_decoded uid (ok response) = record response { uid = uid }
  opa_decoded uid (err e) = reject_internal_server_error uid (b.json_error_to_string e)

  abbrev pub opa_answered : String → Option json.Value → AdmissionResponse
  opa_answered uid none = reject_internal_server_error uid "cannot interpret OPA policy result"
  opa_answered uid (some answer) = opa_decoded uid (b.response_from answer)

  -- the branch for `Opa`
  unfoldable pub opa_response : String → json.Value → AdmissionResponse
  opa_response uid value = opa_answered uid (opa_answer value)

  abbrev pub decoded_or_default : Result b.JsonError (List (Option String)) → List (Option String)
  decoded_or_default (ok vs) = vs
  decoded_or_default (err e) = []

  abbrev pub violations_or_default : Option json.Value → List (Option String)
  violations_or_default none = []
  violations_or_default (some v) = decoded_or_default (b.violations_from v)

  -- the violations, none of them if they cannot be decoded
  abbrev pub violations : json.Value → List (Option String)
  violations value = violations_or_default (b.get_index value 0)

  abbrev pub violations_response : String → List (Option String) → AdmissionResponse
  violations_response uid vs =
      if is_empty vs
      then record default_response { uid = uid; allowed = true }
      else record default_response {
        uid = uid;
        allowed = false;
        status = some (record default_status { message = some (join ", " (messages vs)) });
      }

  -- the branch for `Gatekeeper`
  unfoldable pub gatekeeper_response : String → json.Value → AdmissionResponse
  gatekeeper_response uid value = violations_response uid (violations value)

  abbrev pub interpret : RegoPolicyExecutionMode → String → json.Value → AdmissionResponse
  interpret opa uid value = opa_response uid value
  interpret gatekeeper uid value = gatekeeper_response uid value

  -- the evaluator after an error; the result of a reset is only logged
  unfoldable pub reset_if : Bool → b.Evaluator → Result Panic b.Evaluator
  reset_if false evaluator = ok evaluator
  reset_if true evaluator = do done ← ok_or guest_panicked (b.reset evaluator); ok done.1

  -- the `match` on the evaluation, with the evaluator that it leaves
  unfoldable pub finish :
      RegoPolicyExecutionMode
      → String
      → Result b.BurregoError json.Value
      → b.Evaluator
      → Result Panic (AdmissionResponse × b.Evaluator)
  finish mode uid (ok value) evaluator = ok (interpret mode uid value, evaluator)
  finish mode uid (err e) evaluator = do
    left ← reset_if (b.is_deadline_exceeded e) evaluator
    ok (reject_internal_server_error uid (b.error_to_string e), left)

  abbrev pub finish_evaluation :
      RegoPolicyExecutionMode
      → String
      → Result b.BurregoError json.Value × b.Evaluator
      → Result Panic (AdmissionResponse × b.Evaluator)
  finish_evaluation mode uid evaluation = finish mode uid evaluation.0 evaluation.1

  -- the branches of `validate`, by the mode
  abbrev pub validate_in :
      RegoPolicyExecutionMode
      → Stack
      → Dict String json.Value
      → ValidateRequest k8s json
      → KubernetesContext
      → Result Panic (AdmissionResponse × b.Evaluator)
  validate_in opa stack settings request ctx = do
    evaluation ← evaluate_opa stack settings request ctx
    finish_evaluation opa (uid k8s json request) evaluation
  validate_in gatekeeper stack settings (raw req) ctx = ok (
    reject_internal_server_error (uid k8s json (raw req))
        "Gatekeeper does not support raw validation requests",
    stack.evaluator,
  )
  validate_in gatekeeper stack settings (admission_request req) ctx = do
    evaluation ← evaluate_gatekeeper stack settings req ctx
    finish_evaluation gatekeeper (uid k8s json (admission_request req)) evaluation

  -- `Runtime::validate`, with the evaluator that it leaves in the stack
  unfoldable pub validate :
      Stack
      → Dict String json.Value
      → ValidateRequest k8s json
      → KubernetesContext
      → Result Panic (AdmissionResponse × b.Evaluator)
  validate stack settings request ctx =
      validate_in stack.policy_execution_mode stack settings request ctx

  -- `Runtime::validate_settings`
  unfoldable pub validate_settings : String → SettingsValidationResponse
  validate_settings settings = record { valid = true; message = none }
