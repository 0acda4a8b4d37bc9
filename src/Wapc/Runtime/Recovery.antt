-- ===== src/Wapc/Runtime/Recovery.antt =====
-- src/runtimes/wapc/runtime.rs and stack.rs: a policy whose execution was interrupted starts afresh.
use policy_evaluator.Prelude.{String, true, List, [], ◌∷◌, ok, err, ◌≡◌}
use policy_evaluator.Prelude.Dict.{Dict}
use policy_evaluator.Json.{Serde}
use policy_evaluator.Callback.Requests.{Bytes, Sdk}
use policy_evaluator.Callback.Host.{Channel, Decoders}
use policy_evaluator.Context.{EvaluationContext}
use policy_evaluator.Marshal.{Marshal}
use policy_evaluator.Request.{K8s, JsonValue, ValidateRequest, uid}
use policy_evaluator.Response.{reject}
use policy_evaluator.Response.Types.{AdmissionResponse}
use policy_evaluator.Wasm.{Wasm}
use policy_evaluator.Wapc.{WapcLibrary, StackPre, WapcStack, call}
use policy_evaluator.Wapc.Runtime.{is_interrupted, validate}

module _ {wasm : Wasm} {sdk : Sdk} (decode : Decoders sdk) (l : WapcLibrary wasm sdk)
    (bytes_debug : Bytes → String) {k8s : K8s} {json : JsonValue} {serde : Serde}
    (m : Marshal k8s json serde) where
  -- the parts of a stack that no operation changes
  abbrev pub SameOrigin : WapcStack decode l → WapcStack decode l → Type 0
  SameOrigin a b = (a.stack_pre ≡ b.stack_pre) × (a.eval_ctx ≡ b.eval_ctx)

  -- the stack after a sequence of validations
  abbrev pub after :
      WapcStack decode l
      → List (Dict String json.Value × ValidateRequest k8s json)
      → WapcStack decode l
  after stack [] = stack
  after stack ((settings, request) ∷ rest) =
      after (validate decode l bytes_debug m stack settings request).1 rest

  -- the deadline passed during the call of the guest for this request
  abbrev pub IsInterrupted :
      WapcStack decode l → Dict String json.Value → ValidateRequest k8s json → Type 0
  IsInterrupted stack settings request =
      (text : String) × (e : l.Error) × (m.params_to_string request settings ≡ ok text)
      × ((call decode l stack "validate" (m.as_bytes text)).0 ≡ err e)
      × (is_interrupted l e ≡ true)

  abbrev stack_of :
      l.WapcHost → StackPre decode l → EvaluationContext (Channel sdk) → WapcStack decode l
  stack_of host pre ctx = record { wapc_host = host; stack_pre = pre; eval_ctx = ctx }

  abbrev pub timeout_response : ValidateRequest k8s json → AdmissionResponse
  timeout_response request =
      reject (uid k8s json request)
        "Policy execution interrupted because it exceeded the allowed execution time" 500
