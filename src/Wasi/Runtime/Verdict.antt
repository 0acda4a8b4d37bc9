-- ===== src/Wasi/Runtime/Verdict.antt =====
-- src/runtimes/wasi_cli/runtime.rs: when a WASI policy allows a request.
use policy_evaluator.Prelude.{
  String, true, Option, none, some, some_injective, refl, sym, ap, ◌∙◌, subst, [], ◌∷◌, Result, ok,
  err, OkWith, OkWith-ok, OkWith-err, ◌≡◌, ◌↔◌,
}
use policy_evaluator.Prelude.Dict.{Dict}
use policy_evaluator.Json.{Serde}
use policy_evaluator.Callback.Requests.{Bytes, Sdk}
use policy_evaluator.Callback.Host.{Decoders}
use policy_evaluator.Marshal.{Marshal, req_obj}
use policy_evaluator.Marshal.Answer.{
  IsResponseTo, IsAcceptance, respond-IsResponseTo, respond-allowed, reject-IsResponseTo,
  reject_internal-IsResponseTo, reject_internal-denied,
}
use policy_evaluator.Request.{K8s, JsonValue, ValidateRequest, uid}
use policy_evaluator.Response.{reject}
use policy_evaluator.Response.Types.{AdmissionResponse}
use policy_evaluator.Wasm.{Wasm}
use policy_evaluator.Wasi.Errors.{WasiRuntimeError, error_to_string}
use policy_evaluator.Wasi.HostCall.{Utf8}
use policy_evaluator.Wasi.Stack.{Wasmtime, Stack, RunResult, run}
use policy_evaluator.Wasi.Runtime.{
  cannot_deserialize, cannot_convert, answer_run, run_with, validate,
}

module _ {wasm : Wasm} {utf8 : Utf8} {sdk : Sdk} {decode : Decoders sdk}
    (w : Wasmtime wasm utf8 decode) {k8s : K8s} {json : JsonValue} {serde : Serde}
    (m : Marshal k8s json serde) where
  answer_run-IsResponseTo :
      (request : ValidateRequest k8s json)
      (ran : Option (Result WasiRuntimeError (RunResult utf8 decode w)))
      (response : AdmissionResponse)
      → answer_run w m request ran ≡ some response
      → IsResponseTo (uid k8s json request) response
  answer_run-IsResponseTo request none response h = cc
  answer_run-IsResponseTo request (some (err e)) response h =
      let same : reject (uid k8s json request) (error_to_string e) 500 ≡ response = cc in
      subst (IsResponseTo (uid k8s json request)) same (reject-IsResponseTo _ _ 500)
  answer_run-IsResponseTo request (some (ok result)) response h =
      subst (IsResponseTo (uid k8s json request)) (some_injective h)
        (respond-IsResponseTo cannot_deserialize cannot_convert _ _ _)

  run_with-IsResponseTo :
      (stack : Stack utf8 decode w) (request : ValidateRequest k8s json)
      (params : Result serde.Error Bytes) (response : AdmissionResponse)
      → run_with w m stack request params ≡ some response
      → IsResponseTo (uid k8s json request) response
  run_with-IsResponseTo stack request (err e) response h =
      subst (IsResponseTo (uid k8s json request)) (some_injective h)
        (reject_internal-IsResponseTo _ _)
  run_with-IsResponseTo stack request (ok input) response h =
      answer_run-IsResponseTo request _ response h

  -- Every response of a WASI policy has the uid of its request, and a patch only with its type.
  pub validate-IsResponseTo :
      (stack : Stack utf8 decode w) (settings : Dict String json.Value)
      (request : ValidateRequest k8s json) (response : AdmissionResponse)
      → validate w m stack settings request ≡ some response
      → IsResponseTo (uid k8s json request) response
  unfolding validate
  validate-IsResponseTo stack settings request response h =
      run_with-IsResponseTo stack request (m.params_to_vec request settings) response h

  -- the run of the policy on a request
  abbrev pub run_on :
      Stack utf8 decode w → Bytes → Option (Result WasiRuntimeError (RunResult utf8 decode w))
  run_on stack input = run utf8 decode w stack input ("policy.wasm" ∷ "validate" ∷ [])

  -- an output that can be read and is accepted
  abbrev pub AcceptedBy : ValidateRequest k8s json → RunResult utf8 decode w → Type 0
  AcceptedBy request result =
      IsAcceptance (uid k8s json request) (req_obj m request)
        (m.response_from_slice (m.as_bytes result.stdout))

  -- a run that ends with an output that can be read and is accepted
  abbrev pub IsAcceptedRun :
      ValidateRequest k8s json → Option (Result WasiRuntimeError (RunResult utf8 decode w)) → Type 0
  IsAcceptedRun request ran =
      (result : RunResult utf8 decode w) × (ran ≡ some (ok result)) × AcceptedBy request result

  answer_run-allowed :
      (request : ValidateRequest k8s json)
      (ran : Option (Result WasiRuntimeError (RunResult utf8 decode w)))
      (response : AdmissionResponse)
      → answer_run w m request ran ≡ some response
      → (response.allowed ≡ true) ↔ IsAcceptedRun request ran
  unfolding reject
  answer_run-allowed request none response h = cc
  answer_run-allowed request (some (err e)) response h =
      let same = ap (λ r. r.allowed) (some_injective h) in
      ((λ allowed. cc), λ (result, ran, accepted). cc)
  answer_run-allowed request (some (ok result)) response h =
      let same = ap (λ r. r.allowed) (some_injective h) in
      let verdict =
        respond-allowed cannot_deserialize cannot_convert (uid k8s json request) (req_obj m request)
          (m.response_from_slice (m.as_bytes result.stdout)) in
      (
        (λ allowed. (result, refl, verdict.0 (same ∙ allowed))),
        λ (other, ran, accepted).
            let back : other ≡ result = cc in
            sym same ∙ verdict.1 (subst (AcceptedBy request) back accepted),
      )

  run_with-allowed :
      (stack : Stack utf8 decode w) (request : ValidateRequest k8s json)
      (params : Result serde.Error Bytes) (response : AdmissionResponse)
      → run_with w m stack request params ≡ some response
      → (response.allowed ≡ true)
        ↔ OkWith params (λ input. IsAcceptedRun request (run_on stack input))
  run_with-allowed stack request (err e) response h =
      let denied = reject_internal-denied (uid k8s json request) (serde.error_to_string e) in
      let same = ap (λ r. r.allowed) (some_injective h) in
      (
        (λ allowed. cc),
        λ p. absurd (OkWith-err (λ input. IsAcceptedRun request (run_on stack input)) e p),
      )
  run_with-allowed stack request (ok input) response h =
      let verdict = answer_run-allowed request (run_on stack input) response h in
      let there = OkWith-ok (λ i. IsAcceptedRun request (run_on stack i)) input in
      ((λ allowed. there.1 (verdict.0 allowed)), λ p. verdict.1 (there.0 p))

  -- When a WASI policy answers, it allows the request exactly if the request and the settings could
  -- be serialised, the run of the program on them gave a result, and its standard output can be read
  -- as an answer that is accepted: the policy accepts, does not mutate the object of a delete, and
  -- its mutation, if any, gives a patch.
  pub validate-allowed :
      (stack : Stack utf8 decode w) (settings : Dict String json.Value)
      (request : ValidateRequest k8s json) (response : AdmissionResponse)
      → validate w m stack settings request ≡ some response
      → (response.allowed ≡ true)
        ↔ OkWith
            (m.params_to_vec request settings)
            (λ input. IsAcceptedRun request (run_on stack input))
  unfolding validate
  validate-allowed stack settings request response h =
      run_with-allowed stack request (m.params_to_vec request settings) response h

  answer_run-panics :
      (request : ValidateRequest k8s json)
      (ran : Option (Result WasiRuntimeError (RunResult utf8 decode w)))
      → answer_run w m request ran ≡ none
      → ran ≡ none
  answer_run-panics request none h = refl
  answer_run-panics request (some (err e)) h = cc
  answer_run-panics request (some (ok result)) h = cc

  run_with-panics :
      (stack : Stack utf8 decode w) (request : ValidateRequest k8s json)
      (params : Result serde.Error Bytes)
      → run_with w m stack request params ≡ none
      → OkWith params (λ input. run_on stack input ≡ none)
  run_with-panics stack request (err e) h = cc
  run_with-panics stack request (ok input) h =
      (input, refl, answer_run-panics request (run_on stack input) h)

  -- It panics only if the run of the program on the request and the settings does.
  pub validate-panics :
      (stack : Stack utf8 decode w) (settings : Dict String json.Value)
      (request : ValidateRequest k8s json)
      → validate w m stack settings request ≡ none
      → OkWith (m.params_to_vec request settings) (λ input. run_on stack input ≡ none)
  unfolding validate
  validate-panics stack settings request h =
      run_with-panics stack request (m.params_to_vec request settings) h
