-- ===== src/Rego/Runtime/Identity.antt =====
-- src/runtimes/rego/runtime.rs: a response of a Rego policy belongs to its request.
use policy_evaluator.Prelude.{
  String, Option, none, some, List, [], ◌∷◌, Result, ok, err, ◌≡◌, refl, ◌∙◌, sym, ap, >>=-eq-ok,
  ok_injective, ◌>>=◌,
}
use policy_evaluator.Prelude.Dict.{Dict}
use policy_evaluator.Request.{
  K8s, JsonValue, ValidateRequest, raw, admission_request, uid, RegoPolicyExecutionMode, opa,
  gatekeeper,
}
use policy_evaluator.Response.{reject, reject_internal_server_error}
use policy_evaluator.Response.Types.{AdmissionResponse}
use policy_evaluator.Rego.Runtime.{
  Burrego, Panic, reset_if, KubernetesContext, Stack, evaluate_opa, evaluate_gatekeeper, opa_answer,
  opa_response, violations, opa_decoded, opa_answered, violations_response, gatekeeper_response,
  interpret, finish, finish_evaluation, validate_in, validate,
}

module _ {k8s : K8s} {json : JsonValue} (b : Burrego k8s json) where
  opa_decoded-uid :
      (id : String) (r : Result b.JsonError AdmissionResponse) → (opa_decoded b id r).uid ≡ id
  unfolding reject_internal_server_error reject
  opa_decoded-uid id (ok response) = refl
  opa_decoded-uid id (err e) = refl

  opa_answered-uid : (id : String) (a : Option json.Value) → (opa_answered b id a).uid ≡ id
  unfolding reject_internal_server_error reject
  opa_answered-uid id none = refl
  opa_answered-uid id (some answer) = opa_decoded-uid id (b.response_from answer)

  violations_response-uid :
      (id : String) (vs : List (Option String)) → (violations_response b id vs).uid ≡ id
  violations_response-uid id [] = refl
  violations_response-uid id (v ∷ vs) = refl

  interpret-uid :
      (mode : RegoPolicyExecutionMode) (id : String) (value : json.Value)
      → (interpret b mode id value).uid ≡ id
  unfolding opa_response gatekeeper_response
  interpret-uid opa id value = opa_answered-uid id (opa_answer b value)
  interpret-uid gatekeeper id value = violations_response-uid id (violations b value)

  finish-uid :
      (mode : RegoPolicyExecutionMode) (id : String) (r : Result b.BurregoError json.Value)
      (ev : b.Evaluator) (answer : AdmissionResponse × b.Evaluator)
      → finish b mode id r ev ≡ ok answer
      → answer.0.uid ≡ id
  unfolding finish reject_internal_server_error reject
  finish-uid mode id (ok value) ev answer h =
      ap (λ a. a.0.uid) (sym (ok_injective h)) ∙ interpret-uid mode id value
  finish-uid mode id (err e) ev answer h =
      let (left, reset_done, rest) = >>=-eq-ok (reset_if b (b.is_deadline_exceeded e) ev) _ h in
      ap (λ a. a.0.uid) (sym (ok_injective rest))

  evaluated-uid :
      (mode : RegoPolicyExecutionMode) (id : String)
      (ran : Result Panic (Result b.BurregoError json.Value × b.Evaluator))
      (answer : AdmissionResponse × b.Evaluator)
      → (ran >>= finish_evaluation b mode id) ≡ ok answer
      → answer.0.uid ≡ id
  evaluated-uid mode id ran answer h =
      let (evaluation, done, rest) = >>=-eq-ok ran (finish_evaluation b mode id) h in
      finish-uid mode id evaluation.0 evaluation.1 answer rest

  validate_in-uid :
      (mode : RegoPolicyExecutionMode) (stack : Stack b) (settings : Dict String json.Value)
      (request : ValidateRequest k8s json) (ctx : KubernetesContext b)
      (answer : AdmissionResponse × b.Evaluator)
      → validate_in b mode stack settings request ctx ≡ ok answer
      → answer.0.uid ≡ uid k8s json request
  unfolding reject_internal_server_error reject
  validate_in-uid opa stack settings request ctx answer h =
      evaluated-uid opa (uid k8s json request) (evaluate_opa b stack settings request ctx) answer h
  validate_in-uid gatekeeper stack settings (raw req) ctx answer h =
      ap (λ a. a.0.uid) (sym (ok_injective h))
  validate_in-uid gatekeeper stack settings (admission_request req) ctx answer h =
      evaluated-uid gatekeeper (uid k8s json (admission_request req))
        (evaluate_gatekeeper b stack settings req ctx) answer h

  -- When `Runtime::validate` answers, the response has the uid of the request, also where the policy
  -- itself wrote another one.
  pub validate-uid :
      (stack : Stack b) (settings : Dict String json.Value) (request : ValidateRequest k8s json)
      (ctx : KubernetesContext b) (answer : AdmissionResponse × b.Evaluator)
      → validate b stack settings request ctx ≡ ok answer
      → answer.0.uid ≡ uid k8s json request
  unfolding validate
  validate-uid stack settings request ctx answer h =
      validate_in-uid stack.policy_execution_mode stack settings request ctx answer h
