-- ===== src/Rego/Runtime/Unreachable.antt =====
-- src/runtimes/rego/runtime.rs: which requests reach `unreachable!()`.
use policy_evaluator.Prelude.{
  String, true, Option, none, some, Result, ok, err, string_eq, ◌≡◌, ◌↔◌, refl, ok_or, ◌>>=◌, ◌≢◌,
  Bool, false,
}
use policy_evaluator.Prelude.Dict.{Dict}
use policy_evaluator.Request.{
  K8s, JsonValue, ValidateRequest, raw, admission_request, uid, RegoPolicyExecutionMode, opa,
  gatekeeper,
}
use policy_evaluator.Rego.Runtime.{
  Burrego, Panic, unreachable, guest_panicked, reset_if, opa_data, evaluate_on, KubernetesContext,
  empty, opa_context, gatekeeper_context, Stack, evaluate_opa, gatekeeper_data, evaluate_gatekeeper,
  finish, finish_evaluation, validate_in, validate,
}

module _ {k8s : K8s} {json : JsonValue} (b : Burrego k8s json) where
  -- the calls that reach `unreachable!()`
  abbrev pub IsUnreachable :
      RegoPolicyExecutionMode → ValidateRequest k8s json → KubernetesContext b → Type 0
  IsUnreachable gatekeeper (admission_request req) (opa_context inventory) = Unit
  IsUnreachable _ _ _ = ⊥

  guest-reachable : {A : Type 0} (o : Option A) → ok_or guest_panicked o ≢ err unreachable
  guest-reachable none h = cc
  guest-reachable (some a) h = cc

  bind-reachable :
      {A B : Type 0} (r : Result Panic A) (k : A → Result Panic B)
      → r ≢ err unreachable
      → ((a : A) → k a ≢ err unreachable)
      → (r >>= k) ≢ err unreachable
  bind-reachable (ok a) k first next h = next a h
  bind-reachable (err unreachable) k first next h = first refl
  bind-reachable (err guest_panicked) k first next h = cc

  reset_if-reachable : (yes_do : Bool) (ev : b.Evaluator) → reset_if b yes_do ev ≢ err unreachable
  unfolding reset_if
  reset_if-reachable false ev h = cc
  reset_if-reachable true ev h =
      bind-reachable (ok_or guest_panicked (b.reset ev)) _ (guest-reachable (b.reset ev))
        (λ a h'. cc) h

  finish-reachable :
      (mode : RegoPolicyExecutionMode) (id : String)
      (evaluation : Result b.BurregoError json.Value × b.Evaluator)
      → finish_evaluation b mode id evaluation ≢ err unreachable
  unfolding finish
  finish-reachable mode id (ok value, ev) h = cc
  finish-reachable mode id (err e, ev) h =
      bind-reachable (reset_if b (b.is_deadline_exceeded e) ev) _
        (reset_if-reachable (b.is_deadline_exceeded e) ev) (λ a h'. cc) h

  evaluate_on-reachable :
      (stack : Stack b) (request : ValidateRequest k8s json) (printed : Result b.JsonError b.Bytes)
      → evaluate_on b stack request printed ≢ err unreachable
  evaluate_on-reachable stack request (err e) h = cc
  evaluate_on-reachable stack request (ok data_raw) h = guest-reachable _ h

  evaluate_opa-reachable :
      (stack : Stack b) (settings : Dict String json.Value) (request : ValidateRequest k8s json)
      (ctx : KubernetesContext b)
      → evaluate_opa b stack settings request ctx ≢ err unreachable
  unfolding evaluate_opa
  evaluate_opa-reachable stack settings request ctx h =
      evaluate_on-reachable stack request (b.to_vec (opa_data b settings ctx)) h

  validate_in-err :
      (mode : RegoPolicyExecutionMode) (stack : Stack b) (settings : Dict String json.Value)
      (request : ValidateRequest k8s json) (ctx : KubernetesContext b)
      → (validate_in b mode stack settings request ctx ≡ err unreachable)
        ↔ IsUnreachable mode request ctx
  unfolding evaluate_gatekeeper gatekeeper_data
  validate_in-err opa stack settings request ctx = (
    (λ h. absurd (
        bind-reachable (evaluate_opa b stack settings request ctx) _
          (evaluate_opa-reachable stack settings request ctx)
          (λ a. finish-reachable opa (uid k8s json request) a) h)),
    λ h. absurd h,
  )
  validate_in-err gatekeeper stack settings (raw req) ctx = ((λ h. cc), λ h. absurd h)
  validate_in-err gatekeeper stack settings (admission_request req) empty = (
    (λ h. absurd (
        bind-reachable _ _ (guest-reachable _)
          (λ a. finish-reachable gatekeeper (uid k8s json (admission_request req)) a) h)),
    λ h. absurd h,
  )
  validate_in-err gatekeeper stack settings (admission_request req) (opa_context inventory) =
      ((λ h. tt), λ h. refl)
  validate_in-err gatekeeper stack settings (admission_request req) (gatekeeper_context bytes) = (
    (λ h. absurd (
        bind-reachable _ _ (guest-reachable _)
          (λ a. finish-reachable gatekeeper (uid k8s json (admission_request req)) a) h)),
    λ h. absurd h,
  )

  -- `Runtime::validate` reaches `unreachable!()` exactly for an admission request in the mode of
  -- Gatekeeper with a context that was built for OPA.
  pub validate-err :
      (stack : Stack b) (settings : Dict String json.Value) (request : ValidateRequest k8s json)
      (ctx : KubernetesContext b)
      → (validate b stack settings request ctx ≡ err unreachable)
        ↔ IsUnreachable stack.policy_execution_mode request ctx
  unfolding validate
  validate-err stack settings request ctx =
      validate_in-err stack.policy_execution_mode stack settings request ctx
