-- ===== src/Rego/Runtime/Panics.antt =====
-- src/runtimes/rego/runtime.rs: where a panic of a guest comes from.
use policy_evaluator.Prelude.{
  String, Bool, true, false, none, Result, ok, err, ok_or, ok_or-eq-err, ◌>>=◌, ◌≡◌, ◌⊎◌, inl, inr,
  refl,
}
use policy_evaluator.Prelude.Dict.{Dict}
use policy_evaluator.Request.{
  K8s, JsonValue, ValidateRequest, raw, admission_request, RegoPolicyExecutionMode, opa, gatekeeper,
}
use policy_evaluator.Rego.Runtime.{
  Burrego, Panic, unreachable, guest_panicked, KubernetesContext, empty, opa_context,
  gatekeeper_context, Stack, opa_data, evaluate_on, evaluate_opa, gatekeeper_data,
  evaluate_gatekeeper, reset_if, finish, finish_evaluation, validate_in, validate,
}

bind-panics :
    {A B : Type 0} (r : Result Panic A) (k : A → Result Panic B)
    → (r >>= k) ≡ err guest_panicked
    → (r ≡ err guest_panicked) ⊎ ((a : A) × (k a ≡ err guest_panicked))
bind-panics (ok a) k h = inr (a, h)
bind-panics (err guest_panicked) k h = inl refl
bind-panics (err unreachable) k h = cc

module _ {k8s : K8s} {json : JsonValue} (b : Burrego k8s json) where
  -- the evaluator of a stack panics on some input and data, or some evaluator panics when it is reset
  abbrev pub CanPanic : Stack b → Type 0
  CanPanic stack =
      ((input : json.Value) × (bytes : b.Bytes) × (b.evaluate stack.evaluator stack.entrypoint_id
            input bytes
          ≡ none))
      ⊎ ((ev : b.Evaluator) × (b.reset ev ≡ none))

  reset_if-panics :
      (wanted : Bool) (ev : b.Evaluator)
      → reset_if b wanted ev ≡ err guest_panicked
      → b.reset ev ≡ none
  unfolding reset_if
  reset_if-panics false ev h = cc
  reset_if-panics true ev h = elim (bind-panics (ok_or guest_panicked (b.reset ev)) _ h) [
    | inl first ↦ ok_or-eq-err guest_panicked (b.reset ev) first
    | inr (a, later) ↦ cc
  ]

  finish-panics :
      (mode : RegoPolicyExecutionMode) (id : String)
      (evaluation : Result b.BurregoError json.Value × b.Evaluator)
      → finish_evaluation b mode id evaluation ≡ err guest_panicked
      → (ev : b.Evaluator) × (b.reset ev ≡ none)
  unfolding finish
  finish-panics mode id (ok value, ev) h = cc
  finish-panics mode id (err e, ev) h =
      elim (bind-panics (reset_if b (b.is_deadline_exceeded e) ev) _ h) [
        | inl first ↦ (ev, reset_if-panics (b.is_deadline_exceeded e) ev first)
        | inr (a, later) ↦ cc
      ]

  evaluate_on-panics :
      (stack : Stack b) (request : ValidateRequest k8s json) (printed : Result b.JsonError b.Bytes)
      → evaluate_on b stack request printed ≡ err guest_panicked
      → CanPanic stack
  evaluate_on-panics stack request (err e) h = cc
  evaluate_on-panics stack request (ok data_raw) h =
      inl (_, data_raw, ok_or-eq-err guest_panicked _ h)

  evaluate_gatekeeper-panics :
      (stack : Stack b) (settings : Dict String json.Value) (req : _) (ctx : KubernetesContext b)
      → evaluate_gatekeeper b stack settings req ctx ≡ err guest_panicked
      → CanPanic stack
  unfolding evaluate_gatekeeper gatekeeper_data
  evaluate_gatekeeper-panics stack settings req empty h =
      inl (_, _, ok_or-eq-err guest_panicked _ h)
  evaluate_gatekeeper-panics stack settings req (gatekeeper_context bytes) h =
      inl (_, _, ok_or-eq-err guest_panicked _ h)
  evaluate_gatekeeper-panics stack settings req (opa_context inventory) h = cc

  validate_in-panics :
      (mode : RegoPolicyExecutionMode) (stack : Stack b) (settings : Dict String json.Value)
      (request : ValidateRequest k8s json) (ctx : KubernetesContext b)
      → validate_in b mode stack settings request ctx ≡ err guest_panicked
      → CanPanic stack
  unfolding evaluate_opa
  validate_in-panics opa stack settings request ctx h =
      elim (bind-panics (evaluate_opa b stack settings request ctx) _ h) [
        | inl first ↦ evaluate_on-panics stack request (b.to_vec (opa_data b settings ctx)) first
        | inr (evaluation, later) ↦ inr (finish-panics opa _ evaluation later)
      ]
  validate_in-panics gatekeeper stack settings (raw req) ctx h = cc
  validate_in-panics gatekeeper stack settings (admission_request req) ctx h =
      elim (bind-panics (evaluate_gatekeeper b stack settings req ctx) _ h) [
        | inl first ↦ evaluate_gatekeeper-panics stack settings req ctx first
        | inr (evaluation, later) ↦ inr (finish-panics gatekeeper _ evaluation later)
      ]

  -- A validation panics in a guest only if the evaluator of the stack does, or a reset.
  pub validate-panics :
      (stack : Stack b) (settings : Dict String json.Value) (request : ValidateRequest k8s json)
      (ctx : KubernetesContext b)
      → validate b stack settings request ctx ≡ err guest_panicked
      → CanPanic stack
  unfolding validate
  validate-panics stack settings request ctx h =
      validate_in-panics stack.policy_execution_mode stack settings request ctx h
