-- ===== src/Evaluator/Verdict.antt =====
-- src/policy_evaluator/evaluator.rs: the response of a policy of any kind, or its panic.
use policy_evaluator.Prelude.{
  String, Option, none, some, Result, ok, err, ok_or, ◌>>=◌, ◌≡◌, ◌≢◌, refl, ◌⊎◌, inl, inr,
  Result-cases, OkWith,
}
use policy_evaluator.Prelude.Dict.{Dict}
use policy_evaluator.Callback.Host.{Channel}
use policy_evaluator.Context.{EvaluationContext}
use policy_evaluator.Request.{ValidateRequest, uid}
use policy_evaluator.Response.{reject}
use policy_evaluator.Response.Types.{AdmissionResponse}
use policy_evaluator.Rego.{RegoRuntimeError}
use policy_evaluator.Rego.Build.{build_kubernetes_context-validate}
use policy_evaluator.Rego.Cache.{Clock, GateKeeperInventoryCache}
use policy_evaluator.Rego.Runtime as RegoRuntime
use policy_evaluator.Rego.Runtime.{KubernetesContext, Panic, unreachable, guest_panicked}
use policy_evaluator.Rego.Runtime.Identity as Identity
use policy_evaluator.Rego.Runtime.Panics as RegoPanics
use policy_evaluator.Wapc.Runtime.Verdict as WapcVerdict
use policy_evaluator.Wasi.Runtime as WasiRuntime
use policy_evaluator.Wasi.Runtime.Verdict as WasiVerdict
use policy_evaluator.Evaluator.{
  Runtime, wapc, rego, cli, PolicyEvaluator, Answer, validate_in_context, validate_by, validate,
}
use policy_evaluator.Evaluator.Libraries.{Environment}

module _ (env : Environment) where
  open env use {decode, utf8, k8s, json, m, l, w, b}

  -- where a validation can panic, by the kind of the policy: never for waPC; for WASI, if the run of
  -- the program on the request panics; for Rego, if the evaluator of the policy panics
  abbrev pub CanPanic : Runtime env → Dict String json.Value → ValidateRequest k8s json → Type 0
  CanPanic (wapc stack) settings request = ⊥
  CanPanic (cli stack) settings request =
      OkWith (m.params_to_vec request settings) (λ input. WasiVerdict.run_on w m stack input ≡ none)
  CanPanic (rego stack) settings request = RegoPanics.CanPanic b stack

  -- an answer with the uid of the request, or a panic of a guest that can panic
  abbrev AnswersTo : ValidateRequest k8s json → Type 0 → Result Panic (Answer env) → Type 0
  AnswersTo request panicking result =
      ((answer : Answer env) × (result ≡ ok answer) × (answer.response.uid ≡ uid k8s json request))
      ⊎ ((result ≡ err guest_panicked) × panicking)

  validate_in_context-AnswersTo :
      (stack : RegoRuntime.Stack b) (cache : GateKeeperInventoryCache b.Bytes)
      (settings : Dict String json.Value) (request : ValidateRequest k8s json)
      (built : Result RegoRuntimeError (KubernetesContext b × GateKeeperInventoryCache b.Bytes))
      → ((ctx : KubernetesContext b) (next : GateKeeperInventoryCache b.Bytes)
          → built ≡ ok (ctx, next)
          → RegoRuntime.validate b stack settings request ctx ≢ err unreachable)
      → AnswersTo request
          (RegoPanics.CanPanic b stack)
          (validate_in_context env stack cache settings request built)
  unfolding reject
  validate_in_context-AnswersTo stack cache settings request (err e) safe = inl (_, refl, refl)
  validate_in_context-AnswersTo stack cache settings request (ok (ctx, next)) safe =
      elim (Result-cases (RegoRuntime.validate b stack settings request ctx)) [
        | inl (answered, done) ↦ inl (
          record {
            response = answered.0;
            runtime = rego (record stack { evaluator = answered.1 });
            cache = next;
          },
          rw done refl,
          Identity.validate-uid b stack settings request ctx answered done,
        )
        | inr (unreachable, panics) ↦ absurd (safe ctx next refl panics)
        | inr (guest_panicked, panics) ↦
            inr (rw panics refl, RegoPanics.validate-panics b stack settings request ctx panics)
      ]

  run-AnswersTo :
      (stack : _) (cache : GateKeeperInventoryCache b.Bytes) (request : ValidateRequest k8s json)
      (panicking : Type 0) (answered : Option AdmissionResponse)
      → ((response : AdmissionResponse)
          → answered ≡ some response
          → response.uid ≡ uid k8s json request)
      → (answered ≡ none → panicking)
      → AnswersTo request panicking (do
        response ← ok_or guest_panicked answered
        ok (record { response = response; runtime = cli stack; cache = cache }))
  run-AnswersTo stack cache request panicking none same_uid panics = inr (refl, panics refl)
  run-AnswersTo stack cache request panicking (some response) same_uid panics =
      inl (_, refl, same_uid response refl)

  validate_by-AnswersTo :
      (now : Clock) (cache : GateKeeperInventoryCache b.Bytes) (runtime : Runtime env)
      (ctx : EvaluationContext (Channel env.sdk)) (settings : Dict String json.Value)
      (request : ValidateRequest k8s json)
      → AnswersTo request
          (CanPanic runtime settings request)
          (validate_by env now cache runtime ctx settings request)
  validate_by-AnswersTo now cache (wapc stack) ctx settings request =
      let validated =
        WapcVerdict.validate-IsResponseTo decode l env.bytes_debug m stack settings request in
      inl (_, refl, validated.same_uid)
  validate_by-AnswersTo now cache (rego stack) ctx settings request =
      validate_in_context-AnswersTo stack cache settings request _ (λ context next built.
        build_kubernetes_context-validate b env.readers env.inventory_to_vec env.resource_debug now
          stack ctx.callback_channel cache next ctx.ctx_aware_resources_allow_list context settings
          request built)
  validate_by-AnswersTo now cache (cli stack) ctx settings request =
      run-AnswersTo stack cache request _ (WasiRuntime.validate w m stack settings request)
        (λ response done.
          let validated =
            WasiVerdict.validate-IsResponseTo w m stack settings request response done in
          validated.same_uid)
        (WasiVerdict.validate-panics w m stack settings request)

  pub validate_total :
      (now : Clock) (cache : GateKeeperInventoryCache b.Bytes) (evaluator : PolicyEvaluator env)
      (request : ValidateRequest k8s json) (settings : Dict String json.Value)
      → ((response : AdmissionResponse) × (next : PolicyEvaluator env)
          × (cache' : GateKeeperInventoryCache b.Bytes) × (validate env now cache evaluator request
                settings
              ≡ ok (response, next, cache'))
          × (response.uid ≡ uid k8s json request)
          × (next.eval_ctx ≡ evaluator.eval_ctx))
        ⊎ ((validate env now cache evaluator request settings ≡ err guest_panicked)
            × CanPanic evaluator.runtime settings request)
  unfolding validate
  validate_total now cache evaluator request settings =
      elim (validate_by-AnswersTo now cache evaluator.runtime evaluator.eval_ctx settings request) [
        | inl (answer, answered, same_uid) ↦ inl (
          answer.response,
          record evaluator { runtime = answer.runtime },
          answer.cache,
          rw answered refl,
          same_uid,
          refl,
        )
        | inr (panics, there) ↦ inr (rw panics refl, there)
      ]
