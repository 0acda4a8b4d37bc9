-- ===== src/Evaluator.antt =====
-- src/policy_evaluator/evaluator.rs, policy_evaluator_pre.rs, stack_pre.rs and src/runtimes.rs: a
-- policy of any kind, and the dispatch over the runtimes.
pub mod Libraries
pub mod Members
pub mod Sample
mod Tests
pub mod Builder
pub mod Allowed
pub mod Verdict
pub mod Calm
use policy_evaluator.Prelude.{
  ℕ, String, false, Option, some, List, Result, ok, err, ok_or, ◌>>=◌, map_err, and_then, ◌<>◌,
}
use policy_evaluator.Prelude.Dict.{Dict}
use policy_evaluator.Callback.Host.{Channel}
use policy_evaluator.Context.{EvaluationContext}
use policy_evaluator.Group.{SettingsValidationResponse}
use policy_evaluator.Request.{ValidateRequest, uid, RegoPolicyExecutionMode, opa, gatekeeper}
use policy_evaluator.Response.{reject}
use policy_evaluator.Response.Types.{AdmissionResponse}
use policy_evaluator.Rego as Rego
use policy_evaluator.Rego.{RegoRuntimeError}
use policy_evaluator.Rego.Cache.{Clock, GateKeeperInventoryCache}
use policy_evaluator.Rego.Build.{build_kubernetes_context}
use policy_evaluator.Rego.Prepare as RegoPrepare
use policy_evaluator.Rego.Runtime as RegoRuntime
use policy_evaluator.Rego.Runtime.{KubernetesContext, Panic, guest_panicked}
use policy_evaluator.Wapc as Wapc
use policy_evaluator.Wapc.{WapcRuntimeError}
use policy_evaluator.Wapc.Runtime as WapcRuntime
use policy_evaluator.Wasi.Errors.{WasiRuntimeError}
use policy_evaluator.Wasi.Stack as WasiStack
use policy_evaluator.Wasi.Runtime as WasiRuntime
use Libraries.{Environment}

-- `PolicyEvaluatorError` and `PolicyEvaluatorPreError`
pub data PolicyEvaluatorError (E : Type 0) : Type 0 where
  invalid_protocol_version : PolicyEvaluatorError E
  invoke_wapc_protocol_version : E → PolicyEvaluatorError E

pub data PolicyEvaluatorPreError (E : Type 0) : Type 0 where
  rehydrate_wapc : E → PolicyEvaluatorPreError E
  rehydrate_rego : RegoRuntimeError → PolicyEvaluatorPreError E

module _ (env : Environment) where
  open env use {wasm, sdk, decode, utf8, k8s, json, serde, m, l, w, b}

  pub data Runtime : Type 0 where
    wapc : Wapc.WapcStack decode l → Runtime
    rego : RegoRuntime.Stack b → Runtime
    cli : WasiStack.Stack utf8 decode w → Runtime

  abbrev rego_mode_to_string : RegoPolicyExecutionMode → String
  rego_mode_to_string opa = "OPA"
  rego_mode_to_string gatekeeper = "Gatekeeper"

  -- `Display for Runtime`
  unfoldable pub runtime_to_string : Runtime → String
  runtime_to_string (cli stack) = "wasi"
  runtime_to_string (wapc stack) = "wapc"
  runtime_to_string (rego stack) = rego_mode_to_string stack.policy_execution_mode

  -- `StackPre` of src/policy_evaluator/stack_pre.rs
  pub data StackPre : Type 0 where
    wapc_pre : Wapc.StackPre decode l → StackPre
    wasi_pre : WasiStack.StackPre utf8 decode w → StackPre
    rego_pre : RegoPrepare.StackPre wasm → StackPre

  pub record PolicyEvaluator : Type 0 where
    pub runtime : Runtime
    pub eval_ctx : EvaluationContext (Channel sdk)

  -- `PolicyEvaluator::new`
  unfoldable pub new : Runtime → EvaluationContext (Channel sdk) → PolicyEvaluator
  new runtime ctx = record { runtime = runtime; eval_ctx = ctx }

  pub record PolicyEvaluatorPre : Type 0 where
    pub stack_pre : StackPre

  abbrev pub runtime_from :
      StackPre
      → EvaluationContext (Channel sdk)
      → Result (PolicyEvaluatorPreError (WapcRuntimeError l)) Runtime
  runtime_from (wapc_pre pre) ctx = do
    stack ← map_err rehydrate_wapc (Wapc.new_from_pre decode l pre ctx)
    ok (wapc stack)
  runtime_from (wasi_pre pre) ctx = ok (cli (WasiStack.new_from_pre utf8 decode w pre ctx))
  runtime_from (rego_pre pre) ctx = do
    stack ←
        map_err rehydrate_rego (RegoPrepare.new_from_pre b env.build_burrego pre ctx.epoch_deadline)
    ok (rego stack)

  -- `PolicyEvaluatorPre::rehydrate`
  unfoldable pub rehydrate :
      PolicyEvaluatorPre
      → EvaluationContext (Channel sdk)
      → Result (PolicyEvaluatorPreError (WapcRuntimeError l)) PolicyEvaluator
  rehydrate pre ctx = do runtime ← runtime_from pre.stack_pre ctx; ok (new runtime ctx)

  -- what a validation leaves: the response, the runtime and the global cache of inventories
  pub record Answer : Type 0 where
    pub response : AdmissionResponse
    pub runtime : Runtime
    pub cache : GateKeeperInventoryCache b.Bytes

  -- the branch for Rego, after the context was built or could not be built
  abbrev pub validate_in_context :
      RegoRuntime.Stack b
      → GateKeeperInventoryCache b.Bytes
      → Dict String json.Value
      → ValidateRequest k8s json
      → Result RegoRuntimeError (KubernetesContext b × GateKeeperInventoryCache b.Bytes)
      → Result Panic Answer
  validate_in_context stack cache settings request (err e) = ok (record {
    response = reject (uid k8s json request) (Rego.error_to_string e) 500;
    runtime = rego stack;
    cache = cache;
  })
  validate_in_context stack cache settings request (ok (ctx, next)) = do
    answered ← RegoRuntime.validate b stack settings request ctx
    ok (record {
      response = answered.0;
      runtime = rego (record stack { evaluator = answered.1 });
      cache = next;
    })

  -- the dispatch, with the clock during the call
  abbrev pub validate_by :
      Clock
      → GateKeeperInventoryCache b.Bytes
      → Runtime
      → EvaluationContext (Channel sdk)
      → Dict String json.Value
      → ValidateRequest k8s json
      → Result Panic Answer
  validate_by now cache (wapc stack) ctx settings request =
      let validated = WapcRuntime.validate decode l env.bytes_debug m stack settings request in
      ok (record { response = validated.0; runtime = wapc validated.1; cache = cache })
  validate_by now cache (rego stack) ctx settings request =
      validate_in_context stack cache settings request (
        build_kubernetes_context b env.readers env.inventory_to_vec env.resource_debug now stack
          ctx.callback_channel cache ctx.ctx_aware_resources_allow_list)
  validate_by now cache (cli stack) ctx settings request = do
    response ← ok_or guest_panicked (WasiRuntime.validate w m stack settings request)
    ok (record { response = response; runtime = cli stack; cache = cache })

  -- `PolicyEvaluator::validate`
  unfoldable pub validate :
      Clock
      → GateKeeperInventoryCache b.Bytes
      → PolicyEvaluator
      → ValidateRequest k8s json
      → Dict String json.Value
      → Result Panic (AdmissionResponse × PolicyEvaluator × GateKeeperInventoryCache b.Bytes)
  validate now cache evaluator request settings = do
    answer ← validate_by now cache evaluator.runtime evaluator.eval_ctx settings request
    ok (answer.response, record evaluator { runtime = answer.runtime }, answer.cache)

  abbrev pub validate_settings_by : Runtime → String → Option (SettingsValidationResponse × Runtime)
  validate_settings_by (wapc stack) settings =
      let validated = WapcRuntime.validate_settings decode l env.bytes_debug m stack settings in
      some (validated.0, wapc validated.1)
  validate_settings_by (rego stack) settings =
      some (RegoRuntime.validate_settings b settings, rego stack)
  validate_settings_by (cli stack) settings =
      and_then (WasiRuntime.validate_settings w m stack settings)
        (λ response. some (response, cli stack))

  abbrev pub validate_marshalled :
      PolicyEvaluator
      → Result serde.Error String
      → Option (SettingsValidationResponse × PolicyEvaluator)
  validate_marshalled evaluator (err e) = some (
    record {
      valid = false;
      message = some ("could not marshal settings: " <> serde.error_to_string e);
    },
    evaluator,
  )
  validate_marshalled evaluator (ok settings) =
      and_then (validate_settings_by evaluator.runtime settings)
        (λ validated. some (validated.0, record evaluator { runtime = validated.1 }))

  -- `PolicyEvaluator::validate_settings`, with nothing where a guest's run panics
  unfoldable pub validate_settings :
      PolicyEvaluator
      → Dict String json.Value
      → Option (SettingsValidationResponse × PolicyEvaluator)
  validate_settings evaluator settings =
      validate_marshalled evaluator (m.settings_to_string settings)

  abbrev pub protocol_version_of :
      Runtime → Result (PolicyEvaluatorError (WapcRuntimeError l)) l.ProtocolVersion × Runtime
  protocol_version_of (wapc stack) =
      let answered = WapcRuntime.protocol_version decode l env.bytes_debug m stack in
      (map_err invoke_wapc_protocol_version answered.0, wapc answered.1)
  protocol_version_of (rego stack) = (err invalid_protocol_version, rego stack)
  protocol_version_of (cli stack) = (err invalid_protocol_version, cli stack)

  -- `PolicyEvaluator::protocol_version`
  unfoldable pub protocol_version :
      PolicyEvaluator
      → Result (PolicyEvaluatorError (WapcRuntimeError l)) l.ProtocolVersion × PolicyEvaluator
  protocol_version evaluator =
      let answered = protocol_version_of evaluator.runtime in
      (answered.0, record evaluator { runtime = answered.1 })
