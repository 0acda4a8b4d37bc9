-- ===== src/Wapc.antt =====
-- src/runtimes/wapc: the runtime of waPC policies, its stack and its errors.
pub mod Runtime
use policy_evaluator.Prelude.{ℕ, String, Option, none, some, Result, ok, err, ◌>>=◌, map_err, ◌<>◌}
use policy_evaluator.Wasm.{Wasm}
use policy_evaluator.Context.{EvaluationContext}
use policy_evaluator.Callback.Requests.{Bytes, Sdk}
use policy_evaluator.Callback.Host.{Channel, Decoders, Outcome, host_callback}

-- `EpochDeadlines` of wasmtime_provider
pub record EpochDeadlines : Type 0 where
  pub wapc_init : ℕ
  pub wapc_func : ℕ

-- What a guest can call: the number of the guest, a binding, a namespace, an operation, a payload.
abbrev pub HostCallback : Sdk → Type 0
HostCallback sdk = ℕ → String → String → String → Bytes → Outcome sdk

-- What the runtime uses of wapc, of wasmtime_provider and of the policy SDK. A call of a guest
-- leaves the host in another state.
pub record WapcLibrary (wasm : Wasm) (sdk : Sdk) : Type 1 where
  pub EngineProviderPre : Type 0
  pub EngineProvider : Type 0
  pub WapcHost : Type 0
  pub ProtocolVersion : Type 0
  pub ProviderError : Type 0
  pub Error : Type 0
  pub VersionError : Type 0
  pub provider_error_to_string : ProviderError → String
  pub error_to_string : Error → String
  pub error_debug : Error → String
  pub version_error_to_string : VersionError → String
  pub build_pre : wasm.Engine → wasm.Module → Result ProviderError EngineProviderPre
  pub rehydrate_pre :
      EngineProviderPre → Option EpochDeadlines → Result ProviderError EngineProvider
  pub new_host : EngineProvider → HostCallback sdk → Result Error WapcHost
  pub call : WapcHost → String → Bytes → Result Error Bytes × WapcHost
  pub version_try_from : Bytes → Result VersionError ProtocolVersion

-- `WapcRuntimeError`; the first two sources are texts here
module _ {wasm : Wasm} {sdk : Sdk} (l : WapcLibrary wasm sdk) where
  pub data WapcRuntimeError : Type 0 where
    invalid_response_format invalid_response_with_error : String → WapcRuntimeError
    create_protocol_version : Bytes → l.VersionError → WapcRuntimeError
    invoke_protocol_version : l.Error → WapcRuntimeError
    wasmtime_engine_builder : l.ProviderError → WapcRuntimeError
    wapc_host_builder : l.Error → WapcRuntimeError

module _ {wasm : Wasm} {sdk : Sdk} (l : WapcLibrary wasm sdk) (bytes_debug : Bytes → String) where
  unfoldable pub runtime_error_to_string : WapcRuntimeError l → String
  runtime_error_to_string (invalid_response_format e) = "invalid response format: " <> e
  runtime_error_to_string (invalid_response_with_error e) = "invalid response from policy: " <> e
  runtime_error_to_string (create_protocol_version res e) =
      "cannot create ProtocolVersion object from "
      <> bytes_debug res
      <> ": "
      <> l.version_error_to_string e
  runtime_error_to_string (invoke_protocol_version e) =
      "cannot invoke 'protocol_version' waPC function : " <> l.error_to_string e
  runtime_error_to_string (wasmtime_engine_builder e) =
      "cannot build Wasmtime engine: " <> l.provider_error_to_string e
  runtime_error_to_string (wapc_host_builder e) = "cannot build Wapc host: " <> l.error_to_string e

module _ {wasm : Wasm} {sdk : Sdk} (decode : Decoders sdk) (l : WapcLibrary wasm sdk) where
  pub record StackPre : Type 0 where
    pub engine_provider_pre : l.EngineProviderPre

  -- `StackPre::new`
  unfoldable pub new_pre : wasm.Engine → wasm.Module → Result (WapcRuntimeError l) StackPre
  new_pre engine program = do
    pre ← map_err wasmtime_engine_builder (l.build_pre engine program)
    ok (record { engine_provider_pre = pre })

  abbrev pub both_deadlines : Option ℕ → Option EpochDeadlines
  both_deadlines none = none
  both_deadlines (some deadline) = some (record { wapc_init = deadline; wapc_func = deadline })

  -- `StackPre::rehydrate`
  unfoldable pub rehydrate : StackPre → Option ℕ → Result (WapcRuntimeError l) l.EngineProvider
  rehydrate pre epoch_deadline =
      map_err wasmtime_engine_builder
        (l.rehydrate_pre pre.engine_provider_pre (both_deadlines epoch_deadline))

  -- src/runtimes/wapc/callback.rs
  unfoldable pub new_host_callback : EvaluationContext (Channel sdk) → HostCallback sdk
  new_host_callback ctx wapc_id binding namespace operation payload =
      host_callback decode ctx binding namespace operation payload

  pub record WapcStack : Type 0 where
    pub wapc_host : l.WapcHost
    pub stack_pre : StackPre
    pub eval_ctx : EvaluationContext (Channel sdk)

  -- `WapcStack::wapc_host_from_pre`
  unfoldable pub wapc_host_from_pre :
      StackPre → EvaluationContext (Channel sdk) → Result (WapcRuntimeError l) l.WapcHost
  wapc_host_from_pre pre ctx = do
    engine_provider ← rehydrate pre ctx.epoch_deadline
    map_err wapc_host_builder (l.new_host engine_provider (new_host_callback ctx))

  -- `WapcStack::new_from_pre`
  unfoldable pub new_from_pre :
      StackPre → EvaluationContext (Channel sdk) → Result (WapcRuntimeError l) WapcStack
  new_from_pre pre ctx = do
    host ← wapc_host_from_pre pre ctx
    ok (record { wapc_host = host; stack_pre = pre; eval_ctx = ctx })

  abbrev with_host :
      WapcStack
      → Result (WapcRuntimeError l) l.WapcHost
      → Result (WapcRuntimeError l) Unit × WapcStack
  with_host stack (ok host) = (ok tt, record stack { wapc_host = host })
  with_host stack (err e) = (err e, stack)

  -- `WapcStack::reset`
  unfoldable pub reset : WapcStack → Result (WapcRuntimeError l) Unit × WapcStack
  reset stack = with_host stack (wapc_host_from_pre stack.stack_pre stack.eval_ctx)

  -- `WapcStack::call`
  unfoldable pub call : WapcStack → String → Bytes → Result l.Error Bytes × WapcStack
  call stack op payload =
      let answer = l.call stack.wapc_host op payload in
      (answer.0, record stack { wapc_host = answer.1 })
