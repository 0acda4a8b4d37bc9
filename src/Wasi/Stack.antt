-- ===== src/Wasi/Stack.antt =====
-- src/runtimes/wasi_cli/stack.rs and stack_pre.rs: how a WASI policy is prepared and run.
pub mod Exit
use policy_evaluator.Prelude.{
  ℕ, zero, String, Bool, true, false, Option, none, some, List, [], ◌∷◌, Result, ok, err, ◌>>=◌,
  map_err, ◌<>◌, trim,
}
use policy_evaluator.Prelude.Int.{ℤ, pos, negsuc}
use policy_evaluator.Wasm.{Wasm}
use policy_evaluator.Context.{EvaluationContext}
use policy_evaluator.Callback.Requests.{Bytes, Sdk}
use policy_evaluator.Callback.Host.{Channel, Decoders}
use policy_evaluator.Wasi.Errors.{
  WasiRuntimeError, wasi_evaluation, wasm_host_func_definition_error, wasm_missing_start_fn,
  pipe_conversion, wasm_linker_error, wasm_instantiate, wasi_ctx_builder,
}
use policy_evaluator.Wasi.Pipe.{new}
use policy_evaluator.Wasi.HostCall.{Utf8, Arguments, Export, Context, Effect, host_call}

-- what a run of a program leaves: its result, and what its two pipes hold, where they can be taken
pub record Execution (Failure : Type 0) : Type 0 where
  pub evaluation_result : Result Failure Unit
  pub stdout : Option Bytes
  pub stderr : Option Bytes

module _ (wasm : Wasm) (utf8 : Utf8) {sdk : Sdk} (decode : Decoders sdk) where
  -- What the stack uses of wasmtime and of wasi-common; their errors are texts, but for those of a run.
  pub record Wasmtime : Type 1 where
    pub Linker : Type 0
    pub InstancePre : Type 0
    pub Instance : Type 0
    pub Start : Type 0
    pub Failure : Type 0
    pub new_linker : wasm.Engine → Linker
    pub add_to_linker : Linker → Result String Linker
    pub func_wrap :
        Linker
        → String
        → String
        → (Context utf8 decode → Export → Arguments → Effect utf8 decode)
        → Result String Linker
    pub instantiate_pre : Linker → wasm.Module → Result String InstancePre
    -- `WasiCtxBuilder::args`
    pub args : List String → Result String Unit
    pub instantiate : InstancePre → Result String Instance
    -- `get_typed_func` for `_start`
    pub start_of : Instance → Result String Start
    -- the call, with the deadline and the context of its store and the arguments of the program, or
    -- nothing if a function of the host panics in it
    pub call : Start → Option ℕ → List String → Context utf8 decode → Option (Execution Failure)
    -- `downcast_ref::<I32Exit>()`, and the text of the error
    pub exit_code : Failure → Option ℤ
    pub failure_to_string : Failure → String

module _ {wasm : Wasm} (utf8 : Utf8) {sdk : Sdk} (decode : Decoders sdk) where
  module _ (w : Wasmtime wasm utf8 decode) where
    pub record StackPre : Type 0 where
      pub engine : wasm.Engine
      pub instance_pre : w.InstancePre

    define : w.Linker → String → String → String → Result WasiRuntimeError w.Linker
    define linker namespace function name =
        map_err (λ e. wasm_host_func_definition_error name e)
          (w.func_wrap linker namespace function (host_call utf8 decode))

    unfoldable pub add_host_call_to_linker : w.Linker → Result WasiRuntimeError w.Linker
    unfolding define
    add_host_call_to_linker linker = do
      linker' ← define linker "host" "call" "host.call"
      define linker' "kubewarden:javy/host" "call" "kubewarden:javy/host:call"

    -- `StackPre::new`
    unfoldable pub new_pre : wasm.Engine → wasm.Module → Result WasiRuntimeError StackPre
    new_pre engine program = do
      linker ← map_err wasm_linker_error (w.add_to_linker (w.new_linker engine))
      linker' ← add_host_call_to_linker linker
      pre ← map_err wasm_instantiate (w.instantiate_pre linker' program)
      ok (record { engine = engine; instance_pre = pre })

    unfoldable pub rehydrate : StackPre → Result WasiRuntimeError w.Instance
    rehydrate pre = map_err wasm_instantiate (w.instantiate pre.instance_pre)

    pub record Stack : Type 0 where
      pub stack_pre : StackPre
      pub eval_ctx : EvaluationContext (Channel sdk)

    unfoldable pub new_from_pre : StackPre → EvaluationContext (Channel sdk) → Stack
    new_from_pre pre ctx = record { stack_pre = pre; eval_ctx = ctx }

    pub record RunResult : Type 0 where
      pub stdout : String
      pub stderr : String

    unfoldable pub pipe_to_string : String → Option Bytes → Result WasiRuntimeError String
    pipe_to_string name none = err (pipe_conversion name "cannot convert pipe into inner")
    pipe_to_string name (some buf) =
        map_err (λ e. pipe_conversion name ("Cannot convert buffer to UTF8 string: " <> e))
          (utf8.from_utf8 buf)

    -- the standard output of a program that succeeded
    abbrev pub succeeded : String → Option Bytes → Result WasiRuntimeError RunResult
    succeeded stderr out = do
      stdout ← pipe_to_string "stdout" out
      ok (record { stdout = stdout; stderr = stderr })

    -- an error that is an exit with the code `EXIT_SUCCESS` is none
    abbrev pub exited :
        String → Option Bytes → w.Failure → Option ℤ → Result WasiRuntimeError RunResult
    exited stderr out failure (some (pos zero)) = succeeded stderr out
    exited stderr out failure _ = err (wasi_evaluation stderr (w.failure_to_string failure))

    abbrev pub conclude :
        String → Option Bytes → Result w.Failure Unit → Result WasiRuntimeError RunResult
    conclude stderr out (ok done) = succeeded stderr out
    conclude stderr out (err failure) = exited stderr out failure (w.exit_code failure)

    -- what becomes of a run
    unfoldable pub finish : Execution w.Failure → Result WasiRuntimeError RunResult
    finish execution = do
      stderr ← pipe_to_string "stderr" execution.stderr
      conclude (trim stderr) execution.stdout execution.evaluation_result

    -- the context of the store of a run
    abbrev pub context_of : Stack → Bytes → Context utf8 decode
    context_of stack input = record {
      stdin_pipe = new input;
      stdin_is_poisoned = false;
      eval_ctx = stack.eval_ctx;
    }

    -- what a run starts from
    abbrev pub start_fn_of : Stack → List String → Result WasiRuntimeError w.Start
    start_fn_of stack args = do
      built ← map_err wasi_ctx_builder (w.args args)
      instance_of ← rehydrate stack.stack_pre
      map_err wasm_missing_start_fn (w.start_of instance_of)

    abbrev pub ended : Option (Execution w.Failure) → Option (Result WasiRuntimeError RunResult)
    ended none = none
    ended (some execution) = some (finish execution)

    abbrev pub run_from :
        Stack
        → Bytes
        → List String
        → Result WasiRuntimeError w.Start
        → Option (Result WasiRuntimeError RunResult)
    run_from stack input args (err e) = some (err e)
    run_from stack input args (ok start_fn) =
        ended (w.call start_fn stack.eval_ctx.epoch_deadline args (context_of stack input))

    -- `Stack::run`, with nothing if it panics
    unfoldable pub run : Stack → Bytes → List String → Option (Result WasiRuntimeError RunResult)
    run stack input args = run_from stack input args (start_fn_of stack args)
