-- ===== src/Rego/Prepare.antt =====
-- src/runtimes/rego/stack_pre.rs and stack.rs: how a Rego policy is prepared, and made a stack of.
use policy_evaluator.Prelude.{ℕ, Option, Result, ok, ◌>>=◌, map_err}
use policy_evaluator.Prelude.Int.{ℤ}
use policy_evaluator.Wasm.{Wasm}
use policy_evaluator.Request.{K8s, JsonValue, RegoPolicyExecutionMode}
use policy_evaluator.Rego.{RegoRuntimeError, evaluator_error, rego_engine_builder, error_to_string}
use policy_evaluator.Rego.Runtime.{Burrego, Stack}

pub record StackPre (wasm : Wasm) : Type 0 where
  pub engine : wasm.Engine
  pub wasm_module : wasm.Module
  pub entrypoint_id : ℤ
  pub policy_execution_mode : RegoPolicyExecutionMode

module _ {wasm : Wasm} where
  -- `StackPre::new`
  unfoldable pub new_pre : wasm.Engine → wasm.Module → ℤ → RegoPolicyExecutionMode → StackPre wasm
  new_pre engine program entrypoint_id mode = record {
    engine = engine;
    wasm_module = program;
    entrypoint_id = entrypoint_id;
    policy_execution_mode = mode;
  }

-- `build` is the builder of burrego with the callbacks of the host, at an engine, a module and the
-- deadline, if interruptions are enabled.
module _ {wasm : Wasm} {k8s : K8s} {json : JsonValue} (b : Burrego k8s json)
    (build : wasm.Engine → wasm.Module → Option ℕ → Result b.BurregoError b.Evaluator) where
  -- `StackPre::rehydrate`
  unfoldable pub rehydrate : StackPre wasm → Option ℕ → Result RegoRuntimeError b.Evaluator
  rehydrate pre epoch_deadline =
      map_err (λ e. rego_engine_builder (b.error_to_string e))
        (build pre.engine pre.wasm_module epoch_deadline)

  -- `Stack::new_from_pre`, at the deadline of the evaluation context
  unfoldable pub new_from_pre : StackPre wasm → Option ℕ → Result RegoRuntimeError (Stack b)
  new_from_pre pre epoch_deadline = do
    evaluator ← map_err (λ e. evaluator_error (error_to_string e)) (rehydrate pre epoch_deadline)
    ok (record {
      evaluator = evaluator;
      entrypoint_id = pre.entrypoint_id;
      policy_execution_mode = pre.policy_execution_mode;
    })
