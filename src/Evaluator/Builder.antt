-- ===== src/Evaluator/Builder.antt =====
-- src/policy_evaluator/policy_evaluator_builder.rs and errors.rs: how a policy is prepared.
pub mod Input
pub mod Prepared
use policy_evaluator.Prelude.{
  ℕ, String, Bool, true, false, Option, none, some, Result, ok, err, ◌>>=◌, ◌>>◌, map_err, ◌&&◌,
  is_some, is_none, if◌then◌else◌,
}
use policy_evaluator.Prelude.Int.{pos}
use policy_evaluator.Callback.Requests.{Bytes}
use policy_evaluator.Metadata.{PolicyExecutionMode, kubewarden_wapc, wasi, opa, opa_gatekeeper}
use policy_evaluator.Request.{RegoPolicyExecutionMode, rego_mode_try_from}
use policy_evaluator.Rego.Prepare as RegoPrepare
use policy_evaluator.Wapc as Wapc
use policy_evaluator.Wapc.{WapcRuntimeError}
use policy_evaluator.Wasi.Errors.{WasiRuntimeError}
use policy_evaluator.Wasi.Stack as WasiStack
use policy_evaluator.Wasm.{Wasm}
use policy_evaluator.Evaluator.{StackPre, wapc_pre, wasi_pre, rego_pre, PolicyEvaluatorPre}
use policy_evaluator.Evaluator.Libraries.{Environment}

pub record EpochDeadlines : Type 0 where
  pub wapc_init : ℕ
  pub wapc_func : ℕ

pub data InvalidUserInputError : Type 0 where
  file_and_contents file_and_module contents_and_module : InvalidUserInputError
  one_of_file_contents_module engine_for_module execution_mode_missing : InvalidUserInputError

pub record PolicyEvaluatorBuilder (wasm : Wasm) : Type 0 where
  pub engine : Option wasm.Engine
  pub policy_file : Option String
  pub policy_contents : Option Bytes
  pub policy_module : Option wasm.Module
  pub execution_mode : Option PolicyExecutionMode
  pub wasmtime_cache : Bool
  pub epoch_deadlines : Option EpochDeadlines

module _ {wasm : Wasm} where
  -- `PolicyEvaluatorBuilder::new`
  unfoldable pub new : PolicyEvaluatorBuilder wasm
  new = record {
    engine = none;
    policy_file = none;
    policy_contents = none;
    policy_module = none;
    execution_mode = none;
    wasmtime_cache = false;
    epoch_deadlines = none;
  }

  unfoldable pub engine : PolicyEvaluatorBuilder wasm → wasm.Engine → PolicyEvaluatorBuilder wasm
  engine self e = record self { engine = some e }

  unfoldable pub policy_contents : PolicyEvaluatorBuilder wasm → Bytes → PolicyEvaluatorBuilder wasm
  policy_contents self bytes = record self { policy_contents = some bytes }

  unfoldable pub policy_module :
      PolicyEvaluatorBuilder wasm → wasm.Module → PolicyEvaluatorBuilder wasm
  policy_module self program = record self { policy_module = some program }

  unfoldable pub execution_mode :
      PolicyEvaluatorBuilder wasm → PolicyExecutionMode → PolicyEvaluatorBuilder wasm
  execution_mode self mode = record self { execution_mode = some mode }

  unfoldable pub enable_wasmtime_cache : PolicyEvaluatorBuilder wasm → PolicyEvaluatorBuilder wasm
  enable_wasmtime_cache self = record self { wasmtime_cache = true }

  unfoldable pub enable_epoch_interruptions :
      PolicyEvaluatorBuilder wasm → ℕ → ℕ → PolicyEvaluatorBuilder wasm
  enable_epoch_interruptions self wapc_init_deadline wapc_func_deadline = record self {
    epoch_deadlines =
        some (record { wapc_init = wapc_init_deadline; wapc_func = wapc_func_deadline });
  }

  -- the guards in their order
  unfoldable pub validate_user_input :
      PolicyEvaluatorBuilder wasm → Result InvalidUserInputError Unit
  validate_user_input self =
      if is_some self.policy_file && is_some self.policy_contents
      then err file_and_contents
      else if is_some self.policy_file && is_some self.policy_module
      then err file_and_module
      else if is_some self.policy_contents && is_some self.policy_module
      then err contents_and_module
      else if is_none self.policy_file
          && (is_none self.policy_contents && is_none self.policy_module)
      then err one_of_file_contents_module
      else if is_none self.engine && is_some self.policy_module
      then err engine_for_module
      else ok tt

  -- `PolicyEvaluatorBuilder::policy_file`, at `path.to_str()`
  unfoldable pub policy_file :
      {E : Type 0}
      → E
      → PolicyEvaluatorBuilder wasm
      → Option String
      → Result E (PolicyEvaluatorBuilder wasm)
  policy_file convert_path self none = err convert_path
  policy_file convert_path self (some filename) = ok (record self { policy_file = some filename })

-- `PolicyEvaluatorBuilderError`; the error of a mode that is not one of Rego is a text
module _ (env : Environment) where
  open env use {wasm, decode, utf8, l, w}

  pub data PolicyEvaluatorBuilderError : Type 0 where
    convert_path : PolicyEvaluatorBuilderError
    invoke_wapc_protocol_version new_wapc_stack_pre :
        WapcRuntimeError l → PolicyEvaluatorBuilderError
    invalid_user_input : InvalidUserInputError → PolicyEvaluatorBuilderError
    wasmtime_engine_build wasm_module_build : wasm.Error → PolicyEvaluatorBuilderError
    new_wasi_stack_pre : WasiRuntimeError → PolicyEvaluatorBuilderError
    new_rego_stack_pre : String → PolicyEvaluatorBuilderError

  -- an error, or the panic of `unwrap`
  pub data Failure : Type 0 where
    panic : Failure
    failed : PolicyEvaluatorBuilderError → Failure

  with_wasmtime_cache : wasm.Config → Bool → Result wasm.Error wasm.Config
  with_wasmtime_cache config true = do cache ← wasm.new_cache; ok (wasm.with_cache config cache)
  with_wasmtime_cache config false = ok config

  with_interruption : wasm.Config → Option EpochDeadlines → wasm.Config
  with_interruption config none = config
  with_interruption config (some deadlines) = wasm.epoch_interruption config true

  -- an engine with the configuration of the builder
  unfoldable pub configured_engine : PolicyEvaluatorBuilder wasm → Result wasm.Error wasm.Engine
  unfolding with_wasmtime_cache with_interruption
  configured_engine self = do
    config ← with_wasmtime_cache wasm.new_config self.wasmtime_cache
    wasm.new_engine (with_interruption config self.epoch_deadlines)

  abbrev pub engine_or_new :
      PolicyEvaluatorBuilder wasm → Option wasm.Engine → Result wasm.Error wasm.Engine
  engine_or_new self none = configured_engine self
  engine_or_new self (some e) = ok e

  -- `PolicyEvaluatorBuilder::build_engine`
  unfoldable pub build_engine : PolicyEvaluatorBuilder wasm → Result Failure wasm.Engine
  build_engine self =
      map_err (λ e. failed (wasmtime_engine_build e)) (engine_or_new self self.engine)

  -- the module, the file or the contents, in this order
  abbrev pub module_of :
      wasm.Engine → Option wasm.Module → Option String → Option Bytes → Result Failure wasm.Module
  module_of engine (some program) file contents = ok program
  module_of engine none (some file) contents =
      map_err (λ e. failed (wasm_module_build e)) (wasm.module_from_file engine file)
  module_of engine none none (some contents) =
      map_err (λ e. failed (wasm_module_build e)) (wasm.new_module engine contents)
  module_of engine none none none = err panic

  -- `PolicyEvaluatorBuilder::build_module`
  unfoldable pub build_module :
      PolicyEvaluatorBuilder wasm → wasm.Engine → Result Failure wasm.Module
  build_module self engine =
      module_of engine self.policy_module self.policy_file self.policy_contents

  rego_stack_pre : PolicyExecutionMode → wasm.Engine → wasm.Module → Result Failure (StackPre env)
  rego_stack_pre mode engine program = do
    rego_mode ← map_err (λ e. failed (new_rego_stack_pre e)) (rego_mode_try_from mode)
    ok (rego_pre (RegoPrepare.new_pre engine program (pos 0) rego_mode))

  -- the `match` on the mode
  unfoldable pub stack_pre_for :
      PolicyExecutionMode → wasm.Engine → wasm.Module → Result Failure (StackPre env)
  unfolding rego_stack_pre
  stack_pre_for kubewarden_wapc engine program = do
    pre ← map_err (λ e. failed (new_wapc_stack_pre e)) (Wapc.new_pre decode l engine program)
    ok (wapc_pre pre)
  stack_pre_for wasi engine program = do
    pre ←
        map_err (λ e. failed (new_wasi_stack_pre e))
          (WasiStack.new_pre utf8 decode w engine program)
    ok (wasi_pre pre)
  stack_pre_for opa engine program = rego_stack_pre opa engine program
  stack_pre_for opa_gatekeeper engine program = rego_stack_pre opa_gatekeeper engine program

  -- `unwrap_or_default` on the mode
  abbrev pub mode_or_default : Option PolicyExecutionMode → PolicyExecutionMode
  mode_or_default none = kubewarden_wapc
  mode_or_default (some mode) = mode

  -- `PolicyEvaluatorBuilder::build_pre`
  unfoldable pub build_pre : PolicyEvaluatorBuilder wasm → Result Failure (PolicyEvaluatorPre env)
  build_pre self = do
    checked ← map_err (λ e. failed (invalid_user_input e)) (validate_user_input self)
    engine ← build_engine self
    program ← build_module self engine
    stack_pre ← stack_pre_for (mode_or_default self.execution_mode) engine program
    ok (record { stack_pre = stack_pre })
