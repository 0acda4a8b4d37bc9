-- ===== src/Evaluator/Builder/Prepared.antt =====
-- src/policy_evaluator/policy_evaluator_builder.rs: what a preparation gives, and what it ignores.
use policy_evaluator.Prelude.{
  ℕ, String, Option, none, some, Result, ok, err, ◌>>=◌, >>=-ne-err, map_err-eq-ok, map_err, ◌≡◌,
  ◌≢◌, refl, arith,
}
use policy_evaluator.Metadata.{PolicyExecutionMode, kubewarden_wapc, wasi, opa, opa_gatekeeper}
use policy_evaluator.Prelude.Int.{pos}
use policy_evaluator.Rego.Prepare as RegoPrepare
use policy_evaluator.Request.{RegoPolicyExecutionMode, rego_mode_try_from}
use policy_evaluator.Callback.Requests.{Bytes}
use policy_evaluator.Wapc as Wapc
use policy_evaluator.Wasi.Stack as WasiStack
use policy_evaluator.Evaluator.{StackPre, wapc_pre, wasi_pre, rego_pre}
use policy_evaluator.Evaluator.Libraries.{Environment}
use policy_evaluator.Evaluator.Builder.{
  PolicyEvaluatorBuilderError, new_wapc_stack_pre, new_wasi_stack_pre, wasm_module_build,
  invalid_user_input, wasmtime_engine_build, PolicyEvaluatorBuilder, validate_user_input, build_pre,
  build_engine, build_module, module_of, stack_pre_for, enable_epoch_interruptions, panic, failed,
  Failure, engine_or_new, configured_engine,
}
use policy_evaluator.Evaluator.Builder.Input.{
  IsComplete, from_file, from_contents, from_module, validate_user_input_iff,
}

module _ (env : Environment) where
  open env use {wasm}

  wrapped-safe :
      {E A : Type 0} (wrap : E → PolicyEvaluatorBuilderError env) (r : Result E A)
      → map_err (λ e. failed (wrap e)) r ≢ err panic
  wrapped-safe wrap (ok a) = λ h. cc
  wrapped-safe wrap (err e) = λ h. cc

  then_ok-safe :
      {A B : Type 0} (r : Result (Failure env) A) (f : A → B)
      → r ≢ err panic
      → (r >>= (λ a. ok (f a))) ≢ err panic
  then_ok-safe r f safe = >>=-ne-err r (λ a. ok (f a)) panic safe (λ a done h. cc)

  stack_pre_for-safe :
      (mode : PolicyExecutionMode) (engine : wasm.Engine) (program : wasm.Module)
      → stack_pre_for env mode engine program ≢ err panic
  unfolding stack_pre_for rego_mode_try_from
  stack_pre_for-safe kubewarden_wapc engine program =
      then_ok-safe _ wapc_pre
        (wrapped-safe new_wapc_stack_pre (Wapc.new_pre env.decode env.l engine program))
  stack_pre_for-safe wasi engine program =
      then_ok-safe _ wasi_pre (
        wrapped-safe new_wasi_stack_pre
          (WasiStack.new_pre env.utf8 env.decode env.w engine program))
  stack_pre_for-safe opa engine program = λ h. cc
  stack_pre_for-safe opa_gatekeeper engine program = λ h. cc

  module_of-safe :
      (engine : wasm.Engine) (program : Option wasm.Module) (file : Option String)
      (contents : Option Bytes)
      → ¬ ((program ≡ none) × (file ≡ none) × (contents ≡ none))
      → module_of env engine program file contents ≢ err panic
  module_of-safe engine (some program) file contents some_source = λ h. cc
  module_of-safe engine none (some file) contents some_source =
      wrapped-safe wasm_module_build (wasm.module_from_file engine file)
  module_of-safe engine none none (some contents) some_source =
      wrapped-safe wasm_module_build (wasm.new_module engine contents)
  module_of-safe engine none none none some_source = absurd (some_source (refl, refl, refl))

  has_source :
      (self : PolicyEvaluatorBuilder wasm)
      → IsComplete self
      → ¬ ((self.policy_module ≡ none) × (self.policy_file ≡ none) × (self.policy_contents ≡ none))
  has_source self (from_file a b c) = λ (p, f, t). ground arith
  has_source self (from_contents a b c) = λ (p, f, t). ground arith
  has_source self (from_module a b c d) = λ (p, f, t). ground arith

  -- `build_pre` never reaches the panic of `unwrap`: with no source of the policy it stops at the
  -- check of the input.
  build_pre-safe : (self : PolicyEvaluatorBuilder wasm) → build_pre env self ≢ err panic
  unfolding build_pre build_engine build_module
  build_pre-safe self =
      >>=-ne-err (map_err (λ e. failed (invalid_user_input e)) (validate_user_input self)) _ panic
        (wrapped-safe invalid_user_input (validate_user_input self))
        (λ checked valid.
          >>=-ne-err (build_engine env self) _ panic
            (wrapped-safe wasmtime_engine_build (engine_or_new env self self.engine))
            (λ engine built.
              >>=-ne-err (build_module env self engine) _ panic
                (module_of-safe engine self.policy_module self.policy_file self.policy_contents (
                  has_source self (
                    (validate_user_input_iff self).0 (
                      map_err-eq-ok (λ e. failed (invalid_user_input e)) (validate_user_input self)
                        checked valid))))
                (λ program made.
                  then_ok-safe _ (λ pre. record { stack_pre = pre })
                    (stack_pre_for-safe _ engine program))))

  -- a prepared policy of the kind that its mode asks for
  abbrev pub IsFor : PolicyExecutionMode → StackPre env → Type 0
  IsFor kubewarden_wapc (wapc_pre pre) = Unit
  IsFor wasi (wasi_pre pre) = Unit
  IsFor opa (rego_pre pre) =
      (pre.policy_execution_mode ≡ RegoPolicyExecutionMode.opa) × (pre.entrypoint_id ≡ pos 0)
  IsFor opa_gatekeeper (rego_pre pre) =
      (pre.policy_execution_mode ≡ RegoPolicyExecutionMode.gatekeeper) × (pre.entrypoint_id ≡ pos 0)
  IsFor _ _ = ⊥

  -- The numbers given to `enable_epoch_interruptions` have no effect on what is prepared: any two
  -- pairs of deadlines give the same.
  build_pre-enable_epoch_interruptions :
      (self : PolicyEvaluatorBuilder wasm) (a b c d : ℕ)
      → build_pre env (enable_epoch_interruptions self a b)
        ≡ build_pre env (enable_epoch_interruptions self c d)
  unfolding build_pre validate_user_input build_engine configured_engine build_module
      enable_epoch_interruptions
  build_pre-enable_epoch_interruptions self a b c d = refl
