-- ===== src/Burrego/Builder.antt =====
-- crates/burrego/src/evaluator_builder.rs: the evaluator that is made of what a builder was given.
pub mod Expectations
use policy_evaluator.Prelude.{
  ℕ, String, Bool, true, false, Option, none, some, List, is_some, is_none, Result, ok, err,
  map_err, ◌<>◌, ◌&&◌, not, if◌then◌else◌,
}
use policy_evaluator.Burrego.{BurregoError, wasm_engine_error, evaluator_builder_error}
use policy_evaluator.Burrego.Guest.{Guest}
use policy_evaluator.Burrego.Linker.{Engine}
use policy_evaluator.Burrego.Evaluator.{Evaluator, from_engine_and_module}

module _ {g : Guest} (e : Engine g) where
  -- `EvaluatorBuilder`; its callbacks are only there or not
  pub record EvaluatorBuilder : Type 0 where
    pub policy_path : Option String
    pub module_given : Option e.Module
    pub engine_given : Option e.Engine
    pub builder_deadline : Option ℕ
    pub host_callbacks : Bool

  -- `EvaluatorBuilder::default()` and the setters
  unfoldable pub default_builder : EvaluatorBuilder
  default_builder = record {
    policy_path = none;
    module_given = none;
    engine_given = none;
    builder_deadline = none;
    host_callbacks = false;
  }

  unfoldable pub with_policy_path : String → EvaluatorBuilder → EvaluatorBuilder
  with_policy_path path b = record b { policy_path = some path }

  unfoldable pub with_module : e.Module → EvaluatorBuilder → EvaluatorBuilder
  with_module m b = record b { module_given = some m }

  unfoldable pub with_engine : e.Engine → EvaluatorBuilder → EvaluatorBuilder
  with_engine engine b = record b { engine_given = some engine }

  unfoldable pub enable_epoch_interruptions : ℕ → EvaluatorBuilder → EvaluatorBuilder
  enable_epoch_interruptions deadline b = record b { builder_deadline = some deadline }

  unfoldable pub with_host_callbacks : EvaluatorBuilder → EvaluatorBuilder
  with_host_callbacks b = record b { host_callbacks = true }

  unfoldable pub validate_builder : EvaluatorBuilder → Result BurregoError Unit
  validate_builder b =
      if is_some b.policy_path && is_some b.module_given
      then err (evaluator_builder_error "policy_path and module cannot be set at the same time")
      else if is_none b.policy_path && is_none b.module_given
      then err (evaluator_builder_error "Either policy_path or module must be set")
      else if not b.host_callbacks
      then err (evaluator_builder_error "host_callbacks must be set")
      else ok tt

  abbrev pub engine_of : Option e.Engine → Bool → Result BurregoError e.Engine
  engine_of (some engine) interruption = ok engine
  engine_of none interruption =
      map_err (λ x. wasm_engine_error ("cannot create wasmtime Engine: " <> x))
        (e.new_engine interruption)

  -- the module that is given, or the one of the file; without either, `expect` panics
  abbrev pub module_from :
      e.Engine → Option e.Module → Option String → Option (Result BurregoError e.Module)
  module_from engine (some m) path = some (ok m)
  module_from engine none (some path) = some (
      map_err (λ x. wasm_engine_error ("cannot create wasmtime Module: " <> x))
        (e.module_from_file engine path))
  module_from engine none none = none

  abbrev pub build_from :
      List String
      → e.Engine
      → EvaluatorBuilder
      → Option (Result BurregoError e.Module)
      → Option (Result BurregoError (Evaluator e))
  build_from implemented engine b none = none
  build_from implemented engine b (some (err x)) = some (err x)
  build_from implemented engine b (some (ok m)) =
      if b.host_callbacks
      then from_engine_and_module e implemented engine m b.builder_deadline
      else none

  abbrev pub build_with :
      List String
      → EvaluatorBuilder
      → Result BurregoError e.Engine
      → Option (Result BurregoError (Evaluator e))
  build_with implemented b (err x) = some (err x)
  build_with implemented b (ok engine) =
      build_from implemented engine b (module_from engine b.module_given b.policy_path)

  abbrev pub build_valid :
      List String
      → EvaluatorBuilder
      → Result BurregoError Unit
      → Option (Result BurregoError (Evaluator e))
  build_valid implemented b (err x) = some (err x)
  build_valid implemented b (ok done) =
      build_with implemented b (engine_of b.engine_given (is_some b.builder_deadline))

  unfoldable pub build_evaluator :
      List String → EvaluatorBuilder → Option (Result BurregoError (Evaluator e))
  build_evaluator implemented b = build_valid implemented b (validate_builder b)
