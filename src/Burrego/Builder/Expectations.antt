-- ===== src/Burrego/Builder/Expectations.antt =====
-- crates/burrego/src/evaluator_builder.rs: what `validate` and the two calls of `expect` agree on.
use mathlib.Core.Logic.{inl, inr}
use policy_evaluator.Prelude.{
  String, true, false, Option, none, some, List, is_some, is_none, Result, ok, err, Result-cases,
  ◌⊎◌, ◌≡◌, refl, arith,
}
use policy_evaluator.Burrego.{BurregoError}
use policy_evaluator.Burrego.Guest.{Guest}
use policy_evaluator.Burrego.Linker.{Engine}
use policy_evaluator.Burrego.Evaluator.{from_engine_and_module}
use policy_evaluator.Burrego.Builder.{
  EvaluatorBuilder, validate_builder, module_from, build_from, build_with, build_evaluator,
}

module _ {g : Guest} (e : Engine g) (implemented : List String) where
  -- the two that a valid builder has: the callbacks, and a module or a path
  build_from-returns :
      (engine : e.Engine) (b : EvaluatorBuilder e) (r : Option (Result BurregoError e.Module))
      → b.host_callbacks ≡ true
      → is_some r ≡ true
      → ((engine : e.Engine) (m : e.Module)
          → is_some (from_engine_and_module e implemented engine m b.builder_deadline) ≡ true)
      → is_some (build_from e implemented engine b r) ≡ true
  build_from-returns engine b none given there returns = ground arith
  build_from-returns engine b (some (err x)) given there returns = refl
  build_from-returns engine b (some (ok m)) given there returns = rw given (returns engine m)

  module_from-returns :
      (engine : e.Engine) (m : Option e.Module) (path : Option String)
      → (is_none path ≡ false) ⊎ (is_none m ≡ false)
      → is_some (module_from e engine m path) ≡ true
  module_from-returns engine (some m) path given = refl
  module_from-returns engine none (some path) given = refl
  module_from-returns engine none none given = ground arith

  build_with-returns :
      (b : EvaluatorBuilder e) (r : Result BurregoError e.Engine)
      → b.host_callbacks ≡ true
      → (is_none b.policy_path ≡ false) ⊎ (is_none b.module_given ≡ false)
      → ((engine : e.Engine) (m : e.Module)
          → is_some (from_engine_and_module e implemented engine m b.builder_deadline) ≡ true)
      → is_some (build_with e implemented b r) ≡ true
  build_with-returns b (err x) given there returns = refl
  build_with-returns b (ok engine) given there returns =
      build_from-returns engine b _ given
        (module_from-returns engine b.module_given b.policy_path there) returns

  validate_builder-given :
      (b : EvaluatorBuilder e)
      → validate_builder e b ≡ ok tt
      → (b.host_callbacks ≡ true)
        × ((is_none b.policy_path ≡ false) ⊎ (is_none b.module_given ≡ false))
  unfolding validate_builder
  validate_builder-given b valid = ground arith

  -- build returns, by a value or an error, if from_engine_and_module does with the deadline of the
  -- builder: what validate accepts has all that is expected.
  pub build_evaluator-returns :
      (b : EvaluatorBuilder e)
      → ((engine : e.Engine) (m : e.Module)
          → is_some (from_engine_and_module e implemented engine m b.builder_deadline) ≡ true)
      → is_some (build_evaluator e implemented b) ≡ true
  unfolding build_evaluator
  build_evaluator-returns b returns = elim (Result-cases (validate_builder e b)) [
    | inl (done, valid) ↦
        let (callbacks, source) = validate_builder-given b valid in
        rw valid (build_with-returns b _ callbacks source returns)
    | inr (x, refused) ↦ rw refused refl
  ]
