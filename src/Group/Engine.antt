-- ===== src/Group/Engine.antt =====
-- The rhai engine, which is not part of the repository. An expression of a policy group calls the
-- functions that are registered and computes with their answers; the engine is a function from the
-- registered names and the expression to that behaviour.
use policy_evaluator.Prelude.{String, List, [], ◌∷◌, Bool, Result, ok, err}

-- What an expression does: it ends with a value or an error, or calls a function and goes on by
-- what the call gives.
pub data Script (Error : Type 0) : Type 0 where
  value : Bool → Script Error
  error : Error → Script Error
  call : String → (Result Error Bool → Script Error) → Script Error

-- `Failure` is the error that a registered function can return.
pub record Rhai (Failure : Type 0) : Type 1 where
  pub Error : Type 0
  pub error_to_string : Error → String
  -- `EvalAltResult::ErrorSystem`
  pub error_system : String → Failure → Error
  -- what a call of a name gives that is not registered
  pub error_function_not_found : String → Error
  -- `eval_expression::<bool>`
  pub eval_expression : List String → String → Script Error

-- An expression runs with functions that share a state.
module _ {Error State : Type 0} (invoke : String → State → Result Error Bool × State) where
  unfoldable pub run : Script Error → State → Result Error Bool × State
  run (value b) s = (ok b, s)
  run (error e) s = (err e, s)
  run (call f k) s = let (r, s') = invoke f s in run (k r) s'

-- The same with functions that have no state, and the names that are called on the way.
module _ {Error : Type 0} (answer : String → Result Error Bool) where
  unfoldable pub eval : Script Error → Result Error Bool
  eval (value b) = ok b
  eval (error e) = err e
  eval (call f k) = eval (k (answer f))

  unfoldable pub calls : Script Error → List String
  calls (value b) = []
  calls (error e) = []
  calls (call f k) = f ∷ calls (k (answer f))
