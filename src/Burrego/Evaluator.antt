-- ===== src/Burrego/Evaluator.antt =====
-- crates/burrego/src/evaluator.rs: a policy that is ready to be evaluated.
pub mod Kept
pub mod Served
use mathlib.Core.List.{[], ◌∷◌}
use policy_evaluator.Prelude.{
  ℕ, String, Bool, true, false, Option, none, some, List, map, contains, is_empty, is_some, is_none,
  Result, ok, err, map_err, ◌>>=◌, ◌<>◌, ◌==◌, ◌&&◌, ◌||◌, not, string_eq, nat_eq, join, ok_or,
  if◌then◌else◌,
}
use policy_evaluator.Prelude.Dict.{Dict, keys}
use policy_evaluator.Burrego.{
  BurregoError, missing_rego_builtins, wasm_engine_error, rego_wasm_error, evaluator_builder_error,
}
use policy_evaluator.Burrego.Memory.{Bytes}
use policy_evaluator.Burrego.Guest.{Guest, Run, pure, fail, continue_with}
use policy_evaluator.Burrego.Guest as G
use policy_evaluator.Burrego.Json.{StackHelper, new_stack_helper}
use policy_evaluator.Burrego.Linker.{Engine, add_to_linker}
use policy_evaluator.Burrego.Policy.{
  Policy, new_policy, builtins_of, entrypoints_of, set_data, evaluate_policy,
}

-- `HashSet::difference`
unfoldable pub difference : List String → List String → List String
difference [] supported = []
difference (name ∷ rest) supported =
    let others = difference rest supported in
    if contains supported name then others else name ∷ others

unfoldable pub find_entrypoint : String → Dict String ℕ → Option ℕ
find_entrypoint entrypoint [] = none
find_entrypoint entrypoint ((k, v) ∷ rest) =
    if k == entrypoint then some v else find_entrypoint entrypoint rest

unfoldable pub has_id : ℕ → Dict String ℕ → Bool
has_id id [] = false
has_id id ((k, v) ∷ rest) = v == id || has_id id rest

module _ {g : Guest} (e : Engine g) where
  pub record EvaluatorStack : Type 0 where
    pub store : g.Store
    pub stack_helper : StackHelper g
    pub policy : Policy g

  pub record Evaluator : Type 0 where
    pub engine : e.Engine
    pub module_of : e.Module
    pub store : g.Store
    -- what `store.data()` has
    pub stack_helper : StackHelper g
    pub policy : Policy g
    pub epoch_deadline : Option ℕ
    pub entrypoints : Dict String ℕ
    pub used_builtins : List String

  -- `set_epoch_deadline_and_call_guest!`, before its block
  abbrev pub with_deadline : Option ℕ → g.Store → g.Store
  with_deadline none store = store
  with_deadline (some deadline) store = g.set_epoch_deadline deadline store

  abbrev pub instantiated : e.Engine → e.Module → Option ℕ → Result BurregoError g.Store
  instantiated engine m epoch_deadline = do
    store ←
        map_err (λ x. wasm_engine_error ("cannot create memory: " <> x))
          (e.new_memory (e.new_store engine))
    defined ←
        map_err (λ x. wasm_engine_error ("linker cannot define memory: " <> x))
          (e.define_memory store)
    linked ← add_to_linker e.func_wrap defined
    map_err (λ x. wasm_engine_error ("linker cannot create instance: " <> x))
        (e.instantiate (with_deadline epoch_deadline linked) m)

  -- a computation, with the store as part of its result
  abbrev pub finished :
      {A : Type 0}
      → Option (Result BurregoError A × g.Store)
      → Option (Result BurregoError (A × g.Store))
  finished none = none
  finished (some (ok a, store)) = some (ok (a, store))
  finished (some (err x, store)) = some (err x)

  abbrev pub stack_in : Run g (StackHelper g × Policy g)
  stack_in =
      G.bind g (new_stack_helper g)
        λ stack_helper. G.bind g (new_policy g) λ policy. pure g (stack_helper, policy)

  abbrev pub stack_of :
      Option (Result BurregoError ((StackHelper g × Policy g) × g.Store))
      → Option (Result BurregoError EvaluatorStack)
  stack_of none = none
  stack_of (some (err x)) = some (err x)
  stack_of (some (ok ((stack_helper, policy), store))) =
      some (ok (record { store = store; stack_helper = stack_helper; policy = policy }))

  abbrev pub setup_in : Result BurregoError g.Store → Option (Result BurregoError EvaluatorStack)
  setup_in (ok store) = stack_of (finished (stack_in store))
  setup_in (err x) = some (err x)

  unfoldable pub setup :
      e.Engine → e.Module → Option ℕ → Option (Result BurregoError EvaluatorStack)
  setup engine m epoch_deadline = setup_in (instantiated engine m epoch_deadline)

  -- what the guest says of itself, each time with a new deadline
  abbrev pub names_in : Option ℕ → Policy g → Run g (List String × Dict String ℕ)
  names_in epoch_deadline policy store =
      continue_with g (builtins_of g policy (with_deadline epoch_deadline store)) λ builtins store₁.
        continue_with g (entrypoints_of g policy (with_deadline epoch_deadline store₁))
          λ entrypoints. pure g (keys builtins, entrypoints)

  abbrev pub evaluator_of :
      List String
      → e.Engine
      → e.Module
      → Option ℕ
      → EvaluatorStack
      → Option (Result BurregoError ((List String × Dict String ℕ) × g.Store))
      → Option (Result BurregoError Evaluator)
  evaluator_of implemented engine m epoch_deadline stack none = none
  evaluator_of implemented engine m epoch_deadline stack (some (err x)) = some (err x)
  evaluator_of implemented engine m epoch_deadline stack
        (some (ok ((used_builtins, entrypoints), store))) =
      let missing = difference used_builtins implemented in
      some (
        if not (is_empty missing)
        then err (missing_rego_builtins (join ", " missing))
        else ok (record {
          engine = engine;
          module_of = m;
          store = store;
          stack_helper = stack.stack_helper;
          policy = stack.policy;
          epoch_deadline = epoch_deadline;
          entrypoints = entrypoints;
          used_builtins = used_builtins;
        }))

  abbrev pub evaluator_in :
      List String
      → e.Engine
      → e.Module
      → Option ℕ
      → Option (Result BurregoError EvaluatorStack)
      → Option (Result BurregoError Evaluator)
  evaluator_in implemented engine m epoch_deadline none = none
  evaluator_in implemented engine m epoch_deadline (some (err x)) = some (err x)
  evaluator_in implemented engine m epoch_deadline (some (ok stack)) =
      evaluator_of implemented engine m epoch_deadline stack
        (finished (names_in epoch_deadline stack.policy stack.store))

  -- `implemented` are the names in `get_builtins()`
  unfoldable pub from_engine_and_module :
      List String → e.Engine → e.Module → Option ℕ → Option (Result BurregoError Evaluator)
  from_engine_and_module implemented engine m epoch_deadline =
      evaluator_in implemented engine m epoch_deadline (setup engine m epoch_deadline)

  abbrev pub reset_to :
      Evaluator
      → Option (Result BurregoError EvaluatorStack)
      → Option (Result BurregoError Unit × Evaluator)
  reset_to evaluator none = none
  reset_to evaluator (some (err x)) = some (err x, evaluator)
  reset_to evaluator (some (ok stack)) = some (
    ok tt,
    record evaluator {
      store = stack.store;
      stack_helper = stack.stack_helper;
      policy = stack.policy;
    },
  )

  unfoldable pub reset : Evaluator → Option (Result BurregoError Unit × Evaluator)
  reset evaluator =
      reset_to evaluator (setup evaluator.engine evaluator.module_of evaluator.epoch_deadline)

  unfoldable pub opa_abi_version : Evaluator → Result BurregoError (ℕ × ℕ)
  opa_abi_version evaluator = do
    major ←
        ok_or (rego_wasm_error "Cannot find OPA Wasm ABI major version")
          (g.get_global evaluator.store "opa_wasm_abi_version")
    minor ←
        ok_or (rego_wasm_error "Cannot find OPA Wasm ABI minor version")
          (g.get_global evaluator.store "opa_wasm_abi_minor_version")
    ok (major, minor)

  -- `debug` is `{:?}` of the entrypoints
  abbrev pub no_entrypoint : (Dict String ℕ → String) → String → Evaluator → BurregoError
  no_entrypoint debug entrypoint evaluator = rego_wasm_error (
      "Cannot find the specified entrypoint "
      <> entrypoint
      <> " inside of "
      <> debug evaluator.entrypoints)

  unfoldable pub entrypoint_id :
      (Dict String ℕ → String) → Evaluator → String → Result BurregoError ℕ
  entrypoint_id debug evaluator entrypoint =
      ok_or (no_entrypoint debug entrypoint evaluator)
        (find_entrypoint entrypoint evaluator.entrypoints)

  abbrev pub has_entrypoint : Evaluator → ℕ → Bool
  has_entrypoint evaluator id = has_id id evaluator.entrypoints

  -- the end of `evaluate`, with the evaluator that it leaves
  abbrev pub evaluated :
      Evaluator
      → Option (Result BurregoError g.Value × g.Store)
      → Option (Result BurregoError g.Value × Evaluator)
  evaluated evaluator none = none
  evaluated evaluator (some (r, store)) = some (r, record evaluator { store = store })

  abbrev pub evaluate_in :
      Evaluator
      → ℕ
      → g.Value
      → Option ((Result BurregoError Unit × Policy g) × g.Store)
      → Option (Result BurregoError g.Value × Evaluator)
  evaluate_in evaluator id input none = none
  evaluate_in evaluator id input (some ((err x, policy), store)) =
      some (err x, record evaluator { policy = policy; store = store })
  evaluate_in evaluator id input (some ((ok done, policy), store)) =
      evaluated (record evaluator { policy = policy }) (evaluate_policy g policy id input store)

  -- `show` prints an entrypoint
  unfoldable pub evaluate :
      (Dict String ℕ → String)
      → (ℕ → String)
      → Evaluator
      → ℕ
      → g.Value
      → Bytes
      → Option (Result BurregoError g.Value × Evaluator)
  evaluate debug show evaluator id input bytes =
      let store = with_deadline evaluator.epoch_deadline evaluator.store in
      if has_entrypoint evaluator id
      then evaluate_in evaluator id input (set_data g evaluator.policy bytes store)
      else some (err (no_entrypoint debug (show id) evaluator), record evaluator { store = store })
