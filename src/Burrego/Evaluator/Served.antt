-- ===== src/Burrego/Evaluator/Served.antt =====
-- crates/burrego/src/evaluator.rs: the builtins of an evaluator that was made.
use mathlib.Core.List.{[], ◌∷◌}
use mathlib.Core.Logic.{inl, inr}
use policy_evaluator.Prelude.{
  ℕ, String, true, Bool-cases, Option, none, some, List, In, contains, is_empty, ◌==◌, Result, ok,
  err, ◌≡◌, refl, subst, arith, string_eq,
}
use policy_evaluator.Prelude.Dict.{Dict, get, keys}
use policy_evaluator.Burrego.{BurregoError}
use policy_evaluator.Burrego.Guest.{Guest}
use policy_evaluator.Burrego.Linker.{Engine}
use policy_evaluator.Burrego.HostFunctions.{Builtin, invoke}
use policy_evaluator.Burrego.Evaluator.{
  Evaluator, EvaluatorStack, difference, evaluator_of, evaluator_in, setup, from_engine_and_module,
}

difference-In :
    (names supported : List String) (name : String)
    → is_empty (difference names supported) ≡ true
    → In name names
    → contains supported name ≡ true
unfolding difference
difference-In [] supported name none_left h = ground arith
difference-In (n ∷ ns) supported name none_left h =
    ground (arith, difference-In ns supported name, Bool-cases (contains supported n))

keys-get :
    {V : Type 0}
    → (table : Dict String V) (name : String) → contains (keys table) name ≡ true
    → (v : V) × (get table name ≡ some v)
unfolding contains get
keys-get [] name there = ground arith
keys-get ((k, v) ∷ table) name there = elim (Bool-cases (k == name)) [
  | inl same ↦ (v, rw same refl)
  | inr apart ↦
      let later : contains (keys table) name ≡ true = ground arith in
      let (w, found) = keys-get table name later in (w, rw apart found)
]

module _ {g : Guest} (e : Engine g) where
  -- a result whose evaluator, if there is one, uses only names of a list
  abbrev UsesOnly : List String → Option (Result BurregoError (Evaluator e)) → Type 0
  UsesOnly implemented none = Unit
  UsesOnly implemented (some (err x)) = Unit
  UsesOnly implemented (some (ok evaluator)) =
      is_empty (difference evaluator.used_builtins implemented) ≡ true

  evaluator_of-UsesOnly :
      (implemented : List String) (engine : e.Engine) (m : e.Module) (d : Option ℕ)
      (stack : EvaluatorStack e) (r : _)
      → UsesOnly implemented (evaluator_of e implemented engine m d stack r)
  evaluator_of-UsesOnly implemented engine m d stack none = tt
  evaluator_of-UsesOnly implemented engine m d stack (some (err x)) = tt
  evaluator_of-UsesOnly implemented engine m d stack (some (ok ((used, entries), store))) =
      elim (Bool-cases (is_empty (difference used implemented))) [
        | inl nothing ↦ rw nothing nothing
        | inr missing ↦ rw missing tt
      ]

  evaluator_in-UsesOnly :
      (implemented : List String) (engine : e.Engine) (m : e.Module) (d : Option ℕ) (stack : _)
      → UsesOnly implemented (evaluator_in e implemented engine m d stack)
  evaluator_in-UsesOnly implemented engine m d none = tt
  evaluator_in-UsesOnly implemented engine m d (some (err x)) = tt
  evaluator_in-UsesOnly implemented engine m d (some (ok stack)) =
      evaluator_of-UsesOnly implemented engine m d stack _

  -- When from_engine_and_module returns an evaluator, with the names of a table as those of the
  -- builtins that are implemented, then for every builtin that the policy uses the table has a
  -- function, and invoke by that name is that function on all arguments.
  pub from_engine_and_module-IsServed :
      (table : Dict String (Builtin g)) (engine : e.Engine) (m : e.Module) (d : Option ℕ)
      {evaluator : Evaluator e}
      → from_engine_and_module e (keys table) engine m d ≡ some (ok evaluator)
      → (name : String) → In name evaluator.used_builtins
      → (f : Builtin g) × (get table name ≡ some f)
        × ((args : List g.Value) → invoke g table name args ≡ f args)
  unfolding from_engine_and_module invoke
  from_engine_and_module-IsServed table engine m d made name used =
      let only =
        subst (UsesOnly (keys table)) made
          (evaluator_in-UsesOnly (keys table) engine m d (setup e engine m d)) in
      let (f, found) = keys-get table name (difference-In _ (keys table) name only used) in
      (f, found, λ args. rw found refl)
