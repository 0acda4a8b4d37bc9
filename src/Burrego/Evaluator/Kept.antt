-- ===== src/Burrego/Evaluator/Kept.antt =====
-- crates/burrego/src/evaluator.rs and policy.rs: what an evaluation changes of an evaluator.
use mathlib.Core.Logic.{inl, inr}
use policy_evaluator.Prelude.{ℕ, String, Bool-cases, Option, none, some, Result, ok, err, ◌≡◌, refl}
use policy_evaluator.Prelude.Dict.{Dict}
use policy_evaluator.Burrego.{BurregoError}
use policy_evaluator.Burrego.Memory.{Bytes}
use policy_evaluator.Burrego.Guest.{Guest}
use policy_evaluator.Burrego.Linker.{Engine}
use policy_evaluator.Burrego.Policy.{
  Policy, data_kept, data_pushed, push_data, set_data, evaluate_policy,
}
use policy_evaluator.Burrego.Evaluator.{Evaluator, evaluated, evaluate_in, evaluate, has_entrypoint}

module _ (g : Guest) where
  -- the same policy but for its data
  abbrev pub HasData : Policy g → Policy g → Type 0
  HasData policy after =
      after ≡ record policy { data_addr = after.data_addr; data_heap_ptr = after.data_heap_ptr }

  abbrev SetsData : Policy g → Option ((Result BurregoError Unit × Policy g) × g.Store) → Type 0
  SetsData policy none = Unit
  SetsData policy (some ((r, after), store)) = HasData policy after

  data_kept-SetsData :
      (policy : Policy g) (addr : ℕ) (r : _)
      → SetsData policy (data_kept g (record policy { data_addr = addr }) r)
  data_kept-SetsData policy addr none = tt
  data_kept-SetsData policy addr (some (ok n, store)) = refl
  data_kept-SetsData policy addr (some (err x, store)) = refl

  data_pushed-SetsData : (policy : Policy g) (r : _) → SetsData policy (data_pushed g policy r)
  data_pushed-SetsData policy none = tt
  data_pushed-SetsData policy (some (err x, store)) = refl
  data_pushed-SetsData policy (some (ok addr, store)) = data_kept-SetsData policy addr _

  set_data-SetsData :
      (policy : Policy g) (bytes : Bytes) (store : g.Store)
      → SetsData policy (set_data g policy bytes store)
  unfolding set_data
  set_data-SetsData policy bytes store =
      data_pushed-SetsData policy (push_data g policy bytes store)

module _ {g : Guest} (e : Engine g) where
  -- the same evaluator but for its store and the data of its policy
  abbrev pub Keeps : Evaluator e → Option (Result BurregoError g.Value × Evaluator e) → Type 0
  Keeps before none = Unit
  Keeps before (some (r, after)) =
      (after ≡ record before { store = after.store; policy = after.policy })
      × HasData g before.policy after.policy

  evaluated-Keeps :
      (before : Evaluator e) (policy : Policy g) (r : _)
      → HasData g before.policy policy
      → Keeps before (evaluated e (record before { policy = policy }) r)
  evaluated-Keeps before policy none has = tt
  evaluated-Keeps before policy (some (r, store)) has = (refl, has)

  evaluate_in-Keeps :
      (before : Evaluator e) (id : ℕ) (input : g.Value) (r : _)
      → SetsData g before.policy r
      → Keeps before (evaluate_in e before id input r)
  evaluate_in-Keeps before id input none sets = tt
  evaluate_in-Keeps before id input (some ((err x, policy), store)) sets = (refl, sets)
  evaluate_in-Keeps before id input (some ((ok done, policy), store)) sets =
      evaluated-Keeps before policy (evaluate_policy g policy id input store) sets

  -- Whether it gives a value or an error, evaluate leaves an evaluator that differs from the one
  -- before in the store and in its policy only, and in the policy only in the address of the data
  -- and the heap pointer behind them.
  pub evaluate-Keeps :
      (debug : Dict String ℕ → String) (show : ℕ → String) (before : Evaluator e) (id : ℕ)
      (input : g.Value) (bytes : Bytes)
      → Keeps before (evaluate e debug show before id input bytes)
  unfolding evaluate
  evaluate-Keeps debug show before id input bytes = elim (Bool-cases (has_entrypoint e before id)) [
    | inl found ↦
        rw found (evaluate_in-Keeps before id input _ (set_data-SetsData g before.policy bytes _))
    | inr missing ↦ rw missing (refl, refl)
  ]
