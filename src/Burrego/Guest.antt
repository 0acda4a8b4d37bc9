-- ===== src/Burrego/Guest.antt =====
-- crates/burrego/src: a policy as a guest of wasmtime, and what is run against its store.
use policy_evaluator.Prelude.{
  ℕ, String, Bool, Option, none, some, List, Result, ok, err, ◌<>◌, if◌then◌else◌,
}
use policy_evaluator.Prelude.Int.{ℤ}
use policy_evaluator.Prelude.Dict.{Dict}
use policy_evaluator.Burrego.{BurregoError, wasm_engine_error, execution_deadline_exceeded}
use policy_evaluator.Burrego.Memory.{Bytes}

-- The crates wasmtime and serde_json. A store has the instance and its memory in it; an `i32` is its
-- bits, and a function of no result gives 0. Errors other than those of calls are texts.
pub record Guest : Type 1 where
  pub Store : Type 0
  -- a `TypedFunc`, with `get_typed_func` of the instance
  pub Func : Type 0
  pub get_typed_func : Store → String → Result String Func
  pub Error : Type 0
  -- whether an error is the trap of an interruption
  pub is_interrupt : Error → Bool
  pub error_to_string : Error → String
  pub call : Func → List ℕ → Store → Result Error ℕ × Store
  -- `Memory::read` of one byte, and `Memory::write`
  pub read : Store → ℕ → Result String ℕ
  pub write : Store → ℕ → Bytes → Result String Store
  -- the `i32` of a global
  pub get_global : Store → String → Option ℕ
  pub set_epoch_deadline : ℕ → Store → Store
  -- `serde_json::Value`
  pub Value : Type 0
  pub from_slice : Bytes → Result String Value
  pub to_vec : Value → Result String Bytes
  pub empty_object : Value
  pub as_object : Value → Option (Dict String Value)
  pub as_i64 : Value → Option ℤ

module _ (g : Guest) where
  -- A computation against the store: a result with the store that it leaves, or a panic.
  abbrev pub Run : Type 0 → Type 0
  Run A = g.Store → Option (Result BurregoError A × g.Store)

  abbrev pub pure : {A : Type 0} → A → Run A
  pure a store = some (ok a, store)

  abbrev pub fail : {A : Type 0} → BurregoError → Run A
  fail e store = some (err e, store)

  abbrev pub panic : {A : Type 0} → Run A
  panic store = none

  abbrev pub continue_with :
      {A B : Type 0}
      → Option (Result BurregoError A × g.Store)
      → (A → Run B)
      → Option (Result BurregoError B × g.Store)
  continue_with none k = none
  continue_with (some (ok a, store)) k = k a store
  continue_with (some (err e, store)) k = some (err e, store)

  -- `?`
  abbrev pub bind : {A B : Type 0} → Run A → (A → Run B) → Run B
  bind m k = λ store. continue_with (m store) k

  -- a result that does not change the store
  abbrev pub lift : {A : Type 0} → Result BurregoError A → Run A
  lift r store = some (r, store)

  -- an option, with what is done without it
  abbrev pub or_run : {A : Type 0} → Run A → Option A → Run A
  or_run otherwise none = otherwise
  or_run otherwise (some a) = pure a

  abbrev pub called :
      (g.Error → BurregoError)
      → Result g.Error ℕ × g.Store
      → Option (Result BurregoError ℕ × g.Store)
  called on_error (ok n, store) = some (ok n, store)
  called on_error (err e, store) = some (err (on_error e), store)

  abbrev pub call_guest : (g.Error → BurregoError) → g.Func → List ℕ → Run ℕ
  call_guest on_error f args store = called on_error (g.call f args store)

  -- `map_call_error!`
  abbrev pub map_call_error : String → g.Error → BurregoError
  map_call_error msg e =
      if g.is_interrupt e
      then execution_deadline_exceeded
      else wasm_engine_error (msg <> ": " <> g.error_to_string e)
