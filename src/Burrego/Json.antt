-- ===== src/Burrego/Json.antt =====
-- crates/burrego/src/stack_helper.rs: JSON values that pass through the memory of a guest.
pub mod Deadline
use mathlib.Core.List.{[], ◌∷◌}
use policy_evaluator.Prelude.{
  ℕ, zero, suc, ◌+◌, ◌-◌, ◌%◌, ◌^◌, String, Bool, true, false, Option, none, some, List, Result, ok,
  err, map_err, ◌<>◌, ltb, length, nat_eq, if◌then◌else◌,
}
use policy_evaluator.Prelude.Int.{ℤ, pos, negsuc}
use policy_evaluator.Prelude.Dict.{Dict, insert}
use policy_evaluator.Burrego.{BurregoError, wasm_engine_error, rego_wasm_error, json_error}
use policy_evaluator.Burrego.Memory.{Bytes, read_string}
use policy_evaluator.Burrego.Guest.{Guest, Run, pure, fail, panic, bind, lift, or_run, call_guest}

-- `n as i32` of an `i64`, as its bits
abbrev pub as_i32 : ℤ → ℕ
as_i32 (pos n) = n % 2 ^ 32
as_i32 (negsuc n) = (2 ^ 32 - (n % 2 ^ 32 + 1)) % 2 ^ 32

module _ (g : Guest) where
  pub record StackHelper : Type 0 where
    pub opa_json_dump_fn : g.Func
    pub opa_malloc_fn : g.Func
    pub opa_json_parse_fn : g.Func
    pub builtins : Dict ℕ String

  infixl 5 ◌>>=◌
  abbrev ◌>>=◌ : {A B : Type 0} → Run g A → (A → Run g B) → Run g B
  m >>= k = bind g m k

  abbrev pub with_store :
      g.Store → Option (Result BurregoError Bytes) → Option (Result BurregoError Bytes × g.Store)
  with_store store none = none
  with_store store (some r) = some (r, store)

  -- `read_string` against the store
  abbrev pub read_text : ℕ → Run g Bytes
  read_text addr store = with_store store (read_string (g.read store) addr)

  unfoldable pub pull_json : g.Func → ℕ → Run g g.Value
  pull_json opa_json_dump_fn addr = do
    raw_addr ←
        call_guest g
          (λ e. wasm_engine_error ("cannot invoke opa_json_dump function: " <> g.error_to_string e))
          opa_json_dump_fn (addr ∷ [])
    bytes ← read_text raw_addr
    lift g (
        map_err (json_error "cannot convert data read from memory into utf8 String")
          (g.from_slice bytes))

  -- the end of `push_json_raw`: 0 is no address
  abbrev pub parsed : ℕ → Run g ℕ
  parsed zero = fail g (rego_wasm_error "Failed to load json in memory")
  parsed (suc n) = pure g (suc n)

  abbrev pub written : Result String g.Store → g.Store → Option (Result BurregoError Unit × g.Store)
  written (ok store') store = some (ok tt, store')
  written (err e) store =
      some (err (wasm_engine_error ("push_json: cannot write to memory: " <> e)), store)

  -- `Memory::write` at an `i32`, whose conversion panics if it is negative
  abbrev pub write_memory : ℕ → Bytes → Run g Unit
  write_memory raw_addr bytes =
      if ltb raw_addr (2 ^ 31)
      then (λ store. written (g.write store raw_addr bytes) store)
      else panic g

  unfoldable pub push_json_raw : g.Func → g.Func → Bytes → Run g ℕ
  push_json_raw opa_malloc_fn opa_json_parse_fn bytes = do
    data_size ←
        if ltb (length bytes) (2 ^ 31)
        then pure g (length bytes)
        else fail g (rego_wasm_error "push_json: cannot convert size to json")
    raw_addr ←
        call_guest g
          (λ e.
            wasm_engine_error
              ("push_json: cannot invoke opa_malloc function: " <> g.error_to_string e))
          opa_malloc_fn (data_size ∷ [])
    done ← write_memory raw_addr bytes
    addr ←
        call_guest g (λ e. rego_wasm_error ("Cannot get memory address: " <> g.error_to_string e))
          opa_json_parse_fn (raw_addr ∷ data_size ∷ [])
    parsed addr

  unfoldable pub push_json : g.Func → g.Func → g.Value → Run g ℕ
  push_json opa_malloc_fn opa_json_parse_fn value = do
    bytes ← lift g (map_err (json_error "push_json") (g.to_vec value))
    push_json_raw opa_malloc_fn opa_json_parse_fn bytes

  -- the functions that a guest exports, with the error of one that it does not
  abbrev pub exported : (String → String) → String → Run g g.Func
  exported message name store =
      some (map_err (λ e. rego_wasm_error (message name <> e)) (g.get_typed_func store name), store)

  abbrev pub cannot_access : String → String
  cannot_access name = "cannot access " <> name <> " function: "

  abbrev pub cannot_access_upper : String → String
  cannot_access_upper name = "Cannot access " <> name <> " function: "

  -- `as_i64().unwrap()` on each value, and what is made of its name and its number
  unfoldable pub collect_ids : Dict ℕ String → Dict String g.Value → Run g (Dict ℕ String)
  collect_ids builtins [] = pure g builtins
  collect_ids builtins ((name, value) ∷ rest) = do
    id ← or_run g (panic g) (g.as_i64 value)
    collect_ids (insert builtins (as_i32 id) name) rest

  -- `StackHelper::new`; the callbacks, which only print, are left out
  unfoldable pub new_stack_helper : Run g StackHelper
  new_stack_helper = do
    opa_json_dump_fn ← exported cannot_access "opa_json_dump"
    opa_malloc_fn ← exported cannot_access_upper "opa_malloc"
    opa_json_parse_fn ← exported cannot_access_upper "opa_json_parse"
    builtins_fn ← exported cannot_access "builtins"
    addr ←
        call_guest g
          (λ e. wasm_engine_error ("cannot invoke builtins function: " <> g.error_to_string e))
          builtins_fn []
    value ← pull_json opa_json_dump_fn addr
    entries ←
        or_run g (fail g (rego_wasm_error "OPA builtins didn't return a dictionary"))
          (g.as_object value)
    builtins ← collect_ids [] entries
    pure g (record {
      opa_json_dump_fn = opa_json_dump_fn;
      opa_malloc_fn = opa_malloc_fn;
      opa_json_parse_fn = opa_json_parse_fn;
      builtins = builtins;
    })
