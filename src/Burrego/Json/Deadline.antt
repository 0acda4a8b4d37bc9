-- ===== src/Burrego/Json/Deadline.antt =====
-- crates/burrego/src/stack_helper.rs: the errors of the values that pass through the memory.
use mathlib.Core.List.{[], ◌∷◌}
use mathlib.Core.Logic.{inl, inr}
use policy_evaluator.Prelude.{
  ℕ, zero, suc, ◌-◌, ◌^◌, String, Bool-cases, Result-cases, ◌+◌, ◌++◌, ◌==◌, nat_eq, Option, none,
  some, Result, ok, err, map_err, ltb, length, if◌then◌else◌,
}
use policy_evaluator.Burrego.{
  BurregoError, missing_rego_builtins, wasm_engine_error, rego_wasm_error, json_error,
  evaluator_builder_error, builtin_error, builtin_not_implemented_error,
  execution_deadline_exceeded,
}
use policy_evaluator.Burrego.Memory.{Bytes, read_string, read_from}
use policy_evaluator.Burrego.Guest.{Guest, Run, called, continue_with, lift, pure, fail}
use policy_evaluator.Burrego.Json.{
  pull_json, push_json, push_json_raw, with_store, write_memory, written, parsed,
}

-- any error but that of the deadline
abbrev IsOther : BurregoError → Type 0
IsOther execution_deadline_exceeded = ⊥
IsOther (missing_rego_builtins s) = Unit
IsOther (wasm_engine_error s) = Unit
IsOther (rego_wasm_error s) = Unit
IsOther (json_error m s) = Unit
IsOther (evaluator_builder_error s) = Unit
IsOther (builtin_error n m) = Unit
IsOther (builtin_not_implemented_error s) = Unit

module _ (g : Guest) where
  -- no result is the error of the deadline
  abbrev pub HasNoDeadline : {A : Type 0} → Option (Result BurregoError A × g.Store) → Type 0
  HasNoDeadline none = Unit
  HasNoDeadline (some (ok a, store)) = Unit
  HasNoDeadline (some (err e, store)) = IsOther e

  continue_with-HasNoDeadline :
      {A B : Type 0} (r : Option (Result BurregoError A × g.Store)) (k : A → Run g B)
      → HasNoDeadline r
      → ((a : A) (store : g.Store) → HasNoDeadline (k a store))
      → HasNoDeadline (continue_with g r k)
  continue_with-HasNoDeadline none k first next = tt
  continue_with-HasNoDeadline (some (ok a, store)) k first next = next a store
  continue_with-HasNoDeadline (some (err e, store)) k first next = first

  called-HasNoDeadline :
      (on_error : g.Error → BurregoError) (r : Result g.Error ℕ × g.Store)
      → ((e : g.Error) → IsOther (on_error e))
      → HasNoDeadline (called g on_error r)
  called-HasNoDeadline on_error (ok n, store) other = tt
  called-HasNoDeadline on_error (err e, store) other = other e

  lift-HasNoDeadline :
      {A E : Type 0} (on_error : E → BurregoError) (r : Result E A) (store : g.Store)
      → ((e : E) → IsOther (on_error e))
      → HasNoDeadline (lift g (map_err on_error r) store)
  lift-HasNoDeadline on_error (ok a) store other = tt
  lift-HasNoDeadline on_error (err e) store other = other e

  -- the pure reader
  abbrev ReadsOther : Option (Result BurregoError Bytes) → Type 0
  ReadsOther none = Unit
  ReadsOther (some (ok bytes)) = Unit
  ReadsOther (some (err e)) = IsOther e

  read_from-ReadsOther :
      (read : ℕ → Result String ℕ) (left raw_addr : ℕ) (bytes : Bytes)
      → ReadsOther (read_from read left raw_addr bytes)
  unfolding read_from
  read_from-ReadsOther read zero raw_addr bytes = tt
  read_from-ReadsOther read (suc left) raw_addr bytes = elim (Result-cases (read raw_addr)) [
    | inl (byte, found) ↦ elim (Bool-cases (byte == 0)) [
      | inl ends ↦ rw (read_from, found, ends) tt
      | inr goes_on ↦
          rw (read_from, found, goes_on)
            (read_from-ReadsOther read left (raw_addr + 1) (bytes ++ byte ∷ []))
    ]
    | inr (e, outside) ↦ rw (read_from, outside) tt
  ]

  read_string-ReadsOther :
      (read : ℕ → Result String ℕ) (addr : ℕ) → ReadsOther (read_string read addr)
  unfolding read_string
  read_string-ReadsOther read addr = elim (Bool-cases (ltb addr (2 ^ 31))) [
    | inl positive ↦ rw positive (read_from-ReadsOther read (2 ^ 31 - addr) addr [])
    | inr negative ↦ rw negative tt
  ]

  with_store-HasNoDeadline :
      (store : g.Store) (r : _) → ReadsOther r → HasNoDeadline (with_store g store r)
  with_store-HasNoDeadline store none other = tt
  with_store-HasNoDeadline store (some (ok bytes)) other = tt
  with_store-HasNoDeadline store (some (err e)) other = other

  written-HasNoDeadline :
      (r : Result String g.Store) (store : g.Store) → HasNoDeadline (written g r store)
  written-HasNoDeadline (ok store') store = tt
  written-HasNoDeadline (err e) store = tt

  write_memory-HasNoDeadline :
      (addr : ℕ) (bytes : Bytes) (store : g.Store) → HasNoDeadline (write_memory g addr bytes store)
  write_memory-HasNoDeadline addr bytes store = elim (Bool-cases (ltb addr (2 ^ 31))) [
    | inl positive ↦ rw positive (written-HasNoDeadline (g.write store addr bytes) store)
    | inr negative ↦ rw negative tt
  ]

  parsed-HasNoDeadline : (addr : ℕ) (store : g.Store) → HasNoDeadline (parsed g addr store)
  parsed-HasNoDeadline zero store = tt
  parsed-HasNoDeadline (suc n) store = tt

  data_size-HasNoDeadline :
      (bytes : Bytes) (store : g.Store)
      → HasNoDeadline (
          (if ltb (length bytes) (2 ^ 31)
              then pure g (length bytes)
              else fail g (rego_wasm_error "push_json: cannot convert size to json"))
            store)
  data_size-HasNoDeadline bytes store = elim (Bool-cases (ltb (length bytes) (2 ^ 31))) [
    | inl fits ↦ rw fits tt
    | inr long ↦ rw long tt
  ]

  pull_json-HasNoDeadline :
      (opa_json_dump_fn : g.Func) (addr : ℕ) (store : g.Store)
      → HasNoDeadline (pull_json g opa_json_dump_fn addr store)
  unfolding pull_json
  pull_json-HasNoDeadline opa_json_dump_fn addr store =
      continue_with-HasNoDeadline _ _
        (called-HasNoDeadline _ (g.call opa_json_dump_fn (addr ∷ []) store) (λ e. tt))
        λ raw_addr dumped.
          continue_with-HasNoDeadline _ _
            (with_store-HasNoDeadline dumped _ (read_string-ReadsOther (g.read dumped) raw_addr))
            λ bytes read. lift-HasNoDeadline _ (g.from_slice bytes) read (λ e. tt)

  push_json_raw-HasNoDeadline :
      (opa_malloc_fn opa_json_parse_fn : g.Func) (bytes : Bytes) (store : g.Store)
      → HasNoDeadline (push_json_raw g opa_malloc_fn opa_json_parse_fn bytes store)
  unfolding push_json_raw
  push_json_raw-HasNoDeadline opa_malloc_fn opa_json_parse_fn bytes store =
      continue_with-HasNoDeadline _ _ (data_size-HasNoDeadline bytes store) λ data_size store₁.
        continue_with-HasNoDeadline _ _
          (called-HasNoDeadline _ (g.call opa_malloc_fn (data_size ∷ []) store₁) (λ e. tt))
          λ raw_addr store₂.
            continue_with-HasNoDeadline _ _ (write_memory-HasNoDeadline raw_addr bytes store₂)
              λ done store₃.
                continue_with-HasNoDeadline _ _
                  (called-HasNoDeadline _
                    (g.call opa_json_parse_fn (raw_addr ∷ data_size ∷ []) store₃) (λ e. tt))
                  λ addr store₄. parsed-HasNoDeadline addr store₄

  -- Whatever the guest does, an interruption inside of its functions included, neither pull_json
  -- nor push_json returns the error of the deadline.
  pub exchange-HasNoDeadline :
      (opa_json_dump_fn opa_malloc_fn opa_json_parse_fn : g.Func) (addr : ℕ) (value : g.Value)
      (store : g.Store)
      → HasNoDeadline (pull_json g opa_json_dump_fn addr store)
        × HasNoDeadline (push_json g opa_malloc_fn opa_json_parse_fn value store)
  unfolding push_json
  exchange-HasNoDeadline opa_json_dump_fn opa_malloc_fn opa_json_parse_fn addr value store = (
    pull_json-HasNoDeadline opa_json_dump_fn addr store,
    continue_with-HasNoDeadline (lift g (map_err (json_error "push_json") (g.to_vec value)) store) _
        (lift-HasNoDeadline (json_error "push_json") (g.to_vec value) store (λ e. tt))
        λ bytes store₁. push_json_raw-HasNoDeadline opa_malloc_fn opa_json_parse_fn bytes store₁,
  )
