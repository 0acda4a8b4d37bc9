-- ===== src/Burrego/Memory.antt =====
-- crates/burrego/src/stack_helper.rs: the strings that are read from the memory of a guest.
pub mod Strings
use mathlib.Core.List.{[], ◌∷◌}
use policy_evaluator.Prelude.{
  ℕ, zero, suc, ◌+◌, ◌-◌, ◌^◌, String, Bool, true, false, Option, none, some, List, ◌++◌, Result,
  ok, err, ◌<>◌, ◌==◌, nat_eq, ltb, if◌then◌else◌,
}
use policy_evaluator.Burrego.{BurregoError, wasm_engine_error}

abbrev pub Bytes : Type 0
Bytes = List ℕ

abbrev pub cannot_read : String → BurregoError
cannot_read e = wasm_engine_error ("cannot read from memory: " <> e)

-- The loop, with the number of the `i32` that are not less than `raw_addr`. When none is left,
-- `raw_addr + 1` has overflowed, and whether that panics at once or gives a negative address, whose
-- conversion to a `usize` is unwrapped, the host panics, which is `none`. `Memory::read` with a
-- buffer of one byte is `read`.
unfoldable pub read_from :
    (ℕ → Result String ℕ) → ℕ → ℕ → Bytes → Option (Result BurregoError Bytes)
read_from read zero raw_addr bytes = none
read_from read (suc left) raw_addr bytes = elim (read raw_addr) [
  | err e ↦ some (err (cannot_read e))
  | ok byte ↦ elim (byte == 0) [
    | true ↦ some (ok bytes)
    | false ↦ read_from read left (raw_addr + 1) (bytes ++ byte ∷ [])
  ]
]

-- `addr` is an `i32`, as its bits; the conversion of a negative one panics
unfoldable pub read_string : (ℕ → Result String ℕ) → ℕ → Option (Result BurregoError Bytes)
read_string read addr = if ltb addr (2 ^ 31) then read_from read (2 ^ 31 - addr) addr [] else none
