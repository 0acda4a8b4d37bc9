-- ===== src/Burrego/Memory/Strings.antt =====
-- crates/burrego/src/stack_helper.rs: which strings are read, and that the loop ends.
use mathlib.Core.List.{[], ◌∷◌}
use policy_evaluator.Prelude.{
  ℕ, zero, suc, ◌+◌, ◌-◌, ◌^◌, ◌<◌, String, true, Option, none, some, ◌++◌, Result, ok, err, ◌==◌,
  nat_eq, ltb, if◌then◌else◌, length, drop, ◌≡◌, refl, ap, ◌∙◌, inl, inr, Bool-cases, arith,
  append-nil, append_assoc,
}
use policy_evaluator.Burrego.{BurregoError}
use policy_evaluator.Burrego.Memory.{Bytes, cannot_read, read_from, read_string}

-- what the crate wasmtime documents of `Memory::read`, for a memory with these bytes
pub record IsMemory (read : ℕ → Result String ℕ) (mem : Bytes) (e : String) : Type 0 where
  pub inside : (n byte : ℕ) (rest : Bytes) → drop n mem ≡ byte ∷ rest → read n ≡ ok byte
  pub outside : (n : ℕ) → drop n mem ≡ [] → read n ≡ err e

abbrev add_byte : ℕ → Option Bytes → Option Bytes
add_byte byte none = none
add_byte byte (some s) = some (byte ∷ s)

-- the bytes before the first zero, if there is one
abbrev pub until_zero : Bytes → Option Bytes
until_zero [] = none
until_zero (byte ∷ rest) = if byte == 0 then some [] else add_byte byte (until_zero rest)

-- the bytes that were read with a string after it, or the error of a memory that ends
abbrev pub answer : String → Bytes → Option Bytes → Result BurregoError Bytes
answer e bytes none = err (cannot_read e)
answer e bytes (some s) = ok (bytes ++ s)

answer-add_byte :
    (e : String) (bytes : Bytes) (byte : ℕ) (s : Option Bytes)
    → answer e (bytes ++ byte ∷ []) s ≡ answer e bytes (add_byte byte s)
answer-add_byte e bytes byte none = refl
answer-add_byte e bytes byte (some s) =
    ap {B = Result BurregoError Bytes} (λ q. ok q) (append_assoc bytes (byte ∷ []) s)

drop-suc : (n byte : ℕ) (mem rest : Bytes) → drop n mem ≡ byte ∷ rest → drop (suc n) mem ≡ rest
drop-suc zero byte [] rest at = cc
drop-suc zero byte (b ∷ bs) rest at = cc
drop-suc (suc n) byte [] rest at = cc
drop-suc (suc n) byte (b ∷ bs) rest at = drop-suc n byte bs rest at

drop_bound : (n m : ℕ) (mem : Bytes) → n < m → length mem < m → length (drop n mem) < m - n
drop_bound zero m mem below short = omega arith
drop_bound (suc n) m [] below short = omega arith
drop_bound (suc n) (suc m) (b ∷ bs) below short =
    let ih = drop_bound n m bs (omega arith) (omega arith) in omega arith
drop_bound (suc n) zero (b ∷ bs) below short = absurd (omega arith)

module _ {read : ℕ → Result String ℕ} {mem : Bytes} {e : String}
    (memory : IsMemory read mem e) where
  read_from-until_zero :
      (suffix : Bytes) (left raw_addr : ℕ) (bytes : Bytes)
      → drop raw_addr mem ≡ suffix
      → length suffix < left
      → read_from read left raw_addr bytes ≡ some (answer e bytes (until_zero suffix))
  unfolding read_from
  read_from-until_zero suffix zero raw_addr bytes at enough = absurd (omega arith)
  read_from-until_zero [] (suc left) raw_addr bytes at enough =
      rw (read_from, memory.outside raw_addr at) refl
  read_from-until_zero (byte ∷ rest) (suc left) raw_addr bytes at enough =
      elim (Bool-cases (byte == 0)) [
        | inl ends ↦
            rw (read_from, memory.inside raw_addr byte rest at, ends, append-nil bytes) refl
        | inr goes_on ↦
            let after : raw_addr + 1 ≡ suc raw_addr = omega arith in
            let next : drop (raw_addr + 1) mem ≡ rest =
              ap (λ n. drop n mem) after ∙ drop-suc raw_addr byte mem rest at in
            rw (read_from, memory.inside raw_addr byte rest at, goes_on)
              (read_from-until_zero rest left (raw_addr + 1) (bytes ++ byte ∷ []) next (omega arith)
                ∙ ap some (answer-add_byte e bytes byte (until_zero rest)))
      ]

  -- For an address that is not negative, in a memory of less than 2 ^ 31 bytes, the loop ends
  -- without a panic: it gives the bytes from the address to the first zero, without the zero, and
  -- where no zero follows, or the address lies outside the memory, the error of the engine.
  pub read_string-until_zero :
      (addr : ℕ)
      → addr < 2 ^ 31
      → length mem < 2 ^ 31
      → read_string read addr ≡ some (answer e [] (until_zero (drop addr mem)))
  unfolding read_string
  read_string-until_zero addr not_negative small =
      let below : ltb addr (2 ^ 31) ≡ true = ground arith in
      rw (below) (
        read_from-until_zero (drop addr mem) (2 ^ 31 - addr) addr [] refl
          (drop_bound addr (2 ^ 31) mem not_negative small))
