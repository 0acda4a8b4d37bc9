-- ===== src/Burrego/Regex/Matches.antt =====
-- crates/burrego/src/builtins/regex.rs: the matches that `find_n` gives.
use mathlib.Core.List.{[], ◌∷◌}
use policy_evaluator.Prelude.{
  ℕ, zero, suc, ◌%◌, ◌^◌, ◌<◌, ◌≤◌, String, some, List, length, take, ok, map_err, ◌<>◌, ◌≡◌, refl,
  ap, arith,
}
use policy_evaluator.Prelude.Int.{ℤ, pos, negsuc, as_u64}
use policy_evaluator.Burrego.{builtin_error, Libraries}
use policy_evaluator.Burrego.Regex.{find_n, matches_to_take}

take_all {ℓ} : {A : Type ℓ} (n : ℕ) (xs : List A) → length xs ≤ n → take n xs ≡ xs
take_all zero [] h = refl
take_all zero (x ∷ xs) h = absurd (omega arith)
take_all (suc n) [] h = refl
take_all {A} (suc n) (x ∷ xs) h = ap {B = List A} (λ ys. x ∷ ys) (take_all n xs (omega arith))

-- an `i64`
abbrev pub IsI64 : ℤ → Type 0
IsI64 (pos n) = n < 2 ^ 63
IsI64 (negsuc n) = n < 2 ^ 63

-- the first matches, or all of them for a negative number
abbrev pub wanted : ℤ → List String → List String
wanted (pos n) matches = take n matches
wanted (negsuc n) matches = matches

module _ (lib : Libraries) where
  chosen :
      (pattern_str string_str : String) (number : ℤ) (regex : lib.Regex)
      → lib.new_regex pattern_str ≡ ok regex
      → IsI64 number
      → length (lib.find_iter regex string_str) < 2 ^ 63
      → (n : ℕ) × (matches_to_take lib pattern_str string_str number ≡ ok n)
        × (take n (lib.find_iter regex string_str) ≡ wanted number (lib.find_iter regex string_str))
  chosen p s (pos m) regex built in_range few =
      let kept : m % 2 ^ 64 ≡ m = omega arith in
      (m % 2 ^ 64, refl, ap (λ n. take n (lib.find_iter regex s)) kept)
  chosen p s (negsuc zero) regex built in_range few =
      let matches = lib.find_iter regex s in
      (length matches, rw (built) refl, take_all (length matches) matches (omega arith))
  chosen p s (negsuc (suc k)) regex built in_range few =
      let matches = lib.find_iter regex s in
      (as_u64 (negsuc (suc k)), refl, take_all (as_u64 (negsuc (suc k))) matches (omega arith))

module _ (lib : Libraries) (a b c : lib.Value) {pattern_str string_str : String} {number : ℤ}
    {regex : lib.Regex} where
  -- `find_n` gives as many of the matches, from the first, as its number says, and all of them if
  -- the number is negative, also where it is not -1 and is cast to a `usize`; for arguments of the
  -- right types, a pattern that is a regular expression, a number that is an `i64`, and less than
  -- 2^63 matches.
  find_n_lem :
      lib.as_str a ≡ some pattern_str
      → lib.as_str b ≡ some string_str
      → lib.as_i64 c ≡ some number
      → lib.new_regex pattern_str ≡ ok regex
      → IsI64 number
      → length (lib.find_iter regex string_str) < 2 ^ 63
      → find_n lib (a ∷ b ∷ c ∷ [])
        ≡ map_err
            (λ e. builtin_error "regex.find_n" ("cannot convert value into JSON: " <> e))
            (lib.strings_to_value (wanted number (lib.find_iter regex string_str)))
  unfolding find_n
  find_n_lem first second third built in_range few =
      let picked = chosen lib pattern_str string_str number regex built in_range few in
      rw (first, second, third, picked.1, built, picked.2) refl
