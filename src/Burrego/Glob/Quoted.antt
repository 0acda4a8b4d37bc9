-- ===== src/Burrego/Glob/Quoted.antt =====
-- crates/burrego/src/builtins/glob.rs: what a quoted text means as a glob.
use Prim.Native.Char.{Char, code}
use Prim.Native.String.{[], ◌∷◌}
use mathlib.Core.List.{[], ◌∷◌}
use policy_evaluator.Prelude.{
  ℕ, List, contains, String, Bool, true, false, Option, none, some, ◌≡◌, refl, ap, ◌==◌, nat_eq,
  if◌then◌else◌, inl, inr, Bool-cases, arith,
}
use policy_evaluator.Burrego.Glob.{is_special, escape}

abbrev add_char : Char → Option String → Option String
add_char c none = none
add_char c (some s) = some (c ∷ s)

-- the characters that mean something in a glob
abbrev glob_codes : List ℕ
glob_codes = b'*' ∷ b'?' ∷ b'[' ∷ b']' ∷ b'{' ∷ b'}' ∷ b'\\' ∷ []

-- the text that a glob stands for, character by character: after a backslash any character stands
-- for itself, elsewhere a character that means something stands for no single text
abbrev literal_from : Bool → String → Option String
literal_from true [] = none
literal_from false [] = some ""
literal_from true (c ∷ s) = add_char c (literal_from false s)
literal_from false (c ∷ s) =
    let rest = literal_from (code c == b'\\') s in
    if code c == b'\\' then rest else if contains glob_codes (code c) then none else add_char c rest

abbrev pub literal : String → Option String
literal = literal_from false

backslash-is_special : (c : Char) → is_special c ≡ false → (code c == b'\\') ≡ false
unfolding is_special
backslash-is_special c plain = ground arith

codes-is_special : (c : Char) → is_special c ≡ false → contains glob_codes (code c) ≡ false
unfolding is_special contains
codes-is_special c plain = ground arith

-- Read as a glob, an escaped text stands for exactly the text that was escaped, whatever
-- characters it has.
pub literal-escape : (s : String) → literal (escape s) ≡ some s
unfolding escape
literal-escape [] = refl
literal-escape (c ∷ s) = elim (Bool-cases (is_special c)) [
  | inl special ↦ rw (special) (ap (add_char c) (literal-escape s))
  | inr plain ↦
      rw (plain, backslash-is_special c plain, codes-is_special c plain)
        (ap (add_char c) (literal-escape s))
]
