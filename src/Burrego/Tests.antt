-- ===== src/Burrego/Tests.antt =====
-- The builtins of crates/burrego/src/builtins at concrete inputs.
use Prim.Native.Char.{Char}
use mathlib.Core.List.{[], ◌∷◌}
use policy_evaluator.Prelude.{
  ℕ, Result, err, drop, ap, String, Bool, true, none, some, List, ok, ◌≡◌, refl, arith,
}
use policy_evaluator.Prelude.Int.{ℤ}
use policy_evaluator.Burrego.{Libraries}
use policy_evaluator.Burrego.Glob.{is_special, escape}
use policy_evaluator.Burrego.Glob.Quoted.{literal, literal-escape}
use policy_evaluator.Burrego.Memory.{Bytes, read_string}
use policy_evaluator.Burrego.Memory.Strings.{IsMemory, read_string-until_zero}
use policy_evaluator.Burrego.Regex.{split, expressions_of}
use policy_evaluator.Burrego.Regex.Template.{template_of, parts_of, expressions_of-template_of}

data SampleValue : Type 0 where
  text : String → SampleValue
  number : ℤ → SampleValue
  flag : Bool → SampleValue
  texts : List String → SampleValue

-- every text is a regular expression, and all of them match the same texts
abbrev sample : Libraries
sample = record {
  Value = SampleValue;
  as_str = λ v. elim v [ text s ↦ some s | number n ↦ none | flag b ↦ none | texts ss ↦ none ];
  as_i64 = λ v. elim v [ text s ↦ none | number n ↦ some n | flag b ↦ none | texts ss ↦ none ];
  string_to_value = λ s. ok (text s);
  bool_to_value = λ b. ok (flag b);
  strings_to_value = λ ss. ok (texts ss);
  Regex = String;
  new_regex = λ s. ok s;
  is_match = λ r s. true;
  split = λ r s. "par" ∷ "orm" ∷ [];
  find_iter = λ r s. "ar" ∷ "an" ∷ "al" ∷ [];
  escape = λ s. s;
}

literal-escape_example : literal (escape "domain-[ab].com") ≡ some "domain-[ab].com"
literal-escape_example = literal-escape "domain-[ab].com"

escaped : escape "*.domain-[ab].com" ≡ "\\*.domain-\\[ab\\].com"
unfolding escape is_special
escaped = refl

abbrev open_angle : Char
open_angle = "<"

abbrev close_angle : Char
close_angle = ">"

expressions_of-template_of_example :
    expressions_of
      (template_of open_angle close_angle (("urn:", "[0-9]{2}") ∷ ("", "a*") ∷ []) ":x")
      open_angle
      close_angle
    ≡ parts_of open_angle close_angle (("urn:", "[0-9]{2}") ∷ ("", "a*") ∷ []) ":x"
expressions_of-template_of_example =
    expressions_of-template_of open_angle close_angle (("urn:", "[0-9]{2}") ∷ ("", "a*") ∷ []) ":x"
      refl refl

-- the texts between the matches, put together
split_joined : split sample (text "an" ∷ text "paranorm" ∷ []) ≡ ok (text "parorm")
unfolding split
split_joined = refl

abbrev first_byte : Bytes → Result String ℕ
first_byte [] = err "out of bounds"
first_byte (byte ∷ rest) = ok byte

abbrev memory : Bytes
memory = 7 ∷ b'o' ∷ b'k' ∷ 0 ∷ 9 ∷ []

abbrev read_memory : ℕ → Result String ℕ
read_memory n = first_byte (drop n memory)

memory-IsMemory : IsMemory read_memory memory "out of bounds"
memory-IsMemory = record {
  inside = λ n byte rest at. ap first_byte at;
  outside = λ n at. ap first_byte at;
}

read_string-until_zero_example : read_string read_memory 1 ≡ some (ok (b'o' ∷ b'k' ∷ []))
read_string-until_zero_example =
    read_string-until_zero memory-IsMemory 1 (omega arith) (omega arith)
