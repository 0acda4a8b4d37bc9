-- ===== src/Json/Sample.antt =====
-- A concrete stand-in for the JSON libraries, at which the theorems are exercised: a document is a
-- text, a patch replaces the whole document, and base64 is the identity.
use policy_evaluator.Prelude.{
  String, ◌≡◌, refl, Option, none, some, List, [], ◌∷◌, Result, ok, err, arith, ◌==◌, string_eq,
  if◌then◌else◌, eq_iff,
}
use policy_evaluator.Json.{Serde, Patching}

abbrev pub replace_all : String → String → List String
replace_all a b = if a == b then [] else b ∷ []

abbrev pub print_one : List String → Result String String
print_one [] = err "empty patch"
print_one (s ∷ []) = ok s
print_one (s ∷ t ∷ r) = err "long patch"

abbrev pub sample : Serde
sample = record {
  Value = String;
  Error = String;
  error_to_string = λ e. e;
  get_key = λ v k. if k == "object" then some v else none;
  as_str = λ v. some v;
  Operation = String;
  diff = replace_all;
  patch_to_string = print_one;
  encode = λ s. s;
}

abbrev apply_all : String → List String → Option String
apply_all a [] = some a
apply_all a (b ∷ p) = apply_all b p

apply_all-replace : (a b : String) → apply_all a (replace_all a b) ≡ some b
apply_all-replace a b = ground (arith, eq_iff a b)

read_print : (p : List String) (s : String) → print_one p ≡ ok s → some (s ∷ []) ≡ some p
read_print [] s h = cc
read_print (x ∷ []) s h = cc
read_print (x ∷ y ∷ r) s h = cc

pub sample_patching : Patching sample
sample_patching = record {
  apply = apply_all;
  apply-diff = apply_all-replace;
  apply-nil = λ a. refl;
  read_patch = λ s. some (s ∷ []);
  decode = λ s. some s;
  decode-encode = λ s. refl;
  read-print = read_print;
}
