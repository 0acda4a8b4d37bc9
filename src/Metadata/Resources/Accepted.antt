-- ===== src/Metadata/Resources/Accepted.antt =====
-- src/policy_metadata.rs: a description of the lists of resources for `validate_resources`, without
-- its loop and its variables.
use mathlib.Core.List.{[], ◌∷◌}
use policy_evaluator.Prelude.{
  String, List, Bool, false, Option, none, some, ◌==◌, string_eq, ◌||◌, ◌&&◌, not, contains, length,
  ltb, ◌≡◌, ◌≢◌, All, nat_eq,
}
use policy_evaluator.Metadata.Resources.{split_once}

-- An earlier `x/*` rules out `x/y`, and an earlier `*/y` rules out `x/y`.
abbrev pub clash_parts : Option (String × String) → Option (String × String) → Bool
clash_parts none later = false
clash_parts (some (res, sub)) none = false
clash_parts (some (res, sub)) (some (res', sub')) =
    (sub == "*" && res == res') || (res == "*" && sub == sub')

abbrev pub clash : String → String → Bool
clash earlier later = clash_parts (split_once earlier) (split_once later)

-- whether the last resource without a slash, if there is one, differs from the wildcard
abbrev pub bare_after : Bool → Option (String × String) → String → Bool
bare_after before none x = not (x == "*")
bare_after before (some parts) x = before

abbrev pub last_bare : Bool → List String → Bool
last_bare before [] = before
last_bare before (x ∷ xs) = last_bare (bare_after before (split_once x) x) xs

-- Each earlier member stands in the relation to each later one.
abbrev pub AllPairs : (String → String → Type 0) → List String → Type 0
AllPairs R [] = Unit
AllPairs R (x ∷ xs) = All (R x) xs × AllPairs R xs

pub record IsAccepted (resources : List String) : Type 0 where
  pub nonempty : All (λ x. x ≢ "") resources
  pub compatible : AllPairs (λ x y. clash x y ≡ false) resources
  pub alone : (ltb 1 (length resources) && contains resources "*/*") ≡ false
  pub unmixed : (contains resources "*" && last_bare false resources) ≡ false
