-- ===== src/PolicyId.antt =====
-- src/admission_response_handler/policy_id.rs: the identifier of a policy or of a group's member.
pub mod RoundTrip
mod Tests
use Prim.Native.Char.{Char, code}
use Prim.Native.String.{[], ◌∷◌}
use mathlib.Core.List.{[], ◌∷◌}
use policy_evaluator.Prelude.{
  String, List, Result, ok, err, ◌<>◌, ◌==◌, nat_eq, string_eq, if◌then◌else◌,
}

pub data PolicyId : Type 0 where
  policy : String → PolicyId
  policy_group_policy : (group name : String) → PolicyId

-- the errors of src/admission_response_handler/errors.rs that parsing can give
pub data EvaluationError : Type 0 where
  invalid_policy_id : String → EvaluationError

-- `impl Display for PolicyID`
unfoldable pub to_string : PolicyId → String
to_string (policy name) = name
to_string (policy_group_policy group name) = group <> "/" <> name

-- one more character in front of the first part
abbrev push_front : Char → List String → List String
push_front c [] = (c ∷ []) ∷ []
push_front c (p ∷ ps) = (c ∷ p) ∷ ps

-- `s.split('/')`: never empty, though the parts may be
unfoldable pub split_slash : String → List String
split_slash [] = "" ∷ []
split_slash (c ∷ s) =
    let rest = split_slash s in if code c == b'/' then "" ∷ rest else push_front c rest

-- the match on the number of parts
from_parts : String → List String → Result EvaluationError PolicyId
from_parts s (part ∷ []) = ok (policy s)
from_parts s (group ∷ name ∷ []) = ok (policy_group_policy group name)
from_parts s _ = err (invalid_policy_id s)

-- `impl FromStr for PolicyID`
unfoldable pub from_str : String → Result EvaluationError PolicyId
unfolding from_parts
from_str s = if s == "" then err (invalid_policy_id s) else from_parts s (split_slash s)
