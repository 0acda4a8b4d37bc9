-- ===== src/PolicyId/Tests.antt =====
-- Identifiers of src/admission_response_handler/policy_id.rs, read and printed.
use policy_evaluator.Prelude.{◌≡◌, ◌↔◌, refl, ok, err}
use policy_evaluator.PolicyId.{
  policy_group_policy, invalid_policy_id, to_string, split_slash, from_str,
}
use policy_evaluator.PolicyId.RoundTrip.{IsCanonical, from_str_iff}

-- More than one slash is refused.
two_slashes : from_str "a/b/c" ≡ err (invalid_policy_id "a/b/c")
unfolding from_str split_slash
two_slashes = refl

from_str_iff_example : (from_str "group/member" ≡ ok (policy_group_policy "group" "member")) ↔ (
    IsCanonical (policy_group_policy "group" "member")
    × (to_string (policy_group_policy "group" "member") ≡ "group/member"))
from_str_iff_example = from_str_iff "group/member" (policy_group_policy "group" "member")
