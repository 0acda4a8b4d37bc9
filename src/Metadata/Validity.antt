-- ===== src/Metadata/Validity.antt =====
-- src/policy_metadata.rs: valid rules, described without the checks.
use mathlib.Core.Bool.{and-eq-true_iff}
use policy_evaluator.Prelude.{
  not, ◌&&◌, String, List, [], ◌∷◌, true, false, ◌≡◌, ◌≢◌, ◌↔◌, ◌⊎◌, arith, In, length, ◌≤◌,
  contains, is_empty, string_eq,
}
use policy_evaluator.Metadata.Resources.{validate_resources}
use policy_evaluator.Metadata.Resources.Accepted.{IsAccepted}
use policy_evaluator.Metadata.Resources.Laws.{validate_resources_iff}
use policy_evaluator.Metadata.{
  Operation, all, Rule, rule_is_valid, validate_asterisk_usage,
  validate_asterisk_usage_inside_of_operations, contains_all, is_ok,
}

-- A list of names that is not empty, and in which an asterisk stands alone.
abbrev pub IsPattern : List String → Type 0
IsPattern xs = (xs ≢ []) × ((length xs ≤ 1) ⊎ (contains xs "*" ≡ false))

abbrev pub IsOperations : List Operation → Type 0
IsOperations ops = (ops ≢ []) × ((length ops ≤ 1) ⊎ (¬ In all ops))

pub record IsValidRule (r : Rule) : Type 0 where
  pub api_groups : IsPattern r.api_groups
  pub api_versions : IsPattern r.api_versions
  pub resources_given : r.resources ≢ []
  pub resources : IsAccepted r.resources
  pub operations : IsOperations r.operations

contains_all_iff : (ops : List Operation) → (contains_all ops ≡ true) ↔ In all ops
unfolding contains_all
contains_all_iff [] = ground arith
contains_all_iff (op ∷ ops) = ground (arith, contains_all_iff ops)

validate_resources-is_ok :
    (xs : List String) → (is_ok (validate_resources xs) ≡ true) ↔ IsAccepted xs
validate_resources-is_ok xs = ground (arith, validate_resources_iff xs)

IsPattern-iff :
    (xs : List String)
    → ((not (is_empty xs) && is_ok (validate_asterisk_usage xs)) ≡ true) ↔ IsPattern xs
unfolding validate_asterisk_usage
IsPattern-iff [] = ground arith
IsPattern-iff (x ∷ xs) = ground arith

IsOperations-iff :
    (ops : List Operation)
    → ((not (is_empty ops) && is_ok (validate_asterisk_usage_inside_of_operations ops)) ≡ true)
      ↔ IsOperations ops
unfolding validate_asterisk_usage_inside_of_operations
IsOperations-iff [] = ground arith
IsOperations-iff (op ∷ ops) = ground (arith, contains_all_iff (op ∷ ops))

resources_iff :
    (xs : List String)
    → ((not (is_empty xs) && is_ok (validate_resources xs)) ≡ true) ↔ ((xs ≢ []) × IsAccepted xs)
resources_iff [] = ground arith
resources_iff (x ∷ xs) = (
  (λ h. ((λ e. cc e), (validate_resources-is_ok (x ∷ xs)).0 h)),
  (λ h. (validate_resources-is_ok (x ∷ xs)).1 h.1),
)

-- A rule is valid exactly if each of its lists has an element, an asterisk among the groups, the
-- versions or the operations stands alone, and the resources are accepted.
pub rule_is_valid_iff : (r : Rule) → (rule_is_valid r ≡ true) ↔ IsValidRule r
unfolding rule_is_valid
rule_is_valid_iff r = (
  (λ h.
      let (front, operations) = (and-eq-true_iff _ _).0 h in
      let (front', resources) = (and-eq-true_iff _ _).0 front in
      let (groups, versions) = (and-eq-true_iff _ _).0 front' in
      record {
        api_groups = (IsPattern-iff r.api_groups).0 groups;
        api_versions = (IsPattern-iff r.api_versions).0 versions;
        resources_given = ((resources_iff r.resources).0 resources).0;
        resources = ((resources_iff r.resources).0 resources).1;
        operations = (IsOperations-iff r.operations).0 operations;
      }),
  (λ v. rw (
    (IsPattern-iff r.api_groups).1 v.api_groups,
    (IsPattern-iff r.api_versions).1 v.api_versions,
    (resources_iff r.resources).1 (v.resources_given, v.resources),
    (IsOperations-iff r.operations).1 v.operations,
  )),
)
