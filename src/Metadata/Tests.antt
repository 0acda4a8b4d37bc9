-- ===== src/Metadata/Tests.antt =====
-- Rules of src/policy_metadata.rs, read and validated.
use policy_evaluator.Prelude.{ℕ, Bool, nat_eq, ◌==◌, [], ◌∷◌, ◌≡◌, ◌↔◌, refl, true, some, ok}
use policy_evaluator.Metadata.Whole.{IsValidMetadata, metadata_is_valid_iff}
use policy_evaluator.Metadata.{
  Metadata, default_metadata, metadata_is_valid, create, update, Rule, NamedRuleWithOperations,
  rule_try_from,
}
use policy_evaluator.Metadata.Operations.{Reads, rule_try_from_iff}
use policy_evaluator.Metadata.Resources.{split_once, validate_resources}
use policy_evaluator.Metadata.Resources.Accepted.{IsAccepted}
use policy_evaluator.Metadata.Resources.Laws.{validate_resources_iff}
use policy_evaluator.Metadata.Resources.Order.{IsBare}

abbrev pods : Rule
pods = record {
  api_groups = "" ∷ [];
  api_versions = "v1" ∷ [];
  resources = "pods" ∷ "pods/status" ∷ [];
  operations = create ∷ update ∷ [];
}

abbrev named_pods : NamedRuleWithOperations
named_pods = record {
  operations = some ("CREATE" ∷ "UPDATE" ∷ []);
  api_groups = some ("" ∷ []);
  api_versions = some ("v1" ∷ []);
  resources = some ("pods" ∷ "pods/status" ∷ []);
}

rule_try_from_iff_example : (rule_try_from named_pods ≡ ok pods) ↔ Reads named_pods pods
rule_try_from_iff_example = rule_try_from_iff named_pods pods

validate_resources_iff_example :
    (validate_resources ("*/*" ∷ "pods" ∷ []) ≡ ok tt) ↔ IsAccepted ("*/*" ∷ "pods" ∷ [])
validate_resources_iff_example = validate_resources_iff ("*/*" ∷ "pods" ∷ [])

pods-IsBare : IsBare "pods"
unfolding split_once
pods-IsBare = record { uncut = refl; nonempty = λ e. cc; named = λ e. cc }

abbrev pods_metadata : Metadata ℕ ℕ
pods_metadata = record (default_metadata ℕ ℕ) { protocol_version = some 1; rules = pods ∷ [] }

-- version 0 stands for the unknown one
abbrev is_zero : ℕ → Bool
is_zero n = n == 0

metadata_is_valid_iff_example :
    (metadata_is_valid is_zero pods_metadata ≡ true) ↔ IsValidMetadata is_zero pods_metadata
metadata_is_valid_iff_example = metadata_is_valid_iff is_zero pods_metadata
