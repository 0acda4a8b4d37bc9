-- ===== src/Metadata/Whole.antt =====
-- src/policy_metadata.rs: valid metadata, described without the checks.
use mathlib.Core.Bool.{and-eq-true_iff}
use policy_evaluator.Prelude.{
  ◌&&◌, List, [], ◌∷◌, Bool, true, false, is_some, ◌≡◌, ◌≢◌, ◌↔◌, refl, arith, All, every,
  string_eq, eq_iff,
}
use policy_evaluator.Metadata.{
  rule_is_valid, ContextAwareResource, context_aware_resource_is_valid, Metadata, is_wapc,
  is_unknown_version, validate_metadata, metadata_is_valid, is_ok,
}
use policy_evaluator.Metadata.Validity.{IsValidRule, rule_is_valid_iff}

abbrev pub IsNamed : ContextAwareResource → Type 0
IsNamed r = (r.api_version ≢ "") × (r.kind ≢ "")

context_aware_resource_is_valid_iff :
    (r : ContextAwareResource) → (context_aware_resource_is_valid r ≡ true) ↔ IsNamed r
unfolding context_aware_resource_is_valid
context_aware_resource_is_valid_iff r = ground (arith, eq_iff r.api_version "", eq_iff r.kind "")

every_iff :
    {A : Type 0} (test : A → Bool) (P : A → Type 0)
    → ((x : A) → (test x ≡ true) ↔ P x)
    → (xs : List A) → (every test xs ≡ true) ↔ All P xs
every_iff test P h [] = ((λ e. tt), λ a. refl)
every_iff test P h (x ∷ xs) = (
  (λ e.
      let (first, rest) = (and-eq-true_iff _ _).0 e in
      ((h x).0 first, (every_iff test P h xs).0 rest)),
  (λ a. (and-eq-true_iff _ _).1 ((h x).1 a.0, (every_iff test P h xs).1 a.1)),
)

module _ {ProtocolVersion Version : Type 0} (is_unknown : ProtocolVersion → Bool) where
  -- what the metadata must have, and the version that a waPC policy must not have
  pub record IsValidMetadata (m : Metadata ProtocolVersion Version) : Type 0 where
    pub versioned : is_some m.protocol_version ≡ true
    pub rules : All IsValidRule m.rules
    pub resources : All IsNamed m.context_aware_resources
    pub known :
        (is_wapc m.execution_mode && is_unknown_version is_unknown m.protocol_version) ≡ false

  validate_metadata_iff :
      (m : Metadata ProtocolVersion Version)
      → (is_ok (validate_metadata is_unknown m) ≡ true)
        ↔ ((is_wapc m.execution_mode && is_unknown_version is_unknown m.protocol_version) ≡ false)
  unfolding validate_metadata
  validate_metadata_iff m = ground arith

  -- Metadata is valid exactly if it has a protocol version, which is not the unknown one for a waPC
  -- policy, if its rules are valid, and if the version and the kind of its context aware resources
  -- are not empty.
  pub metadata_is_valid_iff :
      (m : Metadata ProtocolVersion Version)
      → (metadata_is_valid is_unknown m ≡ true) ↔ IsValidMetadata m
  unfolding metadata_is_valid
  metadata_is_valid_iff m = (
    (λ h.
        let (front, known) = (and-eq-true_iff _ _).0 h in
        let (front', resources) = (and-eq-true_iff _ _).0 front in
        let (versioned, rules) = (and-eq-true_iff _ _).0 front' in
        record {
          versioned = versioned;
          rules = (every_iff rule_is_valid IsValidRule rule_is_valid_iff m.rules).0 rules;
          resources =
              (every_iff context_aware_resource_is_valid IsNamed context_aware_resource_is_valid_iff
                  m.context_aware_resources).0
                resources;
          known = (validate_metadata_iff m).0 known;
        }),
    (λ v. (and-eq-true_iff _ _).1 (
      (and-eq-true_iff _ _).1 (
        (and-eq-true_iff _ _).1 (
          v.versioned,
          (every_iff rule_is_valid IsValidRule rule_is_valid_iff m.rules).1 v.rules,
        ),
        (every_iff context_aware_resource_is_valid IsNamed context_aware_resource_is_valid_iff
              m.context_aware_resources).1
            v.resources,
      ),
      (validate_metadata_iff m).1 v.known,
    )),
  )
