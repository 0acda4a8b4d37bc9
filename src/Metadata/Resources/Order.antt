-- ===== src/Metadata/Resources/Order.antt =====
-- src/policy_metadata.rs: `validate_resources` and the order of the resources.
use policy_evaluator.Prelude.{
  String, [], ◌∷◌, none, ok, err, ◌≡◌, ◌≢◌, arith, eq_iff, ap, refl, sym, ◌∙◌,
}
use policy_evaluator.Metadata.Resources.{
  invalid, split_once, scan_one, scan, scan_end, validate_resources,
}

-- A resource without a slash, other than the wildcard.
pub record IsBare (x : String) : Type 0 where
  pub uncut : split_once x ≡ none
  pub nonempty : x ≢ ""
  pub named : x ≢ "*"

wildcard_cut : split_once "*/*" ≢ none
unfolding split_once
wildcard_cut e = cc e

star_uncut : split_once "*" ≡ none
unfolding split_once
star_uncut = refl

-- The wildcard beside one other resource, which is not empty and has no slash, is refused if it
-- stands first, and passes if it stands last.
validate_resources_order :
    (x : String)
    → IsBare x
    → (validate_resources (x ∷ "*" ∷ []) ≡ ok tt)
      × (validate_resources ("*" ∷ x ∷ [])
          ≡ err
              (invalid "if '*' is present, must not specify other resources without subresources"))
unfolding validate_resources scan scan_one scan_end
validate_resources_order x b =
    let double : x ≢ "*/*" = λ e. wildcard_cut (sym (ap split_once e) ∙ b.uncut) in
    (
      ground (arith, b.uncut, star_uncut, eq_iff x "", eq_iff x "*", eq_iff x "*/*"),
      ground (arith, b.uncut, star_uncut, eq_iff x "", eq_iff x "*", eq_iff x "*/*"),
    )
