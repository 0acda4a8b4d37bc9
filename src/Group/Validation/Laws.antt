-- ===== src/Group/Validation/Laws.antt =====
-- src/policy_group_evaluator/evaluator.rs: when the settings of a group are valid.
use mathlib.Core.Path.{fun_ext}
use policy_evaluator.Prelude.{
  String, List, [], ◌∷◌, Bool, true, false, Result, ok, err, string_eq, ◌≡◌, ◌↔◌, refl, sym, ◌∙◌,
  arith, is_empty, ◌&&◌, All, ap, In, contains, contains_iff, Bool-cases, inl, inr, >>=-eq-ok,
}
use policy_evaluator.Prelude.Dict.{Dict, keys, insert}
use policy_evaluator.Group.{
  SettingsValidationResponse, member_evaluator, Policies, EvaluationError, PolicyGroupEvaluator,
}
use policy_evaluator.Group.Engine.{Rhai, eval}
use policy_evaluator.Group.Validation.{
  answer_true, settings_verdict, validate_policy_settings, note_error, member_errors,
  tried_expression, note_expression_error, policy_validation_errors, validate_settings,
  error_to_string,
}

is_empty-insert : (m : Dict String String) (k v : String) → is_empty (insert m k v) ≡ false
unfolding insert
is_empty-insert [] k v = refl
is_empty-insert ((j, w) ∷ m) k v = ground arith

abbrev is_ok : {E A : Type 0} → Result E A → Bool
is_ok (ok a) = true
is_ok (err e) = false

is_ok-elim : {E A : Type 0} (r : Result E A) → is_ok r ≡ true → (a : A) × (r ≡ ok a)
is_ok-elim (ok a) h = (a, refl)
is_ok-elim (err e) h = cc

is_ok-tt : {E : Type 0} (r : Result E Unit) → is_ok r ≡ true → r ≡ ok tt
is_ok-tt (ok tt) h = refl
is_ok-tt (err e) h = cc

split_and : (a b : Bool) → a && b ≡ true → (a ≡ true) × (b ≡ true)
split_and a b h = ground arith

module _ {p : Policies} (rhai : Rhai (EvaluationError p)) (g : PolicyGroupEvaluator p) where
  -- the settings of a member are accepted
  abbrev IsAcceptedMember : String → Type 0
  IsAcceptedMember id = validate_policy_settings g id ≡ ok tt

  is_empty-note_error :
      (id : String) (r : Result (EvaluationError p) Unit) (errors : Dict String String)
      → is_empty (note_error g id r errors) ≡ is_ok r && is_empty errors
  unfolding note_error
  is_empty-note_error id (ok _) errors = refl
  is_empty-note_error id (err e) errors = is_empty-insert errors _ (error_to_string e)

  member_errors-All :
      (ids : List String) (errors : Dict String String)
      → is_empty (member_errors g ids errors) ≡ true
      → All IsAcceptedMember ids × (is_empty errors ≡ true)
  unfolding member_errors
  member_errors-All [] errors h = (tt, h)
  member_errors-All (id ∷ ids) errors h =
      let (rest, noted) =
        member_errors-All ids (note_error g id (validate_policy_settings g id) errors) h in
      let (accepted, e) =
        split_and (is_ok (validate_policy_settings g id)) (is_empty errors)
          (sym (is_empty-note_error id (validate_policy_settings g id) errors) ∙ noted) in
      ((is_ok-tt (validate_policy_settings g id) accepted, rest), e)

  All-member_errors :
      (ids : List String) (errors : Dict String String)
      → All IsAcceptedMember ids
      → is_empty errors ≡ true
      → is_empty (member_errors g ids errors) ≡ true
  unfolding member_errors note_error
  All-member_errors [] errors h e = e
  All-member_errors (id ∷ ids) errors h e = rw h.0 (All-member_errors ids errors h.1 e)

  is_empty-note_expression_error :
      (r : Result rhai.Error Bool) (errors : Dict String String)
      → is_empty (note_expression_error rhai g r errors) ≡ is_ok r && is_empty errors
  unfolding note_expression_error
  is_empty-note_expression_error (ok _) errors = refl
  is_empty-note_expression_error (err e) errors = is_empty-insert errors _ _

  valid-is_empty : (validate_settings rhai g).valid ≡ is_empty (policy_validation_errors rhai g)
  unfolding validate_settings
  valid-is_empty = ground arith

  -- a member whose evaluator and settings are found, and whose policy says that they are valid
  abbrev pub IsValidMember : String → Type 0
  IsValidMember id =
      (evaluator : p.Evaluator) × (settings : p.Settings) × (member_evaluator g id
        ≡ ok (evaluator, settings))
      × ((p.validate_settings evaluator settings).valid ≡ true)

  settings_verdict_iff :
      (r : SettingsValidationResponse) → (settings_verdict {p = p} r ≡ ok tt) ↔ (r.valid ≡ true)
  unfolding settings_verdict
  settings_verdict_iff r = ground arith

  member_iff : (id : String) → IsAcceptedMember id ↔ IsValidMember id
  unfolding validate_policy_settings
  member_iff id = (
    (λ h.
        let ((evaluator, settings), found, verdict) = >>=-eq-ok (member_evaluator g id) _ h in
        (
          evaluator,
          settings,
          found,
          (settings_verdict_iff (p.validate_settings evaluator settings)).0 verdict,
        )),
    λ (evaluator, settings, found, valid).
        rw found ((settings_verdict_iff (p.validate_settings evaluator settings)).1 valid),
  )

  All-map :
      {A : Type 0} {P Q : A → Type 0} (xs : List A) → ((x : A) → P x → Q x) → All P xs → All Q xs
  All-map [] f h = tt
  All-map (x ∷ xs) f (h, hs) = (f x h, All-map xs f hs)

  -- the functions of an expression in which every member of the group answers `true`, and no other
  -- name is known
  abbrev pub AnswersTrue : (String → Result rhai.Error Bool) → Type 0
  AnswersTrue answers =
      (name : String)
      → (In name (keys g.policy_members) → answers name ≡ ok true)
        × (¬ In name (keys g.policy_members)
            → answers name ≡ err (rhai.error_function_not_found name))

  answer_true-AnswersTrue : AnswersTrue (answer_true rhai g)
  unfolding answer_true
  answer_true-AnswersTrue name = (
    (λ there. rw ((contains_iff (keys g.policy_members) name).1 there) refl),
    λ missing. elim (Bool-cases (contains (keys g.policy_members) name)) [
      | inl there ↦ absurd (missing ((contains_iff (keys g.policy_members) name).0 there))
      | inr apart ↦ rw apart refl
    ],
  )

  AnswersTrue-unique :
      (answers : String → Result rhai.Error Bool)
      → AnswersTrue answers
      → answers ≡ answer_true rhai g
  AnswersTrue-unique answers true_ones = fun_ext (λ name.
      let (inside, outside) = answer_true-AnswersTrue name in
      elim (Bool-cases (contains (keys g.policy_members) name)) [
        | inl there ↦
            let is_in = (contains_iff (keys g.policy_members) name).0 there in
            (true_ones name).0 is_in ∙ sym (inside is_in)
        | inr apart ↦
            let is_out : ¬ In name (keys g.policy_members) =
              λ there. let clash = (contains_iff (keys g.policy_members) name).1 there in cc in
            (true_ones name).1 is_out ∙ sym (outside is_out)
      ])

  -- the expression has a value with these functions
  abbrev pub HasValue : Type 0
  HasValue =
      (answers : String → Result rhai.Error Bool) × (b : Bool) × AnswersTrue answers
      × (eval answers (rhai.eval_expression (keys g.policy_members) g.expression) ≡ ok b)

  tried_expression_iff : ((b : Bool) × (tried_expression rhai g ≡ ok b)) ↔ HasValue
  unfolding tried_expression
  tried_expression_iff = (
    (λ (b, h). (answer_true rhai g, b, answer_true-AnswersTrue, h)),
    λ (answers, b, true_ones, h). (
      b,
      ap (λ f. eval f (rhai.eval_expression (keys g.policy_members) g.expression))
            (sym (AnswersTrue-unique answers true_ones))
          ∙ h,
    ),
  )

  -- The settings of a group are valid exactly if every member can be made ready and says that its
  -- settings are valid, and the expression has a value when every member answers `true` and no other
  -- name is a function.
  pub validate_settings_iff :
      ((validate_settings rhai g).valid ≡ true)
      ↔ (All IsValidMember (keys g.policy_members) × HasValue)
  unfolding policy_validation_errors
  validate_settings_iff =
      let errors = member_errors g (keys g.policy_members) [] in
      let tried = is_empty-note_expression_error (tried_expression rhai g) errors in
      (
        (λ h.
            let (value, none_noted) =
              split_and (is_ok (tried_expression rhai g)) (is_empty errors)
                (sym tried ∙ sym valid-is_empty ∙ h) in
            (
              All-map (keys g.policy_members) (λ id. (member_iff id).0)
                  (member_errors-All (keys g.policy_members) [] none_noted).0,
              tried_expression_iff.0 (is_ok-elim (tried_expression rhai g) value),
            )),
        λ (accepted, has_value).
            let (b, value) = tried_expression_iff.1 has_value in
            valid-is_empty
            ∙ tried
            ∙ rw
                (
                  value,
                  All-member_errors (keys g.policy_members) []
                      (All-map (keys g.policy_members) (λ id. (member_iff id).1) accepted) refl,
                )
                refl,
      )
