-- ===== src/Group/Validation.antt =====
-- src/policy_group_evaluator/evaluator.rs: `validate_settings`, and the texts of
-- src/policy_group_evaluator/errors.rs that it puts in its message.
pub mod Laws
use policy_evaluator.Prelude.{
  String, List, [], ◌∷◌, Bool, true, false, Option, none, some, Result, ok, err, ◌<>◌, ◌>>=◌,
  contains, string_eq, if◌then◌else◌, is_empty, join, map,
}
use policy_evaluator.Prelude.Dict.{Dict, keys, insert}
use policy_evaluator.Group.{
  SettingsValidationResponse, Policies, EvaluationError, evaluator_pre_not_found,
  settings_not_found, settings_not_valid, cannot_rehydrate_policy_group_member,
  PolicyGroupEvaluator, member_evaluator,
}
use policy_evaluator.Group.Engine.{Rhai, eval}

abbrev message_or : Option String → String
message_or none = "no message"
message_or (some m) = m

module _ {p : Policies} where
  unfoldable pub error_to_string : EvaluationError p → String
  error_to_string (evaluator_pre_not_found id) = "EvaluatorPre not found: " <> id
  error_to_string (settings_not_found id) = "settings not found policy: " <> id
  error_to_string (settings_not_valid m) = "settings not valid: " <> m
  error_to_string (cannot_rehydrate_policy_group_member id e) =
      "Attempted to rehydrated policy '" <> id <> "': " <> p.pre_error_to_string e

  -- the `match` on the answer of a member
  unfoldable pub settings_verdict : SettingsValidationResponse → Result (EvaluationError p) Unit
  settings_verdict r =
      if r.valid
      then ok tt
      else err (settings_not_valid ("Policy settings are invalid: " <> message_or r.message))

  unfoldable pub validate_policy_settings :
      PolicyGroupEvaluator p → String → Result (EvaluationError p) Unit
  validate_policy_settings g id = do
    (evaluator, settings) ← member_evaluator g id
    settings_verdict (p.validate_settings evaluator settings)

  unfoldable pub note_error :
      PolicyGroupEvaluator p
      → String
      → Result (EvaluationError p) Unit
      → Dict String String
      → Dict String String
  note_error g id (ok _) errors = errors
  note_error g id (err e) errors = insert errors (g.policy_id <> "/" <> id) (error_to_string e)

  -- the loop over the members
  unfoldable pub member_errors :
      PolicyGroupEvaluator p → List String → Dict String String → Dict String String
  member_errors g [] errors = errors
  member_errors g (id ∷ ids) errors =
      member_errors g ids (note_error g id (validate_policy_settings g id) errors)

  module _ (rhai : Rhai (EvaluationError p)) (g : PolicyGroupEvaluator p) where
    -- the functions that are registered for the validation answer `true`
    unfoldable pub answer_true : String → Result rhai.Error Bool
    answer_true name =
        if contains (keys g.policy_members) name
        then ok true
        else err (rhai.error_function_not_found name)

    -- the value of the expression with these functions
    unfoldable pub tried_expression : Result rhai.Error Bool
    tried_expression = eval answer_true (rhai.eval_expression (keys g.policy_members) g.expression)

    unfoldable pub note_expression_error :
        Result rhai.Error Bool → Dict String String → Dict String String
    note_expression_error (ok _) errors = errors
    note_expression_error (err e) errors = insert errors g.policy_id (rhai.error_to_string e)

    unfoldable pub policy_validation_errors : Dict String String
    policy_validation_errors =
        note_expression_error tried_expression (member_errors g (keys g.policy_members) [])

    unfoldable pub validate_settings : SettingsValidationResponse
    validate_settings =
        if is_empty policy_validation_errors
        then record { valid = true; message = none }
        else record {
          valid = false;
          message = some (join ", " (map (λ e. e.0 <> ": " <> e.1) policy_validation_errors));
        }
