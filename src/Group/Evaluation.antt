-- ===== src/Group/Evaluation.antt =====
-- src/policy_group_evaluator/evaluator.rs: `PolicyGroupEvaluator::validate`.
pub mod Refinement
pub mod Causes
use policy_evaluator.Prelude.{
  String, List, [], ◌∷◌, ◌++◌, Bool, true, false, Option, none, some, Result, ok, err, ◌<>◌,
  contains, string_eq, is_some, if◌then◌else◌, ◌==◌,
}
use policy_evaluator.Prelude.Dict.{keys, get, insert}
use policy_evaluator.Response.{reject}
use policy_evaluator.Response.Types.{
  StatusCause, default_cause, default_details, default_status, AdmissionResponse,
}
use policy_evaluator.Group.{
  Policies, EvaluationError, PolicyGroupEvaluator, PolicyGroupMemberEvaluationResult, result_from,
  Results, validate_policy,
}
use policy_evaluator.Group.Engine.{Rhai, run}

abbrev pub mutation_result : PolicyGroupMemberEvaluationResult
mutation_result = record {
  allowed = false;
  message = some "mutation is not allowed inside of policy group";
}

-- the cause that a denied member adds to the status
abbrev pub cause_of : String → PolicyGroupMemberEvaluationResult → StatusCause
cause_of id result = record default_cause {
  field = some ("spec.policies." <> id);
  message = result.message;
}

abbrev pub cause_if_denied : String → Option PolicyGroupMemberEvaluationResult → List StatusCause
cause_if_denied id none = []
cause_if_denied id (some result) = if result.allowed then [] else cause_of id result ∷ []

-- the loop over the members after the evaluation
unfoldable pub status_causes : Results → List String → List StatusCause
status_causes results [] = []
status_causes results (id ∷ ids) = cause_if_denied id (get results id) ++ status_causes results ids

module _ {p : Policies} (rhai : Rhai (EvaluationError p)) (g : PolicyGroupEvaluator p)
    (req : p.Request) where
  -- the end of the closure, by the response of the member
  unfoldable pub note_response :
      String → AdmissionResponse → Results → Result rhai.Error Bool × Results
  note_response name response results =
      if is_some response.patch
      then (ok false, insert results name mutation_result)
      else (ok response.allowed, insert results name (result_from response))

  -- the closure that is registered for a member
  unfoldable pub member_function : String → Results → Result rhai.Error Bool × Results
  unfolding note_response
  member_function name results = elim (validate_policy g name req) [
    | err e ↦ (err (rhai.error_system ("error invoking " <> g.policy_id <> "/" <> name) e), results)
    | ok response ↦ note_response name response results
  ]

  -- a call that the expression makes
  unfoldable pub invoke : String → Results → Result rhai.Error Bool × Results
  unfolding member_function
  invoke name results =
      if contains (keys g.policy_members) name
      then member_function name results
      else (err (rhai.error_function_not_found name), results)

  unfoldable pub evaluate_expression : Result rhai.Error Bool × Results
  evaluate_expression = run invoke (rhai.eval_expression (keys g.policy_members) g.expression) []

  -- the response, by the value of the expression
  unfoldable pub group_response : Result rhai.Error Bool → Results → AdmissionResponse
  group_response (err e) results =
      reject (p.uid req) ("error evaluating policy group expression: " <> rhai.error_to_string e)
        500
  group_response (ok allowed) results = record {
    uid = p.uid req;
    allowed = allowed;
    patch_type = none;
    patch = none;
    status =
        if allowed
        then none
        else some (record default_status {
          message = some g.message;
          code = none;
          details =
              some
                (record default_details { causes = status_causes results (keys g.policy_members) });
        });
    audit_annotations = none;
    warnings = none;
  }

  unfoldable pub validate : AdmissionResponse
  unfolding group_response
  validate = let (value, results) = evaluate_expression in group_response value results
