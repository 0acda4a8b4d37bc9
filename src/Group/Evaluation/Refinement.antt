-- ===== src/Group/Evaluation/Refinement.antt =====
-- src/policy_group_evaluator/evaluator.rs: `PolicyGroupEvaluator::validate` beside an evaluation
-- without the shared table of results, in which each name has one answer.
use policy_evaluator.Prelude.{
  String, List, [], ◌∷◌, ◌++◌, Bool, true, false, Option, none, some, Result, ok, err, ◌<>◌,
  contains, string_eq, is_some, if◌then◌else◌, ◌==◌, ◌≡◌, refl, arith, ap, ap₂, eq_iff, ◌∙◌,
  Bool-cases, inl, inr, ◌||◌,
}
use policy_evaluator.Prelude.Dict.{keys, get, insert, get-insert}
use policy_evaluator.Response.{reject}
use policy_evaluator.Response.Types.{
  StatusCause, default_details, default_status, AdmissionResponse,
}
use policy_evaluator.Group.{
  Policies, EvaluationError, PolicyGroupEvaluator, PolicyGroupMemberEvaluationResult, result_from,
  Results, validate_policy,
}
use policy_evaluator.Group.Engine.{Rhai, Script, value, error, call, run, eval, calls}
use policy_evaluator.Group.Evaluation.{
  mutation_result, cause_if_denied, status_causes, member_function, invoke, evaluate_expression,
  group_response, validate,
}

-- the verdict on a member, from its response
abbrev pub summary : AdmissionResponse → PolicyGroupMemberEvaluationResult
summary r = if is_some r.patch then mutation_result else result_from r

abbrev noted :
    Bool
    → Option PolicyGroupMemberEvaluationResult
    → Option PolicyGroupMemberEvaluationResult
    → Option PolicyGroupMemberEvaluationResult
noted false new old = old
noted true none old = old
noted true (some r) old = some r

noted-noted :
    (a b : Bool) (new old : Option PolicyGroupMemberEvaluationResult)
    → noted b new (noted a new old) ≡ noted (a || b) new old
noted-noted false b new old = refl
noted-noted true false new old = refl
noted-noted true true none old = refl
noted-noted true true (some r) old = refl

cause-noted :
    (id : String) (called : Bool) (new : Option PolicyGroupMemberEvaluationResult)
    → cause_if_denied id (noted called new none) ≡ (if called then cause_if_denied id new else [])
cause-noted id false new = refl
cause-noted id true none = refl
cause-noted id true (some r) = refl

module _ {p : Policies} (rhai : Rhai (EvaluationError p)) (g : PolicyGroupEvaluator p)
    (req : p.Request) where
  abbrev verdict_of :
      Result (EvaluationError p) AdmissionResponse → Option PolicyGroupMemberEvaluationResult
  verdict_of (err e) = none
  verdict_of (ok r) = some (summary r)

  abbrev answer_of : String → Result (EvaluationError p) AdmissionResponse → Result rhai.Error Bool
  answer_of name (err e) =
      err (rhai.error_system ("error invoking " <> g.policy_id <> "/" <> name) e)
  answer_of name (ok r) = ok (summary r).allowed

  -- the verdict on a member of the group, if it can be evaluated
  unfoldable pub verdict : String → Option PolicyGroupMemberEvaluationResult
  verdict name =
      if contains (keys g.policy_members) name
      then verdict_of (validate_policy g name req)
      else none

  -- what the expression gets for a name
  unfoldable pub answer : String → Result rhai.Error Bool
  answer name =
      if contains (keys g.policy_members) name
      then answer_of name (validate_policy g name req)
      else err (rhai.error_function_not_found name)

  abbrev recorded : Results → String → Option PolicyGroupMemberEvaluationResult → Results
  recorded results name none = results
  recorded results name (some r) = insert results name r

  member-answer :
      (name : String) (results : Results) (r : Result (EvaluationError p) AdmissionResponse)
      → validate_policy g name req ≡ r
      → member_function rhai g req name results
        ≡ (answer_of name r, recorded results name (verdict_of r))
  unfolding member_function result_from
  member-answer name results (err e) h = rw (h, member_function)
  member-answer name results (ok r) h = ground arith

  invoke-answer :
      (name : String) (results : Results)
      → invoke rhai g req name results ≡ (answer name, recorded results name (verdict name))
  unfolding invoke answer verdict
  invoke-answer name results =
      ground (arith, member-answer name results (validate_policy g name req) refl)

  run-call :
      (f : String) (k : Result rhai.Error Bool → Script rhai.Error) (results : Results)
      → run (invoke rhai g req) (call f k) results
        ≡ run (invoke rhai g req) (k (answer f)) (recorded results f (verdict f))
  unfolding run
  run-call f k results =
      ap (λ (q : Result rhai.Error Bool × Results). run (invoke rhai g req) (k q.0) q.1)
        (invoke-answer f results)

  run-eval :
      (s : Script rhai.Error) (results : Results)
      → (run (invoke rhai g req) s results).0 ≡ eval answer s
  run-eval (value b) results = unfold run eval in refl
  run-eval (error e) results = unfold run eval in refl
  run-eval (call f k) results =
      rw (run-call f k results)
        (run-eval (k (answer f)) (recorded results f (verdict f)) ∙ unfold eval in refl)

  get-recorded :
      (results : Results) (f id : String) (v : Option PolicyGroupMemberEvaluationResult)
      → get (recorded results f v) id
        ≡ (if f == id then noted true v (get results id) else get results id)
  get-recorded results f id none = ground arith
  get-recorded results f id (some r) = get-insert results f id r

  get-recorded-verdict :
      (results : Results) (f id : String)
      → get (recorded results f (verdict f)) id ≡ noted (f == id) (verdict id) (get results id)
  get-recorded-verdict results f id = elim (Bool-cases (f == id)) [
    | inl same ↦
        get-recorded results f id (verdict f)
        ∙ rw same (ap (λ n. noted true (verdict n) (get results id)) ((eq_iff f id).0 same))
    | inr other ↦ get-recorded results f id (verdict f) ∙ rw other refl
  ]

  -- After the expression, the table holds the verdicts on the members that were called.
  get-run :
      (s : Script rhai.Error) (results : Results) (id : String)
      → get (run (invoke rhai g req) s results).1 id
        ≡ noted (contains (calls answer s) id) (verdict id) (get results id)
  get-run (value b) results id = unfold run calls contains in refl
  get-run (error e) results id = unfold run calls contains in refl
  get-run (call f k) results id = rw (run-call f k results) (
      get-run (k (answer f)) (recorded results f (verdict f)) id
      ∙ rw (get-recorded-verdict results f id) (
          noted-noted (f == id) (contains (calls answer (k (answer f))) id) (verdict id) _
          ∙ unfold calls contains in refl))

  -- the causes, without the table: of each member that was called, if the verdict is a denial
  unfoldable pub expected_causes : List String → List String → List StatusCause
  expected_causes called [] = []
  expected_causes called (id ∷ ids) =
      (if contains called id then cause_if_denied id (verdict id) else [])
      ++ expected_causes called ids

  status_causes-expected :
      (s : Script rhai.Error) (ids : List String)
      → status_causes (run (invoke rhai g req) s []).1 ids ≡ expected_causes (calls answer s) ids
  unfolding status_causes expected_causes get
  status_causes-expected s [] = refl
  status_causes-expected s (id ∷ ids) =
      ap₂ (λ a b. a ++ b)
        (ap (cause_if_denied id) (get-run s [] id)
          ∙ cause-noted id (contains (calls answer s) id) (verdict id))
        (status_causes-expected s ids)

  abbrev pub script : Script rhai.Error
  script = rhai.eval_expression (keys g.policy_members) g.expression

  -- the response of the group, by the value of the expression, without a table
  unfoldable pub expected_by : Result rhai.Error Bool → AdmissionResponse
  expected_by (err e) =
      reject (p.uid req) ("error evaluating policy group expression: " <> rhai.error_to_string e)
        500
  expected_by (ok allowed) = record {
    uid = p.uid req;
    allowed = allowed;
    patch_type = none;
    patch = none;
    status =
        if allowed
        then none
        else some (record default_status {
          message = some g.message;
          code = none;
          details = some (record default_details {
            causes = expected_causes (calls answer script) (keys g.policy_members);
          });
        });
    audit_annotations = none;
    warnings = none;
  }

  group_response-expected :
      (value : Result rhai.Error Bool)
      → group_response rhai g req value (run (invoke rhai g req) script []).1 ≡ expected_by value
  unfolding group_response expected_by
  group_response-expected (err e) = refl
  group_response-expected (ok allowed) =
      rw (status_causes-expected script (keys g.policy_members)) refl

  -- `validate` of a group answers what the evaluation without a state prescribes: the expression
  -- computes with one answer for each name; an error of the expression is a rejection with code
  -- 500; its value is the verdict, with no patch, and a denial carries the message of the group and
  -- one cause for each member that was called and denied, in the order of the members.
  pub validate-expected : validate rhai g req ≡ expected_by (eval answer script)
  unfolding validate evaluate_expression
  validate-expected =
      group_response-expected (run (invoke rhai g req) script []).0
      ∙ ap expected_by (run-eval script [])
