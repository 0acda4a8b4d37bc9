-- ===== src/Group/Tests.antt =====
-- Groups of src/policy_group_evaluator/evaluator.rs with one member.
use policy_evaluator.Prelude.{
  String, [], ◌∷◌, Bool, true, false, none, some, Result, ok, err, ◌==◌, string_eq, if◌then◌else◌,
  contains, ◌≡◌, ◌↔◌, refl, In, All,
}
use policy_evaluator.Prelude.Dict.{keys, get, insert}
use policy_evaluator.Response.{reject}
use policy_evaluator.Response.Types.{AdmissionResponse, default_response}
use policy_evaluator.Group.{
  Policies, EvaluationError, cannot_rehydrate_policy_group_member, PolicyGroupMemberSettings,
  PolicyGroupEvaluator, PolicyGroupMemberEvaluationResult, result_from, new, add_policy_member,
  member_evaluator, validate_policy,
}
use policy_evaluator.Group.Engine.{Rhai, Script, value, error, call, eval, calls}
use policy_evaluator.Group.Evaluation.{cause_of, validate}
use policy_evaluator.Group.Evaluation.Refinement.{answer, script, expected_by, validate-expected}
use policy_evaluator.Group.Evaluation.Causes.{causes_of, IsCalledDenial, causes_of-validate}
use policy_evaluator.Group.Registry.{IsBuilt, built_new, built_add}
use policy_evaluator.Group.Validation.{validate_settings}
use policy_evaluator.Group.Validation.Laws.{IsValidMember, HasValue, validate_settings_iff}

abbrev accepted : AdmissionResponse
accepted = record default_response { uid = "uid"; allowed = true }

-- a policy is a text that says how it behaves
abbrev texts : Policies
texts = record {
  Request = Unit;
  uid = λ req. "uid";
  Settings = Unit;
  Channel = Unit;
  Pre = String;
  PreError = String;
  pre_error_to_string = λ e. e;
  Evaluator = String;
  rehydrate = λ pre ctx. if pre == "broken" then err pre else ok pre;
  validate = λ ev req settings. if ev == "happy" then accepted else reject "uid" "unhappy" 400;
  validate_settings = λ ev settings. record { valid = true; message = none };
}

abbrev finish : Result String Bool → Script String
finish (ok b) = value b
finish (err e) = error e

-- an engine whose every expression is the call of one function
abbrev one_call : Rhai (EvaluationError texts)
one_call = record {
  Error = String;
  error_to_string = λ e. e;
  error_system = λ m e. m;
  error_function_not_found = λ name. name;
  eval_expression = λ names expression. call expression finish;
}

abbrev no_settings : PolicyGroupMemberSettings texts
no_settings = record { settings = tt; ctx_aware_resources_allow_list = []; epoch_deadline = none }

abbrev empty_group : PolicyGroupEvaluator texts
empty_group = record {
  policy_id = "group";
  message = "denied by the group";
  expression = "member";
  policy_members = [];
  policy_members_settings = [];
  callback_channel = none;
}

abbrev with_member : String → PolicyGroupEvaluator texts
with_member policy = record empty_group {
  policy_members = ("member", policy) ∷ [];
  policy_members_settings = ("member", no_settings) ∷ [];
}

-- the verdict on the member
abbrev unhappy : PolicyGroupMemberEvaluationResult
unhappy = record { allowed = false; message = some "unhappy" }

validate-expected_example :
    validate one_call (with_member "unhappy") tt
    ≡ expected_by one_call (with_member "unhappy") tt (
        eval
          (answer one_call (with_member "unhappy") tt)
          (script one_call (with_member "unhappy") tt))
validate-expected_example = validate-expected one_call (with_member "unhappy") tt

evaluates_to_false :
    eval (answer one_call (with_member "unhappy") tt) (script one_call (with_member "unhappy") tt)
    ≡ ok false
unfolding eval answer contains validate_policy member_evaluator get reject result_from
evaluates_to_false = refl

causes_of-validate_example :
    In (cause_of "member" unhappy) (causes_of (validate one_call (with_member "unhappy") tt))
    ↔ (id : String) × In id (keys (with_member "unhappy").policy_members)
      × IsCalledDenial one_call
          (with_member "unhappy")
          tt
          (cause_of "member" unhappy)
          (calls
            (answer one_call (with_member "unhappy") tt)
            (script one_call (with_member "unhappy") tt))
          id
causes_of-validate_example =
    causes_of-validate one_call (with_member "unhappy") tt (cause_of "member" unhappy)
      evaluates_to_false

abbrev built_group : PolicyGroupEvaluator texts
built_group =
    add_policy_member (new "group" "denied by the group" "member" none) "member" "broken"
      no_settings

built_group-get : get built_group.policy_members "member" ≡ some "broken"
unfolding add_policy_member new get insert
built_group-get = refl

built_group-broken :
    validate_policy built_group "member" tt
    ≡ err (cannot_rehydrate_policy_group_member "member" "broken")
unfolding add_policy_member new get insert validate_policy member_evaluator
built_group-broken = refl

built_group-IsBuilt : IsBuilt built_group
built_group-IsBuilt = built_add _ "member" "broken" no_settings (built_new _ _ _ _)

validate_settings_iff_example :
    ((validate_settings one_call (with_member "happy")).valid ≡ true) ↔ (
      All (IsValidMember one_call (with_member "happy")) (keys (with_member "happy").policy_members)
      × HasValue one_call (with_member "happy"))
validate_settings_iff_example = validate_settings_iff one_call (with_member "happy")
