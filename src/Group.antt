-- ===== src/Group.antt =====
-- src/policy_group_evaluator.rs and evaluator.rs below it: a group of policies and the expression
-- that decides by their verdicts.
pub mod Engine
pub mod Evaluation
pub mod Validation
pub mod Registry
mod Tests
use policy_evaluator.Prelude.{
  ℕ, String, List, [], ◌∷◌, Bool, true, false, Option, none, some, Result, ok, err, ◌>>=◌, map_err,
  ok_or, ◌<>◌, ◌==◌, string_eq, contains, is_some, is_empty, not, if◌then◌else◌, join, map,
}
use policy_evaluator.Prelude.Dict.{Dict, keys, get, insert}
use policy_evaluator.Context.{EvaluationContext}
use policy_evaluator.Metadata.{ContextAwareResource}
use policy_evaluator.Response.{reject}
use policy_evaluator.Response.Types.{
  StatusCause, default_cause, default_details, AdmissionResponseStatus, default_status,
  AdmissionResponse, default_response,
}

-- `SettingsValidationResponse` of the policy SDK
pub record SettingsValidationResponse : Type 0 where
  pub valid : Bool
  pub message : Option String

-- What a group uses of the policy evaluator of a member.
pub record Policies : Type 1 where
  pub Request : Type 0
  pub uid : Request → String
  pub Settings : Type 0
  pub Channel : Type 0
  -- `PolicyEvaluatorPre`, its `rehydrate` and the error of that
  pub Pre : Type 0
  pub PreError : Type 0
  pub pre_error_to_string : PreError → String
  pub Evaluator : Type 0
  pub rehydrate : Pre → EvaluationContext Channel → Result PreError Evaluator
  pub validate : Evaluator → Request → Settings → AdmissionResponse
  pub validate_settings : Evaluator → Settings → SettingsValidationResponse

module _ (p : Policies) where
  -- `EvaluationError` of src/policy_group_evaluator/errors.rs, the cases that are raised
  pub data EvaluationError : Type 0 where
    evaluator_pre_not_found settings_not_found settings_not_valid : String → EvaluationError
    cannot_rehydrate_policy_group_member : String → p.PreError → EvaluationError

  pub record PolicyGroupMemberSettings : Type 0 where
    pub settings : p.Settings
    pub ctx_aware_resources_allow_list : List ContextAwareResource
    pub epoch_deadline : Option ℕ

  pub record PolicyGroupEvaluator : Type 0 where
    pub policy_id : String
    pub message : String
    pub expression : String
    pub policy_members : Dict String p.Pre
    pub policy_members_settings : Dict String PolicyGroupMemberSettings
    pub callback_channel : Option p.Channel

pub record PolicyGroupMemberEvaluationResult : Type 0 where
  pub allowed : Bool
  pub message : Option String

abbrev status_message : Option AdmissionResponseStatus → Option String
status_message none = none
status_message (some s) = s.message

-- `impl From<AdmissionResponse> for PolicyGroupMemberEvaluationResult`
unfoldable pub result_from : AdmissionResponse → PolicyGroupMemberEvaluationResult
result_from r = record { allowed = r.allowed; message = status_message r.status }

abbrev message_suffix : Option String → String
message_suffix none = ""
message_suffix (some m) = " - " <> m

-- its `impl Display`
unfoldable pub result_to_string : PolicyGroupMemberEvaluationResult → String
result_to_string r = (if r.allowed then "[ALLOWED]" else "[DENIED]") <> message_suffix r.message

abbrev pub Results : Type 0
Results = Dict String PolicyGroupMemberEvaluationResult

module _ {p : Policies} where
  unfoldable pub new : String → String → String → Option p.Channel → PolicyGroupEvaluator p
  new id message expression channel = record {
    policy_id = id;
    message = message;
    expression = expression;
    policy_members = [];
    policy_members_settings = [];
    callback_channel = channel;
  }

  unfoldable pub add_policy_member :
      PolicyGroupEvaluator p → String → p.Pre → PolicyGroupMemberSettings p → PolicyGroupEvaluator p
  add_policy_member g name pre settings = record g {
    policy_members_settings = insert g.policy_members_settings name settings;
    policy_members = insert g.policy_members name pre;
  }

  -- what `validate_policy` and `validate_policy_settings` begin with: the evaluator of a member,
  -- with its settings
  unfoldable pub member_evaluator :
      PolicyGroupEvaluator p → String → Result (EvaluationError p) (p.Evaluator × p.Settings)
  member_evaluator g id = do
    pre ← ok_or (evaluator_pre_not_found id) (get g.policy_members id)
    settings ← ok_or (settings_not_found id) (get g.policy_members_settings id)
    evaluator ← map_err (cannot_rehydrate_policy_group_member id) (
        p.rehydrate pre (record {
          policy_id = id;
          callback_channel = g.callback_channel;
          ctx_aware_resources_allow_list = settings.ctx_aware_resources_allow_list;
          epoch_deadline = settings.epoch_deadline;
        }))
    ok (evaluator, settings.settings)

  unfoldable pub validate_policy :
      PolicyGroupEvaluator p → String → p.Request → Result (EvaluationError p) AdmissionResponse
  validate_policy g id req = do
    (evaluator, settings) ← member_evaluator g id
    ok (p.validate evaluator req settings)
