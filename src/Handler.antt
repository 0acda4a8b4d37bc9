-- ===== src/Handler.antt =====
-- src/admission_response_handler.rs and policy_mode.rs below it: the constraints that a policy
-- server puts on the admission response of a policy.
pub mod Verdict
pub mod Rejection
mod Tests
use policy_evaluator.Prelude.{
  String, Bool, true, false, Option, none, some, List, [], ◌∷◌, ◌++◌, ◌<>◌, is_none, not, ◌&&◌,
  if◌then◌else◌, unwrap_or_default,
}
use policy_evaluator.PolicyId.{PolicyId, to_string}
use policy_evaluator.Response.Types.{
  StatusCause, default_cause, StatusDetails, default_details, AdmissionResponseStatus,
  default_status, AdmissionResponse,
}

pub data PolicyMode : Type 0 where
  monitor protect : PolicyMode

-- `impl From<PolicyMode> for String`
unfoldable pub mode_to_string : PolicyMode → String
mode_to_string monitor = "monitor"
mode_to_string protect = "protect"

-- the derived equality tests of `PolicyMode`
abbrev pub is_monitor : PolicyMode → Bool
is_monitor monitor = true
is_monitor protect = false

abbrev pub is_protect : PolicyMode → Bool
is_protect monitor = false
is_protect protect = true

pub record AdmissionResponseHandler : Type 0 where
  pub policy_id : PolicyId
  pub policy_mode : PolicyMode
  pub allowed_to_mutate : Bool
  pub custom_rejection_message : Option String

unfoldable pub rejection_message_because_policy_is_not_allowed_to_mutate : PolicyId → String
rejection_message_because_policy_is_not_allowed_to_mutate policy_id =
    "Request rejected by policy "
    <> to_string policy_id
    <> ". The policy attempted to mutate the request, but it is currently configured to not allow mutations."

unfoldable pub apply_monitor_mode : AdmissionResponseHandler → AdmissionResponse → AdmissionResponse
apply_monitor_mode h r =
    if not (is_monitor h.policy_mode)
    then r
    else record r { allowed = true; patch_type = none; patch = none; status = none }

unfoldable pub apply_mutation_constraint :
    AdmissionResponseHandler → AdmissionResponse → AdmissionResponse
apply_mutation_constraint h r =
    if not (is_protect h.policy_mode)
    then r
    else if h.allowed_to_mutate
    then r
    else if is_none r.patch
    then r
    else record r {
      allowed = false;
      status = some (record default_status {
        message = some (rejection_message_because_policy_is_not_allowed_to_mutate h.policy_id);
        code = none;
      });
      patch = none;
      patch_type = none;
    }

abbrev pub status_or_default : Option AdmissionResponseStatus → AdmissionResponseStatus
status_or_default none = default_status
status_or_default (some s) = s

abbrev pub details_or_default : Option StatusDetails → StatusDetails
details_or_default none = default_details
details_or_default (some d) = d

-- the status with the custom message, the original one moved to the causes
unfoldable pub customised_status : String → AdmissionResponseStatus → AdmissionResponseStatus
customised_status custom status =
    let details = details_or_default status.details in
    record status {
      message = some custom;
      details = some (record details {
        causes =
            details.causes
            ++ record default_cause { message = some (unwrap_or_default status.message) } ∷ [];
      });
    }

replace_message : Option String → AdmissionResponse → AdmissionResponse
replace_message none r = r
replace_message (some custom) r = record r {
  status = some (customised_status custom (status_or_default r.status));
}

unfoldable pub apply_custom_rejection_message :
    AdmissionResponseHandler → AdmissionResponse → AdmissionResponse
unfolding replace_message customised_status
apply_custom_rejection_message h r =
    if r.allowed then r else replace_message h.custom_rejection_message r

unfoldable pub process_response : AdmissionResponseHandler → AdmissionResponse → AdmissionResponse
unfolding apply_monitor_mode apply_mutation_constraint apply_custom_rejection_message
process_response h r =
    apply_custom_rejection_message h (apply_mutation_constraint h (apply_monitor_mode h r))
