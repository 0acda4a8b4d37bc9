-- ===== src/Handler/Rejection.antt =====
-- src/admission_response_handler.rs: the custom rejection message of a handler.
use policy_evaluator.Prelude.{
  String, ◌≡◌, false, Option, none, some, List, [], ◌∷◌, ◌++◌, arith, unwrap_or_default,
}
use policy_evaluator.Response.Types.{
  StatusCause, AdmissionResponseStatus, AdmissionResponse, default_cause,
}
use policy_evaluator.Handler.{
  AdmissionResponseHandler, process_response, apply_mutation_constraint, status_or_default,
  details_or_default, protect, rejection_message_because_policy_is_not_allowed_to_mutate,
}

-- What a client reads in a status, present or not.
abbrev pub message_of : Option AdmissionResponseStatus → Option String
message_of s = (status_or_default s).message

abbrev pub causes_of : Option AdmissionResponseStatus → List StatusCause
causes_of s = (details_or_default (status_or_default s).details).causes

abbrev pub cause_saying : String → StatusCause
cause_saying text = record default_cause { message = some text }

-- `after` shows the message `custom`, and what `before` said is its last cause.
pub record Overrides (custom : String) (before after : Option AdmissionResponseStatus)
    : Type 0 where
  pub message : message_of after ≡ some custom
  pub causes :
      causes_of after
      ≡ causes_of before ++ cause_saying (unwrap_or_default (message_of before)) ∷ []
  pub code : (status_or_default after).code ≡ (status_or_default before).code
  pub reason : (status_or_default after).reason ≡ (status_or_default before).reason

-- A denial that leaves a handler with a custom message shows that message. Its causes are those that
-- it had after the mutation check, in their order, followed by one with the message that it had
-- then; its code and its reason are those that it had then.
pub process_response-Overrides :
    (h : AdmissionResponseHandler) (r : AdmissionResponse) (custom : String)
    → h.custom_rejection_message ≡ some custom
    → (process_response h r).allowed ≡ false
    → Overrides custom (apply_mutation_constraint h r).status (process_response h r).status
unfolding process_response
process_response-Overrides h r custom c d = ground arith

-- the message shown for a forbidden mutation, and the causes below it
abbrev pub shown : Option String → String → String
shown none fixed = fixed
shown (some custom) fixed = custom

abbrev pub moved : Option String → String → List StatusCause
moved none fixed = []
moved (some custom) fixed = cause_saying fixed ∷ []

abbrev pub fixed_message : AdmissionResponseHandler → String
fixed_message h = rejection_message_because_policy_is_not_allowed_to_mutate h.policy_id

pub record IsForbidden (h : AdmissionResponseHandler) (out : AdmissionResponse) : Type 0 where
  pub denied : out.allowed ≡ false
  pub unpatched : out.patch ≡ none
  pub message : message_of out.status ≡ some (shown h.custom_rejection_message (fixed_message h))
  pub causes : causes_of out.status ≡ moved h.custom_rejection_message (fixed_message h)

-- In protect mode, a mutation without leave is denied with no patch. The handler's custom message is
-- shown, or else the fixed one; with a custom message the fixed one is the only cause.
pub process_response-IsForbidden :
    (h : AdmissionResponseHandler) (r : AdmissionResponse) (p : String)
    → h.policy_mode ≡ protect
    → h.allowed_to_mutate ≡ false
    → r.patch ≡ some p
    → IsForbidden h (process_response h r)
unfolding process_response
process_response-IsForbidden h r p m a e = record {
  denied = ground arith;
  unpatched = ground arith;
  message = ground arith;
  causes = ground arith;
}
