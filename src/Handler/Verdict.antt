-- ===== src/Handler/Verdict.antt =====
-- src/admission_response_handler.rs: the decision and the patch that a handler lets through.
use policy_evaluator.Prelude.{String, ◌≡◌, true, none, some, is_none, ◌&&◌, ◌||◌, arith}
use policy_evaluator.Response.Types.{AdmissionResponse}
use policy_evaluator.Response.Verdict.{IsWellFormed}
use policy_evaluator.Handler.{
  monitor, protect, is_monitor, AdmissionResponseHandler, process_response,
}

-- The request is allowed in monitor mode, and otherwise if the policy allows it and the policy
-- has not mutated it without leave.
pub allowed-process_response :
    (h : AdmissionResponseHandler) (r : AdmissionResponse)
    → (process_response h r).allowed
      ≡ (is_monitor h.policy_mode || (r.allowed && (h.allowed_to_mutate || is_none r.patch)))
unfolding process_response
allowed-process_response h r = ground arith

-- Monitor mode accepts with no patch and no status, and keeps the rest of the answer.
process_response_monitor :
    (h : AdmissionResponseHandler) (r : AdmissionResponse)
    → h.policy_mode ≡ monitor
    → process_response h r
      ≡ record r { allowed = true; patch_type = none; patch = none; status = none }
unfolding process_response
process_response_monitor h r m = ground arith

-- A patch that leaves the handler is the policy's own, in protect mode and with leave to mutate.
process_response-patch :
    (h : AdmissionResponseHandler) (r : AdmissionResponse) (p : String)
    → (process_response h r).patch ≡ some p
    → (h.policy_mode ≡ protect) × (h.allowed_to_mutate ≡ true) × (r.patch ≡ some p)
unfolding process_response
process_response-patch h r p e = ground arith

-- If the patch type of a response is set exactly if its patch is, this holds of what the handler
-- makes of it.
process_response-IsWellFormed :
    (h : AdmissionResponseHandler) {r : AdmissionResponse}
    → IsWellFormed r
    → IsWellFormed (process_response h r)
unfolding process_response
process_response-IsWellFormed h w = ground arith

-- With no custom message, a second pass through the same handler changes nothing.
pub process_response_idempotent :
    (h : AdmissionResponseHandler) (r : AdmissionResponse)
    → h.custom_rejection_message ≡ none
    → process_response h (process_response h r) ≡ process_response h r
unfolding process_response
process_response_idempotent h r m = ground arith
