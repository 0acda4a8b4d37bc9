-- ===== src/Handler/Tests.antt =====
-- The handler of src/admission_response_handler.rs, at a response with a patch.
use policy_evaluator.Prelude.{◌≡◌, refl, true, false, none, some, is_none, ◌&&◌, ◌||◌}
use policy_evaluator.PolicyId.{policy}
use policy_evaluator.Response.Types.{json_patch, AdmissionResponse, default_response}
use policy_evaluator.Response.Verdict.{IsWellFormed}
use policy_evaluator.Handler.{
  monitor, protect, is_monitor, AdmissionResponseHandler, apply_mutation_constraint,
  process_response,
}
use policy_evaluator.Handler.Verdict.{allowed-process_response}
use policy_evaluator.Handler.Rejection.{
  Overrides, process_response-Overrides, IsForbidden, process_response-IsForbidden,
}

abbrev patching : AdmissionResponse
patching = record default_response {
  uid = "uid";
  allowed = true;
  patch_type = some json_patch;
  patch = some "patch";
}

abbrev strict : AdmissionResponseHandler
strict = record {
  policy_id = policy "psp";
  policy_mode = protect;
  allowed_to_mutate = false;
  custom_rejection_message = some "no";
}

abbrev lenient : AdmissionResponseHandler
lenient = record strict { allowed_to_mutate = true; custom_rejection_message = none }

abbrev watching : AdmissionResponseHandler
watching = record strict { policy_mode = monitor }

allowed_watching :
    process_response watching patching
    ≡ record patching { allowed = true; patch_type = none; patch = none; status = none }
unfolding process_response
allowed_watching = refl

denied_patching : (process_response strict patching).allowed ≡ false
unfolding process_response
denied_patching = refl

kept_patching : (process_response lenient patching).patch ≡ some "patch"
unfolding process_response
kept_patching = refl

patching-IsWellFormed : IsWellFormed patching
patching-IsWellFormed = record { patch_typed = refl }

allowed-process_response_example : (process_response strict patching).allowed ≡ (
    is_monitor strict.policy_mode
    || (patching.allowed && (strict.allowed_to_mutate || is_none patching.patch)))
allowed-process_response_example = allowed-process_response strict patching

process_response-Overrides_example :
    Overrides "no"
      (apply_mutation_constraint strict patching).status
      (process_response strict patching).status
process_response-Overrides_example =
    process_response-Overrides strict patching "no" refl denied_patching

process_response-IsForbidden_example : IsForbidden strict (process_response strict patching)
process_response-IsForbidden_example =
    process_response-IsForbidden strict patching "patch" refl refl refl
