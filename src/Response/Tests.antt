-- ===== src/Response/Tests.antt =====
-- The answers of policies in src/admission_response.rs, at concrete inputs.
use policy_evaluator.Prelude.{◌≡◌, refl, true, false, none, some, ok}
use policy_evaluator.Json.{Serde}
use policy_evaluator.Json.Sample.{sample, sample_patching}
use policy_evaluator.Response.{
  PolicyValidationResponse, from_policy_validation_response, mutation_of_delete,
}
use policy_evaluator.Response.Types.{
  json_patch, AdmissionResponse, default_response, default_status,
}
use policy_evaluator.Response.Verdict.{Verdict, from_policy_validation_response-Verdict}
use policy_evaluator.Response.Patch.{patched, from_policy_validation_response-patched}

abbrev mutating : PolicyValidationResponse sample
mutating = record {
  accepted = true;
  message = none;
  code = none;
  mutated_object = some "new";
  audit_annotations = none;
  warnings = none;
}

abbrev built : AdmissionResponse
built = record default_response {
  uid = "uid";
  allowed = true;
  patch_type = some json_patch;
  patch = some "new";
}

built_of_mutating : from_policy_validation_response sample "uid" (some "old") mutating ≡ ok built
unfolding from_policy_validation_response
built_of_mutating = refl

-- A mutation of the object of a delete is denied.
denied_of_mutating :
    from_policy_validation_response sample "uid" none mutating
    ≡ ok (record default_response {
      uid = "uid";
      allowed = false;
      status = some (record default_status { message = some mutation_of_delete });
    })
unfolding from_policy_validation_response
denied_of_mutating = refl

from_policy_validation_response-Verdict_example : Verdict sample "uid" (some "old") mutating built
from_policy_validation_response-Verdict_example =
    from_policy_validation_response-Verdict sample "uid" (some "old") mutating built
      built_of_mutating

-- a printer that never fails
abbrev printing : Serde
printing = record sample { patch_to_string = λ p. ok "patch" }

abbrev printed : PolicyValidationResponse printing
printed = record {
  accepted = true;
  message = none;
  code = none;
  mutated_object = some "new";
  audit_annotations = none;
  warnings = none;
}

from_policy_validation_response-patched_example :
    patched sample_patching built.patch "old" ≡ some "new"
from_policy_validation_response-patched_example =
    from_policy_validation_response-patched sample_patching "uid" "old" "new" mutating built refl
      built_of_mutating
