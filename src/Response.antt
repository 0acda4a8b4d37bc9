-- ===== src/Response.antt =====
-- src/admission_response.rs: how an admission response is built, by a rejection or from the answer
-- of a policy.
pub mod Types
pub mod Verdict
pub mod Patch
mod Tests
use policy_evaluator.Prelude.{
  ℕ, String, Bool, false, Option, none, some, List, [], ◌∷◌, Result, ok, err, map_err, ◌>>=◌, ◌<>◌,
  ◌&&◌, ◌||◌, is_some, is_none, is_empty, if◌then◌else◌,
}
use policy_evaluator.Prelude.Dict.{Dict}
use policy_evaluator.Json.{Serde}
use Types.{
  PatchType, json_patch, AdmissionResponseStatus, default_status, AdmissionResponse,
  default_response,
}

unfoldable pub reject : String → String → ℕ → AdmissionResponse
reject uid message code = record default_response {
  uid = uid;
  allowed = false;
  status = some (record default_status { message = some message; code = some code });
}

unfoldable pub reject_internal_server_error : String → String → AdmissionResponse
unfolding reject
reject_internal_server_error uid message = reject uid ("internal server error: " <> message) 500

abbrev pub mutation_of_delete : String
mutation_of_delete =
    "Incoming object is null, which happens only with DELETE operations, but the policy is attempting a mutation. This is not allowed"

module _ (serde : Serde) where
  -- `ValidationResponse` of the policy SDK: what a policy answers
  pub record PolicyValidationResponse : Type 0 where
    pub accepted : Bool
    pub message : Option String
    pub code : Option ℕ
    pub mutated_object : Option serde.Value
    pub audit_annotations : Option (Dict String String)
    pub warnings : Option (List String)

  -- `ResponseError::Deserialize`, of src/errors.rs
  pub data ResponseError : Type 0 where
    deserialize : serde.Error → ResponseError

module _ (serde : Serde) where
  -- the patch for a document and what the policy made of it; no patch for no change
  encode_diff : List serde.Operation → Result (ResponseError serde) (Option String)
  encode_diff [] = ok none
  encode_diff (op ∷ ops) = do
    text ← map_err deserialize (serde.patch_to_string (op ∷ ops))
    ok (some (serde.encode text))

  -- `req_obj.unwrap()` is reached with an object only
  build_patch :
      Option serde.Value → Option serde.Value → Result (ResponseError serde) (Option String)
  build_patch req_obj none = ok none
  build_patch none (some mut_obj) = ok none
  build_patch (some obj) (some mut_obj) = encode_diff (serde.diff obj mut_obj)

  build_status : Option String → Option ℕ → Option AdmissionResponseStatus
  build_status message code =
      if is_some message || is_some code
      then some (record default_status { message = message; code = code })
      else none

  unfoldable pub from_policy_validation_response :
      String
      → Option serde.Value
      → PolicyValidationResponse serde
      → Result (ResponseError serde) AdmissionResponse
  unfolding build_patch encode_diff build_status
  from_policy_validation_response uid req_obj resp =
      if is_some resp.mutated_object && is_none req_obj
      then ok (record default_response {
        uid = uid;
        allowed = false;
        status = some (record default_status { message = some mutation_of_delete });
      })
      else do
        patch ← build_patch req_obj resp.mutated_object
        ok (record {
          uid = uid;
          allowed = resp.accepted;
          warnings = resp.warnings;
          audit_annotations = resp.audit_annotations;
          patch_type = if is_some patch then some json_patch else none;
          patch = patch;
          status = build_status resp.message resp.code;
        })
