-- ===== src/Response/Types.antt =====
-- src/admission_response.rs: the data of a Kubernetes `AdmissionResponse`.
use policy_evaluator.Prelude.{ℕ, String, Bool, false, Option, none, List, []}
use policy_evaluator.Prelude.Dict.{Dict}
use policy_evaluator.Prelude.Int.{ℤ}

pub data PatchType : Type 0 where
  json_patch : PatchType

pub data AdmissionResponseStatusValue : Type 0 where
  success failure : AdmissionResponseStatusValue

pub data StatusReason : Type 0 where
  unknown unauthorized forbidden not_found already_exists conflict gone invalid : StatusReason
  server_timeout timeout too_many_requests bad_request method_not_allowed : StatusReason
  not_acceptable request_entity_too_large unsupported_media_type : StatusReason
  internal_error expired service_unavailable : StatusReason

pub data CauseType : Type 0 where
  field_value_not_found field_value_required field_value_duplicate : CauseType
  field_value_invalid field_value_not_supported field_value_forbidden : CauseType
  field_value_too_long field_value_too_many internal_error : CauseType
  field_value_type_invalid unexpected_server_response : CauseType
  field_manager_conflict resource_version_too_large : CauseType

pub record StatusCause : Type 0 where
  pub reason : Option CauseType
  pub message : Option String
  pub field : Option String

-- `StatusCause::default()`
abbrev pub default_cause : StatusCause
default_cause = record { reason = none; message = none; field = none }

pub record StatusDetails : Type 0 where
  pub name : Option String
  pub group : Option String
  pub kind : Option String
  pub uid : Option String
  pub causes : List StatusCause
  pub retry_after_seconds : Option ℤ

-- `StatusDetails::default()`
abbrev pub default_details : StatusDetails
default_details = record {
  name = none;
  group = none;
  kind = none;
  uid = none;
  causes = [];
  retry_after_seconds = none;
}

pub record AdmissionResponseStatus : Type 0 where
  pub status : Option AdmissionResponseStatusValue
  pub message : Option String
  pub reason : Option StatusReason
  pub details : Option StatusDetails
  pub code : Option ℕ

-- `AdmissionResponseStatus::default()`
abbrev pub default_status : AdmissionResponseStatus
default_status = record {
  status = none;
  message = none;
  reason = none;
  details = none;
  code = none;
}

pub record AdmissionResponse : Type 0 where
  pub uid : String
  pub allowed : Bool
  pub patch_type : Option PatchType
  pub patch : Option String
  pub status : Option AdmissionResponseStatus
  pub audit_annotations : Option (Dict String String)
  pub warnings : Option (List String)

-- `AdmissionResponse::default()`
abbrev pub default_response : AdmissionResponse
default_response = record {
  uid = "";
  allowed = false;
  patch_type = none;
  patch = none;
  status = none;
  audit_annotations = none;
  warnings = none;
}
