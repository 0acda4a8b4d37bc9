-- ===== src/Request.antt =====
-- src/admission_request.rs and src/policy_evaluator.rs: the requests that a policy validates, its
-- settings and the modes of execution.
use policy_evaluator.Prelude.{
  and_then, String, Bool, Option, none, some, [], Result, ok, err, unwrap_or_default, if◌then◌else◌,
}
use policy_evaluator.Prelude.Dict.{Dict}
use policy_evaluator.Metadata.{PolicyExecutionMode}

-- the types of k8s_openapi that a request has
pub record K8s : Type 1 where
  pub UserInfo : Type 0
  pub RawExtension : Type 0

pub record GroupVersionKind : Type 0 where
  pub group : String
  pub version : String
  pub kind : String

pub record GroupVersionResource : Type 0 where
  pub group : String
  pub version : String
  pub resource : String

pub record AdmissionRequest (k8s : K8s) : Type 0 where
  pub uid : String
  pub kind : GroupVersionKind
  pub resource : GroupVersionResource
  pub sub_resource : Option String
  pub request_kind : Option GroupVersionKind
  pub request_resource : Option GroupVersionResource
  pub request_sub_resource : Option String
  pub name : Option String
  pub namespace : Option String
  pub operation : String
  pub user_info : k8s.UserInfo
  pub object : Option k8s.RawExtension
  pub old_object : Option k8s.RawExtension
  pub dry_run : Option Bool
  pub options : Option k8s.RawExtension

-- `serde_json::Value`: its cases, as far as the settings look at them, and two lookups
pub record JsonValue : Type 1 where
  pub Value : Type 0
  pub is_null : Value → Bool
  pub as_object : Value → Option (Dict String Value)
  pub get_key : Value → String → Option Value
  pub as_str : Value → Option String

module _ (k8s : K8s) (json : JsonValue) where
  pub data ValidateRequest : Type 0 where
    raw : json.Value → ValidateRequest
    admission_request : AdmissionRequest k8s → ValidateRequest

  -- `ValidateRequest::uid`
  unfoldable pub uid : ValidateRequest → String
  uid (raw req) = unwrap_or_default (and_then (json.get_key req "uid") json.as_str)
  uid (admission_request req) = req.uid

pub data RegoPolicyExecutionMode : Type 0 where
  opa gatekeeper : RegoPolicyExecutionMode

-- `TryFrom<PolicyExecutionMode> for RegoPolicyExecutionMode`; the error is the text of `anyhow!`
unfoldable pub rego_mode_try_from : PolicyExecutionMode → Result String RegoPolicyExecutionMode
rego_mode_try_from PolicyExecutionMode.opa = ok opa
rego_mode_try_from PolicyExecutionMode.opa_gatekeeper = ok gatekeeper
rego_mode_try_from _ = err "execution mode not convertible to a Rego based execution mode"

-- `PolicySettings::try_from` of a JSON value
unfoldable pub settings_try_from :
    (json : JsonValue) → json.Value → Result String (Dict String json.Value)
settings_try_from json value = if json.is_null value then ok [] else elim (json.as_object value) [
  | some obj ↦ ok obj
  | none ↦ err "Invalid settings in CRD, not an object"
]
