-- ===== src/Metadata.antt =====
-- src/policy_metadata.rs: the metadata of a policy, its rules and their validation. Of the derived
-- `Validate` of the validator crate this states what its attributes document: a value is valid if
-- all the checks named on its fields pass.
pub mod Resources
pub mod Operations
pub mod Validity
pub mod Whole
mod Tests
use policy_evaluator.Prelude.{
  String, List, [], ◌∷◌, Bool, true, false, Option, none, some, Result, ok, err, ◌>>=◌, ◌==◌,
  string_eq, ◌&&◌, ◌||◌, is_empty, every, not, if◌then◌else◌, contains, length, ltb, is_some,
}
use policy_evaluator.Prelude.Dict.{Dict}
use policy_evaluator.Metadata.Resources.{ValidationError, invalid, validate_resources}

pub data Operation : Type 0 where
  create update delete connect all : Operation

-- `impl TryFrom<&str> for Operation`
unfoldable pub operation_try_from : String → Result String Operation
operation_try_from op =
    if op == "CREATE"
    then ok create
    else if op == "UPDATE"
    then ok update
    else if op == "DELETE"
    then ok delete
    else if op == "CONNECT"
    then ok connect
    else if op == "*"
    then ok all
    else err "unknown operation"

pub record Rule : Type 0 where
  pub api_groups : List String
  pub api_versions : List String
  pub resources : List String
  pub operations : List Operation

abbrev pub asterisk_error : ValidationError
asterisk_error = invalid "No other elements can be defined when '*' is used"

unfoldable pub validate_asterisk_usage : List String → Result ValidationError (Unit {0})
validate_asterisk_usage elements =
    if contains elements "*" && ltb 1 (length elements) then err asterisk_error else ok tt

abbrev pub is_all : Operation → Bool
is_all all = true
is_all _ = false

-- `data.contains(&Operation::All)`
unfoldable pub contains_all : List Operation → Bool
contains_all [] = false
contains_all (op ∷ ops) = is_all op || contains_all ops

unfoldable pub validate_asterisk_usage_inside_of_operations :
    List Operation → Result ValidationError (Unit {0})
validate_asterisk_usage_inside_of_operations operations =
    if contains_all operations && ltb 1 (length operations) then err asterisk_error else ok tt

abbrev pub is_ok {ℓ} : {E A : Type ℓ} → Result E A → Bool
is_ok (ok a) = true
is_ok (err e) = false

-- the attributes of the fields of `Rule`
unfoldable pub rule_is_valid : Rule → Bool
rule_is_valid r =
    (not (is_empty r.api_groups) && is_ok (validate_asterisk_usage r.api_groups))
    && (not (is_empty r.api_versions) && is_ok (validate_asterisk_usage r.api_versions))
    && (not (is_empty r.resources) && is_ok (validate_resources r.resources))
    && (not (is_empty r.operations)
        && is_ok (validate_asterisk_usage_inside_of_operations r.operations))

-- `NamedRuleWithOperations` of k8s_openapi: the fields that are read
pub record NamedRuleWithOperations : Type 0 where
  pub operations : Option (List String)
  pub api_groups : Option (List String)
  pub api_versions : Option (List String)
  pub resources : Option (List String)

-- `iter().map(Operation::try_from).collect::<Result<…>>()`: the first failure, if there is one
unfoldable pub collect_operations : List String → Result String (List Operation)
collect_operations [] = ok []
collect_operations (op ∷ ops) = do
  o ← operation_try_from op
  os ← collect_operations ops
  ok (o ∷ os)

abbrev pub list_or_default : Option (List String) → List String
list_or_default none = []
list_or_default (some xs) = xs

-- `impl TryFrom<&NamedRuleWithOperations> for Rule`
unfoldable pub rule_try_from : NamedRuleWithOperations → Result String Rule
rule_try_from rule = do
  operations ← collect_operations (list_or_default rule.operations)
  ok (record {
    operations = operations;
    api_groups = list_or_default rule.api_groups;
    api_versions = list_or_default rule.api_versions;
    resources = list_or_default rule.resources;
  })

pub record ContextAwareResource : Type 0 where
  pub api_version : String
  pub kind : String

unfoldable pub context_aware_resource_is_valid : ContextAwareResource → Bool
context_aware_resource_is_valid r = not (r.api_version == "") && not (r.kind == "")

pub data PolicyType : Type 0 where
  kubernetes raw : PolicyType

-- `PolicyExecutionMode` of src/policy_evaluator.rs
pub data PolicyExecutionMode : Type 0 where
  kubewarden_wapc opa opa_gatekeeper wasi : PolicyExecutionMode

-- The versions of the protocol and of Kubewarden are types of other packages.
module _ (ProtocolVersion Version : Type 0) where
  pub record Metadata : Type 0 where
    pub protocol_version : Option ProtocolVersion
    pub rules : List Rule
    pub annotations : Option (Dict String String)
    pub mutating : Bool
    pub background_audit : Bool
    pub execution_mode : PolicyExecutionMode
    pub policy_type : PolicyType
    pub context_aware_resources : List ContextAwareResource
    pub minimum_kubewarden_version : Option Version

  -- `impl Default for Metadata`
  abbrev pub default_metadata : Metadata
  default_metadata = record {
    protocol_version = none;
    rules = [];
    annotations = some [];
    mutating = false;
    background_audit = true;
    execution_mode = kubewarden_wapc;
    policy_type = kubernetes;
    context_aware_resources = [];
    minimum_kubewarden_version = none;
  }

abbrev pub is_wapc : PolicyExecutionMode → Bool
is_wapc kubewarden_wapc = true
is_wapc _ = false

-- `protocol_version == Some(ProtocolVersion::Unknown)`
abbrev pub is_unknown_version :
    {ProtocolVersion : Type 0} → (ProtocolVersion → Bool) → Option ProtocolVersion → Bool
is_unknown_version is_unknown none = false
is_unknown_version is_unknown (some v) = is_unknown v

module _ {ProtocolVersion Version : Type 0} (is_unknown : ProtocolVersion → Bool) where
  unfoldable pub validate_metadata :
      Metadata ProtocolVersion Version → Result ValidationError (Unit {0})
  validate_metadata m =
      if is_wapc m.execution_mode && is_unknown_version is_unknown m.protocol_version
      then err (invalid "Must specify a valid protocol version")
      else ok tt

  -- the attributes of `Metadata` and of its fields
  unfoldable pub metadata_is_valid : Metadata ProtocolVersion Version → Bool
  metadata_is_valid m =
      is_some m.protocol_version
      && every rule_is_valid m.rules
      && every context_aware_resource_is_valid m.context_aware_resources
      && is_ok (validate_metadata m)
