-- ===== src/Callback/Requests.antt =====
-- src/callback_requests.rs: the requests that a policy can make of its host, and how they are built
-- from what the policy SDK defines. Of the SDK's structures this has the public fields that are read.
use policy_evaluator.Prelude.{ℕ, String, List, Bool, Option}
use policy_evaluator.Prelude.Dict.{Dict}

abbrev pub Bytes : Type 0
Bytes = List ℕ

-- the structures of the SDK that are passed on whole
pub record Sdk : Type 1 where
  pub KeylessInfo : Type 0
  pub KeylessPrefixInfo : Type 0
  pub SubjectAccessReview : Type 0
  pub CertificateVerificationRequest : Type 0

abbrev pub Annotations : Type 0
Annotations = Option (Dict String String)

module _ (sdk : Sdk) where
  pub data CallbackRequestType : Type 0 where
    oci_manifest_digest : (image : String) → CallbackRequestType
    oci_manifest : (image : String) → CallbackRequestType
    oci_manifest_and_config : (image : String) → CallbackRequestType
    sigstore_pub_key_verify :
        (image : String) (pub_keys : List String) (annotations : Annotations) → CallbackRequestType
    sigstore_keyless_verify :
        (image : String) (keyless : List sdk.KeylessInfo) (annotations : Annotations)
        → CallbackRequestType
    sigstore_keyless_prefix_verify :
        (image : String) (keyless_prefix : List sdk.KeylessPrefixInfo) (annotations : Annotations)
        → CallbackRequestType
    sigstore_github_actions_verify :
        (image owner : String) (repo : Option String) (annotations : Annotations)
        → CallbackRequestType
    sigstore_certificate_verify :
        (image : String) (certificate : Bytes) (certificate_chain : Option (List Bytes))
        (require_rekor_bundle : Bool) (annotations : Annotations)
        → CallbackRequestType
    dns_lookup_host : (host : String) → CallbackRequestType
    kubernetes_list_resource_namespace :
        (api_version kind namespace : String) (label_selector field_selector : Option String)
        → CallbackRequestType
    kubernetes_list_resource_all :
        (api_version kind : String) (label_selector field_selector : Option String)
        → CallbackRequestType
    kubernetes_get_resource :
        (api_version kind name : String) (namespace : Option String) (disable_cache : Bool)
        → CallbackRequestType
    kubernetes_get_resource_plural_name : (api_version kind : String) → CallbackRequestType
    -- instants are counted from a start that nothing depends on
    has_kubernetes_list_resource_all_result_changed_since_instant :
        (api_version kind : String) (label_selector field_selector : Option String) (since : ℕ)
        → CallbackRequestType
    kubernetes_can_i :
        (request : sdk.SubjectAccessReview) (disable_cache : Bool) → CallbackRequestType
    crypto_is_certificate_trusted :
        (request : sdk.CertificateVerificationRequest) → CallbackRequestType

  pub data SigstoreVerificationInputV1 : Type 0 where
    pub_key_verify :
        (image : String) (pub_keys : List String) (annotations : Annotations)
        → SigstoreVerificationInputV1
    keyless_verify :
        (image : String) (keyless : List sdk.KeylessInfo) (annotations : Annotations)
        → SigstoreVerificationInputV1

  pub data SigstoreVerificationInputV2 : Type 0 where
    pub_key_verify :
        (image : String) (pub_keys : List String) (annotations : Annotations)
        → SigstoreVerificationInputV2
    keyless_verify :
        (image : String) (keyless : List sdk.KeylessInfo) (annotations : Annotations)
        → SigstoreVerificationInputV2
    keyless_prefix_verify :
        (image : String) (keyless_prefix : List sdk.KeylessPrefixInfo) (annotations : Annotations)
        → SigstoreVerificationInputV2
    github_actions_verify :
        (image owner : String) (repo : Option String) (annotations : Annotations)
        → SigstoreVerificationInputV2
    certificate_verify :
        (image : String) (certificate : Bytes) (certificate_chain : Option (List Bytes))
        (require_rekor_bundle : Bool) (annotations : Annotations)
        → SigstoreVerificationInputV2

  pub record CanIRequest : Type 0 where
    pub subject_access_review : sdk.SubjectAccessReview
    pub disable_cache : Bool

pub record ListResourcesByNamespaceRequest : Type 0 where
  pub api_version : String
  pub kind : String
  pub namespace : String
  pub label_selector : Option String
  pub field_selector : Option String

pub record ListAllResourcesRequest : Type 0 where
  pub api_version : String
  pub kind : String
  pub label_selector : Option String
  pub field_selector : Option String

pub record GetResourceRequest : Type 0 where
  pub api_version : String
  pub kind : String
  pub name : String
  pub namespace : Option String
  pub disable_cache : Bool

module _ {sdk : Sdk} where
  unfoldable pub from_sigstore_v1 : SigstoreVerificationInputV1 sdk → CallbackRequestType sdk
  from_sigstore_v1 (pub_key_verify image keys a) = sigstore_pub_key_verify image keys a
  from_sigstore_v1 (keyless_verify image keyless a) = sigstore_keyless_verify image keyless a

  unfoldable pub from_sigstore_v2 : SigstoreVerificationInputV2 sdk → CallbackRequestType sdk
  from_sigstore_v2 (pub_key_verify image keys a) = sigstore_pub_key_verify image keys a
  from_sigstore_v2 (keyless_verify image keyless a) = sigstore_keyless_verify image keyless a
  from_sigstore_v2 (keyless_prefix_verify image prefix a) =
      sigstore_keyless_prefix_verify image prefix a
  from_sigstore_v2 (github_actions_verify image owner repo a) =
      sigstore_github_actions_verify image owner repo a
  from_sigstore_v2 (certificate_verify image certificate chain rekor a) =
      sigstore_certificate_verify image certificate chain rekor a

  unfoldable pub from_can_i : CanIRequest sdk → CallbackRequestType sdk
  from_can_i req = kubernetes_can_i req.subject_access_review req.disable_cache

module _ (sdk : Sdk) where
  unfoldable pub from_list_by_namespace : ListResourcesByNamespaceRequest → CallbackRequestType sdk
  from_list_by_namespace req =
      kubernetes_list_resource_namespace req.api_version req.kind req.namespace req.label_selector
        req.field_selector

  unfoldable pub from_list_all : ListAllResourcesRequest → CallbackRequestType sdk
  from_list_all req =
      kubernetes_list_resource_all req.api_version req.kind req.label_selector req.field_selector

  unfoldable pub from_get_resource : GetResourceRequest → CallbackRequestType sdk
  from_get_resource req =
      kubernetes_get_resource req.api_version req.kind req.name req.namespace req.disable_cache
