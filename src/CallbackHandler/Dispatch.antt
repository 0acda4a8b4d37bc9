-- ===== src/CallbackHandler/Dispatch.antt =====
-- src/callback_handler.rs: `CallbackHandler`, which answers the requests on the callback channel.
pub mod Trusted
pub mod Clientless
use policy_evaluator.Prelude.{
  ℕ, String, Bool, true, false, Option, none, some, List, Result, ok, err, map_err, ◌<>◌,
  if◌then◌else◌,
}
use policy_evaluator.Prelude.Int.{ℤ}
use policy_evaluator.Callback.Requests.{
  Bytes, Sdk, CallbackRequestType, oci_manifest_digest, oci_manifest, oci_manifest_and_config,
  sigstore_pub_key_verify, sigstore_keyless_verify, sigstore_keyless_prefix_verify,
  sigstore_github_actions_verify, sigstore_certificate_verify, dns_lookup_host,
  kubernetes_list_resource_namespace, kubernetes_list_resource_all, kubernetes_get_resource,
  kubernetes_get_resource_plural_name,
  has_kubernetes_list_resource_all_result_changed_since_instant, kubernetes_can_i,
  crypto_is_certificate_trusted,
}
use policy_evaluator.Callback.Host.{Reply, answered, failed, dropped}
use policy_evaluator.Crypto.{
  Webpki, CertificateVerificationRequest, CertificateVerificationResponse, verify_certificate,
}
use policy_evaluator.Kubernetes.{Kube, Cluster}
use policy_evaluator.Kubernetes.Client.{Client, ObjectList}
use policy_evaluator.Kubernetes.Calls as K
use policy_evaluator.Kubernetes.Calls.{Return}
use policy_evaluator.CallbackHandler.{Task, fresh}
use policy_evaluator.CallbackHandler.Oci.{
  Registry, ManifestAndConfigResponse, get_oci_digest_cached, get_oci_manifest_cached,
  get_oci_manifest_and_config_cached,
}
use policy_evaluator.CallbackHandler.Oci as Oci
use policy_evaluator.CallbackHandler.Sigstore.{
  Verification, VerificationResponse, Debug, get_sigstore_pub_key_verification_cached,
  get_sigstore_keyless_verification_cached, get_sigstore_keyless_prefix_verification_cached,
  get_sigstore_github_actions_verification_cached, get_sigstore_certificate_verification_cached,
}

-- The third-party code behind the handler, at the time of a request: what answers over the network,
-- `serde_json::to_vec` at each type of answer, and what each cache has for a key.
pub record Services (sdk : Sdk) : Type 1 where
  pub kube : Kube
  pub cluster : Cluster kube
  pub review_of : sdk.SubjectAccessReview → kube.SubjectAccessReview
  pub registry : Registry
  pub verification : Verification sdk
  pub debug : Debug sdk
  pub webpki : Webpki
  pub certificate_request : sdk.CertificateVerificationRequest → CertificateVerificationRequest
  -- the time of the clock, in seconds since the epoch
  pub timestamp : ℤ
  pub lookup_host : String → Result String (List String)
  pub digest_to_vec : String → Result String Bytes
  pub manifest_to_vec : registry.Manifest → Result String Bytes
  pub manifest_and_config_to_vec : ManifestAndConfigResponse registry → Result String Bytes
  pub verification_to_vec : VerificationResponse → Result String Bytes
  pub ips_to_vec : List String → Result String Bytes
  pub object_list_to_vec : ObjectList kube.Object → Result String Bytes
  pub object_to_vec : kube.Object → Result String Bytes
  pub text_to_vec : String → Result String Bytes
  pub bool_to_vec : Bool → Result String Bytes
  pub review_to_vec : kube.SubjectAccessReviewStatus → Result String Bytes
  pub certificate_to_vec : CertificateVerificationResponse → Result String Bytes
  pub cached_digest : String → Option String
  pub cached_manifest : String → Option registry.Manifest
  pub cached_manifest_and_config : String → Option (ManifestAndConfigResponse registry)
  pub cached_pub_key : String → Option VerificationResponse
  pub cached_keyless : String → Option VerificationResponse
  pub cached_keyless_prefix : String → Option VerificationResponse
  pub cached_github_actions : String → Option VerificationResponse
  pub cached_certificate : String → Option VerificationResponse
  pub cached_object : String → Option kube.Object
  pub cached_review : kube.SubjectAccessReview → Option kube.SubjectAccessReviewStatus

module _ {sdk : Sdk} (s : Services sdk) where
  -- the parts of the handler that its tasks use
  pub record CallbackHandler : Type 0 where
    pub oci_client : Oci.Client s.registry
    pub kubernetes_client : Option (Client s.kube)

-- what is sent on the channel of a request: a response, or nothing if its task panics
abbrev pub Response : Type 0
Response = Option (Result String Bytes)

-- `handle_callback!`, once the call has come to an end
abbrev pub handle_callback : {A : Type 0} → (A → Result String Bytes) → Task A → Response
handle_callback to_vec none = none
handle_callback to_vec (some (err e)) = some (err e)
handle_callback to_vec (some (ok response)) =
    some (map_err (λ e. "error serializing payload: " <> e) (to_vec response.value))

-- the answer to a look-up, with its `unwrap`
abbrev pub lookup_payload : Result String Bytes → Response
lookup_payload (ok payload) = some (ok payload)
lookup_payload (err e) = none

module _ {sdk : Sdk} (s : Services sdk) where
  abbrev pub lookup_response : Result String (List String) → Response
  lookup_response (ok ips) = lookup_payload (s.ips_to_vec ips)
  lookup_response (err e) = some (err e)

  -- a call that leaves the client as it was
  abbrev pub keeping : CallbackHandler s → Response → Response × CallbackHandler s
  keeping handler response = (response, handler)

  -- a call of Kubernetes, with the client that it leaves
  abbrev pub updating :
      {A : Type 0}
      → CallbackHandler s
      → (A → Result String Bytes)
      → Option (Result String (Return A)) × Option (Client s.kube)
      → Response × CallbackHandler s
  updating handler to_vec (r, client) =
      (handle_callback to_vec r, record handler { kubernetes_client = client })

  unfoldable pub handle_request :
      CallbackHandler s → CallbackRequestType sdk → Response × CallbackHandler s
  handle_request handler (oci_manifest_digest image) = keeping handler (
      handle_callback s.digest_to_vec
        (get_oci_digest_cached s.registry s.cached_digest handler.oci_client image))
  handle_request handler (oci_manifest image) = keeping handler (
      handle_callback s.manifest_to_vec
        (get_oci_manifest_cached s.registry s.cached_manifest handler.oci_client image))
  handle_request handler (oci_manifest_and_config image) = keeping handler (
      handle_callback s.manifest_and_config_to_vec (
        get_oci_manifest_and_config_cached s.registry s.cached_manifest_and_config
          handler.oci_client image))
  handle_request handler (sigstore_pub_key_verify image pub_keys annotations) = keeping handler (
      handle_callback s.verification_to_vec (
        get_sigstore_pub_key_verification_cached s.verification s.debug s.cached_pub_key image
          pub_keys annotations))
  handle_request handler (sigstore_keyless_verify image keyless annotations) = keeping handler (
      handle_callback s.verification_to_vec (
        get_sigstore_keyless_verification_cached s.verification s.debug s.cached_keyless image
          keyless annotations))
  handle_request handler (sigstore_keyless_prefix_verify image keyless_prefix annotations) =
      keeping handler (
        handle_callback s.verification_to_vec (
          get_sigstore_keyless_prefix_verification_cached s.verification s.debug
            s.cached_keyless_prefix image keyless_prefix annotations))
  handle_request handler (sigstore_github_actions_verify image owner repo annotations) =
      keeping handler (
        handle_callback s.verification_to_vec (
          get_sigstore_github_actions_verification_cached s.verification s.debug
            s.cached_github_actions image owner repo annotations))
  handle_request handler
        (sigstore_certificate_verify image certificate certificate_chain require_rekor_bundle
          annotations) =
      keeping handler (
        handle_callback s.verification_to_vec (
          get_sigstore_certificate_verification_cached s.verification s.debug s.cached_certificate
            image certificate certificate_chain require_rekor_bundle annotations))
  handle_request handler (dns_lookup_host host) =
      keeping handler (lookup_response (s.lookup_host host))
  handle_request handler
        (kubernetes_list_resource_namespace api_version kind namespace label_selector
          field_selector) =
      updating handler s.object_list_to_vec (
        K.list_resources_by_namespace s.debug.text s.cluster handler.kubernetes_client api_version
          kind namespace label_selector field_selector)
  handle_request handler
        (kubernetes_list_resource_all api_version kind label_selector field_selector) =
      updating handler s.object_list_to_vec (
        K.list_resources_all s.debug.text s.cluster handler.kubernetes_client api_version kind
          label_selector field_selector)
  handle_request handler (kubernetes_get_resource api_version kind name namespace disable_cache) =
      updating handler s.object_to_vec (
        if disable_cache
        then K.get_resource s.debug.text s.cluster handler.kubernetes_client api_version kind name
            namespace
        else K.get_resource_cached s.debug.text s.cluster handler.kubernetes_client s.cached_object
            api_version kind name namespace)
  handle_request handler (kubernetes_get_resource_plural_name api_version kind) =
      updating handler s.text_to_vec (
        K.get_resource_plural_name s.debug.text s.cluster handler.kubernetes_client api_version
          kind)
  handle_request handler
        (has_kubernetes_list_resource_all_result_changed_since_instant api_version kind
          label_selector field_selector since) =
      updating handler s.bool_to_vec (
        K.has_list_resources_all_result_changed_since_instant s.debug.text s.cluster
          handler.kubernetes_client api_version kind label_selector field_selector since)
  handle_request handler (kubernetes_can_i request disable_cache) =
      updating handler s.review_to_vec (
        if disable_cache
        then K.can_i s.debug.text s.cluster handler.kubernetes_client (s.review_of request)
        else K.can_i_cached s.debug.text s.cluster handler.kubernetes_client s.cached_review
            (s.review_of request))
  handle_request handler (crypto_is_certificate_trusted request) = keeping handler (
      handle_callback s.certificate_to_vec
        (fresh (verify_certificate s.webpki s.timestamp (s.certificate_request request))))

  -- what the callback channel gives for a response
  abbrev pub reply_of : Response → Reply
  reply_of none = dropped
  reply_of (some (ok payload)) = answered payload
  reply_of (some (err e)) = failed e
