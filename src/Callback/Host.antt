-- ===== src/Callback/Host.antt =====
-- src/runtimes/callback.rs: `host_callback`, by which a policy uses the capabilities of its host.
-- A function returns the answer to the guest and the requests that it put on the callback channel.
pub mod Access
pub mod Answers
use policy_evaluator.Prelude.{
  String, List, [], ◌∷◌, Bool, Option, none, some, Result, ok, err, ◌==◌, string_eq, ◌<>◌,
  if◌then◌else◌,
}
use policy_evaluator.Context.{EvaluationContext, can_access_kubernetes_resource}
use policy_evaluator.Callback.Requests.{
  Bytes, Sdk, CallbackRequestType, oci_manifest_digest, oci_manifest, oci_manifest_and_config,
  dns_lookup_host, kubernetes_list_resource_all, crypto_is_certificate_trusted,
  SigstoreVerificationInputV1, SigstoreVerificationInputV2, CanIRequest,
  ListResourcesByNamespaceRequest, ListAllResourcesRequest, GetResourceRequest, from_sigstore_v1,
  from_sigstore_v2, from_can_i, from_list_by_namespace, from_list_all, from_get_resource,
}

-- What becomes of a request that is put on the channel: `try_send` may refuse it, and the handler
-- answers it with a payload or an error, or drops it.
pub data Reply : Type 0 where
  refused failed : String → Reply
  answered : Bytes → Reply
  dropped : Reply

-- the other end of the channel
abbrev pub Channel : Sdk → Type 0
Channel sdk = CallbackRequestType sdk → Reply

-- `serde_json::from_slice`, at each type that is read from a payload
pub record Decoders (sdk : Sdk) : Type 0 where
  pub text : Bytes → Result String String
  pub sigstore_v1 : Bytes → Result String (SigstoreVerificationInputV1 sdk)
  pub sigstore_v2 : Bytes → Result String (SigstoreVerificationInputV2 sdk)
  pub certificate : Bytes → Result String sdk.CertificateVerificationRequest
  pub can_i : Bytes → Result String (CanIRequest sdk)
  pub list_by_namespace : Bytes → Result String ListResourcesByNamespaceRequest
  pub list_all : Bytes → Result String ListAllResourcesRequest
  pub get_resource : Bytes → Result String GetResourceRequest

abbrev pub Outcome : Sdk → Type 0
Outcome sdk = Result String Bytes × List (CallbackRequestType sdk)

module _ {sdk : Sdk} where
  abbrev fail : String → Outcome sdk
  fail message = (err message, [])

  abbrev unknown_operation : String → Outcome sdk
  unknown_operation operation = fail ("unknown operation: " <> operation)

  abbrev unknown_namespace : String → Outcome sdk
  unknown_namespace namespace = fail ("unknown namespace: " <> namespace)

  -- `?` on what is read from the payload
  abbrev pub reading : {A : Type 0} → Result String A → (A → Outcome sdk) → Outcome sdk
  reading (ok a) k = k a
  reading (err e) k = fail e

  -- what the guest gets for a request
  abbrev pub deliver : CallbackRequestType sdk → Reply → Outcome sdk
  deliver req (refused e) = fail ("Error sending request over callback channel: " <> e)
  deliver req (answered payload) = (ok payload, req ∷ [])
  deliver req (failed e) = (err ("Callback evaluation failure: " <> e), req ∷ [])
  deliver req dropped = (err "Error obtaining response over callback channel", req ∷ [])

  unfoldable pub send_request_and_wait_for_response :
      EvaluationContext (Channel sdk) → CallbackRequestType sdk → Outcome sdk
  send_request_and_wait_for_response ctx req = elim ctx.callback_channel [
    | none ↦ fail "Cannot process Wasm guest request: callback channel not provided"
    | some channel ↦ deliver req (channel req)
  ]

  -- a request about resources that the policy may not be allowed to see
  unfoldable pub send_if_granted :
      EvaluationContext (Channel sdk) → String → String → CallbackRequestType sdk → Outcome sdk
  unfolding send_request_and_wait_for_response
  send_if_granted ctx api_version kind req =
      if can_access_kubernetes_resource ctx api_version kind
      then send_request_and_wait_for_response ctx req
      else fail (
          "Policy has not been granted access to Kubernetes " <> api_version <> "/" <> kind
          <> " resources. The violation has been reported.")

module _ {sdk : Sdk} (decode : Decoders sdk) (ctx : EvaluationContext (Channel sdk)) where
  -- the event that is logged is not modelled; a failure to log is reported and not returned
  unfoldable pub tracing_operation : String → Outcome sdk
  tracing_operation operation =
      if operation == "log" then (ok [], []) else unknown_operation operation

  unfoldable pub oci_operation : String → Bytes → Outcome sdk
  oci_operation operation payload =
      if operation == "v1/verify"
      then (reading (decode.sigstore_v1 payload)
          λ req. send_request_and_wait_for_response ctx (from_sigstore_v1 req))
      else if operation == "v2/verify"
      then (reading (decode.sigstore_v2 payload)
          λ req. send_request_and_wait_for_response ctx (from_sigstore_v2 req))
      else if operation == "v1/manifest_digest"
      then (reading (decode.text payload)
          λ image. send_request_and_wait_for_response ctx (oci_manifest_digest image))
      else if operation == "v1/oci_manifest"
      then (reading (decode.text payload)
          λ image. send_request_and_wait_for_response ctx (oci_manifest image))
      else if operation == "v1/oci_manifest_config"
      then (reading (decode.text payload)
          λ image. send_request_and_wait_for_response ctx (oci_manifest_and_config image))
      else unknown_operation operation

  unfoldable pub net_operation : String → Bytes → Outcome sdk
  net_operation operation payload =
      if operation == "v1/dns_lookup_host"
      then (reading (decode.text payload)
          λ host. send_request_and_wait_for_response ctx (dns_lookup_host host))
      else unknown_operation operation

  unfoldable pub crypto_operation : String → Bytes → Outcome sdk
  crypto_operation operation payload =
      if operation == "v1/is_certificate_trusted"
      then (reading (decode.certificate payload)
          λ req. send_request_and_wait_for_response ctx (crypto_is_certificate_trusted req))
      else unknown_operation operation

  unfoldable pub kubernetes_operation : String → Bytes → Outcome sdk
  kubernetes_operation operation payload =
      if operation == "list_resources_by_namespace"
      then (reading (decode.list_by_namespace payload)
          λ req. send_if_granted ctx req.api_version req.kind (from_list_by_namespace sdk req))
      else if operation == "list_resources_all"
      then (reading (decode.list_all payload)
          λ req. send_if_granted ctx req.api_version req.kind (from_list_all sdk req))
      else if operation == "get_resource"
      then (reading (decode.get_resource payload)
          λ req. send_if_granted ctx req.api_version req.kind (from_get_resource sdk req))
      else if operation == "can_i"
      then (reading (decode.can_i payload)
          λ req. send_request_and_wait_for_response ctx (from_can_i req))
      else unknown_operation operation

  -- the namespaces of the binding "kubewarden"
  unfoldable pub kubewarden_namespace : String → String → Bytes → Outcome sdk
  kubewarden_namespace namespace operation payload =
      if namespace == "tracing"
      then tracing_operation operation
      else if namespace == "oci"
      then oci_operation operation payload
      else if namespace == "net"
      then net_operation operation payload
      else if namespace == "crypto"
      then crypto_operation operation payload
      else if namespace == "kubernetes"
      then kubernetes_operation operation payload
      else unknown_namespace namespace

  -- the binding "kubernetes": the deprecated `ClusterContext`
  unfoldable pub cluster_context : String → Outcome sdk
  cluster_context namespace =
      if namespace == "ingresses"
      then send_request_and_wait_for_response ctx
          (kubernetes_list_resource_all "networking.k8s.io/v1" "Ingress" none none)
      else if namespace == "namespaces"
      then send_request_and_wait_for_response ctx
          (kubernetes_list_resource_all "v1" "Namespace" none none)
      else if namespace == "services"
      then send_request_and_wait_for_response ctx
          (kubernetes_list_resource_all "v1" "Service" none none)
      else unknown_namespace namespace

  unfoldable pub host_callback : String → String → String → Bytes → Outcome sdk
  host_callback binding namespace operation payload =
      if binding == "kubewarden"
      then kubewarden_namespace namespace operation payload
      else if binding == "kubernetes"
      then cluster_context namespace
      else fail ("unknown binding: " <> binding)
