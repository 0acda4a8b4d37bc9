-- ===== src/Callback/Host/Access.antt =====
-- src/runtimes/callback.rs: which requests a policy can put on the callback channel.
use policy_evaluator.Prelude.{
  String, [], Bool, true, false, none, Result, ok, err, ◌≡◌, ◌⊎◌, inl, inr, if◌then◌else◌, In, All,
  refl, eq_iff, ◌==◌, string_eq, Option-cases,
}
use policy_evaluator.Context.{
  EvaluationContext, can_access_kubernetes_resource, can_access_kubernetes_resource_iff,
}
use policy_evaluator.Callback.Requests.{
  Bytes, Sdk, CallbackRequestType, oci_manifest_digest, oci_manifest, oci_manifest_and_config,
  kubernetes_list_resource_namespace, kubernetes_get_resource, kubernetes_get_resource_plural_name,
  has_kubernetes_list_resource_all_result_changed_since_instant, dns_lookup_host,
  kubernetes_list_resource_all, crypto_is_certificate_trusted, from_sigstore_v1, from_sigstore_v2,
  from_can_i, from_list_by_namespace, from_list_all, from_get_resource, SigstoreVerificationInputV1,
  SigstoreVerificationInputV2,
}
use policy_evaluator.Callback.Host.{
  Reply, Channel, Decoders, Outcome, reading, deliver, send_request_and_wait_for_response,
  send_if_granted, tracing_operation, oci_operation, net_operation, crypto_operation,
  kubernetes_operation, kubewarden_namespace, cluster_context, host_callback,
}

module _ {sdk : Sdk} (ctx : EvaluationContext (Channel sdk)) where
  abbrev pub IsListed : String → String → Type 0
  IsListed api_version kind =
      In (record { api_version = api_version; kind = kind }) ctx.ctx_aware_resources_allow_list

  -- the three requests of the deprecated `ClusterContext`
  pub data IsClusterContext (api_version kind : String) : Type 0 where
    ingresses :
        api_version ≡ "networking.k8s.io/v1" → kind ≡ "Ingress" → IsClusterContext api_version kind
    namespaces : api_version ≡ "v1" → kind ≡ "Namespace" → IsClusterContext api_version kind
    services : api_version ≡ "v1" → kind ≡ "Service" → IsClusterContext api_version kind

  -- What a policy may ask through a binding: resources of its allow list and, through the binding
  -- "kubernetes", those of the cluster context; other capabilities are open to all.
  abbrev pub IsPermitted : String → CallbackRequestType sdk → Type 0
  IsPermitted binding (kubernetes_list_resource_namespace a k n l f) = IsListed a k
  IsPermitted binding (kubernetes_list_resource_all a k l f) =
      IsListed a k ⊎ ((binding ≡ "kubernetes") × IsClusterContext a k)
  IsPermitted binding (kubernetes_get_resource a k n ns d) = IsListed a k
  IsPermitted binding (kubernetes_get_resource_plural_name a k) = ⊥
  IsPermitted binding (has_kubernetes_list_resource_all_result_changed_since_instant a k l f s) = ⊥
  IsPermitted binding _ = Unit

from_sigstore_v1-IsPermitted :
    {sdk : Sdk} (ctx : EvaluationContext (Channel sdk)) (b : String)
    (req : SigstoreVerificationInputV1 sdk)
    → IsPermitted ctx b (from_sigstore_v1 req)
unfolding from_sigstore_v1
from_sigstore_v1-IsPermitted ctx b (SigstoreVerificationInputV1.pub_key_verify i k a) = tt
from_sigstore_v1-IsPermitted ctx b (SigstoreVerificationInputV1.keyless_verify i k a) = tt

from_sigstore_v2-IsPermitted :
    {sdk : Sdk} (ctx : EvaluationContext (Channel sdk)) (b : String)
    (req : SigstoreVerificationInputV2 sdk)
    → IsPermitted ctx b (from_sigstore_v2 req)
unfolding from_sigstore_v2
from_sigstore_v2-IsPermitted ctx b (SigstoreVerificationInputV2.pub_key_verify i k a) = tt
from_sigstore_v2-IsPermitted ctx b (SigstoreVerificationInputV2.keyless_verify i k a) = tt
from_sigstore_v2-IsPermitted ctx b (SigstoreVerificationInputV2.keyless_prefix_verify i k a) = tt
from_sigstore_v2-IsPermitted ctx b (SigstoreVerificationInputV2.github_actions_verify i o r a) = tt
from_sigstore_v2-IsPermitted ctx b (SigstoreVerificationInputV2.certificate_verify i c d r a) = tt

-- What holds of a failure, of the silent answer to a log and of every permitted request that is sent
-- holds of whatever a policy asks.
module _ {sdk : Sdk} (decode : Decoders sdk) (ctx : EvaluationContext (Channel sdk)) (b : String)
    (P : Outcome sdk → Type 0) (fails : (e : String) → P (err e, []))
    (sends : (req : CallbackRequestType sdk)
      → IsPermitted ctx b req
      → P (send_request_and_wait_for_response ctx req)) where
  test : (c : Bool) {x y : Outcome sdk} → (c ≡ true → P x) → P y → P (if c then x else y)
  test true h k = h refl
  test false h k = k

  read :
      {A : Type 0} (r : Result String A) {f : A → Outcome sdk}
      → ((a : A) → P (f a))
      → P (reading r f)
  read (ok a) h = h a
  read (err e) h = fails e

  granted :
      (a k : String) (req : CallbackRequestType sdk)
      → (IsListed ctx a k → IsPermitted ctx b req)
      → P (send_if_granted ctx a k req)
  unfolding send_if_granted
  granted a k req h =
      test (can_access_kubernetes_resource ctx a k)
        (λ access. sends req (h ((can_access_kubernetes_resource_iff ctx a k).0 access))) (fails _)

  oci : (op : String) (payload : Bytes) → P (oci_operation decode ctx op payload)
  unfolding oci_operation
  oci op payload =
      test (op == "v1/verify") (λ _. read _ λ req. sends _ (from_sigstore_v1-IsPermitted ctx b req))
        (test (op == "v2/verify")
          (λ _. read _ λ req. sends _ (from_sigstore_v2-IsPermitted ctx b req))
          (test (op == "v1/manifest_digest")
            (λ _. read _ λ image. sends (oci_manifest_digest image) tt)
            (test (op == "v1/oci_manifest") (λ _. read _ λ image. sends (oci_manifest image) tt)
              (test (op == "v1/oci_manifest_config")
                (λ _. read _ λ image. sends (oci_manifest_and_config image) tt) (fails _)))))

  kubernetes : (op : String) (payload : Bytes) → P (kubernetes_operation decode ctx op payload)
  unfolding kubernetes_operation from_list_by_namespace from_list_all from_get_resource from_can_i
  kubernetes op payload =
      test (op == "list_resources_by_namespace")
        (λ _.
          read (decode.list_by_namespace payload)
            λ req. granted req.api_version req.kind (from_list_by_namespace sdk req) λ h. h)
        (test (op == "list_resources_all")
          (λ _.
            read (decode.list_all payload)
              λ req. granted req.api_version req.kind (from_list_all sdk req) λ h. inl h)
          (test (op == "get_resource")
            (λ _.
              read (decode.get_resource payload)
                λ req. granted req.api_version req.kind (from_get_resource sdk req) λ h. h)
            (test (op == "can_i")
              (λ _. read (decode.can_i payload) λ req. sends (from_can_i req) tt) (fails _))))

  kubewarden :
      (namespace op : String) (payload : Bytes)
      → (namespace ≡ "tracing" → op ≡ "log" → P (ok [], []))
      → P (kubewarden_namespace decode ctx namespace op payload)
  unfolding kubewarden_namespace tracing_operation net_operation crypto_operation
  kubewarden namespace op payload logs =
      test (namespace == "tracing")
        (λ e.
          test (op == "log")
            (λ e'. logs ((eq_iff namespace "tracing").0 e) ((eq_iff op "log").0 e')) (fails _))
        (test (namespace == "oci") (λ _. oci op payload)
          (test (namespace == "net")
            (λ _.
              test (op == "v1/dns_lookup_host")
                (λ _. read _ λ host. sends (dns_lookup_host host) tt) (fails _))
            (test (namespace == "crypto")
              (λ _.
                test (op == "v1/is_certificate_trusted")
                  (λ _. read _ λ req. sends (crypto_is_certificate_trusted req) tt) (fails _))
              (test (namespace == "kubernetes") (λ _. kubernetes op payload) (fails _)))))

  cluster : (namespace : String) → b ≡ "kubernetes" → P (cluster_context decode ctx namespace)
  unfolding cluster_context
  cluster namespace e =
      test (namespace == "ingresses")
        (λ _. sends (kubernetes_list_resource_all _ _ none none) (inr (e, ingresses refl refl)))
        (test (namespace == "namespaces")
          (λ _. sends (kubernetes_list_resource_all _ _ none none) (inr (e, namespaces refl refl)))
          (test (namespace == "services")
            (λ _. sends (kubernetes_list_resource_all _ _ none none) (inr (e, services refl refl)))
            (fails _)))

  pub host_callback_cases :
      (namespace operation : String) (payload : Bytes)
      → (b ≡ "kubewarden" → namespace ≡ "tracing" → operation ≡ "log" → P (ok [], []))
      → P (host_callback decode ctx b namespace operation payload)
  unfolding host_callback
  host_callback_cases namespace operation payload logs =
      test (b == "kubewarden")
        (λ e. kubewarden namespace operation payload (logs ((eq_iff b "kubewarden").0 e)))
        (test (b == "kubernetes") (λ e. cluster namespace ((eq_iff b "kubernetes").0 e)) (fails _))

module _ {sdk : Sdk} (P : CallbackRequestType sdk → Type 0) where
  deliver-All :
      (req : CallbackRequestType sdk) (reply : Reply) → P req → All P (deliver req reply).1
  deliver-All req (Reply.refused e) h = tt
  deliver-All req (Reply.failed e) h = (h, tt)
  deliver-All req (Reply.answered p) h = (h, tt)
  deliver-All req Reply.dropped h = (h, tt)

  send-All :
      (ctx : EvaluationContext (Channel sdk)) (req : CallbackRequestType sdk)
      → P req
      → All P (send_request_and_wait_for_response ctx req).1
  unfolding send_request_and_wait_for_response
  send-All ctx req h = elim (Option-cases ctx.callback_channel) [
    | inl missing ↦ rw missing tt
    | inr (channel, present) ↦ rw present (deliver-All req (channel req) h)
  ]

-- Every request that a policy puts on the channel is permitted: resources of the cluster are asked
-- for only if the allow list has their version and kind, except that the deprecated binding
-- "kubernetes" lists the ingresses, namespaces and services of the cluster.
pub host_callback-IsPermitted :
    {sdk : Sdk} (decode : Decoders sdk) (ctx : EvaluationContext (Channel sdk))
    (binding namespace operation : String) (payload : Bytes)
    → All (IsPermitted ctx binding) (host_callback decode ctx binding namespace operation payload).1
host_callback-IsPermitted decode ctx binding namespace operation payload =
    host_callback_cases decode ctx binding (λ outcome. All (IsPermitted ctx binding) outcome.1)
      (λ e. tt) (λ req h. send-All (IsPermitted ctx binding) ctx req h) namespace operation payload
      (λ b n o. tt)
