-- ===== src/CallbackHandler/Tests.antt =====
-- The handler of src/callback_handler.rs, with a verifier that knows one image.
use Prim.Native.Char.{code}
use Prim.Native.String as Text
use mathlib.Core.List.{[], ◌∷◌}
use text.Mathlib.TextLemmas.{nil-append, cons-append}
use policy_evaluator.Prelude.{
  String, true, is_some, none, some, ◌++◌, ok, err, ◌≡◌, refl, ap, ◌∙◌, ◌<>◌, ◌==◌, string_eq,
  if◌then◌else◌,
}
use policy_evaluator.Prelude.Int.{pos}
use policy_evaluator.Callback.Requests.{
  Bytes, CallbackRequestType, sigstore_pub_key_verify, kubernetes_list_resource_all,
}
use policy_evaluator.Callback.Sample.{unit_sdk}
use policy_evaluator.Crypto.{Webpki, der, unknown_issuer}
use policy_evaluator.Kubernetes.Sample.{numbers, one_pod}
use policy_evaluator.CallbackHandler.Oci.{Registry}
use policy_evaluator.CallbackHandler.Sigstore.{
  Verification, Debug, trusted, get_sigstore_certificate_verification_cached,
}
use policy_evaluator.CallbackHandler.Sigstore.Keys.{cached_for_other_annotations}
use policy_evaluator.CallbackHandler.Dispatch.{Services, CallbackHandler, handle_request}
use policy_evaluator.CallbackHandler.Dispatch.Clientless.{handle_request_answers}

abbrev bytes_of : String → Bytes
bytes_of Text.[] = []
bytes_of (Text.◌∷◌ c s) = code c ∷ bytes_of s

bytes_of-append : (s t : String) → bytes_of (s <> t) ≡ bytes_of s ++ bytes_of t
bytes_of-append Text.[] t = ap bytes_of (nil-append t)
bytes_of-append (Text.◌∷◌ c s) t =
    ap bytes_of (cons-append c s t) ∙ ap (λ q. code c ∷ q) (bytes_of-append s t)

abbrev busybox_only : Verification unit_sdk
busybox_only = record {
  keyless_issuer = λ k. "issuer";
  keyless_subject = λ k. "subject";
  prefix_issuer = λ k. "issuer";
  prefix_url = λ k. "https://example.com";
  Url = String;
  parse_url = λ s. ok s;
  AnyOf = Unit;
  verify = λ image config. if image == "busybox" then ok "sha256:1" else err "no signature";
  Layers = Unit;
  fetch_sigstore_remote_data = λ image. ok ("sha256:1", tt);
  CertificateVerifier = Unit;
  from_pem = λ certificate rekor chain. ok tt;
  verify_constraints = λ layers constraints. ok tt;
  sha256 = λ bytes. "hash";
  as_bytes = bytes_of;
}

abbrev plain : Debug unit_sdk
plain = record {
  text = λ s. s;
  texts = λ ss. "keys";
  some_text = λ s. "text";
  annotations = λ a. "annotations";
  keyless = λ ks. "keyless";
  keyless_prefix = λ ks. "prefixes";
}

abbrev empty_registry : Registry
empty_registry = record {
  Sources = Unit;
  Manifest = Unit;
  ImageManifest = Unit;
  Config = Unit;
  parse_reference = λ s. ok s;
  manifest_digest = λ url sources. err "not found";
  manifest = λ url sources. err "not found";
  manifest_and_config = λ url sources. err "not found";
}

abbrev no_trust : Webpki
no_trust = record {
  CertificateDer = Unit;
  TrustAnchor = Unit;
  EndEntityCert = Unit;
  from_pem_slice = λ bytes. err "no PEM";
  from_slice = λ bytes. tt;
  end_entity = λ cert. err "no certificate";
  anchor_from_trusted_cert = λ cert. err "no anchor";
  tls_server_roots = [];
  verify_for_usage = λ cert roots intermediates time. err unknown_issuer;
  parse_from_rfc3339 = λ text. none;
}

abbrev services : Services unit_sdk
services = record {
  kube = numbers;
  cluster = one_pod;
  review_of = λ r. tt;
  registry = empty_registry;
  verification = busybox_only;
  debug = plain;
  webpki = no_trust;
  certificate_request = λ r. record {
    cert = record { encoding = der; contents = [] };
    cert_chain = none;
    not_after = none;
  };
  timestamp = pos 0;
  lookup_host = λ host. err "not found";
  digest_to_vec = λ digest. ok (1 ∷ []);
  manifest_to_vec = λ manifest. ok (2 ∷ []);
  manifest_and_config_to_vec = λ both. ok (3 ∷ []);
  verification_to_vec = λ resp. ok (4 ∷ []);
  ips_to_vec = λ ips. ok (5 ∷ []);
  object_list_to_vec = λ list. ok (6 ∷ []);
  object_to_vec = λ object. ok (7 ∷ []);
  text_to_vec = λ text. ok (8 ∷ []);
  bool_to_vec = λ b. ok (9 ∷ []);
  review_to_vec = λ status. ok (10 ∷ []);
  certificate_to_vec = λ resp. ok (11 ∷ []);
  cached_digest = λ key. none;
  cached_manifest = λ key. none;
  cached_manifest_and_config = λ key. none;
  cached_pub_key = λ key. none;
  cached_keyless = λ key. none;
  cached_keyless_prefix = λ key. none;
  cached_github_actions = λ key. none;
  cached_certificate = λ key. none;
  cached_object = λ key. none;
  cached_review = λ review. none;
}

abbrev clientless : CallbackHandler services
clientless = record { oci_client = record { sources = none }; kubernetes_client = none }

abbrev signed_busybox : CallbackRequestType unit_sdk
signed_busybox = sigstore_pub_key_verify "busybox" ("key" ∷ []) none

handle_request_answers_example :
    (is_some
        (handle_request services clientless (kubernetes_list_resource_all "v1" "Pod" none none)).0
      ≡ true)
    × (is_some
          (handle_request services clientless
            (kubernetes_list_resource_all "v1" "Pod" none none)).1.kubernetes_client
        ≡ is_some clientless.kubernetes_client)
handle_request_answers_example =
    handle_request_answers services clientless (kubernetes_list_resource_all "v1" "Pod" none none)
      refl

cached_for_other_annotations_example :
    get_sigstore_certificate_verification_cached busybox_only plain
      (λ key. some (trusted "sha256:1"))
      "busybox"
      (1 ∷ [])
      none
      true
      (some (("env", "prod") ∷ ("team", "a") ∷ []))
    ≡ some (ok (record { value = trusted "sha256:1"; was_cached = true }))
cached_for_other_annotations_example =
    cached_for_other_annotations busybox_only bytes_of-append plain
      (λ key. some (trusted "sha256:1")) "busybox" (1 ∷ []) none true "env" "prod" "team" "a"
      (trusted "sha256:1") refl
