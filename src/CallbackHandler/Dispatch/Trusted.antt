-- ===== src/CallbackHandler/Dispatch/Trusted.antt =====
-- src/callback_handler.rs: the answers to the requests for a verification by Sigstore.
use policy_evaluator.Prelude.{
  String, Bool, true, false, Option, none, some, ◌≡◌, ◌⊎◌, ◌<>◌, ◌++◌, if◌then◌else◌,
}
use policy_evaluator.Callback.Requests.{
  Sdk, CallbackRequestType, sigstore_pub_key_verify, sigstore_keyless_verify,
  sigstore_keyless_prefix_verify, sigstore_github_actions_verify, sigstore_certificate_verify,
}
use policy_evaluator.CallbackHandler.Sigstore.{
  some_chain_bytes, some_annotations_bytes, VerificationResponse,
}
use policy_evaluator.CallbackHandler.Sigstore.Trust.{IsTrusted}
use policy_evaluator.CallbackHandler.Dispatch.{Services, CallbackHandler}

abbrev pub is_sigstore : {sdk : Sdk} → CallbackRequestType sdk → Bool
is_sigstore (sigstore_pub_key_verify image pub_keys annotations) = true
is_sigstore (sigstore_keyless_verify image keyless annotations) = true
is_sigstore (sigstore_keyless_prefix_verify image keyless_prefix annotations) = true
is_sigstore (sigstore_github_actions_verify image owner repo annotations) = true
is_sigstore (sigstore_certificate_verify image certificate chain rekor annotations) = true
is_sigstore _ = false

module _ {sdk : Sdk} (s : Services sdk) where
  -- the cache of the function that answers a request
  abbrev pub cache_for : CallbackRequestType sdk → String → Option VerificationResponse
  cache_for (sigstore_pub_key_verify image pub_keys annotations) = s.cached_pub_key
  cache_for (sigstore_keyless_verify image keyless annotations) = s.cached_keyless
  cache_for (sigstore_keyless_prefix_verify image prefix annotations) = s.cached_keyless_prefix
  cache_for (sigstore_github_actions_verify image owner repo annotations) = s.cached_github_actions
  cache_for (sigstore_certificate_verify image certificate chain rekor a) = s.cached_certificate
  cache_for _ = λ key. none

  -- the key of a request: the image and what it is verified against
  abbrev pub key_for : CallbackRequestType sdk → String
  key_for (sigstore_pub_key_verify image pub_keys annotations) =
      image <> s.debug.texts pub_keys <> s.debug.annotations annotations
  key_for (sigstore_keyless_verify image keyless annotations) =
      image <> s.debug.keyless keyless <> s.debug.annotations annotations
  key_for (sigstore_keyless_prefix_verify image prefix annotations) =
      image <> s.debug.keyless_prefix prefix <> s.debug.annotations annotations
  key_for (sigstore_github_actions_verify image owner repo annotations) =
      image <> s.debug.text owner <> s.debug.some_text repo <> s.debug.annotations annotations
  key_for (sigstore_certificate_verify image certificate chain rekor annotations) =
      s.verification.sha256 (
        s.verification.as_bytes image
        ++ certificate
        ++ some_chain_bytes s.verification chain
        ++ s.verification.as_bytes (if rekor then "1" else "0")
        ++ some_annotations_bytes s.verification annotations)
  key_for _ = ""

  -- an answer that the cache of the function has under the key of the request, or that is verified
  -- now
  abbrev pub IsAnswerTo : CallbackRequestType sdk → VerificationResponse → Type 0
  IsAnswerTo req resp =
      (cache_for req (key_for req) ≡ some resp) ⊎ IsTrusted s.verification req resp
