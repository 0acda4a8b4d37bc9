-- ===== src/CallbackHandler/Sigstore.antt =====
-- src/callback_handler/sigstore_verification.rs: the verification of the signatures of an image.
pub mod Trust
pub mod Keys
use policy_evaluator.Prelude.{
  String, Bool, true, false, Option, none, some, List, [], ◌∷◌, ◌++◌, map, Result, ok, err, ◌>>=◌,
  map_err, ◌<>◌, ◌==◌, string_eq, is_empty, if◌then◌else◌,
}
use policy_evaluator.Prelude.Dict.{Dict}
use policy_evaluator.Callback.Requests.{Bytes, Sdk, Annotations}
use policy_evaluator.CallbackHandler.{Task, fresh, cached_or}

-- `Subject`, `Signature` and `LatestVerificationConfig` of policy_fetcher
pub data Subject (Url : Type 0) : Type 0 where
  equal : String → Subject Url
  url_prefix : Url → Subject Url

pub data Signature (Url : Type 0) : Type 0 where
  pub_key : (owner : Option String) (key : String) (annotations : Annotations) → Signature Url
  generic_issuer :
      (issuer : String) (subject : Subject Url) (annotations : Annotations) → Signature Url
  github_action :
      (owner : String) (repo : Option String) (annotations : Annotations) → Signature Url

pub record VerificationConfig (Url AnyOf : Type 0) : Type 0 where
  pub all_of : Option (List (Signature Url))
  pub any_of : Option AnyOf

-- `Certificate` of sigstore
pub data CertificateEncoding : Type 0 where
  pem der : CertificateEncoding

pub record Certificate : Type 0 where
  pub contents : Bytes
  pub encoding : CertificateEncoding

-- the constraints of sigstore that are used
pub data Constraint (CertificateVerifier : Type 0) : Type 0 where
  certificate_verifier : CertificateVerifier → Constraint CertificateVerifier
  annotation_verifier : Dict String String → Constraint CertificateVerifier

-- the structures of the SDK, and the crates url, policy_fetcher, sigstore and sha2, at the time of a
-- call; their errors are texts
pub record Verification (sdk : Sdk) : Type 1 where
  pub keyless_issuer : sdk.KeylessInfo → String
  pub keyless_subject : sdk.KeylessInfo → String
  pub prefix_issuer : sdk.KeylessPrefixInfo → String
  pub prefix_url : sdk.KeylessPrefixInfo → String
  pub Url : Type 0
  pub parse_url : String → Result String Url
  pub AnyOf : Type 0
  -- `Verifier::verify`, with the digest of the image
  pub verify : String → VerificationConfig Url AnyOf → Result String String
  pub Layers : Type 0
  pub fetch_sigstore_remote_data : String → Result String (String × Layers)
  pub CertificateVerifier : Type 0
  pub from_pem : Bytes → Bool → Option (List Certificate) → Result String CertificateVerifier
  pub verify_constraints : Layers → List (Constraint CertificateVerifier) → Result String Unit
  -- `{:x}` of the SHA-256 of all that was given to `update`
  pub sha256 : Bytes → String
  -- the bytes of a text
  pub as_bytes : String → Bytes

pub record VerificationResponse : Type 0 where
  pub digest : String
  pub is_trusted : Bool

abbrev pub trusted : String → VerificationResponse
trusted digest = record { digest = digest; is_trusted = true }

module _ {sdk : Sdk} (v : Verification sdk) where
  -- the verification of all of some signatures
  abbrev pub verify_all_of : String → List (Signature v.Url) → Result String VerificationResponse
  verify_all_of image signatures_all_of = do
    digest ← v.verify image (record { all_of = some signatures_all_of; any_of = none })
    ok (trusted digest)

  abbrev pub key_signature : Annotations → String → Signature v.Url
  key_signature annotations k = pub_key none k annotations

  unfoldable pub verify_public_key :
      String → List String → Annotations → Result String VerificationResponse
  verify_public_key image pub_keys annotations =
      if is_empty pub_keys
      then err "Must provide at least one pub key"
      else verify_all_of image (map (key_signature annotations) pub_keys)

  abbrev pub keyless_signature : Annotations → sdk.KeylessInfo → Signature v.Url
  keyless_signature annotations k =
      generic_issuer (v.keyless_issuer k) (equal (v.keyless_subject k)) annotations

  unfoldable pub verify_keyless :
      String → List sdk.KeylessInfo → Annotations → Result String VerificationResponse
  verify_keyless image keyless annotations =
      if is_empty keyless
      then err "Must provide keyless info"
      else verify_all_of image (map (keyless_signature annotations) keyless)

  abbrev pub prefix_signature :
      Annotations → sdk.KeylessPrefixInfo → Result String v.Url → Option (Signature v.Url)
  prefix_signature annotations k (ok url) =
      some (generic_issuer (v.prefix_issuer k) (url_prefix url) annotations)
  prefix_signature annotations k (err e) = none

  abbrev pub push_signature :
      Option (Signature v.Url) → Option (List (Signature v.Url)) → Option (List (Signature v.Url))
  push_signature none rest = none
  push_signature (some s) none = none
  push_signature (some s) (some rest) = some (s ∷ rest)

  -- the loop over the prefixes, with `none` for its panic
  unfoldable pub prefix_signatures :
      Annotations → List sdk.KeylessPrefixInfo → Option (List (Signature v.Url))
  prefix_signatures annotations [] = some []
  prefix_signatures annotations (k ∷ ks) =
      push_signature (prefix_signature annotations k (v.parse_url (v.prefix_url k)))
        (prefix_signatures annotations ks)

  abbrev pub verify_prefixes :
      String → Option (List (Signature v.Url)) → Option (Result String VerificationResponse)
  verify_prefixes image none = none
  verify_prefixes image (some signatures) = some (verify_all_of image signatures)

  unfoldable pub verify_keyless_prefix :
      String
      → List sdk.KeylessPrefixInfo
      → Annotations
      → Option (Result String VerificationResponse)
  verify_keyless_prefix image keyless_prefix annotations =
      if is_empty keyless_prefix
      then some (err "Must provide keyless info")
      else verify_prefixes image (prefix_signatures annotations keyless_prefix)

  unfoldable pub verify_github_actions :
      String → String → Option String → Annotations → Result String VerificationResponse
  verify_github_actions image owner repo annotations =
      if owner == ""
      then err "Must provide owner info"
      else verify_all_of image (github_action owner repo annotations ∷ [])

  abbrev pub pem_certificate : Bytes → Certificate
  pem_certificate cert_data = record { contents = cert_data; encoding = pem }

  abbrev pub chain_of : Option (List Bytes) → Option (List Certificate)
  chain_of none = none
  chain_of (some certs) = some (map pem_certificate certs)

  abbrev pub constraints_of :
      v.CertificateVerifier → Annotations → List (Constraint v.CertificateVerifier)
  constraints_of verifier none = certificate_verifier verifier ∷ []
  constraints_of verifier (some a) = certificate_verifier verifier ∷ annotation_verifier a ∷ []

  unfoldable pub verify_certificate :
      String → Bytes → Option (List Bytes) → Bool → Annotations → Result String VerificationResponse
  verify_certificate image certificate certificate_chain require_rekor_bundle annotations = do
    (source_image_digest, trusted_layers) ← v.fetch_sigstore_remote_data image
    cert_verifier ← v.from_pem certificate require_rekor_bundle (chain_of certificate_chain)
    done ←
        map_err (λ e. "verification failed: " <> e)
          (v.verify_constraints trusted_layers (constraints_of cert_verifier annotations))
    ok (trusted source_image_digest)

  -- the parts of the text that is hashed
  abbrev pub chain_bytes : List Bytes → Bytes
  chain_bytes [] = []
  chain_bytes (c ∷ cs) = c ++ chain_bytes cs

  abbrev pub some_chain_bytes : Option (List Bytes) → Bytes
  some_chain_bytes none = []
  some_chain_bytes (some certs) = chain_bytes certs

  -- a `BTreeMap` is walked in the order of its keys, in which its entries are
  abbrev pub annotations_bytes : Dict String String → Bytes
  annotations_bytes [] = []
  annotations_bytes ((key, value) ∷ rest) =
      v.as_bytes key ++ v.as_bytes "\n" ++ v.as_bytes value ++ annotations_bytes rest

  abbrev pub some_annotations_bytes : Annotations → Bytes
  some_annotations_bytes none = []
  some_annotations_bytes (some a) = annotations_bytes a

  unfoldable pub get_sigstore_certificate_verification_cache_key :
      String → Bytes → Option (List Bytes) → Bool → Annotations → String
  get_sigstore_certificate_verification_cache_key image certificate certificate_chain
        require_rekor_bundle annotations =
      v.sha256 (
        v.as_bytes image
        ++ certificate
        ++ some_chain_bytes certificate_chain
        ++ v.as_bytes (if require_rekor_bundle then "1" else "0")
        ++ some_annotations_bytes annotations)

-- `{:?}` of what the keys of the caches have in them
pub record Debug (sdk : Sdk) : Type 0 where
  pub text : String → String
  pub texts : List String → String
  pub some_text : Option String → String
  pub annotations : Annotations → String
  pub keyless : List sdk.KeylessInfo → String
  pub keyless_prefix : List sdk.KeylessPrefixInfo → String

abbrev pub fresh_or_panic : Option (Result String VerificationResponse) → Task VerificationResponse
fresh_or_panic none = none
fresh_or_panic (some r) = fresh r

module _ {sdk : Sdk} (v : Verification sdk) (debug : Debug sdk) where
  -- `cached` is what the cache of a function has for a key
  unfoldable pub get_sigstore_pub_key_verification_cached :
      (String → Option VerificationResponse)
      → String
      → List String
      → Annotations
      → Task VerificationResponse
  get_sigstore_pub_key_verification_cached cached image pub_keys annotations =
      cached_or (cached (image <> debug.texts pub_keys <> debug.annotations annotations))
        (fresh (verify_public_key v image pub_keys annotations))

  unfoldable pub get_sigstore_keyless_verification_cached :
      (String → Option VerificationResponse)
      → String
      → List sdk.KeylessInfo
      → Annotations
      → Task VerificationResponse
  get_sigstore_keyless_verification_cached cached image keyless annotations =
      cached_or (cached (image <> debug.keyless keyless <> debug.annotations annotations))
        (fresh (verify_keyless v image keyless annotations))

  unfoldable pub get_sigstore_keyless_prefix_verification_cached :
      (String → Option VerificationResponse)
      → String
      → List sdk.KeylessPrefixInfo
      → Annotations
      → Task VerificationResponse
  get_sigstore_keyless_prefix_verification_cached cached image keyless_prefix annotations =
      cached_or
        (cached (image <> debug.keyless_prefix keyless_prefix <> debug.annotations annotations))
        (fresh_or_panic (verify_keyless_prefix v image keyless_prefix annotations))

  unfoldable pub get_sigstore_github_actions_verification_cached :
      (String → Option VerificationResponse)
      → String
      → String
      → Option String
      → Annotations
      → Task VerificationResponse
  get_sigstore_github_actions_verification_cached cached image owner repo annotations =
      cached_or
        (cached
          (image <> debug.text owner <> debug.some_text repo <> debug.annotations annotations))
        (fresh (verify_github_actions v image owner repo annotations))

  unfoldable pub get_sigstore_certificate_verification_cached :
      (String → Option VerificationResponse)
      → String
      → Bytes
      → Option (List Bytes)
      → Bool
      → Annotations
      → Task VerificationResponse
  get_sigstore_certificate_verification_cached cached image certificate certificate_chain
        require_rekor_bundle annotations =
      cached_or
        (cached (
          get_sigstore_certificate_verification_cache_key v image certificate certificate_chain
            require_rekor_bundle annotations))
        (fresh (
          verify_certificate v image certificate certificate_chain require_rekor_bundle
            annotations))
