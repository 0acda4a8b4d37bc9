-- ===== src/CallbackHandler/Sigstore/Trust.antt =====
-- src/callback_handler/sigstore_verification.rs: what a trusted image has been verified against.
use mathlib.Core.List.{[], ◌∷◌}
use policy_evaluator.Prelude.{
  String, Bool, true, false, Option, none, some, List, map, ok, err, map_err, ◌≡◌, refl, sym, ap,
  ◌∙◌, Result, subst, >>=-eq-ok, map_err-eq-ok, ok_injective, is_empty, if◌then◌else◌, string_eq,
  ◌==◌,
}
use policy_evaluator.Callback.Requests.{
  Bytes, Sdk, Annotations, CallbackRequestType, sigstore_pub_key_verify, sigstore_keyless_verify,
  sigstore_keyless_prefix_verify, sigstore_github_actions_verify, sigstore_certificate_verify,
}
use policy_evaluator.CallbackHandler.Sigstore.{
  url_prefix, Certificate, pem, Constraint, certificate_verifier, annotation_verifier,
  push_signature, prefix_signature, Signature, pub_key, generic_issuer, github_action, equal,
  Verification, VerificationResponse, trusted, verify_all_of, prefix_signatures, verify_prefixes,
  verify_public_key, verify_keyless, verify_keyless_prefix, verify_github_actions, chain_of,
  constraints_of, verify_certificate,
}

module _ {sdk : Sdk} (v : Verification sdk) where
  -- the verifier accepts an image that has all these signatures
  abbrev pub HasAll : String → List (Signature v.Url) → String → Type 0
  HasAll image signatures digest =
      v.verify image (record { all_of = some signatures; any_of = none }) ≡ ok digest

  -- one signature by a generic issuer for each prefix, with the issuer and the URL of the prefix
  abbrev pub IsForPrefixes :
      Annotations → List sdk.KeylessPrefixInfo → List (Signature v.Url) → Type 0
  IsForPrefixes annotations [] [] = Unit
  IsForPrefixes annotations (k ∷ ks) (s ∷ ss) =
      ((url : v.Url) × (v.parse_url (v.prefix_url k) ≡ ok url)
        × (s ≡ generic_issuer (v.prefix_issuer k) (url_prefix url) annotations))
      × IsForPrefixes annotations ks ss
  IsForPrefixes annotations [] (s ∷ ss) = ⊥
  IsForPrefixes annotations (k ∷ ks) [] = ⊥

  -- the chain that a request gives, as certificates in PEM
  abbrev pub in_pem : Option (List Bytes) → Option (List Certificate)
  in_pem none = none
  in_pem (some certs) = some (map (λ c. record { contents = c; encoding = pem }) certs)

  -- what the layers have to fulfil
  abbrev pub demanded :
      v.CertificateVerifier → Annotations → List (Constraint v.CertificateVerifier)
  demanded verifier none = certificate_verifier verifier ∷ []
  demanded verifier (some a) = certificate_verifier verifier ∷ annotation_verifier a ∷ []

  -- the requests, and what stands behind a trusted answer to each
  pub data IsTrusted : CallbackRequestType sdk → VerificationResponse → Type 0 where
    by_keys :
        {image digest : String} {pub_keys : List String} {annotations : Annotations}
        → is_empty pub_keys ≡ false
        → HasAll image (map (λ k. pub_key none k annotations) pub_keys) digest
        → IsTrusted (sigstore_pub_key_verify image pub_keys annotations) (trusted digest)
    by_identities :
        {image digest : String} {keyless : List sdk.KeylessInfo} {annotations : Annotations}
        → is_empty keyless ≡ false
        → HasAll image
            (map
              (λ k. generic_issuer (v.keyless_issuer k) (equal (v.keyless_subject k)) annotations)
              keyless)
            digest
        → IsTrusted (sigstore_keyless_verify image keyless annotations) (trusted digest)
    by_prefixes :
        {image digest : String} {keyless_prefix : List sdk.KeylessPrefixInfo}
        {annotations : Annotations} (signatures : List (Signature v.Url))
        → is_empty keyless_prefix ≡ false
        → IsForPrefixes annotations keyless_prefix signatures
        → HasAll image signatures digest
        → IsTrusted
            (sigstore_keyless_prefix_verify image keyless_prefix annotations)
            (trusted digest)
    by_owner :
        {image owner digest : String} {repo : Option String} {annotations : Annotations}
        → (owner == "") ≡ false
        → HasAll image (github_action owner repo annotations ∷ []) digest
        → IsTrusted (sigstore_github_actions_verify image owner repo annotations) (trusted digest)
    by_certificate :
        {image digest : String} {certificate : Bytes} {chain : Option (List Bytes)} {rekor : Bool}
        {annotations : Annotations} (layers : v.Layers) (verifier : v.CertificateVerifier)
        (done : Unit {0})
        → v.fetch_sigstore_remote_data image ≡ ok (digest, layers)
        → v.from_pem certificate rekor (in_pem chain) ≡ ok verifier
        → v.verify_constraints layers (demanded verifier annotations) ≡ ok done
        → IsTrusted
            (sigstore_certificate_verify image certificate chain rekor annotations)
            (trusted digest)

  chain_of-in_pem : (chain : Option (List Bytes)) → chain_of v chain ≡ in_pem chain
  chain_of-in_pem none = refl
  chain_of-in_pem (some certs) = refl

  constraints_of-demanded :
      (verifier : v.CertificateVerifier) (annotations : Annotations)
      → constraints_of v verifier annotations ≡ demanded verifier annotations
  constraints_of-demanded verifier none = refl
  constraints_of-demanded verifier (some a) = refl

  push_signature-IsForPrefixes :
      (annotations : Annotations) (k : sdk.KeylessPrefixInfo) (ks : List sdk.KeylessPrefixInfo)
      (parsed : Result String v.Url) (rest : Option (List (Signature v.Url)))
      (signatures : List (Signature v.Url))
      → v.parse_url (v.prefix_url k) ≡ parsed
      → ((ss : List (Signature v.Url)) → rest ≡ some ss → IsForPrefixes annotations ks ss)
      → push_signature v (prefix_signature v annotations k parsed) rest ≡ some signatures
      → IsForPrefixes annotations (k ∷ ks) signatures
  push_signature-IsForPrefixes annotations k ks (err e) rest signatures read later h = cc
  push_signature-IsForPrefixes annotations k ks (ok url) none signatures read later h = cc
  push_signature-IsForPrefixes annotations k ks (ok url) (some ss) signatures read later h =
      let same : generic_issuer (v.prefix_issuer k) (url_prefix url) annotations ∷ ss ≡ signatures =
        cc in
      subst (IsForPrefixes annotations (k ∷ ks)) same ((url, read, refl), later ss refl)

  prefix_signatures-IsForPrefixes :
      (annotations : Annotations) (ks : List sdk.KeylessPrefixInfo)
      (signatures : List (Signature v.Url))
      → prefix_signatures v annotations ks ≡ some signatures
      → IsForPrefixes annotations ks signatures
  unfolding prefix_signatures
  prefix_signatures-IsForPrefixes annotations [] [] h = tt
  prefix_signatures-IsForPrefixes annotations [] (s ∷ ss) h = cc
  prefix_signatures-IsForPrefixes annotations (k ∷ ks) signatures h =
      push_signature-IsForPrefixes annotations k ks _ _ signatures refl
        (λ ss built. prefix_signatures-IsForPrefixes annotations ks ss built) h

  verify_all_of-HasAll :
      (image : String) (signatures : List (Signature v.Url)) (resp : VerificationResponse)
      → verify_all_of v image signatures ≡ ok resp
      → (digest : String) × HasAll image signatures digest × (trusted digest ≡ resp)
  verify_all_of-HasAll image signatures resp h =
      let (digest, verified, made) = >>=-eq-ok (v.verify image _) _ h in
      (digest, verified, ok_injective made)

  pub verify_public_key-IsTrusted :
      (image : String) (pub_keys : List String) (annotations : Annotations)
      (resp : VerificationResponse)
      → verify_public_key v image pub_keys annotations ≡ ok resp
      → IsTrusted (sigstore_pub_key_verify image pub_keys annotations) resp
  unfolding verify_public_key
  verify_public_key-IsTrusted image [] annotations resp h = cc
  verify_public_key-IsTrusted image (k ∷ ks) annotations resp h =
      let (digest, verified, made) = verify_all_of-HasAll image _ resp h in
      subst (IsTrusted (sigstore_pub_key_verify image (k ∷ ks) annotations)) made
        (by_keys refl verified)

  pub verify_keyless-IsTrusted :
      (image : String) (keyless : List sdk.KeylessInfo) (annotations : Annotations)
      (resp : VerificationResponse)
      → verify_keyless v image keyless annotations ≡ ok resp
      → IsTrusted (sigstore_keyless_verify image keyless annotations) resp
  unfolding verify_keyless
  verify_keyless-IsTrusted image [] annotations resp h = cc
  verify_keyless-IsTrusted image (k ∷ ks) annotations resp h =
      let (digest, verified, made) = verify_all_of-HasAll image _ resp h in
      subst (IsTrusted (sigstore_keyless_verify image (k ∷ ks) annotations)) made
        (by_identities refl verified)

  verify_prefixes-IsTrusted :
      (image : String) (k : sdk.KeylessPrefixInfo) (ks : List sdk.KeylessPrefixInfo)
      (annotations : Annotations) (signatures : Option (List (Signature v.Url)))
      (resp : VerificationResponse)
      → prefix_signatures v annotations (k ∷ ks) ≡ signatures
      → verify_prefixes v image signatures ≡ some (ok resp)
      → IsTrusted (sigstore_keyless_prefix_verify image (k ∷ ks) annotations) resp
  verify_prefixes-IsTrusted image k ks annotations none resp built h = cc
  verify_prefixes-IsTrusted image k ks annotations (some signatures) resp built h =
      let there : verify_all_of v image signatures ≡ ok resp = cc in
      let (digest, verified, made) = verify_all_of-HasAll image signatures resp there in
      subst (IsTrusted (sigstore_keyless_prefix_verify image (k ∷ ks) annotations)) made (
        by_prefixes signatures refl
          (prefix_signatures-IsForPrefixes annotations (k ∷ ks) signatures built) verified)

  pub verify_keyless_prefix-IsTrusted :
      (image : String) (keyless_prefix : List sdk.KeylessPrefixInfo) (annotations : Annotations)
      (resp : VerificationResponse)
      → verify_keyless_prefix v image keyless_prefix annotations ≡ some (ok resp)
      → IsTrusted (sigstore_keyless_prefix_verify image keyless_prefix annotations) resp
  unfolding verify_keyless_prefix
  verify_keyless_prefix-IsTrusted image [] annotations resp h = cc
  verify_keyless_prefix-IsTrusted image (k ∷ ks) annotations resp h =
      verify_prefixes-IsTrusted image k ks annotations (prefix_signatures v annotations (k ∷ ks))
        resp refl h

  pub verify_github_actions-IsTrusted :
      (image owner : String) (repo : Option String) (annotations : Annotations)
      (resp : VerificationResponse)
      → verify_github_actions v image owner repo annotations ≡ ok resp
      → IsTrusted (sigstore_github_actions_verify image owner repo annotations) resp
  unfolding verify_github_actions
  verify_github_actions-IsTrusted image owner repo annotations resp h =
      owner_tested (owner == "") refl h
    where
      owner_tested :
          (b : Bool)
          → (owner == "") ≡ b
          → (if b
              then err "Must provide owner info"
              else verify_all_of v image (github_action owner repo annotations ∷ []))
            ≡ ok resp
          → IsTrusted (sigstore_github_actions_verify image owner repo annotations) resp
      owner_tested true e h = cc
      owner_tested false e h =
          let (digest, verified, made) = verify_all_of-HasAll image _ resp h in
          subst (IsTrusted (sigstore_github_actions_verify image owner repo annotations)) made
            (by_owner e verified)

  pub verify_certificate-IsTrusted :
      (image : String) (certificate : Bytes) (chain : Option (List Bytes)) (rekor : Bool)
      (annotations : Annotations) (resp : VerificationResponse)
      → verify_certificate v image certificate chain rekor annotations ≡ ok resp
      → IsTrusted (sigstore_certificate_verify image certificate chain rekor annotations) resp
  unfolding verify_certificate
  verify_certificate-IsTrusted image certificate chain rekor annotations resp h =
      let ((digest, layers), fetched, h1) = >>=-eq-ok (v.fetch_sigstore_remote_data image) _ h in
      let (verifier, read, h2) = >>=-eq-ok (v.from_pem certificate rekor (chain_of v chain)) _ h1 in
      let (done, verified, h3) =
        >>=-eq-ok (map_err _ (v.verify_constraints layers (constraints_of v verifier annotations)))
          _ h2 in
      subst (IsTrusted (sigstore_certificate_verify image certificate chain rekor annotations))
        (ok_injective h3)
        (by_certificate layers verifier done fetched
          (ap (v.from_pem certificate rekor) (sym (chain_of-in_pem chain)) ∙ read)
          (ap (v.verify_constraints layers) (sym (constraints_of-demanded verifier annotations))
            ∙ map_err-eq-ok _ (v.verify_constraints layers (constraints_of v verifier annotations))
                done verified))
