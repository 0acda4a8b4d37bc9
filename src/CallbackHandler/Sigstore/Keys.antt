-- ===== src/CallbackHandler/Sigstore/Keys.antt =====
-- src/callback_handler/sigstore_verification.rs: the keys of the cache of certificate verifications.
use mathlib.Core.List.{[], ◌∷◌}
use policy_evaluator.Prelude.{
  String, Bool, true, Option, some, List, ◌++◌, ◌≡◌, refl, sym, ap, ◌∙◌, ◌<>◌, append_assoc,
  append-nil, ok, if◌then◌else◌,
}
use policy_evaluator.Callback.Requests.{Bytes, Sdk}
use policy_evaluator.CallbackHandler.Sigstore.{
  Verification, VerificationResponse, Debug, annotations_bytes, some_chain_bytes,
  get_sigstore_certificate_verification_cache_key, get_sigstore_certificate_verification_cached,
}

-- the bytes of a text that is put together are those of its parts
abbrev pub IsEncoding : (String → Bytes) → Type 0
IsEncoding as_bytes = (s t : String) → as_bytes (s <> t) ≡ as_bytes s ++ as_bytes t

module _ {sdk : Sdk} (v : Verification sdk) (encoding : IsEncoding v.as_bytes) where
  joined_bytes :
      (k₁ v₁ k₂ v₂ : String)
      → annotations_bytes v ((k₁, v₁ <> k₂ <> "\n" <> v₂) ∷ [])
        ≡ annotations_bytes v ((k₁, v₁) ∷ (k₂, v₂) ∷ [])
  joined_bytes k₁ v₁ k₂ v₂ =
      rw (encoding v₁ (k₂ <> "\n" <> v₂), encoding k₂ ("\n" <> v₂), encoding "\n" v₂)
        (simp (append_assoc, append-nil))

  same_key :
      (image : String) (certificate : Bytes) (chain : Option (List Bytes)) (rekor : Bool)
      (k₁ v₁ k₂ v₂ : String)
      → get_sigstore_certificate_verification_cache_key v image certificate chain rekor
          (some ((k₁, v₁ <> k₂ <> "\n" <> v₂) ∷ []))
        ≡ get_sigstore_certificate_verification_cache_key v image certificate chain rekor
            (some ((k₁, v₁) ∷ (k₂, v₂) ∷ []))
  unfolding get_sigstore_certificate_verification_cache_key
  same_key image certificate chain rekor k₁ v₁ k₂ v₂ =
      ap
        (λ q. v.sha256 (
          v.as_bytes image
          ++ certificate
          ++ some_chain_bytes v chain
          ++ v.as_bytes (if rekor then "1" else "0")
          ++ q))
        (joined_bytes k₁ v₁ k₂ v₂)

  -- The cache of certificate verifications does not tell apart what annotations are asked for: two
  -- annotations have the key of a single one, whose value has the second annotation in it, for any
  -- image, certificate, chain and demand of a bundle, so that the cached answer to one request is
  -- given to the other, which is not verified.
  pub cached_for_other_annotations :
      (debug : Debug sdk) (cached : String → Option VerificationResponse) (image : String)
      (certificate : Bytes) (chain : Option (List Bytes)) (rekor : Bool) (k₁ v₁ k₂ v₂ : String)
      (resp : VerificationResponse)
      → cached (
          get_sigstore_certificate_verification_cache_key v image certificate chain rekor
            (some ((k₁, v₁ <> k₂ <> "\n" <> v₂) ∷ [])))
        ≡ some resp
      → get_sigstore_certificate_verification_cached v debug cached image certificate chain rekor
          (some ((k₁, v₁) ∷ (k₂, v₂) ∷ []))
        ≡ some (ok (record { value = resp; was_cached = true }))
  unfolding get_sigstore_certificate_verification_cached
  cached_for_other_annotations debug cached image certificate chain rekor k₁ v₁ k₂ v₂ resp there =
      let key = get_sigstore_certificate_verification_cache_key v image certificate chain rekor in
      let found : cached (key (some ((k₁, v₁) ∷ (k₂, v₂) ∷ []))) ≡ some resp =
        ap cached (sym (same_key image certificate chain rekor k₁ v₁ k₂ v₂)) ∙ there in
      rw (found) refl
