-- ===== src/Crypto/Trust.antt =====
-- src/callback_handler/crypto.rs: when a certificate is trusted.
use policy_evaluator.Prelude.{
  ℕ, true, String, Option, none, some, ok_or, ◌>>=◌, List, Result, ok, err, ◌≡◌, ◌↔◌, refl, ap, sym,
  ◌∙◌, ok_injective, OkWith, >>=-iff,
}
use policy_evaluator.Prelude.Int.{ℤ, as_u64}
use policy_evaluator.Crypto.{
  Certificate, CertificateVerificationRequest, CertificateVerificationResponse, VerificationError,
  invalid_signature_for_public_key, cert_expired, cert_not_valid_yet, unknown_issuer, other, Webpki,
  get_certificate_der, cert_pool, response_for, verify_cert_chain, verification_time, end_entity_of,
  verify_certificate,
}
use policy_evaluator.Crypto.Pool.{IsPoolOf, cert_pool-IsPoolOf}

module _ (w : Webpki) where
  response_for-trusted :
      (r : Result VerificationError Unit) → ((response_for w r).trusted ≡ true) ↔ (r ≡ ok tt)
  response_for-trusted (ok verified) = ((λ h. refl), λ h. refl)
  response_for-trusted (err invalid_signature_for_public_key) = ((λ h. cc), λ h. cc)
  response_for-trusted (err cert_expired) = ((λ h. cc), λ h. cc)
  response_for-trusted (err cert_not_valid_yet) = ((λ h. cc), λ h. cc)
  response_for-trusted (err unknown_issuer) = ((λ h. cc), λ h. cc)
  response_for-trusted (err (other e)) = ((λ h. cc), λ h. cc)

  -- a chain against whose pool the certificate is verified
  abbrev pub IsVerified : Option (List Certificate) → w.EndEntityCert → ℕ → Type 0
  IsVerified chain certificate time = OkWith (cert_pool w chain) (λ pool.
      IsPoolOf w chain pool
      × (w.verify_for_usage certificate pool.trusted_roots pool.intermediates time ≡ ok tt))

  -- the seconds since the epoch at which a certificate is verified: those of the request, or else now
  abbrev pub IsVerificationTime : ℤ → Option String → ℕ → Type 0
  IsVerificationTime now none time = time ≡ as_u64 now
  IsVerificationTime now (some not_after) time =
      (seconds : ℤ) × (w.parse_from_rfc3339 not_after ≡ some seconds) × (time ≡ as_u64 seconds)

  abbrev time_from : Option ℤ → Result String ℕ
  time_from r = do
    timestamp ← ok_or "Timestamp not_after is not in RFC3339 format" r
    ok (as_u64 timestamp)

  verification_time_lem :
      (now : ℤ) (not_after : Option String) (time : ℕ)
      → (verification_time w now not_after ≡ ok time) ↔ IsVerificationTime now not_after time
  verification_time_lem now none time = ((λ h. sym (ok_injective h)), λ h. ap ok (sym h))
  verification_time_lem now (some not_after) time = parsed (w.parse_from_rfc3339 not_after)
    where
      parsed :
          (r : Option ℤ)
          → (time_from r ≡ ok time) ↔ ((seconds : ℤ) × (r ≡ some seconds) × (time ≡ as_u64 seconds))
      parsed none = ((λ h. cc), λ (seconds, h, e). cc)
      parsed (some t) = (
        (λ h. (t, refl, sym (ok_injective h))),
        λ (seconds, h, e).
            let same : t ≡ seconds = cc in ap (λ q. ok (as_u64 q)) same ∙ ap ok (sym e),
      )

  -- the time and the chain of a request, for a certificate
  abbrev pub IsVerifiedFor : ℤ → CertificateVerificationRequest → w.EndEntityCert → Type 0
  IsVerifiedFor now req certificate =
      (time : ℕ) × IsVerificationTime now req.not_after time
      × IsVerified req.cert_chain certificate time

  -- When `verify_certificate` answers, the certificate is trusted exactly if it was decoded as the
  -- certificate of an end entity and verified against the pool of its chain, at the time that the
  -- request has in the format of RFC 3339, or now if it has none, both cast to seconds in a `u64`.
  -- The pool has the last certificate of the chain as its only root and the others as intermediates,
  -- or, without a chain, the roots of the web and no intermediates.
  pub verify_certificate-trusted :
      (now : ℤ) (req : CertificateVerificationRequest) (response : CertificateVerificationResponse)
      → verify_certificate w now req ≡ ok response
      → (response.trusted ≡ true)
        ↔ OkWith
            (get_certificate_der w req.cert)
            (λ cert_der. OkWith (end_entity_of w cert_der) (IsVerifiedFor now req))
  unfolding verify_certificate verify_cert_chain
  verify_certificate-trusted now req response h =
      >>=-iff (get_certificate_der w req.cert) _ (response.trusted ≡ true) _ h λ cert_der _ h₁.
        >>=-iff (end_entity_of w cert_der) _ (response.trusted ≡ true) _ h₁ λ certificate _ h₂.
          let timed =
            >>=-iff (verification_time w now req.not_after) _ (response.trusted ≡ true)
              (λ time. IsVerified req.cert_chain certificate time) h₂
              λ time _ h₃.
                >>=-iff (cert_pool w req.cert_chain) _ (response.trusted ≡ true) _ h₃
                  λ pool made h₄.
                    let verdict =
                      response_for-trusted (
                        w.verify_for_usage certificate pool.trusted_roots pool.intermediates
                          time) in
                    let same = ap (λ q. q.trusted) (ok_injective h₄) in
                    (
                      (λ trusted. (
                        cert_pool-IsPoolOf w req.cert_chain pool made,
                        verdict.0 (same ∙ trusted),
                      )),
                      λ (is_pool, verified). sym same ∙ verdict.1 verified,
                    ) in
          (
            (λ trusted.
                let (time, is_time, verified) = timed.0 trusted in
                (time, (verification_time_lem now req.not_after time).0 is_time, verified)),
            λ (time, is_time, verified).
                timed.1 (time, (verification_time_lem now req.not_after time).1 is_time, verified),
          )
