-- ===== src/Crypto/Tests.antt =====
-- A chain of two certificates of src/callback_handler/crypto.rs, at concrete inputs.
use policy_evaluator.Prelude.{
  ℕ, true, none, some, List, [], ◌∷◌, Result, ok, err, ◌≡◌, ◌↔◌, refl, OkWith, ◌==◌, nat_eq,
  if◌then◌else◌,
}
use policy_evaluator.Prelude.Int.{pos}
use policy_evaluator.Crypto.{
  Certificate, der, CertificateVerificationRequest, CertificateVerificationResponse,
  VerificationError, unknown_issuer, Webpki, get_certificate_der, end_entity_of, from_certificates,
  verify_cert_chain, verify_certificate,
}
use policy_evaluator.Crypto.Trust.{IsVerifiedFor, verify_certificate-trusted}

-- certificates are numbers, and one is verified by a pool whose root is the number 9
abbrev root_is_nine : List ℕ → Result VerificationError Unit
root_is_nine [] = err unknown_issuer
root_is_nine (root ∷ roots) = if root == 9 then ok tt else err unknown_issuer

abbrev first_byte : List ℕ → ℕ
first_byte [] = 0
first_byte (n ∷ ns) = n

abbrev numbers : Webpki
numbers = record {
  CertificateDer = ℕ;
  TrustAnchor = ℕ;
  EndEntityCert = ℕ;
  from_pem_slice = λ bytes. err "no PEM";
  from_slice = first_byte;
  end_entity = λ cert. ok cert;
  anchor_from_trusted_cert = λ cert. ok cert;
  tls_server_roots = [];
  verify_for_usage = λ cert roots intermediates time. root_is_nine roots;
  parse_from_rfc3339 = λ text. none;
}

abbrev der_of : ℕ → Certificate
der_of n = record { encoding = der; contents = n ∷ [] }

abbrev chained : CertificateVerificationRequest
chained = record { cert = der_of 1; cert_chain = some (der_of 4 ∷ der_of 9 ∷ []); not_after = none }

abbrev trusted_by_nine : CertificateVerificationResponse
trusted_by_nine = record { trusted = true; reason = "" }

chained_is_trusted : verify_certificate numbers (pos 5) chained ≡ ok trusted_by_nine
unfolding verify_certificate verify_cert_chain get_certificate_der from_certificates
chained_is_trusted = refl

verify_certificate-trusted_example :
    (trusted_by_nine.trusted ≡ true)
    ↔ OkWith (get_certificate_der numbers (der_of 1)) (λ cert_der.
      OkWith (end_entity_of numbers cert_der) (IsVerifiedFor numbers (pos 5) chained))
verify_certificate-trusted_example =
    verify_certificate-trusted numbers (pos 5) chained trusted_by_nine chained_is_trusted
