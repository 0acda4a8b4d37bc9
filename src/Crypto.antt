-- ===== src/Crypto.antt =====
-- src/callback_handler/crypto.rs: the check of a certificate against a chain of trust.
pub mod Pool
pub mod Trust
mod Tests
use policy_evaluator.Prelude.{
  ℕ, zero, suc, String, Bool, true, false, Option, none, some, List, [], ◌∷◌, ◌++◌, Result, ok, err,
  ◌>>=◌, map_err, ok_or, ◌<>◌, length,
}
use policy_evaluator.Prelude.Int.{ℤ, as_u64}
use policy_evaluator.Callback.Requests.{Bytes}

-- `Certificate` and the two structures of `crypto_v1`, of the policy SDK
pub data CertificateEncoding : Type 0 where
  pem der : CertificateEncoding

pub record Certificate : Type 0 where
  pub encoding : CertificateEncoding
  pub contents : Bytes

pub record CertificateVerificationRequest : Type 0 where
  pub cert : Certificate
  pub cert_chain : Option (List Certificate)
  pub not_after : Option String

pub record CertificateVerificationResponse : Type 0 where
  pub trusted : Bool
  pub reason : String

-- the cases of `webpki::Error` that the code tells apart, the others with their text
pub data VerificationError : Type 0 where
  invalid_signature_for_public_key cert_expired cert_not_valid_yet : VerificationError
  unknown_issuer : VerificationError
  other : String → VerificationError

-- What the code uses of pki_types, of webpki, of webpki_roots and of chrono.
pub record Webpki : Type 1 where
  pub CertificateDer : Type 0
  pub TrustAnchor : Type 0
  pub EndEntityCert : Type 0
  pub from_pem_slice : Bytes → Result String CertificateDer
  pub from_slice : Bytes → CertificateDer
  pub end_entity : CertificateDer → Result String EndEntityCert
  pub anchor_from_trusted_cert : CertificateDer → Result String TrustAnchor
  pub tls_server_roots : List TrustAnchor
  -- `verify_for_usage` with all algorithms and any usage of the key, at the seconds since the epoch
  pub verify_for_usage :
      EndEntityCert → List TrustAnchor → List CertificateDer → ℕ → Result VerificationError Unit
  -- the seconds since the epoch of a time in the format of RFC 3339, in UTC
  pub parse_from_rfc3339 : String → Option ℤ

abbrev pub certificate_used_after_expiration : String
certificate_used_after_expiration = "Certificate is being used after its expiration date"

abbrev pub certificate_used_before_validity : String
certificate_used_before_validity = "Certificate is being used before its validity date"

abbrev pub certificate_not_trusted_by_chain : String
certificate_not_trusted_by_chain = "Certificate is not trusted by the provided cert chain"

-- `Vec::pop`: the last element, and the others
abbrev popped : {A : Type 0} → A → Option (A × List A) → Option (A × List A)
popped x none = some (x, [])
popped x (some (last, front)) = some (last, x ∷ front)

abbrev pub pop : {A : Type 0} → List A → Option (A × List A)
pop [] = none
pop (x ∷ xs) = popped x (pop xs)

-- the loop that pops all elements and pushes them to `pushed`, with a round for each of them
abbrev pub push_popped : {A : Type 0} → ℕ → List A → List A → List A
push_popped zero xs pushed = pushed
push_popped (suc n) xs pushed = elim (pop xs) [
  | none ↦ pushed
  | some (last, front) ↦ push_popped n front (pushed ++ (last ∷ []))
]

module _ (w : Webpki) where
  unfoldable pub get_certificate_der : Certificate → Result String w.CertificateDer
  get_certificate_der cert = elim cert.encoding [
    | pem ↦
        map_err (λ e. "Certificate PEM data is not valid: " <> e) (w.from_pem_slice cert.contents)
    | der ↦ ok (w.from_slice cert.contents)
  ]

  pub record CertificatePool : Type 0 where
    pub trusted_roots : List w.TrustAnchor
    pub intermediates : List w.CertificateDer

  -- `collect` of the results
  abbrev pub collect_ders : List Certificate → Result String (List w.CertificateDer)
  collect_ders [] = ok []
  collect_ders (c ∷ cs) = do
    cert_der ← get_certificate_der c
    rest ← collect_ders cs
    ok (cert_der ∷ rest)

  -- the root is what `pop` gives, and the loop takes the rest
  abbrev pub pool_from :
      Option (w.CertificateDer × List w.CertificateDer) → Result String CertificatePool
  pool_from none = ok (record { trusted_roots = []; intermediates = [] })
  pool_from (some (root_cert, rest)) = do
    anchor ← w.anchor_from_trusted_cert root_cert
    ok (record { trusted_roots = anchor ∷ []; intermediates = push_popped (length rest) rest [] })

  -- `CertificatePool::from_certificates`
  unfoldable pub from_certificates : List Certificate → Result String CertificatePool
  from_certificates certs = do certs_der ← collect_ders certs; pool_from (pop certs_der)

  -- `CertificatePool::from_webpki_roots`
  unfoldable pub from_webpki_roots : Result String CertificatePool
  from_webpki_roots = ok (record { trusted_roots = w.tls_server_roots; intermediates = [] })

  -- the pool of `verify_cert_chain`
  abbrev pub cert_pool : Option (List Certificate) → Result String CertificatePool
  cert_pool none = from_webpki_roots
  cert_pool (some chain) = from_certificates chain

  abbrev untrusted : String → CertificateVerificationResponse
  untrusted reason = record { trusted = false; reason = reason }

  -- the answer for a result of the verification
  abbrev pub response_for : Result VerificationError Unit → CertificateVerificationResponse
  response_for (ok verified) = record { trusted = true; reason = "" }
  response_for (err invalid_signature_for_public_key) = untrusted certificate_not_trusted_by_chain
  response_for (err cert_expired) = untrusted certificate_used_after_expiration
  response_for (err cert_not_valid_yet) = untrusted certificate_used_before_validity
  response_for (err unknown_issuer) = untrusted certificate_not_trusted_by_chain
  response_for (err (other e)) = untrusted ("Certificate not trusted: " <> e)

  -- `verify_cert_chain`; the answer is never cached
  unfoldable pub verify_cert_chain :
      Option (List Certificate)
      → w.EndEntityCert
      → ℕ
      → Result String CertificateVerificationResponse
  verify_cert_chain cert_chain end_entity_certificate verification_time = do
    pool ← cert_pool cert_chain
    ok (
        response_for (
          w.verify_for_usage end_entity_certificate pool.trusted_roots pool.intermediates
            verification_time))

  -- the time of the verification, at the instant `now`
  abbrev pub verification_time : ℤ → Option String → Result String ℕ
  verification_time now none = ok (as_u64 now)
  verification_time now (some not_after) = do
    timestamp ←
        ok_or "Timestamp not_after is not in RFC3339 format" (w.parse_from_rfc3339 not_after)
    ok (as_u64 timestamp)

  abbrev pub end_entity_of : w.CertificateDer → Result String w.EndEntityCert
  end_entity_of cert_der =
      map_err (λ e. "Certificate is not a valid end-entity certificate: " <> e)
        (w.end_entity cert_der)

  -- `verify_certificate`
  unfoldable pub verify_certificate :
      ℤ → CertificateVerificationRequest → Result String CertificateVerificationResponse
  verify_certificate now req = do
    cert_der ← get_certificate_der req.cert
    end_entity_certificate ← end_entity_of cert_der
    time ← verification_time now req.not_after
    verify_cert_chain req.cert_chain end_entity_certificate time
