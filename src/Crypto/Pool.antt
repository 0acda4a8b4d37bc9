-- ===== src/Crypto/Pool.antt =====
-- src/callback_handler/crypto.rs: what is a root and what is an intermediate certificate.
use policy_evaluator.Prelude.{
  ℕ, zero, suc, ◌≡◌, refl, sym, ◌∙◌, ap, Option, none, some, List, [], ◌∷◌, ◌++◌, length, arith,
  length-append, append_assoc, append-nil, ok, >>=-eq-ok, ok_injective, ◌⊎◌, inl, inr,
}
use policy_evaluator.Crypto.{
  Certificate, Webpki, CertificatePool, pop, push_popped, collect_ders, pool_from,
  from_certificates, from_webpki_roots, cert_pool,
}

module _ {A : Type 0} where
  -- the elements from the last to the first
  abbrev pub backwards : List A → List A
  backwards [] = []
  backwards (x ∷ xs) = backwards xs ++ (x ∷ [])

  backwards-append : (xs : List A) (x : A) → backwards (xs ++ (x ∷ [])) ≡ x ∷ backwards xs
  backwards-append [] x = refl
  backwards-append (y ∷ xs) x = rw (backwards-append xs x) refl

  pop-append : (xs : List A) (x : A) → pop (xs ++ (x ∷ [])) ≡ some (x, xs)
  pop-append [] x = refl
  pop-append (y ∷ xs) x = rw (pop-append xs x) refl

  -- what `pop` takes off stands at the end
  pub pop_cases :
      (xs : List A)
      → ((xs ≡ []) × (pop xs ≡ none))
        ⊎ ((last : A) × (front : List A) × (xs ≡ front ++ (last ∷ []))
            × (pop xs ≡ some (last, front)))
  pop_cases [] = inl (refl, refl)
  pop_cases (x ∷ xs) = elim (pop_cases xs) [
    | inl (empty, popped) ↦ inr (x, [], ap {B = List A} (λ q. x ∷ q) empty, rw popped refl)
    | inr (last, front, split, popped) ↦
        inr (last, x ∷ front, ap {B = List A} (λ q. x ∷ q) split, rw popped refl)
  ]

  -- With a round for each element the loop pushes all of them, the last one first.
  pub push_popped-backwards :
      (n : ℕ) (xs pushed : List A)
      → length xs ≡ n
      → push_popped n xs pushed ≡ pushed ++ backwards xs
  push_popped-backwards zero [] pushed h = sym (append-nil pushed)
  push_popped-backwards zero (x ∷ xs) pushed h = absurd (omega arith)
  push_popped-backwards (suc n) xs pushed h = elim (pop_cases xs) [
    | inl (empty, popped) ↦ absurd (omega (arith, ap (λ q. length q) empty))
    | inr (last, front, split, popped) ↦
        let count = ap (λ q. length q) split ∙ length-append front (last ∷ []) in
        rw (popped, push_popped)
          (push_popped-backwards n front (pushed ++ (last ∷ [])) (omega arith)
            ∙ append_assoc pushed (last ∷ []) (backwards front)
            ∙ ap (λ q. pushed ++ q)
                (sym (backwards-append front last) ∙ ap (λ q. backwards q) (sym split)))
  ]

module _ (w : Webpki) where
  -- the pool of a chain: its last certificate is the root, the others are the intermediates, from
  -- the one below the root downwards
  abbrev pub IsRooted : List w.CertificateDer → CertificatePool w → Type 0
  IsRooted ders pool =
      ((ders ≡ []) × (pool.trusted_roots ≡ []) × (pool.intermediates ≡ []))
      ⊎ ((front : List w.CertificateDer) × (root : w.CertificateDer) × (anchor : w.TrustAnchor)
          × (ders ≡ front ++ (root ∷ []))
          × (w.anchor_from_trusted_cert root ≡ ok anchor)
          × (pool.trusted_roots ≡ anchor ∷ [])
          × (pool.intermediates ≡ backwards front))

  -- the pool that a request is checked against
  abbrev pub IsPoolOf : Option (List Certificate) → CertificatePool w → Type 0
  IsPoolOf none pool = (pool.trusted_roots ≡ w.tls_server_roots) × (pool.intermediates ≡ [])
  IsPoolOf (some chain) pool =
      (ders : List w.CertificateDer) × (collect_ders w chain ≡ ok ders) × IsRooted ders pool

  pool_from-IsRooted :
      (ders : List w.CertificateDer) (pool : CertificatePool w)
      → pool_from w (pop ders) ≡ ok pool
      → IsRooted ders pool
  pool_from-IsRooted ders pool h = elim (pop_cases ders) [
    | inl (empty, popped) ↦
        let same = ok_injective (ap (pool_from w) (sym popped) ∙ h) in
        inl (empty, ap (λ q. q.trusted_roots) (sym same), ap (λ q. q.intermediates) (sym same))
    | inr (root, front, split, popped) ↦
        let (anchor, anchored, rest) =
          >>=-eq-ok (w.anchor_from_trusted_cert root)
            (λ a. ok (record {
              trusted_roots = a ∷ [];
              intermediates = push_popped (length front) front [];
            }))
            (ap (pool_from w) (sym popped) ∙ h) in
        let same = ok_injective rest in
        inr (
          front,
          root,
          anchor,
          split,
          anchored,
          ap (λ q. q.trusted_roots) (sym same),
          ap (λ q. q.intermediates) (sym same) ∙ push_popped-backwards (length front) front [] refl,
        )
  ]

  pub cert_pool-IsPoolOf :
      (chain : Option (List Certificate)) (pool : CertificatePool w)
      → cert_pool w chain ≡ ok pool
      → IsPoolOf chain pool
  unfolding from_certificates from_webpki_roots
  cert_pool-IsPoolOf none pool h =
      let same = ok_injective h in
      (ap (λ q. q.trusted_roots) (sym same), ap (λ q. q.intermediates) (sym same))
  cert_pool-IsPoolOf (some chain) pool h =
      let (ders, decoded, rest) = >>=-eq-ok (collect_ders w chain) (λ ds. pool_from w (pop ds)) h in
      (ders, decoded, pool_from-IsRooted ders pool rest)
