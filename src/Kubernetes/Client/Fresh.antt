-- ===== src/Kubernetes/Client/Fresh.antt =====
-- src/callback_handler/kubernetes/client.rs: what it means that the result of a list of resources
-- has not changed since an instant.
use policy_evaluator.Prelude.{
  ℕ, ◌<◌, String, none, some, Result, ok, err, ◌≡◌, ◌⊎◌, inl, inr, refl, sym, ◌∙◌, ap, subst,
  string_eq, Bool-cases, ◌==◌,
}
use policy_evaluator.Prelude.Dict.{get, get-insert_there, get-insert}
use policy_evaluator.Kubernetes.{ApiVersionKind, api_version_kind_eq, KubeResource, Kube}
use policy_evaluator.Kubernetes.Reflector.{Reflector, announce, applied, apply_pending}
use policy_evaluator.Kubernetes.Client.{Client, register_reflector}
use policy_evaluator.Kubernetes.Client.Interleaving.{
  Step, learn, start, hear, apply_event, Reach, here, next, create_and_run-after,
  apply_pending-instant,
}

module _ (debug : String → String) {kube : Kube} where
  abbrev pub IsKnown : ApiVersionKind → Client kube → Type 0
  IsKnown avk client = (r : KubeResource) × (get client.kube_resources avk ≡ some r)

  Step-IsKnown :
      {since : ℕ} {s t : Client kube} (avk : ApiVersionKind)
      → Step debug since s t
      → IsKnown avk s
      → IsKnown avk t
  Step-IsKnown avk (learn client cluster api_version kind r found) (was, there) =
      get-insert_there client.kube_resources _ avk r was there
  Step-IsKnown avk (start client cluster resource ns ls fs r after made) before = before
  Step-IsKnown avk (hear client id r now item there settled later) before = before
  Step-IsKnown avk (apply_event client id r there) before = before

  pub Reach-IsKnown :
      {since : ℕ} {s t : Client kube} (avk : ApiVersionKind)
      → IsKnown avk s
      → Reach debug since s t
      → IsKnown avk t
  Reach-IsKnown avk before here = before
  Reach-IsKnown avk before (next path step) = Step-IsKnown avk step (Reach-IsKnown avk before path)

  -- The reflector has seen a change after `since`, or it has this store and no event to apply.
  abbrev pub IsHeld : ℕ → kube.Store → Reflector kube → Type 0
  IsHeld since store r = (since < r.last_change_seen_at) ⊎ ((r.reader ≡ store) × (r.pending ≡ none))

  -- the reflector with this identifier
  abbrev pub IsKept : ℕ → String → kube.Store → Client kube → Type 0
  IsKept since id store client =
      (r : Reflector kube) × (get client.reflectors id ≡ some r) × IsHeld since store r

  insert-IsKept :
      (since : ℕ) (id j : String) (store : kube.Store) (client : Client kube) (r : Reflector kube)
      → IsKept since id store client
      → (j ≡ id → IsHeld since store r)
      → IsKept since id store (register_reflector debug client j r)
  insert-IsKept since id j store client r (was, there, kept) new = elim (Bool-cases (j == id)) [
    | inl same ↦ (
      r,
      rw (get-insert client.reflectors j id r, same) refl,
      new ((string_eq.beq_iff j id).0 same),
    )
    | inr apart ↦ (was, rw (get-insert client.reflectors j id r, apart) there, kept)
  ]

  announce-kept :
      (since now : ℕ) (item : Result String kube.Event) (r : Reflector kube) (store : kube.Store)
      → since < now
      → IsHeld since store r
      → IsHeld since store (announce now item r)
  unfolding announce
  announce-kept since now (ok event) r store later before = inl later
  announce-kept since now (err e) r store later before = before

  settled_lem : (r : Reflector kube) → r.pending ≡ none → apply_pending r ≡ r
  unfolding apply_pending
  settled_lem r settled = ap (λ p. applied p r) settled

  apply_pending-kept :
      (since : ℕ) (r : Reflector kube) (store : kube.Store)
      → IsHeld since store r
      → IsHeld since store (apply_pending r)
  apply_pending-kept since r store (inl later) =
      inl (subst (λ t. since < t) (sym (apply_pending-instant r)) later)
  apply_pending-kept since r store (inr (same, settled)) =
      subst (IsHeld since store) (sym (settled_lem r settled)) (inr (same, settled))

  -- a reflector that is found is the one that was kept
  moved :
      {since : ℕ} (id j : String) (store : kube.Store) (client : Client kube)
      (r after : Reflector kube)
      → get client.reflectors j ≡ some r
      → (IsHeld since store r → IsHeld since store after)
      → IsKept since id store client
      → IsKept since id store (register_reflector debug client j after)
  moved {since} id j store client r after there keeps (was, found, kept) =
      insert-IsKept since id j store client after (was, found, kept)
        (λ same.
          let both : some r ≡ some was =
            sym there ∙ ap (λ i. get client.reflectors i) same ∙ found in
          let one : was ≡ r = cc in keeps (subst (IsHeld since store) one kept))

  Step-IsKept :
      {since : ℕ} {s t : Client kube} (id : String) (store : kube.Store)
      → Step debug since s t
      → IsKept since id store s
      → IsKept since id store t
  Step-IsKept id store (learn client cluster api_version kind r found) before = before
  Step-IsKept {since} id store (start client cluster resource ns ls fs r after made) before =
      insert-IsKept since id _ store client r before
        (λ same. inl (create_and_run-after since cluster resource ns ls fs r after made))
  Step-IsKept {since} id store (hear client j r now item there settled later) before =
      moved id j store client r (announce now item r) there
        (announce-kept since now item r store later) before
  Step-IsKept {since} id store (apply_event client j r there) before =
      moved id j store client r (apply_pending r) there (apply_pending-kept since r store) before

  pub Reach-IsKept :
      {since : ℕ} {s t : Client kube} (id : String) (store : kube.Store)
      → IsKept since id store s
      → Reach debug since s t
      → IsKept since id store t
  Reach-IsKept id store before here = before
  Reach-IsKept id store before (next path step) =
      Step-IsKept id store step (Reach-IsKept id store before path)
