-- ===== src/Prelude/Dict.antt =====
-- `HashMap` and `BTreeMap`: association lists with one entry for a key. The order of the entries
-- stands for the order in which the program's map is walked.
use mathlib.Core.Path.{◌≡◌, refl, sym, ◌∙◌, subst}
use mathlib.Core.Logic.{inl, inr}
use mathlib.Core.Option.{Option, none, some}
use mathlib.Core.List.{List, [], ◌∷◌, map}
use native.Mathlib.Omega.{arith}
use policy_evaluator.Prelude.Tests.{Bool-cases, Eq, ◌==◌, if◌then◌else◌}

abbrev pub Dict : Type 0 → Type 0 → Type 0
Dict K V = List (K × V)

module _ {K V : Type 0} where
  abbrev pub keys : Dict K V → List K
  keys m = map (λ e. e.0) m

module _ {K V : Type 0} ⦃e : Eq K⦄ where
  unfoldable pub get : Dict K V → K → Option V
  get [] k = none
  get ((j, v) ∷ m) k = if j == k then some v else get m k

  unfoldable pub insert : Dict K V → K → V → Dict K V
  insert [] k v = (k, v) ∷ []
  insert ((j, w) ∷ m) k v = if j == k then (j, v) ∷ m else (j, w) ∷ insert m k v

  pub get-insert :
      (m : Dict K V) (k j : K) (v : V) → get (insert m k v) j ≡ (if k == j then some v else get m j)
  unfolding get insert
  get-insert [] k j v = refl
  get-insert ((i, w) ∷ m) k j v =
      ground (arith, e.beq_iff k j, e.beq_iff i k, e.beq_iff i j, get-insert m k j v)

  pub get-insert_same : (m : Dict K V) (k : K) (v : V) → get (insert m k v) k ≡ some v
  get-insert_same m k v = rw (get-insert m k k v, (e.beq_iff k k).1 refl) refl

  -- a key that is there stays there
  pub get-insert_there :
      (m : Dict K V) (k j : K) (v w : V)
      → get m j ≡ some w
      → (u : V) × (get (insert m k v) j ≡ some u)
  get-insert_there m k j v w there = elim (Bool-cases (k == j)) [
    | inl same ↦ (v, rw (get-insert m k j v, same) refl)
    | inr apart ↦ (w, rw (get-insert m k j v, apart) there)
  ]

  -- what holds of every entry and of the new one holds of every entry after the insertion
  pub get-insert_every :
      (P : K → V → Type 0) (m : Dict K V) (k : K) (v : V)
      → ((j : K) (w : V) → get m j ≡ some w → P j w)
      → P k v
      → (j : K) (w : V) → get (insert m k v) j ≡ some w
      → P j w
  get-insert_every P m k v before new j w there = elim (Bool-cases (k == j)) [
    | inl same ↦
        let picked : get (insert m k v) j ≡ some v = rw (get-insert m k j v, same) refl in
        let found : some v ≡ some w = sym picked ∙ there in
        let value : v ≡ w = cc in
        let key : k ≡ j = (e.beq_iff k j).0 same in
        subst (λ u. P j u) value (subst (λ i. P i v) key new)
    | inr apart ↦
        let picked : get (insert m k v) j ≡ get m j = rw (get-insert m k j v, apart) refl in
        before j w (sym picked ∙ there)
  ]
