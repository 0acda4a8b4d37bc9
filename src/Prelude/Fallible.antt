-- ===== src/Prelude/Fallible.antt =====
-- Rust's `Result`, with `?` as the bind of a `do` block.
use mathlib.Core.Path.{◌≡◌, refl, sym, ap, subst}
use mathlib.Core.Logic.{◌≢◌, ◌↔◌, ◌⊎◌, inl, inr}
use mathlib.Core.Option.{Option, none, some}

pub data Result {ℓ} (E A : Type ℓ) : Type ℓ where
  ok : A → Result E A
  err : E → Result E A

module _ {ℓ} {E A B : Type ℓ} where
  infixl 5 ◌>>=◌ ◌>>◌
  abbrev pub ◌>>=◌ : Result E A → (A → Result E B) → Result E B
  ok a >>= f = f a
  err e >>= f = err e

  abbrev pub ◌>>◌ : Result E A → Result E B → Result E B
  m >> k = m >>= λ _. k

  -- Inversion of a successful bind.
  pub >>=-eq-ok :
      (r : Result E A) (k : A → Result E B) {y : B}
      → (r >>= k) ≡ ok y
      → (x : A) × (r ≡ ok x) × (k x ≡ ok y)
  >>=-eq-ok (err e) k done = cc
  >>=-eq-ok (ok x) k done = (x, refl, done)

  -- A bind does not fail in a way in which neither part does.
  pub >>=-ne-err :
      (r : Result E A) (k : A → Result E B) (e : E)
      → r ≢ err e
      → ((a : A) → r ≡ ok a → k a ≢ err e)
      → (r >>= k) ≢ err e
  >>=-ne-err (ok a) k e first rest = rest a refl
  >>=-ne-err (err d) k e first rest =
      λ h. let same : d ≡ e = cc in first (ap {B = Result E A} (λ q. err q) same)

module _ {ℓ} {E F A : Type ℓ} where
  abbrev pub map_err : (E → F) → Result E A → Result F A
  map_err f (ok a) = ok a
  map_err f (err e) = err (f e)

  pub map_err-eq-ok : (f : E → F) (r : Result E A) (a : A) → map_err f r ≡ ok a → r ≡ ok a
  map_err-eq-ok f (ok x) a h = let same : x ≡ a = cc in ap {B = Result E A} (λ q. ok q) same
  map_err-eq-ok f (err e) a h = cc

-- `Option::and_then`
abbrev pub and_then {ℓ} : {A B : Type ℓ} → Option A → (A → Option B) → Option B
and_then none f = none
and_then (some a) f = f a

pub and_then-eq-none :
    {A B : Type 0} (o : Option A) (f : A → B) → and_then o (λ a. some (f a)) ≡ none → o ≡ none
and_then-eq-none none f h = refl
and_then-eq-none (some a) f h = cc

pub some_injective : {A : Type 0} {x y : A} → some x ≡ some y → x ≡ y
some_injective h = cc

module _ {ℓ} {E A : Type ℓ} where
  abbrev pub unwrap_or_else : (E → A) → Result E A → A
  unwrap_or_else f (ok a) = a
  unwrap_or_else f (err e) = f e

  abbrev pub ok_or : E → Option A → Result E A
  ok_or e none = err e
  ok_or e (some a) = ok a

  pub ok_or-eq-ok : (e : E) (o : Option A) (a : A) → ok_or e o ≡ ok a → o ≡ some a
  ok_or-eq-ok e none a h = cc
  ok_or-eq-ok e (some x) a h = let same : x ≡ a = cc in ap {B = Option A} (λ q. some q) same

  pub ok_or-eq-err : (e : E) (o : Option A) → ok_or e o ≡ err e → o ≡ none
  ok_or-eq-err e none h = refl
  ok_or-eq-err e (some a) h = cc

  pub ok_injective : {x y : A} → ◌≡◌ {A = Result E A} (ok x) (ok y) → x ≡ y
  ok_injective h = cc

  -- what holds of a result that is there
  abbrev pub OkWith : Result E A → (A → Type ℓ) → Type ℓ
  OkWith r P = (a : A) × (r ≡ ok a) × P a

  pub OkWith-ok : (P : A → Type ℓ) (x : A) → OkWith (ok x) P ↔ P x
  OkWith-ok P x = ((λ (a, same, p). subst P (sym (ok_injective same)) p), λ p. (x, refl, p))

  pub OkWith-err : (P : A → Type ℓ) (e : E) → ¬ OkWith (err e) P
  OkWith-err P e (a, same, p) = cc

  pub Result-cases : (r : Result E A) → ((a : A) × (r ≡ ok a)) ⊎ ((e : E) × (r ≡ err e))
  Result-cases (ok a) = inl (a, refl)
  Result-cases (err e) = inr (e, refl)

module _ {ℓ} {E A B : Type ℓ} where
  -- What decides a fact where the second part of a bind gives its result, decides it for the bind.
  pub >>=-iff :
      (r : Result E A) (k : A → Result E B) {y : B} (P : Type ℓ) (Q : A → Type ℓ)
      → (r >>= k) ≡ ok y
      → ((a : A) → r ≡ ok a → k a ≡ ok y → P ↔ Q a)
      → P ↔ OkWith r Q
  >>=-iff (err e) k P Q done decide = cc
  >>=-iff (ok x) k P Q done decide =
      let decided = decide x refl done in
      let there = OkWith-ok Q x in ((λ p. there.1 (decided.0 p)), λ q. decided.1 (there.0 q))
