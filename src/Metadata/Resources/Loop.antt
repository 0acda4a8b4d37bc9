-- ===== src/Metadata/Resources/Loop.antt =====
-- src/policy_metadata.rs: the loop of `validate_resources`: which resources pass, and what the variables hold afterwards.
use mathlib.Core.List.{[], ◌∷◌}
use policy_evaluator.Prelude.{
  ap, ◌∙◌, String, List, Bool, false, Option, none, some, ok, ◌==◌, string_eq, ◌||◌, not,
  if◌then◌else◌, contains, ◌≡◌, ◌≢◌, refl, arith, eq_iff, nat_eq, >>=-eq-ok, Bool-cases, inl, inr,
}
use policy_evaluator.Metadata.Resources.{
  split_once, Scan, start, note_wildcards, scan_parts, scan_one, scan,
}
use policy_evaluator.Metadata.Resources.Accepted.{clash_parts, clash, bare_after, last_bare}

-- the variables after a round that does not fail
abbrev pub next_parts : Scan → String → Option (String × String) → Scan
next_parts s x none = record s { has_resource_without_subresource = not (x == "*") }
next_parts s x (some (res, sub)) = record s {
  resources_with_wildcard_subresources =
      if sub == "*"
      then res ∷ s.resources_with_wildcard_subresources
      else s.resources_with_wildcard_subresources;
  subresources_with_wildcard_resource =
      if res == "*"
      then sub ∷ s.subresources_with_wildcard_resource
      else s.subresources_with_wildcard_resource;
}

pub next : Scan → String → Scan
next s x = next_parts (note_wildcards s x) x (split_once x)

abbrev pub blocked_parts : Scan → Option (String × String) → Bool
blocked_parts s none = false
blocked_parts s (some (res, sub)) =
    contains s.resources_with_wildcard_subresources res
    || contains s.subresources_with_wildcard_resource sub

pub blocked : Scan → String → Bool
blocked s x = blocked_parts s (split_once x)

scan_parts-eq-ok :
    (s : Scan) (x : String) (p : Option (String × String)) (t : Scan)
    → scan_parts s x p ≡ ok t
    → (blocked_parts s p ≡ false) × (t ≡ next_parts s x p)
unfolding scan_parts
scan_parts-eq-ok s x none t h = (refl, ground arith)
scan_parts-eq-ok s x (some (res, sub)) t h = ground arith

scan_parts_of_free :
    (s : Scan) (x : String) (p : Option (String × String))
    → blocked_parts s p ≡ false
    → scan_parts s x p ≡ ok (next_parts s x p)
unfolding scan_parts
scan_parts_of_free s x none h = refl
scan_parts_of_free s x (some (res, sub)) h = ground arith

scan_one-eq-ok :
    (s : Scan) (x : String) (t : Scan)
    → scan_one s x ≡ ok t
    → (x ≢ "") × (blocked s x ≡ false) × (t ≡ next s x)
unfolding scan_one next blocked
scan_one-eq-ok s x t h = elim (Bool-cases (x == "")) [
  | inl empty ↦ ground arith
  | inr full ↦
      let (free, same) = scan_parts-eq-ok (note_wildcards s x) x (split_once x) t (ground arith) in
      (ground (arith, eq_iff x ""), free, same)
]

scan_one_of_free :
    (s : Scan) (x : String) → x ≢ "" → blocked s x ≡ false → scan_one s x ≡ ok (next s x)
unfolding scan_one next blocked
scan_one_of_free s x n h =
    ground (arith, eq_iff x "", scan_parts_of_free (note_wildcards s x) x (split_once x) h)

blocked_parts-next :
    (s : Scan) (x : String) (p q : Option (String × String))
    → blocked_parts (next_parts s x p) q ≡ (blocked_parts s q || clash_parts p q)
unfolding contains
blocked_parts-next s x none none = refl
blocked_parts-next s x none (some (res', sub')) = ground arith
blocked_parts-next s x (some (res, sub)) none = refl
blocked_parts-next s x (some (res, sub)) (some (res', sub')) = ground arith

-- What a round adds to the two sets.
pub blocked-next : (s : Scan) (x y : String) → blocked (next s x) y ≡ (blocked s y || clash x y)
unfolding blocked next
blocked-next s x y = blocked_parts-next (note_wildcards s x) x (split_once x) (split_once y)

blocked_parts-start : (q : Option (String × String)) → blocked_parts start q ≡ false
unfolding contains
blocked_parts-start none = refl
blocked_parts-start (some (res, sub)) = refl

-- Nothing is blocked at first.
pub blocked-start : (x : String) → blocked start x ≡ false
unfolding blocked
blocked-start x = blocked_parts-start (split_once x)

-- The loop goes through if each resource is not empty and not blocked when its round comes.
abbrev pub Fits : Scan → List String → Type 0
Fits s [] = Unit
Fits s (x ∷ xs) = (x ≢ "") × (blocked s x ≡ false) × Fits (next s x) xs

pub run : Scan → List String → Scan
run s [] = s
run s (x ∷ xs) = run (next s x) xs

pub scan-eq-ok :
    (s : Scan) (xs : List String) (t : Scan) → scan s xs ≡ ok t → Fits s xs × (t ≡ run s xs)
unfolding scan run
scan-eq-ok s [] t h = (tt, ground arith)
scan-eq-ok s (x ∷ xs) t h =
    let (s', stepped, rest) = >>=-eq-ok (scan_one s x) (λ s'. scan s' xs) h in
    let (full, free, same) = scan_one-eq-ok s x s' stepped in
    let (fits, end) = scan-eq-ok (next s x) xs t (rw (same) at rest) in ((full, free, fits), end)

pub scan_of_Fits : (s : Scan) (xs : List String) → Fits s xs → scan s xs ≡ ok (run s xs)
unfolding scan run
scan_of_Fits s [] h = refl
scan_of_Fits s (x ∷ xs) (full, free, h) =
    rw (scan_one_of_free s x full free) (scan_of_Fits (next s x) xs h)

module _ (s : Scan) (x : String) where
  next-double :
      (p : Option (String × String))
      → (next_parts s x p).has_double_wildcard ≡ s.has_double_wildcard
  next-double none = refl
  next-double (some (res, sub)) = refl

  next-single :
      (p : Option (String × String))
      → (next_parts s x p).has_single_wildcard ≡ s.has_single_wildcard
  next-single none = refl
  next-single (some (res, sub)) = refl

  next-bare :
      (p : Option (String × String))
      → (next_parts s x p).has_resource_without_subresource
        ≡ bare_after s.has_resource_without_subresource p x
  next-bare none = refl
  next-bare (some (res, sub)) = refl

pub run-double :
    (s : Scan) (xs : List String)
    → (run s xs).has_double_wildcard ≡ (s.has_double_wildcard || contains xs "*/*")
unfolding run next contains
run-double s [] = ground arith
run-double s (x ∷ xs) =
    ground (arith, run-double (next s x) xs, next-double (note_wildcards s x) x (split_once x))

pub run-single :
    (s : Scan) (xs : List String)
    → (run s xs).has_single_wildcard ≡ (s.has_single_wildcard || contains xs "*")
unfolding run next contains
run-single s [] = ground arith
run-single s (x ∷ xs) =
    ground (arith, run-single (next s x) xs, next-single (note_wildcards s x) x (split_once x))

pub run-bare :
    (s : Scan) (xs : List String)
    → (run s xs).has_resource_without_subresource ≡ last_bare s.has_resource_without_subresource xs
unfolding run next
run-bare s [] = refl
run-bare s (x ∷ xs) =
    run-bare (next s x) xs
    ∙ ap (λ b. last_bare b xs) (next-bare (note_wildcards s x) x (split_once x))
