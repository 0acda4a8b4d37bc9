-- ===== src/Metadata/Resources/Laws.antt =====
-- src/policy_metadata.rs: `validate_resources` and the description of the lists it accepts.
use mathlib.Core.List.{[], ◌∷◌}
use policy_evaluator.Prelude.{
  String, List, false, ok, string_eq, ◌≡◌, ◌≢◌, ◌↔◌, arith, All, nat_eq, >>=-eq-ok,
}
use policy_evaluator.Metadata.Resources.{Scan, start, scan, scan_end, validate_resources}
use policy_evaluator.Metadata.Resources.Accepted.{clash, AllPairs, IsAccepted}
use policy_evaluator.Metadata.Resources.Loop.{
  next, blocked, blocked-start, blocked-next, Fits, scan-eq-ok, scan_of_Fits, run-double,
  run-single, run-bare,
}

All-blocked-start : (xs : List String) → All (λ x. blocked start x ≡ false) xs
All-blocked-start [] = tt
All-blocked-start (x ∷ xs) = (blocked-start x, All-blocked-start xs)

All-blocked-next :
    (s : Scan) (x : String) (ys : List String)
    → All (λ y. blocked s y ≡ false) ys
    → All (λ y. clash x y ≡ false) ys
    → All (λ y. blocked (next s x) y ≡ false) ys
All-blocked-next s x [] h k = tt
All-blocked-next s x (y ∷ ys) h k =
    (ground (arith, blocked-next s x y), All-blocked-next s x ys h.1 k.1)

All-blocked_parts :
    (s : Scan) (x : String) (ys : List String)
    → All (λ y. blocked (next s x) y ≡ false) ys
    → All (λ y. blocked s y ≡ false) ys × All (λ y. clash x y ≡ false) ys
All-blocked_parts s x [] h = (tt, tt)
All-blocked_parts s x (y ∷ ys) h =
    let (b, c) = All-blocked_parts s x ys h.1 in
    ((ground (arith, blocked-next s x y), b), (ground (arith, blocked-next s x y), c))

Fits-of_parts :
    (s : Scan) (xs : List String)
    → All (λ x. x ≢ "") xs
    → All (λ x. blocked s x ≡ false) xs
    → AllPairs (λ x y. clash x y ≡ false) xs
    → Fits s xs
Fits-of_parts s [] n b p = tt
Fits-of_parts s (x ∷ xs) n b p =
    (n.0, b.0, Fits-of_parts (next s x) xs n.1 (All-blocked-next s x xs b.1 p.0) p.1)

parts_of_Fits :
    (s : Scan) (xs : List String)
    → Fits s xs
    → All (λ x. x ≢ "") xs
      × All (λ x. blocked s x ≡ false) xs
      × AllPairs (λ x y. clash x y ≡ false) xs
parts_of_Fits s [] h = (tt, tt, tt)
parts_of_Fits s (x ∷ xs) (full, free, h) =
    let (n, b, p) = parts_of_Fits (next s x) xs h in
    let (b', c) = All-blocked_parts s x xs b in ((full, n), (free, b'), (c, p))

validate_resources_sound :
    (resources : List String) → validate_resources resources ≡ ok tt → IsAccepted resources
unfolding validate_resources scan_end
validate_resources_sound resources h =
    let (t, scanned, ended) = >>=-eq-ok (scan start resources) (scan_end resources) h in
    let (fits, same) = scan-eq-ok start resources t scanned in
    let (n, b, p) = parts_of_Fits start resources fits in
    record {
      nonempty = n;
      compatible = p;
      alone = ground (arith, run-double start resources);
      unmixed = ground (arith, run-single start resources, run-bare start resources);
    }

validate_resources_complete :
    (resources : List String) → IsAccepted resources → validate_resources resources ≡ ok tt
unfolding validate_resources scan_end
validate_resources_complete resources a =
    rw
      (scan_of_Fits start resources
        (Fits-of_parts start resources a.nonempty (All-blocked-start resources) a.compatible))
      (ground
        (arith, run-double start resources, run-single start resources, run-bare start resources))

-- The check passes exactly the lists that are accepted: no resource is empty; none clashes with an
-- earlier one (`x/y` after `x/*` or after `*/y`); `*/*` stands alone; and with `*` in the list, the
-- last resource without a slash is `*`.
pub validate_resources_iff :
    (resources : List String) → (validate_resources resources ≡ ok tt) ↔ IsAccepted resources
validate_resources_iff resources =
    (validate_resources_sound resources, validate_resources_complete resources)
