-- ===== src/Rego/Inventory.antt =====
-- src/runtimes/rego: what the two inventories of Kubernetes objects share.
pub mod Gatekeeper
pub mod Opa
use policy_evaluator.Prelude.{
  Option, none, some, List, [], Result, ok, err, ◌>>=◌, ◌≡◌, refl, Eq, ◌==◌, if◌then◌else◌, arith,
}
use policy_evaluator.Prelude.Dict.{Dict, get, insert, get-insert}

module _ {K V : Type 0} where
  abbrev pub or_default : Option (Dict K V) → Dict K V
  or_default none = []
  or_default (some m) = m

module _ {K J V : Type 0} ⦃e : Eq K⦄ where
  -- `entry(k).or_default()` and a registration in what it gives
  abbrev pub in_entry :
      {E : Type 0}
      → Dict K (Dict J V)
      → K
      → (Dict J V → Result E (Dict J V))
      → Result E (Dict K (Dict J V))
  in_entry m k f = do v ← f (or_default (get m k)); ok (insert m k v)

  pub or_default-insert :
      (m : Dict K (Dict J V)) (k j : K) (v : Dict J V)
      → or_default (get (insert m k v) j) ≡ (if k == j then v else or_default (get m j))
  or_default-insert m k j v = ground (arith, get-insert m k j v)
