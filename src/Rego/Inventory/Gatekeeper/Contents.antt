-- ===== src/Rego/Inventory/Gatekeeper/Contents.antt =====
-- src/runtimes/rego/gatekeeper_inventory.rs: what the inventory of `GatekeeperInventory::new`
-- contains.
use policy_evaluator.Prelude.{
  String, Bool, false, Option, none, some, List, [], ◌∷◌, ◌++◌, Result, ok, err, ◌>>=◌, map, ◌≡◌,
  refl, sym, ◌∙◌, ap, ◌&&◌, if◌then◌else◌, All, In, Option-cases, inl, inr,
}
use policy_evaluator.Prelude.Dict.{Dict, get}
use policy_evaluator.Metadata.{ContextAwareResource}
use policy_evaluator.Rego.{DynamicObject, RegoRuntimeError, gatekeeper_inventory_missing_name}
use policy_evaluator.Rego.Inventory.Gatekeeper.{
  GatekeeperInventory, default_inventory, register, register_list, register_all, new_inventory,
}
use policy_evaluator.Rego.Inventory.Gatekeeper.Lookup.{
  Place, same_scope, same_place, place_of, find, register-named, register-unnamed,
}

abbrev pub Entry : Type 0 → Type 0
Entry Data = ContextAwareResource × DynamicObject Data

abbrev at_place : ContextAwareResource → Option String → Option String → Place → Bool → Bool
at_place r none scope at same = false
at_place r (some n) scope at same = same && same_place (place_of r n) at

module _ {Data : Type 0} where
  -- the objects with the resource for which they are listed, in order
  abbrev pub listed : Dict ContextAwareResource (List (DynamicObject Data)) → List (Entry Data)
  listed [] = []
  listed ((r, objs) ∷ rest) = map (λ o. (r, o)) objs ++ listed rest

  -- whether an object stands at a place
  abbrev pub stands_at : Entry Data → Option String → Place → Bool
  stands_at e scope at = at_place e.0 e.1.name scope at (same_scope e.1.namespace scope)

  -- the last object of a list that stands at a place
  unfoldable pub latest :
      List (Entry Data)
      → Option String
      → Place
      → Option (DynamicObject Data)
      → Option (DynamicObject Data)
  latest [] scope at found = found
  latest (e ∷ es) scope at found =
      latest es scope at (if stands_at e scope at then some e.1 else found)

  abbrev pub IsNamed : Entry Data → Type 0
  IsNamed e = (n : String) × (e.1.name ≡ some n)

  unfoldable register_entries :
      GatekeeperInventory Data
      → List (Entry Data)
      → Result RegoRuntimeError (GatekeeperInventory Data)
  register_entries inventory [] = ok inventory
  register_entries inventory (e ∷ es) = do
    next ← register inventory e.1 e.0
    register_entries next es

  >>=-assoc :
      (m : Result RegoRuntimeError (GatekeeperInventory Data))
      (f g : GatekeeperInventory Data → Result RegoRuntimeError (GatekeeperInventory Data))
      → ((m >>= f) >>= g) ≡ (m >>= λ x. f x >>= g)
  >>=-assoc (ok a) f g = refl
  >>=-assoc (err e) f g = refl

  register_entries-append :
      (inventory : GatekeeperInventory Data) (r : ContextAwareResource)
      (objs : List (DynamicObject Data)) (es : List (Entry Data))
      → register_entries inventory (map (λ o. (r, o)) objs ++ es)
        ≡ (register_list inventory r objs >>= λ next. register_entries next es)
  unfolding register_entries register_list
  register_entries-append inventory r [] es = refl
  register_entries-append inventory r (o ∷ objs) es =
      ap (λ k. register inventory o r >>= k) (λ i next. register_entries-append next r objs es i)
      ∙ sym (>>=-assoc (register inventory o r) _ _)

  register_all-entries :
      (inventory : GatekeeperInventory Data)
      (rs : Dict ContextAwareResource (List (DynamicObject Data)))
      → register_all inventory rs ≡ register_entries inventory (listed rs)
  unfolding register_all register_entries
  register_all-entries inventory [] = refl
  register_all-entries inventory ((r, objs) ∷ rest) =
      ap (λ k. register_list inventory r objs >>= k) (λ i next. register_all-entries next rest i)
      ∙ sym (register_entries-append inventory r objs (listed rest))

  abbrev HasContents :
      GatekeeperInventory Data → List (Entry Data) → GatekeeperInventory Data → Type 0
  HasContents inventory es next =
      (scope : Option String) (at : Place)
      → find next scope at ≡ latest es scope at (find inventory scope at)

  register_entries-named :
      (inventory : GatekeeperInventory Data) (es : List (Entry Data))
      → All IsNamed es
      → (next : GatekeeperInventory Data) × (register_entries inventory es ≡ ok next)
        × HasContents inventory es next
  unfolding register_entries latest
  register_entries-named inventory [] h = (inventory, refl, λ scope at. refl)
  register_entries-named inventory (e ∷ es) ((n, named), rest) =
      let (one, done, is_one) = register-named inventory e.0 e.1 n named in
      let (next, done_rest, contents) = register_entries-named one es rest in
      (
        next,
        ap (λ m. m >>= λ k. register_entries k es) done ∙ done_rest,
        λ scope at.
            contents scope at
            ∙ ap (latest es scope at) (
                is_one scope at
                ∙ ap
                    (λ q.
                      if at_place e.0 q scope at (same_scope e.1.namespace scope)
                      then some e.1
                      else find inventory scope at)
                    (sym named)),
      )

  find-default :
      (scope : Option String) (at : Place) → find {Data = Data} default_inventory scope at ≡ none
  unfolding find get
  find-default none at = refl
  find-default (some s) at = refl

  -- If every listed object has a name, `GatekeeperInventory::new` succeeds, and at each place of
  -- the cluster or of a namespace its inventory has the last listed object that stands there, and
  -- nothing if none does.
  pub new_inventory-latest :
      (rs : Dict ContextAwareResource (List (DynamicObject Data)))
      → All IsNamed (listed rs)
      → (inventory : GatekeeperInventory Data) × (new_inventory rs ≡ ok inventory)
        × ((scope : Option String) (at : Place)
            → find inventory scope at ≡ latest (listed rs) scope at none)
  unfolding new_inventory
  new_inventory-latest rs h =
      let (inventory, done, contents) = register_entries-named default_inventory (listed rs) h in
      (
        inventory,
        register_all-entries default_inventory rs ∙ done,
        λ scope at. contents scope at ∙ ap (latest (listed rs) scope at) (find-default scope at),
      )

  register_entries-err :
      (inventory : GatekeeperInventory Data) (es : List (Entry Data)) (f : RegoRuntimeError)
      → register_entries inventory es ≡ err f
      → (f ≡ gatekeeper_inventory_missing_name) × ((e : Entry Data) × In e es × (e.1.name ≡ none))
  unfolding register_entries
  register_entries-err inventory [] f h = cc
  register_entries-err inventory (e ∷ es) f h = elim (Option-cases e.1.name) [
    | inl unnamed ↦
        let here : err gatekeeper_inventory_missing_name ≡ err f =
          ap (λ m. m >>= λ k. register_entries k es)
            (sym (register-unnamed inventory e.0 e.1 unnamed))
          ∙ h in
        (cc, (e, inl refl, unnamed))
    | inr (n, named) ↦
        let (one, done, is_one) = register-named inventory e.0 e.1 n named in
        let (same, (x, member, unnamed)) =
          register_entries-err one es f
            (ap (λ m. m >>= λ k. register_entries k es) (sym done) ∙ h) in
        (same, (x, inr member, unnamed))
  ]

  -- `GatekeeperInventory::new` fails with one error alone, and only if a listed object has no name.
  new_inventory-err :
      (rs : Dict ContextAwareResource (List (DynamicObject Data))) (f : RegoRuntimeError)
      → new_inventory rs ≡ err f
      → (f ≡ gatekeeper_inventory_missing_name)
        × ((e : Entry Data) × In e (listed rs) × (e.1.name ≡ none))
  unfolding new_inventory
  new_inventory-err rs f h =
      register_entries-err default_inventory (listed rs) f
        (sym (register_all-entries default_inventory rs) ∙ h)
