-- ===== src/Rego/Inventory/Opa/Placed.antt =====
-- src/runtimes/rego/opa_inventory.rs: the places of the objects in the inventory.
use policy_evaluator.Prelude.{
  String, Option, none, some, List, [], ◌∷◌, ok, ◌>>=◌, ok_or, is_some, string_eq, if◌then◌else◌,
  ◌≡◌, refl, sym, ◌∙◌, ap, ◌==◌, >>=-eq-ok, Option-cases, Bool-cases, subst, inl, inr,
}
use policy_evaluator.Prelude.Dict.{Dict, get, insert, get-insert}
use policy_evaluator.Metadata.{ContextAwareResource}
use policy_evaluator.Context.{resource_eq}
use policy_evaluator.Rego.{DynamicObject, opa_inventory_missing_plural_name}
use policy_evaluator.Rego.Inventory.Opa.Scope.{
  find_at, IsAt, IsPlacedIn, check_scope-Agrees, new_scope-Agrees, new_scope-IsPlacedIn,
  register_by_scope-IsPlacedIn,
}
use policy_evaluator.Rego.Inventory.Opa.{
  ResourcesByScope, OpaInventory, register_by_scope, check_scope, new_scope, register,
  register_list, register_all, new_inventory,
}

module _ {Data : Type 0} where
  -- what stands below a plural name, at a name in the cluster or in a namespace
  unfoldable pub find :
      OpaInventory Data → String → Option String → String → Option (DynamicObject Data)
  find inventory plural scope name = find_at (get inventory plural) scope name

  abbrev pub IsPlaced : OpaInventory Data → Type 0
  IsPlaced inventory =
      (plural : String) (scope : Option String) (name : String) (obj : DynamicObject Data)
      → find inventory plural scope name ≡ some obj
      → IsAt obj scope name

  there-IsPlacedIn :
      (inventory : OpaInventory Data) (plural : String) (s : ResourcesByScope Data)
      → IsPlaced inventory
      → get inventory plural ≡ some s
      → IsPlacedIn s
  unfolding find
  there-IsPlacedIn inventory plural s old there scope name obj h =
      old plural scope name obj (ap (λ q. find_at q scope name) there ∙ h)

  insert-IsPlaced :
      (inventory : OpaInventory Data) (plural : String) (s : ResourcesByScope Data)
      → IsPlaced inventory
      → IsPlacedIn s
      → IsPlaced (insert inventory plural s)
  unfolding find
  insert-IsPlaced inventory plural s old new p scope name obj h =
      let h' = ap (λ q. find_at q scope name) (sym (get-insert inventory plural p s)) ∙ h in
      elim (Bool-cases (plural == p)) [
        | inl same ↦
            new scope name obj
              (ap (λ b. find_at (if b then some s else get inventory p) scope name) (sym same) ∙ h')
        | inr other ↦
            old p scope name obj (
              ap (λ b. find_at (if b then some s else get inventory p) scope name) (sym other) ∙ h')
      ]

  register-none :
      (inventory : OpaInventory Data) (o : DynamicObject Data) (plural : String)
      → get inventory plural ≡ none
      → register inventory o plural ≡ (
          register_by_scope (new_scope (is_some o.namespace)) o >>= λ next.
          ok (insert inventory plural next))
  unfolding register
  register-none inventory o plural h = rw (h, register) refl

  register-some :
      (inventory : OpaInventory Data) (o : DynamicObject Data) (plural : String)
      (s : ResourcesByScope Data)
      → get inventory plural ≡ some s
      → register inventory o plural ≡ (
          check_scope s (is_some o.namespace) >>= λ _.
          register_by_scope s o >>= λ next. ok (insert inventory plural next))
  unfolding register
  register-some inventory o plural s h = rw (h, register) refl

  register-IsPlaced :
      (inventory next : OpaInventory Data) (o : DynamicObject Data) (plural : String)
      → IsPlaced inventory
      → register inventory o plural ≡ ok next
      → IsPlaced next
  register-IsPlaced inventory next o plural old h = elim (Option-cases (get inventory plural)) [
    | inl first ↦
        let (s, registered, done) =
          >>=-eq-ok (register_by_scope (new_scope (is_some o.namespace)) o)
            (λ x. ok (insert inventory plural x))
            (sym (register-none inventory o plural first) ∙ h) in
        let whole : insert inventory plural s ≡ next = cc in
        subst IsPlaced whole (
          insert-IsPlaced inventory plural s old (
            register_by_scope-IsPlacedIn (new_scope (is_some o.namespace)) s o
              (new_scope-Agrees (new_scope (is_some o.namespace)) o.namespace refl)
              (new_scope-IsPlacedIn (is_some o.namespace)) registered))
    | inr (was, there) ↦
        let (u, checked, rest) =
          >>=-eq-ok (check_scope was (is_some o.namespace))
            (λ _. register_by_scope was o >>= λ x. ok (insert inventory plural x))
            (sym (register-some inventory o plural was there) ∙ h) in
        let (s, registered, done) =
          >>=-eq-ok (register_by_scope was o) (λ x. ok (insert inventory plural x)) rest in
        let whole : insert inventory plural s ≡ next = cc in
        subst IsPlaced whole (
          insert-IsPlaced inventory plural s old (
            register_by_scope-IsPlacedIn was s o (check_scope-Agrees was o.namespace checked)
              (there-IsPlacedIn inventory plural was old there) registered))
  ]

  register_list-IsPlaced :
      (inventory next : OpaInventory Data) (plural : String) (os : List (DynamicObject Data))
      → IsPlaced inventory
      → register_list inventory plural os ≡ ok next
      → IsPlaced next
  unfolding register_list
  register_list-IsPlaced inventory next plural [] old h =
      let same : inventory ≡ next = cc in subst IsPlaced same old
  register_list-IsPlaced inventory next plural (o ∷ os) old h =
      let (one, registered, rest) =
        >>=-eq-ok (register inventory o plural) (λ x. register_list x plural os) h in
      register_list-IsPlaced one next plural os
        (register-IsPlaced inventory one o plural old registered) rest

  module _ (debug : ContextAwareResource → String)
      (plural_names : Dict ContextAwareResource String) where
    register_all-IsPlaced :
        (inventory next : OpaInventory Data)
        (rs : Dict ContextAwareResource (List (DynamicObject Data)))
        → IsPlaced inventory
        → register_all debug plural_names inventory rs ≡ ok next
        → IsPlaced next
    unfolding register_all
    register_all-IsPlaced inventory next [] old h =
        let same : inventory ≡ next = cc in subst IsPlaced same old
    register_all-IsPlaced inventory next ((r, os) ∷ rs) old h =
        let (plural, found, rest) =
          >>=-eq-ok (ok_or (opa_inventory_missing_plural_name (debug r)) (get plural_names r))
            (λ p. register_list inventory p os >>= λ x. register_all debug plural_names x rs) h in
        let (one, registered, others) =
          >>=-eq-ok (register_list inventory plural os) (λ x. register_all debug plural_names x rs)
            rest in
        register_all-IsPlaced one next rs
          (register_list-IsPlaced inventory one plural os old registered) others

    -- An inventory that `OpaInventory::new` builds has an object at a place only if the metadata of
    -- the object has the namespace and the name of that place, no namespace for the cluster.
    pub new_inventory-IsPlaced :
        (rs : Dict ContextAwareResource (List (DynamicObject Data))) (inventory : OpaInventory Data)
        → new_inventory debug plural_names rs ≡ ok inventory
        → IsPlaced inventory
    unfolding new_inventory find get
    new_inventory-IsPlaced rs inventory h =
        register_all-IsPlaced [] inventory rs (λ plural scope name obj found. cc) h
