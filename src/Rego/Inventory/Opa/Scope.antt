-- ===== src/Rego/Inventory/Opa/Scope.antt =====
-- src/runtimes/rego/opa_inventory.rs: one scope of the inventory.
use policy_evaluator.Prelude.{
  ◌⊎◌, String, Bool, true, false, Option, none, some, ok, err, is_some, string_eq, if◌then◌else◌,
  ◌≡◌, refl, sym, ◌∙◌, ap, eq_iff, ◌==◌, >>=-eq-ok, Option-cases, Bool-cases, subst, inl, inr,
}
use policy_evaluator.Prelude.Dict.{get, insert, get-insert}
use policy_evaluator.Context.{resource_eq}
use policy_evaluator.Rego.{DynamicObject, opa_inventory_missing_name}
use policy_evaluator.Rego.Inventory.{or_default, in_entry, or_default-insert}
use policy_evaluator.Rego.Inventory.Opa.{
  ResourcesByName, ResourcesByNamespace, ResourcesByScope, cluster, namespace, register_by_name,
  register_by_namespace, register_by_scope, check_scope, new_scope,
}

module _ {Data : Type 0} where
  abbrev pub find_in : ResourcesByScope Data → Option String → String → Option (DynamicObject Data)
  find_in (cluster m) none name = get m name
  find_in (cluster m) (some s) name = none
  find_in (namespace m) none name = none
  find_in (namespace m) (some s) name = get (or_default (get m s)) name

  abbrev pub find_at :
      Option (ResourcesByScope Data) → Option String → String → Option (DynamicObject Data)
  find_at none scope name = none
  find_at (some s) scope name = find_in s scope name

  -- the namespace and the name in the metadata
  abbrev pub IsAt : DynamicObject Data → Option String → String → Type 0
  IsAt obj scope name = (obj.namespace ≡ scope) × (obj.name ≡ some name)

  abbrev pub IsPlacedIn : ResourcesByScope Data → Type 0
  IsPlacedIn s =
      (scope : Option String) (name : String) (obj : DynamicObject Data)
      → find_in s scope name ≡ some obj
      → IsAt obj scope name

  if-some :
      (b : Bool) (o obj : DynamicObject Data) (rest : Option (DynamicObject Data))
      → (if b then some o else rest) ≡ some obj
      → ((b ≡ true) × (o ≡ obj)) ⊎ (rest ≡ some obj)
  if-some true o obj rest h = inl (refl, cc)
  if-some false o obj rest h = inr h

  -- An entry of the names is the new one or an old one.
  name-or :
      (m : ResourcesByName Data) (n : String) (o : DynamicObject Data) (name : String)
      (obj : DynamicObject Data)
      → get (insert m n o) name ≡ some obj
      → ((n == name ≡ true) × (o ≡ obj)) ⊎ (get m name ≡ some obj)
  name-or m n o name obj h =
      if-some (n == name) o obj (get m name) (sym (get-insert m n name o) ∙ h)

  new-IsAt :
      (o obj : DynamicObject Data) (scope : Option String) (n name : String)
      → o.namespace ≡ scope
      → o.name ≡ some n
      → (n == name ≡ true) × (o ≡ obj)
      → IsAt obj scope name
  new-IsAt o obj scope n name at named (same, is_new) =
      subst (λ x. IsAt x scope name) is_new (at, named ∙ ap some ((eq_iff n name).0 same))

  cluster-IsPlacedIn :
      (m : ResourcesByName Data) (o : DynamicObject Data) (n : String)
      → o.namespace ≡ none
      → o.name ≡ some n
      → IsPlacedIn (cluster m)
      → IsPlacedIn (cluster (insert m n o))
  cluster-IsPlacedIn m o n at named old none name obj h = elim (name-or m n o name obj h) [
    | inl new ↦ new-IsAt o obj none n name at named new
    | inr was ↦ old none name obj was
  ]
  cluster-IsPlacedIn m o n at named old (some s) name obj h = cc

  namespace-IsPlacedIn :
      (m : ResourcesByNamespace Data) (o : DynamicObject Data) (t n : String)
      → o.namespace ≡ some t
      → o.name ≡ some n
      → IsPlacedIn (namespace m)
      → IsPlacedIn (namespace (insert m t (insert (or_default (get m t)) n o)))
  namespace-IsPlacedIn m o t n at named old none name obj h = cc
  namespace-IsPlacedIn m o t n at named old (some s) name obj h =
      let names = insert (or_default (get m t)) n o in
      let h' = ap (λ d. get d name) (sym (or_default-insert m t s names)) ∙ h in
      elim (Bool-cases (t == s)) [
        | inl same ↦
            let ts = (eq_iff t s).0 same in
            elim (name-or (or_default (get m t)) n o name obj
              (ap (λ b. get (if b then names else or_default (get m s)) name) (sym same) ∙ h')) [
                | inl new ↦ new-IsAt o obj (some s) n name (at ∙ ap some ts) named new
                | inr was ↦
                    let (below, its_name) = old (some t) name obj was in
                    (below ∙ ap some ts, its_name)
              ]
        | inr other ↦
            old (some s) name obj
              (ap (λ b. get (if b then names else or_default (get m s)) name) (sym other) ∙ h')
      ]

  register_by_name-none :
      (m : ResourcesByName Data) (o : DynamicObject Data)
      → o.name ≡ none
      → register_by_name m o ≡ err opa_inventory_missing_name
  unfolding register_by_name
  register_by_name-none m o h = rw h refl

  register_by_name-some :
      (m : ResourcesByName Data) (o : DynamicObject Data) (n : String)
      → o.name ≡ some n
      → register_by_name m o ≡ ok (insert m n o)
  unfolding register_by_name
  register_by_name-some m o n h = rw h refl

  name_of-register :
      (m next : ResourcesByName Data) (o : DynamicObject Data)
      → register_by_name m o ≡ ok next
      → (n : String) × (o.name ≡ some n) × (insert m n o ≡ next)
  name_of-register m next o h = elim (Option-cases o.name) [
    | inl unnamed ↦ let clash = sym (register_by_name-none m o unnamed) ∙ h in cc
    | inr (n, named) ↦ let same = sym (register_by_name-some m o n named) ∙ h in (n, named, cc)
  ]

  register_by_namespace-some :
      (m : ResourcesByNamespace Data) (o : DynamicObject Data) (t : String)
      → o.namespace ≡ some t
      → register_by_namespace m o ≡ in_entry m t (λ names. register_by_name names o)
  unfolding register_by_namespace
  register_by_namespace-some m o t h = rw h refl

  -- the checks leave the scopes that agree with the namespace of the object
  abbrev pub Agrees : ResourcesByScope Data → Option String → Type 0
  Agrees (cluster m) scope = scope ≡ none
  Agrees (namespace m) scope = (t : String) × (scope ≡ some t)

  pub check_scope-Agrees :
      (s : ResourcesByScope Data) (scope : Option String)
      → check_scope s (is_some scope) ≡ ok tt
      → Agrees s scope
  unfolding check_scope
  check_scope-Agrees (cluster m) none h = refl
  check_scope-Agrees (cluster m) (some t) h = cc
  check_scope-Agrees (namespace m) none h = cc
  check_scope-Agrees (namespace m) (some t) h = (t, refl)

  pub new_scope-Agrees :
      (s : ResourcesByScope Data) (scope : Option String)
      → new_scope (is_some scope) ≡ s
      → Agrees s scope
  new_scope-Agrees s none h = subst (λ x. Agrees x none) h refl
  new_scope-Agrees s (some t) h = subst (λ x. Agrees x (some t)) h (t, refl)

  pub new_scope-IsPlacedIn : (b : Bool) → IsPlacedIn (new_scope b)
  unfolding get
  new_scope-IsPlacedIn true none name obj h = cc
  new_scope-IsPlacedIn true (some s) name obj h = cc
  new_scope-IsPlacedIn false none name obj h = cc
  new_scope-IsPlacedIn false (some s) name obj h = cc

  pub register_by_scope-IsPlacedIn :
      (s next : ResourcesByScope Data) (o : DynamicObject Data)
      → Agrees s o.namespace
      → IsPlacedIn s
      → register_by_scope s o ≡ ok next
      → IsPlacedIn next
  unfolding register_by_scope
  register_by_scope-IsPlacedIn (cluster m) next o at old h =
      let (names, registered, done) = >>=-eq-ok (register_by_name m o) (λ x. ok (cluster x)) h in
      let (n, named, is_names) = name_of-register m names o registered in
      let whole : cluster names ≡ next = cc in
      subst IsPlacedIn (ap cluster is_names ∙ whole) (cluster-IsPlacedIn m o n at named old)
  register_by_scope-IsPlacedIn (namespace m) next o (t, at) old h =
      let (spaces, registered, done) =
        >>=-eq-ok (register_by_namespace m o) (λ x. ok (namespace x)) h in
      let (names, inner, outer) =
        >>=-eq-ok (register_by_name (or_default (get m t)) o) (λ x. ok (insert m t x))
          (sym (register_by_namespace-some m o t at) ∙ registered) in
      let (n, named, is_names) = name_of-register (or_default (get m t)) names o inner in
      let part : insert m t names ≡ spaces = cc in
      let whole : namespace spaces ≡ next = cc in
      subst IsPlacedIn (ap (λ x. namespace (insert m t x)) is_names ∙ ap namespace part ∙ whole)
        (namespace-IsPlacedIn m o t n at named old)
