-- ===== src/Rego/Inventory/Gatekeeper/Lookup.antt =====
-- src/runtimes/rego/gatekeeper_inventory.rs: where an object stands in the inventory.
use policy_evaluator.Prelude.{
  String, Bool, true, false, Option, none, some, ok, err, string_eq, ◌≡◌, refl, ◌∙◌, arith, eq_iff,
  ◌==◌, ◌&&◌, if◌then◌else◌, Option-cases, inl, inr,
}
use policy_evaluator.Prelude.Dict.{get, insert, get-insert}
use policy_evaluator.Metadata.{ContextAwareResource}
use policy_evaluator.Rego.{DynamicObject, gatekeeper_inventory_missing_name}
use policy_evaluator.Rego.Inventory.{or_default, in_entry, or_default-insert}
use policy_evaluator.Rego.Inventory.Gatekeeper.{
  GatekeeperInventory, ResourcesByGroupVersion, register_by_name, register_by_kind,
  register_by_group_version, register_by_namespace, set_cluster, set_namespaced, register,
}

-- A place of the documentation: `[version][kind][name]`, below `cluster` or a namespace.
pub record Place : Type 0 where
  pub version : String
  pub kind : String
  pub name : String

-- the test on the namespaces, `none` for `cluster`
abbrev pub same_scope : Option String → Option String → Bool
same_scope none none = true
same_scope (some a) (some b) = a == b
same_scope none (some b) = false
same_scope (some a) none = false

abbrev pub same_place : Place → Place → Bool
same_place a b = a.version == b.version && a.kind == b.kind && a.name == b.name

-- the place of an object with this name that was listed for a resource
abbrev pub place_of : ContextAwareResource → String → Place
place_of r n = record { version = r.api_version; kind = r.kind; name = n }

module _ {Data : Type 0} where
  abbrev find_in : ResourcesByGroupVersion Data → Place → Option (DynamicObject Data)
  find_in m at = get (or_default (get (or_default (get m at.version)) at.kind)) at.name

  abbrev versions_of : GatekeeperInventory Data → Option String → ResourcesByGroupVersion Data
  versions_of inventory none = inventory.cluster_resources
  versions_of inventory (some n) = or_default (get inventory.namespaced_resources n)

  -- what stands at a place of a namespace, or of the cluster
  unfoldable pub find :
      GatekeeperInventory Data → Option String → Place → Option (DynamicObject Data)
  find inventory scope at = find_in (versions_of inventory scope) at

  abbrev put_in :
      ResourcesByGroupVersion Data
      → ContextAwareResource
      → String
      → DynamicObject Data
      → ResourcesByGroupVersion Data
  put_in m r name obj =
      let kinds = or_default (get m r.api_version) in
      insert m r.api_version (insert kinds r.kind (insert (or_default (get kinds r.kind)) name obj))

  find_in-put_in :
      (m : ResourcesByGroupVersion Data) (r : ContextAwareResource) (name : String)
      (obj : DynamicObject Data) (at : Place)
      → find_in (put_in m r name obj) at ≡ (
          if r.api_version == at.version && r.kind == at.kind && name == at.name
          then some obj
          else find_in m at)
  find_in-put_in m r name obj at =
      let kinds = or_default (get m r.api_version) in
      let names = or_default (get kinds r.kind) in
      ground (
        arith,
        or_default-insert m r.api_version at.version (insert kinds r.kind (insert names name obj)),
        or_default-insert kinds r.kind at.kind (insert names name obj),
        get-insert names name at.name obj,
        eq_iff r.api_version at.version,
        eq_iff r.kind at.kind,
      )

  register_by_group_version-named :
      (m : ResourcesByGroupVersion Data) (obj : DynamicObject Data) (r : ContextAwareResource)
      (name : String)
      → obj.name ≡ some name
      → register_by_group_version m obj r ≡ ok (put_in m r name obj)
  unfolding register_by_group_version register_by_kind register_by_name
  register_by_group_version-named m obj r name h = rw h refl

  abbrev pub IsRegistered :
      GatekeeperInventory Data
      → ContextAwareResource
      → DynamicObject Data
      → String
      → GatekeeperInventory Data
      → Type 0
  IsRegistered inventory r obj name next =
      (scope : Option String) (at : Place)
      → find next scope at ≡ (
          if same_scope obj.namespace scope && same_place (place_of r name) at
          then some obj
          else find inventory scope at)

  find-put_cluster :
      (inventory : GatekeeperInventory Data) (r : ContextAwareResource) (name : String)
      (obj : DynamicObject Data)
      → obj.namespace ≡ none
      → IsRegistered inventory r obj name
          (record inventory { cluster_resources = put_in inventory.cluster_resources r name obj })
  unfolding find
  find-put_cluster inventory r name obj h none at =
      ground (arith, h, find_in-put_in inventory.cluster_resources r name obj at)
  find-put_cluster inventory r name obj h (some s) at = ground (arith, h)

  find-put_namespaced :
      (inventory : GatekeeperInventory Data) (r : ContextAwareResource) (name s : String)
      (obj : DynamicObject Data)
      → obj.namespace ≡ some s
      → IsRegistered inventory r obj name (record inventory {
        namespaced_resources =
            insert inventory.namespaced_resources s
              (put_in (or_default (get inventory.namespaced_resources s)) r name obj);
      })
  unfolding find
  find-put_namespaced inventory r name s obj h none at = ground (arith, h)
  find-put_namespaced inventory r name s obj h (some t) at =
      let versions = or_default (get inventory.namespaced_resources s) in
      ground (
        arith,
        h,
        eq_iff s t,
        or_default-insert inventory.namespaced_resources s t (put_in versions r name obj),
        find_in-put_in versions r name obj at,
      )

  register-cluster :
      (inventory : GatekeeperInventory Data) (r : ContextAwareResource) (obj : DynamicObject Data)
      → obj.namespace ≡ none
      → register inventory obj r ≡ set_cluster inventory obj r
  unfolding register
  register-cluster inventory r obj h = rw h refl

  register-namespaced :
      (inventory : GatekeeperInventory Data) (r : ContextAwareResource) (obj : DynamicObject Data)
      (s : String)
      → obj.namespace ≡ some s
      → register inventory obj r ≡ set_namespaced inventory obj r
  unfolding register
  register-namespaced inventory r obj s h = rw h refl

  register_by_namespace-some :
      (inventory : GatekeeperInventory Data) (r : ContextAwareResource) (obj : DynamicObject Data)
      (s : String)
      → obj.namespace ≡ some s
      → register_by_namespace inventory.namespaced_resources obj r
        ≡ in_entry inventory.namespaced_resources s
            (λ versions. register_by_group_version versions obj r)
  unfolding register_by_namespace
  register_by_namespace-some inventory r obj s h = rw h refl

  -- Registering an object with a name succeeds and changes what stands at its place alone.
  pub register-named :
      (inventory : GatekeeperInventory Data) (r : ContextAwareResource) (obj : DynamicObject Data)
      (name : String)
      → obj.name ≡ some name
      → (next : GatekeeperInventory Data) × (register inventory obj r ≡ ok next)
        × IsRegistered inventory r obj name next
  register-named inventory r obj name h = elim (Option-cases obj.namespace) [
    | inl cluster ↦ (
      _,
      register-cluster inventory r obj cluster
          ∙ rw (register_by_group_version-named inventory.cluster_resources obj r name h) refl,
      find-put_cluster inventory r name obj cluster,
    )
    | inr (s, namespaced) ↦ (
      _,
      register-namespaced inventory r obj s namespaced
          ∙ rw
              (
                register_by_namespace-some inventory r obj s namespaced,
                register_by_group_version-named (or_default (get inventory.namespaced_resources s))
                    obj r name h,
              )
              refl,
      find-put_namespaced inventory r name s obj namespaced,
    )
  ]

  pub register-unnamed :
      (inventory : GatekeeperInventory Data) (r : ContextAwareResource) (obj : DynamicObject Data)
      → obj.name ≡ none
      → register inventory obj r ≡ err gatekeeper_inventory_missing_name
  unfolding register register_by_namespace register_by_group_version register_by_kind
      register_by_name
  register-unnamed inventory r obj h = elim (Option-cases obj.namespace) [
    | inl cluster ↦ rw (cluster, h) refl
    | inr (s, namespaced) ↦ rw (namespaced, h) refl
  ]
