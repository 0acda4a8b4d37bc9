-- ===== src/Rego/Inventory/Gatekeeper.antt =====
-- src/runtimes/rego/gatekeeper_inventory.rs: the inventory in the layout that Gatekeeper expects.
pub mod Lookup
pub mod Contents
use policy_evaluator.Prelude.{
  String, Option, none, some, List, [], ◌∷◌, Result, ok, err, ◌>>=◌, ok_or, string_eq,
}
use policy_evaluator.Prelude.Dict.{Dict, insert}
use policy_evaluator.Metadata.{ContextAwareResource}
use policy_evaluator.Rego.{
  DynamicObject, RegoRuntimeError, gatekeeper_inventory_missing_name,
  gatekeeper_inventory_missing_namespace,
}
use policy_evaluator.Rego.Inventory.{in_entry}

module _ (Data : Type 0) where
  abbrev pub ResourcesByName : Type 0
  ResourcesByName = Dict String (DynamicObject Data)

  abbrev pub ResourcesByKind : Type 0
  ResourcesByKind = Dict String ResourcesByName

  abbrev pub ResourcesByGroupVersion : Type 0
  ResourcesByGroupVersion = Dict String ResourcesByKind

  abbrev pub ResourcesByNamespace : Type 0
  ResourcesByNamespace = Dict String ResourcesByGroupVersion

  pub record GatekeeperInventory : Type 0 where
    pub cluster_resources : ResourcesByGroupVersion
    pub namespaced_resources : ResourcesByNamespace

module _ {Data : Type 0} where
  -- `ResourcesByName::register`
  unfoldable pub register_by_name :
      ResourcesByName Data → DynamicObject Data → Result RegoRuntimeError (ResourcesByName Data)
  register_by_name m obj = do
    name ← ok_or gatekeeper_inventory_missing_name obj.name
    ok (insert m name obj)

  -- `ResourcesByKind::register`
  unfoldable pub register_by_kind :
      ResourcesByKind Data
      → DynamicObject Data
      → ContextAwareResource
      → Result RegoRuntimeError (ResourcesByKind Data)
  register_by_kind m obj resource = in_entry m resource.kind (λ names. register_by_name names obj)

  -- `ResourcesByGroupVersion::register`
  unfoldable pub register_by_group_version :
      ResourcesByGroupVersion Data
      → DynamicObject Data
      → ContextAwareResource
      → Result RegoRuntimeError (ResourcesByGroupVersion Data)
  register_by_group_version m obj resource =
      in_entry m resource.api_version (λ kinds. register_by_kind kinds obj resource)

  -- `ResourcesByNamespace::register`
  unfoldable pub register_by_namespace :
      ResourcesByNamespace Data
      → DynamicObject Data
      → ContextAwareResource
      → Result RegoRuntimeError (ResourcesByNamespace Data)
  register_by_namespace m obj resource = do
    namespace ← ok_or gatekeeper_inventory_missing_namespace obj.namespace
    in_entry m namespace (λ versions. register_by_group_version versions obj resource)

  -- `GatekeeperInventory::default()`
  abbrev pub default_inventory : GatekeeperInventory Data
  default_inventory = record { cluster_resources = []; namespaced_resources = [] }

  abbrev pub set_namespaced :
      GatekeeperInventory Data
      → DynamicObject Data
      → ContextAwareResource
      → Result RegoRuntimeError (GatekeeperInventory Data)
  set_namespaced inventory obj resource = do
    m ← register_by_namespace inventory.namespaced_resources obj resource
    ok (record inventory { namespaced_resources = m })

  abbrev pub set_cluster :
      GatekeeperInventory Data
      → DynamicObject Data
      → ContextAwareResource
      → Result RegoRuntimeError (GatekeeperInventory Data)
  set_cluster inventory obj resource = do
    m ← register_by_group_version inventory.cluster_resources obj resource
    ok (record inventory { cluster_resources = m })

  -- `GatekeeperInventory::register`
  unfoldable pub register :
      GatekeeperInventory Data
      → DynamicObject Data
      → ContextAwareResource
      → Result RegoRuntimeError (GatekeeperInventory Data)
  register inventory obj resource = elim obj.namespace [
    | some _ ↦ set_namespaced inventory obj resource
    | none ↦ set_cluster inventory obj resource
  ]

  -- the inner loop of `GatekeeperInventory::new`
  unfoldable pub register_list :
      GatekeeperInventory Data
      → ContextAwareResource
      → List (DynamicObject Data)
      → Result RegoRuntimeError (GatekeeperInventory Data)
  register_list inventory resource [] = ok inventory
  register_list inventory resource (obj ∷ objs) = do
    next ← register inventory obj resource
    register_list next resource objs

  -- its outer loop
  unfoldable pub register_all :
      GatekeeperInventory Data
      → Dict ContextAwareResource (List (DynamicObject Data))
      → Result RegoRuntimeError (GatekeeperInventory Data)
  register_all inventory [] = ok inventory
  register_all inventory ((resource, objs) ∷ rest) = do
    next ← register_list inventory resource objs
    register_all next rest

  -- `GatekeeperInventory::new`
  unfoldable pub new_inventory :
      Dict ContextAwareResource (List (DynamicObject Data))
      → Result RegoRuntimeError (GatekeeperInventory Data)
  new_inventory kube_resources = register_all default_inventory kube_resources
