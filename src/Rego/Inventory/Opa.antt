-- ===== src/Rego/Inventory/Opa.antt =====
-- src/runtimes/rego/opa_inventory.rs: the inventory in the layout that OPA policies expect.
pub mod Scope
pub mod Placed
use policy_evaluator.Prelude.{
  String, Bool, true, false, Option, none, some, List, [], ◌∷◌, Result, ok, err, ◌>>=◌, ◌>>◌, ok_or,
  is_some, string_eq, if◌then◌else◌,
}
use policy_evaluator.Prelude.Dict.{Dict, get, insert}
use policy_evaluator.Metadata.{ContextAwareResource}
use policy_evaluator.Context.{resource_eq}
use policy_evaluator.Rego.{
  DynamicObject, RegoRuntimeError, opa_inventory_missing_name, opa_inventory_missing_namespace,
  opa_inventory_add_namespaced_res, opa_inventory_add_clusterwide_res,
  opa_inventory_missing_plural_name,
}
use policy_evaluator.Rego.Inventory.{in_entry}

module _ (Data : Type 0) where
  abbrev pub ResourcesByName : Type 0
  ResourcesByName = Dict String (DynamicObject Data)

  abbrev pub ResourcesByNamespace : Type 0
  ResourcesByNamespace = Dict String ResourcesByName

  pub data ResourcesByScope : Type 0 where
    cluster : ResourcesByName → ResourcesByScope
    namespace : ResourcesByNamespace → ResourcesByScope

  -- `ResourcesByPluralName`, and `OpaInventory` around it
  abbrev pub OpaInventory : Type 0
  OpaInventory = Dict String ResourcesByScope

module _ {Data : Type 0} where
  -- `ResourcesByName::register`
  unfoldable pub register_by_name :
      ResourcesByName Data → DynamicObject Data → Result RegoRuntimeError (ResourcesByName Data)
  register_by_name m obj = do
    name ← ok_or opa_inventory_missing_name obj.name
    ok (insert m name obj)

  -- `ResourcesByNamespace::register`
  unfoldable pub register_by_namespace :
      ResourcesByNamespace Data
      → DynamicObject Data
      → Result RegoRuntimeError (ResourcesByNamespace Data)
  register_by_namespace m obj = do
    name ← ok_or opa_inventory_missing_namespace obj.namespace
    in_entry m name (λ names. register_by_name names obj)

  -- `ResourcesByScope::register`
  unfoldable pub register_by_scope :
      ResourcesByScope Data → DynamicObject Data → Result RegoRuntimeError (ResourcesByScope Data)
  register_by_scope (cluster m) obj = do next ← register_by_name m obj; ok (cluster next)
  register_by_scope (namespace m) obj = do next ← register_by_namespace m obj; ok (namespace next)

  -- the checks on a scope that is there
  unfoldable pub check_scope : ResourcesByScope Data → Bool → Result RegoRuntimeError Unit
  check_scope (cluster m) namespaced =
      if namespaced then err opa_inventory_add_namespaced_res else ok tt
  check_scope (namespace m) namespaced =
      if namespaced then ok tt else err opa_inventory_add_clusterwide_res

  -- the scope for the first object of a resource
  abbrev pub new_scope : Bool → ResourcesByScope Data
  new_scope namespaced = if namespaced then namespace [] else cluster []

  -- `ResourcesByPluralName::register` and `OpaInventory::register`
  unfoldable pub register :
      OpaInventory Data → DynamicObject Data → String → Result RegoRuntimeError (OpaInventory Data)
  register inventory obj plural = elim (get inventory plural) [
    | some scope ↦ do
      check_scope scope (is_some obj.namespace)
      next ← register_by_scope scope obj
      ok (insert inventory plural next)
    | none ↦ do
      next ← register_by_scope (new_scope (is_some obj.namespace)) obj
      ok (insert inventory plural next)
  ]

  -- the inner loop of `OpaInventory::new`
  unfoldable pub register_list :
      OpaInventory Data
      → String
      → List (DynamicObject Data)
      → Result RegoRuntimeError (OpaInventory Data)
  register_list inventory plural [] = ok inventory
  register_list inventory plural (obj ∷ objs) = do
    next ← register inventory obj plural
    register_list next plural objs

  -- `debug` is the text that `{:?}` gives for a resource
  module _ (debug : ContextAwareResource → String)
      (plural_names : Dict ContextAwareResource String) where
    -- the outer loop
    unfoldable pub register_all :
        OpaInventory Data
        → Dict ContextAwareResource (List (DynamicObject Data))
        → Result RegoRuntimeError (OpaInventory Data)
    register_all inventory [] = ok inventory
    register_all inventory ((resource, objs) ∷ rest) = do
      plural ←
          ok_or (opa_inventory_missing_plural_name (debug resource)) (get plural_names resource)
      next ← register_list inventory plural objs
      register_all next rest

    -- `OpaInventory::new`
    unfoldable pub new_inventory :
        Dict ContextAwareResource (List (DynamicObject Data))
        → Result RegoRuntimeError (OpaInventory Data)
    new_inventory kube_resources = register_all [] kube_resources
