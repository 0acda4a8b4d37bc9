-- ===== src/Rego/Tests.antt =====
-- Inventories and Rego policies of src/runtimes/rego, at concrete inputs.
use policy_evaluator.Prelude.{
  String, [], ◌∷◌, List, true, Option, none, some, ok, err, string_eq, ◌≡◌, ◌↔◌, refl,
}
use policy_evaluator.Prelude.Dict.{Dict, get, insert}
use policy_evaluator.Metadata.{ContextAwareResource}
use policy_evaluator.Context.{resource_eq}
use policy_evaluator.Request.{admission_request, uid, gatekeeper}
use policy_evaluator.Response.Types.{AdmissionResponse, default_response}
use policy_evaluator.Rego.{DynamicObject, gatekeeper_inventory_missing_name}
use policy_evaluator.Rego.Inventory.Gatekeeper.{
  GatekeeperInventory, new_inventory, register_all, register_list, register,
  register_by_group_version, register_by_kind, register_by_name,
}
use policy_evaluator.Rego.Inventory.Gatekeeper.Lookup.{Place, find}
use policy_evaluator.Rego.Inventory.Gatekeeper.Contents.{listed, latest, new_inventory-latest}
use policy_evaluator.Rego.Inventory.Opa
use policy_evaluator.Rego.Inventory.Opa.Placed.{IsPlaced, new_inventory-IsPlaced}
use policy_evaluator.Callback.Host.{Channel, answered}
use policy_evaluator.Rego.Fetch.{
  make_request_via_callback_channel, get_all_resources_by_type, collect_resources,
  get_allowed_resources,
}
use policy_evaluator.Rego.Cache.{
  GateKeeperInventoryCache, create_and_register_inventory, get_inventory,
}
use policy_evaluator.Callback.Sample.{unit_sdk}
use policy_evaluator.Rego.Sample.{debug, clean, stack, request, silent, print}
use policy_evaluator.Rego.Build.{build_kubernetes_context}
use policy_evaluator.Rego.Runtime.{
  gatekeeper_context, empty, evaluate_gatekeeper, gatekeeper_data, gatekeeper_response, finish,
  validate,
}
use policy_evaluator.Rego.Runtime.Verdict.{IsEvaluated, IsAcceptance, validate-allowed}

abbrev namespaces : ContextAwareResource
namespaces = record { api_version = "v1"; kind = "Namespace" }

abbrev kube_system : DynamicObject Unit
kube_system = record { name = some "kube-system"; namespace = none; content = tt }

abbrev nameless : DynamicObject Unit
nameless = record { name = none; namespace = none; content = tt }

abbrev one_namespace : Dict ContextAwareResource (List (DynamicObject Unit))
one_namespace = (namespaces, kube_system ∷ []) ∷ []

new_inventory-latest_example :
    (inventory : GatekeeperInventory Unit) × (new_inventory one_namespace ≡ ok inventory)
    × ((scope : Option String) (at : Place)
        → find inventory scope at ≡ latest (listed one_namespace) scope at none)
new_inventory-latest_example = new_inventory-latest one_namespace (("kube-system", refl), tt)

nameless_fails :
    new_inventory ((namespaces, nameless ∷ []) ∷ []) ≡ err gatekeeper_inventory_missing_name
unfolding new_inventory register_all register_list register register_by_group_version
    register_by_kind register_by_name
nameless_fails = refl

abbrev opa_inventory : Opa.OpaInventory Unit
opa_inventory = ("namespaces", Opa.cluster (("kube-system", kube_system) ∷ [])) ∷ []

opa_inventory_is_new :
    Opa.new_inventory debug ((namespaces, "namespaces") ∷ []) one_namespace ≡ ok opa_inventory
unfolding Opa.new_inventory Opa.register_all Opa.register_list Opa.register Opa.register_by_scope
    Opa.register_by_name Opa.check_scope get insert
opa_inventory_is_new = refl

new_inventory-IsPlaced_example : IsPlaced opa_inventory
new_inventory-IsPlaced_example =
    new_inventory-IsPlaced debug ((namespaces, "namespaces") ∷ []) one_namespace opa_inventory
      opa_inventory_is_new

abbrev accepted : AdmissionResponse
accepted = record default_response { uid = "uid"; allowed = true }

clean_is_accepted : validate clean stack [] (admission_request request) empty ≡ ok (accepted, tt)
unfolding validate evaluate_gatekeeper gatekeeper_data gatekeeper_response finish uid
clean_is_accepted = refl

validate-allowed_example : (accepted.allowed ≡ true) ↔ (
    (value : String) × IsEvaluated clean gatekeeper stack [] (admission_request request) empty value
    × IsAcceptance clean gatekeeper value)
validate-allowed_example =
    validate-allowed clean stack [] (admission_request request) empty accepted tt clean_is_accepted

abbrev channel : Channel unit_sdk
channel _ = answered []

abbrev grown : GateKeeperInventoryCache String
grown = (namespaces ∷ [], record { serialized = "inventory"; cache_time = 7 }) ∷ []

built_for_clean :
    build_kubernetes_context clean silent print debug
      (λ m. 7)
      stack
      (some channel)
      []
      (namespaces ∷ [])
    ≡ ok (gatekeeper_context "inventory", grown)
unfolding build_kubernetes_context get_inventory create_and_register_inventory
    make_request_via_callback_channel get_all_resources_by_type collect_resources
    get_allowed_resources new_inventory register_all register_list get insert
built_for_clean = refl
