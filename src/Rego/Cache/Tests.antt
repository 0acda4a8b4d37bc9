-- ===== src/Rego/Cache/Tests.antt =====
-- A cache of src/runtimes/rego/gatekeeper_inventory_cache.rs with one inventory.
use policy_evaluator.Prelude.{String, false, [], ◌∷◌, List, Result, ok, nat_eq}
use policy_evaluator.Metadata.{ContextAwareResource}
use policy_evaluator.Callback.Host.{Channel, answered}
use policy_evaluator.Callback.Sample.{unit_sdk}
use policy_evaluator.Rego.Fetch.{Readers}
use policy_evaluator.Rego.Inventory.Gatekeeper.{GatekeeperInventory}
use policy_evaluator.Rego.Cache.{resources_eq, GateKeeperInventoryCache}

-- a cluster that has no objects and never changes
abbrev quiet : Readers Unit
quiet = record {
  object_list = λ payload. ok [];
  bool = λ payload. ok false;
  text = λ payload. ok "pods";
  recv_error = "channel closed";
}

abbrev to_vec : GatekeeperInventory Unit → Result String String
to_vec inventory = ok "inventory"

abbrev channel : Channel unit_sdk
channel _ = answered []

abbrev pods : List ContextAwareResource
pods = record { api_version = "v1"; kind = "Pod" } ∷ []

abbrev filled : GateKeeperInventoryCache String
filled = (pods, record { serialized = "kept"; cache_time = 3 }) ∷ []
