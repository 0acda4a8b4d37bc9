-- ===== src/Rego/Cache.antt =====
-- src/runtimes/rego/gatekeeper_inventory_cache.rs: the serialized inventories that are kept from one
-- request to the next. An error returns no cache, since nothing is inserted before it.
pub mod Freshness
mod Tests
use policy_evaluator.Prelude.{
  ℕ, Bool, true, false, Option, none, some, String, List, [], ◌∷◌, Result, ok, err, ◌>>=◌, map_err,
  Eq, ◌==◌, ◌&&◌, if◌then◌else◌, ◌≡◌, ◌↔◌, arith,
}
use policy_evaluator.Prelude.Dict.{Dict, get, insert}
use policy_evaluator.Metadata.{ContextAwareResource}
use policy_evaluator.Context.{resource_beq, resource_beq_iff, resource_eq}
use policy_evaluator.Callback.Requests.{Sdk}
use policy_evaluator.Callback.Host.{Channel}
use policy_evaluator.Rego.{RegoRuntimeError, gatekeeper_inventory_serialization_error}
use policy_evaluator.Rego.Fetch.{
  Readers, get_allowed_resources, have_allowed_resources_changed_since_instant,
}
use policy_evaluator.Rego.Inventory.Gatekeeper.{GatekeeperInventory, new_inventory}

-- equality of two sets of resources, each listed in its order
unfoldable pub resources_beq : List ContextAwareResource → List ContextAwareResource → Bool
resources_beq [] [] = true
resources_beq (x ∷ xs) (y ∷ ys) = resource_beq x y && resources_beq xs ys
resources_beq [] (y ∷ ys) = false
resources_beq (x ∷ xs) [] = false

pub resources_beq_iff :
    (xs ys : List ContextAwareResource) → (resources_beq xs ys ≡ true) ↔ (xs ≡ ys)
unfolding resources_beq
resources_beq_iff [] [] = ground arith
resources_beq_iff (x ∷ xs) (y ∷ ys) = ground (arith, resource_beq_iff x y, resources_beq_iff xs ys)
resources_beq_iff [] (y ∷ ys) = ground arith
resources_beq_iff (x ∷ xs) [] = ground arith

instance abbrev pub resources_eq : Eq (List ContextAwareResource)
resources_eq = record { beq = resources_beq; beq_iff = resources_beq_iff }

module _ (Out : Type 0) where
  pub record CachedInventory : Type 0 where
    pub serialized : Out
    pub cache_time : ℕ

  abbrev pub GateKeeperInventoryCache : Type 0
  GateKeeperInventoryCache = Dict (List ContextAwareResource) CachedInventory

-- When the clock can be read: as the call begins, after the cluster was asked for changes, and after
-- it listed its objects. What the clock says then is a function of these.
pub data Moment : Type 0 where
  begun : Moment
  asked : Moment
  listed : Moment

abbrev pub Clock : Type 0
Clock = Moment → ℕ

-- `to_vec` serializes an inventory; `instant_now` is the clock during the call.
module _ {sdk : Sdk} {Data Out : Type 0} (readers : Readers Data)
    (to_vec : GatekeeperInventory Data → Result String Out) (channel : Channel sdk)
    (instant_now : Clock) where
  -- It reads the clock before it lists; `moment` is when it begins.
  unfoldable pub create_and_register_inventory :
      Moment
      → GateKeeperInventoryCache Out
      → List ContextAwareResource
      → Result RegoRuntimeError (CachedInventory Out × GateKeeperInventoryCache Out)
  create_and_register_inventory moment cache rs = do
    let now : ℕ = instant_now moment
    cluster_resources ← get_allowed_resources readers channel rs
    inventory ← new_inventory cluster_resources
    serialized ← map_err gatekeeper_inventory_serialization_error (to_vec inventory)
    let cached : CachedInventory Out = record { serialized = serialized; cache_time = now }
    ok (cached, insert cache rs cached)

  -- the branch for an inventory that is in the cache
  abbrev pub reuse_or_create :
      GateKeeperInventoryCache Out
      → List ContextAwareResource
      → CachedInventory Out
      → Bool
      → Result RegoRuntimeError (CachedInventory Out × GateKeeperInventoryCache Out)
  reuse_or_create cache rs cached true = create_and_register_inventory asked cache rs
  reuse_or_create cache rs cached false = ok (cached, cache)

  abbrev pub find_or_create :
      GateKeeperInventoryCache Out
      → List ContextAwareResource
      → Option (CachedInventory Out)
      → Result RegoRuntimeError (CachedInventory Out × GateKeeperInventoryCache Out)
  find_or_create cache rs none = create_and_register_inventory begun cache rs
  find_or_create cache rs (some cached) = do
    changed ← have_allowed_resources_changed_since_instant readers channel rs cached.cache_time
    reuse_or_create cache rs cached changed

  unfoldable pub get_inventory :
      GateKeeperInventoryCache Out
      → List ContextAwareResource
      → Result RegoRuntimeError (Out × GateKeeperInventoryCache Out)
  get_inventory cache rs = do
    found ← find_or_create cache rs (get cache rs)
    ok (found.0.serialized, found.1)
