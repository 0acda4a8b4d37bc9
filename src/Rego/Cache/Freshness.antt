-- ===== src/Rego/Cache/Freshness.antt =====
-- src/runtimes/rego/gatekeeper_inventory_cache.rs: where the inventory that a policy gets comes from.
use policy_evaluator.Prelude.{ℕ, true, false, none, some, String, List, Result, ok, ◌≡◌, ◌==◌}
use policy_evaluator.Prelude.Dict.{Dict, get}
use policy_evaluator.Metadata.{ContextAwareResource}
use policy_evaluator.Callback.Requests.{Sdk}
use policy_evaluator.Callback.Host.{Channel}
use policy_evaluator.Rego.{DynamicObject}
use policy_evaluator.Rego.Fetch.{
  Readers, get_allowed_resources, have_allowed_resources_changed_since_instant,
}
use policy_evaluator.Rego.Inventory.Gatekeeper.{GatekeeperInventory, new_inventory}
use policy_evaluator.Rego.Cache.{
  Clock, begun, asked, resources_eq, CachedInventory, GateKeeperInventoryCache,
}

module _ {sdk : Sdk} {Data Out : Type 0} (readers : Readers Data)
    (to_vec : GatekeeperInventory Data → Result String Out) (channel : Channel sdk)
    (instant_now : Clock) where
  -- what is computed from the objects that the cluster lists
  abbrev IsComputed : List ContextAwareResource → Out → Type 0
  IsComputed rs out =
      (objects : Dict ContextAwareResource (List (DynamicObject Data)))
      × (inventory : GatekeeperInventory Data) × (get_allowed_resources readers channel rs
          ≡ ok objects)
      × (new_inventory objects ≡ ok inventory)
      × (to_vec inventory ≡ ok out)

  -- The cache stays, with an inventory since which the cluster has not changed; or it has a new
  -- entry, whose instant is that of the beginning of the call where there was none, and of the time
  -- after the question for changes, and before the listing, where there was one.
  pub data Source (cache : GateKeeperInventoryCache Out) (rs : List ContextAwareResource)
      (out : Out) (next : GateKeeperInventoryCache Out) : Type 0 where
    reused :
        (since : ℕ)
        → get cache rs ≡ some (record { serialized = out; cache_time = since })
        → have_allowed_resources_changed_since_instant readers channel rs since ≡ ok false
        → cache ≡ next
        → Source cache rs out next
    first :
        get cache rs ≡ none
        → IsComputed rs out
        → get next rs ≡ some (record { serialized = out; cache_time = instant_now begun })
        → ((other : List ContextAwareResource)
            → (rs == other) ≡ false
            → get next other ≡ get cache other)
        → Source cache rs out next
    renewed :
        (old : CachedInventory Out)
        → get cache rs ≡ some old
        → have_allowed_resources_changed_since_instant readers channel rs old.cache_time ≡ ok true
        → IsComputed rs out
        → get next rs ≡ some (record { serialized = out; cache_time = instant_now asked })
        → ((other : List ContextAwareResource)
            → (rs == other) ≡ false
            → get next other ≡ get cache other)
        → Source cache rs out next
