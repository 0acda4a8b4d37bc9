-- ===== src/Kubernetes/Reflector.antt =====
-- src/callback_handler/kubernetes/reflector.rs: the objects of a watch, kept in memory.
use mathlib.Core.List.{[], ◌∷◌}
use policy_evaluator.Prelude.{ℕ, String, Option, none, some, List, Result, ok, err, ◌>>=◌, ◌<>◌}
use policy_evaluator.Kubernetes.{KubeResource, Api, Watch, Kube, Cluster}

-- `{:?}` of an `Option<&str>`, with that of a `&str` as a parameter
abbrev pub debug_option : (String → String) → Option String → String
debug_option debug none = "None"
debug_option debug (some s) = "Some(" <> debug s <> ")"

unfoldable pub compute_id :
    (String → String) → KubeResource → Option String → Option String → Option String → String
compute_id debug resource namespace label_selector field_selector =
    resource.resource.api_version
    <> "|"
    <> resource.resource.kind
    <> "|"
    <> debug_option debug namespace
    <> "|"
    <> debug_option debug label_selector
    <> "|"
    <> debug_option debug field_selector

module _ (kube : Kube) where
  -- `watch` is what its task watches, `last_change_seen_at` what the receiver borrows, and `pending`
  -- an event whose instant the task has sent and that it has not applied yet
  pub record Reflector : Type 0 where
    pub watch : Watch
    pub reader : kube.Store
    pub last_change_seen_at : ℕ
    pub pending : Option kube.Event

  abbrev pub strip : kube.Object → kube.Object
  strip obj =
      kube.remove_annotation "kubectl.kubernetes.io/last-applied-configuration"
        (kube.clear_managed_fields obj)

module _ {kube : Kube} where
  -- `reflector_tracking_changes_instant` for an item of the stream, which first sends the instant
  unfoldable pub announce : ℕ → Result String kube.Event → Reflector kube → Reflector kube
  announce now (ok event) r = record r { last_change_seen_at = now; pending = some event }
  announce now (err e) r = r

  -- and then applies the event
  abbrev pub applied : Option kube.Event → Reflector kube → Reflector kube
  applied none r = r
  applied (some event) r = record r {
    reader = kube.apply_watcher_event (kube.modify (strip kube) event) r.reader;
    pending = none;
  }

  unfoldable pub apply_pending : Reflector kube → Reflector kube
  apply_pending r = applied r.pending r

  -- both, one after the other
  unfoldable pub see : ℕ → Result String kube.Event → Reflector kube → Reflector kube
  see now item r = apply_pending (announce now item r)

  unfoldable pub see_all : List (ℕ × Result String kube.Event) → Reflector kube → Reflector kube
  see_all [] r = r
  see_all ((now, item) ∷ rest) r = see_all rest (see now item r)

  unfoldable pub create_and_run :
      Cluster kube
      → KubeResource
      → Option String
      → Option String
      → Option String
      → Result String (Reflector kube)
  create_and_run cluster resource namespace label_selector field_selector = do
    let api : Api = record { resource = resource.resource; namespace = namespace }
    let watch : Watch = record {
      api = api;
      label_selector = label_selector;
      field_selector = field_selector;
    }
    items ← cluster.until_ready watch
    ok (
        see_all items (record {
          watch = watch;
          reader = kube.new_store resource.resource;
          last_change_seen_at = cluster.now;
          pending = none;
        }))
