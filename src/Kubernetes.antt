-- ===== src/Kubernetes.antt =====
-- src/callback_handler/kubernetes: the resources of the cluster that the host looks up for policies.
-- This has the data of kubernetes.rs, client.rs and reflector.rs, and the crate kube as parameters.
pub mod Reflector
pub mod Client
pub mod Calls
pub mod Sample
mod Tests
use policy_evaluator.Prelude.{
  ℕ, String, Bool, true, Option, List, Result, ◌≡◌, ◌↔◌, Eq, string_eq, ◌==◌, ◌&&◌, arith, eq_iff,
}

pub record ApiVersionKind : Type 0 where
  pub api_version : String
  pub kind : String

abbrev api_version_kind_beq : ApiVersionKind → ApiVersionKind → Bool
api_version_kind_beq a b = a.api_version == b.api_version && a.kind == b.kind

pub api_version_kind_beq_iff : (a b : ApiVersionKind) → (api_version_kind_beq a b ≡ true) ↔ (a ≡ b)
api_version_kind_beq_iff a b =
    ground (arith, eq_iff a.api_version b.api_version, eq_iff a.kind b.kind)

-- the derived `Eq`
instance abbrev pub api_version_kind_eq : Eq ApiVersionKind
api_version_kind_eq = record { beq = api_version_kind_beq; beq_iff = api_version_kind_beq_iff }

-- `kube::api::ApiResource`
pub record ApiResource : Type 0 where
  pub group : String
  pub version : String
  pub api_version : String
  pub kind : String
  pub plural : String

pub record KubeResource : Type 0 where
  pub resource : ApiResource
  pub namespaced : Bool

-- the fields of `APIResource` of k8s_openapi that are read
pub record ListedResource : Type 0 where
  pub name : String
  pub kind : String
  pub namespaced : Bool

-- `kube::api::Api` for the objects of a resource: of one namespace, or of all
pub record Api : Type 0 where
  pub resource : ApiResource
  pub namespace : Option String

-- the `Api` and the `watcher::Config` of a watch
pub record Watch : Type 0 where
  pub api : Api
  pub label_selector : Option String
  pub field_selector : Option String

-- the types and functions of kube that do not ask the cluster
pub record Kube : Type 1 where
  -- `DynamicObject`
  pub Object : Type 0
  -- `watcher::Event` and its `modify`
  pub Event : Type 0
  pub modify : (Object → Object) → Event → Event
  -- `managed_fields_mut().clear()` and `annotations_mut().remove`
  pub clear_managed_fields : Object → Object
  pub remove_annotation : String → Object → Object
  -- a store, with its writer and its reader
  pub Store : Type 0
  pub new_store : ApiResource → Store
  pub apply_watcher_event : Event → Store → Store
  pub state : Store → List Object
  pub SubjectAccessReview : Type 0
  pub SubjectAccessReviewStatus : Type 0

-- What the cluster answers during a call, and the instant at which a reflector is made in it. An
-- error of kube is its text.
pub record Cluster (kube : Kube) : Type 0 where
  pub now : ℕ
  pub list_core_api_resources : String → Result String (List ListedResource)
  pub list_api_group_resources : String → Result String (List ListedResource)
  -- what a watch gives until its store is ready, each at its instant, or the error for which the
  -- store is not ready
  pub until_ready : Watch → Result String (List (ℕ × Result String kube.Event))
  pub get_opt : Api → String → Result String (Option kube.Object)
  -- `create` of a review, with the status of what it returns
  pub create_review :
      kube.SubjectAccessReview → Result String (Option kube.SubjectAccessReviewStatus)
