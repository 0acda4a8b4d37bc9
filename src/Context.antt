-- ===== src/Context.antt =====
-- src/evaluation_context.rs: what is known while a policy is evaluated.
use policy_evaluator.Prelude.{
  ℕ, String, List, Bool, true, Option, ◌==◌, string_eq, ◌&&◌, contains, contains_iff, In, Eq, ◌≡◌,
  ◌↔◌, arith, eq_iff,
}
use policy_evaluator.Metadata.{ContextAwareResource}

-- the derived `Eq` of `ContextAwareResource`
abbrev pub resource_beq : ContextAwareResource → ContextAwareResource → Bool
resource_beq a b = a.api_version == b.api_version && a.kind == b.kind

pub resource_beq_iff : (a b : ContextAwareResource) → (resource_beq a b ≡ true) ↔ (a ≡ b)
resource_beq_iff a b = ground (arith, eq_iff a.api_version b.api_version, eq_iff a.kind b.kind)

instance abbrev pub resource_eq : Eq ContextAwareResource
resource_eq = record { beq = resource_beq; beq_iff = resource_beq_iff }

-- `Channel` is the sender of the callback channel. A `BTreeSet` is a list of its members.
module _ (Channel : Type 0) where
  pub record EvaluationContext : Type 0 where
    pub policy_id : String
    pub callback_channel : Option Channel
    pub ctx_aware_resources_allow_list : List ContextAwareResource
    pub epoch_deadline : Option ℕ

module _ {Channel : Type 0} where
  unfoldable pub can_access_kubernetes_resource : EvaluationContext Channel → String → String → Bool
  can_access_kubernetes_resource ctx api_version kind =
      contains ctx.ctx_aware_resources_allow_list
        (record { api_version = api_version; kind = kind })

  -- Access to a resource is granted exactly if the allow list has its version and its kind.
  pub can_access_kubernetes_resource_iff :
      (ctx : EvaluationContext Channel) (api_version kind : String)
      → (can_access_kubernetes_resource ctx api_version kind ≡ true)
        ↔ In (record { api_version = api_version; kind = kind }) ctx.ctx_aware_resources_allow_list
  unfolding can_access_kubernetes_resource
  can_access_kubernetes_resource_iff ctx api_version kind = contains_iff _ _
