-- ===== src/Rego/Build.antt =====
-- src/runtimes/rego/stack.rs: the Kubernetes context of a Rego policy.
use policy_evaluator.Prelude.{
  String, Option, none, some, List, [], ◌∷◌, Result, ok, err, ◌>>=◌, ◌≡◌, ◌≢◌, >>=-eq-ok,
  ok_injective, subst,
}
use policy_evaluator.Metadata.{ContextAwareResource}
use policy_evaluator.Callback.Requests.{Sdk}
use policy_evaluator.Callback.Host.{Channel}
use policy_evaluator.Request.{
  K8s, JsonValue, ValidateRequest, raw, admission_request, RegoPolicyExecutionMode, opa, gatekeeper,
}
use policy_evaluator.Rego.{RegoRuntimeError, callback_channel_not_set}
use policy_evaluator.Rego.Inventory.Gatekeeper.{GatekeeperInventory}
use policy_evaluator.Rego.Inventory.Opa.{new_inventory}
use policy_evaluator.Rego.Fetch.{Readers, get_allowed_resources, get_plural_names}
use policy_evaluator.Rego.Cache.{Clock, GateKeeperInventoryCache, get_inventory}
use policy_evaluator.Rego.Runtime.{
  Burrego, KubernetesContext, empty, opa_context, gatekeeper_context, Stack, validate, unreachable,
}
use policy_evaluator.Rego.Runtime.Unreachable.{IsUnreachable, validate-err}
use policy_evaluator.Prelude.Dict.{Dict}

module _ {k8s : K8s} {json : JsonValue} (b : Burrego k8s json) where
  -- the contexts that the runtime expects in a mode
  abbrev Fits : RegoPolicyExecutionMode → KubernetesContext b → Type 0
  Fits gatekeeper (opa_context inventory) = ⊥
  Fits _ _ = Unit

  Fits-reachable :
      (mode : RegoPolicyExecutionMode) (request : ValidateRequest k8s json)
      (ctx : KubernetesContext b)
      → Fits mode ctx
      → ¬ IsUnreachable b mode request ctx
  Fits-reachable opa request ctx fits = λ h. h
  Fits-reachable gatekeeper (raw req) ctx fits = λ h. h
  Fits-reachable gatekeeper (admission_request req) empty fits = λ h. h
  Fits-reachable gatekeeper (admission_request req) (opa_context inventory) fits = λ h. fits
  Fits-reachable gatekeeper (admission_request req) (gatekeeper_context bytes) fits = λ h. h

module _ {sdk : Sdk} {k8s : K8s} {json : JsonValue} (b : Burrego k8s json)
    (readers : Readers b.Data) (to_vec : GatekeeperInventory b.Data → Result String b.Bytes)
    (debug : ContextAwareResource → String) (now : Clock) where
  -- the branches for a channel that is set
  abbrev pub context_in :
      RegoPolicyExecutionMode
      → Channel sdk
      → GateKeeperInventoryCache b.Bytes
      → List ContextAwareResource
      → Result RegoRuntimeError (KubernetesContext b × GateKeeperInventoryCache b.Bytes)
  context_in opa channel cache rs = do
    cluster_resources ← get_allowed_resources readers channel rs
    plural_names ← get_plural_names readers channel rs
    inventory ← new_inventory debug plural_names cluster_resources
    ok (opa_context inventory, cache)
  context_in gatekeeper channel cache rs = do
    found ← get_inventory readers to_vec channel now cache rs
    ok (gatekeeper_context found.0, found.1)

  abbrev pub context_over :
      RegoPolicyExecutionMode
      → Option (Channel sdk)
      → GateKeeperInventoryCache b.Bytes
      → List ContextAwareResource
      → Result RegoRuntimeError (KubernetesContext b × GateKeeperInventoryCache b.Bytes)
  context_over mode callback_channel cache [] = ok (empty, cache)
  context_over mode none cache (r ∷ rs) = err callback_channel_not_set
  context_over mode (some channel) cache (r ∷ rs) = context_in mode channel cache (r ∷ rs)

  -- `Stack::build_kubernetes_context`, with the global cache that it leaves
  unfoldable pub build_kubernetes_context :
      Stack b
      → Option (Channel sdk)
      → GateKeeperInventoryCache b.Bytes
      → List ContextAwareResource
      → Result RegoRuntimeError (KubernetesContext b × GateKeeperInventoryCache b.Bytes)
  build_kubernetes_context stack callback_channel cache ctx_aware_resources_allow_list =
      context_over stack.policy_execution_mode callback_channel cache ctx_aware_resources_allow_list

  context_over-Fits :
      (mode : RegoPolicyExecutionMode) (callback_channel : Option (Channel sdk))
      (cache next : GateKeeperInventoryCache b.Bytes) (rs : List ContextAwareResource)
      (ctx : KubernetesContext b)
      → context_over mode callback_channel cache rs ≡ ok (ctx, next)
      → Fits b mode ctx
  context_over-Fits opa channel cache next rs ctx h = tt
  context_over-Fits gatekeeper channel cache next [] ctx h =
      let whole = ok_injective h in subst (λ q. Fits b gatekeeper q.0) whole tt
  context_over-Fits gatekeeper none cache next (r ∷ rs) ctx h = cc
  context_over-Fits gatekeeper (some channel) cache next (r ∷ rs) ctx h =
      let (found, done, rest) =
        >>=-eq-ok (get_inventory readers to_vec channel now cache (r ∷ rs))
          (λ q. ok (gatekeeper_context q.0, q.1)) h in
      let whole = ok_injective rest in subst (λ q. Fits b gatekeeper q.0) whole tt

  -- A policy that is validated with the context that `build_kubernetes_context` built for it never
  -- reaches the panic of `Runtime::validate`, whatever the request and the settings are.
  pub build_kubernetes_context-validate :
      (stack : Stack b) (callback_channel : Option (Channel sdk))
      (cache next : GateKeeperInventoryCache b.Bytes) (rs : List ContextAwareResource)
      (ctx : KubernetesContext b) (settings : Dict String json.Value)
      (request : ValidateRequest k8s json)
      → build_kubernetes_context stack callback_channel cache rs ≡ ok (ctx, next)
      → validate b stack settings request ctx ≢ err unreachable
  unfolding build_kubernetes_context
  build_kubernetes_context-validate stack callback_channel cache next rs ctx settings request h
        panic =
      Fits-reachable b stack.policy_execution_mode request ctx
        (context_over-Fits stack.policy_execution_mode callback_channel cache next rs ctx h)
        ((validate-err b stack settings request ctx).0 panic)
