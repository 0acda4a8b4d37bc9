-- ===== src/Evaluator/Allowed.antt =====
-- src/policy_evaluator/evaluator.rs: when a policy of any kind allows a request.
use policy_evaluator.Prelude.{String, OkWith}
use policy_evaluator.Prelude.Dict.{Dict}
use policy_evaluator.Callback.Host.{Channel}
use policy_evaluator.Context.{EvaluationContext}
use policy_evaluator.Request.{ValidateRequest}
use policy_evaluator.Rego.Build.{build_kubernetes_context}
use policy_evaluator.Rego.Cache.{Clock, GateKeeperInventoryCache}
use policy_evaluator.Rego.Runtime as RegoRuntime
use policy_evaluator.Rego.Runtime.{KubernetesContext}
use policy_evaluator.Rego.Runtime.Verdict as RegoVerdict
use policy_evaluator.Wapc.Runtime.Verdict as WapcVerdict
use policy_evaluator.Wasi.Runtime as WasiRuntime
use policy_evaluator.Wasi.Runtime.Verdict as WasiVerdict
use policy_evaluator.Evaluator.{Runtime, wapc, rego, cli}
use policy_evaluator.Evaluator.Libraries.{Environment}

module _ (env : Environment) where
  open env use {decode, k8s, json, m, l, w, b}

  -- a context with which the policy is evaluated to a value that accepts
  abbrev pub AcceptsIn :
      RegoRuntime.Stack b
      → Dict String json.Value
      → ValidateRequest k8s json
      → KubernetesContext b × GateKeeperInventoryCache b.Bytes
      → Type 0
  AcceptsIn stack settings request built =
      (value : json.Value) × RegoVerdict.IsEvaluated b stack.policy_execution_mode stack settings
        request built.0 value
      × RegoVerdict.IsAcceptance b stack.policy_execution_mode value

  -- what has to succeed and to accept, by the kind of the policy
  abbrev pub AllowedBy :
      Clock
      → GateKeeperInventoryCache b.Bytes
      → Runtime env
      → EvaluationContext (Channel env.sdk)
      → Dict String json.Value
      → ValidateRequest k8s json
      → Type 0
  AllowedBy now cache (wapc stack) ctx settings request =
      OkWith (m.params_to_string request settings) (λ text.
        OkWith (WapcVerdict.call_on decode l env.bytes_debug m stack text)
          (WapcVerdict.AcceptedBy decode l env.bytes_debug m request))
  AllowedBy now cache (cli stack) ctx settings request =
      OkWith (m.params_to_vec request settings)
        (λ input. WasiVerdict.IsAcceptedRun w m request (WasiVerdict.run_on w m stack input))
  AllowedBy now cache (rego stack) ctx settings request =
      OkWith
        (build_kubernetes_context b env.readers env.inventory_to_vec env.resource_debug now stack
          ctx.callback_channel cache ctx.ctx_aware_resources_allow_list)
        (AcceptsIn stack settings request)
