-- ===== src/Evaluator/Tests.antt =====
-- Policies of every kind, at concrete inputs.
use policy_evaluator.Prelude.{
  ℕ, ◌-◌, ◌^◌, ◌<◌, arith, String, [], List, true, none, some, ok, ◌≡◌, refl,
}
use policy_evaluator.Callback.Sample.{pods_only, connected}
use policy_evaluator.Metadata.{opa}
use policy_evaluator.Request.{
  settings_try_from, ValidateRequest, admission_request, uid, opa as rego_opa,
}
use policy_evaluator.Response.Types.{AdmissionResponse, default_response}
use policy_evaluator.Rego.Prepare as RegoPrepare
use policy_evaluator.Rego.Sample.{unit_k8s, texts, stack, request}
use policy_evaluator.Wapc as Wapc
use policy_evaluator.Wapc.{WapcStack}
use policy_evaluator.Wapc.Runtime as WapcRuntime
use policy_evaluator.Evaluator.{PolicyEvaluator, PolicyEvaluatorPre, wapc, rego, rego_pre}
use policy_evaluator.Evaluator.Builder.{PolicyEvaluatorBuilder}
use policy_evaluator.Evaluator.Members.{
  PolicyGroupMemberWithContext, policies, try_from_with_context, StandsFor,
  try_from_with_context-StandsFor,
}
use policy_evaluator.Group.{PolicyGroupMemberSettings}
use policy_evaluator.Prelude.Int.{negsuc}
use policy_evaluator.Evaluator.Sample.{unit_wasm, environment, once, new_wapc}
use policy_evaluator.Evaluator.Calm.{IsCalm}

abbrev no_bytes : List ℕ → String
no_bytes bytes = "[]"

abbrev pod : ValidateRequest unit_k8s texts
pod = admission_request request

abbrev of_rego : PolicyEvaluator environment
of_rego = record { runtime = rego stack; eval_ctx = connected }

abbrev of_wapc : PolicyEvaluator environment
of_wapc = record { runtime = wapc new_wapc; eval_ctx = connected }

abbrev called_once : WapcStack pods_only once
called_once = record new_wapc { wapc_host = 1 }

abbrev allowed : AdmissionResponse
allowed = record default_response { uid = "uid"; allowed = true }

abbrev from_contents : PolicyEvaluatorBuilder unit_wasm
from_contents = record {
  engine = none;
  policy_file = none;
  policy_contents = some [];
  policy_module = none;
  execution_mode = some opa;
  wasmtime_cache = true;
  epoch_deadlines = none;
}

abbrev prepared : PolicyEvaluatorPre environment
prepared = record {
  stack_pre = rego_pre (record {
    engine = tt;
    wasm_module = tt;
    entrypoint_id = stack.entrypoint_id;
    policy_execution_mode = rego_opa;
  });
}

calm : IsCalm environment
calm = record {
  call_returns = λ start deadline args ctx h. cc;
  evaluate_returns = λ ev id input bytes h. cc;
  reset_returns = λ ev h. cc;
}

abbrev impatient : PolicyGroupMemberWithContext String
impatient = record {
  settings = "null";
  context_aware_resources = [];
  timeout_eval_seconds = some (negsuc 0);
}

abbrev impatient_settings : PolicyGroupMemberSettings (policies environment calm (λ m. 7) [])
impatient_settings = record {
  settings = [];
  ctx_aware_resources_allow_list = [];
  epoch_deadline = some (2 ^ 64 - 1);
}

impatient_is_read :
    try_from_with_context environment calm (λ m. 7) [] impatient ≡ ok impatient_settings
unfolding try_from_with_context settings_try_from
impatient_is_read = refl

-- a timeout of minus one second
try_from_with_context-StandsFor_example :
    (deadline : ℕ) × (some (2 ^ 64 - 1) ≡ some deadline)
    × (deadline < 2 ^ 64)
    × StandsFor environment deadline (negsuc 0)
try_from_with_context-StandsFor_example =
    try_from_with_context-StandsFor environment calm (λ m. 7) [] impatient (negsuc 0)
      impatient_settings refl (omega arith) impatient_is_read
