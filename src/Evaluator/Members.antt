-- ===== src/Evaluator/Members.antt =====
-- src/policy_group_evaluator.rs: the members of a group, made of the evaluators of this component
-- and of the resources that describe them.
use policy_evaluator.Prelude.{
  ℕ, ◌+◌, ◌^◌, ◌≤◌, ◌<◌, String, Option, none, some, List, [], map, Result, ok, ◌>>=◌, ◌<>◌, ◌≡◌,
  arith, >>=-eq-ok, ok_injective, ap, ◌∙◌, sym,
}
use policy_evaluator.Prelude.Dict.{Dict}
use policy_evaluator.Prelude.Int.{ℤ, pos, negsuc, as_u64}
use policy_evaluator.Callback.Host.{Channel}
use policy_evaluator.Group.{Policies, PolicyGroupMemberSettings}
use policy_evaluator.Metadata.{ContextAwareResource}
use policy_evaluator.Request.{ValidateRequest, uid, settings_try_from}
use policy_evaluator.Rego.Cache.{Clock, GateKeeperInventoryCache}
use policy_evaluator.Wapc.{WapcRuntimeError, runtime_error_to_string}
use policy_evaluator.Rego as Rego
use policy_evaluator.Evaluator.{
  PolicyEvaluator, PolicyEvaluatorPre, PolicyEvaluatorPreError, rehydrate_wapc, rehydrate_rego,
  rehydrate,
}
use policy_evaluator.Evaluator.Libraries.{Environment}
use policy_evaluator.Evaluator.Calm.{IsCalm, answer_of, settings_answer_of}

-- `PolicyGroupMemberWithContext` of the SDK; `Into<i32>` of the timeout is a number
pub record PolicyGroupMemberWithContext (Value : Type 0) : Type 0 where
  pub settings : Value
  pub context_aware_resources : List ContextAwareResource
  pub timeout_eval_seconds : Option ℤ

-- `PolicyGroupMember` of the SDK
pub record PolicyGroupMember (Value : Type 0) : Type 0 where
  pub settings : Value
  pub timeout_eval_seconds : Option ℤ

abbrev pub deadline_of : Option ℤ → Option ℕ
deadline_of none = none
deadline_of (some t) = some (as_u64 t)

-- `From` of the SDK's `ContextAwareResource`, which has the same two fields
unfoldable pub from_resource : ContextAwareResource → ContextAwareResource
from_resource resource = record { api_version = resource.api_version; kind = resource.kind }

module _ (env : Environment) where
  open env use {json, k8s, l, b}

  abbrev pub pre_error_to_string : PolicyEvaluatorPreError (WapcRuntimeError l) → String
  pre_error_to_string (rehydrate_wapc e) =
      "unable to rehydrate wapc module: " <> runtime_error_to_string l env.bytes_debug e
  pre_error_to_string (rehydrate_rego e) =
      "unable to rehydrate rego module: " <> Rego.error_to_string e

  -- What a group asks of the evaluators of its members, with one clock and one cache of
  -- inventories. A validation has an answer, since no guest panics.
  abbrev pub policies : IsCalm env → Clock → GateKeeperInventoryCache b.Bytes → Policies
  policies calm now cache = record {
    Request = ValidateRequest k8s json;
    uid = uid k8s json;
    Settings = Dict String json.Value;
    Channel = Channel env.sdk;
    Pre = PolicyEvaluatorPre env;
    PreError = PolicyEvaluatorPreError (WapcRuntimeError l);
    pre_error_to_string = pre_error_to_string;
    Evaluator = PolicyEvaluator env;
    rehydrate = rehydrate env;
    validate = answer_of env calm now cache;
    validate_settings = settings_answer_of env calm;
  }

  -- `TryFrom<&PolicyGroupMemberWithContext>`
  unfoldable pub try_from_with_context :
      (calm : IsCalm env) (now : Clock) (cache : GateKeeperInventoryCache b.Bytes)
      → PolicyGroupMemberWithContext json.Value
      → Result String (PolicyGroupMemberSettings (policies calm now cache))
  try_from_with_context calm now cache member = do
    settings ← settings_try_from json member.settings
    ok (record {
      settings = settings;
      ctx_aware_resources_allow_list = map from_resource member.context_aware_resources;
      epoch_deadline = deadline_of member.timeout_eval_seconds;
    })

  -- `TryFrom<&PolicyGroupMember>`
  unfoldable pub try_from_member :
      (calm : IsCalm env) (now : Clock) (cache : GateKeeperInventoryCache b.Bytes)
      → PolicyGroupMember json.Value
      → Result String (PolicyGroupMemberSettings (policies calm now cache))
  try_from_member calm now cache member = do
    settings ← settings_try_from json member.settings
    ok (record {
      settings = settings;
      ctx_aware_resources_allow_list = [];
      epoch_deadline = deadline_of member.timeout_eval_seconds;
    })

  -- the range of an `i32`
  abbrev pub IsI32 : ℤ → Type 0
  IsI32 (pos n) = n < 2 ^ 31
  IsI32 (negsuc n) = n < 2 ^ 31

  -- the deadline of a timeout: the timeout itself, or, for a negative one, its two's complement
  abbrev pub StandsFor : ℕ → ℤ → Type 0
  StandsFor deadline (pos n) = deadline ≡ n
  StandsFor deadline (negsuc n) = (2 ^ 63 ≤ deadline) × (deadline + n + 1 ≡ 2 ^ 64)

  as_u64-StandsFor : (t : ℤ) → IsI32 t → StandsFor (as_u64 t) t
  as_u64-StandsFor (pos n) h = omega arith
  as_u64-StandsFor (negsuc n) h = (omega arith, omega arith)

  as_u64-lt : (t : ℤ) → as_u64 t < 2 ^ 64
  as_u64-lt (pos n) = omega arith
  as_u64-lt (negsuc n) = omega arith

  -- For a member of a group whose guests do not panic, with a timeout, an `i32`, that can be
  -- converted, the deadline fits a `u64` and is the timeout, if that is not negative; a negative
  -- timeout -k becomes 2 ^ 64 - k, which is at least 2 ^ 63.
  pub try_from_with_context-StandsFor :
      (calm : IsCalm env) (now : Clock) (cache : GateKeeperInventoryCache b.Bytes)
      (member : PolicyGroupMemberWithContext json.Value) (t : ℤ)
      (member_settings : PolicyGroupMemberSettings (policies calm now cache))
      → member.timeout_eval_seconds ≡ some t
      → IsI32 t
      → try_from_with_context calm now cache member ≡ ok member_settings
      → (deadline : ℕ) × (member_settings.epoch_deadline ≡ some deadline)
        × (deadline < 2 ^ 64)
        × StandsFor deadline t
  unfolding try_from_with_context
  try_from_with_context-StandsFor calm now cache member t member_settings timeout in_range h =
      let (settings, read, rest) =
        >>=-eq-ok (settings_try_from json member.settings)
          (λ s. ok (record {
            settings = s;
            ctx_aware_resources_allow_list = map from_resource member.context_aware_resources;
            epoch_deadline = deadline_of member.timeout_eval_seconds;
          }))
          h in
      (
        as_u64 t,
        ap (λ q. q.epoch_deadline) (sym (ok_injective rest)) ∙ ap deadline_of timeout,
        as_u64-lt t,
        as_u64-StandsFor t in_range,
      )
