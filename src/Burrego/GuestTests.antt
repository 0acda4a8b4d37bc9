-- ===== src/Burrego/GuestTests.antt =====
-- crates/burrego/src: the policies that are guests, at concrete inputs.
use mathlib.Core.List.{[], ◌∷◌}
use mathlib.Core.Logic.{inl}
use policy_evaluator.Prelude.{
  ℕ, String, Bool, true, none, some, List, contains, is_some, join, string_eq, nat_eq, ok, err, ◌≡◌,
  refl,
}
use policy_evaluator.Prelude.Dict.{get, insert, keys}
use policy_evaluator.Burrego.{
  wasm_engine_error, evaluator_builder_error, builtin_not_implemented_error, missing_rego_builtins,
}
use policy_evaluator.Burrego.Memory.{read_from, read_string}
use policy_evaluator.Burrego.Json.{
  pull_json, push_json, push_json_raw, collect_ids, new_stack_helper,
}
use policy_evaluator.Burrego.Json.Deadline.{HasNoDeadline, exchange-HasNoDeadline}
use policy_evaluator.Burrego.Linker.{add_to_linker}
use policy_evaluator.Burrego.Policy.{
  new_policy, collect_names, collect_entrypoints, builtins_of, entrypoints_of, set_data,
  evaluate_policy,
}
use policy_evaluator.Burrego.HostFunctions.{
  Builtin, Caller, invoke, opa_builtin, opa_builtin1, opa_builtin2, pull_arguments,
}
use policy_evaluator.Burrego.Evaluator.{
  Evaluator, setup, difference, from_engine_and_module, evaluate, has_id,
}
use policy_evaluator.Burrego.Evaluator.Served.{from_engine_and_module-IsServed}
use policy_evaluator.Burrego.Evaluator.Kept.{Keeps, evaluate-Keeps}
use policy_evaluator.Burrego.Builder.{
  EvaluatorBuilder, build_evaluator, validate_builder, default_builder, with_policy_path,
  with_module, with_engine, enable_epoch_interruptions, with_host_callbacks,
}
use policy_evaluator.Burrego.Builder.Expectations.{build_evaluator-returns}
use policy_evaluator.Burrego.Guest.{Guest}
use policy_evaluator.Burrego.Sample.{
  SampleJson, number, sample_guest, sample_engine, sample_policy, sample_evaluator, sample_builder,
  table,
}

made :
    from_engine_and_module sample_engine (keys table) true "policy.wasm" (some 5)
    ≡ some (ok sample_evaluator)
unfolding from_engine_and_module setup add_to_linker new_stack_helper new_policy builtins_of
    entrypoints_of collect_names collect_ids collect_entrypoints pull_json push_json push_json_raw
    read_from read_string difference contains insert
made = refl

from_engine_and_module-IsServed_example :
    (f : Builtin sample_guest) × (get table "sprintf" ≡ some f)
    × ((args : List SampleJson) → invoke sample_guest table "sprintf" args ≡ f args)
from_engine_and_module-IsServed_example =
    from_engine_and_module-IsServed sample_engine table true "policy.wasm" (some 5) made "sprintf"
      (inl refl)

-- without the builtin that the policy uses
not_made :
    from_engine_and_module sample_engine ("trace" ∷ []) true "policy.wasm" none
    ≡ some (err (missing_rego_builtins "sprintf"))
unfolding from_engine_and_module setup add_to_linker new_stack_helper new_policy builtins_of
    entrypoints_of collect_names collect_ids collect_entrypoints pull_json push_json push_json_raw
    read_from read_string difference contains insert join
not_made = refl

-- a guest whose calls are all interrupted
abbrev interrupted : Guest
interrupted = record sample_guest { call = λ f args store. (err tt, store) }

exchange-HasNoDeadline_example :
    HasNoDeadline interrupted (pull_json interrupted "opa_json_dump" 10 [])
    × HasNoDeadline interrupted (push_json interrupted "opa_malloc" "opa_json_parse" (number 3) [])
exchange-HasNoDeadline_example =
    exchange-HasNoDeadline interrupted "opa_json_dump" "opa_malloc" "opa_json_parse" 10 (number 3)
      []

interrupted_dump :
    pull_json interrupted "opa_json_dump" 10 []
    ≡ some (err (wasm_engine_error "cannot invoke opa_json_dump function: interrupt"), [])
unfolding pull_json
interrupted_dump = refl

abbrev over_specified : EvaluatorBuilder sample_engine
over_specified =
    with_module sample_engine "other.wasm"
      (with_engine sample_engine true (enable_epoch_interruptions sample_engine 5 sample_builder))

two_sources :
    build_evaluator sample_engine (keys table) over_specified
    ≡ some (err (evaluator_builder_error "policy_path and module cannot be set at the same time"))
unfolding build_evaluator validate_builder default_builder with_policy_path with_module with_engine
    enable_epoch_interruptions with_host_callbacks
two_sources = refl

always_made :
    (engine : Bool) (m : String)
    → is_some (from_engine_and_module sample_engine (keys table) engine m none) ≡ true
unfolding from_engine_and_module setup add_to_linker new_stack_helper new_policy builtins_of
    entrypoints_of collect_names collect_ids collect_entrypoints pull_json push_json push_json_raw
    read_from read_string difference contains insert
always_made engine m = refl

always_built : is_some (build_evaluator sample_engine (keys table) sample_builder) ≡ true
unfolding default_builder with_policy_path with_host_callbacks
always_built = build_evaluator-returns sample_engine (keys table) sample_builder always_made

abbrev debug : List (String × ℕ) → String
debug entries = "entrypoints"

abbrev show : ℕ → String
show n = "id"

evaluate-Keeps_example :
    Keeps sample_engine sample_evaluator
      (evaluate sample_engine debug show sample_evaluator 0 (number 3) (1 ∷ []))
evaluate-Keeps_example =
    evaluate-Keeps sample_engine debug show sample_evaluator 0 (number 3) (1 ∷ [])

abbrev evaluated_sample : Evaluator sample_engine
evaluated_sample = record sample_evaluator {
  store = 5 ∷ 5 ∷ 5 ∷ 5 ∷ [];
  policy = record sample_policy { data_addr = 40; data_heap_ptr = 30 };
}

evaluated :
    evaluate sample_engine debug show sample_evaluator 0 (number 3) (1 ∷ [])
    ≡ some (ok (number 6), evaluated_sample)
unfolding evaluate evaluate_policy set_data has_id pull_json push_json push_json_raw read_from
    read_string
evaluated = refl

abbrev caller : Caller sample_guest
caller = record {
  memory_export = λ store. some true;
  i32_to_string = λ n. "5";
  debug_error = λ e. "error";
  from_utf8 = λ bytes. ok "text";
}

second_builtin :
    opa_builtin2 sample_guest caller table (some sample_evaluator.stack_helper) 7 10 20 []
    ≡ some (ok 40, [])
unfolding opa_builtin2 opa_builtin pull_arguments invoke get pull_json push_json push_json_raw
    read_from read_string
second_builtin = refl

unknown_builtin :
    opa_builtin1 sample_guest caller table (some sample_evaluator.stack_helper) 5 10 []
    ≡ some (err (builtin_not_implemented_error "opa_bunltin1: cannot find builtin 5"), [])
unfolding opa_builtin1 opa_builtin get
unknown_builtin = refl
