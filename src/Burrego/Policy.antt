-- ===== src/Burrego/Policy.antt =====
-- crates/burrego/src/policy.rs: the functions that an OPA policy exports, and its evaluation.
use mathlib.Core.List.{[], ◌∷◌}
use policy_evaluator.Prelude.{
  ℕ, ◌^◌, String, Option, none, some, List, Result, ok, err, ◌<>◌, ltb, if◌then◌else◌,
}
use policy_evaluator.Prelude.Int.{ℤ, pos, negsuc}
use policy_evaluator.Prelude.Dict.{Dict, insert}
use policy_evaluator.Prelude.{string_eq}
use policy_evaluator.Burrego.{BurregoError, rego_wasm_error}
use policy_evaluator.Burrego.Memory.{Bytes}
use policy_evaluator.Burrego.Guest.{
  Guest, Run, pure, fail, panic, bind, or_run, call_guest, map_call_error,
}
use policy_evaluator.Burrego.Json.{as_i32, exported, pull_json, push_json, push_json_raw}

-- `i32::try_from(id).unwrap()`, with `none` for its panic
abbrev pub try_i32 : ℤ → Option ℕ
try_i32 (pos n) = if ltb n (2 ^ 31) then some n else none
try_i32 (negsuc n) = if ltb n (2 ^ 31) then some (as_i32 (negsuc n)) else none

module _ (g : Guest) where
  pub record Policy : Type 0 where
    pub builtins_fn : g.Func
    pub entrypoints_fn : g.Func
    pub opa_heap_ptr_get_fn : g.Func
    pub opa_heap_ptr_set_fn : g.Func
    pub opa_eval_ctx_new_fn : g.Func
    pub opa_eval_ctx_set_input_fn : g.Func
    pub opa_eval_ctx_set_data_fn : g.Func
    pub opa_eval_ctx_set_entrypoint_fn : g.Func
    pub opa_eval_ctx_get_result_fn : g.Func
    pub opa_json_dump_fn : g.Func
    pub opa_malloc_fn : g.Func
    pub opa_json_parse_fn : g.Func
    pub eval_fn : g.Func
    pub data_addr : ℕ
    pub base_heap_ptr : ℕ
    pub data_heap_ptr : ℕ

  infixl 5 ◌>>=◌
  abbrev ◌>>=◌ : {A B : Type 0} → Run g A → (A → Run g B) → Run g B
  m >>= k = bind g m k

  abbrev pub get_function : String → Run g g.Func
  get_function name = exported g (λ n. "cannot get " <> n <> " function: ") name

  -- a call whose interruption is told apart
  abbrev pub invoke_guest : String → g.Func → List ℕ → Run g ℕ
  invoke_guest name f args =
      call_guest g (map_call_error g ("error invoking " <> name <> " function")) f args

  unfoldable pub new_policy : Run g Policy
  new_policy = do
    builtins_fn ← get_function "builtins"
    entrypoints_fn ← get_function "entrypoints"
    opa_heap_ptr_get_fn ← get_function "opa_heap_ptr_get"
    opa_heap_ptr_set_fn ← get_function "opa_heap_ptr_set"
    opa_eval_ctx_new_fn ← get_function "opa_eval_ctx_new"
    opa_eval_ctx_set_input_fn ← get_function "opa_eval_ctx_set_input"
    opa_eval_ctx_set_data_fn ← get_function "opa_eval_ctx_set_data"
    opa_eval_ctx_set_entrypoint_fn ← get_function "opa_eval_ctx_set_entrypoint"
    opa_eval_ctx_get_result_fn ← get_function "opa_eval_ctx_get_result"
    opa_json_dump_fn ← get_function "opa_json_dump"
    opa_malloc_fn ← get_function "opa_malloc"
    opa_json_parse_fn ← get_function "opa_json_parse"
    eval_fn ← get_function "eval"
    data_addr ← push_json g opa_malloc_fn opa_json_parse_fn g.empty_object
    base_heap_ptr ← invoke_guest "opa_heap_ptr_get" opa_heap_ptr_get_fn []
    pure g (record {
      builtins_fn = builtins_fn;
      entrypoints_fn = entrypoints_fn;
      opa_heap_ptr_get_fn = opa_heap_ptr_get_fn;
      opa_heap_ptr_set_fn = opa_heap_ptr_set_fn;
      opa_eval_ctx_new_fn = opa_eval_ctx_new_fn;
      opa_eval_ctx_set_input_fn = opa_eval_ctx_set_input_fn;
      opa_eval_ctx_set_data_fn = opa_eval_ctx_set_data_fn;
      opa_eval_ctx_set_entrypoint_fn = opa_eval_ctx_set_entrypoint_fn;
      opa_eval_ctx_get_result_fn = opa_eval_ctx_get_result_fn;
      opa_json_dump_fn = opa_json_dump_fn;
      opa_malloc_fn = opa_malloc_fn;
      opa_json_parse_fn = opa_json_parse_fn;
      eval_fn = eval_fn;
      data_addr = data_addr;
      base_heap_ptr = base_heap_ptr;
      data_heap_ptr = base_heap_ptr;
    })

  -- the loops over the object that a guest returns
  unfoldable pub collect_names : Dict String ℕ → Dict String g.Value → Run g (Dict String ℕ)
  collect_names builtins [] = pure g builtins
  collect_names builtins ((name, value) ∷ rest) = do
    id ← or_run g (panic g) (g.as_i64 value)
    collect_names (insert builtins name (as_i32 id)) rest

  unfoldable pub collect_entrypoints : Dict String ℕ → Dict String g.Value → Run g (Dict String ℕ)
  collect_entrypoints entrypoints [] = pure g entrypoints
  collect_entrypoints entrypoints ((name, value) ∷ rest) = do
    id ← or_run g (panic g) (g.as_i64 value)
    n ← or_run g (panic g) (try_i32 id)
    collect_entrypoints (insert entrypoints name n) rest

  unfoldable pub builtins_of : Policy → Run g (Dict String ℕ)
  builtins_of policy = do
    addr ← invoke_guest "builtins" policy.builtins_fn []
    value ← pull_json g policy.opa_json_dump_fn addr
    entries ←
        or_run g (fail g (rego_wasm_error "OPA builtins didn't return a dictionary"))
          (g.as_object value)
    collect_names [] entries

  unfoldable pub entrypoints_of : Policy → Run g (Dict String ℕ)
  entrypoints_of policy = do
    addr ← invoke_guest "entrypoints" policy.entrypoints_fn []
    value ← pull_json g policy.opa_json_dump_fn addr
    entries ←
        or_run g (fail g (rego_wasm_error "OPA entrypoints didn't return a dictionary"))
          (g.as_object value)
    collect_entrypoints [] entries

  abbrev pub push_data : Policy → Bytes → Run g ℕ
  push_data policy bytes = do
    done ← invoke_guest "opa_heap_ptr_set" policy.opa_heap_ptr_set_fn (policy.base_heap_ptr ∷ [])
    push_json_raw g policy.opa_malloc_fn policy.opa_json_parse_fn bytes

  abbrev pub data_kept :
      Policy
      → Option (Result BurregoError ℕ × g.Store)
      → Option ((Result BurregoError Unit × Policy) × g.Store)
  data_kept policy none = none
  data_kept policy (some (err e, store)) = some ((err e, policy), store)
  data_kept policy (some (ok data_heap_ptr, store)) =
      some ((ok tt, record policy { data_heap_ptr = data_heap_ptr }), store)

  abbrev pub data_pushed :
      Policy
      → Option (Result BurregoError ℕ × g.Store)
      → Option ((Result BurregoError Unit × Policy) × g.Store)
  data_pushed policy none = none
  data_pushed policy (some (err e, store)) = some ((err e, policy), store)
  data_pushed policy (some (ok data_addr, store)) =
      data_kept (record policy { data_addr = data_addr })
        (invoke_guest "opa_heap_ptr_get" policy.opa_heap_ptr_get_fn [] store)

  -- with the policy that it leaves, which has the new address even if the last call fails
  unfoldable pub set_data :
      Policy → Bytes → g.Store → Option ((Result BurregoError Unit × Policy) × g.Store)
  set_data policy bytes store = data_pushed policy (push_data policy bytes store)

  unfoldable pub evaluate_policy : Policy → ℕ → g.Value → Run g g.Value
  evaluate_policy policy entrypoint_id input = do
    reset ← invoke_guest "opa_heap_ptr_set" policy.opa_heap_ptr_set_fn (policy.data_heap_ptr ∷ [])
    input_addr ← push_json g policy.opa_malloc_fn policy.opa_json_parse_fn input
    ctx_addr ← invoke_guest "opa_eval_ctx_new" policy.opa_eval_ctx_new_fn []
    input_set ←
        invoke_guest "opa_eval_ctx_set_input" policy.opa_eval_ctx_set_input_fn
          (ctx_addr ∷ input_addr ∷ [])
    data_set ←
        invoke_guest "opa_eval_ctx_set_data" policy.opa_eval_ctx_set_data_fn
          (ctx_addr ∷ policy.data_addr ∷ [])
    entrypoint_set ←
        invoke_guest "opa_eval_ctx_set_entrypoint" policy.opa_eval_ctx_set_entrypoint_fn
          (ctx_addr ∷ entrypoint_id ∷ [])
    evaluated ← invoke_guest "opa_eval" policy.eval_fn (ctx_addr ∷ [])
    res_addr ←
        invoke_guest "opa_eval_ctx_get_result" policy.opa_eval_ctx_get_result_fn (ctx_addr ∷ [])
    pull_json g policy.opa_json_dump_fn res_addr
