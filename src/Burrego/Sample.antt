-- ===== src/Burrego/Sample.antt =====
-- A guest with one builtin and one entrypoint, whose store is the list of the deadlines it was given.
use mathlib.Core.List.{[], ◌∷◌}
use policy_evaluator.Prelude.{
  ℕ, String, Bool, true, Option, none, some, List, ok, ◌==◌, nat_eq, string_eq, if◌then◌else◌,
  length,
}
use policy_evaluator.Prelude.Int.{ℤ, pos}
use policy_evaluator.Prelude.Dict.{Dict}
use policy_evaluator.Burrego.Memory.{Bytes}
use policy_evaluator.Burrego.Guest.{Guest}
use policy_evaluator.Burrego.Linker.{Engine}
use policy_evaluator.Burrego.Policy.{Policy}
use policy_evaluator.Burrego.HostFunctions.{Builtin}
use policy_evaluator.Burrego.Evaluator.{Evaluator}
use policy_evaluator.Burrego.Builder.{
  EvaluatorBuilder, default_builder, with_policy_path, with_host_callbacks,
}

pub data SampleJson : Type 0 where
  number : ℕ → SampleJson
  -- an object with one field, a number
  object : String → ℕ → SampleJson
  no_fields : SampleJson

-- a text is one byte, and stands at the address of ten times its value
abbrev stored : ℕ → ℕ
stored addr = if addr == 10 then 1 else if addr == 20 then 2 else if addr == 60 then 6 else 0

abbrev json_of : Bytes → SampleJson
json_of [] = number 0
json_of (n ∷ bytes) =
    if n == 1 then object "sprintf" 7 else if n == 2 then object "main" 0 else number n

abbrev fields_of : SampleJson → Option (Dict String SampleJson)
fields_of (number n) = none
fields_of (object name n) = some ((name, number n) ∷ [])
fields_of no_fields = some []

abbrev number_of : SampleJson → Option ℤ
number_of (number n) = some (pos n)
number_of (object name n) = none
number_of no_fields = none

abbrev address_of : String → List ℕ → ℕ
address_of name [] = if name == "builtins" then 10 else if name == "entrypoints" then 20 else 30
address_of name (n ∷ ns) =
    if name == "opa_json_dump" then n else if name == "opa_eval_ctx_get_result" then 60 else 40

abbrev pub sample_guest : Guest
sample_guest = record {
  Store = List ℕ;
  Func = String;
  get_typed_func = λ store name. ok name;
  Error = Unit;
  is_interrupt = λ e. true;
  error_to_string = λ e. "interrupt";
  call = λ f args store. (ok (address_of f args), store);
  read = λ store addr. ok (stored addr);
  write = λ store addr bytes. ok store;
  get_global = λ store name. some 1;
  set_epoch_deadline = λ d store. d ∷ store;
  Value = SampleJson;
  from_slice = λ bytes. ok (json_of bytes);
  to_vec = λ v. ok (1 ∷ []);
  empty_object = no_fields;
  as_object = fields_of;
  as_i64 = number_of;
}

abbrev pub sample_engine : Engine sample_guest
sample_engine = record {
  Engine = Bool;
  Module = String;
  new_engine = λ b. ok b;
  module_from_file = λ engine path. ok path;
  new_store = λ engine. [];
  new_memory = λ store. ok store;
  define_memory = λ store. ok store;
  func_wrap = λ store name. ok store;
  instantiate = λ store m. ok store;
}

abbrev pub count_arguments : Builtin sample_guest
count_arguments args = some (ok (number (length args)))

abbrev pub table : Dict String (Builtin sample_guest)
table = ("trace", count_arguments) ∷ ("sprintf", count_arguments) ∷ []

abbrev pub sample_policy : Policy sample_guest
sample_policy = record {
  builtins_fn = "builtins";
  entrypoints_fn = "entrypoints";
  opa_heap_ptr_get_fn = "opa_heap_ptr_get";
  opa_heap_ptr_set_fn = "opa_heap_ptr_set";
  opa_eval_ctx_new_fn = "opa_eval_ctx_new";
  opa_eval_ctx_set_input_fn = "opa_eval_ctx_set_input";
  opa_eval_ctx_set_data_fn = "opa_eval_ctx_set_data";
  opa_eval_ctx_set_entrypoint_fn = "opa_eval_ctx_set_entrypoint";
  opa_eval_ctx_get_result_fn = "opa_eval_ctx_get_result";
  opa_json_dump_fn = "opa_json_dump";
  opa_malloc_fn = "opa_malloc";
  opa_json_parse_fn = "opa_json_parse";
  eval_fn = "eval";
  data_addr = 40;
  base_heap_ptr = 30;
  data_heap_ptr = 30;
}

abbrev pub sample_evaluator : Evaluator sample_engine
sample_evaluator = record {
  engine = true;
  module_of = "policy.wasm";
  store = 5 ∷ 5 ∷ 5 ∷ [];
  stack_helper = record {
    opa_json_dump_fn = "opa_json_dump";
    opa_malloc_fn = "opa_malloc";
    opa_json_parse_fn = "opa_json_parse";
    builtins = (7, "sprintf") ∷ [];
  };
  policy = sample_policy;
  epoch_deadline = some 5;
  entrypoints = ("main", 0) ∷ [];
  used_builtins = "sprintf" ∷ [];
}

abbrev pub sample_builder : EvaluatorBuilder sample_engine
sample_builder =
    with_host_callbacks sample_engine
      (with_policy_path sample_engine "policy.wasm" (default_builder sample_engine))
