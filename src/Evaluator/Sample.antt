-- ===== src/Evaluator/Sample.antt =====
-- Stand-ins for the libraries around an evaluator, at which the theorems are exercised: a guest of
-- waPC answers its first call, and runs past its deadline in every later one.
use policy_evaluator.Prelude.{
  ℕ, ◌+◌, String, true, none, some, [], ◌∷◌, Result, ok, err, refl, ◌==◌, nat_eq, if◌then◌else◌,
}
use policy_evaluator.Callback.Requests.{Bytes}
use policy_evaluator.Callback.Sample.{unit_sdk, pods_only, connected}
use policy_evaluator.Json.Sample.{sample}
use policy_evaluator.Marshal.{Marshal}
use policy_evaluator.Response.{PolicyValidationResponse}
use policy_evaluator.Rego.Sample.{debug, unit_k8s, texts, clean, silent, print}
use policy_evaluator.Wapc.{WapcLibrary, WapcStack}
use policy_evaluator.Wasi.HostCall.{Utf8}
use policy_evaluator.Wasi.Stack.{Wasmtime}
use policy_evaluator.Wasm.{Wasm}
use policy_evaluator.Evaluator.Libraries.{Environment}

abbrev pub unit_wasm : Wasm
unit_wasm = record {
  Engine = Unit;
  Module = Unit;
  Config = Unit;
  Cache = Unit;
  Error = String;
  new_config = tt;
  new_cache = ok tt;
  with_cache = λ config cache. tt;
  epoch_interruption = λ config on. tt;
  new_engine = λ config. ok tt;
  module_from_file = λ engine file. ok tt;
  new_module = λ engine contents. ok tt;
}

-- texts that are told apart by their first byte
abbrev read_text : Bytes → Result String String
read_text [] = ok ""
read_text (n ∷ ns) =
    if n == 1
    then ok "kubewarden"
    else if n == 2
    then ok "kubernetes"
    else if n == 3
    then ok "list_resources_all"
    else err "not UTF-8"

abbrev pub ascii : Utf8
ascii = record { as_bytes = λ text. 7 ∷ []; from_utf8 = read_text }

abbrev pub accepting : PolicyValidationResponse sample
accepting = record {
  accepted = true;
  message = none;
  code = none;
  mutated_object = none;
  audit_annotations = none;
  warnings = none;
}

abbrev pub written : Marshal unit_k8s texts sample
written = record {
  to_value = λ request. ok "object";
  to_value_succeeds = λ request. ("object", refl);
  params_to_string = λ request settings. ok "params";
  params_to_vec = λ request settings. ok [];
  settings_to_string = λ settings. ok "{}";
  response_from_slice = λ bytes. ok accepting;
  settings_response_from_slice = λ bytes. ok (record { valid = true; message = none });
  error_debug = λ e. e;
  as_bytes = λ text. [];
}

-- the host counts the calls since it was made
abbrev pub once : WapcLibrary unit_wasm unit_sdk
once = record {
  EngineProviderPre = Unit;
  EngineProvider = Unit;
  WapcHost = ℕ;
  ProtocolVersion = Unit;
  ProviderError = String;
  Error = String;
  VersionError = String;
  provider_error_to_string = λ e. e;
  error_to_string = λ e. e;
  error_debug = λ e. e;
  version_error_to_string = λ e. e;
  build_pre = λ engine program. ok tt;
  rehydrate_pre = λ pre deadlines. ok tt;
  new_host = λ provider callback. ok 0;
  call = λ host op payload. (
    if host == 0 then ok [] else err "guest code interrupted, execution deadline exceeded",
    host + 1,
  );
  version_try_from = λ bytes. ok tt;
}

abbrev pub programs : Wasmtime unit_wasm ascii pods_only
programs = record {
  Linker = Unit;
  InstancePre = Unit;
  Instance = Unit;
  Start = Unit;
  Failure = Unit;
  new_linker = λ engine. tt;
  add_to_linker = λ linker. ok tt;
  func_wrap = λ linker namespace function implementation. ok tt;
  instantiate_pre = λ linker program. ok tt;
  args = λ args. ok tt;
  instantiate = λ pre. ok tt;
  start_of = λ instance_of. ok tt;
  call = λ start deadline args ctx.
      some (record { evaluation_result = ok tt; stdout = some (2 ∷ []); stderr = some [] });
  exit_code = λ failure. none;
  failure_to_string = λ failure. "exit";
}

abbrev pub environment : Environment
environment = record {
  wasm = unit_wasm;
  sdk = unit_sdk;
  decode = pods_only;
  utf8 = ascii;
  k8s = unit_k8s;
  json = texts;
  serde = sample;
  m = written;
  l = once;
  w = programs;
  b = clean;
  build_burrego = λ engine program deadline. ok tt;
  readers = silent;
  inventory_to_vec = print;
  resource_debug = debug;
  bytes_debug = λ bytes. "[]";
}

abbrev pub new_wapc : WapcStack pods_only once
new_wapc = record {
  wapc_host = 0;
  stack_pre = record { engine_provider_pre = tt };
  eval_ctx = connected;
}
