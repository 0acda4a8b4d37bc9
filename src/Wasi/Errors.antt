-- ===== src/Wasi/Errors.antt =====
-- src/runtimes/wasi_cli/errors.rs: the errors of the WASI runtime, and what they say.
use policy_evaluator.Prelude.{String, ◌<>◌}

-- The errors of wasmtime and of the standard library are their texts.
pub data WasiRuntimeError : Type 0 where
  wasi_evaluation : (stderr error : String) → WasiRuntimeError
  wasm_host_func_definition_error : (name error : String) → WasiRuntimeError
  wasm_missing_start_fn : String → WasiRuntimeError
  pipe_conversion : (name error : String) → WasiRuntimeError
  wasm_linker_error wasm_instantiate : String → WasiRuntimeError
  wasi_mem_export wasi_mem_export_cannot_convert : WasiRuntimeError
  wasi_ctx_builder wasi_mem_op_to_utf8 : String → WasiRuntimeError
  wasi_cannot_write_stdin wasi_write_access_stdin : WasiRuntimeError

unfoldable pub error_to_string : WasiRuntimeError → String
error_to_string (wasi_evaluation stderr error) = stderr
error_to_string (wasm_host_func_definition_error name error) =
    "cannot define host function '" <> name <> "': " <> error
error_to_string (wasm_missing_start_fn e) = "cannot find `_start` function inside of module: " <> e
error_to_string (pipe_conversion name error) = name <> " pipe conversion error: " <> error
error_to_string (wasm_linker_error e) = "cannot instantiate module: " <> e
error_to_string (wasm_instantiate e) = "cannot add to linker: " <> e
error_to_string wasi_mem_export = "cannot find 'mem' export"
error_to_string wasi_mem_export_cannot_convert =
    "'mem' export cannot be converted into a Memory instance"
error_to_string (wasi_ctx_builder e) = "cannot build WasiCtxBuilder: " <> e
error_to_string (wasi_mem_op_to_utf8 e) = "host_call: cannot convert bd to UTF8: " <> e
error_to_string wasi_cannot_write_stdin = "host_call: cannot write to STDIN"
error_to_string wasi_write_access_stdin = "host_call: cannot get write access to STDIN"
