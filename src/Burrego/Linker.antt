-- ===== src/Burrego/Linker.antt =====
-- crates/burrego/src/opa_host_functions.rs: the functions that are added to the linker of wasmtime.
use policy_evaluator.Prelude.{String, Bool, Result, map_err, ◌>>=◌}
use policy_evaluator.Burrego.{BurregoError, builtin_error}
use policy_evaluator.Burrego.Guest.{Guest}

-- What wasmtime does before a module runs. An engine and a module are the crate's, and the store
-- has the linker in it.
pub record Engine (g : Guest) : Type 1 where
  pub Engine : Type 0
  pub Module : Type 0
  pub new_engine : Bool → Result String Engine
  pub module_from_file : Engine → String → Result String Module
  pub new_store : Engine → g.Store
  pub new_memory : g.Store → Result String g.Store
  pub define_memory : g.Store → Result String g.Store
  pub func_wrap : g.Store → String → Result String g.Store
  pub instantiate : g.Store → Module → Result String g.Store

-- `func_wrap` of the crate's linker, with the name of the function; the first error ends it
abbrev pub registered :
    {Linker : Type 0}
    → (Linker → String → Result String Linker)
    → String
    → String
    → Linker
    → Result BurregoError Linker
registered func_wrap function name linker =
    map_err (λ e. builtin_error name e) (func_wrap linker function)

unfoldable pub add_to_linker :
    {Linker : Type 0}
    → (Linker → String → Result String Linker)
    → Linker
    → Result BurregoError Linker
add_to_linker func_wrap linker = do
  with_abort ← registered func_wrap "opa_abort" "opa_abort" linker
  with_println ← registered func_wrap "opa_println" "opa_println" with_abort
  with_builtin0 ← registered func_wrap "opa_builtin0" "opa_builtin0" with_println
  with_builtin1 ← registered func_wrap "opa_builtin1" "opa_bunltin1" with_builtin0
  with_builtin2 ← registered func_wrap "opa_builtin2" "opa_builtin2" with_builtin1
  with_builtin3 ← registered func_wrap "opa_builtin3" "opa_builtin3" with_builtin2
  registered func_wrap "opa_builtin4" "opa_builtin4" with_builtin3
