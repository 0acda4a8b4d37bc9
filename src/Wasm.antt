-- ===== src/Wasm.antt =====
-- The engine and the modules of wasmtime, which the preparation of every kind of policy starts from.
-- They are not part of the repository.
use policy_evaluator.Prelude.{String, Bool, Result}
use policy_evaluator.Callback.Requests.{Bytes}

pub record Wasm : Type 1 where
  pub Engine : Type 0
  pub Module : Type 0
  pub Config : Type 0
  pub Cache : Type 0
  -- `wasmtime::Error`
  pub Error : Type 0
  pub new_config : Config
  pub new_cache : Result Error Cache
  pub with_cache : Config → Cache → Config
  pub epoch_interruption : Config → Bool → Config
  pub new_engine : Config → Result Error Engine
  pub module_from_file : Engine → String → Result Error Module
  pub new_module : Engine → Bytes → Result Error Module
