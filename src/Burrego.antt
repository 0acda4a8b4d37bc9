-- ===== src/Burrego.antt =====
-- crates/burrego/src: the errors, and the third-party code that the builtins of Rego call.
pub mod Glob
pub mod Regex
pub mod Memory
pub mod Guest
pub mod Json
pub mod Policy
pub mod Linker
pub mod Evaluator
pub mod Builder
pub mod HostFunctions
mod Sample
mod GuestTests
mod Tests
use policy_evaluator.Prelude.{String, Bool, Option, List, Result, ok_or}
use policy_evaluator.Prelude.Int.{ℤ}

pub data BurregoError : Type 0 where
  missing_rego_builtins : String → BurregoError
  wasm_engine_error : String → BurregoError
  rego_wasm_error : String → BurregoError
  -- `msg` and the text of `source`
  json_error : String → String → BurregoError
  evaluator_builder_error : String → BurregoError
  -- `name` and `message`
  builtin_error : String → String → BurregoError
  builtin_not_implemented_error : String → BurregoError
  execution_deadline_exceeded : BurregoError

-- serde_json and the crate regex; their errors are the texts that `{e:?}` makes of them
pub record Libraries : Type 1 where
  -- `serde_json::Value`
  pub Value : Type 0
  pub as_str : Value → Option String
  pub as_i64 : Value → Option ℤ
  -- `serde_json::to_value`
  pub string_to_value : String → Result String Value
  pub bool_to_value : Bool → Result String Value
  pub strings_to_value : List String → Result String Value
  -- `regex::Regex`
  pub Regex : Type 0
  pub new_regex : String → Result String Regex
  pub is_match : Regex → String → Bool
  pub split : Regex → String → List String
  pub find_iter : Regex → String → List String
  pub escape : String → String

module _ (lib : Libraries) where
  -- `as_str` on an argument, with the error of a builtin
  abbrev pub string_argument : String → String → lib.Value → Result BurregoError String
  string_argument name message value = ok_or (builtin_error name message) (lib.as_str value)
