-- ===== src/Burrego/HostFunctions.antt =====
-- crates/burrego/src/opa_host_functions.rs and builtins/builtins_helper.rs: what a guest calls.
use mathlib.Core.List.{[], ◌∷◌}
use policy_evaluator.Prelude.{
  ℕ, String, Bool, true, false, Option, none, some, List, Result, ok, err, ok_or, ◌<>◌, nat_eq,
  string_eq,
}
use policy_evaluator.Prelude.Dict.{Dict, get}
use policy_evaluator.Burrego.{BurregoError, rego_wasm_error, builtin_not_implemented_error}
use policy_evaluator.Burrego.Memory.{Bytes, read_string}
use policy_evaluator.Burrego.Guest.{Guest, Run, pure, panic, bind, lift, or_run}
use policy_evaluator.Burrego.Json.{StackHelper, pull_json, push_json}

module _ (g : Guest) where
  infixl 5 ◌>>=◌
  abbrev ◌>>=◌ : {A B : Type 0} → Run g A → (A → Run g B) → Run g B
  m >>= k = bind g m k

  -- a builtin, with `none` for its panic
  abbrev pub Builtin : Type 0
  Builtin = List g.Value → Option (Result BurregoError g.Value)

  abbrev pub applied : List g.Value → Option Builtin → String → Option (Result BurregoError g.Value)
  applied args (some builtin_fn) name = builtin_fn args
  applied args none name = some (err (builtin_not_implemented_error name))

  unfoldable pub invoke : Dict String Builtin → String → Builtin
  invoke builtins name args = applied args (get builtins name) name

  -- The callbacks of the host, with the crate's `get_export` of "memory", which may not be there or
  -- not be a memory. The printers are `i32` in decimal, `{:?}` of an error and `String::from_utf8`.
  pub record Caller : Type 0 where
    pub memory_export : g.Store → Option Bool
    pub i32_to_string : ℕ → String
    pub debug_error : BurregoError → String
    pub from_utf8 : Bytes → Result String String

  module _ (c : Caller) where
    abbrev pub memory_in : Option Bool → Result BurregoError Unit
    memory_in none = err (rego_wasm_error "cannot find 'memory' export")
    memory_in (some false) =
        err (rego_wasm_error "'memory' export cannot be converted into a memory object")
    memory_in (some true) = ok tt

    abbrev pub get_memory : Run g Unit
    get_memory store = some (memory_in (c.memory_export store), store)

    abbrev pub decoded : String → Result String String → String
    decoded name (ok text) = text
    decoded name (err e) =
        "cannot decode " <> name <> " message: didn't read a valid string from memory - " <> e

    abbrev pub message_of : String → Result BurregoError Bytes → String
    message_of name (ok bytes) = decoded name (c.from_utf8 bytes)
    message_of name (err e) = "cannot decode " <> name <> " message: " <> c.debug_error e

    -- the message that the callback of the host gets
    abbrev pub read_message : String → ℕ → Run g String
    read_message name addr store = with_message (read_string (g.read store) addr)
      where
        with_message :
            Option (Result BurregoError Bytes) → Option (Result BurregoError String × g.Store)
        with_message none = none
        with_message (some r) = some (ok (message_of name r), store)

    unfoldable pub opa_abort : Option (StackHelper g) → ℕ → Run g String
    opa_abort held addr = do
      stack_helper ← or_run g (panic g) held
      memory ← get_memory
      read_message "opa_abort" addr

    unfoldable pub opa_println : Option (StackHelper g) → ℕ → Run g String
    opa_println held addr = do
      stack_helper ← or_run g (panic g) held
      memory ← get_memory
      read_message "opa_println" addr

    -- `pull_json` on each argument in turn
    unfoldable pub pull_arguments : g.Func → List ℕ → Run g (List g.Value)
    pull_arguments opa_json_dump_fn [] = pure g []
    pull_arguments opa_json_dump_fn (p ∷ ps) = do
      value ← pull_json g opa_json_dump_fn p
      values ← pull_arguments opa_json_dump_fn ps
      pure g (value ∷ values)

    abbrev pub invoked : Option (Result BurregoError g.Value) → Run g g.Value
    invoked none = panic g
    invoked (some r) = lift g r

    -- what opa_builtin0 to opa_builtin4 share; nothing writes to the global helper, so that its lock
    -- is not poisoned
    unfoldable pub opa_builtin :
        String → Dict String Builtin → Option (StackHelper g) → ℕ → List ℕ → Run g ℕ
    opa_builtin label builtins held builtin_id addresses = do
      stack_helper ← or_run g (panic g) held
      builtin_name ← lift g (
          ok_or
            (builtin_not_implemented_error
              (label <> ": cannot find builtin " <> c.i32_to_string builtin_id))
            (get stack_helper.builtins builtin_id))
      memory ← get_memory
      args ← pull_arguments stack_helper.opa_json_dump_fn addresses
      builtin_result ← invoked (invoke builtins builtin_name args)
      push_json g stack_helper.opa_malloc_fn stack_helper.opa_json_parse_fn builtin_result

    unfoldable pub opa_builtin0 : Dict String Builtin → Option (StackHelper g) → ℕ → Run g ℕ
    opa_builtin0 builtins held builtin_id = opa_builtin "opa_builtin0" builtins held builtin_id []

    unfoldable pub opa_builtin1 : Dict String Builtin → Option (StackHelper g) → ℕ → ℕ → Run g ℕ
    opa_builtin1 builtins held builtin_id p₁ =
        opa_builtin "opa_bunltin1" builtins held builtin_id (p₁ ∷ [])

    unfoldable pub opa_builtin2 : Dict String Builtin → Option (StackHelper g) → ℕ → ℕ → ℕ → Run g ℕ
    opa_builtin2 builtins held builtin_id p₁ p₂ =
        opa_builtin "opa_builtin2" builtins held builtin_id (p₁ ∷ p₂ ∷ [])

    unfoldable pub opa_builtin3 :
        Dict String Builtin → Option (StackHelper g) → ℕ → ℕ → ℕ → ℕ → Run g ℕ
    opa_builtin3 builtins held builtin_id p₁ p₂ p₃ =
        opa_builtin "opa_builtin3" builtins held builtin_id (p₁ ∷ p₂ ∷ p₃ ∷ [])

    unfoldable pub opa_builtin4 :
        Dict String Builtin → Option (StackHelper g) → ℕ → ℕ → ℕ → ℕ → ℕ → Run g ℕ
    opa_builtin4 builtins held builtin_id p₁ p₂ p₃ p₄ =
        opa_builtin "opa_builtin4" builtins held builtin_id (p₁ ∷ p₂ ∷ p₃ ∷ p₄ ∷ [])
