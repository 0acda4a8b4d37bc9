-- ===== src/Burrego/Glob.antt =====
-- crates/burrego/src/builtins/glob.rs: the quotation of the characters that mean something in a glob.
pub mod Quoted
use Prim.Native.Char.{Char, code}
use Prim.Native.String.{[], ◌∷◌}
use mathlib.Core.List.{[], ◌∷◌}
use policy_evaluator.Prelude.{
  String, Bool, List, Result, ok, err, ◌>>=◌, map_err, ◌<>◌, ◌==◌, nat_eq, ◌||◌, if◌then◌else◌,
}
use policy_evaluator.Burrego.{BurregoError, builtin_error, Libraries, string_argument}

-- '*' | '?' | '\\' | '[' | ']' | '{' | '}'
unfoldable pub is_special : Char → Bool
is_special c =
    code c == b'\\'
    || code c == b'*'
    || code c == b'?'
    || code c == b'['
    || code c == b']'
    || code c == b'{'
    || code c == b'}'

unfoldable pub escape : String → String
escape [] = ""
escape (c ∷ s) = let rest = escape s in if is_special c then "\\" ∷ c ∷ rest else c ∷ rest

unfoldable pub quote_meta : (lib : Libraries) → List lib.Value → Result BurregoError lib.Value
quote_meta lib [] = err (builtin_error "glob.quote_meta" "wrong number of arguments")
quote_meta lib (arg ∷ []) = do
  input ← string_argument lib "glob.quote_meta" "1st parameter is not a string" arg
  map_err (λ e. builtin_error "glob.quote_meta" ("cannot convert value into JSON: " <> e))
      (lib.string_to_value (escape input))
quote_meta lib (a ∷ b ∷ rest) = err (builtin_error "glob.quote_meta" "wrong number of arguments")
