-- ===== src/Burrego/Regex.antt =====
-- crates/burrego/src/builtins/regex.rs: the builtins of regular expressions.
pub mod Template
pub mod Matches
use Prim.Native.Char.{Char, code}
use Prim.Native.String.{[], ◌∷◌}
use mathlib.Core.List.{[], ◌∷◌}
use policy_evaluator.Prelude.{
  ℕ, zero, suc, String, Bool, true, false, Option, none, some, List, ◌++◌, map, Result, ok, err,
  ◌>>=◌, map_err, ok_or, ◌<>◌, ◌==◌, nat_eq, ltb, if◌then◌else◌, length, take,
}
use policy_evaluator.Prelude.Int.{ℤ, pos, negsuc, as_u64}
use policy_evaluator.Burrego.{BurregoError, builtin_error, Libraries, string_argument}

abbrev pub concat : List String → String
concat [] = ""
concat (s ∷ ss) = s <> concat ss

pub record Expression : Type 0 where
  pub is_regexp : Bool
  pub expression : String

-- `delimiters_open + 1` and `delimiters_open - 1`; it stays in an `i32` for templates of less than
-- 2^31 characters
abbrev pub increment : ℤ → ℤ
increment (pos n) = pos (suc n)
increment (negsuc zero) = pos 0
increment (negsuc (suc n)) = negsuc n

abbrev pub decrement : ℤ → ℤ
decrement (pos zero) = negsuc 0
decrement (pos (suc n)) = pos n
decrement (negsuc n) = negsuc (suc n)

abbrev pub is_pos : ℕ → ℤ → Bool
is_pos n (pos m) = m == n
is_pos n (negsuc m) = false

abbrev pub is_empty_text : String → Bool
is_empty_text [] = true
is_empty_text (c ∷ s) = false

-- the variables of `regexp_from_template`
pub record Scan : Type 0 where
  pub expressions : List Expression
  pub current_expression : Expression
  pub delimiters_open : ℤ

abbrev pub empty_expression : Bool → Expression
empty_expression is_regexp = record { is_regexp = is_regexp; expression = "" }

abbrev pub start : Scan
start = record {
  expressions = [];
  current_expression = empty_expression false;
  delimiters_open = pos 0;
}

-- the expressions, with the current one unless it is empty
abbrev pub push_current : Scan → List Expression
push_current s =
    if is_empty_text s.current_expression.expression
    then s.expressions
    else s.expressions ++ s.current_expression ∷ []

-- the current expression ends, and another begins
abbrev pub begin_expression : Bool → Scan → Scan
begin_expression is_regexp s = record s {
  expressions = push_current s;
  current_expression = empty_expression is_regexp;
}

abbrev pub open_delimiter : Scan → Scan
open_delimiter s =
    let opened : Scan = record s { delimiters_open = increment s.delimiters_open } in
    if is_pos 1 opened.delimiters_open then begin_expression true opened else opened

abbrev pub close_delimiter : Scan → Scan
close_delimiter s =
    let closed : Scan = record s { delimiters_open = decrement s.delimiters_open } in
    if is_pos 0 closed.delimiters_open then begin_expression false closed else closed

abbrev pub push_char : Scan → Char → Scan
push_char s c = record s {
  current_expression = record s.current_expression {
    expression = s.current_expression.expression <> (c ∷ "");
  };
}

-- one round of the loop
unfoldable pub scan_char : Char → Char → Scan → Char → Scan
scan_char delimiter_start delimiter_end s c =
    if code c == code delimiter_start
    then open_delimiter s
    else if code c == code delimiter_end
    then close_delimiter s
    else push_char s c

unfoldable pub scan : Char → Char → Scan → String → Scan
scan delimiter_start delimiter_end s [] = s
scan delimiter_start delimiter_end s (c ∷ rest) =
    scan delimiter_start delimiter_end (scan_char delimiter_start delimiter_end s c) rest

unfoldable pub expressions_of : String → Char → Char → List Expression
expressions_of template delimiter_start delimiter_end =
    push_current (scan delimiter_start delimiter_end start template)

-- `Display` of an expression, and of their list
abbrev pub expression_to_string : Libraries → Expression → String
expression_to_string lib e = if e.is_regexp then e.expression else lib.escape e.expression

abbrev pub to_string : Libraries → List Expression → String
to_string lib expressions = concat (map (expression_to_string lib) expressions)

module _ (lib : Libraries) where
  unfoldable pub regexp_from_template : String → Char → Char → Result BurregoError lib.Regex
  regexp_from_template template delimiter_start delimiter_end =
      map_err
        (λ e. builtin_error "regex" ("tried to initialize an invalid regular expression: " <> e))
        (lib.new_regex (to_string lib (expressions_of template delimiter_start delimiter_end)))

  -- the only character of a text that is one byte long
  abbrev pub one_byte : String → Option Char
  one_byte [] = none
  one_byte (c ∷ []) = if ltb (code c) 128 then some c else none
  one_byte (c ∷ d ∷ s) = none

  abbrev pub delimiter : String → String → Result BurregoError Char
  delimiter which text =
      ok_or
        (builtin_error "regex.template_match"
          (which <> " parameter has to be exactly one character long"))
        (one_byte text)

  abbrev pub template_match_error : String → BurregoError
  template_match_error message = builtin_error "regex.template_match" message

  abbrev pub template_argument : String → lib.Value → Result BurregoError String
  template_argument which value =
      string_argument lib "regex.template_match" (which <> " parameter is not a string") value

  unfoldable pub template_match : List lib.Value → Result BurregoError lib.Value
  template_match (a ∷ b ∷ c ∷ d ∷ []) = do
    pattern_str ← template_argument "1st" a
    string_str ← template_argument "2nd" b
    delimiter_start_str ← template_argument "3rd" c
    delimiter_start ← delimiter "3rd" delimiter_start_str
    delimiter_end_str ← template_argument "4th" d
    delimiter_end ← delimiter "4th" delimiter_end_str
    computed_regexp ← regexp_from_template pattern_str delimiter_start delimiter_end
    map_err (λ e. template_match_error ("cannot convert value into JSON: " <> e))
        (lib.bool_to_value (lib.is_match computed_regexp string_str))
  template_match args = err (template_match_error "Wrong number of arguments given")

  -- `Regex::new`, with the error of a builtin
  abbrev pub built_regex : String → String → Result BurregoError lib.Regex
  built_regex name pattern_str =
      map_err
        (λ e.
          builtin_error name
            ("cannot build regex from the given pattern string '" <> pattern_str <> "': " <> e))
        (lib.new_regex pattern_str)

  unfoldable pub split : List lib.Value → Result BurregoError lib.Value
  split (a ∷ b ∷ []) = do
    pattern_str ← string_argument lib "regex.split" "1st parameter is not a string" a
    string_str ← string_argument lib "regex.split" "2nd parameter is not a string" b
    regex ← built_regex "regex.split" pattern_str
    map_err (λ e. builtin_error "regex.split" ("cannot convert result into JSON: " <> e))
        (lib.string_to_value (concat (lib.split regex string_str)))
  split args = err (builtin_error "regex.split" "Wrong number of arguments given")

  -- `take_n`
  abbrev pub matches_to_take : String → String → ℤ → Result BurregoError ℕ
  matches_to_take pattern_str string_str (pos n) = ok (as_u64 (pos n))
  matches_to_take pattern_str string_str (negsuc zero) = do
    regex ← built_regex "regex.find_n" pattern_str
    ok (length (lib.find_iter regex string_str))
  matches_to_take pattern_str string_str (negsuc (suc n)) = ok (as_u64 (negsuc (suc n)))

  unfoldable pub find_n : List lib.Value → Result BurregoError lib.Value
  find_n (a ∷ b ∷ c ∷ []) = do
    pattern_str ← string_argument lib "regex.find_n" "1st parameter is not a string" a
    string_str ← string_argument lib "regex.find_n" "2nd parameter is not a string" b
    take_number ←
        ok_or (builtin_error "regex.find_n" "3rd parameter is not a number") (lib.as_i64 c)
    take_n ← matches_to_take pattern_str string_str take_number
    regex ← built_regex "regex.find_n" pattern_str
    map_err (λ e. builtin_error "regex.find_n" ("cannot convert value into JSON: " <> e))
        (lib.strings_to_value (take take_n (lib.find_iter regex string_str)))
  find_n args = err (builtin_error "regex.find_n" "Wrong number of arguments given to ")
