-- ===== src/Burrego/Regex/Template.antt =====
-- crates/burrego/src/builtins/regex.rs: what the expressions of a template are.
use Prim.Native.Char.{Char, code}
use Prim.Native.String.{[], ◌∷◌}
use mathlib.Core.List.{[], ◌∷◌}
use text.Mathlib.TextLemmas.{
  nil-append as text_nil-append, cons-append, append-nil as text_append-nil,
  append_assoc as text_append_assoc,
}
use policy_evaluator.Prelude.{
  String, Bool, true, false, List, ◌++◌, ◌≡◌, refl, ap, ◌∙◌, ◌<>◌, ◌==◌, nat_eq, not, ◌&&◌, sym,
  if◌then◌else◌, arith, append-nil, append_assoc, nat_beq_iff,
}
use policy_evaluator.Prelude.Int.{ℤ, pos}
use policy_evaluator.Burrego.Regex.{
  Expression, Scan, is_empty_text, push_current, scan_char, scan, expressions_of,
}

abbrev expression_at : Bool → String → Expression
expression_at is_regexp text = record { is_regexp = is_regexp; expression = text }

abbrev at : List Expression → Bool → String → ℤ → Scan
at es is_regexp text n = record {
  expressions = es;
  current_expression = expression_at is_regexp text;
  delimiters_open = n;
}

-- an expression in front of others, unless it is empty
abbrev kept : Bool → String → List Expression → List Expression
kept is_regexp text rest = if is_empty_text text then rest else expression_at is_regexp text ∷ rest

push_current-at :
    (es : List Expression) (b : Bool) (text : String) (n : ℤ)
    → push_current (at es b text n) ≡ es ++ kept b text []
push_current-at es b [] n = rw (append-nil es) refl
push_current-at es b (c ∷ s) n = refl

kept-append :
    (es : List Expression) (b : Bool) (text : String) (rest : List Expression)
    → (es ++ kept b text []) ++ rest ≡ es ++ kept b text rest
kept-append es b [] rest = rw (append-nil es) refl
kept-append es b (c ∷ s) rest = append_assoc es (expression_at b (c ∷ s) ∷ []) rest

eq_self : (c : Char) → (code c == code c) ≡ true
eq_self c = (nat_beq_iff (code c) (code c)).1 refl

module _ (delimiter_start delimiter_end : Char) where
  -- a text without a delimiter
  abbrev pub is_plain : String → Bool
  is_plain [] = true
  is_plain (c ∷ s) =
      not (code c == code delimiter_start) && not (code c == code delimiter_end) && is_plain s

  -- the texts of a template, each with the regular expression after it, and the last text
  abbrev pub template_of : List (String × String) → String → String
  template_of [] last = last
  template_of ((text, regexp) ∷ parts) last =
      text <> (delimiter_start ∷ (regexp <> (delimiter_end ∷ template_of parts last)))

  abbrev pub are_plain : List (String × String) → String → Bool
  are_plain [] last = is_plain last
  are_plain ((text, regexp) ∷ parts) last = is_plain text && is_plain regexp && are_plain parts last

  -- the parts that are not empty
  abbrev pub parts_of : List (String × String) → String → List Expression
  parts_of [] last = kept false last []
  parts_of ((text, regexp) ∷ parts) last = kept false text (kept true regexp (parts_of parts last))

  scan-cons :
      (s : Scan) (c : Char) (rest : String) {t : Scan}
      → scan_char delimiter_start delimiter_end s c ≡ t
      → scan delimiter_start delimiter_end s (c ∷ rest) ≡ scan delimiter_start delimiter_end t rest
  unfolding scan
  scan-cons s c rest step = ap (λ q. scan delimiter_start delimiter_end q rest) step

  scan-plain :
      (es : List Expression) (b : Bool) (text : String) (n : ℤ) (w rest : String)
      → is_plain w ≡ true
      → scan delimiter_start delimiter_end (at es b text n) (w <> rest)
        ≡ scan delimiter_start delimiter_end (at es b (text <> w) n) rest
  unfolding scan_char
  scan-plain es b text n [] rest plain = rw (text_nil-append rest, text_append-nil text) refl
  scan-plain es b text n (c ∷ w) rest plain =
      let no_start : (code c == code delimiter_start) ≡ false = ground arith in
      let no_end : (code c == code delimiter_end) ≡ false = ground arith in
      let pushed : scan_char delimiter_start delimiter_end (at es b text n) c
          ≡ at es b (text <> (c ∷ "")) n =
        rw (no_start, no_end) refl in
      let one_more : (text <> (c ∷ "")) <> w ≡ text <> (c ∷ w) =
        text_append_assoc text (c ∷ "") w
        ∙ ap (λ q. text <> q) (cons-append c "" w ∙ ap (λ q. c ∷ q) (text_nil-append w)) in
      ap (λ q. scan delimiter_start delimiter_end (at es b text n) q) (cons-append c w rest)
      ∙ scan-cons (at es b text n) c (w <> rest) pushed
      ∙ scan-plain es b (text <> (c ∷ "")) n w rest (ground arith)
      ∙ ap (λ q. scan delimiter_start delimiter_end (at es b q n) rest) one_more

  scan_char-start :
      (es : List Expression) (text : String)
      → scan_char delimiter_start delimiter_end (at es false text (pos 0)) delimiter_start
        ≡ at (push_current (at es false text (pos 0))) true "" (pos 1)
  unfolding scan_char
  scan_char-start es text = rw (eq_self delimiter_start) refl

  scan_char-end :
      (es : List Expression) (text : String)
      → (code delimiter_end == code delimiter_start) ≡ false
      → scan_char delimiter_start delimiter_end (at es true text (pos 1)) delimiter_end
        ≡ at (push_current (at es true text (pos 1))) false "" (pos 0)
  unfolding scan_char
  scan_char-end es text apart = rw (apart, eq_self delimiter_end) refl

  -- a text and the regular expression after it
  scan-part :
      (es : List Expression) (text regexp rest : String)
      → (code delimiter_end == code delimiter_start) ≡ false
      → is_plain text ≡ true
      → is_plain regexp ≡ true
      → scan delimiter_start delimiter_end
          (at es false "" (pos 0))
          (text <> (delimiter_start ∷ (regexp <> (delimiter_end ∷ rest))))
        ≡ scan delimiter_start delimiter_end
            (at ((es ++ kept false text []) ++ kept true regexp []) false "" (pos 0))
            rest
  scan-part es text regexp rest apart plain_text plain_regexp =
      scan-plain es false "" (pos 0) text (delimiter_start ∷ (regexp <> (delimiter_end ∷ rest)))
        plain_text
      ∙ scan-cons (at es false ("" <> text) (pos 0)) delimiter_start
          (regexp <> (delimiter_end ∷ rest)) (scan_char-start es ("" <> text))
      ∙ ap
          (λ q.
            scan delimiter_start delimiter_end (at q true "" (pos 1))
              (regexp <> (delimiter_end ∷ rest)))
          (push_current-at es false ("" <> text) (pos 0)
            ∙ ap (λ q. es ++ kept false q []) (text_nil-append text))
      ∙ scan-plain (es ++ kept false text []) true "" (pos 1) regexp (delimiter_end ∷ rest)
          plain_regexp
      ∙ scan-cons (at (es ++ kept false text []) true ("" <> regexp) (pos 1)) delimiter_end rest
          (scan_char-end (es ++ kept false text []) ("" <> regexp) apart)
      ∙ ap (λ q. scan delimiter_start delimiter_end (at q false "" (pos 0)) rest)
          (push_current-at (es ++ kept false text []) true ("" <> regexp) (pos 1)
            ∙ ap (λ q. (es ++ kept false text []) ++ kept true q []) (text_nil-append regexp))

  scan-parts :
      (es : List Expression) (parts : List (String × String)) (last : String)
      → (code delimiter_end == code delimiter_start) ≡ false
      → are_plain parts last ≡ true
      → push_current
          (scan delimiter_start delimiter_end (at es false "" (pos 0)) (template_of parts last))
        ≡ es ++ parts_of parts last
  unfolding scan
  scan-parts es [] last apart plain =
      ap (λ q. push_current (scan delimiter_start delimiter_end (at es false "" (pos 0)) q))
        (sym (text_append-nil last))
      ∙ ap push_current (scan-plain es false "" (pos 0) last "" plain)
      ∙ push_current-at es false ("" <> last) (pos 0)
      ∙ ap (λ q. es ++ kept false q []) (text_nil-append last)
  scan-parts es ((text, regexp) ∷ parts) last apart plain =
      let es' : List Expression = (es ++ kept false text []) ++ kept true regexp [] in
      ap push_current
        (scan-part es text regexp (template_of parts last) apart (ground arith) (ground arith))
      ∙ scan-parts es' parts last apart (ground arith)
      ∙ kept-append (es ++ kept false text []) true regexp (parts_of parts last)
      ∙ kept-append es false text (kept true regexp (parts_of parts last))

  -- Where the delimiters differ and no text and no regular expression of a template has a
  -- delimiter in it, the expressions of the template are its texts and its regular expressions, in
  -- their order, less those that are empty.
  pub expressions_of-template_of :
      (parts : List (String × String)) (last : String)
      → (code delimiter_end == code delimiter_start) ≡ false
      → are_plain parts last ≡ true
      → expressions_of (template_of parts last) delimiter_start delimiter_end ≡ parts_of parts last
  unfolding expressions_of
  expressions_of-template_of parts last apart plain = scan-parts [] parts last apart plain
