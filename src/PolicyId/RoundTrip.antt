-- ===== src/PolicyId/RoundTrip.antt =====
-- src/admission_response_handler/policy_id.rs: printing and parsing a policy identifier.
use Prim.Native.Char.{Char, code}
use Prim.Native.String.{[], ◌∷◌}
use mathlib.Core.List.{[], ◌∷◌}
use text.Mathlib.TextEquality.{Char-path}
use text.Mathlib.TextLemmas.{nil-append, cons-append, cons-ne-nil}
use policy_evaluator.Prelude.{
  subst, string_eq, true, false, All, String, List, ok, err, ◌<>◌, ◌==◌, nat_eq, if◌then◌else◌, ◌≡◌,
  refl, ◌≢◌, arith, Bool-cases, inl, inr, join, eq_iff, ap, sym, ◌∙◌, nat_beq_iff, ◌↔◌,
}
use policy_evaluator.PolicyId.{
  invalid_policy_id, PolicyId, policy, policy_group_policy, to_string, push_front, split_slash,
  from_parts, from_str,
}

-- How a group is named: no part of an identifier holds a slash, and a lone name is not empty.
abbrev pub NoSlash : String → Type 0
NoSlash [] = Unit
NoSlash (c ∷ s) = (code c ≢ b'/') × NoSlash s

abbrev pub IsCanonical : PolicyId → Type 0
IsCanonical (policy name) = (name ≢ "") × NoSlash name
IsCanonical (policy_group_policy group name) = NoSlash group × NoSlash name

abbrev slash_char : Char
slash_char = "/"

slash_front : (c : Char) (s : String) → (code c == b'/') ≡ true → "/" <> s ≡ c ∷ s
slash_front c s h =
    cons-append slash_char "" s
    ∙ ap (λ (t : String). slash_char ∷ t) (nil-append s)
    ∙ ap (λ (d : Char). d ∷ s) (sym (Char-path c slash_char ((nat_beq_iff (code c) b'/').0 h)))

split_slash-at :
    (c : Char) (s : String) → (code c == b'/') ≡ true → split_slash (c ∷ s) ≡ "" ∷ split_slash s
unfolding split_slash
split_slash-at c s h = rw h

split_slash-past :
    (c : Char) (s : String)
    → (code c == b'/') ≡ false
    → split_slash (c ∷ s) ≡ push_front c (split_slash s)
unfolding split_slash
split_slash-past c s h = rw h

join-push_front : (c : Char) (ps : List String) → join "/" (push_front c ps) ≡ c ∷ join "/" ps
unfolding join
join-push_front c [] = refl
join-push_front c (p ∷ []) = refl
join-push_front c (p ∷ q ∷ ps) = cons-append c p _

join-nil_front : (ps : List String) → ps ≢ [] → join "/" ("" ∷ ps) ≡ "/" <> join "/" ps
unfolding join
join-nil_front [] h = absurd (h refl)
join-nil_front (p ∷ ps) h = nil-append _

split_slash-ne-nil : (s : String) → split_slash s ≢ []
unfolding split_slash
split_slash-ne-nil [] = cc
split_slash-ne-nil (c ∷ s) = ground arith

-- the parts, put together again
join-split_slash : (s : String) → join "/" (split_slash s) ≡ s
join-split_slash [] = unfold join split_slash in refl
join-split_slash (c ∷ s) = elim (Bool-cases (code c == b'/')) [
  | inl slash ↦ rw (split_slash-at c s slash) (
      join-nil_front (split_slash s) (split_slash-ne-nil s)
      ∙ ap (λ t. "/" <> t) (join-split_slash s)
      ∙ slash_front c s slash)
  | inr other ↦
      rw (split_slash-past c s other)
        (join-push_front c (split_slash s) ∙ ap (λ (t : String). c ∷ t) (join-split_slash s))
]

push_front-NoSlash :
    (c : Char) (ps : List String) → code c ≢ b'/' → All NoSlash ps → All NoSlash (push_front c ps)
push_front-NoSlash c [] h k = ((h, tt), tt)
push_front-NoSlash c (p ∷ ps) h k = ((h, k.0), k.1)

split_slash-NoSlash : (s : String) → All NoSlash (split_slash s)
unfolding split_slash
split_slash-NoSlash [] = (tt, tt)
split_slash-NoSlash (c ∷ s) = elim (Bool-cases (code c == b'/')) [
  | inl slash ↦ rw slash (tt, split_slash-NoSlash s)
  | inr other ↦
      rw other (push_front-NoSlash c (split_slash s) (ground arith) (split_slash-NoSlash s))
]

split_slash_of_NoSlash : (s : String) → NoSlash s → split_slash s ≡ s ∷ []
unfolding split_slash
split_slash_of_NoSlash [] h = refl
split_slash_of_NoSlash (c ∷ s) h = ground (arith, split_slash_of_NoSlash s h.1)

split_slash-append : (a b : String) → NoSlash a → split_slash (a <> "/" <> b) ≡ a ∷ split_slash b
split_slash-append [] b h = rw (nil-append, cons-append, nil-append) (split_slash-at _ b refl)
split_slash-append (c ∷ a) b h =
    rw (cons-append, split_slash-past c _ (ground arith), split_slash-append a b h.1) refl

from_parts_sound :
    (s : String) (ps : List String) (id : PolicyId)
    → s ≢ ""
    → All NoSlash ps
    → join "/" ps ≡ s
    → from_parts s ps ≡ ok id
    → IsCanonical id × (to_string id ≡ s)
unfolding from_parts to_string join
from_parts_sound s (p ∷ []) (policy name) h k j e =
    let q : s ≡ name = cc in ((λ z. h (q ∙ z), subst NoSlash (j ∙ q) k.0), sym q)
from_parts_sound s (g ∷ n ∷ []) (policy_group_policy group name) h k j e =
    let q : g ≡ group = cc in
    let r : n ≡ name = cc in ((subst NoSlash q k.0, subst NoSlash r k.1.0), cc)
from_parts_sound s [] id h k j e = cc
from_parts_sound s (p ∷ []) (policy_group_policy group name) h k j e = cc
from_parts_sound s (p ∷ n ∷ []) (policy name) h k j e = cc
from_parts_sound s (p ∷ n ∷ q ∷ ps) id h k j e = cc

from_str_sound :
    (s : String) (id : PolicyId) → from_str s ≡ ok id → IsCanonical id × (to_string id ≡ s)
unfolding from_str
from_str_sound s id e = elim (Bool-cases (s == "")) [
  | inl empty ↦
      cc (e, ap (λ b. if b then err (invalid_policy_id s) else from_parts s (split_slash s)) empty)
  | inr full ↦
      from_parts_sound s (split_slash s) id (ground (arith, eq_iff s "")) (split_slash-NoSlash s)
        (join-split_slash s) (rw full at e)
]

to_string-ne-empty : (a b : String) → a <> "/" <> b ≢ ""
to_string-ne-empty [] b e =
    cons-ne-nil slash_char ("" <> b) (sym (nil-append ("/" <> b) ∙ cons-append slash_char "" b) ∙ e)
to_string-ne-empty (c ∷ a) b e =
    cons-ne-nil c (a <> "/" <> b) (sym (cons-append c a ("/" <> b)) ∙ e)

from_str-to_string : (id : PolicyId) → IsCanonical id → from_str (to_string id) ≡ ok id
unfolding from_str to_string
from_str-to_string (policy name) h = ground (arith, eq_iff name "", split_slash_of_NoSlash name h.1)
from_str-to_string (policy_group_policy g n) h = ground (
  arith,
  eq_iff (g <> "/" <> n) "",
  to_string-ne-empty g n,
  split_slash-append g n h.0,
  split_slash_of_NoSlash n h.1,
)

-- A text parses to an identifier exactly if it is how that identifier is printed and the identifier
-- is canonical: a lone name that is not empty and holds no slash, or two names without a slash.
pub from_str_iff :
    (s : String) (id : PolicyId) → (from_str s ≡ ok id) ↔ (IsCanonical id × (to_string id ≡ s))
from_str_iff s id =
    (from_str_sound s id, λ h. subst (λ t. from_str t ≡ ok id) h.1 (from_str-to_string id h.0))
