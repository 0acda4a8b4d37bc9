-- ===== src/Metadata/Resources.antt =====
-- src/policy_metadata.rs: the check of the resources of a rule.
pub mod Accepted
mod Loop
pub mod Laws
pub mod Order
use Prim.Native.Char.{code}
use Prim.Native.String.{[], ◌∷◌}
use mathlib.Core.List.{[], ◌∷◌}
use policy_evaluator.Prelude.{
  String, List, Bool, true, false, Option, none, some, Result, ok, err, ◌>>=◌, ◌<>◌, ◌==◌, nat_eq,
  string_eq, ◌||◌, ◌&&◌, not, if◌then◌else◌, contains, length, ltb,
}

-- the validation errors of a rule, by their texts
pub data ValidationError : Type 0 where
  invalid : String → ValidationError

abbrev cut_more : String → Option (String × String) → Option (String × String)
cut_more c none = none
cut_more c (some (res, sub)) = some (c <> res, sub)

-- `splitn(2, '/')`: what stands before and after the first slash, if there is one
unfoldable pub split_once : String → Option (String × String)
split_once [] = none
split_once (c ∷ s) =
    let rest = split_once s in if code c == b'/' then some ("", s) else cut_more (c ∷ []) rest

-- the local variables of `validate_resources`
pub record Scan : Type 0 where
  pub resources_with_wildcard_subresources : List String
  pub subresources_with_wildcard_resource : List String
  pub has_double_wildcard : Bool
  pub has_single_wildcard : Bool
  pub has_resource_without_subresource : Bool

abbrev pub start : Scan
start = record {
  resources_with_wildcard_subresources = [];
  subresources_with_wildcard_resource = [];
  has_double_wildcard = false;
  has_single_wildcard = false;
  has_resource_without_subresource = false;
}

-- the match on the two wildcards
abbrev pub note_wildcards : Scan → String → Scan
note_wildcards s resource = record s {
  has_double_wildcard = s.has_double_wildcard || resource == "*/*";
  has_single_wildcard = s.has_single_wildcard || resource == "*";
}

-- the rest of a round, by the parts of the resource
unfoldable pub scan_parts : Scan → String → Option (String × String) → Result ValidationError Scan
scan_parts s resource none =
    ok (record s { has_resource_without_subresource = not (resource == "*") })
scan_parts s resource (some (res, sub)) =
    if contains s.resources_with_wildcard_subresources res
    then err (invalid ("if '" <> resource <> "/*' is present, must not specify " <> res))
    else if contains s.subresources_with_wildcard_resource sub
    then err (invalid ("if '*/" <> sub <> "' is present, must not specify " <> resource))
    else ok (record s {
      resources_with_wildcard_subresources =
          if sub == "*"
          then res ∷ s.resources_with_wildcard_subresources
          else s.resources_with_wildcard_subresources;
      subresources_with_wildcard_resource =
          if res == "*"
          then sub ∷ s.subresources_with_wildcard_resource
          else s.subresources_with_wildcard_resource;
    })

-- one round of the loop
unfoldable pub scan_one : Scan → String → Result ValidationError Scan
unfolding scan_parts
scan_one s resource =
    if resource == ""
    then err (invalid "empty resource is not allowed")
    else scan_parts (note_wildcards s resource) resource (split_once resource)

-- the loop
unfoldable pub scan : Scan → List String → Result ValidationError Scan
scan s [] = ok s
scan s (resource ∷ rest) = do s' ← scan_one s resource; scan s' rest

-- the checks after the loop
unfoldable pub scan_end : List String → Scan → Result ValidationError (Unit {0})
scan_end resources s =
    if ltb 1 (length resources) && s.has_double_wildcard
    then err (invalid "if '*/*' is present, must not specify other resources")
    else if s.has_single_wildcard && s.has_resource_without_subresource
    then err (invalid "if '*' is present, must not specify other resources without subresources")
    else ok tt

unfoldable pub validate_resources : List String → Result ValidationError (Unit {0})
validate_resources resources = do s ← scan start resources; scan_end resources s
