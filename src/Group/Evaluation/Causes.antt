-- ===== src/Group/Evaluation/Causes.antt =====
-- src/policy_group_evaluator/evaluator.rs: which causes a denial of a group gives.
use policy_evaluator.Prelude.{
  sym, subst, In-append_left, In-append_right, String, List, [], ◌∷◌, Bool, true, false, Option,
  none, some, ok, contains, string_eq, if◌then◌else◌, ◌≡◌, refl, In, In-append, contains_iff, ◌↔◌,
  inl, inr,
}
use policy_evaluator.Prelude.Dict.{keys}
use policy_evaluator.Response.Types.{
  StatusCause, StatusDetails, AdmissionResponseStatus, AdmissionResponse,
}
use policy_evaluator.Group.{
  Policies, EvaluationError, PolicyGroupEvaluator, PolicyGroupMemberEvaluationResult,
}
use policy_evaluator.Group.Engine.{Rhai, eval, calls}
use policy_evaluator.Group.Evaluation.{cause_of, cause_if_denied, validate}
use policy_evaluator.Group.Evaluation.Refinement.{
  verdict, answer, expected_causes, expected_by, script, validate-expected,
}

abbrev details_causes : Option StatusDetails → List StatusCause
details_causes none = []
details_causes (some d) = d.causes

abbrev status_details : Option AdmissionResponseStatus → List StatusCause
status_details none = []
status_details (some s) = details_causes s.details

-- the causes that a response carries
abbrev pub causes_of : AdmissionResponse → List StatusCause
causes_of r = status_details r.status

-- the cause of a denied member
abbrev pub IsDenial : StatusCause → String → Option PolicyGroupMemberEvaluationResult → Type 0
IsDenial c id v =
    (r : PolicyGroupMemberEvaluationResult) × (v ≡ some r)
    × (r.allowed ≡ false)
    × (c ≡ cause_of id r)

In-unless : (b : Bool) (c d : StatusCause) → In c (if b then [] else d ∷ []) ↔ (b ≡ false) × (c ≡ d)
In-unless true c d = ((λ h. absurd h), λ h. cc)
In-unless false c d =
    ((λ h. (refl, elim h [ inl e ↦ sym e | inr none_left ↦ absurd none_left ])), λ h. inl (sym h.1))

In-cause_if_denied :
    (c : StatusCause) (id : String) (v : Option PolicyGroupMemberEvaluationResult)
    → In c (cause_if_denied id v) ↔ IsDenial c id v
In-cause_if_denied c id none = ((λ h. absurd h), λ d. cc)
In-cause_if_denied c id (some r) = (
  (λ h.
      let (denied, same) = (In-unless r.allowed c (cause_of id r)).0 h in (r, refl, denied, same)),
  λ (s, e, denied, same).
      let back : s ≡ r = cc in
      subst (λ t. In c (cause_if_denied id (some t))) back
        ((In-unless s.allowed c (cause_of id s)).1 (denied, same)),
)

module _ {p : Policies} (rhai : Rhai (EvaluationError p)) (g : PolicyGroupEvaluator p)
    (req : p.Request) where
  -- the cause of a member that was called and denied
  abbrev pub IsCalledDenial : StatusCause → List String → String → Type 0
  IsCalledDenial c called id = In id called × IsDenial c id (verdict rhai g req id)

  In-if :
      (b : Bool) (c : StatusCause) (cs : List StatusCause)
      → In c (if b then cs else []) ↔ (b ≡ true) × In c cs
  In-if true c cs = ((λ h. (refl, h)), λ h. h.1)
  In-if false c cs = ((λ h. absurd h), λ h. cc)

  one_cause :
      (called : List String) (c : StatusCause) (id : String)
      → In c (if contains called id then cause_if_denied id (verdict rhai g req id) else [])
        ↔ IsCalledDenial c called id
  one_cause called c id =
      let split = In-if (contains called id) c (cause_if_denied id (verdict rhai g req id)) in
      let denial = In-cause_if_denied c id (verdict rhai g req id) in
      let member = contains_iff called id in
      (
        (λ h. (member.0 (split.0 h).0, denial.0 (split.0 h).1)),
        λ (called_id, d). split.1 (member.1 called_id, denial.1 d),
      )

  expected_causes-In :
      (called ids : List String) (c : StatusCause)
      → In c (expected_causes rhai g req called ids)
      → (id : String) × In id ids × IsCalledDenial c called id
  unfolding expected_causes
  expected_causes-In called [] c h = absurd h
  expected_causes-In called (id ∷ ids) c h =
      elim (In-append c
        (if contains called id then cause_if_denied id (verdict rhai g req id) else [])
        (expected_causes rhai g req called ids) h) [
          | inl one ↦ (id, inl refl, (one_cause called c id).0 one)
          | inr rest ↦
              let (i, member, denial) = expected_causes-In called ids c rest in
              (i, inr member, denial)
        ]

  In-expected_causes :
      (called ids : List String) (c : StatusCause) (id : String)
      → In id ids
      → IsCalledDenial c called id
      → In c (expected_causes rhai g req called ids)
  unfolding expected_causes
  In-expected_causes called [] c id h d = absurd h
  In-expected_causes called (i ∷ ids) c id (inl e) d =
      In-append_left c _ _ ((one_cause called c i).1 (subst (IsCalledDenial c called) (sym e) d))
  In-expected_causes called (i ∷ ids) c id (inr h) d =
      In-append_right c (if contains called i then cause_if_denied i (verdict rhai g req i) else [])
        _ (In-expected_causes called ids c id h d)

  -- If the expression of a group is false, a cause is in the status of the response exactly if it
  -- is the cause of a member that the expression called and whose verdict is a denial.
  pub causes_of-validate :
      (c : StatusCause)
      → eval (answer rhai g req) (script rhai g req) ≡ ok false
      → In c (causes_of (validate rhai g req))
        ↔ (id : String) × In id (keys g.policy_members)
          × IsCalledDenial c (calls (answer rhai g req) (script rhai g req)) id
  unfolding expected_by
  causes_of-validate c h =
      let called = calls (answer rhai g req) (script rhai g req) in
      rw (validate-expected rhai g req, h)
        (
          (λ m. expected_causes-In called (keys g.policy_members) c m),
          λ (id, member, d). In-expected_causes called (keys g.policy_members) c id member d,
        )
