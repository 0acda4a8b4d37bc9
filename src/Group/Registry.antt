-- ===== src/Group/Registry.antt =====
-- src/policy_group_evaluator/evaluator.rs: the two maps of a group, as `new` and
-- `add_policy_member` fill them.
use policy_evaluator.Prelude.{
  String, Option, some, Result, ok, err, is_some, ◌≡◌, refl, arith, string_eq, sym, ◌∙◌, map_err,
  ◌>>=◌, Option-cases, inl, inr,
}
use policy_evaluator.Prelude.Dict.{get, get-insert}
use policy_evaluator.Context.{EvaluationContext}
use policy_evaluator.Response.Types.{AdmissionResponse}
use policy_evaluator.Group.{
  Policies, EvaluationError, cannot_rehydrate_policy_group_member, PolicyGroupMemberSettings,
  PolicyGroupEvaluator, new, add_policy_member, member_evaluator, validate_policy,
}

module _ {p : Policies} where
  -- the groups that a client can build: a new one, and one member more
  pub data IsBuilt : PolicyGroupEvaluator p → Type 0 where
    built_new :
        (id message expression : String) (channel : Option p.Channel)
        → IsBuilt (new id message expression channel)
    built_add :
        (g : PolicyGroupEvaluator p) (name : String) (pre : p.Pre)
        (settings : PolicyGroupMemberSettings p)
        → IsBuilt g
        → IsBuilt (add_policy_member g name pre settings)

  -- A built group has a policy for a name exactly if it has settings for it.
  pub IsBuilt-get :
      (g : PolicyGroupEvaluator p) (id : String)
      → IsBuilt g
      → is_some (get g.policy_members id) ≡ is_some (get g.policy_members_settings id)
  unfolding new add_policy_member get
  IsBuilt-get _ id (built_new i m e c) = refl
  IsBuilt-get _ id (built_add g name pre settings b) = ground (
    arith,
    IsBuilt-get g id b,
    get-insert g.policy_members name id pre,
    get-insert g.policy_members_settings name id settings,
  )

  -- the error of a member that is there
  abbrev pub IsRehydration : String → EvaluationError p → Type 0
  IsRehydration id e = (c : p.PreError) × (e ≡ cannot_rehydrate_policy_group_member id c)

  -- the context in which a member runs
  abbrev member_context :
      PolicyGroupEvaluator p → String → PolicyGroupMemberSettings p → EvaluationContext p.Channel
  member_context g id settings = record {
    policy_id = id;
    callback_channel = g.callback_channel;
    ctx_aware_resources_allow_list = settings.ctx_aware_resources_allow_list;
    epoch_deadline = settings.epoch_deadline;
  }

  -- the end of an evaluation, by what `rehydrate` gives
  abbrev rehydrated :
      String
      → PolicyGroupMemberSettings p
      → p.Request
      → Result p.PreError p.Evaluator
      → Result (EvaluationError p) AdmissionResponse
  rehydrated id settings req (err c) = err (cannot_rehydrate_policy_group_member id c)
  rehydrated id settings req (ok v) = ok (p.validate v req settings.settings)

  rehydrated-err :
      (id : String) (settings : PolicyGroupMemberSettings p) (req : p.Request)
      (r : Result p.PreError p.Evaluator) (e : EvaluationError p)
      → rehydrated id settings req r ≡ err e
      → IsRehydration id e
  rehydrated-err id settings req (err c) e h = (c, cc)
  rehydrated-err id settings req (ok v) e h = cc

  abbrev bound_rehydrated :
      String
      → PolicyGroupMemberSettings p
      → p.Request
      → Result p.PreError p.Evaluator
      → Result (EvaluationError p) AdmissionResponse
  bound_rehydrated id settings req r = do
    (evaluator, s) ← do
      evaluator ← map_err (cannot_rehydrate_policy_group_member id) r
      ok (evaluator, settings.settings)
    ok (p.validate evaluator req s)

  bound_rehydrated-rehydrated :
      (id : String) (settings : PolicyGroupMemberSettings p) (req : p.Request)
      (r : Result p.PreError p.Evaluator)
      → bound_rehydrated id settings req r ≡ rehydrated id settings req r
  bound_rehydrated-rehydrated id settings req (err c) = refl
  bound_rehydrated-rehydrated id settings req (ok v) = refl

  validate_policy-rehydrated :
      (g : PolicyGroupEvaluator p) (id : String) (pre : p.Pre)
      (settings : PolicyGroupMemberSettings p) (req : p.Request)
      → get g.policy_members id ≡ some pre
      → get g.policy_members_settings id ≡ some settings
      → validate_policy g id req
        ≡ rehydrated id settings req (p.rehydrate pre (member_context g id settings))
  unfolding validate_policy member_evaluator
  validate_policy-rehydrated g id pre settings req found configured =
      rw (found, configured)
        (bound_rehydrated-rehydrated id settings req
          (p.rehydrate pre (member_context g id settings)))

  configured :
      (g : PolicyGroupEvaluator p) (id : String) (pre : p.Pre)
      → IsBuilt g
      → get g.policy_members id ≡ some pre
      → (s : PolicyGroupMemberSettings p) × (get g.policy_members_settings id ≡ some s)
  configured g id pre b found = elim (Option-cases (get g.policy_members_settings id)) [
    | inl missing ↦ absurd (grind (arith, IsBuilt-get g id b))
    | inr here ↦ here
  ]

  -- In a built group the evaluation of a member fails only when the member cannot be rehydrated,
  -- never because its settings are not found.
  validate_policy-err :
      (g : PolicyGroupEvaluator p) (id : String) (pre : p.Pre) (req : p.Request)
      (e : EvaluationError p)
      → IsBuilt g
      → get g.policy_members id ≡ some pre
      → validate_policy g id req ≡ err e
      → IsRehydration id e
  validate_policy-err g id pre req e b found h =
      let (s, settled) = configured g id pre b found in
      rehydrated-err id s req (p.rehydrate pre (member_context g id s)) e
        (sym (validate_policy-rehydrated g id pre s req found settled) ∙ h)
