-- ===== src/Rego/Runtime/Verdict.antt =====
-- src/runtimes/rego/runtime.rs: when a Rego policy allows a request.
use policy_evaluator.Prelude.{
  String, true, Option, none, some, List, [], ◌∷◌, Result, ok, err, string_eq, ◌≡◌, ◌↔◌, refl, sym,
  ◌∙◌, ap, >>=-eq-ok, subst, and_then, ok_injective, some_injective, ◌>>=◌,
}
use policy_evaluator.Prelude.Dict.{Dict}
use policy_evaluator.Request.{
  K8s, AdmissionRequest, JsonValue, ValidateRequest, raw, admission_request, uid,
  RegoPolicyExecutionMode, opa, gatekeeper,
}
use policy_evaluator.Response.{reject, reject_internal_server_error}
use policy_evaluator.Response.Types.{AdmissionResponse}
use policy_evaluator.Rego.Runtime.{
  Burrego, Panic, reset_if, KubernetesContext, Stack, evaluate_opa, evaluate_gatekeeper, opa_answer,
  opa_response, violations, decoded_or_default, violations_or_default, opa_decoded, opa_answered,
  violations_response, gatekeeper_response, interpret, finish, finish_evaluation, validate_in,
  validate,
}

module _ {k8s : K8s} {json : JsonValue} (b : Burrego k8s json) where
  -- The values that allow: for OPA one with a decodable response under `[0].result.response` that
  -- allows; for Gatekeeper one whose element at 0, if it has one, does not decode to a violation.
  abbrev pub IsAcceptance : RegoPolicyExecutionMode → json.Value → Type 0
  IsAcceptance opa value =
      (first : json.Value) × (result : json.Value) × (answer : json.Value)
      × (response : AdmissionResponse) × (b.get_index value 0 ≡ some first)
      × (json.get_key first "result" ≡ some result)
      × (json.get_key result "response" ≡ some answer)
      × (b.response_from answer ≡ ok response)
      × (response.allowed ≡ true)
  IsAcceptance gatekeeper value =
      (first : json.Value) (vs : List (Option String))
      → b.get_index value 0 ≡ some first
      → b.violations_from first ≡ ok vs
      → vs ≡ []

  and_then-some :
      {A B : Type 0} (o : Option A) (k : A → Option B) (y : B)
      → (and_then o k ≡ some y) ↔ ((x : A) × (o ≡ some x) × (k x ≡ some y))
  and_then-some none k y = ((λ h. cc), λ (x, h, e). cc)
  and_then-some (some a) k y =
      ((λ h. (a, refl, h)), λ (x, h, e). subst (λ z. k z ≡ some y) (sym (some_injective h)) e)

  decoded-none :
      (r : Result b.JsonError (List (Option String)))
      → (decoded_or_default b r ≡ []) ↔ ((vs : List (Option String)) → r ≡ ok vs → vs ≡ [])
  decoded-none (ok vs) =
      ((λ none_there ws same. sym (ok_injective same) ∙ none_there), λ h. h vs refl)
  decoded-none (err e) = ((λ h vs same. cc), λ h. refl)

  violations-none :
      (o : Option json.Value)
      → (violations_or_default b o ≡ []) ↔ (
          (first : json.Value) (vs : List (Option String))
          → o ≡ some first
          → b.violations_from first ≡ ok vs
          → vs ≡ [])
  violations-none none = ((λ h first vs same. cc), λ h. refl)
  violations-none (some v) =
      let decoded = decoded-none (b.violations_from v) in
      (
        (λ h first vs same read.
            decoded.0 h vs (ap b.violations_from (some_injective same) ∙ read)),
        λ h. decoded.1 (λ vs read. h v vs refl read),
      )

  opa_decoded-allowed :
      (id : String) (r : Result b.JsonError AdmissionResponse)
      → ((opa_decoded b id r).allowed ≡ true)
        ↔ ((response : AdmissionResponse) × (r ≡ ok response) × (response.allowed ≡ true))
  unfolding reject_internal_server_error reject
  opa_decoded-allowed id (ok response) = (
    (λ h. (response, refl, h)),
    λ (x, same, h). let back : response ≡ x = cc in ap (λ q. q.allowed) back ∙ h,
  )
  opa_decoded-allowed id (err e) = ((λ h. cc), λ (x, same, h). cc)

  opa_answered-allowed :
      (id : String) (a : Option json.Value)
      → ((opa_answered b id a).allowed ≡ true) ↔ (
          (answer : json.Value) × (response : AdmissionResponse) × (a ≡ some answer)
          × (b.response_from answer ≡ ok response)
          × (response.allowed ≡ true))
  unfolding reject_internal_server_error reject
  opa_answered-allowed id none = ((λ h. cc), λ (x, y, same, d, h). cc)
  opa_answered-allowed id (some answer) =
      let decoded = opa_decoded-allowed id (b.response_from answer) in
      (
        (λ h. let (response, d, allowed) = decoded.0 h in (answer, response, refl, d, allowed)),
        λ (x, y, same, d, h).
            let back : answer ≡ x = cc in decoded.1 (y, ap b.response_from back ∙ d, h),
      )

  violations_response-allowed :
      (id : String) (vs : List (Option String))
      → ((violations_response b id vs).allowed ≡ true) ↔ (vs ≡ [])
  violations_response-allowed id [] = ((λ h. refl), λ h. refl)
  violations_response-allowed id (v ∷ vs) = ((λ h. cc), λ h. cc)

  interpret-allowed :
      (mode : RegoPolicyExecutionMode) (id : String) (value : json.Value)
      → ((interpret b mode id value).allowed ≡ true) ↔ IsAcceptance mode value
  unfolding opa_response gatekeeper_response
  interpret-allowed opa id value =
      let answered = opa_answered-allowed id (opa_answer b value) in
      (
        (λ h.
            let (answer, response, is_answer, decoded, allowed) = answered.0 h in
            let (result, is_result, is_response) = (and_then-some _ _ answer).0 is_answer in
            let (first, is_first, has_result) = (and_then-some _ _ result).0 is_result in
            (first, result, answer, response, is_first, has_result, is_response, decoded, allowed)),
        λ (first, result, answer, response, is_first, has_result, is_response, decoded, allowed).
            let is_result = (and_then-some _ _ result).1 (first, is_first, has_result) in
            let is_answer = (and_then-some _ _ answer).1 (result, is_result, is_response) in
            answered.1 (answer, response, is_answer, decoded, allowed),
      )
  interpret-allowed gatekeeper id value =
      let shown = violations_response-allowed id (violations b value) in
      let empty_iff = violations-none (b.get_index value 0) in
      ((λ h. empty_iff.0 (shown.0 h)), λ h. shown.1 (empty_iff.1 h))

  abbrev Accepts : RegoPolicyExecutionMode → Result b.BurregoError json.Value → Type 0
  Accepts mode r = (value : json.Value) × (r ≡ ok value) × IsAcceptance mode value

  finish-allowed :
      (mode : RegoPolicyExecutionMode) (id : String) (r : Result b.BurregoError json.Value)
      (ev left : b.Evaluator) (response : AdmissionResponse)
      → finish b mode id r ev ≡ ok (response, left)
      → (response.allowed ≡ true) ↔ Accepts mode r
  unfolding finish reject_internal_server_error reject
  finish-allowed mode id (ok value) ev left response h =
      let verdict = interpret-allowed mode id value in
      let same : interpret b mode id value ≡ response = ap (λ q. q.0) (ok_injective h) in
      (
        (λ allowed. (value, refl, verdict.0 (ap (λ r. r.allowed) same ∙ allowed))),
        λ (x, is_value, accepts).
            let back : x ≡ value = cc in
            ap (λ r. r.allowed) (sym same) ∙ verdict.1 (subst (IsAcceptance mode) back accepts),
      )
  finish-allowed mode id (err e) ev left response h =
      let (after, reset_done, rest) = >>=-eq-ok (reset_if b (b.is_deadline_exceeded e) ev) _ h in
      let same = ap (λ q. q.0.allowed) (ok_injective rest) in
      ((λ allowed. cc), λ (x, is_value, accepts). cc)

  -- the evaluation that `validate` makes: none for a raw request in the mode of Gatekeeper
  abbrev pub IsEvaluated :
      RegoPolicyExecutionMode
      → Stack b
      → Dict String json.Value
      → ValidateRequest k8s json
      → KubernetesContext b
      → json.Value
      → Type 0
  IsEvaluated opa stack settings request ctx value =
      (ev : b.Evaluator) × (evaluate_opa b stack settings request ctx ≡ ok (ok value, ev))
  IsEvaluated gatekeeper stack settings request ctx value =
      (req : AdmissionRequest k8s) × (ev : b.Evaluator) × (request ≡ admission_request req)
      × (evaluate_gatekeeper b stack settings req ctx ≡ ok (ok value, ev))

  evaluated-allowed :
      (mode : RegoPolicyExecutionMode) (id : String)
      (ran : Result Panic (Result b.BurregoError json.Value × b.Evaluator))
      (response : AdmissionResponse) (left : b.Evaluator)
      → (ran >>= finish_evaluation b mode id) ≡ ok (response, left)
      → (response.allowed ≡ true) ↔ (
          (value : json.Value) × ((ev : b.Evaluator) × (ran ≡ ok (ok value, ev)))
          × IsAcceptance mode value)
  evaluated-allowed mode id (err e) response left h = cc
  evaluated-allowed mode id (ok (r, ev)) response left h =
      let verdict = finish-allowed mode id r ev left response h in
      (
        (λ allowed.
            let (value, is_value, accepts) = verdict.0 allowed in
            (value, (ev, ap (λ q. ok (q, ev)) is_value), accepts)),
        λ (value, (ev', same), accepts).
            verdict.1 (value, ap (λ q. q.0) (ok_injective same), accepts),
      )

  validate_in-allowed :
      (mode : RegoPolicyExecutionMode) (stack : Stack b) (settings : Dict String json.Value)
      (request : ValidateRequest k8s json) (ctx : KubernetesContext b)
      (response : AdmissionResponse) (ev : b.Evaluator)
      → validate_in b mode stack settings request ctx ≡ ok (response, ev)
      → (response.allowed ≡ true) ↔ (
          (value : json.Value) × IsEvaluated mode stack settings request ctx value
          × IsAcceptance mode value)
  unfolding reject_internal_server_error reject
  validate_in-allowed opa stack settings request ctx response ev h =
      evaluated-allowed opa (uid k8s json request) (evaluate_opa b stack settings request ctx)
        response ev h
  validate_in-allowed gatekeeper stack settings (raw req) ctx response ev h = (
    (λ allowed.
        let same : reject_internal_server_error (uid k8s json (raw req))
              "Gatekeeper does not support raw validation requests"
            ≡ response =
          cc in
        let clash = ap (λ r. r.allowed) same ∙ allowed in cc),
    λ (value, (q, ev', same, done), accepted). cc,
  )
  validate_in-allowed gatekeeper stack settings (admission_request req) ctx response ev h =
      let verdict =
        evaluated-allowed gatekeeper (uid k8s json (admission_request req))
          (evaluate_gatekeeper b stack settings req ctx) response ev h in
      (
        (λ allowed.
            let (value, (ev', evaluated), accepts) = verdict.0 allowed in
            (value, (req, ev', refl, evaluated), accepts)),
        λ (value, (q, ev', same_request, evaluated), accepts).
            let back : req ≡ q = cc in
            verdict.1 (
              value,
              (ev', ap (λ x. evaluate_gatekeeper b stack settings x ctx) back ∙ evaluated),
              accepts,
            ),
      )

  -- When `Runtime::validate` answers, it allows the request exactly if the policy was evaluated to a
  -- value that accepts: in the mode of OPA a value with a response under `[0].result.response` that
  -- can be decoded and allows; in the mode of Gatekeeper, for an admission request, a value whose
  -- element at 0 is missing, cannot be decoded, or decodes to no violations.
  pub validate-allowed :
      (stack : Stack b) (settings : Dict String json.Value) (request : ValidateRequest k8s json)
      (ctx : KubernetesContext b) (response : AdmissionResponse) (ev : b.Evaluator)
      → validate b stack settings request ctx ≡ ok (response, ev)
      → (response.allowed ≡ true) ↔ (
          (value : json.Value) × IsEvaluated stack.policy_execution_mode stack settings request ctx
            value
          × IsAcceptance stack.policy_execution_mode value)
  unfolding validate
  validate-allowed stack settings request ctx response ev h =
      validate_in-allowed stack.policy_execution_mode stack settings request ctx response ev h
