-- ===== src/Marshal/Answer.antt =====
-- src/runtimes: what the response says that a runtime makes of the answer of a policy.
use policy_evaluator.Prelude.{
  String, true, false, Option, Result, ok, err, ◌≡◌, ◌↔◌, refl, arith, sym, Result-cases, inl, inr,
  subst,
}
use policy_evaluator.Json.{Serde}
use policy_evaluator.Response.{
  PolicyValidationResponse, ResponseError, reject, reject_internal_server_error,
  from_policy_validation_response,
}
use policy_evaluator.Response.Types.{AdmissionResponse}
use policy_evaluator.Response.Verdict.{
  IsWellFormed, mutates_nothing, from_policy_validation_response-Verdict,
}
use policy_evaluator.Marshal.{built_or_rejected, respond, response_error_to_string}

-- what every response of a runtime has: the uid of its request, and a patch only with its type
pub record IsResponseTo (uid : String) (r : AdmissionResponse) : Type 0 where
  pub same_uid : r.uid ≡ uid
  pub well_formed : IsWellFormed r

pub reject-IsResponseTo :
    (uid message : String) (code : _) → IsResponseTo uid (reject uid message code)
unfolding reject
reject-IsResponseTo uid message code = record {
  same_uid = refl;
  well_formed = record { patch_typed = refl };
}

pub reject_internal-IsResponseTo :
    (uid message : String) → IsResponseTo uid (reject_internal_server_error uid message)
unfolding reject_internal_server_error
reject_internal-IsResponseTo uid message = reject-IsResponseTo uid _ 500

pub reject_internal-denied :
    (uid message : String) → (reject_internal_server_error uid message).allowed ≡ false
unfolding reject_internal_server_error reject
reject_internal-denied uid message = refl

module _ {serde : Serde} where
  -- An answer that was read and is accepted: the policy accepts, does not mutate the object of a
  -- delete, and its mutation, if any, gives a patch.
  abbrev pub IsAcceptance :
      String → Option serde.Value → Result serde.Error (PolicyValidationResponse serde) → Type 0
  IsAcceptance uid obj answer =
      (resp : PolicyValidationResponse serde) × (r : AdmissionResponse) × (answer ≡ ok resp)
      × (from_policy_validation_response serde uid obj resp ≡ ok r)
      × (resp.accepted ≡ true)
      × (mutates_nothing serde obj resp ≡ false)

  pub respond-IsResponseTo :
      (invalid invalid_format : String → String) (uid : String) (obj : Option serde.Value)
      (answer : Result serde.Error (PolicyValidationResponse serde))
      → IsResponseTo uid (respond invalid invalid_format uid obj answer)
  respond-IsResponseTo invalid invalid_format uid obj (err e) =
      reject_internal-IsResponseTo uid (invalid (serde.error_to_string e))
  respond-IsResponseTo invalid invalid_format uid obj (ok resp) =
      elim (Result-cases (from_policy_validation_response serde uid obj resp)) [
        | inl (r, built) ↦
            let v = from_policy_validation_response-Verdict serde uid obj resp r built in
            rw built (record { same_uid = v.same_uid; well_formed = v.well_formed })
        | inr (e, failed) ↦ rw failed (reject_internal-IsResponseTo uid _)
      ]

  built-allowed :
      (invalid_format : String → String) (uid : String) (obj : Option serde.Value)
      (resp : PolicyValidationResponse serde)
      (built : Result (ResponseError serde) AdmissionResponse)
      → from_policy_validation_response serde uid obj resp ≡ built
      → ((built_or_rejected invalid_format uid built).allowed ≡ true) ↔ (
          (r : AdmissionResponse) × (from_policy_validation_response serde uid obj resp ≡ ok r)
          × (resp.accepted ≡ true)
          × (mutates_nothing serde obj resp ≡ false))
  built-allowed invalid_format uid obj resp (ok r) same =
      let v = from_policy_validation_response-Verdict serde uid obj resp r same in
      let verdict = v.allowed in
      (
        (λ h. (r, same, ground arith, ground arith)),
        λ (r', same', accepted, mutates). rw (verdict, accepted, mutates) refl,
      )
  built-allowed invalid_format uid obj resp (err e) same =
      let denied = reject_internal-denied uid (invalid_format (response_error_to_string e)) in
      ((λ h. cc), λ (r', same', accepted, mutates). cc)

  -- A runtime allows a request on an answer exactly if the answer was read and is accepted.
  pub respond-allowed :
      (invalid invalid_format : String → String) (uid : String) (obj : Option serde.Value)
      (answer : Result serde.Error (PolicyValidationResponse serde))
      → ((respond invalid invalid_format uid obj answer).allowed ≡ true)
        ↔ IsAcceptance uid obj answer
  respond-allowed invalid invalid_format uid obj (err e) =
      let denied = reject_internal-denied uid (invalid (serde.error_to_string e)) in
      ((λ h. cc), λ (resp, r, same, built, accepted, mutates). cc)
  respond-allowed invalid invalid_format uid obj (ok resp) =
      let verdict = built-allowed invalid_format uid obj resp _ refl in
      (
        (λ h.
            let (r, built, accepted, mutates) = verdict.0 h in
            (resp, r, refl, built, accepted, mutates)),
        λ (resp', r, same, built, accepted, mutates).
            let back : resp' ≡ resp = cc in
            subst
              (λ q.
                (from_policy_validation_response serde uid obj q ≡ ok r)
                  × (q.accepted ≡ true)
                  × (mutates_nothing serde obj q ≡ false)
                → (respond invalid invalid_format uid obj (ok resp)).allowed ≡ true)
              (sym back) (λ (b, a, n). verdict.1 (r, b, a, n)) (built, accepted, mutates),
      )
