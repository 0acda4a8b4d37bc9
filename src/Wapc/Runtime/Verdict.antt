-- ===== src/Wapc/Runtime/Verdict.antt =====
-- src/runtimes/wapc/runtime.rs: when a waPC policy allows a request.
use policy_evaluator.Prelude.{
  String, true, Result, ok, err, ◌≡◌, ◌↔◌, OkWith, OkWith-ok, OkWith-err, Bool-cases, inl, inr,
}
use policy_evaluator.Prelude.Dict.{Dict}
use policy_evaluator.Json.{Serde}
use policy_evaluator.Callback.Requests.{Bytes, Sdk}
use policy_evaluator.Callback.Host.{Decoders}
use policy_evaluator.Marshal.{Marshal, req_obj}
use policy_evaluator.Marshal.Answer.{
  IsResponseTo, IsAcceptance, respond-IsResponseTo, respond-allowed, reject-IsResponseTo,
  reject_internal-IsResponseTo, reject_internal-denied,
}
use policy_evaluator.Request.{K8s, JsonValue, ValidateRequest, uid}
use policy_evaluator.Response.{reject}
use policy_evaluator.Wasm.{Wasm}
use policy_evaluator.Wapc.{WapcLibrary, WapcStack, call}
use policy_evaluator.Wapc.Runtime.{
  with_error, format_error, is_interrupted, answer_call, call_with, validate,
}

module _ {wasm : Wasm} {sdk : Sdk} (decode : Decoders sdk) (l : WapcLibrary wasm sdk)
    (bytes_debug : Bytes → String) {k8s : K8s} {json : JsonValue} {serde : Serde}
    (m : Marshal k8s json serde) where
  answer_call-IsResponseTo :
      (request : ValidateRequest k8s json) (called : Result l.Error Bytes)
      (stack : WapcStack decode l)
      → IsResponseTo
          (uid k8s json request)
          (answer_call decode l bytes_debug m request called stack).0
  answer_call-IsResponseTo request (ok res) stack =
      respond-IsResponseTo (with_error l bytes_debug) (format_error l bytes_debug) _ _ _
  answer_call-IsResponseTo request (err e) stack = elim (Bool-cases (is_interrupted l e)) [
    | inl yes_it_is ↦ rw yes_it_is (reject-IsResponseTo _ _ 500)
    | inr it_is_not ↦ rw it_is_not (reject_internal-IsResponseTo _ _)
  ]

  call_with-IsResponseTo :
      (stack : WapcStack decode l) (request : ValidateRequest k8s json)
      (params : Result serde.Error String)
      → IsResponseTo
          (uid k8s json request)
          (call_with decode l bytes_debug m stack request params).0
  call_with-IsResponseTo stack request (err e) = reject_internal-IsResponseTo _ _
  call_with-IsResponseTo stack request (ok text) = answer_call-IsResponseTo request _ _

  -- Every response of a waPC policy has the uid of its request, and a patch only with its type.
  pub validate-IsResponseTo :
      (stack : WapcStack decode l) (settings : Dict String json.Value)
      (request : ValidateRequest k8s json)
      → IsResponseTo
          (uid k8s json request)
          (validate decode l bytes_debug m stack settings request).0
  unfolding validate
  validate-IsResponseTo stack settings request = call_with-IsResponseTo stack request _

  -- the call of the guest on a request
  abbrev pub call_on : WapcStack decode l → String → Result l.Error Bytes
  call_on stack text = (call decode l stack "validate" (m.as_bytes text)).0

  -- an answer that can be read and is accepted
  abbrev pub AcceptedBy : ValidateRequest k8s json → Bytes → Type 0
  AcceptedBy request res =
      IsAcceptance (uid k8s json request) (req_obj m request) (m.response_from_slice res)

  answer_call-allowed :
      (request : ValidateRequest k8s json) (called : Result l.Error Bytes)
      (stack : WapcStack decode l)
      → ((answer_call decode l bytes_debug m request called stack).0.allowed ≡ true)
        ↔ OkWith called (AcceptedBy request)
  unfolding reject
  answer_call-allowed request (err e) stack =
      let denied = reject_internal-denied (uid k8s json request) (l.error_to_string e) in
      elim (Bool-cases (is_interrupted l e)) [
        | inl yes_it_is ↦
            (rw yes_it_is (λ h. cc), λ h. absurd (OkWith-err (AcceptedBy request) e h))
        | inr it_is_not ↦
            (rw it_is_not (λ h. cc), λ h. absurd (OkWith-err (AcceptedBy request) e h))
      ]
  answer_call-allowed request (ok res) stack =
      let verdict =
        respond-allowed (with_error l bytes_debug) (format_error l bytes_debug)
          (uid k8s json request) (req_obj m request) (m.response_from_slice res) in
      let there = OkWith-ok (AcceptedBy request) res in
      ((λ h. there.1 (verdict.0 h)), λ h. verdict.1 (there.0 h))

  call_with-allowed :
      (stack : WapcStack decode l) (request : ValidateRequest k8s json)
      (params : Result serde.Error String)
      → ((call_with decode l bytes_debug m stack request params).0.allowed ≡ true)
        ↔ OkWith params (λ text. OkWith (call_on stack text) (AcceptedBy request))
  call_with-allowed stack request (err e) =
      let denied = reject_internal-denied (uid k8s json request) (serde.error_to_string e) in
      (
        (λ h. cc),
        λ h. absurd (OkWith-err (λ text. OkWith (call_on stack text) (AcceptedBy request)) e h),
      )
  call_with-allowed stack request (ok text) =
      let verdict =
        answer_call-allowed request (call_on stack text)
          (call decode l stack "validate" (m.as_bytes text)).1 in
      let there = OkWith-ok (λ t. OkWith (call_on stack t) (AcceptedBy request)) text in
      ((λ h. there.1 (verdict.0 h)), λ h. verdict.1 (there.0 h))

  -- A waPC policy allows a request exactly if the request and the settings could be serialised, the
  -- call of the guest on them gave bytes, and these can be read as an answer that is accepted: the
  -- policy accepts, does not mutate the object of a delete, and its mutation, if any, gives a patch.
  pub validate-allowed :
      (stack : WapcStack decode l) (settings : Dict String json.Value)
      (request : ValidateRequest k8s json)
      → ((validate decode l bytes_debug m stack settings request).0.allowed ≡ true)
        ↔ OkWith
            (m.params_to_string request settings)
            (λ text. OkWith (call_on stack text) (AcceptedBy request))
  unfolding validate
  validate-allowed stack settings request = call_with-allowed stack request _
