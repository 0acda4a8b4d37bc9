-- ===== src/Callback/Host/Answers.antt =====
-- src/runtimes/callback.rs: where the answers to a policy come from.
use policy_evaluator.Prelude.{
  none, sym, subst, String, [], ◌∷◌, some, ok, err, ◌≡◌, ◌≤◌, length, arith, refl, Option-cases,
  inl, inr,
}
use policy_evaluator.Context.{EvaluationContext}
use policy_evaluator.Callback.Requests.{Bytes, Sdk, CallbackRequestType}
use policy_evaluator.Callback.Host.{
  Reply, answered, Channel, Decoders, Outcome, deliver, send_request_and_wait_for_response,
  host_callback,
}
use policy_evaluator.Callback.Host.Access.{host_callback_cases}

module _ {sdk : Sdk} (ctx : EvaluationContext (Channel sdk))
    (binding namespace operation : String) where
  -- An answer is an error, with one request on the channel at most; the empty answer to a log; or the
  -- payload that the handler gave to the one request that was sent.
  pub data Origin (outcome : Outcome sdk) : Type 0 where
    failure : (e : String) → outcome.0 ≡ err e → length outcome.1 ≤ 1 → Origin outcome
    logged :
        binding ≡ "kubewarden"
        → namespace ≡ "tracing"
        → operation ≡ "log"
        → outcome ≡ (ok [], [])
        → Origin outcome
    delivered :
        (channel : Channel sdk) (req : CallbackRequestType sdk) (payload : Bytes)
        → ctx.callback_channel ≡ some channel
        → channel req ≡ answered payload
        → outcome ≡ (ok payload, req ∷ [])
        → Origin outcome

  deliver-Origin :
      (channel : Channel sdk) (req : CallbackRequestType sdk) (reply : Reply)
      → ctx.callback_channel ≡ some channel
      → channel req ≡ reply
      → Origin (deliver req reply)
  deliver-Origin channel req (Reply.refused e) c r = failure _ refl (omega arith)
  deliver-Origin channel req (Reply.failed e) c r = failure _ refl (omega arith)
  deliver-Origin channel req (Reply.answered p) c r = delivered channel req p c r refl
  deliver-Origin channel req Reply.dropped c r = failure _ refl (omega arith)

  send-none :
      (req : CallbackRequestType sdk)
      → ctx.callback_channel ≡ none
      → (send_request_and_wait_for_response ctx req).1 ≡ []
  unfolding send_request_and_wait_for_response
  send-none req missing = rw missing

  send_error :
      (req : CallbackRequestType sdk)
      → ctx.callback_channel ≡ none
      → (send_request_and_wait_for_response ctx req).0
        ≡ err "Cannot process Wasm guest request: callback channel not provided"
  unfolding send_request_and_wait_for_response
  send_error req missing = rw missing

  send-some :
      (req : CallbackRequestType sdk) (channel : Channel sdk)
      → ctx.callback_channel ≡ some channel
      → send_request_and_wait_for_response ctx req ≡ deliver req (channel req)
  unfolding send_request_and_wait_for_response
  send-some req channel present = rw present

  send-Origin :
      (req : CallbackRequestType sdk) → Origin (send_request_and_wait_for_response ctx req)
  send-Origin req = elim (Option-cases ctx.callback_channel) [
    | inl missing ↦ failure _ (send_error req missing) (rw (send-none req missing) (omega arith))
    | inr (channel, present) ↦
        subst Origin (sym (send-some req channel present))
          (deliver-Origin channel req (channel req) present refl)
  ]

-- Whatever a policy asks of its host has an answer of one of three origins: an error after at most
-- one request, the empty answer to a log, or the handler's payload for the only request sent.
pub host_callback-Origin :
    {sdk : Sdk} (decode : Decoders sdk) (ctx : EvaluationContext (Channel sdk))
    (binding namespace operation : String) (payload : Bytes)
    → Origin ctx binding namespace operation
        (host_callback decode ctx binding namespace operation payload)
host_callback-Origin decode ctx binding namespace operation payload =
    host_callback_cases decode ctx binding (Origin ctx binding namespace operation)
      (λ e. failure e refl (omega arith)) (λ req h. send-Origin ctx binding namespace operation req)
      namespace operation payload (λ b n o. logged b n o refl)
