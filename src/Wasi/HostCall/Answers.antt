-- ===== src/Wasi/HostCall/Answers.antt =====
-- src/runtimes/wasi_cli/stack_pre.rs: what a guest gets for a call of the host.
use policy_evaluator.Prelude.{
  ℕ, ◌≤◌, ◌<◌, ◌≡◌, refl, [], ◌++◌, length, String, Result, ok, err, some, false, ap, ◌∙◌,
}
use policy_evaluator.Callback.Requests.{Bytes, Sdk}
use policy_evaluator.Callback.Host.{Decoders, host_callback, Outcome}
use policy_evaluator.Wasi.Pipe.{write}
use policy_evaluator.Wasi.Pipe.Sessions.{run, reading, run-reading}
use policy_evaluator.Wasi.HostCall.{
  Utf8, Arguments, Call, Export, read_call, func_return_value, response_msg, Context, respond,
  host_call,
}

module _ (utf8 : Utf8) {sdk : Sdk} (decode : Decoders sdk) where
  -- the bytes that wait for the guest, and the context without them
  abbrev pub IsAnswered :
      Context utf8 decode → Result String Bytes → ℕ → Context utf8 decode → Type 0
  IsAnswered ctx response flag ctx' =
      (flag ≡ func_return_value response)
      × (ctx'.stdin_pipe.buffer ≡ ctx.stdin_pipe.buffer ++ response_msg utf8 response)
      × (ctx'.eval_ctx ≡ ctx.eval_ctx)

  respond-IsAnswered :
      (ctx : Context utf8 decode) (response : Result String Bytes)
      → ctx.stdin_is_poisoned ≡ false
      → (flag : ℕ) × (ctx' : Context utf8 decode) × (respond utf8 decode ctx response
          ≡ ok (flag, ctx'))
        × IsAnswered ctx response flag ctx'
  unfolding write
  respond-IsAnswered ctx response unpoisoned = (
    func_return_value response,
    record ctx { stdin_pipe = (write ctx.stdin_pipe (response_msg utf8 response)).1 },
    rw unpoisoned refl,
    (refl, refl, refl),
  )

  -- what the host makes of a call
  abbrev pub outcome : Context utf8 decode → Call → Outcome sdk
  outcome ctx call =
      host_callback decode ctx.eval_ctx call.binding call.namespace call.operation call.payload

  answered :
      (ctx : Context utf8 decode) (guest : Export) (args : Arguments) (call : Call)
      → read_call utf8 guest args ≡ ok call
      → ctx.stdin_is_poisoned ≡ false
      → (flag : ℕ) × (ctx' : Context utf8 decode) × (host_call utf8 decode ctx guest args
          ≡ (ok (flag, ctx'), (outcome ctx call).1))
        × IsAnswered ctx (outcome ctx call).0 flag ctx'
  unfolding host_call
  answered ctx guest args call is_read unpoisoned =
      let (flag, ctx', done, is_answered) =
        respond-IsAnswered ctx (outcome ctx call).0 unpoisoned in
      (flag, ctx', rw (is_read, done) refl, is_answered)

  -- what a guest reads after a call with this outcome, and the flag of the call
  abbrev pub IsReadAs : Result String Bytes → ℕ → Bytes → Type 0
  IsReadAs (ok answer) flag bytes = (flag ≡ 0) × (bytes ≡ answer)
  IsReadAs (err e) flag bytes = (flag ≡ 1) × (bytes ≡ utf8.as_bytes e)

  response_msg-IsReadAs :
      (response : Result String Bytes)
      → IsReadAs response (func_return_value response) (response_msg utf8 response)
  response_msg-IsReadAs (ok answer) = (refl, refl)
  response_msg-IsReadAs (err e) = (refl, refl)

  -- Where the arguments of a call can be read and the lock of the standard input is not poisoned,
  -- the call returns: it makes the requests of the host callback, its flag is 0 if the callback gave
  -- an answer and 1 if it failed, and a guest that then reads its standard input into a buffer that
  -- is not empty, as many times as there are bytes or more, gets what was there before, followed by
  -- the bytes of the answer or of the text of the error, and nothing more.
  pub host_call-reading :
      (ctx : Context utf8 decode) (guest : Export) (args : Arguments) (call : Call)
      → read_call utf8 guest args ≡ ok call
      → ctx.stdin_is_poisoned ≡ false
      → (flag : ℕ) × (ctx' : Context utf8 decode) × (host_call utf8 decode ctx guest args
          ≡ (ok (flag, ctx'), (outcome ctx call).1))
        × (bytes : Bytes) × IsReadAs (outcome ctx call).0 flag bytes
        × ((n : ℕ) (buf : Bytes)
            → 0 < length buf
            → length ctx'.stdin_pipe.buffer ≤ n
            → run (reading n buf) ctx'.stdin_pipe
              ≡ some (ctx.stdin_pipe.buffer ++ bytes, record { buffer = [] }))
  host_call-reading ctx guest args call is_read unpoisoned =
      let (flag, ctx', done, (is_flag, contents, same)) =
        answered ctx guest args call is_read unpoisoned in
      (
        flag,
        ctx',
        done,
        response_msg utf8 (outcome ctx call).0,
        rw is_flag (response_msg-IsReadAs (outcome ctx call).0),
        λ n buf room enough.
            run-reading n buf ctx'.stdin_pipe room enough
            ∙ ap (λ (q : Bytes). some (q, record { buffer = [] })) contents,
      )
