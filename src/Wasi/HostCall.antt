-- ===== src/Wasi/HostCall.antt =====
-- src/runtimes/wasi_cli/stack_pre.rs: the function `host.call`, by which a WASI policy uses its
-- host. An `i32` is its bit pattern, a number below 2 ^ 32; a `usize` has 64 bits.
pub mod Memory
pub mod Answers
use policy_evaluator.Prelude.{
  ℕ, ◌+◌, ◌-◌, ◌%◌, ◌^◌, String, Bool, true, false, ◌&&◌, Option, none, some, List, [], Result, ok,
  err, ◌>>=◌, map_err, length, leb, ltb, if◌then◌else◌, take, drop,
}
use policy_evaluator.Context.{EvaluationContext}
use policy_evaluator.Callback.Requests.{Bytes, Sdk, CallbackRequestType}
use policy_evaluator.Callback.Host.{Channel, Decoders, host_callback}
use policy_evaluator.Wasi.Errors.{
  WasiRuntimeError, wasi_mem_export, wasi_mem_export_cannot_convert, wasi_mem_op_to_utf8,
  wasi_write_access_stdin,
}
use policy_evaluator.Wasi.Pipe.{WasiPipe, write}

-- how a call ends if it does not return to the guest: a panic of the host, or an error of it
pub data Trap : Type 0 where
  panic : Trap
  failed : WasiRuntimeError → Trap

-- the texts of the standard library: their bytes, and the check of bytes
pub record Utf8 : Type 0 where
  pub as_bytes : String → Bytes
  pub from_utf8 : Bytes → Result String String

-- `w as usize` of an `i32`, with its sign
abbrev pub as_usize : ℕ → ℕ
as_usize w = if ltb w (2 ^ 31) then w else w + (2 ^ 64 - 2 ^ 32)

-- `a + b` of two `i32`
abbrev pub add_i32 : ℕ → ℕ → ℕ
add_i32 a b = (a + b) % 2 ^ 32

-- `data[from..to].to_vec()`, with `none` for its panics
abbrev pub slice : Bytes → ℕ → ℕ → Option Bytes
slice bytes from to =
    if leb from to && leb to (length bytes) then some (take (to - from) (drop from bytes)) else none

unfoldable pub get_vec_from_memory : Bytes → ℕ → ℕ → Option Bytes
get_vec_from_memory mem ptr len = slice mem (as_usize ptr) (as_usize (add_i32 ptr len))

-- the arguments of a call, each an `i32`
pub record Arguments : Type 0 where
  pub bd_ptr : ℕ
  pub bd_len : ℕ
  pub ns_ptr : ℕ
  pub ns_len : ℕ
  pub op_ptr : ℕ
  pub op_len : ℕ
  pub ptr : ℕ
  pub len : ℕ

-- what a call asks of the host
pub record Call : Type 0 where
  pub binding : String
  pub namespace : String
  pub operation : String
  pub payload : Bytes

-- what the guest exports as "memory": nothing, something else, or its memory
pub data Export : Type 0 where
  missing other : Export
  memory : Bytes → Export

-- `caller.get_export("memory")` and `into_memory`
unfoldable pub memory_of : Export → Result Trap Bytes
memory_of missing = err (failed wasi_mem_export)
memory_of other = err (failed wasi_mem_export_cannot_convert)
memory_of (memory mem) = ok mem

abbrev pub or_panic : {A : Type 0} → Option A → Result Trap A
or_panic none = err panic
or_panic (some a) = ok a

-- the flag for the guest, 1 for a failure
abbrev pub func_return_value : Result String Bytes → ℕ
func_return_value (ok r) = 0
func_return_value (err e) = 1

module _ (utf8 : Utf8) where
  -- `std::str::from_utf8`
  abbrev pub text_of : Bytes → Result Trap String
  text_of bytes = map_err (λ e. failed (wasi_mem_op_to_utf8 e)) (utf8.from_utf8 bytes)

  -- what is read from the memory, in the order of the reads
  unfoldable pub read_call : Export → Arguments → Result Trap Call
  unfolding memory_of get_vec_from_memory
  read_call guest args = do
    mem ← memory_of guest
    vec ← or_panic (get_vec_from_memory mem args.ptr args.len)
    bd_vec ← or_panic (get_vec_from_memory mem args.bd_ptr args.bd_len)
    bd ← text_of bd_vec
    ns_vec ← or_panic (get_vec_from_memory mem args.ns_ptr args.ns_len)
    ns ← text_of ns_vec
    op_vec ← or_panic (get_vec_from_memory mem args.op_ptr args.op_len)
    op ← text_of op_vec
    ok (record { binding = bd; namespace = ns; operation = op; payload = vec })

  -- the bytes of the answer or of the error
  abbrev pub response_msg : Result String Bytes → Bytes
  response_msg (ok r) = r
  response_msg (err e) = utf8.as_bytes e

  module _ {sdk : Sdk} (decode : Decoders sdk) where
    -- `Context`, without the context of WASI itself; a lock is poisoned or not
    pub record Context : Type 0 where
      pub stdin_pipe : WasiPipe
      pub stdin_is_poisoned : Bool
      pub eval_ctx : EvaluationContext (Channel sdk)

    -- the flag, the context after the call, and the requests that it made of the channel
    abbrev pub Effect : Type 0
    Effect = Result Trap (ℕ × Context) × List (CallbackRequestType sdk)

    -- the answer is written to the standard input of the guest
    abbrev pub respond : Context → Result String Bytes → Result Trap (ℕ × Context)
    respond ctx response =
        if ctx.stdin_is_poisoned
        then err (failed wasi_write_access_stdin)
        else ok (
          func_return_value response,
          record ctx { stdin_pipe = (write ctx.stdin_pipe (response_msg response)).1 },
        )

    abbrev pub perform : Context → Result Trap Call → Effect
    perform ctx (err trap) = (err trap, [])
    perform ctx (ok call) =
        let outcome =
          host_callback decode ctx.eval_ctx call.binding call.namespace call.operation
            call.payload in
        (respond ctx outcome.0, outcome.1)

    -- `host_call_impl`
    unfoldable pub host_call : Context → Export → Arguments → Effect
    host_call ctx guest args = perform ctx (read_call guest args)
