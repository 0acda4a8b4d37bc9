-- ===== src/CallbackHandler.antt =====
-- src/callback_handler: the other end of the callback channel, which answers what needs the network.
pub mod Oci
pub mod Sigstore
pub mod Dispatch
mod Tests
use policy_evaluator.Prelude.{String, Bool, true, false, Option, none, some, Result, ok, err}
use policy_evaluator.Kubernetes.Calls.{Return, returned}

-- What comes of an asynchronous call in a task: a result, or `none` if the task panics.
abbrev pub Task : Type 0 → Type 0
Task A = Option (Result String (Return A))

-- a result that was not cached
abbrev pub fresh : {A : Type 0} → Result String A → Task A
fresh r = some (returned false r)

-- what the cache of a function has for the key of a call, or else what comes of the call
abbrev pub cached_or : {A : Type 0} → Option A → Task A → Task A
cached_or (some a) task = some (ok (record { value = a; was_cached = true }))
cached_or none task = task
