-- ===== src/Wasi/Pipe.antt =====
-- src/runtimes/wasi_cli/wasi_pipe.rs: the pipe that a WASI policy reads as its standard input.
-- A byte is a number; `none` is the panic of an index or of a range that is out of bounds.
pub mod Fifo
pub mod Sessions
use policy_evaluator.Prelude.{
  and_then, ℕ, zero, suc, ◌+◌, ◌≤◌, ◌≡◌, refl, ap, ◌∙◌, sym, Option, none, some, List, [], ◌∷◌,
  ◌++◌, length, leb, if◌then◌else◌, arith, take, drop, String, Result, ok, err,
}

pub record WasiPipe : Type 0 where
  pub buffer : List ℕ

-- `WasiPipe::new`
unfoldable pub new : List ℕ → WasiPipe
new bytes = record { buffer = bytes }

abbrev pub min : ℕ → ℕ → ℕ
min a b = if leb a b then a else b

-- `drain(..amt)`: what it yields, and what it leaves
abbrev pub drain : ℕ → List ℕ → Option (List ℕ × List ℕ)
drain amt xs = if leb amt (length xs) then some (take amt xs, drop amt xs) else none

abbrev cons_to : ℕ → Option (List ℕ) → Option (List ℕ)
cons_to b none = none
cons_to b (some buf) = some (b ∷ buf)

-- `buf[i] = byte`
abbrev pub assign : List ℕ → ℕ → ℕ → Option (List ℕ)
assign [] i byte = none
assign (b ∷ buf) zero byte = some (byte ∷ buf)
assign (b ∷ buf) (suc i) byte = cons_to b (assign buf i byte)

-- the loop over the drained bytes, from the position `i`
abbrev pub fill : ℕ → List ℕ → List ℕ → Option (List ℕ)
fill i [] buf = some buf
fill i (byte ∷ bytes) buf = and_then (assign buf i byte) (fill (suc i) bytes)

-- `read`: the amount, the buffer of the caller and the pipe after it
unfoldable pub read : WasiPipe → List ℕ → Option (ℕ × List ℕ × WasiPipe)
read pipe buf =
    let amt = min (length buf) (length pipe.buffer) in
    and_then (drain amt pipe.buffer) (λ drained.
      and_then (fill 0 drained.0 buf) (λ filled. some (amt, filled, record { buffer = drained.1 })))

-- `write`
unfoldable pub write : WasiPipe → List ℕ → ℕ × WasiPipe
write pipe buf = (length buf, record { buffer = pipe.buffer ++ buf })

-- `flush`
unfoldable pub flush : WasiPipe → Result String WasiPipe
flush pipe = ok pipe

-- `seek`
unfoldable pub seek : WasiPipe → Result String ℕ
seek pipe = err "can not seek in a pipe"
