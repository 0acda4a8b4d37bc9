-- ===== src/Wasi/Pipe/Sessions.antt =====
-- src/runtimes/wasi_cli/wasi_pipe.rs: sequences of writes of the host and reads of the guest.
use policy_evaluator.Prelude.{
  take-append, length-drop, and_then, ℕ, zero, suc, ◌≤◌, ◌<◌, ◌≡◌, refl, ap, ◌∙◌, sym, Option, none,
  some, List, [], ◌∷◌, ◌++◌, length, arith, take, drop, take-drop, length-take, append_assoc,
  append-nil,
}
use policy_evaluator.Wasi.Pipe.{WasiPipe, read, write}
use policy_evaluator.Wasi.Pipe.Fifo.{IsRead, read-IsRead}

-- a write of bytes by the host, or a read of the guest into a buffer
pub data Step : Type 0 where
  host_writes : List ℕ → Step
  guest_reads : List ℕ → Step

abbrev obtaining : List ℕ → Option (List ℕ × WasiPipe) → Option (List ℕ × WasiPipe)
obtaining bytes none = none
obtaining bytes (some (obtained, pipe)) = some (bytes ++ obtained, pipe)

abbrev pub run : List Step → WasiPipe → Option (List ℕ × WasiPipe)
run [] pipe = some ([], pipe)
run (host_writes bytes ∷ steps) pipe = run steps (write pipe bytes).1
run (guest_reads buf ∷ steps) pipe =
    and_then (read pipe buf) (λ (amt, filled, pipe'). obtaining (take amt filled) (run steps pipe'))

-- the bytes that the host writes
abbrev pub written : List Step → List ℕ
written [] = []
written (host_writes bytes ∷ steps) = bytes ++ written steps
written (guest_reads buf ∷ steps) = written steps

taken_lem :
    {pipe pipe' : WasiPipe} {buf filled : List ℕ} {amt : ℕ}
    → IsRead pipe buf amt filled pipe'
    → take amt filled ++ pipe'.buffer ≡ pipe.buffer
taken_lem {pipe} {pipe'} {buf} {filled} {amt} r =
    let taken = length-take amt pipe.buffer r.within_pipe in
    let front = take-append amt (take amt pipe.buffer) (drop amt buf) (sym taken) in
    rw (r.bytes_filled, r.rest_kept, front) (take-drop amt pipe.buffer)

-- Whatever the host writes and the guest reads, no read panics, and what the guest obtained in all
-- and what is left in the pipe are, in order, what was in the pipe and what the host wrote.
pub run_lem :
    (steps : List Step) (pipe : WasiPipe)
    → (obtained : List ℕ) × (rest : WasiPipe) × (run steps pipe ≡ some (obtained, rest))
      × (obtained ++ rest.buffer ≡ pipe.buffer ++ written steps)
unfolding write
run_lem [] pipe = ([], pipe, refl, sym (append-nil pipe.buffer))
run_lem (host_writes bytes ∷ steps) pipe =
    let (obtained, rest, ran, order) = run_lem steps (write pipe bytes).1 in
    (obtained, rest, ran, order ∙ append_assoc pipe.buffer bytes (written steps))
run_lem (guest_reads buf ∷ steps) pipe =
    let (amt, filled, pipe', done, is_read) = read-IsRead pipe buf in
    let (obtained, rest, ran, order) = run_lem steps pipe' in
    (
      take amt filled ++ obtained,
      rest,
      rw (done, ran) refl,
      append_assoc (take amt filled) obtained rest.buffer
          ∙ ap (λ q. take amt filled ++ q) order
          ∙ sym (append_assoc (take amt filled) pipe'.buffer (written steps))
          ∙ ap (λ q. q ++ written steps) (taken_lem is_read),
    )

-- a guest that reads `n` times into the buffer
abbrev pub reading : ℕ → List ℕ → List Step
reading zero buf = []
reading (suc n) buf = guest_reads buf ∷ reading n buf

nothing_left : (xs : List ℕ) → length xs ≤ 0 → xs ≡ []
nothing_left [] h = refl
nothing_left (x ∷ xs) h = absurd (omega arith)

shorter :
    {pipe pipe' : WasiPipe} {buf filled : List ℕ} {amt : ℕ} (n : ℕ)
    → IsRead pipe buf amt filled pipe'
    → 0 < length buf
    → length pipe.buffer ≤ suc n
    → length pipe'.buffer ≤ n
shorter {pipe} {pipe'} {buf} {filled} {amt} n r some_room h =
    let rest = length-drop amt pipe.buffer r.within_pipe in
    let same = ap (λ xs. length xs) r.rest_kept in ground (arith, r.all_there_is)

-- A guest with a buffer that is not empty drains the pipe: with as many reads as there are bytes, or
-- more, it obtained all of them in order, and the pipe is empty.
pub run-reading :
    (n : ℕ) (buf : List ℕ) (pipe : WasiPipe)
    → 0 < length buf
    → length pipe.buffer ≤ n
    → run (reading n buf) pipe ≡ some (pipe.buffer, record { buffer = [] })
run-reading zero buf pipe some_room h = let empty = nothing_left pipe.buffer h in rw empty refl
run-reading (suc n) buf pipe some_room h =
    let (amt, filled, pipe', done, is_read) = read-IsRead pipe buf in
    let rest = run-reading n buf pipe' some_room (shorter n is_read some_room h) in
    rw (done, rest, taken_lem is_read) refl
