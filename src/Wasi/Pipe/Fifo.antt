-- ===== src/Wasi/Pipe/Fifo.antt =====
-- src/runtimes/wasi_cli/wasi_pipe.rs: the pipe hands out its bytes in order and within bounds.
use policy_evaluator.Prelude.{
  ℕ, suc, ◌≤◌, ◌≡◌, refl, ap, ◌∙◌, some, List, [], ◌∷◌, ◌++◌, length, arith, take, drop,
  length-take, length-append, append_assoc, ◌⊎◌,
}
use policy_evaluator.Wasi.Pipe.{WasiPipe, min, drain, assign, fill, read}

assign-append :
    (front back : List ℕ) (b byte : ℕ)
    → assign (front ++ (b ∷ back)) (length front) byte ≡ some (front ++ (byte ∷ back))
assign-append [] back b byte = refl
assign-append (x ∷ front) back b byte = rw (assign-append front back b byte)

-- Where the buffer has room, the loop writes all bytes behind what it has written.
fill-append :
    (i : ℕ) (front bytes back : List ℕ)
    → i ≡ length front
    → length bytes ≤ length back
    → fill i bytes (front ++ back) ≡ some (front ++ (bytes ++ drop (length bytes) back))
fill-append i front [] back e room = refl
fill-append i front (x ∷ bytes) [] e room = absurd (omega arith)
fill-append i front (x ∷ bytes) (b ∷ back) e room =
    let assigned : assign (front ++ (b ∷ back)) i x ≡ some ((front ++ (x ∷ [])) ++ back) =
      rw (e, append_assoc front (x ∷ []) back) (assign-append front back b x) in
    let longer = length-append front (x ∷ []) in
    let rest = fill-append (suc i) (front ++ (x ∷ [])) bytes back (omega arith) (omega arith) in
    rw assigned (rest ∙ ap (λ q. some q) (append_assoc front (x ∷ []) _))

-- what a read of a pipe promises: the bytes at the front of the pipe stand at the front of the
-- buffer, as many as both have, the rest of the buffer is as before, and the pipe keeps the others
pub record IsRead (pipe : WasiPipe) (buf : List ℕ) (amt : ℕ) (filled : List ℕ) (pipe' : WasiPipe)
    : Type 0 where
  pub within_buf : amt ≤ length buf
  pub within_pipe : amt ≤ length pipe.buffer
  pub all_there_is : (amt ≡ length buf) ⊎ (amt ≡ length pipe.buffer)
  pub bytes_filled : filled ≡ take amt pipe.buffer ++ drop amt buf
  pub rest_kept : pipe'.buffer ≡ drop amt pipe.buffer

-- A read never panics: it fills the front of the buffer with the bytes at the front of the pipe, as
-- many as both have, leaves the rest of the buffer as it is and the other bytes in the pipe.
pub read-IsRead :
    (pipe : WasiPipe) (buf : List ℕ)
    → (amt : ℕ) × (filled : List ℕ) × (pipe' : WasiPipe) × (read pipe buf
        ≡ some (amt, filled, pipe'))
      × IsRead pipe buf amt filled pipe'
unfolding read
read-IsRead pipe buf =
    let amt = min (length buf) (length pipe.buffer) in
    let in_buf : amt ≤ length buf = ground arith in
    let in_pipe : amt ≤ length pipe.buffer = ground arith in
    let taken = length-take amt pipe.buffer in_pipe in
    let drained : drain amt pipe.buffer ≡ some (take amt pipe.buffer, drop amt pipe.buffer) =
      ground arith in
    let filled = fill-append 0 [] (take amt pipe.buffer) buf refl (omega arith) in
    (
      amt,
      take amt pipe.buffer ++ drop amt buf,
      record { buffer = drop amt pipe.buffer },
      rw (drained, filled, taken) refl,
      record {
        within_buf = in_buf;
        within_pipe = in_pipe;
        all_there_is = ground arith;
        bytes_filled = refl;
        rest_kept = refl;
      },
    )
