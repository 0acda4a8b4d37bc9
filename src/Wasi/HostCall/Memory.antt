-- ===== src/Wasi/HostCall/Memory.antt =====
-- src/runtimes/wasi_cli/stack_pre.rs: which parts of its memory a guest can hand to the host.
use policy_evaluator.Prelude.{
  ℕ, ◌+◌, ◌-◌, ◌^◌, ◌≤◌, ◌<◌, ◌≡◌, ◌↔◌, some, length, arith, take, drop, ◌∙◌, sym, ap₂,
}
use policy_evaluator.Callback.Requests.{Bytes}
use policy_evaluator.Wasi.HostCall.{as_usize, add_i32, slice, get_vec_from_memory}

slice_iff :
    (mem : Bytes) (from to : ℕ) (bytes : Bytes)
    → (slice mem from to ≡ some bytes)
      ↔ ((from ≤ to) × (to ≤ length mem) × (bytes ≡ take (to - from) (drop from mem)))
slice_iff mem from to bytes = ground arith

within :
    (ptr len size : ℕ)
    → ptr < 2 ^ 32
    → len < 2 ^ 32
    → size ≤ 2 ^ 32
    → (as_usize ptr ≤ as_usize (add_i32 ptr len)) × (as_usize (add_i32 ptr len) ≤ size)
    → (ptr + len < 2 ^ 31) × (ptr + len ≤ size)
within ptr len size hp hl hs (a, b) = ground arith

size_of_read :
    (ptr len size : ℕ)
    → (ptr + len < 2 ^ 31) × (ptr + len ≤ size)
    → (as_usize ptr ≡ ptr) × (as_usize (add_i32 ptr len) ≡ ptr + len)
size_of_read ptr len size (a, b) = (ground arith, ground arith)

-- For a memory of at most 2 ^ 32 bytes and two `i32`, the host reads exactly the parts that lie
-- within the memory and end below 2 ^ 31: there it gets the `len` bytes at `ptr`, and for any
-- other pair, negative or wrapping ones included, it panics.
pub get_vec_from_memory_iff :
    (mem : Bytes) (ptr len : ℕ) (bytes : Bytes)
    → ptr < 2 ^ 32
    → len < 2 ^ 32
    → length mem ≤ 2 ^ 32
    → (get_vec_from_memory mem ptr len ≡ some bytes)
      ↔ ((ptr + len < 2 ^ 31) × (ptr + len ≤ length mem) × (bytes ≡ take len (drop ptr mem)))
unfolding get_vec_from_memory
get_vec_from_memory_iff mem ptr len bytes hp hl hs = (
  (λ read.
      let (ordered, inside, got) =
        (slice_iff mem (as_usize ptr) (as_usize (add_i32 ptr len)) bytes).0 read in
      let (below, fits) = within ptr len (length mem) hp hl hs (ordered, inside) in
      let (from, to) = size_of_read ptr len (length mem) (below, fits) in
      let amount : as_usize (add_i32 ptr len) - as_usize ptr ≡ len = omega arith in
      (below, fits, got ∙ ap₂ (λ n k. take n (drop k mem)) amount from)),
  λ (below, fits, got).
      let (from, to) = size_of_read ptr len (length mem) (below, fits) in
      let amount : as_usize (add_i32 ptr len) - as_usize ptr ≡ len = omega arith in
      (slice_iff mem (as_usize ptr) (as_usize (add_i32 ptr len)) bytes).1
        (omega arith, omega arith, got ∙ sym (ap₂ (λ n k. take n (drop k mem)) amount from)),
)
