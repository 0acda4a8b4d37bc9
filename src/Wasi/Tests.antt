-- ===== src/Wasi/Tests.antt =====
-- A WASI policy that asks its host for pods, at concrete inputs.
use policy_evaluator.Prelude.{
  ℕ, ◌+◌, ◌-◌, ◌^◌, ◌≤◌, ◌<◌, [], ◌∷◌, ◌++◌, false, some, ok, ◌≡◌, ◌↔◌, refl, arith, length, take,
  drop,
}
use policy_evaluator.Callback.Requests.{Bytes}
use policy_evaluator.Callback.Sample.{pods_only, connected}
use policy_evaluator.Evaluator.Sample.{ascii, programs}
use policy_evaluator.Wasi.HostCall.{
  Arguments, Call, Context, memory, memory_of, get_vec_from_memory, read_call, host_call,
}
use policy_evaluator.Wasi.HostCall.Answers.{outcome, IsReadAs, host_call-reading}
use policy_evaluator.Wasi.HostCall.Memory.{get_vec_from_memory_iff}
use policy_evaluator.Wasi.Pipe.{WasiPipe}
use policy_evaluator.Wasi.Pipe.Sessions.{host_writes, guest_reads, run, reading, run_lem}
use policy_evaluator.Wasi.Stack.{Execution, RunResult}

-- a range with a negative length is refused
get_vec_from_memory_iff_example :
    (get_vec_from_memory (1 ∷ 2 ∷ 3 ∷ []) 1 (2 ^ 32 - 1) ≡ some []) ↔ (
      (1 + (2 ^ 32 - 1) < 2 ^ 31)
      × (1 + (2 ^ 32 - 1) ≤ length {A = ℕ} (1 ∷ 2 ∷ 3 ∷ []))
      × ([] ≡ take (2 ^ 32 - 1) (drop {A = ℕ} 1 (1 ∷ 2 ∷ 3 ∷ []))))
get_vec_from_memory_iff_example =
    get_vec_from_memory_iff (1 ∷ 2 ∷ 3 ∷ []) 1 (2 ^ 32 - 1) [] (omega arith) (omega arith)
      (omega arith)

abbrev waiting : WasiPipe
waiting = record { buffer = 4 ∷ 5 ∷ [] }

run_lem_example :
    (obtained : Bytes) × (rest : WasiPipe) × (run
        (guest_reads (0 ∷ []) ∷ host_writes (6 ∷ []) ∷ guest_reads (0 ∷ []) ∷ [])
        waiting
      ≡ some (obtained, rest))
    × (obtained ++ rest.buffer ≡ 4 ∷ 5 ∷ 6 ∷ [])
run_lem_example =
    run_lem (guest_reads (0 ∷ []) ∷ host_writes (6 ∷ []) ∷ guest_reads (0 ∷ []) ∷ []) waiting

abbrev guest_context : Context ascii pods_only
guest_context = record { stdin_pipe = waiting; stdin_is_poisoned = false; eval_ctx = connected }

abbrev arguments : Arguments
arguments = record {
  bd_ptr = 0;
  bd_len = 1;
  ns_ptr = 1;
  ns_len = 1;
  op_ptr = 2;
  op_len = 1;
  ptr = 3;
  len = 0;
}

abbrev list_pods : Call
list_pods = record {
  binding = "kubewarden";
  namespace = "kubernetes";
  operation = "list_resources_all";
  payload = [];
}

list_pods_is_read : read_call ascii (memory (1 ∷ 2 ∷ 3 ∷ [])) arguments ≡ ok list_pods
unfolding read_call memory_of get_vec_from_memory
list_pods_is_read = refl

host_call-reading_example :
    (flag : ℕ) × (ctx' : Context ascii pods_only) × (host_call ascii pods_only guest_context
        (memory (1 ∷ 2 ∷ 3 ∷ []))
        arguments
      ≡ (ok (flag, ctx'), (outcome ascii pods_only guest_context list_pods).1))
    × (bytes : Bytes) × IsReadAs ascii pods_only
        (outcome ascii pods_only guest_context list_pods).0
        flag
        bytes
    × ((n : ℕ) (buf : Bytes)
        → 0 < length buf
        → length ctx'.stdin_pipe.buffer ≤ n
        → run (reading n buf) ctx'.stdin_pipe
          ≡ some ((4 ∷ 5 ∷ []) ++ bytes, record { buffer = [] }))
host_call-reading_example =
    host_call-reading ascii pods_only guest_context (memory (1 ∷ 2 ∷ 3 ∷ [])) arguments list_pods
      list_pods_is_read refl

abbrev returned : Execution Unit
returned = record { evaluation_result = ok tt; stdout = some (2 ∷ []); stderr = some [] }

abbrev printed : RunResult ascii pods_only programs
printed = record { stdout = "kubernetes"; stderr = "" }
