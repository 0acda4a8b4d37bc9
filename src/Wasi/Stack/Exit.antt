-- ===== src/Wasi/Stack/Exit.antt =====
-- src/runtimes/wasi_cli/stack.rs: which runs of a WASI program give a result.
use policy_evaluator.Prelude.{
  String, Option, none, some, Result, ok, err, ◌≡◌, ◌↔◌, refl, trim, sym, ap, >>=-eq-ok, zero, suc,
  OkWith, subst, arith, ok_injective,
}
use policy_evaluator.Prelude.Int.{ℤ, pos, negsuc}
use policy_evaluator.Wasm.{Wasm}
use policy_evaluator.Callback.Requests.{Bytes, Sdk}
use policy_evaluator.Callback.Host.{Decoders}
use policy_evaluator.Wasi.HostCall.{Utf8}
use policy_evaluator.Wasi.Stack.{
  Execution, Wasmtime, RunResult, pipe_to_string, succeeded, exited, conclude, finish,
}

module _ {wasm : Wasm} (utf8 : Utf8) {sdk : Sdk} (decode : Decoders sdk)
    (w : Wasmtime wasm utf8 decode) where
  -- a program that returned, or that exited with the code 0
  abbrev pub IsSuccess : Result w.Failure Unit → Type 0
  IsSuccess (ok done) = Unit
  IsSuccess (err failure) = w.exit_code failure ≡ some (pos 0)

  abbrev HasOutput : String → Option Bytes → RunResult utf8 decode w → Type 0
  HasOutput stderr out result =
      (pipe_to_string utf8 decode w "stdout" out ≡ ok result.stdout) × (result.stderr ≡ stderr)

  succeeded_iff :
      (stderr : String) (out : Option Bytes) (result : RunResult utf8 decode w)
      → (succeeded utf8 decode w stderr out ≡ ok result) ↔ HasOutput stderr out result
  succeeded_iff stderr out result = (
    (λ h.
        let (text, read, same) =
          >>=-eq-ok (pipe_to_string utf8 decode w "stdout" out)
            (λ t. ok (record { stdout = t; stderr = stderr })) h in
        let whole = ok_injective same in
        (
          subst (λ q. pipe_to_string utf8 decode w "stdout" out ≡ ok q.stdout) whole read,
          ap (λ q. q.stderr) (sym whole),
        )),
    λ (read, same). rw (read, same) refl,
  )

  exited_iff :
      (stderr : String) (out : Option Bytes) (failure : w.Failure) (code : Option ℤ)
      (result : RunResult utf8 decode w)
      → (exited utf8 decode w stderr out failure code ≡ ok result)
        ↔ ((code ≡ some (pos 0)) × HasOutput stderr out result)
  exited_iff stderr out failure none result = ((λ h. cc), λ (c, rest). cc)
  exited_iff stderr out failure (some (pos zero)) result =
      let output = succeeded_iff stderr out result in
      ((λ h. (refl, output.0 h)), λ (c, rest). output.1 rest)
  exited_iff stderr out failure (some (pos (suc n))) result =
      ((λ h. cc), λ (c, rest). let impossible : suc n ≡ 0 = cc in absurd (omega arith))
  exited_iff stderr out failure (some (negsuc n)) result = ((λ h. cc), λ (c, rest). cc)

  conclude_iff :
      (stderr : String) (out : Option Bytes) (evaluation : Result w.Failure Unit)
      (result : RunResult utf8 decode w)
      → (conclude utf8 decode w stderr out evaluation ≡ ok result)
        ↔ (IsSuccess evaluation × HasOutput stderr out result)
  conclude_iff stderr out (ok done) result =
      let output = succeeded_iff stderr out result in
      ((λ h. (tt, output.0 h)), λ (c, rest). output.1 rest)
  conclude_iff stderr out (err failure) result =
      exited_iff stderr out failure (w.exit_code failure) result

  -- A run gives a result exactly if the program returned or exited with the code 0 and its two pipes
  -- could be read as texts; the result has the standard output as it is and the standard error
  -- without the white space around it.
  finish_iff :
      (execution : Execution w.Failure) (result : RunResult utf8 decode w)
      → (finish utf8 decode w execution ≡ ok result) ↔ (
          IsSuccess execution.evaluation_result
          × (pipe_to_string utf8 decode w "stdout" execution.stdout ≡ ok result.stdout)
          × OkWith
              (pipe_to_string utf8 decode w "stderr" execution.stderr)
              (λ stderr. result.stderr ≡ trim stderr))
  unfolding finish
  finish_iff execution result = (
    (λ h.
        let (stderr, read, rest) =
          >>=-eq-ok (pipe_to_string utf8 decode w "stderr" execution.stderr)
            (λ e. conclude utf8 decode w (trim e) execution.stdout execution.evaluation_result) h in
        let (success, (out, same)) =
          (conclude_iff (trim stderr) execution.stdout execution.evaluation_result result).0 rest in
        (success, out, (stderr, read, same))),
    λ (success, out, (stderr, read, same)). rw read (
        (conclude_iff (trim stderr) execution.stdout execution.evaluation_result result).1
          (success, (out, same))),
  )
