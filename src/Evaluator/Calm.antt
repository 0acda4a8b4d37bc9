-- ===== src/Evaluator/Calm.antt =====
-- src/policy_evaluator/evaluator.rs: the answers of an evaluator whose guests do not panic.
use policy_evaluator.Prelude.{
  ℕ, String, Option, none, some, List, Result, ok, err, and_then-eq-none, ◌≡◌, ◌≢◌, refl, inl, inr,
}
use policy_evaluator.Prelude.Int.{ℤ}
use policy_evaluator.Prelude.Dict.{Dict}
use policy_evaluator.Callback.Requests.{Bytes}
use policy_evaluator.Group.{SettingsValidationResponse}
use policy_evaluator.Request.{ValidateRequest}
use policy_evaluator.Response.Types.{AdmissionResponse}
use policy_evaluator.Rego.Cache.{Clock, GateKeeperInventoryCache}
use policy_evaluator.Wasi.Errors.{WasiRuntimeError}
use policy_evaluator.Wasi.HostCall.{Context}
use policy_evaluator.Wasi.Stack as WasiStack
use policy_evaluator.Wasi.Stack.{Execution, start_fn_of, ended, run_from, run}
use policy_evaluator.Wasi.Runtime as WasiRuntime
use policy_evaluator.Evaluator.{
  Runtime, wapc, rego, cli, PolicyEvaluator, validate_settings_by, validate_marshalled,
  validate_settings,
}
use policy_evaluator.Evaluator.Libraries.{Environment}
use policy_evaluator.Evaluator.Verdict.{CanPanic, validate_total}

module _ (env : Environment) where
  open env use {decode, utf8, k8s, json, serde, m, w, b}

  -- no run of a guest panics
  pub record IsCalm : Type 0 where
    pub call_returns :
        (start : w.Start) (deadline : Option ℕ) (args : List String) (ctx : Context utf8 decode)
        → w.call start deadline args ctx ≢ none
    pub evaluate_returns :
        (ev : b.Evaluator) (id : ℤ) (input : json.Value) (bytes : b.Bytes)
        → b.evaluate ev id input bytes ≢ none
    pub reset_returns : (ev : b.Evaluator) → b.reset ev ≢ none

  ended-none :
      (execution : Option (Execution w.Failure))
      → ended utf8 decode w execution ≡ none
      → execution ≡ none
  ended-none none h = refl
  ended-none (some e) h = cc

  run_from-calm :
      (calm : IsCalm) (stack : WasiStack.Stack utf8 decode w) (input : Bytes) (args : List String)
      (start : Result WasiRuntimeError w.Start)
      → run_from utf8 decode w stack input args start ≢ none
  run_from-calm calm stack input args (err e) h = cc
  run_from-calm calm stack input args (ok start_fn) h = calm.call_returns _ _ _ _ (ended-none _ h)

  run-calm :
      (calm : IsCalm) (stack : WasiStack.Stack utf8 decode w) (input : Bytes) (args : List String)
      → run utf8 decode w stack input args ≢ none
  unfolding run
  run-calm calm stack input args h = run_from-calm calm stack input args _ h

  pub CanPanic-calm :
      (calm : IsCalm) (runtime : Runtime env) (settings : Dict String json.Value)
      (request : ValidateRequest k8s json)
      → ¬ CanPanic env runtime settings request
  CanPanic-calm calm (wapc stack) settings request h = h
  CanPanic-calm calm (cli stack) settings request (input, read, panics) =
      run-calm calm stack input _ panics
  CanPanic-calm calm (rego stack) settings request (inl (input, bytes, panics)) =
      calm.evaluate_returns _ _ _ _ panics
  CanPanic-calm calm (rego stack) settings request (inr (ev, panics)) = calm.reset_returns ev panics

  settings_by-calm :
      (calm : IsCalm) (runtime : Runtime env) (settings : String)
      → validate_settings_by env runtime settings ≢ none
  settings_by-calm calm (wapc stack) settings h = cc
  settings_by-calm calm (rego stack) settings h = cc
  settings_by-calm calm (cli stack) settings h =
      run-calm calm stack _ _
        (WasiRuntime.validate_settings-panics w m stack settings (and_then-eq-none _ _ h))

  pub marshalled-calm :
      (calm : IsCalm) (evaluator : PolicyEvaluator env) (printed : Result serde.Error String)
      → validate_marshalled env evaluator printed ≢ none
  marshalled-calm calm evaluator (err e) h = cc
  marshalled-calm calm evaluator (ok settings) h =
      settings_by-calm calm evaluator.runtime settings (and_then-eq-none _ _ h)

  -- the value of an option that is not empty
  abbrev there : {A : Type 0} (o : Option A) → o ≢ none → A
  there none h = absurd (h refl)
  there (some a) h = a

  -- what a validation answers
  abbrev pub answer_of :
      IsCalm
      → Clock
      → GateKeeperInventoryCache b.Bytes
      → PolicyEvaluator env
      → ValidateRequest k8s json
      → Dict String json.Value
      → AdmissionResponse
  answer_of calm now cache evaluator request settings =
      elim (validate_total env now cache evaluator request settings) [
        | inl answered ↦ answered.0
        | inr (panics, can) ↦ absurd (CanPanic-calm calm evaluator.runtime settings request can)
      ]

  -- what a validation of settings answers
  abbrev pub settings_answer_of :
      IsCalm → PolicyEvaluator env → Dict String json.Value → SettingsValidationResponse
  unfolding validate_settings
  settings_answer_of calm evaluator settings =
      (there (validate_settings env evaluator settings)
        (marshalled-calm calm evaluator (m.settings_to_string settings))).0
