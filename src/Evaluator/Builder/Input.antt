-- ===== src/Evaluator/Builder/Input.antt =====
-- src/policy_evaluator/policy_evaluator_builder.rs: the inputs that the builder accepts.
use policy_evaluator.Prelude.{true, none, ok, ◌≡◌, Option-cases, ◌↔◌, inl, inr, is_some, arith}
use policy_evaluator.Wasm.{Wasm}
use policy_evaluator.Evaluator.Builder.{PolicyEvaluatorBuilder, validate_user_input}

-- exactly one source of the policy, and with a module its engine
pub data IsComplete {wasm : Wasm} (self : PolicyEvaluatorBuilder wasm) : Type 0 where
  from_file :
      is_some self.policy_file ≡ true
      → self.policy_contents ≡ none
      → self.policy_module ≡ none
      → IsComplete self
  from_contents :
      is_some self.policy_contents ≡ true
      → self.policy_file ≡ none
      → self.policy_module ≡ none
      → IsComplete self
  from_module :
      is_some self.policy_module ≡ true
      → is_some self.engine ≡ true
      → self.policy_file ≡ none
      → self.policy_contents ≡ none
      → IsComplete self

module _ {wasm : Wasm} where
  complete_of_valid :
      (self : PolicyEvaluatorBuilder wasm) → validate_user_input self ≡ ok tt → IsComplete self
  unfolding validate_user_input
  complete_of_valid self h = elim (Option-cases self.policy_file) [
    | inr (file, is_file) ↦ from_file (ground arith) (ground arith) (ground arith)
    | inl no_file ↦ elim (Option-cases self.policy_contents) [
      | inr (bytes, is_contents) ↦ from_contents (ground arith) no_file (ground arith)
      | inl no_contents ↦ from_module (ground arith) (ground arith) no_file no_contents
    ]
  ]

  valid_of_complete :
      (self : PolicyEvaluatorBuilder wasm) → IsComplete self → validate_user_input self ≡ ok tt
  unfolding validate_user_input
  valid_of_complete self (from_file a b c) = ground arith
  valid_of_complete self (from_contents a b c) = ground arith
  valid_of_complete self (from_module a b c d) = ground arith

-- The builder accepts its input exactly if there is one source of the policy, a file, contents or a
-- module and no other, and with a module also the engine of it.
pub validate_user_input_iff :
    {wasm : Wasm} (self : PolicyEvaluatorBuilder wasm)
    → (validate_user_input self ≡ ok tt) ↔ IsComplete self
validate_user_input_iff self = (complete_of_valid self, valid_of_complete self)
