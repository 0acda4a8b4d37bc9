-- ===== src/Response/Patch.antt =====
-- src/admission_response.rs: the patch that Kubernetes receives.
use policy_evaluator.Prelude.{
  Result-cases, inl, inr, String, ◌≡◌, Option, none, some, List, [], ◌∷◌, ok, arith,
}
use policy_evaluator.Json.{Serde, Patching}
use policy_evaluator.Response.Types.{AdmissionResponse}
use policy_evaluator.Response.{
  PolicyValidationResponse, encode_diff, from_policy_validation_response,
}

module _ {serde : Serde} (laws : Patching serde) where
  abbrev run_patch : Option String → serde.Value → Option serde.Value
  run_patch none obj = none
  run_patch (some text) obj = elim (laws.read_patch text) [
    | none ↦ none
    | some ops ↦ laws.apply obj ops
  ]

  -- what Kubernetes makes of the object, given the `patch` of a response
  abbrev pub patched : Option String → serde.Value → Option serde.Value
  patched none obj = some obj
  patched (some encoded) obj = run_patch (laws.decode encoded) obj

  encode_diff-patched :
      (obj goal : serde.Value) (ops : List serde.Operation) (patch : Option String)
      → laws.apply obj ops ≡ some goal
      → encode_diff serde ops ≡ ok patch
      → patched patch obj ≡ some goal
  unfolding encode_diff
  encode_diff-patched obj goal [] patch a e = ground (arith, laws.apply-nil obj)
  encode_diff-patched obj goal (op ∷ ops) patch a e =
      elim (Result-cases (serde.patch_to_string (op ∷ ops))) [
        | inl (text, p) ↦ ground (arith, laws.decode-encode text, laws.read-print (op ∷ ops) text p)
        | inr (e', p) ↦ ground arith
      ]

  encode_diff-patch :
      (uid : String) (obj goal : serde.Value) (resp : PolicyValidationResponse serde)
      (r : AdmissionResponse)
      → resp.mutated_object ≡ some goal
      → from_policy_validation_response serde uid (some obj) resp ≡ ok r
      → encode_diff serde (serde.diff obj goal) ≡ ok r.patch
  unfolding from_policy_validation_response
  encode_diff-patch uid obj goal resp r m h = ground arith

  -- Applied to the object of the request, the patch of a response gives the object that the policy
  -- answered with; where there is none, that object is the request's own.
  pub from_policy_validation_response-patched :
      (uid : String) (obj goal : serde.Value) (resp : PolicyValidationResponse serde)
      (r : AdmissionResponse)
      → resp.mutated_object ≡ some goal
      → from_policy_validation_response serde uid (some obj) resp ≡ ok r
      → patched r.patch obj ≡ some goal
  from_policy_validation_response-patched uid obj goal resp r m h =
      encode_diff-patched obj goal (serde.diff obj goal) r.patch (laws.apply-diff obj goal)
        (encode_diff-patch uid obj goal resp r m h)
