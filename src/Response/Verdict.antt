-- ===== src/Response/Verdict.antt =====
-- src/admission_response.rs: what the answer of a policy makes of an admission response, for every answer.
use policy_evaluator.Prelude.{
  Result-cases, ◌≢◌, err, inl, inr, ◌≡◌, Bool, false, refl, not, ◌&&◌, ◌||◌, Option, none, some, ok,
  List, [], ◌∷◌, String, arith, is_some, is_none,
}
use policy_evaluator.Json.{Serde}
use policy_evaluator.Response.Types.{AdmissionResponse}
use policy_evaluator.Response.{
  ResponseError, PolicyValidationResponse, encode_diff, build_patch,
  from_policy_validation_response,
}

-- A response names a patch type exactly if it carries a patch, as Kubernetes wants it.
pub record IsWellFormed (r : AdmissionResponse) : Type 0 where
  pub patch_typed : is_some r.patch_type ≡ is_some r.patch

module _ (serde : Serde) where
  -- a mutation of an object that is about to be deleted
  abbrev pub mutates_nothing : Option serde.Value → PolicyValidationResponse serde → Bool
  mutates_nothing req_obj resp = is_some resp.mutated_object && is_none req_obj

  -- The response keeps the uid; it allows what the policy accepts, except for a mutation of nothing;
  -- a patch comes with its type, and only where the policy mutated an object that is there.
  pub record Verdict (uid : String) (req_obj : Option serde.Value)
      (resp : PolicyValidationResponse serde) (r : AdmissionResponse) : Type 0 where
    pub same_uid : r.uid ≡ uid
    pub allowed : r.allowed ≡ (resp.accepted && not (mutates_nothing req_obj resp))
    pub well_formed : IsWellFormed r
    pub mutated : (is_some r.patch && (is_none resp.mutated_object || is_none req_obj)) ≡ false
    pub explained :
        is_some r.status
        ≡ (is_some resp.message || (is_some resp.code || mutates_nothing req_obj resp))

  -- A response that is built from the answer of a policy has the verdict of that answer: the uid of
  -- the request, the policy's decision unless it mutates the object of a delete, a patch only for a
  -- mutated object and with its type, and a status exactly if the policy gives a message or a code
  -- or mutates the object of a delete.
  pub from_policy_validation_response-Verdict :
      (uid : String) (req_obj : Option serde.Value) (resp : PolicyValidationResponse serde)
      (r : AdmissionResponse)
      → from_policy_validation_response serde uid req_obj resp ≡ ok r
      → Verdict uid req_obj resp r
  unfolding from_policy_validation_response
  from_policy_validation_response-Verdict uid req_obj resp r h = record {
    same_uid = ground arith;
    allowed = ground arith;
    well_formed = ground arith;
    mutated = ground arith;
    explained = ground arith;
  }

  encode_diff_total :
      ((p : List serde.Operation) → (s : String) × (serde.patch_to_string p ≡ ok s))
      → (ops : List serde.Operation) → (patch : Option String) × (encode_diff serde ops ≡ ok patch)
  unfolding encode_diff
  encode_diff_total prints [] = (none, refl)
  encode_diff_total prints (op ∷ ops) =
      let (s, e) = prints (op ∷ ops) in (some (serde.encode s), rw e)

  build_patch_total :
      ((p : List serde.Operation) → (s : String) × (serde.patch_to_string p ≡ ok s))
      → (req_obj mut_obj : Option serde.Value)
      → (patch : Option String) × (build_patch serde req_obj mut_obj ≡ ok patch)
  unfolding build_patch
  build_patch_total prints req_obj none = (none, refl)
  build_patch_total prints none (some m) = (none, refl)
  build_patch_total prints (some obj) (some m) = encode_diff_total prints (serde.diff obj m)

  built-ne-err :
      (uid : String) (req_obj : Option serde.Value) (resp : PolicyValidationResponse serde)
      (e : ResponseError serde)
      → ((patch : Option String) × (build_patch serde req_obj resp.mutated_object ≡ ok patch))
      → from_policy_validation_response serde uid req_obj resp ≢ err e
  unfolding from_policy_validation_response
  built-ne-err uid req_obj resp e (patch, built) = ground arith

  -- Where every patch can be printed, every answer of a policy gives a response.
  from_policy_validation_response_total :
      ((p : List serde.Operation) → (s : String) × (serde.patch_to_string p ≡ ok s))
      → (uid : String) (req_obj : Option serde.Value) (resp : PolicyValidationResponse serde)
      → (r : AdmissionResponse) × (from_policy_validation_response serde uid req_obj resp ≡ ok r)
  from_policy_validation_response_total prints uid req_obj resp =
      elim (Result-cases (from_policy_validation_response serde uid req_obj resp)) [
        | inl found ↦ found
        | inr (e, failed) ↦ absurd (
            built-ne-err uid req_obj resp e (build_patch_total prints req_obj resp.mutated_object)
              failed)
      ]
