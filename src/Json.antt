-- ===== src/Json.antt =====
-- The third-party code behind JSON values: serde_json, json_patch and base64. It is not part of
-- the repository, so it is a parameter of the definitions that use it.
pub mod Sample
use policy_evaluator.Prelude.{String, ◌≡◌, Bool, Option, some, List, [], Result, ok}

-- A record with fields of `Type 0` stands in `Type 1`.
pub record Serde : Type 1 where
  -- `serde_json::Value`
  pub Value : Type 0
  -- `serde_json::Error`, with its text
  pub Error : Type 0
  pub error_to_string : Error → String
  -- `Value::get` on a key
  pub get_key : Value → String → Option Value
  -- `Value::as_str`
  pub as_str : Value → Option String
  -- `json_patch::PatchOperation`; a `json_patch::Patch` is a list of them
  pub Operation : Type 0
  pub diff : Value → Value → List Operation
  -- `serde_json::to_string` of a patch
  pub patch_to_string : List Operation → Result Error String
  -- `general_purpose::STANDARD.encode`
  pub encode : String → String

-- What the libraries document of a patch: applied to the first document, the difference of two
-- gives the second; the empty patch changes nothing; and text and base64 can be read back.
pub record Patching (serde : Serde) : Type 0 where
  pub apply : serde.Value → List serde.Operation → Option serde.Value
  pub apply-diff : (a b : serde.Value) → apply a (serde.diff a b) ≡ some b
  pub apply-nil : (a : serde.Value) → apply a [] ≡ some a
  pub read_patch : String → Option (List serde.Operation)
  pub decode : String → Option String
  pub decode-encode : (s : String) → decode (serde.encode s) ≡ some s
  pub read-print :
      (p : List serde.Operation) (s : String)
      → serde.patch_to_string p ≡ ok s
      → read_patch s ≡ some p
