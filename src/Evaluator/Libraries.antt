-- ===== src/Evaluator/Libraries.antt =====
-- The third-party code that an evaluator of any kind of policy uses, in one record.
use policy_evaluator.Prelude.{ℕ, String, Option, Result}
use policy_evaluator.Callback.Requests.{Bytes, Sdk}
use policy_evaluator.Callback.Host.{Decoders}
use policy_evaluator.Json.{Serde}
use policy_evaluator.Marshal.{Marshal}
use policy_evaluator.Metadata.{ContextAwareResource}
use policy_evaluator.Request.{K8s, JsonValue}
use policy_evaluator.Rego.Fetch.{Readers}
use policy_evaluator.Rego.Inventory.Gatekeeper.{GatekeeperInventory}
use policy_evaluator.Rego.Runtime.{Burrego}
use policy_evaluator.Wapc.{WapcLibrary}
use policy_evaluator.Wasi.HostCall.{Utf8}
use policy_evaluator.Wasi.Stack.{Wasmtime}
use policy_evaluator.Wasm.{Wasm}

pub record Environment : Type 1 where
  pub wasm : Wasm
  pub sdk : Sdk
  pub decode : Decoders sdk
  pub utf8 : Utf8
  pub k8s : K8s
  pub json : JsonValue
  pub serde : Serde
  -- how requests are written and answers are read
  pub m : Marshal k8s json serde
  -- the libraries of waPC, of WASI and of Rego
  pub l : WapcLibrary wasm sdk
  pub w : Wasmtime wasm utf8 decode
  pub b : Burrego k8s json
  pub build_burrego : wasm.Engine → wasm.Module → Option ℕ → Result b.BurregoError b.Evaluator
  -- how the answers of the callback channel are read, and how inventories are written
  pub readers : Readers b.Data
  pub inventory_to_vec : GatekeeperInventory b.Data → Result String b.Bytes
  -- two derived `Debug`
  pub resource_debug : ContextAwareResource → String
  pub bytes_debug : Bytes → String
