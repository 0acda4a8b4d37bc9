-- ===== src/Rego/Sample.antt =====
-- A Rego policy whose answer is always the same, and what stands in for the libraries around it.
use policy_evaluator.Prelude.{
  String, [], ◌∷◌, false, none, some, ok, err, ◌==◌, string_eq, if◌then◌else◌, Result,
}
use policy_evaluator.Prelude.Int.{pos}
use policy_evaluator.Metadata.{ContextAwareResource}
use policy_evaluator.Context.{resource_eq}
use policy_evaluator.Request.{K8s, AdmissionRequest, JsonValue, gatekeeper}
use policy_evaluator.Rego.Inventory.Gatekeeper.{GatekeeperInventory}
use policy_evaluator.Rego.Fetch.{Readers}
use policy_evaluator.Rego.Runtime.{Burrego, Stack}

abbrev pub debug : ContextAwareResource → String
debug r = r.kind

abbrev pub unit_k8s : K8s
unit_k8s = record { UserInfo = Unit; RawExtension = Unit }

abbrev pub texts : JsonValue
texts = record {
  Value = String;
  is_null = λ v. v == "null";
  as_object = λ v. none;
  get_key = λ v k. some v;
  as_str = λ v. some v;
}

-- a policy whose answer is always the text "clean", in which there is no violation
abbrev pub clean : Burrego unit_k8s texts
clean = record {
  Bytes = String;
  empty_object = "{}";
  JsonError = String;
  json_error_to_string = λ e. e;
  to_vec = λ v. ok v;
  object = λ m. "object";
  request_value = λ r. "request";
  admission_value = λ r. "review";
  Data = Unit;
  inventory_value = λ i. "inventory";
  get_index = λ v i. some v;
  response_from = λ v. err "no response";
  violations_from = λ v. if v == "clean" then ok [] else ok (some v ∷ []);
  Evaluator = Unit;
  BurregoError = String;
  error_to_string = λ e. e;
  json_error = λ m e. m;
  is_deadline_exceeded = λ e. false;
  evaluate = λ ev entrypoint input data_raw. some (ok "clean", ev);
  reset = λ ev. some (ok tt, ev);
}

abbrev pub stack : Stack clean
stack = record { evaluator = tt; entrypoint_id = pos 0; policy_execution_mode = gatekeeper }

abbrev pub request : AdmissionRequest unit_k8s
request = record {
  uid = "uid";
  kind = record { group = ""; version = "v1"; kind = "Pod" };
  resource = record { group = ""; version = "v1"; resource = "pods" };
  sub_resource = none;
  request_kind = none;
  request_resource = none;
  request_sub_resource = none;
  name = none;
  namespace = none;
  operation = "CREATE";
  user_info = tt;
  object = none;
  old_object = none;
  dry_run = none;
  options = none;
}

abbrev pub silent : Readers Unit
silent = record {
  object_list = λ payload. ok [];
  bool = λ payload. ok false;
  text = λ payload. ok "namespaces";
  recv_error = "channel closed";
}

abbrev pub print : GatekeeperInventory Unit → Result String String
print inventory = ok "inventory"
