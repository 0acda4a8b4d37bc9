-- ===== src/Callback/Sample.antt =====
-- A policy that may see pods, at which the callback of the host is exercised.
use policy_evaluator.Prelude.{String, [], ◌∷◌, Result, ok, err, none, some}
use policy_evaluator.Context.{EvaluationContext}
use policy_evaluator.Callback.Requests.{Bytes, Sdk}
use policy_evaluator.Callback.Host.{answered, Channel, Decoders}

abbrev pub unit_sdk : Sdk
unit_sdk = record {
  KeylessInfo = Unit;
  KeylessPrefixInfo = Unit;
  SubjectAccessReview = Unit;
  CertificateVerificationRequest = Unit;
}

abbrev unreadable : {A : Type 0} → Bytes → Result String A
unreadable payload = err "unreadable"

abbrev pub pods_only : Decoders unit_sdk
pods_only = record {
  text = unreadable;
  sigstore_v1 = unreadable;
  sigstore_v2 = unreadable;
  certificate = unreadable;
  can_i = unreadable;
  list_by_namespace = unreadable;
  list_all = λ payload.
      ok
        (record { api_version = "v1"; kind = "Pod"; label_selector = none; field_selector = none });
  get_resource = unreadable;
}

abbrev pub connected : EvaluationContext (Channel unit_sdk)
connected = record {
  policy_id = "psp";
  callback_channel = some (λ req. answered (1 ∷ []));
  ctx_aware_resources_allow_list = record { api_version = "v1"; kind = "Pod" } ∷ [];
  epoch_deadline = none;
}
