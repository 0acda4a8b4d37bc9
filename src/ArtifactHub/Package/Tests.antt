-- ===== src/ArtifactHub/Package/Tests.antt =====
-- A package of src/policy_artifacthub.rs, at concrete inputs.
use policy_evaluator.Prelude.{String, some, none, [], ◌∷◌, ok, string_eq}
use policy_evaluator.Constants.{
  kubewarden_annotation_policy_version, kubewarden_annotation_policy_title,
  kubewarden_annotation_artifacthub_displayname, kubewarden_annotation_policy_description,
  kubewarden_annotation_policy_ociurl, kubewarden_annotation_artifacthub_keywords,
  kubewarden_annotation_artifacthub_hiddenui, artifacthub_annotation_kubewarden_mutation,
  artifacthub_annotation_kubewarden_rules, artifacthub_annotation_rancher_hiddenui,
}
use policy_evaluator.Metadata.{Metadata, default_metadata}
use policy_evaluator.ArtifactHub.{
  Libraries, policy_image, ArtifactHubPkg, default_provider, default_recommendation,
}
use policy_evaluator.ArtifactHub.Parse.{Annotations, compose_install}

-- every text is well formed
abbrev lenient : Libraries
lenient = record {
  Version = String;
  Url = String;
  OffsetDateTime = Unit;
  parse_version = λ s. ok s;
  version_to_string = λ v. v;
  parse_url = λ s. ok s;
  host_str = λ u. some "github.com";
  url_to_string = λ u. u;
  parse_reference = λ s. ok s;
  byte_serialize = λ s. s;
  parse_message = λ s. some (some []);
  parse_email = λ s. ok s;
  resources_to_yaml = λ rs. "[]";
  rules_to_yaml = λ rs. "[]";
}

abbrev annotated : Annotations
annotated =
    (kubewarden_annotation_policy_version, "0.2.0")
    ∷ (kubewarden_annotation_policy_title, "psp")
    ∷ (kubewarden_annotation_artifacthub_displayname, "PSP")
    ∷ (kubewarden_annotation_policy_description, "A policy")
    ∷ (kubewarden_annotation_policy_ociurl, "ghcr.io/psp")
    ∷ (kubewarden_annotation_artifacthub_keywords, "pod, psp")
    ∷ (kubewarden_annotation_artifacthub_hiddenui, "maybe")
    ∷ []

abbrev metadata : Metadata String String
metadata = record (default_metadata String String) { annotations = some annotated }

abbrev pkg : ArtifactHubPkg lenient
pkg = record {
  version = "0.2.0";
  name = "psp";
  display_name = "PSP";
  created_at = tt;
  description = "A policy";
  license = none;
  home_url = none;
  containers_images = some (record { name = policy_image; image = "ghcr.io/psp:v0.2.0" } ∷ []);
  keywords = some ("pod" ∷ "psp" ∷ []);
  links = none;
  install = some (compose_install "ghcr.io/psp:v0.2.0");
  maintainers = none;
  provider = default_provider;
  recommendations = default_recommendation ∷ [];
  annotations =
      (artifacthub_annotation_kubewarden_mutation, "false")
      ∷ (artifacthub_annotation_kubewarden_rules, "[]")
      ∷ (artifacthub_annotation_rancher_hiddenui, "maybe")
      ∷ [];
}
