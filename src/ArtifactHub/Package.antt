-- ===== src/ArtifactHub/Package.antt =====
-- src/policy_artifacthub.rs: the package that is made of the metadata of a policy.
pub mod Contents
pub mod Annotated
mod Tests
use policy_evaluator.Prelude.{
  String, Bool, true, false, Option, none, some, List, [], ◌∷◌, Result, ok, err, ◌>>=◌, map_err,
  ok_or, string_eq, is_empty, if◌then◌else◌, ◌==◌,
}
use policy_evaluator.Prelude.Dict.{Dict, get, insert}
use policy_evaluator.Constants.{
  kubewarden_annotation_policy_version, kubewarden_annotation_github_release_tag,
  kubewarden_annotation_policy_license, kubewarden_annotation_artifacthub_hiddenui,
  kubewarden_annotation_artifacthub_resources, artifacthub_annotation_kubewarden_mutation,
  artifacthub_annotation_kubewarden_contextaware_resources, artifacthub_annotation_kubewarden_rules,
  artifacthub_annotation_kubewarden_questionsui, artifacthub_annotation_rancher_hiddenui,
  artifacthub_annotation_kubewarden_resources,
}
use policy_evaluator.Metadata.{Metadata, ContextAwareResource}
use policy_evaluator.ArtifactHub.{
  ArtifactHubError, no_annotations, empty_questions_ui, no_semver_version, malformed_bool_string,
  Libraries, ArtifactHubPkg, default_provider, default_recommendation,
}
use policy_evaluator.ArtifactHub.Parse.{
  Annotations, required, parse_name, parse_display_name, parse_description, parse_home_url,
  parse_oci_url, parse_containers_images, parse_keywords, parse_links, parse_maintainers,
  compose_install,
}

abbrev pub bool_to_string : Bool → String
bool_to_string true = "true"
bool_to_string false = "false"

-- an insertion that is made only if there is a value
abbrev pub insert_some : Annotations → String → Option String → Annotations
insert_some annots key none = annots
insert_some annots key (some value) = insert annots key value

-- `FromStr::from_str` at the type that the map asks for, which is `String`: it never fails
abbrev pub string_from_str : String → Result Unit String
string_from_str s = ok s

abbrev pub hidden_ui : Annotations → Option String → Result ArtifactHubError Annotations
hidden_ui annots none = ok annots
hidden_ui annots (some string_bool) = do
  value ←
      map_err (λ e. malformed_bool_string kubewarden_annotation_artifacthub_hiddenui)
        (string_from_str string_bool)
  ok (insert annots artifacthub_annotation_rancher_hiddenui value)

-- the annotations, if there are any
abbrev pub some_annotations : Option Annotations → Result ArtifactHubError Annotations
some_annotations none = err no_annotations
some_annotations (some []) = err no_annotations
some_annotations (some (a ∷ annots)) = ok (a ∷ annots)

-- the guard on the questions
abbrev pub check_questions : Option String → Result ArtifactHubError (Option String)
check_questions none = ok none
check_questions (some q) = if q == "" then err empty_questions_ui else ok (some q)

-- `Option::map` of `compose_install`
abbrev pub install_of : Option String → Option String
install_of none = none
install_of (some oci_url) = some (compose_install oci_url)

module _ (lib : Libraries) where
  -- the YAML of the context aware resources, if there are any
  abbrev pub resources_yaml : List ContextAwareResource → Option String
  resources_yaml [] = none
  resources_yaml (r ∷ rs) = some (lib.resources_to_yaml (r ∷ rs))

module _ (lib : Libraries) {ProtocolVersion KubewardenVersion : Type 0} where
  unfoldable pub parse_annotations :
      Annotations
      → Metadata ProtocolVersion KubewardenVersion
      → Option String
      → Result ArtifactHubError Annotations
  parse_annotations metadata_annots metadata questions = do
    let mutation : Annotations =
        insert [] artifacthub_annotation_kubewarden_mutation (bool_to_string metadata.mutating)
    let resources : Annotations =
        insert_some mutation artifacthub_annotation_kubewarden_contextaware_resources
          (resources_yaml lib metadata.context_aware_resources)
    let rules : Annotations =
        insert resources artifacthub_annotation_kubewarden_rules (lib.rules_to_yaml metadata.rules)
    let asked : Annotations =
        insert_some rules artifacthub_annotation_kubewarden_questionsui questions
    hidden ← hidden_ui asked (get metadata_annots kubewarden_annotation_artifacthub_hiddenui)
    ok (
        insert_some hidden artifacthub_annotation_kubewarden_resources
          (get metadata_annots kubewarden_annotation_artifacthub_resources))

  -- the parts in their order, once the inputs are valid
  unfoldable pub build_package :
      Annotations
      → lib.Version
      → Metadata ProtocolVersion KubewardenVersion
      → lib.OffsetDateTime
      → Option String
      → Result ArtifactHubError (ArtifactHubPkg lib)
  build_package annots version metadata created_at questions = do
    name ← parse_name annots
    display_name ← parse_display_name annots
    description ← parse_description annots
    home_url ← parse_home_url lib annots
    containers_images ← parse_containers_images lib annots version
    keywords ← parse_keywords annots
    links ← parse_links lib annots version (get annots kubewarden_annotation_github_release_tag)
    oci_url ← parse_oci_url lib annots version
    maintainers ← parse_maintainers lib annots
    annotations ← parse_annotations annots metadata questions
    ok (record {
      version = version;
      name = name;
      display_name = display_name;
      created_at = created_at;
      description = description;
      license = get annots kubewarden_annotation_policy_license;
      home_url = home_url;
      containers_images = containers_images;
      keywords = keywords;
      links = links;
      install = install_of oci_url;
      maintainers = maintainers;
      provider = default_provider;
      recommendations = default_recommendation ∷ [];
      annotations = annotations;
    })

  -- `ArtifactHubPkg::from_metadata`
  unfoldable pub from_metadata :
      Metadata ProtocolVersion KubewardenVersion
      → lib.OffsetDateTime
      → Option String
      → Result ArtifactHubError (ArtifactHubPkg lib)
  from_metadata metadata created_at questions = do
    annots ← some_annotations metadata.annotations
    version ← required annots kubewarden_annotation_policy_version
    semver_version ← map_err (λ e. no_semver_version e) (lib.parse_version version)
    checked ← check_questions questions
    build_package annots semver_version metadata created_at checked
