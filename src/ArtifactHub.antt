-- ===== src/ArtifactHub.antt =====
-- src/policy_artifacthub.rs and src/errors.rs: the package file of a policy for Artifact Hub.
pub mod Parse
pub mod Package
use policy_evaluator.Prelude.{String, Option, List, Result}
use policy_evaluator.Prelude.Dict.{Dict}
use policy_evaluator.Metadata.{ContextAwareResource, Rule}

pub data ArtifactHubError : Type 0 where
  no_annotations empty_questions_ui : ArtifactHubError
  no_semver_version missing_annotation : String → ArtifactHubError
  malformed_url : (annot error : String) → ArtifactHubError
  malformed_csv malformed_csv_email malformed_bool_string : String → ArtifactHubError
  malformed_email : (annot error : String) → ArtifactHubError

-- one address of a message: a name and an address, either of which may be missing
pub record Addr : Type 0 where
  pub name : Option String
  pub address : Option String

-- What the code uses of semver, url, oci_client, mail_parser, email_address, serde_yaml and time.
pub record Libraries : Type 1 where
  pub Version : Type 0
  pub Url : Type 0
  pub OffsetDateTime : Type 0
  pub parse_version : String → Result String Version
  pub version_to_string : Version → String
  pub parse_url : String → Result String Url
  pub host_str : Url → Option String
  pub url_to_string : Url → String
  -- a reference of an image, parsed and printed again
  pub parse_reference : String → Result String String
  -- `form_urlencoded::byte_serialize`, of the bytes of a text
  pub byte_serialize : String → String
  -- a message with the given text, and the addresses of its field `To`, if it has one
  pub parse_message : String → Option (Option (List Addr))
  pub parse_email : String → Result String String
  -- `serde_yaml::to_string`, which the code expects to succeed
  pub resources_to_yaml : List ContextAwareResource → String
  pub rules_to_yaml : List Rule → String

pub data ConstContainerImageName : Type 0 where
  policy_image : ConstContainerImageName

pub record ContainerImage : Type 0 where
  pub name : ConstContainerImageName
  pub image : String

pub data ConstLinkName : Type 0 where
  policy source : ConstLinkName

pub record Recommendation : Type 0 where
  pub url : String

-- `Recommendation::default()`
abbrev pub default_recommendation : Recommendation
default_recommendation = record {
  url = "https://artifacthub.io/packages/helm/kubewarden/kubewarden-controller";
}

pub record Maintainer : Type 0 where
  pub name : String
  pub email : String

pub record Provider : Type 0 where
  pub name : String

-- `Provider::default()`
abbrev pub default_provider : Provider
default_provider = record { name = "kubewarden" }

module _ (lib : Libraries) where
  pub record Link : Type 0 where
    pub name : ConstLinkName
    pub url : lib.Url

  pub record ArtifactHubPkg : Type 0 where
    pub version : lib.Version
    pub name : String
    pub display_name : String
    pub created_at : lib.OffsetDateTime
    pub description : String
    pub license : Option String
    pub home_url : Option lib.Url
    pub containers_images : Option (List ContainerImage)
    pub keywords : Option (List String)
    pub links : Option (List Link)
    pub install : Option String
    pub maintainers : Option (List Maintainer)
    pub provider : Provider
    pub recommendations : List Recommendation
    pub annotations : Dict String String
