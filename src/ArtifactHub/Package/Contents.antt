-- ===== src/ArtifactHub/Package/Contents.antt =====
-- src/policy_artifacthub.rs: what a package says of the policy whose metadata it is made of.
use policy_evaluator.Prelude.{
  String, Option, none, some, List, [], ◌∷◌, ok, ◌≡◌, ◌≢◌, map_err, ◌<>◌, string_eq, All, map_err,
}
use policy_evaluator.Prelude.Dict.{get}
use policy_evaluator.Constants.{
  kubewarden_annotation_policy_version, kubewarden_annotation_policy_title,
  kubewarden_annotation_artifacthub_displayname, kubewarden_annotation_policy_description,
  kubewarden_annotation_policy_ociurl, kubewarden_annotation_policy_license,
}
use policy_evaluator.Metadata.{Metadata}
use policy_evaluator.ArtifactHub.{Libraries, policy_image, ArtifactHubPkg}
use policy_evaluator.ArtifactHub.Parse.{Annotations, compose_install}

-- the words of a list of keywords
abbrev pub AreWords : Option (List String) → Type 0
AreWords none = Unit
AreWords (some words) = All (λ word. word ≢ "") words

module _ (lib : Libraries) where
  -- one image, and an install text with the same reference: of the annotation and the version
  abbrev pub IsInstalled : Annotations → ArtifactHubPkg lib → Type 0
  IsInstalled annots pkg =
      (s : String) × (oci_url : String) × (get annots kubewarden_annotation_policy_ociurl ≡ some s)
      × (lib.parse_reference (s <> ":v" <> lib.version_to_string pkg.version) ≡ ok oci_url)
      × (pkg.containers_images ≡ some (record { name = policy_image; image = oci_url } ∷ []))
      × (pkg.install ≡ some (compose_install oci_url))

  -- what a package has of the annotations of its policy
  pub record IsPackageOf (annots : Annotations) (pkg : ArtifactHubPkg lib) : Type 0 where
    pub versioned :
        (v : String) × (get annots kubewarden_annotation_policy_version ≡ some v)
        × (lib.parse_version v ≡ ok pkg.version)
    pub named : get annots kubewarden_annotation_policy_title ≡ some pkg.name
    pub displayed : get annots kubewarden_annotation_artifacthub_displayname ≡ some pkg.display_name
    pub described : get annots kubewarden_annotation_policy_description ≡ some pkg.description
    pub licensed : pkg.license ≡ get annots kubewarden_annotation_policy_license
    pub installed : IsInstalled annots pkg
    pub keywords : AreWords pkg.keywords
