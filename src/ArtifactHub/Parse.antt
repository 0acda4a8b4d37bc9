-- ===== src/ArtifactHub/Parse.antt =====
-- src/policy_artifacthub.rs: the parts of a package that are read from the annotations of a policy.
use Prim.Native.Char.{Char, code}
use Prim.Native.String.{[], ◌∷◌}
use mathlib.Core.List.{[], ◌∷◌}
use policy_evaluator.Prelude.{
  String, Bool, true, false, Option, none, some, List, map, Result, ok, err, ◌>>=◌, map_err, ok_or,
  ◌<>◌, ◌==◌, nat_eq, string_eq, ◌||◌, if◌then◌else◌, unwrap_or_default,
}
use policy_evaluator.Prelude.Dict.{Dict, get}
use policy_evaluator.Constants.{
  kubewarden_annotation_policy_title, kubewarden_annotation_artifacthub_displayname,
  kubewarden_annotation_policy_description, kubewarden_annotation_policy_url,
  kubewarden_annotation_policy_ociurl, kubewarden_annotation_artifacthub_keywords,
  kubewarden_annotation_policy_source, kubewarden_annotation_policy_author,
}
use policy_evaluator.ArtifactHub.{
  ArtifactHubError, missing_annotation, malformed_url, malformed_csv, malformed_csv_email,
  malformed_email, Addr, Libraries, policy_image, ContainerImage, policy, source, Maintainer, Link,
}

abbrev pub Annotations : Type 0
Annotations = Dict String String

-- an annotation that has to be there
abbrev pub required : Annotations → String → Result ArtifactHubError String
required annots key = ok_or (missing_annotation key) (get annots key)

unfoldable pub parse_name : Annotations → Result ArtifactHubError String
parse_name annots = required annots kubewarden_annotation_policy_title

unfoldable pub parse_display_name : Annotations → Result ArtifactHubError String
parse_display_name annots = required annots kubewarden_annotation_artifacthub_displayname

unfoldable pub parse_description : Annotations → Result ArtifactHubError String
parse_description annots = required annots kubewarden_annotation_policy_description

-- one more character in front of the first part
abbrev push_front : Char → List String → List String
push_front c [] = (c ∷ []) ∷ []
push_front c (p ∷ ps) = (c ∷ p) ∷ ps

-- `s.split(',')`
abbrev pub split_comma : String → List String
split_comma [] = "" ∷ []
split_comma (c ∷ s) =
    let rest = split_comma s in if code c == b',' then "" ∷ rest else push_front c rest

-- `trim_start_matches(' ')` and `trim_end_matches(' ')`
abbrev pub trim_start_spaces : String → String
trim_start_spaces [] = ""
trim_start_spaces (c ∷ s) = let rest = trim_start_spaces s in if code c == b' ' then rest else c ∷ s

abbrev trim_last_space : Char → String → String
trim_last_space c [] = if code c == b' ' then "" else c ∷ []
trim_last_space c (d ∷ s) = c ∷ d ∷ s

abbrev pub trim_end_spaces : String → String
trim_end_spaces [] = ""
trim_end_spaces (c ∷ s) = trim_last_space c (trim_end_spaces s)

abbrev pub any_is_empty : List String → Bool
any_is_empty [] = false
any_is_empty (word ∷ words) = word == "" || any_is_empty words

-- the words of a list with commas, without the spaces around them
abbrev pub words_of : String → List String
words_of s = map (λ word. trim_end_spaces (trim_start_spaces word)) (split_comma s)

abbrev pub keywords_from : String → Result ArtifactHubError (Option (List String))
keywords_from s =
    let csv = words_of s in
    if any_is_empty csv
    then err (malformed_csv kubewarden_annotation_artifacthub_keywords)
    else ok (some csv)

-- what becomes of an annotation that may be missing
abbrev pub optional :
    {A : Type 0}
    → Option String
    → (String → Result ArtifactHubError (Option A))
    → Result ArtifactHubError (Option A)
optional none f = ok none
optional (some s) f = f s

unfoldable pub parse_keywords : Annotations → Result ArtifactHubError (Option (List String))
parse_keywords annots =
    optional (get annots kubewarden_annotation_artifacthub_keywords) keywords_from

module _ (lib : Libraries) where
  -- `Url::parse`, with the error of an annotation
  abbrev pub url_of : String → String → Result ArtifactHubError lib.Url
  url_of annot s = map_err (λ e. malformed_url annot e) (lib.parse_url s)

  abbrev home_url_from : String → Result ArtifactHubError (Option lib.Url)
  home_url_from s = do url ← url_of kubewarden_annotation_policy_url s; ok (some url)

  unfoldable pub parse_home_url : Annotations → Result ArtifactHubError (Option lib.Url)
  parse_home_url annots = optional (get annots kubewarden_annotation_policy_url) home_url_from

  -- the reference of the image for a version
  abbrev pub reference_of : lib.Version → String → Result ArtifactHubError String
  reference_of version s =
      map_err (λ e. malformed_url kubewarden_annotation_policy_ociurl e)
        (lib.parse_reference (s <> ":v" <> lib.version_to_string version))

  abbrev pub oci_url_from : lib.Version → String → Result ArtifactHubError (Option String)
  oci_url_from version s = do oci_url ← reference_of version s; ok (some oci_url)

  unfoldable pub parse_oci_url : Annotations → lib.Version → Result ArtifactHubError (Option String)
  parse_oci_url annots version =
      optional (get annots kubewarden_annotation_policy_ociurl) (oci_url_from version)

  unfoldable pub parse_containers_images :
      Annotations → lib.Version → Result ArtifactHubError (Option (List ContainerImage))
  parse_containers_images annots version = do
    s ← required annots kubewarden_annotation_policy_ociurl
    oci_url ← reference_of version s
    ok (some (record { name = policy_image; image = oci_url } ∷ []))

  abbrev pub release_of : lib.Version → Option String → String
  release_of version none = "v" <> lib.version_to_string version
  release_of version (some tag) = lib.byte_serialize tag

  abbrev pub is_github : Option String → Bool
  is_github none = false
  is_github (some host) = host == "github.com"

  -- the links of a policy whose source is on GitHub, and of any other
  abbrev pub links_for :
      lib.Version
      → Option String
      → lib.Url
      → Bool
      → Result ArtifactHubError (Option (List (Link lib)))
  links_for version gh_release_tag policy_source true = do
    url ← url_of kubewarden_annotation_policy_source (
        lib.url_to_string policy_source
        <> "/releases/download/"
        <> release_of version gh_release_tag
        <> "/policy.wasm")
    ok (
        some (
          record { name = policy; url = url } ∷ record { name = source; url = policy_source } ∷ []))
  links_for version gh_release_tag policy_source false =
      ok (some (record { name = source; url = policy_source } ∷ []))

  abbrev pub links_from :
      lib.Version → Option String → String → Result ArtifactHubError (Option (List (Link lib)))
  links_from version gh_release_tag s = do
    policy_source ← url_of kubewarden_annotation_policy_source s
    links_for version gh_release_tag policy_source (is_github (lib.host_str policy_source))

  unfoldable pub parse_links :
      Annotations → lib.Version → Option String → Result ArtifactHubError (Option (List (Link lib)))
  parse_links annots version gh_release_tag =
      optional (get annots kubewarden_annotation_policy_source) (links_from version gh_release_tag)

  -- the loop over the addresses
  abbrev pub collect_maintainers : List Addr → Result ArtifactHubError (List Maintainer)
  collect_maintainers [] = ok []
  collect_maintainers (addr ∷ addrs) = do
    email ←
        map_err (λ e. malformed_email kubewarden_annotation_policy_author e)
          (lib.parse_email (unwrap_or_default addr.address))
    rest ← collect_maintainers addrs
    ok (record { name = unwrap_or_default addr.name; email = email } ∷ rest)

  abbrev pub maintainers_from : String → Result ArtifactHubError (Option (List Maintainer))
  maintainers_from s = do
    msg ←
        ok_or (malformed_csv_email kubewarden_annotation_policy_author)
          (lib.parse_message ("To: " <> s))
    addrs ← ok_or (malformed_csv_email kubewarden_annotation_policy_author) msg
    maintainers ← collect_maintainers addrs
    ok (some maintainers)

  unfoldable pub parse_maintainers :
      Annotations → Result ArtifactHubError (Option (List Maintainer))
  parse_maintainers annots =
      optional (get annots kubewarden_annotation_policy_author) maintainers_from

unfoldable pub compose_install : String → String
compose_install oci_url =
    "The policy can be obtained using [`kwctl`](https://github.com/kubewarden/kwctl):\n```console\nkwctl pull "
    <> oci_url
    <> "\n```\nThen, generate the policy manifest and tune it to your liking. For example:\n```console\nkwctl scaffold manifest -t ClusterAdmissionPolicy registry://"
    <> oci_url <> "\n```\n"
