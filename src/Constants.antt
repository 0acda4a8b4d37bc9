-- ===== src/Constants.antt =====
-- src/constants.rs: the names of the annotations that metadata has.
use policy_evaluator.Prelude.{String}

abbrev pub kubewarden_annotation_policy_title : String
kubewarden_annotation_policy_title = "io.kubewarden.policy.title"

abbrev pub kubewarden_annotation_policy_version : String
kubewarden_annotation_policy_version = "io.kubewarden.policy.version"

abbrev pub kubewarden_annotation_policy_description : String
kubewarden_annotation_policy_description = "io.kubewarden.policy.description"

abbrev pub kubewarden_annotation_policy_author : String
kubewarden_annotation_policy_author = "io.kubewarden.policy.author"

abbrev pub kubewarden_annotation_policy_url : String
kubewarden_annotation_policy_url = "io.kubewarden.policy.url"

abbrev pub kubewarden_annotation_policy_ociurl : String
kubewarden_annotation_policy_ociurl = "io.kubewarden.policy.ociUrl"

abbrev pub kubewarden_annotation_policy_source : String
kubewarden_annotation_policy_source = "io.kubewarden.policy.source"

abbrev pub kubewarden_annotation_policy_license : String
kubewarden_annotation_policy_license = "io.kubewarden.policy.license"

abbrev pub kubewarden_annotation_github_release_tag : String
kubewarden_annotation_github_release_tag = "com.github.release.tag"

abbrev pub kubewarden_annotation_artifacthub_resources : String
kubewarden_annotation_artifacthub_resources = "io.artifacthub.resources"

abbrev pub kubewarden_annotation_artifacthub_displayname : String
kubewarden_annotation_artifacthub_displayname = "io.artifacthub.displayName"

abbrev pub kubewarden_annotation_artifacthub_keywords : String
kubewarden_annotation_artifacthub_keywords = "io.artifacthub.keywords"

abbrev pub kubewarden_annotation_artifacthub_hiddenui : String
kubewarden_annotation_artifacthub_hiddenui = "io.kubewarden.hidden-ui"

abbrev pub artifacthub_annotation_kubewarden_mutation : String
artifacthub_annotation_kubewarden_mutation = "kubewarden/mutation"

abbrev pub artifacthub_annotation_kubewarden_contextaware_resources : String
artifacthub_annotation_kubewarden_contextaware_resources = "kubewarden/contextAwareResources"

abbrev pub artifacthub_annotation_kubewarden_resources : String
artifacthub_annotation_kubewarden_resources = "kubewarden/resources"

abbrev pub artifacthub_annotation_rancher_hiddenui : String
artifacthub_annotation_rancher_hiddenui = "kubewarden/hidden-ui"

abbrev pub artifacthub_annotation_kubewarden_rules : String
artifacthub_annotation_kubewarden_rules = "kubewarden/rules"

abbrev pub artifacthub_annotation_kubewarden_questionsui : String
artifacthub_annotation_kubewarden_questionsui = "kubewarden/questions-ui"
