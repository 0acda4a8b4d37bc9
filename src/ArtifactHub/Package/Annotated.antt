-- ===== src/ArtifactHub/Package/Annotated.antt =====
-- src/policy_artifacthub.rs: the annotations of a package.
use policy_evaluator.Prelude.{
  String, Bool, true, false, Option, none, some, List, [], ◌∷◌, ok, ◌≡◌, refl, ◌∙◌, string_eq, ◌==◌,
  not, ◌&&◌, arith, eq_refl,
}
use policy_evaluator.Prelude.Dict.{get, get-insert}
use policy_evaluator.Constants.{
  kubewarden_annotation_artifacthub_hiddenui, kubewarden_annotation_artifacthub_resources,
  artifacthub_annotation_kubewarden_mutation,
  artifacthub_annotation_kubewarden_contextaware_resources, artifacthub_annotation_kubewarden_rules,
  artifacthub_annotation_kubewarden_questionsui, artifacthub_annotation_rancher_hiddenui,
  artifacthub_annotation_kubewarden_resources,
}
use policy_evaluator.Metadata.{Metadata}
use policy_evaluator.ArtifactHub.{Libraries}
use policy_evaluator.ArtifactHub.Parse.{Annotations}
use policy_evaluator.ArtifactHub.Package.{
  bool_to_string, insert_some, hidden_ui, resources_yaml, parse_annotations,
}

-- the entry of a key that was not there
get-insert_some :
    (annots : Annotations) (key : String) (value : Option String)
    → get annots key ≡ none
    → get (insert_some annots key value) key ≡ value
get-insert_some annots key none fresh = fresh
get-insert_some annots key (some value) fresh =
    rw (get-insert annots key key value, eq_refl key) refl

-- the entries of other keys
get-insert_other :
    (annots : Annotations) (key other : String) (value : Option String)
    → (key == other) ≡ false
    → get (insert_some annots key value) other ≡ get annots other
get-insert_other annots key other none apart = refl
get-insert_other annots key other (some value) apart =
    rw (get-insert annots key other value, apart) refl

hidden_ui_lem :
    (annots : Annotations) (given : Option String)
    → hidden_ui annots given ≡ ok (insert_some annots artifacthub_annotation_rancher_hiddenui given)
hidden_ui_lem annots none = refl
hidden_ui_lem annots (some text) = refl

-- the entries, one after the other
abbrev insert_all : Annotations → List (String × Option String) → Annotations
insert_all annots [] = annots
insert_all annots ((key, value) ∷ rest) = insert_all (insert_some annots key value) rest

-- a key that none of the entries has
abbrev is_absent : String → List (String × Option String) → Bool
is_absent key [] = true
is_absent key ((other, value) ∷ rest) = not (other == key) && is_absent key rest

get-insert_all :
    (annots : Annotations) (key : String) (entries : List (String × Option String))
    → is_absent key entries ≡ true
    → get (insert_all annots entries) key ≡ get annots key
get-insert_all annots key [] absent = refl
get-insert_all annots key ((other, value) ∷ rest) absent =
    let absent_from_rest : is_absent key rest ≡ true = ground arith in
    get-insert_all (insert_some annots other value) key rest absent_from_rest
    ∙ get-insert_other annots other key value (ground arith)

-- an entry between entries of other keys
get-insert_between :
    (annots : Annotations) (key : String) (value : Option String)
    (after : List (String × Option String))
    → get annots key ≡ none
    → is_absent key after ≡ true
    → get (insert_all (insert_some annots key value) after) key ≡ value
get-insert_between annots key value after fresh absent =
    get-insert_all (insert_some annots key value) key after absent
    ∙ get-insert_some annots key value fresh

entry_lem :
    (before : List (String × Option String)) (key : String) (value : Option String)
    (after : List (String × Option String))
    → is_absent key before ≡ true
    → is_absent key after ≡ true
    → get (insert_all (insert_some (insert_all [] before) key value) after) key ≡ value
unfolding get
entry_lem before key value after absent_before absent_after =
    get-insert_between (insert_all [] before) key value after
      (get-insert_all [] key before absent_before) absent_after

module _ (lib : Libraries) {ProtocolVersion KubewardenVersion : Type 0} where
  -- what the annotations of a package are, key by key
  pub record IsAnnotated (given : Annotations)
      (metadata : Metadata ProtocolVersion KubewardenVersion) (questions : Option String)
      (annots : Annotations) : Type 0 where
    pub mutation :
        get annots artifacthub_annotation_kubewarden_mutation
        ≡ some (bool_to_string metadata.mutating)
    pub resources_of_context :
        get annots artifacthub_annotation_kubewarden_contextaware_resources
        ≡ resources_yaml lib metadata.context_aware_resources
    pub rules :
        get annots artifacthub_annotation_kubewarden_rules ≡ some (lib.rules_to_yaml metadata.rules)
    pub questions_ui : get annots artifacthub_annotation_kubewarden_questionsui ≡ questions
    pub hidden :
        get annots artifacthub_annotation_rancher_hiddenui
        ≡ get given kubewarden_annotation_artifacthub_hiddenui
    pub resources :
        get annots artifacthub_annotation_kubewarden_resources
        ≡ get given kubewarden_annotation_artifacthub_resources

  -- The annotations of a package can always be made: they have the mutation flag, the rules, and
  -- the context aware resources, the questions and the resources where these are given; and what
  -- hides the user interface is copied as it stands, whether it is "true", "false" or any other
  -- text.
  parse_annotations-IsAnnotated :
      (given : Annotations) (metadata : Metadata ProtocolVersion KubewardenVersion)
      (questions : Option String)
      → (annots : Annotations) × (parse_annotations lib given metadata questions ≡ ok annots)
        × IsAnnotated given metadata questions annots
  unfolding parse_annotations
  parse_annotations-IsAnnotated given metadata questions =
      let e₁ : String × Option String =
        (artifacthub_annotation_kubewarden_mutation, some (bool_to_string metadata.mutating)) in
      let e₂ : String × Option String = (
        artifacthub_annotation_kubewarden_contextaware_resources,
        resources_yaml lib metadata.context_aware_resources,
      ) in
      let e₃ : String × Option String =
        (artifacthub_annotation_kubewarden_rules, some (lib.rules_to_yaml metadata.rules)) in
      let e₄ : String × Option String =
        (artifacthub_annotation_kubewarden_questionsui, questions) in
      let e₅ : String × Option String = (
        artifacthub_annotation_rancher_hiddenui,
        get given kubewarden_annotation_artifacthub_hiddenui,
      ) in
      let e₆ : String × Option String = (
        artifacthub_annotation_kubewarden_resources,
        get given kubewarden_annotation_artifacthub_resources,
      ) in
      (
        insert_all [] (e₁ ∷ e₂ ∷ e₃ ∷ e₄ ∷ e₅ ∷ e₆ ∷ []),
        rw (hidden_ui_lem _ (get given kubewarden_annotation_artifacthub_hiddenui)) refl,
        record {
          mutation = entry_lem [] e₁.0 e₁.1 (e₂ ∷ e₃ ∷ e₄ ∷ e₅ ∷ e₆ ∷ []) refl refl;
          resources_of_context = entry_lem (e₁ ∷ []) e₂.0 e₂.1 (e₃ ∷ e₄ ∷ e₅ ∷ e₆ ∷ []) refl refl;
          rules = entry_lem (e₁ ∷ e₂ ∷ []) e₃.0 e₃.1 (e₄ ∷ e₅ ∷ e₆ ∷ []) refl refl;
          questions_ui = entry_lem (e₁ ∷ e₂ ∷ e₃ ∷ []) e₄.0 e₄.1 (e₅ ∷ e₆ ∷ []) refl refl;
          hidden = entry_lem (e₁ ∷ e₂ ∷ e₃ ∷ e₄ ∷ []) e₅.0 e₅.1 (e₆ ∷ []) refl refl;
          resources = entry_lem (e₁ ∷ e₂ ∷ e₃ ∷ e₄ ∷ e₅ ∷ []) e₆.0 e₆.1 [] refl refl;
        },
      )
