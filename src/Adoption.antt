-- ===== src/Adoption.antt =====
-- adoption.py: which apps and models are refused, and which models an app's adoption covers. The
-- app registries, the live one and a migration's, are parameters.
pub mod Covered
pub mod Expected
pub mod Introspection
use django_boundary.Prelude.{
  String, ◌<>◌, Bool, true, false, not, ◌&&◌, ◌||◌, Option, none, some, List, [], ◌∷◌, ◌++◌, ◌==◌,
  string_eq, if◌then◌else◌, contains, length, map,
}
use django_boundary.Prelude.Text.{before, after}
use django_boundary.Conf.{Settings, resolve_tenant_model_setting, adopt_exclude, tenant_apps}
use django_boundary.Runtime.{Result, return, raise, foreign}
use django_boundary.Models.{Model, Registry, is_tenant_model}

-- The `through` model of a field's `remote_field`
pub record Through : Type 0 where
  pub app_label : String
  pub name : String
  pub auto_created : Bool

-- A field: its column, and `related_model._meta.pk.db_type(connection)` where it is a relation
pub record Column : Type 0 where
  pub column : String
  pub unique : Bool
  pub primary_key : Bool
  pub related_pk_type : Option (Option String)

-- An entry of `_meta.constraints`: `plain` says that none of its condition, expressions, deferrable,
-- include and opclasses is set.
pub data Constraint : Type 0 where
  unique_constraint : (fields : List String) (plain : Bool) → Constraint
  other_constraint : Constraint

-- What boundary reads of a model class of a registry.
pub record AppModel : Type 0 where
  pub app_label : String
  pub name : String
  pub db_table : String
  pub abstract : Bool
  pub proxy : Bool
  -- of the fields of `get_fields()` that have one
  pub throughs : List Through
  pub pk_type : Option String
  pub local_fields : List Column
  pub unique_together : List (List String)
  pub constraints : List Constraint
  -- `_meta.get_field(name)`
  pub get_field : String → Option Column

-- A registry: `get_app_config(label).get_models(include_auto_created=True)`, `none` where it raises
-- `LookupError`, and `get_model(label, name)`, `none` where it raises `LookupError` or `ValueError`.
pub record Apps : Type 0 where
  pub get_models : String → Option (List AppModel)
  pub get_model : String → String → Option AppModel

-- The settings, the live registry, its `get_model` of a dotted path, its classes as models.py reads
-- them, and the registry of tenant models. `get_model` raises `ValueError` for a path that
-- `is_malformed`, and else `LookupError` where `get_model_path` is `none`.
pub record Project : Type 0 where
  pub settings : Settings
  pub apps : Apps
  pub is_malformed : String → Bool
  pub get_model_path : String → Option AppModel
  pub get_class : String → String → Option Model
  pub registry : Registry

abbrev pub denied_apps : List String
denied_apps = "contenttypes" ∷ "sessions" ∷ "sites" ∷ []

abbrev pub denied_models : List String
denied_models = "auth.Permission" ∷ "admin.LogEntry" ∷ []

abbrev pub denied_tables : List String
denied_tables = "django_migrations" ∷ []

abbrev pub label_of : String → String → String
label_of app_label name = app_label <> "." <> name

abbrev pub model_label : AppModel → String
model_label model = label_of model.app_label model.name

-- The reasons of `refusal_reason` and `refusal_reason_for_model`
pub data Refusal : Type 0 where
  denied_app not_installed : (app_label : String) → Refusal
  denied_model denied_table tenant_model : (label : String) → Refusal

module _ (project : Project) where
  unfoldable pub get_tenant_model : Result AppModel
  get_tenant_model = elim (resolve_tenant_model_setting project.settings) [
    | none ↦ raise (foreign "ImproperlyConfigured")
    | some path ↦
        if project.is_malformed path
        then raise (foreign "ValueError")
        else elim (project.get_model_path path) [
          | none ↦ raise (foreign "LookupError")
          | some model ↦ return model
        ]
  ]

  unfoldable pub tenant_model_label : Result String
  unfolding get_tenant_model
  tenant_model_label = elim get_tenant_model [
    | raise e ↦ raise e
    | return model ↦ return (model_label model)
  ]

  unfoldable pub is_already_scoped : AppModel → Bool
  is_already_scoped model = elim (project.get_class model.app_label model.name) [
    | none ↦ false
    | some live ↦ is_tenant_model project.registry live
  ]

unfoldable pub refusal_reason : Apps → String → Option Refusal
refusal_reason apps app_label =
    if contains denied_apps app_label
    then some (denied_app app_label)
    else elim (apps.get_models app_label) [ none ↦ some (not_installed app_label) | some _ ↦ none ]

module _ (project : Project) where
  abbrev given_label : Option String → Result String
  given_label none = tenant_model_label project
  given_label (some tenant_label) = return tenant_label

  unfoldable pub refusal_reason_for_model : Option String → AppModel → Result (Option Refusal)
  unfolding tenant_model_label
  refusal_reason_for_model tenant_label model =
      let label = model_label model in
      if contains denied_models label
      then return (some (denied_model label))
      else if contains denied_tables model.db_table
      then return (some (denied_table label))
      else elim (given_label tenant_label) [
        | raise e ↦ raise e
        | return tenant ↦
            if label == tenant then return (some (tenant_model label)) else return none
      ]

unfoldable auto_created_labels : List Through → List String
auto_created_labels [] = []
auto_created_labels (through ∷ throughs) =
    let labels = auto_created_labels throughs in
    if through.auto_created then label_of through.app_label through.name ∷ labels else labels

unfoldable pub tenant_through_labels : Apps → String → List String
unfolding auto_created_labels
tenant_through_labels apps tenant_label =
    elim (apps.get_model (before b'.' tenant_label) (after b'.' tenant_label)) [
      | none ↦ []
      | some model ↦ auto_created_labels model.throughs
    ]

-- The test of one model in the loop of `adopted_models`.
unfoldable pub is_adopted :
    Project
    → (excluded : List String) (tenant_label : String) (through_labels : List String) → AppModel
    → Bool
is_adopted project excluded tenant_label through_labels model =
    let label = model_label model in
    if model.abstract || model.proxy
    then false
    else if contains excluded label
    then false
    else if label == tenant_label || contains through_labels label
    then false
    else if contains denied_models label || contains denied_tables model.db_table
    then false
    else not (is_already_scoped project model)

unfoldable pub filter_models : (AppModel → Bool) → List AppModel → List AppModel
filter_models p [] = []
filter_models p (model ∷ models) =
    let rest = filter_models p models in if p model then model ∷ rest else rest

module _ (project : Project) where
  unfoldable pub adopted_models : Apps → (exclude : List String) → String → Result (List AppModel)
  unfolding is_adopted filter_models tenant_through_labels tenant_model_label
  adopted_models apps exclude app_label = elim (tenant_model_label project) [
    | raise e ↦ raise e
    | return tenant_label ↦ elim (apps.get_models app_label) [
      | none ↦ raise (foreign "LookupError")
      | some models ↦ return (
          filter_models
            (is_adopted project (adopt_exclude project.settings ++ exclude) tenant_label
              (tenant_through_labels apps tenant_label))
            models)
    ]
  ]

  unfoldable pub expected_adopted_apps : List (String × Option Refusal)
  unfolding refusal_reason
  expected_adopted_apps =
      map (λ app_label. (app_label, refusal_reason project.apps app_label))
        (tenant_apps project.settings)

-- The inner loop of `expected_adopted_models`: the models that are not seen, and `seen` after it.
unfoldable unseen : List String → List AppModel → List AppModel × List String
unseen seen [] = ([], seen)
unseen seen (model ∷ models) =
    let label = model_label model in
    let skipped = unseen seen models in
    let (rest, seen') = unseen (label ∷ seen) models in
    if contains seen label then skipped else (model ∷ rest, seen')

module _ (project : Project) where
  -- Its outer loop.
  unfoldable pub expected_from :
      List String → List (String × Option Refusal) → Result (List AppModel)
  unfolding unseen adopted_models
  expected_from seen [] = return []
  expected_from seen ((app_label, some _) ∷ apps) = expected_from seen apps
  expected_from seen ((app_label, none) ∷ apps) =
      elim (adopted_models project project.apps [] app_label) [
        | raise e ↦ raise e
        | return models ↦
            let (fresh, seen') = unseen seen models in
            elim (expected_from seen' apps) [
              | raise e ↦ raise e
              | return rest ↦ return (fresh ++ rest)
            ]
      ]

  unfoldable pub expected_adopted_models : Result (List AppModel)
  unfolding expected_from expected_adopted_apps
  expected_adopted_models = expected_from [] (expected_adopted_apps project)
