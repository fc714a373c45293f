-- ===== src/Checks/Adopted.antt =====
-- checks.py: E007, the drift of the tables that the settings expect to be adopted.
use django_boundary.Prelude.{
  String, Bool, false, not, ◌||◌, Option, none, some, List, [], ◌∷◌, ◌++◌, map, ◌==◌, string_eq,
  if◌then◌else◌, contains,
}
use django_boundary.Prelude.Text.{before}
use django_boundary.Conf.{adopt_exclude}
use django_boundary.Runtime.{Result, return, raise, foreign, Exception}
use django_boundary.Adoption.{
  AppModel, Project, Refusal, expected_adopted_apps, tenant_model_label, get_tenant_model,
}
use django_boundary.Migrations.{UniqueConstraint, UniqueIndex}
use django_boundary.Migrations.Names.{detect_tenant_pg_type, pg_types_match}
use django_boundary.Checks.{
  Message, e007_refused, e007_excluded_tenant, e007_excludes_nothing, e007_column, e007_rls,
  e007_type, e007_policy, e007_constraint, e007_index, w007_adopted, expected_adopted_tables,
}
use django_boundary.Checks.Catalogue.{
  Catalogue, Deployment, project_of, undetermined, names_tenant_model,
}

-- The exceptions of a tenant model that is unset, or that points nowhere
abbrev is_configuration_error : Exception → Bool
is_configuration_error (foreign name) = name == "ImproperlyConfigured" || name == "LookupError"
is_configuration_error _ = false

-- The first loop of `_check_adopted_settings`: its errors, and the apps that are listed
abbrev refused_apps : List (String × Option Refusal) → List Message
refused_apps [] = []
refused_apps ((app_label, none) ∷ apps) = refused_apps apps
refused_apps ((app_label, some refusal) ∷ apps) = e007_refused app_label refusal ∷ refused_apps apps

abbrev listed_apps : List (String × Option Refusal) → List String
listed_apps [] = []
listed_apps ((app_label, none) ∷ apps) = app_label ∷ listed_apps apps
listed_apps ((app_label, some refusal) ∷ apps) = listed_apps apps

-- Its second loop
abbrev is_tenant_label : Option String → String → Bool
is_tenant_label none entry = false
is_tenant_label (some tenant_label) entry = entry == tenant_label

unfoldable check_excluded : Option String → (listed : List String) → List String → List Message
check_excluded tenant_label listed [] = []
check_excluded tenant_label listed (entry ∷ excluded) =
    let rest = check_excluded tenant_label listed excluded in
    if is_tenant_label tenant_label entry
    then e007_excluded_tenant entry ∷ rest
    else if not (contains listed (before b'.' entry))
    then e007_excludes_nothing entry ∷ rest
    else rest

unfoldable pub check_adopted_settings : Project → Result (List Message)
unfolding expected_adopted_apps tenant_model_label check_excluded
check_adopted_settings project =
    let apps = expected_adopted_apps project in
    elim (adopt_exclude project.settings) [
      | [] ↦ return (refused_apps apps)
      | entry ∷ excluded ↦ elim (tenant_model_label project) [
        | return tenant_label ↦ return (
            refused_apps apps
            ++ check_excluded (some tenant_label) (listed_apps apps) (entry ∷ excluded))
        | raise e ↦
            if is_configuration_error e
            then return
                (refused_apps apps ++ check_excluded none (listed_apps apps) (entry ∷ excluded))
            else raise e
      ]
    ]

-- `_expected_tenant_column_type`
unfoldable pub expected_tenant_column_type : Project → Result String
unfolding get_tenant_model detect_tenant_pg_type
expected_tenant_column_type project = elim (get_tenant_model project) [
  | raise e ↦ raise e
  | return model ↦ return (detect_tenant_pg_type model.pk_type)
]

-- `columns and columns[0] == "tenant_id"`
abbrev pub leads_with_tenant_id : List String → Bool
leads_with_tenant_id [] = false
leads_with_tenant_id (column ∷ columns) = column == "tenant_id"

-- The loops of `_check_adopted_unique_forms`
unfoldable pub check_constraints : (table : String) → List UniqueConstraint → List Message
check_constraints table [] = []
check_constraints table (constraint ∷ constraints) =
    let rest = check_constraints table constraints in
    if leads_with_tenant_id constraint.columns
    then rest
    else e007_constraint table constraint.name ∷ rest

abbrev pub is_backed : (constraint_backed : List String) → Option String → Bool
is_backed constraint_backed none = false
is_backed constraint_backed (some constraint) = contains constraint_backed constraint

unfoldable pub check_unique_indexes :
    (table : String) (constraint_backed : List String) → List UniqueIndex → List Message
check_unique_indexes table constraint_backed [] = []
check_unique_indexes table constraint_backed (index ∷ indexes) =
    let rest = check_unique_indexes table constraint_backed indexes in
    if index.primary
    then rest
    else if is_backed constraint_backed index.constraint
    then rest
    else if leads_with_tenant_id index.columns
    then rest
    else e007_index table index.name ∷ rest

abbrev pub constraint_names : List UniqueConstraint → List String
constraint_names constraints = map (λ constraint. constraint.name) constraints

module _ (c : Catalogue) where
  unfoldable pub check_adopted_unique_forms : (table : String) → Result (List Message)
  unfolding check_constraints check_unique_indexes
  check_adopted_unique_forms table = elim (c.unique_constraints table) [
    | raise e ↦ raise e
    | return constraints ↦ elim (c.unique_indexes table) [
      | raise e ↦ raise e
      | return indexes ↦ return (
          check_constraints table constraints
          ++ check_unique_indexes table (constraint_names constraints) indexes)
    ]
  ]

  -- Condition 1
  abbrev pub check_column : (table expected_type : String) → Option String → List Message
  check_column table expected_type none = e007_column table ∷ []
  check_column table expected_type (some found_type) =
      if pg_types_match found_type expected_type
      then []
      else e007_type table found_type expected_type ∷ []

  -- Conditions 3 and 4
  abbrev pub check_policy : (table : String) → List String → String → List Message
  check_policy table found_policies policy =
      if contains found_policies policy then [] else e007_policy table policy ∷ []

  unfoldable pub check_one_adopted_table : (table expected_type : String) → Result (List Message)
  unfolding check_adopted_unique_forms pg_types_match
  check_one_adopted_table table expected_type = elim (c.row_security table) [
    | raise e ↦ raise e
    | return none ↦ return []
    | return (some (enabled, forced)) ↦ elim (c.column_type table "tenant_id") [
      | raise e ↦ raise e
      | return found_type ↦ elim (c.policy_names table) [
        | raise e ↦ raise e
        | return policies ↦ elim (check_adopted_unique_forms table) [
          | raise e ↦ raise e
          | return forms ↦ return (
              check_column table expected_type found_type
              ++ ((if not enabled || not forced then e007_rls table ∷ [] else [])
                  ++ (check_policy table policies "boundary_tenant_isolation"
                      ++ (check_policy table policies "boundary_admin_bypass" ++ forms))))
        ]
      ]
    ]
  ]

  -- The loop of `_check_adopted_tables`
  unfoldable pub check_each_adopted :
      (expected_type : String) → List (AppModel × String) → List Message
  unfolding check_one_adopted_table
  check_each_adopted expected_type [] = []
  check_each_adopted expected_type ((model, table) ∷ tables) =
      let rest = check_each_adopted expected_type tables in
      elim (check_one_adopted_table table expected_type) [
        | return messages ↦ messages ++ rest
        | raise e ↦ undetermined e (w007_adopted table) ++ rest
      ]

-- `_check_adopted_tables` after its settings-only half: what the tables add to its errors
unfoldable pub check_expected_tables : Deployment → Result (List Message)
unfolding expected_adopted_tables expected_tenant_column_type check_each_adopted
check_expected_tables d = elim (expected_adopted_tables (project_of d)) [
  | raise e ↦ raise e
  | return [] ↦ return []
  | return (first ∷ expected) ↦ elim (expected_tenant_column_type (project_of d)) [
    | raise e ↦ if is_configuration_error e then return [] else raise e
    | return expected_type ↦
        return (check_each_adopted d.catalogue expected_type (first ∷ expected))
  ]
]

unfoldable pub check_adopted_tables : Deployment → Result (List Message)
unfolding check_adopted_settings check_expected_tables
check_adopted_tables d = elim (check_adopted_settings (project_of d)) [
  | raise e ↦ raise e
  | return errors ↦
      if not (d.catalogue.vendor == "postgresql")
      then return errors
      else if not (names_tenant_model d.settings)
      then return errors
      else elim (check_expected_tables d) [
        | raise e ↦ raise e
        | return more ↦ return (errors ++ more)
      ]
]
