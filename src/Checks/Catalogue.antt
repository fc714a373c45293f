-- ===== src/Checks/Catalogue.antt =====
-- checks.py: the checks that probe PostgreSQL's catalogue for row-level security, E006, W009 and W003,
-- each with its W007, which says that it could not determine it.
use django_boundary.Prelude.{
  String, Bool, true, false, not, ◌&&◌, ◌||◌, Option, none, some, List, [], ◌∷◌, ◌++◌, map, ◌==◌,
  string_eq, if◌then◌else◌, contains,
}
use django_boundary.Conf.{Settings, or_text, is_truthy, set_db_session_var}
use django_boundary.Runtime.{Result, return, raise, foreign, Exception}
use django_boundary.Models.{Model, Registry, is_tenant_model, has_tenant_column}
use django_boundary.Adoption.{AppModel, Apps, Project}
use django_boundary.Migrations.{UniqueConstraint, UniqueIndex}
use django_boundary.Checks.{
  Site, Import, RouterEntry, model_found, model_missing, path_malformed, Message, e006, w009,
  w007_rls, w007_session_var, w003, w007_role, expected_adopted_tables,
}

-- The queries of the catalogue on the connection `default`, each of which may raise. Of a table that
-- does not resolve the first is `none`, as `role` is where no role has the name of the user.
pub record Catalogue : Type 0 where
  pub vendor : String
  -- `relrowsecurity` and `relforcerowsecurity`
  pub row_security : (table : String) → Result (Option (Bool × Bool))
  -- `rolsuper` and `rolbypassrls`
  pub role : Result (Option (Bool × Bool))
  -- the helpers of adoption.py
  pub column_type : (table column : String) → Result (Option String)
  pub policy_names : (table : String) → Result (List String)
  pub unique_constraints : (table : String) → Result (List UniqueConstraint)
  pub unique_indexes : (table : String) → Result (List UniqueIndex)

-- What all checks read: settings, the live registry with its `get_model` of a dotted path, which raises
-- `ValueError` for a malformed path and else `LookupError` where it is `none`, the classes of
-- `apps.get_models()`, and the catalogue.
pub record Deployment : Type 0 where
  pub settings : Settings
  pub debug : Bool
  pub middleware : List String
  pub installed_apps : List String
  pub database_routers : List RouterEntry
  pub import_string : String → Import
  pub apps : Apps
  pub is_malformed : String → Bool
  pub get_model_path : String → Option AppModel
  pub get_class : String → String → Option Model
  pub registry : Registry
  pub models : List (AppModel × Model)
  pub catalogue : Catalogue

abbrev pub site_of : Deployment → Site
site_of d = record {
  settings = d.settings;
  debug = d.debug;
  middleware = d.middleware;
  installed_apps = d.installed_apps;
  database_routers = d.database_routers;
  import_string = d.import_string;
  get_model = λ path.
      if d.is_malformed path
      then path_malformed
      else elim (d.get_model_path path) [ none ↦ model_missing | some _ ↦ model_found ];
}

abbrev pub project_of : Deployment → Project
project_of d = record {
  settings = d.settings;
  apps = d.apps;
  is_malformed = d.is_malformed;
  get_model_path = d.get_model_path;
  get_class = d.get_class;
  registry = d.registry;
}

-- `_CONNECTION_UNAVAILABLE_ERRORS`
abbrev is_unavailable : Exception → Bool
is_unavailable (foreign name) = name == "OperationalError" || name == "InterfaceError"
is_unavailable _ = false

-- A probe that raises: nothing where the connection is unavailable, else the warning.
abbrev pub undetermined : Exception → Message → List Message
undetermined e warning = if is_unavailable e then [] else warning ∷ []

-- A table that RLS must protect, and whether it is an adopted one.
abbrev pub Target : Type 0
Target = String × Bool

-- The first pass of `_rls_probe_targets`
unfoldable pub column_bearing : Registry → List (AppModel × Model) → List String
unfolding is_tenant_model has_tenant_column
column_bearing registry [] = []
column_bearing registry ((model, class) ∷ models) =
    let rest = column_bearing registry models in
    if not (is_tenant_model registry class)
    then rest
    else if model.abstract
    then rest
    else if not (has_tenant_column class)
    then rest
    else model.db_table ∷ rest

-- Its second pass
unfoldable pub unseen_tables : (seen : List String) → List (AppModel × String) → List String
unseen_tables seen [] = []
unseen_tables seen ((model, table) ∷ tables) =
    let skipped = unseen_tables seen tables in
    let rest = unseen_tables (table ∷ seen) tables in
    if contains seen table then skipped else table ∷ rest

unfoldable pub rls_probe_targets : Deployment → Result (List Target)
unfolding column_bearing unseen_tables expected_adopted_tables
rls_probe_targets d =
    let seen = column_bearing d.registry d.models in
    elim (expected_adopted_tables (project_of d)) [
      | raise e ↦ raise e
      | return tables ↦ return (
          map (λ table. (table, false)) seen
          ++ map (λ table. (table, true)) (unseen_tables seen tables))
    ]

-- One turn of the loop of `_check_rls_enabled`
unfoldable pub probe_rls : Catalogue → Target → List Message
probe_rls c (table, adopted) = elim (c.row_security table) [
  | raise e ↦ undetermined e (w007_rls table)
  | return none ↦ []
  | return (some (enabled, forced)) ↦
      if not enabled || not forced then e006 table adopted ∷ [] else []
]

-- One turn of the loop of `_check_db_session_var_disabled_with_rls_enabled`
unfoldable probe_session_var : Catalogue → Target → List Message
probe_session_var c (table, adopted) = elim (c.row_security table) [
  | raise e ↦ undetermined e (w007_session_var table)
  | return none ↦ []
  | return (some (enabled, forced)) ↦ if enabled && forced then w009 table adopted ∷ [] else []
]

unfoldable pub probe_all : (Target → List Message) → List Target → List Message
probe_all probe [] = []
probe_all probe (target ∷ targets) = probe target ++ probe_all probe targets

-- The truth value of the setting of the tenant model
abbrev pub names_tenant_model : Settings → Bool
names_tenant_model settings =
    is_truthy (or_text settings.boundary_tenant_model settings.icv_tenant_model)

module _ (d : Deployment) where
  unfoldable pub check_rls_enabled : Result (List Message)
  unfolding rls_probe_targets probe_rls probe_all
  check_rls_enabled =
      if not (d.catalogue.vendor == "postgresql")
      then return []
      else if not (names_tenant_model d.settings)
      then return []
      else elim (rls_probe_targets d) [
        | raise e ↦ raise e
        | return targets ↦ return (probe_all (probe_rls d.catalogue) targets)
      ]

  unfoldable pub check_db_session_var_disabled : Result (List Message)
  unfolding rls_probe_targets probe_session_var probe_all
  check_db_session_var_disabled =
      if set_db_session_var d.settings
      then return []
      else if not (d.catalogue.vendor == "postgresql")
      then return []
      else if not (names_tenant_model d.settings)
      then return []
      else elim (rls_probe_targets d) [
        | raise e ↦ raise e
        | return targets ↦ return (probe_all (probe_session_var d.catalogue) targets)
      ]

  unfoldable pub check_rls_bypassable : List Message
  check_rls_bypassable =
      if not (d.catalogue.vendor == "postgresql") then [] else elim d.catalogue.role [
        | raise e ↦ undetermined e w007_role
        | return none ↦ []
        | return (some (super, bypass)) ↦ if not (super || bypass) then [] else w003 ∷ []
      ]
