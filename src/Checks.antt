-- ===== src/Checks.antt =====
-- checks.py: the system checks that read the settings, and the set of tables that the checks of the
-- database go through. What the settings name is imported by a parameter.
pub mod Postures
pub mod Catalogue
pub mod Adopted
pub mod Configuration
pub mod Drift
pub mod Silent
pub mod Raises
pub mod AfterAdoption
pub mod Uniqueness
pub mod WithinTenant
pub mod Backing
pub mod Expected
use django_boundary.Prelude.{
  ℕ, zero, suc, ◌+◌, ◌≤◌, String, ◌<>◌, ◌≡◌, ◌≢◌, ◌↔◌, ◌⊎◌, inl, inr, refl, sym, ap, ◌∙◌, Bool,
  true, false, not, ◌&&◌, ◌||◌, Option, none, some, List, [], ◌∷◌, ◌++◌, map, arith, ◌==◌,
  string_eq, nat_eq, if◌then◌else◌, Bool-cases, Option-cases, leb, contains, length, Distinct,
  Among, Among-append,
}
use django_boundary.Prelude.Text.{removesuffix}
use django_boundary.Conf.{
  Settings, ParentDomain, one, several, strict_mode, set_db_session_var, regions, resolvers,
  is_truthy, or_text, setting,
}
use django_boundary.Runtime.{Result, return, raise, foreign, type_error, value_error, Exception}
use django_boundary.Adoption.{AppModel, Project, Refusal, expected_adopted_models}

-- What `import_string` finds, as far as the checks ask: whether it is a class, and of which of boundary's classes it is a
-- subclass.
pub record Imported : Type 0 where
  pub is_class : Bool
  pub is_tenant_middleware : Bool
  pub is_subdomain_resolver : Bool
  pub is_client_controlled : Bool
  pub is_regional_router : Bool

-- The outcome of `import_string`, which is documented to raise `ImportError` alone
pub data Import : Type 0 where
  imported : Imported → Import
  import_error : Import

-- An entry of `DATABASE_ROUTERS`: a path, or a router's class
pub data RouterEntry : Type 0 where
  by_path : String → RouterEntry
  instance_of : Imported → RouterEntry

-- The outcome of `apps.get_model` of a path: `ValueError` is documented for one without exactly one dot.
pub data ModelLookup : Type 0 where
  model_found model_missing path_malformed : ModelLookup

-- The Django settings that the checks read.
pub record Site : Type 0 where
  pub settings : Settings
  pub debug : Bool
  pub middleware : List String
  pub installed_apps : List String
  pub database_routers : List RouterEntry
  pub import_string : String → Import
  -- `apps.get_model` of a dotted path
  pub get_model : String → ModelLookup

pub data Message : Type 0 where
  e001_unset : Message
  e001_missing : (source_setting model_string : String) → Message
  e003 : (path : String) → Message
  e004 e005 w001 w002 : Message
  e008 : (setting_name : String) → Message
  w006 w008 : (paths : List String) → Message
  w003 w007_role : Message
  e006 w009 : (table : String) (adopted : Bool) → Message
  w007_rls w007_session_var w007_adopted : (table : String) → Message
  e007_refused : (app_label : String) (refusal : Refusal) → Message
  e007_excluded_tenant e007_excludes_nothing : (entry : String) → Message
  e007_column e007_rls : (table : String) → Message
  e007_type : (table found_type expected_type : String) → Message
  e007_policy : (table policy : String) → Message
  e007_constraint e007_index : (table name : String) → Message

abbrev pub external_tenant_context_middleware : List String
external_tenant_context_middleware =
    "icv_tenants.middleware.TenantContextMiddleware"
    ∷ "icv_identity.tenants.middleware.TenantContextMiddleware" ∷ []

-- `entry.endswith(suffix)`: taking the suffix away leaves another text
unfoldable pub endswith : (entry suffix : String) → Bool
unfolding removesuffix
endswith entry suffix = not (removesuffix suffix entry == entry)

unfoldable pub any_endswith : List String → (suffix : String) → Bool
unfolding endswith
any_endswith [] suffix = false
any_endswith (entry ∷ entries) suffix = endswith entry suffix || any_endswith entries suffix

unfoldable pub any_of : List String → (suffixes : List String) → Bool
unfolding any_endswith
any_of entries [] = false
any_of entries (suffix ∷ suffixes) = any_endswith entries suffix || any_of entries suffixes

unfoldable pub has_external_tenant_context_middleware : List String → Bool
unfolding any_of
has_external_tenant_context_middleware middleware =
    any_of middleware external_tenant_context_middleware

unfoldable pub count_of : List String → (suffixes : List String) → ℕ
unfolding any_endswith
count_of entries [] = 0
count_of entries (suffix ∷ suffixes) =
    (if any_endswith entries suffix then 1 else 0) + count_of entries suffixes

-- The loop of `_check_resolvers`
unfoldable pub unimportable : (String → Import) → List String → List Message
unimportable import_string [] = []
unimportable import_string (p ∷ paths) =
    let rest = unimportable import_string paths in
    elim (import_string p) [ imported _ ↦ rest | import_error ↦ e003 p ∷ rest ]

unfoldable pub mounts_boundary : (String → Import) → List String → Bool
mounts_boundary import_string [] = false
mounts_boundary import_string (entry ∷ middleware) =
    let rest = mounts_boundary import_string middleware in
    if entry == "boundary.middleware.TenantMiddleware" then true else elim (import_string entry) [
      | imported c ↦ if c.is_class && c.is_tenant_middleware then true else rest
      | import_error ↦ rest
    ]

-- The paths whose classes the test holds of; `issubclass` raises `TypeError` on what is no class.
unfoldable pub matching : (Imported → Bool) → (String → Import) → List String → Result (List String)
matching test import_string [] = return []
matching test import_string (p ∷ paths) =
    let rest = matching test import_string paths in
    elim (import_string p) [
      | import_error ↦ rest
      | imported c ↦
          if not c.is_class
          then raise type_error
          else if not (test c)
          then rest
          else elim rest [ raise e ↦ raise e | return found ↦ return (p ∷ found) ]
    ]

unfoldable pub routes_regions : (String → Import) → List RouterEntry → Bool
routes_regions import_string [] = false
routes_regions import_string (by_path p ∷ routers) =
    let rest = routes_regions import_string routers in
    elim (import_string p) [
      | imported c ↦ if c.is_class && c.is_regional_router then true else rest
      | import_error ↦ rest
    ]
routes_regions import_string (instance_of c ∷ routers) =
    let rest = routes_regions import_string routers in
    if c.is_class && c.is_regional_router then true else rest

-- The truth value of `BOUNDARY_SUBDOMAIN_PARENT_DOMAIN`
abbrev pub is_configured : Option ParentDomain → Bool
is_configured none = false
is_configured (some (one s)) = is_truthy (some s)
is_configured (some (several [])) = false
is_configured (some (several (s ∷ rest))) = true

module _ (site : Site) where
  unfoldable pub check_tenant_model : Result (List Message)
  check_tenant_model =
      let boundary_setting = site.settings.boundary_tenant_model in
      let model_string = or_text boundary_setting site.settings.icv_tenant_model in
      let source_setting =
        if is_truthy boundary_setting then "BOUNDARY_TENANT_MODEL" else "ICV_TENANT_MODEL" in
      if not (is_truthy model_string)
      then return (e001_unset ∷ [])
      else elim (site.get_model (setting model_string "")) [
        | model_found ↦ return []
        | model_missing ↦ return (e001_missing source_setting (setting model_string "") ∷ [])
        | path_malformed ↦ raise value_error
      ]

  unfoldable pub check_resolvers : List Message
  unfolding unimportable
  check_resolvers = unimportable site.import_string (resolvers site.settings)

  unfoldable pub check_middleware : List Message
  unfolding has_external_tenant_context_middleware mounts_boundary
  check_middleware =
      if has_external_tenant_context_middleware site.middleware
      then []
      else if mounts_boundary site.import_string site.middleware
      then []
      else e004 ∷ []

  unfoldable pub check_strict_mode : List Message
  check_strict_mode = if not (strict_mode site.settings) then w001 ∷ [] else []

  -- The two settings of `_POSTURE_SETTINGS`
  unfoldable pub check_production_posture : List Message
  check_production_posture =
      if site.debug
      then []
      else (if strict_mode site.settings then [] else e008 "BOUNDARY_STRICT_MODE" ∷ [])
        ++ (if set_db_session_var site.settings
            then []
            else e008 "BOUNDARY_SET_DB_SESSION_VAR" ∷ [])

  unfoldable pub check_external_double_resolve : List Message
  unfolding count_of
  check_external_double_resolve =
      if leb 2 (
        count_of site.middleware
          ("boundary.middleware.TenantMiddleware" ∷ external_tenant_context_middleware))
      then w002 ∷ []
      else []

  unfoldable pub check_client_controlled : Result (List Message)
  unfolding matching
  check_client_controlled =
      if not (contains site.installed_apps "django.contrib.auth")
      then return []
      else elim (matching (λ c. c.is_client_controlled) site.import_string
          (resolvers site.settings)) [
            | raise e ↦ raise e
            | return [] ↦ return []
            | return (p ∷ paths) ↦ return (w006 (p ∷ paths) ∷ [])
          ]

  unfoldable pub check_regional_router_configured : List Message
  unfolding routes_regions
  check_regional_router_configured = elim (regions site.settings) [
    | [] ↦ []
    | _ ↦ if routes_regions site.import_string site.database_routers then [] else e005 ∷ []
  ]

  unfoldable pub check_subdomain_resolver : Result (List Message)
  unfolding matching
  check_subdomain_resolver =
      if is_configured site.settings.boundary_subdomain_parent_domain
      then return []
      else elim (matching (λ c. c.is_subdomain_resolver) site.import_string
          (resolvers site.settings)) [
            | raise e ↦ raise e
            | return [] ↦ return []
            | return (p ∷ paths) ↦ return (w008 (p ∷ paths) ∷ [])
          ]

-- `_expected_adopted_tables`, which catches `ImproperlyConfigured`
abbrev pub is_improperly_configured : Exception → Bool
is_improperly_configured (foreign name) = name == "ImproperlyConfigured"
is_improperly_configured _ = false

unfoldable pub expected_adopted_tables : Project → Result (List (AppModel × String))
unfolding expected_adopted_models
expected_adopted_tables project = elim (expected_adopted_models project) [
  | raise e ↦ if is_improperly_configured e then return [] else raise e
  | return models ↦ return (map (λ model. (model, model.db_table)) models)
]
