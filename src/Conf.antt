-- ===== src/Conf.antt =====
-- conf.py: the Django settings that boundary reads, and the accessors of `_Settings` with their
-- defaults. `none` is a setting that is not set. Of `BOUNDARY_REGIONS`, a dict, the keys are kept:
-- the code reads nothing else of it.
use django_boundary.Prelude.{
  ℕ, String, Bool, true, false, Option, none, some, List, [], ◌∷◌, ◌==◌, string_eq, if◌then◌else◌,
}

-- `BOUNDARY_SUBDOMAIN_PARENT_DOMAIN`: a text, or a list or tuple of texts
pub data ParentDomain : Type 0 where
  one : String → ParentDomain
  several : List String → ParentDomain

pub record Settings : Type 0 where
  pub boundary_tenant_model : Option String
  pub icv_tenant_model : Option String
  pub boundary_strict_mode : Option Bool
  pub boundary_required : Option Bool
  pub boundary_wrap_atomic : Option Bool
  pub boundary_set_db_session_var : Option Bool
  pub boundary_subdomain_field : Option String
  pub boundary_subdomain_parent_domain : Option ParentDomain
  pub boundary_header_name : Option String
  pub boundary_jwt_claim : Option String
  pub boundary_session_key : Option String
  pub boundary_resolver_cache_size : Option ℕ
  pub boundary_resolver_cache_ttl : Option ℕ
  pub boundary_db_session_var : Option String
  pub boundary_admin_flag_var : Option String
  pub boundary_regions : Option (List String)
  pub boundary_region_field : Option String
  pub boundary_tenant_fk_field : Option String
  pub boundary_tenant_label : Option String
  pub boundary_request_attr : Option String
  pub boundary_function_leakproof : Option Bool
  pub boundary_tenant_apps : Option (List String)
  pub boundary_adopt_exclude : Option (List String)
  pub boundary_resolvers : Option (List String)
  pub boundary_post_provision_hook : Option String
  pub boundary_pre_deprovision_hook : Option String

-- `_setting(name, default)`
abbrev pub setting {ℓ} : {A : Type ℓ} → Option A → A → A
setting none default = default
setting (some a) default = a

-- The truth value of a text, of a missing one too.
abbrev pub is_truthy : Option String → Bool
is_truthy none = false
is_truthy (some s) = if s == "" then false else true

-- `a or b` on texts
abbrev pub or_text : Option String → Option String → Option String
or_text a b = if is_truthy a then a else b

-- `ImproperlyConfigured` is `none`.
unfoldable pub resolve_tenant_model_setting : Settings → Option String
resolve_tenant_model_setting cfg =
    let model_string = or_text cfg.boundary_tenant_model cfg.icv_tenant_model in
    if is_truthy model_string then model_string else none

unfoldable pub strict_mode : Settings → Bool
strict_mode cfg = setting cfg.boundary_strict_mode true

unfoldable pub required : Settings → Bool
required cfg = setting cfg.boundary_required true

unfoldable pub wrap_atomic : Settings → Bool
wrap_atomic cfg = setting cfg.boundary_wrap_atomic true

unfoldable pub set_db_session_var : Settings → Bool
set_db_session_var cfg = setting cfg.boundary_set_db_session_var true

unfoldable pub subdomain_field : Settings → String
subdomain_field cfg = setting cfg.boundary_subdomain_field "slug"

unfoldable pub subdomain_parent_domain : Settings → Option (List String)
subdomain_parent_domain cfg = elim cfg.boundary_subdomain_parent_domain [
  | none ↦ none
  | some (one value) ↦ some (value ∷ [])
  | some (several values) ↦ some values
]

unfoldable pub header_name : Settings → String
header_name cfg = setting cfg.boundary_header_name "X-Tenant-ID"

unfoldable pub jwt_claim : Settings → String
jwt_claim cfg = setting cfg.boundary_jwt_claim "tenant_id"

unfoldable pub session_key : Settings → String
session_key cfg = setting cfg.boundary_session_key "boundary_tenant_id"

unfoldable pub resolver_cache_size : Settings → ℕ
resolver_cache_size cfg = setting cfg.boundary_resolver_cache_size 1000

unfoldable pub resolver_cache_ttl : Settings → ℕ
resolver_cache_ttl cfg = setting cfg.boundary_resolver_cache_ttl 60

unfoldable pub db_session_var : Settings → String
db_session_var cfg = setting cfg.boundary_db_session_var "app.current_tenant_id"

unfoldable pub admin_flag_var : Settings → String
admin_flag_var cfg = setting cfg.boundary_admin_flag_var "app.boundary_admin"

-- `not regions` holds of `None` and of an empty dict alike, and no reader tells them apart.
unfoldable pub regions : Settings → List String
regions cfg = setting cfg.boundary_regions []

unfoldable pub region_field : Settings → String
region_field cfg = setting cfg.boundary_region_field "region"

pub tenant_fk_field : Settings → String
tenant_fk_field cfg = setting cfg.boundary_tenant_fk_field "tenant"

unfoldable pub tenant_label : Settings → String
unfolding tenant_fk_field
tenant_label cfg = setting cfg.boundary_tenant_label (tenant_fk_field cfg)

unfoldable pub request_attr : Settings → String
unfolding tenant_fk_field
request_attr cfg = setting cfg.boundary_request_attr (tenant_fk_field cfg)

unfoldable pub function_leakproof : Settings → Bool
function_leakproof cfg = setting cfg.boundary_function_leakproof false

unfoldable pub tenant_apps : Settings → List String
tenant_apps cfg = setting cfg.boundary_tenant_apps []

unfoldable pub adopt_exclude : Settings → List String
adopt_exclude cfg = setting cfg.boundary_adopt_exclude []

unfoldable pub resolvers : Settings → List String
resolvers cfg = setting cfg.boundary_resolvers ("boundary.resolvers.SubdomainResolver" ∷ [])

abbrev pub post_provision_hook : Settings → Option String
post_provision_hook cfg = cfg.boundary_post_provision_hook

abbrev pub pre_deprovision_hook : Settings → Option String
pre_deprovision_hook cfg = cfg.boundary_pre_deprovision_hook
