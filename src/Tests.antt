-- ===== src/Tests.antt =====
-- Samples, and the theorems at work on them.
pub mod InMemory
pub mod Tables
pub mod Widgets
pub mod Deployments
pub mod DeploymentWitnesses
pub mod MigrationWitnesses
pub mod ContextWitnesses
pub mod ServeWitnesses
pub mod ResolveWitnesses
pub mod ModelWitnesses
pub mod StartupWitnesses
pub mod CatalogWitnesses
pub mod CommandWitnesses
use django_boundary.Prelude.{String, Bool, true, false, Option, none, some, List, [], ◌∷◌}
use django_boundary.Conf.{Settings, one, several}
use django_boundary.Runtime.{Tenant, World, return}
use django_boundary.Runtime.Requests.{Request}
use django_boundary.Tests.InMemory.{Memory}

-- One region, one parent domain, and a cache of two; the rest are defaults.
abbrev pub settings : Settings
settings = record {
  boundary_tenant_model = some "shop.Merchant";
  icv_tenant_model = none;
  boundary_strict_mode = none;
  boundary_required = none;
  boundary_wrap_atomic = none;
  boundary_set_db_session_var = none;
  boundary_subdomain_field = none;
  boundary_subdomain_parent_domain = some (one "example.com");
  boundary_header_name = none;
  boundary_jwt_claim = none;
  boundary_session_key = none;
  boundary_resolver_cache_size = some 2;
  boundary_resolver_cache_ttl = none;
  boundary_db_session_var = none;
  boundary_admin_flag_var = none;
  boundary_regions = some ("eu" ∷ []);
  boundary_region_field = none;
  boundary_tenant_fk_field = none;
  boundary_tenant_label = none;
  boundary_request_attr = none;
  boundary_function_leakproof = none;
  boundary_tenant_apps = some ("thirdparty" ∷ "sessions" ∷ []);
  boundary_adopt_exclude = none;
  boundary_resolvers = none;
  boundary_post_provision_hook = none;
  boundary_pre_deprovision_hook = none;
}

abbrev pub settings_uncached : Settings
settings_uncached = record settings { boundary_resolver_cache_size = some 0 }

-- A tenant of the region, and one of none.
abbrev pub acme : Tenant
acme = record {
  pk = "1";
  attributes = ("slug", "acme") ∷ ("region", "eu") ∷ [];
  is_active = some true;
}

abbrev pub brown : Tenant
brown = record { pk = "2"; attributes = ("slug", "brown") ∷ []; is_active = some false }

abbrev pub autocommit : Memory
autocommit = record { opened = λ a. true; blocks = λ a. false; vars = λ a v. "" }

abbrev pub in_transactions : Memory
in_transactions = record { opened = λ a. true; blocks = λ a. true; vars = λ a v. "" }

abbrev pub world : Memory → World Memory
world s = record {
  current_tenant = none;
  admin_bypass_depth = none;
  region_override = none;
  warned_unmatched_regions = [];
  region_warnings = [];
  cache = [];
  now = 100;
  db = s;
  signals = [];
}

-- The world in which `brown` is active.
abbrev pub under_brown : Memory → World Memory
under_brown s = record (world s) { current_tenant = some brown }

abbrev pub request : Request
request = record {
  host = return "acme.example.com:8000";
  meta = [];
  session = none;
  attributes = [];
  boundary_token = none;
}
