-- ===== src/Tasks.antt =====
-- celery.py: tenant headers at dispatch, and the tenant context around a task on the worker.
pub mod RoundTrip
use django_boundary.Prelude.{
  String, Bool, true, false, Option, none, some, List, [], ◌∷◌, if◌then◌else◌,
}
use django_boundary.Prelude.Dict.{Dict, lookup, insert, update}
use django_boundary.Conf.{Settings, setting, is_truthy, region_field}
use django_boundary.Runtime.{
  Tenant, Token, get_attribute, Exception, Result, return, raise, tenant_not_found, World, Action,
}
use django_boundary.Runtime.Database.{Database}
use django_boundary.Runtime.Lookup.{Lookup, found, does_not_exist, failed}
use django_boundary.Context.Session.{ensure_atomic}
use django_boundary.Context.Tenant.{set, clear}

abbrev pub header_tenant_id : String
header_tenant_id = "boundary_tenant_id"

abbrev pub header_region : String
header_region = "boundary_region"

abbrev with_region : Option String → Dict String → Dict String
with_region region headers =
    if is_truthy region then insert header_region (setting region "") headers else headers

pub get_tenant_headers : {Db : Type 0} → Settings → World Db → Dict String
get_tenant_headers cfg w = elim w.current_tenant [
  | none ↦ []
  | some tenant ↦
      with_region (get_attribute (region_field cfg) tenant) (insert header_tenant_id tenant.pk [])
]

-- The headers with which `TenantTask.apply_async` dispatches: the caller's, then the tenant's.
pub dispatch_headers : {Db : Type 0} → Settings → Option (Dict String) → World Db → Dict String
unfolding get_tenant_headers
dispatch_headers cfg headers w = update (setting headers []) (get_tenant_headers cfg w)

-- `get_pk` is `TenantModel.objects.get(pk=…)` on the worker.
module _ (cfg : Settings) (D : Database) (get_pk : String → Lookup Tenant) where
  restore_found : Lookup Tenant → Action D.State (Option (Tenant × Token Tenant))
  restore_found does_not_exist w = (raise tenant_not_found, w)
  restore_found (failed e) w = (raise e, w)
  restore_found (found tenant) w =
      let (entered, w') = set cfg D (some tenant) "default" w in
      elim entered [ raise e ↦ (raise e, w') | return token ↦ (return (some (tenant, token)), w') ]

  restore_tenant_context : Option (Dict String) → Action D.State (Option (Tenant × Token Tenant))
  unfolding restore_found
  restore_tenant_context headers w =
      let tenant_id = lookup header_tenant_id (setting headers []) in
      if is_truthy tenant_id
      then restore_found (get_pk (setting tenant_id "")) w
      else (return none, w)

  module _ {A : Type 0} where
    -- The `try` and `finally` around the task's body.
    run_restored : Option (Tenant × Token Tenant) → Action D.State A → Action D.State A
    run_restored none body w = body w
    run_restored (some (tenant, token)) body w =
        let (result, w') = body w in (result, clear cfg D token "default" w')

    restore_and_run : Option (Dict String) → Action D.State A → Action D.State A
    unfolding restore_tenant_context run_restored
    restore_and_run headers body w =
        let (restored, w') = restore_tenant_context headers w in
        elim restored [ raise e ↦ (raise e, w') | return r ↦ run_restored r body w' ]

    -- `TenantTask.__call__`, and the wrapper of `tenant_task`.
    pub run_task : Option (Dict String) → Action D.State A → Action D.State A
    unfolding restore_and_run
    run_task headers body w = ensure_atomic cfg D "default" (restore_and_run headers body) w
