-- ===== src/Commands.antt =====
-- management/commands: boundary_run, boundary_run_all and boundary_provision.
pub mod Runs
pub mod RunAll
pub mod Provision
pub mod Deprovision
use django_boundary.Prelude.{
  String, Bool, true, false, not, ◌&&◌, Option, none, some, List, [], ◌∷◌, ◌==◌, string_eq,
  contains, if◌then◌else◌,
}
use django_boundary.Conf.{Settings, setting, region_field, is_truthy}
use django_boundary.Runtime.{
  Tenant, get_attribute, Exception, value_error, type_error, command_error, Result, return, raise,
  World, Action, and_then, ◌>>=◌,
}
use django_boundary.Runtime.Database.{Database}
use django_boundary.Runtime.Lookup.{Lookup, found, does_not_exist, failed}
use django_boundary.Context.Tenant.{using_tenant}

-- What `TenantModel.objects` answers: `get(pk=...)`, `get(slug=...)`.
pub record Tenants : Type 0 where
  pub get_pk : String → Lookup Tenant
  pub get_slug : String → Lookup Tenant

-- The exceptions of `get(pk=...)` that `_resolve_tenant` passes over.
abbrev is_passed : Exception → Bool
is_passed value_error = true
is_passed type_error = true
is_passed _ = false

abbrev resolve_slug : Lookup Tenant → Result Tenant
resolve_slug (found tenant) = return tenant
resolve_slug does_not_exist = raise command_error
resolve_slug (failed e) = raise e

-- `_resolve_tenant` of boundary_run: by primary key, then by slug
unfoldable pub resolve_identifier : Tenants → String → Result Tenant
resolve_identifier tenants identifier =
    let by_slug = resolve_slug (tenants.get_slug identifier) in
    elim (tenants.get_pk identifier) [
      | found tenant ↦ return tenant
      | does_not_exist ↦ by_slug
      | failed e ↦ if is_passed e then by_slug else raise e
    ]

-- The hook of a setting: `import_string` may raise.
abbrev pub ImportHook : Type 0 → Type 0
ImportHook Db = String → Result (Tenant → Action Db Unit)

unfoldable pub call_hook : {Db : Type 0} → Option String → ImportHook Db → Tenant → Action Db Unit
call_hook hook_path import_string tenant w =
    if is_truthy hook_path
    then and_then (import_string (setting hook_path "")) (λ hook. hook tenant) w
    else (return tt, w)

-- A result of boundary_run_all: `{"tenant": ..., "status": ...}`, and why it failed.
pub data Status : Type 0 where
  ok : Status
  not_found : Status
  error : Exception → Status

abbrev pub Outcome : Type 0
Outcome = String × Status

abbrev pub status_of : Result Unit → Status
status_of (return _) = ok
status_of (raise e) = error e

module _ (cfg : Settings) (D : Database) (tenants : Tenants) where
  -- `boundary_run`; `call_command` is the command that it is given.
  unfoldable run : String → Action D.State Unit → Action D.State Unit
  unfolding resolve_identifier
  run identifier call_command w =
      and_then (resolve_identifier tenants identifier)
        (λ tenant. using_tenant cfg D (some tenant) "default" call_command) w

  -- One turn of the loop of `_run_sequential`; only a lookup that fails ends the loop.
  pub run_one : Action D.State Unit → String → Action D.State Outcome
  run_one call_command pk w = elim (tenants.get_pk pk) [
    | does_not_exist ↦ (return (pk, not_found), w)
    | failed e ↦ (raise e, w)
    | found tenant ↦
        let slug = setting (get_attribute "slug" tenant) pk in
        let (result, w') = using_tenant cfg D (some tenant) "default" call_command w in
        (return (slug, status_of result), w')
  ]

  -- `_run_sequential` of boundary_run_all
  pub run_sequential : Action D.State Unit → List String → Action D.State (List Outcome)
  unfolding run_one
  run_sequential call_command [] w = (return [], w)
  run_sequential call_command (pk ∷ pks) w =
      (do
        outcome ← run_one call_command pk
        outcomes ← run_sequential call_command pks
        λ w'. (return (outcome ∷ outcomes), w'))
        w
