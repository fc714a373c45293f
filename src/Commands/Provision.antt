-- ===== src/Commands/Provision.antt =====
-- boundary_provision: a tenant row is created, on the database of its region where regions are
-- configured.
use django_boundary.Prelude.{
  String, ◌≡◌, true, false, not, ◌&&◌, Option, none, some, [], ◌∷◌, arith, if◌then◌else◌, string_eq,
}
use django_boundary.Prelude.Dict.{Dict, insert, update}
use django_boundary.Conf.{Settings, setting, regions, is_truthy, region_field}
use django_boundary.Runtime.{
  Tenant, region_not_configured, command_error, Result, return, raise, World, Action, and_then,
  ◌>>=◌, get_attribute,
}
use django_boundary.Context.Aliases.{is_empty}
use django_boundary.Commands.{ImportHook, call_hook}
use django_boundary.Conf.{post_provision_hook}
use django_boundary.Routing.{is_unmatched, route, require_region}

-- What the command calls: `json.loads`, the tenant model's constructor, `save(using=alias)`,
-- `objects.create`, and `import_string`.
pub record Creation (Db : Type 0) : Type 0 where
  pub loads : String → Option (Dict String)
  pub construct : Dict String → Result Tenant
  pub save : (alias : String) → Tenant → Action Db Unit
  pub create : Dict String → Action Db Tenant
  pub import_string : ImportHook Db

-- The options of the command.
pub record Options : Type 0 where
  pub name : String
  pub slug : String
  pub region : Option String
  pub extra_fields : String

-- `kwargs`
unfoldable pub tenant_kwargs : Options → Dict String → Dict String
tenant_kwargs options extra =
    let named = ("name", options.name) ∷ ("slug", options.slug) ∷ [] in
    let placed =
      if is_truthy options.region
      then insert "region" (setting options.region "") named
      else named in
    update placed extra

-- `RegionNotConfiguredError` becomes a `CommandError`.
abbrev as_command_error : {A : Type 0} → Result A → Result A
as_command_error (raise region_not_configured) = raise command_error
as_command_error other = other

module _ (cfg : Settings) {Db : Type 0} (C : Creation Db) where
  -- The branch of a region: the row is written to the alias of the tenant's region.
  place : Tenant → Action Db Tenant
  place tenant w =
      let (alias, w') = require_region cfg (some tenant) w in
      and_then (as_command_error alias) (λ a. C.save a tenant >>= λ saved v. (return tenant, v)) w'

  -- The hook, and the key that is printed.
  abbrev finish : Tenant → Action Db String
  finish tenant =
      call_hook (post_provision_hook cfg) C.import_string tenant >>= λ done v. (return tenant.pk, v)

  -- `handle` of boundary_provision
  pub provision : Options → Action Db String
  unfolding tenant_kwargs place require_region
  provision options w = elim (C.loads options.extra_fields) [
    | none ↦ (raise command_error, w)
    | some extra ↦
        let kwargs = tenant_kwargs options extra in
        if is_truthy options.region && not (is_empty (regions cfg))
        then and_then (C.construct kwargs) (λ tenant. place tenant >>= finish) w
        else (C.create kwargs >>= finish) w
  ]

  -- boundary_provision with a region, where regions are configured, the extra fields parse, the
  -- tenant model constructs the tenant and no region is pinned: if the tenant's region field names
  -- no configured region it raises `CommandError` and nothing is written; otherwise it saves the
  -- tenant on the alias to which the router sends queries of that tenant, and then runs the hook.
  pub provision-eq-route :
      (options : Options) (extra : Dict String) (tenant : Tenant) (w : World Db)
      → C.loads options.extra_fields ≡ some extra
      → is_truthy options.region ≡ true
      → is_empty (regions cfg) ≡ false
      → C.construct (tenant_kwargs options extra) ≡ return tenant
      → is_truthy w.region_override ≡ false
      → let home = (route cfg true (record w { current_tenant = some tenant })).0 in
        provision options w ≡ (
          if is_unmatched (regions cfg) (get_attribute (region_field cfg) tenant)
          then (raise command_error, w)
          else (C.save home tenant >>= λ saved. finish tenant) w)
  unfolding provision route
  provision-eq-route options extra tenant w loaded given configured made free = ground arith
