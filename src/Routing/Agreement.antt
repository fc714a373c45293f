-- ===== src/Routing/Agreement.antt =====
-- Where queries are routed, against where the tenant's session variable is written.
use django_boundary.Prelude.{
  String, ◌≡◌, ◌≢◌, ◌⊎◌, ◌↔◌, Bool, true, false, some, arith, string_eq, contains,
}
use django_boundary.Conf.{Settings, setting, is_truthy, regions, region_field}
use django_boundary.Runtime.{Tenant, get_attribute, return, World}
use django_boundary.Context.Aliases.{regional_alias, aliases_for}
use django_boundary.Context.Aliases.Laws.{contains-aliases_for}
use django_boundary.Routing.{route, require_region, all_regions}

module _ {Db : Type 0} (cfg : Settings) where
  -- With no region pinned, a query of a tenant model under an active tenant goes to the tenant's
  -- regional alias as context.py computes it, or to `default` where it has none.
  pub route-eq-regional_alias :
      (t : Tenant) (w : World Db)
      → w.current_tenant ≡ some t
      → is_truthy w.region_override ≡ false
      → (route cfg true w).0 ≡ setting (regional_alias cfg (some t)) "default"
  unfolding route regional_alias
  route-eq-regional_alias t w active free = ground arith

  -- With no region pinned, the alias that a query is routed to is one of the aliases on which the
  -- session variable of the active tenant is written.
  pub route-mem-aliases_for :
      (base : String) (tenant_model : Bool) (w : World Db)
      → is_truthy w.region_override ≡ false
      → contains (aliases_for cfg w.current_tenant base) (route cfg tenant_model w).0 ≡ true
  unfolding route regional_alias
  route-mem-aliases_for base tenant_model w free =
      let r = (route cfg tenant_model w).0 in
      ground (arith, contains-aliases_for cfg w.current_tenant base r)

  -- Under a pinned region, which is configured and not empty, every query goes there, that of a
  -- model of no tenant too.
  route_pinned :
      (region : String) (tenant_model : Bool) (w : World Db)
      → w.region_override ≡ some region
      → region ≢ ""
      → contains (regions cfg) region ≡ true
      → (route cfg tenant_model w).0 ≡ region
  unfolding route
  route_pinned region tenant_model w pinned nonempty known = ground (arith)

  -- The router names `default` or one of the aliases of `all_regions`, and changes neither the
  -- active tenant, nor the pinned region, nor the databases.
  route-mem-all_regions :
      (tenant_model : Bool) (w : World Db)
      → let (alias, w') = route cfg tenant_model w in
        ((alias ≡ "default") ⊎ (contains (all_regions cfg) alias ≡ true))
        × (w'.current_tenant ≡ w.current_tenant)
        × (w'.region_override ≡ w.region_override)
        × (w'.db ≡ w.db)
  unfolding route all_regions
  route-mem-all_regions tenant_model w = ground arith

  -- `require_region` of a tenant returns an alias exactly if the alias is a configured region, is
  -- the tenant's own, and is not empty.
  pub require_region_iff :
      (t : Tenant) (w : World Db) (alias : String)
      → ((require_region cfg (some t) w).0 ≡ return alias) ↔ (
          (contains (regions cfg) alias ≡ true)
          × (get_attribute (region_field cfg) t ≡ some alias)
          × (alias ≢ ""))
  unfolding require_region
  require_region_iff t w alias = (λ h. ground arith, λ h. ground arith)
