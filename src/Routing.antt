-- ===== src/Routing.antt =====
-- routing.py: the regional router, its warn-once set, `require_region`, `all_regions` and
-- `specific_region`. The debug lines of the log are left out.
pub mod Agreement
pub mod Warnings
use django_boundary.Prelude.{
  ℕ, String, Bool, true, false, not, ◌||◌, Option, none, some, List, [], ◌∷◌, ◌++◌, string_eq,
  option_eq, pair_eq, contains, length, leb, if◌then◌else◌,
}
use django_boundary.Conf.{Settings, setting, is_truthy, regions, region_field}
use django_boundary.Runtime.{
  Tenant, get_attribute, Result, return, raise, region_not_configured, World, Action,
}
use django_boundary.Context.Aliases.{is_empty}

abbrev pub max_unmatched_region_warnings : ℕ
max_unmatched_region_warnings = 10000

-- `not region or region not in regions`
abbrev pub is_unmatched : List String → Option String → Bool
is_unmatched configured region =
    not (is_truthy region) || not (contains configured (setting region ""))

module _ {Db : Type 0} where
  pub warn_unmatched_region_once : String → Option String → World Db → World Db
  warn_unmatched_region_once tenant_pk region w =
      let key : String × Option String = (tenant_pk, region) in
      if contains w.warned_unmatched_regions key
      then w
      else (let kept =
            if leb max_unmatched_region_warnings (length w.warned_unmatched_regions)
            then []
            else w.warned_unmatched_regions in
          record w {
            warned_unmatched_regions = kept ++ key ∷ [];
            region_warnings = w.region_warnings ++ key ∷ [];
          })

  -- The end of `_route`, for an active tenant.
  route_tenant : Settings → Tenant → World Db → String × World Db
  unfolding warn_unmatched_region_once
  route_tenant cfg tenant w =
      let region = get_attribute (region_field cfg) tenant in
      if is_unmatched (regions cfg) region
      then ("default", warn_unmatched_region_once tenant.pk region w)
      else (setting region "", w)

  -- `RegionalRouter._route`, which is `db_for_read` and `db_for_write`. `tenant_model` is the test
  -- `isinstance(model, type) and is_tenant_model(model)`.
  unfoldable pub route : Settings → (tenant_model : Bool) → World Db → String × World Db
  unfolding route_tenant
  route cfg tenant_model w =
      if is_empty (regions cfg)
      then ("default", w)
      else if is_truthy w.region_override
      then (if contains (regions cfg) (setting w.region_override "")
          then (setting w.region_override "", w)
          else ("default", w))
      else if not tenant_model
      then ("default", w)
      else elim w.current_tenant [ none ↦ ("default", w) | some tenant ↦ route_tenant cfg tenant w ]

  -- The tenant that `require_region` checks: its argument, else the active one.
  abbrev tenant_or_active : Option Tenant → World Db → Option Tenant
  tenant_or_active none w = w.current_tenant
  tenant_or_active (some tenant) w = some tenant

  unfoldable pub require_region : Settings → Option Tenant → Action Db String
  require_region cfg tenant w =
      if is_empty (regions cfg)
      then (raise region_not_configured, w)
      else elim (tenant_or_active tenant w) [
        | none ↦ (raise region_not_configured, w)
        | some t ↦
            let region = get_attribute (region_field cfg) t in
            if is_unmatched (regions cfg) region
            then (raise region_not_configured, w)
            else (return (setting region ""), w)
      ]

  -- `with specific_region(region_key): body`
  unfoldable specific_region : {A : Type 0} → String → Action Db A → Action Db A
  specific_region region_key body w =
      let (result, w') = body (record w { region_override = some region_key }) in
      (result, record w' { region_override = w.region_override })

-- What `all_regions` yields.
pub all_regions : Settings → List String
all_regions cfg = if is_empty (regions cfg) then "default" ∷ [] else regions cfg
