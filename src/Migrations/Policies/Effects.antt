-- ===== src/Migrations/Policies/Effects.antt =====
-- migrations_ops.py: what the operations on policies do to the tables.
use django_boundary.Prelude.{
  String, ◌≡◌, ◌≢◌, ◌⊎◌, inl, inr, ap, ◌∙◌, true, false, Option, some, arith, string_eq, nat_eq,
  if◌then◌else◌,
}
use django_boundary.Conf.{Settings, is_truthy, setting}
use django_boundary.Runtime.{return}
use django_boundary.Adoption.{AppModel, Apps}
use django_boundary.Migrations.{Editor, Step}
use django_boundary.Migrations.Policies.{
  enable_on, disable_on, create_on, drop_on, recreate_on, EnableRls, TenantPolicy, new_policy,
  deconstruct_policy, on_model, router_allows, is_postgresql_or_logged_noop, enable_forwards,
  enable_backwards, create_forwards, create_backwards, drop_forwards, drop_backwards,
}

-- The constructor on the arguments that `deconstruct` records makes the operation again, if its column has
-- a name.
pub new_policy-deconstruct_policy :
    (op : TenantPolicy) → op.tenant_column ≢ "" → new_policy (deconstruct_policy op) ≡ op
unfolding new_policy deconstruct_policy
new_policy-deconstruct_policy op named =
    ap (λ column. record op { tenant_column = column }) (ground arith)

-- The app label that an operation looks its model up by.
abbrev pub label_in : Option String → String → String
label_in own_label app_label = if is_truthy own_label then setting own_label "" else app_label

module _ (E : Editor) (state : Apps) (own_label : Option String) (app_label name : String)
    (model : AppModel) (found : state.get_model (label_in own_label app_label) name ≡ some model)
    (body : AppModel → Step E.State Unit) (s : E.State) where
  on_model_skips :
      (E.allow_migrate_model E.alias model ≡ false) ⊎ (E.vendor ≢ "postgresql")
      → on_model E state own_label app_label name body s ≡ (return tt, s)
  unfolding on_model router_allows is_postgresql_or_logged_noop
  on_model_skips (inl denied) = ground arith
  on_model_skips (inr other) = ground arith

  pub on_model_runs :
      E.allow_migrate_model E.alias model ≡ true
      → E.vendor ≡ "postgresql"
      → on_model E state own_label app_label name body s ≡ body model s
  unfolding on_model router_allows is_postgresql_or_logged_noop
  on_model_runs allowed postgresql = ground arith

module _ (E : Editor) (cfg : Settings) (state other : Apps) (app_label : String)
    (model : AppModel) where
  -- Where the router keeps the model off the alias, or the alias is not PostgreSQL, none of the
  -- three operations issues a statement, in either direction: each returns with the database as it
  -- was.
  policies_skipped :
      (enable : EnableRls) (policy : TenantPolicy) (s : E.State)
      → state.get_model (label_in enable.app_label app_label) enable.model_name ≡ some model
      → state.get_model (label_in policy.app_label app_label) policy.model_name ≡ some model
      → (E.allow_migrate_model E.alias model ≡ false) ⊎ (E.vendor ≢ "postgresql")
      → (enable_forwards E enable app_label other state s ≡ (return tt, s))
        × (enable_backwards E enable app_label state other s ≡ (return tt, s))
        × (create_forwards E cfg policy app_label other state s ≡ (return tt, s))
        × (create_backwards E cfg policy app_label state other s ≡ (return tt, s))
        × (drop_forwards E cfg policy app_label other state s ≡ (return tt, s))
        × (drop_backwards E cfg policy app_label state other s ≡ (return tt, s))
  unfolding enable_forwards enable_backwards create_forwards create_backwards drop_forwards
      drop_backwards
  policies_skipped enable policy s found found' skipped = (
    on_model_skips E state enable.app_label app_label enable.model_name model found (enable_on E) s
        skipped,
    on_model_skips E state enable.app_label app_label enable.model_name model found (disable_on E) s
        skipped,
    on_model_skips E state policy.app_label app_label policy.model_name model found'
        (create_on E cfg policy.tenant_column) s skipped,
    on_model_skips E state policy.app_label app_label policy.model_name model found' (drop_on E) s
        skipped,
    on_model_skips E state policy.app_label app_label policy.model_name model found' (drop_on E) s
        skipped,
    on_model_skips E state policy.app_label app_label policy.model_name model found'
        (recreate_on E cfg policy app_label state other) s skipped,
  )

-- Making the policies again is making them: on a model that both states have, in PostgreSQL and allowed, reversing
-- `DropTenantPolicy` is a `CreateTenantPolicy` applied.
pub drop_backwards-eq-create_forwards :
    (E : Editor) (cfg : Settings) (state other : Apps) (app_label : String) (model : AppModel)
    (policy : TenantPolicy) (s : E.State)
    → state.get_model (label_in policy.app_label app_label) policy.model_name ≡ some model
    → E.allow_migrate_model E.alias model ≡ true
    → E.vendor ≡ "postgresql"
    → policy.tenant_column ≢ ""
    → drop_backwards E cfg policy app_label state other s
      ≡ create_forwards E cfg policy app_label state other s
unfolding drop_backwards new_policy
drop_backwards-eq-create_forwards E cfg state other app_label model policy s found allowed
      postgresql named =
    on_model_runs E state policy.app_label app_label policy.model_name model found
      (recreate_on E cfg policy app_label state other) s allowed postgresql
    ∙ ap (λ op. create_forwards E cfg op app_label state other s)
        (ap (λ column. record policy { tenant_column = column }) (ground arith))
