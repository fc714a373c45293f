-- ===== src/Models/Fields.antt =====
-- models.py: the answers of the questions about a model agree, and what its manager filters by.
use django_boundary.Prelude.{
  contains, not, ◌&&◌, ◌≢◌, ◌↔◌, String, ◌≡◌, true, false, none, some, arith, if◌then◌else◌,
  string_eq,
}
use django_boundary.Conf.{wrap_atomic, set_db_session_var, strict_mode, Settings}
use django_boundary.Runtime.Database.{Database, IsPostgres, Answers}
use django_boundary.Context.Aliases.{aliases_for}
use django_boundary.Context.Session.{is_postgresql}
use django_boundary.Context.Tenant.{using_tenant}
use django_boundary.Context.Tenant.Restore.{using_tenant-enforces}
use django_boundary.Runtime.{Tenant, World, return}
use django_boundary.Models.{
  Model, Registry, is_some, is_tenant_model, get_tenant_fk_field, get_tenant_lookup,
  has_tenant_column, unfiltered, filtered_by, get_queryset,
}

-- A model has a tenant column exactly if a field name is given for it, and then it is filtered by
-- that column; and a model that can be filtered is a tenant model, registered or not.
model_fields_agree :
    (registry : Registry) (model : Model)
    → (has_tenant_column model ≡ is_some (get_tenant_fk_field model))
      × ((if has_tenant_column model then get_tenant_lookup model else none)
          ≡ get_tenant_fk_field model)
      × ((is_some (get_tenant_lookup model) && not (is_tenant_model registry model)) ≡ false)
unfolding has_tenant_column get_tenant_fk_field get_tenant_lookup is_tenant_model
model_fields_agree registry model = (ground arith, ground arith, ground arith)

module _ (cfg : Settings) where
  -- The manager returns all rows exactly if no tenant is active and strict mode is off.
  pub get_queryset-unfiltered :
      {Db : Type 0} (model : Model) (w : World Db)
      → ((get_queryset cfg model w).0 ≡ return unfiltered)
        ↔ ((w.current_tenant ≡ none) × (strict_mode cfg ≡ false))
  unfolding get_queryset
  get_queryset-unfiltered model w =
      ((λ h. (ground (arith, h), ground (arith, h))), λ h. ground (arith, h.0, h.1))

  -- Inside `TenantContext.using(t)`, where the database answers, transactions are wrapped, session
  -- variables are enabled and one of the tenant's aliases is PostgreSQL, the manager of a model with
  -- a lookup, which is not empty, filters by `t` on that lookup.
  pub using_tenant-get_queryset :
      (D : Database) (P : IsPostgres D) (up : Answers D) (a : String)
      → wrap_atomic cfg ≡ true
      → set_db_session_var cfg ≡ true
      → is_postgresql cfg D a ≡ true
      → (t : Tenant) (using : String) (model : Model) (field : String) (w : World D.State)
      → contains (aliases_for cfg (some t) using) a ≡ true
      → get_tenant_lookup model ≡ some field
      → field ≢ ""
      → (using_tenant cfg D (some t) using (get_queryset cfg model) w).0
        ≡ return (filtered_by field t)
  unfolding get_queryset
  using_tenant-get_queryset D P up a wraps enabled postgres t using model field w member e named =
      using_tenant-enforces cfg D P up enabled a postgres wraps t using (get_queryset cfg model) w _
        member λ v active in_block holds. ground arith
