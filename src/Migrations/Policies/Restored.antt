-- ===== src/Migrations/Policies/Restored.antt =====
-- migrations_ops.py: row-level security and its policies, made and taken away again.
use django_boundary.Prelude.{
  String, ◌≡◌, refl, sym, ap, ◌∙◌, true, false, none, some, ◌++◌, ◌==◌, string_eq, nat_eq,
  if◌then◌else◌,
}
use mathlib.Core.Path.{ap₂}
use django_boundary.Prelude.Lists.{all}
use django_boundary.Prelude.Dict.{lookup}
use django_boundary.Conf.{Settings}
use django_boundary.Runtime.{return}
use django_boundary.Adoption.{AppModel, Apps}
use django_boundary.Migrations.{Editor, Step, and_next, execute_all, continue_with}
use django_boundary.Migrations.Schema.{
  IsPostgresSchema, is_certain, execute_all-after_all, execute_all-append, after_all-append,
}
use django_boundary.Migrations.Policies.{
  EnableRls, TenantPolicy, enable_forwards, enable_backwards, create_forwards, create_backwards,
  drop_tenant_policies, detect_tenant_column_type, enable_on, disable_on, create_on, drop_on,
  enabling, creating, disabling, create_tenant_id_helper, create_tenant_policies,
}
use django_boundary.Migrations.Policies.Effects.{label_in, on_model_runs}
use django_boundary.Migrations.Policies.Tables.{
  secured, making, unmaking, after_all-making, after_all-restored,
}

making-certain :
    (E : Editor) (cfg : Settings) (table tenant_column pg_type : String)
    → all is_certain (making E cfg table tenant_column pg_type) ≡ true
unfolding create_tenant_id_helper create_tenant_policies
making-certain E cfg table tenant_column pg_type = refl

there_and_back-certain :
    (E : Editor) (cfg : Settings) (table tenant_column pg_type : String)
    → all is_certain
        (making E cfg table tenant_column pg_type ++ unmaking E cfg table tenant_column pg_type)
      ≡ true
unfolding create_tenant_id_helper create_tenant_policies
there_and_back-certain E cfg table tenant_column pg_type = refl

module _ (E : Editor) (cfg : Settings) (state other : Apps) (app_label pg_type : String)
    (model : AppModel) (enable : EnableRls) (policy : TenantPolicy)
    (found : state.get_model (label_in enable.app_label app_label) enable.model_name ≡ some model)
    (found' : state.get_model (label_in policy.app_label app_label) policy.model_name ≡ some model)
    (allowed : E.allow_migrate_model E.alias model ≡ true) (postgresql : E.vendor ≡ "postgresql")
    (detected : detect_tenant_column_type E policy.tenant_column model ≡ return pg_type) where
  abbrev pub migrate : Step E.State Unit
  migrate =
      and_next (enable_forwards E enable app_label other state)
        (create_forwards E cfg policy app_label other state)

  abbrev pub migrate_back : Step E.State Unit
  migrate_back =
      and_next (create_backwards E cfg policy app_label state other)
        (enable_backwards E enable app_label state other)

  create_forwards-eq :
      (s : E.State)
      → create_forwards E cfg policy app_label other state s
        ≡ execute_all E (creating E cfg model.db_table policy.tenant_column pg_type) s
  unfolding create_forwards
  create_forwards-eq s =
      on_model_runs E state policy.app_label app_label policy.model_name model found'
        (create_on E cfg policy.tenant_column) s allowed postgresql
      ∙ ap
          (λ r.
            continue_with {S = E.State} {A = String} {B = Unit} r
              (λ ty. execute_all E (creating E cfg model.db_table policy.tenant_column ty)) s)
          detected

  enable_forwards-eq :
      (s : E.State)
      → enable_forwards E enable app_label other state s
        ≡ execute_all E (enabling E model.db_table) s
  unfolding enable_forwards
  enable_forwards-eq s =
      on_model_runs E state enable.app_label app_label enable.model_name model found (enable_on E) s
        allowed postgresql

  migrate-eq :
      (s : E.State)
      → migrate s ≡ execute_all E (making E cfg model.db_table policy.tenant_column pg_type) s
  migrate-eq s =
      ap₂ (λ m n. and_next {S = E.State} {A = Unit} {B = Unit} m n s)
        (λ i s'. enable_forwards-eq s' i) (λ i s'. create_forwards-eq s' i)
      ∙ execute_all-append E (enabling E model.db_table)
          (creating E cfg model.db_table policy.tenant_column pg_type) s

  migrate_back-eq :
      (s : E.State)
      → migrate_back s
        ≡ execute_all E (unmaking E cfg model.db_table policy.tenant_column pg_type) s
  unfolding create_backwards enable_backwards
  migrate_back-eq s =
      ap₂ (λ m n. and_next {S = E.State} {A = Unit} {B = Unit} m n s)
        (λ i s'.
          on_model_runs E state policy.app_label app_label policy.model_name model found'
            (drop_on E) s' allowed postgresql i)
        (λ i s'.
          on_model_runs E state enable.app_label app_label enable.model_name model found
            (disable_on E) s' allowed postgresql i)
      ∙ execute_all-append E (drop_tenant_policies model.db_table) (disabling E model.db_table) s

  module _ (schema : IsPostgresSchema E) (s : E.State) where
    -- Enabling row-level security and creating the policies, on a model of PostgreSQL that the router allows,
    -- secures its table, if both return, and changes no other.
    pub migrate-IsSecured :
        (migrate s).0 ≡ return tt
        → (t : String)
        → E.table (migrate s).1 t ≡ (
            if t == model.db_table
            then secured cfg policy.tenant_column (E.table s t)
            else E.table s t)
    migrate-IsSecured done t =
        let e = migrate-eq s in
        let statements = making E cfg model.db_table policy.tenant_column pg_type in
        ap (λ r. E.table r.1 t) e
        ∙ execute_all-after_all E schema statements s
            (making-certain E cfg model.db_table policy.tenant_column pg_type)
            (sym (ap (λ r. r.0) e) ∙ done) t
        ∙ after_all-making E cfg model.db_table policy.tenant_column pg_type t (E.table s t)

    -- `EnableRLS` and `CreateTenantPolicy` forwards and then both backwards, if all four return, on
    -- a model of a PostgreSQL alias that the router allows, leave every table as it was, where the
    -- model's table had no row-level security and no policy of the two names.
    pub migrate_back-migrate :
        (and_next migrate migrate_back s).0 ≡ return tt
        → (E.table s model.db_table).rls ≡ false
        → (E.table s model.db_table).forced ≡ false
        → lookup "boundary_tenant_isolation" (E.table s model.db_table).policies ≡ none
        → lookup "boundary_admin_bypass" (E.table s model.db_table).policies ≡ none
        → (t : String) → E.table (and_next migrate migrate_back s).1 t ≡ E.table s t
    migrate_back-migrate done no_rls no_force no_isolation no_bypass t =
        let there = making E cfg model.db_table policy.tenant_column pg_type in
        let back = unmaking E cfg model.db_table policy.tenant_column pg_type in
        let e =
          ap₂ (λ m n. and_next {S = E.State} {A = Unit} {B = Unit} m n s) (λ i s'. migrate-eq s' i)
            (λ i s'. migrate_back-eq s' i)
          ∙ execute_all-append E there back s in
        ap (λ r. E.table r.1 t) e
        ∙ execute_all-after_all E schema (there ++ back) s
            (there_and_back-certain E cfg model.db_table policy.tenant_column pg_type)
            (sym (ap (λ r. r.0) e) ∙ done) t
        ∙ after_all-append E.current_tenant there back t (E.table s t)
        ∙ after_all-restored E cfg model.db_table policy.tenant_column pg_type (E.table s) no_rls
            no_force no_isolation no_bypass t
