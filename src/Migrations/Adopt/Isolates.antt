-- ===== src/Migrations/Adopt/Isolates.antt =====
-- migrations_ops.py: a table that an adoption has gone through is isolated by tenant.
use django_boundary.Prelude.{
  String, ◌≡◌, inl, inr, refl, sym, ap, ◌∙◌, Bool, true, false, Option, none, some, List, [], ◌∷◌,
  ◌++◌, map, arith, ◌==◌, string_eq, nat_eq, Bool-cases, Option-cases, contains, length, Distinct,
  Among, all,
}
use django_boundary.Conf.{admin_flag_var}
use django_boundary.Runtime.{return}
use django_boundary.Adoption.{AppModel, Apps, Project}
use django_boundary.Migrations.{Editor, Table, isolates, bypasses}
use django_boundary.Migrations.Schema.{IsPostgresSchema, stamp_all, after_all}
use django_boundary.Migrations.Adopt.{
  models_to_adopt, adopt_forwards, apply_plans, backfill_parameter,
}
use django_boundary.Migrations.Validate.{AdoptTenantApp, tenant_pg_type}
use django_boundary.Migrations.Adopt.Constraints.{leads, rewritten-lead}
use django_boundary.Migrations.Adopt.Plans.{apply_plans-IsEffect, all_statements, AreCounted}
use mathlib.Core.Path.{subst}
use django_boundary.Migrations.Adopt.Made.{
  tables_of_plans, adopted_table, after_all-inside, after_all-outside,
}
use django_boundary.Migrations.Adopt.Refuses.{passes, plan_of, plans_of, adopt_forwards-eq}

abbrev pub db_tables : List AppModel → List String
db_tables models = map (λ model. model.db_table) models

stamp_all-stamp_all :
    (a b : Option String) (rows : List (Option String))
    → stamp_all a (stamp_all b rows) ≡ stamp_all a rows
stamp_all-stamp_all a b [] = refl
stamp_all-stamp_all a b (row ∷ rows) = ap (λ rs. a ∷ rs) (stamp_all-stamp_all a b rows)

stamp_all_empty :
    (a b : Option String) (rows : List (Option String))
    → length rows ≡ 0
    → stamp_all a rows ≡ stamp_all b rows
stamp_all_empty a b [] _ = refl
stamp_all_empty a b (row ∷ rows) h = absurd (omega (arith, h))

module _ (project : Project) (E : Editor) (op : AdoptTenantApp) where
  -- The table has the tenant's column, never null and with the session's tenant as its default; its rows are
  -- the backfill's tenant's; its row-level security is on and forced, with the two policies; and each of its unique constraints
  -- leads with the column.
  abbrev pub IsIsolated : (pg_type : String) (old new : Table) → Type 0
  IsIsolated pg_type old new =
      (new.tenant_id ≡ some (record { pg_type = pg_type; nullable = false; defaulted = true }))
      × (new.rows ≡ stamp_all op.backfill_tenant old.rows)
      × (new.rls ≡ true)
      × (new.forced ≡ true)
      × (new.policies
          ≡ (old.policies ++ ("boundary_tenant_isolation", isolates "tenant_id") ∷ [])
            ++ ("boundary_admin_bypass", bypasses (admin_flag_var project.settings)) ∷ [])
      × (all leads new.unique_constraints ≡ true)

  pub contains-plans :
      (pg_type : String) (s : E.State) (models : List AppModel) (t : String)
      → contains (db_tables models) t ≡ false
      → contains (tables_of_plans project E op (plans_of project E op pg_type s models)) t ≡ false
  contains-plans pg_type s [] t h = refl
  contains-plans pg_type s (model ∷ models) t h = ground (arith, contains-plans pg_type s models t)

  pub plans-Distinct :
      (pg_type : String) (s : E.State) (models : List AppModel)
      → Distinct (db_tables models)
      → Distinct (tables_of_plans project E op (plans_of project E op pg_type s models))
  plans-Distinct pg_type s [] _ = tt
  plans-Distinct pg_type s (model ∷ models) (fresh, distinct) = ground (
    arith,
    plans-Distinct pg_type s models distinct,
    contains-plans pg_type s models model.db_table fresh,
  )

  Among-plans_of :
      (pg_type : String) (s : E.State) (models : List AppModel) (m : AppModel)
      → E.column_type s m.db_table "tenant_id" ≡ none
      → Among m models
      → Among (plan_of project E op pg_type s m) (plans_of project E op pg_type s models)
  Among-plans_of pg_type s [] m unadopted h = absurd h
  Among-plans_of pg_type s (model ∷ models) m unadopted (inl here) =
      let there : E.column_type s model.db_table "tenant_id" ≡ none =
        ap (λ x. E.column_type s x.db_table "tenant_id") (sym here) ∙ unadopted in
      let opened : plans_of project E op pg_type s (model ∷ models)
          ≡ plan_of project E op pg_type s model ∷ plans_of project E op pg_type s models =
        ground arith in
      subst (Among (plan_of project E op pg_type s m)) (sym opened)
        (inl (ap (plan_of project E op pg_type s) here))
  Among-plans_of pg_type s (model ∷ models) m unadopted (inr later) =
      ground (arith, Among-plans_of pg_type s models m unadopted later)

  pub all-Among :
      (p : AppModel → Bool) (models : List AppModel) (m : AppModel)
      → all p models ≡ true
      → Among m models
      → p m ≡ true
  all-Among p [] m _ h = absurd h
  all-Among p (model ∷ models) m passed (inl here) = ap p here ∙ ground arith
  all-Among p (model ∷ models) m passed (inr later) = all-Among p models m (ground arith) later

  pub plans_of-AreCounted :
      (schema : IsPostgresSchema E) (pg_type : String) (s : E.State) (models : List AppModel)
      → AreCounted project E op
          (λ table. length (E.table s table).rows)
          (plans_of project E op pg_type s models)
  plans_of-AreCounted schema pg_type s [] = tt
  plans_of-AreCounted schema pg_type s (model ∷ models) =
      let counts = AreCounted project E op (λ table. length (E.table s table).rows) in
      let rest = plans_of-AreCounted schema pg_type s models in
      elim (Option-cases (E.column_type s model.db_table "tenant_id")) [
        | inl missing ↦
            let opened : plans_of project E op pg_type s (model ∷ models)
                ≡ plan_of project E op pg_type s model ∷ plans_of project E op pg_type s models =
              ground (arith, missing) in
            subst counts (sym opened) (schema.row_count_reads s model.db_table, rest)
        | inr (existing, adopted) ↦
            let skipped : plans_of project E op pg_type s (model ∷ models)
                ≡ plans_of project E op pg_type s models =
              ground (arith, adopted) in
            subst counts (sym skipped) rest
      ]

  module _ (schema : IsPostgresSchema E) (pg_type : String) (s : E.State) (m : AppModel)
      (unadopted : E.column_type s m.db_table "tenant_id" ≡ none)
      (passed : passes project E op pg_type s m ≡ true) where
    rows-adopted :
        (adopted_table project E op (plan_of project E op pg_type s m) (E.table s m.db_table)).rows
        ≡ stamp_all op.backfill_tenant (E.table s m.db_table).rows
    rows-adopted = elim (Bool-cases (E.row_count s m.db_table == 0)) [
      | inl no_rows ↦
          let count : E.row_count s m.db_table ≡ 0 = ground arith in
          rw no_rows (
            stamp_all_empty E.current_tenant op.backfill_tenant (E.table s m.db_table).rows
              (sym (schema.row_count_reads s m.db_table) ∙ count))
      | inr rows ↦
          let given : some (backfill_parameter project E op) ≡ op.backfill_tenant =
            elim (Option-cases op.backfill_tenant) [
              | inl missing ↦ absurd (ground arith)
              | inr (tenant, e) ↦ ground arith
            ] in
          rw rows (
            stamp_all-stamp_all (some (backfill_parameter project E op)) none
              (E.table s m.db_table).rows
            ∙ ap (λ x. stamp_all x (E.table s m.db_table).rows) given)
    ]

    adopted_table-IsIsolated :
        IsIsolated pg_type
          (E.table s m.db_table)
          (adopted_table project E op (plan_of project E op pg_type s m) (E.table s m.db_table))
    adopted_table-IsIsolated = (
      refl,
      rows-adopted,
      refl,
      refl,
      refl,
      rewritten-lead E m.db_table (E.unique_constraints s m.db_table)
          (E.table s m.db_table).unique_constraints (schema.unique_constraints_reads s m.db_table),
    )

  module _ (schema : IsPostgresSchema E) (apps : Apps) (models : List AppModel) (pg_type : String)
      (s : E.State) (planned : models_to_adopt project E op apps ≡ return models)
      (postgresql : E.vendor ≡ "postgresql") (typed : tenant_pg_type project ≡ return pg_type)
      (done : (adopt_forwards project E op apps s).0 ≡ return tt) where
    pub all_pass : all (passes project E op pg_type s) models ≡ true
    all_pass = elim (Bool-cases (all (passes project E op pg_type s) models)) [
      | inl h ↦ h
      | inr h ↦ absurd (
          ground
            (arith, adopt_forwards-eq project E op apps models pg_type s planned postgresql typed))
    ]

    applied :
        adopt_forwards project E op apps s
        ≡ apply_plans project E op pg_type (plans_of project E op pg_type s models) s
    applied = ground (
      arith,
      all_pass,
      adopt_forwards-eq project E op apps models pg_type s planned postgresql typed,
    )

    pub tables_after :
        (t : String)
        → E.table (adopt_forwards project E op apps s).1 t
          ≡ after_all E.current_tenant
              (all_statements project E op (plans_of project E op pg_type s models))
              t
              (E.table s t)
    tables_after t =
        ap (λ r. E.table r.1 t) applied
        ∙ (apply_plans-IsEffect project E op schema (λ table. length (E.table s table).rows) pg_type
              (plans_of project E op pg_type s models)
              (plans_of-AreCounted schema pg_type s models)).effect
            s (λ table. refl) (sym (ap (λ r. r.0) applied) ∙ done) t

    -- Where an adoption returns, on a PostgreSQL alias with models to adopt, whose tables differ,
    -- and a tenant key of a mapped type, each of their tables that had no column `tenant_id` has the
    -- column, never null and with the session's tenant as its default, its rows are the backfill's
    -- tenant's, its row-level security is on and forced with the two policies, and each of its
    -- unique constraints leads with the column.
    pub adopt_forwards-IsIsolated :
        Distinct (db_tables models)
        → (m : AppModel) → Among m models
        → E.column_type s m.db_table "tenant_id" ≡ none
        → IsIsolated pg_type
            (E.table s m.db_table)
            (E.table (adopt_forwards project E op apps s).1 m.db_table)
    adopt_forwards-IsIsolated distinct m there unadopted =
        subst (IsIsolated pg_type (E.table s m.db_table))
          (sym (
            tables_after m.db_table
            ∙ after_all-inside project E op (plans_of project E op pg_type s models)
                (plan_of project E op pg_type s m) m.db_table (E.table s m.db_table)
                (plans-Distinct pg_type s models distinct)
                (Among-plans_of pg_type s models m unadopted there) refl))
          (adopted_table-IsIsolated schema pg_type s m unadopted
            (all-Among (passes project E op pg_type s) models m all_pass there))

    pub adopt_forwards_outside :
        (t : String)
        → contains (db_tables models) t ≡ false
        → E.table (adopt_forwards project E op apps s).1 t ≡ E.table s t
    adopt_forwards_outside t outside =
        tables_after t
        ∙ after_all-outside project E op (plans_of project E op pg_type s models) t (E.table s t)
            (contains-plans pg_type s models t outside)
