-- ===== src/Migrations/Adopt/Twice.antt =====
-- migrations_ops.py: an adoption that is applied a second time.
use django_boundary.Prelude.{
  String, ◌≡◌, inl, inr, refl, sym, ap, ◌∙◌, true, false, some, List, [], ◌∷◌, arith, string_eq,
  nat_eq, Option-cases, contains, Distinct, Among, all,
}
use django_boundary.Runtime.{return}
use django_boundary.Adoption.{AppModel, Apps, Project}
use django_boundary.Migrations.{Editor, TenantColumn}
use django_boundary.Migrations.Names.{pg_types_match}
use django_boundary.Migrations.Schema.{IsPostgresSchema, map_option}
use django_boundary.Migrations.Adopt.{models_to_adopt, adopt_forwards, apply_plans}
use django_boundary.Migrations.Validate.{AdoptTenantApp, tenant_pg_type}
use django_boundary.Migrations.Adopt.Made.{tables_of_plans, after_all-outside}
use django_boundary.Migrations.Adopt.Refuses.{passes, plans_of, adopt_forwards-eq}
use django_boundary.Migrations.Adopt.Isolates.{
  db_tables, contains-plans, all-Among, all_pass, tables_after, adopt_forwards-IsIsolated,
}

contains-db_tables :
    (models : List AppModel) (m : AppModel)
    → Among m models
    → contains (db_tables models) m.db_table ≡ true
contains-db_tables [] m h = absurd h
contains-db_tables (model ∷ models) m (inl here) = ground (arith, ap (λ x. x.db_table) here)
contains-db_tables (model ∷ models) m (inr later) =
    ground (arith, contains-db_tables models m later)

pub pg_types_match_refl : (pg_type : String) → pg_types_match pg_type pg_type ≡ true
unfolding pg_types_match
pg_types_match_refl pg_type = ground arith

module _ (project : Project) (E : Editor) (op : AdoptTenantApp) (pg_type : String) where
  -- A table that is adopted already is in no plan.
  contains-plans_adopted :
      (s : E.State) (models : List AppModel) (m : AppModel) (existing : String)
      → Distinct (db_tables models)
      → Among m models
      → E.column_type s m.db_table "tenant_id" ≡ some existing
      → contains (tables_of_plans project E op (plans_of project E op pg_type s models)) m.db_table
        ≡ false
  contains-plans_adopted s [] m existing _ h _ = absurd h
  contains-plans_adopted s (model ∷ models) m existing (fresh, distinct) (inl here) adopted =
      let rest = contains-plans project E op pg_type s models model.db_table fresh in
      let own : E.column_type s model.db_table "tenant_id" ≡ some existing =
        ap (λ x. E.column_type s x.db_table "tenant_id") (sym here) ∙ adopted in
      let skipped : plans_of project E op pg_type s (model ∷ models)
          ≡ plans_of project E op pg_type s models =
        ground arith in
      ap (λ plans. contains (tables_of_plans project E op plans) m.db_table) skipped
      ∙ ap
          (λ x.
            contains (tables_of_plans project E op (plans_of project E op pg_type s models))
              x.db_table)
          here
      ∙ rest
  contains-plans_adopted s (model ∷ models) m existing (fresh, distinct) (inr later) adopted =
      ground (
        arith,
        contains-plans_adopted s models m existing distinct later adopted,
        contains-db_tables models m later,
      )

  IsMatched : E.State → AppModel → Type 0
  IsMatched s m =
      (existing : String) × (E.column_type s m.db_table "tenant_id" ≡ some existing)
      × (pg_types_match existing pg_type ≡ true)

  matched_lem :
      (s : E.State) (models : List AppModel)
      → ((m : AppModel) → Among m models → IsMatched s m)
      → (all (passes project E op pg_type s) models ≡ true)
        × (plans_of project E op pg_type s models ≡ [])
  unfolding IsMatched
  matched_lem s [] matched = (refl, refl)
  matched_lem s (model ∷ models) matched =
      let (existing, adopted, match) = matched model (inl refl) in
      let rest = matched_lem s models (λ m there. matched m (inr there)) in
      (ground arith, ground arith)

  module _ (schema : IsPostgresSchema E) (apps : Apps) (models : List AppModel) (s : E.State)
      (planned : models_to_adopt project E op apps ≡ return models)
      (postgresql : E.vendor ≡ "postgresql") (typed : tenant_pg_type project ≡ return pg_type)
      (done : (adopt_forwards project E op apps s).0 ≡ return tt)
      (distinct : Distinct (db_tables models)) where
    adopt_forwards-IsMatched :
        (m : AppModel) → Among m models → IsMatched (adopt_forwards project E op apps s).1 m
    unfolding IsMatched
    adopt_forwards-IsMatched m there =
        let s' = (adopt_forwards project E op apps s).1 in
        let reads = schema.column_type_reads s' m.db_table in
        elim (Option-cases (E.column_type s m.db_table "tenant_id")) [
          | inl unadopted ↦
              let isolated =
                adopt_forwards-IsIsolated project E op schema apps models pg_type s planned
                  postgresql typed done distinct m there unadopted in
              (
                pg_type,
                reads ∙ ap (map_option {A = TenantColumn} {B = String} (λ c. c.pg_type)) isolated.0,
                pg_types_match_refl pg_type,
              )
          | inr (existing, adopted) ↦
              let same =
                tables_after project E op schema apps models pg_type s planned postgresql typed done
                  m.db_table
                ∙ after_all-outside project E op (plans_of project E op pg_type s models) m.db_table
                    (E.table s m.db_table)
                    (contains-plans_adopted s models m existing distinct there adopted) in
              let passed =
                all-Among project E op (passes project E op pg_type s) models m
                  (all_pass project E op schema apps models pg_type s planned postgresql typed done)
                  there in
              (
                existing,
                reads
                    ∙ ap
                        (λ t.
                          map_option {A = TenantColumn} {B = String} (λ c. c.pg_type) t.tenant_id)
                        same
                    ∙ sym (schema.column_type_reads s m.db_table)
                    ∙ adopted,
                ground arith,
              )
        ]

    -- An adoption that has returned, on a PostgreSQL alias with models to adopt, whose tables
    -- differ, and a tenant key of a mapped type, returns a second time and leaves the database as it
    -- is.
    pub adopt_forwards_twice :
        adopt_forwards project E op apps (adopt_forwards project E op apps s).1
        ≡ (return tt, (adopt_forwards project E op apps s).1)
    unfolding apply_plans
    adopt_forwards_twice =
        let s' = (adopt_forwards project E op apps s).1 in
        let (passed, nothing) = matched_lem s' models adopt_forwards-IsMatched in
        adopt_forwards-eq project E op apps models pg_type s' planned postgresql typed
        ∙ rw passed (ap (λ plans. apply_plans project E op pg_type plans s') nothing)
