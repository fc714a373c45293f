-- ===== src/Migrations/Adopt/Plans.antt =====
-- migrations_ops.py: the plans that the validation makes, and the statements that they become.
use django_boundary.Prelude.{
  ℕ, String, inl, inr, refl, List, [], ◌∷◌, ◌++◌, arith, ◌==◌, string_eq, nat_eq, if◌then◌else◌,
  Bool-cases, Option-cases, ◌≡◌, true,
}
use django_boundary.Migrations.Schema.{IsPostgresSchema, is_certain}
use django_boundary.Migrations.Schema.Effects.{IsEffect, all-IsEffect, and_next-IsEffect}
use django_boundary.Prelude.Lists.{all, length}
use django_boundary.Migrations.Policies.{create_tenant_policies, create_tenant_id_helper}
use django_boundary.Adoption.{Project}
use django_boundary.Migrations.{
  Editor, Statement, add_tenant_column, add_nullable_tenant_column, backfill_tenant_id,
  set_not_null, set_default,
}
use django_boundary.Migrations.Adopt.{
  add_column, check_backfill, adopt_table, adopt_tables, apply_plans, unique_rewrites, securing,
  backfill_parameter,
}
use django_boundary.Migrations.Validate.{AdoptTenantApp, AdoptionPlan}

module _ (project : Project) (E : Editor) (op : AdoptTenantApp) where
  abbrev pub column_statements : AdoptionPlan → List Statement
  column_statements plan =
      if plan.existing_rows == 0
      then add_tenant_column plan.table plan.pg_type ∷ []
      else add_nullable_tenant_column plan.table plan.pg_type
        ∷ backfill_tenant_id plan.table (backfill_parameter project E op)
        ∷ set_not_null plan.table
        ∷ set_default plan.table
        ∷ []

  abbrev pub plan_statements : AdoptionPlan → List Statement
  plan_statements plan =
      column_statements plan
      ++ (unique_rewrites E plan.table plan.rewrites ++ securing project E op plan.table)

  abbrev pub all_statements : List AdoptionPlan → List Statement
  all_statements [] = []
  all_statements (plan ∷ plans) = plan_statements plan ++ all_statements plans

  -- The number of rows of each plan is that of its table.
  abbrev pub AreCounted : (rows : String → ℕ) → List AdoptionPlan → Type 0
  AreCounted rows [] = Unit
  AreCounted rows (plan ∷ plans) = (plan.existing_rows ≡ rows plan.table) × AreCounted rows plans

  rewrites-certain :
      (table : String) (rewrites : List (String × List String))
      → all is_certain (unique_rewrites E table rewrites) ≡ true
  unfolding unique_rewrites
  rewrites-certain table [] = refl
  rewrites-certain table ((name, columns) ∷ rewrites) =
      ground (arith, rewrites-certain table rewrites)

  securing-certain : (table : String) → all is_certain (securing project E op table) ≡ true
  unfolding create_tenant_policies
  securing-certain table = refl

  module _ (schema : IsPostgresSchema E) (rows : String → ℕ) where
    -- The guard lets the UPDATE pass only where it was every row of the table.
    backfill-IsEffect :
        (table : String) (existing_rows : ℕ)
        → existing_rows ≡ rows table
        → IsEffect E rows
            (λ s.
              check_backfill project E op table existing_rows
                (E.execute (backfill_tenant_id table (backfill_parameter project E op)) s))
            (backfill_tenant_id table (backfill_parameter project E op) ∷ [])
    unfolding check_backfill
    backfill-IsEffect table existing_rows counted = record {
      effect = λ s has done t.
          let statement = backfill_tenant_id table (backfill_parameter project E op) in
          elim (Option-cases (E.execute statement s).0) [
            | inl raised ↦ absurd (ground arith)
            | inr (n, ran) ↦
                let updated : n ≡ existing_rows = ground (arith, ran, done) in
                let whole : (n == length (E.table s table).rows) ≡ true =
                  ground (arith, updated, counted, has table) in
                grind (arith, ran, updated, schema.changes statement s n t ran whole)
          ];
    }

    pub add_column-IsEffect :
        (plan : AdoptionPlan)
        → plan.existing_rows ≡ rows plan.table
        → IsEffect E rows
            (add_column project E op plan.table plan.pg_type plan.existing_rows)
            (column_statements plan)
    unfolding add_column
    add_column-IsEffect plan counted = elim (Bool-cases (plan.existing_rows == 0)) [
      | inl no_rows ↦
          rw no_rows
            (all-IsEffect E schema rows (add_tenant_column plan.table plan.pg_type ∷ []) refl)
      | inr some_rows ↦ rw some_rows (
          and_next-IsEffect
            (all-IsEffect E schema rows (add_nullable_tenant_column plan.table plan.pg_type ∷ [])
              refl)
            (and_next-IsEffect (backfill-IsEffect plan.table plan.existing_rows counted) (
              all-IsEffect E schema rows (set_not_null plan.table ∷ set_default plan.table ∷ [])
                refl)))
    ]

    pub adopt_table-IsEffect :
        (plan : AdoptionPlan)
        → plan.existing_rows ≡ rows plan.table
        → IsEffect E rows (adopt_table project E op plan) (plan_statements plan)
    unfolding adopt_table
    adopt_table-IsEffect plan counted = and_next-IsEffect (add_column-IsEffect plan counted) (
        and_next-IsEffect
          (all-IsEffect E schema rows (unique_rewrites E plan.table plan.rewrites)
            (rewrites-certain plan.table plan.rewrites))
          (all-IsEffect E schema rows (securing project E op plan.table)
            (securing-certain plan.table)))

    adopt_tables-IsEffect :
        (plans : List AdoptionPlan)
        → AreCounted rows plans
        → IsEffect E rows (adopt_tables project E op plans) (all_statements plans)
    unfolding adopt_tables
    adopt_tables-IsEffect [] _ = record { effect = λ s has done t. refl }
    adopt_tables-IsEffect (plan ∷ plans) (counted, all_counted) = record {
      effect = λ s has done t.
          (and_next-IsEffect (adopt_table-IsEffect plan counted)
              (adopt_tables-IsEffect plans all_counted)).effect
            s has done t;
    }

    -- The statements of the plans, if they all return, have their effects one after the other.
    pub apply_plans-IsEffect :
        (pg_type : String) (plans : List AdoptionPlan)
        → AreCounted rows plans
        → IsEffect E rows (apply_plans project E op pg_type plans) (all_statements plans)
    unfolding apply_plans create_tenant_id_helper
    apply_plans-IsEffect pg_type [] _ = record { effect = λ s has done t. refl }
    apply_plans-IsEffect pg_type (plan ∷ plans) counted = record {
      effect = λ s has done t.
          (and_next-IsEffect
              (all-IsEffect E schema rows (create_tenant_id_helper project.settings pg_type ∷ [])
                refl)
              (adopt_tables-IsEffect (plan ∷ plans) counted)).effect
            s has done t;
    }
