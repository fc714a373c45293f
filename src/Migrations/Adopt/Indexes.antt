-- ===== src/Migrations/Adopt/Indexes.antt =====
-- migrations_ops.py: an adoption keeps what every statement keeps.
use django_boundary.Prelude.{
  ℕ, String, ◌≡◌, inl, inr, sym, List, [], ◌∷◌, arith, ◌==◌, string_eq, nat_eq, Bool-cases,
  Option-cases,
}
use django_boundary.Adoption.{Project}
use django_boundary.Migrations.{
  Editor, backfill_tenant_id, add_tenant_column, add_nullable_tenant_column, set_not_null,
  set_default,
}
use django_boundary.Migrations.Schema.Keeps.{
  StatementsKeep, Keeps, execute_all-Keeps, and_next-Keeps,
}
use mathlib.Core.Path.{subst}
use django_boundary.Migrations.Policies.{create_tenant_id_helper}
use django_boundary.Migrations.Validate.{AdoptTenantApp, AdoptionPlan}
use django_boundary.Migrations.Adopt.{
  check_backfill, add_column, adopt_table, adopt_tables, apply_plans, unique_rewrites, securing,
  backfill_parameter,
}

module _ (project : Project) (E : Editor) (op : AdoptTenantApp) (P : E.State → Type 0)
    (statements_keep : StatementsKeep E P) where
  backfill-Keeps :
      (table : String) (existing_rows : ℕ)
      → Keeps E P (λ s.
        check_backfill project E op table existing_rows
          (E.execute (backfill_tenant_id table (backfill_parameter project E op)) s))
  unfolding check_backfill
  backfill-Keeps table existing_rows = record {
    keeps = λ s holds done.
        let statement = backfill_tenant_id table (backfill_parameter project E op) in
        elim (Option-cases (E.execute statement s).0) [
          | inl raised ↦ absurd (ground arith)
          | inr (n, ran) ↦
              let s' = (E.execute statement s).1 in
              let same : (check_backfill project E op table existing_rows (E.execute statement s)).1
                  ≡ s' =
                ground arith in
              subst P (sym same) (statements_keep.kept statement s n holds ran)
        ];
  }

  add_column-Keeps :
      (table pg_type : String) (existing_rows : ℕ)
      → Keeps E P (add_column project E op table pg_type existing_rows)
  unfolding add_column
  add_column-Keeps table pg_type existing_rows = elim (Bool-cases (existing_rows == 0)) [
    | inl no_rows ↦
        rw no_rows (execute_all-Keeps statements_keep (add_tenant_column table pg_type ∷ []))
    | inr rows ↦ rw rows (
        and_next-Keeps
          (execute_all-Keeps statements_keep (add_nullable_tenant_column table pg_type ∷ []))
          (and_next-Keeps (backfill-Keeps table existing_rows)
            (execute_all-Keeps statements_keep (set_not_null table ∷ set_default table ∷ []))))
  ]

  adopt_table-Keeps : (plan : AdoptionPlan) → Keeps E P (adopt_table project E op plan)
  unfolding adopt_table
  adopt_table-Keeps plan =
      and_next-Keeps (add_column-Keeps plan.table plan.pg_type plan.existing_rows) (
        and_next-Keeps
          (execute_all-Keeps statements_keep (unique_rewrites E plan.table plan.rewrites))
          (execute_all-Keeps statements_keep (securing project E op plan.table)))

  adopt_tables-Keeps : (plans : List AdoptionPlan) → Keeps E P (adopt_tables project E op plans)
  unfolding adopt_tables
  adopt_tables-Keeps [] = record { keeps = λ s holds done. holds }
  adopt_tables-Keeps (plan ∷ plans) = record {
    keeps = (and_next-Keeps (adopt_table-Keeps plan) (adopt_tables-Keeps plans)).keeps;
  }

  pub apply_plans-Keeps :
      (pg_type : String) (plans : List AdoptionPlan)
      → Keeps E P (apply_plans project E op pg_type plans)
  unfolding apply_plans create_tenant_id_helper
  apply_plans-Keeps pg_type [] = record { keeps = λ s holds done. holds }
  apply_plans-Keeps pg_type (plan ∷ plans) = record {
    keeps =
        (and_next-Keeps
          (execute_all-Keeps statements_keep
            (create_tenant_id_helper project.settings pg_type ∷ []))
          (adopt_tables-Keeps (plan ∷ plans))).keeps;
  }
