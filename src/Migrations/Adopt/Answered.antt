-- ===== src/Migrations/Adopt/Answered.antt =====
-- migrations_ops.py: the steps of the adoption of a table return, or the database has raised.
use django_boundary.Prelude.{
  ℕ, String, ◌≡◌, ◌⊎◌, inl, inr, refl, sym, ap, ◌∙◌, true, false, some, List, [], ◌∷◌, arith, ◌==◌,
  string_eq, nat_eq, Bool-cases, Option-cases, length,
}
use django_boundary.Runtime.{return, raise, database_error}
use django_boundary.Adoption.{Project}
use django_boundary.Migrations.{
  Editor, Statement, Step, and_next, execute_all, backfill_tenant_id, add_tenant_column,
  add_nullable_tenant_column, set_not_null, set_default,
}
use django_boundary.Migrations.Schema.{IsPostgresSchema, execute_all-after_all}
use django_boundary.Migrations.Schema.Effects.{HasRows, HasRows-after_all}
use django_boundary.Migrations.Validate.{AdoptTenantApp, AdoptionPlan}
use django_boundary.Migrations.Adopt.{
  add_column, check_backfill, adopt_table, unique_rewrites, securing, backfill_parameter,
}

-- The count that an UPDATE of a table without row-level security returns is that of all its rows.
pub record CountsRows (E : Editor) : Type 0 where
  pub updates :
      (table tenant : String) (s : E.State) (n : ℕ)
      → (E.table s table).rls ≡ false
      → (E.execute (backfill_tenant_id table tenant) s).0 ≡ some n
      → n ≡ length (E.table s table).rows

module _ (E : Editor) where
  -- The step returns, or the database has raised.
  abbrev pub IsAnswered : Step E.State Unit → E.State → Type 0
  IsAnswered m s = ((m s).0 ≡ return tt) ⊎ ((m s).0 ≡ raise database_error)

  pub execute_all-IsAnswered :
      (statements : List Statement) (s : E.State) → IsAnswered (execute_all E statements) s
  unfolding execute_all
  execute_all-IsAnswered [] s = inl refl
  execute_all-IsAnswered (statement ∷ statements) s =
      elim (Option-cases (E.execute statement s).0) [
        | inl raised ↦ inr (ground arith)
        | inr (n, ran) ↦ elim (execute_all-IsAnswered statements (E.execute statement s).1) [
          | inl returned ↦ inl (ground arith)
          | inr raised ↦ inr (ground arith)
        ]
      ]

  pub and_next-IsAnswered :
      (m n : Step E.State Unit) (s : E.State)
      → IsAnswered m s
      → ((m s).0 ≡ return tt → IsAnswered n (m s).1)
      → IsAnswered (and_next m n) s
  and_next-IsAnswered m n s (inr raised) next = inr (ground arith)
  and_next-IsAnswered m n s (inl returned) next = elim (next returned) [
    | inl both ↦ inl (ground arith)
    | inr raised ↦ inr (ground arith)
  ]

module _ (project : Project) (E : Editor) (op : AdoptTenantApp) (schema : IsPostgresSchema E)
    (counting : CountsRows E) where
  -- Without row-level security the UPDATE meets every row, and the guard lets it pass.
  backfill-IsAnswered :
      (table : String) (existing_rows : ℕ) (s : E.State)
      → (E.table s table).rls ≡ false
      → length (E.table s table).rows ≡ existing_rows
      → IsAnswered E
          (λ s'.
            check_backfill project E op table existing_rows
              (E.execute (backfill_tenant_id table (backfill_parameter project E op)) s'))
          s
  unfolding check_backfill
  backfill-IsAnswered table existing_rows s off counted =
      let tenant = backfill_parameter project E op in
      elim (Option-cases (E.execute (backfill_tenant_id table tenant) s).0) [
        | inl raised ↦ inr (ground arith)
        | inr (n, ran) ↦
            let all_rows : n ≡ existing_rows =
              counting.updates table tenant s n off ran ∙ counted in
            inl (ground (arith, ran, all_rows))
      ]

  add_column-IsAnswered :
      (rows : String → ℕ) (plan : AdoptionPlan) (s : E.State)
      → HasRows E rows s
      → plan.existing_rows ≡ rows plan.table
      → (E.table s plan.table).rls ≡ false
      → IsAnswered E (add_column project E op plan.table plan.pg_type plan.existing_rows) s
  unfolding add_column
  add_column-IsAnswered rows plan s has counted off =
      let table = plan.table in
      let adding = add_nullable_tenant_column table plan.pg_type ∷ [] in
      let settled = set_not_null table ∷ set_default table ∷ [] in
      let s' = (execute_all E adding s).1 in
      elim (Bool-cases (plan.existing_rows == 0)) [
        | inl no_rows ↦
            rw no_rows (execute_all-IsAnswered E (add_tenant_column table plan.pg_type ∷ []) s)
        | inr some_rows ↦ rw some_rows (
            and_next-IsAnswered E (execute_all E adding)
              (and_next
                (λ s₁.
                  check_backfill project E op table plan.existing_rows
                    (E.execute (backfill_tenant_id table (backfill_parameter project E op)) s₁))
                (execute_all E settled))
              s (execute_all-IsAnswered E adding s)
              (λ added.
                let after = execute_all-after_all E schema adding s refl added in
                let own : (table == table) ≡ true = ground arith in
                let still_off : (E.table s' table).rls ≡ false =
                  ap (λ t. t.rls) (after table) ∙ rw own off in
                let as_many : length (E.table s' table).rows ≡ plan.existing_rows =
                  HasRows-after_all E rows adding s s' has after table ∙ sym counted in
                and_next-IsAnswered E
                  (λ s₁.
                    check_backfill project E op table plan.existing_rows
                      (E.execute (backfill_tenant_id table (backfill_parameter project E op)) s₁))
                  (execute_all E settled) s'
                  (backfill-IsAnswered table plan.existing_rows s' still_off as_many)
                  (λ _. execute_all-IsAnswered E settled _)))
      ]

  pub adopt_table-IsAnswered :
      (rows : String → ℕ) (plan : AdoptionPlan) (s : E.State)
      → HasRows E rows s
      → plan.existing_rows ≡ rows plan.table
      → (E.table s plan.table).rls ≡ false
      → IsAnswered E (adopt_table project E op plan) s
  unfolding adopt_table
  adopt_table-IsAnswered rows plan s has counted off =
      let column = add_column project E op plan.table plan.pg_type plan.existing_rows in
      let rewriting = execute_all E (unique_rewrites E plan.table plan.rewrites) in
      let secure = execute_all E (securing project E op plan.table) in
      and_next-IsAnswered E column (and_next rewriting secure) s
        (add_column-IsAnswered rows plan s has counted off)
        (λ _.
          let s' = (column s).1 in
          and_next-IsAnswered E rewriting secure s'
            (execute_all-IsAnswered E (unique_rewrites E plan.table plan.rewrites) s')
            (λ _. execute_all-IsAnswered E (securing project E op plan.table) (rewriting s').1))
