-- ===== src/Migrations/Unadopt/Removed.antt =====
-- migrations_ops.py: what an adoption backwards removes.
use django_boundary.Prelude.{
  String, ◌≡◌, inl, inr, refl, sym, ap, ◌∙◌, Bool, true, false, not, none, some, List, [], ◌∷◌,
  ◌++◌, arith, ◌==◌, string_eq, nat_eq, contains, Among, all, length, ℕ,
}
use django_boundary.Runtime.{Result-cases, return}
use django_boundary.Migrations.Names.{historical_unique_column_sets}
use django_boundary.Prelude.Dict.{lookup, erase, lookup-erase}
use django_boundary.Migrations.{
  drop_tenant_column, Policy, Table, add_unique, Editor, Statement, Step, execute_all, and_next,
}
use django_boundary.Migrations.Unadopt.{
  unadopt_table, restore_unique_constraints, unadopt_tables, unique_sql, restore_sets,
}
use django_boundary.Migrations.Policies.{disabling}
use django_boundary.Migrations.Schema.{
  without_column, after_one, after_all, after_all-append, IsPostgresSchema,
}
use django_boundary.Migrations.Schema.Effects.{all-IsEffect, and_next-IsEffect}
use mathlib.Core.Path.{subst}
use django_boundary.Adoption.{AppModel, Column}
use django_boundary.Migrations.Unadopt.Restoring.{
  restoring, restore_sets-IsEffect, after_all-restoring,
}

-- Where no table of the models has a column `tenant_id`, `database_backwards` issues no statement and returns.
unadopt_tables_unadopted :
    (E : Editor) (models : List AppModel) (s : E.State)
    → ((m : AppModel) → Among m models → E.column_type s m.db_table "tenant_id" ≡ none)
    → unadopt_tables E models s ≡ (return tt, s)
unfolding unadopt_tables unadopt_table
unadopt_tables_unadopted E [] s unadopted = refl
unadopt_tables_unadopted E (model ∷ models) s unadopted = ground (
  arith,
  unadopted model (inl refl),
  unadopt_tables_unadopted E models s (λ m there. unadopted m (inr there)),
)

abbrev pub lacks_tenant : String × List String → Bool
lacks_tenant constraint = not (contains constraint.1 "tenant_id")

without_column-lacks_tenant :
    (constraints : List (String × List String))
    → all lacks_tenant (without_column constraints) ≡ true
without_column-lacks_tenant [] = refl
without_column-lacks_tenant (c ∷ constraints) =
    ground (arith, without_column-lacks_tenant constraints)

abbrev pub IsTenantFree : Table → Type 0
IsTenantFree t =
    (t.tenant_id ≡ none)
    × (t.rls ≡ false)
    × (t.forced ≡ false)
    × (lookup "boundary_tenant_isolation" t.policies ≡ none)
    × (lookup "boundary_admin_bypass" t.policies ≡ none)
    × (all lacks_tenant t.unique_constraints ≡ true)

without_policies_lookup :
    (d : List (String × Policy))
    → (lookup "boundary_tenant_isolation"
          (erase "boundary_admin_bypass" (erase "boundary_tenant_isolation" d))
        ≡ none)
      × (lookup "boundary_admin_bypass"
            (erase "boundary_admin_bypass" (erase "boundary_tenant_isolation" d))
          ≡ none)
unfolding string_eq
without_policies_lookup d = (
  lookup-erase "boundary_tenant_isolation" "boundary_admin_bypass"
        (erase "boundary_tenant_isolation" d)
      ∙ lookup-erase "boundary_tenant_isolation" "boundary_tenant_isolation" d,
  lookup-erase "boundary_admin_bypass" "boundary_admin_bypass"
      (erase "boundary_tenant_isolation" d),
)

module _ (E : Editor) (schema : IsPostgresSchema E) (model : AppModel) where
  dropped-IsTenantFree :
      (old new : Table)
      → (new.rls ≡ (after_all E.current_tenant (disabling E model.db_table) model.db_table old).rls)
      → (new.forced
          ≡ (after_all E.current_tenant (disabling E model.db_table) model.db_table old).forced)
      → (new.policies
          ≡ (after_all E.current_tenant (disabling E model.db_table) model.db_table old).policies)
      → IsTenantFree
          (after_one E.current_tenant (drop_tenant_column model.db_table) model.db_table new)
  dropped-IsTenantFree old new rls forced policies =
      let own : (model.db_table == model.db_table) ≡ true = ground arith in
      let kept = without_policies_lookup old.policies in
      let left : new.policies
          ≡ erase "boundary_admin_bypass" (erase "boundary_tenant_isolation" old.policies) =
        policies ∙ rw own refl in
      rw own (
        refl,
        rls ∙ rw own refl,
        forced ∙ rw own refl,
        ap (lookup "boundary_tenant_isolation") left ∙ kept.0,
        ap (lookup "boundary_admin_bypass") left ∙ kept.1,
        without_column-lacks_tenant new.unique_constraints,
      )

  and_next_at :
      (m n n' : Step E.State Unit) (s : E.State)
      → n (m s).1 ≡ n' (m s).1
      → and_next m n s ≡ and_next m n' s
  and_next_at m n n' s e = elim (Result-cases (m s).0) [
    | inl (_, returned) ↦ ground arith
    | inr (_, raised) ↦ ground arith
  ]

  opened :
      (s : E.State) (existing : String)
      → E.column_type s model.db_table "tenant_id" ≡ some existing
      → unadopt_table E model s
        ≡ and_next
            (execute_all E (disabling E model.db_table))
            (and_next
              (restore_unique_constraints E model model.db_table)
              (execute_all E (drop_tenant_column model.db_table ∷ [])))
            s
  unfolding unadopt_table
  opened s existing adopted = ground arith

  -- Where taking back the adoption of a table that has the column returns, and Django's statements
  -- for the original constraints each add a unique constraint to that table, the table has no column
  -- `tenant_id`, no row-level security, neither policy, and no unique constraint that mentions the
  -- column.
  pub unadopt_table-IsTenantFree :
      (s : E.State) (existing : String)
      → E.column_type s model.db_table "tenant_id" ≡ some existing
      → ((columns : List Column) (statement : Statement)
          → unique_sql E model columns ≡ some statement
          → (name : String) × (names : List String) × (statement
              ≡ add_unique model.db_table name names))
      → (unadopt_table E model s).0 ≡ return tt
      → IsTenantFree (E.table (unadopt_table E model s).1 model.db_table)
  unfolding unadopt_table restore_unique_constraints
  unadopt_table-IsTenantFree s existing adopted adds done =
      let table = model.db_table in
      let first = disabling E table in
      let live = E.unique_constraints (execute_all E first s).1 table in
      let sets = historical_unique_column_sets model in
      let second = restoring E model table live sets in
      let last = drop_tenant_column table ∷ [] in
      let rest = and_next (restore_sets E model table live sets) (execute_all E last) in
      let same : unadopt_table E model s ≡ and_next (execute_all E first) rest s =
        opened s existing adopted
        ∙ and_next_at (execute_all E first)
            (and_next (restore_unique_constraints E model table) (execute_all E last)) rest s
            refl in
      let rows : String → ℕ = λ t. length (E.table s t).rows in
      let effect = and_next-IsEffect (all-IsEffect E schema rows first refl) (
        and_next-IsEffect (restore_sets-IsEffect E model table live adds schema rows sets)
          (all-IsEffect E schema rows last refl)) in
      let old = after_all E.current_tenant first table (E.table s table) in
      let new = after_all E.current_tenant second table old in
      let reached : E.table (unadopt_table E model s).1 table
          ≡ after_one E.current_tenant (drop_tenant_column table) table new =
        ap (λ r. E.table r.1 table) same
        ∙ effect.effect s (λ t. refl) (sym (ap (λ r. r.0) same) ∙ done) table
        ∙ after_all-append E.current_tenant first (second ++ last) table (E.table s table)
        ∙ after_all-append E.current_tenant second last table old in
      let (rls, forced, policies) = after_all-restoring E model table live adds table sets old in
      subst IsTenantFree (sym reached)
        (dropped-IsTenantFree (E.table s table) new rls forced policies)
