-- ===== src/Migrations/Schema.antt =====
-- The documented effect of the statements on a table, and the interface of a PostgreSQL database.
pub mod Effects
pub mod Keeps
use django_boundary.Prelude.Lists.{all, Among}
use django_boundary.Prelude.{
  ◌↔◌, ℕ, String, ◌≡◌, inl, inr, refl, sym, ap, ◌∙◌, Bool, true, false, Option, none, some, List,
  [], ◌∷◌, ◌++◌, map, arith, ◌==◌, string_eq, nat_eq, if◌then◌else◌, Option-cases, contains, length,
}
use django_boundary.Runtime.{Result-cases, return}
use django_boundary.Migrations.{
  Step, continue_with, Statement, create_tenant_id_function, create_isolation_policy,
  create_bypass_policy, enable_rls, force_rls, disable_rls, no_force_rls, drop_policy,
  add_tenant_column, add_nullable_tenant_column, backfill_tenant_id, set_not_null, set_default,
  drop_tenant_column, drop_constraint, add_unique, Table, TenantColumn, isolates, bypasses, Editor,
  UniqueConstraint, execute_all, and_next,
}
use django_boundary.Prelude.Dict.{erase}

abbrev pub map_option : {A B : Type 0} → (A → B) → Option A → Option B
map_option f none = none
map_option f (some a) = some (f a)

abbrev pub stamp_all : Option String → List (Option String) → List (Option String)
stamp_all tenant rows = map (λ _. tenant) rows

-- The table that a statement alters.
abbrev pub concerns : Statement → String → Bool
concerns (create_tenant_id_function _ _ _) t = false
concerns (enable_rls table) t = t == table
concerns (force_rls table) t = t == table
concerns (disable_rls table) t = t == table
concerns (no_force_rls table) t = t == table
concerns (create_isolation_policy table _) t = t == table
concerns (create_bypass_policy table _) t = t == table
concerns (drop_policy table _) t = t == table
concerns (add_tenant_column table _) t = t == table
concerns (add_nullable_tenant_column table _) t = t == table
concerns (backfill_tenant_id table _) t = t == table
concerns (set_not_null table) t = t == table
concerns (set_default table) t = t == table
concerns (drop_tenant_column table) t = t == table
concerns (drop_constraint table _) t = t == table
concerns (add_unique table _ _) t = t == table

-- A column that is dropped takes with it the constraints that mention it.
abbrev pub without_column : List (String × List String) → List (String × List String)
without_column [] = []
without_column ((name, columns) ∷ constraints) =
    let rest = without_column constraints in
    if contains columns "tenant_id" then rest else (name, columns) ∷ rest

-- What a statement that returns makes of its table, where the session's tenant is `default`.
abbrev pub changed : (default : Option String) → Statement → Table → Table
changed default (create_tenant_id_function _ _ _) t = t
changed default (enable_rls _) t = record t { rls = true }
changed default (force_rls _) t = record t { forced = true }
changed default (disable_rls _) t = record t { rls = false }
changed default (no_force_rls _) t = record t { forced = false }
changed default (create_isolation_policy _ tenant_column) t = record t {
  policies = t.policies ++ ("boundary_tenant_isolation", isolates tenant_column) ∷ [];
}
changed default (create_bypass_policy _ admin_flag) t = record t {
  policies = t.policies ++ ("boundary_admin_bypass", bypasses admin_flag) ∷ [];
}
changed default (drop_policy _ policy) t = record t { policies = erase policy t.policies }
changed default (add_tenant_column _ ty) t = record t {
  tenant_id = some (record { pg_type = ty; nullable = false; defaulted = true });
  rows = stamp_all default t.rows;
}
changed default (add_nullable_tenant_column _ ty) t = record t {
  tenant_id = some (record { pg_type = ty; nullable = true; defaulted = false });
  rows = stamp_all none t.rows;
}
changed default (backfill_tenant_id _ tenant) t = record t { rows = stamp_all (some tenant) t.rows }
changed default (set_not_null _) t = record t {
  tenant_id =
      map_option {A = TenantColumn} {B = TenantColumn} (λ c. record c { nullable = false })
        t.tenant_id;
}
changed default (set_default _) t = record t {
  tenant_id =
      map_option {A = TenantColumn} {B = TenantColumn} (λ c. record c { defaulted = true })
        t.tenant_id;
}
changed default (drop_tenant_column _) t = record t {
  tenant_id = none;
  rows = stamp_all none t.rows;
  unique_constraints = without_column t.unique_constraints;
}
changed default (drop_constraint _ name) t = record t {
  unique_constraints = erase name t.unique_constraints;
}
changed default (add_unique _ name columns) t = record t {
  unique_constraints = t.unique_constraints ++ (name, columns) ∷ [];
}

abbrev pub after_one : (default : Option String) → Statement → String → Table → Table
after_one default statement t table =
    if concerns statement t then changed default statement table else table

abbrev pub after_all : (default : Option String) → List Statement → String → Table → Table
after_all default [] t table = table
after_all default (statement ∷ statements) t table =
    after_all default statements t (after_one default statement t table)

abbrev pub columns_of : UniqueConstraint → String × List String
columns_of constraint = (constraint.name, constraint.columns)

-- The UPDATE says nothing of the rows that it does not see; the others do what they say.
abbrev pub is_certain : Statement → Bool
is_certain (backfill_tenant_id _ _) = false
is_certain _ = true

-- The UPDATE has no condition: where it reports as many rows as the table has, it was every row.
abbrev pub is_whole : (n : ℕ) → Statement → (String → Table) → Bool
is_whole n (backfill_tenant_id table _) tables = n == length (tables table).rows
is_whole n _ tables = true

-- PostgreSQL's documented behaviour: a statement that returns, the UPDATE having seen every row, has
-- changed its own table in the way that it says and no other; and the catalogue answers from the tables,
-- in an order of its own.
pub record IsPostgresSchema (E : Editor) : Type 0 where
  pub changes :
      (statement : Statement) (s : E.State) (n : ℕ) (t : String)
      → (E.execute statement s).0 ≡ some n
      → is_whole n statement (E.table s) ≡ true
      → E.table (E.execute statement s).1 t ≡ after_one E.current_tenant statement t (E.table s t)
  pub column_type_reads :
      (s : E.State) (t : String)
      → E.column_type s t "tenant_id" ≡ map_option (λ c. c.pg_type) (E.table s t).tenant_id
  pub row_count_reads : (s : E.State) (t : String) → E.row_count s t ≡ length (E.table s t).rows
  pub unique_constraints_reads :
      (s : E.State) (t : String) (constraint : String × List String)
      → Among constraint (map columns_of (E.unique_constraints s t))
        ↔ Among constraint (E.table s t).unique_constraints

certain-is_whole :
    (n : ℕ) (statement : Statement) (tables : String → Table)
    → is_certain statement ≡ true
    → is_whole n statement tables ≡ true
certain-is_whole n (backfill_tenant_id _ _) tables h = absurd (ground (arith, h))
certain-is_whole n (create_tenant_id_function _ _ _) tables h = refl
certain-is_whole n (enable_rls _) tables h = refl
certain-is_whole n (force_rls _) tables h = refl
certain-is_whole n (disable_rls _) tables h = refl
certain-is_whole n (no_force_rls _) tables h = refl
certain-is_whole n (create_isolation_policy _ _) tables h = refl
certain-is_whole n (create_bypass_policy _ _) tables h = refl
certain-is_whole n (drop_policy _ _) tables h = refl
certain-is_whole n (add_tenant_column _ _) tables h = refl
certain-is_whole n (add_nullable_tenant_column _ _) tables h = refl
certain-is_whole n (set_not_null _) tables h = refl
certain-is_whole n (set_default _) tables h = refl
certain-is_whole n (drop_tenant_column _) tables h = refl
certain-is_whole n (drop_constraint _ _) tables h = refl
certain-is_whole n (add_unique _ _ _) tables h = refl

-- Statements in a row that all return change the tables one after the other.
pub execute_all-after_all :
    (E : Editor) (schema : IsPostgresSchema E) (statements : List Statement) (s : E.State)
    → all is_certain statements ≡ true
    → (execute_all E statements s).0 ≡ return tt
    → (t : String)
    → E.table (execute_all E statements s).1 t
      ≡ after_all E.current_tenant statements t (E.table s t)
unfolding execute_all
execute_all-after_all E schema [] s certain done t = refl
execute_all-after_all E schema (statement ∷ statements) s certain done t =
    elim (Option-cases (E.execute statement s).0) [
      | inl raised ↦ absurd (ground arith)
      | inr (n, ran) ↦
          let s' = (E.execute statement s).1 in
          let rest : (execute_all E statements s').0 ≡ return tt = ground arith in
          grind (
            arith,
            schema.changes statement s n t ran
                (certain-is_whole n statement (E.table s) (ground (arith, certain))),
            execute_all-after_all E schema statements s' (ground (arith, certain)) rest t,
          )
    ]

pub execute_all-append :
    (E : Editor) (first second : List Statement) (s : E.State)
    → and_next (execute_all E first) (execute_all E second) s ≡ execute_all E (first ++ second) s
unfolding execute_all
execute_all-append E [] second s = refl
execute_all-append E (statement ∷ first) second s = elim (Option-cases (E.execute statement s).0) [
  | inl raised ↦ ground arith
  | inr (n, ran) ↦ ground (arith, execute_all-append E first second (E.execute statement s).1)
]

pub after_all-append :
    (default : Option String) (first second : List Statement) (t : String) (old : Table)
    → after_all default (first ++ second) t old
      ≡ after_all default second t (after_all default first t old)
after_all-append default [] second t old = refl
after_all-append default (statement ∷ first) second t old =
    after_all-append default first second t (after_one default statement t old)
