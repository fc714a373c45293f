-- ===== src/Migrations.antt =====
-- migrations_ops.py: the statements of the row-level-security migrations, and the schema editor that
-- runs them, which is Django's and PostgreSQL's: an interface over an unknown state.
pub mod Sql
pub mod Names
pub mod Schema
pub mod Policies
pub mod Validate
pub mod Adopt
pub mod Unadopt
use django_boundary.Prelude.{
  ℕ, zero, suc, ◌+◌, ◌≤◌, String, ◌<>◌, ◌≡◌, ◌≢◌, ◌↔◌, ◌⊎◌, inl, inr, refl, sym, ap, ◌∙◌, Bool,
  true, false, not, ◌&&◌, ◌||◌, Option, none, some, List, [], ◌∷◌, ◌++◌, map, arith, ◌==◌,
  string_eq, nat_eq, if◌then◌else◌, Bool-cases, Option-cases, leb, contains, length, Distinct,
  Among, Among-append,
}
use django_boundary.Runtime.{Result, return, raise, database_error}
use django_boundary.Adoption.{AppModel, Column}

-- The statements that the operations issue; `Sql.sql` is their text.
pub data Statement : Type 0 where
  create_tenant_id_function : (pg_type session_var : String) (leakproof : Bool) → Statement
  enable_rls force_rls disable_rls no_force_rls : (table : String) → Statement
  create_isolation_policy : (table tenant_column : String) → Statement
  create_bypass_policy : (table admin_flag : String) → Statement
  drop_policy : (table policy : String) → Statement
  add_tenant_column add_nullable_tenant_column : (table pg_type : String) → Statement
  backfill_tenant_id : (table tenant : String) → Statement
  set_not_null set_default drop_tenant_column : (table : String) → Statement
  drop_constraint : (table name : String) → Statement
  add_unique : (table name : String) (columns : List String) → Statement

-- A row of `adoption.unique_constraints`, and one of `adoption.unique_indexes`
pub record UniqueConstraint : Type 0 where
  pub name : String
  pub columns : List String
  pub deferrable : Bool
  pub fk_targeted : Bool

pub record UniqueIndex : Type 0 where
  pub name : String
  pub columns : List String
  pub primary : Bool
  pub constraint : Option String
  pub partial : Bool
  pub expression : Bool

pub data Policy : Type 0 where
  isolates : (tenant_column : String) → Policy
  bypasses : (admin_flag : String) → Policy

pub record TenantColumn : Type 0 where
  pub pg_type : String
  pub nullable : Bool
  -- the default is `boundary_current_tenant_id()`
  pub defaulted : Bool

-- What a table is in the database: its column `tenant_id`, the tenant of each of its rows, its
-- unique constraints but the primary key, and its row-level security.
pub record Table : Type 0 where
  pub tenant_id : Option TenantColumn
  pub rows : List (Option String)
  pub unique_constraints : List (String × List String)
  pub rls : Bool
  pub forced : Bool
  pub policies : List (String × Policy)

pub record Editor : Type 1 where
  pub State : Type 0
  -- `schema_editor.connection`
  pub alias : String
  pub vendor : String
  -- a statement run: the number of its rows, or `none` where it raised
  pub execute : Statement → State → Option ℕ × State
  -- the catalogue queries of adoption.py, and its count of the rows
  pub column_type : State → (table column : String) → Option String
  pub row_count : State → (table : String) → ℕ
  pub unique_constraints : State → (table : String) → List UniqueConstraint
  pub unique_indexes : State → (table : String) → List UniqueIndex
  -- `router.allow_migrate_model`
  pub allow_migrate_model : (alias : String) → AppModel → Bool
  -- Django's `_create_index_name`, and `_create_unique_sql` without a name, which may return `None`
  pub create_index_name : (table : String) (columns : List String) (suffix : String) → String
  pub create_unique_sql : AppModel → List Column → Option Statement
  -- what `boundary_current_tenant_id()` returns in the session of the migration
  pub current_tenant : Option String
  -- what the database holds
  pub table : State → String → Table

-- What was done before an exception stays done.
abbrev pub Step : Type 0 → Type 0 → Type 0
Step S A = S → Result A × S

module _ {S A B : Type 0} where
  abbrev pub continue_with : Result A → (A → Step S B) → Step S B
  continue_with (return a) f s = f a s
  continue_with (raise e) f s = (raise e, s)

  infixl 5 ◌>>=◌
  abbrev pub ◌>>=◌ : Step S A → (A → Step S B) → Step S B
  m >>= f = λ s. let (r, s') = m s in continue_with r f s'

  -- One after the other
  abbrev pub and_next : Step S A → Step S B → Step S B
  and_next m n = m >>= (λ _. n)

module _ (E : Editor) where
  abbrev executed : Option ℕ → E.State → Result Unit × E.State
  executed none s = (raise database_error, s)
  executed (some _) s = (return tt, s)

  abbrev pub execute : Statement → Step E.State Unit
  execute statement s = let (rows, s') = E.execute statement s in executed rows s'

  -- Statements issued in a row
  unfoldable pub execute_all : List Statement → Step E.State Unit
  execute_all [] s = (return tt, s)
  execute_all (statement ∷ statements) s =
      let (rows, s') = E.execute statement s in
      let rest = execute_all statements s' in
      elim rows [ none ↦ (raise database_error, s') | some _ ↦ rest ]
