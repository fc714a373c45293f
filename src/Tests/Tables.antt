-- ===== src/Tests/Tables.antt =====
-- A database of tables in memory, on which the interface of the schema editor can hold.
use mathlib.Core.Path.{subst}
use django_boundary.Prelude.Lists.{Among}
use mathlib.Core.Option.{none-ne-some, some-injective}
use django_boundary.Prelude.{
  ℕ, String, ◌≡◌, inl, inr, refl, sym, ap, ◌∙◌, Bool, true, false, not, Option, none, some, List,
  [], ◌∷◌, map, ◌==◌, string_eq, nat_eq, if◌then◌else◌, Bool-cases, length,
}
use django_boundary.Prelude.Dict.{has_key}
use django_boundary.Migrations.{
  Editor, Statement, Table, TenantColumn, UniqueConstraint, backfill_tenant_id, drop_constraint,
  add_unique,
}
use django_boundary.Migrations.Schema.{
  IsPostgresSchema, after_one, map_option, columns_of, is_whole,
}

abbrev pub Tables : Type 0
Tables = String → Table

-- Dropping a constraint that is not there raises. An UPDATE sees every row of a table without row-level
-- security, and none of another, since no session variable is set.
abbrev pub runs : Statement → Tables → Bool
runs (drop_constraint table name) tables = has_key name (tables table).unique_constraints
runs statement tables = true

abbrev pub rows_of : Statement → Tables → ℕ
rows_of (backfill_tenant_id table tenant) tables =
    if (tables table).rls then 0 else length (tables table).rows
rows_of statement tables = 0

abbrev pub constraint_of : String × List String → UniqueConstraint
constraint_of c = record { name = c.0; columns = c.1; deferrable = false; fk_targeted = false }

abbrev pub outcome : Bool → Statement → Tables → Option ℕ × Tables
outcome true statement tables =
    let n = rows_of statement tables in
    (
      some n,
      λ t. if is_whole n statement tables then after_one none statement t (tables t) else tables t,
    )
outcome false statement tables = (none, tables)

abbrev pub run_statement : Statement → Tables → Option ℕ × Tables
run_statement statement tables = outcome (runs statement tables) statement tables

-- A PostgreSQL alias that takes every model but those of an app `elsewhere`.
abbrev pub editor : Editor
editor = record {
  State = Tables;
  alias = "default";
  vendor = "postgresql";
  execute = run_statement;
  column_type = λ tables t column.
      if column == "tenant_id"
      then map_option {A = TenantColumn} {B = String} (λ c. c.pg_type) (tables t).tenant_id
      else none;
  row_count = λ tables t. length (tables t).rows;
  unique_constraints = λ tables t. map constraint_of (tables t).unique_constraints;
  unique_indexes = λ tables t. [];
  allow_migrate_model = λ alias model. not (model.app_label == "elsewhere");
  create_index_name = λ table columns suffix. "shortened_tenant";
  create_unique_sql = λ model columns.
      some (add_unique model.db_table "restored_uniq" (map (λ c. c.column) columns));
  current_tenant = none;
  table = λ tables t. tables t;
}

columns_of-constraint_of :
    (constraints : List (String × List String))
    → map columns_of (map constraint_of constraints) ≡ constraints
columns_of-constraint_of [] = refl
columns_of-constraint_of (c ∷ constraints) =
    ap (λ cs. c ∷ cs) (columns_of-constraint_of constraints)

run_statement-after_one :
    (statement : Statement) (tables : Tables) (n : ℕ) (t : String)
    → (run_statement statement tables).0 ≡ some n
    → is_whole n statement tables ≡ true
    → (run_statement statement tables).1 t ≡ after_one none statement t (tables t)
run_statement-after_one statement tables n t ran whole = elim (Bool-cases (runs statement tables)) [
  | inl can ↦
      let counted : n ≡ rows_of statement tables =
        sym (some-injective _ _ (sym (ap (λ b. (outcome b statement tables).0) can) ∙ ran)) in
      let all_rows : is_whole (rows_of statement tables) statement tables ≡ true =
        sym (ap (λ k. is_whole k statement tables) counted) ∙ whole in
      ap (λ b. (outcome b statement tables).1 t) can
      ∙ ap (λ b. if b then after_one none statement t (tables t) else tables t) all_rows
  | inr cannot ↦
      absurd (none-ne-some n (sym (ap (λ b. (outcome b statement tables).0) cannot) ∙ ran))
]

pub editor-IsPostgresSchema : IsPostgresSchema editor
unfolding string_eq
editor-IsPostgresSchema = record {
  changes = run_statement-after_one;
  column_type_reads = λ tables t. refl;
  row_count_reads = λ tables t. refl;
  unique_constraints_reads = λ tables t constraint.
      let same = columns_of-constraint_of (tables t).unique_constraints in
      (subst (Among constraint) same, subst (Among constraint) (sym same));
}
