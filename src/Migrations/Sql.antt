-- ===== src/Migrations/Sql.antt =====
-- migrations_ops.py: the texts of the statements, and the quoting of a text as a literal.
pub mod Literal
use django_boundary.Prelude.{
  String, ◌<>◌, Bool, false, Option, none, some, [], ◌∷◌, string_eq, nat_eq, if◌then◌else◌,
}
use Prim.Native.Char.{Char}
use Prim.Native.String.{[], ◌∷◌}
use django_boundary.Prelude.Text.{is_char, replace, join_quoted}
use django_boundary.Migrations.{
  Statement, create_tenant_id_function, create_isolation_policy, create_bypass_policy, enable_rls,
  force_rls, disable_rls, no_force_rls, drop_policy, add_tenant_column, add_nullable_tenant_column,
  backfill_tenant_id, set_not_null, set_default, drop_tenant_column, drop_constraint, add_unique,
}

unfoldable pub sql_string_literal : String → String
sql_string_literal value = "'" <> replace 39 "''" value <> "'"

-- `f'ALTER TABLE "{table}" …'`
abbrev alter_table : String → String → String
alter_table table rest = "ALTER TABLE \"" <> table <> "\" " <> rest

-- The text of a statement; that of the backfill takes the tenant as a parameter of the query.
pub sql : Statement → String
unfolding sql_string_literal join_quoted
sql (create_tenant_id_function pg_type session_var leakproof) =
    "\n            CREATE OR REPLACE FUNCTION boundary_current_tenant_id()\n            RETURNS "
    <> pg_type
    <> " AS $$\n            BEGIN\n                RETURN NULLIF(\n                    current_setting("
    <> sql_string_literal session_var
    <> ", true), ''\n                )::"
    <> pg_type
    <> ";\n            EXCEPTION WHEN OTHERS THEN\n                RETURN NULL;\n            END;\n            $$ LANGUAGE plpgsql STABLE"
    <> (if leakproof then " LEAKPROOF" else "")
    <> "\n        "
sql (enable_rls table) = alter_table table "ENABLE ROW LEVEL SECURITY"
sql (force_rls table) = alter_table table "FORCE ROW LEVEL SECURITY"
sql (disable_rls table) = alter_table table "DISABLE ROW LEVEL SECURITY"
sql (no_force_rls table) = alter_table table "NO FORCE ROW LEVEL SECURITY"
sql (create_isolation_policy table tenant_column) =
    "CREATE POLICY boundary_tenant_isolation ON \"" <> table <> "\" USING (" <> tenant_column
    <> " = boundary_current_tenant_id()) WITH CHECK (" <> tenant_column
    <> " = boundary_current_tenant_id())"
sql (create_bypass_policy table admin_flag) =
    "CREATE POLICY boundary_admin_bypass ON \""
    <> table
    <> "\" USING (current_setting("
    <> sql_string_literal admin_flag
    <> ", TRUE) = 'true')"
sql (drop_policy table policy) = "DROP POLICY IF EXISTS " <> policy <> " ON \"" <> table <> "\""
sql (add_tenant_column table pg_type) =
    alter_table table
      ("ADD COLUMN tenant_id " <> pg_type <> " NOT NULL DEFAULT boundary_current_tenant_id()")
sql (add_nullable_tenant_column table pg_type) =
    alter_table table ("ADD COLUMN tenant_id " <> pg_type <> " NULL")
sql (backfill_tenant_id table tenant) = "UPDATE \"" <> table <> "\" SET tenant_id = %s"
sql (set_not_null table) = alter_table table "ALTER COLUMN tenant_id SET NOT NULL"
sql (set_default table) =
    alter_table table "ALTER COLUMN tenant_id SET DEFAULT boundary_current_tenant_id()"
sql (drop_tenant_column table) = alter_table table "DROP COLUMN tenant_id"
sql (drop_constraint table name) = alter_table table ("DROP CONSTRAINT \"" <> name <> "\"")
sql (add_unique table name columns) =
    alter_table table ("ADD CONSTRAINT \"" <> name <> "\" UNIQUE (" <> join_quoted columns <> ")")

-- What a server that reads a text after a quote takes as the literal, and what stands after it: a quote
-- that is doubled is one of the literal, any other ends it.
abbrev add_char : Char → Option (String × String) → Option (String × String)
add_char x none = none
add_char x (some (value, rest)) = some (x ∷ value, rest)

unfoldable read_quoted : String → Option (String × String)
read_quoted [] = none
read_quoted (x ∷ []) = if is_char 39 x then some ([], []) else none
read_quoted (x ∷ y ∷ s) =
    let after_pair = read_quoted s in
    let after_one = read_quoted (y ∷ s) in
    if is_char 39 x
    then if is_char 39 y then add_char x after_pair else some ([], y ∷ s)
    else add_char x after_one

-- The literal at the beginning of a text, and the rest of the text.
unfoldable pub read_literal : String → Option (String × String)
unfolding read_quoted
read_literal [] = none
read_literal (x ∷ s) = let read = read_quoted s in if is_char 39 x then read else none

abbrev begins_with_quote : String → Bool
begins_with_quote [] = false
begins_with_quote (x ∷ _) = is_char 39 x
