-- ===== src/Tests/MigrationWitnesses.antt =====
-- Adoption and its migrations on a database of tables in memory.
use mathlib.Core.Option.{some-injective}
use django_boundary.Migrations.{
  Statement, drop_constraint, Table, and_next, add_unique, UniqueConstraint,
}
use django_boundary.Migrations.Names.{
  unique_sql, composite_constraint_name, len-composite_constraint_name,
}
use django_boundary.Tests.Tables.{run_statement, Tables, editor, editor-IsPostgresSchema}
use django_boundary.Prelude.{
  ◌≢◌, map, ◌≡◌, sym, ℕ, zero, suc, ◌+◌, ◌≤◌, String, ◌<>◌, ◌↔◌, ◌⊎◌, inl, refl, Bool, true, false,
  not, ◌&&◌, ◌||◌, Option, none, some, List, [], ◌∷◌, ◌++◌, arith, ◌==◌, string_eq, nat_eq,
  if◌then◌else◌, Bool-cases, Option-cases, leb, contains, Distinct, Among, Among-append, all,
}
use django_boundary.Prelude.Text.{len}
use django_boundary.Prelude.Dict.{lookup}
use django_boundary.Conf.{tenant_apps}
use django_boundary.Runtime.{return, raise, database_error, adoption_refused}
use django_boundary.Adoption.{
  AppModel, Apps, Project, Column, adopted_models, expected_adopted_models, tenant_through_labels,
}
use django_boundary.Adoption.Covered.{IsAdoptable, Among-adopted_models}
use django_boundary.Adoption.Expected.{labels, all_covered_labels, expected_adopted_models-Distinct}
use django_boundary.Migrations.Sql.{sql_string_literal, read_literal}
use django_boundary.Migrations.Sql.Literal.{read_literal-sql_string_literal}
use django_boundary.Migrations.Policies.{
  EnableRls, TenantPolicy, enable_forwards, enable_backwards, create_forwards, create_backwards,
  drop_forwards, drop_backwards,
}
use django_boundary.Migrations.Policies.Restored.{migrate_back-migrate}
use django_boundary.Migrations.Adopt.{adopt_forwards, apply_plans}
use django_boundary.Migrations.Validate.{AdoptTenantApp}
use django_boundary.Migrations.Adopt.Refuses.{passes, plans_of, adopt_forwards-eq}
use django_boundary.Migrations.Adopt.Isolates.{IsIsolated, adopt_forwards-IsIsolated}
use django_boundary.Migrations.Adopt.Twice.{adopt_forwards_twice}
use django_boundary.Migrations.Unadopt.{restore_sets, unadopt_table}
use django_boundary.Migrations.Unadopt.Removed.{IsTenantFree, unadopt_table-IsTenantFree}
use django_boundary.Migrations.Unadopt.Repeated.{restore_sets_repeated}
use django_boundary.Tests.{settings}
use django_boundary.Tests.Widgets.{
  code_column, widget, apps, project, widgets, tables, adoption, enable, policy,
}

read_literal-sql_string_literal_example :
    read_literal (sql_string_literal "app.x'y" <> ", TRUE)") ≡ some ("app.x'y", ", TRUE)")
unfolding nat_eq
read_literal-sql_string_literal_example = read_literal-sql_string_literal "app.x'y" ", TRUE)" refl

len-composite_constraint_name_example :
    len (
      composite_constraint_name editor "thirdparty_widget"
        "thirdparty_widget_a_constraint_with_a_name_that_is_long_for_postgres"
        ("tenant_id" ∷ "code" ∷ []))
    ≤ 63
unfolding len
len-composite_constraint_name_example =
    len-composite_constraint_name editor (λ table columns suffix. omega arith) "thirdparty_widget"
      "thirdparty_widget_a_constraint_with_a_name_that_is_long_for_postgres"
      ("tenant_id" ∷ "code" ∷ [])

Among-adopted_models_example :
    (models : List AppModel) × (adopted_models project apps [] "thirdparty" ≡ return models)
    × ((m : AppModel)
        → Among m models ↔ (
            Among m (widget ∷ [])
            × IsAdoptable project [] "shop.Merchant"
                (tenant_through_labels apps "shop.Merchant")
                m))
unfolding string_eq django_boundary.Adoption.tenant_model_label
    django_boundary.Conf.resolve_tenant_model_setting
Among-adopted_models_example =
    Among-adopted_models project apps [] "thirdparty" "shop.Merchant" (widget ∷ []) refl refl

expected_adopted_models-Distinct_example :
    (models : List AppModel) × (expected_adopted_models project ≡ return models)
    × Distinct (labels models)
    × ((l : String)
        → contains (labels models) l
          ≡ contains (all_covered_labels project (tenant_apps settings)) l)
unfolding string_eq django_boundary.Adoption.tenant_model_label
    django_boundary.Conf.resolve_tenant_model_setting
expected_adopted_models-Distinct_example =
    expected_adopted_models-Distinct project "shop.Merchant" refl

adopt_forwards-eq_example : adopt_forwards project editor adoption apps tables ≡ (
    if all (passes project editor adoption "uuid" tables) (widget ∷ [])
    then apply_plans project editor adoption "uuid"
        (plans_of project editor adoption "uuid" tables (widget ∷ []))
        tables
    else (raise adoption_refused, tables))
unfolding string_eq django_boundary.Migrations.Adopt.models_to_adopt
    django_boundary.Conf.resolve_tenant_model_setting django_boundary.Conf.adopt_exclude
    django_boundary.Prelude.Text.after nat_eq django_boundary.Adoption.is_already_scoped
    django_boundary.Migrations.Validate.tenant_pg_type
adopt_forwards-eq_example =
    adopt_forwards-eq project editor adoption apps (widget ∷ []) "uuid" tables refl refl refl

adopt_forwards-IsIsolated_example :
    IsIsolated project editor adoption "uuid"
      (tables "thirdparty_widget")
      ((adopt_forwards project editor adoption apps tables).1 "thirdparty_widget")
unfolding string_eq django_boundary.Migrations.Adopt.models_to_adopt
    django_boundary.Conf.resolve_tenant_model_setting django_boundary.Conf.adopt_exclude
    django_boundary.Prelude.Text.after nat_eq django_boundary.Adoption.is_already_scoped
    django_boundary.Migrations.Validate.tenant_pg_type adopt_forwards
    django_boundary.Migrations.Policies.create_tenant_policies
adopt_forwards-IsIsolated_example =
    adopt_forwards-IsIsolated project editor adoption editor-IsPostgresSchema apps (widget ∷ [])
      "uuid" tables refl refl refl refl (refl, tt) widget (inl refl) refl

adopt_forwards_twice_example :
    adopt_forwards project editor adoption apps
      (adopt_forwards project editor adoption apps tables).1
    ≡ (return tt, (adopt_forwards project editor adoption apps tables).1)
unfolding string_eq django_boundary.Migrations.Adopt.models_to_adopt
    django_boundary.Conf.resolve_tenant_model_setting django_boundary.Conf.adopt_exclude
    django_boundary.Prelude.Text.after nat_eq django_boundary.Adoption.is_already_scoped
    django_boundary.Migrations.Validate.tenant_pg_type adopt_forwards
    django_boundary.Migrations.Policies.create_tenant_policies
adopt_forwards_twice_example =
    adopt_forwards_twice project editor adoption "uuid" editor-IsPostgresSchema apps (widget ∷ [])
      tables refl refl refl refl (refl, tt)

migrate_back-migrate_example :
    (and_next
        (and_next
          (enable_forwards editor enable "blog" apps apps)
          (create_forwards editor settings policy "blog" apps apps))
        (and_next
          (create_backwards editor settings policy "blog" apps apps)
          (enable_backwards editor enable "blog" apps apps))
        tables).1
      "thirdparty_widget"
    ≡ tables "thirdparty_widget"
unfolding string_eq django_boundary.Migrations.Policies.detect_tenant_column_type enable_forwards
    django_boundary.Migrations.execute_all create_forwards
    django_boundary.Migrations.Policies.create_tenant_id_helper
    django_boundary.Migrations.Policies.create_tenant_policies create_backwards enable_backwards
migrate_back-migrate_example =
    migrate_back-migrate editor settings apps apps "blog" "uuid" widget enable policy refl refl refl
      refl refl editor-IsPostgresSchema tables refl refl refl refl refl "thirdparty_widget"

abbrev adopted_widgets : Table
adopted_widgets = record widgets {
  tenant_id = some (record { pg_type = "uuid"; nullable = false; defaulted = true });
  unique_constraints = ("widget_code_key_tenant", "tenant_id" ∷ "code" ∷ []) ∷ [];
  rls = true;
  forced = true;
}

abbrev adopted_tables : Tables
adopted_tables t = adopted_widgets

editor_adds :
    (columns : List Column) (statement : Statement)
    → unique_sql editor widget columns ≡ some statement
    → statement ≡ add_unique "thirdparty_widget" "restored_uniq" (map (λ c. c.column) columns)
unfolding unique_sql
editor_adds columns statement e = sym (some-injective _ _ e)

dropping_absent :
    (s : Tables)
    → lookup "widget_code_key_tenant" (s "thirdparty_widget").unique_constraints ≡ none
    → (run_statement (drop_constraint "thirdparty_widget" "widget_code_key_tenant") s).0 ≡ none
dropping_absent s gone = ground arith

unadopt_table-IsTenantFree_example :
    IsTenantFree ((unadopt_table editor widget adopted_tables).1 "thirdparty_widget")
unfolding string_eq unadopt_table django_boundary.Migrations.execute_all lookup
unadopt_table-IsTenantFree_example =
    unadopt_table-IsTenantFree editor editor-IsPostgresSchema widget adopted_tables "uuid" refl
      (λ columns statement e.
        ("restored_uniq", map (λ c. c.column) columns, editor_adds columns statement e))
      refl

abbrev composite : UniqueConstraint
composite = record {
  name = "widget_code_key_tenant";
  columns = "tenant_id" ∷ "code" ∷ [];
  deferrable = false;
  fk_targeted = false;
}

-- The field is unique, and a constraint on it alone is declared too.
restore_sets_repeated_example :
    (restore_sets editor widget "thirdparty_widget"
      (composite ∷ [])
      (return (code_column ∷ []) ∷ return (code_column ∷ []) ∷ [])
      adopted_tables).0
    ≡ raise database_error
unfolding string_eq django_boundary.Migrations.Unadopt.find_constraint
    django_boundary.Migrations.Names.unique_sql
restore_sets_repeated_example =
    restore_sets_repeated editor widget "thirdparty_widget" "widget_code_key_tenant"
      (composite ∷ []) (λ s gone. dropping_absent s gone) editor-IsPostgresSchema (code_column ∷ [])
      (code_column ∷ []) [] adopted_tables "restored_uniq" ("code" ∷ []) refl refl refl (λ h. cc)
