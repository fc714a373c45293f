-- ===== src/Tests/DeploymentWitnesses.antt =====
-- The checks of a whole deployment, on the samples.
use django_boundary.Prelude.{
  ℕ, zero, suc, ◌+◌, ◌≤◌, String, ◌<>◌, ◌≡◌, ◌≢◌, ◌↔◌, ◌⊎◌, inl, inr, refl, sym, ap, ◌∙◌, Bool,
  true, false, not, ◌&&◌, ◌||◌, Option, none, some, List, [], ◌∷◌, ◌++◌, map, arith, ◌==◌,
  string_eq, nat_eq, if◌then◌else◌, Bool-cases, Option-cases, leb, contains, length, Distinct,
  Among, Among-append,
}
use django_boundary.Runtime.{return, raise, foreign}
use django_boundary.Adoption.{AppModel}
use django_boundary.Migrations.Adopt.{adopt_forwards}
use django_boundary.Checks.{e001_missing, check_tenant_model}
use django_boundary.Checks.Catalogue.{Deployment, Target, rls_probe_targets, site_of}
use django_boundary.Checks.Configuration.{check_boundary_configuration}
use django_boundary.Checks.Adopted.{check_one_adopted_table}
use django_boundary.Checks.Drift.{IsAdopted, check_one_adopted_table_iff}
use django_boundary.Checks.Silent.{
  IsEnforced, check_boundary_configuration-IsEnforced, check_boundary_configuration-IsAdopted,
}
use django_boundary.Checks.Raises.{check_boundary_configuration_missing}
use django_boundary.Checks.AfterAdoption.{
  catalogue_of, IndexesFollow, adopt_forwards-check_one_adopted_table,
}
use django_boundary.Testing.{assert_rls_enforced}
use django_boundary.Testing.Enforced.{IsEnforcing, assert_rls_enforced-IsEnforcing}
use django_boundary.Testing.Agrees.{assert_rls_enforced-check_boundary_configuration}
use django_boundary.Tests.Tables.{editor, editor-IsPostgresSchema}
use django_boundary.Tests.Widgets.{project, apps, widget, adoption, tables}
use django_boundary.Tests.Deployments.{
  catalogue, healthy, unfinished, recreated_constraint, drifted,
}

abbrev both_policies : List String
both_policies = "boundary_tenant_isolation" ∷ "boundary_admin_bypass" ∷ []

check_one_adopted_table_iff_example :
    (check_one_adopted_table drifted "thirdparty_widget" "uuid" ≡ return [])
    ↔ IsAdopted drifted "thirdparty_widget" true true
        (some "uuid")
        both_policies
        (recreated_constraint ∷ [])
        []
        refl
        refl
        refl
        refl
        refl
        "uuid"
check_one_adopted_table_iff_example =
    check_one_adopted_table_iff drifted "thirdparty_widget" true true (some "uuid") both_policies
      (recreated_constraint ∷ []) [] refl refl refl refl refl "uuid"

healthy_silent : check_boundary_configuration healthy ≡ return []
unfolding string_eq nat_eq check_boundary_configuration check_tenant_model
    django_boundary.Checks.Catalogue.check_rls_enabled django_boundary.Conf.tenant_apps
    django_boundary.Conf.resolve_tenant_model_setting django_boundary.Checks.check_client_controlled
    django_boundary.Checks.check_subdomain_resolver
    django_boundary.Checks.Catalogue.check_db_session_var_disabled
    django_boundary.Conf.set_db_session_var django_boundary.Checks.Adopted.check_adopted_tables
    django_boundary.Conf.adopt_exclude django_boundary.Prelude.Text.after
    django_boundary.Adoption.is_already_scoped django_boundary.Checks.check_resolvers
    django_boundary.Conf.resolvers django_boundary.Checks.check_middleware
    django_boundary.Checks.check_strict_mode django_boundary.Conf.strict_mode
    django_boundary.Checks.Catalogue.check_rls_bypassable
    django_boundary.Checks.check_external_double_resolve
    django_boundary.Checks.check_production_posture
    django_boundary.Checks.check_regional_router_configured django_boundary.Conf.regions
    django_boundary.Prelude.Text.lower django_boundary.Prelude.Text.strip
healthy_silent = refl

check_boundary_configuration-IsEnforced_example :
    (targets : List Target) × (rls_probe_targets healthy ≡ return targets)
    × IsEnforced healthy targets
check_boundary_configuration-IsEnforced_example =
    check_boundary_configuration-IsEnforced healthy refl refl healthy_silent

check_boundary_configuration-IsAdopted_example :
    IsAdopted catalogue "thirdparty_widget" true true
      (some "uuid")
      both_policies
      []
      []
      refl
      refl
      refl
      refl
      refl
      "uuid"
unfolding string_eq django_boundary.Checks.expected_adopted_tables django_boundary.Conf.tenant_apps
    django_boundary.Conf.resolve_tenant_model_setting django_boundary.Conf.adopt_exclude
    django_boundary.Prelude.Text.after nat_eq django_boundary.Adoption.is_already_scoped
    django_boundary.Checks.Adopted.expected_tenant_column_type
check_boundary_configuration-IsAdopted_example =
    check_boundary_configuration-IsAdopted healthy refl refl healthy_silent "uuid"
      ((widget, "thirdparty_widget") ∷ []) widget "thirdparty_widget" true true (some "uuid")
      both_policies [] [] refl refl (inl refl) refl refl refl refl refl

check_boundary_configuration_missing_example :
    ((source_setting : String) × (check_tenant_model (site_of unfinished)
        ≡ return (e001_missing source_setting "shop.Merchant" ∷ [])))
    × (check_boundary_configuration unfinished ≡ raise (foreign "LookupError"))
unfolding string_eq django_boundary.Conf.resolve_tenant_model_setting
    django_boundary.Conf.tenant_apps django_boundary.Adoption.refusal_reason
check_boundary_configuration_missing_example =
    check_boundary_configuration_missing unfinished "shop.Merchant" "thirdparty" refl refl refl refl
      refl refl

editor-IndexesFollow : IndexesFollow editor
editor-IndexesFollow = record {
  backing = λ s t. refl;
  made = λ t. record { kept = λ statement s n holds ran. refl };
}

adopt_forwards-check_one_adopted_table_example :
    check_one_adopted_table
      (catalogue_of editor (adopt_forwards project editor adoption apps tables).1)
      "thirdparty_widget"
      "uuid"
    ≡ return []
unfolding string_eq django_boundary.Migrations.Adopt.models_to_adopt
    django_boundary.Conf.resolve_tenant_model_setting django_boundary.Conf.adopt_exclude
    django_boundary.Prelude.Text.after nat_eq django_boundary.Adoption.is_already_scoped
    django_boundary.Migrations.Validate.tenant_pg_type adopt_forwards
    django_boundary.Migrations.Policies.create_tenant_policies
    django_boundary.Checks.Adopted.expected_tenant_column_type
adopt_forwards-check_one_adopted_table_example =
    adopt_forwards-check_one_adopted_table project editor adoption editor-IsPostgresSchema
      editor-IndexesFollow apps (widget ∷ []) "uuid" tables refl refl refl refl (refl, tt) widget
      "uuid" (inl refl) refl refl

assert_rls_enforced-check_boundary_configuration_example :
    assert_rls_enforced healthy "postgresql" (return catalogue) ≡ return tt
assert_rls_enforced-check_boundary_configuration_example =
    assert_rls_enforced-check_boundary_configuration healthy (λ table. (some (true, true), refl))
      (some (false, false)) refl refl refl healthy_silent

assert_rls_enforced-IsEnforcing_example : IsEnforcing healthy catalogue
assert_rls_enforced-IsEnforcing_example =
    assert_rls_enforced-IsEnforcing healthy catalogue
      assert_rls_enforced-check_boundary_configuration_example
