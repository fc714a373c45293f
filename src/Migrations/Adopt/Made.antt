-- ===== src/Migrations/Adopt/Made.antt =====
-- migrations_ops.py: what the statements of the plans make of the tables.
use django_boundary.Prelude.{
  String, ◌≡◌, inl, inr, refl, sym, ap, ◌∙◌, true, false, none, some, List, [], ◌∷◌, ◌++◌, arith,
  ◌==◌, string_eq, nat_eq, if◌then◌else◌, Bool-cases, contains, Distinct, Among,
}
use django_boundary.Adoption.{Project}
use django_boundary.Conf.{admin_flag_var}
use django_boundary.Migrations.{Editor, Table, isolates, bypasses}
use django_boundary.Migrations.Schema.{after_all, after_all-append, stamp_all}
use django_boundary.Migrations.Policies.{create_tenant_policies}
use django_boundary.Migrations.Adopt.{unique_rewrites, securing, backfill_parameter}
use django_boundary.Migrations.Validate.{AdoptTenantApp, AdoptionPlan}
use django_boundary.Migrations.Adopt.Plans.{column_statements, plan_statements, all_statements}
use django_boundary.Migrations.Adopt.Constraints.{
  rewritten, after_all-unique_rewrites_at, after_all-unique_rewrites_off,
}

module _ (project : Project) (E : Editor) (op : AdoptTenantApp) where
  -- The column, and with it the tenants of the rows
  abbrev pub with_column : AdoptionPlan → Table → Table
  with_column plan old = record old {
    tenant_id = some (record { pg_type = plan.pg_type; nullable = false; defaulted = true });
    rows =
        if plan.existing_rows == 0
        then stamp_all E.current_tenant old.rows
        else stamp_all (some (backfill_parameter project E op)) (stamp_all none old.rows);
  }

  abbrev pub with_security : Table → Table
  with_security old = record old {
    rls = true;
    forced = true;
    policies =
        (old.policies ++ ("boundary_tenant_isolation", isolates "tenant_id") ∷ [])
        ++ ("boundary_admin_bypass", bypasses (admin_flag_var project.settings)) ∷ [];
  }

  abbrev pub with_rewrites : AdoptionPlan → Table → Table
  with_rewrites plan old = record old {
    unique_constraints = rewritten E plan.table plan.rewrites old.unique_constraints;
  }

  abbrev pub adopted_table : AdoptionPlan → Table → Table
  adopted_table plan old = with_security (with_rewrites plan (with_column plan old))

  module _ (plan : AdoptionPlan) (t : String) (old : Table) where
    after_all-column_at :
        t == plan.table ≡ true
        → after_all E.current_tenant (column_statements project E op plan) t old
          ≡ with_column plan old
    after_all-column_at own = elim (Bool-cases (plan.existing_rows == 0)) [
      | inl no_rows ↦ rw no_rows (rw own refl)
      | inr rows ↦ rw rows (rw own refl)
    ]

    after_all-column_off :
        t == plan.table ≡ false
        → after_all E.current_tenant (column_statements project E op plan) t old ≡ old
    after_all-column_off other = elim (Bool-cases (plan.existing_rows == 0)) [
      | inl no_rows ↦ rw no_rows (rw other refl)
      | inr rows ↦ rw rows (rw other refl)
    ]

    after_all-securing_at :
        t == plan.table ≡ true
        → after_all E.current_tenant (securing project E op plan.table) t old ≡ with_security old
    unfolding create_tenant_policies
    after_all-securing_at own = rw own refl

    after_all-securing_off :
        t == plan.table ≡ false
        → after_all E.current_tenant (securing project E op plan.table) t old ≡ old
    unfolding create_tenant_policies
    after_all-securing_off other = rw other refl

  module _ (plan : AdoptionPlan) (t : String) (old : Table) where
    split :
        after_all E.current_tenant (plan_statements project E op plan) t old
        ≡ after_all E.current_tenant (securing project E op plan.table) t (
            after_all E.current_tenant
              (unique_rewrites E plan.table plan.rewrites)
              t
              (after_all E.current_tenant (column_statements project E op plan) t old))
    split =
        after_all-append E.current_tenant (column_statements project E op plan) _ t old
        ∙ after_all-append E.current_tenant (unique_rewrites E plan.table plan.rewrites)
            (securing project E op plan.table) t _

    after_all-plan_at :
        t == plan.table ≡ true
        → after_all E.current_tenant (plan_statements project E op plan) t old
          ≡ adopted_table plan old
    after_all-plan_at own =
        split
        ∙ after_all-securing_at plan t _ own
        ∙ ap with_security (
            after_all-unique_rewrites_at E plan.table plan.rewrites t _ own
            ∙ ap (with_rewrites plan) (after_all-column_at plan t old own))

    pub after_all-plan_off :
        t == plan.table ≡ false
        → after_all E.current_tenant (plan_statements project E op plan) t old ≡ old
    after_all-plan_off other =
        split
        ∙ after_all-securing_off plan t _ other
        ∙ after_all-unique_rewrites_off E plan.table plan.rewrites t _ other
        ∙ after_all-column_off plan t old other

  abbrev pub tables_of_plans : List AdoptionPlan → List String
  tables_of_plans [] = []
  tables_of_plans (plan ∷ plans) = plan.table ∷ tables_of_plans plans

  pub contains-tables_of_plans :
      (plan : AdoptionPlan) (plans : List AdoptionPlan)
      → Among plan plans
      → contains (tables_of_plans plans) plan.table ≡ true
  contains-tables_of_plans plan [] h = absurd h
  contains-tables_of_plans plan (first ∷ plans) (inl here) = ground (arith, ap (λ p. p.table) here)
  contains-tables_of_plans plan (first ∷ plans) (inr later) =
      ground (arith, contains-tables_of_plans plan plans later)

  -- A table of no plan stays as it was.
  pub after_all-outside :
      (plans : List AdoptionPlan) (t : String) (old : Table)
      → contains (tables_of_plans plans) t ≡ false
      → after_all E.current_tenant (all_statements project E op plans) t old ≡ old
  after_all-outside [] t old outside = refl
  after_all-outside (plan ∷ plans) t old outside =
      after_all-append E.current_tenant (plan_statements project E op plan)
        (all_statements project E op plans) t old
      ∙ after_all-outside plans t _ (ground arith)
      ∙ after_all-plan_off plan t old (ground arith)

  -- A table of one plan is adopted by it.
  pub after_all-inside :
      (plans : List AdoptionPlan) (plan : AdoptionPlan) (t : String) (old : Table)
      → Distinct (tables_of_plans plans)
      → Among plan plans
      → t ≡ plan.table
      → after_all E.current_tenant (all_statements project E op plans) t old
        ≡ adopted_table plan old
  after_all-inside [] plan t old _ none_there _ = absurd none_there
  after_all-inside (first ∷ plans) plan t old (fresh, distinct) (inl here) own =
      after_all-append E.current_tenant (plan_statements project E op first)
        (all_statements project E op plans) t old
      ∙ after_all-outside plans t _ (ground arith)
      ∙ after_all-plan_at first t old (ground arith)
      ∙ ap (λ p. adopted_table p old) (sym here)
  after_all-inside (first ∷ plans) plan t old (fresh, distinct) (inr later) own =
      after_all-append E.current_tenant (plan_statements project E op first)
        (all_statements project E op plans) t old
      ∙ after_all-inside plans plan t _ distinct later own
      ∙ ap (adopted_table plan) (
          after_all-plan_off first t old
            (ground (arith, contains-tables_of_plans plan plans later)))
