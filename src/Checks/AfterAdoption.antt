-- ===== src/Checks/AfterAdoption.antt =====
-- checks.py and migrations_ops.py: E007 after an adoption.
use django_boundary.Migrations.{isolates, bypasses, Editor, Policy, UniqueConstraint, UniqueIndex}
use django_boundary.Conf.{admin_flag_var}
use django_boundary.Migrations.Schema.{map_option, IsPostgresSchema, columns_of}
use django_boundary.Prelude.{
  sym, ap, ◌∙◌, Distinct, Among, String, ◌≡◌, inl, inr, refl, Bool, true, not, ◌||◌, none, some,
  List, [], ◌∷◌, ◌++◌, map, arith, string_eq, nat_eq, Option-cases, contains,
}
use django_boundary.Migrations.Adopt.{adopt_forwards, models_to_adopt, apply_plans}
use django_boundary.Migrations.Validate.{AdoptTenantApp, tenant_pg_type}
use django_boundary.Adoption.{AppModel, Apps, Project, get_tenant_model}
use django_boundary.Migrations.Adopt.Refuses.{passes, plans_of, adopt_forwards-eq, backs_constraint}
use django_boundary.Migrations.Adopt.Isolates.{
  db_tables, adopt_forwards-IsIsolated, all_pass, all-Among,
}
use django_boundary.Migrations.Adopt.Indexes.{apply_plans-Keeps}
use django_boundary.Migrations.Adopt.Twice.{pg_types_match_refl}
use django_boundary.Checks.Adopted.{
  check_one_adopted_table, constraint_names, is_backed, leads_with_tenant_id,
  expected_tenant_column_type,
}
use django_boundary.Checks.Drift.{
  has_type, check_one_adopted_table_iff, constraint_leads, index_is_right,
}
use django_boundary.Migrations.Names.{pg_types_match, pg_type_of, detect_tenant_pg_type}
use mathlib.Core.Path.{subst}
use django_boundary.Prelude.Lists.{all}
use django_boundary.Runtime.{return, Result-cases}
use django_boundary.Models.{is_some}
use django_boundary.Migrations.Schema.Keeps.{StatementsKeep}
use django_boundary.Migrations.Adopt.Constraints.{leads, all-same}
use django_boundary.Checks.Catalogue.{Catalogue}

-- The catalogue of the database that a migration works on, which answers.
abbrev pub catalogue_of : (E : Editor) → E.State → Catalogue
catalogue_of E s = record {
  vendor = E.vendor;
  row_security = λ t. return (some ((E.table s t).rls, (E.table s t).forced));
  role = return none;
  column_type = λ t column. return (E.column_type s t column);
  policy_names = λ t. return (map (λ p. p.0) (E.table s t).policies);
  unique_constraints = λ t. return (E.unique_constraints s t);
  unique_indexes = λ t. return (E.unique_indexes s t);
}

-- An index that backs a constraint, and is not the primary key's, backs one of the unique constraints
-- of its table; and no statement of the migrations makes an index that backs none.
abbrev pub follows : (names : List String) → UniqueIndex → Bool
follows names index =
    index.primary || (not (is_some index.constraint) || is_backed names index.constraint)

pub record IndexesFollow (E : Editor) : Type 0 where
  pub backing :
      (s : E.State) (t : String)
      → all (follows (constraint_names (E.unique_constraints s t))) (E.unique_indexes s t) ≡ true
  pub made :
      (t : String) → StatementsKeep E (λ s. all backs_constraint (E.unique_indexes s t) ≡ true)

indexes_right :
    (names : List String) (indexes : List UniqueIndex)
    → all backs_constraint indexes ≡ true
    → all (follows names) indexes ≡ true
    → all (index_is_right names) indexes ≡ true
indexes_right names [] backed following = refl
indexes_right names (index ∷ indexes) backed following = elim (Option-cases index.constraint) [
  | inl bare ↦ ground (arith, indexes_right names indexes)
  | inr (name, backs) ↦ ground (arith, indexes_right names indexes)
]

leads_same : (columns : List String) → leads ("", columns) ≡ leads_with_tenant_id columns
leads_same [] = refl
leads_same (column ∷ columns) = refl

constraints_lead :
    (constraints : List UniqueConstraint)
    → all leads (map columns_of constraints) ≡ true
    → all constraint_leads constraints ≡ true
constraints_lead [] leading = refl
constraints_lead (constraint ∷ constraints) leading =
    ground (arith, leads_same constraint.columns, constraints_lead constraints)

contains-names_append :
    (first second : List (String × Policy)) (name : String)
    → contains (map (λ p. p.0) (first ++ second)) name
      ≡ (contains (map (λ p. p.0) first) name || contains (map (λ p. p.0) second) name)
contains-names_append [] second name = refl
contains-names_append (p ∷ first) second name =
    ground (arith, contains-names_append first second name)

policies_named :
    (old new : List (String × Policy)) (admin_flag : String)
    → new
      ≡ (old ++ ("boundary_tenant_isolation", isolates "tenant_id") ∷ [])
        ++ ("boundary_admin_bypass", bypasses admin_flag) ∷ []
    → (contains (map (λ p. p.0) new) "boundary_tenant_isolation" ≡ true)
      × (contains (map (λ p. p.0) new) "boundary_admin_bypass" ≡ true)
policies_named old new admin_flag e =
    let first = old ++ ("boundary_tenant_isolation", isolates "tenant_id") ∷ [] in
    let second : List (String × Policy) = ("boundary_admin_bypass", bypasses admin_flag) ∷ [] in
    (
      rw e (
          ground (
            arith,
            contains-names_append first second "boundary_tenant_isolation",
            contains-names_append old (("boundary_tenant_isolation", isolates "tenant_id") ∷ [])
                "boundary_tenant_isolation",
          )),
      rw e (ground (arith, contains-names_append first second "boundary_admin_bypass")),
    )

expected_type_derived :
    (project : Project) (pg_type : String)
    → tenant_pg_type project ≡ return pg_type
    → expected_tenant_column_type project ≡ return pg_type
unfolding tenant_pg_type expected_tenant_column_type detect_tenant_pg_type
expected_type_derived project pg_type typed = elim (Result-cases (get_tenant_model project)) [
  | inr (e, raised) ↦ absurd (ground arith)
  | inl (model, found) ↦ elim (Option-cases (pg_type_of model.pk_type)) [
    | inl unmapped ↦ absurd (ground arith)
    | inr (mapped, known) ↦ ground arith
  ]
]

module _ (project : Project) (E : Editor) (op : AdoptTenantApp) (schema : IsPostgresSchema E)
    (indexes : IndexesFollow E) (apps : Apps) (models : List AppModel) (pg_type : String)
    (s : E.State) (planned : models_to_adopt project E op apps ≡ return models)
    (postgresql : E.vendor ≡ "postgresql") (typed : tenant_pg_type project ≡ return pg_type)
    (done : (adopt_forwards project E op apps s).0 ≡ return tt) where
  indexes_backed :
      (m : AppModel)
      → Among m models
      → E.column_type s m.db_table "tenant_id" ≡ none
      → all backs_constraint (E.unique_indexes (adopt_forwards project E op apps s).1 m.db_table)
        ≡ true
  indexes_backed m there unadopted =
      let passing =
        all_pass project E op schema apps models pg_type s planned postgresql typed done in
      let outcome = adopt_forwards-eq project E op apps models pg_type s planned postgresql typed in
      let plans = plans_of project E op pg_type s models in
      let applied : adopt_forwards project E op apps s ≡ apply_plans project E op pg_type plans s =
        ground (arith, passing, outcome) in
      let one = all-Among project E op (passes project E op pg_type s) models m passing there in
      let before : all backs_constraint (E.unique_indexes s m.db_table) ≡ true =
        ground (arith, one, unadopted) in
      let kept =
        (apply_plans-Keeps project E op
            (λ t. all backs_constraint (E.unique_indexes t m.db_table) ≡ true)
            (indexes.made m.db_table) pg_type plans).keeps
          s before (sym (ap (λ r. r.0) applied) ∙ done) in
      subst (λ r. all backs_constraint (E.unique_indexes r.1 m.db_table) ≡ true) (sym applied) kept

  -- After an adoption that returns, on a PostgreSQL alias whose models to adopt have different
  -- tables and a tenant key of a mapped type, E007 reports nothing about a table of theirs that had
  -- no column `tenant_id`, where a unique index that is not the primary key's backs a unique
  -- constraint of its table or none, and no statement makes one that backs none.
  pub adopt_forwards-check_one_adopted_table :
      Distinct (db_tables models)
      → (m : AppModel) (expected_type : String) → Among m models
      → E.column_type s m.db_table "tenant_id" ≡ none
      → expected_tenant_column_type project ≡ return expected_type
      → check_one_adopted_table
          (catalogue_of E (adopt_forwards project E op apps s).1)
          m.db_table
          expected_type
        ≡ return []
  adopt_forwards-check_one_adopted_table distinct m expected_type there unadopted expected =
      let s' = (adopt_forwards project E op apps s).1 in
      let t = m.db_table in
      let new = E.table s' t in
      let (column, _, rls, forced, policies, leading) =
        adopt_forwards-IsIsolated project E op schema apps models pg_type s planned postgresql typed
          done distinct m there unadopted in
      let same_type : pg_type ≡ expected_type =
        ground (arith, expected_type_derived project pg_type typed, expected) in
      let found : E.column_type s' t "tenant_id" ≡ some pg_type =
        schema.column_type_reads s' t ∙ ap (map_option (λ c. c.pg_type)) column in
      let right_type : has_type expected_type (E.column_type s' t "tenant_id") ≡ true =
        rw found
          (subst (λ x. pg_types_match pg_type x ≡ true) same_type (pg_types_match_refl pg_type)) in
      let (isolated, bypassed) =
        policies_named (E.table s t).policies new.policies (admin_flag_var project.settings)
          policies in
      let constraints = E.unique_constraints s' t in
      let lead : all constraint_leads constraints ≡ true = constraints_lead constraints (
        all-same leads new.unique_constraints (map columns_of constraints)
          (λ c. (
            (schema.unique_constraints_reads s' t c).1,
            (schema.unique_constraints_reads s' t c).0,
          ))
          leading) in
      (check_one_adopted_table_iff (catalogue_of E s') t new.rls new.forced
          (E.column_type s' t "tenant_id") (map (λ p. p.0) new.policies) constraints
          (E.unique_indexes s' t) refl refl refl refl refl expected_type).1
        (
          right_type,
          rls,
          forced,
          isolated,
          bypassed,
          lead,
          indexes_right (constraint_names constraints) (E.unique_indexes s' t)
              (indexes_backed m there unadopted) (indexes.backing s' t),
        )
