-- ===== src/Migrations/Adopt/Refuses.antt =====
-- migrations_ops.py: an adoption refuses before its first statement, or applies the plans of all its tables.
use mathlib.Core.Path.{subst}
use django_boundary.Adoption.Covered.{Among-adopted_models, Among-filter_models}
use django_boundary.Prelude.{
  String, ◌≡◌, inl, inr, refl, Bool, ◌&&◌, ◌||◌, none, some, List, [], ◌∷◌, map, arith, string_eq,
  nat_eq, if◌then◌else◌, Among, all, Option-cases,
}
use django_boundary.Models.{is_some}
use django_boundary.Runtime.{return, raise, adoption_refused, Result-cases}
use django_boundary.Adoption.{
  AppModel, Project, refusal_reason_for_model, Apps, refusal_reason, tenant_model_label,
  adopted_models,
}
use django_boundary.Migrations.{Editor, UniqueIndex}
use django_boundary.Migrations.Names.{pg_types_match}
use django_boundary.Migrations.Adopt.{models_to_adopt, adopt_forwards, apply_plans}
use django_boundary.Migrations.Validate.{
  AdoptTenantApp, AdoptionPlan, check_indexes, plan_unique_rewrites, validate_table, validate_all,
  backfilled, require_postgresql, tenant_pg_type, refuse_empty_set, router_allowed_models,
}
use django_boundary.Migrations.Adopt.Constraints.{is_free, tenanted, plan_constraints-eq}

abbrev pub backs_constraint : UniqueIndex → Bool
backs_constraint index = index.primary || is_some index.constraint

check_indexes-eq :
    (indexes : List UniqueIndex)
    → check_indexes indexes
      ≡ (if all backs_constraint indexes then return tt else raise adoption_refused)
unfolding check_indexes
check_indexes-eq [] = refl
check_indexes-eq (index ∷ indexes) = ground (arith, check_indexes-eq indexes)

module _ (project : Project) (E : Editor) (op : AdoptTenantApp) where
  -- The table can be adopted: its rows are given a tenant, each unique index backs a constraint or the primary
  -- key, and no unique constraint is deferrable or the target of a foreign key.
  abbrev pub can_adopt : (table : String) → E.State → Bool
  can_adopt table s =
      backfilled project E op (E.row_count s table)
      && all backs_constraint (E.unique_indexes s table)
      && all is_free (E.unique_constraints s table)

  -- It is adopted already, with the type, or it can be.
  abbrev pub passes : (pg_type : String) → E.State → AppModel → Bool
  passes pg_type s model = elim (E.column_type s model.db_table "tenant_id") [
    | some existing ↦ pg_types_match existing pg_type
    | none ↦ can_adopt model.db_table s
  ]

  abbrev pub plan_of : (pg_type : String) → E.State → AppModel → AdoptionPlan
  plan_of pg_type s model = record {
    table = model.db_table;
    pg_type = pg_type;
    existing_rows = E.row_count s model.db_table;
    rewrites = map tenanted (E.unique_constraints s model.db_table);
  }

  -- The plans of the tables that have no column `tenant_id` yet
  abbrev pub plans_of : (pg_type : String) → E.State → List AppModel → List AdoptionPlan
  plans_of pg_type s [] = []
  plans_of pg_type s (model ∷ models) = elim (E.column_type s model.db_table "tenant_id") [
    | some _ ↦ plans_of pg_type s models
    | none ↦ plan_of pg_type s model ∷ plans_of pg_type s models
  ]

  validate_table-eq :
      (model : AppModel) (pg_type : String) (s : E.State)
      → refusal_reason_for_model project none model ≡ return none
      → validate_table project E op model pg_type s ≡ (
          if passes pg_type s model
          then elim (E.column_type s model.db_table "tenant_id") [
            | some _ ↦ return none
            | none ↦ return (some (plan_of pg_type s model))
          ]
          else raise adoption_refused)
  unfolding validate_table plan_unique_rewrites
  validate_table-eq model pg_type s allowed = ground (
    arith,
    check_indexes-eq (E.unique_indexes s model.db_table),
    plan_constraints-eq (E.unique_constraints s model.db_table),
  )

  validate_all-eq :
      (models : List AppModel) (pg_type : String) (s : E.State)
      → ((m : AppModel) → Among m models → refusal_reason_for_model project none m ≡ return none)
      → validate_all project E op models pg_type s ≡ (
          if all (passes pg_type s) models
          then return (plans_of pg_type s models)
          else raise adoption_refused)
  unfolding validate_all
  validate_all-eq [] pg_type s allowed = refl
  validate_all-eq (model ∷ models) pg_type s allowed = ground (
    arith,
    validate_table-eq model pg_type s (allowed model (inl refl)),
    validate_all-eq models pg_type s (λ m there. allowed m (inr there)),
  )

  models_of_adopted :
      (apps : Apps) (models adopted : List AppModel)
      → models_to_adopt project E op apps ≡ return models
      → refusal_reason apps op.app_label ≡ none
      → adopted_models project apps op.exclude op.app_label ≡ return adopted
      → models ≡ router_allowed_models E adopted
  unfolding models_to_adopt refuse_empty_set
  models_of_adopted apps models [] planned adoptable returns = absurd (ground arith)
  models_of_adopted apps models (model ∷ adopted) planned adoptable returns = ground arith

  adopted_to_adopt :
      (apps : Apps) (models : List AppModel)
      → models_to_adopt project E op apps ≡ return models
      → (adopted : List AppModel) × (adopted_models project apps op.exclude op.app_label
          ≡ return adopted)
        × (models ≡ router_allowed_models E adopted)
  unfolding models_to_adopt
  adopted_to_adopt apps models planned = elim (Option-cases (refusal_reason apps op.app_label)) [
    | inr (why, refused) ↦ absurd (ground arith)
    | inl adoptable ↦ elim (Result-cases (adopted_models project apps op.exclude op.app_label)) [
      | inr (e, raised) ↦ absurd (ground arith)
      | inl (adopted, returns) ↦
          (adopted, returns, models_of_adopted apps models adopted planned adoptable returns)
    ]
  ]

  adopted_models-allowed :
      (apps : Apps) (adopted : List AppModel) (m : AppModel)
      → adopted_models project apps op.exclude op.app_label ≡ return adopted
      → Among m adopted
      → refusal_reason_for_model project none m ≡ return none
  unfolding adopted_models refusal_reason_for_model
  adopted_models-allowed apps adopted m returned there =
      elim (Result-cases (tenant_model_label project)) [
        | inr (e, raised) ↦ absurd (ground arith)
        | inl (tenant_label, resolves) ↦ elim (Option-cases (apps.get_models op.app_label)) [
          | inl missing ↦ absurd (ground arith)
          | inr (registered, has_app) ↦
              let (models, returns, covers) =
                Among-adopted_models project apps op.exclude op.app_label tenant_label registered
                  resolves has_app in
              let same : adopted ≡ models = ground arith in
              let (_, (_, _, _, _, _, _, open_to)) = (covers m).0 (subst (Among m) same there) in
              ground (arith, open_to, resolves)
        ]
      ]

  -- What is to be adopted is of the adopted set, where the per-model rule refuses nothing.
  models_to_adopt-allowed :
      (apps : Apps) (models : List AppModel) (m : AppModel)
      → models_to_adopt project E op apps ≡ return models
      → Among m models
      → refusal_reason_for_model project none m ≡ return none
  unfolding router_allowed_models
  models_to_adopt-allowed apps models m planned there =
      let (adopted, returns, same) = adopted_to_adopt apps models planned in
      let kept = Among-filter_models (λ model. E.allow_migrate_model E.alias model) m adopted in
      adopted_models-allowed apps adopted m returns ((kept.0 (subst (Among m) same there)).0)

  -- The outcome of an adoption, on a PostgreSQL alias that has models to adopt and with a tenant key
  -- of a mapped type: if every table passes, because it has a column `tenant_id` of the type, or has
  -- none, rows only where a backfill tenant is given, no unique index but those that back a
  -- constraint or the primary key, and no unique constraint that is deferrable or the target of a
  -- foreign key, then the statements of the plans; otherwise a refusal with the database as it was.
  pub adopt_forwards-eq :
      (apps : Apps) (models : List AppModel) (pg_type : String) (s : E.State)
      → models_to_adopt project E op apps ≡ return models
      → E.vendor ≡ "postgresql"
      → tenant_pg_type project ≡ return pg_type
      → adopt_forwards project E op apps s ≡ (
          if all (passes pg_type s) models
          then apply_plans project E op pg_type (plans_of pg_type s models) s
          else (raise adoption_refused, s))
  unfolding adopt_forwards require_postgresql apply_plans
  adopt_forwards-eq apps [] pg_type s planned postgresql typed = ground arith
  adopt_forwards-eq apps (model ∷ models) pg_type s planned postgresql typed =
      let checked =
        validate_all-eq (model ∷ models) pg_type s
          (λ m. models_to_adopt-allowed apps (model ∷ models) m planned) in
      ground (arith, checked, planned, postgresql, typed)
