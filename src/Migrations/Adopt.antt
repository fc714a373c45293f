-- ===== src/Migrations/Adopt.antt =====
-- migrations_ops.py: `AdoptTenantApp`, forwards.
pub mod Constraints
pub mod Plans
pub mod Made
pub mod Refuses
pub mod Isolates
pub mod Twice
pub mod Answered
pub mod Outcome
pub mod Indexes
use django_boundary.Prelude.{
  ℕ, zero, suc, ◌+◌, ◌≤◌, String, ◌<>◌, ◌≡◌, ◌≢◌, ◌↔◌, ◌⊎◌, inl, inr, refl, sym, ap, ◌∙◌, Bool,
  true, false, not, ◌&&◌, ◌||◌, Option, none, some, List, [], ◌∷◌, ◌++◌, map, arith, ◌==◌,
  string_eq, nat_eq, if◌then◌else◌, Bool-cases, Option-cases, leb, contains, length, Distinct,
  Among, Among-append,
}
use django_boundary.Conf.{Settings}
use django_boundary.Models.{is_some}
use django_boundary.Runtime.{Result, return, raise, foreign, adoption_refused}
use django_boundary.Adoption.{
  AppModel, Apps, Project, refusal_reason, refusal_reason_for_model, adopted_models,
  tenant_model_label, get_tenant_model, model_label, filter_models,
}
use django_boundary.Migrations.{
  Editor, Statement, Step, ◌>>=◌, continue_with, and_next, executed, execute, execute_all,
  add_tenant_column, add_nullable_tenant_column, backfill_tenant_id, set_not_null, set_default,
  drop_constraint, add_unique, UniqueConstraint, UniqueIndex,
}
use django_boundary.Migrations.Names.{pg_type_of, pg_types_match, composite_constraint_name}
use django_boundary.Migrations.Policies.{create_tenant_id_helper, create_tenant_policies, enabling}
use django_boundary.Migrations.Validate.{
  AdoptTenantApp, AdoptionPlan, refuse_empty_set, require_postgresql, router_allowed_models,
  tenant_pg_type, validate_all,
}

module _ (project : Project) (E : Editor) (op : AdoptTenantApp) where
  -- The check of the backfill's row count
  unfoldable check_backfill :
      (table : String) (existing_rows : ℕ) → Option ℕ × E.State → Result Unit × E.State
  check_backfill table existing_rows (none, s) = executed E none s
  check_backfill table existing_rows (some updated, s) =
      if not (updated == existing_rows) then (raise adoption_refused, s) else (return tt, s)

  -- `self.backfill_tenant` as a parameter of the query; it is given where there are rows.
  abbrev pub backfill_parameter : String
  backfill_parameter = elim op.backfill_tenant [ none ↦ "" | some tenant ↦ tenant ]

  unfoldable pub add_column : (table pg_type : String) (existing_rows : ℕ) → Step E.State Unit
  unfolding check_backfill execute_all
  add_column table pg_type existing_rows =
      if existing_rows == 0
      then execute_all E (add_tenant_column table pg_type ∷ [])
      else and_next (execute_all E (add_nullable_tenant_column table pg_type ∷ [])) (
          and_next
            (λ s.
              check_backfill table existing_rows
                (E.execute (backfill_tenant_id table backfill_parameter) s))
            (execute_all E (set_not_null table ∷ set_default table ∷ [])))

-- The statements of `_apply_unique_rewrites`
unfoldable pub unique_rewrites :
    Editor → (table : String) → List (String × List String) → List Statement
unfolding composite_constraint_name
unique_rewrites E table [] = []
unique_rewrites E table ((name, columns) ∷ rewrites) =
    drop_constraint table name
    ∷ add_unique table (composite_constraint_name E table name columns) columns
    ∷ unique_rewrites E table rewrites

module _ (project : Project) (E : Editor) (op : AdoptTenantApp) where
  abbrev pub securing : (table : String) → List Statement
  securing table = enabling E table ++ create_tenant_policies project.settings table "tenant_id"

  unfoldable pub adopt_table : AdoptionPlan → Step E.State Unit
  unfolding add_column unique_rewrites
  adopt_table plan = and_next (add_column project E op plan.table plan.pg_type plan.existing_rows) (
      and_next (execute_all E (unique_rewrites E plan.table plan.rewrites))
        (execute_all E (securing plan.table)))

  unfoldable pub adopt_tables : List AdoptionPlan → Step E.State Unit
  unfolding adopt_table
  adopt_tables [] s = (return tt, s)
  adopt_tables (plan ∷ plans) s = and_next (adopt_table plan) (adopt_tables plans) s

  -- The statements, none where there is nothing to adopt
  unfoldable pub apply_plans : (pg_type : String) → List AdoptionPlan → Step E.State Unit
  unfolding create_tenant_id_helper adopt_tables
  apply_plans pg_type [] s = (return tt, s)
  apply_plans pg_type (plan ∷ plans) s =
      and_next (execute_all E (create_tenant_id_helper project.settings pg_type ∷ []))
        (adopt_tables (plan ∷ plans)) s

  -- The models that are to be adopted on this alias: refusals, the empty set, and the router.
  unfoldable pub models_to_adopt : Apps → Result (List AppModel)
  unfolding refusal_reason adopted_models refuse_empty_set router_allowed_models
  models_to_adopt apps = elim (refusal_reason apps op.app_label) [
    | some _ ↦ raise adoption_refused
    | none ↦ elim (adopted_models project apps op.exclude op.app_label) [
      | raise e ↦ raise e
      | return [] ↦ elim (refuse_empty_set project apps op) [
        | raise e ↦ raise e
        | return _ ↦ return []
      ]
      | return (model ∷ models) ↦ return (router_allowed_models E (model ∷ models))
    ]
  ]

  -- `database_forwards`
  unfoldable pub adopt_forwards : Apps → Step E.State Unit
  unfolding models_to_adopt require_postgresql tenant_pg_type validate_all apply_plans
  adopt_forwards to_state s = elim (models_to_adopt to_state) [
    | raise e ↦ (raise e, s)
    | return [] ↦ (return tt, s)
    | return (model ∷ models) ↦ elim (require_postgresql E) [
      | raise e ↦ (raise e, s)
      | return _ ↦ elim (tenant_pg_type project) [
        | raise e ↦ (raise e, s)
        | return pg_type ↦ elim (validate_all project E op (model ∷ models) pg_type s) [
          | raise e ↦ (raise e, s)
          | return plans ↦ apply_plans pg_type plans s
        ]
      ]
    ]
  ]
