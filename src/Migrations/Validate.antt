-- ===== src/Migrations/Validate.antt =====
-- migrations_ops.py: `AdoptTenantApp`, its validation of every table before the first statement.
use django_boundary.Prelude.{
  ℕ, String, Bool, not, ◌||◌, Option, none, some, List, [], ◌∷◌, ◌==◌, string_eq, nat_eq,
  if◌then◌else◌,
}
use django_boundary.Models.{is_some}
use django_boundary.Runtime.{Result, return, raise, foreign, adoption_refused}
use django_boundary.Adoption.{
  AppModel, Apps, Project, refusal_reason_for_model, tenant_model_label, get_tenant_model,
  filter_models,
}
use django_boundary.Migrations.{Editor, UniqueConstraint, UniqueIndex}
use django_boundary.Migrations.Names.{pg_type_of, pg_types_match}

pub record AdoptTenantApp : Type 0 where
  pub app_label : String
  pub exclude : List String
  pub backfill_tenant : Option String

-- `_AdoptionPlan`; the model and its label, which only messages read, are left out.
pub record AdoptionPlan : Type 0 where
  pub table : String
  pub pg_type : String
  pub existing_rows : ℕ
  pub rewrites : List (String × List String)

-- The keyword arguments of `deconstruct`
pub record AdoptKwargs : Type 0 where
  pub app_label : String
  pub exclude : Option (List String)
  pub backfill_tenant : Option String

-- `__init__`, with `exclude=()` by default
unfoldable pub new_adopt : AdoptKwargs → AdoptTenantApp
new_adopt kwargs = record {
  app_label = kwargs.app_label;
  exclude = elim kwargs.exclude [ none ↦ [] | some exclude ↦ exclude ];
  backfill_tenant = kwargs.backfill_tenant;
}

unfoldable pub deconstruct_adopt : AdoptTenantApp → AdoptKwargs
deconstruct_adopt op = record {
  app_label = op.app_label;
  exclude = elim op.exclude [ [] ↦ none | _ ↦ some op.exclude ];
  backfill_tenant = op.backfill_tenant;
}

-- The loop over the unique indexes: one that backs a constraint or the primary key is passed over, and any
-- other is refused, with a message for a partial one, for an expression, and for a bare one.
unfoldable pub check_indexes : List UniqueIndex → Result Unit
check_indexes [] = return tt
check_indexes (index ∷ indexes) =
    let rest = check_indexes indexes in
    if index.primary || is_some index.constraint then rest else raise adoption_refused

-- The loop over the unique constraints
unfoldable pub plan_constraints : List UniqueConstraint → Result (List (String × List String))
plan_constraints [] = return []
plan_constraints (constraint ∷ constraints) =
    let rest = plan_constraints constraints in
    if constraint.deferrable
    then raise adoption_refused
    else if constraint.fk_targeted
    then raise adoption_refused
    else elim rest [
      | raise e ↦ raise e
      | return rewrites ↦ return ((constraint.name, "tenant_id" ∷ constraint.columns) ∷ rewrites)
    ]

module _ (E : Editor) where
  unfoldable pub plan_unique_rewrites :
      (table : String) → E.State → Result (List (String × List String))
  unfolding check_indexes plan_constraints
  plan_unique_rewrites table s = elim (check_indexes (E.unique_indexes s table)) [
    | raise e ↦ raise e
    | return _ ↦ plan_constraints (E.unique_constraints s table)
  ]

  unfoldable pub router_allowed_models : List AppModel → List AppModel
  unfolding filter_models
  router_allowed_models models = filter_models (λ model. E.allow_migrate_model E.alias model) models

  unfoldable pub require_postgresql : Result Unit
  require_postgresql = if E.vendor == "postgresql" then return tt else raise adoption_refused

module _ (project : Project) where
  unfoldable pub tenant_pg_type : Result String
  unfolding get_tenant_model pg_type_of
  tenant_pg_type = elim (get_tenant_model project) [
    | raise e ↦ raise e
    | return model ↦ elim (pg_type_of model.pk_type) [
      | none ↦ raise adoption_refused
      | some pg_type ↦ return pg_type
    ]
  ]

  -- It always raises; the reasons that its message lists are left out.
  unfoldable pub refuse_empty_set : Apps → AdoptTenantApp → Result Unit
  unfolding tenant_model_label
  refuse_empty_set apps op = elim (tenant_model_label project) [
    | raise e ↦ raise e
    | return _ ↦ elim (apps.get_models op.app_label) [
      | none ↦ raise (foreign "LookupError")
      | some _ ↦ raise adoption_refused
    ]
  ]

module _ (project : Project) (E : Editor) (op : AdoptTenantApp) where
  abbrev pub backfilled : ℕ → Bool
  backfilled existing_rows = existing_rows == 0 || is_some op.backfill_tenant

  -- `return None` is `return none`: the table is adopted already.
  unfoldable pub validate_table :
      AppModel → (pg_type : String) → E.State → Result (Option AdoptionPlan)
  unfolding pg_types_match refusal_reason_for_model plan_unique_rewrites
  validate_table model pg_type s =
      let table = model.db_table in
      elim (E.column_type s table "tenant_id") [
        | some existing ↦
            if pg_types_match existing pg_type then return none else raise adoption_refused
        | none ↦ elim (refusal_reason_for_model project none model) [
          | raise e ↦ raise e
          | return (some _) ↦ raise adoption_refused
          | return none ↦
              let existing_rows = E.row_count s table in
              if not (backfilled existing_rows)
              then raise adoption_refused
              else elim (plan_unique_rewrites E table s) [
                | raise e ↦ raise e
                | return rewrites ↦ return (
                    some (record {
                      table = table;
                      pg_type = pg_type;
                      existing_rows = existing_rows;
                      rewrites = rewrites;
                    }))
              ]
        ]
      ]

  -- The loop of the plans
  unfoldable pub validate_all :
      List AppModel → (pg_type : String) → E.State → Result (List AdoptionPlan)
  unfolding validate_table
  validate_all [] pg_type s = return []
  validate_all (model ∷ models) pg_type s =
      let rest = validate_all models pg_type s in
      elim (validate_table model pg_type s) [
        | raise e ↦ raise e
        | return none ↦ rest
        | return (some plan) ↦ elim rest [
          | raise e ↦ raise e
          | return plans ↦ return (plan ∷ plans)
        ]
      ]
