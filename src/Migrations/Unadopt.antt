-- ===== src/Migrations/Unadopt.antt =====
-- migrations_ops.py: `AdoptTenantApp`, backwards.
pub mod Restoring
pub mod Removed
pub mod Repeated
use django_boundary.Prelude.{
  ℕ, zero, suc, ◌+◌, ◌≤◌, String, ◌<>◌, ◌≡◌, ◌≢◌, ◌↔◌, ◌⊎◌, inl, inr, refl, sym, ap, ◌∙◌, Bool,
  true, false, not, ◌&&◌, ◌||◌, Option, none, some, List, [], ◌∷◌, ◌++◌, map, arith, ◌==◌,
  string_eq, nat_eq, if◌then◌else◌, Bool-cases, Option-cases, leb, contains, length, Distinct,
  Among, Among-append,
}
use django_boundary.Runtime.{Result, return, raise}
use django_boundary.Resolvers.Host.{same_labels}
use django_boundary.Adoption.{AppModel, Apps, Project, Column, adopted_models}
use django_boundary.Migrations.{
  Editor, Statement, Step, and_next, execute_all, drop_constraint, drop_tenant_column,
  UniqueConstraint,
}
use django_boundary.Migrations.Names.{historical_unique_column_sets, unique_sql}
use django_boundary.Migrations.Policies.{disabling}
use django_boundary.Migrations.Validate.{AdoptTenantApp, router_allowed_models, require_postgresql}

-- The first constraint on exactly the columns
unfoldable pub find_constraint : List UniqueConstraint → (wanted : List String) → Option String
find_constraint [] wanted = none
find_constraint (constraint ∷ live) wanted =
    let rest = find_constraint live wanted in
    if same_labels constraint.columns wanted then some constraint.name else rest

abbrev pub wanted_columns : List Column → List String
wanted_columns columns = "tenant_id" ∷ map (λ field. field.column) columns

module _ (E : Editor) (model : AppModel) where
  -- The original constraint, where Django has a statement for it
  abbrev pub recreate_by : Option Statement → Step E.State Unit
  recreate_by none = execute_all E []
  recreate_by (some statement) = execute_all E (statement ∷ [])

  -- The body of the loop, given the constraint that was found, and the rest of the loop
  abbrev pub restore_found :
      (table : String) → Option String → List Column → Step E.State Unit → Step E.State Unit
  restore_found table none columns rest = rest
  restore_found table (some name) columns rest =
      and_next (execute_all E (drop_constraint table name ∷ []))
        (and_next (recreate_by (unique_sql E model columns)) rest)

  -- The loop over the historical sets, which finds the constraints in the list `live` that was read
  -- before it
  unfoldable pub restore_sets :
      (table : String) (live : List UniqueConstraint)
      → List (Result (List Column))
      → Step E.State Unit
  unfolding find_constraint unique_sql
  restore_sets table live [] = λ s. (return tt, s)
  restore_sets table live (raise e ∷ sets) = λ s. (raise e, s)
  restore_sets table live (return columns ∷ sets) =
      restore_found table (find_constraint live (wanted_columns columns)) columns
        (restore_sets table live sets)

  unfoldable pub restore_unique_constraints : (table : String) → Step E.State Unit
  unfolding restore_sets historical_unique_column_sets
  restore_unique_constraints table s =
      restore_sets table (E.unique_constraints s table) (historical_unique_column_sets model) s

  unfoldable pub unadopt_table : Step E.State Unit
  unfolding restore_unique_constraints
  unadopt_table s =
      let table = model.db_table in
      elim (E.column_type s table "tenant_id") [
        | none ↦ (return tt, s)
        | some _ ↦
            and_next (execute_all E (disabling E table))
              (and_next (restore_unique_constraints table)
                (execute_all E (drop_tenant_column table ∷ [])))
              s
      ]

module _ (E : Editor) where
  unfoldable pub unadopt_tables : List AppModel → Step E.State Unit
  unfolding unadopt_table
  unadopt_tables [] s = (return tt, s)
  unadopt_tables (model ∷ models) s = and_next (unadopt_table E model) (unadopt_tables models) s

module _ (project : Project) (E : Editor) (op : AdoptTenantApp) where
  -- `database_backwards`
  unfoldable pub adopt_backwards : (from_state : Apps) → Step E.State Unit
  unfolding adopted_models router_allowed_models require_postgresql unadopt_tables
  adopt_backwards from_state s = elim (adopted_models project from_state op.exclude op.app_label) [
    | raise e ↦ (raise e, s)
    | return adopted ↦ elim (router_allowed_models E adopted) [
      | [] ↦ (return tt, s)
      | model ∷ models ↦ elim (require_postgresql E) [
        | raise e ↦ (raise e, s)
        | return _ ↦ unadopt_tables E (model ∷ models) s
      ]
    ]
  ]
