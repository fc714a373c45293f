-- ===== src/Migrations/Policies.antt =====
-- migrations_ops.py: `EnableRLS`, `CreateTenantPolicy` and `DropTenantPolicy`.
pub mod Effects
pub mod Tables
pub mod Restored
use django_boundary.Prelude.{
  ℕ, zero, suc, ◌+◌, ◌≤◌, String, ◌<>◌, ◌≡◌, ◌≢◌, ◌↔◌, ◌⊎◌, inl, inr, refl, sym, ap, ◌∙◌, Bool,
  true, false, not, ◌&&◌, ◌||◌, Option, none, some, List, [], ◌∷◌, ◌++◌, map, arith, ◌==◌,
  string_eq, nat_eq, if◌then◌else◌, Bool-cases, Option-cases, leb, contains, length, Distinct,
  Among, Among-append,
}
use django_boundary.Prelude.Text.{removesuffix}
use django_boundary.Conf.{
  Settings, is_truthy, setting, db_session_var, admin_flag_var, function_leakproof,
}
use django_boundary.Runtime.{Result, return, raise, foreign}
use django_boundary.Adoption.{AppModel, Apps}
use django_boundary.Migrations.{
  Editor, Statement, Step, continue_with, execute_all, create_tenant_id_function,
  create_isolation_policy, create_bypass_policy, enable_rls, force_rls, disable_rls, no_force_rls,
  drop_policy,
}
use django_boundary.Migrations.Names.{detect_tenant_pg_type}

unfoldable pub create_tenant_id_helper : Settings → (pg_type : String) → Statement
create_tenant_id_helper cfg pg_type =
    create_tenant_id_function pg_type (db_session_var cfg) (function_leakproof cfg)

unfoldable pub create_tenant_policies : Settings → (table tenant_column : String) → List Statement
create_tenant_policies cfg table tenant_column =
    create_isolation_policy table tenant_column
    ∷ create_bypass_policy table (admin_flag_var cfg)
    ∷ []

abbrev pub drop_tenant_policies : (table : String) → List Statement
drop_tenant_policies table =
    drop_policy table "boundary_tenant_isolation" ∷ drop_policy table "boundary_admin_bypass" ∷ []

-- The attributes of `EnableRLS`, and of the two operations on policies
pub record EnableRls : Type 0 where
  pub model_name : String
  pub app_label : Option String

pub record TenantPolicy : Type 0 where
  pub model_name : String
  pub tenant_column : String
  pub app_label : Option String

-- The keyword arguments of the constructors
pub record Kwargs : Type 0 where
  pub model_name : String
  pub tenant_column : Option String
  pub app_label : Option String

-- `__init__` of the two operations on policies
unfoldable pub new_policy : Kwargs → TenantPolicy
new_policy kwargs = record {
  model_name = kwargs.model_name;
  tenant_column =
      if is_truthy kwargs.tenant_column then setting kwargs.tenant_column "" else "tenant_id";
  app_label = kwargs.app_label;
}

unfoldable pub deconstruct_policy : TenantPolicy → Kwargs
deconstruct_policy op = record {
  model_name = op.model_name;
  tenant_column = if not (op.tenant_column == "tenant_id") then some op.tenant_column else none;
  app_label = op.app_label;
}

module _ (E : Editor) where
  unfoldable pub router_allows : AppModel → Bool
  router_allows model = E.allow_migrate_model E.alias model

  -- Its log line is left out.
  unfoldable pub is_postgresql_or_logged_noop : Bool
  is_postgresql_or_logged_noop = E.vendor == "postgresql"

  -- What the operations begin with: the model in the state, the router, and the vendor.
  unfoldable pub on_model :
      Apps
      → (own_label : Option String) → (app_label model_name : String)
      → (AppModel → Step E.State Unit)
      → Step E.State Unit
  unfolding router_allows is_postgresql_or_logged_noop
  on_model state own_label app_label model_name body s =
      let label = if is_truthy own_label then setting own_label "" else app_label in
      elim (state.get_model label model_name) [
        | none ↦ (raise (foreign "LookupError"), s)
        | some model ↦
            if not (router_allows model)
            then (return tt, s)
            else if not is_postgresql_or_logged_noop
            then (return tt, s)
            else body model s
      ]

  abbrev pub enabling : (table : String) → List Statement
  enabling table = enable_rls table ∷ force_rls table ∷ []

  abbrev pub enable_on : AppModel → Step E.State Unit
  enable_on model = execute_all E (enabling model.db_table)

  abbrev pub disabling : (table : String) → List Statement
  disabling table = drop_tenant_policies table ++ disable_rls table ∷ no_force_rls table ∷ []

  abbrev pub disable_on : AppModel → Step E.State Unit
  disable_on model = execute_all E (disabling model.db_table)

  module _ (op : EnableRls) (app_label : String) (from_state to_state : Apps) where
    unfoldable pub enable_forwards : Step E.State Unit
    unfolding on_model
    enable_forwards = on_model to_state op.app_label app_label op.model_name enable_on

    unfoldable pub enable_backwards : Step E.State Unit
    unfolding on_model
    enable_backwards = on_model from_state op.app_label app_label op.model_name disable_on

  -- `_detect_tenant_column_type`; the field may not be there, or be no relation
  unfoldable pub detect_tenant_column_type : (tenant_column : String) → AppModel → Result String
  unfolding removesuffix detect_tenant_pg_type
  detect_tenant_column_type tenant_column model =
      elim (model.get_field (removesuffix "_id" tenant_column)) [
        | none ↦ raise (foreign "FieldDoesNotExist")
        | some field ↦ elim field.related_pk_type [
          | none ↦ raise (foreign "AttributeError")
          | some pk_type ↦ return (detect_tenant_pg_type pk_type)
        ]
      ]

  abbrev pub creating : Settings → (table tenant_column pg_type : String) → List Statement
  creating cfg table tenant_column pg_type =
      create_tenant_id_helper cfg pg_type ∷ create_tenant_policies cfg table tenant_column

  abbrev pub create_on : Settings → (tenant_column : String) → AppModel → Step E.State Unit
  create_on cfg tenant_column model =
      continue_with (detect_tenant_column_type tenant_column model)
        (λ pg_type. execute_all E (creating cfg model.db_table tenant_column pg_type))

  abbrev pub drop_on : AppModel → Step E.State Unit
  drop_on model = execute_all E (drop_tenant_policies model.db_table)

  module _ (cfg : Settings) (op : TenantPolicy) (app_label : String)
      (from_state to_state : Apps) where
    unfoldable pub create_forwards : Step E.State Unit
    unfolding on_model
    create_forwards =
        on_model to_state op.app_label app_label op.model_name (create_on cfg op.tenant_column)

    unfoldable pub create_backwards : Step E.State Unit
    unfolding on_model
    create_backwards = on_model from_state op.app_label app_label op.model_name drop_on

    unfoldable pub drop_forwards : Step E.State Unit
    unfolding on_model
    drop_forwards = on_model to_state op.app_label app_label op.model_name drop_on

  -- The `CreateTenantPolicy` that reverses it
  abbrev pub recreated : TenantPolicy → TenantPolicy
  recreated op = new_policy (record {
    model_name = op.model_name;
    tenant_column = some op.tenant_column;
    app_label = op.app_label;
  })

  module _ (cfg : Settings) (op : TenantPolicy) (app_label : String)
      (from_state to_state : Apps) where
    abbrev pub recreate_on : AppModel → Step E.State Unit
    recreate_on _ = create_forwards cfg (recreated op) app_label from_state to_state

    unfoldable pub drop_backwards : Step E.State Unit
    unfolding on_model create_forwards new_policy
    drop_backwards = on_model from_state op.app_label app_label op.model_name recreate_on
