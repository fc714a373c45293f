-- ===== src/Commands/Deprovision.antt =====
-- boundary_deprovision: a tenant's rows are counted, exported and deleted, and then the tenant.
pub mod Order
pub mod Export
use django_boundary.Prelude.{
  ℕ, ltb, String, ◌≡◌, ◌⊎◌, refl, Bool, true, false, not, ◌&&◌, ◌||◌, Option, none, some, List, [],
  ◌∷◌, ◌++◌, arith, if◌then◌else◌, ◌==◌, string_eq, contains,
}
use django_boundary.Conf.{Settings, setting, is_truthy}
use django_boundary.Runtime.{
  Tenant, Exception, Result, return, raise, World, Action, and_then, ◌>>=◌,
}
use django_boundary.Runtime.Database.{Database}
use django_boundary.Context.Bypass.{admin_bypass}
use django_boundary.Models.{Model, Registry, is_tenant_model, get_tenant_lookup}
use django_boundary.Commands.{Tenants, resolve_identifier, ImportHook, call_hook}
use django_boundary.Conf.{pre_deprovision_hook}
use django_boundary.Prelude.{◌<>◌}

-- A model of the app registry, or of an adopted table: its labels, `_meta.abstract`, and the alias
-- that the router names for writing it.
pub record Table : Type 0 where
  pub model : Model
  pub app_label : String
  pub db_table : String
  pub abstract : Bool
  pub alias : String

-- What the command writes to the terminal.
pub data Output : Type 0 where
  would_delete about_to_delete : Tenant → Output
  rows : (described : String) → ℕ → Output
  aborted : Output
  exported_to : (path : String) → Output
  deleted : (pk : String) → Output

-- What the command calls: the terminal, the two registries, queries through `unscoped`, SQL on adopted tables,
-- `import_string`, the export to a file, the operator's answer, and `tenant.delete()`.
pub record Removal (Db : Type 0) : Type 0 where
  pub registry : Registry
  pub models : List Table
  pub adopted : List Table
  pub import_string : ImportHook Db
  pub write : Output → Action Db Unit
  pub count : Table → (lookup : String) → Tenant → Action Db ℕ
  pub count_adopted : Table → Tenant → Action Db ℕ
  pub answer : String
  pub export : (path : String) (batch_size : ℕ) → Tenant → Action Db Unit
  pub delete : Table → (lookup : String) → Tenant → Action Db Unit
  pub delete_adopted : Table → Tenant → Action Db Unit
  pub delete_tenant : Tenant → Action Db Unit

pub record Flags : Type 0 where
  pub tenant : String
  pub export : Option String
  pub batch_size : ℕ
  pub dry_run : Bool
  pub yes : Bool

-- `get_tenant_lookup(model) or "tenant"`
abbrev pub lookup_of : Model → String
lookup_of model =
    if is_truthy (get_tenant_lookup model) then setting (get_tenant_lookup model) "" else "tenant"

abbrev pub tables_of : List Table → List String
tables_of [] = []
tables_of (t ∷ ts) = t.db_table ∷ tables_of ts

-- A table in which the tenant has rows, and their number
abbrev pub Affected : Type 0
Affected = Table × ℕ

-- The two loops of `_collect_affected`
counted : {Db : Type 0} → (count : Table → Action Db ℕ) → List Table → Action Db (List Affected)
counted count [] w = (return [], w)
counted count (t ∷ ts) w =
    (do
      n ← count t
      rest ← counted count ts
      λ w'. (return (if ltb 0 n then (t, n) ∷ rest else rest), w'))
      w

scoped_models : Registry → List Table → List Table
scoped_models registry [] = []
scoped_models registry (t ∷ ts) =
    let rest = scoped_models registry ts in
    if not (is_tenant_model registry t.model) || t.abstract then rest else t ∷ rest

-- `_describe`
unfoldable pub describe : (adopted_tables : List String) → Table → String
describe adopted_tables t =
    if contains adopted_tables t.db_table
    then t.app_label <> ("." <> (t.model.name <> (" (adopted table " <> (t.db_table <> ")"))))
    else t.model.name

-- Whether the command goes on after it has counted.
unfoldable pub goes_on : (answer : String) → Flags → Bool
goes_on answer flags = not flags.dry_run && (flags.yes || answer == "yes")

module _ (cfg : Settings) (D : Database) (tenants : Tenants) (R : Removal D.State) where
  -- The SQL on an adopted table runs inside `admin_bypass`, on the alias that the router names.
  abbrev count_adopted_rows : Tenant → Table → Action D.State ℕ
  count_adopted_rows tenant t = admin_bypass cfg D t.alias (R.count_adopted t tenant)

  abbrev delete_adopted_rows : Tenant → Table → Action D.State Unit
  delete_adopted_rows tenant t = admin_bypass cfg D t.alias (R.delete_adopted t tenant)

  unfoldable pub collect_affected : Tenant → Action D.State (List Affected)
  unfolding counted scoped_models
  collect_affected tenant w =
      (do
        scoped ←
            counted (λ t. R.count t (lookup_of t.model) tenant) (scoped_models R.registry R.models)
        adopted ← counted (count_adopted_rows tenant) R.adopted
        λ w'. (return (scoped ++ adopted), w'))
        w

  -- The loop of the deletion.
  delete_each : Tenant → List Affected → Action D.State Unit
  delete_each tenant [] w = (return tt, w)
  delete_each tenant ((t, n) ∷ ts) w =
      (do
        done ←
            if contains (tables_of R.adopted) t.db_table
            then delete_adopted_rows tenant t
            else R.delete t (lookup_of t.model) tenant
        delete_each tenant ts)
        w

  unfoldable pub run_hook : Tenant → Action D.State Unit
  unfolding call_hook
  run_hook tenant = call_hook (pre_deprovision_hook cfg) R.import_string tenant

  -- The list of the tables, for `_print_dry_run` and for the operator
  unfoldable pub print_affected : Output → List Affected → Action D.State Unit
  unfolding describe
  print_affected heading [] = R.write heading
  print_affected heading ((t, n) ∷ affected) = R.write heading >>= λ written.
      print_affected (rows (describe (tables_of R.adopted) t) n) affected

  -- What comes after the count: `rest` is the export and the deletion.
  unfoldable pub proceed :
      Flags → Tenant → List Affected → (rest : Action D.State Unit) → Action D.State Unit
  unfolding print_affected
  proceed flags tenant affected rest =
      if flags.dry_run
      then print_affected (would_delete tenant) affected
      else if flags.yes
      then rest
      else print_affected (about_to_delete tenant) affected >>= λ printed.
          (if R.answer == "yes" then rest else R.write aborted)

  run_export : Flags → Tenant → Action D.State Unit
  run_export flags tenant =
      if is_truthy flags.export
      then (R.export (setting flags.export "") flags.batch_size tenant >>= λ exported.
          R.write (exported_to (setting flags.export "")))
      else λ w. (return tt, w)

  -- The deletion, once the export is done.
  remove : Tenant → List Affected → Action D.State Unit
  unfolding delete_each
  remove tenant affected = delete_each tenant affected >>= λ done.
      R.delete_tenant tenant >>= λ gone. R.write (deleted tenant.pk)

  -- `handle` of boundary_deprovision
  pub deprovision : Flags → Action D.State Unit
  unfolding resolve_identifier run_hook collect_affected run_export remove proceed
  deprovision flags w =
      and_then (resolve_identifier tenants flags.tenant)
        (λ tenant. run_hook tenant >>= λ hooked. collect_affected tenant >>= λ affected.
          proceed flags tenant affected
            (run_export flags tenant >>= λ exported. remove tenant affected))
        w
