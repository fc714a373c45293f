-- ===== src/Models.antt =====
-- models.py: which models are scoped to a tenant, and the managers that filter and stamp their rows.
pub mod Fields
pub mod Rows
pub mod Crossing
pub mod Unique
pub mod Mixins
use django_boundary.Prelude.{
  String, ◌<>◌, Bool, true, false, not, ◌&&◌, Option, none, some, List, [], ◌∷◌, ◌==◌, string_eq,
  if◌then◌else◌, contains, ◌==◌,
}
use django_boundary.Prelude.Dict.{Dict, insert, has_key}
use django_boundary.Conf.{Settings, setting, strict_mode, is_truthy}
use django_boundary.Runtime.{
  Tenant, Result, return, raise, tenant_not_set, value_error, World, Action, send,
  strict_mode_violation, ◌>>=◌, and_then,
}
use django_boundary.Context.Tenant.{get_tenant, require}

-- What boundary reads of a model class: its name, `boundary_tenant_path`, and `_boundary_fk_field`.
pub record Model : Type 0 where
  pub name : String
  pub boundary_tenant_path : Option String
  pub boundary_fk_field : Option String

-- `_tenant_model_registry`, by the names of the classes
abbrev pub Registry : Type 0
Registry = List String

abbrev pub is_some : {A : Type 0} → Option A → Bool
is_some none = false
is_some (some _) = true

unfoldable pub is_tenant_model : Registry → Model → Bool
is_tenant_model registry model =
    if contains registry model.name
    then true
    else if is_truthy model.boundary_tenant_path
    then true
    else is_some model.boundary_fk_field

unfoldable pub get_tenant_fk_field : Model → Option String
get_tenant_fk_field model =
    if is_truthy model.boundary_tenant_path then none else model.boundary_fk_field

unfoldable pub get_tenant_lookup : Model → Option String
get_tenant_lookup model =
    if is_truthy model.boundary_tenant_path
    then model.boundary_tenant_path
    else model.boundary_fk_field

unfoldable pub has_tenant_column : Model → Bool
has_tenant_column model =
    if is_truthy model.boundary_tenant_path then false else is_some model.boundary_fk_field

-- `getattr(self.model, "_boundary_fk_field", "tenant")`
abbrev fk_field : Model → String
fk_field model = setting model.boundary_fk_field "tenant"

-- What `get_queryset` returns: `qs`, or `qs.filter(**{lookup: tenant})`.
pub data Queryset : Type 0 where
  unfiltered : Queryset
  filtered_by : (lookup : String) (tenant : Tenant) → Queryset

-- A row object: its tenant column `<fk_field>_id`, and the mark
-- `_boundary_skip_auto_populate`.
pub record Row : Type 0 where
  pub pk : Option String
  pub tenant_id : Option String
  pub skip_auto_populate : Bool

-- `lookup or "tenant"`
abbrev lookup_or_tenant : Option String → String
lookup_or_tenant lookup = if is_truthy lookup then setting lookup "" else "tenant"

-- `setattr(obj, fk_field, tenant)`, which sets the column to the tenant's key
abbrev stamp : Tenant → Row → Row
stamp tenant obj = record obj { tenant_id = some tenant.pk }

-- The loop of `TenantManager.bulk_create`.
pub populate : Tenant → List Row → List Row
populate tenant [] = []
populate tenant (obj ∷ objs) =
    (if is_some obj.tenant_id then obj else stamp tenant obj) ∷ populate tenant objs

-- `getattr(obj, fk_id_field) == tenant.pk`
abbrev pub is_row_of : Tenant → Row → Bool
is_row_of tenant obj = elim obj.tenant_id [ none ↦ false | some pk ↦ pk == tenant.pk ]

-- The loop of `TenantManager.bulk_update`, which raises at the first row of another tenant.
pub check_rows : Tenant → List Row → Result Unit
check_rows tenant [] = return tt
check_rows tenant (obj ∷ objs) =
    let rest = check_rows tenant objs in
    if not (is_row_of tenant obj) then raise value_error else rest

-- The values of keyword arguments: a tenant, or something else.
pub data Value : Type 0 where
  tenant_value : Tenant → Value
  other_value : String → Value

-- One `if` of `_inject_tenant_kwargs`.
pub inject_into : String → Tenant → Dict Value → Dict Value
inject_into field tenant d =
    if not (has_key field d) && not (has_key (field <> "_id") d)
    then insert field (tenant_value tenant) d
    else d

-- The loop over `defaults_dicts`.
pub inject_all : String → Tenant → List (Option (Dict Value)) → List (Option (Dict Value))
unfolding inject_into
inject_all field tenant [] = []
inject_all field tenant (none ∷ ds) = none ∷ inject_all field tenant ds
inject_all field tenant (some d ∷ ds) =
    some (inject_into field tenant d) ∷ inject_all field tenant ds

module _ (cfg : Settings) {Db : Type 0} (model : Model) where
  pub get_queryset : Action Db Queryset
  unfolding get_tenant_lookup
  get_queryset w = elim (get_tenant w) [
    | some tenant ↦ (return (filtered_by (lookup_or_tenant (get_tenant_lookup model)) tenant), w)
    | none ↦
        if strict_mode cfg
        then (raise tenant_not_set, send strict_mode_violation w)
        else (return unfiltered, w)
  ]

-- The operations end in Django's own, a parameter.
module _ {Db A : Type 0} (model : Model) where
  pub bulk_create : (List Row → Action Db A) → List Row → Action Db A
  unfolding has_tenant_column populate require
  bulk_create super objs w =
      if not (has_tenant_column model)
      then super objs w
      else (do tenant ← require; super (populate tenant objs)) w

  pub bulk_update : (List Row → Action Db A) → List Row → Action Db A
  unfolding has_tenant_column check_rows require
  bulk_update super objs w =
      if not (has_tenant_column model)
      then super objs w
      else (do tenant ← require; and_then (check_rows tenant objs) (λ _. super objs)) w

  -- `save` of the mixins
  pub save : (Row → Action Db A) → Row → Action Db A
  unfolding has_tenant_column require
  save super obj w =
      if has_tenant_column model && not (is_some obj.tenant_id) && not obj.skip_auto_populate
      then (do tenant ← require; super (stamp tenant obj)) w
      else super obj w

  -- `get_or_create` and `update_or_create`: the lookup and the defaults, injected, go to Django's.
  pub get_or_create :
      (Dict Value → List (Option (Dict Value)) → Action Db A)
      → Dict Value
      → List (Option (Dict Value))
      → Action Db A
  unfolding has_tenant_column inject_all require
  get_or_create super lookup defaults_dicts w =
      if not (has_tenant_column model)
      then super lookup defaults_dicts w
      else (require >>= (λ tenant.
            super (inject_into (fk_field model) tenant lookup)
              (inject_all (fk_field model) tenant defaults_dicts)))
          w

-- `UnscopedManager.bulk_create` and `create`: every row is marked.
mark_unscoped : List Row → List Row
mark_unscoped [] = []
mark_unscoped (obj ∷ objs) = record obj { skip_auto_populate = true } ∷ mark_unscoped objs

module _ {Db A : Type 0} (model : Model) where
  unfoldable unscoped_bulk_create : (List Row → Action Db A) → List Row → Action Db A
  unfolding mark_unscoped
  unscoped_bulk_create super objs = super (mark_unscoped objs)

  -- `instance.save(force_insert=True)` is the model's own `save`.
  pub unscoped_create : (Row → Action Db A) → Row → Action Db A
  unfolding save
  unscoped_create super obj = save model super (record obj { skip_auto_populate = true })
