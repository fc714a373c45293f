-- ===== src/Models/Rows.antt =====
-- models.py: the rows that the managers and `save` let through to Django.
use django_boundary.Models.{
  get_or_create, inject_all, Model, Row, is_row_of, has_tenant_column, populate, check_rows,
  bulk_create, bulk_update, save, unscoped_create, Dict, Value, inject_into, tenant_value, Result,
}
use django_boundary.Prelude.{
  none, ◌||◌, not, ◌&&◌, ◌==◌, ◌<>◌, string_eq, Bool-cases, ap, ◌∙◌, Option-cases, inl, inr, String,
  ◌≡◌, refl, true, some, List, [], ◌∷◌, arith, if◌then◌else◌, all, Option, false,
}
use django_boundary.Conf.{setting}
use django_boundary.Prelude.Dict.{Dict, lookup, has_key, lookup-insert}
use django_boundary.Runtime.{Tenant, World, Action, return, raise, value_error}

-- The rows that Django gets are, one by one, the rows that were given: with their tenant where they
-- have one, and with the active tenant where they have none.
abbrev pub IsStamped : Tenant → List Row → List Row → Type 0
IsStamped tenant [] [] = Unit
IsStamped tenant (obj ∷ objs) (obj' ∷ objs') =
    (obj'.pk ≡ obj.pk)
    × (obj'.skip_auto_populate ≡ obj.skip_auto_populate)
    × (obj'.tenant_id ≡ some (setting obj.tenant_id tenant.pk))
    × IsStamped tenant objs objs'
IsStamped tenant _ _ = ⊥

populate-IsStamped :
    (tenant : Tenant) (objs : List Row) → IsStamped tenant objs (populate tenant objs)
unfolding populate
populate-IsStamped tenant [] = tt
populate-IsStamped tenant (obj ∷ objs) = (
  ground arith,
  ground arith,
  elim (Option-cases obj.tenant_id) [ inl e ↦ ground arith | inr (pk, e) ↦ ground arith ],
  populate-IsStamped tenant objs,
)

check_rows-eq :
    (tenant : Tenant) (objs : List Row)
    → check_rows tenant objs
      ≡ (if all (is_row_of tenant) objs then return tt else raise value_error)
unfolding check_rows
check_rows-eq tenant [] = refl
check_rows-eq tenant (obj ∷ objs) = ground (arith, check_rows-eq tenant objs)

module _ {Db A : Type 0} (model : Model) (owned : has_tenant_column model ≡ true)
    (w : World Db) where
  -- On a model with a tenant column and under a tenant, `bulk_create` is Django's on the rows, each
  -- with its own tenant or else the active one, and otherwise as it was given.
  pub bulk_create-IsStamped :
      (super : List Row → Action Db A) (objs : List Row) (tenant : Tenant)
      → w.current_tenant ≡ some tenant
      → (objs' : List Row) × (bulk_create model super objs w ≡ super objs' w)
        × IsStamped tenant objs objs'
  unfolding bulk_create
  bulk_create-IsStamped super objs tenant active =
      (populate tenant objs, ground arith, populate-IsStamped tenant objs)

  -- On a model with a tenant column and under a tenant, `bulk_update` is Django's if every row is
  -- the tenant's; otherwise it raises `ValueError` before Django is called.
  bulk_update-eq :
      (super : List Row → Action Db A) (objs : List Row) (tenant : Tenant)
      → w.current_tenant ≡ some tenant
      → bulk_update model super objs w
        ≡ (if all (is_row_of tenant) objs then super objs w else (raise value_error, w))
  unfolding bulk_update
  bulk_update-eq super objs tenant active = ground (arith, check_rows-eq tenant objs)

  -- On a model with a tenant column and under a tenant, `save` is Django's on a row with the same
  -- key: one that is marked unscoped keeps its column, any other has its own tenant or else the
  -- active one.
  pub save-IsStamped :
      (super : Row → Action Db A) (obj : Row) (tenant : Tenant)
      → w.current_tenant ≡ some tenant
      → (obj' : Row) × (save model super obj w ≡ super obj' w)
        × ((if obj.skip_auto_populate
              then obj.tenant_id
              else some (setting obj.tenant_id tenant.pk))
            ≡ obj'.tenant_id)
        × (obj'.pk ≡ obj.pk)
  unfolding save
  save-IsStamped super obj tenant active =
      let given : Option String =
        if obj.skip_auto_populate then obj.tenant_id else some (setting obj.tenant_id tenant.pk) in
      let with_id : Option String → Result A × World Db =
        λ x. super (record obj { tenant_id = x }) w in
      (
        record obj { tenant_id = given },
        elim (Option-cases obj.tenant_id) [
          | inl unset ↦ elim (Bool-cases obj.skip_auto_populate) [
            | inl marked ↦
                let same : obj.tenant_id ≡ given = ground arith in
                let kept : save model super obj w ≡ with_id obj.tenant_id = ground arith in
                kept ∙ ap with_id same
            | inr unmarked ↦
                let same : some tenant.pk ≡ given = ground arith in
                let stamped : save model super obj w ≡ with_id (some tenant.pk) = ground arith in
                stamped ∙ ap with_id same
          ]
          | inr (pk, own) ↦
              let same : obj.tenant_id ≡ given = ground arith in
              let kept : save model super obj w ≡ with_id obj.tenant_id = ground arith in
              kept ∙ ap with_id same
        ],
        refl,
        refl,
      )

  -- `UnscopedManager.create` stamps nothing, whatever tenant is active.
  unscoped_create-eq :
      (super : Row → Action Db A) (obj : Row)
      → unscoped_create model super obj w ≡ super (record obj { skip_auto_populate = true }) w
  unfolding unscoped_create save
  unscoped_create-eq super obj = ground arith

module _ (field : String) (tenant : Tenant) (d : Dict Value) where
  -- Injecting the tenant into keyword arguments puts it under the field where neither name of the
  -- field was supplied, and keeps every other argument.
  lookup-inject_into :
      (j : String)
      → lookup j (inject_into field tenant d) ≡ (
          if j == field && not (has_key field d || has_key (field <> "_id") d)
          then some (tenant_value tenant)
          else lookup j d)
  unfolding inject_into
  lookup-inject_into j = ground (arith, lookup-insert j field (tenant_value tenant) d)

module _ (field : String) (tenant : Tenant) where
  -- The arguments are those that were given, with the tenant under the field where neither of its
  -- two names was among them.
  abbrev IsInjected : Dict Value → Dict Value → Type 0
  IsInjected d d' =
      (j : String)
      → lookup j d' ≡ (
          if j == field && not (has_key field d || has_key (field <> "_id") d)
          then some (tenant_value tenant)
          else lookup j d)

  abbrev AllInjected : List (Option (Dict Value)) → List (Option (Dict Value)) → Type 0
  AllInjected [] [] = Unit
  AllInjected (none ∷ ds) (none ∷ ds') = AllInjected ds ds'
  AllInjected (some d ∷ ds) (some d' ∷ ds') = IsInjected d d' × AllInjected ds ds'
  AllInjected _ _ = ⊥

  inject_all-AllInjected :
      (ds : List (Option (Dict Value))) → AllInjected ds (inject_all field tenant ds)
  unfolding inject_all
  inject_all-AllInjected [] = tt
  inject_all-AllInjected (none ∷ ds) = inject_all-AllInjected ds
  inject_all-AllInjected (some d ∷ ds) =
      ((λ j. lookup-inject_into field tenant d j), inject_all-AllInjected ds)

-- On a model with a tenant column and under a tenant, `get_or_create` and `update_or_create` are
-- Django's on the lookup and the defaults that were given, each with the tenant under the field
-- where neither of its two names was among them, and otherwise unchanged.
get_or_create-IsInjected :
    {Db A : Type 0} (model : Model) (w : World Db)
    (super : Dict Value → List (Option (Dict Value)) → Action Db A) (given : Dict Value)
    (defaults_dicts : List (Option (Dict Value))) (tenant : Tenant) (field : String)
    → has_tenant_column model ≡ true
    → model.boundary_fk_field ≡ some field
    → w.current_tenant ≡ some tenant
    → (given' : Dict Value) × (defaults_dicts' : List (Option (Dict Value))) × (get_or_create model
          super given defaults_dicts w
        ≡ super given' defaults_dicts' w)
      × IsInjected field tenant given given'
      × AllInjected field tenant defaults_dicts defaults_dicts'
unfolding get_or_create
get_or_create-IsInjected model w super given defaults_dicts tenant field owned named active = (
  inject_into field tenant given,
  inject_all field tenant defaults_dicts,
  ground arith,
  (λ j. lookup-inject_into field tenant given j),
  inject_all-AllInjected field tenant defaults_dicts,
)

-- On a model with no tenant column, `save` is Django's.
pub save_columnless :
    {Db A : Type 0} (model : Model)
    → has_tenant_column model ≡ false
    → (super : Row → Action Db A) (obj : Row) (w : World Db) → save model super obj w ≡ super obj w
unfolding save
save_columnless model columnless super obj w = rw (save, columnless) refl
