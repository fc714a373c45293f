-- ===== src/Models/Crossing.antt =====
-- models.py: `validate_cross_tenant_fks`, which keeps a row from pointing at another tenant's row.
use django_boundary.Conf.{setting}
use django_boundary.Prelude.{
  ◌==◌, string_eq, ◌≢◌, ◌↔◌, ◌⊎◌, inl, inr, Bool-cases, Option-cases, ◌∙◌, String, ◌<>◌, ◌≡◌, Bool,
  false, Option, none, some, List, [], ◌∷◌, arith, if◌then◌else◌, ◌&&◌, not, ◌||◌, true,
}
use django_boundary.Prelude.Dict.{Dict, lookup, insert, has_key, lookup-insert}
use django_boundary.Models.{
  Model, Registry, is_tenant_model, has_tenant_column, get_tenant_fk_field,
}

-- A field of `_meta.get_fields()`: whether it is a many-to-one foreign key, and the model it relates
-- to, `none` where that is no class.
pub record Field : Type 0 where
  pub name : String
  pub attname : String
  pub is_foreign_key : Bool
  pub related_model : Option Model

-- An instance: its model, the fields of the model, and its attributes that are set.
pub record Instance : Type 0 where
  pub model : Model
  pub fields : List Field
  pub values : Dict String

module _ (registry : Registry)
    -- the tenant of the row of a model with a key, read through the `unscoped` manager
    (tenant_of_row : Model → (fk_id_field : String) → (pk : String) → Option String) where
  -- The tenant that a field's target belongs to, where the loop compares it.
  target_tenant : Instance → Model → Field → Option String
  target_tenant instance target_model field =
      if is_tenant_model registry target_model && has_tenant_column target_model
      then elim (lookup field.attname instance.values) [
        | none ↦ none
        | some target_id ↦
            tenant_of_row target_model (setting (get_tenant_fk_field target_model) "None" <> "_id")
              target_id
      ]
      else none

  -- The tenant of a field's target, for the fields that the loop does not skip.
  checked_tenant : Instance → String → Field → Option String
  unfolding target_tenant
  checked_tenant instance own_fk_field field =
      if not field.is_foreign_key || field.name == own_fk_field
      then none
      else elim field.related_model [
        | none ↦ none
        | some target_model ↦ target_tenant instance target_model field
      ]

  -- The comparison of the two tenants.
  add_error : (own_tenant_id name : String) → Option String → Dict String → Dict String
  add_error own_tenant_id name none errors = errors
  add_error own_tenant_id name (some target_tenant_id) errors =
      if target_tenant_id == own_tenant_id then errors else insert name target_tenant_id errors

  -- The loop: `errors`, by field, each with the other tenant.
  cross_errors :
      Instance → (own_fk_field own_tenant_id : String) → List Field → Dict String → Dict String
  unfolding checked_tenant add_error
  cross_errors instance own_fk_field own_tenant_id [] errors = errors
  cross_errors instance own_fk_field own_tenant_id (field ∷ fields) errors =
      cross_errors instance own_fk_field own_tenant_id fields
        (add_error own_tenant_id field.name (checked_tenant instance own_fk_field field) errors)

  -- The errors of the `ValidationError`; with none, nothing is raised.
  pub validate_cross_tenant_fks : Instance → Dict String
  unfolding cross_errors get_tenant_fk_field
  validate_cross_tenant_fks instance = elim (get_tenant_fk_field instance.model) [
    | none ↦ []
    | some own_fk_field ↦ elim (lookup (own_fk_field <> "_id") instance.values) [
      | none ↦ []
      | some own_tenant_id ↦ cross_errors instance own_fk_field own_tenant_id instance.fields []
    ]
  ]

  -- The tenant of a target is another one.
  abbrev is_other : (own_tenant_id : String) → Option String → Bool
  is_other own_tenant_id none = false
  is_other own_tenant_id (some target_tenant_id) = not (target_tenant_id == own_tenant_id)

  -- Whether a field of that name points at a row of another tenant.
  abbrev any_crossing :
      Instance → (own_fk_field own_tenant_id : String) → List Field → String → Bool
  any_crossing instance own_fk_field own_tenant_id [] name = false
  any_crossing instance own_fk_field own_tenant_id (field ∷ fields) name =
      (name == field.name && is_other own_tenant_id (checked_tenant instance own_fk_field field))
      || any_crossing instance own_fk_field own_tenant_id fields name

  has_key-add_error :
      (own_tenant_id name field : String) (target : Option String) (errors : Dict String)
      → has_key name (add_error own_tenant_id field target errors)
        ≡ (has_key name errors || (name == field && is_other own_tenant_id target))
  unfolding add_error
  has_key-add_error own_tenant_id name field none errors = ground arith
  has_key-add_error own_tenant_id name field (some target_tenant_id) errors =
      ground (arith, lookup-insert name field target_tenant_id errors)

  module _ (instance : Instance) (own_fk_field own_tenant_id name : String) where
    has_key-cross_errors :
        (fields : List Field) (errors : Dict String)
        → has_key name (cross_errors instance own_fk_field own_tenant_id fields errors)
          ≡ (has_key name errors || any_crossing instance own_fk_field own_tenant_id fields name)
    unfolding cross_errors
    has_key-cross_errors [] errors = ground arith
    has_key-cross_errors (field ∷ fields) errors =
        let target = checked_tenant instance own_fk_field field in
        ground (
          arith,
          has_key-cross_errors fields (add_error own_tenant_id field.name target errors),
          has_key-add_error own_tenant_id name field.name target errors,
        )

    -- A field that points at the row of a tenant model with a tenant column, a row that exists and
    -- has another tenant than the instance's own.
    abbrev Crosses : Field → Type 0
    Crosses field =
        (target_model : Model) × (target_id : String) × (target_tenant_id : String)
        × (field.is_foreign_key ≡ true)
        × (field.name ≢ own_fk_field)
        × (field.related_model ≡ some target_model)
        × (is_tenant_model registry target_model ≡ true)
        × (has_tenant_column target_model ≡ true)
        × (lookup field.attname instance.values ≡ some target_id)
        × (tenant_of_row target_model (setting (get_tenant_fk_field target_model) "None" <> "_id")
              target_id
            ≡ some target_tenant_id)
        × (target_tenant_id ≢ own_tenant_id)

    -- One of the fields has that name and crosses.
    abbrev pub AnyCrosses : List Field → Type 0
    AnyCrosses [] = ⊥
    AnyCrosses (field ∷ fields) = ((name ≡ field.name) × Crosses field) ⊎ AnyCrosses fields

    is_other-Crosses :
        (field : Field)
        → is_other own_tenant_id (checked_tenant instance own_fk_field field) ≡ true
        → Crosses field
    unfolding checked_tenant target_tenant
    is_other-Crosses field h = elim (Option-cases field.related_model) [
      | inl n ↦ absurd (ground (arith, h))
      | inr (m, e) ↦ elim (Option-cases (lookup field.attname instance.values)) [
        | inl n ↦ absurd (ground (arith, h))
        | inr (id, e') ↦
            let column = setting (get_tenant_fk_field m) "None" <> "_id" in
            elim (Option-cases (tenant_of_row m column id)) [
              | inl n ↦ absurd (ground (arith, h))
              | inr (t, e'') ↦ (
                m,
                id,
                t,
                ground (arith, h),
                ground (arith, h),
                e,
                ground (arith, h),
                ground (arith, h),
                e',
                e'',
                ground (arith, h),
              )
            ]
      ]
    ]

    Crosses-is_other :
        (field : Field)
        → Crosses field
        → is_other own_tenant_id (checked_tenant instance own_fk_field field) ≡ true
    unfolding checked_tenant target_tenant
    Crosses-is_other field (m, id, t, fk, other, e, scoped, column, e', e'', differs) = ground arith

    any_crossing-AnyCrosses :
        (fields : List Field)
        → any_crossing instance own_fk_field own_tenant_id fields name ≡ true
        → AnyCrosses fields
    any_crossing-AnyCrosses [] h = ground (arith, h)
    any_crossing-AnyCrosses (field ∷ fields) h =
        let other = is_other own_tenant_id (checked_tenant instance own_fk_field field) in
        elim (Bool-cases (name == field.name && other)) [
          | inl here ↦ inl (ground arith, is_other-Crosses field (ground arith))
          | inr not_here ↦ inr (any_crossing-AnyCrosses fields (ground (arith, h)))
        ]

    AnyCrosses-any_crossing :
        (fields : List Field)
        → AnyCrosses fields
        → any_crossing instance own_fk_field own_tenant_id fields name ≡ true
    AnyCrosses-any_crossing [] h = elim h [ ]
    AnyCrosses-any_crossing (field ∷ fields) (inl (same, crosses)) =
        ground (arith, Crosses-is_other field crosses)
    AnyCrosses-any_crossing (field ∷ fields) (inr later) =
        ground (arith, AnyCrosses-any_crossing fields later)

    -- For an instance with a tenant column and a tenant, the validation error has an entry for a
    -- name exactly if a field of that name crosses: it is a foreign key other than the tenant's own,
    -- to a tenant model with a tenant column, and it is set to the key of a row that exists and has
    -- another tenant.
    pub has_key-validate_cross_tenant_fks :
        get_tenant_fk_field instance.model ≡ some own_fk_field
        → lookup (own_fk_field <> "_id") instance.values ≡ some own_tenant_id
        → (has_key name (validate_cross_tenant_fks instance) ≡ true) ↔ AnyCrosses instance.fields
    unfolding validate_cross_tenant_fks lookup
    has_key-validate_cross_tenant_fks column own =
        let same : has_key name (validate_cross_tenant_fks instance)
            ≡ any_crossing instance own_fk_field own_tenant_id instance.fields name =
          ground (arith, has_key-cross_errors instance.fields []) in
        (
          (λ h. any_crossing-AnyCrosses instance.fields (ground (arith, h))),
          λ h. same ∙ AnyCrosses-any_crossing instance.fields h,
        )
