-- ===== src/Models/Unique.antt =====
-- models.py: `tenant_unique` and `TenantUniqueConstraint`, uniqueness within a tenant.
use django_boundary.Prelude.{
  ◌<>◌, String, ◌≡◌, ◌≢◌, refl, true, false, not, Option, none, some, List, [], ◌∷◌, arith, length,
  if◌then◌else◌, string_eq, Bool-cases, inl, inr,
}
use django_boundary.Conf.{is_truthy, setting}
use django_boundary.Runtime.{Result, return, raise, value_error}
use django_boundary.Models.{Model}
use django_boundary.Resolvers.Host.{same_labels}

-- Its own state and what it passes to Django's constraint.
pub record TenantUniqueConstraint : Type 0 where
  pub name : String
  pub tenant_fields : List String
  pub fields : List String

-- `__init__`, whose `fields` is `none` where the caller gives none
new_constraint : String → List String → Option (List String) → TenantUniqueConstraint
new_constraint name tenant_fields fields = record {
  name = name;
  tenant_fields = tenant_fields;
  fields = elim fields [ none ↦ tenant_fields | some given ↦ given ];
}

-- `deconstruct`, and the constructor on its arguments, as `BaseConstraint.clone` does it
clone : TenantUniqueConstraint → TenantUniqueConstraint
unfolding new_constraint
clone c = new_constraint c.name c.tenant_fields (some c.fields)

-- `_resolve`, which changes the constraint or raises
pub resolve : Model → TenantUniqueConstraint → Result TenantUniqueConstraint
resolve model c =
    if not (same_labels c.fields c.tenant_fields)
    then return c
    else if not (is_truthy model.boundary_fk_field)
    then raise value_error
    else return (record c { fields = setting model.boundary_fk_field "" ∷ c.tenant_fields })

-- A member of `_meta.constraints`
pub data MetaConstraint : Type 0 where
  tenant_unique_constraint : TenantUniqueConstraint → MetaConstraint
  plain_constraint : (name : String) → MetaConstraint

-- `_resolve_tenant_unique_constraints`, the receiver of `class_prepared`
unfoldable resolve_all : Model → List MetaConstraint → Result (List MetaConstraint)
unfolding resolve
resolve_all sender [] = return []
resolve_all sender (plain_constraint name ∷ constraints) = elim (resolve_all sender constraints) [
  | raise e ↦ raise e
  | return rest ↦ return (plain_constraint name ∷ rest)
]
resolve_all sender (tenant_unique_constraint c ∷ constraints) =
    let later = resolve_all sender constraints in
    elim (resolve sender c) [
      | raise e ↦ raise e
      | return c' ↦ elim later [
        | raise e ↦ raise e
        | return rest ↦ return (tenant_unique_constraint c' ∷ rest)
      ]
    ]

-- `_derive_constraint_name`, with Django's `names_digest`
unfoldable derive_constraint_name : (names_digest : List String → String) → List String → String
derive_constraint_name names_digest fields =
    "%(app_label)s_%(class)s_tenant_uniq_" <> names_digest fields

-- With the default name as a parameter: it is a digest that Django computes.
tenant_unique :
    (derive_constraint_name : List String → String)
    → List String
    → Option String
    → Result TenantUniqueConstraint
unfolding new_constraint
tenant_unique derive_constraint_name [] name = raise value_error
tenant_unique derive_constraint_name (field ∷ fields) name =
    return (
      new_constraint (setting name (derive_constraint_name (field ∷ fields))) (field ∷ fields) none)

same_labels-length : (xs ys : List String) → same_labels xs ys ≡ true → length xs ≡ length ys
same_labels-length [] [] h = refl
same_labels-length [] (y ∷ ys) h = ground arith
same_labels-length (x ∷ xs) [] h = ground arith
same_labels-length (x ∷ xs) (y ∷ ys) h = ground (arith, same_labels-length xs ys)

same_labels_refl : (xs : List String) → same_labels xs xs ≡ true
same_labels_refl [] = refl
same_labels_refl (x ∷ xs) = ground (arith, same_labels_refl xs)

longer-same_labels : (x : String) (xs : List String) → same_labels (x ∷ xs) xs ≡ false
longer-same_labels x xs = elim (Bool-cases (same_labels (x ∷ xs) xs)) [
  | inl h ↦ absurd (omega (arith, same_labels-length (x ∷ xs) xs h))
  | inr h ↦ h
]

-- The clone of a constraint of `tenant_unique` is resolved, on a model with a tenant column, whose
-- name is not empty, to the column and then the author's fields in their order; the clone of that is
-- left as it is on every model.
resolve-tenant_unique :
    (derive_constraint_name : List String → String) (field : String) (fields : List String)
    (name : Option String) (model : Model) (column : String)
    → model.boundary_fk_field ≡ some column
    → column ≢ ""
    → (c c' : TenantUniqueConstraint) × (tenant_unique derive_constraint_name (field ∷ fields) name
        ≡ return c)
      × (resolve model (clone c) ≡ return c')
      × (c'.fields ≡ column ∷ field ∷ fields)
      × ((rendered : Model) → resolve rendered (clone c') ≡ return c')
unfolding tenant_unique resolve clone new_constraint
resolve-tenant_unique derive_constraint_name field fields name model column has_column nonempty =
    let author = field ∷ fields in
    let c = new_constraint (setting name (derive_constraint_name author)) author none in
    (
      c,
      record c { fields = column ∷ author },
      refl,
      ground (arith, same_labels_refl author),
      refl,
      λ rendered. ground (arith, longer-same_labels column author),
    )
