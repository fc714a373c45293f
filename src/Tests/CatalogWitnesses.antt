-- ===== src/Tests/CatalogWitnesses.antt =====
-- A catalogue of PostgreSQL with one adopted table, and E007 on it.
use mathlib.Core.Path.{subst}
use django_boundary.Runtime.{return}
use django_boundary.Adoption.Introspection.{
  pos, PgClass, PgAttribute, PgConstraint, PgIndex, PgCatalog, backs, key_columns,
}
use django_boundary.Checks.Adopted.{check_adopted_unique_forms}
use django_boundary.Checks.Uniqueness.{
  queries_of, IsCatalog, IsUniqueWithin, IsBackedBy, IsOfUniques, IsColumnFirst,
}
use django_boundary.Checks.WithinTenant.{
  check_adopted_unique_forms_iff, check_adopted_unique_forms_expression,
}
use django_boundary.Prelude.{
  ℕ, String, ◌≡◌, ◌↔◌, inl, inr, refl, sym, ap, true, false, none, some, [], ◌∷◌, arith, ◌==◌,
  string_eq, nat_eq, Among,
}

abbrev attribute : String → ℕ → PgAttribute
attribute name number = record {
  attrelid = 1;
  attname = name;
  attnum = pos number;
  format_type = "uuid";
  attisdropped = false;
}

abbrev relation : ℕ → String → PgClass
relation oid name = record {
  oid = oid;
  relname = name;
  relrowsecurity = true;
  relforcerowsecurity = true;
}

abbrev primary_key : PgConstraint
primary_key = record {
  conname = "widget_pkey";
  conrelid = 1;
  contype = "p";
  conkey = pos 1 ∷ [];
  condeferrable = false;
  conindid = 10;
}

abbrev rewritten : PgConstraint
rewritten = record {
  conname = "widget_code_key_tenant";
  conrelid = 1;
  contype = "u";
  conkey = pos 3 ∷ pos 2 ∷ [];
  condeferrable = false;
  conindid = 11;
}

abbrev primary_index : PgIndex
primary_index = record {
  indexrelid = 10;
  indrelid = 1;
  indkey = pos 1 ∷ [];
  indisunique = true;
  indisprimary = true;
  partial = false;
  expression = false;
}

abbrev rewritten_index : PgIndex
rewritten_index = record primary_index {
  indexrelid = 11;
  indkey = pos 3 ∷ pos 2 ∷ [];
  indisprimary = false;
}

-- Columns 1 to 3, the two indexes and the two constraints of the table 1
abbrev widget_catalog : PgCatalog
widget_catalog = record {
  pg_attribute = attribute "id" 1 ∷ attribute "code" 2 ∷ attribute "tenant_id" 3 ∷ [];
  pg_class =
      relation 1 "widget" ∷ relation 10 "widget_pkey" ∷ relation 11 "widget_code_key_tenant" ∷ [];
  pg_constraint = primary_key ∷ rewritten ∷ [];
  pg_index = primary_index ∷ rewritten_index ∷ [];
  pg_policy = [];
  to_regclass = λ name. some 1;
  in_order = λ s t. true;
}

widget_catalog_named :
    (x : PgIndex)
    → Among x widget_catalog.pg_index
    → (i : PgClass) × Among i widget_catalog.pg_class × (i.oid ≡ x.indexrelid)
widget_catalog_named x (inl first) =
    (relation 10 "widget_pkey", inr (inl refl), ap (λ y. y.indexrelid) (sym first))
widget_catalog_named x (inr (inl second)) = (
  relation 11 "widget_code_key_tenant",
  inr (inr (inl refl)),
  ap (λ y. y.indexrelid) (sym second),
)
widget_catalog_named x (inr (inr none_left)) = absurd none_left

widget_catalog_indexed :
    (k : PgConstraint)
    → Among k widget_catalog.pg_constraint
    → k.contype ≡ "u"
    → (x : PgIndex) × Among x widget_catalog.pg_index × (x.indexrelid ≡ k.conindid)
widget_catalog_indexed k (inl first) kind =
    (primary_index, inl refl, ap (λ y. y.conindid) (sym first))
widget_catalog_indexed k (inr (inl second)) kind =
    (rewritten_index, inr (inl refl), ap (λ y. y.conindid) (sym second))
widget_catalog_indexed k (inr (inr none_left)) kind = absurd none_left

primary_key_backed : IsBackedBy widget_catalog primary_key primary_index
unfolding key_columns nat_eq string_eq
primary_key_backed = (refl, refl, refl, refl, ("id", [], [], refl, refl))

rewritten_backed : IsBackedBy widget_catalog rewritten rewritten_index
unfolding key_columns nat_eq string_eq
rewritten_backed = (refl, refl, refl, refl, ("tenant_id", "code" ∷ [], [], refl, refl))

-- An index of another number does not back the constraint.
backs-other :
    (number : ℕ) (k : PgConstraint)
    → (k.conindid == number) ≡ false
    → backs widget_catalog number k ≡ false
backs-other number k other = ground (arith, other)

widget_catalog_backed :
    (k : PgConstraint) (x : PgIndex)
    → Among k widget_catalog.pg_constraint
    → Among x widget_catalog.pg_index
    → backs widget_catalog x.indexrelid k ≡ true
    → IsBackedBy widget_catalog k x
unfolding nat_eq
widget_catalog_backed k x (inl first) (inl same) backing =
    subst (λ k'. IsBackedBy widget_catalog k' x) (sym first)
      (subst (λ x'. IsBackedBy widget_catalog primary_key x') (sym same) primary_key_backed)
widget_catalog_backed k x (inr (inl second)) (inr (inl same)) backing =
    subst (λ k'. IsBackedBy widget_catalog k' x) (sym second)
      (subst (λ x'. IsBackedBy widget_catalog rewritten x') (sym same) rewritten_backed)
widget_catalog_backed k x (inl first) (inr (inl other)) backing =
    let wrong : backs widget_catalog 11 primary_key ≡ true =
      subst (λ k'. backs widget_catalog 11 k' ≡ true) first
        (subst (λ x'. backs widget_catalog x'.indexrelid k ≡ true) other backing) in
    absurd (cc (backs-other 11 primary_key refl, wrong))
widget_catalog_backed k x (inr (inl second)) (inl other) backing =
    let wrong : backs widget_catalog 10 rewritten ≡ true =
      subst (λ k'. backs widget_catalog 10 k' ≡ true) second
        (subst (λ x'. backs widget_catalog x'.indexrelid k ≡ true) other backing) in
    absurd (cc (backs-other 10 rewritten refl, wrong))
widget_catalog_backed k x (inr (inr none_left)) there backing = absurd none_left
widget_catalog_backed k x (inl first) (inr (inr none_left)) backing = absurd none_left
widget_catalog_backed k x (inr (inl second)) (inr (inr none_left)) backing = absurd none_left

widget_catalog-IsCatalog : IsCatalog widget_catalog
widget_catalog-IsCatalog = record {
  named = widget_catalog_named;
  indexed = widget_catalog_indexed;
  backed = widget_catalog_backed;
}

-- The indexes of the table begin with columns.
widget_catalog_columns : IsOfUniques widget_catalog 1 (IsColumnFirst widget_catalog 1)
unfolding nat_eq string_eq
widget_catalog_columns x (inl first) of_table unique secondary =
    (pos 1, [], "id", ap (λ y. y.indkey) first, refl)
widget_catalog_columns x (inr (inl second)) of_table unique secondary =
    (pos 3, pos 2 ∷ [], "tenant_id", ap (λ y. y.indkey) second, refl)
widget_catalog_columns x (inr (inr none_left)) of_table unique secondary = absurd none_left

check_adopted_unique_forms_iff_example :
    (check_adopted_unique_forms (queries_of widget_catalog none) "widget" ≡ return [])
    ↔ IsUniqueWithin widget_catalog 1
check_adopted_unique_forms_iff_example =
    check_adopted_unique_forms_iff widget_catalog widget_catalog-IsCatalog "widget" 1 refl none
      widget_catalog_columns

-- CREATE UNIQUE INDEX widget_lower ON widget (lower(code)) INCLUDE (tenant_id)
abbrev lower_index : PgIndex
lower_index = record rewritten_index { indkey = pos 0 ∷ pos 3 ∷ []; expression = true }

abbrev lower_catalog : PgCatalog
lower_catalog = record widget_catalog {
  pg_class = relation 1 "widget" ∷ relation 11 "widget_lower" ∷ [];
  pg_constraint = [];
  pg_index = lower_index ∷ [];
}

lower_catalog-IsCatalog : IsCatalog lower_catalog
lower_catalog-IsCatalog = record {
  named = λ x there. elim there [
    | inl first ↦ (relation 11 "widget_lower", inr (inl refl), ap (λ y. y.indexrelid) (sym first))
    | inr none_left ↦ absurd none_left
  ];
  indexed = λ k there kind. absurd there;
  backed = λ k x there x_there backing. absurd there;
}

check_adopted_unique_forms_expression_example :
    (check_adopted_unique_forms (queries_of lower_catalog none) "widget" ≡ return [])
    × ¬ IsUniqueWithin lower_catalog 1
unfolding nat_eq string_eq
check_adopted_unique_forms_expression_example =
    check_adopted_unique_forms_expression lower_catalog lower_catalog-IsCatalog "widget" 1 refl none
      lower_index (pos 3) [] (inl refl) refl refl refl refl refl refl
      (λ y there of_table unique secondary. elim there [
        | inl first ↦ inl first
        | inr none_left ↦ absurd none_left
      ])
