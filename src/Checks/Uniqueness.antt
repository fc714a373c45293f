-- ===== src/Checks/Uniqueness.antt =====
-- checks.py and adoption.py: E007 about unique forms, on PostgreSQL's own relations.
use django_boundary.Prelude.Queries.{
  where_rows, order_by, join, all-where_rows, all-order_by, all-map, all-join, all_iff, join-append,
}
use django_boundary.Prelude.Lists.{all}
use django_boundary.Migrations.{UniqueIndex}
use django_boundary.Runtime.{return}
use django_boundary.Adoption.Introspection.{
  named_by, ℤ, PgClass, PgConstraint, PgIndex, PgCatalog, key_columns, column_type,
  unique_constraints, unique_indexes, policy_names, row_security, constraint_row, is_unique_of,
  backs, joined_names, index_row, index_rows, is_unique_index_of,
}
use django_boundary.Checks.Catalogue.{Catalogue}
use django_boundary.Checks.Adopted.{leads_with_tenant_id}
use django_boundary.Checks.Drift.{constraint_leads, index_is_right}
use django_boundary.Prelude.{
  ℕ, String, ◌≡◌, refl, sym, ap, ◌∙◌, Bool, true, false, not, ◌||◌, Option, some, List, [], ◌∷◌,
  contains, ◌++◌, map, arith, ◌==◌, string_eq, nat_eq, Among,
}

-- The catalogue whose queries run on the relations, each of which answers; `role` is that of the
-- connection.
abbrev pub queries_of : PgCatalog → (role : Option (Bool × Bool)) → Catalogue
queries_of c role = record {
  vendor = "postgresql";
  row_security = λ table. return (row_security c table);
  role = return role;
  column_type = λ table column. return (column_type c table column);
  policy_names = λ table. return (policy_names c table);
  unique_constraints = λ table. return (unique_constraints c table);
  unique_indexes = λ table. return (unique_indexes c table);
}

module _ (c : PgCatalog) where
  -- The constraint is a unique constraint or a primary key, and the index is the one that backs it.
  abbrev pub IsBackedBy : PgConstraint → PgIndex → Type 0
  IsBackedBy k x =
      (x.indexrelid ≡ k.conindid)
      × (x.indrelid ≡ k.conrelid)
      × (x.indisunique ≡ true)
      × (x.indisprimary ≡ (k.contype == "p"))
      × ((first : String) × (others : List String) × (included : List ℤ) × (key_columns c k.conrelid
              k.conkey
            ≡ first ∷ others)
          × (x.indkey ≡ k.conkey ++ included))

  -- What PostgreSQL keeps true of its relations: an index has a name; a unique constraint has an index
  -- on its table, which is unique, and primary exactly for a primary key; and the key of the index is
  -- the constraint's, which is not empty, and then the included columns.
  pub record IsCatalog : Type 0 where
    pub named :
        (x : PgIndex)
        → Among x c.pg_index
        → (i : PgClass) × Among i c.pg_class × (i.oid ≡ x.indexrelid)
    pub indexed :
        (k : PgConstraint)
        → Among k c.pg_constraint
        → k.contype ≡ "u"
        → (x : PgIndex) × Among x c.pg_index × (x.indexrelid ≡ k.conindid)
    pub backed :
        (k : PgConstraint) (x : PgIndex)
        → Among k c.pg_constraint
        → Among x c.pg_index
        → backs c x.indexrelid k ≡ true
        → IsBackedBy k x

  -- Each unique index of the table but that of its primary key is such.
  abbrev pub IsOfUniques : (relid : ℕ) → (PgIndex → Type 0) → Type 0
  IsOfUniques relid holds =
      (x : PgIndex)
      → Among x c.pg_index
      → x.indrelid ≡ relid
      → x.indisunique ≡ true
      → x.indisprimary ≡ false
      → holds x

  -- The names that the query reads for the index begin with the column; it reads none for an expression.
  abbrev pub IsReadLeading : (relid : ℕ) → PgIndex → Type 0
  IsReadLeading relid x = leads_with_tenant_id (key_columns c relid x.indkey) ≡ true

  -- The first key of the index is the column.
  abbrev pub first_is_tenant_id : (relid : ℕ) → List ℤ → Bool
  first_is_tenant_id relid [] = false
  first_is_tenant_id relid (number ∷ numbers) = contains (named_by c relid number) "tenant_id"

  -- Every unique index of the table but that of its primary key has the column as its first key.
  abbrev pub IsUniqueWithin : (relid : ℕ) → Type 0
  IsUniqueWithin relid = IsOfUniques relid (λ x. first_is_tenant_id relid x.indkey ≡ true)

  -- The first key of the index is a column of the table, and not an expression.
  abbrev pub IsColumnFirst : (relid : ℕ) → PgIndex → Type 0
  IsColumnFirst relid x =
      (number : ℤ) × (numbers : List ℤ) × (name : String) × (x.indkey ≡ number ∷ numbers)
      × (named_by c relid number ≡ name ∷ [])

  pub read-first_is_tenant_id :
      (relid : ℕ) (x : PgIndex)
      → IsColumnFirst relid x
      → leads_with_tenant_id (key_columns c relid x.indkey) ≡ first_is_tenant_id relid x.indkey
  unfolding key_columns
  read-first_is_tenant_id relid x (number, numbers, name, key, named) = ground (arith, key, named)

  key_columns-append :
      (relid : ℕ) (key included : List ℤ)
      → key_columns c relid (key ++ included)
        ≡ key_columns c relid key ++ key_columns c relid included
  unfolding key_columns
  key_columns-append relid key included = join-append (named_by c relid) key included

  -- An index leads with the column exactly if the constraint that it backs does.
  pub leads-IsBackedBy :
      (k : PgConstraint) (x : PgIndex)
      → IsBackedBy k x
      → leads_with_tenant_id (key_columns c k.conrelid x.indkey)
        ≡ leads_with_tenant_id (key_columns c k.conrelid k.conkey)
  unfolding key_columns
  leads-IsBackedBy k x (_, _, _, _, (first, others, included, columns, key)) =
      let both = key_columns-append k.conrelid k.conkey included in
      ground (arith, both, columns, key)

  module _ (table : String) (relid : ℕ) (found : c.to_regclass table ≡ some relid) where
    -- What E007 asks of a constraint of the table, and of an index
    abbrev pub constraint_passes : PgConstraint → Bool
    constraint_passes k =
        not (is_unique_of c relid k) || leads_with_tenant_id (key_columns c k.conrelid k.conkey)

    pub constraints_listed :
        unique_constraints c table
        ≡ order_by c.in_order
            (λ row. row.name)
            (map (constraint_row c) (where_rows (is_unique_of c relid) c.pg_constraint))
    unfolding unique_constraints
    constraints_listed = rw (found, unique_constraints) refl

    indexes_listed :
        unique_indexes c table
        ≡ order_by c.in_order
            (λ row. row.name)
            (join (index_rows c) (where_rows (is_unique_index_of c relid) c.pg_index))
    unfolding unique_indexes
    indexes_listed = rw (found, unique_indexes) refl

    pub all-unique_constraints :
        all constraint_leads (unique_constraints c table) ≡ all constraint_passes c.pg_constraint
    all-unique_constraints =
        let rows = where_rows (is_unique_of c relid) c.pg_constraint in
        (ap (all constraint_leads) constraints_listed
          ∙ all-order_by constraint_leads c.in_order (λ row. row.name) (map (constraint_row c) rows)
          ∙ all-map constraint_leads (constraint_row c) rows
          ∙ all-where_rows (λ k. constraint_leads (constraint_row c k)) (is_unique_of c relid)
              c.pg_constraint)

    module _ (right : UniqueIndex → Bool) where
      abbrev pub index_passes : PgIndex → Bool
      index_passes x = not (is_unique_index_of c relid x) || all right (index_rows c x)

      pub all-unique_indexes : all right (unique_indexes c table) ≡ all index_passes c.pg_index
      all-unique_indexes =
          let rows = where_rows (is_unique_index_of c relid) c.pg_index in
          (ap (all right) indexes_listed
            ∙ all-order_by right c.in_order (λ row. row.name) (join (index_rows c) rows)
            ∙ all-join right (index_rows c) rows
            ∙ all-where_rows (λ x. all right (index_rows c x)) (is_unique_index_of c relid)
                c.pg_index)

    -- Whatever the index backs: it is right where it is the primary key's or leads with the column.
    pub index_rows_right :
        (x : PgIndex) (names : List String)
        → (x.indisprimary || leads_with_tenant_id (key_columns c x.indrelid x.indkey)) ≡ true
        → all (index_is_right names) (index_rows c x) ≡ true
    index_rows_right x names right =
        let backing = joined_names c (where_rows (backs c x.indexrelid) c.pg_constraint) in
        all-join (index_is_right names) (λ i. map (index_row c x i) backing)
          (where_rows (λ i. i.oid == x.indexrelid) c.pg_class)
        ∙ (all_iff (λ i. all (index_is_right names) (map (index_row c x i) backing))
              (where_rows (λ i. i.oid == x.indexrelid) c.pg_class)).1
            (λ i there.
              all-map (index_is_right names) (index_row c x i) backing
              ∙ (all_iff (λ n. index_is_right names (index_row c x i n)) backing).1
                  (λ n among. ground (arith, right)))

    -- What an index tells by its own: a row for the first constraint that it backs, or for none.
    pub index_rows-right :
        (x : PgIndex) (i : PgClass) (names : List String)
        → Among i c.pg_class
        → i.oid ≡ x.indexrelid
        → all (index_is_right names) (index_rows c x) ≡ true
        → all
            (λ n. index_is_right names (index_row c x i n))
            (joined_names c (where_rows (backs c x.indexrelid) c.pg_constraint))
          ≡ true
    index_rows-right x i names there same right =
        let backing = joined_names c (where_rows (backs c x.indexrelid) c.pg_constraint) in
        let rows : all
              (λ i'.
                not (i'.oid == x.indexrelid)
                || all (index_is_right names) (map (index_row c x i') backing))
              c.pg_class
            ≡ true =
          sym (
            all-join (index_is_right names) (λ i'. map (index_row c x i') backing)
              (where_rows (λ i'. i'.oid == x.indexrelid) c.pg_class)
            ∙ all-where_rows (λ i'. all (index_is_right names) (map (index_row c x i') backing))
                (λ i'. i'.oid == x.indexrelid) c.pg_class)
          ∙ right in
        let this =
          (all_iff
              (λ i'.
                not (i'.oid == x.indexrelid)
                || all (index_is_right names) (map (index_row c x i') backing))
              c.pg_class).0
            rows i there in
        sym (all-map (index_is_right names) (index_row c x i) backing) ∙ ground (arith, this, same)
