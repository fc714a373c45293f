-- ===== src/Checks/Backing.antt =====
-- adoption.py: on PostgreSQL's relations, an index that backs a constraint, and is not the primary key's,
-- backs one that `unique_constraints` lists.
use django_boundary.Prelude.Queries.{
  all-where_rows, all-map, all-join, all_iff, where_rows, Among-where_rows, all-order_by,
}
use django_boundary.Prelude.Lists.{all}
use django_boundary.Migrations.{UniqueConstraint}
use django_boundary.Adoption.Introspection.{
  PgClass, PgConstraint, PgIndex, PgCatalog, unique_constraints, unique_indexes, joined_names,
  index_row, index_rows, backs, is_unique_of, is_unique_index_of, constraint_row,
}
use django_boundary.Checks.Adopted.{constraint_names}
use django_boundary.Checks.AfterAdoption.{follows}
use django_boundary.Checks.Uniqueness.{
  IsCatalog, index_passes, all-unique_indexes, constraints_listed,
}
use django_boundary.Prelude.{
  ℕ, String, ◌≡◌, inl, inr, refl, sym, ap, ◌∙◌, Bool, true, not, ◌||◌, Option, none, some, List, [],
  ◌∷◌, map, arith, ◌==◌, string_eq, nat_eq, Bool-cases, contains, Among,
}

abbrev has_other_name : String → UniqueConstraint → Bool
has_other_name name constraint = not (constraint.name == name)

contains-constraint_names :
    (name : String) (constraints : List UniqueConstraint)
    → contains (constraint_names constraints) name ≡ not (all (has_other_name name) constraints)
contains-constraint_names name [] = refl
contains-constraint_names name (constraint ∷ constraints) =
    ground (arith, contains-constraint_names name constraints)

-- The names that a join tells are those of the rows, or none.
all-joined_names :
    (c : PgCatalog) (p : Option String → Bool) (constraints : List PgConstraint)
    → p none ≡ true
    → all (λ k. p (some k.conname)) constraints ≡ true
    → all p (joined_names c constraints) ≡ true
all-joined_names c p [] bare rest = ground (arith, bare)
all-joined_names c p (k ∷ constraints) bare rest =
    all-map p (λ k'. some k'.conname) (k ∷ constraints) ∙ rest

module _ (c : PgCatalog) (kept : IsCatalog c) (table : String) (relid : ℕ)
    (found : c.to_regclass table ≡ some relid) where
  abbrev names : List String
  names = constraint_names (unique_constraints c table)

  contains-names :
      (k : PgConstraint)
      → Among k c.pg_constraint
      → is_unique_of c relid k ≡ true
      → contains names k.conname ≡ true
  contains-names k there this =
      let other = has_other_name k.conname in
      let rows = where_rows (is_unique_of c relid) c.pg_constraint in
      let listed : all other (unique_constraints c table)
          ≡ all (λ k'. not (is_unique_of c relid k') || not (k'.conname == k.conname))
              c.pg_constraint =
        ap (all other) (constraints_listed c table relid found)
        ∙ all-order_by other c.in_order (λ row. row.name) (map (constraint_row c) rows)
        ∙ all-map other (constraint_row c) rows
        ∙ all-where_rows (λ k'. other (constraint_row c k')) (is_unique_of c relid)
            c.pg_constraint in
      elim (Bool-cases (all other (unique_constraints c table))) [
        | inr some_same ↦
            contains-constraint_names k.conname (unique_constraints c table) ∙ ap not some_same
        | inl all_other ↦
            let one =
              (all_iff (λ k'. not (is_unique_of c relid k') || not (k'.conname == k.conname))
                  c.pg_constraint).0
                (sym listed ∙ all_other) k there in
            absurd (ground (arith, one, this))
      ]

  row_follows :
      (x : PgIndex) (i : PgClass) (k : PgConstraint)
      → Among x c.pg_index
      → is_unique_index_of c relid x ≡ true
      → Among k c.pg_constraint
      → backs c x.indexrelid k ≡ true
      → follows names (index_row c x i (some k.conname)) ≡ true
  row_follows x i k there this k_there is_backing = elim (Bool-cases x.indisprimary) [
    | inl primary ↦ ground (arith, primary)
    | inr secondary ↦
        let (_, same_table, _, primary, _) = kept.backed k x k_there there is_backing in
        let listed : is_unique_of c relid k ≡ true =
          ground (arith, this, same_table, is_backing, primary, secondary) in
        ground (arith, contains-names k k_there listed)
  ]

  index_rows-follow :
      (x : PgIndex)
      → Among x c.pg_index
      → is_unique_index_of c relid x ≡ true
      → all (follows names) (index_rows c x) ≡ true
  index_rows-follow x there this =
      let backing = where_rows (backs c x.indexrelid) c.pg_constraint in
      let right = follows names in
      let each : (i : PgClass) → all right (map (index_row c x i) (joined_names c backing)) ≡ true =
        λ i.
          all-map right (index_row c x i) (joined_names c backing)
          ∙ all-joined_names c (λ n. right (index_row c x i n)) backing (ground arith)
              ((all_iff (λ k. right (index_row c x i (some k.conname))) backing).1 (λ k among.
                let (k_there, is_backing) =
                  Among-where_rows (backs c x.indexrelid) k c.pg_constraint among in
                row_follows x i k there this k_there is_backing)) in
      all-join right (λ i. map (index_row c x i) (joined_names c backing))
        (where_rows (λ i. i.oid == x.indexrelid) c.pg_class)
      ∙ (all_iff (λ i. all right (map (index_row c x i) (joined_names c backing)))
            (where_rows (λ i. i.oid == x.indexrelid) c.pg_class)).1
          (λ i _. each i)

  -- The first half of `IndexesFollow`, where the queries run on PostgreSQL's relations
  unique_indexes-follow : all (follows names) (unique_indexes c table) ≡ true
  unique_indexes-follow =
      all-unique_indexes c table relid found (follows names)
      ∙ (all_iff (index_passes c table relid found (follows names)) c.pg_index).1 (λ x there.
          elim (Bool-cases (is_unique_index_of c relid x)) [
            | inr other ↦ ground (arith, other)
            | inl this ↦ ground (arith, index_rows-follow x there this)
          ])
