-- ===== src/Checks/WithinTenant.antt =====
-- checks.py: condition 5 of E007 about the unique forms of a table, and what makes values unique within a
-- tenant: a unique index that begins with the tenant's column.
use mathlib.Core.Path.{subst}
use django_boundary.Prelude.Queries.{List-cases, Among-where_rows, where_rows, all_iff}
use django_boundary.Prelude.Lists.{all, append_nil_iff}
use django_boundary.Runtime.{return}
use django_boundary.Adoption.Introspection.{
  PgClass, PgConstraint, PgIndex, PgCatalog, key_columns, unique_constraints, unique_indexes,
  joined_names, index_row, index_rows, backs, is_unique_of, is_unique_index_of, named_by, ℤ, pos,
}
use django_boundary.Checks.Adopted.{
  leads_with_tenant_id, constraint_names, check_adopted_unique_forms, check_constraints,
  check_unique_indexes,
}
use django_boundary.Checks.Drift.{index_is_right, check_constraints_iff, check_unique_indexes_iff}
use django_boundary.Checks.Uniqueness.{
  queries_of, IsCatalog, IsUniqueWithin, IsBackedBy, IsOfUniques, IsReadLeading, IsColumnFirst,
  read-first_is_tenant_id, first_is_tenant_id, constraint_passes, index_passes,
  all-unique_constraints, all-unique_indexes, index_rows_right, index_rows-right, leads-IsBackedBy,
}
use django_boundary.Prelude.{
  ℕ, String, ◌≡◌, ◌↔◌, inl, inr, refl, sym, ap, ◌∙◌, Bool, true, false, ◌||◌, Option, none, some,
  List, [], ◌∷◌, arith, ◌==◌, string_eq, nat_eq, Bool-cases, Among, ◌⊎◌,
}

no_primary_key : ◌==◌ {A = String} "u" "p" ≡ false
unfolding string_eq
no_primary_key = refl

module _ (c : PgCatalog) (kept : IsCatalog c) (table : String) (relid : ℕ)
    (found : c.to_regclass table ≡ some relid) where
  leads_alone :
      (x : PgIndex) (i : PgClass) (names : List String)
      → x.indisprimary ≡ false
      → all (λ n. index_is_right names (index_row c x i n)) (none ∷ []) ≡ true
      → leads_with_tenant_id (key_columns c x.indrelid x.indkey) ≡ true
  leads_alone x i names secondary right = ground (arith, secondary, right)

  leads_backing :
      (x : PgIndex) (k : PgConstraint)
      → all (constraint_passes c table relid found) c.pg_constraint ≡ true
      → Among k c.pg_constraint
      → backs c x.indexrelid k ≡ true
      → IsBackedBy c k x
      → x.indrelid ≡ relid
      → x.indisprimary ≡ false
      → leads_with_tenant_id (key_columns c relid x.indkey) ≡ true
  leads_backing x k all_pass there backing by of_table secondary =
      let (_, same_table, _, primary, _) = by in
      let passes =
        (all_iff (constraint_passes c table relid found) c.pg_constraint).0 all_pass k there in
      let of_relid : k.conrelid ≡ relid = sym same_table ∙ of_table in
      let leads : leads_with_tenant_id (key_columns c k.conrelid k.conkey) ≡ true =
        ground (arith, passes, of_relid, backing, primary, secondary) in
      subst (λ r. leads_with_tenant_id (key_columns c r x.indkey) ≡ true) of_relid
        (leads-IsBackedBy c k x by ∙ leads)

  module _ (names : List String) where
    within_tenant :
        all (constraint_passes c table relid found) c.pg_constraint ≡ true
        → all (index_passes c table relid found (index_is_right names)) c.pg_index ≡ true
        → IsOfUniques c relid (IsReadLeading c relid)
    within_tenant constraints_pass indexes_pass x there of_table unique secondary =
        let (i, i_there, same) = kept.named x there in
        let passes =
          (all_iff (index_passes c table relid found (index_is_right names)) c.pg_index).0
            indexes_pass x there in
        let rows : all (index_is_right names) (index_rows c x) ≡ true =
          ground (arith, passes, of_table, unique) in
        let one = index_rows-right c table relid found x i names i_there same rows in
        elim (List-cases (where_rows (backs c x.indexrelid) c.pg_constraint)) [
          | inl bare ↦
              subst (λ r. leads_with_tenant_id (key_columns c r x.indkey) ≡ true) of_table
                (leads_alone x i names secondary (
                  subst
                    (λ ks.
                      all (λ n. index_is_right names (index_row c x i n)) (joined_names c ks)
                      ≡ true)
                    bare one))
          | inr (k, rest, backing) ↦
              let (k_there, is_backing) =
                Among-where_rows (backs c x.indexrelid) k c.pg_constraint
                  (subst (Among k) (sym backing) (inl refl)) in
              leads_backing x k constraints_pass k_there is_backing
                (kept.backed k x k_there there is_backing) of_table secondary
        ]

    constraints_pass_within :
        IsOfUniques c relid (IsReadLeading c relid)
        → all (constraint_passes c table relid found) c.pg_constraint ≡ true
    constraints_pass_within within =
        (all_iff (constraint_passes c table relid found) c.pg_constraint).1 (λ k there.
          elim (Bool-cases (is_unique_of c relid k)) [
            | inr other ↦ ground (arith, other)
            | inl this ↦
                let of_relid : k.conrelid ≡ relid = ground (arith, this) in
                let kind : k.contype ≡ "u" = ground (arith, this) in
                let (x, x_there, same) = kept.indexed k there kind in
                let backing : backs c x.indexrelid k ≡ true = ground (arith, same, kind) in
                let by = kept.backed k x there x_there backing in
                let (_, same_table, unique, primary, _) = by in
                let secondary : x.indisprimary ≡ false =
                  primary ∙ ap (λ t. t == "p") kind ∙ no_primary_key in
                let leads = within x x_there (same_table ∙ of_relid) unique secondary in
                let own =
                  subst (λ r. leads_with_tenant_id (key_columns c r x.indkey) ≡ true) (sym of_relid)
                    leads in
                ground (arith, sym (leads-IsBackedBy c k x by) ∙ own)
          ])

    indexes_pass_within :
        IsOfUniques c relid (IsReadLeading c relid)
        → all (index_passes c table relid found (index_is_right names)) c.pg_index ≡ true
    indexes_pass_within within =
        (all_iff (index_passes c table relid found (index_is_right names)) c.pg_index).1 (λ x there.
          elim (Bool-cases (is_unique_index_of c relid x)) [
            | inr other ↦ ground (arith, other)
            | inl this ↦
                let of_table : x.indrelid ≡ relid = ground (arith, this) in
                let unique : x.indisunique ≡ true = ground (arith, this) in
                let own : (x.indisprimary
                      || leads_with_tenant_id (key_columns c x.indrelid x.indkey))
                    ≡ true =
                  elim (Bool-cases x.indisprimary) [
                    | inl primary ↦ ground (arith, primary)
                    | inr secondary ↦
                        let leads = within x there of_table unique secondary in
                        let here =
                          subst (λ r. leads_with_tenant_id (key_columns c r x.indkey) ≡ true)
                            (sym of_table) leads in
                        ground (arith, secondary, here)
                  ] in
                ground (arith, index_rows_right c table relid found x names own)
          ])

  reported_unique_iff :
      (role : Option (Bool × Bool))
      → (check_adopted_unique_forms (queries_of c role) table ≡ return [])
        ↔ IsOfUniques c relid (IsReadLeading c relid)
  unfolding check_adopted_unique_forms
  reported_unique_iff role =
      let constraints = unique_constraints c table in
      let indexes = unique_indexes c table in
      let names = constraint_names constraints in
      let first = check_constraints_iff table constraints in
      let second = check_unique_indexes_iff table names indexes in
      let split =
        append_nil_iff (check_constraints table constraints)
          (check_unique_indexes table names indexes) in
      let k_rows = all-unique_constraints c table relid found in
      let x_rows = all-unique_indexes c table relid found (index_is_right names) in
      (
        (λ silent.
            let (none_first, none_second) = split.0 (ground (arith, silent)) in
            within_tenant names (sym k_rows ∙ first.0 none_first)
              (sym x_rows ∙ second.0 none_second)),
        (λ within.
            ap (λ m. return m)
              (split.1 (
                first.1 (k_rows ∙ constraints_pass_within names within),
                second.1 (x_rows ∙ indexes_pass_within names within),
              ))),
      )

  -- On PostgreSQL's relations, in which each index has a name, and a unique constraint or primary
  -- key has a unique index on its table with its columns first: where the first key of each unique
  -- index of a table but the primary key's is a column and not an expression, condition 5 of E007
  -- reports nothing about the table exactly if the first key of each of these is `tenant_id`.
  pub check_adopted_unique_forms_iff :
      (role : Option (Bool × Bool))
      → IsOfUniques c relid (IsColumnFirst c relid)
      → (check_adopted_unique_forms (queries_of c role) table ≡ return []) ↔ IsUniqueWithin c relid
  check_adopted_unique_forms_iff role columns =
      let reported = reported_unique_iff role in
      (
        (λ silent x there of_table unique secondary.
            sym (read-first_is_tenant_id c relid x (columns x there of_table unique secondary))
            ∙ reported.0 silent x there of_table unique secondary),
        (λ within. reported.1 (λ x there of_table unique secondary.
            read-first_is_tenant_id c relid x (columns x there of_table unique secondary)
            ∙ within x there of_table unique secondary)),
      )

  -- On PostgreSQL's relations, in which each index has a name, and a unique constraint or primary
  -- key has a unique index on its table with its columns first: where a unique index has an
  -- expression as its first key and `tenant_id` right after it, as an included column or a second
  -- key, and the first key of every other unique index of the table but the primary key's is the
  -- column `tenant_id`, condition 5 of E007 reports nothing about the table, although not all of
  -- these begin with `tenant_id`.
  pub check_adopted_unique_forms_expression :
      (role : Option (Bool × Bool)) (x : PgIndex) (number : ℤ) (numbers : List ℤ)
      → Among x c.pg_index
      → x.indrelid ≡ relid
      → x.indisunique ≡ true
      → x.indisprimary ≡ false
      → x.indkey ≡ pos 0 ∷ number ∷ numbers
      → named_by c relid (pos 0) ≡ []
      → named_by c relid number ≡ "tenant_id" ∷ []
      → IsOfUniques c relid
          (λ y. (y ≡ x) ⊎ (IsColumnFirst c relid y × (first_is_tenant_id c relid y.indkey ≡ true)))
      → (check_adopted_unique_forms (queries_of c role) table ≡ return [])
        × ¬ IsUniqueWithin c relid
  unfolding key_columns
  check_adopted_unique_forms_expression role x number numbers there of_table unique secondary key
        nameless named others =
      let read : IsReadLeading c relid x = ground (arith, key, nameless, named) in
      (
        (reported_unique_iff role).1 (λ y y_there y_of y_unique y_secondary.
            elim (others y y_there y_of y_unique y_secondary) [
              | inl same ↦ subst (IsReadLeading c relid) (sym same) read
              | inr (column, first) ↦ read-first_is_tenant_id c relid y column ∙ first
            ]),
        (λ within.
            let first = within x there of_table unique secondary in
            absurd (ground (arith, first, key, nameless))),
      )
