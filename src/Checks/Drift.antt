-- ===== src/Checks/Drift.antt =====
-- checks.py: E007 is silent about a table exactly if the table is as an adoption leaves it.
use django_boundary.Checks.{Message, e007_rls}
use django_boundary.Checks.Adopted.{
  check_column, check_policy, leads_with_tenant_id, check_constraints, check_unique_indexes,
  constraint_names, is_backed, check_one_adopted_table, check_adopted_unique_forms,
}
use django_boundary.Prelude.{
  String, ◌≡◌, ◌↔◌, refl, Bool, true, false, ◌||◌, Option, none, some, List, [], ◌∷◌, arith,
  string_eq, nat_eq, contains, ◌++◌, if◌then◌else◌, not,
}
use django_boundary.Runtime.{return}
use django_boundary.Migrations.{UniqueConstraint, UniqueIndex}
use django_boundary.Migrations.Names.{pg_types_match}
use django_boundary.Checks.Catalogue.{Catalogue}
use django_boundary.Prelude.Lists.{append_nil_iff, all}

abbrev pub constraint_leads : UniqueConstraint → Bool
constraint_leads constraint = leads_with_tenant_id constraint.columns

abbrev pub index_is_right : (constraint_backed : List String) → UniqueIndex → Bool
index_is_right constraint_backed index =
    index.primary
    || (is_backed constraint_backed index.constraint || leads_with_tenant_id index.columns)

pub check_constraints_iff :
    (table : String) (constraints : List UniqueConstraint)
    → (check_constraints table constraints ≡ []) ↔ (all constraint_leads constraints ≡ true)
unfolding check_constraints
check_constraints_iff table [] = ((λ h. refl), λ h. refl)
check_constraints_iff table (constraint ∷ constraints) =
    ground (arith, check_constraints_iff table constraints)

pub check_unique_indexes_iff :
    (table : String) (constraint_backed : List String) (indexes : List UniqueIndex)
    → (check_unique_indexes table constraint_backed indexes ≡ [])
      ↔ (all (index_is_right constraint_backed) indexes ≡ true)
unfolding check_unique_indexes
check_unique_indexes_iff table constraint_backed [] = ((λ h. refl), λ h. refl)
check_unique_indexes_iff table constraint_backed (index ∷ indexes) =
    ground (arith, check_unique_indexes_iff table constraint_backed indexes)

abbrev pub has_type : (expected_type : String) → Option String → Bool
has_type expected_type none = false
has_type expected_type (some found_type) = pg_types_match found_type expected_type

module _ (c : Catalogue) (table : String) (enabled forced : Bool) (found_type : Option String)
    (policies : List String) (constraints : List UniqueConstraint) (indexes : List UniqueIndex)
    (secured : c.row_security table ≡ return (some (enabled, forced)))
    (typed : c.column_type table "tenant_id" ≡ return found_type)
    (named : c.policy_names table ≡ return policies)
    (constrained : c.unique_constraints table ≡ return constraints)
    (indexed : c.unique_indexes table ≡ return indexes) where
  -- The table is as an adoption leaves it.
  abbrev pub IsAdopted : (expected_type : String) → Type 0
  IsAdopted expected_type =
      (has_type expected_type found_type ≡ true)
      × (enabled ≡ true)
      × (forced ≡ true)
      × (contains policies "boundary_tenant_isolation" ≡ true)
      × (contains policies "boundary_admin_bypass" ≡ true)
      × (all constraint_leads constraints ≡ true)
      × (all (index_is_right (constraint_names constraints)) indexes ≡ true)

  -- Where a table is there and the catalogue answers the queries for it, E007 reports nothing about
  -- the table exactly if it has a column `tenant_id` of the expected type, row-level security on and
  -- forced, both policies, unique constraints that all lead with the column, and unique indexes that
  -- each are the primary key's, back one of those constraints, or lead with it.
  pub check_one_adopted_table_iff :
      (expected_type : String)
      → (check_one_adopted_table c table expected_type ≡ return []) ↔ IsAdopted expected_type
  unfolding check_one_adopted_table check_adopted_unique_forms
  check_one_adopted_table_iff expected_type = ground (
    arith,
    secured,
    typed,
    named,
    constrained,
    indexed,
    check_constraints_iff table constraints,
    check_unique_indexes_iff table (constraint_names constraints) indexes,
    append_nil_iff (check_constraints table constraints)
        (check_unique_indexes table (constraint_names constraints) indexes),
  )

  pub check_one_adopted_table_returns :
      (expected_type : String)
      → (messages : List Message) × (check_one_adopted_table c table expected_type
          ≡ return messages)
  unfolding check_one_adopted_table check_adopted_unique_forms
  check_one_adopted_table_returns expected_type =
      let forms =
        check_constraints table constraints
        ++ check_unique_indexes table (constraint_names constraints) indexes in
      (
        check_column c table expected_type found_type
            ++ ((if not enabled || not forced then e007_rls table ∷ [] else [])
                ++ (check_policy c table policies "boundary_tenant_isolation"
                    ++ (check_policy c table policies "boundary_admin_bypass" ++ forms))),
        ground (arith, secured, typed, named, constrained, indexed),
      )
