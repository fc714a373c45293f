-- ===== src/Adoption/Introspection.antt =====
-- adoption.py: the queries of PostgreSQL's catalogue, `column_type`, `unique_constraints`, `unique_indexes`
-- and `policy_names`, on the relations that they read.
use django_boundary.Prelude.Queries.{where_rows, order_by, fetchone, join}
use django_boundary.Migrations.{UniqueConstraint, UniqueIndex}
use django_boundary.Prelude.{
  ℕ, zero, suc, String, Bool, true, false, not, ◌&&◌, ◌||◌, Option, none, some, List, [], ◌∷◌, map,
  ◌==◌, string_eq, nat_eq,
}

-- A column number: those of a system column are below 0, and 0 stands for an expression.
pub data ℤ : Type 0 where
  pos : ℕ → ℤ
  negsuc : ℕ → ℤ

abbrev same_number : ℤ → ℤ → Bool
same_number (pos m) (pos n) = m == n
same_number (negsuc m) (negsuc n) = m == n
same_number (pos m) (negsuc n) = false
same_number (negsuc m) (pos n) = false

abbrev is_positive : ℤ → Bool
is_positive (pos (suc n)) = true
is_positive (pos zero) = false
is_positive (negsuc n) = false

-- `pg_attribute`, with `format_type` of the row's type
pub record PgAttribute : Type 0 where
  pub attrelid : ℕ
  pub attname : String
  pub attnum : ℤ
  pub format_type : String
  pub attisdropped : Bool

-- `pg_class`
pub record PgClass : Type 0 where
  pub oid : ℕ
  pub relname : String
  pub relrowsecurity : Bool
  pub relforcerowsecurity : Bool

-- `pg_constraint`
pub record PgConstraint : Type 0 where
  pub conname : String
  pub conrelid : ℕ
  pub contype : String
  pub conkey : List ℤ
  pub condeferrable : Bool
  pub conindid : ℕ

-- `pg_index`; its last two are `indpred IS NOT NULL` and `indexprs IS NOT NULL`.
pub record PgIndex : Type 0 where
  pub indexrelid : ℕ
  pub indrelid : ℕ
  pub indkey : List ℤ
  pub indisunique : Bool
  pub indisprimary : Bool
  pub partial : Bool
  pub expression : Bool

-- `pg_policy`
pub record PgPolicy : Type 0 where
  pub polname : String
  pub polrelid : ℕ

-- The relations, the resolution of a name by the search path, and the order of names
pub record PgCatalog : Type 0 where
  pub pg_attribute : List PgAttribute
  pub pg_class : List PgClass
  pub pg_constraint : List PgConstraint
  pub pg_index : List PgIndex
  pub pg_policy : List PgPolicy
  pub to_regclass : String → Option ℕ
  pub in_order : String → String → Bool

module _ (c : PgCatalog) where
  -- The subquery for the names of a key: its join with `pg_attribute`, in the order of the key
  abbrev pub named_by : (relid : ℕ) → ℤ → List String
  named_by relid attnum =
      map (λ a. a.attname)
        (where_rows (λ a. a.attrelid == relid && same_number a.attnum attnum) c.pg_attribute)

  unfoldable pub key_columns : (relid : ℕ) → List ℤ → List String
  key_columns relid key = join (named_by relid) key

  unfoldable pub column_type : (table column : String) → Option String
  column_type table column = elim (c.to_regclass table) [
    | none ↦ none
    | some relid ↦ fetchone (
        map (λ a. a.format_type)
          (where_rows
            (λ a.
              a.attrelid == relid
              && (a.attname == column && (is_positive a.attnum && not a.attisdropped)))
            c.pg_attribute))
  ]

  -- A foreign key that targets the index
  abbrev is_target : (conindid : ℕ) → List PgConstraint → Bool
  is_target conindid [] = false
  is_target conindid (f ∷ constraints) =
      f.contype == "f" && f.conindid == conindid || is_target conindid constraints

  abbrev pub constraint_row : PgConstraint → UniqueConstraint
  constraint_row k = record {
    name = k.conname;
    columns = key_columns k.conrelid k.conkey;
    deferrable = k.condeferrable;
    fk_targeted = is_target k.conindid c.pg_constraint;
  }

  abbrev pub is_unique_of : (relid : ℕ) → PgConstraint → Bool
  is_unique_of relid k = k.conrelid == relid && k.contype == "u"

  unfoldable pub unique_constraints : (table : String) → List UniqueConstraint
  unique_constraints table = elim (c.to_regclass table) [
    | none ↦ []
    | some relid ↦
        order_by c.in_order (λ row. row.name)
          (map constraint_row (where_rows (is_unique_of relid) c.pg_constraint))
  ]

  abbrev pub backs : (indexrelid : ℕ) → PgConstraint → Bool
  backs indexrelid k = k.conindid == indexrelid && (k.contype == "u" || k.contype == "p")

  -- LEFT JOIN: one row without a constraint where none backs the index
  abbrev pub joined_names : List PgConstraint → List (Option String)
  joined_names [] = none ∷ []
  joined_names (k ∷ constraints) = map (λ k'. some k'.conname) (k ∷ constraints)

  abbrev pub index_row : PgIndex → PgClass → Option String → UniqueIndex
  index_row x i conname = record {
    name = i.relname;
    columns = key_columns x.indrelid x.indkey;
    primary = x.indisprimary;
    constraint = conname;
    partial = x.partial;
    expression = x.expression;
  }

  abbrev pub index_rows : PgIndex → List UniqueIndex
  index_rows x =
      join
        (λ i. map (index_row x i) (joined_names (where_rows (backs x.indexrelid) c.pg_constraint)))
        (where_rows (λ i. i.oid == x.indexrelid) c.pg_class)

  abbrev pub is_unique_index_of : (relid : ℕ) → PgIndex → Bool
  is_unique_index_of relid x = x.indrelid == relid && x.indisunique

  unfoldable pub unique_indexes : (table : String) → List UniqueIndex
  unique_indexes table = elim (c.to_regclass table) [
    | none ↦ []
    | some relid ↦
        order_by c.in_order (λ row. row.name)
          (join index_rows (where_rows (is_unique_index_of relid) c.pg_index))
  ]

  unfoldable pub policy_names : (table : String) → List String
  policy_names table = elim (c.to_regclass table) [
    | none ↦ []
    | some relid ↦ map (λ p. p.polname) (where_rows (λ p. p.polrelid == relid) c.pg_policy)
  ]

  -- The query of checks.py for the flags of a table
  unfoldable pub row_security : (table : String) → Option (Bool × Bool)
  row_security table = elim (c.to_regclass table) [
    | none ↦ none
    | some relid ↦ fetchone (
        map (λ t. (t.relrowsecurity, t.relforcerowsecurity))
          (where_rows (λ t. t.oid == relid) c.pg_class))
  ]
