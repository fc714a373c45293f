-- ===== src/Migrations/Names.antt =====
-- migrations_ops.py and schema_compat.py: the names of constraints, and the types of the tenant column.
use django_boundary.Prelude.{
  ℕ, ◌≤◌, String, ◌<>◌, Bool, not, ◌&&◌, Option, none, some, List, [], ◌∷◌, ◌++◌, map, arith, ◌==◌,
  string_eq, nat_eq, if◌then◌else◌, leb,
}
use django_boundary.Prelude.Text.{lower, strip, len}
use django_boundary.Prelude.Dict.{Dict, lookup}
use django_boundary.Conf.{setting}
use django_boundary.Runtime.{Result, return, raise, foreign}
use django_boundary.Adoption.{AppModel, Column, Constraint, unique_constraint, other_constraint}
use django_boundary.Migrations.{Editor, Statement}

abbrev pg_type_map : Dict String
pg_type_map =
    ("uuid", "uuid")
    ∷ ("integer", "bigint")
    ∷ ("bigint", "bigint")
    ∷ ("serial", "bigint")
    ∷ ("bigserial", "bigint")
    ∷ []

-- `_PG_TYPE_MAP.get(db_type)`; a field may have no database type
unfoldable pub pg_type_of : Option String → Option String
unfolding lookup
pg_type_of none = none
pg_type_of (some db_type) = lookup db_type pg_type_map

unfoldable pub detect_tenant_pg_type : (pk_type : Option String) → String
unfolding pg_type_of
detect_tenant_pg_type pk_type = setting (pg_type_of pk_type) "bigint"

unfoldable pub pg_types_match : (found expected : String) → Bool
pg_types_match found expected = lower (strip found) == lower (strip expected)

abbrev pub max_identifier_length : ℕ
max_identifier_length = 63

module _ (E : Editor) where
  -- schema_compat.py
  unfoldable pub index_name : (table : String) (columns : List String) (suffix : String) → String
  index_name table columns suffix = E.create_index_name table columns suffix

  unfoldable pub unique_sql : AppModel → List Column → Option Statement
  unique_sql model fields = E.create_unique_sql model fields

  unfoldable pub composite_constraint_name :
      (table original_name : String) (columns : List String) → String
  unfolding index_name
  composite_constraint_name table original_name columns =
      let suffixed = original_name <> "_tenant" in
      if leb (len suffixed) max_identifier_length
      then suffixed
      else index_name table columns "_tenant"

  -- Where the names that Django makes keep to 63 characters, the name of a rewritten constraint does
  -- too, however long the original.
  pub len-composite_constraint_name :
      ((table : String) (columns : List String) (suffix : String)
        → len (E.create_index_name table columns suffix) ≤ max_identifier_length)
      → (table original_name : String) (columns : List String)
      → len (composite_constraint_name table original_name columns) ≤ max_identifier_length
  unfolding composite_constraint_name index_name
  len-composite_constraint_name bounded table original_name columns =
      ground (arith, bounded table columns "_tenant")

-- The fields that `_meta.get_field` finds; the first name that it does not find raises.
get_fields : AppModel → List String → Result (List Column)
get_fields model [] = return []
get_fields model (name ∷ names) = elim (model.get_field name) [
  | none ↦ raise (foreign "FieldDoesNotExist")
  | some field ↦ elim (get_fields model names) [
    | raise e ↦ raise e
    | return fields ↦ return (field ∷ fields)
  ]
]

single_fields : List Column → List (Result (List Column))
single_fields [] = []
single_fields (field ∷ fields) =
    let rest = single_fields fields in
    if field.unique && not field.primary_key then return (field ∷ []) ∷ rest else rest

constraint_fields : AppModel → List Constraint → List (Result (List Column))
unfolding get_fields
constraint_fields model [] = []
constraint_fields model (other_constraint ∷ constraints) = constraint_fields model constraints
constraint_fields model (unique_constraint [] plain ∷ constraints) =
    constraint_fields model constraints
constraint_fields model (unique_constraint (name ∷ names) plain ∷ constraints) =
    let rest = constraint_fields model constraints in
    if not plain then rest else get_fields model (name ∷ names) ∷ rest

-- What the generator yields, one by one; it ends where it raises.
unfoldable pub historical_unique_column_sets : AppModel → List (Result (List Column))
unfolding single_fields get_fields constraint_fields
historical_unique_column_sets model =
    single_fields model.local_fields
    ++ map (get_fields model) model.unique_together
    ++ constraint_fields model model.constraints
