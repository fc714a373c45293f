-- ===== src/Commands/Deprovision/Export.antt =====
-- boundary_deprovision: the export, one line of JSON for each row of the tenant, and the row of a line.
use django_boundary.Prelude.{
  ℕ, String, ◌<>◌, ◌≡◌, not, ◌||◌, Option, none, some, List, [], ◌∷◌, arith, ◌==◌, string_eq,
  nat_eq, if◌then◌else◌,
}
use django_boundary.Prelude.Dict.{Dict, lookup, insert, update, NodupKeys, lookup-update}
use django_boundary.Conf.{Settings}
use django_boundary.Runtime.{Tenant, Exception, return, raise, Action, ◌>>=◌}
use django_boundary.Runtime.Database.{Database}
use django_boundary.Context.Bypass.{admin_bypass}
use django_boundary.Models.{Registry}
use django_boundary.Commands.Deprovision.{Table, lookup_of, is_tenant_model}

-- What `json.dumps` is given for a value: `str(val)`, `None`, `True`, or the value of a column, which
-- `DjangoJSONEncoder` writes.
pub data Cell : Type 0 where
  text : String → Cell
  null : Cell
  flag : Cell
  raw : String → Cell

-- `str(record.get(pk_column))`, with Python's `str` of a value
abbrev text_of : (str : Cell → String) → Option Cell → Cell
text_of str none = text "None"
text_of str (some cell) = text (str cell)

-- What is read of a table beside `Table`: the label of its model, the column of its primary key, and
-- the `attname`s of its fields.
pub record Source : Type 0 where
  pub table : Table
  pub label : String
  pub pk_column : String
  pub attnames : List String

-- An object: `str(obj.pk)`, and its attributes, of which one may be missing or `None`
pub record Obj : Type 0 where
  pub pk : String
  pub attribute : String → Option String

-- The loop over `get_fields()`
abbrev cell_of : Option String → Cell
cell_of none = null
cell_of (some val) = text val

unfoldable add_fields : Obj → List String → Dict Cell → Dict Cell
add_fields obj [] row = row
add_fields obj (attname ∷ attnames) row =
    add_fields obj attnames (insert attname (cell_of (obj.attribute attname)) row)

unfoldable scoped_row : Source → Obj → Dict Cell
unfolding add_fields
scoped_row source obj =
    add_fields obj source.attnames (("_model", text source.label) ∷ ("_pk", text obj.pk) ∷ [])

-- A row of an adopted table, by its columns
unfoldable adopted_row : (str : Cell → String) → Source → Dict Cell → Dict Cell
unfolding update
adopted_row str source columns =
    update
      (("_model", text source.label)
        ∷ ("_pk", text_of str (lookup source.pk_column columns))
        ∷ ("_adopted", flag)
        ∷ [])
      columns

-- Rows as they are fetched, and the exception that ended the fetching
abbrev Fetched : Type 0 → Type 0
Fetched A = List A × Option Exception

-- The registries, the queries, with the chunks that they are fetched in, Python's `str` and `json.dumps`,
-- and the file.
pub record Exporting (S : Type 0) : Type 0 where
  pub registry : Registry
  pub models : List Source
  pub adopted : List Source
  pub fetch : Source → (lookup : String) → Tenant → (batch_size : ℕ) → Action S (Fetched Obj)
  pub fetch_adopted :
      Source → (alias : String) → Tenant → (batch_size : ℕ) → Action S (Fetched (Dict Cell))
  -- the alias that the router names for reading
  pub db_for_read : Source → String
  pub str : Cell → String
  pub dumps : Dict Cell → String
  pub open_file : (path : String) → Action S Unit
  pub write : String → Action S Unit

module _ {S A : Type 0} (write : String → Action S Unit) (line : A → String) where
  -- Each row is written as it is fetched.
  unfoldable write_rows : List A → Action S Unit
  write_rows [] w = (return tt, w)
  write_rows (row ∷ rows) w = (write (line row) >>= λ written. write_rows rows) w

  abbrev pub ended : Option Exception → Action S Unit
  ended none w = (return tt, w)
  ended (some e) w = (raise e, w)

  unfoldable write_fetched : Fetched A → Action S Unit
  unfolding write_rows
  write_fetched (rows, failure) = write_rows rows >>= λ written. ended failure

unfoldable scoped_sources : Registry → List Source → List Source
scoped_sources registry [] = []
scoped_sources registry (source ∷ sources) =
    let rest = scoped_sources registry sources in
    if not (is_tenant_model registry source.table.model) || source.table.abstract
    then rest
    else source ∷ rest

unfoldable for_each : {S A : Type 0} → (A → Action S Unit) → List A → Action S Unit
for_each step [] w = (return tt, w)
for_each step (a ∷ rest) w = (step a >>= λ done. for_each step rest) w

module _ (cfg : Settings) (D : Database) (X : Exporting D.State) where
  unfoldable export_scoped : Tenant → ℕ → Source → Action D.State Unit
  unfolding write_fetched scoped_row
  export_scoped tenant batch_size source =
      X.fetch source (lookup_of source.table.model) tenant batch_size
      >>= write_fetched X.write (λ obj. X.dumps (scoped_row source obj) <> "\n")

  -- `_export_adopted_rows`
  unfoldable export_adopted : Tenant → ℕ → Source → Action D.State Unit
  unfolding write_fetched adopted_row
  export_adopted tenant batch_size source =
      let alias = X.db_for_read source in
      admin_bypass cfg D alias (
        X.fetch_adopted source alias tenant batch_size
        >>= write_fetched X.write (λ columns. X.dumps (adopted_row X.str source columns) <> "\n"))

  -- `_export`
  unfoldable export_tenant : (path : String) (batch_size : ℕ) → Tenant → Action D.State Unit
  unfolding export_scoped export_adopted scoped_sources for_each
  export_tenant path batch_size tenant = X.open_file path >>= λ opened.
      for_each (export_scoped tenant batch_size) (scoped_sources X.registry X.models) >>= λ scoped.
      for_each (export_adopted tenant batch_size) X.adopted

-- An entry of the line of an adopted row is the column's of that name; where the table has none, it is
-- the label, the key or the mark under one of the three names of the export, and else missing.
lookup-adopted_row :
    (str : Cell → String) (source : Source) (columns : Dict Cell) (j : String)
    → NodupKeys columns
    → lookup j (adopted_row str source columns) ≡ (elim (lookup j columns) [
      | some cell ↦ some cell
      | none ↦
          if j == "_model"
          then some (text source.label)
          else if j == "_pk"
          then some (text_of str (lookup source.pk_column columns))
          else if j == "_adopted"
          then some flag
          else none
    ])
unfolding adopted_row lookup
lookup-adopted_row str source columns j nodup =
    let head : Dict Cell =
      ("_model", text source.label)
      ∷ ("_pk", text_of str (lookup source.pk_column columns))
      ∷ ("_adopted", flag)
      ∷ [] in
    ground (arith, lookup-update j head columns nodup)
