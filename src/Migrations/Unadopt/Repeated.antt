-- ===== src/Migrations/Unadopt/Repeated.antt =====
-- migrations_ops.py: two historical sets of the same columns.
use django_boundary.Migrations.Schema.{IsPostgresSchema}
use django_boundary.Migrations.{add_unique, Editor, execute_all, drop_constraint, UniqueConstraint}
use django_boundary.Prelude.Dict.{lookup-erase, lookup}
use django_boundary.Migrations.Names.{unique_sql}
use django_boundary.Prelude.{
  String, ◌≡◌, none, some, List, ◌∷◌, arith, string_eq, nat_eq, ◌≢◌, ◌++◌, [], ℕ, Option-cases, ap,
  inl, ◌∙◌, inr, ◌==◌, true, refl,
}
use django_boundary.Runtime.{Result, return, raise, database_error}
use django_boundary.Adoption.{AppModel, Column}
use django_boundary.Migrations.Unadopt.{restore_sets, find_constraint, wanted_columns}

module _ (E : Editor) (model : AppModel) (table name : String) (live : List UniqueConstraint)
    (absent : (s : E.State)
      → lookup name (E.table s table).unique_constraints ≡ none
      → (E.execute (drop_constraint table name) s).0 ≡ none) where
  -- A set whose constraint is gone already raises.
  restore_sets_absent :
      (columns : List Column) (sets : List (Result (List Column))) (s : E.State)
      → find_constraint live (wanted_columns columns) ≡ some name
      → lookup name (E.table s table).unique_constraints ≡ none
      → (restore_sets E model table live (return columns ∷ sets) s).0 ≡ raise database_error
  unfolding restore_sets execute_all
  restore_sets_absent columns sets s found gone = ground (arith, absent s gone)

  lookup-snoc :
      (other : String) (columns : List String) (d : List (String × List String))
      → lookup name d ≡ none
      → other ≢ name
      → lookup name (d ++ (other, columns) ∷ []) ≡ none
  unfolding lookup
  lookup-snoc other columns [] _ differ = ground arith
  lookup-snoc other columns ((j, v) ∷ d) gone differ = ground (arith, lookup-snoc other columns d)

  own_table : (table == table) ≡ true
  own_table = ground arith

  module _ (schema : IsPostgresSchema E) where
    dropped_absent :
        (s : E.State) (n : ℕ)
        → (E.execute (drop_constraint table name) s).0 ≡ some n
        → lookup name
            (E.table (E.execute (drop_constraint table name) s).1 table).unique_constraints
          ≡ none
    dropped_absent s n ran =
        ap (λ t. lookup name t.unique_constraints)
          (schema.changes (drop_constraint table name) s n table ran refl)
        ∙ rw own_table (ground (arith, lookup-erase name name (E.table s table).unique_constraints))

    added_absent :
        (other : String) (columns : List String) (s : E.State) (n : ℕ)
        → other ≢ name
        → lookup name (E.table s table).unique_constraints ≡ none
        → (E.execute (add_unique table other columns) s).0 ≡ some n
        → lookup name
            (E.table (E.execute (add_unique table other columns) s).1 table).unique_constraints
          ≡ none
    added_absent other columns s n differ gone ran =
        ap (λ t. lookup name t.unique_constraints)
          (schema.changes (add_unique table other columns) s n table ran refl)
        ∙ rw own_table (lookup-snoc other columns (E.table s table).unique_constraints gone differ)

    -- Where two historical sets that follow each other are found as one constraint of the list that
    -- was read before the loop, and the first is recreated under another name, and dropping a
    -- constraint that is not there raises, the reversal raises a database error.
    pub restore_sets_repeated :
        (columns columns' : List Column) (sets : List (Result (List Column))) (s : E.State)
        (other : String) (restored : List String)
        → find_constraint live (wanted_columns columns) ≡ some name
        → find_constraint live (wanted_columns columns') ≡ some name
        → unique_sql E model columns ≡ some (add_unique table other restored)
        → other ≢ name
        → (restore_sets E model table live (return columns ∷ return columns' ∷ sets) s).0
          ≡ raise database_error
    unfolding restore_sets execute_all
    restore_sets_repeated columns columns' sets s other restored found found' statement differ =
        let s' = (E.execute (drop_constraint table name) s).1 in
        elim (Option-cases (E.execute (drop_constraint table name) s).0) [
          | inl raised ↦ ground arith
          | inr (n, ran) ↦ elim (Option-cases (E.execute (add_unique table other restored) s').0) [
            | inl raised ↦ ground arith
            | inr (k, ran') ↦
                let s'' = (E.execute (add_unique table other restored) s').1 in
                ground (
                  arith,
                  restore_sets_absent columns' sets s'' found'
                      (added_absent other restored s' k differ (dropped_absent s n ran) ran'),
                )
          ]
        ]
