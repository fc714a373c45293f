-- ===== src/Migrations/Unadopt/Restoring.antt =====
-- migrations_ops.py: the statements of the loop over the historical unique sets.
use django_boundary.Prelude.{
  ℕ, String, ◌≡◌, refl, true, sym, ◌∙◌, Option, none, some, List, [], ◌∷◌, ◌++◌, arith, string_eq,
  nat_eq,
}
use django_boundary.Prelude.Lists.{all}
use django_boundary.Runtime.{return, Result, raise}
use django_boundary.Migrations.{
  Table, add_unique, Editor, UniqueConstraint, Statement, drop_constraint, Step,
}
use django_boundary.Migrations.Unadopt.{
  restore_found, recreate_by, unique_sql, find_constraint, wanted_columns, restore_sets,
}
use django_boundary.Migrations.Schema.{
  after_one, after_all, after_all-append, IsPostgresSchema, is_certain,
}
use django_boundary.Migrations.Schema.Effects.{all-IsEffect, and_next-IsEffect, IsEffect}
use mathlib.Core.Path.{subst}
use django_boundary.Adoption.{AppModel, Column}

module _ (E : Editor) (model : AppModel) (table : String) (live : List UniqueConstraint) where
  abbrev pub recreating : Option Statement → List Statement
  recreating none = []
  recreating (some statement) = statement ∷ []

  abbrev pub restoring_found : Option String → List Column → List Statement → List Statement
  restoring_found none columns rest = rest
  restoring_found (some name) columns rest =
      drop_constraint table name ∷ (recreating (unique_sql E model columns) ++ rest)

  -- The statements of the loop over the historical sets
  abbrev pub restoring : List (Result (List Column)) → List Statement
  restoring [] = []
  restoring (raise e ∷ sets) = []
  restoring (return columns ∷ sets) =
      restoring_found (find_constraint live (wanted_columns columns)) columns (restoring sets)

  -- Django's statements for a set of columns each add a unique constraint to the table.
  module _
      (adds : (columns : List Column) (statement : Statement)
        → unique_sql E model columns ≡ some statement
        → (name : String) × (names : List String) × (statement ≡ add_unique table name names))
      (schema : IsPostgresSchema E) (rows : String → ℕ) where
    recreate-IsEffect :
        (columns : List Column) (o : Option Statement)
        → unique_sql E model columns ≡ o
        → IsEffect E rows (recreate_by E model o) (recreating o)
    recreate-IsEffect columns none e = all-IsEffect E schema rows [] refl
    recreate-IsEffect columns (some statement) e =
        let (name, names, same) = adds columns statement e in
        all-IsEffect E schema rows (statement ∷ [])
          (subst (λ st. all is_certain (st ∷ []) ≡ true) (sym same) refl)

    restore_found-IsEffect :
        (o : Option String) (columns : List Column) (m : Step E.State Unit) (rest : List Statement)
        → IsEffect E rows m rest
        → IsEffect E rows (restore_found E model table o columns m) (restoring_found o columns rest)
    restore_found-IsEffect none columns m rest f = f
    restore_found-IsEffect (some name) columns m rest f =
        and_next-IsEffect (all-IsEffect E schema rows (drop_constraint table name ∷ []) refl)
          (and_next-IsEffect (recreate-IsEffect columns (unique_sql E model columns) refl) f)

    pub restore_sets-IsEffect :
        (sets : List (Result (List Column)))
        → IsEffect E rows (restore_sets E model table live sets) (restoring sets)
    unfolding restore_sets
    restore_sets-IsEffect [] = record { effect = λ s has done t. refl }
    restore_sets-IsEffect (raise e ∷ sets) = record {
      effect = λ s has done t. absurd (ground arith);
    }
    restore_sets-IsEffect (return columns ∷ sets) =
        restore_found-IsEffect (find_constraint live (wanted_columns columns)) columns
          (restore_sets E model table live sets) (restoring sets) (restore_sets-IsEffect sets)

  -- The loop changes nothing but unique constraints, where Django's statements add one to the table.
  module _
      (adds : (columns : List Column) (statement : Statement)
        → unique_sql E model columns ≡ some statement
        → (name : String) × (names : List String) × (statement ≡ add_unique table name names))
      (t : String) where
    abbrev pub IsSecuredAlike : Table → Table → Type 0
    IsSecuredAlike old new =
        (new.rls ≡ old.rls) × (new.forced ≡ old.forced) × (new.policies ≡ old.policies)

    alike_trans : (a b c : Table) → IsSecuredAlike a b → IsSecuredAlike b c → IsSecuredAlike a c
    alike_trans a b c (p, q, r) (p', q', r') = (p' ∙ p, q' ∙ q, r' ∙ r)

    after_one-drop :
        (name : String) (old : Table)
        → IsSecuredAlike old (after_one E.current_tenant (drop_constraint table name) t old)
    after_one-drop name old = ground arith

    after_one-add :
        (name : String) (names : List String) (old : Table)
        → IsSecuredAlike old (after_one E.current_tenant (add_unique table name names) t old)
    after_one-add name names old = ground arith

    recreating-alike :
        (columns : List Column) (o : Option Statement) (old : Table)
        → unique_sql E model columns ≡ o
        → IsSecuredAlike old (after_all E.current_tenant (recreating o) t old)
    recreating-alike columns none old e = (refl, refl, refl)
    recreating-alike columns (some statement) old e =
        let (name, names, same) = adds columns statement e in
        subst (λ st. IsSecuredAlike old (after_one E.current_tenant st t old)) (sym same)
          (after_one-add name names old)

    restoring_found-alike :
        (o : Option String) (columns : List Column) (rest : List Statement) (old : Table)
        → ((old' : Table) → IsSecuredAlike old' (after_all E.current_tenant rest t old'))
        → IsSecuredAlike old (after_all E.current_tenant (restoring_found o columns rest) t old)
    restoring_found-alike none columns rest old f = f old
    restoring_found-alike (some name) columns rest old f =
        let dropped = after_one E.current_tenant (drop_constraint table name) t old in
        let again = recreating (unique_sql E model columns) in
        let made = after_all E.current_tenant again t dropped in
        let after = after_all E.current_tenant rest t made in
        subst (IsSecuredAlike old) (sym (after_all-append E.current_tenant again rest t dropped)) (
          alike_trans old dropped after (after_one-drop name old) (
            alike_trans dropped made after
              (recreating-alike columns (unique_sql E model columns) dropped refl) (f made)))

    pub after_all-restoring :
        (sets : List (Result (List Column))) (old : Table)
        → IsSecuredAlike old (after_all E.current_tenant (restoring sets) t old)
    after_all-restoring [] old = (refl, refl, refl)
    after_all-restoring (raise e ∷ sets) old = (refl, refl, refl)
    after_all-restoring (return columns ∷ sets) old =
        restoring_found-alike (find_constraint live (wanted_columns columns)) columns
          (restoring sets) old (after_all-restoring sets)
