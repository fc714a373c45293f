-- ===== src/Migrations/Schema/Effects.antt =====
-- migrations_ops.py: steps that have the effect of their statements, which keep the number of rows.
use django_boundary.Prelude.Lists.{all}
use django_boundary.Runtime.{return, Result-cases}
use django_boundary.Migrations.{
  Editor, Statement, Step, Table, execute_all, and_next, continue_with, backfill_tenant_id,
  add_tenant_column, add_nullable_tenant_column, set_not_null, set_default,
  create_tenant_id_function, enable_rls, force_rls, disable_rls, no_force_rls,
  create_isolation_policy, create_bypass_policy, drop_policy, drop_tenant_column, drop_constraint,
  add_unique,
}
use django_boundary.Migrations.Schema.{
  IsPostgresSchema, concerns, changed, after_one, after_all, after_all-append, stamp_all,
  is_certain, execute_all-after_all,
}
use django_boundary.Prelude.{
  ℕ, String, ◌≡◌, inl, inr, refl, sym, ap, ◌∙◌, true, Option, none, some, List, [], ◌∷◌, ◌++◌,
  arith, string_eq, nat_eq, Bool-cases, length,
}

length-stamp_all :
    (tenant : Option String) (rows : List (Option String))
    → length (stamp_all tenant rows) ≡ length rows
length-stamp_all tenant [] = refl
length-stamp_all tenant (row ∷ rows) = ground (arith, length-stamp_all tenant rows)

length-changed :
    (default : Option String) (statement : Statement) (t : Table)
    → length (changed default statement t).rows ≡ length t.rows
length-changed default (create_tenant_id_function _ _ _) t = refl
length-changed default (enable_rls _) t = refl
length-changed default (force_rls _) t = refl
length-changed default (disable_rls _) t = refl
length-changed default (no_force_rls _) t = refl
length-changed default (create_isolation_policy _ _) t = refl
length-changed default (create_bypass_policy _ _) t = refl
length-changed default (drop_policy _ _) t = refl
length-changed default (add_tenant_column _ _) t = length-stamp_all default t.rows
length-changed default (add_nullable_tenant_column _ _) t = length-stamp_all none t.rows
length-changed default (backfill_tenant_id _ tenant) t = length-stamp_all (some tenant) t.rows
length-changed default (set_not_null _) t = refl
length-changed default (set_default _) t = refl
length-changed default (drop_tenant_column _) t = length-stamp_all none t.rows
length-changed default (drop_constraint _ _) t = refl
length-changed default (add_unique _ _ _) t = refl

length-after_one :
    (default : Option String) (statement : Statement) (name : String) (t : Table)
    → length (after_one default statement name t).rows ≡ length t.rows
length-after_one default statement name t = elim (Bool-cases (concerns statement name)) [
  | inl its ↦ rw its (length-changed default statement t)
  | inr other ↦ rw other refl
]

length-after_all :
    (default : Option String) (statements : List Statement) (name : String) (t : Table)
    → length (after_all default statements name t).rows ≡ length t.rows
length-after_all default [] name t = refl
length-after_all default (statement ∷ statements) name t =
    length-after_all default statements name (after_one default statement name t)
    ∙ length-after_one default statement name t

-- Each table has as many rows as `rows` says.
abbrev pub HasRows : (E : Editor) → (rows : String → ℕ) → E.State → Type 0
HasRows E rows s = (t : String) → length (E.table s t).rows ≡ rows t

-- A step that, from such a state and if it returns, leaves the tables as the statements do.
pub record IsEffect (E : Editor) (rows : String → ℕ) (m : Step E.State Unit)
    (statements : List Statement) : Type 0 where
  pub effect :
      (s : E.State)
      → HasRows E rows s
      → (m s).0 ≡ return tt
      → (t : String) → E.table (m s).1 t ≡ after_all E.current_tenant statements t (E.table s t)

pub HasRows-after_all :
    (E : Editor) (rows : String → ℕ) (statements : List Statement) (s s' : E.State)
    → HasRows E rows s
    → ((t : String) → E.table s' t ≡ after_all E.current_tenant statements t (E.table s t))
    → HasRows E rows s'
HasRows-after_all E rows statements s s' has after t =
    ap (λ table. length table.rows) (after t)
    ∙ length-after_all E.current_tenant statements t (E.table s t)
    ∙ has t

pub all-IsEffect :
    (E : Editor) (schema : IsPostgresSchema E) (rows : String → ℕ) (statements : List Statement)
    → all is_certain statements ≡ true
    → IsEffect E rows (execute_all E statements) statements
all-IsEffect E schema rows statements certain = record {
  effect = λ s has done t. execute_all-after_all E schema statements s certain done t;
}

pub and_next-IsEffect :
    {E : Editor} {rows : String → ℕ} {m n : Step E.State Unit} {first second : List Statement}
    → IsEffect E rows m first
    → IsEffect E rows n second
    → IsEffect E rows (and_next m n) (first ++ second)
and_next-IsEffect {E} {rows} {m} {n} {first} {second} f g = record {
  effect = λ s has done t. elim (Result-cases (m s).0) [
    | inl (_, returned) ↦
        let same : and_next m n s ≡ n (m s).1 =
          ap (λ r. continue_with {S = E.State} {A = Unit} {B = Unit} r (λ _. n) (m s).1) returned in
        ap (λ r. E.table r.1 t) same
        ∙ g.effect (m s).1 (HasRows-after_all E rows first s (m s).1 has (f.effect s has returned))
            (sym (ap (λ r. r.0) same) ∙ done) t
        ∙ ap (after_all E.current_tenant second t) (f.effect s has returned t)
        ∙ sym (after_all-append E.current_tenant first second t (E.table s t))
    | inr (e, raised) ↦ absurd (ground arith)
  ];
}
