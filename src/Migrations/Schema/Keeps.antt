-- ===== src/Migrations/Schema/Keeps.antt =====
-- migrations_ops.py: steps that keep what each of their statements keeps.
use django_boundary.Prelude.{
  ℕ, ◌≡◌, inl, inr, sym, ap, ◌∙◌, some, List, [], ◌∷◌, arith, string_eq, nat_eq, Option-cases,
}
use mathlib.Core.Path.{subst}
use django_boundary.Runtime.{Result-cases, return}
use django_boundary.Migrations.{Editor, Statement, Step, execute_all, and_next, continue_with}

-- Each statement that returns keeps `P`.
pub record StatementsKeep (E : Editor) (P : E.State → Type 0) : Type 0 where
  pub kept :
      (statement : Statement) (s : E.State) (n : ℕ)
      → P s
      → (E.execute statement s).0 ≡ some n
      → P (E.execute statement s).1

-- So does the step.
pub record Keeps (E : Editor) (P : E.State → Type 0) (m : Step E.State Unit) : Type 0 where
  pub keeps : (s : E.State) → P s → (m s).0 ≡ return tt → P (m s).1

pub execute_all-Keeps :
    {E : Editor} {P : E.State → Type 0}
    → StatementsKeep E P
    → (statements : List Statement) → Keeps E P (execute_all E statements)
unfolding execute_all
execute_all-Keeps {E} {P} statements_keep [] = record { keeps = λ s holds done. holds }
execute_all-Keeps {E} {P} statements_keep (statement ∷ statements) = record {
  keeps = λ s holds done. elim (Option-cases (E.execute statement s).0) [
    | inl raised ↦ absurd (ground arith)
    | inr (n, ran) ↦
        let s' = (E.execute statement s).1 in
        let same : execute_all E (statement ∷ statements) s ≡ execute_all E statements s' =
          ground arith in
        subst (λ r. P r.1) (sym same)
          ((execute_all-Keeps statements_keep statements).keeps s'
            (statements_keep.kept statement s n holds ran) (sym (ap (λ r. r.0) same) ∙ done))
  ];
}

pub and_next-Keeps :
    {E : Editor} {P : E.State → Type 0} {m n : Step E.State Unit}
    → Keeps E P m
    → Keeps E P n
    → Keeps E P (and_next m n)
and_next-Keeps {E} {P} {m} {n} f g = record {
  keeps = λ s holds done. elim (Result-cases (m s).0) [
    | inl (_, returned) ↦
        let same : and_next m n s ≡ n (m s).1 =
          ap (λ r. continue_with {S = E.State} {A = Unit} {B = Unit} r (λ _. n) (m s).1) returned in
        subst (λ r. P r.1) (sym same)
          (g.keeps (m s).1 (f.keeps s holds returned) (sym (ap (λ r. r.0) same) ∙ done))
    | inr (e, raised) ↦ absurd (ground arith)
  ];
}
