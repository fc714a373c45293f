-- ===== src/Prelude/Queries.antt =====
-- The clauses of a SQL query on lists of rows, and what they do to a condition on all rows.
use mathlib.Core.Path.{subst}
use mathlib.Core.List.{append_assoc}
use django_boundary.Prelude.Lists.{all}
use django_boundary.Prelude.{
  String, ◌≡◌, ◌↔◌, inl, inr, refl, ap, ◌∙◌, Bool, true, not, ◌&&◌, ◌||◌, Option, none, some, List,
  [], ◌∷◌, ◌++◌, map, arith, string_eq, nat_eq, if◌then◌else◌, Among, false, Bool-cases, ◌⊎◌,
}

module _ {A : Type 0} where
  -- WHERE
  abbrev pub where_rows : (A → Bool) → List A → List A
  where_rows q [] = []
  where_rows q (row ∷ rows) = if q row then row ∷ where_rows q rows else where_rows q rows

  -- ORDER BY a text, in the order of the database
  abbrev insert_row : (in_order : String → String → Bool) → (A → String) → A → List A → List A
  insert_row in_order key row [] = row ∷ []
  insert_row in_order key row (first ∷ rows) =
      let rest = insert_row in_order key row rows in
      if in_order (key row) (key first) then row ∷ first ∷ rows else first ∷ rest

  abbrev pub order_by : (in_order : String → String → Bool) → (A → String) → List A → List A
  order_by in_order key [] = []
  order_by in_order key (row ∷ rows) = insert_row in_order key row (order_by in_order key rows)

  -- `fetchone()`
  abbrev pub fetchone : List A → Option A
  fetchone [] = none
  fetchone (row ∷ rows) = some row

  pub all-where_rows :
      (p q : A → Bool) (rows : List A)
      → all p (where_rows q rows) ≡ all (λ row. not (q row) || p row) rows
  all-where_rows p q [] = refl
  all-where_rows p q (row ∷ rows) = ground (arith, all-where_rows p q rows)

  all-insert_row :
      (p : A → Bool) (in_order : String → String → Bool) (key : A → String) (row : A)
      (rows : List A)
      → all p (insert_row in_order key row rows) ≡ (p row && all p rows)
  all-insert_row p in_order key row [] = refl
  all-insert_row p in_order key row (first ∷ rows) =
      ground (arith, all-insert_row p in_order key row rows)

  pub all-order_by :
      (p : A → Bool) (in_order : String → String → Bool) (key : A → String) (rows : List A)
      → all p (order_by in_order key rows) ≡ all p rows
  all-order_by p in_order key [] = refl
  all-order_by p in_order key (row ∷ rows) = ground (
    arith,
    all-insert_row p in_order key row (order_by in_order key rows),
    all-order_by p in_order key rows,
  )

  pub all_iff :
      (p : A → Bool) (rows : List A)
      → (all p rows ≡ true) ↔ ((row : A) → Among row rows → p row ≡ true)
  all_iff p [] = ((λ h row there. absurd there), λ h. refl)
  all_iff p (first ∷ rows) = (
    (λ h row there. elim there [
      | inl here ↦ ap p here ∙ ground arith
      | inr later ↦ (all_iff p rows).0 (ground arith) row later
    ]),
    λ h.
        let one = h first (inl refl) in
        let rest = (all_iff p rows).1 (λ row there. h row (inr there)) in ground arith,
  )

  if_true :
      (q : A → Bool) (first : A) (rows : List A)
      → q first ≡ true
      → where_rows q (first ∷ rows) ≡ first ∷ where_rows q rows
  if_true q first rows kept = ground (arith, kept)

  if_false :
      (q : A → Bool) (first : A) (rows : List A)
      → q first ≡ false
      → where_rows q (first ∷ rows) ≡ where_rows q rows
  if_false q first rows left = ground (arith, left)

  pub Among-where_rows :
      (q : A → Bool) (row : A) (rows : List A)
      → Among row (where_rows q rows)
      → Among row rows × (q row ≡ true)
  Among-where_rows q row [] there = absurd there
  Among-where_rows q row (first ∷ rows) there = elim (Bool-cases (q first)) [
    | inl kept ↦ elim (subst (Among row) (if_true q first rows kept) there) [
      | inl here ↦ (inl here, ap q here ∙ kept)
      | inr later ↦ let (among, passes) = Among-where_rows q row rows later in (inr among, passes)
    ]
    | inr left ↦
        let (among, passes) =
          Among-where_rows q row rows (subst (Among row) (if_false q first rows left) there) in
        (inr among, passes)
  ]

  pub List-cases :
      (rows : List A) → (rows ≡ []) ⊎ ((row : A) × (rest : List A) × (rows ≡ row ∷ rest))
  List-cases [] = inl refl
  List-cases (row ∷ rest) = inr (row, rest, refl)

module _ {A B : Type 0} where
  -- JOIN: the rows that each row gives
  abbrev pub join : (A → List B) → List A → List B
  join f [] = []
  join f (row ∷ rows) = f row ++ join f rows

  pub all-map :
      (p : B → Bool) (f : A → B) (rows : List A) → all p (map f rows) ≡ all (λ row. p (f row)) rows
  all-map p f [] = refl
  all-map p f (row ∷ rows) = ground (arith, all-map p f rows)

  pub join-append : (f : A → List B) (xs ys : List A) → join f (xs ++ ys) ≡ join f xs ++ join f ys
  join-append f [] ys = refl
  join-append f (x ∷ xs) ys =
      ground (arith, join-append f xs ys, append_assoc (f x) (join f xs) (join f ys))

all-append :
    {B : Type 0} (p : B → Bool) (xs ys : List B) → all p (xs ++ ys) ≡ (all p xs && all p ys)
all-append p [] ys = refl
all-append p (x ∷ xs) ys = ground (arith, all-append p xs ys)

pub all-join :
    {A B : Type 0} (p : B → Bool) (f : A → List B) (rows : List A)
    → all p (join f rows) ≡ all (λ row. all p (f row)) rows
all-join p f [] = refl
all-join p f (row ∷ rows) = ground (arith, all-append p (f row) (join f rows), all-join p f rows)
