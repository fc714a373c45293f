-- ===== src/Migrations/Sql/Literal.antt =====
-- migrations_ops.py: a quoted text is one literal for the server, with any text inside it.
use django_boundary.Prelude.{
  String, ◌<>◌, ◌≡◌, inl, inr, refl, sym, ap, ◌∙◌, true, false, some, [], ◌∷◌, arith, string_eq,
  nat_eq, Bool-cases,
}
use Prim.Native.Char.{Char}
use Prim.Native.String.{[], ◌∷◌}
use text.Mathlib.TextEquality.{Char-path}
use text.Mathlib.TextLemmas.{append_assoc, nil-append, cons-append}
use django_boundary.Prelude.Text.{is_char, replace}
use django_boundary.Migrations.Sql.{
  read_quoted, read_literal, add_char, begins_with_quote, sql_string_literal,
}

abbrev quote : Char
quote = "'"

char-eq-quote : (x : Char) → is_char 39 x ≡ true → x ≡ quote
char-eq-quote x h = Char-path x quote (ground arith)

is_char-quote : is_char 39 quote ≡ true
unfolding nat_eq
is_char-quote = refl

read_quoted-plain :
    (x : Char) (s : String)
    → is_char 39 x ≡ false
    → read_quoted (x ∷ s) ≡ add_char x (read_quoted s)
unfolding read_quoted
read_quoted-plain x [] plain = ground arith
read_quoted-plain x (y ∷ s) plain = ground arith

read_quoted-pair : (s : String) → read_quoted (quote ∷ (quote ∷ s)) ≡ add_char quote (read_quoted s)
unfolding read_quoted
read_quoted-pair s = rw is_char-quote refl

read_quoted-end :
    (rest : String) → begins_with_quote rest ≡ false → read_quoted (quote ∷ rest) ≡ some ([], rest)
unfolding read_quoted
read_quoted-end [] apart = rw is_char-quote refl
read_quoted-end (y ∷ s) apart = rw is_char-quote (rw apart refl)

replace-quote :
    (x : Char) (s : String)
    → is_char 39 x ≡ true
    → replace 39 "''" (x ∷ s) ≡ quote ∷ (quote ∷ replace 39 "''" s)
unfolding replace
replace-quote x s h = rw h (
    cons-append quote "'" _
    ∙ ap (λ u. quote ∷ u) (cons-append quote [] _ ∙ ap (λ u. quote ∷ u) (nil-append _)))

replace-plain :
    (x : Char) (s : String) → is_char 39 x ≡ false → replace 39 "''" (x ∷ s) ≡ x ∷ replace 39 "''" s
unfolding replace
replace-plain x s h = rw h (cons-append x [] _ ∙ ap (λ u. x ∷ u) (nil-append _))

read_quoted-replace :
    (value rest : String)
    → begins_with_quote rest ≡ false
    → read_quoted (replace 39 "''" value <> (quote ∷ rest)) ≡ some (value, rest)
unfolding replace
read_quoted-replace [] rest apart = rw nil-append (read_quoted-end rest apart)
read_quoted-replace (x ∷ value) rest apart = elim (Bool-cases (is_char 39 x)) [
  | inl here ↦ rw (replace-quote x value here) (
      rw cons-append (
        rw cons-append (
          read_quoted-pair _
          ∙ ap (add_char quote) (read_quoted-replace value rest apart)
          ∙ ap (λ c. some (c ∷ value, rest)) (sym (char-eq-quote x here)))))
  | inr plain ↦ rw (replace-plain x value plain) (
      rw cons-append
        (read_quoted-plain x _ plain ∙ ap (add_char x) (read_quoted-replace value rest apart)))
]

literal_shape :
    (inner rest : String) → ("'" <> inner <> "'") <> rest ≡ quote ∷ (inner <> (quote ∷ rest))
literal_shape inner rest =
    ap (λ u. u <> rest) (cons-append quote [] (inner <> "'") ∙ ap (λ u. quote ∷ u) (nil-append _))
    ∙ cons-append quote (inner <> "'") rest
    ∙ ap (λ u. quote ∷ u)
        (append_assoc inner "'" rest
          ∙ ap (λ u. inner <> u)
              (cons-append quote [] rest ∙ ap (λ u. quote ∷ u) (nil-append rest)))

-- A text that `_sql_string_literal` has quoted is read back as that text by a server that reads a
-- literal there, and the literal ends where the quoting ends, if no quote follows it.
pub read_literal-sql_string_literal :
    (value rest : String)
    → begins_with_quote rest ≡ false
    → read_literal (sql_string_literal value <> rest) ≡ some (value, rest)
unfolding read_literal sql_string_literal
read_literal-sql_string_literal value rest apart =
    rw (literal_shape (replace 39 "''" value) rest)
      (rw is_char-quote (read_quoted-replace value rest apart))
