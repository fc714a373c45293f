-- ===== src/Migrations/Adopt/Constraints.antt =====
-- migrations_ops.py: the unique constraints of a table that is adopted.
use django_boundary.Prelude.{
  String, ◌≡◌, refl, ap, ◌∙◌, Bool, true, false, ◌&&◌, ◌||◌, List, [], ◌∷◌, ◌++◌, arith, ◌==◌,
  string_eq, nat_eq, contains, all, not, map, sym, if◌then◌else◌,
}
use django_boundary.Prelude.{Among, ◌↔◌}
use django_boundary.Prelude.Queries.{all_iff}
use django_boundary.Prelude.Dict.{erase}
use django_boundary.Migrations.{Editor, Table, add_unique, drop_constraint, UniqueConstraint}
use django_boundary.Migrations.Schema.{after_one, after_all, columns_of}
use django_boundary.Migrations.Names.{composite_constraint_name}
use django_boundary.Migrations.Adopt.{unique_rewrites}
use django_boundary.Migrations.Validate.{plan_constraints}
use django_boundary.Runtime.{return, raise, adoption_refused}

-- A constraint whose first column is the tenant's
abbrev pub is_tenant_first : List String → Bool
is_tenant_first [] = false
is_tenant_first (column ∷ columns) = column == "tenant_id"

abbrev pub leads : String × List String → Bool
leads constraint = is_tenant_first constraint.1

-- The constraints after the rewrites, each old one taken out and its replacement put last.
abbrev pub rewritten :
    Editor
    → (table : String) → List (String × List String)
    → List (String × List String)
    → List (String × List String)
rewritten E table [] constraints = constraints
rewritten E table ((name, columns) ∷ rewrites) constraints =
    rewritten E table rewrites
      (erase name constraints ++ (composite_constraint_name E table name columns, columns) ∷ [])

pub after_all-unique_rewrites_at :
    (E : Editor) (table : String) (rewrites : List (String × List String)) (t : String)
    (old : Table)
    → t == table ≡ true
    → after_all E.current_tenant (unique_rewrites E table rewrites) t old
      ≡ record old { unique_constraints = rewritten E table rewrites old.unique_constraints }
unfolding unique_rewrites
after_all-unique_rewrites_at E table [] t old own = refl
after_all-unique_rewrites_at E table ((name, columns) ∷ rewrites) t old own =
    let new = composite_constraint_name E table name columns in
    let step : after_one E.current_tenant (add_unique table new columns) t
          (after_one E.current_tenant (drop_constraint table name) t old)
        ≡ record old {
          unique_constraints = erase name old.unique_constraints ++ (new, columns) ∷ [];
        } =
      rw own refl in
    ap (after_all E.current_tenant (unique_rewrites E table rewrites) t) step
    ∙ after_all-unique_rewrites_at E table rewrites t _ own

pub after_all-unique_rewrites_off :
    (E : Editor) (table : String) (rewrites : List (String × List String)) (t : String)
    (old : Table)
    → t == table ≡ false
    → after_all E.current_tenant (unique_rewrites E table rewrites) t old ≡ old
unfolding unique_rewrites
after_all-unique_rewrites_off E table [] t old other = refl
after_all-unique_rewrites_off E table ((name, columns) ∷ rewrites) t old other =
    let step : after_one E.current_tenant
          (add_unique table (composite_constraint_name E table name columns) columns) t
          (after_one E.current_tenant (drop_constraint table name) t old)
        ≡ old =
      rw other refl in
    ap (after_all E.current_tenant (unique_rewrites E table rewrites) t) step
    ∙ after_all-unique_rewrites_off E table rewrites t old other

-- Every constraint leads with the tenant's column, or has one of the names.
abbrev settled : List String → List (String × List String) → Bool
settled names [] = true
settled names ((name, columns) ∷ constraints) =
    (leads (name, columns) || contains names name) && settled names constraints

abbrev names_of : List (String × List String) → List String
names_of [] = []
names_of ((name, _) ∷ constraints) = name ∷ names_of constraints

settled-erase :
    (name : String) (names : List String) (constraints : List (String × List String))
    → settled (name ∷ names) constraints ≡ true
    → settled names (erase name constraints) ≡ true
unfolding erase
settled-erase name names [] h = refl
settled-erase name names ((j, columns) ∷ constraints) h =
    ground (arith, settled-erase name names constraints)

settled-snoc :
    (names : List String) (constraints : List (String × List String)) (c : String × List String)
    → settled names constraints ≡ true
    → leads c ≡ true
    → settled names (constraints ++ c ∷ []) ≡ true
settled-snoc names [] (name, columns) h led = ground arith
settled-snoc names ((j, columns) ∷ constraints) c h led =
    ground (arith, settled-snoc names constraints c)

settled-rewritten :
    (E : Editor) (table : String) (rewrites constraints : List (String × List String))
    → all leads rewrites ≡ true
    → settled (names_of rewrites) constraints ≡ true
    → settled [] (rewritten E table rewrites constraints) ≡ true
settled-rewritten E table [] constraints led h = h
settled-rewritten E table ((name, columns) ∷ rewrites) constraints led h =
    let new = composite_constraint_name E table name columns in
    settled-rewritten E table rewrites (erase name constraints ++ (new, columns) ∷ [])
      (ground arith)
      (settled-snoc (names_of rewrites) (erase name constraints) (new, columns)
        (settled-erase name (names_of rewrites) constraints h) (ground arith))

abbrev pub is_free : UniqueConstraint → Bool
is_free constraint = not constraint.deferrable && not constraint.fk_targeted

abbrev pub tenanted : UniqueConstraint → String × List String
tenanted constraint = (constraint.name, "tenant_id" ∷ constraint.columns)

pub plan_constraints-eq :
    (constraints : List UniqueConstraint)
    → plan_constraints constraints ≡ (
        if all is_free constraints
        then return (map tenanted constraints)
        else raise adoption_refused)
unfolding plan_constraints
plan_constraints-eq [] = refl
plan_constraints-eq (constraint ∷ constraints) = ground (arith, plan_constraints-eq constraints)

tenanted-lead : (constraints : List UniqueConstraint) → all leads (map tenanted constraints) ≡ true
tenanted-lead [] = refl
tenanted-lead (constraint ∷ constraints) = ground (arith, tenanted-lead constraints)

settled-cons :
    (name : String) (names : List String) (constraints : List (String × List String))
    → settled names constraints ≡ true
    → settled (name ∷ names) constraints ≡ true
settled-cons name names [] h = refl
settled-cons name names (c ∷ constraints) h = ground (arith, settled-cons name names constraints)

settled-tenanted :
    (constraints : List UniqueConstraint)
    → settled (names_of (map tenanted constraints)) (map columns_of constraints) ≡ true
settled-tenanted [] = refl
settled-tenanted (constraint ∷ constraints) = ground (
  arith,
  settled-cons constraint.name (names_of (map tenanted constraints)) (map columns_of constraints),
  settled-tenanted constraints,
)

settled_nil :
    (constraints : List (String × List String)) → settled [] constraints ≡ all leads constraints
settled_nil [] = refl
settled_nil (c ∷ constraints) = ground (arith, settled_nil constraints)

settled-eq :
    (names : List String) (constraints : List (String × List String))
    → settled names constraints ≡ all (λ c. leads c || contains names c.0) constraints
settled-eq names [] = refl
settled-eq names (c ∷ constraints) = ground (arith, settled-eq names constraints)

-- Lists of the same values agree on what holds of all of them.
pub all-same :
    {A : Type 0} (p : A → Bool) (xs ys : List A)
    → ((a : A) → Among a xs ↔ Among a ys)
    → all p xs ≡ true
    → all p ys ≡ true
all-same p xs ys same h = (all_iff p ys).1 (λ a there. (all_iff p xs).0 h a ((same a).1 there))

-- After the rewrites of a plan each unique constraint of the table, whatever their order, leads with the
-- tenant's column.
pub rewritten-lead :
    (E : Editor) (table : String) (constraints : List UniqueConstraint)
    (old : List (String × List String))
    → ((c : String × List String) → Among c (map columns_of constraints) ↔ Among c old)
    → all leads (rewritten E table (map tenanted constraints) old) ≡ true
rewritten-lead E table constraints old same =
    let names = names_of (map tenanted constraints) in
    sym (settled_nil _)
    ∙ settled-rewritten E table (map tenanted constraints) old (tenanted-lead constraints) (
        settled-eq names old
        ∙ all-same (λ c. leads c || contains names c.0) (map columns_of constraints) old same
            (sym (settled-eq names (map columns_of constraints)) ∙ settled-tenanted constraints))
