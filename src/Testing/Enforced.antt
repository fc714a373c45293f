-- ===== src/Testing/Enforced.antt =====
-- testing.py: what a connection that passes `assert_rls_enforced` enforces.
use django_boundary.Prelude.{
  String, ◌≡◌, inl, inr, ap, ◌∙◌, Bool, true, false, ◌&&◌, none, some, List, [], ◌∷◌, arith,
  string_eq, nat_eq, Bool-cases, Option-cases, Among, map, ◌⊎◌, ◌||◌, ◌++◌, Among-append, Option,
}
use django_boundary.Runtime.{return, Result-cases}
use django_boundary.Checks.Catalogue.{
  Catalogue, Deployment, Target, rls_probe_targets, column_bearing, project_of, unseen_tables,
}
use django_boundary.Testing.{
  assert_tables, assert_targets, assert_rls_enforced, expected_adopted_tables, AppModel, verdict,
}

module _ (c : Catalogue) where
  abbrev IsSecured : String → Type 0
  IsSecured table = c.row_security table ≡ return (some (true, true))

  abbrev AreMissing : List String → Type 0
  AreMissing tables = (table : String) → Among table tables → c.row_security table ≡ return none

  enforced_by :
      (checked : Bool) (tables : List String)
      → assert_tables c checked tables ≡ return none
      → (table : String) × IsSecured table
  unfolding assert_tables
  enforced_by checked [] e = absurd (ground arith)
  enforced_by checked (table ∷ tables) e = elim (Result-cases (c.row_security table)) [
    | inr (x, raised) ↦ absurd (ground arith)
    | inl (answer, answered) ↦ elim (Option-cases answer) [
      | inl missing ↦ enforced_by checked tables (ground arith)
      | inr ((enabled, forced), known) ↦ elim (Bool-cases (enabled && forced)) [
        | inl both ↦ (table, ground arith)
        | inr not_both ↦ enforced_by true tables (ground arith)
      ]
    ]
  ]

  -- Once a table was checked, that is what the loop ends with, unless it returns.
  checked_stays :
      (tables : List String) (left : Bool)
      → assert_tables c true tables ≡ return (some left)
      → left ≡ true
  unfolding assert_tables
  checked_stays [] left e = ground arith
  checked_stays (table ∷ tables) left e = elim (Result-cases (c.row_security table)) [
    | inr (x, raised) ↦ absurd (ground arith)
    | inl (answer, answered) ↦ elim (Option-cases answer) [
      | inl missing ↦ checked_stays tables left (ground arith)
      | inr ((enabled, forced), known) ↦ elim (Bool-cases (enabled && forced)) [
        | inl both ↦ absurd (ground arith)
        | inr not_both ↦ checked_stays tables left (ground arith)
      ]
    ]
  ]

  none_checked :
      (tables : List String)
      → assert_tables c false tables ≡ return (some false)
      → AreMissing tables
  unfolding assert_tables
  none_checked [] e table there = absurd there
  none_checked (first ∷ tables) e table there = elim (Result-cases (c.row_security first)) [
    | inr (x, raised) ↦ absurd (ground arith)
    | inl (answer, answered) ↦ elim (Option-cases answer) [
      | inl missing ↦
          let rest : AreMissing tables = none_checked tables (ground arith) in
          elim there [
            | inl here ↦ ap c.row_security here ∙ answered ∙ ap (λ a. return a) missing
            | inr later ↦ rest table later
          ]
      | inr ((enabled, forced), known) ↦ elim (Bool-cases (enabled && forced)) [
        | inl both ↦ absurd (ground arith)
        | inr not_both ↦
            let gone : assert_tables c true tables ≡ return (some false) = ground arith in
            absurd (cc (checked_stays tables false gone))
      ]
    ]
  ]

module _ (d : Deployment) where
  targets_missing :
      (c : Catalogue) (adopted : Bool) (tables : List String)
      → AreMissing c tables
      → (table : String) (mark : Bool)
      → Among {A = Target} (table, mark) (map (λ t. (t, adopted)) tables)
      → c.row_security table ≡ return none
  targets_missing c adopted [] missing table mark there = absurd there
  targets_missing c adopted (first ∷ tables) missing table mark (inl here) =
      missing table (inl (ap (λ t. t.0) here))
  targets_missing c adopted (first ∷ tables) missing table mark (inr later) =
      targets_missing c adopted tables (λ t there. missing t (inr there)) table mark later

  -- No target table is there.
  abbrev NoneThere : Catalogue → Type 0
  NoneThere c =
      (targets : List Target) × (rls_probe_targets d ≡ return targets)
      × ((table : String) (adopted : Bool)
          → Among (table, adopted) targets
          → c.row_security table ≡ return none)

  both_missing :
      (c : Catalogue) (tables : List (AppModel × String))
      → expected_adopted_tables (project_of d) ≡ return tables
      → AreMissing c (column_bearing d.registry d.models)
      → AreMissing c (unseen_tables (column_bearing d.registry d.models) tables)
      → NoneThere c
  unfolding rls_probe_targets
  both_missing c tables expected first second =
      let seen = column_bearing d.registry d.models in
      let scoped : List Target = map (λ t. (t, false)) seen in
      let adopted_ones : List Target = map (λ t. (t, true)) (unseen_tables seen tables) in
      (
        scoped ++ adopted_ones,
        ground (arith, expected),
        (λ table adopted there. elim ((Among-append (table, adopted) scoped adopted_ones).0 there) [
          | inl one ↦ targets_missing c false seen first table adopted one
          | inr other ↦
              targets_missing c true (unseen_tables seen tables) second table adopted other
        ]),
      )

  -- The loop over the adopted tables, once none of the others was secured.
  second_loop :
      (c : Catalogue) (tables : List (AppModel × String)) (checked : Bool) (second : Option Bool)
      → expected_adopted_tables (project_of d) ≡ return tables
      → assert_tables c false (column_bearing d.registry d.models) ≡ return (some checked)
      → assert_tables c checked (unseen_tables (column_bearing d.registry d.models) tables)
        ≡ return second
      → verdict second ≡ return tt
      → ((table : String) × IsSecured c table) ⊎ NoneThere c
  second_loop c tables checked none expected first returned ended =
      inl
        (enforced_by c checked (unseen_tables (column_bearing d.registry d.models) tables) returned)
  second_loop c tables true (some left) expected first returned ended =
      let all_seen =
        checked_stays c (unseen_tables (column_bearing d.registry d.models) tables) left returned in
      absurd (ground arith)
  second_loop c tables false (some left) expected first returned ended =
      let clean : left ≡ false = ground arith in
      let seen = column_bearing d.registry d.models in
      inr (
        both_missing c tables expected (none_checked c seen first)
          (none_checked c (unseen_tables seen tables) (returned ∙ ap (λ b. return (some b)) clean)))

  assert_targets_lem :
      (c : Catalogue)
      → assert_targets d c ≡ return tt
      → ((table : String) × IsSecured c table) ⊎ NoneThere c
  unfolding assert_targets
  assert_targets_lem c e =
      let seen = column_bearing d.registry d.models in
      elim (Result-cases (assert_tables c false seen)) [
        | inr (x, raised) ↦ absurd (ground arith)
        | inl (first, returned) ↦ elim (Option-cases first) [
          | inl secured ↦ inl (enforced_by c false seen (returned ∙ ap (λ r. return r) secured))
          | inr (checked, went_on) ↦
              let loop = returned ∙ ap (λ r. return r) went_on in
              elim (Result-cases (expected_adopted_tables (project_of d))) [
                | inr (x, raised) ↦ absurd (ground arith)
                | inl (tables, expected) ↦
                    elim (Result-cases (assert_tables c checked (unseen_tables seen tables))) [
                      | inr (x, raised) ↦ absurd (ground arith)
                      | inl (second, returned') ↦
                          second_loop c tables checked second expected loop returned' (ground arith)
                    ]
              ]
        ]
      ]

  -- The role bypasses nothing; and a table is secured, or none of the tables that RLS must protect is
  -- there.
  abbrev pub IsEnforcing : Catalogue → Type 0
  IsEnforcing c =
      ((super bypass : Bool)
        → c.role ≡ return (some (super, bypass))
        → (super ≡ false) × (bypass ≡ false))
      × (((table : String) × IsSecured c table) ⊎ NoneThere c)

  -- Where `assert_rls_enforced` returns on a PostgreSQL alias, the role of the connection, if it is
  -- found, is no superuser and has no BYPASSRLS; and some table has row-level security enabled and
  -- forced, or none of the tables that it must protect is there.
  pub assert_rls_enforced-IsEnforcing :
      (c : Catalogue) → assert_rls_enforced d "postgresql" (return c) ≡ return tt → IsEnforcing c
  unfolding assert_rls_enforced string_eq
  assert_rls_enforced-IsEnforcing c e = elim (Result-cases c.role) [
    | inr (x, raised) ↦ absurd (ground arith)
    | inl (answer, answered) ↦ elim (Option-cases answer) [
      | inl no_role ↦
          ((λ super bypass known. absurd (ground arith)), assert_targets_lem c (ground arith))
      | inr ((super, bypass), known) ↦ elim (Bool-cases (super || bypass)) [
        | inl bypasses ↦ absurd (ground arith)
        | inr bound ↦
            ((λ other_super other_bypass same. ground arith), assert_targets_lem c (ground arith))
      ]
    ]
  ]
