-- ===== src/Testing/Agrees.antt =====
-- testing.py and checks.py: a deployment where no check says anything passes `assert_rls_enforced`.
use django_boundary.Prelude.{
  String, ◌≡◌, ◌⊎◌, inl, inr, refl, ap, Bool, true, false, Option, none, some, List, [], ◌∷◌, ◌++◌,
  map, arith, string_eq, nat_eq, Option-cases, Among, Among-append,
}
use mathlib.Core.Path.{subst}
use django_boundary.Runtime.{return, Result-cases}
use django_boundary.Checks.{expected_adopted_tables}
use django_boundary.Checks.Catalogue.{
  Catalogue, Deployment, Target, project_of, column_bearing, unseen_tables, rls_probe_targets,
}
use django_boundary.Checks.Configuration.{check_boundary_configuration}
use django_boundary.Checks.Silent.{IsEnforced, check_boundary_configuration-IsEnforced}
use django_boundary.Testing.{assert_tables, assert_targets, assert_rls_enforced}

module _ (c : Catalogue) where
  abbrev AreClean : List String → Type 0
  AreClean tables =
      (table : String)
      → Among table tables
      → (c.row_security table ≡ return none) ⊎ (c.row_security table ≡ return (some (true, true)))

  assert_tables_clean :
      (tables : List String)
      → AreClean tables
      → (assert_tables c false tables ≡ return none)
        ⊎ (assert_tables c false tables ≡ return (some false))
  unfolding assert_tables
  assert_tables_clean [] clean = inr refl
  assert_tables_clean (table ∷ tables) clean = elim (clean table (inl refl)) [
    | inr secured ↦ inl (ground arith)
    | inl missing ↦ elim (assert_tables_clean tables (λ t there. clean t (inr there))) [
      | inl found ↦ inl (ground arith)
      | inr none_found ↦ inr (ground arith)
    ]
  ]

Among-marked :
    (mark : Bool) (tables : List String) (table : String)
    → Among table tables
    → Among {A = Target} (table, mark) (map (λ t. (t, mark)) tables)
Among-marked mark [] table there = absurd there
Among-marked mark (first ∷ tables) table (inl here) = inl (ap (λ t. (t, mark)) here)
Among-marked mark (first ∷ tables) table (inr later) = inr (Among-marked mark tables table later)

module _ (d : Deployment)
    (answers : (table : String)
      → (row : Option (Bool × Bool)) × (d.catalogue.row_security table ≡ return row))
    (role : Option (Bool × Bool)) (role_answers : d.catalogue.role ≡ return role)
    (deployed : d.debug ≡ false) (postgresql : d.catalogue.vendor ≡ "postgresql")
    (silent : check_boundary_configuration d ≡ return []) where
  clean_at :
      (targets : List Target)
      → IsEnforced d targets
      → (table : String) (adopted : Bool) → Among (table, adopted) targets
      → (d.catalogue.row_security table ≡ return none)
        ⊎ (d.catalogue.row_security table ≡ return (some (true, true)))
  clean_at targets (_, _, secured, _) table adopted there =
      let (row, answered) = answers table in
      elim (Option-cases row) [
        | inl missing ↦ inl (ground arith)
        | inr ((enabled, forced), known) ↦
            let flags = secured table adopted enabled forced there (ground arith) in
            inr (ground arith)
      ]

  assert_targets_returns : assert_targets d d.catalogue ≡ return tt
  unfolding assert_targets rls_probe_targets
  assert_targets_returns =
      let (targets, found, enforced) =
        check_boundary_configuration-IsEnforced d deployed postgresql silent in
      let seen = column_bearing d.registry d.models in
      elim (Result-cases (expected_adopted_tables (project_of d))) [
        | inr (x, raised) ↦ absurd (ground arith)
        | inl (tables, expected) ↦
            let more = unseen_tables seen tables in
            let scoped : List Target = map (λ t. (t, false)) seen in
            let adopted_ones : List Target = map (λ t. (t, true)) more in
            let same : targets ≡ scoped ++ adopted_ones = ground arith in
            let holds = subst (IsEnforced d) same enforced in
            let first = assert_tables_clean d.catalogue seen (λ t there.
              clean_at (scoped ++ adopted_ones) holds t false (
                (Among-append (t, false) scoped adopted_ones).1
                  (inl (Among-marked false seen t there)))) in
            let second = assert_tables_clean d.catalogue more (λ t there.
              clean_at (scoped ++ adopted_ones) holds t true (
                (Among-append (t, true) scoped adopted_ones).1
                  (inr (Among-marked true more t there)))) in
            ground (arith, first, second, expected)
      ]

  -- Where debugging is off, the connection is PostgreSQL, all the checks together report nothing,
  -- and the queries for the role and for the flags of every table answer, `assert_rls_enforced` on
  -- that catalogue returns.
  pub assert_rls_enforced-check_boundary_configuration :
      assert_rls_enforced d "postgresql" (return d.catalogue) ≡ return tt
  unfolding assert_rls_enforced string_eq
  assert_rls_enforced-check_boundary_configuration =
      let (targets, found, (_, _, _, bound)) =
        check_boundary_configuration-IsEnforced d deployed postgresql silent in
      elim (Option-cases role) [
        | inl no_role ↦ ground (arith, assert_targets_returns)
        | inr ((super, bypass), known) ↦
            let flags = bound super bypass (ground arith) in
            ground (arith, assert_targets_returns, flags)
      ]
