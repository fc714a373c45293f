-- ===== src/Checks/Silent.antt =====
-- checks.py: what holds of a deployment where no check says anything.
use mathlib.Core.Path.{subst}
use django_boundary.Migrations.{UniqueConstraint, UniqueIndex}
use django_boundary.Checks.Drift.{
  IsAdopted, check_one_adopted_table_iff, check_one_adopted_table_returns,
}
use django_boundary.Prelude.Lists.{append_nil_iff}
use django_boundary.Runtime.{Result-cases, return, raise, Result}
use django_boundary.Adoption.{AppModel}
use django_boundary.Checks.{
  check_production_posture, w007_adopted, expected_adopted_tables, check_tenant_model, Message,
}
use django_boundary.Checks.Catalogue.{
  names_tenant_model, project_of, undetermined, check_rls_bypassable, check_rls_enabled,
  rls_probe_targets, Deployment, site_of, Catalogue, Target, probe_all, probe_rls,
}
use django_boundary.Checks.Adopted.{
  check_adopted_tables, check_expected_tables, check_adopted_settings, check_each_adopted,
  check_one_adopted_table, expected_tenant_column_type,
}
use django_boundary.Checks.Postures.{check_production_posture_iff}
use django_boundary.Checks.Configuration.{check_boundary_configuration, checks_of, extend_all}
use django_boundary.Conf.{strict_mode, set_db_session_var}
use django_boundary.Prelude.{
  String, ◌≡◌, inl, inr, ap, ◌∙◌, Bool, true, some, List, [], ◌∷◌, ◌++◌, arith, string_eq, nat_eq,
  Among, false, Option,
}

append_nil : {A : Type 0} (xs ys : List A) → xs ++ ys ≡ [] → (xs ≡ []) × (ys ≡ [])
append_nil xs ys = (append_nil_iff xs ys).0

abbrev AreSilent : List (Result (List Message)) → Type 0
AreSilent [] = Unit
AreSilent (check ∷ checks) = (check ≡ return []) × AreSilent checks

extend_all-AreSilent :
    (checks : List (Result (List Message))) → extend_all checks ≡ return [] → AreSilent checks
unfolding extend_all
extend_all-AreSilent [] e = tt
extend_all-AreSilent (raise x ∷ checks) e = absurd (ground arith)
extend_all-AreSilent (return messages ∷ checks) e = elim (Result-cases (extend_all checks)) [
  | inr (x, raised) ↦ absurd (ground arith)
  | inl (rest, returned) ↦
      let both = append_nil messages rest (ground arith) in
      (ap (λ m. return m) both.0, extend_all-AreSilent checks (ground arith))
]

probe_rls-silent :
    (c : Catalogue) (targets : List Target) (table : String) (adopted enabled forced : Bool)
    → probe_all (probe_rls c) targets ≡ []
    → Among (table, adopted) targets
    → c.row_security table ≡ return (some (enabled, forced))
    → (enabled ≡ true) × (forced ≡ true)
unfolding probe_all probe_rls
probe_rls-silent c [] table adopted enabled forced silent there answered = absurd there
probe_rls-silent c (target ∷ targets) table adopted enabled forced silent (inl here) answered =
    let both = append_nil (probe_rls c target) (probe_all (probe_rls c) targets) silent in
    let this : probe_rls c (table, adopted) ≡ [] = ap (probe_rls c) here ∙ both.0 in ground arith
probe_rls-silent c (target ∷ targets) table adopted enabled forced silent (inr later) answered =
    let both = append_nil (probe_rls c target) (probe_all (probe_rls c) targets) silent in
    probe_rls-silent c targets table adopted enabled forced both.1 later answered

module _ (d : Deployment) where
  -- Strict mode is on and the session variable is written; a table that RLS must protect, whose state
  -- the catalogue gives, has it enabled and forced; and the role of the connection, if the catalogue
  -- gives it, bypasses nothing.
  abbrev pub IsEnforced : List Target → Type 0
  IsEnforced targets =
      (strict_mode d.settings ≡ true)
      × (set_db_session_var d.settings ≡ true)
      × ((table : String) (adopted enabled forced : Bool)
          → Among (table, adopted) targets
          → d.catalogue.row_security table ≡ return (some (enabled, forced))
          → (enabled ≡ true) × (forced ≡ true))
      × ((super bypass : Bool)
          → d.catalogue.role ≡ return (some (super, bypass))
          → (super ≡ false) × (bypass ≡ false))

  module _ (deployed : d.debug ≡ false) (postgresql : d.catalogue.vendor ≡ "postgresql")
      (silent : check_boundary_configuration d ≡ return []) where
    all_silent : AreSilent (checks_of d)
    unfolding check_boundary_configuration
    all_silent = extend_all-AreSilent (checks_of d) silent

    each_check :
        (check_tenant_model (site_of d) ≡ return [])
        × (check_production_posture (site_of d) ≡ [])
        × (check_rls_enabled d ≡ return [])
        × (check_rls_bypassable d ≡ [])
        × (check_adopted_tables d ≡ return [])
    each_check =
        let (
          tenant_model,
          (_, (_, (_, (posture, (rls, (_, (bypassable, (_, (_, (_, (_, (adopted, _)))))))))))),
        ) =
          all_silent in
        (tenant_model, ground arith, rls, ground arith, adopted)

    tenant_model_named : names_tenant_model d.settings ≡ true
    unfolding check_tenant_model
    tenant_model_named = let (this, _, _, _, _) = each_check in ground arith

    targets_found :
        (targets : List Target) × (rls_probe_targets d ≡ return targets)
        × (probe_all (probe_rls d.catalogue) targets ≡ [])
    unfolding check_rls_enabled
    targets_found =
        let (_, _, this, _, _) = each_check in
        elim (Result-cases (rls_probe_targets d)) [
          | inr (x, raised) ↦ absurd (ground (arith, tenant_model_named))
          | inl (targets, returned) ↦ (targets, returned, ground (arith, tenant_model_named))
        ]

    role_bound :
        (super bypass : Bool)
        → d.catalogue.role ≡ return (some (super, bypass))
        → (super ≡ false) × (bypass ≡ false)
    unfolding check_rls_bypassable
    role_bound super bypass answered = let (_, _, _, this, _) = each_check in ground arith

    -- Where debugging is off, the connection is PostgreSQL and all the checks together report
    -- nothing, the tables that row-level security must protect are found, strict mode is on, and
    -- session variables are enabled; such a table, whose flags the catalogue gives, has row-level
    -- security enabled and forced; and the connection's role, where the catalogue gives it, is no
    -- superuser and has no BYPASSRLS.
    pub check_boundary_configuration-IsEnforced :
        (targets : List Target) × (rls_probe_targets d ≡ return targets) × IsEnforced targets
    check_boundary_configuration-IsEnforced =
        let (targets, returned, found) = targets_found in
        let (_, posture, _, _, _) = each_check in
        let (strict, writes) = (check_production_posture_iff (site_of d) deployed).0 posture in
        (
          targets,
          returned,
          (
            strict,
            writes,
            (λ table adopted enabled forced.
                probe_rls-silent d.catalogue targets table adopted enabled forced found),
            role_bound,
          ),
        )

    each_silent :
        (expected_type : String) (tables : List (AppModel × String)) (model : AppModel)
        (table : String) (messages : List Message)
        → check_each_adopted d.catalogue expected_type tables ≡ []
        → Among (model, table) tables
        → check_one_adopted_table d.catalogue table expected_type ≡ return messages
        → messages ≡ []
    unfolding check_each_adopted
    each_silent expected_type [] model table messages none_said there answered = absurd there
    each_silent expected_type ((first, name) ∷ tables) model table messages none_said (inl here)
          answered =
        let same : table ≡ name = ap (λ t. t.1) here in
        let this : check_one_adopted_table d.catalogue name expected_type ≡ return messages =
          subst (λ t. check_one_adopted_table d.catalogue t expected_type ≡ return messages) same
            answered in
        (append_nil messages (check_each_adopted d.catalogue expected_type tables) (ground arith)).0
    each_silent expected_type ((first, name) ∷ tables) model table messages none_said (inr later)
          answered =
        let rest : check_each_adopted d.catalogue expected_type tables ≡ [] =
          elim (Result-cases (check_one_adopted_table d.catalogue name expected_type)) [
            | inl (found, returned) ↦
                (append_nil found (check_each_adopted d.catalogue expected_type tables)
                  (ground arith)).1
            | inr (x, raised) ↦
                (append_nil (undetermined x (w007_adopted name))
                  (check_each_adopted d.catalogue expected_type tables) (ground arith)).1
          ] in
        each_silent expected_type tables model table messages rest later answered

    check_boundary_configuration-adopted :
        (expected_type : String) (tables : List (AppModel × String)) (model : AppModel)
        (table : String) (messages : List Message)
        → expected_adopted_tables (project_of d) ≡ return tables
        → expected_tenant_column_type (project_of d) ≡ return expected_type
        → Among (model, table) tables
        → check_one_adopted_table d.catalogue table expected_type ≡ return messages
        → messages ≡ []
    unfolding check_adopted_tables check_expected_tables
    check_boundary_configuration-adopted expected_type [] model table messages expected typed there
          answered =
        absurd there
    check_boundary_configuration-adopted expected_type (first ∷ tables) model table messages
          expected typed there answered =
        let (_, _, _, _, this) = each_check in
        elim (Result-cases (check_adopted_settings (project_of d))) [
          | inr (x, raised) ↦ absurd (ground arith)
          | inl (errors, returned) ↦
              let added : errors ++ check_each_adopted d.catalogue expected_type (first ∷ tables)
                  ≡ [] =
                ground (arith, tenant_model_named) in
              each_silent expected_type (first ∷ tables) model table messages
                (append_nil errors (check_each_adopted d.catalogue expected_type (first ∷ tables))
                  added).1
                there answered
        ]

    -- Where debugging is off, the connection is PostgreSQL and all the checks together report
    -- nothing, a table that the settings expect to be adopted, that is there and for which the
    -- catalogue answers the queries, has a column `tenant_id` of the type that the tenant model
    -- gives, row-level security on and forced, both policies, unique constraints that all lead with
    -- the column, and unique indexes that each are the primary key's, back one of those constraints,
    -- or lead with it.
    pub check_boundary_configuration-IsAdopted :
        (expected_type : String) (tables : List (AppModel × String)) (model : AppModel)
        (table : String) (enabled forced : Bool) (found_type : Option String)
        (policies : List String) (constraints : List UniqueConstraint) (indexes : List UniqueIndex)
        → expected_adopted_tables (project_of d) ≡ return tables
        → expected_tenant_column_type (project_of d) ≡ return expected_type
        → Among (model, table) tables
        → (secured : d.catalogue.row_security table ≡ return (some (enabled, forced)))
        → (typed : d.catalogue.column_type table "tenant_id" ≡ return found_type)
        → (named : d.catalogue.policy_names table ≡ return policies)
        → (constrained : d.catalogue.unique_constraints table ≡ return constraints)
        → (indexed : d.catalogue.unique_indexes table ≡ return indexes)
        → IsAdopted d.catalogue table enabled forced found_type policies constraints indexes secured
            typed named constrained indexed expected_type
    check_boundary_configuration-IsAdopted expected_type tables model table enabled forced
          found_type policies constraints indexes expected type_known there secured typed named
          constrained indexed =
        let (messages, returned) =
          check_one_adopted_table_returns d.catalogue table enabled forced found_type policies
            constraints indexes secured typed named constrained indexed expected_type in
        let none_said =
          check_boundary_configuration-adopted expected_type tables model table messages expected
            type_known there returned in
        (check_one_adopted_table_iff d.catalogue table enabled forced found_type policies
            constraints indexes secured typed named constrained indexed expected_type).0
          (returned ∙ ap (λ m. return m) none_said)
