-- ===== src/Commands/Runs.antt =====
-- boundary_run_all: every tenant has its turn, and no turn leaves its tenant behind.
use django_boundary.Prelude.{String, ◌≡◌, ◌≢◌, refl, ◌∙◌, some, List, [], ◌∷◌, arith, ◌↔◌}
use django_boundary.Conf.{Settings, setting}
use django_boundary.Runtime.{Tenant, get_attribute, Exception, Result, return, raise, World, Action}
use django_boundary.Runtime.Database.{Database}
use django_boundary.Runtime.Lookup.{Lookup, found, does_not_exist, failed}
use django_boundary.Context.Tenant.{using_tenant}
use django_boundary.Context.Tenant.Restore.{using_tenant-current_tenant}
use django_boundary.Commands.{status_of, Tenants, Outcome, not_found, run_one, run_sequential}

status_of-found : (r : Result Unit) → status_of r ≢ not_found
status_of-found (return _) h = cc
status_of-found (raise e) h = cc

-- The slug of the tenant of a key, and the key where it has none
abbrev pub name_of : Lookup Tenant → (pk : String) → String
name_of (found tenant) pk = setting (get_attribute "slug" tenant) pk
name_of _ pk = pk

module _ (cfg : Settings) (D : Database) (tenants : Tenants) where
  -- The results are, one by one, those of the keys: "not found" where the key has no tenant, and
  -- nowhere else.
  abbrev pub IsReport : List String → List Outcome → Type 0
  IsReport [] [] = Unit
  IsReport (pk ∷ pks) (outcome ∷ outcomes) =
      (outcome.0 ≡ name_of (tenants.get_pk pk) pk)
      × ((tenants.get_pk pk ≡ does_not_exist) ↔ (outcome.1 ≡ not_found))
      × IsReport pks outcomes
  IsReport _ _ = ⊥

  -- The lookup of each key answers.
  abbrev pub Answered : List String → Type 0
  Answered [] = Unit
  Answered (pk ∷ pks) = ((e : Exception) → tenants.get_pk pk ≢ failed e) × Answered pks

  module _ (call_command : Action D.State Unit) where
    -- By the answer of the lookup.
    run_one-reports_at :
        (pk : String) (w : World D.State) (answer : Lookup Tenant)
        → tenants.get_pk pk ≡ answer
        → ((e : Exception) → tenants.get_pk pk ≢ failed e)
        → (outcome : Outcome) × ((run_one cfg D tenants call_command pk w).0 ≡ return outcome)
          × (outcome.0 ≡ name_of (tenants.get_pk pk) pk)
          × ((tenants.get_pk pk ≡ does_not_exist) ↔ (outcome.1 ≡ not_found))
          × ((run_one cfg D tenants call_command pk w).1.current_tenant ≡ w.current_tenant)
    unfolding run_one
    run_one-reports_at pk w does_not_exist e answers = (
      (pk, not_found),
      rw (run_one, e) refl,
      rw e refl,
      ((λ h. refl), λ h. e),
      rw (run_one, e) refl,
    )
    run_one-reports_at pk w (failed x) e answers = absurd (answers x e)
    run_one-reports_at pk w (found tenant) e answers =
        let (result, w') = using_tenant cfg D (some tenant) "default" call_command w in
        (
          (setting (get_attribute "slug" tenant) pk, status_of result),
          rw (run_one, e) refl,
          rw e refl,
          ((λ h. absurd (ground (arith, h))), λ h. absurd (status_of-found result h)),
          rw (run_one, e)
              (using_tenant-current_tenant cfg D (some tenant) "default" call_command w),
        )

    -- Where the lookup of each key answers, boundary_run_all returns one result for each key, in
    -- order, "not found" exactly where the key has no tenant, whatever the command raises; and the
    -- tenant that was active before is active after.
    pub run_sequential-IsReport :
        (pks : List String) (w : World D.State)
        → Answered pks
        → (outcomes : List Outcome) × ((run_sequential cfg D tenants call_command pks w).0
            ≡ return outcomes)
          × IsReport pks outcomes
          × ((run_sequential cfg D tenants call_command pks w).1.current_tenant ≡ w.current_tenant)
    unfolding run_sequential
    run_sequential-IsReport [] w answers = ([], refl, tt, refl)
    run_sequential-IsReport (pk ∷ pks) w (answers, more) =
        let (outcome, returned, named, report, kept) = run_one-reports_at pk w _ refl answers in
        let (outcomes, returned', report', kept') =
          run_sequential-IsReport pks (run_one cfg D tenants call_command pk w).1 more in
        (
          outcome ∷ outcomes,
          rw (returned, returned') refl,
          (named, report, report'),
          rw (returned, returned') (kept' ∙ kept),
        )
