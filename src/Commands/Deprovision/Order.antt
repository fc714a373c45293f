-- ===== src/Commands/Deprovision/Order.antt =====
-- boundary_deprovision: what a preview leaves alone, and that the export comes before the deletion.
use django_boundary.Prelude.{
  ℕ, ◌∷◌, [], Bool-cases, inl, inr, nat_eq, String, ◌≡◌, refl, true, false, some, List, arith, ◌==◌,
  string_eq,
}
use django_boundary.Conf.{Settings}
use django_boundary.Runtime.{Tenant, Exception, return, raise, World, Action}
use django_boundary.Runtime.Database.{Database}
use django_boundary.Commands.{Tenants, resolve_identifier}
use django_boundary.Runtime.{◌>>=◌, and_then}
use django_boundary.Commands.Deprovision.{
  run_export, remove, Table, Removal, Flags, goes_on, run_hook, collect_affected, deprovision,
  Affected, proceed, print_affected, Output, rows, about_to_delete, describe, tables_of,
}

module _ (cfg : Settings) (D : Database) (tenants : Tenants) (R : Removal D.State)
    (flags : Flags) where
  -- The rest does not matter where the command does not go on.
  proceed_stops :
      goes_on R.answer flags ≡ false
      → (tenant : Tenant) (affected : List Affected) (rest rest' : Action D.State Unit)
      → proceed cfg D tenants R flags tenant affected rest
        ≡ proceed cfg D tenants R flags tenant affected rest'
  unfolding proceed goes_on
  proceed_stops stops tenant affected rest rest' = elim (Bool-cases flags.dry_run) [
    | inl dry ↦ rw dry refl
    | inr wet ↦
        let asked : flags.yes ≡ false = ground (arith, stops, wet) in
        let refused : (R.answer == "yes") ≡ false = ground (arith, stops, wet) in
        rw (wet, asked, refused) refl
  ]

  print_affected_returns :
      ((line : Output) (v : World D.State) → R.write line v ≡ (return tt, v))
      → (heading : Output) (affected : List Affected) (v : World D.State)
      → print_affected cfg D tenants R heading affected v ≡ (return tt, v)
  unfolding print_affected
  print_affected_returns written heading [] v = written heading v
  print_affected_returns written heading ((t, n) ∷ affected) v = ground (
    arith,
    written heading v,
    print_affected_returns written (rows (describe (tables_of R.adopted) t) n) affected v,
  )

  proceed_goes :
      ((line : Output) (v : World D.State) → R.write line v ≡ (return tt, v))
      → goes_on R.answer flags ≡ true
      → (tenant : Tenant) (affected : List Affected) (rest : Action D.State Unit)
        (v : World D.State)
      → proceed cfg D tenants R flags tenant affected rest v ≡ rest v
  unfolding proceed goes_on
  proceed_goes written goes tenant affected rest v =
      ground (arith, goes, print_affected_returns written (about_to_delete tenant) affected v)

  module _ (w : World D.State) where
    -- On a dry run, or where the operator does not confirm, boundary_deprovision exports and deletes
    -- nothing: its result and the world afterwards are the same whatever the export and the
    -- deletions would do.
    pub deprovision_previews :
        goes_on R.answer flags ≡ false
        → (export : String → ℕ → Tenant → Action D.State Unit)
          (delete : Table → String → Tenant → Action D.State Unit)
          (delete_adopted : Table → Tenant → Action D.State Unit)
          (delete_tenant : Tenant → Action D.State Unit)
        → deprovision cfg D tenants R flags w
          ≡ deprovision cfg D tenants
              (record R {
                export = export;
                delete = delete;
                delete_adopted = delete_adopted;
                delete_tenant = delete_tenant;
              })
              flags
              w
    unfolding deprovision run_hook collect_affected proceed print_affected
    deprovision_previews stops export delete delete_adopted delete_tenant =
        let R' : Removal D.State = record R {
          export = export;
          delete = delete;
          delete_adopted = delete_adopted;
          delete_tenant = delete_tenant;
        } in
        let rest : Tenant → List Affected → Action D.State Unit = λ tenant affected.
          run_export cfg D tenants R flags tenant >>= λ exported.
          remove cfg D tenants R tenant affected in
        let rest' : Tenant → List Affected → Action D.State Unit = λ tenant affected.
          run_export cfg D tenants R' flags tenant >>= λ exported.
          remove cfg D tenants R' tenant affected in
        λ i.
          and_then (resolve_identifier tenants flags.tenant)
            (λ tenant. run_hook cfg D tenants R tenant >>= λ hooked.
              collect_affected cfg D tenants R tenant >>= λ affected.
              proceed_stops stops tenant affected (rest tenant affected) (rest' tenant affected) i)
            w

    -- Where boundary_deprovision finds the tenant, the hook returns, the rows are counted, it goes on,
    -- writing to the terminal returns and changes nothing, and the export to a path that is not empty
    -- raises, the command raises the same in the world that the export left: nothing is deleted.
    deprovision-export :
        (t : Tenant) (affected : List Affected) (path : String) (e : Exception)
        → ((line : Output) (v : World D.State) → R.write line v ≡ (return tt, v))
        → goes_on R.answer flags ≡ true
        → resolve_identifier tenants flags.tenant ≡ return t
        → flags.export ≡ some path
        → (path == "") ≡ false
        → let hooked = run_hook cfg D tenants R t w in
          let counted = collect_affected cfg D tenants R t hooked.1 in
          let exported = R.export path flags.batch_size t counted.1 in
          hooked.0 ≡ return tt
          → counted.0 ≡ return affected
          → exported.0 ≡ raise e
          → deprovision cfg D tenants R flags w ≡ (raise e, exported.1)
    unfolding deprovision run_export
    deprovision-export t affected path e written goes resolved given nonempty hooked counted
          failed =
        let hooks = run_hook cfg D tenants R t w in
        let counts = collect_affected cfg D tenants R t hooks.1 in
        let going =
          proceed_goes written goes t affected
            (run_export cfg D tenants R flags t >>= λ exported. remove cfg D tenants R t affected)
            counts.1 in
        ground (arith, going)
