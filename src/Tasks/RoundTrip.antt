-- ===== src/Tasks/RoundTrip.antt =====
-- A task runs under the tenant that was active where it was dispatched.
use mathlib.Core.Path.{fun_ext}
use django_boundary.Prelude.{
  ap, Option-cases, String, ◌≡◌, ◌≢◌, refl, inl, inr, false, Option, some, [], arith, ◌==◌,
  string_eq, ◌∙◌, true,
}
use django_boundary.Prelude.Dict.{
  Dict, lookup, lookup-insert, NodupKeys, insert-NodupKeys, lookup-update, insert,
}
use django_boundary.Conf.{Settings, setting, region_field, wrap_atomic, set_db_session_var}
use django_boundary.Runtime.{Tenant, get_attribute, World, Action, return}
use django_boundary.Runtime.Database.{Database, IsPostgres, Answers}
use django_boundary.Runtime.Lookup.{Lookup, found}
use django_boundary.Context.Session.{ensure_atomic, is_postgresql}
use django_boundary.Context.Session.Transactions.{ensure_atomic-keeps}
use django_boundary.Context.Tenant.{set, clear, with_tenant}
use django_boundary.Context.Tenant.Around.{around-enforces}
use django_boundary.Context.Session.Writes.{session_variable}
use django_boundary.Tasks.{
  header_tenant_id, header_region, get_tenant_headers, dispatch_headers, restore_and_run, run_task,
}

headers_differ : (header_tenant_id == header_region) ≡ false
unfolding string_eq
headers_differ = refl

get_tenant_headers-NodupKeys :
    {Db : Type 0} (cfg : Settings) (w : World Db) → NodupKeys (get_tenant_headers cfg w)
unfolding get_tenant_headers
get_tenant_headers-NodupKeys cfg w = elim (Option-cases w.current_tenant) [
  | inl n ↦ rw (n, get_tenant_headers) tt
  | inr (t, e) ↦
      let pk = insert-NodupKeys header_tenant_id t.pk [] tt in
      let region = get_attribute (region_field cfg) t in
      rw (e, get_tenant_headers)
        (ground (
          arith,
          pk,
          insert-NodupKeys header_region (setting region "") (insert header_tenant_id t.pk []) pk,
        ))
]

lookup-get_tenant_headers :
    {Db : Type 0} (cfg : Settings) (w : World Db) (t : Tenant)
    → w.current_tenant ≡ some t
    → lookup header_tenant_id (get_tenant_headers cfg w) ≡ some t.pk
unfolding get_tenant_headers
lookup-get_tenant_headers cfg w t active = ground (
  arith,
  headers_differ,
  lookup-insert header_tenant_id header_region (setting (get_attribute (region_field cfg) t) "")
      (insert header_tenant_id t.pk []),
  lookup-insert header_tenant_id header_tenant_id t.pk [],
)

-- The tenant's header wins over one that the caller gave.
lookup-dispatch_headers :
    {Db : Type 0} (cfg : Settings) (headers : Option (Dict String)) (w : World Db) (t : Tenant)
    → w.current_tenant ≡ some t
    → lookup header_tenant_id (dispatch_headers cfg headers w) ≡ some t.pk
unfolding dispatch_headers
lookup-dispatch_headers cfg headers w t active = ground (
  arith,
  lookup-update header_tenant_id (setting headers []) (get_tenant_headers cfg w)
      (get_tenant_headers-NodupKeys cfg w),
  lookup-get_tenant_headers cfg w t active,
)

module _ (cfg : Settings) (D : Database) (get_pk : String → Lookup Tenant) where
  restore_and_run-current_tenant :
      {A : Type 0} (headers : Option (Dict String)) (body : Action D.State A) (w : World D.State)
      → ((v : World D.State) → (body v).1.current_tenant ≡ v.current_tenant)
      → (restore_and_run cfg D get_pk headers body w).1.current_tenant ≡ w.current_tenant
  unfolding restore_and_run set clear
  restore_and_run-current_tenant headers body w h = ground (arith, h w)

  -- Whatever headers a task has and however it ends, if its body leaves the active tenant alone, the
  -- active tenant of the worker is afterwards the one before.
  pub run_task-current_tenant :
      {A : Type 0} (headers : Option (Dict String)) (body : Action D.State A) (w : World D.State)
      → ((v : World D.State) → (body v).1.current_tenant ≡ v.current_tenant)
      → (run_task cfg D get_pk headers body w).1.current_tenant ≡ w.current_tenant
  unfolding run_task
  run_task-current_tenant headers body w h =
      ensure_atomic-keeps cfg D (λ v. v.current_tenant) (λ v s. refl) "default" _ w
        λ s. restore_and_run-current_tenant headers body (record w { db = s }) h

  restore_and_run-eq-with_tenant :
      {A : Type 0} (headers : Dict String) (t : Tenant) (body : Action D.State A)
      (w : World D.State)
      → lookup header_tenant_id headers ≡ some t.pk
      → t.pk ≢ ""
      → get_pk t.pk ≡ found t
      → restore_and_run cfg D get_pk (some headers) body w ≡ with_tenant cfg D t body w
  unfolding restore_and_run with_tenant
  restore_and_run-eq-with_tenant headers t body w named nonempty exists = ground arith

  run_task-eq-around :
      {A : Type 0} (headers : Dict String) (t : Tenant) (body : Action D.State A)
      (w : World D.State)
      → lookup header_tenant_id headers ≡ some t.pk
      → t.pk ≢ ""
      → get_pk t.pk ≡ found t
      → run_task cfg D get_pk (some headers) body w
        ≡ ensure_atomic cfg D "default" (with_tenant cfg D t body) w
  unfolding run_task
  run_task-eq-around headers t body w named nonempty exists =
      ap (λ f. ensure_atomic cfg D "default" f w)
        (fun_ext λ v. restore_and_run-eq-with_tenant headers t body v named nonempty exists)

module _ (cfg : Settings) (D : Database) (P : IsPostgres D) (up : Answers D)
    (wraps : wrap_atomic cfg ≡ true) (enabled : set_db_session_var cfg ≡ true)
    (postgres : is_postgresql cfg D "default" ≡ true) where
  -- A task dispatched where tenant `t` is active, whatever headers the caller adds, runs under `t`
  -- on a worker that finds `t` by its pk, which is not empty: where the database answers,
  -- transactions are wrapped, session variables are enabled and `default` is PostgreSQL, whatever
  -- the body returns because `t` is active and, in a transaction on `default`, the session variable
  -- holds the pk of `t`, the task returns.
  pub run_task-dispatch_headers :
      (get_pk : String → Lookup Tenant) {A : Type 0} (t : Tenant) (dispatcher : World D.State)
      (headers : Option (Dict String)) (body : Action D.State A) (x : A) (worker : World D.State)
      → dispatcher.current_tenant ≡ some t
      → t.pk ≢ ""
      → get_pk t.pk ≡ found t
      → ((v : World D.State)
          → v.current_tenant ≡ some t
          → D.in_atomic_block v.db "default" ≡ true
          → session_variable cfg D v.db "default" ≡ t.pk
          → (body v).0 ≡ return x)
      → (run_task cfg D get_pk (some (dispatch_headers cfg headers dispatcher)) body worker).0
        ≡ return x
  run_task-dispatch_headers get_pk t dispatcher headers body x worker active nonempty exists h =
      let sent = dispatch_headers cfg headers dispatcher in
      let named = lookup-dispatch_headers cfg headers dispatcher t active in
      ap (λ r. r.0) (run_task-eq-around cfg D get_pk sent t body worker named nonempty exists)
      ∙ around-enforces cfg D P up t body x wraps enabled postgres h worker
