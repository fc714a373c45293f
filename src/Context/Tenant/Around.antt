-- ===== src/Context/Tenant/Around.antt =====
-- `TenantContext.set` and `clear` around a body, in a transaction on `default`: what the middleware
-- and the task wrapper do.
use django_boundary.Prelude.{String, ◌≡◌, ◌≢◌, refl, true, false, some, arith, string_eq}
use django_boundary.Conf.{Settings, wrap_atomic, set_db_session_var, db_session_var}
use django_boundary.Runtime.{Tenant, return, World, Action}
use django_boundary.Runtime.Database.{Database, IsPostgres, Answers}
use django_boundary.Context.Aliases.{aliases_for}
use django_boundary.Context.Aliases.Laws.{contains-aliases_for}
use django_boundary.Context.Session.{is_postgresql, ensure_atomic, set_all}
use django_boundary.Context.Session.Writes.{
  session_variable, set_all-done, set_all-visible, set_all-local,
}
use django_boundary.Context.Session.Transactions.{ensure_atomic_self-returns, ensure_atomic-keeps}
use django_boundary.Context.Tenant.{with_tenant}

module _ (cfg : Settings) (D : Database) {A : Type 0} (t : Tenant) (body : Action D.State A)
    (w : World D.State) where
  with_tenant-current_tenant : (with_tenant cfg D t body w).1.current_tenant ≡ w.current_tenant
  unfolding with_tenant
  with_tenant-current_tenant = ground arith

pub around-current_tenant :
    (cfg : Settings) (D : Database) {A : Type 0} (t : Tenant) (body : Action D.State A)
    (w : World D.State)
    → (ensure_atomic cfg D "default" (with_tenant cfg D t body) w).1.current_tenant
      ≡ w.current_tenant
around-current_tenant cfg D t body w =
    ensure_atomic-keeps cfg D (λ v. v.current_tenant) (λ v s. refl) "default" _ w
      λ s. with_tenant-current_tenant cfg D t body (record w { db = s })

module _ (cfg : Settings) (D : Database) (P : IsPostgres D) (up : Answers D) {A : Type 0}
    (t : Tenant) (body : Action D.State A) (x : A) where
  -- A body sees the tenant in the context and in the session variable of `default`.
  pub around-enforces :
      wrap_atomic cfg ≡ true
      → set_db_session_var cfg ≡ true
      → is_postgresql cfg D "default" ≡ true
      → ((v : World D.State)
          → v.current_tenant ≡ some t
          → D.in_atomic_block v.db "default" ≡ true
          → session_variable cfg D v.db "default" ≡ t.pk
          → (body v).0 ≡ return x)
      → (w : World D.State)
      → (ensure_atomic cfg D "default" (with_tenant cfg D t body) w).0 ≡ return x
  unfolding with_tenant
  around-enforces wraps enabled postgres h w =
      let aliases = aliases_for cfg (some t) "default" in
      ensure_atomic_self-returns cfg D P up wraps "default" postgres _ w x λ s in_block. ground (
        arith,
        contains-aliases_for cfg (some t) "default" "default",
        set_all-visible cfg D P up enabled "default" postgres t.pk aliases s in_block,
        h (record w { current_tenant = some t; db = (set_all cfg D t.pk aliases s).1 }),
      )

  module _ (a : String) (w : World D.State)
      (h : (v : World D.State)
        → v.current_tenant ≡ some t
        → session_variable cfg D v.db a ≡ session_variable cfg D w.db a
        → (body v).0 ≡ return x) where
    with_tenant-local :
        (s : D.State)
        → D.in_atomic_block s a ≡ false
        → session_variable cfg D s a ≡ session_variable cfg D w.db a
        → (with_tenant cfg D t body (record w { db = s })).0 ≡ return x
    unfolding with_tenant
    with_tenant-local s outside same =
        let aliases = aliases_for cfg (some t) "default" in
        ground (
          arith,
          set_all-done cfg D up t.pk aliases s,
          set_all-local cfg D P up a t.pk aliases s outside,
          h (record w { current_tenant = some t; db = (set_all cfg D t.pk aliases s).1 }),
        )

    -- On any other alias that is in no transaction, the body sees the session variable as it was.
    pub around-local :
        a ≢ "default"
        → D.in_atomic_block w.db a ≡ false
        → (ensure_atomic cfg D "default" (with_tenant cfg D t body) w).0 ≡ return x
    unfolding ensure_atomic
    around-local other outside =
        let s = (D.enter_atomic "default" w.db).1 in
        ground (
          arith,
          with_tenant-local w.db outside refl,
          with_tenant-local s,
          P.enter_atomic_other "default" w.db a other,
          P.enter_atomic_visible "default" w.db a (db_session_var cfg) other,
          up.enters "default" w.db,
          up.exits "default" true (with_tenant cfg D t body (record w { db = s })).1.db,
        )
