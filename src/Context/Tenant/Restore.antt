-- ===== src/Context/Tenant/Restore.antt =====
-- What `set`, `clear` and `using` leave behind: the context variable and the session variables.
use django_boundary.Prelude.{
  String, ◌≡◌, refl, ◌⊎◌, inl, true, Option, none, some, List, arith, string_eq, contains,
  if◌then◌else◌,
}
use django_boundary.Conf.{Settings, wrap_atomic, set_db_session_var}
use django_boundary.Runtime.{Tenant, Token, return, raise, database_error, World, Action}
use django_boundary.Runtime.Database.{Database, IsPostgres, Answers}
use django_boundary.Context.Aliases.{aliases_for}
use django_boundary.Context.Session.{is_postgresql, set_all, clear_each}
use django_boundary.Context.Session.Writes.{
  session_variable, set_all-done, set_all-visible, clear_each-visible, restore_each-visible,
}
use django_boundary.Context.Session.Transactions.{
  ensure_atomic_all-keeps, ensure_atomic_all-ambient, ensure_atomic_all-returns,
}
use django_boundary.Context.Tenant.{cleared_aliases, set, clear, leave_scope, scoped, using_tenant}

-- The tenant that a policy on alias `a` sees after a scope that cleared `aliases` and put back
-- `previous`; `old` is what it saw before.
abbrev pub restored : Settings → Option Tenant → List String → String → String → String → String
restored cfg none aliases using a old = if contains aliases a then "" else old
restored cfg (some previous) aliases using a old =
    if contains (aliases_for cfg (some previous) using) a
    then previous.pk
    else if contains aliases a
    then ""
    else old

module _ (cfg : Settings) (D : Database) where
  -- `set` is all or nothing on the context variable: it returns the token of the tenant before and
  -- `tenant` is active, or it raises a database error and the tenant before is still active.
  pub set_lem :
      (tenant : Option Tenant) (using : String) (w : World D.State)
      → let (r, w') = set cfg D tenant using w in
        ((r ≡ return w.current_tenant) × (w'.current_tenant ≡ tenant))
        ⊎ ((r ≡ raise database_error) × (w'.current_tenant ≡ w.current_tenant))
  unfolding set
  set_lem tenant using w = ground arith

  scoped-current_tenant :
      {A : Type 0} (previous : Option Tenant) (aliases : List String) (tenant : Option Tenant)
      (using : String) (body : Action D.State A) (w : World D.State)
      → (scoped cfg D previous aliases tenant using body w).1.current_tenant ≡ w.current_tenant
  unfolding scoped
  scoped-current_tenant previous aliases tenant using body w = ground (arith)

  -- However the body of `TenantContext.using` ends, and whatever the database answers, the active
  -- tenant is afterwards the one before.
  pub using_tenant-current_tenant :
      {A : Type 0} (tenant : Option Tenant) (using : String) (body : Action D.State A)
      (w : World D.State)
      → (using_tenant cfg D tenant using body w).1.current_tenant ≡ w.current_tenant
  unfolding using_tenant
  using_tenant-current_tenant tenant using body w =
      ensure_atomic_all-keeps cfg D (λ v. v.current_tenant) (λ v s. refl)
        (aliases_for cfg tenant using) _ w
        λ s.
          scoped-current_tenant w.current_tenant (aliases_for cfg tenant using) tenant using body
            (record w { db = s })

set-returns :
    (cfg : Settings) (D : Database) (up : Answers D) (tenant : Option Tenant) (using : String)
    (w : World D.State)
    → (set cfg D tenant using w).0 ≡ return w.current_tenant
unfolding set
set-returns cfg D up none using w = refl
set-returns cfg D up (some t) using w =
    ground (arith, set_all-done cfg D up t.pk (aliases_for cfg (some t) using) w.db)

module _ (cfg : Settings) (D : Database) (P : IsPostgres D) (up : Answers D)
    (enabled : set_db_session_var cfg ≡ true) (a : String)
    (postgres : is_postgresql cfg D a ≡ true) where
  leave_scope-restored :
      (previous : Option Tenant) (aliases : List String) (using : String) (token : Token Tenant)
      (w : World D.State)
      → D.in_atomic_block w.db a ≡ true
      → session_variable cfg D (leave_scope cfg D previous aliases using token w).db a
        ≡ restored cfg previous aliases using a (session_variable cfg D w.db a)
  unfolding leave_scope
  leave_scope-restored none aliases using token w h =
      (clear_each-visible cfg D P up enabled a postgres aliases w.db h).1
  leave_scope-restored (some p) aliases using token w h = ground (
    arith,
    clear_each-visible cfg D P up enabled a postgres aliases w.db h,
    restore_each-visible cfg D P up enabled a postgres p.pk (aliases_for cfg (some p) using)
        (clear_each cfg D aliases w.db),
  )

  -- Where the database answers and session variables are enabled, `clear` puts back the tenant of
  -- its token: a PostgreSQL alias `a` in a transaction shows that tenant where its aliases include
  -- `a`; else no tenant, where the aliases of the tenant that was active include `a`; else what it
  -- showed before.
  clear-restored :
      (token : Token Tenant) (using : String) (w : World D.State)
      → D.in_atomic_block w.db a ≡ true
      → session_variable cfg D (clear cfg D token using w).db a
        ≡ restored cfg token
            (cleared_aliases cfg w.current_tenant using)
            using
            a
            (session_variable cfg D w.db a)
  unfolding clear leave_scope
  clear-restored token using w h =
      leave_scope-restored token (cleared_aliases cfg w.current_tenant using) using token w h

  -- Where the database answers and session variables are enabled, after `TenantContext.using` inside
  -- transactions on its aliases a PostgreSQL alias `a` that the body leaves in its transaction shows
  -- the tenant that was active before, where that tenant's aliases include `a`; else no tenant,
  -- where the scope's aliases include `a`; else what it showed at the end of the body.
  pub using_tenant-restored :
      {A : Type 0} (tenant : Option Tenant) (using : String) (body : Action D.State A)
      (w : World D.State)
      → ((b : String)
          → contains (aliases_for cfg tenant using) b ≡ true
          → D.in_atomic_block w.db b ≡ true)
      → let inside = (body (set cfg D tenant using w).1).1 in
        D.in_atomic_block inside.db a ≡ true
        → session_variable cfg D (using_tenant cfg D tenant using body w).1.db a
          ≡ restored cfg w.current_tenant
              (aliases_for cfg tenant using)
              using
              a
              (session_variable cfg D inside.db a)
  unfolding using_tenant
  using_tenant-restored tenant using body w ambient h =
      let aliases = aliases_for cfg tenant using in
      let inside = (body (set cfg D tenant using w).1).1 in
      ground (
        arith,
        ensure_atomic_all-ambient cfg D aliases
            (scoped cfg D w.current_tenant aliases tenant using body) w ambient,
        set-returns cfg D up tenant using w,
        leave_scope-restored w.current_tenant aliases using w.current_tenant inside h,
      )

  -- `TenantContext.using(t)`, where the database answers, transactions are wrapped and session
  -- variables are enabled: whatever a body returns because it sees `t` as the active tenant and,
  -- inside a transaction on a PostgreSQL alias `a` of the tenant, the session variable holding the
  -- pk of `t`, the whole scope returns.
  pub using_tenant-enforces :
      wrap_atomic cfg ≡ true
      → {A : Type 0} (t : Tenant) (using : String) (body : Action D.State A) (w : World D.State)
        (x : A)
      → contains (aliases_for cfg (some t) using) a ≡ true
      → ((v : World D.State)
          → v.current_tenant ≡ some t
          → D.in_atomic_block v.db a ≡ true
          → session_variable cfg D v.db a ≡ t.pk
          → (body v).0 ≡ return x)
      → (using_tenant cfg D (some t) using body w).0 ≡ return x
  unfolding using_tenant scoped set
  using_tenant-enforces wraps t using body w x member h =
      ensure_atomic_all-returns cfg D P up wraps a postgres (aliases_for cfg (some t) using) _ w x
        (inl member)
        λ s in_block. ground (
          arith,
          set_all-visible cfg D P up enabled a postgres t.pk (aliases_for cfg (some t) using) s
              in_block,
          h (record w {
            current_tenant = some t;
            db = (set_all cfg D t.pk (aliases_for cfg (some t) using) s).1;
          }),
        )
