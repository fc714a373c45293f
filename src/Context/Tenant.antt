-- ===== src/Context/Tenant.antt =====
-- context.py: `TenantContext.set`, `get`, `clear`, `require` and `using`.
pub mod Restore
pub mod Around
use django_boundary.Prelude.{
  String, Bool, true, false, Option, none, some, List, [], ◌∷◌, if◌then◌else◌,
}
use django_boundary.Conf.{Settings}
use django_boundary.Runtime.{
  Tenant, Token, Result, return, raise, tenant_not_set, database_error, World, Action,
}
use django_boundary.Runtime.Database.{Database}
use django_boundary.Context.Aliases.{aliases_for}
use django_boundary.Context.Session.{set_all, clear_each, restore_each, ensure_atomic_all}

-- `TenantContext.get`
abbrev pub get_tenant : {Db : Type 0} → World Db → Option Tenant
get_tenant w = w.current_tenant

-- `TenantContext.require`
unfoldable pub require : {Db : Type 0} → Action Db Tenant
require w = elim w.current_tenant [ none ↦ (raise tenant_not_set, w) | some t ↦ (return t, w) ]

-- The aliases that `clear` clears.
unfoldable pub cleared_aliases : Settings → Option Tenant → String → List String
cleared_aliases cfg none using = using ∷ []
cleared_aliases cfg (some active) using = aliases_for cfg (some active) using

module _ (cfg : Settings) (D : Database) where
  -- The `try` of `set`: the statements for a tenant, none for no tenant.
  set_statements : Option Tenant → String → D.State → Bool × D.State
  set_statements none using s = (true, s)
  set_statements (some tenant) using s =
      set_all cfg D tenant.pk (aliases_for cfg (some tenant) using) s

  -- A failed statement takes the context variable back, and is raised again.
  unfoldable pub set : Option Tenant → String → Action D.State (Token Tenant)
  unfolding set_statements
  set tenant using w =
      let token = w.current_tenant in
      let (done, s) = set_statements tenant using w.db in
      if done
      then (return token, record w { current_tenant = tenant; db = s })
      else (raise database_error, record w { current_tenant = token; db = s })

  -- The statements of the previous tenant, on its own aliases.
  restore_statements : Option Tenant → String → D.State → D.State
  restore_statements none using s = s
  restore_statements (some previous) using s =
      restore_each cfg D previous.pk (aliases_for cfg (some previous) using) s

  -- It raises nothing.
  unfoldable pub clear : Token Tenant → String → World D.State → World D.State
  unfolding restore_statements cleared_aliases
  clear token using w =
      let s = clear_each cfg D (cleared_aliases cfg w.current_tenant using) w.db in
      record w { current_tenant = token; db = restore_statements token using s }

  -- The `finally` of `using`.
  pub leave_scope :
      Option Tenant → List String → String → Token Tenant → World D.State → World D.State
  unfolding restore_statements
  leave_scope previous aliases using token w =
      let s = clear_each cfg D aliases w.db in
      record w { current_tenant = token; db = restore_statements previous using s }

  module _ {A : Type 0} where
    -- What runs inside the blocks of `using`.
    pub scoped :
        Option Tenant → List String → Option Tenant → String → Action D.State A → Action D.State A
    unfolding set leave_scope
    scoped previous aliases tenant using body w =
        let (entered, w') = set tenant using w in
        elim entered [
          | raise e ↦ (raise e, w')
          | return token ↦
              let (result, w'') = body w' in (result, leave_scope previous aliases using token w'')
        ]

    -- `with TenantContext.using(tenant, using=using): body`
    pub using_tenant : Option Tenant → String → Action D.State A → Action D.State A
    unfolding scoped
    using_tenant tenant using body w =
        let aliases = aliases_for cfg tenant using in
        ensure_atomic_all cfg D aliases (scoped w.current_tenant aliases tenant using body) w

    -- `token = TenantContext.set(tenant)`, then `try: body` and `finally: TenantContext.clear(token)`.
    unfoldable pub with_tenant : Tenant → Action D.State A → Action D.State A
    unfolding set clear
    with_tenant tenant body w =
        let (entered, w') = set (some tenant) "default" w in
        elim entered [
          | raise e ↦ (raise e, w')
          | return token ↦ let (result, w'') = body w' in (result, clear token "default" w'')
        ]
