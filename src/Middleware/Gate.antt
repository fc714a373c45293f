-- ===== src/Middleware/Gate.antt =====
-- Which requests reach the view, and under which tenant.
use django_boundary.Prelude.{
  true, ◌≢◌, String, ◌≡◌, Bool, false, not, Option, none, some, List, arith,
}
use django_boundary.Conf.{Settings, required, wrap_atomic, set_db_session_var}
use django_boundary.Runtime.{Tenant, return, World, Action, send, tenant_resolved}
use django_boundary.Runtime.Database.{Database, IsPostgres, Answers}
use django_boundary.Context.Tenant.Around.{around-current_tenant, around-enforces, around-local}
use django_boundary.Context.Session.{is_postgresql}
use django_boundary.Context.Session.Writes.{session_variable}
use django_boundary.Runtime.Requests.{Request, Resolver}
use django_boundary.Middleware.{
  Response, not_found, forbidden, resolve_tenant, is_inactive, tag_request, call,
}

-- The requests that reach the view: a tenant that is not inactive, or none where none is required.
abbrev admits : Settings → Option (Tenant × String) → Bool
admits cfg none = not (required cfg)
admits cfg (some (tenant, path)) = not (is_inactive tenant)

-- The answer to a request that is refused
abbrev pub refusal : Option (Tenant × String) → Response
refusal none = not_found
refusal (some (tenant, path)) = forbidden

module _ (cfg : Settings) (D : Database) (resolvers : List (Resolver D.State)) (request : Request)
    (w : World D.State) where
  -- A request with no tenant where one is required is answered 404, and one with an inactive tenant
  -- 403, by the middleware alone: for every view the answer and the world afterwards are the same,
  -- and the active tenant and the databases are as the resolvers left them.
  pub call_refuses :
      (view view' : Request → Action D.State Response)
      → admits cfg (resolve_tenant request resolvers w).0 ≡ false
      → let (answer, after) = call cfg D view resolvers request w in
        let resolved = (resolve_tenant request resolvers w).1 in
        (answer ≡ return (refusal (resolve_tenant request resolvers w).0))
        × (call cfg D view' resolvers request w ≡ (answer, after))
        × (after.current_tenant ≡ resolved.current_tenant)
        × (after.db ≡ resolved.db)
  unfolding call
  call_refuses view view' h = ground arith

  module _ (t : Tenant) (path : String)
      (resolves : (resolve_tenant request resolvers w).0 ≡ some (t, path)) where
    -- For a request with a tenant, however the view ends, the active tenant is afterwards the one
    -- that the resolvers left.
    pub call-current_tenant :
        (view : Request → Action D.State Response)
        → (call cfg D view resolvers request w).1.current_tenant
          ≡ (resolve_tenant request resolvers w).1.current_tenant
    unfolding call
    call-current_tenant view =
        let w' = (resolve_tenant request resolvers w).1 in
        ground (
          arith,
          around-current_tenant cfg D t (view (tag_request cfg t w'.current_tenant request))
              (send (tenant_resolved t) w'),
        )

module _ (cfg : Settings) (D : Database) (P : IsPostgres D) (up : Answers D)
    (resolvers : List (Resolver D.State)) (request : Request) (w : World D.State) (t : Tenant)
    (path : String) (resolves : (resolve_tenant request resolvers w).0 ≡ some (t, path))
    (active : is_inactive t ≡ false) (view : Request → Action D.State Response) (x : Response) where
  -- Where the database answers, transactions are wrapped, session variables are enabled and
  -- `default` is PostgreSQL, a request for which the resolvers find a tenant `t` that is not
  -- inactive is answered by the view under `t`: whatever the view answers because `t` is active and,
  -- in a transaction on `default`, the session variable holds the pk of `t`, the middleware answers.
  pub call-enforces :
      wrap_atomic cfg ≡ true
      → set_db_session_var cfg ≡ true
      → is_postgresql cfg D "default" ≡ true
      → ((req : Request) (v : World D.State)
          → v.current_tenant ≡ some t
          → D.in_atomic_block v.db "default" ≡ true
          → session_variable cfg D v.db "default" ≡ t.pk
          → (view req v).0 ≡ return x)
      → (call cfg D view resolvers request w).0 ≡ return x
  unfolding call
  call-enforces wraps enabled postgres h =
      let w' = (resolve_tenant request resolvers w).1 in
      let req = tag_request cfg t w'.current_tenant request in
      ground (
        arith,
        around-enforces cfg D P up t (view req) x wraps enabled postgres (h req)
            (send (tenant_resolved t) w'),
      )

  -- Where the database answers and a request has a tenant `t` that is not inactive, on an alias
  -- other than `default`, the regional alias of the tenant too, that is in no transaction when the
  -- resolvers are done, the view runs with the session variable as it was: whatever it answers
  -- because `t` is active and the variable holds the old value, the middleware answers.
  pub call-local :
      (a : String)
      → a ≢ "default"
      → D.in_atomic_block (resolve_tenant request resolvers w).1.db a ≡ false
      → ((req : Request) (v : World D.State)
          → v.current_tenant ≡ some t
          → session_variable cfg D v.db a
            ≡ session_variable cfg D (resolve_tenant request resolvers w).1.db a
          → (view req v).0 ≡ return x)
      → (call cfg D view resolvers request w).0 ≡ return x
  unfolding call
  call-local a other outside h =
      let w' = (resolve_tenant request resolvers w).1 in
      let req = tag_request cfg t w'.current_tenant request in
      ground (
        arith,
        around-local cfg D P up t (view req) x a (send (tenant_resolved t) w') (h req) other
            outside,
      )
