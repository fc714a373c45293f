-- ===== src/Middleware.antt =====
-- middleware.py: `TenantMiddleware`, with its default hooks. A resolver of the chain is its dotted path
-- with what importing it, making it and asking it does; log lines are left out.
pub mod Chain
pub mod Gate
use django_boundary.Prelude.{
  String, Bool, true, false, not, Option, none, some, List, [], ◌∷◌, ◌==◌, string_eq, if◌then◌else◌,
}
use django_boundary.Prelude.Dict.{Dict, insert}
use django_boundary.Conf.{Settings, required, request_attr}
use django_boundary.Runtime.{
  Tenant, Token, Result, return, raise, tenant_resolution_failed, tenant_resolved, World, send,
  Action,
}
use django_boundary.Runtime.Database.{Database}
use django_boundary.Runtime.Requests.{Request, Resolver}
use django_boundary.Context.Session.{ensure_atomic}
use django_boundary.Context.Tenant.{with_tenant}

pub data Response : Type 0 where
  -- 404 and 403
  not_found forbidden : Response
  -- what the view and the rest of the chain answer
  view_response : String → Response

-- `_resolve_tenant`: the tenant, and the path of the resolver that found it. A resolver that raises
-- is skipped.
unfoldable pub resolve_tenant :
    {Db : Type 0} → Request → List (Resolver Db) → World Db → Option (Tenant × String) × World Db
resolve_tenant request [] w = (none, w)
resolve_tenant request ((path, resolve) ∷ rest) w =
    let (answer, w') = resolve request w in
    let more = resolve_tenant request rest w' in
    elim answer [
      | raise e ↦ more
      | return none ↦ more
      | return (some tenant) ↦ (some (tenant, path), w')
    ]

-- `hasattr(tenant, "is_active") and not tenant.is_active`
abbrev pub is_inactive : Tenant → Bool
is_inactive tenant = elim tenant.is_active [ none ↦ false | some active ↦ not active ]

-- `request.tenant`, the configured attribute, and `request._boundary_token`
abbrev pub tag_request : Settings → Tenant → Token Tenant → Request → Request
tag_request cfg tenant token request =
    let attributes = insert "tenant" tenant request.attributes in
    let attr = request_attr cfg in
    record request {
      attributes =
          if attr == ""
          then attributes
          else if attr == "tenant"
          then attributes
          else insert attr tenant attributes;
      boundary_token = some token;
    }

module _ (cfg : Settings) (D : Database) (get_response : Request → Action D.State Response) where
  -- The end of `__call__`, for a tenant that was resolved and is not inactive.
  serve_tenant : Tenant → Request → Action D.State Response
  serve_tenant tenant request w =
      let view = get_response (tag_request cfg tenant w.current_tenant request) in
      ensure_atomic cfg D "default" (with_tenant cfg D tenant view)
        (send (tenant_resolved tenant) w)

  handle_resolved : Option (Tenant × String) → Request → Action D.State Response
  unfolding serve_tenant
  handle_resolved none request w =
      if required cfg
      then (return not_found, send tenant_resolution_failed w)
      else get_response request w
  handle_resolved (some (tenant, path)) request w =
      if is_inactive tenant then (return forbidden, w) else serve_tenant tenant request w

  -- `__call__`
  pub call : List (Resolver D.State) → Request → Action D.State Response
  unfolding resolve_tenant handle_resolved
  call resolvers request w =
      let (resolved, w') = resolve_tenant request resolvers w in handle_resolved resolved request w'
