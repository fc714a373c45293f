-- ===== src/Resolvers/Keeps.antt =====
-- The built-in resolvers write to the cache and to nothing else.
use Prim.Native.String.{count}
use django_boundary.Prelude.{
  ◌-◌, ◌%◌, ◌<>◌, ◌⊎◌, inl, inr, Option-cases, string_eq, String, ◌≡◌, refl, List, [], ◌∷◌, arith,
}
use django_boundary.Prelude.Dict.{lookup}
use django_boundary.Prelude.Text.{split, drop, repeat}
use django_boundary.Conf.{
  setting, subdomain_field, subdomain_parent_domain, header_name, jwt_claim, session_key, Settings,
}
use django_boundary.Runtime.{Exception, Tenant, Result, return, raise, World}
use django_boundary.Resolvers.Cache.{cache_get}
use django_boundary.Resolvers.Host.{dot, slug_of_host}
use django_boundary.Resolvers.Queries.{
  object, not_an_object, header_query, meta_key, pk_query, payload_segment, Services,
}
use django_boundary.Runtime.Lookup.{Lookup, found, does_not_exist, failed}
use django_boundary.Runtime.Requests.{Request, Resolver}
use django_boundary.Middleware.{resolve_tenant}
use django_boundary.Resolvers.{
  cached, uncached, store, settle, resolve_subdomain, resolve_header, resolve_payload, resolve_jwt,
  resolve_session, resolve_explicit,
}

-- The active tenant, the pinned region and the databases are as they were.
abbrev pub SameContext : {Db : Type 0} → World Db → World Db → Type 0
SameContext w w' =
    (w'.current_tenant ≡ w.current_tenant)
    × (w'.region_override ≡ w.region_override)
    × (w'.db ≡ w.db)

-- The classes of resolvers.py.
pub data BuiltIn : Type 0 where
  subdomain header jwt session explicit : BuiltIn

Result-cases :
    {A : Type 0} (r : Result A) → ((a : A) × (r ≡ return a)) ⊎ ((e : Exception) × (r ≡ raise e))
Result-cases (return a) = inl (a, refl)
Result-cases (raise e) = inr (e, refl)

module _ (cfg : Settings) (services : Services) {Db : Type 0} where
  abbrev pub resolver : BuiltIn → Resolver Db
  resolver subdomain = ("boundary.resolvers.SubdomainResolver", resolve_subdomain cfg services)
  resolver header = ("boundary.resolvers.HeaderResolver", resolve_header cfg services)
  resolver jwt = ("boundary.resolvers.JWTClaimResolver", resolve_jwt cfg services)
  resolver session = ("boundary.resolvers.SessionResolver", resolve_session cfg services)
  resolver explicit = ("boundary.resolvers.ExplicitResolver", resolve_explicit cfg)

  abbrev pub resolvers_of : List BuiltIn → List (Resolver Db)
  resolvers_of [] = []
  resolvers_of (r ∷ rs) = resolver r ∷ resolvers_of rs

  settle-SameContext :
      (key : String) (query : Lookup Tenant) (w : World Db)
      → SameContext w (settle cfg key query w).1
  unfolding store
  settle-SameContext key does_not_exist w = (refl, refl, refl)
  settle-SameContext key (failed e) w = (refl, refl, refl)
  settle-SameContext key (found tenant) w = ground arith

  cached-SameContext :
      (key : String) (query : Lookup Tenant) (w : World Db)
      → SameContext w (cached cfg key query w).1
  unfolding cached
  cached-SameContext key query w = ground (
    arith,
    settle-SameContext key query (record w { cache = (cache_get cfg w.now key w.cache).1 }),
  )

  uncached-SameContext :
      (query : Lookup Tenant) (w : World Db) → SameContext w (uncached cfg query w).1
  uncached-SameContext does_not_exist w = (refl, refl, refl)
  uncached-SameContext (failed e) w = (refl, refl, refl)
  uncached-SameContext (found tenant) w = (refl, refl, refl)

  payload-SameContext :
      (part : String) (w : World Db) → SameContext w (resolve_payload cfg services part w).1
  unfolding resolve_payload
  payload-SameContext part w =
      let padding = 4 - count part % 4 in
      elim (Option-cases (services.decode_payload (part <> repeat "=" padding))) [
        | inl n ↦ ground arith
        | inr (not_an_object, e) ↦ ground arith
        | inr (object payload, e) ↦
            let id = setting (lookup (jwt_claim cfg) payload) "" in
            ground (arith, uncached-SameContext (pk_query services id) w)
      ]

  resolver-SameContext :
      (r : BuiltIn) (request : Request) (w : World Db) → SameContext w ((resolver r).1 request w).1
  unfolding resolve_subdomain resolve_header resolve_jwt resolve_payload resolve_session
      resolve_explicit
  resolver-SameContext subdomain request w = elim (Result-cases request.host) [
    | inr (e, raised) ↦ ground arith
    | inl (raw, sent) ↦ elim (Option-cases (slug_of_host (subdomain_parent_domain cfg) raw)) [
      | inl n ↦ ground arith
      | inr (slug, e) ↦ ground (
        arith,
        cached-SameContext ("subdomain:" <> slug) (services.get_field (subdomain_field cfg) slug) w,
      )
    ]
  ]
  resolver-SameContext header request w =
      let value = setting (lookup (meta_key (header_name cfg)) request.meta) "" in
      ground (arith, cached-SameContext ("header:" <> value) (header_query cfg services value) w)
  resolver-SameContext jwt request w =
      let auth_header = setting (lookup "HTTP_AUTHORIZATION" request.meta) "" in
      elim (Option-cases (payload_segment (split dot (drop 7 auth_header)))) [
        | inl n ↦ ground arith
        | inr (part, e) ↦ ground (arith, payload-SameContext part w)
      ]
  resolver-SameContext session request w = elim (Option-cases request.session) [
    | inl n ↦ ground arith
    | inr (held, e) ↦
        let id = setting (lookup (session_key cfg) held) "" in
        ground (arith, cached-SameContext ("session:" <> id) (pk_query services id) w)
  ]
  resolver-SameContext explicit request w = (refl, refl, refl)

  -- A chain of built-in resolvers leaves the active tenant, the pinned region and the databases as
  -- they were.
  pub resolve_tenant-SameContext :
      (rs : List BuiltIn) (request : Request) (w : World Db)
      → SameContext w (resolve_tenant request (resolvers_of rs) w).1
  unfolding resolve_tenant
  resolve_tenant-SameContext [] request w = (refl, refl, refl)
  resolve_tenant-SameContext (r ∷ rs) request w =
      let w' = ((resolver r).1 request w).1 in
      ground (arith, resolver-SameContext r request w, resolve_tenant-SameContext rs request w')
