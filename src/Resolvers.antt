-- ===== src/Resolvers.antt =====
-- resolvers.py: the resolver cache, host parsing, and the five built-in resolvers.
pub mod Cache
pub mod Host
pub mod Queries
pub mod Cached
pub mod Keeps
use Prim.Native.String.{count}
use text.Mathlib.Text.{starts_with}
use django_boundary.Prelude.{
  ℕ, ◌-◌, ◌%◌, String, ◌<>◌, Bool, true, false, Option, none, some, List, [], ◌∷◌, ◌==◌, string_eq,
  if◌then◌else◌,
}
use django_boundary.Prelude.Dict.{Dict, lookup}
use django_boundary.Prelude.Text.{split, upper, replace, drop, repeat}
use django_boundary.Conf.{
  Settings, setting, is_truthy, subdomain_field, subdomain_parent_domain, header_name, jwt_claim,
  session_key,
}
use django_boundary.Runtime.{
  Tenant, Exception, value_error, type_error, foreign, Result, return, raise, World, Action,
}
use django_boundary.Runtime.Lookup.{Lookup, found, does_not_exist, failed}
use django_boundary.Runtime.Requests.{Request}
use django_boundary.Resolvers.Cache.{cache_get, cache_set}
use django_boundary.Resolvers.Queries.{
  Services, Payload, object, not_an_object, header_query, meta_key, pk_query, payload_segment,
}
use django_boundary.Resolvers.Host.{dot, slug_of_host}

module _ (cfg : Settings) {Db : Type 0} where
  -- `_cache_set`, on the cache of the process
  pub store : String → Tenant → Action Db (Option Tenant)
  store key tenant w = elim (cache_set cfg w.now key tenant w.cache) [
    | none ↦ (raise value_error, w)
    | some cache ↦ (return (some tenant), record w { cache = cache })
  ]

  -- What a resolver makes of its query: it caches and returns the tenant, passes, or raises.
  abbrev pub settle : String → Lookup Tenant → Action Db (Option Tenant)
  settle key does_not_exist w = (return none, w)
  settle key (failed e) w = (raise e, w)
  settle key (found tenant) w = store key tenant w

  -- A resolver that reads the cache, and asks the database where that has nothing.
  pub cached : String → Lookup Tenant → Action Db (Option Tenant)
  unfolding store
  cached key query w =
      let (hit, cache) = cache_get cfg w.now key w.cache in
      elim hit [
        | some tenant ↦ (return (some tenant), record w { cache = cache })
        | none ↦ settle key query (record w { cache = cache })
      ]

  -- A resolver with no cache.
  abbrev pub uncached : Lookup Tenant → Action Db (Option Tenant)
  uncached (found tenant) w = (return (some tenant), w)
  uncached does_not_exist w = (return none, w)
  uncached (failed e) w = (raise e, w)

  module _ (services : Services) where
    pub resolve_subdomain : Request → Action Db (Option Tenant)
    unfolding cached
    resolve_subdomain request w = elim request.host [
      | raise e ↦ (raise e, w)
      | return raw ↦ elim (slug_of_host (subdomain_parent_domain cfg) raw) [
        | none ↦ (return none, w)
        | some slug ↦
            cached ("subdomain:" <> slug) (services.get_field (subdomain_field cfg) slug) w
      ]
    ]

    pub resolve_header : Request → Action Db (Option Tenant)
    unfolding cached
    resolve_header request w =
        let value = lookup (meta_key (header_name cfg)) request.meta in
        if is_truthy value
        then cached ("header:" <> setting value "") (header_query cfg services (setting value "")) w
        else (return none, w)

    -- From the payload's text on: a text that does not decode passes, and a payload that is no
    -- object raises `AttributeError`.
    pub resolve_payload : String → Action Db (Option Tenant)
    resolve_payload part w =
        let padding = 4 - count part % 4 in
        elim (services.decode_payload (part <> repeat "=" padding)) [
          | none ↦ (return none, w)
          | some not_an_object ↦ (raise (foreign "AttributeError"), w)
          | some (object payload) ↦
              let tenant_id = lookup (jwt_claim cfg) payload in
              if is_truthy tenant_id
              then uncached (pk_query services (setting tenant_id "")) w
              else (return none, w)
        ]

    pub resolve_jwt : Request → Action Db (Option Tenant)
    unfolding resolve_payload
    resolve_jwt request w =
        let auth_header = setting (lookup "HTTP_AUTHORIZATION" request.meta) "" in
        if starts_with auth_header "Bearer "
        then elim (payload_segment (split dot (drop 7 auth_header))) [
          | none ↦ (return none, w)
          | some part ↦ resolve_payload part w
        ]
        else (return none, w)

    pub resolve_session : Request → Action Db (Option Tenant)
    unfolding cached
    resolve_session request w = elim request.session [
      | none ↦ (return none, w)
      | some session ↦
          let tenant_id = lookup (session_key cfg) session in
          if is_truthy tenant_id
          then cached ("session:" <> setting tenant_id "")
              (pk_query services (setting tenant_id "")) w
          else (return none, w)
    ]

  pub resolve_explicit : Request → Action Db (Option Tenant)
  resolve_explicit request w = (return (lookup "boundary_tenant" request.attributes), w)
