-- ===== src/Resolvers/Cached.antt =====
-- The resolvers that read the cache, against the queries that they spare.
use django_boundary.Prelude.{
  ◌<>◌, inl, inr, Option-cases, ℕ, ◌≤◌, ◌<◌, String, ◌≡◌, ◌≢◌, refl, Option, none, some, List, [],
  arith, length,
}
use django_boundary.Prelude.Dict.{lookup, NodupKeys, erase-NodupKeys, length-erase}
use django_boundary.Prelude.Text.{before, rstrip, lower}
use django_boundary.Conf.{Settings, resolver_cache_size, subdomain_parent_domain}
use django_boundary.Runtime.{Tenant, Result, return, World}
use django_boundary.Runtime.Lookup.{Lookup, found, does_not_exist, failed}
use django_boundary.Runtime.Requests.{Request}
use django_boundary.Resolvers.Cache.{cache_get}
use django_boundary.Resolvers.Cache.Eviction.{cache_set-IsCached}
use django_boundary.Resolvers.Cache.Contents.{cache_set_zero}
use django_boundary.Resolvers.Host.{dot, slug_of_host, slug_for_configured_parent}
use django_boundary.Resolvers.Host.Labels.{IsUnderAny, slug_for_configured_parent_iff}
use django_boundary.Resolvers.Queries.{Services}
use django_boundary.Resolvers.{cached, uncached, store, resolve_subdomain, settle}

-- A cache with one entry for a key at most, within its size.
pub record IsCacheValid (cfg : Settings) {Db : Type 0} (w : World Db) : Type 0 where
  pub nodup : NodupKeys w.cache
  pub within : length w.cache ≤ resolver_cache_size cfg

module _ (cfg : Settings) {Db : Type 0} (key : String) where
  -- What a resolver returns is the answer of the query alone, and the cache stays valid.
  abbrev Agrees : Lookup Tenant → World Db → Result (Option Tenant) × World Db → Type 0
  Agrees query before outcome =
      (outcome.0 ≡ (uncached cfg query before).0) × IsCacheValid cfg outcome.1

  module _ (roomy : 0 < resolver_cache_size cfg) where
    store-Agrees :
        (tenant : Tenant) (before w : World Db)
        → IsCacheValid cfg w
        → Agrees (found tenant) before (store cfg key tenant w)
    unfolding store
    store-Agrees tenant before w valid =
        let (c', h) =
          cache_set-IsCached cfg w.now key tenant w.cache valid.nodup valid.within roomy in
        rw (store, h.stored) (refl, record { nodup = h.nodup; within = h.bounded })

    settle-Agrees :
        (query : Lookup Tenant) (before w : World Db)
        → IsCacheValid cfg w
        → Agrees query before (settle cfg key query w)
    settle-Agrees does_not_exist before w valid = (refl, valid)
    settle-Agrees (failed e) before w valid = (refl, valid)
    settle-Agrees (found tenant) before w valid = store-Agrees tenant before w valid

  cache_get-IsCacheValid :
      (w : World Db)
      → IsCacheValid cfg w
      → IsCacheValid cfg (record w { cache = (cache_get cfg w.now key w.cache).1 })
  unfolding cache_get
  cache_get-IsCacheValid w valid = record {
    nodup = ground (arith, erase-NodupKeys key w.cache valid.nodup);
    within = ground (arith, length-erase key w.cache, valid.within);
  }

  cache_get_hit :
      (w : World Db) (tenant : Tenant)
      → (cache_get cfg w.now key w.cache).0 ≡ some tenant
      → (ts : ℕ) × (lookup key w.cache ≡ some (tenant, ts))
  unfolding cache_get
  cache_get_hit w tenant h = elim (Option-cases (lookup key w.cache)) [
    | inl none_held ↦ absurd (ground arith)
    | inr ((t, ts), held) ↦ (ts, ground arith)
  ]

  -- With a cache size above 0 and a valid cache, in which an entry of the key, if there is one, is
  -- the tenant that the query finds, a cached resolver answers what its query alone answers, and
  -- leaves the cache valid.
  pub cached-eq-uncached :
      (query : Lookup Tenant) (w : World Db)
      → IsCacheValid cfg w
      → 0 < resolver_cache_size cfg
      → ((t : Tenant) (ts : ℕ) → lookup key w.cache ≡ some (t, ts) → query ≡ found t)
      → ((cached cfg key query w).0 ≡ (uncached cfg query w).0)
        × IsCacheValid cfg (cached cfg key query w).1
  unfolding cached
  cached-eq-uncached query w valid roomy agrees =
      let fresh = cache_get-IsCacheValid w valid in
      elim (Option-cases (cache_get cfg w.now key w.cache).0) [
        | inl miss ↦ rw (cached, miss) (settle-Agrees roomy query w _ fresh)
        | inr (tenant, hit) ↦
            let (ts, held) = cache_get_hit w tenant hit in
            rw (cached, hit, agrees tenant ts held) (refl, fresh)
      ]

slug_of_host_foreign :
    (parents : List String) (raw : String)
    → ((slug : String) → ¬ IsUnderAny parents (lower (rstrip dot (before b':' raw))) slug)
    → slug_of_host (some parents) raw ≡ none
unfolding slug_of_host
slug_of_host_foreign parents raw foreign_host =
    let host = lower (rstrip dot (before b':' raw)) in
    elim (Option-cases (slug_for_configured_parent host parents)) [
      | inl no_slug ↦ ground arith
      | inr (slug, e) ↦
          absurd (foreign_host slug ((slug_for_configured_parent_iff parents host slug).0 e))
    ]

cached_zero :
    (cfg : Settings) {Db : Type 0} (key : String) (query : Lookup Tenant) (w : World Db)
    → resolver_cache_size cfg ≡ 0
    → w.cache ≡ []
    → (t : Tenant) → (cached cfg key query w).0 ≢ return (some t)
unfolding cached store cache_get lookup
cached_zero cfg key does_not_exist w zero nothing t h = ground (arith, h)
cached_zero cfg key (failed e) w zero nothing t h = ground (arith, h)
cached_zero cfg key (found tenant) w zero nothing t h =
    ground (arith, h, cache_set_zero cfg w.now key tenant zero)

module _ (cfg : Settings) (services : Services) {Db : Type 0} (request : Request) (w : World Db)
    (raw : String) (sent : request.host ≡ return raw) where
  -- Where parent domains are configured and the host that the request gives, without its port and a
  -- trailing dot and in lower case, is under none of them, the subdomain resolver returns no tenant
  -- and changes nothing.
  pub resolve_subdomain_foreign :
      (parents : List String)
      → subdomain_parent_domain cfg ≡ some parents
      → ((slug : String) → ¬ IsUnderAny parents (lower (rstrip dot (before b':' raw))) slug)
      → resolve_subdomain cfg services request w ≡ (return none, w)
  unfolding resolve_subdomain
  resolve_subdomain_foreign parents configured foreign_host =
      let no_slug = slug_of_host_foreign parents raw foreign_host in
      rw (resolve_subdomain, sent, configured, no_slug) refl

  -- With a cache size of 0 and an empty cache the subdomain resolver, for a host that the request
  -- gives, never returns a tenant.
  pub resolve_subdomain_zero :
      resolver_cache_size cfg ≡ 0
      → w.cache ≡ []
      → ¬ ((t : Tenant) × ((resolve_subdomain cfg services request w).0 ≡ return (some t)))
  unfolding resolve_subdomain
  resolve_subdomain_zero zero nothing = λ (t, h).
      elim (Option-cases (slug_of_host (subdomain_parent_domain cfg) raw)) [
        | inl no_slug ↦ ground arith
        | inr (slug, e) ↦
            cached_zero cfg ("subdomain:" <> slug) _ w zero nothing t
              (rw (resolve_subdomain, sent, e) at h)
      ]

-- Where the cache has no entry of the key, the query is asked.
pub cached_absent :
    (cfg : Settings) {Db : Type 0} (key : String) (query : Lookup Tenant) (w : World Db)
    → lookup key w.cache ≡ none
    → cached cfg key query w ≡ settle cfg key query w
unfolding cached cache_get
cached_absent cfg key query w absent =
    let gone : cache_get cfg w.now key w.cache ≡ (none, w.cache) = rw (cache_get, absent) refl in
    ground (arith, gone)
