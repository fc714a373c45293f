-- ===== src/Resolvers/Cache.antt =====
-- resolvers.py: the cache of resolved tenants. It is a dict in insertion order; its lock makes each
-- operation one step. Times are whole ticks of a monotonic clock.
pub mod Eviction
pub mod Contents
use django_boundary.Prelude.{
  ℕ, ◌+◌, String, Bool, true, false, not, ◌&&◌, Option, none, some, List, [], ◌∷◌, ◌==◌, string_eq,
  ltb, leb, length, if◌then◌else◌,
}
use django_boundary.Prelude.Dict.{Dict, lookup, insert, erase, has_key}
use django_boundary.Conf.{Settings, resolver_cache_size, resolver_cache_ttl}
use django_boundary.Runtime.{Tenant}

-- A tenant, and when it was cached.
abbrev pub Entry : Type 0
Entry = Tenant × ℕ

abbrev pub Cache : Type 0
Cache = Dict Entry

-- `time.monotonic() - ts > TTL`
abbrev is_expired : Settings → (now : ℕ) → Entry → Bool
is_expired cfg now (tenant, ts) = ltb (ts + resolver_cache_ttl cfg) now

-- An expired entry is deleted.
unfoldable pub cache_get : Settings → (now : ℕ) → String → Cache → Option Tenant × Cache
cache_get cfg now key cache = elim (lookup key cache) [
  | none ↦ (none, cache)
  | some (tenant, ts) ↦
      if is_expired cfg now (tenant, ts) then (none, erase key cache) else (some tenant, cache)
]

-- `min(_cache, key=lambda k: _cache[k][1])` from a first candidate: the first of the oldest.
oldest_from : String → ℕ → Cache → String
oldest_from best at [] = best
oldest_from best at ((k, (t, ts)) ∷ cache) =
    oldest_from (if ltb ts at then k else best) (if ltb ts at then ts else at) cache

-- `none` is the `ValueError` of `min` on an empty dict.
pub oldest_key : Cache → Option String
unfolding oldest_from
oldest_key [] = none
oldest_key ((k, (t, ts)) ∷ cache) = some (oldest_from k ts cache)

-- `none`: a `ValueError` is raised.
pub cache_set : Settings → (now : ℕ) → String → Tenant → Cache → Option Cache
unfolding oldest_key
cache_set cfg now key tenant cache =
    if leb (resolver_cache_size cfg) (length cache) && not (has_key key cache)
    then elim (oldest_key cache) [
      | none ↦ none
      | some oldest ↦ some (insert key (tenant, now) (erase oldest cache))
    ]
    else some (insert key (tenant, now) cache)

-- `keys_to_remove`
keys_of_tenant : String → Cache → List String
keys_of_tenant pk [] = []
keys_of_tenant pk ((k, (t, ts)) ∷ cache) =
    let rest = keys_of_tenant pk cache in if t.pk == pk then k ∷ rest else rest

delete_keys : List String → Cache → Cache
delete_keys [] cache = cache
delete_keys (k ∷ keys) cache = delete_keys keys (erase k cache)

pub cache_invalidate : Tenant → Cache → Cache
unfolding keys_of_tenant delete_keys
cache_invalidate tenant cache = delete_keys (keys_of_tenant tenant.pk cache) cache

unfoldable cache_clear : Cache → Cache
cache_clear cache = []
