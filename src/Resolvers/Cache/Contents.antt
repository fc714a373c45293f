-- ===== src/Resolvers/Cache/Contents.antt =====
-- What the cache answers after it was written, and after a tenant was invalidated.
use django_boundary.Prelude.{
  ℕ, ◌+◌, String, ◌≡◌, refl, Bool, false, Option, none, some, List, [], ◌∷◌, arith, ◌==◌, string_eq,
  ltb, contains, if◌then◌else◌, ◌⊎◌,
}
use django_boundary.Prelude.Dict.{lookup, erase, NodupKeys, lookup-erase}
use django_boundary.Conf.{Settings, resolver_cache_size, resolver_cache_ttl}
use django_boundary.Runtime.{Tenant}
use django_boundary.Resolvers.Cache.{
  Entry, Cache, cache_get, cache_set, keys_of_tenant, delete_keys, cache_invalidate,
}
use django_boundary.Resolvers.Cache.Eviction.{IsCached}

-- After `_cache_set` has kept its promise, the tenant that it cached is found at a later reading
-- until the time to live has passed, and not after.
pub cache_get-cache_set :
    (cfg : Settings) (now later : ℕ) (key : String) (tenant : Tenant) (c c' : Cache)
    → IsCached cfg now key tenant c c'
    → (cache_get cfg later key c').0
      ≡ (if ltb (now + resolver_cache_ttl cfg) later then none else some tenant)
unfolding cache_get
cache_get-cache_set cfg now later key tenant c c' h = ground (arith, h.holds)

-- A read deletes at most the entry that it found expired.
lookup-cache_get :
    (cfg : Settings) (now : ℕ) (key j : String) (c : Cache)
    → lookup j (cache_get cfg now key c).1 ≡ lookup j c
      ⊎ ((j ≡ key)
          × ((cache_get cfg now key c).0 ≡ none)
          × (lookup j (cache_get cfg now key c).1 ≡ none))
unfolding cache_get
lookup-cache_get cfg now key j c = ground (arith, lookup-erase j key c)

lookup-delete_keys :
    (j : String) (keys : List String) (c : Cache)
    → lookup j (delete_keys keys c) ≡ (if contains keys j then none else lookup j c)
unfolding delete_keys
lookup-delete_keys j [] c = refl
lookup-delete_keys j (k ∷ keys) c =
    ground (arith, lookup-delete_keys j keys (erase k c), lookup-erase j k c)

-- Whether an entry is one of a tenant's.
abbrev is_entry_of : String → Option Entry → Bool
is_entry_of pk none = false
is_entry_of pk (some (t, ts)) = t.pk == pk

contains-keys_of_tenant :
    (pk j : String) (c : Cache)
    → NodupKeys c
    → contains (keys_of_tenant pk c) j ≡ is_entry_of pk (lookup j c)
unfolding keys_of_tenant lookup
contains-keys_of_tenant pk j [] u = refl
contains-keys_of_tenant pk j ((k, (t, ts)) ∷ c) (fresh, u) =
    ground (arith, contains-keys_of_tenant pk j c u)

-- In a cache with one entry for a key at most, after invalidation no entry of the tenant is left,
-- and every other entry is as it was.
pub lookup-cache_invalidate :
    (tenant : Tenant) (j : String) (c : Cache)
    → NodupKeys c
    → lookup j (cache_invalidate tenant c)
      ≡ (if is_entry_of tenant.pk (lookup j c) then none else lookup j c)
unfolding cache_invalidate
lookup-cache_invalidate tenant j c u = ground (
  arith,
  contains-keys_of_tenant tenant.pk j c u,
  lookup-delete_keys j (keys_of_tenant tenant.pk c) c,
)

-- With a size of 0 an empty cache cannot be written: `min` of an empty dict raises.
pub cache_set_zero :
    (cfg : Settings) (now : ℕ) (key : String) (tenant : Tenant)
    → resolver_cache_size cfg ≡ 0
    → cache_set cfg now key tenant [] ≡ none
unfolding cache_set lookup
cache_set_zero cfg now key tenant h = ground arith
