-- ===== src/Resolvers/Cache/Eviction.antt =====
-- The cache never outgrows its size, and the entry that gives way is an oldest one.
use mathlib.Core.Path.{subst}
use django_boundary.Prelude.{
  ◌&&◌, not, leb, sym, ◌⊎◌, inl, inr, Bool-cases, false, true, ℕ, suc, ◌≤◌, ◌<◌, String, ◌≡◌, refl,
  [], ◌∷◌, arith, string_eq, length, if◌then◌else◌, some, ltb, none, ◌≢◌,
}
use django_boundary.Prelude.Dict.{
  lookup, insert, erase, has_key, length-erase, NodupKeys, insert-NodupKeys, lookup-insert,
  erase-NodupKeys, lookup-erase,
}
use django_boundary.Resolvers.Cache.{
  Entry, Cache, oldest_from, oldest_key, Tenant, Settings, resolver_cache_size, cache_set,
}

length-erase-has_key : (k : String) (c : Cache) → has_key k c ≡ true → length (erase k c) < length c
unfolding erase lookup
length-erase-has_key k [] h = cc
length-erase-has_key k (_ ∷ c) h = ground (arith, length-erase-has_key k c, length-erase k c)

length-insert :
    (k : String) (e : Entry) (c : Cache)
    → length (insert k e c) ≡ (if has_key k c then length c else suc (length c))
unfolding insert lookup
length-insert k e [] = refl
length-insert k e (_ ∷ c) = ground (arith, length-insert k e c)

-- No entry of the cache is older than `at`.
abbrev NoneBefore : ℕ → Cache → Type 0
NoneBefore at [] = Unit
NoneBefore at ((k, (t, ts)) ∷ c) = (at ≤ ts) × NoneBefore at c

NoneBefore-mono : (a b : ℕ) (c : Cache) → a ≤ b → NoneBefore b c → NoneBefore a c
NoneBefore-mono a b [] h n = tt
NoneBefore-mono a b ((k, (t, ts)) ∷ c) h (m, n) = (omega arith, NoneBefore-mono a b c h n)

-- The key of an entry than which none is older.
abbrev IsOldest : String → Cache → Type 0
IsOldest k c = (e : Entry) × (lookup k c ≡ some e) × NoneBefore e.1 c

-- What the search from `best`, cached at `at`, may answer over a cache.
abbrev Found : String → ℕ → Cache → String → Type 0
Found best at c k =
    ((k ≡ best) × NoneBefore at c)
    ⊎ ((e : Entry) × (lookup k c ≡ some e) × (e.1 ≤ at) × NoneBefore e.1 c)

module _ (best : String) (at : ℕ) (k : String) (t : Tenant) (ts : ℕ) (c : Cache) (r : String)
    (fresh : lookup k c ≡ none) where
  Found-older : ltb ts at ≡ true → Found k ts c r → Found best at ((k, (t, ts)) ∷ c) r
  unfolding lookup
  Found-older older (inl (same, none_before)) =
      inr ((t, ts), ground arith, ground arith, (ground arith, none_before))
  Found-older older (inr (e, found, le, none_before)) =
      inr (e, ground arith, ground arith, (ground arith, none_before))

  Found-newer : ltb ts at ≡ false → Found best at c r → Found best at ((k, (t, ts)) ∷ c) r
  unfolding lookup
  Found-newer newer (inl (same, none_before)) = inl (same, (ground arith, none_before))
  Found-newer newer (inr (e, found, le, none_before)) =
      inr (e, ground arith, ground arith, (ground arith, none_before))

oldest_from-Found :
    (best : String) (at : ℕ) (c : Cache) → NodupKeys c → Found best at c (oldest_from best at c)
unfolding oldest_from
oldest_from-Found best at [] u = inl (refl, tt)
oldest_from-Found best at ((k, (t, ts)) ∷ c) (fresh, u) = elim (Bool-cases (ltb ts at)) [
  | inl older ↦
      subst
        (λ b.
          Found best at ((k, (t, ts)) ∷ c)
            (oldest_from (if b then k else best) (if b then ts else at) c))
        (sym older) (Found-older best at k t ts c _ fresh older (oldest_from-Found k ts c u))
  | inr newer ↦
      subst
        (λ b.
          Found best at ((k, (t, ts)) ∷ c)
            (oldest_from (if b then k else best) (if b then ts else at) c))
        (sym newer) (Found-newer best at k t ts c _ fresh newer (oldest_from-Found best at c u))
]

oldest_key-IsOldest :
    (c : Cache) → NodupKeys c → (k : String) → oldest_key c ≡ some k → IsOldest k c
unfolding oldest_key lookup
oldest_key-IsOldest [] u k h = cc
oldest_key-IsOldest ((j, (t, ts)) ∷ c) (fresh, u) k h = elim (oldest_from-Found j ts c u) [
  | inl (same, none_before) ↦ ((t, ts), ground arith, (ground arith, none_before))
  | inr (e, found, le, none_before) ↦ (e, ground arith, (le, none_before))
]

oldest_key-some : (c : Cache) → 0 < length c → (k : String) × (oldest_key c ≡ some k)
unfolding oldest_key
oldest_key-some [] h = absurd (omega arith)
oldest_key-some ((j, (t, ts)) ∷ c) h = (_, refl)

-- What `_cache_set` promises: the new entry is there, the cache is within its size, and every other
-- entry is as it was, but for an oldest one that gave way in a full cache to a new key.
pub record IsCached (cfg : Settings) (now : ℕ) (key : String) (tenant : Tenant) (c c' : Cache)
    : Type 0 where
  pub stored : cache_set cfg now key tenant c ≡ some c'
  pub nodup : NodupKeys c'
  pub bounded : length c' ≤ resolver_cache_size cfg
  pub holds : lookup key c' ≡ some (tenant, now)
  pub others :
      (j : String)
      → (j ≡ key)
        ⊎ (lookup j c' ≡ lookup j c)
        ⊎ ((lookup j c' ≡ none)
            × IsOldest j c
            × (has_key key c ≡ false)
            × (length c ≡ resolver_cache_size cfg))

module _ (cfg : Settings) (now : ℕ) (key : String) (tenant : Tenant) (c : Cache) (u : NodupKeys c)
    (within : length c ≤ resolver_cache_size cfg) where
  cache_set_room :
      (leb (resolver_cache_size cfg) (length c) && not (has_key key c)) ≡ false
      → IsCached cfg now key tenant c (insert key (tenant, now) c)
  unfolding cache_set
  cache_set_room room = record {
    stored = ground arith;
    nodup = insert-NodupKeys key (tenant, now) c u;
    bounded = ground (arith, length-insert key (tenant, now) c);
    holds = ground (arith, lookup-insert key key (tenant, now) c);
    others = λ j. elim (string_eq.dec j key) [
      | yes same ↦ inl same
      | no other ↦ inr (inl (ground (arith, lookup-insert j key (tenant, now) c)))
    ];
  }

  cache_set_full_others :
      (oldest : String)
      → IsOldest oldest c
      → has_key key c ≡ false
      → length c ≡ resolver_cache_size cfg
      → (j : String) → j ≢ key
      → let c' = insert key (tenant, now) (erase oldest c) in
        (lookup j c' ≡ lookup j c)
        ⊎ ((lookup j c' ≡ none)
            × IsOldest j c
            × (has_key key c ≡ false)
            × (length c ≡ resolver_cache_size cfg))
  cache_set_full_others oldest is_oldest new at_size j other =
      let kept = lookup-insert j key (tenant, now) (erase oldest c) in
      elim (string_eq.dec j oldest) [
        | yes p ↦ inr (
          ground (arith, kept, lookup-erase j oldest c),
          subst (λ k. IsOldest k c) (sym p) is_oldest,
          new,
          at_size,
        )
        | no n ↦ inl (ground (arith, kept, lookup-erase j oldest c))
      ]

  cache_set_full :
      (oldest : String)
      → oldest_key c ≡ some oldest
      → (leb (resolver_cache_size cfg) (length c) && not (has_key key c)) ≡ true
      → IsCached cfg now key tenant c (insert key (tenant, now) (erase oldest c))
  unfolding cache_set
  cache_set_full oldest chosen full =
      let is_oldest = oldest_key-IsOldest c u oldest chosen in
      record {
        stored = ground arith;
        nodup = insert-NodupKeys key (tenant, now) (erase oldest c) (erase-NodupKeys oldest c u);
        bounded = ground (
          arith,
          is_oldest.1,
          length-insert key (tenant, now) (erase oldest c),
          length-erase-has_key oldest c,
        );
        holds = ground (arith, lookup-insert key key (tenant, now) (erase oldest c));
        others = λ j. elim (string_eq.dec j key) [
          | yes same ↦ inl same
          | no other ↦
              inr (cache_set_full_others oldest is_oldest (ground arith) (ground arith) j other)
        ];
      }

  pub cache_set-IsCached :
      0 < resolver_cache_size cfg → (c' : Cache) × IsCached cfg now key tenant c c'
  cache_set-IsCached roomy =
      elim (Bool-cases (leb (resolver_cache_size cfg) (length c) && not (has_key key c))) [
        | inl full ↦
            let (oldest, chosen) = oldest_key-some c (ground arith) in
            (_, cache_set_full oldest chosen full)
        | inr room ↦ (_, cache_set_room room)
      ]
