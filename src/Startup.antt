-- ===== src/Startup.antt =====
-- apps.py: the receivers that are connected at start-up, which keep the resolver cache from answering a
-- tenant that has been saved or deleted.
use django_boundary.Prelude.{
  ℕ, String, ◌≡◌, none, some, List, [], ◌∷◌, ◌++◌, arith, string_eq, nat_eq, Among,
}
use django_boundary.Prelude.Dict.{lookup, NodupKeys}
use django_boundary.Conf.{Settings, resolve_tenant_model_setting}
use django_boundary.Runtime.{Tenant, World}
use django_boundary.Runtime.Lookup.{Lookup}
use django_boundary.Resolvers.Cache.{cache_invalidate}
use django_boundary.Resolvers.Cache.Contents.{lookup-cache_invalidate}
use django_boundary.Resolvers.Cached.{cached_absent}
use django_boundary.Resolvers.{cached, settle}

pub data ModelSignal : Type 0 where
  post_save post_delete : ModelSignal

-- A receiver: its signal and its sender
abbrev Receiver : Type 0
Receiver = ModelSignal × String

-- `_connect_cache_invalidation_signals`, which is what `ready` does; without a tenant model it
-- connects nothing.
unfoldable pub connect_cache_invalidation_signals : Settings → List Receiver → List Receiver
connect_cache_invalidation_signals cfg receivers = elim (resolve_tenant_model_setting cfg) [
  | none ↦ receivers
  | some model_string ↦ receivers ++ (post_save, model_string) ∷ (post_delete, model_string) ∷ []
]

-- `_invalidate_on_save` and `_invalidate_on_delete`
unfoldable pub invalidate : {Db : Type 0} → Tenant → World Db → World Db
invalidate instance w = record w { cache = cache_invalidate instance w.cache }

-- Django's signals: a receiver that is connected to a signal of a sender is called once.
abbrev pub Dispatch : Type 0 → Type 0
Dispatch Db = List Receiver → Receiver → (World Db → World Db) → World Db → World Db

pub record IsDispatch {Db : Type 0} (dispatch : Dispatch Db) : Type 0 where
  pub calls :
      (receivers : List Receiver) (receiver : Receiver) (call : World Db → World Db) (w : World Db)
      → Among receiver receivers
      → dispatch receivers receiver call w ≡ call w

module _ (cfg : Settings) {Db : Type 0} (dispatch : Dispatch Db) (calls : IsDispatch dispatch)
    (model_string : String) (named : resolve_tenant_model_setting cfg ≡ some model_string) where
  connected :
      (signal : ModelSignal)
      → Among (signal, model_string) (connect_cache_invalidation_signals cfg [])
  unfolding connect_cache_invalidation_signals
  connected post_save = ground (arith, named)
  connected post_delete = ground (arith, named)

  -- Once the start-up has connected its receivers, where a tenant model is set and Django calls a
  -- connected receiver, a resolver whose cache, without a key twice, holds a tenant for its key asks
  -- its query again after a tenant of the same pk is saved or deleted, and answers as if nothing
  -- were cached.
  pub cached-invalidate :
      (signal : ModelSignal) (tenant t : Tenant) (key : String) (ts : ℕ) (query : Lookup Tenant)
      (w : World Db)
      → NodupKeys w.cache
      → lookup key w.cache ≡ some (t, ts)
      → t.pk ≡ tenant.pk
      → let w' =
          dispatch
            (connect_cache_invalidation_signals cfg [])
            (signal, model_string)
            (invalidate tenant)
            w in
        cached cfg key query w' ≡ settle cfg key query w'
  unfolding invalidate
  cached-invalidate signal tenant t key ts query w nodup held same =
      let sent =
        calls.calls (connect_cache_invalidation_signals cfg []) (signal, model_string)
          (invalidate tenant) w (connected signal) in
      rw sent (
        cached_absent cfg key query (invalidate tenant w)
          (ground (arith, lookup-cache_invalidate tenant key w.cache nodup, held, same)))
