-- ===== src/Tests/StartupWitnesses.antt =====
-- The receivers of the start-up, on the samples.
use django_boundary.Conf.{resolve_tenant_model_setting}
use django_boundary.Prelude.Dict.{lookup}
use django_boundary.Runtime.{World, Tenant}
use django_boundary.Runtime.Lookup.{Lookup, does_not_exist}
use django_boundary.Resolvers.{cached, settle}
use django_boundary.Startup.{
  Dispatch, IsDispatch, connect_cache_invalidation_signals, invalidate, cached-invalidate,
  post_save,
}
use django_boundary.Tests.{settings, acme, brown, world, autocommit}
use django_boundary.Tests.InMemory.{Memory}
use django_boundary.Prelude.{◌≡◌, refl, [], ◌∷◌, string_eq, nat_eq}

-- Django's signals: every receiver is called.
abbrev calling : Dispatch Memory
calling receivers receiver call w = call w

calling-IsDispatch : IsDispatch calling
calling-IsDispatch = record { calls = λ receivers receiver call w among. refl }

abbrev filled : World Memory
filled = record (world autocommit) {
  cache = ("slug:acme", (acme, 90)) ∷ ("slug:brown", (brown, 95)) ∷ [];
}

abbrev finds_none : Lookup Tenant
finds_none = does_not_exist

cached-invalidate_example :
    let w' =
      calling
        (connect_cache_invalidation_signals settings [])
        (post_save, "shop.Merchant")
        (invalidate acme)
        filled in
    cached settings "slug:acme" finds_none w' ≡ settle settings "slug:acme" finds_none w'
unfolding resolve_tenant_model_setting lookup string_eq
cached-invalidate_example =
    cached-invalidate settings calling calling-IsDispatch "shop.Merchant" refl post_save acme acme
      "slug:acme" 90 finds_none filled (refl, (refl, tt)) refl refl
