-- ===== src/Tests/ResolveWitnesses.antt =====
-- The resolvers and their cache on the samples.
use django_boundary.Prelude.{
  ℕ, zero, suc, ◌+◌, ◌≤◌, String, ◌<>◌, ◌≡◌, ◌≢◌, ◌↔◌, ◌⊎◌, inl, inr, refl, sym, ap, ◌∙◌, Bool,
  true, false, not, ◌&&◌, ◌||◌, Option, none, some, List, [], ◌∷◌, ◌++◌, map, arith, ◌==◌,
  string_eq, nat_eq, if◌then◌else◌, Bool-cases, Option-cases, leb, contains, length, Distinct,
  Among, Among-append, ◌<◌,
}
use django_boundary.Checks.{Site, Imported, imported, model_found}
use django_boundary.Checks.Postures.{resolve_subdomain-check_subdomain_resolver}
use django_boundary.Conf.{resolver_cache_size, subdomain_parent_domain}
use django_boundary.Resolvers.{uncached, cached, resolve_subdomain}
use django_boundary.Prelude.Dict.{lookup, NodupKeys}
use django_boundary.Runtime.{Tenant, World, return}
use django_boundary.Runtime.Lookup.{found, does_not_exist}
use django_boundary.Runtime.Requests.{Request}
use django_boundary.Resolvers.Queries.{Services}
use django_boundary.Resolvers.Cache.{Cache}
use django_boundary.Resolvers.Cache.Eviction.{IsCached, cache_set-IsCached}
use django_boundary.Resolvers.Cached.{IsCacheValid, cached-eq-uncached, resolve_subdomain_zero}
use django_boundary.Resolvers.Host.{slug_for_configured_parent}
use django_boundary.Resolvers.Host.Labels.{IsUnderAny, slug_for_configured_parent_iff}
use django_boundary.Tests.InMemory.{Memory}
use django_boundary.Tests.{settings, settings_uncached, acme, brown, autocommit, world, request}

-- A full cache.
abbrev full : Cache
full = ("subdomain:brown", (brown, 90)) ∷ ("subdomain:acme", (acme, 95)) ∷ []

abbrev services : Services
services = record {
  get_field = λ field value. if value == "acme" then found acme else does_not_exist;
  get_pk = λ pk. does_not_exist;
  parse_uuid = λ text. none;
  decode_payload = λ text. none;
}

abbrev full_world : World Memory
full_world = record (world autocommit) { cache = full }

full-NodupKeys : NodupKeys full
unfolding lookup string_eq
full-NodupKeys = (refl, (refl, tt))

full-within : length full ≤ resolver_cache_size settings
unfolding resolver_cache_size
full-within = ground arith

roomy : 0 < resolver_cache_size settings
unfolding resolver_cache_size
roomy = ground arith

not_under : (slug : String) → ¬ IsUnderAny ("example.com" ∷ []) "acme.example.org" slug
unfolding slug_for_configured_parent string_eq django_boundary.Prelude.Text.split
    django_boundary.Prelude.nat_eq django_boundary.Prelude.Text.lower
not_under slug under =
    let e : none ≡ some slug =
      (slug_for_configured_parent_iff ("example.com" ∷ []) "acme.example.org" slug).1 under in
    absurd (ground (arith, e))

-- The full cache, written to.
rewritten : (c' : Cache) × IsCached settings 100 "subdomain:new" acme full c'
rewritten =
    cache_set-IsCached settings 100 "subdomain:new" acme full full-NodupKeys full-within roomy

acme_entry :
    (t : Tenant) (ts : ℕ) → lookup "subdomain:acme" full ≡ some (t, ts) → found acme ≡ found t
unfolding lookup string_eq
acme_entry t ts h = ground (arith, h)

cached-eq-uncached_example :
    ((cached settings "subdomain:acme" (found acme) full_world).0
      ≡ (uncached settings (found acme) full_world).0)
    × IsCacheValid settings (cached settings "subdomain:acme" (found acme) full_world).1
cached-eq-uncached_example =
    cached-eq-uncached settings "subdomain:acme" (found acme) full_world
      (record { nodup = full-NodupKeys; within = full-within }) roomy (acme_entry)

slug_for_configured_parent_iff_example :
    (slug_for_configured_parent "acme.example.com" ("example.com" ∷ []) ≡ some "acme")
    ↔ IsUnderAny ("example.com" ∷ []) "acme.example.com" "acme"
slug_for_configured_parent_iff_example =
    slug_for_configured_parent_iff ("example.com" ∷ []) "acme.example.com" "acme"

abbrev foreign_request : Request
foreign_request = record request { host = return "acme.example.org" }

resolve_subdomain_zero_example : ¬ (
    (t : Tenant) × ((resolve_subdomain settings_uncached services request (world autocommit)).0
      ≡ return (some t)))
unfolding resolver_cache_size
resolve_subdomain_zero_example =
    resolve_subdomain_zero settings_uncached services request (world autocommit)
      "acme.example.com:8000" refl refl refl

abbrev subdomain_class : Imported
subdomain_class = record {
  is_class = true;
  is_tenant_middleware = false;
  is_subdomain_resolver = true;
  is_client_controlled = false;
  is_regional_router = false;
}

abbrev site : Site
site = record {
  settings = settings;
  debug = false;
  middleware = [];
  installed_apps = [];
  database_routers = [];
  import_string = λ p. imported subdomain_class;
  get_model = λ p. model_found;
}

resolve_subdomain-check_subdomain_resolver_example :
    resolve_subdomain settings services foreign_request (world autocommit)
    ≡ (return none, world autocommit)
unfolding subdomain_parent_domain string_eq django_boundary.Conf.resolvers
    django_boundary.Checks.check_subdomain_resolver django_boundary.Prelude.Text.lower
    django_boundary.Prelude.Text.rstrip django_boundary.Prelude.Text.before nat_eq
resolve_subdomain-check_subdomain_resolver_example =
    resolve_subdomain-check_subdomain_resolver site "boundary.resolvers.SubdomainResolver"
      subdomain_class refl refl refl refl services foreign_request (world autocommit)
      "acme.example.org" refl (λ slug under. not_under slug under)
