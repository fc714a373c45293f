-- ===== src/Checks/Postures.antt =====
-- checks.py: what the deployment does where the checks are silent.
use django_boundary.Resolvers.Queries.{Services}
use mathlib.Core.Path.{subst}
use django_boundary.Conf.{
  one, several, Settings, subdomain_parent_domain, resolvers, setting, strict_mode,
  set_db_session_var,
}
use django_boundary.Prelude.{
  String, ◌≡◌, ◌≢◌, ◌↔◌, inl, inr, Bool, true, false, none, List, [], ◌∷◌, arith, ◌==◌, string_eq,
  nat_eq, Bool-cases, Option-cases, contains,
}
use django_boundary.Prelude.Text.{lower, rstrip, before}
use django_boundary.Runtime.{return, World}
use django_boundary.Runtime.Requests.{Request}
use django_boundary.Resolvers.{resolve_subdomain}
use django_boundary.Resolvers.Host.{dot}
use django_boundary.Resolvers.Host.Labels.{IsUnderAny}
use django_boundary.Resolvers.Cached.{resolve_subdomain_foreign}
use django_boundary.Checks.{
  Import, Imported, imported, matching, check_subdomain_resolver, is_configured, Site,
  check_production_posture,
}
use django_boundary.Models.{Model, get_queryset, unfiltered}
use django_boundary.Models.Fields.{get_queryset-unfiltered}

-- With debugging off, `_check_production_posture` is silent exactly if strict mode is on and the session
-- variable is written; then a manager with no active tenant returns no rows.
pub check_production_posture_iff :
    (site : Site)
    → site.debug ≡ false
    → (check_production_posture site ≡ [])
      ↔ ((strict_mode site.settings ≡ true) × (set_db_session_var site.settings ≡ true))
unfolding check_production_posture
check_production_posture_iff site deployed = ground arith

-- With debugging off and `_check_production_posture` silent, the manager never returns all rows.
get_queryset-check_production_posture :
    (site : Site) {Db : Type 0} (model : Model) (w : World Db)
    → site.debug ≡ false
    → check_production_posture site ≡ []
    → (get_queryset site.settings model w).0 ≢ return unfiltered
get_queryset-check_production_posture site model w deployed silent = λ all_rows.
    let (_, lenient) = (get_queryset-unfiltered site.settings model w).0 all_rows in
    let (strict, _) = (check_production_posture_iff site deployed).0 silent in ground arith

matching-nil :
    (test : Imported → Bool) (import_string : String → Import) (paths : List String) (p : String)
    (c : Imported)
    → contains paths p ≡ true
    → import_string p ≡ imported c
    → test c ≡ true
    → matching test import_string paths ≢ return []
unfolding matching
matching-nil test import_string [] p c there found is_one = λ none_found. ground arith
matching-nil test import_string (q ∷ paths) p c there found is_one = λ none_found.
    elim (Bool-cases (p == q)) [
      | inl here ↦ let same : import_string q ≡ imported c = ground arith in ground arith
      | inr later ↦
          let rest = matching-nil test import_string paths p c (ground arith) found is_one in
          ground (arith, rest)
    ]

-- `BOUNDARY_SUBDOMAIN_PARENT_DOMAIN` as a list
abbrev pub parent_domains : Settings → List String
parent_domains cfg = setting (subdomain_parent_domain cfg) []

module _ (site : Site) (p : String) (c : Imported)
    (listed : contains (resolvers site.settings) p ≡ true)
    (found : site.import_string p ≡ imported c) (is_one : c.is_subdomain_resolver ≡ true)
    (silent : check_subdomain_resolver site ≡ return []) where
  configured : is_configured site.settings.boundary_subdomain_parent_domain ≡ true
  unfolding check_subdomain_resolver
  configured = elim (Bool-cases (is_configured site.settings.boundary_subdomain_parent_domain)) [
    | inl h ↦ h
    | inr h ↦
        let none_found =
          matching-nil (λ k. k.is_subdomain_resolver) site.import_string (resolvers site.settings) p
            c listed found is_one in
        absurd (ground (arith, none_found))
  ]

  unconfigured : subdomain_parent_domain site.settings ≢ none
  unfolding subdomain_parent_domain
  unconfigured = λ missing. elim (Option-cases site.settings.boundary_subdomain_parent_domain) [
    | inl unset ↦ ground (arith, configured)
    | inr (one value, e) ↦ ground arith
    | inr (several values, e) ↦ ground arith
  ]

  -- Where a resolver of the setting is imported as a subdomain resolver and
  -- `_check_subdomain_resolver_without_parent_domain` is silent, the subdomain resolver returns no
  -- tenant, and changes nothing, for a request whose host, without its port and a trailing dot and
  -- in lower case, is under none of the parent domains.
  pub resolve_subdomain-check_subdomain_resolver :
      (services : Services) {Db : Type 0} (request : Request) (w : World Db) (raw : String)
      → request.host ≡ return raw
      → ((slug : String)
          → ¬ IsUnderAny (parent_domains site.settings) (lower (rstrip dot (before b':' raw))) slug)
      → resolve_subdomain site.settings services request w ≡ (return none, w)
  resolve_subdomain-check_subdomain_resolver services request w raw sent foreign_host =
      elim (Option-cases (subdomain_parent_domain site.settings)) [
        | inl missing ↦ absurd (unconfigured missing)
        | inr (parents, e) ↦
            resolve_subdomain_foreign site.settings services request w raw sent parents e (λ slug.
              subst (λ o. ¬ IsUnderAny (setting o []) (lower (rstrip dot (before b':' raw))) slug) e
                (foreign_host slug))
      ]
