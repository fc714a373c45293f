-- ===== src/Checks/Configuration.antt =====
-- checks.py: `check_boundary_configuration`, which runs every check.
use django_boundary.Prelude.{List, [], ◌∷◌, ◌++◌}
use django_boundary.Runtime.{Result, return, raise}
use django_boundary.Checks.{
  Message, check_tenant_model, check_resolvers, check_middleware, check_strict_mode,
  check_production_posture, check_external_double_resolve, check_client_controlled,
  check_regional_router_configured, check_subdomain_resolver,
}
use django_boundary.Checks.Catalogue.{
  Deployment, site_of, check_rls_enabled, check_db_session_var_disabled, check_rls_bypassable,
}
use django_boundary.Checks.Adopted.{check_adopted_tables}

-- `errors.extend(...)` of each check in turn; the first that raises ends it.
unfoldable pub extend_all : List (Result (List Message)) → Result (List Message)
extend_all [] = return []
extend_all (raise e ∷ checks) = raise e
extend_all (return messages ∷ checks) = elim (extend_all checks) [
  | raise e ↦ raise e
  | return rest ↦ return (messages ++ rest)
]

abbrev pub checks_of : Deployment → List (Result (List Message))
checks_of d =
    let site = site_of d in
    check_tenant_model site
    ∷ return (check_resolvers site)
    ∷ return (check_middleware site)
    ∷ return (check_strict_mode site)
    ∷ return (check_production_posture site)
    ∷ check_rls_enabled d
    ∷ return (check_external_double_resolve site)
    ∷ return (check_rls_bypassable d)
    ∷ check_client_controlled site
    ∷ return (check_regional_router_configured site)
    ∷ check_subdomain_resolver site
    ∷ check_db_session_var_disabled d
    ∷ check_adopted_tables d
    ∷ []

unfoldable pub check_boundary_configuration : Deployment → Result (List Message)
unfolding extend_all
check_boundary_configuration d = extend_all (checks_of d)
