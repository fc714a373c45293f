-- ===== src/Checks/Raises.antt =====
-- checks.py: a tenant model that is not installed ends all checks.
use django_boundary.Prelude.{
  String, ◌≡◌, refl, true, false, none, some, [], ◌∷◌, arith, string_eq, nat_eq, if◌then◌else◌,
  contains,
}
use django_boundary.Runtime.{return, raise, foreign}
use django_boundary.Conf.{or_text, is_truthy, resolve_tenant_model_setting, tenant_apps}
use django_boundary.Adoption.{refusal_reason}
use django_boundary.Checks.{check_tenant_model, e001_missing}
use django_boundary.Checks.Catalogue.{
  Deployment, site_of, project_of, names_tenant_model, rls_probe_targets, check_rls_enabled,
}
use django_boundary.Checks.Configuration.{extend_all, check_boundary_configuration}
use django_boundary.Checks.Expected.{expected_adopted_tables_missing}

module _ (d : Deployment) (dotted app_label : String)
    (named : resolve_tenant_model_setting d.settings ≡ some dotted)
    (well_formed : d.is_malformed dotted ≡ false) (missing : d.get_model_path dotted ≡ none)
    (postgresql : d.catalogue.vendor ≡ "postgresql")
    (listed : contains (tenant_apps d.settings) app_label ≡ true)
    (adoptable : refusal_reason d.apps app_label ≡ none) where
  tenant_model_named :
      (or_text d.settings.boundary_tenant_model d.settings.icv_tenant_model ≡ some dotted)
      × (names_tenant_model d.settings ≡ true)
  unfolding resolve_tenant_model_setting
  tenant_model_named = ground arith

  check_tenant_model_missing :
      (source_setting : String) × (check_tenant_model (site_of d)
        ≡ return (e001_missing source_setting dotted ∷ []))
  unfolding check_tenant_model
  check_tenant_model_missing = (
    (if is_truthy d.settings.boundary_tenant_model
        then "BOUNDARY_TENANT_MODEL"
        else "ICV_TENANT_MODEL"),
    ground (arith, tenant_model_named, well_formed, missing),
  )

  check_rls_enabled_missing : check_rls_enabled d ≡ raise (foreign "LookupError")
  unfolding check_rls_enabled rls_probe_targets
  check_rls_enabled_missing = ground (
    arith,
    tenant_model_named,
    expected_adopted_tables_missing (project_of d) dotted named well_formed missing app_label listed
        adoptable,
    postgresql,
  )

  -- On PostgreSQL, where the setting names a well-formed tenant model that is not installed, and a
  -- listed app of the adoption is not refused, `_check_tenant_model` reports E001 for it, but all
  -- checks together raise `LookupError`.
  pub check_boundary_configuration_missing :
      ((source_setting : String) × (check_tenant_model (site_of d)
          ≡ return (e001_missing source_setting dotted ∷ [])))
      × (check_boundary_configuration d ≡ raise (foreign "LookupError"))
  unfolding check_boundary_configuration extend_all
  check_boundary_configuration_missing =
      let (source_setting, reported) = check_tenant_model_missing in
      ((source_setting, reported), rw (reported, check_rls_enabled_missing) refl)
