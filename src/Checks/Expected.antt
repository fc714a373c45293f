-- ===== src/Checks/Expected.antt =====
-- checks.py: the tables that are expected to be adopted, where the tenant model is not there.
use django_boundary.Prelude.{
  String, ◌≡◌, inl, inr, refl, true, false, none, some, List, [], ◌∷◌, map, arith, string_eq,
  nat_eq, Option-cases, contains,
}
use django_boundary.Conf.{resolve_tenant_model_setting, tenant_apps}
use django_boundary.Runtime.{raise, foreign}
use django_boundary.Adoption.{
  Project, get_tenant_model, tenant_model_label, adopted_models, refusal_reason, expected_from,
  expected_adopted_apps, expected_adopted_models,
}
use django_boundary.Checks.{is_improperly_configured, expected_adopted_tables}

module _ (project : Project) (dotted : String)
    (named : resolve_tenant_model_setting project.settings ≡ some dotted)
    (well_formed : project.is_malformed dotted ≡ false)
    (missing : project.get_model_path dotted ≡ none) where
  adopted_models_missing :
      (app_label : String)
      → adopted_models project project.apps [] app_label ≡ raise (foreign "LookupError")
  unfolding adopted_models tenant_model_label get_tenant_model
  adopted_models_missing app_label = ground arith

  expected_from_missing :
      (seen app_labels : List String) (app_label : String)
      → contains app_labels app_label ≡ true
      → refusal_reason project.apps app_label ≡ none
      → expected_from project seen
          (map (λ label. (label, refusal_reason project.apps label)) app_labels)
        ≡ raise (foreign "LookupError")
  unfolding expected_from
  expected_from_missing seen [] app_label there adoptable = absurd (ground arith)
  expected_from_missing seen (first ∷ app_labels) app_label there adoptable =
      elim (Option-cases (refusal_reason project.apps first)) [
        | inl open_to ↦ ground (arith, adopted_models_missing first)
        | inr (why, refused) ↦
            let later : contains app_labels app_label ≡ true = ground arith in
            ground (arith, expected_from_missing seen app_labels app_label later adoptable)
      ]

  expected_adopted_models_missing :
      (app_label : String)
      → contains (tenant_apps project.settings) app_label ≡ true
      → refusal_reason project.apps app_label ≡ none
      → expected_adopted_models project ≡ raise (foreign "LookupError")
  unfolding expected_adopted_models expected_adopted_apps
  expected_adopted_models_missing app_label =
      expected_from_missing [] (tenant_apps project.settings) app_label

  lookup_error_differs : is_improperly_configured (foreign "LookupError") ≡ false
  unfolding string_eq
  lookup_error_differs = refl

  -- Where the setting names a tenant model that is not installed, and an app of the setting of the
  -- adoption is not refused, `_expected_adopted_tables` raises `LookupError`.
  pub expected_adopted_tables_missing :
      (app_label : String)
      → contains (tenant_apps project.settings) app_label ≡ true
      → refusal_reason project.apps app_label ≡ none
      → expected_adopted_tables project ≡ raise (foreign "LookupError")
  unfolding expected_adopted_tables
  expected_adopted_tables_missing app_label listed adoptable =
      ground
        (arith, expected_adopted_models_missing app_label listed adoptable, lookup_error_differs)
