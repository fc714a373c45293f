-- ===== src/Adoption/Covered.antt =====
-- adoption.py: the models that an adoption covers are the registered ones that nothing exempts.
use django_boundary.Prelude.{
  contains-append, String, ◌≡◌, ◌↔◌, inl, inr, Bool, true, false, none, some, List, [], ◌∷◌, ◌++◌,
  arith, string_eq, nat_eq, Bool-cases, contains, Among,
}
use django_boundary.Runtime.{return}
use django_boundary.Conf.{adopt_exclude}
use django_boundary.Adoption.{
  tenant_model_label, tenant_through_labels, AppModel, filter_models, is_adopted, Project, Apps,
  adopted_models, ◌∷◌, model_label, is_already_scoped, refusal_reason_for_model,
}

-- A filter keeps the models that pass.
pub Among-filter_models :
    (p : AppModel → Bool) (m : AppModel) (models : List AppModel)
    → Among m (filter_models p models) ↔ (Among m models × (p m ≡ true))
unfolding filter_models
Among-filter_models p m [] = ground arith
Among-filter_models p m (x ∷ models) = elim (Bool-cases (p x)) [
  | inl kept ↦ ground (arith, Among-filter_models p m models)
  | inr left ↦ ground (arith, Among-filter_models p m models)
]

module _ (project : Project) where
  -- No exemption holds of the model: no exclusion, no refusal, and no scope of its own.
  abbrev pub IsAdoptable :
      (exclude : List String) (tenant_label : String) (through_labels : List String)
      → AppModel
      → Type 0
  IsAdoptable exclude tenant_label through_labels model =
      (model.abstract ≡ false)
      × (model.proxy ≡ false)
      × (contains (adopt_exclude project.settings) (model_label model) ≡ false)
      × (contains exclude (model_label model) ≡ false)
      × (contains through_labels (model_label model) ≡ false)
      × (is_already_scoped project model ≡ false)
      × (refusal_reason_for_model project (some tenant_label) model ≡ return none)

  is_adopted_iff :
      (exclude : List String) (tenant_label : String) (through_labels : List String)
      (model : AppModel)
      → (is_adopted project
            (adopt_exclude project.settings ++ exclude)
            tenant_label
            through_labels
            model
          ≡ true)
        ↔ IsAdoptable exclude tenant_label through_labels model
  unfolding is_adopted refusal_reason_for_model
  is_adopted_iff exclude tenant_label through_labels model =
      ground (arith, contains-append (adopt_exclude project.settings) exclude (model_label model))

  -- Where the tenant model resolves and the app is registered, `adopted_models` returns exactly the
  -- registered models of the app that are neither abstract nor proxies, are excluded neither by the
  -- setting nor by the caller, are no auto-created through model of the tenant model, have no tenant
  -- scope of their own, and are refused by no per-model rule.
  pub Among-adopted_models :
      (apps : Apps) (exclude : List String) (app_label tenant_label : String)
      (registered : List AppModel)
      → tenant_model_label project ≡ return tenant_label
      → apps.get_models app_label ≡ some registered
      → (models : List AppModel) × (adopted_models project apps exclude app_label ≡ return models)
        × ((m : AppModel)
            → Among m models ↔ (
                Among m registered
                × IsAdoptable exclude tenant_label (tenant_through_labels apps tenant_label) m))
  unfolding adopted_models
  Among-adopted_models apps exclude app_label tenant_label registered resolves has_app =
      let through_labels = tenant_through_labels apps tenant_label in
      let p =
        is_adopted project (adopt_exclude project.settings ++ exclude) tenant_label
          through_labels in
      (
        filter_models p registered,
        ground arith,
        λ m.
            let kept = Among-filter_models p m registered in
            let passes = is_adopted_iff exclude tenant_label through_labels m in
            ((λ h. ((kept.0 h).0, passes.0 (kept.0 h).1)), λ h. kept.1 (h.0, passes.1 h.1)),
      )
