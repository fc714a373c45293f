-- ===== src/Adoption/Expected.antt =====
-- adoption.py: the models that the settings expect to be adopted, each once.
use django_boundary.Prelude.{
  String, ◌≡◌, refl, false, ◌&&◌, ◌||◌, List, [], ◌∷◌, ◌++◌, map, arith, string_eq, nat_eq,
  contains, Distinct, contains-append, Option, none, Option-cases, some, inl, inr,
}
use django_boundary.Adoption.{
  AppModel, model_label, unseen, Project, Result, refusal_reason, tenant_model_label, Refusal,
  return, adopted_models, expected_from, expected_adopted_models, expected_adopted_apps,
  tenant_apps,
}
use django_boundary.Runtime.{raise}

abbrev pub labels : List AppModel → List String
labels models = map model_label models

-- The models that are kept after the labels `seen` have labels of their own, which were not seen,
-- and the labels seen afterwards are those before with theirs, and those before with all.
module _ (l : String) where
  unseen-fresh :
      (seen : List String) (models : List AppModel)
      → (contains (labels (unseen seen models).0) l && contains seen l) ≡ false
  unfolding unseen
  unseen-fresh seen [] = refl
  unseen-fresh seen (model ∷ models) =
      ground (arith, unseen-fresh seen models, unseen-fresh (model_label model ∷ seen) models)

  unseen-kept :
      (seen : List String) (models : List AppModel)
      → contains (unseen seen models).1 l
        ≡ (contains seen l || contains (labels (unseen seen models).0) l)
  unfolding unseen
  unseen-kept seen [] = ground arith
  unseen-kept seen (model ∷ models) =
      ground (arith, unseen-kept seen models, unseen-kept (model_label model ∷ seen) models)

  unseen-all :
      (seen : List String) (models : List AppModel)
      → contains (unseen seen models).1 l ≡ (contains seen l || contains (labels models) l)
  unfolding unseen
  unseen-all seen [] = ground arith
  unseen-all seen (model ∷ models) =
      ground (arith, unseen-all seen models, unseen-all (model_label model ∷ seen) models)

unseen-Distinct :
    (seen : List String) (models : List AppModel) → Distinct (labels (unseen seen models).0)
unfolding unseen
unseen-Distinct seen [] = tt
unseen-Distinct seen (model ∷ models) =
    let label = model_label model in
    ground (
      arith,
      unseen-fresh label (label ∷ seen) models,
      unseen-Distinct seen models,
      unseen-Distinct (label ∷ seen) models,
    )

contains-labels :
    (xs ys : List AppModel) (l : String)
    → contains (labels (xs ++ ys)) l ≡ (contains (labels xs) l || contains (labels ys) l)
contains-labels [] ys l = refl
contains-labels (x ∷ xs) ys l = ground (arith, contains-labels xs ys l)

Distinct-labels :
    (xs ys : List AppModel)
    → Distinct (labels xs)
    → Distinct (labels ys)
    → ((l : String) → (contains (labels xs) l && contains (labels ys) l) ≡ false)
    → Distinct (labels (xs ++ ys))
Distinct-labels [] ys _ u _ = u
Distinct-labels (x ∷ xs) ys (fresh, rest) u apart = (
  ground (arith, contains-labels xs ys (model_label x), apart (model_label x)),
  Distinct-labels xs ys rest u (λ l. ground (arith, apart l)),
)

module _ (project : Project) where
  abbrev returned : Result (List AppModel) → List AppModel
  returned (raise _) = []
  returned (return models) = models

  -- The labels of the models that the adoption of an app covers; none of an app that is refused.
  abbrev covered_labels : String → List String
  covered_labels app_label = elim (refusal_reason project.apps app_label) [
    | some _ ↦ []
    | none ↦ labels (returned (adopted_models project project.apps [] app_label))
  ]

  abbrev pub all_covered_labels : List String → List String
  all_covered_labels [] = []
  all_covered_labels (app_label ∷ app_labels) =
      covered_labels app_label ++ all_covered_labels app_labels

  abbrev with_refusals : List String → List (String × Option Refusal)
  with_refusals app_labels =
      map (λ app_label. (app_label, refusal_reason project.apps app_label)) app_labels

  abbrev Covers : List String → List String → List AppModel → Type 0
  Covers seen app_labels models =
      Distinct (labels models)
      × ((l : String) → (contains (labels models) l && contains seen l) ≡ false)
      × ((l : String)
          → (contains seen l || contains (labels models) l)
            ≡ (contains seen l || contains (all_covered_labels app_labels) l))

  Covers-step :
      (seen : List String) (app_label : String) (app_labels : List String)
      (adopted models : List AppModel)
      → refusal_reason project.apps app_label ≡ none
      → adopted_models project project.apps [] app_label ≡ return adopted
      → Covers (unseen seen adopted).1 app_labels models
      → Covers seen (app_label ∷ app_labels) ((unseen seen adopted).0 ++ models)
  Covers-step seen app_label app_labels adopted models adoptable returns (distinct, fresh, covers) =
      let (kept, seen') = unseen seen adopted in
      (
        Distinct-labels kept models (unseen-Distinct seen adopted) distinct
            (λ l. ground (arith, fresh l, unseen-kept l seen adopted)),
        (λ l. ground (
          arith,
          contains-labels kept models l,
          fresh l,
          unseen-fresh l seen adopted,
          unseen-kept l seen adopted,
        )),
        λ l.
            let same : covered_labels app_label ≡ labels adopted = ground arith in
            let both = contains-append (labels adopted) (all_covered_labels app_labels) l in
            let parts = contains-labels kept models l in
            ground (arith, covers l, unseen-kept l seen adopted, unseen-all l seen adopted),
      )

  module _ (tenant_label : String)
      (resolves : tenant_model_label project ≡ return tenant_label) where
    adopted_models_returns :
        (app_label : String)
        → refusal_reason project.apps app_label ≡ none
        → (models : List AppModel) × (adopted_models project project.apps [] app_label
            ≡ return models)
    unfolding adopted_models refusal_reason
    adopted_models_returns app_label installed =
        elim (Option-cases (project.apps.get_models app_label)) [
          | inl missing ↦ absurd (ground arith)
          | inr (registered, has_app) ↦
              (returned (adopted_models project project.apps [] app_label), ground arith)
        ]

    expected_from-Covers :
        (seen app_labels : List String)
        → (models : List AppModel) × (expected_from project seen (with_refusals app_labels)
            ≡ return models)
          × Covers seen app_labels models
    unfolding expected_from
    expected_from-Covers seen [] = ([], refl, (tt, (λ l. refl), λ l. refl))
    expected_from-Covers seen (app_label ∷ app_labels) =
        elim (Option-cases (refusal_reason project.apps app_label)) [
          | inr (why, refused) ↦
              let (models, returns, (distinct, fresh, covers)) =
                expected_from-Covers seen app_labels in
              (models, ground arith, (distinct, fresh, λ l. ground (arith, covers l)))
          | inl adoptable ↦
              let adopted = adopted_models_returns app_label adoptable in
              let (kept, seen') = unseen seen adopted.0 in
              let (models, returns, (distinct, fresh, covers)) =
                expected_from-Covers seen' app_labels in
              (
                kept ++ models,
                ground arith,
                Covers-step seen app_label app_labels adopted.0 models adoptable adopted.1
                    (distinct, fresh, covers),
              )
        ]

-- Where the tenant model resolves, `expected_adopted_models` returns; no label stands twice in what
-- it returns, and the labels are exactly those of the models that `adopted_models` covers for the
-- apps of the setting that are not refused.
pub expected_adopted_models-Distinct :
    (project : Project) (tenant_label : String)
    → tenant_model_label project ≡ return tenant_label
    → (models : List AppModel) × (expected_adopted_models project ≡ return models)
      × Distinct (labels models)
      × ((l : String)
          → contains (labels models) l
            ≡ contains (all_covered_labels project (tenant_apps project.settings)) l)
unfolding expected_adopted_models expected_adopted_apps
expected_adopted_models-Distinct project tenant_label resolves =
    let (models, returns, (distinct, _, covers)) =
      expected_from-Covers project tenant_label resolves [] (tenant_apps project.settings) in
    (models, returns, distinct, covers)
