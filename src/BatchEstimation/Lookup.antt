-- ===== src/BatchEstimation/Lookup.antt =====
-- adapters/integrations/batch_lookup.py: the workload of a prepared dataset, and the recommendation
-- that is looked up for it. The manifest is taken as it was parsed.
use clearml_yolo.Base.{
  ℕ, ◌≤◌, ◌<◌, ◌≡◌, refl, sym, Bool, true, false, ◌&&◌, not, List, [], ◌∷◌, String, ◌<>◌, show,
  keep, any, all, length, max, ltb, ◌==◌, Result, ok, err, value_error, raise_if, ◌>>=◌, ◌>>◌,
  arith, All, raise_if-eq-ok, >>=-eq-ok, ok-injective,
}
use mathlib.Core.Path.{subst}
use clearml_yolo.BatchEstimation.Model.{SyntheticWorkload, TrainingProfile, world_size}
use clearml_yolo.BatchEstimation.Case.{EstimateCatalogue}
use clearml_yolo.BatchEstimation.Reuse.{Payload}
use clearml_yolo.BatchEstimation.Recommend.{ResolvedRecommendation, select_recommendation}

pub data Split : Type 0 where
  train val test : Split

pub record ImageDensity : Type 0 where
  pub split : Split
  pub boxes : ℕ

pub record PreparedManifest : Type 0 where
  pub class_names : List (ℕ × String)
  pub images : List ImageDensity

-- `identifier in names`
abbrev pub has_class : List (ℕ × String) → ℕ → Bool
has_class names identifier = any (λ (entry : ℕ × String). entry.0 == identifier) names

-- `set(range(count)) <= set(names)`
unfoldable pub has_range : List (ℕ × String) → ℕ → Bool
has_range names ℕ.zero = true
has_range names (ℕ.suc count) = has_range names count && has_class names count

-- `class_identifiers`: the keys of the mapping are 0, 1, … without a gap.
unfoldable pub class_identifiers : PreparedManifest → Result PreparedManifest
unfolding has_range
class_identifiers manifest = do
  raise_if
      (not (
        has_range manifest.class_names (length manifest.class_names)
        && all (λ (entry : ℕ × String). ltb entry.0 (length manifest.class_names))
            manifest.class_names))
      (value_error "Prepared class identifiers must be contiguous and zero-based")
  ok manifest

abbrev pub is_relevant : ImageDensity → Bool
is_relevant image = elim image.split [ test ↦ false | _ ↦ true ]

-- `max(1, *values)`
abbrev pub densest : ℕ → List ImageDensity → ℕ
densest most [] = most
densest most (image ∷ images) = densest (max most image.boxes) images

-- `dataset_workload`
unfoldable pub dataset_workload : PreparedManifest → Result SyntheticWorkload
unfolding class_identifiers
dataset_workload prepared = do
  manifest ← class_identifiers prepared
  let relevant = keep is_relevant manifest.images
  raise_if (length relevant == 0)
      (value_error "Prepared dataset has no training or validation images")
  ok (record { classes = length manifest.class_names; objects_per_image = densest 1 relevant })

-- `resolve_batch_estimate`: a failed selection is reported with the command that fills the catalogue.
unfoldable pub resolve_batch_estimate :
    (Payload → String)
    → TrainingProfile
    → PreparedManifest
    → EstimateCatalogue
    → Result ResolvedRecommendation
unfolding dataset_workload
resolve_batch_estimate digest profile prepared catalogue = do
  workload ← dataset_workload prepared
  (elim (select_recommendation digest catalogue.cases profile workload) [
    | ok recommendation ↦ ok recommendation
    | err _ ↦ err (
        value_error (
          "No compatible validated training batch estimate. Run cy-batch-estimate --imgsz "
          <> show profile.nominal_size.height
          <> " --models "
          <> profile.model.selection
          <> " --classes "
          <> show workload.classes
          <> " --objects-per-image "
          <> show workload.objects_per_image
          <> " --gpu-counts "
          <> show (world_size profile)
          <> " using the assigned GPUs, or set an explicit training batch."))
  ])

densest_start : (most : ℕ) (images : List ImageDensity) → most ≤ densest most images
densest_start most [] = omega arith
densest_start most (image ∷ images) = omega (arith, densest_start (max most image.boxes) images)

densest-All :
    (most : ℕ) (images : List ImageDensity)
    → All (λ (image : ImageDensity). image.boxes ≤ densest most images) images
densest-All most [] = tt
densest-All most (image ∷ images) = (
  omega (arith, densest_start (max most image.boxes) images),
  densest-All (max most image.boxes) images,
)

identified_same :
    (prepared : PreparedManifest) {manifest : PreparedManifest}
    → class_identifiers prepared ≡ ok manifest
    → manifest ≡ prepared
unfolding class_identifiers
identified_same prepared e = ok-injective (sym (raise_if-eq-ok _ _ (ok prepared) e).1)

workload_of :
    (manifest : PreparedManifest) {workload : SyntheticWorkload}
    → (length (keep is_relevant manifest.images) == 0) ≡ false
    → ok (record {
      classes = length manifest.class_names;
      objects_per_image = densest 1 (keep is_relevant manifest.images);
    })
      ≡ ok workload
    → (workload.classes ≡ length manifest.class_names)
      × (0 < workload.objects_per_image)
      × (0 < length (keep is_relevant manifest.images))
      × All
          (λ (image : ImageDensity). image.boxes ≤ workload.objects_per_image)
          (keep is_relevant manifest.images)
workload_of manifest found built =
    let relevant = keep is_relevant manifest.images in
    subst
      (λ (w : SyntheticWorkload).
        (w.classes ≡ length manifest.class_names)
        × (0 < w.objects_per_image)
        × (0 < length relevant)
        × All (λ (image : ImageDensity). image.boxes ≤ w.objects_per_image) relevant)
      (ok-injective built)
      (refl, densest_start 1 relevant, ground (arith, found), densest-All 1 relevant)

-- The workload of a dataset has its number of classes and a positive density, which no training or
-- validation image exceeds; some image is of one of these splits.
pub dataset_workload-bounds :
    (prepared : PreparedManifest) {workload : SyntheticWorkload}
    → dataset_workload prepared ≡ ok workload
    → (workload.classes ≡ length prepared.class_names)
      × (0 < workload.objects_per_image)
      × (0 < length (keep is_relevant prepared.images))
      × All
          (λ (image : ImageDensity). image.boxes ≤ workload.objects_per_image)
          (keep is_relevant prepared.images)
unfolding dataset_workload
dataset_workload-bounds prepared {workload} e =
    let (manifest, identified, rest) = >>=-eq-ok (class_identifiers prepared) _ e in
    let same = identified_same prepared identified in
    let (found, built) = raise_if-eq-ok (length (keep is_relevant manifest.images) == 0) _ _ rest in
    subst
      (λ (m : PreparedManifest).
        (workload.classes ≡ length m.class_names)
        × (0 < workload.objects_per_image)
        × (0 < length (keep is_relevant m.images))
        × All (λ (image : ImageDensity). image.boxes ≤ workload.objects_per_image)
            (keep is_relevant m.images))
      same (workload_of manifest found built)
