-- ===== src/BatchEstimation/Recommend/Validation.antt =====
-- A recommendation that `select_recommendation` builds passes its own validator.
use mathlib.Core.Path.{subst}
use clearml_yolo.Base.{
  ℕ, suc, ◌*◌, ◌==◌, ◌≡◌, refl, sym, ap, ◌∙◌, true, false, not, some, List, [], ◌∷◌, String, all,
  map, All, All-map, all_iff, arith, length, ok, raise_if, ◌>>◌, texts_eq_iff, value_error, ==_iff,
}
use clearml_yolo.BatchEstimation.Model.{GpuHardware, SyntheticWorkload, TrainingProfile, world_size}
use clearml_yolo.BatchEstimation.Case.{EstimateCase, usable}
use clearml_yolo.BatchEstimation.Reuse.{hardware, hardware_of, least, Payload}
use clearml_yolo.BatchEstimation.Reuse.Compatibility.{IsReusable}
use clearml_yolo.BatchEstimation.Recommend.{
  Origin, measured, extrapolated, distinct, only, is_single_source, capacity_or_zero, min_list,
  source_hardware, same_hardware, statuses_of, is_exact, capacities, keys_of,
  extrapolation_evidence, source_evidence, resolved, recommendation,
}
use clearml_yolo.BatchEstimation.Recommend.Hardware.{distinct_idem, distinct-same_hardware}
use clearml_yolo.BatchEstimation.Recommend.Sources.{
  HasCapacity, capacities_of, statuses_eq_refl, reusable_alone, source_gpus, is_single_source_of,
}
use clearml_yolo.BatchEstimation.Recommend.Found.{IsSource, source_first}

length-hardware_of : (gpus : List GpuHardware) → length (hardware_of gpus) ≡ length gpus
length-hardware_of [] = refl
length-hardware_of (gpu ∷ gpus) = ap suc (length-hardware_of gpus)

same_world :
    (profile : TrainingProfile) (workload : SyntheticWorkload) (source : EstimateCase)
    → IsReusable profile workload source
    → world_size source.profile ≡ world_size profile
same_world profile workload source r =
    sym (length-hardware_of source.profile.gpus)
    ∙ ap length (source_gpus profile workload source r)
    ∙ length-hardware_of profile.gpus

length-source_hardware :
    (profile : TrainingProfile) (workload : SyntheticWorkload) (sources : List EstimateCase)
    → All (IsSource profile workload) sources
    → length (source_hardware sources) ≡ length sources
length-source_hardware profile workload [] h = refl
length-source_hardware profile workload (source ∷ sources) ((gpu, _, r, _), h) =
    ap length (
      source_first source sources (hardware gpu) (source_gpus (only profile gpu) workload source r))
    ∙ ap suc (length-source_hardware profile workload sources h)

same_product : (w c w' : ℕ) → w' ≡ w → (w * c == c * w') ≡ true
same_product w c w' e = (==_iff (w * c) (c * w')).1 (omega (arith, ap (c *◌) e))

module _ (digest : Payload → String) where
  -- The checks that do not depend on the origin hold of what is built.
  built_passes :
      (profile : TrainingProfile) (sources : List EstimateCase) (origin : Origin) (capacity : ℕ)
      → (let r = resolved digest profile sources origin capacity in
          source_evidence digest r ≡ elim origin [
            | measured ↦
                raise_if
                  (not (is_exact r))
                  (value_error "Measured recommendation requires exact-allocation evidence")
                >> ok r
            | extrapolated ↦ extrapolation_evidence digest r
          ])
  unfolding source_evidence
  built_passes profile sources origin capacity =
      let keys = (texts_eq_iff (keys_of digest sources) (keys_of digest sources)).1 refl in
      ground (arith, keys, statuses_eq_refl (statuses_of sources))

  recommendation_of :
      (profile : TrainingProfile) (sources : List EstimateCase) (origin : Origin) {found : List ℕ}
      {c : ℕ}
      → capacities sources ≡ ok found
      → min_list found ≡ some c
      → recommendation digest profile sources origin
        ≡ source_evidence digest (resolved digest profile sources origin c)
  unfolding recommendation
  recommendation_of profile sources origin e m = cc (e, m)

  exact_of :
      (profile : TrainingProfile) (workload : SyntheticWorkload) (source : EstimateCase) (c : ℕ)
      → IsReusable profile workload source
      → source.global_batch ≡ some (c * world_size source.profile)
      → is_exact (resolved digest profile (source ∷ []) measured c) ≡ true
  unfolding is_exact
  exact_of profile workload source c r global =
      let ranks = same_world profile workload source r in
      rw
        (
          is_exact,
          reusable_alone profile workload source r,
          global,
          same_product (world_size profile) c (world_size source.profile) ranks,
        )
        refl

  -- One exact source passes.
  pub measured_passes :
      (profile : TrainingProfile) (workload : SyntheticWorkload) (source : EstimateCase)
      → IsReusable profile workload source
      → HasCapacity source
      → (c : ℕ) × (recommendation digest profile (source ∷ []) measured
          ≡ ok (resolved digest profile (source ∷ []) measured c))
  measured_passes profile workload source r (c, per_gpu, global) =
      let found = capacities_of (source ∷ []) ((r.is_usable, (c, per_gpu, global)), tt) in
      let exact = exact_of profile workload source c r global in
      (
        c,
        recommendation_of profile (source ∷ []) measured found (rw per_gpu refl)
            ∙ built_passes profile (source ∷ []) measured c
            ∙ rw exact refl,
      )

  usable_sources :
      (profile : TrainingProfile) (workload : SyntheticWorkload) (sources : List EstimateCase)
      → All (IsSource profile workload) sources
      → All (λ source. (usable source ≡ true) × HasCapacity source) sources
  usable_sources profile workload sources =
      All-map (λ source (gpu, _, r, has). (r.is_usable, has)) sources

  single_passes :
      (profile : TrainingProfile) (workload : SyntheticWorkload) (sources : List EstimateCase)
      → All (IsSource profile workload) sources
      → all (is_single_source profile) sources ≡ true
  single_passes profile workload sources each = (all_iff (is_single_source profile) sources).1 (
      All-map
        (λ source (gpu, present, r, _). is_single_source_of profile workload gpu source present r)
        sources each)

  groups_pass :
      (profile : TrainingProfile) (workload : SyntheticWorkload) (sources : List EstimateCase)
      → source_hardware sources ≡ distinct [] (map hardware profile.gpus)
      → All (IsSource profile workload) sources
      → (same_hardware (source_hardware sources) (map hardware profile.gpus) ≡ true)
        × (length (distinct [] (source_hardware sources)) ≡ length sources)
  groups_pass profile workload sources same each =
      let target = map hardware profile.gpus in
      (
        subst (λ xs. same_hardware xs target ≡ true) (sym same) (distinct-same_hardware target),
        ap (λ xs. length (distinct [] xs)) same
            ∙ ap length (distinct_idem [] target)
            ∙ sym (ap length same)
            ∙ length-source_hardware profile workload sources each,
      )

  -- One source for each kind of hardware passes.
  pub extrapolated_passes :
      (profile : TrainingProfile) (workload : SyntheticWorkload) (sources : List EstimateCase)
      {c : ℕ}
      → (world_size profile == 1) ≡ false
      → source_hardware sources ≡ distinct [] (map hardware profile.gpus)
      → All (IsSource profile workload) sources
      → min_list (map capacity_or_zero sources) ≡ some c
      → recommendation digest profile sources extrapolated
        ≡ ok (resolved digest profile sources extrapolated c)
  unfolding extrapolation_evidence
  extrapolated_passes profile workload sources {c = c} many same each least =
      let found = capacities_of sources (usable_sources profile workload sources each) in
      let (hardware_fits, groups) = groups_pass profile workload sources same each in
      let singles = single_passes profile workload sources each in
      recommendation_of profile sources extrapolated found least
      ∙ built_passes profile sources extrapolated _
      ∙ rw
          (
            extrapolation_evidence,
            many,
            hardware_fits,
            (==_iff _ _).1 groups,
            singles,
            least,
            (==_iff c c).1 refl,
          )
          refl
