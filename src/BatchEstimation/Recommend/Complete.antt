-- ===== src/BatchEstimation/Recommend/Complete.antt =====
-- `select_recommendation` succeeds whenever there is evidence for the allocation or for each GPU.
use mathlib.Core.Path.{subst}
use clearml_yolo.Base.{
  All-keep, keep_passes, keep_empty, ◌<◌, ℕ, ◌*◌, ◌==◌, ◌≡◌, refl, sym, ap, ◌∙◌, ◌⊎◌, inl, inr,
  true, false, some, List, [], ◌∷◌, String, map, keep, All, All-map, All-none, arith, Bool-cases,
  length, ok,
}
use clearml_yolo.BatchEstimation.Model.{GpuHardware, SyntheticWorkload, TrainingProfile, world_size}
use clearml_yolo.BatchEstimation.Case.{EstimateCase}
use clearml_yolo.BatchEstimation.Reuse.{
  hardware, is_empty, is_compatible, least, select_estimate, Payload,
}
use clearml_yolo.BatchEstimation.Reuse.Compatibility.{IsReusable}
use clearml_yolo.BatchEstimation.Reuse.Selection.{is_compatible_of, IsReusable-of}
use clearml_yolo.BatchEstimation.Recommend.{
  measured, extrapolated, ResolvedRecommendation, has_hardware, distinct, only, capacity_or_zero,
  min_list, source_hardware, single_sources, recommendation, select_recommendation,
}
use clearml_yolo.BatchEstimation.Recommend.Hardware.{hardware_same_refl, distinct_new}
use clearml_yolo.BatchEstimation.Recommend.Found.{
  IsBackedUp, HasEvidence, select_found, single_sources-found,
}
use clearml_yolo.BatchEstimation.Recommend.Validation.{measured_passes, extrapolated_passes}

-- The recommendation is for the profile, and gives each GPU the same batch.
abbrev pub IsEven : TrainingProfile → ResolvedRecommendation → Type 0
IsEven profile r = (r.profile ≡ profile) × (r.global_batch ≡ world_size profile * r.per_gpu_batch)

only_gpu :
    (profile : TrainingProfile)
    → (world_size profile == 1) ≡ true
    → (gpu : GpuHardware) × (profile.gpus ≡ gpu ∷ [])
only_gpu profile h = single profile.gpus h
  where
    single :
        (gpus : List GpuHardware)
        → (length gpus == 1) ≡ true
        → (gpu : GpuHardware) × (gpus ≡ gpu ∷ [])
    single [] h = cc
    single (gpu ∷ []) h = (gpu, refl)
    single (gpu ∷ other ∷ gpus) h = ground arith

min_list_total :
    (profile : TrainingProfile) (sources : List EstimateCase)
    → 0 < world_size profile
    → source_hardware sources ≡ distinct [] (map hardware profile.gpus)
    → (c : ℕ) × (min_list (map capacity_or_zero sources) ≡ some c)
min_list_total profile (source ∷ sources) h same = (_, refl)
min_list_total profile [] h same = absurd (go profile.gpus h same)
  where
    go : (gpus : List GpuHardware) → 0 < length gpus → [] ≡ distinct [] (map hardware gpus) → ⊥
    go [] h e = omega (arith, h)
    go (gpu ∷ gpus) h e = cc (distinct_new [] (map hardware gpus) (hardware gpu) refl)

All-present :
    (gpus : List GpuHardware)
    → All (λ gpu. has_hardware (hardware gpu) (map hardware gpus) ≡ true) gpus
All-present [] = tt
All-present (gpu ∷ gpus) = (
  ground (arith, hardware_same_refl (hardware gpu)),
  All-map (λ other h. ground (arith, h)) gpus (All-present gpus),
)

empty_of : (xs : List EstimateCase) → is_empty xs ≡ true → xs ≡ []
empty_of [] h = refl
empty_of (x ∷ xs) h = cc

module _ (digest : Payload → String) (cases : List EstimateCase) (profile : TrainingProfile)
    (workload : SyntheticWorkload) where
  not_exact :
      is_empty (keep (is_compatible profile workload) cases) ≡ true
      → HasEvidence cases workload profile
      → ⊥
  not_exact none_kept = All-none (IsReusable profile workload) cases (
      All-map (λ case h r. cc (h, is_compatible_of profile workload case r)) cases
        (keep_empty (is_compatible profile workload) cases (empty_of _ none_kept)))

  -- The first of the kept cases is evidence.
  evidence_of :
      (kept : List EstimateCase)
      → All (λ case. is_compatible profile workload case ≡ true) kept
      → is_empty kept ≡ false
      → HasEvidence kept workload profile
  evidence_of [] h e = cc
  evidence_of (case ∷ kept) h e = inl (IsReusable-of profile workload case h.0)

  select_measured :
      {best : EstimateCase}
      → is_empty (keep (is_compatible profile workload) cases) ≡ false
      → select_estimate (keep (is_compatible profile workload) cases) profile workload ≡ ok best
      → select_recommendation digest cases profile workload
        ≡ recommendation digest profile (best ∷ []) measured
  unfolding select_recommendation
  select_measured found chosen = cc (found, chosen)

  measured_case :
      All IsBackedUp cases
      → is_empty (keep (is_compatible profile workload) cases) ≡ false
      → (r : ResolvedRecommendation) × (select_recommendation digest cases profile workload ≡ ok r)
        × IsEven profile r
  measured_case backed found =
      let exact = keep (is_compatible profile workload) cases in
      let evidence = evidence_of exact (keep_passes (is_compatible profile workload) cases) found in
      let (best, chosen, reusable, has) =
        select_found exact profile workload
          (All-keep IsBackedUp (is_compatible profile workload) cases backed) evidence in
      let (c, e) = measured_passes digest profile workload best reusable has in
      (_, select_measured found chosen ∙ e, (refl, refl))

  select_extrapolated :
      {sources : List EstimateCase}
      → is_empty (keep (is_compatible profile workload) cases) ≡ true
      → single_sources cases profile workload [] profile.gpus ≡ ok sources
      → select_recommendation digest cases profile workload
        ≡ recommendation digest profile sources extrapolated
  unfolding select_recommendation
  select_extrapolated none_kept found = cc (none_kept, found)

  several :
      is_empty (keep (is_compatible profile workload) cases) ≡ true
      → All (λ gpu. HasEvidence cases workload (only profile gpu)) profile.gpus
      → (world_size profile == 1) ≡ false
  several none_kept evidence = elim (Bool-cases (world_size profile == 1)) [
    | inl one ↦
        let (gpu, e) = only_gpu profile one in
        absurd (
          not_exact none_kept (
            subst (HasEvidence cases workload) (ap (λ gpus. record profile { gpus = gpus }) (sym e))
              (subst (All (λ gpu. HasEvidence cases workload (only profile gpu))) e evidence).0))
    | inr more ↦ more
  ]

  extrapolated_case :
      All IsBackedUp cases
      → 0 < world_size profile
      → is_empty (keep (is_compatible profile workload) cases) ≡ true
      → All (λ gpu. HasEvidence cases workload (only profile gpu)) profile.gpus
      → (r : ResolvedRecommendation) × (select_recommendation digest cases profile workload ≡ ok r)
        × IsEven profile r
  extrapolated_case backed ranks none_kept evidence =
      let (sources, found, same, each) =
        single_sources-found cases profile workload backed [] profile.gpus evidence
          (All-present profile.gpus) in
      let (c, least) = min_list_total profile sources ranks same in
      let e =
        extrapolated_passes digest profile workload sources (several none_kept evidence) same each
          least in
      (_, select_extrapolated none_kept found ∙ e, (refl, refl))

  -- If the usable ones among the cases recommend a capacity, the profile has a GPU, and some case is
  -- reusable for the profile, or for each of its GPUs alone, then a recommendation is returned; it
  -- is for the profile and gives each GPU the same batch.
  pub select_recommendation-IsEven :
      All IsBackedUp cases
      → 0 < world_size profile
      → HasEvidence cases workload profile
        ⊎ All (λ gpu. HasEvidence cases workload (only profile gpu)) profile.gpus
      → (r : ResolvedRecommendation) × (select_recommendation digest cases profile workload ≡ ok r)
        × IsEven profile r
  select_recommendation-IsEven backed ranks evidence =
      elim (Bool-cases (is_empty (keep (is_compatible profile workload) cases))) [
        | inr found ↦ measured_case backed found
        | inl none_kept ↦ elim evidence [
          | inl exact ↦ absurd (not_exact none_kept exact)
          | inr single ↦ extrapolated_case backed ranks none_kept single
        ]
      ]
