-- ===== src/BatchEstimation/Search/Trials/Evidence.antt =====
-- A trial counts as a success exactly when its evidence is complete and within the budget.
use clearml_yolo.Base.{
  ap, ℕ, ◌≤◌, ◌<◌, ◌≡◌, refl, ◌↔◌, true, false, some, List, [], ◌∷◌, String, all, All, length,
  arith, texts_eq_iff, ltb,
}
use clearml_yolo.BatchEstimation.Model.{
  Float, success, TrialStatus, TrialResult, TrainingProfile, SearchSettings, GpuHardware,
  world_size,
}
use clearml_yolo.BatchEstimation.Search.Trials.{over_budget, trial_observation, judge}

all-All_pos :
    (peaks : List ℕ) → (all (λ peak. ltb 0 peak) peaks ≡ true) ↔ All (λ peak. 0 < peak) peaks
all-All_pos peaks = (sound peaks, complete peaks)
  where
    sound : (peaks : List ℕ) → all (λ peak. ltb 0 peak) peaks ≡ true → All (λ peak. 0 < peak) peaks
    sound [] h = tt
    sound (p ∷ ps) h = ground (arith, sound ps)

    complete :
        (peaks : List ℕ) → All (λ peak. 0 < peak) peaks → all (λ peak. ltb 0 peak) peaks ≡ true
    complete [] h = refl
    complete (p ∷ ps) h = ground (arith, complete ps)

module _ (int_mul : ℕ → Float → ℕ) where
  -- Each rank's peak is at most the budget of its GPU.
  abbrev pub IsWithinBudget : Float → List ℕ → List GpuHardware → Type 0
  IsWithinBudget fraction (peak ∷ peaks) (gpu ∷ gpus) =
      (peak ≤ int_mul gpu.total_memory_bytes fraction) × IsWithinBudget fraction peaks gpus
  IsWithinBudget fraction [] _ = Unit
  IsWithinBudget fraction _ [] = Unit

  over_budget-IsWithinBudget :
      (fraction : Float) (peaks : List ℕ) (gpus : List GpuHardware)
      → (over_budget int_mul fraction peaks gpus ≡ false) ↔ IsWithinBudget fraction peaks gpus
  unfolding over_budget
  over_budget-IsWithinBudget fraction [] gpus = (λ _. tt, λ _. refl)
  over_budget-IsWithinBudget fraction (p ∷ ps) [] = (λ _. tt, λ _. refl)
  over_budget-IsWithinBudget fraction (p ∷ ps) (g ∷ gs) =
      let (sound, complete) = over_budget-IsWithinBudget fraction ps gs in
      (λ h. ground (arith, sound), λ h. ground (arith, complete))

  module _ (trial : TrialResult) (profile : TrainingProfile) (settings : SearchSettings) where
    pub record IsEvidenced : Type 0 where
      pub reported : trial.status ≡ success
      pub ran_requested_batch : trial.actual_global_batch ≡ some trial.global_batch
      pub peak_per_rank : length trial.peak_memory_bytes ≡ world_size profile
      pub peaks_positive : All (λ peak. 0 < peak) trial.peak_memory_bytes
      pub warmed_up : settings.warmup_steps ≤ trial.warmup_steps
      pub steps_measured : settings.measured_steps ≤ trial.measured_steps
      pub validation_ran : 0 < trial.validation_steps
      pub every_optimizer : trial.optimizer_paths ≡ profile.optimizers
      pub within_budget :
          IsWithinBudget settings.memory_fraction trial.peak_memory_bytes profile.gpus

    -- What `judge` says of a status other than success is never success.
    reported_of_success :
        (trial_observation int_mul trial profile settings).0 ≡ success → trial.status ≡ success
    unfolding trial_observation
    reported_of_success h = go trial.status refl h
      where
        go :
            (st : TrialStatus)
            → trial.status ≡ st
            → (judge int_mul st trial profile settings).0 ≡ success
            → trial.status ≡ success
        go success e k = e
        go _ e k = ground arith

    pub IsEvidenced_of_success :
        (trial_observation int_mul trial profile settings).0 ≡ success → IsEvidenced
    unfolding trial_observation
    IsEvidenced_of_success h =
        let reported = reported_of_success h in
        ground (
          arith,
          reported,
          all-All_pos trial.peak_memory_bytes,
          texts_eq_iff trial.optimizer_paths profile.optimizers,
          over_budget-IsWithinBudget settings.memory_fraction trial.peak_memory_bytes profile.gpus,
        )

    pub success_of_IsEvidenced :
        IsEvidenced → trial_observation int_mul trial profile settings ≡ (success, trial.diagnostic)
    unfolding trial_observation
    success_of_IsEvidenced v = ground (
      arith,
      all-All_pos trial.peak_memory_bytes,
      texts_eq_iff trial.optimizer_paths profile.optimizers,
      over_budget-IsWithinBudget settings.memory_fraction trial.peak_memory_bytes profile.gpus,
    )

    -- A trial counts as a success exactly when it reported success, ran the batch that was asked for
    -- on every rank with a positive peak within the memory budget of its GPU, did the warm-up steps,
    -- the measured steps and some validation, and covered the optimizer paths of the profile.
    pub success_iff : ((trial_observation int_mul trial profile settings).0 ≡ success) ↔ IsEvidenced
    success_iff = (
      IsEvidenced_of_success,
      λ v. ap (λ (o : TrialStatus × String). o.0) (success_of_IsEvidenced v),
    )
