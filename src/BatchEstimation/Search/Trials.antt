-- ===== src/BatchEstimation/Search/Trials.antt =====
-- What one trial says: `_trial_observation` of core/batch_estimation.py.
pub mod Evidence
use clearml_yolo.Base.{
  ℕ, ◌≤◌, ◌<◌, ◌≡◌, refl, Bool, true, false, ◌&&◌, ◌||◌, not, Option, none, some, List, [], ◌∷◌,
  String, ltb, leb, ◌==◌, if◌then◌else◌, texts_eq, join, ◌<>◌, str_eq, all, length, arith,
  Bool-cases, inl, inr, ==_iff, ltb→lt, leb→le,
}
use clearml_yolo.BatchEstimation.Model.{
  Float, TrialStatus, success, memory_limit, error, trial_status_text, TrialResult, TrainingProfile,
  SearchSettings, GpuHardware, world_size,
}

-- `trial.actual_global_batch == trial.global_batch`
actual_is : Option ℕ → ℕ → Bool
actual_is none n = false
actual_is (some m) n = m == n

-- The dict `evidence`: what has to hold, by name.
unfoldable pub evidence : TrialResult → TrainingProfile → SearchSettings → List (String × Bool)
unfolding actual_is texts_eq
evidence trial profile settings =
    ("actual batch", actual_is trial.actual_global_batch trial.global_batch)
    ∷ (
      "rank memory peaks",
      length trial.peak_memory_bytes == world_size profile
          && all (λ peak. ltb 0 peak) trial.peak_memory_bytes,
    )
    ∷ ("warmup optimizer steps", leb settings.warmup_steps trial.warmup_steps)
    ∷ ("measured optimizer steps", leb settings.measured_steps trial.measured_steps)
    ∷ ("validation", ltb 0 trial.validation_steps)
    ∷ ("optimizer paths", texts_eq trial.optimizer_paths profile.optimizers)
    ∷ []

missing : List (String × Bool) → List String
missing [] = []
missing ((name, valid) ∷ rest) =
    let names = missing rest in elim valid [ true ↦ names | false ↦ name ∷ names ]

module _ (int_mul : ℕ → Float → ℕ) where
  -- `any(peak > int(total * fraction) ...)`. The lists are of one length where this is called.
  unfoldable pub over_budget : Float → List ℕ → List GpuHardware → Bool
  over_budget fraction (peak ∷ peaks) (gpu ∷ gpus) =
      ltb (int_mul gpu.total_memory_bytes fraction) peak || over_budget fraction peaks gpus
  over_budget fraction _ _ = false

  -- What a trial that reports success is worth, by the names that are missing.
  judge_success :
      TrialResult → TrainingProfile → SearchSettings → List String → TrialStatus × String
  judge_success trial profile settings (name ∷ names) =
      (error, "Incomplete trial evidence: " <> join ", " (name ∷ names))
  judge_success trial profile settings [] =
      if over_budget settings.memory_fraction trial.peak_memory_bytes profile.gpus
      then (memory_limit, "A rank exceeded the per-GPU memory budget")
      else (success, trial.diagnostic)

  -- `trial.diagnostic or trial.status`
  or_status : String → TrialStatus → String
  or_status diagnostic status =
      if str_eq diagnostic "" then trial_status_text status else diagnostic

  judge : TrialStatus → TrialResult → TrainingProfile → SearchSettings → TrialStatus × String
  judge success trial profile settings =
      judge_success trial profile settings (missing (evidence trial profile settings))
  judge status trial profile settings = (status, or_status trial.diagnostic status)

  unfoldable pub trial_observation :
      TrialResult → TrainingProfile → SearchSettings → TrialStatus × String
  unfolding judge judge_success or_status missing evidence over_budget
  trial_observation trial profile settings = judge trial.status trial profile settings
