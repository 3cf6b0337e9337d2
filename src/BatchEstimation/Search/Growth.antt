-- ===== src/BatchEstimation/Search/Growth.antt =====
-- The grid of the search, and `_growth_candidate` of core/batch_estimation.py.
use clearml_yolo.Base.{
  ℕ, ◌+◌, ◌-◌, ◌*◌, ◌/◌, max, min, ◌||◌, Option, none, some, List, [], ◌∷◌, leb, if◌then◌else◌,
  Result, ok, err, value_error, ◌>>=◌, length,
}
use clearml_yolo.Base.Int.{ℤ, pos, pos_part, sub_ℕ, ◌+ℤ◌, ◌*ℤ◌, floor_div, min_ℤ}
use clearml_yolo.BatchEstimation.Model.{
  Float, SearchStrategy, memory_guided_aligned_v1, is_exponential, TrialResult, TrainingProfile,
  SearchSettings, GpuHardware, world_size,
}

-- `_batch_step`: eight images per rank for the aligned strategy, one for the others.
abbrev pub step_of : SearchStrategy → ℕ
step_of memory_guided_aligned_v1 = 8
step_of _ = 1

-- `_ceiling`
unfoldable pub ceiling_of : TrainingProfile → SearchSettings → ℕ
ceiling_of profile settings =
    let step = step_of settings.search_strategy in
    settings.max_global_batch / world_size profile / step * step

-- `self.trials[-2:]`, where there are two.
unfoldable pub last_two : List TrialResult → Option (TrialResult × TrialResult)
last_two [] = none
last_two (a ∷ []) = none
last_two (a ∷ b ∷ []) = some (a, b)
last_two (a ∷ b ∷ c ∷ rest) = last_two (b ∷ c ∷ rest)

strict_zip {ℓ} : {A : Type ℓ} → Result A
strict_zip = err (value_error "zip() arguments have different lengths")

unfoldable pub min_of : List ℤ → ℤ → ℤ
min_of [] bound = bound
min_of (v ∷ values) bound = min_ℤ v (min_of values bound)

-- `max(lower + step, min(*predictions, 4 * lower, ceiling))`, or the fallback
unfoldable pub bounded : ℕ → ℕ → ℕ → ℕ → Option (List ℤ) → ℕ
unfolding min_ℤ min_of
bounded fallback lower step top none = fallback
bounded fallback lower step top (some values) =
    max (lower + step) (pos_part (min_of values (min_ℤ (pos (4 * lower)) (pos top))))

-- second + (budget - after) * (second - first) // (after - before)
predict : ℕ → ℕ → ℕ → ℕ → ℕ → ℤ
unfolding ◌+ℤ◌ ◌*ℤ◌ floor_div
predict first second before after budget =
    pos second +ℤ floor_div (sub_ℕ budget after *ℤ sub_ℕ second first) (after - before)

module _ (int_mul : ℕ → Float → ℕ) where
  -- The loop over the ranks; `none` is the `return fallback` inside it.
  unfoldable pub predictions :
      Float → ℕ → ℕ → List ℕ → List ℕ → List GpuHardware → Result (Option (List ℤ))
  unfolding strict_zip predict
  predictions fraction first second [] [] [] = ok (some [])
  predictions fraction first second (before ∷ befores) (after ∷ afters) (gpu ∷ gpus) =
      let rest = predictions fraction first second befores afters gpus in
      if leb after before then ok none else do
        found ← rest
        ok (elim found [
          | none ↦ none
          | some values ↦
              some (
                predict first second before after (int_mul gpu.total_memory_bytes fraction)
                ∷ values)
        ])
  predictions fraction first second _ _ _ = strict_zip

  unfoldable pub from_trials :
      TrainingProfile → SearchSettings → ℕ → ℕ → Option (TrialResult × TrialResult) → Result ℕ
  unfolding predictions bounded
  from_trials profile settings lower top none = ok (min (lower * 2) top)
  from_trials profile settings lower top (some (previous, current)) = do
    found ←
        predictions settings.memory_fraction (previous.global_batch / world_size profile)
          (current.global_batch / world_size profile) previous.peak_memory_bytes
          current.peak_memory_bytes profile.gpus
    ok (bounded (min (lower * 2) top) lower (step_of settings.search_strategy) top found)

  -- `_growth_candidate`
  unfoldable pub growth_candidate :
      TrainingProfile → SearchSettings → ℕ → List TrialResult → ℕ → Result ℕ
  unfolding from_trials last_two
  growth_candidate profile settings lower trials top =
      if is_exponential settings.search_strategy || leb (length trials) 1
      then ok (min (lower * 2) top)
      else from_trials profile settings lower top (last_two trials)
