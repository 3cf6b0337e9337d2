-- ===== src/BatchEstimation/Examples.antt =====
-- Runs of the search on the samples, and the theorems at concrete inputs.
use clearml_yolo.Base.{ℕ, ◌≤◌, ◌≡◌, refl, ◌↔◌, inl, Bool, true, none, some, [], ◌∷◌, ok, leb, arith}
use clearml_yolo.BatchEstimation.Model.{success, oom, memory_guided_aligned_v1, no_capacity}
use clearml_yolo.BatchEstimation.Samples.{
  percent, profile, settings, trial, history, done, start-initial, replay-history, saved,
  verified-saved,
}
use clearml_yolo.BatchEstimation.Search.{
  BatchSearch, initial, start, observe, replay, advance, discover, confirmed,
}
use clearml_yolo.BatchEstimation.Search.Growth.{ceiling_of, growth_candidate}
use clearml_yolo.BatchEstimation.Search.Trials.{trial_observation}
use clearml_yolo.BatchEstimation.Search.Trials.Evidence.{IsEvidenced, success_iff}
use clearml_yolo.BatchEstimation.Search.Progress.{Progresses, observe-Progresses}
use clearml_yolo.BatchEstimation.Search.Certificate.{ExceedsAt}
use clearml_yolo.BatchEstimation.Search.Outcome.{start-IsSound}
use clearml_yolo.BatchEstimation.Search.History.{HasFreshIds}
use clearml_yolo.BatchEstimation.Case.{verified_evidence, load_catalogue}
use clearml_yolo.BatchEstimation.Case.Evidence.{verified-Supports, IsLoaded, load-IsLoaded}
use clearml_yolo.BatchEstimation.Search.Boundary.{
  Agrees, Supports, IsBoundary, IsLargestFit, usable-Supports, validated-IsBoundary,
  recommended-IsLargestFit, no_capacity-excess, trials-HasFreshIds,
}

-- 36 images of 25 bytes are the most that the budget of 900 bytes holds.
fits : ℕ → Bool
fits c = leb c 36

fits_mono : (a b : ℕ) → a ≤ b → fits b ≡ true → fits a ≡ true
unfolding fits
fits_mono a b h e = ground arith

Agrees-history : Agrees percent fits profile settings history
unfolding trial_observation fits
Agrees-history c = (λ h. ground arith, λ h. ground arith)

usable-Supports_example : Supports percent (some 32) (some 32) profile settings history
usable-Supports_example =
    usable-Supports percent profile settings history (initial profile settings) done (omega arith)
      start-initial replay-history refl

validated-IsBoundary_example : IsBoundary percent (some 32) profile settings history
validated-IsBoundary_example =
    validated-IsBoundary percent profile settings history (initial profile settings) done
      (omega arith) start-initial replay-history refl

recommended-IsLargestFit_example :
    (c : ℕ) × (done.per_gpu_batch ≡ some c) × IsLargestFit fits profile settings c
recommended-IsLargestFit_example =
    recommended-IsLargestFit percent profile settings history (initial profile settings) done
      (omega arith) start-initial replay-history fits (inl refl) fits_mono Agrees-history

trials-HasFreshIds_example : HasFreshIds history
trials-HasFreshIds_example =
    trials-HasFreshIds percent profile settings history (initial profile settings) done
      (omega arith) start-initial replay-history

observe-Progresses_example :
    Progresses
      (initial profile settings)
      (observe percent (initial profile settings) (trial 8 "a" success))
observe-Progresses_example =
    observe-Progresses percent (initial profile settings) (trial 8 "a" success)
      (start-IsSound percent profile settings (omega arith) start-initial).0 refl refl refl

success_iff_example :
    ((trial_observation percent (trial 8 "a" success) profile settings).0 ≡ success)
    ↔ IsEvidenced percent (trial 8 "a" success) profile settings
success_iff_example = success_iff percent (trial 8 "a" success) profile settings

-- The first batch exceeds the memory.
abbrev too_small : BatchSearch
too_small = record (initial profile settings) {
  next_batch = none;
  status = no_capacity;
  trials = trial 8 "a" oom ∷ [];
  diagnostic = "oom";
}

replay-too_small : replay percent (initial profile settings) (trial 8 "a" oom ∷ []) ≡ ok too_small
unfolding replay observe ceiling_of trial_observation advance discover growth_candidate confirmed
replay-too_small = refl

no_capacity-excess_example :
    (too_small.global_batch ≡ none)
    × (too_small.per_gpu_batch ≡ none)
    × ExceedsAt percent profile settings (trial 8 "a" oom ∷ []) 8
no_capacity-excess_example =
    no_capacity-excess percent profile settings (trial 8 "a" oom ∷ []) (initial profile settings)
      too_small (omega arith) start-initial replay-too_small refl

verified-Supports_example :
    (saved ≡ saved) × Supports percent (some 32) (some 32) profile settings history
verified-Supports_example = verified-Supports percent saved saved (omega arith) verified-saved refl

load-saved :
    load_catalogue percent 3
      (record { case = saved; search_strategy = some memory_guided_aligned_v1 } ∷ [])
    ≡ ok (record { schema_version = 3; cases = saved ∷ [] })
unfolding load_catalogue verified_evidence start replay observe ceiling_of trial_observation advance
    discover growth_candidate confirmed
load-saved = refl

load-IsLoaded_example :
    IsLoaded percent 3
      (record { case = saved; search_strategy = some memory_guided_aligned_v1 } ∷ [])
      (record { schema_version = 3; cases = saved ∷ [] })
load-IsLoaded_example = load-IsLoaded percent 3 _ _ load-saved
