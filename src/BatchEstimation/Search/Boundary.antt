-- ===== src/BatchEstimation/Search/Boundary.antt =====
-- What the result of a search means in terms of its trials.
use mathlib.Core.Path.{subst}
use clearml_yolo.Base.{
  ℕ, ◌+◌, ◌*◌, ◌%◌, ◌≤◌, ◌<◌, ◌≡◌, sym, ◌⊎◌, inl, inr, Bool, true, false, Option, none, some, List,
  ok, arith,
}
use clearml_yolo.BatchEstimation.Model.{
  Float, SearchStatus, no_capacity, validated, ceiling_limited, numerically_limited, is_usable,
  TrialResult, TrainingProfile, SearchSettings, world_size,
}
use clearml_yolo.BatchEstimation.Search.{BatchSearch, ceiling, batch_step, start, replay}
use clearml_yolo.BatchEstimation.Search.Grid.{grid_gap}
use clearml_yolo.BatchEstimation.Search.Certificate.{
  Outcome, Recommends, HasExcess, FitsAt, ExceedsAt, UpperExceeded,
}
use clearml_yolo.BatchEstimation.Search.Outcome.{IsSound, start-IsSound, replay-IsSound}
use clearml_yolo.BatchEstimation.Search.Growth.{step_of, ceiling_of}
use clearml_yolo.BatchEstimation.Search.History.{
  run_transport, started, HasFreshIds, replay-HasFreshIds,
}

-- Every trial of a history fits exactly if `fits` says so of its batch per rank.
abbrev pub Agrees :
    (ℕ → Float → ℕ) → (ℕ → Bool) → TrainingProfile → SearchSettings → List TrialResult → Type 0
Agrees int_mul fits profile settings trials =
    (per_rank : ℕ)
    → (FitsAt int_mul profile settings trials per_rank → fits per_rank ≡ true)
      × (ExceedsAt int_mul profile settings trials per_rank → fits per_rank ≡ false)

-- No capacity of the grid under the ceiling fits that is larger than `c`.
abbrev pub IsLargestFit : (ℕ → Bool) → TrainingProfile → SearchSettings → ℕ → Type 0
IsLargestFit fits profile settings c =
    (fits c ≡ true)
    × ((d : ℕ)
        → d % step_of settings.search_strategy ≡ 0
        → d ≤ ceiling_of profile settings
        → fits d ≡ true
        → d ≤ c)

module _ (int_mul : ℕ → Float → ℕ) where
  -- A recommendation of a capacity that a history supports.
  abbrev pub Supports :
      Option ℕ → Option ℕ → TrainingProfile → SearchSettings → List TrialResult → Type 0
  Supports global per_gpu profile settings trials =
      (c : ℕ) × (per_gpu ≡ some c)
      × (global ≡ some (c * world_size profile))
      × (0 < c)
      × (c ≤ ceiling_of profile settings)
      × (c % step_of settings.search_strategy ≡ 0)
      × FitsAt int_mul profile settings trials c

  -- A supported capacity, and a trial that exceeded the memory one step above it.
  abbrev pub IsBoundary : Option ℕ → TrainingProfile → SearchSettings → List TrialResult → Type 0
  IsBoundary per_gpu profile settings trials =
      (c : ℕ) × (per_gpu ≡ some c)
      × FitsAt int_mul profile settings trials c
      × ExceedsAt int_mul profile settings trials (c + step_of settings.search_strategy)

  usable_Recommends :
      (status : SearchStatus) (s : BatchSearch)
      → is_usable status ≡ true
      → Outcome int_mul status s
      → Recommends s
  usable_Recommends validated s h o = o.0
  usable_Recommends ceiling_limited s h o = o.0
  usable_Recommends numerically_limited s h o = o.0
  usable_Recommends _ s h o = cc

  sound-Supports :
      (s : BatchSearch)
      → IsSound int_mul s
      → is_usable s.status ≡ true
      → Supports s.global_batch s.per_gpu_batch s.profile s.settings s.trials
  sound-Supports s (v, b) usable =
      let (room, global, per_gpu) = usable_Recommends s.status s usable b.outcome in
      (s.lower, per_gpu, global, room, v.grounded.within, v.grounded.on_grid, b.lower_fits room)

  excess_above :
      (s : BatchSearch)
      → IsSound int_mul s
      → Outcome int_mul validated s
      → HasExcess int_mul s (s.lower + batch_step s)
  excess_above s (v, b) (_, top) = subst (UpperExceeded int_mul s) top b.upper_exceeds

  -- No capacity of the grid above the lower bound fits.
  lower-IsLargestFit :
      (s : BatchSearch) (fits : ℕ → Bool)
      → IsSound int_mul s
      → Recommends s
      → Agrees int_mul fits s.profile s.settings s.trials
      → ((d : ℕ) → d % batch_step s ≡ 0 → d ≤ ceiling s → s.lower < d → fits d ≡ false)
      → IsLargestFit fits s.profile s.settings s.lower
  lower-IsLargestFit s fits (v, b) (room, global, per_gpu) agrees above = (
    (agrees s.lower).0 (b.lower_fits room),
    λ d grid within fit. ground (arith, above d grid within),
  )

  validated-IsLargestFit :
      (s : BatchSearch) (fits : ℕ → Bool)
      → IsSound int_mul s
      → ((a b : ℕ) → a ≤ b → fits b ≡ true → fits a ≡ true)
      → Agrees int_mul fits s.profile s.settings s.trials
      → Outcome int_mul validated s
      → IsLargestFit fits s.profile s.settings s.lower
  validated-IsLargestFit s fits (v, b) mono agrees outcome =
      lower-IsLargestFit s fits (v, b) outcome.0 agrees
        λ d grid within higher.
          let too_much : fits (s.lower + batch_step s) ≡ false =
            (agrees (s.lower + batch_step s)).1 (excess_above s (v, b) outcome) in
          let gap : s.lower + batch_step s ≤ d =
            grid_gap s.settings.search_strategy s.lower d v.grounded.on_grid grid higher in
          ground (arith, mono (s.lower + batch_step s) d gap)

  ceiling-IsLargestFit :
      (s : BatchSearch) (fits : ℕ → Bool)
      → IsSound int_mul s
      → Agrees int_mul fits s.profile s.settings s.trials
      → Outcome int_mul ceiling_limited s
      → IsLargestFit fits s.profile s.settings s.lower
  ceiling-IsLargestFit s fits sound agrees (recommends, top) =
      lower-IsLargestFit s fits sound recommends agrees λ d grid within higher. absurd (omega arith)

module _ (int_mul : ℕ → Float → ℕ) (profile : TrainingProfile) (settings : SearchSettings)
    (trials : List TrialResult) (s₀ s : BatchSearch) (rank : 0 < world_size profile)
    (begun : start profile settings ≡ ok s₀) (run : replay int_mul s₀ trials ≡ ok s) where
  sound : IsSound int_mul s
  sound = replay-IsSound int_mul trials s₀ (start-IsSound int_mul profile settings rank begun) run

  -- A search that ends in a usable status after any trials recommends a positive capacity of the grid
  -- under the ceiling, the same on every GPU, at which one of the trials succeeded.
  pub usable-Supports :
      is_usable s.status ≡ true
      → Supports int_mul s.global_batch s.per_gpu_batch profile settings trials
  usable-Supports usable =
      run_transport int_mul profile settings (Supports int_mul s.global_batch s.per_gpu_batch)
        trials s₀ s begun run (sound-Supports int_mul s sound usable)

  -- After a validated search one of the trials succeeded at the recommended capacity, and one
  -- exceeded the memory at the next capacity of the grid.
  pub validated-IsBoundary :
      s.status ≡ validated → IsBoundary int_mul s.per_gpu_batch profile settings trials
  validated-IsBoundary done =
      let outcome = subst (λ st. Outcome int_mul st s) done sound.1.outcome in
      let (room, _, per_gpu) = outcome.0 in
      run_transport int_mul profile settings (IsBoundary int_mul s.per_gpu_batch) trials s₀ s begun
        run (s.lower, per_gpu, sound.1.lower_fits room, excess_above int_mul s sound outcome)

  -- Where memory use decides the trials monotonically, a validated or ceiling-limited search
  -- recommends the largest capacity of the grid under the ceiling that fits.
  pub recommended-IsLargestFit :
      (fits : ℕ → Bool)
      → (s.status ≡ validated) ⊎ (s.status ≡ ceiling_limited)
      → ((a b : ℕ) → a ≤ b → fits b ≡ true → fits a ≡ true)
      → Agrees int_mul fits profile settings trials
      → (c : ℕ) × (s.per_gpu_batch ≡ some c) × IsLargestFit fits profile settings c
  recommended-IsLargestFit fits done mono agrees =
      run_transport int_mul profile settings
        (λ p q r.
          Agrees int_mul fits p q r
          → (c : ℕ) × (s.per_gpu_batch ≡ some c) × IsLargestFit fits p q c)
        trials s₀ s begun run
        (λ agrees'. elim done [
          | inl e ↦
              let o = subst (λ st. Outcome int_mul st s) e sound.1.outcome in
              (s.lower, o.0.2, validated-IsLargestFit int_mul s fits sound mono agrees' o)
          | inr e ↦
              let o = subst (λ st. Outcome int_mul st s) e sound.1.outcome in
              (s.lower, o.0.2, ceiling-IsLargestFit int_mul s fits sound agrees' o)
        ])
        agrees

  -- A search that ends with no capacity recommends nothing, and one of the trials exceeded the memory
  -- at the least batch of the grid.
  pub no_capacity-excess :
      s.status ≡ no_capacity
      → (s.global_batch ≡ none)
        × (s.per_gpu_batch ≡ none)
        × ExceedsAt int_mul profile settings trials (step_of settings.search_strategy)
  no_capacity-excess done =
      let ((global, per_gpu), excess) = subst (λ st. Outcome int_mul st s) done sound.1.outcome in
      (
        global,
        per_gpu,
        run_transport int_mul profile settings
            (λ p q r. ExceedsAt int_mul p q r (step_of q.search_strategy)) trials s₀ s begun run
            excess,
      )

  -- No two trials that a search accepted share the identity of their process group.
  pub trials-HasFreshIds : HasFreshIds trials
  trials-HasFreshIds =
      run_transport int_mul profile settings (λ _ _ r. HasFreshIds r) trials s₀ s begun run
        (replay-HasFreshIds int_mul trials s₀
          (subst (λ (x : BatchSearch). HasFreshIds x.trials)
            (sym (started int_mul profile settings begun)) tt)
          run)
