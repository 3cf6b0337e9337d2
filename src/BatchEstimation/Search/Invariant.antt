-- ===== src/BatchEstimation/Search/Invariant.antt =====
-- The well-formedness of a search, which `start` establishes and `observe` keeps.
use clearml_yolo.Base.{
  ℕ, ◌+◌, ◌*◌, ◌/◌, ◌%◌, max, min, ◌≤◌, ◌<◌, ◌≡◌, refl, ◌≢◌, ◌⊎◌, inl, inr, Bool, true, false,
  Option, none, some, Result, ok, All, length, arith, if_ind,
}
use clearml_yolo.BatchEstimation.Model.{
  Float, searching, TrialResult, TrainingProfile, SearchSettings, world_size,
}
use clearml_yolo.BatchEstimation.Search.{
  BatchSearch, ceiling, batch_step, advance, is_settled, round_candidate, candidate, to_confirm,
}
use clearml_yolo.BatchEstimation.Search.Growth.{step_of, growth_candidate, from_trials, last_two}
use clearml_yolo.BatchEstimation.Search.Grid.{
  ceiling_of_grid, grid_gap, round_bounds, round_midpoint, predictions_total, bounded_le,
  last_two-All,
}

-- A failed bound lies above the lower one, on the grid and under the ceiling.
abbrev pub IsBracket : ℕ → Option ℕ → ℕ → ℕ → Type 0
IsBracket lower none top step = Unit
IsBracket lower (some u) top step = (lower < u) × (u ≤ top) × (u % step ≡ 0)

abbrev pub IsBelow : ℕ → Option ℕ → Type 0
IsBelow c none = Unit
IsBelow c (some u) = c < u

-- What the pending capacity per rank is: the winner to be confirmed, or a new point of the bracket.
abbrev pub Awaits : Bool → BatchSearch → ℕ → Type 0
Awaits true s c = (c ≡ s.lower) × (0 < s.lower)
Awaits false s c = (s.lower < c) × (c ≤ ceiling s) × (c % batch_step s ≡ 0) × IsBelow c s.upper

-- The part of the invariant that does not speak of the pending trial.
pub record IsGrounded (s : BatchSearch) : Type 0 where
  pub has_rank : 0 < world_size s.profile
  pub within : s.lower ≤ ceiling s
  pub on_grid : s.lower % batch_step s ≡ 0
  pub bracket : IsBracket s.lower s.upper (ceiling s) (batch_step s)

-- Before an upper bound is known, every trial of a discovery measured a peak on each rank.
abbrev pub IsMeasured : BatchSearch → Type 0
IsMeasured s =
    s.upper ≡ none
    → All (λ (t : TrialResult). length t.peak_memory_bytes ≡ world_size s.profile) s.trials

pub record IsValid (s : BatchSearch) : Type 0 where
  pub grounded : IsGrounded s
  pub measured : s.status ≡ searching → s.confirming ≡ false → IsMeasured s
  pub pending :
      s.status ≡ searching
      → (c : ℕ) × (s.next_batch ≡ some (c * world_size s.profile)) × Awaits s.confirming s c
  pub finished : s.status ≢ searching → s.next_batch ≡ none

module _ (int_mul : ℕ → Float → ℕ) where
  from_trials_total :
      (profile : TrainingProfile) (settings : SearchSettings) (lower top : ℕ)
      (pair : Option (TrialResult × TrialResult))
      → lower + step_of settings.search_strategy ≤ top
      → ((a b : TrialResult)
          → pair ≡ some (a, b)
          → (length a.peak_memory_bytes ≡ world_size profile)
            × (length b.peak_memory_bytes ≡ world_size profile))
      → (c : ℕ) × (from_trials int_mul profile settings lower top pair ≡ ok c) × (c ≤ top)
  unfolding from_trials
  from_trials_total profile settings lower top none h l = (_, refl, omega arith)
  from_trials_total profile settings lower top (some (a, b)) h l =
      let (la, lb) = l a b refl in
      let (r, e) =
        predictions_total int_mul settings.memory_fraction (a.global_batch / world_size profile)
          (b.global_batch / world_size profile) a.peak_memory_bytes b.peak_memory_bytes profile.gpus
          la lb in
      (_, rw e, bounded_le lower (step_of settings.search_strategy) top r h)

  -- An outcome that is a number of at most `top`.
  abbrev FoundWithin : ℕ → Result ℕ → Type 0
  FoundWithin top r = (c : ℕ) × (r ≡ ok c) × (c ≤ top)

  -- A next capacity is found, and it is at most the ceiling.
  candidate_total :
      (s : BatchSearch)
      → IsGrounded s
      → s.lower < ceiling s
      → IsMeasured s
      → (c : ℕ) × (candidate int_mul s s.upper ≡ ok c) × (c ≤ ceiling s)
  unfolding candidate growth_candidate
  candidate_total s v below measured = go s.upper refl
    where
      gap : s.lower + batch_step s ≤ ceiling s
      gap =
          grid_gap s.settings.search_strategy s.lower (ceiling s) v.on_grid
            (ceiling_of_grid s.profile s.settings) below

      go : (o : Option ℕ) → s.upper ≡ o → (c : ℕ) × (candidate int_mul s o ≡ ok c) × (c ≤ ceiling s)
      go (some u) e = (_, refl, (ground arith))
      go none e =
          if_ind (FoundWithin (ceiling s)) _
            (λ _. (min (s.lower * 2) (ceiling s), refl, omega arith))
            (λ _.
              from_trials_total s.profile s.settings s.lower (ceiling s) (last_two s.trials) gap
                (λ a b p.
                  last_two-All (λ t. length t.peak_memory_bytes ≡ world_size s.profile) s.trials
                    (measured e) p))

  unsettled-lt :
      (lower top step : ℕ) (o : Option ℕ)
      → is_settled lower o top step ≡ false
      → lower ≤ top
      → lower < top
  unfolding is_settled
  unsettled-lt lower top step none e h = ground arith
  unsettled-lt lower top step (some u) e h = ground arith

  candidate-lt-upper :
      (s : BatchSearch) (c u : ℕ)
      → IsGrounded s
      → s.upper ≡ some u
      → candidate int_mul s s.upper ≡ ok c
      → is_settled s.lower s.upper (ceiling s) (batch_step s) ≡ false
      → max (s.lower + batch_step s) (c / batch_step s * batch_step s) < u
  unfolding candidate is_settled
  candidate-lt-upper s c u v p e unsettled =
      let midpoint : c ≡ (s.lower + u) / 2 = ground arith in
      let far : ¬ (u ≡ s.lower + batch_step s) = ground arith in
      let inside : (s.lower < u) × (u % batch_step s ≡ 0) = ground arith in
      rw midpoint
        (round_midpoint s.settings.search_strategy s.lower u v.on_grid inside.1 inside.0 far)

  -- Rounding the candidate gives a new point of the bracket.
  Awaits-candidate :
      (s : BatchSearch) (c : ℕ)
      → IsGrounded s
      → candidate int_mul s s.upper ≡ ok c
      → c ≤ ceiling s
      → is_settled s.lower s.upper (ceiling s) (batch_step s) ≡ false
      → Awaits false s (round_candidate s.lower (batch_step s) c)
  unfolding round_candidate
  Awaits-candidate s c v e le unsettled =
      let top_grid = ceiling_of_grid s.profile s.settings in
      let (above, within, grid) =
        round_bounds s.settings.search_strategy s.lower (ceiling s) c v.on_grid top_grid
          (unsettled-lt s.lower (ceiling s) (batch_step s) s.upper unsettled v.within) le in
      (above, within, grid, go s.upper refl)
    where
      go :
          (o : Option ℕ)
          → s.upper ≡ o
          → IsBelow (max (s.lower + batch_step s) (c / batch_step s * batch_step s)) o
      go none p = tt
      go (some u) p = candidate-lt-upper s c u v p e unsettled

  -- `advance` moves to the confirmation of the lower bound, or to a new point of the bracket.
  abbrev pub Advances : BatchSearch → BatchSearch → Type 0
  Advances s s' =
      (s' ≡ to_confirm s)
        × (0 < s.lower)
        × (is_settled s.lower s.upper (ceiling s) (batch_step s) ≡ true)
      ⊎ ((c : ℕ) × (s' ≡ record s { next_batch = some (c * world_size s.profile) })
          × Awaits false s c)

  abbrev pub AdvancesTo : BatchSearch → Result BatchSearch → Type 0
  AdvancesTo s r = (s' : BatchSearch) × (r ≡ ok s') × Advances s s'

  pub advance_total :
      (s : BatchSearch)
      → IsGrounded s
      → IsMeasured s
      → (is_settled s.lower s.upper (ceiling s) (batch_step s) ≡ true → 0 < s.lower)
      → AdvancesTo s (advance int_mul s)
  unfolding advance
  advance_total s v measured room =
      if_ind (AdvancesTo s) _ (λ settled. (_, refl, inl (refl, room settled, settled)))
        λ unsettled.
          let (c, e, le) =
            candidate_total s v
              (unsettled-lt s.lower (ceiling s) (batch_step s) s.upper unsettled v.within)
              measured in
          (_, rw e, inr (_, refl, Awaits-candidate s c v e le unsettled))
