-- ===== src/BatchEstimation/Search/Grid.antt =====
-- The arithmetic of the grid: bounds and candidates stay multiples of the step below the ceiling.
use native.Mathlib.Nat.{le-div_iff_mul-le}
use mathlib.Core.Path.{subst}
use clearml_yolo.Base.{
  ℕ, ◌+◌, ◌*◌, ◌/◌, ◌%◌, ◌≤◌, ◌<◌, ◌≡◌, max, min, Option, none, some, List, [], ◌∷◌, ok, err, Error,
  ok_of_not_err, All, length, arith,
}
use clearml_yolo.Base.Int.{ℤ, pos, pos_part, min_ℤ, min_ℤ-pos_part_le}
use clearml_yolo.BatchEstimation.Model.{
  Float, SearchStrategy, memory_guided_aligned_v1, TrialResult, TrainingProfile, SearchSettings,
  GpuHardware, world_size,
}
use clearml_yolo.BatchEstimation.Search.Growth.{
  step_of, ceiling_of, predictions, min_of, bounded, last_two,
}

pub step_of_pos : (st : SearchStrategy) → 0 < step_of st
step_of_pos memory_guided_aligned_v1 = omega arith
step_of_pos _ = omega arith

pub ceiling_of_grid :
    (profile : TrainingProfile) (settings : SearchSettings)
    → ceiling_of profile settings % step_of settings.search_strategy ≡ 0
unfolding ceiling_of
ceiling_of_grid profile settings = on settings.search_strategy
  where
    on :
        (st : SearchStrategy)
        → settings.max_global_batch / world_size profile / step_of st * step_of st % step_of st ≡ 0
    on memory_guided_aligned_v1 = omega arith
    on _ = omega arith

pub zero_on_grid : (st : SearchStrategy) → 0 % step_of st ≡ 0
zero_on_grid memory_guided_aligned_v1 = omega arith
zero_on_grid _ = omega arith

pub step_on_grid : (st : SearchStrategy) → step_of st % step_of st ≡ 0
step_on_grid memory_guided_aligned_v1 = omega arith
step_on_grid _ = omega arith

round_ge_step :
    (st : SearchStrategy) (q : ℕ) → step_of st ≤ q → step_of st ≤ q / step_of st * step_of st
round_ge_step memory_guided_aligned_v1 q h = omega arith
round_ge_step _ q h = omega arith

-- The first candidate, one step of the grid per rank, is within the ceiling.
pub step-le-ceiling :
    (profile : TrainingProfile) (settings : SearchSettings)
    → 0 < world_size profile
    → step_of settings.search_strategy * world_size profile ≤ settings.max_global_batch
    → step_of settings.search_strategy ≤ ceiling_of profile settings
unfolding ceiling_of
step-le-ceiling profile settings rank room =
    round_ge_step settings.search_strategy _ ((le-div_iff_mul-le rank).1 room)

-- Two points of the grid are a step apart.
pub grid_gap :
    (st : SearchStrategy) (a b : ℕ)
    → a % step_of st ≡ 0
    → b % step_of st ≡ 0
    → a < b
    → a + step_of st ≤ b
grid_gap memory_guided_aligned_v1 a b p q h = omega arith
grid_gap _ a b p q h = omega arith

-- Rounding down to the grid, but at least a step above the lower bound.
pub round_bounds :
    (st : SearchStrategy) (lower top c : ℕ)
    → lower % step_of st ≡ 0
    → top % step_of st ≡ 0
    → lower < top
    → c ≤ top
    → let r = max (lower + step_of st) (c / step_of st * step_of st) in
      (lower < r) × (r ≤ top) × (r % step_of st ≡ 0)
round_bounds memory_guided_aligned_v1 lower top c p q h k = omega arith
round_bounds _ lower top c p q h k = omega arith

-- A midpoint rounds to a point strictly between bounds that are more than a step apart.
pub round_midpoint :
    (st : SearchStrategy) (lower u : ℕ)
    → lower % step_of st ≡ 0
    → u % step_of st ≡ 0
    → lower < u
    → ¬ (u ≡ lower + step_of st)
    → max (lower + step_of st) ((lower + u) / 2 / step_of st * step_of st) < u
round_midpoint memory_guided_aligned_v1 lower u p q h far = omega arith
round_midpoint _ lower u p q h far = omega arith

module _ (int_mul : ℕ → Float → ℕ) where
  predictions-ne-err :
      (fraction : Float) (first second : ℕ) (befores afters : List ℕ) (gpus : List GpuHardware)
      (e : Error)
      → length befores ≡ length gpus
      → length afters ≡ length gpus
      → predictions int_mul fraction first second befores afters gpus ≡ err e
      → ⊥
  unfolding predictions
  predictions-ne-err fraction first second [] [] [] e p q h = cc
  predictions-ne-err fraction first second (b ∷ befores) (a ∷ afters) (g ∷ gpus) e p q h =
      ground (arith, predictions-ne-err fraction first second befores afters gpus e)
  predictions-ne-err fraction first second (b ∷ befores) [] gpus e p q h = absurd (omega arith)
  predictions-ne-err fraction first second [] (a ∷ afters) gpus e p q h = absurd (omega arith)
  predictions-ne-err fraction first second [] [] (g ∷ gpus) e p q h = absurd (omega arith)
  predictions-ne-err fraction first second (b ∷ befores) (a ∷ afters) [] e p q h =
      absurd (omega arith)

  -- Over lists of one length the prediction raises nothing.
  pub predictions_total :
      (fraction : Float) (first second : ℕ) (befores afters : List ℕ) (gpus : List GpuHardware)
      → length befores ≡ length gpus
      → length afters ≡ length gpus
      → (r : Option (List ℤ)) × (predictions int_mul fraction first second befores afters gpus
          ≡ ok r)
  predictions_total fraction first second befores afters gpus p q =
      ok_of_not_err (predictions int_mul fraction first second befores afters gpus)
        (λ e. predictions-ne-err fraction first second befores afters gpus e p q)

min_of-pos_part_le : (values : List ℤ) (b : ℤ) → pos_part (min_of values b) ≤ pos_part b
unfolding min_of
min_of-pos_part_le [] b = omega arith
min_of-pos_part_le (v ∷ values) b =
    omega (arith, min_ℤ-pos_part_le v (min_of values b), min_of-pos_part_le values b)

pub bounded_le :
    (lower step top : ℕ) (r : Option (List ℤ))
    → lower + step ≤ top
    → bounded (min (lower * 2) top) lower step top r ≤ top
unfolding bounded
bounded_le lower step top none h = omega arith
bounded_le lower step top (some values) h = omega (
  arith,
  min_of-pos_part_le values (min_ℤ (pos (4 * lower)) (pos top)),
  min_ℤ-pos_part_le (pos (4 * lower)) (pos top),
)

-- What holds of all trials holds of the last two.
pub last_two-All {κ} :
    (P : TrialResult → Type κ) (trials : List TrialResult) {a b : TrialResult}
    → All P trials
    → last_two trials ≡ some (a, b)
    → P a × P b
unfolding last_two
last_two-All P [] h e = cc
last_two-All P (x ∷ []) h e = cc
last_two-All P (x ∷ y ∷ []) {a} {b} h e =
    let first : x ≡ a = cc in let second : y ≡ b = cc in (subst P first h.0, subst P second h.1.0)
last_two-All P (x ∷ y ∷ z ∷ rest) h e = last_two-All P (y ∷ z ∷ rest) h.1 e
