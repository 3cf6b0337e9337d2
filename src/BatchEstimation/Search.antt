-- ===== src/BatchEstimation/Search.antt =====
-- The state of `BatchSearch` and its operations, lines 262 to 405 of core/batch_estimation.py.
pub mod Growth
pub mod Trials
mod Grid
pub mod Invariant
pub mod Progress
pub mod Certificate
pub mod Outcome
pub mod History
pub mod Boundary
pub use Growth.*
use clearml_yolo.Base.{
  ℕ, suc, ◌+◌, ◌*◌, ◌/◌, max, Bool, true, false, ◌&&◌, ◌||◌, not, Option, none, some, List, [], ◌∷◌,
  ◌++◌, String, ltb, ◌==◌, if◌then◌else◌, str_eq, show, ◌<>◌, any, Result, ok, err, value_error,
  raise_if, ◌>>=◌, ◌>>◌,
}
use clearml_yolo.BatchEstimation.Model.{
  Float, TrialStatus, success, oom, memory_limit, nonfinite, TrialResult, TrainingProfile,
  SearchSettings, SearchStatus, searching, no_capacity, failed, validated, ceiling_limited,
  numerically_limited, search_status_eq, world_size,
}
use Trials.{trial_observation}

pub record BatchSearch : Type 0 where
  pub profile : TrainingProfile
  pub settings : SearchSettings
  pub lower : ℕ
  pub upper : Option ℕ
  pub next_batch : Option ℕ
  pub confirming : Bool
  pub status : SearchStatus
  pub global_batch : Option ℕ
  pub per_gpu_batch : Option ℕ
  pub trials : List TrialResult
  pub diagnostic : String
  pub numerical_failure : String

-- `_ceiling`
abbrev pub ceiling : BatchSearch → ℕ
ceiling s = ceiling_of s.profile s.settings

-- `_batch_step`
abbrev pub batch_step : BatchSearch → ℕ
batch_step s = step_of s.settings.search_strategy

abbrev pub initial : TrainingProfile → SearchSettings → BatchSearch
initial profile settings = record {
  profile = profile;
  settings = settings;
  lower = 0;
  upper = none;
  next_batch = some (step_of settings.search_strategy * world_size profile);
  confirming = false;
  status = searching;
  global_batch = none;
  per_gpu_batch = none;
  trials = [];
  diagnostic = "";
  numerical_failure = "";
}

-- `BatchSearch.start`
unfoldable pub start : TrainingProfile → SearchSettings → Result BatchSearch
start profile settings = do
  let step = step_of settings.search_strategy
  raise_if (ltb settings.max_global_batch (step * world_size profile)) (
      value_error
        ("Search ceiling must cover at least " <> show step <> " images per rank/world size"))
  ok (initial profile settings)

-- `batch // world_size if batch is not None else None`
per_gpu : Option ℕ → ℕ → Option ℕ
per_gpu none world = none
per_gpu (some batch) world = some (batch / world)

-- `_finish`, with the diagnostic that the search is to have.
pub finish_with : BatchSearch → SearchStatus → Option ℕ → String → BatchSearch
unfolding per_gpu
finish_with s status batch diagnostic = record s {
  status = status;
  next_batch = none;
  global_batch = batch;
  per_gpu_batch = per_gpu batch (world_size s.profile);
  diagnostic = diagnostic;
}

pub finish : BatchSearch → SearchStatus → Option ℕ → BatchSearch
unfolding finish_with
finish s status batch = finish_with s status batch s.diagnostic

-- `f"{self.numerical_failure}; " if self.numerical_failure else ""`
cause : BatchSearch → String
cause s = if str_eq s.numerical_failure "" then "" else s.numerical_failure <> "; "

confirmed_success : BatchSearch → BatchSearch
unfolding finish finish_with cause
confirmed_success s =
    let batch = s.lower * world_size s.profile in
    if str_eq s.numerical_failure ""
    then finish s (if s.lower == ceiling s then ceiling_limited else validated) (some batch)
    else finish_with s numerically_limited (some batch) (
        cause s
        <> "independently confirmed global batch "
        <> show batch
        <> "; maximum capacity was not determined")

-- `_confirmed`
unfoldable pub confirmed : BatchSearch → TrialStatus → String → BatchSearch
unfolding confirmed_success
confirmed s success diagnostic = confirmed_success s
confirmed s _ diagnostic =
    finish_with s failed none (cause s <> "Fresh winner confirmation failed: " <> diagnostic)

-- `self.lower == ceiling or (self.upper is not None and self.upper - self.lower == step)`
pub is_settled : ℕ → Option ℕ → ℕ → ℕ → Bool
is_settled lower none top step = lower == top
is_settled lower (some u) top step = lower == top || u == lower + step

pub to_confirm : BatchSearch → BatchSearch
to_confirm s = record s { confirming = true; next_batch = some (s.lower * world_size s.profile) }

round_candidate : ℕ → ℕ → ℕ → ℕ
round_candidate lower step c = max (lower + step) (c / step * step)

after_nonfinite : BatchSearch → TrialResult → String → BatchSearch
unfolding finish to_confirm
after_nonfinite s trial diagnostic =
    if ltb 0 s.lower
    then record (to_confirm s) {
      numerical_failure =
          "Numerical failure at global batch " <> show trial.global_batch <> ": " <> diagnostic;
    }
    else finish s failed none

is_pending : BatchSearch → TrialResult → Bool
is_pending s trial =
    search_status_eq s.status searching
    && elim s.next_batch [ none ↦ false | some b ↦ trial.global_batch == b ]

module _ (int_mul : ℕ → Float → ℕ) where
  -- The next capacity per rank, before rounding.
  candidate : BatchSearch → Option ℕ → Result ℕ
  unfolding growth_candidate
  candidate s (some u) = ok ((s.lower + u) / 2)
  candidate s none = growth_candidate int_mul s.profile s.settings s.lower s.trials (ceiling s)

  -- `_advance`
  unfoldable pub advance : BatchSearch → Result BatchSearch
  unfolding is_settled to_confirm candidate round_candidate
  advance s =
      if is_settled s.lower s.upper (ceiling s) (batch_step s) then ok (to_confirm s) else do
        c ← candidate s s.upper
        ok (record s {
          next_batch = some (round_candidate s.lower (batch_step s) c * world_size s.profile);
        })

  after_failure : BatchSearch → ℕ → Result BatchSearch
  unfolding finish
  after_failure s per_rank =
      if per_rank == batch_step s
      then ok (finish s no_capacity none)
      else advance (record s { upper = some per_rank })

  -- The tests on the status of a trial outside the confirmation.
  unfoldable pub discover : BatchSearch → TrialResult → TrialStatus → String → Result BatchSearch
  unfolding after_nonfinite after_failure
  discover s trial nonfinite diagnostic = ok (after_nonfinite s trial diagnostic)
  discover s trial success diagnostic =
      advance (record s { lower = trial.global_batch / world_size s.profile })
  discover s trial oom diagnostic = after_failure s (trial.global_batch / world_size s.profile)
  discover s trial memory_limit diagnostic =
      after_failure s (trial.global_batch / world_size s.profile)
  discover s trial _ diagnostic = ok (finish s failed none)

  pub absorb : BatchSearch → TrialResult → TrialStatus × String → Result BatchSearch
  absorb s trial (status, diagnostic) =
      let current = record s { trials = s.trials ++ trial ∷ []; diagnostic = diagnostic } in
      if s.confirming
      then ok (confirmed current status diagnostic)
      else discover current trial status diagnostic

  -- `observe`
  unfoldable pub observe : BatchSearch → TrialResult → Result BatchSearch
  unfolding is_pending absorb
  observe s trial = do
    raise_if (not (is_pending s trial))
        (value_error "Trial batch must match the pending search candidate")
    raise_if (any (λ (prior : TrialResult). str_eq prior.trial_id trial.trial_id) s.trials)
        (value_error "Every trial must use a fresh process group identity")
    absorb s trial (trial_observation int_mul trial s.profile s.settings)

  -- The loop over the saved trials in `EstimateCase.verified_evidence`.
  unfoldable pub replay : BatchSearch → List TrialResult → Result BatchSearch
  replay s [] = ok s
  replay s (trial ∷ trials) = do s' ← observe s trial; replay s' trials
