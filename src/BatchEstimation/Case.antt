-- ===== src/BatchEstimation/Case.antt =====
-- `EstimateCase` and `EstimateCatalogue` of core/batch_estimation.py: saved evidence and its
-- validation, which repeats the search over the saved trials.
pub mod Evidence
use clearml_yolo.Base.{
  ℕ, zero, suc, Bool, true, false, ◌&&◌, ◌||◌, not, Option, none, some, List, [], ◌∷◌, String, ltb,
  ◌==◌, str_eq, any, Result, ok, err, value_error, raise_if, ◌>>=◌, ◌>>◌, if◌then◌else◌,
}
use clearml_yolo.BatchEstimation.Model.{
  Float, SearchStatus, searching, failed, numerically_limited, search_status_eq, is_usable,
  SearchStrategy, exponential_binary_v1, is_exponential, TrialStatus, nonfinite, TrialResult,
  TrainingProfile, SearchSettings, SyntheticWorkload,
}
use clearml_yolo.BatchEstimation.Search.{BatchSearch, start, replay}

pub record EstimateCase : Type 0 where
  pub profile : TrainingProfile
  pub workload : SyntheticWorkload
  pub settings : SearchSettings
  pub status : SearchStatus
  pub global_batch : Option ℕ
  pub per_gpu_batch : Option ℕ
  pub trials : List TrialResult
  pub created_at : String
  pub diagnostic : String

-- `usable`
abbrev pub usable : EstimateCase → Bool
usable case = is_usable case.status

abbrev pub is_none : Option ℕ → Bool
is_none none = true
is_none (some _) = false

abbrev pub option_eq : Option ℕ → Option ℕ → Bool
option_eq none none = true
option_eq (some a) (some b) = a == b
option_eq _ _ = false

abbrev is_nonfinite : TrialStatus → Bool
is_nonfinite nonfinite = true
is_nonfinite _ = false

-- `bool(self.trials) and self.trials[-1].status == "nonfinite"`
ends_nonfinite : List TrialResult → Bool
ends_nonfinite [] = false
ends_nonfinite (trial ∷ []) = is_nonfinite trial.status
ends_nonfinite (trial ∷ next ∷ rest) = ends_nonfinite (next ∷ rest)

-- The checks of `verified_evidence` after the saved trials were repeated.
unfoldable pub compared : EstimateCase → BatchSearch → Result EstimateCase
unfolding ends_nonfinite
compared case search =
    if search_status_eq case.status failed
      && is_none case.global_batch
      && is_none case.per_gpu_batch
    then raise_if
        (str_eq case.diagnostic ""
          && not (search_status_eq search.status failed)
          && not (ends_nonfinite case.trials))
        (value_error "Interrupted/failed cases require diagnostic evidence")
      >> ok case
    else raise_if
        (not (
          search_status_eq case.status search.status
          && option_eq case.global_batch search.global_batch
          && option_eq case.per_gpu_batch search.per_gpu_batch))
        (value_error "Saved estimate does not match independently repeated trial evidence")
      >> ok case

module _ (int_mul : ℕ → Float → ℕ) where
  -- `verified_evidence`
  unfoldable pub verified_evidence : EstimateCase → Result EstimateCase
  unfolding compared
  verified_evidence case = do
    raise_if (search_status_eq case.status searching)
        (value_error "Save an interrupted search as failed, never as usable evidence")
    search ← start case.profile case.settings
    search' ← replay int_mul search case.trials
    compared case search'

-- `historical_search_strategy`: a persisted case without a strategy ran the first one.
unfoldable pub historical_search_strategy : Option SearchStrategy → SearchStrategy
historical_search_strategy none = exponential_binary_v1
historical_search_strategy (some strategy) = strategy

-- A persisted case: its settings may lack the strategy.
pub record SavedCase : Type 0 where
  pub case : EstimateCase
  pub search_strategy : Option SearchStrategy

-- The case with the strategy that the validator gives it.
unfoldable pub restored : SavedCase → EstimateCase
unfolding historical_search_strategy
restored saved =
    let case = saved.case in
    record case {
      settings = record (case.settings) {
        search_strategy = historical_search_strategy saved.search_strategy;
      };
    }

pub record EstimateCatalogue : Type 0 where
  pub schema_version : ℕ
  pub cases : List EstimateCase

unfoldable pub lacks_strategy : SavedCase → Bool
lacks_strategy saved = elim saved.search_strategy [ none ↦ true | some _ ↦ false ]

-- `explicit_current_strategies`
explicit_current_strategies : ℕ → List SavedCase → Result (List SavedCase)
unfolding lacks_strategy
explicit_current_strategies version cases = do
  raise_if (version == 3 && any lacks_strategy cases)
      (value_error "Catalogue schema 3 requires an explicit search strategy")
  ok cases

-- `legacy_statuses`
legacy_statuses : EstimateCatalogue → Result EstimateCatalogue
legacy_statuses catalogue = do
  raise_if
      (catalogue.schema_version == 1
        && any (λ (case : EstimateCase). search_status_eq case.status numerically_limited)
            catalogue.cases)
      (value_error "Numerically limited estimates require catalogue schema 2")
  raise_if
      (ltb catalogue.schema_version 3
        && any (λ (case : EstimateCase). not (is_exponential case.settings.search_strategy))
            catalogue.cases)
      (value_error "Memory-guided estimates require catalogue schema 3")
  ok catalogue

module _ (int_mul : ℕ → Float → ℕ) where
  validated_cases : List SavedCase → Result (List EstimateCase)
  unfolding restored
  validated_cases [] = ok []
  validated_cases (saved ∷ rest) = do
    case ← verified_evidence int_mul (restored saved)
    cases ← validated_cases rest
    ok (case ∷ cases)

  -- `EstimateCatalogue.model_validate` of a version and its cases.
  unfoldable pub load_catalogue : ℕ → List SavedCase → Result EstimateCatalogue
  unfolding explicit_current_strategies legacy_statuses validated_cases
  load_catalogue version saved = do
    saved' ← explicit_current_strategies version saved
    raise_if (not (version == 1 || version == 2 || version == 3))
        (value_error "Input should be 1, 2 or 3")
    cases ← validated_cases saved'
    legacy_statuses (record { schema_version = version; cases = cases })
