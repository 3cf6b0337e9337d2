-- ===== src/Comparison.antt =====
-- core/comparison/assemble.py: the comparison of two scored outcomes of a split. Floats and the tests
-- of numpy and scipy are parameters. The callbacks that only report progress are left out.
pub mod Model
pub mod Population
pub mod Family
pub mod Assembly
pub mod Classes
mod Examples
use clearml_yolo.Base.{
  ℕ, ◌+◌, ◌==◌, Bool, true, false, ◌&&◌, ◌||◌, not, Option, none, some, List, [], ◌∷◌, ◌++◌, String,
  str_eq, any, keep, map, length, Result, ok, err, value_error, raise_if, ◌>>=◌, ◌>>◌,
  if◌then◌else◌,
}
use clearml_yolo.Comparison.Model.{
  ClassCounts, zero_counts, GroundTruthRow, PredictionRow, SplitOutcome, counts_of, names_of,
  Reason, no_ground_truth, no_predictions, unknown_to_baseline, unknown_to_candidate,
  unknown_to_both, Verdict, improved, degraded, not_significant, unavailable, Floats, TestResult,
  Tests, Side, Row, insert, sorted_set, take, drop,
}

abbrev pub knows : List String → String → Bool
knows classes name = any (str_eq name) classes

-- `_exclusion_reason`
unfoldable pub exclusion_reason :
    String → ClassCounts → ClassCounts → List String → List String → Option Reason
exclusion_reason name baseline candidate baseline_classes candidate_classes =
    if not (knows baseline_classes name) && not (knows candidate_classes name)
    then some unknown_to_both
    else if not (knows baseline_classes name)
    then some unknown_to_baseline
    else if not (knows candidate_classes name)
    then some unknown_to_candidate
    else if (baseline.tp + baseline.fn == 0) && (candidate.tp + candidate.fn == 0)
    then some no_ground_truth
    else if (baseline.tp + baseline.fp == 0) && (candidate.tp + candidate.fp == 0)
    then some no_predictions
    else none

-- `_pooled_counts`
unfoldable pub pooled_counts : List (String × ClassCounts) → List String → ClassCounts
pooled_counts counts [] = zero_counts
pooled_counts counts (name ∷ names) =
    let rest = pooled_counts counts names in
    let own = counts_of counts name in
    record { tp = own.tp + rest.tp; fp = own.fp + rest.fp; fn = own.fn + rest.fn }

abbrev pub restricted_counts :
    List (String × ClassCounts) → List String → List (String × ClassCounts)
restricted_counts counts [] = []
restricted_counts counts (name ∷ names) =
    (name, counts_of counts name) ∷ restricted_counts counts names

-- `_restricted_outcome`
unfoldable pub restricted_outcome : SplitOutcome → List String → SplitOutcome
restricted_outcome outcome classes = record {
  counts = restricted_counts outcome.counts classes;
  gt_status = keep (λ (row : GroundTruthRow). knows classes row.instance_label) outcome.gt_status;
  pred_status =
      keep (λ (row : PredictionRow). knows classes row.instance_label) outcome.pred_status;
}

-- `_class_rows`
unfoldable pub class_rows : SplitOutcome → String → List GroundTruthRow × List PredictionRow
class_rows outcome name = (
  keep (λ (row : GroundTruthRow). str_eq row.instance_label name) outcome.gt_status,
  keep (λ (row : PredictionRow). str_eq row.instance_label name) outcome.pred_status,
)

-- The reason of a class of the display, by its counts and the two vocabularies.
abbrev pub reason_of :
    SplitOutcome → SplitOutcome → List String → List String → String → Option Reason
reason_of baseline candidate known_baseline known_candidate name =
    exclusion_reason name (counts_of baseline.counts name) (counts_of candidate.counts name)
      known_baseline known_candidate

-- One class in the loop that sorts them, before what the loop gives for the later ones.
abbrev pub place :
    String
    → Option Reason
    → List String × List (String × Reason)
    → List String × List (String × Reason)
place name none (compared, excluded) = (name ∷ compared, excluded)
place name (some why) (compared, excluded) = (compared, (name, why) ∷ excluded)

-- The loop that sorts the classes: those that are compared, and those that are excluded.
unfoldable pub sort_classes :
    (String → Option Reason) → List String → List String × List (String × Reason)
sort_classes reason [] = ([], [])
sort_classes reason (name ∷ names) = place name (reason name) (sort_classes reason names)

-- `sorted(set(baseline.counts) | set(candidate.counts) | …)`
unfoldable pub display_classes :
    SplitOutcome → SplitOutcome → List String → List String → List String
display_classes baseline candidate known_baseline known_candidate =
    sorted_set
      (names_of baseline.counts ++ names_of candidate.counts ++ known_baseline ++ known_candidate)

module _ {F : Type 0} (floats : Floats F) where
  -- `_rate`
  abbrev pub rate : ℕ → ℕ → F
  rate numerator denominator =
      if denominator == 0 then floats.nan else floats.divide numerator denominator

  -- `_precision` and `_recall`
  abbrev pub precision_of : ClassCounts → F
  precision_of counts = rate counts.tp (counts.tp + counts.fp)

  abbrev pub recall_of : ClassCounts → F
  recall_of counts = rate counts.tp (counts.tp + counts.fn)

  -- `validate_q` of core/comparison/significance.py
  abbrev pub validate_q : F → Result (Unit {0})
  validate_q q =
      raise_if (not (floats.is_probability q))
        (value_error "q must be a finite probability in [0, 1]")

  -- `_verdict` of a valid `q`.
  unfoldable pub verdict : F → F → F → Verdict
  verdict delta adjusted q =
      if floats.is_nan adjusted || floats.is_nan delta
      then unavailable
      else if floats.above adjusted q || floats.is_zero delta
      then not_significant
      else if floats.is_positive delta
      then improved
      else degraded

  -- The part of `_row` that one model gives.
  abbrev pub side_of : Option ClassCounts → F → Side F
  side_of none threshold = record {
    threshold = floats.nan;
    counts = none;
    precision = floats.nan;
    recall = floats.nan;
  }
  side_of (some counts) threshold = record {
    threshold = threshold;
    counts = some counts;
    precision = precision_of counts;
    recall = recall_of counts;
  }

  abbrev pub threshold_of : List (String × F) → String → F
  threshold_of [] name = floats.nan
  threshold_of ((other, value) ∷ thresholds) name =
      let rest = threshold_of thresholds name in if str_eq other name then value else rest

  -- `_row`
  unfoldable pub make_row :
      String
      → Option ClassCounts
      → Option ClassCounts
      → List (String × F)
      → List (String × F)
      → Tests F
      → Bool
      → Row F
  make_row name baseline candidate thresholds_baseline thresholds_candidate tests is_pooled =
      record {
        class_name = name;
        is_pooled = is_pooled;
        baseline = side_of baseline (threshold_of thresholds_baseline name);
        candidate = side_of candidate (threshold_of thresholds_candidate name);
        precision_delta = tests.precision.delta;
        precision_ci = tests.precision.ci;
        precision_p_value = tests.precision.p_value;
        precision_p_bh = floats.nan;
        precision_verdict = unavailable;
        recall_delta = tests.recall.delta;
        recall_ci = tests.recall_interval.ci;
        recall_p_value = tests.recall.p_value;
        recall_p_bh = floats.nan;
        recall_verdict = unavailable;
      }

  abbrev pub unavailable_test : TestResult F
  unavailable_test = record { delta = floats.nan; p_value = floats.nan; ci = none }

  abbrev pub no_tests : Tests F
  no_tests = record {
    precision = unavailable_test;
    recall_interval = unavailable_test;
    recall = unavailable_test;
  }

  abbrev pub if_known : List String → List (String × ClassCounts) → String → Option ClassCounts
  if_known known counts name = if knows known name then some (counts_of counts name) else none

  -- The rows take the adjusted values in their order, first of all the precision ones.
  unfoldable pub with_adjusted : F → List (Row F) → List F → List F → Result (List (Row F))
  unfolding verdict
  with_adjusted q [] [] [] = ok []
  with_adjusted q (row ∷ rows) (p ∷ ps) (r ∷ rs) = do
    rest ← with_adjusted q rows ps rs
    ok (
        record row {
          precision_p_bh = p;
          precision_verdict = verdict row.precision_delta p q;
          recall_p_bh = r;
          recall_verdict = verdict row.recall_delta r q;
        }
        ∷ rest)
  with_adjusted q _ _ _ = err (value_error "Length of values does not match length of index")

  abbrev pub precision_p_values : List (Row F) → List F
  precision_p_values [] = []
  precision_p_values (row ∷ rows) = row.precision_p_value ∷ precision_p_values rows

  abbrev pub recall_p_values : List (Row F) → List F
  recall_p_values [] = []
  recall_p_values (row ∷ rows) = row.recall_p_value ∷ recall_p_values rows

  -- `_adjust_family`: both metrics of every class are one family.
  unfoldable pub adjust_family :
      (List F → F → List F) → F → List (Row F) → Result (List (Row F) × ℕ)
  unfolding with_adjusted
  adjust_family adjust q rows = do
    let adjusted = adjust (precision_p_values rows ++ recall_p_values rows) q
    let half = length rows
    rows' ← with_adjusted q rows (take half adjusted) (drop half adjusted)
    ok (rows', length (keep (λ value. not (floats.is_nan value)) adjusted))
