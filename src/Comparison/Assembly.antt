-- ===== src/Comparison/Assembly.antt =====
-- `build_comparison_rows_with_statistics` of core/comparison/assemble.py.
use clearml_yolo.Base.{
  ℕ, true, false, Option, none, some, List, [], ◌∷◌, ◌++◌, String, map, Result, ok, ◌>>=◌, ◌>>◌,
}
use clearml_yolo.Comparison.Model.{ClassCounts, SplitOutcome, names_of, Reason, Floats, Tests, Row}
use clearml_yolo.Comparison.{
  knows, exclusion_reason, pooled_counts, restricted_outcome, reason_of, sort_classes,
  display_classes, validate_q, verdict, make_row, no_tests, if_known, adjust_family,
}

-- The rows, the excluded classes, and what of `methodology` the comparison computes.
pub record ComparisonTables (F : Type 0) : Type 0 where
  pub rows : List (Row F)
  pub excluded : List (String × Reason)
  pub family_size : ℕ
  pub pooled_classes : List String

-- `ComparisonStatistics`
pub record ComparisonStatistics (F : Type 0) : Type 0 where
  pub test_pair : SplitOutcome → SplitOutcome → Option String → Tests F
  pub adjust : List F → F → List F

-- A vocabulary that is not given is that of the counts.
abbrev pub vocabulary : Option (List String) → SplitOutcome → List String
vocabulary none outcome = names_of outcome.counts
vocabulary (some classes) outcome = classes

module _ {F : Type 0} (floats : Floats F) (statistics : ComparisonStatistics F)
    (baseline candidate : SplitOutcome)
    (thresholds_baseline thresholds_candidate : List (String × F))
    (known_baseline known_candidate : List String) where
  -- The row of a class of the display.
  unfoldable pub class_row : List String → String → Row F
  unfolding make_row
  class_row compared name =
      make_row floats name (if_known floats known_baseline baseline.counts name)
        (if_known floats known_candidate candidate.counts name) thresholds_baseline
        thresholds_candidate
        (elim (knows compared name) [
          | true ↦ statistics.test_pair baseline candidate (some name)
          | false ↦ no_tests floats
        ])
        false

  abbrev pub family_of : F → List (Row F) → Result (List (Row F) × ℕ)
  family_of q [] = ok ([], 0)
  family_of q (row ∷ rows) = adjust_family floats statistics.adjust q (row ∷ rows)

  -- The pooled tests and counts, of the classes that are compared.
  abbrev pub pooled_tests : List String → Tests F
  pooled_tests [] = no_tests floats
  pooled_tests (name ∷ names) =
      statistics.test_pair (restricted_outcome baseline (name ∷ names))
        (restricted_outcome candidate (name ∷ names)) none

  abbrev pub pooled_or_none : SplitOutcome → List String → Option ClassCounts
  pooled_or_none outcome [] = none
  pooled_or_none outcome (name ∷ names) = some (pooled_counts outcome.counts (name ∷ names))

  -- The pooled row, which is judged on its raw p-values.
  unfoldable pub pooled_row : F → List String → Row F
  unfolding make_row verdict
  pooled_row q compared =
      let tests = pooled_tests compared in
      let row =
        make_row floats "pooled" (pooled_or_none baseline compared)
          (pooled_or_none candidate compared) [] [] tests true in
      record row {
        precision_verdict = verdict floats tests.precision.delta tests.precision.p_value q;
        recall_verdict = verdict floats tests.recall.delta tests.recall.p_value q;
      }

  -- What follows the vocabularies.
  unfoldable pub assemble : F → Result (ComparisonTables F)
  unfolding class_row pooled_row display_classes sort_classes exclusion_reason
  assemble q = do
    let display = display_classes baseline candidate known_baseline known_candidate
    let sorted = sort_classes (reason_of baseline candidate known_baseline known_candidate) display
    (rows, family_size) ← family_of q (map (class_row sorted.0) display)
    ok (record {
      rows = rows ++ pooled_row q sorted.0 ∷ [];
      excluded = sorted.1;
      family_size = family_size;
      pooled_classes = sorted.0;
    })

-- `build_comparison_rows_with_statistics`
unfoldable pub build_comparison_rows :
    {F : Type 0}
    → Floats F
    → ComparisonStatistics F
    → SplitOutcome
    → SplitOutcome
    → List (String × F)
    → List (String × F)
    → Option (List String)
    → Option (List String)
    → F
    → Result (ComparisonTables F)
unfolding assemble
build_comparison_rows floats statistics baseline candidate thresholds_baseline thresholds_candidate
      baseline_classes candidate_classes q =
    do
      validate_q floats q
      assemble floats statistics baseline candidate thresholds_baseline thresholds_candidate
          (vocabulary baseline_classes baseline) (vocabulary candidate_classes candidate) q
