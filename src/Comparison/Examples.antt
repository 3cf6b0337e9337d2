-- ===== src/Comparison/Examples.antt =====
-- A comparison of two outcomes, and the theorems at concrete inputs. A float is a whole number here.
use clearml_yolo.Base.{
  ℕ, ◌+◌, ◌<◌, ◌/◌, ◌≡◌, refl, ◌↔◌, true, false, none, List, [], ◌∷◌, String, ltb, ◌==◌, Result, ok,
  err, ◌>>=◌,
}
use clearml_yolo.Comparison.Model.{
  zero_counts, SplitOutcome, Verdict, improved, unavailable, Floats, Row, sorted_set,
}
use clearml_yolo.Comparison.{knows, exclusion_reason, restricted_outcome, make_row, adjust_family}
use clearml_yolo.Comparison.Assembly.{ComparisonTables, ComparisonStatistics, build_comparison_rows}
use clearml_yolo.Comparison.Population.{exclusion_reason_iff, IsPart, restricted_outcome-IsPart}
use clearml_yolo.Comparison.Classes.{Accounts, build_comparison_rows-Accounts}

-- Hundredths, with 999 in place of a float that is not a number.
abbrev hundredths : Floats ℕ
hundredths = record {
  nan = 999;
  divide = λ n d. n / d;
  is_nan = λ x. x == 999;
  above = λ x y. ltb y x;
  is_zero = λ x. x == 0;
  is_positive = λ x. ltb 0 x;
  is_probability = λ x. ltb x 101;
}

abbrev baseline : SplitOutcome
baseline = record {
  counts =
      ("cat", record { tp = 2; fp = 1; fn = 0 }) ∷ ("dog", record { tp = 0; fp = 0; fn = 3 }) ∷ [];
  gt_status =
      record { gt_index = 0; image_name = "a"; instance_label = "cat"; detected = true }
      ∷ record { gt_index = 1; image_name = "a"; instance_label = "dog"; detected = false }
      ∷ [];
  pred_status =
      record { pred_index = 0; image_name = "a"; instance_label = "cat"; is_tp = true } ∷ [];
}

abbrev candidate_outcome : SplitOutcome
candidate_outcome = record {
  counts = ("cat", record { tp = 1; fp = 0; fn = 1 }) ∷ [];
  gt_status = [];
  pred_status = [];
}

abbrev statistics : ComparisonStatistics ℕ
statistics = record {
  test_pair = λ _ _ _. record {
    precision = record { delta = 3; p_value = 1; ci = none };
    recall_interval = record { delta = 0; p_value = 999; ci = none };
    recall = record { delta = 0; p_value = 1; ci = none };
  };
  adjust = λ values q. values;
}

verdicts_of : List (Row ℕ) → List (String × Verdict)
verdicts_of [] = []
verdicts_of (row ∷ rows) = (row.class_name, row.precision_verdict) ∷ verdicts_of rows

tables : Result (ComparisonTables ℕ)
unfolding build_comparison_rows
tables = build_comparison_rows hundredths statistics baseline candidate_outcome [] [] none none 5

-- The dog is only known to the baseline, so its tests are not available.
compared_verdicts :
    (tables >>= λ t. ok (verdicts_of t.rows))
    ≡ ok (("cat", improved) ∷ ("dog", unavailable) ∷ ("pooled", improved) ∷ [])
unfolding tables verdicts_of build_comparison_rows sorted_set adjust_family
compared_verdicts = refl

exclusion_reason_iff_example :
    (exclusion_reason "cat"
        (record { tp = 2; fp = 1; fn = 0 })
        zero_counts
        ("cat" ∷ [])
        ("cat" ∷ [])
      ≡ none)
    ↔ ((knows ("cat" ∷ []) "cat" ≡ true)
        × (knows ("cat" ∷ []) "cat" ≡ true)
        × (0 < 2 + 0 + (0 + 0))
        × (0 < 2 + 1 + (0 + 0)))
exclusion_reason_iff_example =
    exclusion_reason_iff "cat" (record { tp = 2; fp = 1; fn = 0 }) zero_counts ("cat" ∷ [])
      ("cat" ∷ [])

restricted_outcome-IsPart_example :
    IsPart baseline ("cat" ∷ []) (restricted_outcome baseline ("cat" ∷ []))
restricted_outcome-IsPart_example = restricted_outcome-IsPart baseline ("cat" ∷ [])

found_tables : ComparisonTables ℕ
unfolding tables
found_tables = go tables
  where
    go : Result (ComparisonTables ℕ) → ComparisonTables ℕ
    go (ok found) = found
    go (err _) = record { rows = []; excluded = []; family_size = 0; pooled_classes = [] }

build_comparison_rows-Accounts_example :
    Accounts baseline candidate_outcome ("cat" ∷ "dog" ∷ []) ("cat" ∷ []) found_tables
unfolding tables found_tables build_comparison_rows sorted_set adjust_family
build_comparison_rows-Accounts_example =
    build_comparison_rows-Accounts hundredths statistics baseline candidate_outcome [] [] none none
      5 found_tables refl

abbrev cat_row : Row ℕ
cat_row =
    make_row hundredths "cat" none none [] [] (statistics.test_pair baseline candidate_outcome none)
      false
