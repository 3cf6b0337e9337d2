-- ===== src/ResultRows/Examples.antt =====
-- Rows with their matches, and the theorems at concrete inputs. A coordinate is a whole number here.
use clearml_yolo.Base.Int.{pos, negsuc}
use clearml_yolo.Base.{
  ℕ, ◌≡◌, refl, true, none, some, String, ◌↔◌, List, [], ◌∷◌, ltb, ◌==◌, Result, ok,
}
use clearml_yolo.ResultRows.{
  RowType, ground_truth, prediction, Relationship, true_positive, numeric, SourceRow, Coordinates,
  geometry_reason, tp, fp, MatchResult, Relationships, relationship_lists, row_status,
}
use clearml_yolo.ResultRows.Relations.{In, HasEntry, relationship_lists-iff-HasEntry}
use clearml_yolo.ResultRows.Lineage.{
  IsStatusOf, row_status-IsStatusOf, IsJudgedRow, TellsMatches, row_status-TellsMatches,
}

abbrev whole : Coordinates ℕ
whole = record { is_finite = λ _. true; is_less = λ a b. ltb a b; is_equal = λ a b. a == b }

abbrev row : SourceRow ℕ
row = record {
  source_row_id = "gt:0";
  instance_label = some "cat";
  box = record { x_tl = numeric 1; y_tl = numeric 1; x_br = numeric 4; y_br = numeric 5 };
}

-- The ground truth 0 is found by the prediction 3; the prediction 4 is a false positive.
abbrev matches : List MatchResult
matches =
    record {
      gt_index = pos 0;
      pred_index = pos 3;
      type = tp;
      gt_label = "cat";
      pred_label = "cat";
      confidence = 90;
      iou = some 80;
    }
    ∷ record {
      gt_index = negsuc 0;
      pred_index = pos 4;
      type = fp;
      gt_label = "-";
      pred_label = "cat";
      confidence = 60;
      iou = none;
    }
    ∷ []

abbrev relationships : Relationships
relationships = go (
    relationship_lists "post" ((pos 0, "gt:0") ∷ []) ((pos 3, "pred:3") ∷ (pos 4, "pred:4") ∷ []) 0
      matches)
  where
    go : Result Relationships → Relationships
    go (ok found) = found
    go _ = []

three_lists :
    relationship_lists "post"
      ((pos 0, "gt:0") ∷ [])
      ((pos 3, "pred:3") ∷ (pos 4, "pred:4") ∷ [])
      0
      matches
    ≡ ok relationships
unfolding relationship_lists
three_lists = refl

-- The relationship of the prediction 3.
abbrev found_entry : (RowType × String) × Relationship
found_entry = (
  (prediction, "pred:3"),
  record {
    match_id = "post:0";
    phase = "post";
    status = tp;
    gt_source_row_id = some "gt:0";
    pred_source_row_id = some "pred:3";
    gt_index = some (pos 0);
    pred_index = some (pos 3);
    gt_label = "cat";
    pred_label = "cat";
    confidence = 90;
    iou = some 80;
  },
)

relationship_lists-iff-HasEntry_example :
    In found_entry relationships
    ↔ HasEntry "post"
        ((pos 0, "gt:0") ∷ [])
        ((pos 3, "pred:3") ∷ (pos 4, "pred:4") ∷ [])
        0
        matches
        found_entry
relationship_lists-iff-HasEntry_example =
    relationship_lists-iff-HasEntry "post" ((pos 0, "gt:0") ∷ [])
      ((pos 3, "pred:3") ∷ (pos 4, "pred:4") ∷ []) 0 matches relationships three_lists found_entry

row_status-IsStatusOf_example :
    IsStatusOf ground_truth (row_status whole row ground_truth ("gt:0" ∷ []) relationships)
row_status-IsStatusOf_example =
    row_status-IsStatusOf whole row ground_truth ("gt:0" ∷ []) relationships

-- The ground truth is found.
found_row : row_status whole row ground_truth ("gt:0" ∷ []) relationships ≡ true_positive
unfolding row_status geometry_reason relationship_lists
found_row = refl

row_status-TellsMatches_example :
    TellsMatches
      ((pos 0, "gt:0") ∷ [])
      ((pos 3, "pred:3") ∷ (pos 4, "pred:4") ∷ [])
      matches
      ground_truth
      "gt:0"
      (IsJudgedRow whole row ground_truth ("gt:0" ∷ []))
      (row_status whole row ground_truth ("gt:0" ∷ []) relationships)
row_status-TellsMatches_example =
    row_status-TellsMatches whole row ground_truth ("gt:0" ∷ []) "post" ((pos 0, "gt:0") ∷ [])
      ((pos 3, "pred:3") ∷ (pos 4, "pred:4") ∷ []) 0 matches relationships three_lists
