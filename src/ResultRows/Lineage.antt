-- ===== src/ResultRows/Lineage.antt =====
-- The statuses of the rows, and that they tell what the matches say.
use mathlib.Core.Path.{subst}
use clearml_yolo.Base.{
  ℕ, ◌≡◌, refl, sym, ◌∙◌, ◌≢◌, ◌↔◌, Bool, true, false, Option, none, some, List, [], ◌∷◌, String,
  str_eq, any, ok, if_ind, arith, if◌then◌else◌,
}
use clearml_yolo.ResultRows.{
  checked_status, is_background, RowType, ground_truth, prediction, SourceRow, Coordinates,
  geometry_reason, MatchResult, Relationships, Mapping, relationship_lists, relationships_of,
  has_true_positive, RowStatus, background, filtered, true_positive, false_positive, false_negative,
  matched_status, row_status,
}
use clearml_yolo.ResultRows.Hits.{Touched, Hit, has_true_positive-iff-Hit, any-iff-Touched}

-- The statuses that a row of a type can have.
abbrev pub IsStatusOf : RowType → RowStatus → Type 0
IsStatusOf ground_truth status = (status ≢ filtered) × (status ≢ false_positive)
IsStatusOf prediction status = (status ≢ background) × (status ≢ false_negative)

matched_status-IsStatusOf :
    (row_type : RowType) (found : Relationships)
    → IsStatusOf row_type (matched_status row_type found)
matched_status-IsStatusOf ground_truth found = ground arith
matched_status-IsStatusOf prediction [] = ground arith
matched_status-IsStatusOf prediction (entry ∷ found) = ground arith

checked_status-IsStatusOf :
    (o : Option String) (prepared : Bool) (row_type : RowType) (found : Relationships)
    → IsStatusOf row_type (checked_status o prepared row_type found)
checked_status-IsStatusOf (some reason) prepared ground_truth found = ground arith
checked_status-IsStatusOf (some reason) prepared prediction found = ground arith
checked_status-IsStatusOf none true row_type found = matched_status-IsStatusOf row_type found
checked_status-IsStatusOf none false ground_truth found = ground arith
checked_status-IsStatusOf none false prediction found = ground arith

-- A ground truth is never filtered nor a false positive, and a prediction is never background nor a
-- false negative.
pub row_status-IsStatusOf :
    {F : Type 0} (coordinates : Coordinates F) (row : SourceRow F) (row_type : RowType)
    (prepared : List String) (relationships : Relationships)
    → IsStatusOf row_type (row_status coordinates row row_type prepared relationships)
unfolding row_status
row_status-IsStatusOf coordinates row ground_truth prepared relationships =
    if_ind (IsStatusOf ground_truth) (is_background ground_truth row.instance_label)
      (λ _. ground arith)
      (λ _.
        checked_status-IsStatusOf (geometry_reason coordinates row.box)
          (any (str_eq row.source_row_id) prepared) ground_truth
          (relationships_of relationships ground_truth row.source_row_id))
row_status-IsStatusOf coordinates row prediction prepared relationships =
    checked_status-IsStatusOf (geometry_reason coordinates row.box)
      (any (str_eq row.source_row_id) prepared) prediction
      (relationships_of relationships prediction row.source_row_id)

status_of :
    {F : Type 0} (coordinates : Coordinates F) (row : SourceRow F) (row_type : RowType)
    (prepared : List String) (relationships : Relationships)
    → is_background row_type row.instance_label ≡ false
    → geometry_reason coordinates row.box ≡ none
    → any (str_eq row.source_row_id) prepared ≡ true
    → row_status coordinates row row_type prepared relationships
      ≡ matched_status row_type (relationships_of relationships row_type row.source_row_id)
unfolding row_status
status_of coordinates row row_type prepared relationships labelled proper present =
    cc (labelled, proper, present)

-- The statuses that come from the matches.
abbrev IsMatched : RowStatus → Type 0
IsMatched background = ⊥
IsMatched (RowStatus.excluded reason) = ⊥
IsMatched filtered = Unit
IsMatched true_positive = Unit
IsMatched false_positive = Unit
IsMatched false_negative = Unit

by_tests :
    (row_type : RowType) (found : Relationships) (status : RowStatus) (b : Bool) (o : Option String)
    (prepared : Bool)
    → IsMatched status
    → (if b then background else checked_status o prepared row_type found) ≡ status
    → (b ≡ false) × (o ≡ none) × (prepared ≡ true) × (matched_status row_type found ≡ status)
by_tests row_type found status true o prepared h e = absurd (subst IsMatched (sym e) h)
by_tests row_type found status false none true h e = (refl, refl, refl, e)
by_tests row_type found status false (some reason) prepared h e = absurd (subst IsMatched (sym e) h)
by_tests ground_truth found status false none false h e = absurd (subst IsMatched (sym e) h)
by_tests prediction found status false none false h e = absurd (subst IsMatched (sym e) h)

-- What the status of a prepared row says of its relationships.
record Matched (row_type : RowType) (found : Relationships) (status : RowStatus) : Type 0 where
  hit_iff : (status ≡ true_positive) ↔ (has_true_positive found ≡ true)
  filtered_iff : (status ≡ filtered) ↔ ((row_type ≡ prediction) × (any (λ _. true) found ≡ false))
  missed_iff :
      (status ≡ false_negative) ↔ ((row_type ≡ ground_truth) × (has_true_positive found ≡ false))
  wrong_iff : (status ≡ false_positive) ↔ (
      (row_type ≡ prediction) × (any (λ _. true) found ≡ true) × (has_true_positive found ≡ false))

matched_status-Matched :
    (row_type : RowType) (found : Relationships)
    → Matched row_type found (matched_status row_type found)
matched_status-Matched ground_truth found = record {
  hit_iff = ground arith;
  filtered_iff = ground arith;
  missed_iff = ground arith;
  wrong_iff = ground arith;
}
matched_status-Matched prediction [] = record {
  hit_iff = ground arith;
  filtered_iff = ground arith;
  missed_iff = ground arith;
  wrong_iff = ground arith;
}
matched_status-Matched prediction (entry ∷ found) = record {
  hit_iff = ground arith;
  filtered_iff = ground arith;
  missed_iff = ground arith;
  wrong_iff = ground arith;
}

-- Whether the matches decide on a row: it has a label or is a prediction, has a proper box, and was
-- prepared.
abbrev pub IsJudgedRow : {F : Type 0} → Coordinates F → SourceRow F → RowType → List String → Type 0
IsJudgedRow coordinates row row_type prepared =
    (is_background row_type row.instance_label ≡ false)
    × (geometry_reason coordinates row.box ≡ none)
    × (any (str_eq row.source_row_id) prepared ≡ true)

-- What the status of a row tells of the matches.
pub record TellsMatches (gt_mapping pred_mapping : Mapping) (matches : List MatchResult)
    (row_type : RowType) (id : String) (IsJudged : Type 0) (status : RowStatus) : Type 0 where
  pub hit : (status ≡ true_positive) ↔ (IsJudged × Hit gt_mapping pred_mapping matches row_type id)
  pub dropped : (status ≡ filtered) ↔ (
      IsJudged × (row_type ≡ prediction) × ¬ (Touched gt_mapping pred_mapping matches row_type id))
  pub missed :
      (status ≡ false_negative)
      ↔ (IsJudged × (row_type ≡ ground_truth) × ¬ (Hit gt_mapping pred_mapping matches row_type id))
  pub wrong : (status ≡ false_positive) ↔ (
      IsJudged
      × (row_type ≡ prediction)
      × Touched gt_mapping pred_mapping matches row_type id
      × ¬ (Hit gt_mapping pred_mapping matches row_type id))

decided_of :
    {F : Type 0} (coordinates : Coordinates F) (row : SourceRow F) (row_type : RowType)
    (prepared : List String) (relationships : Relationships) (s : RowStatus)
    → IsMatched s
    → row_status coordinates row row_type prepared relationships ≡ s
    → IsJudgedRow coordinates row row_type prepared
      × (matched_status row_type (relationships_of relationships row_type row.source_row_id) ≡ s)
unfolding row_status
decided_of coordinates row row_type prepared relationships s matched e =
    let (labelled, proper, present, same) =
      by_tests row_type (relationships_of relationships row_type row.source_row_id) s
        (is_background row_type row.instance_label) (geometry_reason coordinates row.box)
        (any (str_eq row.source_row_id) prepared) matched e in
    ((labelled, proper, present), same)

false_iff : {P : Type 0} (b : Bool) → (b ≡ true) ↔ P → (b ≡ false) ↔ (¬ P)
false_iff true h = (λ e. absurd (cc (e)), λ k. absurd (k (h.0 refl)))
false_iff false h = (λ _ p. absurd (cc (h.1 p)), λ _. refl)

-- Over the relationships of some matches, a row is a true positive exactly if the matches decide on it
-- and one that is a true positive has it; it is filtered exactly if they decide on it, it is a
-- prediction, and no match has it; it is a false negative exactly if they decide on it, it is a ground
-- truth, and no true positive has it; and it is a false positive exactly if they decide on it, it is a
-- prediction, and some match has it, but no true positive. The matches
-- decide on a row that has a label or is a prediction, has a proper box, and was prepared.
pub row_status-TellsMatches :
    {F : Type 0} (coordinates : Coordinates F) (row : SourceRow F) (row_type : RowType)
    (prepared : List String) (phase : String) (gt_mapping pred_mapping : Mapping) (number : ℕ)
    (matches : List MatchResult) (relationships : Relationships)
    → relationship_lists phase gt_mapping pred_mapping number matches ≡ ok relationships
    → TellsMatches gt_mapping pred_mapping matches row_type row.source_row_id
        (IsJudgedRow coordinates row row_type prepared)
        (row_status coordinates row row_type prepared relationships)
row_status-TellsMatches coordinates row row_type prepared phase gt_mapping pred_mapping number
      matches relationships given =
    let id : String = row.source_row_id in
    let found : Relationships = relationships_of relationships row_type id in
    let h : Matched row_type found (matched_status row_type found) =
      matched_status-Matched row_type found in
    let hits : (has_true_positive found ≡ true) ↔ Hit gt_mapping pred_mapping matches row_type id =
      has_true_positive-iff-Hit phase gt_mapping pred_mapping number matches relationships given
        row_type id in
    let touches : (any (λ _. true) found ≡ true)
        ↔ Touched gt_mapping pred_mapping matches row_type id =
      any-iff-Touched phase gt_mapping pred_mapping number matches relationships given row_type
        id in
    let no_hit = false_iff (has_true_positive found) hits in
    let no_touch = false_iff (any (λ _. true) found) touches in
    record {
      hit = (
        λ e. let (judged, m) = decided true_positive tt e in (judged, hits.0 (h.hit_iff.0 m)),
        λ (judged, k). status judged ∙ h.hit_iff.1 (hits.1 k),
      );
      dropped = (
        λ e.
            let (judged, m) = decided filtered tt e in
            let (own, none_) = h.filtered_iff.0 m in (judged, own, no_touch.0 none_),
        λ (judged, own, k). status judged ∙ h.filtered_iff.1 (own, no_touch.1 k),
      );
      missed = (
        λ e.
            let (judged, m) = decided false_negative tt e in
            let (own, none_) = h.missed_iff.0 m in (judged, own, no_hit.0 none_),
        λ (judged, own, k). status judged ∙ h.missed_iff.1 (own, no_hit.1 k),
      );
      wrong = (
        λ e.
            let (judged, m) = decided false_positive tt e in
            let (own, some_, none_) = h.wrong_iff.0 m in
            (judged, own, touches.0 some_, no_hit.0 none_),
        λ (judged, own, t, k). status judged ∙ h.wrong_iff.1 (own, touches.1 t, no_hit.1 k),
      );
    }
  where
    status :
        IsJudgedRow coordinates row row_type prepared
        → row_status coordinates row row_type prepared relationships
          ≡ matched_status row_type (relationships_of relationships row_type row.source_row_id)
    status (labelled, proper, present) =
        status_of coordinates row row_type prepared relationships labelled proper present

    decided :
        (s : RowStatus)
        → IsMatched s
        → row_status coordinates row row_type prepared relationships ≡ s
        → IsJudgedRow coordinates row row_type prepared
          × (matched_status row_type (relationships_of relationships row_type row.source_row_id)
              ≡ s)
    decided s = decided_of coordinates row row_type prepared relationships s
