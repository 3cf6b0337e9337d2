-- ===== src/ResultRows.antt =====
-- core/evaluation/result_rows.py: the status of each source row, and the matches that each row takes
-- part in. Data frames are lists of rows, and the comparisons of floats are parameters.
pub mod Relations
pub mod Hits
pub mod Lineage
mod Examples
use clearml_yolo.Base.Int.{ℤ, pos, negsuc}
use clearml_yolo.Base.{
  ℕ, zero, suc, ◌==◌, Bool, true, false, ◌&&◌, ◌||◌, not, Option, none, some, List, [], ◌∷◌, ◌++◌,
  String, ◌<>◌, show, str_eq, any, keep, Result, ok, err, value_error, key_error, raise_if, ◌>>=◌,
  ◌>>◌, if◌then◌else◌,
}

pub data RowType : Type 0 where
  ground_truth prediction : RowType

-- A coordinate as it stands in a frame.
pub data Cell (F : Type 0) : Type 0 where
  missing : Cell F
  nonnumeric : Cell F
  numeric : F → Cell F

pub record Box (F : Type 0) : Type 0 where
  pub x_tl : Cell F
  pub y_tl : Cell F
  pub x_br : Cell F
  pub y_br : Cell F

pub record SourceRow (F : Type 0) : Type 0 where
  pub source_row_id : String
  pub instance_label : Option String
  pub box : Box F

pub record Coordinates (F : Type 0) : Type 0 where
  pub is_finite : F → Bool
  pub is_less : F → F → Bool
  pub is_equal : F → F → Bool

module _ {F : Type 0} (coordinates : Coordinates F) where
  is_missing : Cell F → Bool
  is_missing missing = true
  is_missing _ = false

  -- The checks of `_geometry_reason` on four numbers.
  number_reason : F → F → F → F → Option String
  number_reason x y x' y' =
      if not (
        coordinates.is_finite x
        && coordinates.is_finite y
        && coordinates.is_finite x'
        && coordinates.is_finite y')
      then some "nonfinite"
      else if coordinates.is_less x' x || coordinates.is_less y' y
      then some "reversed_corners"
      else if coordinates.is_equal x' x || coordinates.is_equal y' y
      then some "zero_area"
      else none

  cells_reason : Cell F → Cell F → Cell F → Cell F → Option String
  unfolding number_reason
  cells_reason (numeric x) (numeric y) (numeric x') (numeric y') = number_reason x y x' y'
  cells_reason _ _ _ _ = some "nonnumeric"

  -- `_geometry_reason`
  unfoldable pub geometry_reason : Box F → Option String
  unfolding is_missing cells_reason
  geometry_reason box =
      if is_missing box.x_tl || is_missing box.y_tl || is_missing box.x_br || is_missing box.y_br
      then some "missing"
      else cells_reason box.x_tl box.y_tl box.x_br box.y_br

-- The values of `MatchResult.type`, a text in the source.
pub data MatchType : Type 0 where
  tp fp fn : MatchType

abbrev pub is_true_positive : MatchType → Bool
is_true_positive tp = true
is_true_positive _ = false

-- A confidence and an overlap are bit patterns, which are only copied.
pub record MatchResult : Type 0 where
  pub gt_index : ℤ
  pub pred_index : ℤ
  pub type : MatchType
  pub gt_label : String
  pub pred_label : String
  pub confidence : ℕ
  pub iou : Option ℕ

pub record Relationship : Type 0 where
  pub match_id : String
  pub phase : String
  pub status : MatchType
  pub gt_source_row_id : Option String
  pub pred_source_row_id : Option String
  pub gt_index : Option ℤ
  pub pred_index : Option ℤ
  pub gt_label : String
  pub pred_label : String
  pub confidence : ℕ
  pub iou : Option ℕ

-- What `relationships` holds: the relationships in their order, each with the row that has it.
abbrev pub Relationships : Type 0
Relationships = List ((RowType × String) × Relationship)

abbrev pub Mapping : Type 0
Mapping = List (ℤ × String)

abbrev pub int_eq : ℤ → ℤ → Bool
int_eq (pos a) (pos b) = a == b
int_eq (negsuc a) (negsuc b) = a == b
int_eq _ _ = false

abbrev pub look_up : Mapping → ℤ → Result String
look_up [] index = err (key_error "index")
look_up ((other, id) ∷ mapping) index =
    let rest = look_up mapping index in if int_eq other index then ok id else rest

-- `None if index == -1 else mapping[index]`
abbrev pub id_of : Mapping → ℤ → Result (Option String)
id_of mapping (negsuc zero) = ok none
id_of mapping (negsuc (suc n)) = look_up mapping (negsuc (suc n)) >>= λ id. ok (some id)
id_of mapping (pos n) = look_up mapping (pos n) >>= λ id. ok (some id)

-- `None if index == -1 else int(index)`
abbrev pub index_of : ℤ → Option ℤ
index_of (negsuc zero) = none
index_of (negsuc (suc n)) = some (negsuc (suc n))
index_of (pos n) = some (pos n)

-- The row of a match on one side, if it has one, with the relationship.
abbrev pub entry_of : RowType → Option String → Relationship → Relationships
entry_of row_type none relationship = []
entry_of row_type (some id) relationship = ((row_type, id), relationship) ∷ []

-- The loop of `_relationship_lists`, with the number of the match.
unfoldable pub relationship_lists :
    String → Mapping → Mapping → ℕ → List MatchResult → Result Relationships
relationship_lists phase gt_mapping pred_mapping number [] = ok []
relationship_lists phase gt_mapping pred_mapping number (match_ ∷ matches) = do
  gt_id ← id_of gt_mapping match_.gt_index
  pred_id ← id_of pred_mapping match_.pred_index
  let relationship : Relationship = record {
    match_id = phase <> ":" <> show number;
    phase = phase;
    status = match_.type;
    gt_source_row_id = gt_id;
    pred_source_row_id = pred_id;
    gt_index = index_of match_.gt_index;
    pred_index = index_of match_.pred_index;
    gt_label = match_.gt_label;
    pred_label = match_.pred_label;
    confidence = match_.confidence;
    iou = match_.iou;
  }
  rest ← relationship_lists phase gt_mapping pred_mapping (suc number) matches
  ok (entry_of ground_truth gt_id relationship ++ entry_of prediction pred_id relationship ++ rest)

abbrev pub same_type : RowType → RowType → Bool
same_type ground_truth ground_truth = true
same_type prediction prediction = true
same_type _ _ = false

-- `relationships.get((row_type, source_id), [])`
abbrev pub relationships_of : Relationships → RowType → String → Relationships
relationships_of relationships row_type id =
    keep
      (λ (entry : (RowType × String) × Relationship).
        same_type entry.0.0 row_type && str_eq entry.0.1 id)
      relationships

abbrev pub has_true_positive : Relationships → Bool
has_true_positive =
    any (λ (entry : (RowType × String) × Relationship). is_true_positive entry.1.status)

-- `filtered` has the reason "confidence_threshold", and the statuses without a reason have none.
pub data RowStatus : Type 0 where
  background filtered true_positive false_positive false_negative : RowStatus
  excluded : String → RowStatus

-- The status of a row that was prepared, from its relationships.
abbrev pub matched_status : RowType → Relationships → RowStatus
matched_status ground_truth found =
    if has_true_positive found then true_positive else false_negative
matched_status prediction [] = filtered
matched_status prediction (entry ∷ found) =
    if has_true_positive (entry ∷ found) then true_positive else false_positive

abbrev pub unprepared_status : RowType → RowStatus
unprepared_status ground_truth = excluded "duplicate_ground_truth"
unprepared_status prediction = excluded "prediction_preprocessing"

-- The status by the reason of the geometry, and whether the row was prepared.
abbrev pub checked_status : Option String → Bool → RowType → Relationships → RowStatus
checked_status (some reason) prepared row_type found = excluded ("invalid_geometry:" <> reason)
checked_status none true row_type found = matched_status row_type found
checked_status none false row_type found = unprepared_status row_type

-- The ground truth of an image without objects.
abbrev pub is_background : RowType → Option String → Bool
is_background ground_truth none = true
is_background ground_truth (some _) = false
is_background prediction label = false

-- `_row_status`; the identities of the prepared rows are a list.
unfoldable pub row_status :
    {F : Type 0} → Coordinates F → SourceRow F → RowType → List String → Relationships → RowStatus
unfolding geometry_reason
row_status coordinates row row_type prepared relationships =
    if is_background row_type row.instance_label
    then background
    else checked_status (geometry_reason coordinates row.box)
        (any (str_eq row.source_row_id) prepared) row_type
        (relationships_of relationships row_type row.source_row_id)
