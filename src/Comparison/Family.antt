-- ===== src/Comparison/Family.antt =====
-- The family of hypotheses, and the rows after its adjustment.
use clearml_yolo.Base.{ℕ, zero, suc, ◌+◌, ◌≡◌, Option, none, some, List, [], ◌∷◌, length}
use clearml_yolo.Comparison.Model.{Floats, Row}
use clearml_yolo.Comparison.{verdict}

abbrev pub get_elem? {ℓ} : {A : Type ℓ} → List A → ℕ → Option A
get_elem? [] index = none
get_elem? (x ∷ xs) zero = some x
get_elem? (x ∷ xs) (suc index) = get_elem? xs index

module _ {F : Type 0} (floats : Floats F) where
  -- The row at its two adjusted values.
  abbrev pub judged_row : F → Row F → F → F → Row F
  judged_row q row p r = record row {
    precision_p_bh = p;
    precision_verdict = verdict floats row.precision_delta p q;
    recall_p_bh = r;
    recall_verdict = verdict floats row.recall_delta r q;
  }

  -- What becomes of a row: its p-values stand in the family, of precision at its index and of recall
  -- as many places later as there are rows, and the adjusted values at the same places are its own.
  -- With them it has its verdicts, and nothing else of it changes.
  pub record IsJudged (q : F) (rows rows' : List (Row F)) (family adjusted : List F) (i : ℕ)
      (row : Row F) : Type 0 where
    pub p_bh : F
    pub r_bh : F
    pub precision_entered : get_elem? family i ≡ some row.precision_p_value
    pub recall_entered : get_elem? family (length rows + i) ≡ some row.recall_p_value
    pub precision_adjusted : get_elem? adjusted i ≡ some p_bh
    pub recall_adjusted : get_elem? adjusted (length rows + i) ≡ some r_bh
    pub became : get_elem? rows' i ≡ some (judged_row q row p_bh r_bh)

  -- The rows are judged with their own values.
  Judges : F → List (Row F) → List F → List F → List (Row F) → Type 0
  Judges q rows ps rs rows' =
      (i : ℕ) (row : Row F)
      → get_elem? rows i ≡ some row
      → (p r : F) × (get_elem? ps i ≡ some p)
        × (get_elem? rs i ≡ some r)
        × (get_elem? rows' i ≡ some (judged_row q row p r))
