-- ===== src/Comparison/Model.antt =====
-- The records of core/comparison and core/evaluation/models.py that the comparison uses.
use Prim.Native.String.{compare}
use Prim.Native.Nat.{Ordering}
use clearml_yolo.Base.{ℕ, zero, suc, Bool, Option, List, [], ◌∷◌, String, str_eq, if◌then◌else◌}

pub record ClassCounts : Type 0 where
  pub tp : ℕ
  pub fp : ℕ
  pub fn : ℕ

abbrev pub zero_counts : ClassCounts
zero_counts = record { tp = 0; fp = 0; fn = 0 }

pub record GroundTruthRow : Type 0 where
  pub gt_index : ℕ
  pub image_name : String
  pub instance_label : String
  pub detected : Bool

pub record PredictionRow : Type 0 where
  pub pred_index : ℕ
  pub image_name : String
  pub instance_label : String
  pub is_tp : Bool

pub record SplitOutcome : Type 0 where
  pub counts : List (String × ClassCounts)
  pub gt_status : List GroundTruthRow
  pub pred_status : List PredictionRow

-- `counts.get(name, ClassCounts())`
abbrev pub counts_of : List (String × ClassCounts) → String → ClassCounts
counts_of [] name = zero_counts
counts_of ((other, counts) ∷ rest) name =
    let later = counts_of rest name in if str_eq other name then counts else later

abbrev pub names_of : List (String × ClassCounts) → List String
names_of [] = []
names_of ((name, _) ∷ rest) = name ∷ names_of rest

pub data Reason : Type 0 where
  no_ground_truth no_predictions unknown_to_baseline unknown_to_candidate unknown_to_both : Reason

pub data Verdict : Type 0 where
  improved degraded not_significant unavailable : Verdict

-- What the comparison uses of floats.
pub record Floats (F : Type 0) : Type 0 where
  pub nan : F
  pub divide : ℕ → ℕ → F
  pub is_nan : F → Bool
  pub above : F → F → Bool
  pub is_zero : F → Bool
  pub is_positive : F → Bool
  pub is_probability : F → Bool

pub record TestResult (F : Type 0) : Type 0 where
  pub delta : F
  pub p_value : F
  pub ci : Option (F × F)

pub record Tests (F : Type 0) : Type 0 where
  pub precision : TestResult F
  pub recall_interval : TestResult F
  pub recall : TestResult F

pub record Side (F : Type 0) : Type 0 where
  pub threshold : F
  pub counts : Option ClassCounts
  pub precision : F
  pub recall : F

pub record Row (F : Type 0) : Type 0 where
  pub class_name : String
  pub is_pooled : Bool
  pub baseline : Side F
  pub candidate : Side F
  pub precision_delta : F
  pub precision_ci : Option (F × F)
  pub precision_p_value : F
  pub precision_p_bh : F
  pub precision_verdict : Verdict
  pub recall_delta : F
  pub recall_ci : Option (F × F)
  pub recall_p_value : F
  pub recall_p_bh : F
  pub recall_verdict : Verdict

-- The text into a sorted list without repetition.
unfoldable pub insert : String → List String → List String
insert name [] = name ∷ []
insert name (other ∷ names) =
    let later = insert name names in
    elim (compare name other) [
      | Ordering.lt ↦ name ∷ other ∷ names
      | Ordering.eq ↦ other ∷ names
      | Ordering.gt ↦ other ∷ later
    ]

-- `sorted(set(names))`
unfoldable pub sorted_set : List String → List String
unfolding insert
sorted_set [] = []
sorted_set (name ∷ names) = insert name (sorted_set names)

abbrev pub take {ℓ} : {A : Type ℓ} → ℕ → List A → List A
take zero xs = []
take (suc n) [] = []
take (suc n) (x ∷ xs) = x ∷ take n xs

abbrev pub drop {ℓ} : {A : Type ℓ} → ℕ → List A → List A
drop zero xs = xs
drop (suc n) [] = []
drop (suc n) (x ∷ xs) = drop n xs
