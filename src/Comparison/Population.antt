-- ===== src/Comparison/Population.antt =====
-- Which classes are compared, and that the pooled row and its tests have the same population.
use mathlib.Core.Path.{subst, ap₂}
use mathlib.Core.List.{append_assoc}
use clearml_yolo.Base.{
  ◌++◌, ◌+◌, ◌<◌, ◌≡◌, refl, ap, sym, ◌∙◌, Bool, keep, keep_passes, keep-true, keep-false, ◌↔◌,
  true, false, none, List, [], ◌∷◌, String, str_eq, All, arith, eq_iff, eq_refl, Bool-cases, inl,
  inr,
}
use clearml_yolo.Comparison.Model.{
  GroundTruthRow, PredictionRow, ClassCounts, SplitOutcome, counts_of,
}
use clearml_yolo.Comparison.{
  knows, exclusion_reason, pooled_counts, restricted_counts, restricted_outcome, class_rows,
}

-- A class has no reason to be excluded exactly when both models know it, one of them has a ground
-- truth of it, and one of them a prediction.
pub exclusion_reason_iff :
    (name : String) (baseline candidate : ClassCounts)
    (known_baseline known_candidate : List String)
    → (exclusion_reason name baseline candidate known_baseline known_candidate ≡ none) ↔ (
        (knows known_baseline name ≡ true)
        × (knows known_candidate name ≡ true)
        × (0 < baseline.tp + baseline.fn + (candidate.tp + candidate.fn))
        × (0 < baseline.tp + baseline.fp + (candidate.tp + candidate.fp)))
unfolding exclusion_reason
exclusion_reason_iff name baseline candidate known_baseline known_candidate = ground arith

later_known :
    (other : String) (names : List String) (name : String)
    → str_eq other name ≡ false
    → knows (other ∷ names) name ≡ true
    → knows names name ≡ true
later_known other names name e h = ground (arith, e, h, eq_iff other name, eq_iff name other)

counts_of-restricted :
    (counts : List (String × ClassCounts)) (names : List String) (name : String)
    → knows names name ≡ true
    → counts_of (restricted_counts counts names) name ≡ counts_of counts name
counts_of-restricted counts [] name h = cc
counts_of-restricted counts (other ∷ names) name h = elim (Bool-cases (str_eq other name)) [
  | inl e ↦
      let same : other ≡ name = (eq_iff other name).0 e in
      ground (arith, e, ap (counts_of counts) same)
  | inr e ↦
      let later : knows names name ≡ true = later_known other names name e h in
      ground (arith, e, counts_of-restricted counts names name later)
]

pooled_counts-restricted :
    (counts : List (String × ClassCounts)) (all_names names : List String)
    → All (λ name. knows all_names name ≡ true) names
    → pooled_counts (restricted_counts counts all_names) names ≡ pooled_counts counts names
unfolding pooled_counts
pooled_counts-restricted counts all_names [] h = refl
pooled_counts-restricted counts all_names (name ∷ names) h = cc (
  counts_of-restricted counts all_names name h.0,
  pooled_counts-restricted counts all_names names h.1,
)

-- The keys of a list are all known to it.
all_known :
    (all_names names : List String)
    → (name : String) → knows names name ≡ true
    → knows (all_names ++ names) name ≡ true
all_known [] names name h = h
all_known (x ∷ xs) names name h = ground (arith, all_known xs names name h)

known-All : (before names : List String) → All (λ name. knows (before ++ names) name ≡ true) names
known-All before [] = tt
known-All before (name ∷ names) = (
  all_known before (name ∷ names) name (ground (arith, eq_refl name)),
  subst (λ xs. All (λ other. knows xs other ≡ true) names) (append_assoc before (name ∷ []) names)
      (known-All (before ++ name ∷ []) names),
)

-- A later test that lets an entry pass is not touched by an earlier one that does, too.
keep-keep :
    {A : Type 0} (p q : A → Bool) (xs : List A)
    → ((x : A) → p x ≡ true → q x ≡ true)
    → keep p (keep q xs) ≡ keep p xs
keep-keep {A} p q [] h = refl
keep-keep {A} p q (x ∷ xs) h = elim (Bool-cases (q x)) [
  | inl e ↦
      ap (keep p) (keep-true q x xs e)
      ∙ ap (λ (r : List A). elim (p x) [ true ↦ x ∷ r | false ↦ r ]) (keep-keep p q xs h)
  | inr e ↦ elim (Bool-cases (p x)) [
    | inl passes ↦ absurd (cc (h x passes, e))
    | inr fails ↦
        ap (keep p) (keep-false q x xs e) ∙ keep-keep p q xs h ∙ sym (keep-false p x xs fails)
  ]
]

knows_of_eq :
    (names : List String) (own name : String)
    → knows names name ≡ true
    → str_eq own name ≡ true
    → knows names own ≡ true
knows_of_eq names own name h e = subst (λ x. knows names x ≡ true) (sym ((eq_iff own name).0 e)) h

-- The part of an outcome that is about some classes.
pub record IsPart (outcome : SplitOutcome) (names : List String) (part : SplitOutcome)
    : Type 0 where
  pub pooled : pooled_counts part.counts names ≡ pooled_counts outcome.counts names
  pub own_counts :
      (name : String)
      → knows names name ≡ true
      → counts_of part.counts name ≡ counts_of outcome.counts name
  pub own_rows :
      (name : String) → knows names name ≡ true → class_rows part name ≡ class_rows outcome name
  pub only_ground_truths :
      All (λ (row : GroundTruthRow). knows names row.instance_label ≡ true) part.gt_status
  pub only_predictions :
      All (λ (row : PredictionRow). knows names row.instance_label ≡ true) part.pred_status

-- The restriction of an outcome to some classes, which the pooled tests see, has the population of
-- the pooled row: its pooled counts over the classes are those of the outcome, each of the classes
-- has its counts and its rows, in their order, and every row is of one of the classes.
pub restricted_outcome-IsPart :
    (outcome : SplitOutcome) (names : List String)
    → IsPart outcome names (restricted_outcome outcome names)
unfolding restricted_outcome class_rows
restricted_outcome-IsPart outcome names = record {
  pooled = pooled_counts-restricted outcome.counts names names (known-All [] names);
  own_counts = counts_of-restricted outcome.counts names;
  own_rows = λ name known.
      ap₂ (λ (gts : List GroundTruthRow) (preds : List PredictionRow). (gts, preds))
        (keep-keep (λ (row : GroundTruthRow). str_eq row.instance_label name) _ outcome.gt_status
          (λ row. knows_of_eq names row.instance_label name known))
        (keep-keep (λ (row : PredictionRow). str_eq row.instance_label name) _ outcome.pred_status
          (λ row. knows_of_eq names row.instance_label name known));
  only_ground_truths =
      keep_passes (λ (row : GroundTruthRow). knows names row.instance_label) outcome.gt_status;
  only_predictions =
      keep_passes (λ (row : PredictionRow). knows names row.instance_label) outcome.pred_status;
}
