-- ===== src/Comparison/Classes.antt =====
-- The classes of a comparison: a row each, and the split into the compared and the excluded ones.
use mathlib.Core.Path.{subst}
use clearml_yolo.Base.{
  ℕ, ◌≡◌, refl, sym, ap, ◌∙◌, Bool, true, false, not, Option, none, some, List, [], ◌∷◌, ◌++◌, map,
  String, All, keep, keep-true, keep-false, ok, raise_if-eq-ok, >>=-eq-ok, ok-injective,
}
use clearml_yolo.Comparison.Model.{SplitOutcome, Reason, Floats, Row}
use clearml_yolo.Comparison.{
  place, sort_classes, reason_of, display_classes, make_row, with_adjusted, adjust_family,
  precision_p_values, recall_p_values,
}
use clearml_yolo.Comparison.Model.{take, drop}
use clearml_yolo.Base.{length}
use clearml_yolo.Comparison.Assembly.{
  ComparisonTables, ComparisonStatistics, vocabulary, class_row, family_of, pooled_row, assemble,
  build_comparison_rows,
}

abbrev pub is_shared : Option Reason → Bool
is_shared none = true
is_shared (some why) = false

abbrev pub class_names : {F : Type 0} → List (Row F) → List String
class_names rows = map (λ row. row.class_name) rows

-- The classes of the display are split by whether they have a reason to be excluded, in their order;
-- an excluded one has its reason.
pub record IsSplit (reason : String → Option Reason) (names compared : List String)
    (excluded : List (String × Reason)) : Type 0 where
  pub compares : compared ≡ keep (λ name. is_shared (reason name)) names
  pub excludes :
      map (λ (entry : String × Reason). entry.0) excluded
      ≡ keep (λ name. not (is_shared (reason name))) names
  pub explains : All (λ (entry : String × Reason). reason entry.0 ≡ some entry.1) excluded

place-IsSplit :
    (reason : String → Option Reason) (name : String) (o : Option Reason) (names : List String)
    (rest : List String × List (String × Reason))
    → reason name ≡ o
    → IsSplit reason names rest.0 rest.1
    → IsSplit reason (name ∷ names) (place name o rest).0 (place name o rest).1
place-IsSplit reason name none names (compared, excluded) e h =
    let shared : is_shared (reason name) ≡ true = ap is_shared e in
    record {
      compares =
          ap (λ l. name ∷ l) h.compares
          ∙ sym (keep-true (λ name. is_shared (reason name)) name names shared);
      excludes =
          h.excludes
          ∙ sym (keep-false (λ name. not (is_shared (reason name))) name names (ap not shared));
      explains = h.explains;
    }
place-IsSplit reason name (some why) names (compared, excluded) e h =
    let apart : is_shared (reason name) ≡ false = ap is_shared e in
    record {
      compares = h.compares ∙ sym (keep-false (λ name. is_shared (reason name)) name names apart);
      excludes =
          ap (λ l. name ∷ l) h.excludes
          ∙ sym (keep-true (λ name. not (is_shared (reason name))) name names (ap not apart));
      explains = (e, h.explains);
    }

sort_classes-IsSplit :
    (reason : String → Option Reason) (names : List String)
    → IsSplit reason names (sort_classes reason names).0 (sort_classes reason names).1
unfolding sort_classes
sort_classes-IsSplit reason [] = record { compares = refl; excludes = refl; explains = tt }
sort_classes-IsSplit reason (name ∷ names) =
    place-IsSplit reason name (reason name) names (sort_classes reason names) refl
      (sort_classes-IsSplit reason names)

module _ {F : Type 0} (floats : Floats F) where
  class_names-with_adjusted :
      (q : F) (rows : List (Row F)) (ps rs : List F) {rows' : List (Row F)}
      → with_adjusted floats q rows ps rs ≡ ok rows'
      → class_names rows' ≡ class_names rows
  unfolding with_adjusted
  class_names-with_adjusted q [] [] [] e = sym (ap class_names (ok-injective e))
  class_names-with_adjusted q (row ∷ rows) (p ∷ ps) (r ∷ rs) e =
      let (rest, e₁, e₂) = >>=-eq-ok (with_adjusted floats q rows ps rs) _ e in
      sym (ap class_names (ok-injective e₂))
      ∙ ap (λ l. row.class_name ∷ l) (class_names-with_adjusted q rows ps rs e₁)
  class_names-with_adjusted q [] (p ∷ ps) rs e = absurd (cc (e))
  class_names-with_adjusted q [] [] (r ∷ rs) e = absurd (cc (e))
  class_names-with_adjusted q (row ∷ rows) [] rs e = absurd (cc (e))
  class_names-with_adjusted q (row ∷ rows) (p ∷ ps) [] e = absurd (cc (e))

  class_names-adjust_family :
      (adjust : List F → F → List F) (q : F) (rows : List (Row F)) {rows' : List (Row F)} {size : ℕ}
      → adjust_family floats adjust q rows ≡ ok (rows', size)
      → class_names rows' ≡ class_names rows
  unfolding adjust_family
  class_names-adjust_family adjust q rows e =
      let adjusted : List F =
        adjust (precision_p_values floats rows ++ recall_p_values floats rows) q in
      let (rows', e₁, e₂) =
        >>=-eq-ok
          (with_adjusted floats q rows (take (length rows) adjusted) (drop (length rows) adjusted))
          _ e in
      sym (ap (λ (r : List (Row F) × ℕ). class_names r.0) (ok-injective e₂))
      ∙ class_names-with_adjusted q rows (take (length rows) adjusted) (drop (length rows) adjusted)
          e₁

module _ {F : Type 0} (floats : Floats F) (statistics : ComparisonStatistics F)
    (baseline candidate : SplitOutcome)
    (thresholds_baseline thresholds_candidate : List (String × F))
    (known_baseline known_candidate : List String) where
  class_names-class_row :
      (compared names : List String)
      → class_names (
          map
            (class_row floats statistics baseline candidate thresholds_baseline thresholds_candidate
              known_baseline known_candidate compared)
            names)
        ≡ names
  unfolding class_row make_row
  class_names-class_row compared [] = refl
  class_names-class_row compared (name ∷ names) =
      ap (λ l. name ∷ l) (class_names-class_row compared names)

  class_names-family_of :
      (q : F) (rows : List (Row F)) {rows' : List (Row F)} {size : ℕ}
      → family_of floats statistics baseline candidate thresholds_baseline thresholds_candidate
          known_baseline known_candidate q rows
        ≡ ok (rows', size)
      → class_names rows' ≡ class_names rows
  class_names-family_of q [] e =
      sym (ap (λ (r : List (Row F) × ℕ). class_names r.0) (ok-injective e))
  class_names-family_of q (row ∷ rows) e =
      class_names-adjust_family floats statistics.adjust q (row ∷ rows) e

  class_names-append :
      (rows : List (Row F)) (row : Row F)
      → class_names (rows ++ row ∷ []) ≡ class_names rows ++ row.class_name ∷ []
  class_names-append [] row = refl
  class_names-append (other ∷ rows) row =
      ap (λ l. other.class_name ∷ l) (class_names-append rows row)

-- The tables of a comparison of two outcomes over two vocabularies.
pub record Accounts {F : Type 0} (baseline candidate : SplitOutcome)
    (known_baseline known_candidate : List String) (tables : ComparisonTables F) : Type 0 where
  pub rows_of :
      class_names tables.rows
      ≡ display_classes baseline candidate known_baseline known_candidate ++ "pooled" ∷ []
  pub split :
      IsSplit
        (reason_of baseline candidate known_baseline known_candidate)
        (display_classes baseline candidate known_baseline known_candidate)
        tables.pooled_classes
        tables.excluded

assemble-Accounts :
    {F : Type 0} (floats : Floats F) (statistics : ComparisonStatistics F)
    (baseline candidate : SplitOutcome)
    (thresholds_baseline thresholds_candidate : List (String × F))
    (known_baseline known_candidate : List String) (q : F) {tables : ComparisonTables F}
    → assemble floats statistics baseline candidate thresholds_baseline thresholds_candidate
        known_baseline known_candidate q
      ≡ ok tables
    → Accounts baseline candidate known_baseline known_candidate tables
unfolding assemble pooled_row make_row
assemble-Accounts {F} floats statistics baseline candidate tb tc kb kc q {tables} e =
    let names : List String = display_classes baseline candidate kb kc in
    let reason : String → Option Reason = reason_of baseline candidate kb kc in
    let compared : List String = (sort_classes reason names).0 in
    let rows : List (Row F) =
      map (class_row floats statistics baseline candidate tb tc kb kc compared) names in
    let (found, e₁, e₂) =
      >>=-eq-ok (family_of floats statistics baseline candidate tb tc kb kc q rows) _ e in
    subst (Accounts baseline candidate kb kc) (ok-injective e₂) (record {
      rows_of =
          class_names-append floats statistics baseline candidate tb tc kb kc found.0
            (pooled_row floats statistics baseline candidate tb tc kb kc q compared)
          ∙ ap (λ l. l ++ "pooled" ∷ [])
              (class_names-family_of floats statistics baseline candidate tb tc kb kc q rows e₁
                ∙ class_names-class_row floats statistics baseline candidate tb tc kb kc compared
                    names);
      split = sort_classes-IsSplit reason names;
    })

-- If a comparison gives its tables, they have a row of each class of the display, in its order, and
-- then the pooled one. The pooled classes are those of the display that have no reason to be excluded,
-- and the excluded ones are the others, each with its reason, both in the order of the display.
pub build_comparison_rows-Accounts :
    {F : Type 0} (floats : Floats F) (statistics : ComparisonStatistics F)
    (baseline candidate : SplitOutcome)
    (thresholds_baseline thresholds_candidate : List (String × F))
    (baseline_classes candidate_classes : Option (List String)) (q : F)
    (tables : ComparisonTables F)
    → build_comparison_rows floats statistics baseline candidate thresholds_baseline
        thresholds_candidate baseline_classes candidate_classes q
      ≡ ok tables
    → Accounts baseline candidate
        (vocabulary baseline_classes baseline)
        (vocabulary candidate_classes candidate)
        tables
unfolding build_comparison_rows
build_comparison_rows-Accounts floats statistics baseline candidate tb tc bs cs q tables e =
    assemble-Accounts floats statistics baseline candidate tb tc (vocabulary bs baseline)
      (vocabulary cs candidate) q (raise_if-eq-ok (not (floats.is_probability q)) _ _ e).1
