-- ===== src/BatchEstimation/Reuse/Selection.antt =====
-- Which of the saved cases `select_estimate` chooses.
use mathlib.Core.Path.{subst}
use clearml_yolo.Base.{
  keep-true, keep-false, All-map, ◌∙◌, ◌≤◌, ◌<◌, ◌≡◌, refl, sym, ap, inl, inr, Bool, true, List, [],
  ◌∷◌, ◌++◌, ltb, keep, All, Result, ok, err, arith, if_ind, Bool-cases,
}
use clearml_yolo.BatchEstimation.Model.{SyntheticWorkload, TrainingProfile}
use clearml_yolo.BatchEstimation.Case.{EstimateCase}
use clearml_yolo.BatchEstimation.Reuse.{
  is_compatible, batch_or_zero, least, least_of, select_estimate,
}
use clearml_yolo.BatchEstimation.Reuse.Compatibility.{
  IsReusable, compatibility_issues_iff, is_compatible_iff,
}

-- `best` is the first of the cases with the smallest batch.
abbrev pub IsFirstLeast : EstimateCase → List EstimateCase → Type 0
IsFirstLeast best cases =
    (before : List EstimateCase) × (after : List EstimateCase) × (cases ≡ before ++ best ∷ after)
    × All (λ case. batch_or_zero best < batch_or_zero case) before
    × All (λ case. batch_or_zero best ≤ batch_or_zero case) after

least_le :
    (best case : EstimateCase) (cases : List EstimateCase)
    → IsFirstLeast best (case ∷ cases)
    → batch_or_zero best ≤ batch_or_zero case
least_le best case cases ([], after, e, lower, others) =
    let same : case ≡ best = cc in omega (arith, ap batch_or_zero same)
least_le best case cases (first ∷ before, after, e, lower, others) =
    let same : case ≡ first = cc in omega (arith, lower.0, ap batch_or_zero same)

-- A lower case takes the place of the best one.
replace_best :
    (best best' case : EstimateCase) (cases : List EstimateCase)
    → batch_or_zero case < batch_or_zero best'
    → IsFirstLeast best (case ∷ cases)
    → IsFirstLeast best (best' ∷ case ∷ cases)
replace_best best best' case cases h (before, after, e, lower, others) =
    let below : batch_or_zero best < batch_or_zero best' =
      omega (arith, h, least_le best case cases (before, after, e, lower, others)) in
    (best' ∷ before, after, ap (λ xs. best' ∷ xs) e, (below, lower), others)

keep_best :
    (best best' case : EstimateCase) (cases : List EstimateCase)
    → batch_or_zero best' ≤ batch_or_zero case
    → IsFirstLeast best (best' ∷ cases)
    → IsFirstLeast best (best' ∷ case ∷ cases)
keep_best best best' case cases h ([], after, e, lower, others) =
    let same : best' ≡ best = cc in
    let rest : cases ≡ after = cc in
    ([], case ∷ after, cc, tt, (omega (arith, h, ap batch_or_zero same), others))
keep_best best best' case cases h (first ∷ before, after, e, lower, others) =
    let same : best' ≡ first = cc in
    let rest : cases ≡ before ++ best ∷ after = cc in
    let least_best : batch_or_zero best < batch_or_zero best' =
      omega (arith, lower.0, ap batch_or_zero same) in
    let least_case : batch_or_zero best < batch_or_zero case = omega (arith, h, least_best) in
    (
      best' ∷ case ∷ before,
      after,
      ap (λ xs. best' ∷ case ∷ xs) rest,
      (least_best, (least_case, lower.1)),
      others,
    )

least-IsFirstLeast :
    (best : EstimateCase) (cases : List EstimateCase)
    → IsFirstLeast (least best cases) (best ∷ cases)
unfolding least
least-IsFirstLeast best [] = ([], [], refl, tt, tt)
least-IsFirstLeast best (case ∷ cases) =
    if_ind (λ r. IsFirstLeast r (best ∷ case ∷ cases))
      (ltb (batch_or_zero case) (batch_or_zero best))
      (λ h. replace_best _ best case cases (ground arith) (least-IsFirstLeast case cases))
      (λ h. keep_best _ best case cases (ground arith) (least-IsFirstLeast best cases))

-- An entry of a list, chosen by a test, with what holds of the chosen entries before and after it.
abbrev Chosen {ℓ} : {A : Type ℓ} → (A → Bool) → (A → Type 0) → (A → Type 0) → A → List A → Type ℓ
Chosen {A = A} p L M best xs =
    (before : List A) × (after : List A) × (xs ≡ before ++ best ∷ after)
    × (p best ≡ true)
    × All (λ x. p x ≡ true → L x) before
    × All (λ x. p x ≡ true → M x) after

module _ {ℓ} {A : Type ℓ} (p : A → Bool) (L M : A → Type 0) where
  keep-All : (xs : List A) → All M (keep p xs) → All (λ x. p x ≡ true → M x) xs
  keep-All [] h = tt
  keep-All (x ∷ xs) h = elim (Bool-cases (p x)) [
    | inl e ↦
        let kept : All M (x ∷ keep p xs) = subst (All M) (keep-true p x xs e) h in
        (λ _. kept.0, keep-All xs kept.1)
    | inr e ↦ (λ e'. cc, keep-All xs (subst (All M) (keep-false p x xs e) h))
  ]

  pass_over :
      (x : A) (xs : List A) (best : A)
      → (p x ≡ true → L x)
      → Chosen p L M best xs
      → Chosen p L M best (x ∷ xs)
  pass_over x xs best lower (before, after, e, chosen, l, m) =
      (x ∷ before, after, ap (λ xs. x ∷ xs) e, chosen, (lower, l), m)

  Chosen-of_keep :
      (xs before after : List A) (best : A)
      → keep p xs ≡ before ++ best ∷ after
      → All L before
      → All M after
      → Chosen p L M best xs
  Chosen-of_keep [] [] after best e l m = cc
  Chosen-of_keep [] (b ∷ before) after best e l m = cc
  Chosen-of_keep (x ∷ xs) [] after best e l m = elim (Bool-cases (p x)) [
    | inl taken ↦
        let same : x ≡ best = cc (e, keep-true p x xs taken) in
        let rest : after ≡ keep p xs = cc (e, keep-true p x xs taken) in
        ([], xs, cc, cc, tt, keep-All xs (subst (All M) rest m))
    | inr passed ↦
        pass_over x xs best (λ taken. cc)
          (Chosen-of_keep xs [] after best (sym (keep-false p x xs passed) ∙ e) l m)
  ]
  Chosen-of_keep (x ∷ xs) (b ∷ before) after best e l m = elim (Bool-cases (p x)) [
    | inl taken ↦
        let same : b ≡ x = cc (e, keep-true p x xs taken) in
        let rest : keep p xs ≡ before ++ best ∷ after = cc (e, keep-true p x xs taken) in
        pass_over x xs best (λ _. subst L same l.0) (Chosen-of_keep xs before after best rest l.1 m)
    | inr passed ↦
        pass_over x xs best (λ taken. cc)
          (Chosen-of_keep xs (b ∷ before) after best (sym (keep-false p x xs passed) ∙ e) l m)
  ]

-- The first of the reusable cases with the smallest batch: it is reusable, each reusable case before
-- it has a larger batch, and each one after it has no smaller batch.
abbrev pub IsFirstReusable :
    TrainingProfile → SyntheticWorkload → List EstimateCase → EstimateCase → Type 0
IsFirstReusable profile workload cases best =
    (before : List EstimateCase) × (after : List EstimateCase) × (cases ≡ before ++ best ∷ after)
    × IsReusable profile workload best
    × All (λ case. IsReusable profile workload case → batch_or_zero best < batch_or_zero case)
        before
    × All (λ case. IsReusable profile workload case → batch_or_zero best ≤ batch_or_zero case) after

pub is_compatible_of :
    (profile : TrainingProfile) (workload : SyntheticWorkload) (case : EstimateCase)
    → IsReusable profile workload case
    → is_compatible profile workload case ≡ true
is_compatible_of profile workload case h =
    (is_compatible_iff profile workload case).1
      ((compatibility_issues_iff case profile workload).1 h)

pub IsReusable-of :
    (profile : TrainingProfile) (workload : SyntheticWorkload) (case : EstimateCase)
    → is_compatible profile workload case ≡ true
    → IsReusable profile workload case
IsReusable-of profile workload case h =
    (compatibility_issues_iff case profile workload).0
      ((is_compatible_iff profile workload case).0 h)

IsFirstReusable-of_Chosen :
    (profile : TrainingProfile) (workload : SyntheticWorkload) (cases : List EstimateCase)
    (best : EstimateCase)
    → Chosen
        (is_compatible profile workload)
        (λ case. batch_or_zero best < batch_or_zero case)
        (λ case. batch_or_zero best ≤ batch_or_zero case)
        best
        cases
    → IsFirstReusable profile workload cases best
IsFirstReusable-of_Chosen profile workload cases best (before, after, e, chosen, lower, others) = (
  before,
  after,
  e,
  IsReusable-of profile workload best chosen,
  All-map (λ case h r. h (is_compatible_of profile workload case r)) before lower,
  All-map (λ case h r. h (is_compatible_of profile workload case r)) after others,
)

-- What a selection reports: a case that it returns is the first of the reusable cases with the
-- smallest batch, and it raises only if none is reusable.
abbrev pub IsSelection :
    List EstimateCase → TrainingProfile → SyntheticWorkload → Result EstimateCase → Type 0
IsSelection cases profile workload (ok best) = IsFirstReusable profile workload cases best
IsSelection cases profile workload (err _) =
    All (λ case. IsReusable profile workload case → ⊥) cases

least_of-IsSelection :
    (cases : List EstimateCase) (profile : TrainingProfile) (workload : SyntheticWorkload)
    (kept : List EstimateCase)
    → keep (is_compatible profile workload) cases ≡ kept
    → IsSelection cases profile workload (least_of kept)
least_of-IsSelection cases profile workload [] e =
    All-map (λ case h r. absurd (h (is_compatible_of profile workload case r))) cases
      (keep-All (is_compatible profile workload) (λ _. ⊥) (λ _. ⊥) cases
        (subst (All (λ _. ⊥)) (sym e) tt))
least_of-IsSelection cases profile workload (case ∷ kept) e =
    let (before, after, e', lower, others) = least-IsFirstLeast case kept in
    IsFirstReusable-of_Chosen profile workload cases (least case kept) (
      Chosen-of_keep (is_compatible profile workload)
        (λ other. batch_or_zero (least case kept) < batch_or_zero other)
        (λ other. batch_or_zero (least case kept) ≤ batch_or_zero other) cases before after
        (least case kept) (e ∙ e') lower others)

-- A case that the selection returns is the first of the reusable cases with the smallest batch, and
-- the selection raises only if no case is reusable.
pub select_estimate-IsSelection :
    (cases : List EstimateCase) (profile : TrainingProfile) (workload : SyntheticWorkload)
    → IsSelection cases profile workload (select_estimate cases profile workload)
unfolding select_estimate
select_estimate-IsSelection cases profile workload =
    least_of-IsSelection cases profile workload (keep (is_compatible profile workload) cases) refl
