-- ===== src/BatchEstimation/Storage.antt =====
-- adapters/storage/batch_estimates.py: `FileBatchEstimateStore.save` as a change of the catalogue in
-- the file. The lock and the atomic replacement of the file are not modelled.
use clearml_yolo.Base.{
  ℕ, ◌≡◌, refl, ap, ◌∙◌, Bool, not, List, [], ◌∷◌, ◌++◌, String, str_eq, eq_iff, keep, Result, ok,
  ◌>>=◌, arith, if◌then◌else◌, Bool-cases, inl, inr, keep-true, keep-false,
}
use mathlib.Core.List.{append-nil}
use clearml_yolo.BatchEstimation.Model.{Float}
use clearml_yolo.BatchEstimation.Case.{EstimateCase, EstimateCatalogue, verified_evidence}
use clearml_yolo.BatchEstimation.Reuse.{Payload, estimate_key}

module _ (int_mul : ℕ → Float → ℕ) (digest : Payload → String) where
  abbrev pub case_key : EstimateCase → String
  case_key case = estimate_key digest case.profile case.workload case.settings

  -- The cases of a catalogue that were saved under a key.
  abbrev pub cases_for : String → EstimateCatalogue → List EstimateCase
  cases_for key catalogue = keep (λ case. str_eq (case_key case) key) catalogue.cases

  -- `save`: the validated case takes the place of the ones with its key, at the end.
  unfoldable pub save : EstimateCase → EstimateCatalogue → Result EstimateCatalogue
  save case catalogue = do
    valid ← verified_evidence int_mul case
    let key = case_key valid
    ok (record {
      schema_version = 3;
      cases = keep (λ prior. not (str_eq (case_key prior) key)) catalogue.cases ++ valid ∷ [];
    })

  -- What a validated case makes of a catalogue.
  pub save_of :
      (case : EstimateCase) (catalogue : EstimateCatalogue)
      → verified_evidence int_mul case ≡ ok case
      → save case catalogue
        ≡ ok (record {
          schema_version = 3;
          cases =
              keep (λ prior. not (str_eq (case_key prior) (case_key case))) catalogue.cases
              ++ case ∷ [];
        })
  unfolding save
  save_of case catalogue verified = cc verified

  keep-append :
      (p : EstimateCase → Bool) (xs ys : List EstimateCase)
      → keep p (xs ++ ys) ≡ keep p xs ++ keep p ys
  keep-append p [] ys = refl
  keep-append p (x ∷ xs) ys = elim (Bool-cases (p x)) [
    | inl e ↦ cc (keep-true p x (xs ++ ys) e, keep-true p x xs e, keep-append p xs ys)
    | inr e ↦ cc (keep-false p x (xs ++ ys) e, keep-false p x xs e, keep-append p xs ys)
  ]

  -- Of the cases that are kept, those of the replaced key are gone and those of another stay.
  kept_for :
      (key other : String) (cases : List EstimateCase)
      → keep
          (λ case. str_eq (case_key case) other)
          (keep (λ prior. not (str_eq (case_key prior) key)) cases)
        ≡ (if str_eq key other then [] else keep (λ case. str_eq (case_key case) other) cases)
  kept_for key other [] = ground arith
  kept_for key other (case ∷ cases) = ground (
    arith,
    eq_iff key other,
    eq_iff (case_key case) key,
    eq_iff (case_key case) other,
    kept_for key other cases,
  )

  after_replacement :
      (case : EstimateCase) (other : String) (cases : List EstimateCase)
      → keep
            (λ case. str_eq (case_key case) other)
            (keep (λ prior. not (str_eq (case_key prior) (case_key case))) cases)
          ++ keep (λ case. str_eq (case_key case) other) (case ∷ [])
        ≡ (if str_eq (case_key case) other
            then case ∷ []
            else keep (λ case. str_eq (case_key case) other) cases)
  after_replacement case other cases =
      let kept = kept_for (case_key case) other cases in
      let rest = append-nil (keep (λ case. str_eq (case_key case) other) cases) in
      ground (arith, kept, rest)

  -- After a save, the case is the only one of its key, and the cases of every other key are the ones
  -- that were there before.
  pub save-cases_for :
      (case : EstimateCase) (catalogue : EstimateCatalogue) (other : String)
      {catalogue' : EstimateCatalogue}
      → verified_evidence int_mul case ≡ ok case
      → save case catalogue ≡ ok catalogue'
      → cases_for other catalogue'
        ≡ (if str_eq (case_key case) other then case ∷ [] else cases_for other catalogue)
  unfolding save
  save-cases_for case catalogue other {catalogue'} verified saved =
      let replaced =
        keep (λ prior. not (str_eq (case_key prior) (case_key case))) catalogue.cases
        ++ case ∷ [] in
      let same : catalogue'.cases ≡ replaced = cc (verified, saved) in
      ap (keep (λ case. str_eq (case_key case) other)) same
      ∙ keep-append (λ case. str_eq (case_key case) other)
          (keep (λ prior. not (str_eq (case_key prior) (case_key case))) catalogue.cases)
          (case ∷ [])
      ∙ after_replacement case other catalogue.cases
