-- ===== src/PipelineOutcome/Status.antt =====
-- The status of a pipeline, described by its stages one by one.
use clearml_yolo.Base.{◌≡◌, ◌↔◌, ◌⊎◌, true, false, List, [], ◌∷◌, String, All, Some, any, arith}
use clearml_yolo.PipelineOutcome.{
  StageStatus, succeeded, completed_with_warnings, failed, skipped, StageOutcome, PipelineOutcome,
  is_failed, is_warned, has_failed, has_warnings, status_of,
}

abbrev pub HasStatus : StageStatus → String × StageOutcome → Type 0
HasStatus status stage = stage.1.status ≡ status

-- A stage that is not behind its outcome: it succeeded or was skipped.
abbrev pub IsClean : String × StageOutcome → Type 0
IsClean stage = (stage.1.status ≡ succeeded) ⊎ (stage.1.status ≡ skipped)

is_failed_iff : (status : StageStatus) → (is_failed status ≡ true) ↔ (status ≡ failed)
is_failed_iff succeeded = ground arith
is_failed_iff completed_with_warnings = ground arith
is_failed_iff failed = ground arith
is_failed_iff skipped = ground arith

clean_iff :
    (status : StageStatus)
    → ((is_failed status ≡ false) × (is_warned status ≡ false))
      ↔ ((status ≡ succeeded) ⊎ (status ≡ skipped))
clean_iff succeeded = ground arith
clean_iff completed_with_warnings = ground arith
clean_iff failed = ground arith
clean_iff skipped = ground arith

Some-failed_iff :
    (stages : List (String × StageOutcome))
    → (any has_failed stages ≡ true) ↔ Some (HasStatus failed) stages
Some-failed_iff [] = ground arith
Some-failed_iff (stage ∷ stages) =
    ground (arith, Some-failed_iff stages, is_failed_iff stage.1.status)

All-IsClean_iff :
    (stages : List (String × StageOutcome))
    → ((any has_failed stages ≡ false) × (any has_warnings stages ≡ false)) ↔ All IsClean stages
All-IsClean_iff [] = ground arith
All-IsClean_iff (stage ∷ stages) = ground (arith, All-IsClean_iff stages, clean_iff stage.1.status)

-- A pipeline has failed exactly if it had a fatal error, or a stage failed and the training did not
-- succeed. It has succeeded exactly if it had no fatal error and every stage succeeded or was skipped.
-- It is never skipped.
pub status_of_iff :
    (outcome : PipelineOutcome)
    → ((status_of outcome ≡ failed) ↔ (
        (outcome.fatal_error ≡ true)
        ⊎ (Some (HasStatus failed) outcome.stages × (outcome.training_succeeded ≡ false))))
      × ((status_of outcome ≡ succeeded)
          ↔ ((outcome.fatal_error ≡ false) × All IsClean outcome.stages))
      × (status_of outcome ≡ skipped → ⊥)
unfolding status_of
status_of_iff outcome =
    ground (arith, Some-failed_iff outcome.stages, All-IsClean_iff outcome.stages)
