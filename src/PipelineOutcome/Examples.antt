-- ===== src/PipelineOutcome/Examples.antt =====
-- A pipeline that trained and whose export failed.
use clearml_yolo.Base.{◌≡◌, refl, ◌↔◌, ◌⊎◌, true, false, none, some, [], ◌∷◌, All, Some}
use clearml_yolo.PipelineOutcome.{
  succeeded, failed, skipped, PipelineOutcome, status_of, summary_lines,
}
use clearml_yolo.PipelineOutcome.Status.{HasStatus, IsClean, status_of_iff}

abbrev outcome : PipelineOutcome
outcome = record {
  training_succeeded = true;
  fatal_error = false;
  stages =
      ("train", record { status = succeeded; reason = none; artifacts = "best.pt" ∷ [] })
      ∷ ("export", record { status = failed; reason = some "no opset"; artifacts = [] })
      ∷ [];
}

lines :
    summary_lines outcome
    ≡ "Pipeline outcome: completed_with_warnings" ∷ "train: succeeded" ∷ "  Artifact: best.pt"
      ∷ "export: failed — no opset" ∷ []
unfolding status_of
lines = refl

status_of_iff_example :
    ((status_of outcome ≡ failed) ↔ (
      (outcome.fatal_error ≡ true)
      ⊎ (Some (HasStatus failed) outcome.stages × (outcome.training_succeeded ≡ false))))
    × ((status_of outcome ≡ succeeded)
        ↔ ((outcome.fatal_error ≡ false) × All IsClean outcome.stages))
    × (status_of outcome ≡ skipped → ⊥)
status_of_iff_example = status_of_iff outcome
