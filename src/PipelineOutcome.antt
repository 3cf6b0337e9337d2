-- ===== src/PipelineOutcome.antt =====
-- core/pipeline_outcome.py: the outcome of a pipeline by the outcomes of its stages.
pub mod Status
mod Examples
use clearml_yolo.Base.{
  Bool, true, false, ◌||◌, ◌&&◌, not, Option, none, some, List, [], ◌∷◌, ◌++◌, map, String, ◌<>◌,
  str_eq, any, join, if◌then◌else◌,
}

pub data StageStatus : Type 0 where
  succeeded completed_with_warnings failed skipped : StageStatus

pub record StageOutcome : Type 0 where
  pub status : StageStatus
  pub reason : Option String
  pub artifacts : List String

-- The stages in the order of the dictionary.
pub record PipelineOutcome : Type 0 where
  pub training_succeeded : Bool
  pub fatal_error : Bool
  pub stages : List (String × StageOutcome)

abbrev pub is_failed : StageStatus → Bool
is_failed failed = true
is_failed _ = false

abbrev pub is_warned : StageStatus → Bool
is_warned completed_with_warnings = true
is_warned _ = false

abbrev pub has_failed : String × StageOutcome → Bool
has_failed stage = is_failed stage.1.status

abbrev pub has_warnings : String × StageOutcome → Bool
has_warnings stage = is_warned stage.1.status

-- `PipelineOutcome.status`
unfoldable pub status_of : PipelineOutcome → StageStatus
status_of outcome =
    if outcome.fatal_error
    then failed
    else if any has_failed outcome.stages && not outcome.training_succeeded
    then failed
    else if any has_failed outcome.stages || any has_warnings outcome.stages
    then completed_with_warnings
    else succeeded

abbrev pub status_text : StageStatus → String
status_text succeeded = "succeeded"
status_text completed_with_warnings = "completed_with_warnings"
status_text failed = "failed"
status_text skipped = "skipped"

-- A reason shows unless it is missing or empty.
abbrev pub reason_text : Option String → String
reason_text none = ""
reason_text (some reason) = if str_eq reason "" then "" else " — " <> reason

abbrev pub stage_lines : List (String × StageOutcome) → List String
stage_lines [] = []
stage_lines ((name, stage) ∷ stages) =
    (name <> ": " <> status_text stage.status <> reason_text stage.reason)
      ∷ map (λ path. "  Artifact: " <> path) stage.artifacts
    ++ stage_lines stages

abbrev pub summary_lines : PipelineOutcome → List String
summary_lines outcome =
    ("Pipeline outcome: " <> status_text (status_of outcome)) ∷ stage_lines outcome.stages

-- `PipelineOutcome.summary`
abbrev pub summary : PipelineOutcome → String
summary outcome = join "\n" (summary_lines outcome) <> "\n"
