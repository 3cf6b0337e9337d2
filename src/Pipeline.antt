-- ===== src/Pipeline.antt =====
-- application/use_cases/pipeline.py: the stages of a pipeline and their outcomes. The world that the
-- ports change is a parameter, as are the ports.
pub mod Settings
pub mod Workflow
pub mod Downstream
pub mod Program
pub mod Survival
pub mod Ordinary
pub mod Retained
pub mod Complete
pub mod Trained
pub mod Frame
pub mod Flow
pub mod Compares
pub mod Reports
pub mod Fed
mod Examples
use clearml_yolo.Base.{
  Bool, true, false, not, Option, none, some, List, [], ◌∷◌, ◌++◌, String, ◌<>◌, str_eq,
  if◌then◌else◌,
}
use clearml_yolo.PipelineOutcome.{
  StageStatus, succeeded, failed, skipped, completed_with_warnings, StageOutcome, PipelineOutcome,
  status_of, summary,
}

-- The name of the class and the text of what is raised: an `Exception`, or an interruption, which is
-- another `BaseException`.
pub data Failure : Type 0 where
  exception interruption : String → String → Failure

pub data Call {ℓ} (A : Type ℓ) : Type ℓ where
  done : A → Call A
  raised : Failure → Call A

abbrev pub StageMap : Type 0
StageMap = List (String × StageOutcome)

-- `stages[name] = outcome`: an entry keeps its place.
abbrev pub put : String → StageOutcome → StageMap → StageMap
put name outcome [] = (name, outcome) ∷ []
put name outcome ((other, old) ∷ stages) =
    let rest = put name outcome stages in
    if str_eq other name then (other, outcome) ∷ stages else (other, old) ∷ rest

abbrev pub stage_at : String → StageMap → Option StageOutcome
stage_at name [] = none
stage_at name ((other, outcome) ∷ stages) =
    let rest = stage_at name stages in if str_eq other name then some outcome else rest

-- A port's call.
abbrev pub Effect {ℓ} : Type 0 → Type ℓ → Type ℓ
Effect W A = W → W × Call A

-- The world, and the outcome that `_PipelineStages` keeps.
pub record Stages (W : Type 0) : Type 0 where
  pub world : W
  pub outcome : PipelineOutcome

abbrev pub Action {ℓ} : Type 0 → Type ℓ → Type ℓ
Action W A = Stages W → Stages W × Call A

infixl 5 ◌&>◌
abbrev pub ◌&>◌ {ℓ κ} :
    {W : Type 0} {A : Type ℓ} {B : Type κ}
    → Stages W × Call A
    → (A → Action W B)
    → Stages W × Call B
(s, done a) &> f = f a s
(s, raised e) &> f = (s, raised e)

module _ {W : Type 0} where
  abbrev pub lifted {ℓ} : {A : Type ℓ} → Stages W → W × Call A → Stages W × Call A
  lifted s (w, r) = (record s { world = w }, r)

  abbrev pub lift {ℓ} : {A : Type ℓ} → Effect W A → Action W A
  lift call s = lifted s (call s.world)

  abbrev pub set_stage : String → StageOutcome → Stages W → Stages W
  set_stage name stage s = record s {
    outcome = record s.outcome { stages = put name stage s.outcome.stages };
  }

  abbrev pub set_fatal : Stages W → Stages W
  set_fatal s = record s { outcome = record s.outcome { fatal_error = true } }

abbrev pub plain : StageStatus → Option String → StageOutcome
plain status reason = record { status = status; reason = reason; artifacts = [] }

-- What `_PipelineStages` calls.
pub record StagePorts (W : Type 0) : Type 0 where
  pub redact_text : String → String
  pub record_pipeline_outcome : PipelineOutcome → Effect W (Unit {0})
  pub write_json : PipelineOutcome → Effect W (Unit {0})
  pub write_text : String → Effect W (Unit {0})
  pub log_exception : String → Failure → Effect W (Unit {0})
  pub log : String → String → Effect W (Unit {0})

module _ {W : Type 0} (ports : StagePorts W) where
  abbrev pub persistence_failure : String → Failure → String → Action W (Unit {0})
  persistence_failure stage problem text s =
      lift (ports.log_exception "Pipeline outcome persistence failed" problem)
        (set_stage stage (plain failed (some (ports.redact_text text))) s)

  -- The `except Exception` of `persist`.
  abbrev pub tolerate : String → Stages W × Call (Unit {0}) → Stages W × Call (Unit {0})
  tolerate stage (s, done tt) = (s, done tt)
  tolerate stage (s, raised (exception name text)) =
      if s.outcome.training_succeeded
      then persistence_failure stage (exception name text) text s
      else (s, raised (exception name text))
  tolerate stage (s, raised (interruption name text)) = (s, raised (interruption name text))

  -- `persist`
  unfoldable pub persist : Action W (Unit {0})
  persist s =
      tolerate "outcome_publication" (lift (ports.record_pipeline_outcome s.outcome) s) &> λ _ s.
      tolerate "outcome_storage" (
        lift (ports.write_json s.outcome) s &> λ _ s. lift (ports.write_text (summary s.outcome)) s)

  -- `skip`
  unfoldable pub skip : String → String → Action W (Unit {0})
  unfolding persist
  skip name reason s = persist (set_stage name (plain skipped (some reason)) s)

  -- The `except Exception` around `persist` in `run`.
  abbrev pub log_failure : String → Stages W × Call (Unit {0}) → Stages W × Call (Unit {0})
  log_failure text (s, done tt) = (s, done tt)
  log_failure text (s, raised (exception name problem)) =
      lift (ports.log_exception text (exception name problem)) s
  log_failure text (s, raised (interruption name problem)) = (s, raised (interruption name problem))

  module _ {ℓ} {A : Type ℓ} where
    abbrev pub after_failure : Failure → Action W (Option A)
    after_failure problem s =
        if s.outcome.training_succeeded
        then (lift
              (ports.log_exception "Pipeline stage failed; successful training retained" problem) s
            &> λ _ s. (s, done none))
        else (s, raised problem)

    -- `run` by what the operation gave.
    unfoldable pub after_operation : String → Stages W × Call A → Stages W × Call (Option A)
    unfolding persist
    after_operation name (s, done result) =
        persist (set_stage name (plain succeeded none) s) &> λ _ s. (s, done (some result))
    after_operation name (s, raised (exception class text)) =
        log_failure "Could not record failed stage outcome"
          (persist (set_stage name (plain failed (some (ports.redact_text text))) s))
        &> λ _. after_failure (exception class text)
    after_operation name (s, raised (interruption class text)) =
        log_failure "Could not record interrupted stage outcome" (
          persist (
            set_stage name (plain failed (some (ports.redact_text (class <> ": " <> text))))
              (set_fatal s)))
        &> λ _ s. (s, raised (interruption class text))

    -- `run`
    unfoldable pub run : String → Effect W A → Action W (Option A)
    unfolding after_operation
    run name operation s = after_operation name (lift operation s)

  -- `succeeded`
  abbrev pub is_succeeded : StageStatus → Bool
  is_succeeded succeeded = true
  is_succeeded completed_with_warnings = false
  is_succeeded failed = false
  is_succeeded skipped = false

  abbrev pub status_succeeded : String → Option StageOutcome → Call Bool
  status_succeeded name none = raised (exception "KeyError" name)
  status_succeeded name (some stage) = done (is_succeeded stage.status)

  unfoldable pub has_succeeded : String → Action W Bool
  has_succeeded name s = (s, status_succeeded name (stage_at name s.outcome.stages))

  abbrev pub unknown_admission : String
  unknown_admission = "Post-training resource transition failed; compute admission unknown"

  abbrev pub skip_all : List String → String → Action W (Unit {0})
  skip_all [] reason s = (s, done tt)
  skip_all (name ∷ names) reason s = skip name reason s &> λ _. skip_all names reason

  abbrev pub downstream_names : List String
  downstream_names = "prediction" ∷ "metrics" ∷ "comparison" ∷ "report" ∷ "visualization" ∷ []

  abbrev pub after_resources : Bool → Action W Bool
  after_resources true s = (s, done true)
  after_resources false s = skip_all downstream_names unknown_admission s &> λ _ s. (s, done false)

  -- `resources_ready`
  unfoldable pub resources_ready : Action W Bool
  unfolding has_succeeded
  resources_ready s =
      let checked = has_succeeded "training_resources" s &> after_resources in
      if s.outcome.training_succeeded then checked else (s, done true)

  abbrev pub level : StageStatus → String
  level completed_with_warnings = "WARNING"
  level succeeded = "INFO"
  level failed = "INFO"
  level skipped = "INFO"

  -- `finish` before the results are returned.
  unfoldable pub finish : Action W PipelineOutcome
  unfolding persist
  finish s = persist s &> λ _ s.
      lift (ports.log (level (status_of s.outcome)) (summary s.outcome)) s &> λ _ s'.
      (s', done s.outcome)
