-- ===== src/Pipeline/Workflow.antt =====
-- application/use_cases/pipeline.py: the stages after the training, from the prediction to the
-- visualization. An argument that is only passed on to a port is left to the port.
use clearml_yolo.Base.{
  ℕ, Bool, true, false, ◌&&◌, not, Option, none, some, List, [], ◌∷◌, ◌++◌, map, length, String,
  ◌<>◌, show, str_eq, if◌then◌else◌,
}
use clearml_yolo.PipelineOutcome.{completed_with_warnings, StageOutcome, PipelineOutcome}
use clearml_yolo.Pipeline.{
  exception, interruption, Call, done, raised, stage_at, Effect, Stages, Action, ◌&>◌, set_stage,
  StagePorts, skip, run,
}

-- The threshold of each class, as a bit pattern.
abbrev pub Thresholds : Type 0
Thresholds = List (String × ℕ)

pub record Evaluated : Type 0 where
  pub evaluations : List (String × String)
  pub best_confidences : List (String × Thresholds)

pub record Reported : Type 0 where
  pub dev_reports : List (String × String)
  pub business_reports : List (String × String)
  pub issues : List String

-- Where the weights of a model are: a file, or a text that names remote weights.
pub data Weights : Type 0 where
  file remote : String → Weights

-- The candidate of a comparison: a local model with its thresholds, or a task.
pub data Candidate : Type 0 where
  local_model : String → Thresholds → Candidate
  task_model : String → Candidate

pub data Compared (C : Type 0) : Type 0 where
  comparison_skipped : Compared C
  comparison : C → Option Reported → Compared C

-- What the stages of the workflow call.
pub record WorkflowPorts (W C : Type 0) : Type 0 where
  pub run_prediction : List String → Effect W String
  pub compute_metrics : String → List String → Effect W Evaluated
  pub read_thresholds : Effect W (Option Thresholds)
  pub write_thresholds : Thresholds → Effect W (Unit {0})
  pub model_weights_path : Effect W Weights
  pub init_comparison : Effect W (Option String)
  pub run_comparison : Candidate → Effect W (Option C)
  pub record_skipped : Option String → String → Effect W (Unit {0})
  pub complete_comparison : Option String → Effect W (Unit {0})
  pub run_report : Effect W Reported
  pub is_file : String → Effect W Bool
  pub publish_results :
      Option String → Option (List String) → List (String × String) → Effect W (Unit {0})

-- What `run_pipeline` passes to `_run_downstream`; the tracking task is its identity.
pub record Request : Type 0 where
  pub directory : String
  pub splits : List String
  pub skip_train : Bool
  pub skip_predict : Bool
  pub skip_metrics : Bool
  pub skip_compare : Bool
  pub skip_report : Bool
  pub publisher_enabled : Bool
  pub task : Option String

-- The entries of `results` after `run_dir`.
pub record Results (C : Type 0) : Type 0 where
  pub weights : Option String
  pub predictions : Option String
  pub metrics : Option Evaluated
  pub compared : Option (Compared C)
  pub reports : Option Reported
  pub outcome : Option PipelineOutcome

-- Calls of the world alone.
infixl 5 ◌%>◌
abbrev pub ◌%>◌ {ℓ κ} :
    {W : Type 0} {A : Type ℓ} {B : Type κ} → W × Call A → (A → Effect W B) → W × Call B
(w, done a) %> f = f a w
(w, raised problem) %> f = (w, raised problem)

abbrev pub disabled : String
disabled = "Disabled by configuration"

module _ {W C : Type 0} (ports : WorkflowPorts W C) where
  abbrev pub local_candidate : Thresholds → Weights → Call Candidate
  local_candidate thresholds (file path) = done (local_model path thresholds)
  local_candidate thresholds (remote text) =
      raised (exception "ValueError" "Local comparison requires a filesystem checkpoint")

  abbrev pub candidate_of : Thresholds → Option String → Effect W Candidate
  candidate_of thresholds none w =
      ports.model_weights_path w %> λ weights w. (w, local_candidate thresholds weights)
  candidate_of thresholds (some task) w = (w, done (task_model task))

  abbrev pub with_report : Bool → C → Effect W (Compared C)
  with_report true result w = (w, done (comparison result none))
  with_report false result w =
      ports.run_report w %> λ reports w. (w, done (comparison result (some reports)))

  -- What follows `run_comparison`, with its `except NoBaselineModelError`.
  abbrev pub after_comparison : Option String → Bool → W × Call (Option C) → W × Call (Compared C)
  after_comparison task skip_report (w, done none) = (w, done comparison_skipped)
  after_comparison task skip_report (w, done (some result)) = with_report skip_report result w
  after_comparison task skip_report (w, raised (interruption class text)) =
      (w, raised (interruption class text))
  after_comparison task skip_report (w, raised (exception class text)) =
      if str_eq class "NoBaselineModelError"
      then (ports.record_skipped task text w %> λ _ w.
          ports.complete_comparison task w %> λ _ w. (w, done comparison_skipped))
      else (w, raised (exception class text))

  -- `_compare_and_report`
  unfoldable pub compare_and_report : Thresholds → Bool → Option String → Effect W (Compared C)
  compare_and_report thresholds skip_report candidate_task w =
      candidate_of thresholds candidate_task w %> λ candidate w.
      ports.init_comparison w %> λ task w.
      after_comparison task skip_report (ports.run_comparison candidate w)

  abbrev pub published :
      String → Option (List String) → List (String × String) → Bool → Effect W (Unit {0})
  published predictions splits evaluations true =
      ports.publish_results (some predictions) splits evaluations
  published predictions splits evaluations false = ports.publish_results none splits evaluations

  -- `_publish_pipeline`
  unfoldable pub publish_pipeline :
      Request → String → List String → List (String × String) → Effect W (Unit {0})
  publish_pipeline request predictions prediction_splits evaluations w =
      let splits = if request.skip_predict then none else some prediction_splits in
      let published_now = ports.is_file predictions w %> published predictions splits evaluations in
      if request.publisher_enabled then published_now else (w, done tt)

  -- `next(iter(evaluated.best_confidences.values()))`
  abbrev pub first_confidences : List (String × Thresholds) → Call Thresholds
  first_confidences [] = raised (exception "StopIteration" "")
  first_confidences ((name, thresholds) ∷ _) = done thresholds

  module _ (stage_ports : StagePorts W) where
    -- Unless they are missing, the thresholds are written.
    abbrev pub publish_thresholds :
        List (String × String)
        → Option Thresholds
        → Action W (List (String × String) × Option Thresholds)
    publish_thresholds evaluations none s = (s, done (evaluations, none))
    publish_thresholds evaluations (some thresholds) s =
        run stage_ports "threshold_publication" (ports.write_thresholds thresholds) s &> λ _ s.
        (s, done (evaluations, some thresholds))

    abbrev pub after_metrics :
        Results C
        → Option Evaluated
        → Action W (Results C × List (String × String) × Option Thresholds)
    after_metrics results none s = (s, done (results, [], none))
    after_metrics results (some evaluated) s =
        run stage_ports "thresholds" (λ w. (w, first_confidences evaluated.best_confidences)) s
        &> λ thresholds s. publish_thresholds evaluated.evaluations thresholds s &> λ found s.
            (s, done (record results { metrics = some evaluated }, found.0, found.1))

    -- The file may hold the JSON value null.
    abbrev pub stored_value : Option (Option Thresholds) → Option Thresholds
    stored_value none = none
    stored_value (some found) = found

    abbrev pub stored_thresholds : Request → Action W (Option Thresholds)
    stored_thresholds request s =
        let stored = run stage_ports "thresholds" ports.read_thresholds s &> λ found s.
        (s, done (stored_value found)) in
        if request.skip_train && not request.skip_compare then stored else (s, done none)

    -- `_pipeline_metrics`
    unfoldable pub pipeline_metrics :
        Request
        → Results C
        → String
        → Bool
        → Action W (Results C × List (String × String) × Option Thresholds)
    pipeline_metrics request results predictions predictions_ready s =
        let off = skip stage_ports "metrics" disabled s &> λ _ s.
        stored_thresholds request s &> λ thresholds s. (s, done (results, [], thresholds)) in
        let unavailable =
          skip stage_ports "metrics" "No successful prediction producer in this training attempt" s
          &> λ _ s. (s, done (results, [], none)) in
        let computed =
          run stage_ports "metrics" (ports.compute_metrics predictions request.splits) s
          &> after_metrics results in
        if request.skip_metrics
        then off
        else if not predictions_ready
        then unavailable
        else computed

    -- The artifacts of a report, and its count issues.
    abbrev pub report_artifacts : Reported → List String
    report_artifacts reported =
        map (λ (entry : String × String). entry.1)
          (reported.dev_reports ++ reported.business_reports)

    abbrev pub with_artifacts : String → List String → Option StageOutcome → Stages W → Stages W
    with_artifacts name artifacts none s = s
    with_artifacts name artifacts (some stage) s =
        set_stage name (record stage { artifacts = artifacts }) s

    -- `stages[name].artifacts = artifacts`
    abbrev pub set_artifacts : String → List String → Stages W → Stages W
    set_artifacts name artifacts s =
        with_artifacts name artifacts (stage_at name s.outcome.stages) s

    abbrev pub with_issues : List String → List String → Stages W → Stages W
    with_issues artifacts [] s = s
    with_issues artifacts (issue ∷ issues) s =
        set_stage "report"
          (record {
            status = completed_with_warnings;
            reason = some (
                show (length (issue ∷ issues))
                <> " training count issues; see report Issues sheet");
            artifacts = artifacts;
          })
          s

    abbrev pub after_report : Results C → Option Reported → Action W (Results C)
    after_report results none s = (s, done results)
    after_report results (some reported) s =
        let artifacts = report_artifacts reported in
        (
          with_issues artifacts reported.issues (set_artifacts "report" artifacts s),
          done (record results { reports = some reported }),
        )

    -- `_pipeline_report`
    unfoldable pub pipeline_report : Request → Results C → Bool → Action W (Results C)
    pipeline_report request results comparison_ready s =
        let off = skip stage_ports "report" disabled s &> λ _ s. (s, done results) in
        let unavailable =
          skip stage_ports "report" "No successful comparison producer in this attempt" s &> λ _ s.
          (s, done results) in
        let computed = run stage_ports "report" ports.run_report s &> after_report results in
        if request.skip_report then off else if not comparison_ready then unavailable else computed
