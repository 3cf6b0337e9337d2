-- ===== src/Pipeline/Fed.antt =====
-- No stage uses what a failed producer left, from the comparison to the visualization.
use clearml_yolo.Base.{
  ◌≡◌, refl, sym, ap, ◌∙◌, inl, inr, Bool, true, false, Option, none, some, List, ◌∷◌, String,
}
use mathlib.Core.Logic.{⊎_elim}
use clearml_yolo.PipelineOutcome.{skipped, PipelineOutcome}
use clearml_yolo.Pipeline.{StageMap, Stages, ◌&>◌, plain, StagePorts, skip, finish}
use clearml_yolo.Pipeline.Frame.{
  IfDone, IfDone-bind, IfDone-map, IfDone-Always, SameBut, Same, Entered, Ran, skip-Entered,
  run-Ran, finish-Same,
}
use clearml_yolo.Pipeline.Flow.{
  stage_succeeded, stage_attempted, Attempted, HasPredictions, IsFed, AfterReady, keep_ready,
  predictions_ready-AfterReady, Attempted-SameBut, not-Attempted, Gives, pipeline_metrics-Gives,
}
use clearml_yolo.Pipeline.Settings.{distinct}
use clearml_yolo.Pipeline.Workflow.{
  WorkflowPorts, Request, Results, publish_pipeline, pipeline_metrics, pipeline_report,
}
use clearml_yolo.Pipeline.Downstream.{
  predict_stage, compare_stage, visualize, finish_with, downstream,
}
use clearml_yolo.Pipeline.Compares.{Compares, compare_stage-Compares}
use clearml_yolo.Pipeline.Reports.{
  AfterReport, keep_comparison, keep_compared, Reports, pipeline_report-Reports,
}

module _ {W C : Type 0} (ports : WorkflowPorts W C) (stage_ports : StagePorts W) (request : Request)
    (ready : Bool) where
  -- A state whose stages had their inputs.
  abbrev Fed : {A : Type 0} → A → Stages W → Type 0
  Fed _ s = IsFed request s.outcome.stages

  visualized_with :
      (before : StageMap) (s : Stages W)
      → SameBut "visualization" before s.outcome.stages
      → AfterReport ports stage_ports request ready before
      → (Attempted "visualization" s.outcome.stages → ready ≡ true)
      → IsFed request s.outcome.stages
  visualized_with before s same h tried =
      let fed =
        keep_ready ports stage_ports request "visualization" ready before s refl same h.ready_fed in
      record {
        measured = λ attempted. fed (
            h.measured (
              Attempted-SameBut ports stage_ports request ready "visualization" "metrics" before s
                refl (refl, refl) same attempted));
        comparison_fed =
            keep_compared ports stage_ports request ready "visualization" before s refl refl same
              h.comparison_fed;
        reported = λ attempted.
            keep_comparison ports stage_ports request ready "visualization" before s.outcome.stages
              refl same
              (h.reported (
                Attempted-SameBut ports stage_ports request ready "visualization" "report" before s
                  refl (refl, refl) same attempted));
        visualized = λ attempted. fed (tried attempted);
      }

  Ran-IsFed :
      (o : Option (Unit {0})) (before : StageMap) (s : Stages W)
      → ready ≡ true
      → AfterReport ports stage_ports request ready before
      → Ran "visualization" before o s
      → IsFed request s.outcome.stages
  Ran-IsFed none before s e h ran = visualized_with before s ran.1.0 h (λ _. e)
  Ran-IsFed (some _) before s e h ran = visualized_with before s ran.0 h (λ _. e)

  visualize-Fed :
      (path : String) (evaluations : List (String × String)) (is_ready : Bool) (s : Stages W)
      → (is_ready ≡ true → ready ≡ true)
      → AfterReport ports stage_ports request ready s.outcome.stages
      → IfDone Fed (visualize ports stage_ports request path evaluations is_ready s)
  visualize-Fed path evaluations true s e h =
      IfDone-bind (Ran "visualization" s.outcome.stages) Fed _ _
        (run-Ran stage_ports "visualization"
          (publish_pipeline ports request path (distinct ("val" ∷ request.splits)) evaluations) s
          (refl, refl))
        (λ o s' ran. Ran-IsFed o s.outcome.stages s' (e refl) h ran)
  visualize-Fed path evaluations false s e h =
      IfDone-map
        (λ (_ : Unit {0}).
          Entered "visualization"
            (plain skipped (some "Prediction output unavailable in this attempt")) s.outcome.stages)
        Fed (skip stage_ports "visualization" "Prediction output unavailable in this attempt" s)
        (λ _ s' entered. visualized_with s.outcome.stages s' entered.0 h (λ tried. absurd (
          not-Attempted ports stage_ports request ready "visualization"
            "Prediction output unavailable in this attempt" s.outcome.stages s' entered tried)))
        (skip-Entered stage_ports "visualization" "Prediction output unavailable in this attempt" s
          (refl, refl))

  finish_with-Fed :
      (results : Results C) (s : Stages W)
      → IsFed request s.outcome.stages
      → IfDone Fed (finish_with ports stage_ports results s)
  finish_with-Fed results s h =
      IfDone-bind (λ (_ : PipelineOutcome) s'. Same s.outcome.stages s'.outcome.stages) Fed
        (finish stage_ports s) _
        (IfDone-Always (λ s'. Same s.outcome.stages s'.outcome.stages) (finish stage_ports s)
          (finish-Same stage_ports s.outcome.stages s (λ _ _. refl)))
        (λ _ s' same. moved s' same)
    where
      moved :
          (s' : Stages W)
          → Same s.outcome.stages s'.outcome.stages
          → IsFed request s'.outcome.stages
      moved s' same =
          let has_predictions : HasPredictions request s.outcome.stages
              → HasPredictions request s'.outcome.stages =
            ⊎_elim (λ found. inl (ap stage_succeeded (same "prediction" (refl, refl)) ∙ found))
              inr in
          record {
            measured = λ tried.
                has_predictions
                  (h.measured (sym (ap stage_attempted (same "metrics" (refl, refl))) ∙ tried));
            comparison_fed = λ tried.
                ap stage_succeeded (same "thresholds" (refl, refl))
                ∙ h.comparison_fed
                    (sym (ap stage_attempted (same "comparison" (refl, refl))) ∙ tried);
            reported = λ tried.
                ⊎_elim (λ found. inl (ap stage_succeeded (same "comparison" (refl, refl)) ∙ found))
                  inr (h.reported (sym (ap stage_attempted (same "report" (refl, refl))) ∙ tried));
            visualized = λ tried. has_predictions (
                h.visualized
                  (sym (ap stage_attempted (same "visualization" (refl, refl))) ∙ tried));
          }

  -- The stages after the prediction.
  later-Fed :
      (predicted : Results C × String) (s : Stages W)
      → AfterReady ports stage_ports request ready s
      → IfDone Fed (
          pipeline_metrics ports stage_ports request predicted.0 predicted.1 ready s
          &> λ measured s.
              compare_stage ports stage_ports request measured.0 measured.2 s &> λ compared s.
              pipeline_report ports stage_ports request compared.0 compared.1 s &> λ results s.
              visualize ports stage_ports request predicted.1 measured.1 ready s &> λ _ s.
              finish_with ports stage_ports results s)
  later-Fed predicted s h =
      IfDone-bind (Gives ports stage_ports request ready) Fed _ _
        (pipeline_metrics-Gives ports stage_ports request ready predicted.0 predicted.1 s h)
        (λ measured s h.
          IfDone-bind (Compares ports stage_ports request ready) Fed _ _
            (compare_stage-Compares ports stage_ports request ready measured.0 measured.2 s h)
            (λ compared s h.
              IfDone-bind (Reports ports stage_ports request ready) Fed _ _
                (pipeline_report-Reports ports stage_ports request ready compared.0 compared.1 s h)
                (λ results s h.
                  IfDone-bind (Fed {A = Unit {0}}) Fed _ _
                    (visualize-Fed predicted.1 measured.1 ready s (λ e. e) h)
                    (λ _ s h. finish_with-Fed results s h))))

-- Whenever the stages after the training return, and whatever their operations gave: the metrics and
-- the visualization were attempted only if the prediction succeeded, or if it and the training were
-- left out; the comparison only if thresholds were obtained; and the report only if the comparison
-- succeeded, or if it and the training were left out.
pub downstream-IsFed :
    {W C : Type 0} (ports : WorkflowPorts W C) (stage_ports : StagePorts W) (request : Request)
    (results : Results C) (s : Stages W)
    → IfDone
        (λ _ s. IsFed request s.outcome.stages)
        (downstream ports stage_ports request results s)
unfolding downstream
downstream-IsFed ports stage_ports request results s =
    IfDone-bind (λ _ _. Unit) (λ _ s. IsFed request s.outcome.stages)
      (predict_stage ports stage_ports request results s) _
      (IfDone-Always (λ _. Unit) (predict_stage ports stage_ports request results s) tt)
      (λ predicted s _.
        IfDone-bind (AfterReady ports stage_ports request) (λ _ s. IsFed request s.outcome.stages) _
          _ (predictions_ready-AfterReady ports stage_ports request s)
          (λ ready s h. later-Fed ports stage_ports request ready predicted s h))
