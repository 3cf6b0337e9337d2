-- ===== src/Pipeline/Downstream.antt =====
-- application/use_cases/pipeline.py: the order of the stages after the training.
use clearml_yolo.Base.{
  Bool, true, false, not, Option, none, some, List, [], ◌∷◌, String, ◌<>◌, if◌then◌else◌,
}
use clearml_yolo.Pipeline.{
  done, Action, ◌&>◌, StagePorts, skip, run, has_succeeded, resources_ready, finish,
}
use clearml_yolo.Pipeline.Settings.{distinct}
use clearml_yolo.Pipeline.Workflow.{
  Thresholds, Compared, comparison_skipped, comparison, WorkflowPorts, Request, Results, disabled,
  compare_and_report, publish_pipeline, pipeline_metrics, set_artifacts, pipeline_report,
}

module _ {W C : Type 0} (ports : WorkflowPorts W C) (stage_ports : StagePorts W) where
  -- What the prediction gave: its path, from which the later stages go on.
  abbrev pub after_prediction : Results C → String → Option String → Action W (Results C × String)
  after_prediction results path none s = (s, done (results, path))
  after_prediction results path (some predictions) s = (
    set_artifacts ports stage_ports "prediction" (predictions ∷ []) s,
    done (record results { predictions = some predictions }, predictions),
  )

  abbrev pub predict_stage : Request → Results C → Action W (Results C × String)
  predict_stage request results s =
      let path = request.directory <> "/predictions.csv" in
      let off = skip stage_ports "prediction" disabled s &> λ _ s. (s, done (results, path)) in
      let computed =
        run stage_ports "prediction" (ports.run_prediction (distinct ("val" ∷ request.splits))) s
        &> after_prediction results path in
      if request.skip_predict then off else computed

  -- `predictions_ready`: a failed producer's file is never an input.
  abbrev pub predictions_ready : Request → Action W Bool
  predictions_ready request s =
      let found = has_succeeded stage_ports "prediction" s in
      if request.skip_predict then (s, done request.skip_train) else found

  abbrev pub after_comparing : Results C → Option (Compared C) → Action W (Results C × Bool)
  after_comparing results none s = (s, done (results, false))
  after_comparing results (some comparison_skipped) s =
      skip stage_ports "comparison" "Automatic baseline unavailable" s &> λ _ s.
      (s, done (record results { compared = some comparison_skipped }, false))
  after_comparing results (some (comparison found reports)) s =
      (s, done (record results { compared = some (comparison found reports) }, true))

  abbrev pub candidate_task : Request → Option String
  candidate_task request = if not request.skip_train then request.task else none

  abbrev pub compare_with : Request → Results C → Option Thresholds → Action W (Results C × Bool)
  compare_with request results none s =
      skip stage_ports "comparison" "Calibration thresholds unavailable in this attempt" s &> λ _ s.
      (s, done (results, false))
  compare_with request results (some thresholds) s =
      run stage_ports "comparison"
        (compare_and_report ports thresholds true (candidate_task request)) s
      &> after_comparing results

  -- The comparison, with `comparison_ready`.
  abbrev pub compare_stage : Request → Results C → Option Thresholds → Action W (Results C × Bool)
  compare_stage request results thresholds s =
      let off = skip stage_ports "comparison" disabled s &> λ _ s.
      (s, done (results, request.skip_train)) in
      let compared = compare_with request results thresholds s in
      if request.skip_compare then off else compared

  abbrev pub visualize : Request → String → List (String × String) → Bool → Action W (Unit {0})
  visualize request predictions evaluations true s =
      run stage_ports "visualization"
        (publish_pipeline ports request predictions (distinct ("val" ∷ request.splits)) evaluations)
        s
      &> λ _ s. (s, done tt)
  visualize request predictions evaluations false s =
      skip stage_ports "visualization" "Prediction output unavailable in this attempt" s

  -- `return stages.finish(results)`
  abbrev pub finish_with : Results C → Action W (Results C)
  finish_with results s =
      finish stage_ports s &> λ outcome s. (s, done (record results { outcome = some outcome }))

  -- The body of `_run_downstream` once the resources are ready.
  unfoldable pub downstream : Request → Results C → Action W (Results C)
  downstream request results s = predict_stage request results s &> λ predicted s.
      predictions_ready request s &> λ ready s.
      pipeline_metrics ports stage_ports request predicted.0 predicted.1 ready s &> λ measured s.
      compare_stage request measured.0 measured.2 s &> λ compared s.
      pipeline_report ports stage_ports request compared.0 compared.1 s &> λ results s.
      visualize request predicted.1 measured.1 ready s &> λ _ s. finish_with results s

  abbrev pub if_ready : Request → Results C → Bool → Action W (Results C)
  if_ready request results true s = downstream request results s
  if_ready request results false s = finish_with results s

  -- `_run_downstream`
  unfoldable pub run_downstream : Request → Results C → Action W (Results C)
  unfolding downstream
  run_downstream request results s = resources_ready stage_ports s &> if_ready request results
