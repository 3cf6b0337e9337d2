-- ===== src/Pipeline/Retained.antt =====
-- The stages up to the comparison keep what holds after a training that succeeded.
use clearml_yolo.Base.{
  ◌≡◌, refl, Bool, true, false, ◌&&◌, not, Option, none, some, List, [], ◌∷◌, String, ◌<>◌, str_eq,
  if_ind,
}
use clearml_yolo.PipelineOutcome.{StageOutcome}
use clearml_yolo.Pipeline.{Call, done, raised, stage_at, Stages, Action, ◌&>◌, StagePorts, run}
use clearml_yolo.Pipeline.Survival.{
  Ensures, Ensures-bind, IsOrdinary, IsQuiet, Holds, Kept, Holds-set, Holds-tail, skip-Kept,
  run-Kept, has_succeeded-Kept,
}
use clearml_yolo.Pipeline.Settings.{distinct}
use clearml_yolo.Pipeline.Workflow.{
  Thresholds, Evaluated, Compared, comparison_skipped, comparison, WorkflowPorts, Request, Results,
  disabled, compare_and_report, first_confidences, publish_thresholds, after_metrics,
  stored_thresholds, pipeline_metrics, with_artifacts,
}
use clearml_yolo.Pipeline.Downstream.{
  after_prediction, predict_stage, predictions_ready, after_comparing, candidate_task, compare_with,
  compare_stage,
}
use clearml_yolo.Pipeline.Ordinary.{AreOrdinary, compare_and_report-IsOrdinary}

module _ {W C : Type 0} (ports : WorkflowPorts W C) (ordinary : AreOrdinary ports)
    (stage_ports : StagePorts W) (quiet : IsQuiet stage_ports) (first : StageOutcome) where
  -- A stage that is kept, its value being added.
  pub then_Kept :
      {A B : Type 0} (names names' : List String) (r : Stages W × Call A) (f : A → Action W B)
      → Ensures (Kept stage_ports first names) r
      → ((a : A) (s : Stages W)
          → Holds first names s.outcome
          → Ensures (Kept stage_ports first names') (f a s))
      → Ensures (Kept stage_ports first names') (r &> f)
  then_Kept names names' r f h k =
      Ensures-bind (Kept stage_ports first names) (Kept stage_ports first names') r f h k

  -- The name of a stage is given up.
  pub forget :
      {A : Type 0} (names : List String) (name : String) (r : Stages W × Call A)
      → Ensures (Kept stage_ports first (name ∷ names)) r
      → Ensures (Kept stage_ports first names) r
  forget names name (s, done a) h = Holds-tail stage_ports first names name s.outcome h
  forget names name (s, raised _) h = h

  pub with_artifacts-Kept :
      (names : List String) (name : String) (artifacts : List String) (o : Option StageOutcome)
      (s : Stages W)
      → str_eq name "training" ≡ false
      → Holds first names s.outcome
      → Holds first names (with_artifacts ports stage_ports name artifacts o s).outcome
  with_artifacts-Kept names name artifacts none s differs h = h
  with_artifacts-Kept names name artifacts (some stage) s differs h =
      Holds-tail stage_ports first names name _
        (Holds-set stage_ports first names name _ s differs h)

  after_prediction-Kept :
      (names : List String) (results : Results C) (path : String) (o : Option String) (s : Stages W)
      → Holds first names s.outcome
      → Ensures (Kept stage_ports first names) (after_prediction ports stage_ports results path o s)
  after_prediction-Kept names results path none s h = h
  after_prediction-Kept names results path (some found) s h =
      with_artifacts-Kept names "prediction" (found ∷ []) (stage_at "prediction" s.outcome.stages) s
        refl h

  pub predict_stage-Kept :
      (names : List String) (request : Request) (results : Results C) (s : Stages W)
      → Holds first names s.outcome
      → Ensures
          (Kept stage_ports first ("prediction" ∷ names))
          (predict_stage ports stage_ports request results s)
  predict_stage-Kept names request results s h =
      if_ind (Ensures (Kept stage_ports first ("prediction" ∷ names))) request.skip_predict
        (λ _.
          then_Kept _ _ _ _ (skip-Kept stage_ports first quiet names "prediction" disabled s refl h)
            (λ _ _ h. h))
        (λ _.
          then_Kept _ _ _ _
            (run-Kept stage_ports first quiet names "prediction"
              (ports.run_prediction (distinct ("val" ∷ request.splits))) s refl
              (ordinary.predicts (distinct ("val" ∷ request.splits))) h)
            (λ o s h.
              after_prediction-Kept ("prediction" ∷ names) results
                (request.directory <> "/predictions.csv") o s h))

  -- `predictions_ready` reads an outcome that is there.
  pub predictions_ready-Kept :
      (names : List String) (request : Request) (s : Stages W)
      → Holds first ("prediction" ∷ names) s.outcome
      → Ensures
          (Kept stage_ports first ("prediction" ∷ names))
          (predictions_ready ports stage_ports request s)
  predictions_ready-Kept names request s h =
      if_ind (Ensures (Kept stage_ports first ("prediction" ∷ names))) request.skip_predict (λ _. h)
        (λ _.
          has_succeeded-Kept stage_ports first quiet ("prediction" ∷ names) "prediction" s
            h.present.0 h)

  -- The outcome of a stage is added, and that of another given up.
  publish_thresholds-Kept :
      (names : List String) (evaluations : List (String × String)) (o : Option Thresholds)
      (s : Stages W)
      → Holds first names s.outcome
      → Ensures
          (Kept stage_ports first names)
          (publish_thresholds ports stage_ports evaluations o s)
  publish_thresholds-Kept names evaluations none s h = h
  publish_thresholds-Kept names evaluations (some thresholds) s h =
      then_Kept _ _ _ _
        (run-Kept stage_ports first quiet names "threshold_publication"
          (ports.write_thresholds thresholds) s refl (ordinary.writes thresholds) h)
        (λ _ s h. Holds-tail stage_ports first names "threshold_publication" s.outcome h)

  first-IsOrdinary :
      (found : List (String × Thresholds)) → IsOrdinary (first_confidences ports found)
  first-IsOrdinary [] = tt
  first-IsOrdinary (entry ∷ _) = tt

  after_metrics-Kept :
      (names : List String) (results : Results C) (o : Option Evaluated) (s : Stages W)
      → Holds first names s.outcome
      → Ensures (Kept stage_ports first names) (after_metrics ports stage_ports results o s)
  after_metrics-Kept names results none s h = h
  after_metrics-Kept names results (some evaluated) s h =
      then_Kept _ _ _ _
        (run-Kept stage_ports first quiet names "thresholds"
          (λ w. (w, first_confidences ports evaluated.best_confidences)) s refl
          (λ _. first-IsOrdinary evaluated.best_confidences) h)
        (λ thresholds s h.
          then_Kept _ _ _ _
            (publish_thresholds-Kept names evaluated.evaluations thresholds s
              (Holds-tail stage_ports first names "thresholds" s.outcome h))
            (λ _ _ h. h))

  stored_thresholds-Kept :
      (names : List String) (request : Request) (s : Stages W)
      → Holds first names s.outcome
      → Ensures (Kept stage_ports first names) (stored_thresholds ports stage_ports request s)
  stored_thresholds-Kept names request s h =
      if_ind (Ensures (Kept stage_ports first names))
        (request.skip_train && not request.skip_compare)
        (λ _.
          then_Kept _ _ _ _
            (forget names "thresholds" (run stage_ports "thresholds" ports.read_thresholds s) (
              run-Kept stage_ports first quiet names "thresholds" ports.read_thresholds s refl
                ordinary.reads h))
            (λ _ _ h. h))
        (λ _. h)

  pub pipeline_metrics-Kept :
      (names : List String) (request : Request) (results : Results C) (path : String) (ready : Bool)
      (s : Stages W)
      → Holds first names s.outcome
      → Ensures
          (Kept stage_ports first ("metrics" ∷ names))
          (pipeline_metrics ports stage_ports request results path ready s)
  unfolding pipeline_metrics
  pipeline_metrics-Kept names request results path ready s h =
      if_ind (Ensures (Kept stage_ports first ("metrics" ∷ names))) request.skip_metrics
        (λ _.
          then_Kept _ _ _ _ (skip-Kept stage_ports first quiet names "metrics" disabled s refl h)
            (λ _ s h.
              then_Kept _ _ _ _ (stored_thresholds-Kept ("metrics" ∷ names) request s h)
                (λ _ _ h. h)))
        (λ _.
          if_ind (Ensures (Kept stage_ports first ("metrics" ∷ names))) (not ready)
            (λ _.
              then_Kept _ _ _ _
                (skip-Kept stage_ports first quiet names "metrics"
                  "No successful prediction producer in this training attempt" s refl h)
                (λ _ _ h. h))
            (λ _.
              then_Kept _ _ _ _
                (run-Kept stage_ports first quiet names "metrics"
                  (ports.compute_metrics path request.splits) s refl
                  (ordinary.computes path request.splits) h)
                (λ o s h. after_metrics-Kept ("metrics" ∷ names) results o s h)))

  after_comparing-Kept :
      (names : List String) (results : Results C) (o : Option (Compared C)) (s : Stages W)
      → Holds first ("comparison" ∷ names) s.outcome
      → Ensures
          (Kept stage_ports first ("comparison" ∷ names))
          (after_comparing ports stage_ports results o s)
  after_comparing-Kept names results none s h = h
  after_comparing-Kept names results (some (comparison found reports)) s h = h
  after_comparing-Kept names results (some comparison_skipped) s h =
      then_Kept _ _ _ _
        (skip-Kept stage_ports first quiet names "comparison" "Automatic baseline unavailable" s
          refl (Holds-tail stage_ports first names "comparison" s.outcome h))
        (λ _ _ h. h)

  compare_with-Kept :
      (names : List String) (request : Request) (results : Results C) (o : Option Thresholds)
      (s : Stages W)
      → Holds first names s.outcome
      → Ensures
          (Kept stage_ports first ("comparison" ∷ names))
          (compare_with ports stage_ports request results o s)
  compare_with-Kept names request results none s h =
      then_Kept _ _ _ _
        (skip-Kept stage_ports first quiet names "comparison"
          "Calibration thresholds unavailable in this attempt" s refl h)
        (λ _ _ h. h)
  compare_with-Kept names request results (some thresholds) s h =
      then_Kept _ _ _ _
        (run-Kept stage_ports first quiet names "comparison"
          (compare_and_report ports thresholds true (candidate_task ports stage_ports request)) s
          refl
          (compare_and_report-IsOrdinary ports ordinary thresholds true
            (candidate_task ports stage_ports request))
          h)
        (λ o s h. after_comparing-Kept names results o s h)

  pub compare_stage-Kept :
      (names : List String) (request : Request) (results : Results C) (o : Option Thresholds)
      (s : Stages W)
      → Holds first names s.outcome
      → Ensures
          (Kept stage_ports first ("comparison" ∷ names))
          (compare_stage ports stage_ports request results o s)
  compare_stage-Kept names request results o s h =
      if_ind (Ensures (Kept stage_ports first ("comparison" ∷ names))) request.skip_compare
        (λ _.
          then_Kept _ _ _ _ (skip-Kept stage_ports first quiet names "comparison" disabled s refl h)
            (λ _ _ h. h))
        (λ _. compare_with-Kept names request results o s h)
