-- ===== src/Pipeline/Complete.antt =====
-- Once the training has succeeded the pipeline returns, with an outcome for every stage.
use clearml_yolo.Base.{
  ◌≡◌, refl, ap, Bool, true, false, not, Option, none, some, List, [], ◌∷◌, String, str_eq, All,
  if_ind,
}
use clearml_yolo.PipelineOutcome.{StageOutcome, PipelineOutcome, summary, status_of}
use clearml_yolo.Pipeline.{
  Call, done, raised, stage_at, Stages, ◌&>◌, lifted, lift, StagePorts, unknown_admission, skip_all,
  downstream_names, after_resources, resources_ready, level, finish,
}
use clearml_yolo.Pipeline.Survival.{
  Ensures, Ensures-bind, IsDone, IsQuiet, Holds, Kept, Holds-set, Holds-tail, persist-Kept,
  skip-Kept, run-Kept, has_succeeded-Kept,
}
use clearml_yolo.Pipeline.Settings.{distinct}
use clearml_yolo.Pipeline.Workflow.{
  Reported, WorkflowPorts, Request, Results, disabled, publish_pipeline, pipeline_metrics,
  report_artifacts, with_issues, after_report, pipeline_report,
}
use clearml_yolo.Pipeline.Downstream.{
  compare_stage, visualize, finish_with, downstream, if_ready, run_downstream,
}
use clearml_yolo.Pipeline.Ordinary.{AreOrdinary, publish_pipeline-IsOrdinary}
use clearml_yolo.Pipeline.Retained.{
  then_Kept, with_artifacts-Kept, predict_stage-Kept, predictions_ready-Kept, pipeline_metrics-Kept,
  compare_stage-Kept,
}

module _ {W C : Type 0} (ports : WorkflowPorts W C) (ordinary : AreOrdinary ports)
    (stage_ports : StagePorts W) (quiet : IsQuiet stage_ports) (first : StageOutcome) where
  with_issues-Kept :
      (names : List String) (artifacts issues : List String) (s : Stages W)
      → Holds first names s.outcome
      → Holds first names (with_issues ports stage_ports artifacts issues s).outcome
  with_issues-Kept names artifacts [] s h = h
  with_issues-Kept names artifacts (issue ∷ issues) s h =
      Holds-tail stage_ports first names "report" _
        (Holds-set stage_ports first names "report" _ s refl h)

  after_report-Kept :
      (names : List String) (results : Results C) (o : Option Reported) (s : Stages W)
      → Holds first names s.outcome
      → Ensures (Kept stage_ports first names) (after_report ports stage_ports results o s)
  after_report-Kept names results none s h = h
  after_report-Kept names results (some reported) s h = with_issues-Kept names _ reported.issues _ (
      with_artifacts-Kept ports ordinary stage_ports quiet first names "report"
        (report_artifacts ports stage_ports reported) (stage_at "report" s.outcome.stages) s refl h)

  pipeline_report-Kept :
      (names : List String) (request : Request) (results : Results C) (ready : Bool) (s : Stages W)
      → Holds first names s.outcome
      → Ensures
          (Kept stage_ports first ("report" ∷ names))
          (pipeline_report ports stage_ports request results ready s)
  unfolding pipeline_report
  pipeline_report-Kept names request results ready s h =
      if_ind (Ensures (Kept stage_ports first ("report" ∷ names))) request.skip_report
        (λ _.
          then_Kept ports ordinary stage_ports quiet first _ _ _ _
            (skip-Kept stage_ports first quiet names "report" disabled s refl h) (λ _ _ h. h))
        (λ _.
          if_ind (Ensures (Kept stage_ports first ("report" ∷ names))) (not ready)
            (λ _.
              then_Kept ports ordinary stage_ports quiet first _ _ _ _
                (skip-Kept stage_ports first quiet names "report"
                  "No successful comparison producer in this attempt" s refl h)
                (λ _ _ h. h))
            (λ _.
              then_Kept ports ordinary stage_ports quiet first _ _ _ _
                (run-Kept stage_ports first quiet names "report" ports.run_report s refl
                  ordinary.reports h)
                (λ o s h. after_report-Kept ("report" ∷ names) results o s h)))

  visualize-Kept :
      (names : List String) (request : Request) (path : String)
      (evaluations : List (String × String)) (ready : Bool) (s : Stages W)
      → Holds first names s.outcome
      → Ensures
          (Kept stage_ports first ("visualization" ∷ names))
          (visualize ports stage_ports request path evaluations ready s)
  visualize-Kept names request path evaluations true s h =
      then_Kept ports ordinary stage_ports quiet first _ _ _ _
        (run-Kept stage_ports first quiet names "visualization"
          (publish_pipeline ports request path (distinct ("val" ∷ request.splits)) evaluations) s
          refl
          (publish_pipeline-IsOrdinary ports ordinary request path
            (distinct ("val" ∷ request.splits)) evaluations)
          h)
        (λ _ _ h. h)
  visualize-Kept names request path evaluations false s h =
      skip-Kept stage_ports first quiet names "visualization"
        "Prediction output unavailable in this attempt" s refl h

  -- The results carry the outcome of the pipeline, in which the training is as it was, nothing was
  -- fatal, and every stage has an outcome.
  abbrev pub HasReturned : Results C → Stages W → Type 0
  HasReturned results s =
      Holds first (downstream_names stage_ports) s.outcome × (results.outcome ≡ some s.outcome)

  abbrev CarriesOutcome : PipelineOutcome → Stages W → Type 0
  CarriesOutcome outcome s =
      Holds first (downstream_names stage_ports) s.outcome × (outcome ≡ s.outcome)

  finish_with-HasReturned :
      (results : Results C) (s : Stages W)
      → Holds first (downstream_names stage_ports) s.outcome
      → Ensures HasReturned (finish_with ports stage_ports results s)
  unfolding finish
  finish_with-HasReturned results s h =
      Ensures-bind CarriesOutcome HasReturned _ _
        (Ensures-bind (Kept stage_ports first (downstream_names stage_ports)) CarriesOutcome _ _
          (persist-Kept stage_ports first quiet (downstream_names stage_ports) s h)
          (λ _ s h. logged s h))
        (λ outcome s h. (h.0, ap some h.1))
    where
      told :
          (s : Stages W) (r : W × Call (Unit {0}))
          → IsDone r.1
          → Holds first (downstream_names stage_ports) s.outcome
          → Ensures CarriesOutcome (lifted s r &> λ _ s'. (s', done s.outcome))
      told s (w, done _) d h = (h, refl)
      told s (w, raised _) d h = d

      logged :
          (s : Stages W)
          → Holds first (downstream_names stage_ports) s.outcome
          → Ensures CarriesOutcome (
              lift (stage_ports.log (level stage_ports (status_of s.outcome)) (summary s.outcome)) s
              &> λ _ s'. (s', done s.outcome))
      logged s h =
          told s
            (stage_ports.log (level stage_ports (status_of s.outcome)) (summary s.outcome) s.world)
            (quiet.logs (level stage_ports (status_of s.outcome)) (summary s.outcome) s.world) h

  finish_all-HasReturned :
      (names : List String) (results : Results C) (s : Stages W)
      → Holds first
          ("visualization" ∷ "report" ∷ "comparison" ∷ "metrics" ∷ "prediction" ∷ names)
          s.outcome
      → Ensures HasReturned (finish_with ports stage_ports results s)
  finish_all-HasReturned names results s h = finish_with-HasReturned results s (record {
    trained = h.trained;
    whole = h.whole;
    kept = h.kept;
    present = (
      h.present.1.1.1.1.0,
      (h.present.1.1.1.0, (h.present.1.1.0, (h.present.1.0, (h.present.0, tt)))),
    );
  })

  downstream-HasReturned :
      (names : List String) (request : Request) (results : Results C) (s : Stages W)
      → Holds first names s.outcome
      → Ensures HasReturned (downstream ports stage_ports request results s)
  unfolding downstream
  downstream-HasReturned names request results s h =
      Ensures-bind (Kept stage_ports first ("prediction" ∷ names)) HasReturned _ _
        (predict_stage-Kept ports ordinary stage_ports quiet first names request results s h)
        (λ predicted s h.
          Ensures-bind (Kept stage_ports first ("prediction" ∷ names)) HasReturned _ _
            (predictions_ready-Kept ports ordinary stage_ports quiet first names request s h)
            (λ ready s h. measured predicted ready s h))
    where
      measured :
          (predicted : Results C × String) (ready : Bool) (s : Stages W)
          → Holds first ("prediction" ∷ names) s.outcome
          → Ensures HasReturned (
              pipeline_metrics ports stage_ports request predicted.0 predicted.1 ready s
              &> λ measured s.
                  compare_stage ports stage_ports request measured.0 measured.2 s &> λ compared s.
                  pipeline_report ports stage_ports request compared.0 compared.1 s &> λ results s.
                  visualize ports stage_ports request predicted.1 measured.1 ready s &> λ _ s.
                  finish_with ports stage_ports results s)
      measured predicted ready s h =
          Ensures-bind (Kept stage_ports first ("metrics" ∷ "prediction" ∷ names)) HasReturned _ _
            (pipeline_metrics-Kept ports ordinary stage_ports quiet first ("prediction" ∷ names)
              request predicted.0 predicted.1 ready s h)
            (λ measured s h.
              Ensures-bind
                (Kept stage_ports first ("comparison" ∷ "metrics" ∷ "prediction" ∷ names))
                HasReturned _ _
                (compare_stage-Kept ports ordinary stage_ports quiet first
                  ("metrics" ∷ "prediction" ∷ names) request measured.0 measured.2 s h)
                (λ compared s h.
                  Ensures-bind
                    (Kept stage_ports first
                      ("report" ∷ "comparison" ∷ "metrics" ∷ "prediction" ∷ names))
                    HasReturned _ _
                    (pipeline_report-Kept ("comparison" ∷ "metrics" ∷ "prediction" ∷ names) request
                      compared.0 compared.1 s h)
                    (λ results s h.
                      Ensures-bind
                        (Kept stage_ports first (
                          "visualization" ∷ "report" ∷ "comparison" ∷ "metrics" ∷ "prediction"
                          ∷ names))
                        HasReturned _ _
                        (visualize-Kept ("report" ∷ "comparison" ∷ "metrics" ∷ "prediction" ∷ names)
                          request predicted.1 measured.1 ready s h)
                        (λ _ s h. finish_all-HasReturned names results s h))))

  -- The names, in reverse, before others.
  abbrev onto : List String → List String → List String
  onto [] names = names
  onto (name ∷ rest) names = onto rest (name ∷ names)

  skip_all-Kept :
      (rest names : List String) (reason : String) (s : Stages W)
      → All (λ name. str_eq name "training" ≡ false) rest
      → Holds first names s.outcome
      → Ensures (Kept stage_ports first (onto rest names)) (skip_all stage_ports rest reason s)
  skip_all-Kept [] names reason s differs h = h
  skip_all-Kept (name ∷ rest) names reason s differs h =
      Ensures-bind (Kept stage_ports first (name ∷ names))
        (Kept stage_ports first (onto rest (name ∷ names))) _ _
        (skip-Kept stage_ports first quiet names name reason s differs.0 h)
        (λ _ s h. skip_all-Kept rest (name ∷ names) reason s differs.1 h)

  -- The state with its answer: ready, or every stage skipped.
  abbrev IsSettled : List String → Bool → Stages W → Type 0
  IsSettled names true s = Holds first names s.outcome
  IsSettled names false s = Holds first (onto (downstream_names stage_ports) names) s.outcome

  after_resources-IsSettled :
      (names : List String) (ready : Bool) (s : Stages W)
      → Holds first names s.outcome
      → Ensures (IsSettled names) (after_resources stage_ports ready s)
  after_resources-IsSettled names true s h = h
  after_resources-IsSettled names false s h =
      Ensures-bind (Kept stage_ports first (onto (downstream_names stage_ports) names))
        (IsSettled names) _ _
        (skip_all-Kept (downstream_names stage_ports) names (unknown_admission stage_ports) s
          (refl, (refl, (refl, (refl, (refl, tt))))) h)
        (λ _ _ h. h)

  resources_ready-IsSettled :
      (names : List String) (s : Stages W)
      → Holds first ("training_resources" ∷ names) s.outcome
      → Ensures (IsSettled ("training_resources" ∷ names)) (resources_ready stage_ports s)
  unfolding resources_ready
  resources_ready-IsSettled names s h =
      if_ind (Ensures (IsSettled ("training_resources" ∷ names))) s.outcome.training_succeeded
        (λ _.
          Ensures-bind (Kept stage_ports first ("training_resources" ∷ names))
            (IsSettled ("training_resources" ∷ names)) _ _
            (has_succeeded-Kept stage_ports first quiet ("training_resources" ∷ names)
              "training_resources" s h.present.0 h)
            (λ ready s h. after_resources-IsSettled ("training_resources" ∷ names) ready s h))
        (λ _. h)

  if_ready-HasReturned :
      (names : List String) (request : Request) (results : Results C) (ready : Bool) (s : Stages W)
      → IsSettled names ready s
      → Ensures HasReturned (if_ready ports stage_ports request results ready s)
  if_ready-HasReturned names request results true s h =
      downstream-HasReturned names request results s h
  if_ready-HasReturned names request results false s h = finish_all-HasReturned names results s h

  pub run_downstream-HasReturned :
      (names : List String) (request : Request) (results : Results C) (s : Stages W)
      → Holds first ("training_resources" ∷ names) s.outcome
      → Ensures HasReturned (run_downstream ports stage_ports request results s)
  unfolding run_downstream
  run_downstream-HasReturned names request results s h =
      Ensures-bind (IsSettled ("training_resources" ∷ names)) HasReturned _ _
        (resources_ready-IsSettled names s h)
        (λ ready s h. if_ready-HasReturned ("training_resources" ∷ names) request results ready s h)
