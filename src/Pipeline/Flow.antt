-- ===== src/Pipeline/Flow.antt =====
-- Up to the metrics: which stages are attempted after which others succeeded.
use clearml_yolo.Base.{
  ◌≡◌, refl, sym, ap, ◌∙◌, ◌⊎◌, inl, inr, Bool, true, false, ◌&&◌, not, Option, none, some, List,
  String, str_eq, arith, if_ind,
}
use mathlib.Core.Logic.{⊎_elim}
use clearml_yolo.PipelineOutcome.{
  StageStatus, succeeded, failed, skipped, completed_with_warnings, StageOutcome,
}
use clearml_yolo.Pipeline.{
  StageMap, stage_at, Effect, Stages, plain, StagePorts, run, is_succeeded, status_succeeded,
  has_succeeded,
}
use clearml_yolo.Pipeline.Frame.{
  IfDone, IfDone-bind, IfDone-map, IsOwn, SameBut, Entered, Ran, skip-Entered, run-Ran,
}
use clearml_yolo.Pipeline.Workflow.{
  Thresholds, Evaluated, WorkflowPorts, Request, Results, disabled, first_confidences,
  publish_thresholds, after_metrics, stored_value, stored_thresholds, pipeline_metrics,
}
use clearml_yolo.Pipeline.Downstream.{predictions_ready}

abbrev pub is_ok : StageStatus → Bool
is_ok succeeded = true
is_ok completed_with_warnings = false
is_ok failed = false
is_ok skipped = false

abbrev pub was_tried : StageStatus → Bool
was_tried succeeded = true
was_tried completed_with_warnings = true
was_tried failed = true
was_tried skipped = false

-- The stage succeeded, as it stands in the outcomes.
abbrev pub stage_succeeded : Option StageOutcome → Bool
stage_succeeded none = false
stage_succeeded (some stage) = is_ok stage.status

-- The stage's operation was called.
abbrev pub stage_attempted : Option StageOutcome → Bool
stage_attempted none = false
stage_attempted (some stage) = was_tried stage.status

abbrev pub Succeeded : String → StageMap → Type 0
Succeeded name stages = stage_succeeded (stage_at name stages) ≡ true

abbrev pub Attempted : String → StageMap → Type 0
Attempted name stages = stage_attempted (stage_at name stages) ≡ true

-- There are predictions of this run, or both they and the training were left out.
abbrev pub HasPredictions : Request → StageMap → Type 0
HasPredictions request stages =
    Succeeded "prediction" stages ⊎ ((request.skip_predict ≡ true) × (request.skip_train ≡ true))

abbrev pub HasComparison : Request → StageMap → Type 0
HasComparison request stages =
    Succeeded "comparison" stages ⊎ ((request.skip_compare ≡ true) × (request.skip_train ≡ true))

-- Each stage that was attempted had its input.
pub record IsFed (request : Request) (stages : StageMap) : Type 0 where
  pub measured : Attempted "metrics" stages → HasPredictions request stages
  pub comparison_fed : Attempted "comparison" stages → Succeeded "thresholds" stages
  pub reported : Attempted "report" stages → HasComparison request stages
  pub visualized : Attempted "visualization" stages → HasPredictions request stages

abbrev pub is_given : {A : Type 0} → Option A → Bool
is_given none = false
is_given (some _) = true

module _ {W C : Type 0} (ports : WorkflowPorts W C) (stage_ports : StagePorts W)
    (request : Request) where
  -- After the prediction.
  abbrev pub AfterReady : Bool → Stages W → Type 0
  AfterReady ready s = ready ≡ true → HasPredictions request s.outcome.stages

  same_status : (status : StageStatus) → is_succeeded stage_ports status ≡ is_ok status
  same_status succeeded = refl
  same_status completed_with_warnings = refl
  same_status failed = refl
  same_status skipped = refl

  ready_by_stage :
      (o : Option StageOutcome) (s : Stages W)
      → stage_at "prediction" s.outcome.stages ≡ o
      → IfDone AfterReady (s, status_succeeded stage_ports "prediction" o)
  ready_by_stage none s e = tt
  ready_by_stage (some stage) s e =
      λ ready. inl (ap stage_succeeded e ∙ (sym (same_status stage.status) ∙ ready))

  pub predictions_ready-AfterReady :
      (s : Stages W) → IfDone AfterReady (predictions_ready ports stage_ports request s)
  unfolding has_succeeded
  predictions_ready-AfterReady s =
      if_ind (IfDone AfterReady) request.skip_predict (λ skips trains. inr (skips, trains))
        (λ _. ready_by_stage (stage_at "prediction" s.outcome.stages) s refl)

  -- The outcome of another stage is written.
  pub keep_ready :
      (name : String) (ready : Bool) (before : StageMap) (s : Stages W)
      → str_eq name "prediction" ≡ false
      → SameBut name before s.outcome.stages
      → (ready ≡ true → HasPredictions request before)
      → AfterReady ready s
  keep_ready name ready before s differs same h yes_ready =
      ⊎_elim (λ found. inl (ap stage_succeeded (same "prediction" differs (refl, refl)) ∙ found))
        inr (h yes_ready)

  -- After the metrics, with what they give.
  pub record AfterMetrics (ready : Bool) (o : Option Thresholds) (stages : StageMap) : Type 0 where
    pub ready_fed : ready ≡ true → HasPredictions request stages
    pub measured : Attempted "metrics" stages → ready ≡ true
    pub found : is_given o ≡ true → Succeeded "thresholds" stages

  module _ (ready : Bool) where
    -- After the metrics' own stage.
    abbrev Measured : StageMap → Type 0
    Measured stages =
        (ready ≡ true → HasPredictions request stages) × (Attempted "metrics" stages → ready ≡ true)

    pub Attempted-SameBut :
        (name key : String) (before : StageMap) (s : Stages W)
        → str_eq name key ≡ false
        → IsOwn key
        → SameBut name before s.outcome.stages
        → Attempted key s.outcome.stages
        → Attempted key before
    Attempted-SameBut name key before s differs own same tried =
        sym (ap stage_attempted (same key differs own)) ∙ tried

    pub not-Attempted :
        (name reason : String) (before : StageMap) (s : Stages W)
        → Entered name (plain skipped (some reason)) before s
        → Attempted name s.outcome.stages
        → ⊥
    not-Attempted name reason before s h tried = cc (ap stage_attempted h.1, tried)

    SameBut-Measured :
        (name : String) (before : StageMap) (s : Stages W)
        → str_eq name "prediction" ≡ false
        → str_eq name "metrics" ≡ false
        → SameBut name before s.outcome.stages
        → Measured before
        → Measured s.outcome.stages
    SameBut-Measured name before s p m same h = (
      keep_ready name ready before s p same h.0,
      λ tried. h.1 (Attempted-SameBut name "metrics" before s m (refl, refl) same tried),
    )

    found_thresholds :
        {o : Option Thresholds} (before : StageMap) (s : Stages W)
        → Measured before
        → Ran "thresholds" before o s
        → AfterMetrics ready o s.outcome.stages
    found_thresholds {o = none} before s h (reason, entered) =
        let kept = SameBut-Measured "thresholds" before s refl refl entered.0 h in
        record { ready_fed = kept.0; measured = kept.1; found = λ given. cc }
    found_thresholds {o = some thresholds} before s h entered =
        let kept = SameBut-Measured "thresholds" before s refl refl entered.0 h in
        record { ready_fed = kept.0; measured = kept.1; found = λ _. ap stage_succeeded entered.1 }

    found_stored :
        (o : Option (Option Thresholds)) (before : StageMap) (s : Stages W)
        → Measured before
        → Ran "thresholds" before o s
        → AfterMetrics ready (stored_value ports stage_ports o) s.outcome.stages
    found_stored none before s h (reason, entered) =
        let kept = SameBut-Measured "thresholds" before s refl refl entered.0 h in
        record { ready_fed = kept.0; measured = kept.1; found = λ given. cc }
    found_stored (some none) before s h entered =
        let kept = SameBut-Measured "thresholds" before s refl refl entered.0 h in
        record { ready_fed = kept.0; measured = kept.1; found = λ given. cc }
    found_stored (some (some thresholds)) before s h entered =
        let kept = SameBut-Measured "thresholds" before s refl refl entered.0 h in
        record { ready_fed = kept.0; measured = kept.1; found = λ _. ap stage_succeeded entered.1 }

    run_thresholds :
        (operation : Effect W Thresholds) (s : Stages W)
        → Measured s.outcome.stages
        → IfDone
            (λ o s. AfterMetrics ready o s.outcome.stages)
            (run stage_ports "thresholds" operation s)
    run_thresholds operation s h =
        IfDone-map (Ran "thresholds" s.outcome.stages)
          (λ o s. AfterMetrics ready o s.outcome.stages) _
          (λ o s' ran. found_thresholds s.outcome.stages s' h ran)
          (run-Ran stage_ports "thresholds" operation s (refl, refl))

    no_thresholds :
        (s : Stages W) → Measured s.outcome.stages → AfterMetrics ready none s.outcome.stages
    no_thresholds s h = record { ready_fed = h.0; measured = h.1; found = λ given. cc }

    stored-AfterMetrics :
        (s : Stages W)
        → Measured s.outcome.stages
        → IfDone
            (λ o s. AfterMetrics ready o s.outcome.stages)
            (stored_thresholds ports stage_ports request s)
    stored-AfterMetrics s h =
        if_ind (IfDone (λ o s. AfterMetrics ready o s.outcome.stages))
          (request.skip_train && not request.skip_compare)
          (λ _.
            IfDone-bind (Ran "thresholds" s.outcome.stages)
              (λ o s. AfterMetrics ready o s.outcome.stages) _ _
              (run-Ran stage_ports "thresholds" ports.read_thresholds s (refl, refl))
              (λ o s' ran. found_stored o s.outcome.stages s' h ran))
          (λ _. no_thresholds s h)

    keep_after :
        (o : Option Thresholds) (before : StageMap) (s : Stages W)
        → SameBut "threshold_publication" before s.outcome.stages
        → AfterMetrics ready o before
        → AfterMetrics ready o s.outcome.stages
    keep_after o before s same h =
        let kept =
          SameBut-Measured "threshold_publication" before s refl refl same
            (h.ready_fed, h.measured) in
        record {
          ready_fed = kept.0;
          measured = kept.1;
          found = λ given. ap stage_succeeded (same "thresholds" refl (refl, refl)) ∙ h.found given;
        }

    publish-AfterMetrics :
        (evaluations : List (String × String)) (o : Option Thresholds) (s : Stages W)
        → AfterMetrics ready o s.outcome.stages
        → IfDone
            (λ r s. AfterMetrics ready r.1 s.outcome.stages)
            (publish_thresholds ports stage_ports evaluations o s)
    publish-AfterMetrics evaluations none s h = h
    publish-AfterMetrics evaluations (some thresholds) s h =
        IfDone-bind (Ran "threshold_publication" s.outcome.stages)
          (λ r s. AfterMetrics ready r.1 s.outcome.stages) _ _
          (run-Ran stage_ports "threshold_publication" (ports.write_thresholds thresholds) s
            (refl, refl))
          (λ o s' ran. by_result o s' ran)
      where
        by_result :
            (o : Option (Unit {0})) (s' : Stages W)
            → Ran "threshold_publication" s.outcome.stages o s'
            → AfterMetrics ready (some thresholds) s'.outcome.stages
        by_result none s' ran = keep_after (some thresholds) s.outcome.stages s' ran.1.0 h
        by_result (some _) s' ran = keep_after (some thresholds) s.outcome.stages s' ran.0 h

    -- The third of what the metrics give.
    abbrev pub Gives : Results C × List (String × String) × Option Thresholds → Stages W → Type 0
    Gives r s = AfterMetrics ready r.2 s.outcome.stages

    after_metrics-Gives :
        (results : Results C) (o : Option Evaluated) (s : Stages W)
        → Measured s.outcome.stages
        → IfDone Gives (after_metrics ports stage_ports results o s)
    after_metrics-Gives results none s h = no_thresholds s h
    after_metrics-Gives results (some evaluated) s h =
        IfDone-bind (λ o s. AfterMetrics ready o s.outcome.stages) Gives _ _
          (run_thresholds (λ w. (w, first_confidences ports evaluated.best_confidences)) s h)
          (λ o s h.
            IfDone-bind (λ r s. AfterMetrics ready r.1 s.outcome.stages) Gives _ _
              (publish-AfterMetrics evaluated.evaluations o s h) (λ _ _ h. h))

    skipped_metrics :
        (reason : String) (s s' : Stages W)
        → (ready ≡ true → HasPredictions request s.outcome.stages)
        → Entered "metrics" (plain skipped (some reason)) s.outcome.stages s'
        → Measured s'.outcome.stages
    skipped_metrics reason s s' h entered = (
      keep_ready "metrics" ready s.outcome.stages s' refl entered.0 h,
      λ tried. absurd (not-Attempted "metrics" reason s.outcome.stages s' entered tried),
    )

    Ran-Measured :
        not ready ≡ false
        → (o : Option Evaluated) (s s' : Stages W)
        → (ready ≡ true → HasPredictions request s.outcome.stages)
        → Ran "metrics" s.outcome.stages o s'
        → Measured s'.outcome.stages
    Ran-Measured is_ready none s s' h ran =
        (keep_ready "metrics" ready s.outcome.stages s' refl ran.1.0 h, λ _. ground arith)
    Ran-Measured is_ready (some _) s s' h ran =
        (keep_ready "metrics" ready s.outcome.stages s' refl ran.0 h, λ _. ground arith)

    pub pipeline_metrics-Gives :
        (results : Results C) (path : String) (s : Stages W)
        → (ready ≡ true → HasPredictions request s.outcome.stages)
        → IfDone Gives (pipeline_metrics ports stage_ports request results path ready s)
    unfolding pipeline_metrics
    pipeline_metrics-Gives results path s h =
        if_ind (IfDone Gives) request.skip_metrics
          (λ _.
            IfDone-bind
              (λ (_ : Unit {0}). Entered "metrics" (plain skipped (some disabled)) s.outcome.stages)
              Gives _ _ (skip-Entered stage_ports "metrics" disabled s (refl, refl))
              (λ _ s' entered.
                IfDone-bind (λ o s. AfterMetrics ready o s.outcome.stages) Gives _ _
                  (stored-AfterMetrics s' (skipped_metrics disabled s s' h entered)) (λ _ _ h. h)))
          (λ _.
            if_ind (IfDone Gives) (not ready)
              (λ _.
                IfDone-bind
                  (λ (_ : Unit {0}).
                    Entered "metrics"
                      (plain skipped
                        (some "No successful prediction producer in this training attempt"))
                      s.outcome.stages)
                  Gives _ _
                  (skip-Entered stage_ports "metrics"
                    "No successful prediction producer in this training attempt" s (refl, refl))
                  (λ _ s' entered. no_thresholds s' (
                    skipped_metrics "No successful prediction producer in this training attempt" s
                      s' h entered)))
              (λ is_ready.
                IfDone-bind (Ran "metrics" s.outcome.stages) Gives _ _
                  (run-Ran stage_ports "metrics" (ports.compute_metrics path request.splits) s
                    (refl, refl))
                  (λ o s' ran.
                    after_metrics-Gives results o s' (Ran-Measured is_ready o s s' h ran))))
