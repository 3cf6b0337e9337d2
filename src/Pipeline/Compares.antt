-- ===== src/Pipeline/Compares.antt =====
-- The comparison of the pipeline had its thresholds.
use clearml_yolo.Base.{
  ◌≡◌, refl, ap, ◌∙◌, inl, inr, Bool, true, false, Option, none, some, String, if_ind,
}
use clearml_yolo.PipelineOutcome.{skipped, StageOutcome}
use clearml_yolo.Pipeline.{StageMap, Stages, plain, StagePorts}
use clearml_yolo.Pipeline.Frame.{IfDone, IfDone-bind, SameBut, Entered, Ran, skip-Entered, run-Ran}
use clearml_yolo.Pipeline.Flow.{
  stage_succeeded, Succeeded, Attempted, HasPredictions, HasComparison, keep_ready, AfterMetrics,
  Attempted-SameBut, not-Attempted, is_given,
}
use clearml_yolo.Pipeline.Workflow.{
  Thresholds, Compared, comparison_skipped, comparison, WorkflowPorts, Request, Results, disabled,
  compare_and_report,
}
use clearml_yolo.Pipeline.Downstream.{after_comparing, candidate_task, compare_with, compare_stage}

module _ {W C : Type 0} (ports : WorkflowPorts W C) (stage_ports : StagePorts W) (request : Request)
    (ready : Bool) where
  -- After the comparison, with whether it gave something to report.
  pub record AfterCompare (flag : Bool) (stages : StageMap) : Type 0 where
    pub ready_fed : ready ≡ true → HasPredictions request stages
    pub measured : Attempted "metrics" stages → ready ≡ true
    pub comparison_fed : Attempted "comparison" stages → Succeeded "thresholds" stages
    pub has_comparison : flag ≡ true → HasComparison request stages

  -- The comparison's entry is written.
  compared_with :
      (flag : Bool) (o : Option Thresholds) (before : StageMap) (s : Stages W)
      → SameBut "comparison" before s.outcome.stages
      → AfterMetrics ports stage_ports request ready o before
      → (Attempted "comparison" s.outcome.stages → is_given o ≡ true)
      → (flag ≡ true → HasComparison request s.outcome.stages)
      → AfterCompare flag s.outcome.stages
  compared_with flag o before s same h tried has_comparison = record {
    ready_fed =
        keep_ready ports stage_ports request "comparison" ready before s refl same h.ready_fed;
    measured = λ attempted. h.measured (
        Attempted-SameBut ports stage_ports request ready "comparison" "metrics" before s refl
          (refl, refl) same attempted);
    comparison_fed = λ attempted.
        ap stage_succeeded (same "thresholds" refl (refl, refl)) ∙ h.found (tried attempted);
    has_comparison = has_comparison;
  }

  -- The comparison was skipped.
  compare_skipped :
      (flag : Bool) (reason : String) (o : Option Thresholds) (before : StageMap) (s : Stages W)
      → AfterMetrics ports stage_ports request ready o before
      → (flag ≡ true → HasComparison request s.outcome.stages)
      → Entered "comparison" (plain skipped (some reason)) before s
      → AfterCompare flag s.outcome.stages
  compare_skipped flag reason o before s h has_comparison entered =
      compared_with flag o before s entered.0 h
        (λ tried. absurd (
          not-Attempted ports stage_ports request ready "comparison" reason before s entered tried))
        has_comparison

  abbrev pub Compares : Results C × Bool → Stages W → Type 0
  Compares r s = AfterCompare r.1 s.outcome.stages

  -- An entry that is written twice is written once.
  rewritten :
      (name : String) (stage : StageOutcome) (before middle : StageMap) (s : Stages W)
      → SameBut name before middle
      → Entered name stage middle s
      → Entered name stage before s
  rewritten name stage before middle s same entered =
      (λ key differs own. entered.0 key differs own ∙ same key differs own, entered.1)

  after_comparing-Compares :
      (results : Results C) (thresholds : Thresholds) (o : Option (Compared C)) (before : StageMap)
      (s : Stages W)
      → AfterMetrics ports stage_ports request ready (some thresholds) before
      → Ran "comparison" before o s
      → IfDone Compares (after_comparing ports stage_ports results o s)
  after_comparing-Compares results thresholds none before s h ran =
      compared_with false (some thresholds) before s ran.1.0 h (λ _. refl) (λ e. cc)
  after_comparing-Compares results thresholds (some (comparison found reports)) before s h ran =
      compared_with true (some thresholds) before s ran.0 h (λ _. refl)
        (λ _. inl (ap stage_succeeded ran.1))
  after_comparing-Compares results thresholds (some comparison_skipped) before s h ran =
      IfDone-bind
        (λ (_ : Unit {0}).
          Entered "comparison" (plain skipped (some "Automatic baseline unavailable"))
            s.outcome.stages)
        Compares _ _
        (skip-Entered stage_ports "comparison" "Automatic baseline unavailable" s (refl, refl))
        (λ _ s' entered.
          compare_skipped false "Automatic baseline unavailable" (some thresholds) before s' h
            (λ e. cc)
            (rewritten "comparison" (plain skipped (some "Automatic baseline unavailable")) before
              s.outcome.stages s' ran.0 entered))

  compare_with-Compares :
      (results : Results C) (o : Option Thresholds) (s : Stages W)
      → AfterMetrics ports stage_ports request ready o s.outcome.stages
      → IfDone Compares (compare_with ports stage_ports request results o s)
  compare_with-Compares results none s h =
      IfDone-bind
        (λ (_ : Unit {0}).
          Entered "comparison"
            (plain skipped (some "Calibration thresholds unavailable in this attempt"))
            s.outcome.stages)
        Compares _ _
        (skip-Entered stage_ports "comparison" "Calibration thresholds unavailable in this attempt"
          s (refl, refl))
        (λ _ s' entered.
          compare_skipped false "Calibration thresholds unavailable in this attempt" none
            s.outcome.stages s' h (λ e. cc) entered)
  compare_with-Compares results (some thresholds) s h =
      IfDone-bind (Ran "comparison" s.outcome.stages) Compares _ _
        (run-Ran stage_ports "comparison"
          (compare_and_report ports thresholds true (candidate_task ports stage_ports request)) s
          (refl, refl))
        (λ o s' ran. after_comparing-Compares results thresholds o s.outcome.stages s' h ran)

  pub compare_stage-Compares :
      (results : Results C) (o : Option Thresholds) (s : Stages W)
      → AfterMetrics ports stage_ports request ready o s.outcome.stages
      → IfDone Compares (compare_stage ports stage_ports request results o s)
  compare_stage-Compares results o s h =
      if_ind (IfDone Compares) request.skip_compare
        (λ skips.
          IfDone-bind
            (λ (_ : Unit {0}).
              Entered "comparison" (plain skipped (some disabled)) s.outcome.stages)
            Compares _ _ (skip-Entered stage_ports "comparison" disabled s (refl, refl))
            (λ _ s' entered.
              compare_skipped request.skip_train disabled o s.outcome.stages s' h
                (λ trains. inr (skips, trains)) entered))
        (λ _. compare_with-Compares results o s h)
