-- ===== src/Pipeline/Reports.antt =====
-- The report of the pipeline had its comparison.
use clearml_yolo.Base.{
  ◌≡◌, refl, ap, ◌∙◌, inl, inr, Bool, true, false, not, Option, none, some, List, [], ◌∷◌, String,
  str_eq, arith, if_ind,
}
use mathlib.Core.Path.{subst}
use mathlib.Core.Logic.{⊎_elim}
use clearml_yolo.PipelineOutcome.{skipped, StageOutcome}
use clearml_yolo.Pipeline.{StageMap, stage_at, Stages, plain, StagePorts}
use clearml_yolo.Pipeline.Frame.{
  IfDone, IfDone-bind, SameBut, put-SameBut, Entered, Ran, skip-Entered, run-Ran,
}
use clearml_yolo.Pipeline.Flow.{
  stage_succeeded, Succeeded, Attempted, HasPredictions, HasComparison, keep_ready,
  Attempted-SameBut, not-Attempted,
}
use clearml_yolo.Pipeline.Workflow.{
  Reported, WorkflowPorts, Request, Results, disabled, report_artifacts, with_artifacts,
  with_issues, after_report, pipeline_report,
}
use clearml_yolo.Pipeline.Compares.{AfterCompare}

module _ {W C : Type 0} (ports : WorkflowPorts W C) (stage_ports : StagePorts W) (request : Request)
    (ready : Bool) where
  -- After the report.
  pub record AfterReport (stages : StageMap) : Type 0 where
    pub ready_fed : ready ≡ true → HasPredictions request stages
    pub measured : Attempted "metrics" stages → ready ≡ true
    pub comparison_fed : Attempted "comparison" stages → Succeeded "thresholds" stages
    pub reported : Attempted "report" stages → HasComparison request stages

  pub keep_comparison :
      (name : String) (before after : StageMap)
      → str_eq name "comparison" ≡ false
      → SameBut name before after
      → HasComparison request before
      → HasComparison request after
  keep_comparison name before after differs same =
      ⊎_elim (λ found. inl (ap stage_succeeded (same "comparison" differs (refl, refl)) ∙ found))
        inr

  -- A stage that neither is the comparison nor gives the thresholds.
  pub keep_compared :
      (name : String) (before : StageMap) (s : Stages W)
      → str_eq name "comparison" ≡ false
      → str_eq name "thresholds" ≡ false
      → SameBut name before s.outcome.stages
      → (Attempted "comparison" before → Succeeded "thresholds" before)
      → Attempted "comparison" s.outcome.stages
      → Succeeded "thresholds" s.outcome.stages
  keep_compared name before s c t same h tried =
      ap stage_succeeded (same "thresholds" t (refl, refl))
      ∙ h (
          Attempted-SameBut ports stage_ports request ready name "comparison" before s c
            (refl, refl) same tried)

  reported_with :
      (flag : Bool) (before : StageMap) (s : Stages W)
      → SameBut "report" before s.outcome.stages
      → AfterCompare ports stage_ports request ready flag before
      → (Attempted "report" s.outcome.stages → flag ≡ true)
      → AfterReport s.outcome.stages
  reported_with flag before s same h tried = record {
    ready_fed = keep_ready ports stage_ports request "report" ready before s refl same h.ready_fed;
    measured = λ attempted. h.measured (
        Attempted-SameBut ports stage_ports request ready "report" "metrics" before s refl
          (refl, refl) same attempted);
    comparison_fed = keep_compared "report" before s refl refl same h.comparison_fed;
    reported = λ attempted.
        keep_comparison "report" before s.outcome.stages refl same
          (h.has_comparison (tried attempted));
  }

  abbrev pub Reports : Results C → Stages W → Type 0
  Reports _ s = AfterReport s.outcome.stages

  with_artifacts-SameBut :
      (name : String) (artifacts : List String) (o : Option StageOutcome) (before : StageMap)
      (s : Stages W)
      → SameBut name before s.outcome.stages
      → SameBut name before (with_artifacts ports stage_ports name artifacts o s).outcome.stages
  with_artifacts-SameBut name artifacts none before s same = same
  with_artifacts-SameBut name artifacts (some stage) before s same = λ key differs own.
      put-SameBut name (record stage { artifacts = artifacts }) s.outcome.stages key differs own
      ∙ same key differs own

  with_issues-SameBut :
      (artifacts issues : List String) (before : StageMap) (s : Stages W)
      → SameBut "report" before s.outcome.stages
      → SameBut "report" before (with_issues ports stage_ports artifacts issues s).outcome.stages
  with_issues-SameBut artifacts [] before s same = same
  with_issues-SameBut artifacts (issue ∷ issues) before s same = λ key differs own.
      put-SameBut "report" _ s.outcome.stages key differs own ∙ same key differs own

  after_report-Reports :
      (results : Results C) (o : Option Reported) (before : StageMap) (s : Stages W)
      → SameBut "report" before s.outcome.stages
      → AfterCompare ports stage_ports request ready true before
      → IfDone Reports (after_report ports stage_ports results o s)
  after_report-Reports results none before s same h = reported_with true before s same h (λ _. refl)
  after_report-Reports results (some found) before s same h =
      let artifacts = report_artifacts ports stage_ports found in
      let noted =
        with_artifacts ports stage_ports "report" artifacts (stage_at "report" s.outcome.stages)
          s in
      reported_with true before (with_issues ports stage_ports artifacts found.issues noted)
        (with_issues-SameBut artifacts found.issues before noted (
          with_artifacts-SameBut "report" artifacts (stage_at "report" s.outcome.stages) before s
            same))
        h (λ _. refl)

  report_skipped :
      (flag : Bool) (reason : String) (before : StageMap) (s : Stages W)
      → AfterCompare ports stage_ports request ready flag before
      → Entered "report" (plain skipped (some reason)) before s
      → AfterReport s.outcome.stages
  report_skipped flag reason before s h entered = reported_with flag before s entered.0 h (λ tried.
      absurd (not-Attempted ports stage_ports request ready "report" reason before s entered tried))

  Ran-Reports :
      (results : Results C) (o : Option Reported) (before : StageMap) (s : Stages W)
      → AfterCompare ports stage_ports request ready true before
      → Ran "report" before o s
      → IfDone Reports (after_report ports stage_ports results o s)
  Ran-Reports results none before s h ran = after_report-Reports results none before s ran.1.0 h
  Ran-Reports results (some found) before s h ran =
      after_report-Reports results (some found) before s ran.0 h

  pub pipeline_report-Reports :
      (results : Results C) (flag : Bool) (s : Stages W)
      → AfterCompare ports stage_ports request ready flag s.outcome.stages
      → IfDone Reports (pipeline_report ports stage_ports request results flag s)
  unfolding pipeline_report
  pipeline_report-Reports results flag s h =
      if_ind (IfDone Reports) request.skip_report
        (λ _.
          IfDone-bind
            (λ (_ : Unit {0}). Entered "report" (plain skipped (some disabled)) s.outcome.stages)
            Reports _ _ (skip-Entered stage_ports "report" disabled s (refl, refl))
            (λ _ s' entered. report_skipped flag disabled s.outcome.stages s' h entered))
        (λ _.
          if_ind (IfDone Reports) (not flag)
            (λ _.
              IfDone-bind
                (λ (_ : Unit {0}).
                  Entered "report"
                    (plain skipped (some "No successful comparison producer in this attempt"))
                    s.outcome.stages)
                Reports _ _
                (skip-Entered stage_ports "report"
                  "No successful comparison producer in this attempt" s (refl, refl))
                (λ _ s' entered.
                  report_skipped flag "No successful comparison producer in this attempt"
                    s.outcome.stages s' h entered))
            (λ has_comparison.
              IfDone-bind (Ran "report" s.outcome.stages) Reports _ _
                (run-Ran stage_ports "report" ports.run_report s (refl, refl))
                (λ o s' ran.
                  Ran-Reports results o s.outcome.stages s'
                    (subst (λ b. AfterCompare ports stage_ports request ready b s.outcome.stages)
                      (ground arith) h)
                    ran)))
