-- ===== src/Pipeline/Ordinary.antt =====
-- Operations whose ports fail only by exceptions fail only by exceptions.
use clearml_yolo.Base.{Bool, true, false, Option, none, some, List, String, str_eq, if_ind}
use clearml_yolo.Pipeline.{exception, interruption, Call, done, raised, Effect}
use clearml_yolo.Pipeline.Survival.{IsOrdinary}
use clearml_yolo.Pipeline.Workflow.{
  Thresholds, Weights, file, remote, Candidate, Compared, WorkflowPorts, Request, ◌%>◌,
  local_candidate, candidate_of, with_report, after_comparison, compare_and_report, published,
  publish_pipeline,
}

-- The ports of the workflow fail only by exceptions.
pub record AreOrdinary {W C : Type 0} (ports : WorkflowPorts W C) : Type 0 where
  pub predicts : (splits : List String) (w : W) → IsOrdinary (ports.run_prediction splits w).1
  pub computes :
      (path : String) (splits : List String) (w : W)
      → IsOrdinary (ports.compute_metrics path splits w).1
  pub reads : (w : W) → IsOrdinary (ports.read_thresholds w).1
  pub writes :
      (thresholds : Thresholds) (w : W) → IsOrdinary (ports.write_thresholds thresholds w).1
  pub locates : (w : W) → IsOrdinary (ports.model_weights_path w).1
  pub inits : (w : W) → IsOrdinary (ports.init_comparison w).1
  pub compares : (candidate : Candidate) (w : W) → IsOrdinary (ports.run_comparison candidate w).1
  pub records :
      (task : Option String) (reason : String) (w : W)
      → IsOrdinary (ports.record_skipped task reason w).1
  pub completes : (task : Option String) (w : W) → IsOrdinary (ports.complete_comparison task w).1
  pub reports : (w : W) → IsOrdinary (ports.run_report w).1
  pub finds : (path : String) (w : W) → IsOrdinary (ports.is_file path w).1
  pub publishes :
      (path : Option String) (splits : Option (List String)) (evaluations : List (String × String))
      (w : W)
      → IsOrdinary (ports.publish_results path splits evaluations w).1

IsOrdinary-bind {ℓ κ} :
    {W : Type 0} {A : Type ℓ} {B : Type κ} (r : W × Call A) (f : A → Effect W B)
    → IsOrdinary r.1
    → ((a : A) (w : W) → IsOrdinary (f a w).1)
    → IsOrdinary (r %> f).1
IsOrdinary-bind (w, done a) f h k = k a w
IsOrdinary-bind (w, raised (exception _ _)) f h k = h
IsOrdinary-bind (w, raised (interruption _ _)) f h k = h

module _ {W C : Type 0} (ports : WorkflowPorts W C) (ordinary : AreOrdinary ports) where
  candidate-IsOrdinary :
      (thresholds : Thresholds) (task : Option String) (w : W)
      → IsOrdinary (candidate_of ports thresholds task w).1
  candidate-IsOrdinary thresholds (some task) w = tt
  candidate-IsOrdinary thresholds none w =
      IsOrdinary-bind (ports.model_weights_path w) _ (ordinary.locates w)
        (λ weights w. located weights)
    where
      located : (weights : Weights) → IsOrdinary (local_candidate ports thresholds weights)
      located (file path) = tt
      located (remote text) = tt

  with_report-IsOrdinary :
      (skips : Bool) (result : C) (w : W) → IsOrdinary (with_report ports skips result w).1
  with_report-IsOrdinary true result w = tt
  with_report-IsOrdinary false result w =
      IsOrdinary-bind (ports.run_report w) _ (ordinary.reports w) (λ _ _. tt)

  after_comparison-IsOrdinary :
      (task : Option String) (skips : Bool) (w : W) (c : Call (Option C))
      → IsOrdinary c
      → IsOrdinary (after_comparison ports task skips (w, c)).1
  after_comparison-IsOrdinary task skips w (done none) h = tt
  after_comparison-IsOrdinary task skips w (done (some result)) h =
      with_report-IsOrdinary skips result w
  after_comparison-IsOrdinary task skips w (raised (interruption _ _)) h = h
  after_comparison-IsOrdinary task skips w (raised (exception class text)) h =
      if_ind (λ (r : W × Call (Compared C)). IsOrdinary r.1) (str_eq class "NoBaselineModelError")
        (λ _.
          IsOrdinary-bind (ports.record_skipped task text w) _ (ordinary.records task text w)
            (λ _ w.
              IsOrdinary-bind (ports.complete_comparison task w) _ (ordinary.completes task w)
                (λ _ _. tt)))
        (λ _. tt)

  pub compare_and_report-IsOrdinary :
      (thresholds : Thresholds) (skips : Bool) (task : Option String) (w : W)
      → IsOrdinary (compare_and_report ports thresholds skips task w).1
  unfolding compare_and_report
  compare_and_report-IsOrdinary thresholds skips task w =
      IsOrdinary-bind (candidate_of ports thresholds task w) _
        (candidate-IsOrdinary thresholds task w)
        (λ candidate w. IsOrdinary-bind (ports.init_comparison w) _ (ordinary.inits w) (λ task w.
          after_comparison-IsOrdinary task skips (ports.run_comparison candidate w).0
            (ports.run_comparison candidate w).1 (ordinary.compares candidate w)))

  published-IsOrdinary :
      (path : String) (splits : Option (List String)) (evaluations : List (String × String))
      (found : Bool) (w : W)
      → IsOrdinary (published ports path splits evaluations found w).1
  published-IsOrdinary path splits evaluations true w =
      ordinary.publishes (some path) splits evaluations w
  published-IsOrdinary path splits evaluations false w =
      ordinary.publishes none splits evaluations w

  pub publish_pipeline-IsOrdinary :
      (request : Request) (path : String) (splits : List String)
      (evaluations : List (String × String)) (w : W)
      → IsOrdinary (publish_pipeline ports request path splits evaluations w).1
  unfolding publish_pipeline
  publish_pipeline-IsOrdinary request path splits evaluations w =
      if_ind (λ (r : W × Call (Unit {0})). IsOrdinary r.1) request.publisher_enabled
        (λ _.
          IsOrdinary-bind (ports.is_file path w) _ (ordinary.finds path w)
            (λ found w. published-IsOrdinary path _ evaluations found w))
        (λ _. tt)
