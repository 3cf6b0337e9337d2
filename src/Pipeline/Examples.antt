-- ===== src/Pipeline/Examples.antt =====
-- A pipeline whose prediction fails after the training. The world counts the calls of the ports.
use clearml_yolo.Base.{ℕ, suc, ◌≡◌, refl, true, false, none, some, [], ◌∷◌, String}
use clearml_yolo.PipelineOutcome.{StageStatus, completed_with_warnings, status_of}
use clearml_yolo.Pipeline.{
  exception, Call, done, raised, Effect, Stages, StagePorts, persist, skip, run, after_operation,
  has_succeeded, resources_ready, finish, downstream_names,
}
use clearml_yolo.Pipeline.Survival.{Ensures, IsQuiet}
use clearml_yolo.Pipeline.Ordinary.{AreOrdinary}
use clearml_yolo.Pipeline.Settings.{
  fields, routed_native, pipeline_stage_settings, stage_values, as_dict, required_training_splits,
  result_producers,
}
use clearml_yolo.Pipeline.Workflow.{
  file, WorkflowPorts, Results, Evaluated, Reported, pipeline_metrics, pipeline_report,
  compare_and_report, publish_pipeline,
}
use clearml_yolo.Pipeline.Downstream.{downstream, run_downstream}
use clearml_yolo.Pipeline.Program.{
  empty_results, new_outcome, request_of, ProgramPorts, Arguments, Prepared, prepare, train,
  after_training, run_stages, run_pipeline,
}
use clearml_yolo.Pipeline.Frame.{IfDone}
use clearml_yolo.Pipeline.Flow.{IsFed}
use clearml_yolo.Pipeline.Fed.{downstream-IsFed}
use clearml_yolo.Pipeline.Trained.{Retains, IsSafe, run_pipeline-KeepsOrRaises}

abbrev succeed : {A : Type 0} → A → Effect ℕ A
succeed a calls = (suc calls, done a)

abbrev stage_ports : StagePorts ℕ
stage_ports = record {
  redact_text = λ text. text;
  record_pipeline_outcome = λ _. succeed tt;
  write_json = λ _ calls. (suc calls, raised (exception "OSError" "full"));
  write_text = λ _. succeed tt;
  log_exception = λ _ _. succeed tt;
  log = λ _ _. succeed tt;
}

abbrev evaluated : Evaluated
evaluated = record { evaluations = []; best_confidences = ("model", []) ∷ [] }

abbrev reported : Reported
reported = record { dev_reports = []; business_reports = []; issues = [] }

abbrev workflow : WorkflowPorts ℕ String
workflow = record {
  run_prediction = λ _ calls. (suc calls, raised (exception "RuntimeError" "no memory"));
  compute_metrics = λ _ _. succeed evaluated;
  read_thresholds = succeed (some []);
  write_thresholds = λ _. succeed tt;
  model_weights_path = succeed (file "best.pt");
  init_comparison = succeed none;
  run_comparison = λ _. succeed (some "better");
  record_skipped = λ _ _. succeed tt;
  complete_comparison = λ _. succeed tt;
  run_report = succeed reported;
  is_file = λ _. succeed true;
  publish_results = λ _ _ _. succeed tt;
}

abbrev program : ProgramPorts ℕ String
program = record {
  init_task = succeed (some "task");
  resolve_ground_truth = λ _. succeed "truth.csv";
  prepare_publisher = λ _. succeed false;
  resolve_run_dir = λ _ _. succeed "runs/one";
  task_run_dir = λ _. succeed "runs/task";
  cache_inside = λ _. succeed false;
  apply_dataset_policy = λ settings. succeed (settings, []);
  prediction_settings = λ settings. succeed settings;
  make_directory = λ _. succeed tt;
  point_latest_at = λ _. succeed tt;
  declare_result_producers = λ _ _. succeed tt;
  run_training = λ _ truth _. succeed ("best.pt", truth);
  is_file = λ _. succeed true;
  file_size = λ _. succeed 7;
  preserve_training_success = λ _ _. succeed tt;
  training_finished = succeed tt;
  record_overrides = λ _ _. succeed tt;
}

abbrev arguments : Arguments
arguments = record {
  train_settings = [];
  predict_settings = [];
  metrics = fields [];
  report = fields [];
  compare_config = fields [];
  splits = [];
  run_id = none;
  run_dir = none;
  weights = none;
  skip_train = false;
  skip_predict = false;
  skip_metrics = false;
  skip_report = false;
  skip_compare = false;
}

abbrev prepared : Prepared String
prepared = record {
  task = some "task";
  truth = "truth.csv";
  publishes = false;
  directory = "runs/task";
  splits = "train" ∷ "val" ∷ "test" ∷ [];
  train_params = ("project", some "runs/task/detect") ∷ ("name", some "train") ∷ [];
  overrides = [];
}

is_prepared : prepare program arguments 0 ≡ (10, done prepared)
unfolding prepare pipeline_stage_settings stage_values as_dict routed_native result_producers
is_prepared = refl

is_trained : train program workflow stage_ports arguments prepared 10 ≡ (13, done "best.pt")
unfolding required_training_splits
is_trained = refl

quiet : IsQuiet stage_ports
quiet = record {
  records = λ _ _. tt;
  writes_json = λ _ _. tt;
  writes_text = λ _ _. tt;
  logs_exception = λ _ _ _. tt;
  logs = λ _ _ _. tt;
}

ordinary : AreOrdinary workflow
ordinary = record {
  predicts = λ _ _. tt;
  computes = λ _ _ _. tt;
  reads = λ _. tt;
  writes = λ _ _. tt;
  locates = λ _. tt;
  inits = λ _. tt;
  compares = λ _ _. tt;
  records = λ _ _ _. tt;
  completes = λ _ _. tt;
  reports = λ _. tt;
  finds = λ _ _. tt;
  publishes = λ _ _ _ _. tt;
}

safe : IsSafe program workflow stage_ports
safe = record { releases = λ _. tt; notes = λ _ _ _. tt; ordinary = ordinary; quiet = quiet }

run_pipeline-KeepsOrRaises_example :
    Ensures
      (Retains "best.pt" (downstream_names stage_ports))
      (run_pipeline program workflow stage_ports arguments 0)
run_pipeline-KeepsOrRaises_example =
    run_pipeline-KeepsOrRaises program workflow stage_ports safe "best.pt" arguments 0 10 13 14
      prepared (done tt) refl is_prepared is_trained refl

abbrev status_of_run : Stages ℕ × Call (Results String) → StageStatus
status_of_run (s, _) = status_of s.outcome

-- The failures are not hidden.
warned :
    status_of_run (run_pipeline program workflow stage_ports arguments 0) ≡ completed_with_warnings
unfolding run_pipeline run_stages prepare pipeline_stage_settings stage_values as_dict routed_native
    result_producers required_training_splits after_training persist run after_operation skip
    has_succeeded resources_ready finish downstream run_downstream pipeline_metrics pipeline_report
    compare_and_report publish_pipeline status_of
warned = refl

abbrev trained_state : Stages ℕ
trained_state = record { world = 13; outcome = record new_outcome { training_succeeded = true } }

downstream-IsFed_example :
    IfDone
      (λ _ s. IsFed (request_of program workflow stage_ports arguments prepared) s.outcome.stages)
      (downstream workflow stage_ports
        (request_of program workflow stage_ports arguments prepared)
        empty_results
        trained_state)
downstream-IsFed_example =
    downstream-IsFed workflow stage_ports
      (request_of program workflow stage_ports arguments prepared) empty_results trained_state
