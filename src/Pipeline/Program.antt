-- ===== src/Pipeline/Program.antt =====
-- application/use_cases/pipeline.py: `run_pipeline`, from its checks and the training to the stages
-- after it.
use clearml_yolo.Base.{
  ℕ, ◌==◌, Bool, true, false, ◌&&◌, ◌||◌, not, Option, none, some, List, [], ◌∷◌, String, ◌<>◌,
  str_eq, Result, ok, err, Error, value_error, key_error, type_error, runtime_error, if◌then◌else◌,
}
use clearml_yolo.PipelineOutcome.{succeeded, PipelineOutcome}
use clearml_yolo.Pipeline.{
  Failure, exception, Call, done, raised, Effect, Stages, Action, ◌&>◌, lift, set_stage, StagePorts,
  persist, skip, run,
}
use clearml_yolo.Pipeline.Settings.{
  Settings, StageConfig, routed_native, pipeline_stage_settings, distinct, required_training_splits,
  result_producers,
}
use clearml_yolo.Pipeline.Workflow.{WorkflowPorts, Request, Results, disabled, ◌%>◌}
use clearml_yolo.Pipeline.Downstream.{run_downstream}

-- The ports of the tracking, the storage and the training that `run_pipeline` itself calls. `G` is
-- the resolved ground truth.
pub record ProgramPorts (W G : Type 0) : Type 0 where
  pub init_task : Effect W (Option String)
  pub resolve_ground_truth : Option String → Effect W G
  pub prepare_publisher : Option String → Effect W Bool
  pub resolve_run_dir : String → Option String → Effect W String
  pub task_run_dir : Option String → Effect W String
  pub cache_inside : String → Effect W Bool
  pub apply_dataset_policy : Settings → Effect W (Settings × Settings)
  pub prediction_settings : Settings → Effect W Settings
  pub make_directory : String → Effect W (Unit {0})
  pub point_latest_at : String → Effect W (Unit {0})
  pub declare_result_producers : Option String → List String → Effect W (Unit {0})
  pub run_training : Settings → G → List String → Effect W (String × G)
  pub is_file : String → Effect W Bool
  pub file_size : String → Effect W ℕ
  pub preserve_training_success : Option String → String → Effect W (Unit {0})
  pub training_finished : Effect W (Unit {0})
  pub record_overrides : Option String → Settings → Effect W (Unit {0})

-- The arguments of `run_pipeline`.
pub record Arguments : Type 0 where
  pub train_settings : Settings
  pub predict_settings : Settings
  pub metrics : StageConfig
  pub report : StageConfig
  pub compare_config : StageConfig
  pub splits : List String
  pub run_id : Option String
  pub run_dir : Option String
  pub weights : Option String
  pub skip_train : Bool
  pub skip_predict : Bool
  pub skip_metrics : Bool
  pub skip_report : Bool
  pub skip_compare : Bool

abbrev pub failure_of : Error → Failure
failure_of (value_error text) = exception "ValueError" text
failure_of (key_error text) = exception "KeyError" text
failure_of (type_error text) = exception "TypeError" text
failure_of (runtime_error text) = exception "RuntimeError" text

abbrev pub of_result {ℓ} : {A : Type ℓ} → Result A → Call A
of_result (ok a) = done a
of_result (err problem) = raised (failure_of problem)

abbrev pub raise_when : {W : Type 0} → Bool → String → Effect W (Unit {0})
raise_when test text w = if test then (w, raised (exception "ValueError" text)) else (w, done tt)

-- An empty text or list counts as none.
abbrev pub is_given : Option String → Bool
is_given none = false
is_given (some text) = not (str_eq text "")

abbrev pub or_default : List String → List String
or_default [] = "train" ∷ "val" ∷ "test" ∷ []
or_default (split ∷ splits) = split ∷ splits

abbrev pub text_or_empty : Option String → String
text_or_empty none = ""
text_or_empty (some text) = text

abbrev pub given_or_none : Option String → Option String
given_or_none none = none
given_or_none (some text) = if str_eq text "" then none else some text

-- What is settled before the stages begin.
pub record Prepared (G : Type 0) : Type 0 where
  pub task : Option String
  pub truth : G
  pub publishes : Bool
  pub directory : String
  pub splits : List String
  pub train_params : Settings
  pub overrides : Settings

abbrev pub is_path : Option String → Bool
is_path none = false
is_path (some _) = true

module _ {W G : Type 0} (ports : ProgramPorts W G) where
  abbrev pub run_directory : Arguments → Option String → Effect W String
  run_directory arguments task =
      if is_given arguments.run_dir || is_given arguments.run_id
      then ports.resolve_run_dir (text_or_empty arguments.run_id) (given_or_none arguments.run_dir)
      else ports.task_run_dir task

  -- The overrides of the prediction, with those that the data policy names.
  abbrev pub overrides_of : Arguments → Effect W (Settings × Settings)
  overrides_of arguments w =
      let applied = ports.apply_dataset_policy arguments.predict_settings w in
      if not arguments.skip_train then applied else (w, done (arguments.predict_settings, []))

  -- `run_pipeline` up to the declaration of the result producers.
  unfoldable pub prepare : Arguments → Effect W (Prepared G)
  prepare arguments w = ports.init_task w %> λ task w.
      ports.resolve_ground_truth task w %> λ truth w.
      ports.prepare_publisher task w %> λ publishes w.
      raise_when (is_path arguments.weights && not arguments.skip_train)
        "weights is only valid with skip_train=true; training chooses its model" w
      %> λ _ w. run_directory arguments task w %> λ directory w.
          ports.cache_inside directory w %> λ inside w.
          raise_when inside "dataset_cache_dir must be outside run_dir" w %> λ _ w.
          (
            w,
            of_result (
                pipeline_stage_settings arguments.metrics arguments.report
                  arguments.compare_config),
          )
          %> λ _ w.
              (
                w,
                of_result (routed_native arguments.train_settings (directory <> "/detect") "train"),
              )
              %> λ train_params w. overrides_of arguments w %> λ overrides w.
                  ports.prediction_settings overrides.0 w %> λ settings w.
                  (w, of_result (routed_native settings (directory <> "/native") "predict"))
                  %> λ _ w. ports.make_directory directory w %> λ _ w.
                      ports.point_latest_at directory w %> λ _ w.
                      ports.declare_result_producers task
                        (result_producers arguments.skip_predict arguments.skip_metrics
                          arguments.skip_compare)
                        w
                      %> λ _ w. (
                        w,
                        done (record {
                          task = task;
                          truth = truth;
                          publishes = publishes;
                          directory = directory;
                          splits = distinct (or_default arguments.splits);
                          train_params = train_params;
                          overrides = overrides.1;
                        }),
                      )

abbrev pub empty_results : {C : Type 0} → Results C
empty_results = record {
  weights = none;
  predictions = none;
  metrics = none;
  compared = none;
  reports = none;
  outcome = none;
}

-- `PipelineOutcome()`
abbrev pub new_outcome : PipelineOutcome
new_outcome = record { training_succeeded = false; fatal_error = false; stages = [] }

module _ {W G C : Type 0} (ports : ProgramPorts W G) (workflow : WorkflowPorts W C)
    (stage_ports : StagePorts W) where
  -- A file that is missing or empty is no checkpoint.
  abbrev pub checkpoint_fails : String → Effect W Bool
  checkpoint_fails checkpoint w = ports.is_file checkpoint w %> λ found w.
      let size = ports.file_size checkpoint w %> λ bytes w. (w, done (bytes == 0)) in
      if found then size else (w, done true)

  -- The training, and the check of what it gives.
  abbrev pub train : Arguments → Prepared G → Effect W String
  train arguments prepared w =
      ports.run_training prepared.train_params prepared.truth
        (required_training_splits prepared.splits arguments.skip_predict arguments.skip_metrics
          arguments.skip_compare)
        w
      %> λ trained w. checkpoint_fails trained.0 w %> λ fails w.
          raise_when fails "Training did not produce a usable checkpoint" w %> λ _ w.
          (w, done trained.0)

  abbrev pub mark_trained : String → Stages W → Stages W
  mark_trained checkpoint s =
      let s' = record s { outcome = record s.outcome { training_succeeded = true } } in
      set_stage "training"
        (record { status = succeeded; reason = none; artifacts = checkpoint ∷ [] }) s'

  -- What follows a training that succeeded.
  unfoldable pub after_training : Arguments → Prepared G → String → Action W (Results C)
  after_training arguments prepared checkpoint s =
      lift (ports.preserve_training_success prepared.task checkpoint) (mark_trained checkpoint s)
      &> λ _ s. persist stage_ports s &> λ _ s.
          run stage_ports "training_resources" ports.training_finished s &> λ _ s.
          run stage_ports "training_metadata"
            (ports.record_overrides prepared.task prepared.overrides) s
          &> λ _ s. (s, done (record empty_results { weights = some checkpoint }))

  abbrev pub training_stage : Arguments → Prepared G → Action W (Results C)
  unfolding after_training
  training_stage arguments prepared s =
      let trained = lift (train arguments prepared) s &> after_training arguments prepared in
      let off = skip stage_ports "training" disabled s &> λ _ s. (s, done empty_results) in
      if not arguments.skip_train then trained else off

  abbrev pub request_of : Arguments → Prepared G → Request
  request_of arguments prepared = record {
    directory = prepared.directory;
    splits = prepared.splits;
    skip_train = arguments.skip_train;
    skip_predict = arguments.skip_predict;
    skip_metrics = arguments.skip_metrics;
    skip_compare = arguments.skip_compare;
    skip_report = arguments.skip_report;
    publisher_enabled = prepared.publishes;
    task = prepared.task;
  }

  -- The stages of a pipeline that is prepared, from an empty outcome.
  unfoldable pub run_stages : Arguments → W × Call (Prepared G) → Stages W × Call (Results C)
  unfolding after_training
  run_stages arguments (w, raised problem) =
      (record { world = w; outcome = new_outcome }, raised problem)
  run_stages arguments (w, done prepared) =
      training_stage arguments prepared (record { world = w; outcome = new_outcome })
      &> run_downstream workflow stage_ports (request_of arguments prepared)

  -- `run_pipeline`
  unfoldable pub run_pipeline : Arguments → W → Stages W × Call (Results C)
  unfolding run_stages
  run_pipeline arguments w = run_stages arguments (prepare ports arguments w)
