-- ===== src/Lib.antt =====
-- A verification library of clearml-yolo: models of the program's own logic, and theorems about them.
--
-- BatchEstimation models clearml_yolo/core/batch_estimation.py (under src/ of the repository), the
-- search for the largest training batch that fits the memory of the GPUs.
--   BatchEstimation.Model holds the records (`TrainingProfile`, `SearchSettings`, `TrialResult`).
--   BatchEstimation.Search holds `BatchSearch` with `start`, `observe`, `_confirmed`, `_finish` and
--   `_advance`, Search.Growth holds `_growth_candidate`, and Search.Trials `_trial_observation`.
--   BatchEstimation.Case holds the saved evidence, `EstimateCase` and `EstimateCatalogue`, whose
--   validation runs the search again over the saved trials.
--   BatchEstimation.Reuse holds `compatibility_issues`, `select_estimate` and `estimate_key`,
--   BatchEstimation.Recommend `ResolvedRecommendation` and `select_recommendation`,
--   BatchEstimation.Catalogue `select_models` with `PRESETS` of clearml_yolo/core/models.py, and
--   BatchEstimation.Diagnostics `error_diagnostic`.
--   BatchEstimation.Measurement models clearml_yolo/application/use_cases/batch_estimate.py, with the
--   probe and the store of application/batch_ports.py as parameters; its world is a type parameter.
--   BatchEstimation.Storage models `save` of clearml_yolo/adapters/storage/batch_estimates.py, and
--   BatchEstimation.Lookup clearml_yolo/adapters/integrations/batch_lookup.py.
-- WorkerPool models `IndependentWorkerPool` of clearml_yolo/adapters/runtime/worker_pool.py: the state
--   is the table of workers, and what the processes and queues answer is an input of each method.
-- WeightBundles models clearml_yolo/core/weight_bundles.py: `safe_member`, the records with their
--   validators, and `BundleManifest.references`.
-- Comparison models clearml_yolo/core/comparison/assemble.py, with `validate_q` of significance.py
--   beside it and `ClassCounts` and `SplitOutcome` of clearml_yolo/core/evaluation/models.py.
-- ResultRows models `_geometry_reason`, `_relationship_lists` and `_row_status` of
--   clearml_yolo/core/evaluation/result_rows.py, with `MatchResult` of models.py.
-- Redaction models the scans of a value and `_redact_assignments` of clearml_yolo/core/redaction.py,
--   on the code points of a text, with the search of the pattern as a parameter. Its loops recurse on
--   fuel, the length of the text and one more, since every round passes a character.
-- PipelineOutcome models clearml_yolo/core/pipeline_outcome.py.
-- Pipeline models clearml_yolo/application/use_cases/pipeline.py: `_PipelineStages` on the outcomes of
--   PipelineOutcome, `run_pipeline`, and the stages after the training. The other use cases are
--   fields of the ports, whose functions change a world of any type and may raise. Pipeline.Settings
--   holds the settings, Pipeline.Workflow the stages' operations, Pipeline.Downstream `_run_downstream` with
--   `_pipeline_metrics` and `_pipeline_report`, and Pipeline.Program `run_pipeline`. The texts of
--   exceptions are parameters or shortened where they quote values.
-- ProcessTree models `LinuxProcessTree` of clearml_yolo/adapters/runtime/process_tree.py: its scans and
--   owners, ProcessTree.Lifecycle `_owned` and `running`, and ProcessTree.Termination `signal`,
--   `terminate` and `reap_children`. What the files under /proc, the pidfds and the clock in
--   milliseconds answer is a parameter that changes a world of any type. The loop that extends the
--   owners has a round more of fuel than the table has processes, since each round but the last adds
--   one. The loop of `terminate` has 10001 rounds of fuel, since each sleeps, and its deadline is 10
--   seconds after its start. That a signal is denied to an owned process is left out.
-- ArtifactNames models `per_split` and `split_component` of clearml_yolo/core/artifact_names.py, with
--   Python's `quote` on the code points of a text.
-- But for the pipeline, these parts do not call each other. Base holds the lists, texts, integers
-- and errors they share.
-- The proofs stand in the modules below these, and each part has a module of examples.
--
-- Numbers are natural numbers, and a difference that may be negative is an integer. A float is kept
-- as its bit pattern; what the code computes with it, `int(total * fraction)`, is the parameter
-- `int_mul`, about which nothing is assumed. A function that may raise returns a `Result`. A loop
-- over a collection is a recursion on the list. The loop of `_measure` is a recursion on fuel, which
-- is four more than the ceiling of the search: a search makes at most three more trials than that.
-- The constraints on single fields of the records, such as that a time stamp is not empty, are checked
-- by pydantic and not in the model. The digest of `estimate_key` is the parameter `digest`, about which nothing is assumed.
--
-- The tests of numpy and scipy, and the comparisons and the arithmetic of floats, are parameters of
-- Comparison and ResultRows. A data frame is a list of its rows.
--
-- Not modelled: the adapters of ClearML, FiftyOne and the detector libraries, whose code is mostly
-- calls of those; locks, files and the texts of JSON, which are the system's and the libraries'; the
-- scoped and the native process tree; the rest of the redaction, the dataset and export code, and the
-- other use cases.
pub mod ArtifactNames
pub mod Base
pub mod BatchEstimation
pub mod Comparison
pub mod Pipeline
pub mod PipelineOutcome
pub mod ProcessTree
pub mod Redaction
pub mod ResultRows
pub mod WeightBundles
pub mod WorkerPool
