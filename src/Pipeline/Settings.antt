-- ===== src/Pipeline/Settings.antt =====
-- application/use_cases/pipeline.py: the settings of the stages, and what the stages require.
use clearml_yolo.Base.{
  Bool, false, ◌||◌, not, Option, none, some, List, [], ◌∷◌, ◌++◌, String, ◌<>◌, str_eq, any, keep,
  Result, ok, err, value_error, type_error, raise_if, ◌>>=◌, ◌>>◌, if◌then◌else◌,
}

-- A mapping of settings, each with the text of its value, or `None`.
abbrev pub Settings : Type 0
Settings = List (String × Option String)

abbrev pub has_key : String → Settings → Bool
has_key key = any (λ (setting : String × Option String). str_eq setting.0 key)

-- `dict | {key: value}`: an entry keeps its place.
abbrev pub put_setting : String → Option String → Settings → Settings
put_setting key value [] = (key, value) ∷ []
put_setting key value ((other, old) ∷ settings) =
    let rest = put_setting key value settings in
    if str_eq other key then (other, value) ∷ settings else (other, old) ∷ rest

abbrev pub look_up : String → Settings → Option (Option String)
look_up key [] = none
look_up key ((other, value) ∷ settings) =
    let rest = look_up key settings in if str_eq other key then some value else rest

-- A setting that is given, is not `None`, and is another text.
abbrev pub conflicts : String → Option (Option String) → Bool
conflicts expected none = false
conflicts expected (some none) = false
conflicts expected (some (some value)) = not (str_eq value expected)

-- `routed_native`
unfoldable pub routed_native : Settings → String → String → Result Settings
routed_native settings project name =
    raise_if (conflicts project (look_up "project" settings))
      (value_error "project conflicts with pipeline run_dir")
    >> raise_if (conflicts name (look_up "name" settings))
        (value_error "name conflicts with pipeline run_dir")
    >> raise_if (has_key "save_dir" settings)
        (value_error "save_dir conflicts with pipeline run_dir; use run_dir to route outputs")
    >> ok (put_setting "name" (some name) (put_setting "project" (some project) settings))

-- A stage's configuration as it is passed: fields or a mapping, or another object.
pub data StageConfig : Type 0 where
  fields : Settings → StageConfig
  other_object : StageConfig

-- `_as_dict`
unfoldable pub as_dict : StageConfig → Result Settings
as_dict (fields settings) =
    ok (keep (λ (setting : String × Option String). not (str_eq setting.0 "defaults")) settings)
as_dict other_object =
    err (type_error "Pipeline stages must be normalized mappings or dataclass requests")

abbrev pub is_unknown : List String → String × Option String → Bool
is_unknown allowed setting = not (any (str_eq setting.0) allowed)

-- `_stage_values`
unfoldable pub stage_values : StageConfig → List String → String → Result Settings
unfolding as_dict
stage_values config allowed stage = do
  values ← as_dict config
  raise_if (any (is_unknown allowed) values)
      (value_error ("Pipeline " <> stage <> " keys are unsupported; outputs use run_dir"))
  ok values

-- `pipeline_stage_settings`
unfoldable pub pipeline_stage_settings :
    StageConfig → StageConfig → StageConfig → Result (Settings × Settings × Settings)
unfolding stage_values
pipeline_stage_settings metrics report compare_config = do
  metrics_values ← stage_values metrics ("evaluation" ∷ "calibration_split" ∷ []) "metrics"
  report_values ← stage_values report ("report_config_path" ∷ []) "report"
  compare_values ←
      stage_values compare_config ("baseline_model" ∷ "q" ∷ "bootstrap_iterations" ∷ "seed" ∷ [])
        "compare"
  ok (metrics_values, report_values, compare_values)

-- `list(dict.fromkeys(texts))`, with the texts that were met.
abbrev pub distinct_onto : List String → List String → List String
distinct_onto met [] = met
distinct_onto met (text ∷ texts) =
    distinct_onto (if any (str_eq text) met then met else met ++ text ∷ []) texts

abbrev pub distinct : List String → List String
distinct = distinct_onto []

-- `_required_training_splits`
unfoldable pub required_training_splits : List String → Bool → Bool → Bool → List String
required_training_splits splits skip_predict skip_metrics skip_compare = distinct (
    ("train" ∷ "val" ∷ [])
    ++ (if not skip_predict || not skip_metrics then splits else [])
    ++ (if not skip_compare then "test" ∷ [] else []))

-- `_result_producers`
unfoldable pub result_producers : Bool → Bool → Bool → List String
result_producers skip_predict skip_metrics skip_compare =
    (if skip_predict then [] else "predict" ∷ [])
    ++ (if skip_metrics then [] else "metrics" ∷ [])
    ++ (if skip_compare then [] else "compare" ∷ [])
