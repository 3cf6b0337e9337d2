-- ===== src/BatchEstimation/Reuse.antt =====
-- Reuse of saved evidence in core/batch_estimation.py: `TrainingProfile.compatibility_data`,
-- `estimate_key`, `compatibility_issues`, `select_estimate` and `estimate_diagnostic`.
pub mod Compatibility
pub mod Selection
use clearml_yolo.Base.{
  ℕ, ◌%◌, Bool, true, false, ◌&&◌, ◌||◌, not, Option, none, some, List, [], ◌∷◌, ◌++◌, String, ltb,
  ◌==◌, str_eq, texts_eq, ◌<>◌, all, keep, length, Result, ok, err, value_error, if◌then◌else◌,
}
use clearml_yolo.BatchEstimation.Model.{
  Float, ModelVariant, BackendName, backend_eq, GpuHardware, SyntheticWorkload, Compilation, flag,
  mode, Shape, TrainingProfile, SearchSettings, SearchStrategy, is_exponential, TrialStatus,
  success, trial_status_text, TrialResult, search_status_text,
}
use clearml_yolo.BatchEstimation.Case.{EstimateCase, usable}

-- What reuse compares of a profile: its fields, and its GPUs without their identities.
pub record CompatibilityData : Type 0 where
  pub model : ModelVariant
  pub nominal_size : Shape
  pub effective_size : Shape
  pub dependencies : List (String × String)
  pub precision : String
  pub compilation : Compilation
  pub optimizers : List String
  pub accumulation : String
  pub ema : Bool
  pub augmentation : String
  pub implementation_revision : String
  pub gpus : List (String × ℕ)

abbrev pub hardware : GpuHardware → String × ℕ
hardware gpu = (gpu.name, gpu.total_memory_bytes)

abbrev pub hardware_of : List GpuHardware → List (String × ℕ)
hardware_of [] = []
hardware_of (gpu ∷ gpus) = hardware gpu ∷ hardware_of gpus

-- `compatibility_data`
unfoldable pub compatibility_data : TrainingProfile → CompatibilityData
compatibility_data profile = record {
  model = profile.model;
  nominal_size = profile.nominal_size;
  effective_size = profile.effective_size;
  dependencies = profile.dependencies;
  precision = profile.precision;
  compilation = profile.compilation;
  optimizers = profile.optimizers;
  accumulation = profile.accumulation;
  ema = profile.ema;
  augmentation = profile.augmentation;
  implementation_revision = profile.implementation_revision;
  gpus = hardware_of profile.gpus;
}

unfoldable pub model_eq : ModelVariant → ModelVariant → Bool
model_eq a b =
    str_eq a.selection b.selection
    && backend_eq a.backend b.backend
    && str_eq a.preset b.preset
    && str_eq a.architecture b.architecture

abbrev pub shape_eq : Shape → Shape → Bool
shape_eq a b = (a.height == b.height) && (a.width == b.width)

abbrev pub bool_eq : Bool → Bool → Bool
bool_eq true b = b
bool_eq false b = not b

abbrev pub compilation_eq : Compilation → Compilation → Bool
compilation_eq (flag a) (flag b) = bool_eq a b
compilation_eq (mode a) (mode b) = str_eq a b
compilation_eq _ _ = false

unfoldable pub hardware_eq : List (String × ℕ) → List (String × ℕ) → Bool
hardware_eq [] [] = true
hardware_eq ((name, memory) ∷ gpus) ((name', memory') ∷ gpus') =
    str_eq name name' && (memory == memory') && hardware_eq gpus gpus'
hardware_eq _ _ = false

-- Whether a mapping has a key with this value.
unfoldable pub has_item : List (String × String) → String × String → Bool
has_item [] item = false
has_item ((name, value) ∷ items) item =
    str_eq name item.0 && str_eq value item.1 || has_item items item

-- Equality of mappings, whose keys are unique, whatever their order.
unfoldable pub mapping_eq : List (String × String) → List (String × String) → Bool
unfolding has_item
mapping_eq a b = (length a == length b) && all (has_item b) a

-- The keys of the saved data, each with whether the requested data has the same value.
unfoldable pub key_tests : CompatibilityData → CompatibilityData → List (String × Bool)
unfolding mapping_eq model_eq hardware_eq
key_tests saved requested =
    ("model", model_eq saved.model requested.model)
    ∷ ("nominal_size", shape_eq saved.nominal_size requested.nominal_size)
    ∷ ("effective_size", shape_eq saved.effective_size requested.effective_size)
    ∷ ("dependencies", mapping_eq saved.dependencies requested.dependencies)
    ∷ ("precision", str_eq saved.precision requested.precision)
    ∷ ("compilation", compilation_eq saved.compilation requested.compilation)
    ∷ ("optimizers", texts_eq saved.optimizers requested.optimizers)
    ∷ ("accumulation", str_eq saved.accumulation requested.accumulation)
    ∷ ("ema", bool_eq saved.ema requested.ema)
    ∷ ("augmentation", str_eq saved.augmentation requested.augmentation)
    ∷ (
      "implementation_revision",
      str_eq saved.implementation_revision requested.implementation_revision,
    )
    ∷ ("gpus", hardware_eq saved.gpus requested.gpus)
    ∷ []

unfoldable pub profile_issues : List (String × Bool) → List String
profile_issues [] = []
profile_issues ((key, same) ∷ tests) =
    let rest = profile_issues tests in
    if same then rest else ("profile " <> key <> " differs") ∷ rest

-- `if b: issues.append(issue)`
abbrev pub issue_if : Bool → String → List String
issue_if true issue = issue ∷ []
issue_if false issue = []

abbrev pub misaligned : Option ℕ → Bool
misaligned none = false
misaligned (some batch) = not (batch % 8 == 0)

-- `compatibility_issues`
unfoldable pub compatibility_issues :
    EstimateCase → TrainingProfile → SyntheticWorkload → List String
unfolding compatibility_data key_tests profile_issues
compatibility_issues case profile workload =
    issue_if (not (usable case)) ("estimate status is " <> search_status_text case.status)
    ++ issue_if (misaligned case.per_gpu_batch)
        "automatic per-GPU batch must be divisible by 8; rerun cy-batch-estimate"
    ++ profile_issues (key_tests (compatibility_data case.profile) (compatibility_data profile))
    ++ issue_if (ltb case.workload.classes workload.classes)
        "dataset class count exceeds synthetic bounds"
    ++ issue_if (ltb case.workload.objects_per_image workload.objects_per_image)
        "dataset object density exceeds synthetic bounds"

abbrev pub is_empty {ℓ} : {A : Type ℓ} → List A → Bool
is_empty [] = true
is_empty (_ ∷ _) = false

-- No issue stands against the reuse of a case.
unfoldable pub is_compatible : TrainingProfile → SyntheticWorkload → EstimateCase → Bool
unfolding compatibility_issues
is_compatible profile workload case = is_empty (compatibility_issues case profile workload)

-- `case.global_batch or 0`
abbrev pub batch_or_zero : EstimateCase → ℕ
batch_or_zero case = elim case.global_batch [ none ↦ 0 | some batch ↦ batch ]

-- `min(cases, key=...)`: the first of the least.
unfoldable pub least : EstimateCase → List EstimateCase → EstimateCase
least best [] = best
least best (case ∷ cases) =
    let lower = least case cases in
    let kept = least best cases in
    if ltb (batch_or_zero case) (batch_or_zero best) then lower else kept

abbrev pub least_of : List EstimateCase → Result EstimateCase
least_of [] = err (
    value_error
      "No compatible validated batch estimate. Run cy-batch-estimate for this model, resolution, GPU allocation and dataset bounds, or set an explicit training batch.")
least_of (case ∷ cases) = ok (least case cases)

-- `select_estimate`
unfoldable pub select_estimate :
    List EstimateCase → TrainingProfile → SyntheticWorkload → Result EstimateCase
unfolding is_compatible least
select_estimate cases profile workload = least_of (keep (is_compatible profile workload) cases)

-- What `settings.model_dump` gives `estimate_key`: an ordinary `force` and the first strategy are
-- left out.
pub record SettingsData : Type 0 where
  pub force : Option Bool
  pub search_strategy : Option SearchStrategy
  pub memory_fraction : Float
  pub max_global_batch : ℕ
  pub warmup_steps : ℕ
  pub measured_steps : ℕ
  pub trial_timeout_seconds : Float

pub record Payload : Type 0 where
  pub profile : CompatibilityData
  pub workload : SyntheticWorkload
  pub settings : SettingsData

-- `_omit_ordinary_force`, and the strategy that `estimate_key` removes.
unfoldable pub settings_data : SearchSettings → SettingsData
settings_data settings = record {
  force = if settings.force then some true else none;
  search_strategy =
      if is_exponential settings.search_strategy then none else some settings.search_strategy;
  memory_fraction = settings.memory_fraction;
  max_global_batch = settings.max_global_batch;
  warmup_steps = settings.warmup_steps;
  measured_steps = settings.measured_steps;
  trial_timeout_seconds = settings.trial_timeout_seconds;
}

-- What `estimate_key` encodes and hashes.
unfoldable pub payload : TrainingProfile → SyntheticWorkload → SearchSettings → Payload
unfolding compatibility_data settings_data
payload profile workload settings = record {
  profile = compatibility_data profile;
  workload = workload;
  settings = settings_data settings;
}

-- `estimate_key`, with the digest of the JSON text as `digest`.
unfoldable pub estimate_key :
    (Payload → String) → TrainingProfile → SyntheticWorkload → SearchSettings → String
unfolding payload
estimate_key digest profile workload settings = digest (payload profile workload settings)
