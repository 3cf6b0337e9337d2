-- ===== src/BatchEstimation/Model.antt =====
-- The records of core/batch_estimation.py. Numbers are the natural numbers, and what a validator
-- requires of them is a predicate or a checking function beside the record.
use clearml_yolo.Base.{
  ℕ, Bool, true, false, ◌||◌, Option, none, some, List, [], ◌∷◌, String, ltb, str_eq, Result, ok,
  value_error, raise_if, ◌>>◌, any, length,
}

-- A double by its bit pattern. What the code computes with a double is a parameter of its users.
abbrev pub Float : Type 0
Float = ℕ

pub data TrialStatus : Type 0 where
  success oom memory_limit timeout crash nonfinite missing_asset contaminated : TrialStatus
  cancelled error : TrialStatus

-- The text of a status.
abbrev pub trial_status_text : TrialStatus → String
trial_status_text success = "success"
trial_status_text oom = "oom"
trial_status_text memory_limit = "memory_limit"
trial_status_text timeout = "timeout"
trial_status_text crash = "crash"
trial_status_text nonfinite = "nonfinite"
trial_status_text missing_asset = "missing_asset"
trial_status_text contaminated = "contaminated"
trial_status_text cancelled = "cancelled"
trial_status_text error = "error"

pub data SearchStatus : Type 0 where
  searching no_capacity failed validated ceiling_limited numerically_limited : SearchStatus

abbrev pub search_status_text : SearchStatus → String
search_status_text searching = "searching"
search_status_text no_capacity = "no_capacity"
search_status_text failed = "failed"
search_status_text validated = "validated"
search_status_text ceiling_limited = "ceiling_limited"
search_status_text numerically_limited = "numerically_limited"

abbrev pub search_status_eq : SearchStatus → SearchStatus → Bool
search_status_eq searching searching = true
search_status_eq no_capacity no_capacity = true
search_status_eq failed failed = true
search_status_eq validated validated = true
search_status_eq ceiling_limited ceiling_limited = true
search_status_eq numerically_limited numerically_limited = true
search_status_eq _ _ = false

-- The statuses of `UsableStatus`.
abbrev pub is_usable : SearchStatus → Bool
is_usable validated = true
is_usable ceiling_limited = true
is_usable numerically_limited = true
is_usable _ = false

pub data SearchStrategy : Type 0 where
  exponential_binary_v1 memory_guided_v1 memory_guided_aligned_v1 : SearchStrategy

abbrev pub is_exponential : SearchStrategy → Bool
is_exponential exponential_binary_v1 = true
is_exponential _ = false

pub data BackendName : Type 0 where
  ultralytics deimv2 rfdetr fasterrcnn fcos : BackendName

abbrev pub backend_text : BackendName → String
backend_text ultralytics = "ultralytics"
backend_text deimv2 = "deimv2"
backend_text rfdetr = "rfdetr"
backend_text fasterrcnn = "fasterrcnn"
backend_text fcos = "fcos"

abbrev pub backend_eq : BackendName → BackendName → Bool
backend_eq ultralytics ultralytics = true
backend_eq deimv2 deimv2 = true
backend_eq rfdetr rfdetr = true
backend_eq fasterrcnn fasterrcnn = true
backend_eq fcos fcos = true
backend_eq _ _ = false

pub record ModelVariant : Type 0 where
  pub selection : String
  pub backend : BackendName
  pub preset : String
  pub architecture : String

pub record GpuHardware : Type 0 where
  pub name : String
  pub total_memory_bytes : ℕ
  pub uuid : Option String

pub record SyntheticWorkload : Type 0 where
  pub classes : ℕ
  pub objects_per_image : ℕ

-- `StrictBool | NonemptyString`
pub data Compilation : Type 0 where
  flag : Bool → Compilation
  mode : String → Compilation

pub record Shape : Type 0 where
  pub height : ℕ
  pub width : ℕ

pub record TrainingProfile : Type 0 where
  pub model : ModelVariant
  pub nominal_size : Shape
  pub effective_size : Shape
  pub gpus : List GpuHardware
  pub dependencies : List (String × String)
  pub precision : String
  pub compilation : Compilation
  pub optimizers : List String
  pub accumulation : String
  pub ema : Bool
  pub augmentation : String
  pub implementation_revision : String

-- `world_size`
abbrev pub world_size : TrainingProfile → ℕ
world_size profile = length profile.gpus

pub record SearchSettings : Type 0 where
  pub force : Bool
  pub search_strategy : SearchStrategy
  pub memory_fraction : Float
  pub max_global_batch : ℕ
  pub warmup_steps : ℕ
  pub measured_steps : ℕ
  pub trial_timeout_seconds : Float

pub record TrialResult : Type 0 where
  pub global_batch : ℕ
  pub status : TrialStatus
  pub trial_id : String
  pub actual_global_batch : Option ℕ
  pub peak_memory_bytes : List ℕ
  pub warmup_steps : ℕ
  pub measured_steps : ℕ
  pub validation_steps : ℕ
  pub optimizer_paths : List String
  pub diagnostic : String
  pub duration_seconds : Float

-- `len(set(values)) != len(values)`: some value stands twice.
unfoldable pub has_duplicate : List String → Bool
has_duplicate [] = false
has_duplicate (x ∷ xs) = any (str_eq x) xs || has_duplicate xs

uuids : List GpuHardware → List String
uuids [] = []
uuids (gpu ∷ gpus) = elim gpu.uuid [ none ↦ uuids gpus | some u ↦ u ∷ uuids gpus ]

-- `TrainingProfile.unique_configuration`
unfoldable pub unique_configuration : TrainingProfile → Result TrainingProfile
unfolding has_duplicate uuids
unique_configuration profile = do
  raise_if (has_duplicate profile.optimizers) (value_error "Optimizer paths must be unique")
  raise_if (has_duplicate (uuids profile.gpus)) (value_error "GPU identities must be unique")
  raise_if
      (ltb profile.effective_size.height profile.nominal_size.height
        || ltb profile.effective_size.width profile.nominal_size.width)
      (value_error "Effective shape must cover nominal shape")
  ok profile
