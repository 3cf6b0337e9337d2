-- ===== src/BatchEstimation/Samples.antt =====
-- A profile of one GPU whose batches of up to 36 images fit, and runs of the search on it.
use clearml_yolo.Base.{ℕ, ◌*◌, ◌/◌, ◌≡◌, refl, true, false, none, some, List, [], ◌∷◌, String, ok}
use clearml_yolo.BatchEstimation.Model.{
  Float, TrialStatus, success, TrialResult, TrainingProfile, SearchSettings, GpuHardware,
  memory_guided_aligned_v1, deimv2, flag, validated,
}
use clearml_yolo.BatchEstimation.Case.{EstimateCase, verified_evidence}
use clearml_yolo.BatchEstimation.Search.{
  BatchSearch, initial, start, observe, replay, advance, discover, confirmed,
}
use clearml_yolo.BatchEstimation.Search.Growth.{ceiling_of, growth_candidate}
use clearml_yolo.BatchEstimation.Search.Trials.{trial_observation}

-- A fraction in hundredths.
abbrev pub percent : ℕ → Float → ℕ
percent total fraction = total * fraction / 100

abbrev pub gpu : GpuHardware
gpu = record { name = "A"; total_memory_bytes = 1000; uuid = some "gpu-0" }

abbrev pub profile : TrainingProfile
profile = record {
  model = record {
    selection = "deimv2/s";
    backend = deimv2;
    preset = "s";
    architecture = "deimv2/s";
  };
  nominal_size = record { height = 640; width = 640 };
  effective_size = record { height = 640; width = 640 };
  gpus = gpu ∷ [];
  dependencies = ("torch", "2") ∷ [];
  precision = "fp16";
  compilation = flag false;
  optimizers = "adam" ∷ [];
  accumulation = "fixed:1";
  ema = true;
  augmentation = "native";
  implementation_revision = "r1";
}

abbrev pub settings : SearchSettings
settings = record {
  force = false;
  search_strategy = memory_guided_aligned_v1;
  memory_fraction = 90;
  max_global_batch = 64;
  warmup_steps = 5;
  measured_steps = 10;
  trial_timeout_seconds = 300;
}

-- A complete trial whose peak is 25 bytes for each image.
abbrev pub trial : ℕ → String → TrialStatus → TrialResult
trial batch name status = record {
  global_batch = batch;
  status = status;
  trial_id = name;
  actual_global_batch = some batch;
  peak_memory_bytes = (batch * 25) ∷ [];
  warmup_steps = 5;
  measured_steps = 10;
  validation_steps = 1;
  optimizer_paths = "adam" ∷ [];
  diagnostic = "";
  duration_seconds = 0;
}

abbrev pub history : List TrialResult
history =
    trial 8 "a" success
    ∷ trial 16 "b" success
    ∷ trial 32 "c" success
    ∷ trial 40 "d" success
    ∷ trial 32 "e" success
    ∷ []

-- The search after `history`: 32 images fit, and 40 exceed the budget of 900 bytes.
abbrev pub done : BatchSearch
done = record {
  profile = profile;
  settings = settings;
  lower = 32;
  upper = some 40;
  next_batch = none;
  confirming = true;
  status = validated;
  global_batch = some 32;
  per_gpu_batch = some 32;
  trials = history;
  diagnostic = "";
  numerical_failure = "";
}

pub start-initial : start profile settings ≡ ok (initial profile settings)
unfolding start
start-initial = refl

pub replay-history : replay percent (initial profile settings) history ≡ ok done
unfolding replay observe ceiling_of trial_observation advance discover growth_candidate confirmed
replay-history = refl

-- The validated search of the samples, as it is saved.
abbrev pub saved : EstimateCase
saved = record {
  profile = profile;
  workload = record { classes = 150; objects_per_image = 300 };
  settings = settings;
  status = validated;
  global_batch = some 32;
  per_gpu_batch = some 32;
  trials = history;
  created_at = "now";
  diagnostic = "";
}

pub verified-saved : verified_evidence percent saved ≡ ok saved
unfolding verified_evidence start replay observe ceiling_of trial_observation advance discover
    growth_candidate confirmed
verified-saved = refl
