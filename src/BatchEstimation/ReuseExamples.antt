-- ===== src/BatchEstimation/ReuseExamples.antt =====
-- The theorems on the reuse, the recommendation, the measurement and the storage of estimates, at
-- concrete inputs.
use mathlib.Core.Path.{subst}
use clearml_yolo.Base.{
  ◌≤◌, ◌<◌, ◌≡◌, refl, ◌↔◌, inl, inr, false, none, some, List, [], ◌∷◌, ◌++◌, String, ok, leb,
  arith, length, All, All-append, show, if◌then◌else◌, keep, texts_eq,
}
use clearml_yolo.BatchEstimation.Model.{
  success, oom, SyntheticWorkload, TrainingProfile, world_size,
}
use clearml_yolo.BatchEstimation.Samples.{
  done as finished, percent, gpu, profile, settings, trial, start-initial, replay-history, saved,
  verified-saved,
}
use clearml_yolo.BatchEstimation.Case.{EstimateCase, verified_evidence, EstimateCatalogue}
use clearml_yolo.BatchEstimation.Reuse.{
  hardware_eq, has_item, compatibility_issues, select_estimate, Payload, estimate_key,
}
use clearml_yolo.BatchEstimation.Reuse.Compatibility.{IsReusable, compatibility_issues_iff}
use clearml_yolo.BatchEstimation.Reuse.Selection.{IsSelection, select_estimate-IsSelection}
use clearml_yolo.BatchEstimation.Recommend.{ResolvedRecommendation, only, select_recommendation}
use clearml_yolo.BatchEstimation.Recommend.Sources.{IsReusable-for}
use clearml_yolo.BatchEstimation.Recommend.Complete.{IsEven, select_recommendation-IsEven}
use clearml_yolo.BatchEstimation.Measurement.{done, snapshot, Ports, estimate_batches}
use clearml_yolo.BatchEstimation.Measurement.Snapshots.{verified-snapshot}
use clearml_yolo.BatchEstimation.Measurement.Progress.{Ends, IsLive}
use clearml_yolo.BatchEstimation.Measurement.Batches.{estimate_batches-Ends}
use clearml_yolo.BatchEstimation.Measurement.Evidence.{Preserves, estimate_batches_keeps}
use clearml_yolo.BatchEstimation.Storage.{save_of, cases_for, save, save-cases_for}
use clearml_yolo.BatchEstimation.Lookup.{
  train, test, ImageDensity, PreparedManifest, is_relevant, dataset_workload,
  dataset_workload-bounds,
}

abbrev workload : SyntheticWorkload
workload = record { classes = 80; objects_per_image = 100 }

-- A digest that keeps what the examples differ in.
abbrev digest : Payload → String
digest content = content.profile.precision

compatibility_issues_iff_example :
    (compatibility_issues saved profile workload ≡ []) ↔ IsReusable profile workload saved
compatibility_issues_iff_example = compatibility_issues_iff saved profile workload

no_issues : compatibility_issues saved profile workload ≡ []
unfolding compatibility_issues hardware_eq has_item texts_eq
no_issues = refl

saved-IsReusable : IsReusable profile workload saved
saved-IsReusable = (compatibility_issues_iff saved profile workload).0 no_issues

select_estimate-IsSelection_example :
    IsSelection (saved ∷ []) profile workload (select_estimate (saved ∷ []) profile workload)
select_estimate-IsSelection_example = select_estimate-IsSelection (saved ∷ []) profile workload

-- Two GPUs of the hardware of the sample, for which only the evidence of one is there.
abbrev pair : TrainingProfile
pair = record profile { gpus = gpu ∷ record gpu { uuid = some "gpu-1" } ∷ [] }

saved-second : IsReusable (only pair (record gpu { uuid = some "gpu-1" })) workload saved
saved-second =
    IsReusable-for profile workload gpu (record gpu { uuid = some "gpu-1" }) saved refl
      saved-IsReusable

select_recommendation-IsEven_example :
    (r : ResolvedRecommendation) × (select_recommendation digest (saved ∷ []) pair workload ≡ ok r)
    × IsEven pair r
select_recommendation-IsEven_example =
    select_recommendation-IsEven digest (saved ∷ []) pair workload ((λ _. (32, refl, refl), tt))
      (omega arith) (inr ((inl saved-IsReusable, (inl saved-second, tt))))

-- A store in memory, and a probe by which 36 images fit.
abbrev memory : Ports (List EstimateCase)
memory = record {
  run = λ _ _ _ batch w.
      (w, done (trial batch (show (length w)) (if leb batch 36 then success else oom)));
  read = λ w. (w, done (record { schema_version = 3; cases = w }));
  save = λ case w. (w ++ case ∷ [], done tt);
  now = λ w. (w, done "now");
  prepare_profile = λ _ w. (w, done profile);
  on_case = λ _ _ w. (w, done tt);
}

memory-IsLive : IsLive memory
memory-IsLive = record {
  run_ends = λ _ _ _ _ _. tt;
  read_ends = λ _. tt;
  save_ends = λ _ _. tt;
  now_ends = λ _. tt;
  prepare_ends = λ _ _. tt;
  on_case_ends = λ _ _ _. tt;
  prepared_gpu = λ _ prepared w w' e.
      let same : profile ≡ prepared = cc in subst (λ p. 0 < world_size p) same (omega arith);
}

abbrev IsVerified : List EstimateCase → Type 0
IsVerified = All (λ case. verified_evidence percent case ≡ ok case)

memory-Preserves : Preserves percent memory IsVerified
memory-Preserves = record {
  run_keeps = λ _ _ _ _ _ h. h;
  read_keeps = λ _ h. h;
  save_keeps = λ case w v h.
      All-append (λ case. verified_evidence percent case ≡ ok case) w (case ∷ []) h ((v, tt));
  now_keeps = λ _ h. h;
  prepare_keeps = λ _ _ h. h;
  on_case_keeps = λ _ _ _ h. h;
}

estimate_batches-Ends_example :
    Ends (estimate_batches percent digest memory (profile ∷ []) workload settings false []).1
estimate_batches-Ends_example =
    estimate_batches-Ends percent digest memory memory-IsLive (profile ∷ []) workload settings false
      []

estimate_batches_keeps_example :
    IsVerified (estimate_batches percent digest memory (profile ∷ []) workload settings false []).0
estimate_batches_keeps_example =
    estimate_batches_keeps percent digest memory IsVerified memory-Preserves (profile ∷ []) workload
      settings false [] tt

verified-snapshot_example :
    verified_evidence percent (snapshot finished workload "now" none)
    ≡ ok (snapshot finished workload "now" none)
verified-snapshot_example =
    verified-snapshot percent finished workload "now" none (start-initial, replay-history)

abbrev stored : EstimateCatalogue
stored = record { schema_version = 3; cases = saved ∷ [] }

save-stored :
    save percent digest saved (record { schema_version = 2; cases = saved ∷ [] }) ≡ ok stored
unfolding estimate_key
save-stored =
    save_of percent digest saved (record { schema_version = 2; cases = saved ∷ [] }) verified-saved

save-cases_for_example : cases_for percent digest "fp16" stored ≡ saved ∷ []
unfolding estimate_key
save-cases_for_example =
    save-cases_for percent digest saved (record { schema_version = 2; cases = saved ∷ [] }) "fp16"
      verified-saved save-stored

abbrev manifest : PreparedManifest
manifest = record {
  class_names = (0, "cat") ∷ (1, "dog") ∷ [];
  images = record { split = train; boxes = 7 } ∷ record { split = test; boxes = 90 } ∷ [];
}

workload-manifest : dataset_workload manifest ≡ ok (record { classes = 2; objects_per_image = 7 })
unfolding dataset_workload
workload-manifest = refl

dataset_workload-bounds_example :
    (2 ≡ length manifest.class_names)
    × (0 < 7)
    × (0 < length (keep is_relevant manifest.images))
    × All (λ (image : ImageDensity). image.boxes ≤ 7) (keep is_relevant manifest.images)
dataset_workload-bounds_example = dataset_workload-bounds manifest workload-manifest
