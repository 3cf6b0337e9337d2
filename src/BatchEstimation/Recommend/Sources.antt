-- ===== src/BatchEstimation/Recommend/Sources.antt =====
-- The sources that `select_recommendation` chooses pass the validator of the recommendation.
use mathlib.Core.Path.{subst}
use clearml_yolo.Base.{
  ℕ, ◌*◌, ◌≡◌, refl, sym, ap, ◌∙◌, inl, inr, true, false, none, some, List, [], ◌∷◌, String, map,
  All, arith, Bool-cases, Option-cases, ok,
}
use clearml_yolo.BatchEstimation.Model.{
  SearchStatus, GpuHardware, SyntheticWorkload, TrainingProfile, world_size,
}
use clearml_yolo.BatchEstimation.Case.{EstimateCase, usable}
use clearml_yolo.BatchEstimation.Reuse.{hardware, hardware_of, compatibility_data, is_compatible}
use clearml_yolo.BatchEstimation.Reuse.Compatibility.{
  SameData, IsReusable, compatibility_issues_iff, is_compatible_iff,
}
use clearml_yolo.BatchEstimation.Recommend.{
  hardware_same, has_hardware, first_gpu, capacities, only, target_gpu, is_single_source,
  capacity_or_zero, statuses_eq, capacities,
}
use clearml_yolo.BatchEstimation.Recommend.Hardware.{hardware_same_iff}

-- A saved case recommends one capacity, the same on each of its GPUs.
abbrev pub HasCapacity : EstimateCase → Type 0
HasCapacity case =
    (c : ℕ) × (case.per_gpu_batch ≡ some c)
    × (case.global_batch ≡ some (c * world_size case.profile))

-- A source for one GPU of the profile, which its data match.
abbrev IsSourceFor : TrainingProfile → SyntheticWorkload → GpuHardware → EstimateCase → Type 0
IsSourceFor profile workload gpu source =
    IsReusable (only profile gpu) workload source × HasCapacity source

pub first_hardware :
    (gpus : List GpuHardware) (x : String × ℕ)
    → hardware_of gpus ≡ x ∷ []
    → (gpu : GpuHardware) × (first_gpu gpus ≡ some gpu) × (hardware gpu ≡ x)
first_hardware [] x h = cc
first_hardware (gpu ∷ gpus) x h = (gpu, refl, cc)

target_matches :
    (gpus : List GpuHardware) (key : String × ℕ) (gpu : GpuHardware)
    → target_gpu gpus key ≡ some gpu
    → hardware gpu ≡ key
unfolding target_gpu
target_matches [] key gpu h = cc
target_matches (first ∷ gpus) key gpu h = elim (Option-cases (target_gpu gpus key)) [
  | inl none_later ↦ elim (Bool-cases (hardware_same (hardware first) key)) [
    | inl same ↦
        let e : first ≡ gpu = ground arith in
        ap hardware (sym e) ∙ (hardware_same_iff (hardware first) key).0 same
    | inr other ↦ ground arith
  ]
  | inr (later, e) ↦ target_matches gpus key gpu (ground arith)
]

target_missing :
    (gpus : List GpuHardware) (key : String × ℕ)
    → target_gpu gpus key ≡ none
    → has_hardware key (map hardware gpus) ≡ false
unfolding target_gpu
target_missing [] key h = refl
target_missing (gpu ∷ gpus) key h = ground (
  arith,
  target_missing gpus key,
  hardware_same_iff (hardware gpu) key,
  hardware_same_iff key (hardware gpu),
)

target_found :
    (gpus : List GpuHardware) (key : String × ℕ)
    → has_hardware key (map hardware gpus) ≡ true
    → (gpu : GpuHardware) × (target_gpu gpus key ≡ some gpu) × (hardware gpu ≡ key)
target_found gpus key h = elim (Option-cases (target_gpu gpus key)) [
  | inl missing ↦ cc (target_missing gpus key missing)
  | inr (gpu, e) ↦ (gpu, e, target_matches gpus key gpu e)
]

pub capacities_of :
    (sources : List EstimateCase)
    → All (λ source. (usable source ≡ true) × HasCapacity source) sources
    → capacities sources ≡ ok (map capacity_or_zero sources)
unfolding capacities
capacities_of [] h = refl
capacities_of (source ∷ sources) h =
    let (c, per_gpu, _) = h.0.1 in ground (arith, h.0.0, per_gpu, capacities_of sources h.1)

pub statuses_eq_refl : (ss : List SearchStatus) → statuses_eq ss ss ≡ true
statuses_eq_refl [] = refl
statuses_eq_refl (s ∷ ss) = ground (arith, statuses_eq_refl ss)

pub reusable_alone :
    (profile : TrainingProfile) (workload : SyntheticWorkload) (source : EstimateCase)
    → IsReusable profile workload source
    → is_compatible profile source.workload source ≡ true
reusable_alone profile workload source r = (is_compatible_iff profile source.workload source).1 (
    (compatibility_issues_iff source profile source.workload).1 (record {
      is_usable = r.is_usable;
      aligned = r.aligned;
      same_data = r.same_data;
      classes_within = omega arith;
      objects_within = omega arith;
    }))

-- A profile of one GPU has the same data for another GPU of the same hardware.
same_target :
    (profile : TrainingProfile) (a b : GpuHardware)
    → hardware a ≡ hardware b
    → compatibility_data (only profile a) ≡ compatibility_data (only profile b)
unfolding compatibility_data
same_target profile a b e = ap (λ x. record (compatibility_data profile) { gpus = x ∷ [] }) e

pub IsReusable-for :
    (profile : TrainingProfile) (workload : SyntheticWorkload) (a b : GpuHardware)
    (source : EstimateCase)
    → hardware a ≡ hardware b
    → IsReusable (only profile a) workload source
    → IsReusable (only profile b) workload source
IsReusable-for profile workload a b source e r = record {
  is_usable = r.is_usable;
  aligned = r.aligned;
  same_data =
      subst (SameData (compatibility_data source.profile)) (same_target profile a b e) r.same_data;
  classes_within = r.classes_within;
  objects_within = r.objects_within;
}

pub source_gpus :
    (profile : TrainingProfile) (workload : SyntheticWorkload) (source : EstimateCase)
    → IsReusable profile workload source
    → hardware_of source.profile.gpus ≡ hardware_of profile.gpus
unfolding compatibility_data
source_gpus profile workload source r = r.same_data.gpus

-- A source for a GPU of the target passes the test of the validator.
pub is_single_source_of :
    (profile : TrainingProfile) (workload : SyntheticWorkload) (gpu : GpuHardware)
    (source : EstimateCase)
    → has_hardware (hardware gpu) (map hardware profile.gpus) ≡ true
    → IsReusable (only profile gpu) workload source
    → is_single_source profile source ≡ true
unfolding is_single_source
is_single_source_of profile workload gpu source present r =
    let (g, e, same) =
      first_hardware source.profile.gpus (hardware gpu)
        (source_gpus (only profile gpu) workload source r) in
    let (found, e', same') =
      target_found profile.gpus (hardware g)
        (subst (λ x. has_hardware x (map hardware profile.gpus) ≡ true) (sym same) present) in
    let fits =
      reusable_alone (only profile found) workload source
        (IsReusable-for profile workload gpu found source (sym (same' ∙ same)) r) in
    rw (is_single_source, e, e') fits
