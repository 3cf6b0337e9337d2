-- ===== src/BatchEstimation/Reuse/Compatibility.antt =====
-- What the reuse of a saved case requires: `compatibility_issues` finds nothing exactly then.
use clearml_yolo.Base.{
  ℕ, ◌≤◌, ◌%◌, ◌≡◌, ◌↔◌, Bool, true, false, not, Option, none, some, List, [], ◌∷◌, ◌++◌, ◌<>◌,
  String, ltb, all, length, All, Some, arith, eq_iff, texts_eq_iff,
}
use clearml_yolo.BatchEstimation.Model.{
  SyntheticWorkload, TrainingProfile, BackendName, backend_eq, search_status_text, ModelVariant,
  Shape, Compilation, flag, mode,
}
use clearml_yolo.BatchEstimation.Case.{EstimateCase, usable}
use clearml_yolo.BatchEstimation.Reuse.{
  CompatibilityData, compatibility_data, model_eq, shape_eq, bool_eq, compilation_eq, hardware_eq,
  has_item, mapping_eq, key_tests, profile_issues, issue_if, misaligned, compatibility_issues,
  is_empty, is_compatible,
}

-- Mappings of equal size, where each item of the first is one of the second.
abbrev pub SameMapping : List (String × String) → List (String × String) → Type 0
SameMapping a b = (length a ≡ length b) × All (λ item. Some (λ other. other ≡ item) b) a

-- The data that reuse compares are the same.
pub record SameData (a b : CompatibilityData) : Type 0 where
  pub model : a.model ≡ b.model
  pub nominal_size : a.nominal_size ≡ b.nominal_size
  pub effective_size : a.effective_size ≡ b.effective_size
  pub dependencies : SameMapping a.dependencies b.dependencies
  pub precision : a.precision ≡ b.precision
  pub compilation : a.compilation ≡ b.compilation
  pub optimizers : a.optimizers ≡ b.optimizers
  pub accumulation : a.accumulation ≡ b.accumulation
  pub ema : a.ema ≡ b.ema
  pub augmentation : a.augmentation ≡ b.augmentation
  pub implementation_revision : a.implementation_revision ≡ b.implementation_revision
  pub gpus : a.gpus ≡ b.gpus

abbrev pub IsAligned : Option ℕ → Type 0
IsAligned none = Unit
IsAligned (some batch) = batch % 8 ≡ 0

pub record IsReusable (profile : TrainingProfile) (workload : SyntheticWorkload)
    (case : EstimateCase) : Type 0 where
  pub is_usable : usable case ≡ true
  pub aligned : IsAligned case.per_gpu_batch
  pub same_data : SameData (compatibility_data case.profile) (compatibility_data profile)
  pub classes_within : workload.classes ≤ case.workload.classes
  pub objects_within : workload.objects_per_image ≤ case.workload.objects_per_image

backend_eq_iff : (a b : BackendName) → (backend_eq a b ≡ true) ↔ (a ≡ b)
backend_eq_iff a b = ground arith

model_eq_iff : (a b : ModelVariant) → (model_eq a b ≡ true) ↔ (a ≡ b)
unfolding model_eq
model_eq_iff a b = ground (
  arith,
  eq_iff a.selection b.selection,
  backend_eq_iff a.backend b.backend,
  eq_iff a.preset b.preset,
  eq_iff a.architecture b.architecture,
)

shape_eq_iff : (a b : Shape) → (shape_eq a b ≡ true) ↔ (a ≡ b)
shape_eq_iff a b = ground arith

compilation_eq_iff : (a b : Compilation) → (compilation_eq a b ≡ true) ↔ (a ≡ b)
compilation_eq_iff (flag a) (flag b) = ground arith
compilation_eq_iff (mode a) (mode b) = ground (arith, eq_iff a b)
compilation_eq_iff (flag a) (mode b) = ground arith
compilation_eq_iff (mode a) (flag b) = ground arith

bool_eq_iff : (a b : Bool) → (bool_eq a b ≡ true) ↔ (a ≡ b)
bool_eq_iff a b = ground arith

hardware_eq_iff : (a b : List (String × ℕ)) → (hardware_eq a b ≡ true) ↔ (a ≡ b)
unfolding hardware_eq
hardware_eq_iff [] [] = ground arith
hardware_eq_iff ((n, k) ∷ a) ((m, l) ∷ b) = ground (arith, eq_iff n m, hardware_eq_iff a b)
hardware_eq_iff [] (x ∷ b) = ground arith
hardware_eq_iff (x ∷ a) [] = ground arith

has_item_iff :
    (b : List (String × String)) (item : String × String)
    → (has_item b item ≡ true) ↔ Some (λ other. other ≡ item) b
unfolding has_item
has_item_iff [] item = ground arith
has_item_iff ((n, v) ∷ b) (m, w) = ground (arith, eq_iff n m, eq_iff v w, has_item_iff b (m, w))

all_items_iff :
    (b a : List (String × String))
    → (all (has_item b) a ≡ true) ↔ All (λ item. Some (λ other. other ≡ item) b) a
all_items_iff b [] = ground arith
all_items_iff b (item ∷ a) = ground (arith, has_item_iff b item, all_items_iff b a)

mapping_eq_iff : (a b : List (String × String)) → (mapping_eq a b ≡ true) ↔ SameMapping a b
unfolding mapping_eq
mapping_eq_iff a b = ground (arith, all_items_iff b a)

issue_if_iff : (b : Bool) (issue : String) → (issue_if b issue ≡ []) ↔ (b ≡ false)
issue_if_iff true issue = ground arith
issue_if_iff false issue = ground arith

append-nil_iff : (xs ys : List String) → (xs ++ ys ≡ []) ↔ ((xs ≡ []) × (ys ≡ []))
append-nil_iff [] ys = ground arith
append-nil_iff (x ∷ xs) ys = ground arith

profile_issues_iff :
    (tests : List (String × Bool)) → (profile_issues tests ≡ []) ↔ All (λ test. test.1 ≡ true) tests
unfolding profile_issues
profile_issues_iff [] = ground arith
profile_issues_iff ((key, true) ∷ tests) = ground (arith, profile_issues_iff tests)
profile_issues_iff ((key, false) ∷ tests) = ground (arith, profile_issues_iff tests)

SameData-iff :
    (a b : CompatibilityData) → All (λ test. test.1 ≡ true) (key_tests a b) ↔ SameData a b
unfolding key_tests
SameData-iff a b = ground (
  arith,
  model_eq_iff a.model b.model,
  shape_eq_iff a.nominal_size b.nominal_size,
  shape_eq_iff a.effective_size b.effective_size,
  mapping_eq_iff a.dependencies b.dependencies,
  eq_iff a.precision b.precision,
  compilation_eq_iff a.compilation b.compilation,
  texts_eq_iff a.optimizers b.optimizers,
  eq_iff a.accumulation b.accumulation,
  bool_eq_iff a.ema b.ema,
  eq_iff a.augmentation b.augmentation,
  eq_iff a.implementation_revision b.implementation_revision,
  hardware_eq_iff a.gpus b.gpus,
)

IsAligned-iff : (o : Option ℕ) → (misaligned o ≡ false) ↔ IsAligned o
IsAligned-iff none = ground arith
IsAligned-iff (some batch) = ground arith

five-nil_iff :
    (xs ys zs us vs : List String)
    → (xs ++ ys ++ zs ++ us ++ vs ≡ [])
      ↔ ((xs ≡ []) × (ys ≡ []) × (zs ≡ []) × (us ≡ []) × (vs ≡ []))
five-nil_iff xs ys zs us vs = ground (
  arith,
  append-nil_iff (xs ++ ys ++ zs ++ us) vs,
  append-nil_iff (xs ++ ys ++ zs) us,
  append-nil_iff (xs ++ ys) zs,
  append-nil_iff xs ys,
)

-- No issue is found against a saved case exactly when its status is usable, its batch per GPU is a
-- multiple of 8, its profile has the same data as the requested one up to the identities of the GPUs
-- and the order of the dependencies, and the workload stays within its bounds.
pub compatibility_issues_iff :
    (case : EstimateCase) (profile : TrainingProfile) (workload : SyntheticWorkload)
    → (compatibility_issues case profile workload ≡ []) ↔ IsReusable profile workload case
unfolding compatibility_issues
compatibility_issues_iff case profile workload =
    let not_usable : String = "estimate status is " <> search_status_text case.status in
    let unaligned : String =
      "automatic per-GPU batch must be divisible by 8; rerun cy-batch-estimate" in
    let tests = key_tests (compatibility_data case.profile) (compatibility_data profile) in
    let many : String = "dataset class count exceeds synthetic bounds" in
    let dense : String = "dataset object density exceeds synthetic bounds" in
    ground (
      arith,
      five-nil_iff (issue_if (not (usable case)) not_usable)
          (issue_if (misaligned case.per_gpu_batch) unaligned) (profile_issues tests)
          (issue_if (ltb case.workload.classes workload.classes) many)
          (issue_if (ltb case.workload.objects_per_image workload.objects_per_image) dense),
      issue_if_iff (not (usable case)) not_usable,
      issue_if_iff (misaligned case.per_gpu_batch) unaligned,
      profile_issues_iff tests,
      SameData-iff (compatibility_data case.profile) (compatibility_data profile),
      issue_if_iff (ltb case.workload.classes workload.classes) many,
      issue_if_iff (ltb case.workload.objects_per_image workload.objects_per_image) dense,
      IsAligned-iff case.per_gpu_batch,
    )

pub is_compatible_iff :
    (profile : TrainingProfile) (workload : SyntheticWorkload) (case : EstimateCase)
    → (is_compatible profile workload case ≡ true)
      ↔ (compatibility_issues case profile workload ≡ [])
unfolding is_compatible
is_compatible_iff profile workload case = is_empty_iff (compatibility_issues case profile workload)
  where
    is_empty_iff : (xs : List String) → (is_empty xs ≡ true) ↔ (xs ≡ [])
    is_empty_iff [] = ground arith
    is_empty_iff (x ∷ xs) = ground arith
