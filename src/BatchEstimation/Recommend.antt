-- ===== src/BatchEstimation/Recommend.antt =====
-- Recommendations of core/batch_estimation.py: `ResolvedRecommendation` with its validator,
-- `_recommendation` and `select_recommendation`.
pub mod Hardware
pub mod Sources
pub mod Found
pub mod Validation
pub mod Complete
use clearml_yolo.Base.{
  ℕ, ◌*◌, Bool, true, false, ◌&&◌, ◌||◌, not, Option, none, some, List, [], ◌∷◌, ◌++◌, String, ltb,
  ◌==◌, str_eq, texts_eq, ◌<>◌, show, any, all, map, keep, length, min, Result, ok, err,
  value_error, raise_if, ◌>>=◌, ◌>>◌, if◌then◌else◌,
}
use clearml_yolo.BatchEstimation.Model.{
  GpuHardware, SyntheticWorkload, TrainingProfile, world_size, SearchStatus, ceiling_limited,
  numerically_limited, validated, search_status_eq, is_usable,
}
use clearml_yolo.BatchEstimation.Case.{EstimateCase, option_eq}
use clearml_yolo.BatchEstimation.Reuse.{
  Payload, hardware, is_compatible, select_estimate, estimate_key, is_empty,
}

pub data Origin : Type 0 where
  measured extrapolated : Origin

pub record ResolvedRecommendation : Type 0 where
  pub origin : Origin
  pub profile : TrainingProfile
  pub global_batch : ℕ
  pub per_gpu_batch : ℕ
  pub sources : List EstimateCase
  pub source_estimate_keys : List String
  pub source_statuses : List SearchStatus

abbrev pub hardware_same : String × ℕ → String × ℕ → Bool
hardware_same (name, memory) (name', memory') = str_eq name name' && (memory == memory')

-- Membership in a set of hardware.
abbrev pub has_hardware : String × ℕ → List (String × ℕ) → Bool
has_hardware x = any (hardware_same x)

-- The entries of a set, each once, at its first place.
unfoldable pub distinct : List (String × ℕ) → List (String × ℕ) → List (String × ℕ)
distinct seen [] = []
distinct seen (x ∷ xs) =
    let old = distinct seen xs in
    let new = x ∷ distinct (x ∷ seen) xs in if has_hardware x seen then old else new

-- The hardware of the only GPU of a source, as `source.profile.gpus[0]` is read.
abbrev pub first_gpu : List GpuHardware → Option GpuHardware
first_gpu [] = none
first_gpu (gpu ∷ _) = some gpu

abbrev pub only : TrainingProfile → GpuHardware → TrainingProfile
only profile gpu = record profile { gpus = gpu ∷ [] }

-- `target_hardware[name, total]`: of the GPUs with this key, the last.
unfoldable pub target_gpu : List GpuHardware → String × ℕ → Option GpuHardware
target_gpu [] key = none
target_gpu (gpu ∷ gpus) key =
    let here = if hardware_same (hardware gpu) key then some gpu else none in
    elim (target_gpu gpus key) [ some later ↦ some later | none ↦ here ]

-- Whether a source is evidence for one of the target's GPUs.
unfoldable pub is_single_source : TrainingProfile → EstimateCase → Bool
unfolding target_gpu
is_single_source target source = elim (first_gpu source.profile.gpus) [
  | none ↦ false
  | some gpu ↦ elim (target_gpu target.gpus (hardware gpu)) [
    | none ↦ false
    | some found ↦ is_compatible (only target found) source.workload source
  ]
]

abbrev pub capacity_or_zero : EstimateCase → ℕ
capacity_or_zero source = elim source.per_gpu_batch [ none ↦ 0 | some batch ↦ batch ]

-- `min(values)` of a nonempty sequence.
abbrev pub min_from : ℕ → List ℕ → ℕ
min_from least [] = least
min_from least (x ∷ xs) = min_from (min least x) xs

abbrev pub min_list : List ℕ → Option ℕ
min_list [] = none
min_list (x ∷ xs) = some (min_from x xs)

abbrev pub source_hardware : List EstimateCase → List (String × ℕ)
source_hardware [] = []
source_hardware (source ∷ sources) = elim (first_gpu source.profile.gpus) [
  | none ↦ source_hardware sources
  | some gpu ↦ hardware gpu ∷ source_hardware sources
]

-- Equality of two sets of hardware.
abbrev pub same_hardware : List (String × ℕ) → List (String × ℕ) → Bool
same_hardware xs ys = all (λ x. has_hardware x ys) xs && all (λ y. has_hardware y xs) ys

abbrev pub statuses_eq : List SearchStatus → List SearchStatus → Bool
statuses_eq [] [] = true
statuses_eq (s ∷ ss) (t ∷ ts) = search_status_eq s t && statuses_eq ss ts
statuses_eq _ _ = false

abbrev pub statuses_of : List EstimateCase → List SearchStatus
statuses_of [] = []
statuses_of (source ∷ sources) = source.status ∷ statuses_of sources

-- Whether one source is exact evidence for the allocation.
unfoldable pub is_exact : ResolvedRecommendation → Bool
is_exact r = elim r.sources [
  | source ∷ [] ↦
      is_compatible r.profile source.workload source
      && option_eq (some r.global_batch) source.global_batch
  | _ ↦ false
]

-- The capacities of the sources, all of them usable.
unfoldable pub capacities : List EstimateCase → Result (List ℕ)
capacities [] = ok []
capacities (source ∷ sources) = do
  raise_if (not (is_usable source.status))
      (value_error "A recommendation requires usable measured sources")
  capacity ← (elim source.per_gpu_batch [
    | none ↦ err (value_error "A recommendation requires usable measured sources")
    | some capacity ↦ ok capacity
  ])
  rest ← capacities sources
  ok (capacity ∷ rest)

-- The sources for the GPUs whose hardware was not seen yet.
unfoldable pub single_sources :
    List EstimateCase
    → TrainingProfile
    → SyntheticWorkload
    → List (String × ℕ)
    → List GpuHardware
    → Result (List EstimateCase)
single_sources cases profile workload seen [] = ok []
single_sources cases profile workload seen (gpu ∷ gpus) =
    let skipped = single_sources cases profile workload seen gpus in
    let rest = single_sources cases profile workload (hardware gpu ∷ seen) gpus in
    if has_hardware (hardware gpu) seen
    then skipped
    else (elim (select_estimate cases (only profile gpu) workload) [
      | err _ ↦ err (
          value_error (
            "No compatible validated single-GPU batch estimate for "
            <> gpu.name
            <> " ("
            <> show gpu.total_memory_bytes
            <> " bytes). Run cy-batch-estimate for each selected GPU type/capacity with this model, training profile and dataset bounds, or set an explicit training batch."))
      | ok source ↦ rest >>= λ sources. ok (source ∷ sources)
    ])

module _ (digest : Payload → String) where
  abbrev pub key_of : EstimateCase → String
  key_of source = estimate_key digest source.profile source.workload source.settings

  abbrev pub keys_of : List EstimateCase → List String
  keys_of [] = []
  keys_of (source ∷ sources) = key_of source ∷ keys_of sources

  -- The checks of `source_evidence` for evidence from several allocations.
  unfoldable pub extrapolation_evidence : ResolvedRecommendation → Result ResolvedRecommendation
  unfolding distinct is_single_source
  extrapolation_evidence r = do
    raise_if
        (world_size r.profile == 1
          || not (same_hardware (source_hardware r.sources) (map hardware r.profile.gpus))
          || not (length (distinct [] (source_hardware r.sources)) == length r.sources))
        (value_error "Extrapolation requires one source per target hardware group")
    raise_if (not (all (is_single_source r.profile) r.sources))
        (value_error "Extrapolation requires compatible single-GPU sources")
    raise_if (not (option_eq (some r.per_gpu_batch) (min_list (map capacity_or_zero r.sources))))
        (value_error "Extrapolation must use the smallest source per-GPU capacity")
    ok r

  -- `source_evidence`
  unfoldable pub source_evidence : ResolvedRecommendation → Result ResolvedRecommendation
  unfolding is_exact extrapolation_evidence
  source_evidence r = do
    raise_if (not (r.global_batch == r.per_gpu_batch * world_size r.profile))
        (value_error "Recommended global batch must divide equally across target GPUs")
    raise_if
        (not (
          texts_eq r.source_estimate_keys (keys_of r.sources)
          && statuses_eq r.source_statuses (statuses_of r.sources)))
        (value_error "Recommendation keys and statuses must match measured sources")
    (elim r.origin [
      | measured ↦
          raise_if (not (is_exact r))
            (value_error "Measured recommendation requires exact-allocation evidence")
          >> ok r
      | extrapolated ↦ extrapolation_evidence r
    ])

  abbrev pub resolved : TrainingProfile → List EstimateCase → Origin → ℕ → ResolvedRecommendation
  resolved profile sources origin capacity = record {
    origin = origin;
    profile = profile;
    global_batch = world_size profile * capacity;
    per_gpu_batch = capacity;
    sources = sources;
    source_estimate_keys = keys_of sources;
    source_statuses = statuses_of sources;
  }

  -- `_recommendation`; Python's `min` raises on no sources.
  unfoldable pub recommendation :
      TrainingProfile → List EstimateCase → Origin → Result ResolvedRecommendation
  unfolding capacities source_evidence
  recommendation profile sources origin = do
    found ← capacities sources
    (elim (min_list found) [
      | none ↦ err (value_error "min() iterable argument is empty")
      | some capacity ↦ source_evidence (resolved profile sources origin capacity)
    ])

  -- `select_recommendation`
  unfoldable pub select_recommendation :
      List EstimateCase → TrainingProfile → SyntheticWorkload → Result ResolvedRecommendation
  unfolding recommendation single_sources
  select_recommendation cases profile workload =
      let exact = keep (is_compatible profile workload) cases in
      if is_empty exact
      then (do
        sources ← single_sources cases profile workload [] profile.gpus
        recommendation profile sources extrapolated)
      else (do
        source ← select_estimate exact profile workload
        recommendation profile (source ∷ []) measured)

-- `status`
unfoldable pub status : ResolvedRecommendation → SearchStatus
status r =
    if any (search_status_eq numerically_limited) r.source_statuses
    then numerically_limited
    else if any (search_status_eq ceiling_limited) r.source_statuses
    then ceiling_limited
    else validated
