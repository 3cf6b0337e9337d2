-- ===== src/BatchEstimation/Recommend/Found.antt =====
-- `single_sources` finds a source for each kind of hardware, if each GPU has reusable evidence.
use mathlib.Core.Path.{subst}
use clearml_yolo.Base.{
  ℕ, ◌≡◌, refl, sym, ap, ◌∙◌, inl, inr, true, List, [], ◌∷◌, String, map, All, Some, All-none,
  All_middle, arith, Bool-cases, Result, ok, err,
}
use clearml_yolo.BatchEstimation.Model.{GpuHardware, SyntheticWorkload, TrainingProfile}
use clearml_yolo.BatchEstimation.Case.{EstimateCase, usable}
use clearml_yolo.BatchEstimation.Reuse.{hardware, hardware_of, select_estimate}
use clearml_yolo.BatchEstimation.Reuse.Compatibility.{IsReusable}
use clearml_yolo.BatchEstimation.Reuse.Selection.{
  IsFirstReusable, IsSelection, select_estimate-IsSelection,
}
use clearml_yolo.BatchEstimation.Recommend.{
  has_hardware, distinct, only, source_hardware, single_sources,
}
use clearml_yolo.BatchEstimation.Recommend.Hardware.{distinct_new}
use clearml_yolo.BatchEstimation.Recommend.Sources.{HasCapacity, first_hardware, source_gpus}

-- A usable case recommends a capacity.
abbrev pub IsBackedUp : EstimateCase → Type 0
IsBackedUp case = usable case ≡ true → HasCapacity case

-- Some of the cases is reusable for the profile.
abbrev pub HasEvidence : List EstimateCase → SyntheticWorkload → TrainingProfile → Type 0
HasEvidence cases workload profile = Some (IsReusable profile workload) cases

selected :
    (cases : List EstimateCase) (profile : TrainingProfile) (workload : SyntheticWorkload)
    (r : Result EstimateCase)
    → IsSelection cases profile workload r
    → HasEvidence cases workload profile
    → (best : EstimateCase) × (r ≡ ok best) × IsFirstReusable profile workload cases best
selected cases profile workload (ok best) h e = (best, refl, h)
selected cases profile workload (err x) h e =
    absurd (All-none (IsReusable profile workload) cases h e)

-- With evidence, a case is selected, and it is one of the cases and reusable.
pub select_found :
    (cases : List EstimateCase) (profile : TrainingProfile) (workload : SyntheticWorkload)
    → All IsBackedUp cases
    → HasEvidence cases workload profile
    → (best : EstimateCase) × (select_estimate cases profile workload ≡ ok best)
      × IsReusable profile workload best
      × HasCapacity best
select_found cases profile workload capacity e =
    let (best, found, (before, after, split, reusable, _, _)) =
      selected cases profile workload _ (select_estimate-IsSelection cases profile workload) e in
    (
      best,
      found,
      reusable,
      All_middle IsBackedUp before after best (subst (All IsBackedUp) split capacity)
          reusable.is_usable,
    )

-- Evidence for one of the GPUs of the target.
abbrev pub IsSource : TrainingProfile → SyntheticWorkload → EstimateCase → Type 0
IsSource profile workload source =
    (gpu : GpuHardware) × (has_hardware (hardware gpu) (map hardware profile.gpus) ≡ true)
    × IsReusable (only profile gpu) workload source
    × HasCapacity source

pub source_first :
    (source : EstimateCase) (sources : List EstimateCase) (x : String × ℕ)
    → hardware_of source.profile.gpus ≡ x ∷ []
    → source_hardware (source ∷ sources) ≡ x ∷ source_hardware sources
source_first source sources x h =
    let (gpu, e, same) = first_hardware source.profile.gpus x h in
    rw (source_hardware, e) (ap (λ y. y ∷ source_hardware sources) same)

module _ (cases : List EstimateCase) (profile : TrainingProfile) (workload : SyntheticWorkload)
    (capacity : All IsBackedUp cases) where
  pub single_sources-found :
      (seen : List (String × ℕ)) (gpus : List GpuHardware)
      → All (λ gpu. HasEvidence cases workload (only profile gpu)) gpus
      → All (λ gpu. has_hardware (hardware gpu) (map hardware profile.gpus) ≡ true) gpus
      → (sources : List EstimateCase) × (single_sources cases profile workload seen gpus
          ≡ ok sources)
        × (source_hardware sources ≡ distinct seen (map hardware gpus))
        × All (IsSource profile workload) sources
  unfolding single_sources distinct
  single_sources-found seen [] evidence present = ([], refl, refl, tt)
  single_sources-found seen (gpu ∷ gpus) evidence present =
      elim (Bool-cases (has_hardware (hardware gpu) seen)) [
        | inl old ↦
            let (sources, found, same, each) =
              single_sources-found seen gpus evidence.1 present.1 in
            (sources, ground (arith, old, found), ground (arith, old, same), each)
        | inr new ↦
            let (sources, found, same, each) =
              single_sources-found (hardware gpu ∷ seen) gpus evidence.1 present.1 in
            let (best, chosen, reusable, has) =
              select_found cases (only profile gpu) workload capacity evidence.0 in
            (
              best ∷ sources,
              ground (arith, new, found, chosen),
              source_first best sources (hardware gpu)
                    (source_gpus (only profile gpu) workload best reusable)
                  ∙ ap (λ xs. hardware gpu ∷ xs) same
                  ∙ sym (distinct_new seen (map hardware gpus) (hardware gpu) new),
              ((gpu, present.0, reusable, has), each),
            )
      ]
