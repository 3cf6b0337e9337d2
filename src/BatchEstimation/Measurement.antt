-- ===== src/BatchEstimation/Measurement.antt =====
-- application/use_cases/batch_estimate.py: the measurement of the capacity of each profile through
-- a probe and a store. The world that these change is a parameter, as are they.
pub mod Snapshots
pub mod Progress
pub mod Batches
pub mod Evidence
use clearml_yolo.Base.{
  ℕ, zero, suc, ◌+◌, ◌==◌, Bool, true, false, ◌&&◌, ◌||◌, not, Option, none, some, List, [], ◌∷◌,
  String, str_eq, any, keep, Result, ok, err, value_error, if◌then◌else◌,
}
use clearml_yolo.BatchEstimation.Model.{
  Float, SearchStatus, searching, failed, search_status_eq, TrialResult, TrainingProfile,
  SearchSettings, SyntheticWorkload, world_size,
}
use clearml_yolo.BatchEstimation.Search.{BatchSearch, start, observe}
use clearml_yolo.BatchEstimation.Search.Growth.{ceiling_of}
use clearml_yolo.BatchEstimation.Case.{EstimateCase, EstimateCatalogue, usable}
use clearml_yolo.BatchEstimation.Reuse.{Payload, estimate_key}
use clearml_yolo.BatchEstimation.Diagnostics.{Exception, as_exception, error_diagnostic}

-- What a call that changes the world gives: a value, an exception, or no end within the fuel.
pub data Outcome {ℓ} (A : Type ℓ) : Type ℓ where
  done : A → Outcome A
  raised : Exception → Outcome A
  out_of_fuel : Outcome A

abbrev pub Action {ℓ} : Type 0 → Type ℓ → Type ℓ
Action W A = W → W × Outcome A

infixl 5 ◌&>◌
abbrev pub ◌&>◌ {ℓ κ} :
    {W : Type 0} {A : Type ℓ} {B : Type κ} → W × Outcome A → (A → Action W B) → W × Outcome B
(w, done a) &> f = f a w
(w, raised e) &> f = (w, raised e)
(w, out_of_fuel) &> f = (w, out_of_fuel)

-- A pure computation that may raise.
abbrev pub of_result {ℓ} : {A : Type ℓ} → Result A → Outcome A
of_result (ok a) = done a
of_result (err e) = raised (as_exception e)

abbrev pub pending_text : String
pending_text = "Independent confirmation pending; search may still be running or was interrupted"

-- `diagnostic or text`
abbrev pub text_or : Option String → String → String
text_or none text = text
text_or (some diagnostic) text = if str_eq diagnostic "" then text else diagnostic

abbrev pub is_some {ℓ} : {A : Type ℓ} → Option A → Bool
is_some none = false
is_some (some _) = true

-- `_snapshot`
unfoldable pub snapshot : BatchSearch → SyntheticWorkload → String → Option String → EstimateCase
snapshot search workload timestamp diagnostic =
    let pending = search_status_eq search.status searching || is_some diagnostic in
    record {
      profile = search.profile;
      workload = workload;
      settings = search.settings;
      status = if pending then failed else search.status;
      global_batch = if pending then none else search.global_batch;
      per_gpu_batch = if pending then none else search.per_gpu_batch;
      trials = search.trials;
      created_at = timestamp;
      diagnostic = text_or diagnostic (if pending then pending_text else search.diagnostic);
    }

-- The probe and the store, as the use case receives them.
pub record Ports (W : Type 0) : Type 0 where
  pub run : TrainingProfile → SyntheticWorkload → SearchSettings → ℕ → Action W TrialResult
  pub read : Action W EstimateCatalogue
  pub save : EstimateCase → Action W (Unit {0})
  pub now : Action W String
  pub prepare_profile : TrainingProfile → Action W TrainingProfile
  pub on_case : EstimateCase → Bool → Action W (Unit {0})

-- Enough for every trial of a search on the profile.
abbrev pub enough : TrainingProfile → SearchSettings → ℕ
enough profile settings = 4 + ceiling_of profile settings

-- `saved[-1]`
abbrev pub last_of {ℓ} : {A : Type ℓ} → List A → Option A
last_of [] = none
last_of (x ∷ xs) = elim (last_of xs) [ none ↦ some x | some later ↦ some later ]

module _ {W : Type 0} (int_mul : ℕ → Float → ℕ) (ports : Ports W) where
  -- The case of a search that an exception ended, saved and returned.
  abbrev pub give_up : BatchSearch → SyntheticWorkload → String → Exception → Action W EstimateCase
  give_up search workload timestamp error w =
      let case = snapshot search workload timestamp (some (error_diagnostic error)) in
      ports.save case w &> λ _ w. (w, done case)

  -- What the `try` of the loop gives: a trial that is observed, or an exception of either.
  abbrev pub observed : BatchSearch → Outcome TrialResult → Outcome BatchSearch
  observed search (done trial) = of_result (observe int_mul search trial)
  observed search (raised error) = raised error
  observed search out_of_fuel = out_of_fuel

  -- The end of a round: the snapshot that is saved, and what follows it.
  abbrev pub settle :
      (BatchSearch → EstimateCase → Action W EstimateCase)
      → SyntheticWorkload
      → String
      → BatchSearch
      → Outcome BatchSearch
      → Action W EstimateCase
  settle go workload timestamp search (raised problem) w =
      give_up search workload timestamp problem w
  settle go workload timestamp search out_of_fuel w = (w, out_of_fuel)
  settle go workload timestamp search (done search') w =
      let case = snapshot search' workload timestamp none in
      ports.save case w &> λ _. go search' case

  -- The `while` loop of `_measure`, with the last snapshot.
  unfoldable pub measure_loop :
      ℕ
      → TrainingProfile
      → SyntheticWorkload
      → SearchSettings
      → String
      → BatchSearch
      → EstimateCase
      → Action W EstimateCase
  measure_loop zero profile workload settings timestamp search case w = (w, out_of_fuel)
  measure_loop (suc fuel) profile workload settings timestamp search case w =
      elim search.next_batch [
        | none ↦ (w, done case)
        | some batch ↦
            let (w', trial) = ports.run profile workload settings batch w in
            settle (measure_loop fuel profile workload settings timestamp) workload timestamp search
              (observed search trial) w'
      ]

module _ {W : Type 0} (int_mul : ℕ → Float → ℕ) (digest : Payload → String) (ports : Ports W) where
  -- `_measure` after the preparation of the profile.
  unfoldable pub measure_prepared :
      TrainingProfile
      → TrainingProfile
      → SyntheticWorkload
      → SearchSettings
      → String
      → EstimateCase
      → Action W EstimateCase
  unfolding measure_loop
  measure_prepared profile prepared workload settings timestamp case w =
      let searched = (w, of_result (start prepared settings)) &> λ search.
      measure_loop int_mul ports (enough prepared settings) prepared workload settings timestamp
        search case in
      let changed = value_error "Probe preparation must preserve the measurement profile" in
      if str_eq (estimate_key digest prepared workload settings)
        (estimate_key digest profile workload settings)
      then searched
      else (w, raised (as_exception changed))

  -- What follows the preparation: an exception of it is recorded.
  abbrev pub after_preparation :
      TrainingProfile
      → SyntheticWorkload
      → SearchSettings
      → String
      → BatchSearch
      → EstimateCase
      → Outcome TrainingProfile
      → Action W EstimateCase
  after_preparation profile workload settings timestamp search case (raised problem) w =
      give_up int_mul ports search workload timestamp problem w
  after_preparation profile workload settings timestamp search case out_of_fuel w = (w, out_of_fuel)
  after_preparation profile workload settings timestamp search case (done prepared) w =
      measure_prepared profile prepared workload settings timestamp case w

  -- `_measure`
  unfoldable pub measure_profile :
      TrainingProfile → SyntheticWorkload → SearchSettings → Action W EstimateCase
  measure_profile profile workload settings w =
      (w, of_result (start profile settings)) &> λ search w₁.
      (ports.now w₁ &> λ timestamp w₂.
      (let case = snapshot search workload timestamp none in
        ports.save case w₂ &> λ _ w₃.
        (let (w₄, prepared) = ports.prepare_profile profile w₃ in
          after_preparation profile workload settings timestamp search case prepared w₄)))

  -- The saved cases that serve a key.
  abbrev pub saved_for : String → EstimateCatalogue → List EstimateCase
  saved_for key catalogue =
      keep
        (λ (case : EstimateCase).
          usable case && str_eq (estimate_key digest case.profile case.workload case.settings) key)
        catalogue.cases

  -- The case of a key: the last that is saved, unless there is none or all are refreshed.
  abbrev pub serve :
      Bool
      → Action W (List EstimateCase)
      → (EstimateCase → Action W (List EstimateCase))
      → Option EstimateCase
      → Action W (List EstimateCase)
  serve refresh fresh cached none w = fresh w
  serve true fresh cached (some case) w = fresh w
  serve false fresh cached (some case) w = cached case w

  -- What is done with the case of a profile, before the other profiles.
  abbrev pub report :
      Action W (List EstimateCase) → Bool → EstimateCase → Action W (List EstimateCase)
  report rest cached case w =
      ports.on_case case cached w &> λ _ w₁. (rest w₁ &> λ cases w₂. (w₂, done (case ∷ cases)))

  -- The loop of `estimate_batches`, with the keys seen so far.
  unfoldable pub estimate_each :
      Bool
      → SyntheticWorkload
      → SearchSettings
      → List String
      → List TrainingProfile
      → Action W (List EstimateCase)
  estimate_each refresh workload settings seen [] w = (w, done [])
  estimate_each refresh workload settings seen (profile ∷ profiles) w =
      let key = estimate_key digest profile workload settings in
      let repeated = estimate_each refresh workload settings seen profiles w in
      let rest = estimate_each refresh workload settings (key ∷ seen) profiles in
      if any (str_eq key) seen
      then repeated
      else (ports.read w &> λ catalogue w₁.
          serve refresh (λ w₂. (measure_profile profile workload settings w₂ &> report rest false))
            (report rest true) (last_of (saved_for key catalogue)) w₁)

  -- `estimate_batches`
  unfoldable pub estimate_batches :
      List TrainingProfile
      → SyntheticWorkload
      → SearchSettings
      → Bool
      → Action W (List EstimateCase)
  unfolding estimate_each
  estimate_batches profiles workload settings refresh w =
      if any (λ profile. not (world_size profile == 1)) profiles
      then (
        w,
        raised (
            as_exception
              (value_error "Batch estimation searches require exactly one GPU per profile")),
      )
      else estimate_each refresh workload settings [] profiles w
