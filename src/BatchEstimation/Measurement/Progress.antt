-- ===== src/BatchEstimation/Measurement/Progress.antt =====
-- The loop of `_measure` ends within its fuel, and saves and returns only cases that pass their own
-- validation.
use mathlib.Core.Path.{subst}
use clearml_yolo.Base.{
  ℕ, zero, suc, ◌+◌, ◌≤◌, ◌<◌, ◌≡◌, refl, sym, ◌≢◌, ◌⊎◌, inl, inr, Bool, none, some, String, Result,
  ok, err, arith, if_ind, Option-cases, Option-cases,
}
use clearml_yolo.BatchEstimation.Model.{
  Float, SearchStatus, searching, SyntheticWorkload, TrainingProfile, world_size, SearchSettings,
  TrialResult,
}
use clearml_yolo.BatchEstimation.Search.{BatchSearch, start, observe}
use clearml_yolo.BatchEstimation.Search.Progress.{measure, observe-Progresses}
use clearml_yolo.BatchEstimation.Search.Outcome.{accepted_pending, IsSound, observe-IsSound}
use clearml_yolo.BatchEstimation.Search.Invariant.{IsValid}
use clearml_yolo.BatchEstimation.Search.History.{started}
use clearml_yolo.BatchEstimation.Case.{EstimateCase}
use clearml_yolo.BatchEstimation.Diagnostics.{Exception, as_exception}
use clearml_yolo.BatchEstimation.Measurement.{
  settle, Outcome, done, raised, out_of_fuel, Action, ◌&>◌, of_result, Ports, enough, give_up,
  observed, measure_loop,
}

abbrev pub Ends {ℓ} : {A : Type ℓ} → Outcome A → Type 0
Ends out_of_fuel = ⊥
Ends _ = Unit

-- An observation makes the remaining number of rounds smaller.
abbrev pub rounds : BatchSearch → ℕ
rounds s = elim s.next_batch [ none ↦ 1 | some _ ↦ 1 + measure s ]

rounds-none : (s : BatchSearch) → s.next_batch ≡ none → rounds s ≡ 1
rounds-none s h = ground arith

rounds-some : (s : BatchSearch) {batch : ℕ} → s.next_batch ≡ some batch → rounds s ≡ 1 + measure s
rounds-some s h = ground arith

rounds_pos : (s : BatchSearch) → 0 < rounds s
rounds_pos s = ground arith

measure_pos : (s : BatchSearch) → 0 < measure s
measure_pos s = if_ind (λ n. 0 < n) s.confirming (λ _. omega arith) (λ _. omega arith)

searching_or : (status : SearchStatus) → (status ≡ searching) ⊎ (status ≢ searching)
searching_or status = ground arith

-- A well-formed search with a pending batch goes on.
still_searching :
    (s : BatchSearch) {batch : ℕ} → IsValid s → s.next_batch ≡ some batch → s.status ≡ searching
still_searching s v h = elim (searching_or s.status) [
  | inl active ↦ active
  | inr ended ↦ cc (v.finished ended, h)
]

module _ (int_mul : ℕ → Float → ℕ) where
  observe-rounds :
      (s : BatchSearch) (trial : TrialResult) {s' : BatchSearch}
      → IsSound int_mul s
      → observe int_mul s trial ≡ ok s'
      → rounds s' < rounds s
  observe-rounds s trial {s'} sound e =
      let (active, next, fresh) = accepted_pending int_mul s trial e in
      let (t, e', valid, less) = observe-Progresses int_mul s trial sound.0 active next fresh in
      let same : t ≡ s' = cc in
      let more : 0 < measure s = measure_pos s in
      let bound = rounds-some s next in
      subst (λ x. rounds x < rounds s) same
        (elim (Option-cases t.next_batch) [
          | inl none_left ↦ omega (arith, rounds-none t none_left, bound, more)
          | inr (batch, left) ↦
              omega (arith, rounds-some t left, bound, less (still_searching t valid left))
        ])

  pub start-rounds :
      (profile : TrainingProfile) (settings : SearchSettings) {s : BatchSearch}
      → start profile settings ≡ ok s
      → rounds s ≤ enough profile settings
  start-rounds profile settings e =
      subst (λ (s : BatchSearch). rounds s ≤ enough profile settings)
        (sym (started int_mul profile settings e)) (omega arith)

pub bind-Ends {ℓ κ} :
    {W : Type 0} {A : Type ℓ} {B : Type κ} (r : W × Outcome A) (f : A → Action W B)
    → Ends r.1
    → ((a : A) (w : W) → r ≡ (w, done a) → Ends (f a w).1)
    → Ends (r &> f).1
bind-Ends (w, done a) f h k = k a w refl
bind-Ends (w, raised e) f h k = tt
bind-Ends (w, out_of_fuel) f h k = h

pub of_result-Ends {ℓ κ} :
    {W : Type 0} {A : Type ℓ} {B : Type κ} (w : W) (r : Result A) (f : A → Action W B)
    → ((a : A) → r ≡ ok a → Ends (f a w).1)
    → Ends ((w, of_result r) &> f).1
of_result-Ends w (ok a) f k = k a refl
of_result-Ends w (err e) f k = tt

-- The calls of the ports end, and a prepared profile has a GPU.
pub record IsLive {W : Type 0} (ports : Ports W) : Type 0 where
  pub run_ends :
      (profile : TrainingProfile) (workload : SyntheticWorkload) (settings : SearchSettings)
      (batch : ℕ) (w : W)
      → Ends (ports.run profile workload settings batch w).1
  pub read_ends : (w : W) → Ends (ports.read w).1
  pub save_ends : (case : EstimateCase) (w : W) → Ends (ports.save case w).1
  pub now_ends : (w : W) → Ends (ports.now w).1
  pub prepare_ends : (profile : TrainingProfile) (w : W) → Ends (ports.prepare_profile profile w).1
  pub on_case_ends :
      (case : EstimateCase) (cached : Bool) (w : W) → Ends (ports.on_case case cached w).1
  pub prepared_gpu :
      (profile prepared : TrainingProfile) (w w' : W)
      → ports.prepare_profile profile w ≡ (w', done prepared)
      → 0 < world_size prepared

module _ {W : Type 0} (int_mul : ℕ → Float → ℕ) (ports : Ports W) (live : IsLive ports) where
  pub give_up-Ends :
      (s : BatchSearch) (workload : SyntheticWorkload) (timestamp : String) (problem : Exception)
      (w : W)
      → Ends (give_up int_mul ports s workload timestamp problem w).1
  give_up-Ends s workload timestamp problem w =
      bind-Ends (ports.save _ w) _ (live.save_ends _ w) (λ _ _ _. tt)

  -- A round ends if what follows the snapshot does.
  settle-Ends :
      (go : BatchSearch → EstimateCase → Action W EstimateCase) (workload : SyntheticWorkload)
      (timestamp : String) (s : BatchSearch) (trial : Outcome TrialResult) (w : W)
      → Ends trial
      → ((trial : TrialResult) (s' : BatchSearch) (case : EstimateCase) (w : W)
          → observe int_mul s trial ≡ ok s'
          → Ends (go s' case w).1)
      → Ends (settle int_mul ports go workload timestamp s (observed int_mul ports s trial) w).1
  settle-Ends go workload timestamp s (raised problem) w h k =
      give_up-Ends s workload timestamp problem w
  settle-Ends go workload timestamp s out_of_fuel w h k = h
  settle-Ends go workload timestamp s (done trial) w h k =
      result_ends (observe int_mul s trial) refl
    where
      result_ends :
          (r : Result BatchSearch)
          → observe int_mul s trial ≡ r
          → Ends (settle int_mul ports go workload timestamp s (of_result r) w).1
      result_ends (err e) same = give_up-Ends s workload timestamp (as_exception e) w
      result_ends (ok s') same =
          bind-Ends (ports.save _ w) _ (live.save_ends _ w) (λ _ w' _. k trial s' _ w' same)

  pub measure_loop-Ends :
      (fuel : ℕ) (profile : TrainingProfile) (workload : SyntheticWorkload)
      (settings : SearchSettings) (timestamp : String) (s : BatchSearch) (case : EstimateCase)
      (w : W)
      → IsSound int_mul s
      → rounds s ≤ fuel
      → Ends (measure_loop int_mul ports fuel profile workload settings timestamp s case w).1
  unfolding measure_loop
  measure_loop-Ends zero profile workload settings timestamp s case w sound h =
      omega (arith, h, rounds_pos s)
  measure_loop-Ends (suc fuel) profile workload settings timestamp s case w sound h =
      elim (Option-cases s.next_batch) [
        | inl last ↦ rw (measure_loop, last) tt
        | inr (batch, next) ↦
            rw (measure_loop, next)
              (settle-Ends (measure_loop int_mul ports fuel profile workload settings timestamp)
                workload timestamp s (ports.run profile workload settings batch w).1
                (ports.run profile workload settings batch w).0
                (live.run_ends profile workload settings batch w)
                (λ trial s' case' w' e.
                  measure_loop-Ends fuel profile workload settings timestamp s' case' w'
                    (observe-IsSound int_mul s trial sound e)
                    (omega (arith, h, observe-rounds int_mul s trial sound e))))
      ]
