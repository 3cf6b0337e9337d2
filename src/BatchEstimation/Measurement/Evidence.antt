-- ===== src/BatchEstimation/Measurement/Evidence.antt =====
-- The measurement gives the store only cases that pass their own validation.
use clearml_yolo.Base.{
  ℕ, zero, suc, ◌≡◌, refl, not, ◌==◌, inl, inr, Bool, true, false, Option, none, some, List, [],
  ◌∷◌, String, Result, ok, err, if_ind, Option-cases, Option-cases, any, str_eq,
}
use clearml_yolo.BatchEstimation.Model.{
  Float, SyntheticWorkload, TrainingProfile, world_size, SearchSettings, TrialResult,
}
use clearml_yolo.BatchEstimation.Search.{BatchSearch, start, observe}
use clearml_yolo.BatchEstimation.Case.{EstimateCase, verified_evidence}
use clearml_yolo.BatchEstimation.Diagnostics.{Exception, as_exception}
use clearml_yolo.BatchEstimation.Measurement.{
  after_preparation, serve, report, Outcome, done, raised, out_of_fuel, Action, ◌&>◌, of_result,
  snapshot, Ports, enough, give_up, observed, settle, measure_loop, measure_prepared,
  measure_profile, saved_for, last_of, estimate_each, estimate_batches,
}
use clearml_yolo.BatchEstimation.Measurement.Snapshots.{
  verified-snapshot, IsRun, start-IsRun, observe-IsRun, verified-snapshot,
}
use clearml_yolo.BatchEstimation.Reuse.{Payload, estimate_key}

pub bind_keeps {ℓ κ} :
    {W : Type 0} (I : W → Type 0) {A : Type ℓ} {B : Type κ} (r : W × Outcome A) (f : A → Action W B)
    → I r.0
    → ((a : A) (w : W) → r ≡ (w, done a) → I w → I (f a w).0)
    → I (r &> f).0
bind_keeps I (w, done a) f h k = k a w refl h
bind_keeps I (w, raised e) f h k = h
bind_keeps I (w, out_of_fuel) f h k = h

of_result_keeps {ℓ κ} :
    {W : Type 0} (I : W → Type 0) {A : Type ℓ} {B : Type κ} (w : W) (r : Result A)
    (f : A → Action W B)
    → I w
    → ((a : A) → r ≡ ok a → I (f a w).0)
    → I ((w, of_result r) &> f).0
of_result_keeps I w (ok a) f h k = k a refl
of_result_keeps I w (err e) f h k = h

-- What the calls of the ports preserve, a save for the cases that pass their own validation.
pub record Preserves {W : Type 0} (int_mul : ℕ → Float → ℕ) (ports : Ports W) (I : W → Type 0)
    : Type 0 where
  pub run_keeps :
      (profile : TrainingProfile) (workload : SyntheticWorkload) (settings : SearchSettings)
      (batch : ℕ) (w : W)
      → I w
      → I (ports.run profile workload settings batch w).0
  pub read_keeps : (w : W) → I w → I (ports.read w).0
  pub save_keeps :
      (case : EstimateCase) (w : W)
      → verified_evidence int_mul case ≡ ok case
      → I w
      → I (ports.save case w).0
  pub now_keeps : (w : W) → I w → I (ports.now w).0
  pub prepare_keeps :
      (profile : TrainingProfile) (w : W) → I w → I (ports.prepare_profile profile w).0
  pub on_case_keeps :
      (case : EstimateCase) (cached : Bool) (w : W) → I w → I (ports.on_case case cached w).0

module _ {W : Type 0} (int_mul : ℕ → Float → ℕ) (ports : Ports W) (I : W → Type 0)
    (preserves : Preserves int_mul ports I) where
  save_snapshot :
      (s : BatchSearch) (workload : SyntheticWorkload) (timestamp : String)
      (diagnostic : Option String) (w : W)
      → IsRun int_mul s
      → I w
      → I (ports.save (snapshot s workload timestamp diagnostic) w).0
  save_snapshot s workload timestamp diagnostic w run =
      preserves.save_keeps _ w (verified-snapshot int_mul s workload timestamp diagnostic run)

  give_up_keeps :
      (s : BatchSearch) (workload : SyntheticWorkload) (timestamp : String) (problem : Exception)
      (w : W)
      → IsRun int_mul s
      → I w
      → I (give_up int_mul ports s workload timestamp problem w).0
  give_up_keeps s workload timestamp problem w run h =
      bind_keeps I (ports.save _ w) _ (save_snapshot s workload timestamp _ w run h)
        (λ _ _ _ h'. h')

  settle_keeps :
      (go : BatchSearch → EstimateCase → Action W EstimateCase) (workload : SyntheticWorkload)
      (timestamp : String) (s : BatchSearch) (trial : Outcome TrialResult) (w : W)
      → IsRun int_mul s
      → I w
      → ((s' : BatchSearch) (case : EstimateCase) (w : W)
          → IsRun int_mul s'
          → I w
          → I (go s' case w).0)
      → I (settle int_mul ports go workload timestamp s (observed int_mul ports s trial) w).0
  settle_keeps go workload timestamp s (raised problem) w run h k =
      give_up_keeps s workload timestamp problem w run h
  settle_keeps go workload timestamp s out_of_fuel w run h k = h
  settle_keeps go workload timestamp s (done trial) w run h k =
      result_keeps (observe int_mul s trial) refl
    where
      result_keeps :
          (r : Result BatchSearch)
          → observe int_mul s trial ≡ r
          → I (settle int_mul ports go workload timestamp s (of_result r) w).0
      result_keeps (err e) same = give_up_keeps s workload timestamp (as_exception e) w run h
      result_keeps (ok s') same =
          let run' = observe-IsRun int_mul s trial run same in
          bind_keeps I (ports.save _ w) _ (save_snapshot s' workload timestamp none w run' h)
            (λ _ w' _. k s' _ w' run')

  measure_loop_keeps :
      (fuel : ℕ) (profile : TrainingProfile) (workload : SyntheticWorkload)
      (settings : SearchSettings) (timestamp : String) (s : BatchSearch) (case : EstimateCase)
      (w : W)
      → IsRun int_mul s
      → I w
      → I (measure_loop int_mul ports fuel profile workload settings timestamp s case w).0
  unfolding measure_loop
  measure_loop_keeps zero profile workload settings timestamp s case w run h = h
  measure_loop_keeps (suc fuel) profile workload settings timestamp s case w run h =
      elim (Option-cases s.next_batch) [
        | inl last ↦ rw (measure_loop, last) h
        | inr (batch, next) ↦
            rw (measure_loop, next)
              (settle_keeps (measure_loop int_mul ports fuel profile workload settings timestamp)
                workload timestamp s (ports.run profile workload settings batch w).1
                (ports.run profile workload settings batch w).0 run
                (preserves.run_keeps profile workload settings batch w h)
                (λ s' case' w' run'.
                  measure_loop_keeps fuel profile workload settings timestamp s' case' w' run'))
      ]

module _ {W : Type 0} (int_mul : ℕ → Float → ℕ) (digest : Payload → String) (ports : Ports W)
    (I : W → Type 0) (preserves : Preserves int_mul ports I) where
  after_preparation_keeps :
      (profile : TrainingProfile) (workload : SyntheticWorkload) (settings : SearchSettings)
      (timestamp : String) (s : BatchSearch) (case : EstimateCase)
      (prepared : Outcome TrainingProfile) (w : W)
      → IsRun int_mul s
      → I w
      → I
          (after_preparation int_mul digest ports profile workload settings timestamp s case
            prepared w).0
  unfolding measure_prepared
  after_preparation_keeps profile workload settings timestamp s case (raised problem) w run h =
      give_up_keeps int_mul ports I preserves s workload timestamp problem w run h
  after_preparation_keeps profile workload settings timestamp s case out_of_fuel w run h = h
  after_preparation_keeps profile workload settings timestamp s case (done prepared) w run h =
      if_ind (λ (r : W × Outcome EstimateCase). I r.0)
        (str_eq (estimate_key digest prepared workload settings)
          (estimate_key digest profile workload settings))
        (λ _. of_result_keeps I w (start prepared settings) _ h (λ s' e.
          measure_loop_keeps int_mul ports I preserves (enough prepared settings) prepared workload
            settings timestamp s' case w (start-IsRun int_mul prepared settings e) h))
        (λ _. h)

  pub measure_profile_keeps :
      (profile : TrainingProfile) (workload : SyntheticWorkload) (settings : SearchSettings) (w : W)
      → I w
      → I (measure_profile int_mul digest ports profile workload settings w).0
  unfolding measure_profile
  measure_profile_keeps profile workload settings w h =
      of_result_keeps I w (start profile settings) _ h (λ s e.
        let run = start-IsRun int_mul profile settings e in
        bind_keeps I (ports.now w) _ (preserves.now_keeps w h) (λ timestamp w₁ _ h₁.
          bind_keeps I (ports.save _ w₁) _
            (save_snapshot int_mul ports I preserves s workload timestamp none w₁ run h₁)
            (λ _ w₂ _ h₂.
              after_preparation_keeps profile workload settings timestamp s _
                (ports.prepare_profile profile w₂).1 (ports.prepare_profile profile w₂).0 run
                (preserves.prepare_keeps profile w₂ h₂))))

  report_keeps :
      (rest : Action W (List EstimateCase)) (cached : Bool) (case : EstimateCase) (w : W)
      → I w
      → ((w : W) → I w → I (rest w).0)
      → I (report int_mul digest ports rest cached case w).0
  report_keeps rest cached case w h k =
      bind_keeps I (ports.on_case case cached w) _ (preserves.on_case_keeps case cached w h)
        (λ _ w₁ _ h₁. bind_keeps I (rest w₁) _ (k w₁ h₁) (λ _ _ _ h₂. h₂))

  serve_keeps :
      (refresh : Bool) (fresh : Action W (List EstimateCase))
      (cached : EstimateCase → Action W (List EstimateCase)) (o : Option EstimateCase) (w : W)
      → I (fresh w).0
      → ((case : EstimateCase) → I (cached case w).0)
      → I (serve int_mul digest ports refresh fresh cached o w).0
  serve_keeps refresh fresh cached none w h k = h
  serve_keeps true fresh cached (some case) w h k = h
  serve_keeps false fresh cached (some case) w h k = k case

  estimate_each_keeps :
      (refresh : Bool) (workload : SyntheticWorkload) (settings : SearchSettings)
      (seen : List String) (profiles : List TrainingProfile) (w : W)
      → I w
      → I (estimate_each int_mul digest ports refresh workload settings seen profiles w).0
  unfolding estimate_each
  estimate_each_keeps refresh workload settings seen [] w h = h
  estimate_each_keeps refresh workload settings seen (profile ∷ profiles) w h =
      let key = estimate_key digest profile workload settings in
      let rest = estimate_each_keeps refresh workload settings (key ∷ seen) profiles in
      if_ind (λ (r : W × Outcome (List EstimateCase)). I r.0) (any (str_eq key) seen)
        (λ _. estimate_each_keeps refresh workload settings seen profiles w h)
        (λ _. bind_keeps I (ports.read w) _ (preserves.read_keeps w h) (λ catalogue w₁ _ h₁.
          serve_keeps refresh _ _ (last_of (saved_for int_mul digest ports key catalogue)) w₁
            (bind_keeps I (measure_profile int_mul digest ports profile workload settings w₁) _
              (measure_profile_keeps profile workload settings w₁ h₁)
              (λ case w₂ _ h₂. report_keeps _ false case w₂ h₂ rest))
            (λ case. report_keeps _ true case w₁ h₁ rest)))

  -- Whatever the calls of the ports preserve, where a save has to preserve it only for a case that
  -- passes its own validation, holds after an estimation of any profiles if it held before.
  pub estimate_batches_keeps :
      (profiles : List TrainingProfile) (workload : SyntheticWorkload) (settings : SearchSettings)
      (refresh : Bool) (w : W)
      → I w
      → I (estimate_batches int_mul digest ports profiles workload settings refresh w).0
  unfolding estimate_batches
  estimate_batches_keeps profiles workload settings refresh w h =
      if_ind (λ (r : W × Outcome (List EstimateCase)). I r.0)
        (any (λ (profile : TrainingProfile). not (world_size profile == 1)) profiles) (λ _. h)
        (λ _. estimate_each_keeps refresh workload settings [] profiles w h)
