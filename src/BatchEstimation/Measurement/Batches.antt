-- ===== src/BatchEstimation/Measurement/Batches.antt =====
-- `_measure` and `estimate_batches` end if the calls of their ports do.
use clearml_yolo.Base.{
  ℕ, ◌<◌, ◌≡◌, refl, not, ◌==◌, Bool, true, false, Option, none, some, List, [], ◌∷◌, String,
  if_ind, any, str_eq,
}
use clearml_yolo.BatchEstimation.Model.{
  Float, SyntheticWorkload, TrainingProfile, world_size, SearchSettings,
}
use clearml_yolo.BatchEstimation.Search.{BatchSearch, start}
use clearml_yolo.BatchEstimation.Search.Outcome.{start-IsSound}
use clearml_yolo.BatchEstimation.Case.{EstimateCase}
use clearml_yolo.BatchEstimation.Measurement.{
  after_preparation, serve, report, Outcome, done, raised, out_of_fuel, Action, Ports, enough,
  measure_prepared, measure_profile, saved_for, last_of, estimate_each, estimate_batches,
}
use clearml_yolo.BatchEstimation.Measurement.Progress.{
  start-rounds, Ends, bind-Ends, of_result-Ends, IsLive, give_up-Ends, measure_loop-Ends,
}
use clearml_yolo.BatchEstimation.Reuse.{Payload, estimate_key}

module _ {W : Type 0} (int_mul : ℕ → Float → ℕ) (digest : Payload → String) (ports : Ports W)
    (live : IsLive ports) where
  measure_prepared-Ends :
      (profile prepared : TrainingProfile) (workload : SyntheticWorkload)
      (settings : SearchSettings) (timestamp : String) (case : EstimateCase) (w : W)
      → 0 < world_size prepared
      → Ends
          (measure_prepared int_mul digest ports profile prepared workload settings timestamp case
            w).1
  unfolding measure_prepared
  measure_prepared-Ends profile prepared workload settings timestamp case w rank =
      if_ind (λ (r : W × Outcome EstimateCase). Ends r.1)
        (str_eq (estimate_key digest prepared workload settings)
          (estimate_key digest profile workload settings))
        (λ _. of_result-Ends w (start prepared settings) _ (λ s e.
          measure_loop-Ends int_mul ports live (enough prepared settings) prepared workload settings
            timestamp s case w (start-IsSound int_mul prepared settings rank e)
            (start-rounds int_mul prepared settings e)))
        (λ _. tt)

  -- What follows the preparation ends.
  prepared-Ends :
      (profile : TrainingProfile) (workload : SyntheticWorkload) (settings : SearchSettings)
      (timestamp : String) (s : BatchSearch) (case : EstimateCase) (r : W × Outcome TrainingProfile)
      → Ends r.1
      → ((w : W) (prepared : TrainingProfile) → r ≡ (w, done prepared) → 0 < world_size prepared)
      → Ends
          (after_preparation int_mul digest ports profile workload settings timestamp s case r.1
            r.0).1
  prepared-Ends profile workload settings timestamp s case (w, done ready) h k =
      measure_prepared-Ends profile ready workload settings timestamp case w (k w ready refl)
  prepared-Ends profile workload settings timestamp s case (w, raised problem) h k =
      give_up-Ends int_mul ports live s workload timestamp problem w
  prepared-Ends profile workload settings timestamp s case (w, out_of_fuel) h k = h

  measure_profile-Ends :
      (profile : TrainingProfile) (workload : SyntheticWorkload) (settings : SearchSettings) (w : W)
      → Ends (measure_profile int_mul digest ports profile workload settings w).1
  unfolding measure_profile
  measure_profile-Ends profile workload settings w =
      of_result-Ends w (start profile settings) _ (λ s _.
        bind-Ends (ports.now w) _ (live.now_ends w) (λ timestamp w₁ _.
          bind-Ends (ports.save _ w₁) _ (live.save_ends _ w₁) (λ _ w₂ _.
            prepared-Ends profile workload settings timestamp s _ (ports.prepare_profile profile w₂)
              (live.prepare_ends profile w₂)
              (λ w' prepared. live.prepared_gpu profile prepared w₂ w'))))

  report-Ends :
      (rest : Action W (List EstimateCase)) (cached : Bool) (case : EstimateCase) (w : W)
      → ((w : W) → Ends (rest w).1)
      → Ends (report int_mul digest ports rest cached case w).1
  report-Ends rest cached case w h =
      bind-Ends (ports.on_case case cached w) _ (live.on_case_ends case cached w)
        (λ _ w₁ _. bind-Ends (rest w₁) _ (h w₁) (λ _ _ _. tt))

  serve-Ends :
      (refresh : Bool) (fresh : Action W (List EstimateCase))
      (cached : EstimateCase → Action W (List EstimateCase)) (o : Option EstimateCase) (w : W)
      → Ends (fresh w).1
      → ((case : EstimateCase) → Ends (cached case w).1)
      → Ends (serve int_mul digest ports refresh fresh cached o w).1
  serve-Ends refresh fresh cached none w h k = h
  serve-Ends true fresh cached (some case) w h k = h
  serve-Ends false fresh cached (some case) w h k = k case

  estimate_each-Ends :
      (refresh : Bool) (workload : SyntheticWorkload) (settings : SearchSettings)
      (seen : List String) (profiles : List TrainingProfile) (w : W)
      → Ends (estimate_each int_mul digest ports refresh workload settings seen profiles w).1
  unfolding estimate_each
  estimate_each-Ends refresh workload settings seen [] w = tt
  estimate_each-Ends refresh workload settings seen (profile ∷ profiles) w =
      let key = estimate_key digest profile workload settings in
      let rest = estimate_each-Ends refresh workload settings (key ∷ seen) profiles in
      if_ind (λ (r : W × Outcome (List EstimateCase)). Ends r.1) (any (str_eq key) seen)
        (λ _. estimate_each-Ends refresh workload settings seen profiles w)
        (λ _. bind-Ends (ports.read w) _ (live.read_ends w) (λ catalogue w₁ _.
          serve-Ends refresh _ _ (last_of (saved_for int_mul digest ports key catalogue)) w₁
            (bind-Ends (measure_profile int_mul digest ports profile workload settings w₁) _
              (measure_profile-Ends profile workload settings w₁)
              (λ case w₂ _. report-Ends _ false case w₂ rest))
            (λ case. report-Ends _ true case w₁ rest)))

  -- If the calls of the ports end and a prepared profile has a GPU, the estimation of any profiles
  -- ends within the fuel of its searches.
  pub estimate_batches-Ends :
      (profiles : List TrainingProfile) (workload : SyntheticWorkload) (settings : SearchSettings)
      (refresh : Bool) (w : W)
      → Ends (estimate_batches int_mul digest ports profiles workload settings refresh w).1
  unfolding estimate_batches
  estimate_batches-Ends profiles workload settings refresh w =
      if_ind (λ (r : W × Outcome (List EstimateCase)). Ends r.1)
        (any (λ (profile : TrainingProfile). not (world_size profile == 1)) profiles) (λ _. tt)
        (λ _. estimate_each-Ends refresh workload settings [] profiles w)
