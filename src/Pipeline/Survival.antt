-- ===== src/Pipeline/Survival.antt =====
-- The stages after a training that succeeded: whatever fails in them, the run goes on.
use clearml_yolo.Base.{
  ◌≡◌, refl, sym, inl, inr, true, false, some, List, [], ◌∷◌, String, str_eq, eq_iff, All, All-map,
  Bool-cases, if_ind, arith, if◌then◌else◌,
}
use mathlib.Core.Path.{subst}
use clearml_yolo.PipelineOutcome.{failed, skipped, StageOutcome, PipelineOutcome, summary}
use clearml_yolo.Pipeline.{
  Failure, exception, interruption, Call, done, raised, StageMap, put, stage_at, Effect, Stages,
  Action, ◌&>◌, lifted, lift, set_stage, plain, StagePorts, persistence_failure, tolerate, persist,
  skip, log_failure, after_failure, after_operation, run, status_succeeded, has_succeeded,
}

-- The call gives a value, and the predicate holds of it and of the state.
abbrev pub Ensures {ℓ} :
    {W : Type 0} {A : Type ℓ} → (A → Stages W → Type 0) → Stages W × Call A → Type 0
Ensures P (s, done a) = P a s
Ensures P (s, raised _) = ⊥

pub Ensures-bind {ℓ κ} :
    {W : Type 0} {A : Type ℓ} {B : Type κ} (P : A → Stages W → Type 0) (Q : B → Stages W → Type 0)
    (r : Stages W × Call A) (f : A → Action W B)
    → Ensures P r
    → ((a : A) (s : Stages W) → P a s → Ensures Q (f a s))
    → Ensures Q (r &> f)
Ensures-bind P Q (s, done a) f h k = k a s h
Ensures-bind P Q (s, raised _) f h k = absurd h

-- What is no interruption: a value, or an exception.
abbrev pub IsOrdinary {ℓ} : {A : Type ℓ} → Call A → Type 0
IsOrdinary (done _) = Unit
IsOrdinary (raised (exception _ _)) = Unit
IsOrdinary (raised (interruption _ _)) = ⊥

abbrev pub IsDone {ℓ} : {A : Type ℓ} → Call A → Type 0
IsDone (done _) = Unit
IsDone (raised _) = ⊥

-- The ports of the stages fail only by exceptions, and the log does not fail.
pub record IsQuiet {W : Type 0} (ports : StagePorts W) : Type 0 where
  pub records :
      (outcome : PipelineOutcome) (w : W) → IsOrdinary (ports.record_pipeline_outcome outcome w).1
  pub writes_json : (outcome : PipelineOutcome) (w : W) → IsOrdinary (ports.write_json outcome w).1
  pub writes_text : (text : String) (w : W) → IsOrdinary (ports.write_text text w).1
  pub logs_exception :
      (text : String) (problem : Failure) (w : W) → IsDone (ports.log_exception text problem w).1
  pub logs : (text message : String) (w : W) → IsDone (ports.log text message w).1

pub stage_at-put :
    (key name : String) (stage : StageOutcome) (stages : StageMap)
    → stage_at key (put name stage stages)
      ≡ (if str_eq name key then some stage else stage_at key stages)
stage_at-put key name stage [] = refl
stage_at-put key name stage ((other, old) ∷ stages) = ground (
  arith,
  eq_iff name key,
  eq_iff other key,
  eq_iff other name,
  stage_at-put key name stage stages,
)

-- The stage has an outcome.
abbrev pub HasStage : StageMap → String → Type 0
HasStage stages name = (stage : StageOutcome) × (stage_at name stages ≡ some stage)

HasStage-put :
    (key name : String) (stage : StageOutcome) (stages : StageMap)
    → HasStage stages key
    → HasStage (put name stage stages) key
HasStage-put key name stage stages (old, e) = elim (Bool-cases (str_eq name key)) [
  | inl same ↦ (stage, ground (arith, stage_at-put key name stage stages))
  | inr other ↦ (old, ground (arith, stage_at-put key name stage stages))
]

HasStage-put_self :
    (name : String) (stage : StageOutcome) (stages : StageMap)
    → HasStage (put name stage stages) name
HasStage-put_self name stage stages =
    (stage, ground (arith, eq_iff name name, stage_at-put name name stage stages))

-- The training has succeeded and stays recorded, nothing was fatal, and the named stages have outcomes.
pub record Holds (first : StageOutcome) (names : List String) (outcome : PipelineOutcome)
    : Type 0 where
  pub trained : outcome.training_succeeded ≡ true
  pub whole : outcome.fatal_error ≡ false
  pub kept : stage_at "training" outcome.stages ≡ some first
  pub present : All (HasStage outcome.stages) names

module _ {W : Type 0} (ports : StagePorts W) (first : StageOutcome) where
  -- The invariant of a state.
  abbrev pub Kept : List String → {A : Type 0} → A → Stages W → Type 0
  Kept names _ s = Holds first names s.outcome

  pub Holds-set :
      (names : List String) (name : String) (stage : StageOutcome) (s : Stages W)
      → str_eq name "training" ≡ false
      → Holds first names s.outcome
      → Holds first (name ∷ names) (set_stage name stage s).outcome
  Holds-set names name stage s differs h = record {
    trained = h.trained;
    whole = h.whole;
    kept = ground (arith, stage_at-put "training" name stage s.outcome.stages, h.kept);
    present = (
      HasStage-put_self name stage s.outcome.stages,
      All-map (λ key. HasStage-put key name stage s.outcome.stages) names h.present,
    );
  }

  -- Fewer stages.
  pub Holds-tail :
      (names : List String) (name : String) (outcome : PipelineOutcome)
      → Holds first (name ∷ names) outcome
      → Holds first names outcome
  Holds-tail names name outcome h = record {
    trained = h.trained;
    whole = h.whole;
    kept = h.kept;
    present = h.present.1;
  }

  module _ (quiet : IsQuiet ports) where
    pub lifted-Kept :
        {A : Type 0} (names : List String) (s : Stages W) (r : W × Call A)
        → IsDone r.1
        → Holds first names s.outcome
        → Ensures (Kept names) (lifted s r)
    lifted-Kept names s (w, done a) d h = h
    lifted-Kept names s (w, raised _) d h = d

    tolerate-Kept :
        (names : List String) (stage : String) (s : Stages W) (c : Call (Unit {0}))
        → str_eq stage "training" ≡ false
        → IsOrdinary c
        → Holds first names s.outcome
        → Ensures (Kept names) (tolerate ports stage (s, c))
    tolerate-Kept names stage s (done tt) differs o h = h
    tolerate-Kept names stage s (raised (interruption _ _)) differs o h = o
    tolerate-Kept names stage s (raised (exception name text)) differs o h =
        subst
          (λ b. Ensures (Kept names) (
            if b
            then persistence_failure ports stage (exception name text) text s
            else (s, raised (exception name text))))
          (sym h.trained)
          (lifted-Kept names (set_stage stage (plain failed (some (ports.redact_text text))) s)
            (ports.log_exception "Pipeline outcome persistence failed" (exception name text)
              s.world)
            (quiet.logs_exception "Pipeline outcome persistence failed" (exception name text)
              s.world)
            (Holds-tail names stage _ (Holds-set names stage _ s differs h)))

    -- No interruption, and the invariant of the state.
    abbrev Survives : {A : Type 0} → List String → Stages W × Call A → Type 0
    Survives names r = IsOrdinary r.1 × Holds first names r.0.outcome

    Survives-bind :
        {A B : Type 0} (names : List String) (r : Stages W × Call A) (f : A → Action W B)
        → Survives names r
        → ((a : A) (s : Stages W) → Holds first names s.outcome → Survives names (f a s))
        → Survives names (r &> f)
    Survives-bind names (s, done a) f h k = k a s h.1
    Survives-bind names (s, raised (exception _ _)) f h k = h
    Survives-bind names (s, raised (interruption _ _)) f h k = h

    tolerate-Survives :
        (names : List String) (stage : String) (r : Stages W × Call (Unit {0}))
        → str_eq stage "training" ≡ false
        → Survives names r
        → Ensures (Kept names) (tolerate ports stage r)
    tolerate-Survives names stage (s, c) differs h = tolerate-Kept names stage s c differs h.0 h.1

    pub persist-Kept :
        (names : List String) (s : Stages W)
        → Holds first names s.outcome
        → Ensures (Kept names) (persist ports s)
    unfolding persist
    persist-Kept names s h =
        Ensures-bind (Kept names) (Kept names) _ _
          (tolerate-Survives names "outcome_publication"
            (lift (ports.record_pipeline_outcome s.outcome) s) refl
            (quiet.records s.outcome s.world, h))
          (λ _ s h.
            tolerate-Survives names "outcome_storage"
              (lift (ports.write_json s.outcome) s &> λ _ s.
                lift (ports.write_text (summary s.outcome)) s)
              refl
              (Survives-bind names (lift (ports.write_json s.outcome) s) _
                (quiet.writes_json s.outcome s.world, h)
                (λ _ s h. (quiet.writes_text (summary s.outcome) s.world, h))))

    pub skip-Kept :
        (names : List String) (name reason : String) (s : Stages W)
        → str_eq name "training" ≡ false
        → Holds first names s.outcome
        → Ensures (Kept (name ∷ names)) (skip ports name reason s)
    unfolding skip
    skip-Kept names name reason s differs h =
        persist-Kept (name ∷ names) (set_stage name (plain skipped (some reason)) s)
          (Holds-set names name _ s differs h)

    log_failure-Kept :
        (names : List String) (text : String) (r : Stages W × Call (Unit {0}))
        → Ensures (Kept names) r
        → Ensures (Kept names) (log_failure ports text r)
    log_failure-Kept names text (s, done tt) h = h
    log_failure-Kept names text (s, raised _) h = absurd h

    after_failure-Kept :
        (A : Type 0) (names : List String) (problem : Failure) (s : Stages W)
        → Holds first names s.outcome
        → Ensures (Kept names) (after_failure ports {A = A} problem s)
    after_failure-Kept A names problem s h =
        if_ind (Ensures (Kept names)) s.outcome.training_succeeded
          (λ _.
            Ensures-bind (Kept names) (Kept names) _ _
              (lifted-Kept names s
                (ports.log_exception "Pipeline stage failed; successful training retained" problem
                  s.world)
                (quiet.logs_exception "Pipeline stage failed; successful training retained" problem
                  s.world)
                h)
              (λ _ _ h. h))
          (λ lost. cc (h.trained, lost))

    after_operation-Kept :
        {A : Type 0} (names : List String) (name : String) (s : Stages W) (c : Call A)
        → str_eq name "training" ≡ false
        → IsOrdinary c
        → Holds first names s.outcome
        → Ensures (Kept (name ∷ names)) (after_operation ports name (s, c))
    unfolding after_operation
    after_operation-Kept names name s (done a) differs o h =
        Ensures-bind (Kept (name ∷ names)) (Kept (name ∷ names)) _ _
          (persist-Kept (name ∷ names) _ (Holds-set names name _ s differs h)) (λ _ _ h. h)
    after_operation-Kept names name s (raised (interruption _ _)) differs o h = absurd o
    after_operation-Kept {A} names name s (raised (exception class text)) differs o h =
        Ensures-bind (Kept (name ∷ names)) (Kept (name ∷ names)) _ _
          (log_failure-Kept (name ∷ names) _ _
            (persist-Kept (name ∷ names) _ (Holds-set names name _ s differs h)))
          (λ _ s h. after_failure-Kept A (name ∷ names) (exception class text) s h)

    pub run-Kept :
        {A : Type 0} (names : List String) (name : String) (operation : Effect W A) (s : Stages W)
        → str_eq name "training" ≡ false
        → ((w : W) → IsOrdinary (operation w).1)
        → Holds first names s.outcome
        → Ensures (Kept (name ∷ names)) (run ports name operation s)
    unfolding run
    run-Kept names name operation s differs ordinary h =
        after_operation-Kept names name (record s { world = (operation s.world).0 })
          (operation s.world).1 differs (ordinary s.world) h

    pub has_succeeded-Kept :
        (names : List String) (name : String) (s : Stages W)
        → HasStage s.outcome.stages name
        → Holds first names s.outcome
        → Ensures (Kept names) (has_succeeded ports name s)
    unfolding has_succeeded
    has_succeeded-Kept names name s (stage, e) h =
        subst (λ o. Ensures (Kept names) (s, status_succeeded ports name o)) (sym e) h
