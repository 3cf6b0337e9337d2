-- ===== src/Pipeline/Frame.antt =====
-- What a stage changes in the outcomes: its own entry, and the entries of a failed persistence.
use clearml_yolo.Base.{
  ◌≡◌, refl, ◌∙◌, false, Option, none, some, String, ◌<>◌, str_eq, eq_iff, arith, if_ind,
}
use clearml_yolo.PipelineOutcome.{succeeded, failed, skipped, StageOutcome, summary}
use clearml_yolo.Pipeline.{
  Failure, exception, interruption, Call, done, raised, StageMap, put, stage_at, Effect, Stages,
  Action, ◌&>◌, lift, set_stage, set_fatal, plain, StagePorts, tolerate, persist, skip, log_failure,
  after_failure, after_operation, run, finish,
}
use clearml_yolo.Pipeline.Survival.{stage_at-put}

-- What holds of the value and of the state, if the call gives a value.
abbrev pub IfDone {ℓ} :
    {W : Type 0} {A : Type ℓ} → (A → Stages W → Type 0) → Stages W × Call A → Type 0
IfDone P (s, done a) = P a s
IfDone P (s, raised _) = Unit

pub IfDone-bind {ℓ κ} :
    {W : Type 0} {A : Type ℓ} {B : Type κ} (P : A → Stages W → Type 0) (Q : B → Stages W → Type 0)
    (r : Stages W × Call A) (f : A → Action W B)
    → IfDone P r
    → ((a : A) (s : Stages W) → P a s → IfDone Q (f a s))
    → IfDone Q (r &> f)
IfDone-bind P Q (s, done a) f h k = k a s h
IfDone-bind P Q (s, raised _) f h k = tt

pub IfDone-map :
    {W A : Type 0} (P Q : A → Stages W → Type 0) (r : Stages W × Call A)
    → ((a : A) (s : Stages W) → P a s → Q a s)
    → IfDone P r
    → IfDone Q r
IfDone-map P Q (s, done a) f h = f a s h
IfDone-map P Q (s, raised _) f h = tt

-- A key that the persistence of the outcome does not write.
abbrev pub IsOwn : String → Type 0
IsOwn key = (str_eq "outcome_publication" key ≡ false) × (str_eq "outcome_storage" key ≡ false)

-- The outcomes at the keys of stages other than `name` are the same.
abbrev pub SameBut : String → StageMap → StageMap → Type 0
SameBut name before after =
    (key : String) → str_eq name key ≡ false → IsOwn key → stage_at key after ≡ stage_at key before

-- The outcomes of all stages are the same.
abbrev pub Same : StageMap → StageMap → Type 0
Same before after = (key : String) → IsOwn key → stage_at key after ≡ stage_at key before

pub put-SameBut :
    (name : String) (stage : StageOutcome) (stages : StageMap)
    → SameBut name stages (put name stage stages)
put-SameBut name stage stages key differs own = ground (arith, stage_at-put key name stage stages)

pub put_at :
    (name : String) (stage : StageOutcome) (stages : StageMap)
    → stage_at name (put name stage stages) ≡ some stage
put_at name stage stages = ground (arith, eq_iff name name, stage_at-put name name stage stages)

-- What holds of the state, whatever the call gives.
abbrev pub Always {ℓ} : {W : Type 0} {A : Type ℓ} → (Stages W → Type 0) → Stages W × Call A → Type 0
Always P r = P r.0

Always-bind {ℓ κ} :
    {W : Type 0} {A : Type ℓ} {B : Type κ} (P : Stages W → Type 0) (r : Stages W × Call A)
    (f : A → Action W B)
    → Always P r
    → ((a : A) (s : Stages W) → P s → Always P (f a s))
    → Always P (r &> f)
Always-bind P (s, done a) f h k = k a s h
Always-bind P (s, raised _) f h k = h

pub IfDone-Always :
    {W A : Type 0} (P : Stages W → Type 0) (r : Stages W × Call A)
    → Always P r
    → IfDone (λ _ s. P s) r
IfDone-Always P (s, done a) h = h
IfDone-Always P (s, raised _) h = tt

-- The entry at the name, those at the other names being the same.
abbrev pub Entered : {W : Type 0} → String → StageOutcome → StageMap → Stages W → Type 0
Entered name stage before s =
    SameBut name before s.outcome.stages × (stage_at name s.outcome.stages ≡ some stage)

-- What `run` gives tells whether the stage succeeded.
abbrev pub Ran : {W A : Type 0} → String → StageMap → Option A → Stages W → Type 0
Ran name before (some _) s = Entered name (plain succeeded none) before s
Ran name before none s = (reason : Option String) × Entered name (plain failed reason) before s

module _ {W : Type 0} (ports : StagePorts W) where
  -- The outcomes of the stages are those before.
  abbrev Keeps : StageMap → Stages W → Type 0
  Keeps before s = Same before s.outcome.stages

  tolerate-Keeps :
      (before : StageMap) (name : String) (r : Stages W × Call (Unit {0}))
      → ((key : String) → IsOwn key → str_eq name key ≡ false)
      → Always (Keeps before) r
      → Always (Keeps before) (tolerate ports name r)
  tolerate-Keeps before name (s, done tt) apart h = h
  tolerate-Keeps before name (s, raised (interruption _ _)) apart h = h
  tolerate-Keeps before name (s, raised (exception class text)) apart h =
      if_ind (Always (Keeps before)) s.outcome.training_succeeded
        (λ _ key own.
          put-SameBut name (plain failed (some (ports.redact_text text))) s.outcome.stages key
            (apart key own) own
          ∙ h key own)
        (λ _. h)

  persist-Keeps :
      (before : StageMap) (s : Stages W) → Keeps before s → Always (Keeps before) (persist ports s)
  unfolding persist
  persist-Keeps before s h =
      Always-bind (Keeps before)
        (tolerate ports "outcome_publication" (lift (ports.record_pipeline_outcome s.outcome) s))
        (λ _ s. tolerate ports "outcome_storage" (
          lift (ports.write_json s.outcome) s &> λ _ s.
          lift (ports.write_text (summary s.outcome)) s))
        (tolerate-Keeps before "outcome_publication"
          (lift (ports.record_pipeline_outcome s.outcome) s) (λ key own. own.0) h)
        (λ _ s h.
          tolerate-Keeps before "outcome_storage"
            (lift (ports.write_json s.outcome) s &> λ _ s.
              lift (ports.write_text (summary s.outcome)) s)
            (λ key own. own.1)
            (Always-bind (Keeps before) (lift (ports.write_json s.outcome) s)
              (λ _ s'. lift (ports.write_text (summary s'.outcome)) s') h (λ _ _ h. h)))

  -- A stage is set and the outcome persisted.
  persist_set-Entered :
      (name : String) (stage : StageOutcome) (s : Stages W)
      → IsOwn name
      → Always (Entered name stage s.outcome.stages) (persist ports (set_stage name stage s))
  persist_set-Entered name stage s own =
      let h =
        persist-Keeps (put name stage s.outcome.stages) (set_stage name stage s) (λ _ _. refl) in
      (
        λ key differs own'. h key own' ∙ put-SameBut name stage s.outcome.stages key differs own',
        h name own ∙ put_at name stage s.outcome.stages,
      )

  pub skip-Entered :
      (name reason : String) (s : Stages W)
      → IsOwn name
      → IfDone
          (λ _. Entered name (plain skipped (some reason)) s.outcome.stages)
          (skip ports name reason s)
  unfolding skip
  skip-Entered name reason s own =
      IfDone-Always (Entered name (plain skipped (some reason)) s.outcome.stages)
        (persist ports (set_stage name (plain skipped (some reason)) s))
        (persist_set-Entered name (plain skipped (some reason)) s own)

  log_failure-Always :
      (name : String) (stage : StageOutcome) (before : StageMap) (text : String)
      (r : Stages W × Call (Unit {0}))
      → Always (Entered name stage before) r
      → Always (Entered name stage before) (log_failure ports text r)
  log_failure-Always name stage before text (s, done tt) h = h
  log_failure-Always name stage before text (s, raised (exception _ _)) h = h
  log_failure-Always name stage before text (s, raised (interruption _ _)) h = h

  after_failure-Ran :
      (A : Type 0) (name : String) (stage : StageOutcome) (before : StageMap) (problem : Failure)
      (s : Stages W)
      → Entered name stage before s
      → IfDone
          (λ (o : Option A) s. (o ≡ none) × Entered name stage before s)
          (after_failure ports {A = A} problem s)
  after_failure-Ran A name stage before problem s h =
      if_ind (IfDone (λ (o : Option A) s. (o ≡ none) × Entered name stage before s))
        s.outcome.training_succeeded
        (λ _.
          IfDone-bind (λ (_ : Unit {0}) s. Entered name stage before s)
            (λ (o : Option A) s. (o ≡ none) × Entered name stage before s)
            (lift
              (ports.log_exception "Pipeline stage failed; successful training retained" problem) s)
            (λ _ s. (s, done none))
            (IfDone-Always (Entered name stage before)
              (lift
                (ports.log_exception "Pipeline stage failed; successful training retained" problem)
                s)
              h)
            (λ _ _ h. (refl, h)))
        (λ _. tt)

  Ran-none :
      {A : Type 0} (name : String) (before : StageMap) (reason : Option String) (o : Option A)
      (s : Stages W)
      → (o ≡ none) × Entered name (plain failed reason) before s
      → Ran name before o s
  Ran-none name before reason none s h = (reason, h.1)
  Ran-none name before reason (some a) s h = absurd (cc (h.0))

  after_operation-Ran :
      {A : Type 0} (name : String) (s : Stages W) (c : Call A)
      → IsOwn name
      → IfDone (Ran name s.outcome.stages) (after_operation ports name (s, c))
  unfolding after_operation
  after_operation-Ran name s (done a) own =
      IfDone-bind (λ (_ : Unit {0}). Entered name (plain succeeded none) s.outcome.stages)
        (Ran name s.outcome.stages) _ _
        (IfDone-Always (Entered name (plain succeeded none) s.outcome.stages)
          (persist ports (set_stage name (plain succeeded none) s))
          (persist_set-Entered name (plain succeeded none) s own))
        (λ _ _ h. h)
  after_operation-Ran name s (raised (interruption class text)) own =
      IfDone-bind (λ (_ : Unit {0}) _. Unit) (Ran name s.outcome.stages) _ _
        (IfDone-Always (λ _. Unit)
          (log_failure ports "Could not record interrupted stage outcome" (
            persist ports (
              set_stage name (plain failed (some (ports.redact_text (class <> ": " <> text))))
                (set_fatal s))))
          tt)
        (λ _ _ _. tt)
  after_operation-Ran {A} name s (raised (exception class text)) own =
      let stage = plain failed (some (ports.redact_text text)) in
      IfDone-bind (λ (_ : Unit {0}). Entered name stage s.outcome.stages)
        (Ran name s.outcome.stages) _ _
        (IfDone-Always (Entered name stage s.outcome.stages)
          (log_failure ports "Could not record failed stage outcome"
            (persist ports (set_stage name stage s)))
          (log_failure-Always name stage s.outcome.stages "Could not record failed stage outcome"
            (persist ports (set_stage name stage s)) (persist_set-Entered name stage s own)))
        (λ _ s' h.
          IfDone-map (λ (o : Option A) s'. (o ≡ none) × Entered name stage s.outcome.stages s')
            (Ran name s.outcome.stages) (after_failure ports (exception class text) s')
            (λ o s'. Ran-none name s.outcome.stages (some (ports.redact_text text)) o s')
            (after_failure-Ran A name stage s.outcome.stages (exception class text) s' h))

  pub run-Ran :
      {A : Type 0} (name : String) (operation : Effect W A) (s : Stages W)
      → IsOwn name
      → IfDone (Ran name s.outcome.stages) (run ports name operation s)
  unfolding run
  run-Ran name operation s own =
      after_operation-Ran name (record s { world = (operation s.world).0 }) (operation s.world).1
        own

  pub finish-Same :
      (before : StageMap) (s : Stages W) → Keeps before s → Always (Keeps before) (finish ports s)
  unfolding finish
  finish-Same before s h =
      Always-bind (Keeps before) (persist ports s) _ (persist-Keeps before s h) (λ _ s h.
        Always-bind (Keeps before) (lift (ports.log _ _) s) (λ _ s'. (s', done s.outcome)) h
          (λ _ _ h. h))
