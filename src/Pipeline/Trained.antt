-- ===== src/Pipeline/Trained.antt =====
-- What `run_pipeline` guarantees once the training has given a checkpoint.
use clearml_yolo.Base.{
  ◌≡◌, ◌≢◌, refl, sym, ap, true, false, not, Option, none, some, List, [], ◌∷◌, String, if_ind,
  arith,
}
use mathlib.Core.Path.{subst}
use clearml_yolo.PipelineOutcome.{succeeded, failed, StageOutcome, PipelineOutcome, status_of}
use clearml_yolo.Pipeline.{
  Failure, Action, Call, done, raised, Stages, ◌&>◌, lifted, StagePorts, run, downstream_names,
}
use clearml_yolo.Pipeline.Survival.{
  Ensures, Ensures-bind, IsOrdinary, IsDone, IsQuiet, Holds, Kept, Holds-tail, persist-Kept,
  run-Kept, lifted-Kept,
}
use clearml_yolo.Pipeline.Workflow.{WorkflowPorts, Results}
use clearml_yolo.Pipeline.Ordinary.{AreOrdinary}
use clearml_yolo.Pipeline.Complete.{HasReturned, run_downstream-HasReturned}
use clearml_yolo.Pipeline.Program.{
  ProgramPorts, Arguments, Prepared, prepare, empty_results, new_outcome, train, mark_trained,
  after_training, request_of, run_stages, run_pipeline,
}

-- A pipeline that trained, without a fatal error, has not failed.
status_of-ne-failed :
    (outcome : PipelineOutcome)
    → outcome.training_succeeded ≡ true
    → outcome.fatal_error ≡ false
    → status_of outcome ≢ failed
unfolding status_of
status_of-ne-failed outcome trained whole = ground arith

bind-raised :
    {W A B : Type 0} (r : Stages W × Call A) (f : A → Action W B) (problem : Failure)
    → r.1 ≡ raised problem
    → (r &> f).1 ≡ raised problem
bind-raised (s, done a) f problem e = absurd (cc (e))
bind-raised (s, raised other) f problem e = let same : other ≡ problem = cc (e) in ap raised same

lifted-raised :
    {W A : Type 0} (s : Stages W) (r : W × Call A) (problem : Failure)
    → r.1 ≡ raised problem
    → (lifted s r).1 ≡ raised problem
lifted-raised s (w, c) problem e = e

-- The outcome of a training with its checkpoint.
abbrev pub trained_stage : String → StageOutcome
trained_stage checkpoint = record { status = succeeded; reason = none; artifacts = checkpoint ∷ [] }

-- The results carry the outcome, which has not failed, keeps the training as succeeded with its
-- checkpoint, and has an outcome for each of the stages after it.
pub record Retains {W C : Type 0} (checkpoint : String) (names : List String) (results : Results C)
    (s : Stages W) : Type 0 where
  pub holds : Holds (trained_stage checkpoint) names s.outcome
  pub carried : results.outcome ≡ some s.outcome
  pub alive : status_of s.outcome ≢ failed

module _ {W G C : Type 0} (ports : ProgramPorts W G) (workflow : WorkflowPorts W C)
    (stage_ports : StagePorts W) where
  -- The ports that are called after the training's success is preserved fail only by exceptions,
  -- which are no interruptions, and the log does not fail.
  pub record IsSafe : Type 0 where
    pub releases : (w : W) → IsOrdinary (ports.training_finished w).1
    pub notes :
        (task : Option String) (overrides : List (String × Option String)) (w : W)
        → IsOrdinary (ports.record_overrides task overrides w).1
    pub ordinary : AreOrdinary workflow
    pub quiet : IsQuiet stage_ports

  module _ (safe : IsSafe) (checkpoint : String) where
    after_training-Kept :
        (arguments : Arguments) (prepared : Prepared G) (w w' : W)
        → ports.preserve_training_success prepared.task checkpoint w ≡ (w', done tt)
        → Ensures (Kept stage_ports (trained_stage checkpoint) ("training_resources" ∷ [])) (
            after_training ports workflow stage_ports arguments prepared checkpoint
              (record { world = w; outcome = new_outcome }))
    unfolding after_training
    after_training-Kept arguments prepared w w' preserved =
        let s : Stages W = record { world = w; outcome = new_outcome } in
        let marked = mark_trained ports workflow stage_ports checkpoint s in
        Ensures-bind (Kept stage_ports (trained_stage checkpoint) [])
          (Kept stage_ports (trained_stage checkpoint) ("training_resources" ∷ [])) _ _
          (lifted-Kept stage_ports (trained_stage checkpoint) safe.quiet [] marked
            (ports.preserve_training_success prepared.task checkpoint w)
            (subst (λ (r : W × Call (Unit {0})). IsDone r.1) (sym preserved) tt)
            (record { trained = refl; whole = refl; kept = refl; present = tt }))
          (λ _ s h.
            Ensures-bind (Kept stage_ports (trained_stage checkpoint) [])
              (Kept stage_ports (trained_stage checkpoint) ("training_resources" ∷ [])) _ _
              (persist-Kept stage_ports (trained_stage checkpoint) safe.quiet [] s h)
              (λ _ s h.
                Ensures-bind
                  (Kept stage_ports (trained_stage checkpoint) ("training_resources" ∷ []))
                  (Kept stage_ports (trained_stage checkpoint) ("training_resources" ∷ [])) _ _
                  (run-Kept stage_ports (trained_stage checkpoint) safe.quiet []
                    "training_resources" ports.training_finished s refl safe.releases h)
                  (λ _ s h.
                    noted prepared (record empty_results { weights = some checkpoint }) s h)))
      where
        noted :
            (prepared : Prepared G) (results : Results C) (s : Stages W)
            → Holds (trained_stage checkpoint) ("training_resources" ∷ []) s.outcome
            → Ensures (Kept stage_ports (trained_stage checkpoint) ("training_resources" ∷ [])) (
                run stage_ports "training_metadata"
                  (ports.record_overrides prepared.task prepared.overrides)
                  s
                &> λ _ s. (s, done results))
        noted prepared results s h =
            Ensures-bind
              (Kept stage_ports (trained_stage checkpoint)
                ("training_metadata" ∷ "training_resources" ∷ []))
              (Kept stage_ports (trained_stage checkpoint) ("training_resources" ∷ [])) _ _
              (run-Kept stage_ports (trained_stage checkpoint) safe.quiet
                ("training_resources" ∷ []) "training_metadata"
                (ports.record_overrides prepared.task prepared.overrides) s refl
                (safe.notes prepared.task prepared.overrides) h)
              (λ _ s h.
                Holds-tail stage_ports (trained_stage checkpoint) ("training_resources" ∷ [])
                  "training_metadata" s.outcome h)

    Retains-HasReturned :
        (r : Stages W × Call (Results C))
        → Ensures
            (HasReturned workflow safe.ordinary stage_ports safe.quiet (trained_stage checkpoint))
            r
        → Ensures (Retains checkpoint (downstream_names stage_ports)) r
    Retains-HasReturned (s, done results) h = record {
      holds = h.0;
      carried = h.1;
      alive = status_of-ne-failed s.outcome h.0.trained h.0.whole;
    }
    Retains-HasReturned (s, raised _) h = h

    run_pipeline_keeps :
        (arguments : Arguments) (w w₁ w₂ w₃ : W) (prepared : Prepared G)
        → arguments.skip_train ≡ false
        → prepare ports arguments w ≡ (w₁, done prepared)
        → train ports workflow stage_ports arguments prepared w₁ ≡ (w₂, done checkpoint)
        → ports.preserve_training_success prepared.task checkpoint w₂ ≡ (w₃, done tt)
        → Ensures
            (Retains checkpoint (downstream_names stage_ports))
            (run_pipeline ports workflow stage_ports arguments w)
    unfolding run_pipeline run_stages
    run_pipeline_keeps arguments w w₁ w₂ w₃ prepared trains ready trained preserved =
        Retains-HasReturned (run_pipeline ports workflow stage_ports arguments w) (
          subst
            (λ r.
              Ensures
                (HasReturned workflow safe.ordinary stage_ports safe.quiet
                  (trained_stage checkpoint))
                (run_stages ports workflow stage_ports arguments r))
            (sym ready)
            (Ensures-bind (Kept stage_ports (trained_stage checkpoint) ("training_resources" ∷ []))
              (HasReturned workflow safe.ordinary stage_ports safe.quiet (trained_stage checkpoint))
              _ _
              (if_ind
                (Ensures (Kept stage_ports (trained_stage checkpoint) ("training_resources" ∷ [])))
                (not arguments.skip_train)
                (λ _.
                  subst
                    (λ (r : W × Call String).
                      Ensures
                        (Kept stage_ports (trained_stage checkpoint) ("training_resources" ∷ []))
                        (lifted (record { world = w₁; outcome = new_outcome }) r
                          &> after_training ports workflow stage_ports arguments prepared))
                    (sym trained) (after_training-Kept arguments prepared w₂ w₃ preserved))
                (λ skips. absurd (cc (skips, trains))))
              (λ results s h.
                run_downstream-HasReturned workflow safe.ordinary stage_ports safe.quiet
                  (trained_stage checkpoint) []
                  (request_of ports workflow stage_ports arguments prepared) results s h)))

    run_pipeline_raises :
        (arguments : Arguments) (w w₁ w₂ w₃ : W) (prepared : Prepared G) (problem : Failure)
        → arguments.skip_train ≡ false
        → prepare ports arguments w ≡ (w₁, done prepared)
        → train ports workflow stage_ports arguments prepared w₁ ≡ (w₂, done checkpoint)
        → ports.preserve_training_success prepared.task checkpoint w₂ ≡ (w₃, raised problem)
        → (run_pipeline ports workflow stage_ports arguments w).1 ≡ raised problem
    unfolding run_pipeline run_stages after_training
    run_pipeline_raises arguments w w₁ w₂ w₃ prepared problem trains ready trained preserved =
        subst (λ r. (run_stages ports workflow stage_ports arguments r).1 ≡ raised problem)
          (sym ready)
          (bind-raised _ _ problem (
            if_ind (λ (r : Stages W × Call (Results C)). r.1 ≡ raised problem)
              (not arguments.skip_train)
              (λ _.
                subst
                  (λ (r : W × Call String).
                    (lifted (record { world = w₁; outcome = new_outcome }) r
                      &> after_training ports workflow stage_ports arguments prepared).1
                    ≡ raised problem)
                  (sym trained)
                  (bind-raised _ _ problem (
                    lifted-raised
                      (mark_trained ports workflow stage_ports checkpoint
                        (record { world = w₂; outcome = new_outcome }))
                      (ports.preserve_training_success prepared.task checkpoint w₂) problem
                      (ap (λ (r : W × Call (Unit {0})). r.1) preserved))))
              (λ skips. absurd (cc (skips, trains)))))

    -- By what the port gives that preserves the success of the training.
    abbrev pub KeepsOrRaises : Call (Unit {0}) → Stages W × Call (Results C) → Type 0
    KeepsOrRaises (done _) r = Ensures (Retains checkpoint (downstream_names stage_ports)) r
    KeepsOrRaises (raised problem) r = r.1 ≡ raised problem

    -- Suppose that the preparation ends, that the training gives a usable checkpoint, that the ports
    -- which are called after its success is preserved fail only by exceptions, which are no
    -- interruptions, and that the log does not fail. If the port that preserves the success ends, the
    -- pipeline returns, whichever exceptions the later stages and the records of the outcome raise:
    -- its results carry its outcome, which has not failed, keeps the training as succeeded with the
    -- checkpoint, and has an outcome for each of the stages after it. If that port raises, the
    -- pipeline raises the same.
    pub run_pipeline-KeepsOrRaises :
        (arguments : Arguments) (w w₁ w₂ w₃ : W) (prepared : Prepared G)
        (preserved : Call (Unit {0}))
        → arguments.skip_train ≡ false
        → prepare ports arguments w ≡ (w₁, done prepared)
        → train ports workflow stage_ports arguments prepared w₁ ≡ (w₂, done checkpoint)
        → ports.preserve_training_success prepared.task checkpoint w₂ ≡ (w₃, preserved)
        → KeepsOrRaises preserved (run_pipeline ports workflow stage_ports arguments w)
    run_pipeline-KeepsOrRaises arguments w w₁ w₂ w₃ prepared (done tt) trains ready trained ends =
        run_pipeline_keeps arguments w w₁ w₂ w₃ prepared trains ready trained ends
    run_pipeline-KeepsOrRaises arguments w w₁ w₂ w₃ prepared (raised problem) trains ready trained
          raises =
        run_pipeline_raises arguments w w₁ w₂ w₃ prepared problem trains ready trained raises
