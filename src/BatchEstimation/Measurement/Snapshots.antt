-- ===== src/BatchEstimation/Measurement/Snapshots.antt =====
-- Every snapshot of a search passes the validation of saved evidence.
use mathlib.Core.Path.{subst, subst₃}
use clearml_yolo.Base.{
  ℕ, ◌≡◌, refl, sym, ap, ◌∙◌, true, false, Option, none, some, String, str_eq, ok, ◌>>=◌, arith,
}
use clearml_yolo.BatchEstimation.Model.{
  Float, SearchStatus, searching, search_status_eq, SyntheticWorkload, TrainingProfile,
  SearchSettings, TrialResult,
}
use clearml_yolo.BatchEstimation.Search.{BatchSearch, initial, start, observe, replay}
use clearml_yolo.BatchEstimation.Search.History.{observe-Same, replay-snoc, started}
use clearml_yolo.BatchEstimation.Case.{EstimateCase, option_eq, compared, verified_evidence}
use clearml_yolo.BatchEstimation.Measurement.{snapshot, pending_text, text_or}

module _ (int_mul : ℕ → Float → ℕ) where
  -- The search is what the start and its own trials give.
  abbrev pub IsRun : BatchSearch → Type 0
  IsRun s =
      (start s.profile s.settings ≡ ok (initial s.profile s.settings))
      × (replay int_mul (initial s.profile s.settings) s.trials ≡ ok s)

  pub start-IsRun :
      (profile : TrainingProfile) (settings : SearchSettings) {s : BatchSearch}
      → start profile settings ≡ ok s
      → IsRun s
  unfolding replay
  start-IsRun profile settings {s} e =
      let same = started int_mul profile settings e in
      subst IsRun (sym same) ((e ∙ ap ok same, refl))

  pub observe-IsRun :
      (s : BatchSearch) (trial : TrialResult) {s' : BatchSearch}
      → IsRun s
      → observe int_mul s trial ≡ ok s'
      → IsRun s'
  observe-IsRun s trial {s'} (begun, run) e =
      let (p, q, r) = observe-Same int_mul s trial e in
      let ran =
        replay-snoc int_mul s.trials (initial s.profile s.settings) trial
        ∙ ap (λ r. r >>= λ t. observe int_mul t trial) run
        ∙ e in
      subst₃
        (λ profile settings trials.
          (start profile settings ≡ ok (initial profile settings))
          × (replay int_mul (initial profile settings) trials ≡ ok s'))
        (sym p) (sym q) (sym r) ((begun, ran))

  search_status_eq_refl : (status : SearchStatus) → search_status_eq status status ≡ true
  search_status_eq_refl status = ground arith

  option_eq_refl : (o : Option ℕ) → option_eq o o ≡ true
  option_eq_refl none = refl
  option_eq_refl (some n) = ground arith

  text_or_nonempty :
      (diagnostic : Option String) (text : String)
      → str_eq text "" ≡ false
      → str_eq (text_or diagnostic text) "" ≡ false
  text_or_nonempty none text h = h
  text_or_nonempty (some d) text h = ground arith

  compared-snapshot :
      (s : BatchSearch) (workload : SyntheticWorkload) (timestamp : String)
      (diagnostic : Option String)
      → compared (snapshot s workload timestamp diagnostic) s
        ≡ ok (snapshot s workload timestamp diagnostic)
  unfolding compared snapshot
  compared-snapshot s workload timestamp diagnostic = ground (
    arith,
    search_status_eq_refl s.status,
    option_eq_refl s.global_batch,
    option_eq_refl s.per_gpu_batch,
    text_or_nonempty diagnostic pending_text refl,
  )

  verified_of :
      (case : EstimateCase) (s₀ s : BatchSearch)
      → search_status_eq case.status searching ≡ false
      → start case.profile case.settings ≡ ok s₀
      → replay int_mul s₀ case.trials ≡ ok s
      → compared case s ≡ ok case
      → verified_evidence int_mul case ≡ ok case
  unfolding verified_evidence
  verified_of case s₀ s ended begun run passed = cc (ended, begun, run, passed)

  ended-snapshot :
      (s : BatchSearch) (workload : SyntheticWorkload) (timestamp : String)
      (diagnostic : Option String)
      → search_status_eq (snapshot s workload timestamp diagnostic).status searching ≡ false
  unfolding snapshot
  ended-snapshot s workload timestamp diagnostic = ground arith

  -- The snapshot of a search that was run from the start passes the validation unchanged, whatever
  -- its status, and whether or not an exception ended it.
  pub verified-snapshot :
      (s : BatchSearch) (workload : SyntheticWorkload) (timestamp : String)
      (diagnostic : Option String)
      → IsRun s
      → verified_evidence int_mul (snapshot s workload timestamp diagnostic)
        ≡ ok (snapshot s workload timestamp diagnostic)
  unfolding snapshot
  verified-snapshot s workload timestamp diagnostic (begun, run) =
      verified_of (snapshot s workload timestamp diagnostic) (initial s.profile s.settings) s
        (ended-snapshot s workload timestamp diagnostic) begun run
        (compared-snapshot s workload timestamp diagnostic)
