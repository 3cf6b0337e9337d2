-- ===== src/BatchEstimation/Search/Certificate.antt =====
-- What the recorded trials prove about the bounds and about the outcome of a search.
use mathlib.Core.Path.{subst}
use native.Mathlib.Nat.{mul-div_cancel}
use clearml_yolo.Base.{
  ℕ, ◌+◌, ◌*◌, ◌/◌, ◌<◌, ◌≡◌, refl, sym, ◌∙◌, ◌≢◌, ◌⊎◌, inl, inr, true, false, Option, none, some,
  List, [], ◌∷◌, String, ok, >>=-eq-ok, OnOk, OnOk-intro, ==_iff, append-ne-empty, Some,
  Some-append_left, Some-append_right, if_ind, ltb, ◌==◌,
}
use clearml_yolo.BatchEstimation.Model.{
  Float, SearchStatus, searching, failed, no_capacity, validated, ceiling_limited,
  numerically_limited, TrialStatus, success, oom, memory_limit, nonfinite, TrialResult,
  TrainingProfile, SearchSettings, world_size,
}
use clearml_yolo.BatchEstimation.Search.{
  BatchSearch, ceiling, batch_step, advance, discover, is_settled, to_confirm, after_failure,
  after_nonfinite, finish, finish_with, round_candidate, candidate,
}
use clearml_yolo.BatchEstimation.Search.Trials.{trial_observation}
use clearml_yolo.BatchEstimation.Search.Progress.{recorded}

abbrev pub Recommends : BatchSearch → Type 0
Recommends s =
    (0 < s.lower)
    × (s.global_batch ≡ some (s.lower * world_size s.profile))
    × (s.per_gpu_batch ≡ some s.lower)

abbrev pub RecommendsNothing : BatchSearch → Type 0
RecommendsNothing s = (s.global_batch ≡ none) × (s.per_gpu_batch ≡ none)

module _ (int_mul : ℕ → Float → ℕ) where
  -- A trial of a batch that counted as a success, or that exceeded the memory.
  abbrev pub Fitted : TrainingProfile → SearchSettings → ℕ → TrialResult → Type 0
  Fitted profile settings batch trial =
      (trial.global_batch ≡ batch)
      × ((trial_observation int_mul trial profile settings).0 ≡ success)

  abbrev pub Exceeded : TrainingProfile → SearchSettings → ℕ → TrialResult → Type 0
  Exceeded profile settings batch trial =
      let status = (trial_observation int_mul trial profile settings).0 in
      (trial.global_batch ≡ batch) × ((status ≡ oom) ⊎ (status ≡ memory_limit))

  -- Some trial of a history fitted, or exceeded, at a capacity per rank.
  abbrev pub FitsAt : TrainingProfile → SearchSettings → List TrialResult → ℕ → Type 0
  FitsAt profile settings trials per_rank =
      Some (Fitted profile settings (per_rank * world_size profile)) trials

  abbrev pub ExceedsAt : TrainingProfile → SearchSettings → List TrialResult → ℕ → Type 0
  ExceedsAt profile settings trials per_rank =
      Some (Exceeded profile settings (per_rank * world_size profile)) trials

  abbrev pub HasFit : BatchSearch → ℕ → Type 0
  HasFit s = FitsAt s.profile s.settings s.trials

  abbrev pub HasExcess : BatchSearch → ℕ → Type 0
  HasExcess s = ExceedsAt s.profile s.settings s.trials

  -- What each status says of the bounds.
  abbrev pub Outcome : SearchStatus → BatchSearch → Type 0
  Outcome validated s = Recommends s × (s.upper ≡ some (s.lower + batch_step s))
  Outcome ceiling_limited s = Recommends s × (s.lower ≡ ceiling s)
  Outcome numerically_limited s = Recommends s × (s.numerical_failure ≢ "")
  Outcome no_capacity s = RecommendsNothing s × HasExcess s (batch_step s)
  Outcome _ s = RecommendsNothing s

  abbrev pub UpperExceeded : BatchSearch → Option ℕ → Type 0
  UpperExceeded s none = Unit
  UpperExceeded s (some u) = HasExcess s u

  pub record IsBacked (s : BatchSearch) : Type 0 where
    pub lower_fits : 0 < s.lower → HasFit s s.lower
    pub upper_exceeds : UpperExceeded s s.upper
    -- A confirmation with no numerical failure is of a settled bracket.
    pub settled :
        s.confirming ≡ true
        → s.numerical_failure ≡ ""
        → is_settled s.lower s.upper (ceiling s) (batch_step s) ≡ true
    pub outcome : Outcome s.status s

  pub advance_cases :
      (t : BatchSearch) {t' : BatchSearch}
      → advance int_mul t ≡ ok t'
      → (t' ≡ to_confirm t) × (is_settled t.lower t.upper (ceiling t) (batch_step t) ≡ true)
        ⊎ ((batch : ℕ) × (t' ≡ record t { next_batch = some batch }))
  unfolding advance
  advance_cases t {t'} =
      if_ind
        (λ r.
          r ≡ ok t'
          → (t' ≡ to_confirm t) × (is_settled t.lower t.upper (ceiling t) (batch_step t) ≡ true)
            ⊎ ((batch : ℕ) × (t' ≡ record t { next_batch = some batch })))
        (is_settled t.lower t.upper (ceiling t) (batch_step t)) (λ settled e. inl (cc, settled))
        λ _ e.
          let (c, _, found) =
            >>=-eq-ok (candidate int_mul t t.upper)
              (λ c. ok (record t {
                next_batch = some (round_candidate t.lower (batch_step t) c * world_size t.profile);
              }))
              e in
          inr (round_candidate t.lower (batch_step t) c * world_size t.profile, cc)

  module _ (t : BatchSearch) (open_search : t.confirming ≡ false)
      (lower_fits : 0 < t.lower → HasFit t t.lower) (upper_exceeds : UpperExceeded t t.upper) where
    finish-IsBacked :
        (status : SearchStatus) (diagnostic : String)
        → Outcome status (finish_with t status none diagnostic)
        → IsBacked (finish_with t status none diagnostic)
    unfolding finish_with
    finish-IsBacked status diagnostic outcome = record {
      lower_fits = lower_fits;
      upper_exceeds = upper_exceeds;
      settled = λ e. cc;
      outcome = outcome;
    }

  module _ (t : BatchSearch) (active : t.status ≡ searching) (nothing : RecommendsNothing t)
      (lower_fits : 0 < t.lower → HasFit t t.lower) (upper_exceeds : UpperExceeded t t.upper) where
    to_confirm-IsBacked :
        (failure : String)
        → (failure ≡ "" → is_settled t.lower t.upper (ceiling t) (batch_step t) ≡ true)
        → IsBacked (record (to_confirm t) { numerical_failure = failure })
    unfolding to_confirm
    to_confirm-IsBacked failure settled = record {
      lower_fits = lower_fits;
      upper_exceeds = upper_exceeds;
      settled = λ _. settled;
      outcome = rw active nothing;
    }

  module _ (t : BatchSearch) (open_search : t.confirming ≡ false) (active : t.status ≡ searching)
      (nothing : RecommendsNothing t) (lower_fits : 0 < t.lower → HasFit t t.lower)
      (upper_exceeds : UpperExceeded t t.upper) where
    next-IsBacked : (batch : ℕ) → IsBacked (record t { next_batch = some batch })
    next-IsBacked batch = record {
      lower_fits = lower_fits;
      upper_exceeds = upper_exceeds;
      settled = λ e. cc;
      outcome = rw active nothing;
    }

    advance-IsBacked : OnOk IsBacked (advance int_mul t)
    unfolding to_confirm
    advance-IsBacked = OnOk-intro IsBacked (advance int_mul t) λ t' e. elim (advance_cases t e) [
      | inl (e', settled) ↦ subst IsBacked (sym e') (
          to_confirm-IsBacked t active nothing lower_fits upper_exceeds t.numerical_failure
            (λ _. settled))
      | inr (batch, e') ↦ subst IsBacked (sym e') (next-IsBacked batch)
    ]

  module _ (s : BatchSearch) (b : IsBacked s) (active : s.status ≡ searching) (trial : TrialResult)
      (status : TrialStatus) (diagnostic : String)
      (observed : (trial_observation int_mul trial s.profile s.settings).0 ≡ status) where
    pub idle : RecommendsNothing s
    idle = subst (λ st. Outcome st s) active b.outcome

    pub keeps_fit : 0 < s.lower → HasFit (recorded s trial diagnostic) s.lower
    keeps_fit h = Some-append_left _ s.trials (trial ∷ []) (b.lower_fits h)

    pub keeps_excess : UpperExceeded (recorded s trial diagnostic) s.upper
    keeps_excess = go s.upper b.upper_exceeds
      where
        go : (o : Option ℕ) → UpperExceeded s o → UpperExceeded (recorded s trial diagnostic) o
        go none h = tt
        go (some u) h = Some-append_left _ s.trials (trial ∷ []) h

    module _ (open_search : s.confirming ≡ false) (c : ℕ)
        (batch : trial.global_batch ≡ c * world_size s.profile) where
      after_success-IsBacked :
          status ≡ success
          → OnOk IsBacked (advance int_mul (record (recorded s trial diagnostic) { lower = c }))
      after_success-IsBacked e =
          advance-IsBacked (record (recorded s trial diagnostic) { lower = c }) open_search active
            idle (λ _. Some-append_right _ s.trials (trial ∷ []) (inl (batch, observed ∙ e)))
            keeps_excess

      new_excess :
          (status ≡ oom) ⊎ (status ≡ memory_limit) → HasExcess (recorded s trial diagnostic) c
      new_excess (inl e) =
          Some-append_right _ s.trials (trial ∷ []) (inl (batch, inl (observed ∙ e)))
      new_excess (inr e) =
          Some-append_right _ s.trials (trial ∷ []) (inl (batch, inr (observed ∙ e)))

      after_failure-IsBacked :
          (status ≡ oom) ⊎ (status ≡ memory_limit)
          → OnOk IsBacked (after_failure int_mul (recorded s trial diagnostic) c)
      unfolding after_failure finish
      after_failure-IsBacked e =
          if_ind (OnOk IsBacked) (c == batch_step s)
            (λ smallest.
              finish-IsBacked (recorded s trial diagnostic) open_search keeps_fit keeps_excess
                no_capacity diagnostic
                (
                  (refl, refl),
                  subst (HasExcess (recorded s trial diagnostic))
                      ((==_iff c (batch_step s)).0 smallest) (new_excess e),
                ))
            λ _.
              advance-IsBacked (record (recorded s trial diagnostic) { upper = some c }) open_search
                active idle keeps_fit (new_excess e)

      after_nonfinite-IsBacked :
          IsBacked (after_nonfinite (recorded s trial diagnostic) trial diagnostic)
      unfolding after_nonfinite finish
      after_nonfinite-IsBacked =
          if_ind IsBacked (ltb 0 s.lower)
            (λ _.
              to_confirm-IsBacked (recorded s trial diagnostic) active idle keeps_fit keeps_excess _
                (λ e. absurd (append-ne-empty "Numerical failure at global batch " _ refl e)))
            (λ _.
              finish-IsBacked (recorded s trial diagnostic) open_search keeps_fit keeps_excess
                failed diagnostic (refl, refl))

    pub discover-IsBacked :
        (open_search : s.confirming ≡ false) (c : ℕ)
        → trial.global_batch ≡ c * world_size s.profile
        → 0 < world_size s.profile
        → OnOk IsBacked (discover int_mul (recorded s trial diagnostic) trial status diagnostic)
    unfolding discover finish finish_with
    discover-IsBacked open_search c batch positive = go status refl
      where
        per_rank : trial.global_batch / world_size s.profile ≡ c
        per_rank = rw batch (mul-div_cancel c positive)

        ended : IsBacked (finish_with (recorded s trial diagnostic) failed none diagnostic)
        ended =
            finish-IsBacked (recorded s trial diagnostic) open_search keeps_fit keeps_excess failed
              diagnostic (refl, refl)

        go :
            (st : TrialStatus)
            → status ≡ st
            → OnOk IsBacked (discover int_mul (recorded s trial diagnostic) trial st diagnostic)
        go success e = rw per_rank (after_success-IsBacked open_search c batch e)
        go oom e = rw per_rank (after_failure-IsBacked open_search c batch (inl e))
        go memory_limit e = rw per_rank (after_failure-IsBacked open_search c batch (inr e))
        go nonfinite e = after_nonfinite-IsBacked open_search c batch
        go _ e = ended
