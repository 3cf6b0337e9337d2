-- ===== src/BatchEstimation/Search/Outcome.antt =====
-- Along any sequence of trials the invariants hold, so the outcome of a search is backed by them.
use mathlib.Core.Path.{subst}
use native.Mathlib.Nat.{mul-div_cancel}
use clearml_yolo.Base.{
  ℕ, ◌+◌, ◌*◌, ◌≤◌, ◌<◌, ◌≡◌, refl, sym, ap, ◌∙◌, true, false, not, Option, none, some, List, [],
  ◌∷◌, String, str_eq, eq_iff, ne_of_str_eq-false, any, ok, >>=-eq-ok, raise_if-eq-ok, OnOk,
  OnOk_elim, arith, if_ind, ltb, if◌then◌else◌, ◌==◌, ==_iff,
}
use clearml_yolo.BatchEstimation.Model.{
  Float, SearchStatus, searching, failed, validated, ceiling_limited, numerically_limited,
  TrialStatus, success, TrialResult, TrainingProfile, SearchSettings, world_size,
}
use clearml_yolo.BatchEstimation.Search.{
  BatchSearch, ceiling, batch_step, initial, start, observe, replay, confirmed, is_settled, absorb,
  is_pending, finish, finish_with, confirmed_success,
}
use clearml_yolo.BatchEstimation.Search.Growth.{step_of}
use clearml_yolo.BatchEstimation.Search.Grid.{
  step_of_pos, zero_on_grid, step_on_grid, step-le-ceiling,
}
use clearml_yolo.BatchEstimation.Search.Trials.{trial_observation}
use clearml_yolo.BatchEstimation.Search.Invariant.{IsValid, Awaits}
use clearml_yolo.BatchEstimation.Search.Progress.{recorded, observe-Progresses, observe-eq-absorb}
use clearml_yolo.BatchEstimation.Search.Certificate.{
  IsBacked, Outcome, Recommends, discover-IsBacked, keeps_fit, keeps_excess, HasFit, UpperExceeded,
}

settled_cases :
    (lower top step : ℕ) (o : Option ℕ)
    → is_settled lower o top step ≡ true
    → (lower == top) ≡ false
    → o ≡ some (lower + step)
unfolding is_settled
settled_cases lower top step none h e = ground arith
settled_cases lower top step (some u) h e = ground arith

module _ (int_mul : ℕ → Float → ℕ) where
  module _ (t : BatchSearch) (room : 0 < t.lower) (rank : 0 < world_size t.profile)
      (lower_fits : 0 < t.lower → HasFit int_mul t t.lower)
      (upper_exceeds : UpperExceeded int_mul t t.upper)
      (settled : t.numerical_failure ≡ ""
        → is_settled t.lower t.upper (ceiling t) (batch_step t) ≡ true) where
    finished-IsBacked :
        (status : SearchStatus) (batch : Option ℕ) (diagnostic : String)
        → Outcome int_mul status (finish_with t status batch diagnostic)
        → IsBacked int_mul (finish_with t status batch diagnostic)
    unfolding finish_with
    finished-IsBacked status batch diagnostic outcome = record {
      lower_fits = lower_fits;
      upper_exceeds = upper_exceeds;
      settled = λ _. settled;
      outcome = outcome;
    }

    recommends :
        (status : SearchStatus) (diagnostic : String)
        → Recommends (finish_with t status (some (t.lower * world_size t.profile)) diagnostic)
    unfolding finish_with
    recommends status diagnostic = (room, refl, ap some (mul-div_cancel t.lower rank))

    confirmed_success-IsBacked : IsBacked int_mul (confirmed_success t)
    unfolding confirmed_success finish
    confirmed_success-IsBacked =
        if_ind (IsBacked int_mul) (str_eq t.numerical_failure "")
          (λ clean. at_bound ((eq_iff t.numerical_failure "").0 clean))
          (λ unclean. finished-IsBacked numerically_limited _ _ (
            (room, refl, ap some (mul-div_cancel t.lower rank)),
            ne_of_str_eq-false t.numerical_failure "" unclean,
          ))
      where
        at_bound :
            t.numerical_failure ≡ ""
            → IsBacked int_mul (
                finish_with t
                  (if t.lower == ceiling t then ceiling_limited else validated)
                  (some (t.lower * world_size t.profile))
                  t.diagnostic)
        at_bound clean =
            if_ind
              (λ st.
                IsBacked int_mul
                  (finish_with t st (some (t.lower * world_size t.profile)) t.diagnostic))
              (t.lower == ceiling t)
              (λ top.
                finished-IsBacked ceiling_limited _ _
                  (recommends ceiling_limited t.diagnostic, (==_iff t.lower (ceiling t)).0 top))
              (λ lower_than. finished-IsBacked validated _ _ (
                recommends validated t.diagnostic,
                settled_cases t.lower (ceiling t) (batch_step t) t.upper (settled clean) lower_than,
              ))

    confirmed-IsBacked :
        (status : TrialStatus) (diagnostic : String)
        → IsBacked int_mul (confirmed t status diagnostic)
    unfolding confirmed finish finish_with
    confirmed-IsBacked success diagnostic = confirmed_success-IsBacked
    confirmed-IsBacked _ diagnostic = finished-IsBacked failed none _ (refl, refl)

  absorb-IsBacked :
      (s : BatchSearch) (trial : TrialResult)
      → IsValid s
      → IsBacked int_mul s
      → s.status ≡ searching
      → s.next_batch ≡ some trial.global_batch
      → OnOk
          (IsBacked int_mul)
          (absorb int_mul s trial (trial_observation int_mul trial s.profile s.settings))
  unfolding absorb
  absorb-IsBacked s trial v b active next =
      let (status, diagnostic) = trial_observation int_mul trial s.profile s.settings in
      let (c, e, awaits) = v.pending active in
      let batch : trial.global_batch ≡ c * world_size s.profile = ground arith in
      if_ind (OnOk (IsBacked int_mul)) s.confirming
        (λ confirming.
          confirmed-IsBacked (recorded s trial diagnostic)
            (subst (λ f. Awaits f s c) confirming awaits).1 v.grounded.has_rank
            (keeps_fit int_mul s b active trial status diagnostic refl)
            (keeps_excess int_mul s b active trial status diagnostic refl) (b.settled confirming)
            status diagnostic)
        (λ open_search.
          discover-IsBacked int_mul s b active trial status diagnostic refl open_search c batch
            v.grounded.has_rank)

  pending_of_test :
      (s : BatchSearch) (trial : TrialResult)
      → not (is_pending s trial) ≡ false
      → (s.status ≡ searching) × (s.next_batch ≡ some trial.global_batch)
  unfolding is_pending
  pending_of_test s trial h = ground arith

  -- An accepted trial was the pending one.
  pub accepted_pending :
      (s : BatchSearch) (trial : TrialResult) {s' : BatchSearch}
      → observe int_mul s trial ≡ ok s'
      → (s.status ≡ searching)
        × (s.next_batch ≡ some trial.global_batch)
        × (any (λ (prior : TrialResult). str_eq prior.trial_id trial.trial_id) s.trials ≡ false)
  unfolding observe
  accepted_pending s trial e =
      let (pending, rest) = raise_if-eq-ok (not (is_pending s trial)) _ _ e in
      let (fresh, _) = raise_if-eq-ok _ _ _ rest in
      let (active, next) = pending_of_test s trial pending in (active, next, fresh)

  -- Both invariants at once.
  abbrev pub IsSound : BatchSearch → Type 0
  IsSound s = IsValid s × IsBacked int_mul s

  initial-IsSound :
      (profile : TrainingProfile) (settings : SearchSettings)
      → 0 < world_size profile
      → step_of settings.search_strategy * world_size profile ≤ settings.max_global_batch
      → IsSound (initial profile settings)
  initial-IsSound profile settings rank room = (
    record {
      grounded = record {
        has_rank = rank;
        within = omega arith;
        on_grid = zero_on_grid settings.search_strategy;
        bracket = tt;
      };
      measured = λ _ _ _. tt;
      pending = λ _. (
        step_of settings.search_strategy,
        refl,
        (
          step_of_pos settings.search_strategy,
          step-le-ceiling profile settings rank room,
          step_on_grid settings.search_strategy,
          tt,
        ),
      );
      finished = λ ends. absurd (ends refl);
    },
    record {
      lower_fits = λ h. absurd (omega arith);
      upper_exceeds = tt;
      settled = λ h. cc;
      outcome = (refl, refl);
    },
  )

  pub observe-IsSound :
      (s : BatchSearch) (trial : TrialResult) {s' : BatchSearch}
      → IsSound s
      → observe int_mul s trial ≡ ok s'
      → IsSound s'
  observe-IsSound s trial {s'} (v, b) e =
      let (active, next, fresh) = accepted_pending s trial e in
      let (t, e', valid, _) = observe-Progresses int_mul s trial v active next fresh in
      let same : t ≡ s' = cc in
      (
        subst IsValid same valid,
        OnOk_elim (IsBacked int_mul) _ (absorb-IsBacked s trial v b active next)
            (sym (observe-eq-absorb int_mul s trial active next fresh) ∙ e),
      )

  pub replay-IsSound :
      (trials : List TrialResult) (s : BatchSearch) {s' : BatchSearch}
      → IsSound s
      → replay int_mul s trials ≡ ok s'
      → IsSound s'
  unfolding replay
  replay-IsSound [] s h e = subst IsSound (cc) h
  replay-IsSound (trial ∷ trials) s h e =
      let (t, first, rest) = >>=-eq-ok (observe int_mul s trial) (λ t. replay int_mul t trials) e in
      replay-IsSound trials t (observe-IsSound s trial h first) rest

  pub start-IsSound :
      (profile : TrainingProfile) (settings : SearchSettings) {s : BatchSearch}
      → 0 < world_size profile
      → start profile settings ≡ ok s
      → IsSound s
  unfolding start
  start-IsSound profile settings rank e =
      let (room, same) =
        raise_if-eq-ok
          (ltb settings.max_global_batch (step_of settings.search_strategy * world_size profile)) _
          (ok (initial profile settings)) e in
      subst IsSound (cc) (initial-IsSound profile settings rank (ground arith))
