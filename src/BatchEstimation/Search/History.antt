-- ===== src/BatchEstimation/Search/History.antt =====
-- The history of a search: `observe` appends its trial and keeps the profile and the settings.
use mathlib.Core.Path.{subst, subst₃}
use mathlib.Core.List.{append-nil, append_assoc}
use clearml_yolo.Base.{
  ℕ, ◌≡◌, refl, sym, ap, ◌∙◌, ◌≢◌, inl, inr, Bool, false, ◌||◌, Option, none, some, List, [], ◌∷◌,
  ◌++◌, String, str_eq, ne_of_str_eq-false, any, ◌*◌, Result, ok, err, ◌>>=◌, >>=-eq-ok,
  raise_if-eq-ok, ok-injective, OnOk, OnOk-intro, OnOk_elim, All, All-append, if_ind, arith, ◌==◌,
  ltb, ◌/◌,
}
use clearml_yolo.BatchEstimation.Model.{
  Float, SearchStatus, failed, no_capacity, TrialStatus, success, oom, memory_limit, nonfinite,
  TrialResult, TrainingProfile, SearchSettings, world_size,
}
use clearml_yolo.BatchEstimation.Search.{
  BatchSearch, batch_step, observe, replay, advance, discover, confirmed, absorb, after_failure,
  after_nonfinite, to_confirm, finish, finish_with, start, initial,
}
use clearml_yolo.BatchEstimation.Search.Growth.{step_of}
use clearml_yolo.BatchEstimation.Search.Trials.{trial_observation}
use clearml_yolo.BatchEstimation.Search.Progress.{recorded, observe-eq-absorb}
use clearml_yolo.BatchEstimation.Search.Certificate.{advance_cases}
use clearml_yolo.BatchEstimation.Search.Outcome.{accepted_pending}

-- The parts of a search that only `observe` itself writes.
pub record Same (s s' : BatchSearch) : Type 0 where
  pub same_profile : s'.profile ≡ s.profile
  pub same_settings : s'.settings ≡ s.settings
  pub same_trials : s'.trials ≡ s.trials

or_false : (a b : Bool) → (a || b) ≡ false → (a ≡ false) × (b ≡ false)
or_false a b h = ground arith

-- No two trials share the identity of their process group.
abbrev pub HasFreshIds : List TrialResult → Type 0
HasFreshIds [] = Unit
HasFreshIds (t ∷ ts) = All (λ (u : TrialResult). t.trial_id ≢ u.trial_id) ts × HasFreshIds ts

HasFreshIds-snoc :
    (ts : List TrialResult) (trial : TrialResult)
    → HasFreshIds ts
    → any (λ (prior : TrialResult). str_eq prior.trial_id trial.trial_id) ts ≡ false
    → HasFreshIds (ts ++ trial ∷ [])
HasFreshIds-snoc [] trial h e = (tt, tt)
HasFreshIds-snoc (t ∷ ts) trial h e =
    let (here, there) = or_false (str_eq t.trial_id trial.trial_id) _ e in
    (
      All-append _ ts (trial ∷ []) h.0 (ne_of_str_eq-false _ _ here, tt),
      HasFreshIds-snoc ts trial h.1 there,
    )

bind_ok : (r : Result BatchSearch) → (r >>= ok) ≡ r
bind_ok (ok s) = refl
bind_ok (err e) = refl

bind_bind :
    (r : Result BatchSearch) (f g h : BatchSearch → Result BatchSearch)
    → ((s : BatchSearch) → f s ≡ (g s >>= h))
    → (r >>= f) ≡ ((r >>= g) >>= h)
bind_bind (ok s) f g h same = same s
bind_bind (err e) f g h same = refl

module _ (int_mul : ℕ → Float → ℕ) where
  advance-Same : (t : BatchSearch) → OnOk (Same t) (advance int_mul t)
  unfolding to_confirm
  advance-Same t = OnOk-intro (Same t) (advance int_mul t) λ t' e.
      elim (advance_cases int_mul t e) [
        | inl (e', _) ↦
            subst (Same t) (sym e')
              (record { same_profile = refl; same_settings = refl; same_trials = refl })
        | inr (_, e') ↦
            subst (Same t) (sym e')
              (record { same_profile = refl; same_settings = refl; same_trials = refl })
      ]

  finish_with-Same :
      (t : BatchSearch) (status : SearchStatus) (batch : Option ℕ) (diagnostic : String)
      → Same t (finish_with t status batch diagnostic)
  unfolding finish_with
  finish_with-Same t status batch diagnostic = record {
    same_profile = refl;
    same_settings = refl;
    same_trials = refl;
  }

  after_failure-Same : (t : BatchSearch) (c : ℕ) → OnOk (Same t) (after_failure int_mul t c)
  unfolding after_failure finish
  after_failure-Same t c =
      if_ind (OnOk (Same t)) (c == batch_step t)
        (λ _. finish_with-Same t no_capacity none t.diagnostic) λ _. advance_widened
    where
      advance_widened : OnOk (Same t) (advance int_mul (record t { upper = some c }))
      advance_widened = OnOk-intro (Same t) _ λ t' e.
          let h =
            OnOk_elim (Same (record t { upper = some c })) _
              (advance-Same (record t { upper = some c })) e in
          record {
            same_profile = h.same_profile;
            same_settings = h.same_settings;
            same_trials = h.same_trials;
          }

  discover-Same :
      (t : BatchSearch) (trial : TrialResult) (status : TrialStatus) (diagnostic : String)
      → OnOk (Same t) (discover int_mul t trial status diagnostic)
  unfolding discover finish after_nonfinite to_confirm
  discover-Same t trial success diagnostic =
      let lower' = trial.global_batch / world_size t.profile in
      OnOk-intro (Same t) _ λ t' e.
        let h =
          OnOk_elim (Same (record t { lower = lower' })) _
            (advance-Same (record t { lower = lower' })) e in
        record {
          same_profile = h.same_profile;
          same_settings = h.same_settings;
          same_trials = h.same_trials;
        }
  discover-Same t trial oom diagnostic =
      after_failure-Same t (trial.global_batch / world_size t.profile)
  discover-Same t trial memory_limit diagnostic =
      after_failure-Same t (trial.global_batch / world_size t.profile)
  discover-Same t trial nonfinite diagnostic =
      if_ind (Same t) (ltb 0 t.lower)
        (λ _. record { same_profile = refl; same_settings = refl; same_trials = refl })
        (λ _. finish_with-Same t failed none t.diagnostic)
  discover-Same t trial _ diagnostic = finish_with-Same t failed none t.diagnostic

  confirmed-Same :
      (t : BatchSearch) (status : TrialStatus) (diagnostic : String)
      → Same t (confirmed t status diagnostic)
  unfolding confirmed finish
  confirmed-Same t success diagnostic =
      if_ind (Same t) (str_eq t.numerical_failure "") (λ _. finish_with-Same t _ _ _)
        (λ _. finish_with-Same t _ _ _)
  confirmed-Same t _ diagnostic = finish_with-Same t failed none _

  absorb-Same :
      (s : BatchSearch) (trial : TrialResult) (o : TrialStatus × String)
      → OnOk (Same (recorded s trial o.1)) (absorb int_mul s trial o)
  unfolding absorb
  absorb-Same s trial (status, diagnostic) =
      if_ind (OnOk (Same (recorded s trial diagnostic))) s.confirming
        (λ _. confirmed-Same (recorded s trial diagnostic) status diagnostic)
        (λ _. discover-Same (recorded s trial diagnostic) trial status diagnostic)

  pub observe-Same :
      (s : BatchSearch) (trial : TrialResult) {s' : BatchSearch}
      → observe int_mul s trial ≡ ok s'
      → (s'.profile ≡ s.profile) × (s'.settings ≡ s.settings) × (s'.trials ≡ s.trials ++ trial ∷ [])
  observe-Same s trial e =
      let (active, next, fresh) = accepted_pending int_mul s trial e in
      let h =
        OnOk_elim (Same (recorded s trial _)) _
          (absorb-Same s trial (trial_observation int_mul trial s.profile s.settings))
          (sym (observe-eq-absorb int_mul s trial active next fresh) ∙ e) in
      (h.same_profile, h.same_settings, h.same_trials)

  pub replay-Same :
      (trials : List TrialResult) (s : BatchSearch) {s' : BatchSearch}
      → replay int_mul s trials ≡ ok s'
      → (s'.profile ≡ s.profile) × (s'.settings ≡ s.settings) × (s'.trials ≡ s.trials ++ trials)
  unfolding replay
  replay-Same [] s {s'} e =
      let same : s ≡ s' = cc in
      (
        ap (λ (x : BatchSearch). x.profile) (sym same),
        ap (λ (x : BatchSearch). x.settings) (sym same),
        ap (λ (x : BatchSearch). x.trials) (sym same) ∙ sym (append-nil s.trials),
      )
  replay-Same (trial ∷ trials) s {s'} e =
      let (t, first, rest) = >>=-eq-ok (observe int_mul s trial) (λ t. replay int_mul t trials) e in
      let (p, q, r) = observe-Same s trial first in
      let (p', q', r') = replay-Same trials t rest in
      (p' ∙ p, q' ∙ q, r' ∙ ap (λ l. l ++ trials) r ∙ append_assoc s.trials (trial ∷ []) trials)

  -- Replaying one more trial is one more observation after the replay.
  pub replay-snoc :
      (trials : List TrialResult) (s : BatchSearch) (trial : TrialResult)
      → replay int_mul s (trials ++ trial ∷ [])
        ≡ (replay int_mul s trials >>= λ t. observe int_mul t trial)
  unfolding replay
  replay-snoc [] s trial = bind_ok (observe int_mul s trial)
  replay-snoc (t ∷ trials) s trial =
      bind_bind (observe int_mul s t) (λ u. replay int_mul u (trials ++ trial ∷ []))
        (λ u. replay int_mul u trials) (λ u. observe int_mul u trial)
        (λ u. replay-snoc trials u trial)

  pub replay-HasFreshIds :
      (trials : List TrialResult) (s : BatchSearch) {s' : BatchSearch}
      → HasFreshIds s.trials
      → replay int_mul s trials ≡ ok s'
      → HasFreshIds s'.trials
  unfolding replay
  replay-HasFreshIds [] s {s'} h e =
      let same : s ≡ s' = cc in subst (λ (x : BatchSearch). HasFreshIds x.trials) same h
  replay-HasFreshIds (trial ∷ trials) s h e =
      let (t, first, rest) = >>=-eq-ok (observe int_mul s trial) (λ t. replay int_mul t trials) e in
      let (_, _, fresh) = accepted_pending int_mul s trial first in
      let (_, _, r) = observe-Same s trial first in
      replay-HasFreshIds trials t
        (subst HasFreshIds (sym r) (HasFreshIds-snoc s.trials trial h fresh)) rest

module _ (int_mul : ℕ → Float → ℕ) (profile : TrainingProfile) (settings : SearchSettings) where
  pub started : {s : BatchSearch} → start profile settings ≡ ok s → s ≡ initial profile settings
  unfolding start
  started e =
      let (_, same) =
        raise_if-eq-ok
          (ltb settings.max_global_batch (step_of settings.search_strategy * world_size profile)) _
          (ok (initial profile settings)) e in
      ok-injective (sym same)

  -- A run from the start has the profile, the settings and the trials that it was given.
  pub run-Same :
      (trials : List TrialResult) (s₀ : BatchSearch) {s : BatchSearch}
      → start profile settings ≡ ok s₀
      → replay int_mul s₀ trials ≡ ok s
      → (s.profile ≡ profile) × (s.settings ≡ settings) × (s.trials ≡ trials)
  run-Same trials s₀ begun run =
      let (p, q, r) = replay-Same int_mul trials s₀ run in
      let fresh = started begun in
      (
        p ∙ ap (λ (x : BatchSearch). x.profile) fresh,
        q ∙ ap (λ (x : BatchSearch). x.settings) fresh,
        r ∙ ap (λ (x : BatchSearch). x.trials ++ trials) fresh,
      )

  -- What is shown in terms of the final search holds of what it was given.
  pub run_transport :
      (P : TrainingProfile → SearchSettings → List TrialResult → Type 0) (trials : List TrialResult)
      (s₀ s : BatchSearch)
      → start profile settings ≡ ok s₀
      → replay int_mul s₀ trials ≡ ok s
      → P s.profile s.settings s.trials
      → P profile settings trials
  run_transport P trials s₀ s begun run h =
      let (p, q, r) = run-Same trials s₀ begun run in subst₃ P p q r h
