-- ===== src/BatchEstimation/Search/Progress.antt =====
-- `observe` accepts every fresh trial of the pending batch, keeps the search well formed, and comes
-- closer to its end.
use mathlib.Core.Path.{subst}
use native.Mathlib.Nat.{mul-div_cancel}
use clearml_yolo.Base.{
  ℕ, ◌+◌, ◌-◌, ◌*◌, ◌/◌, ◌≤◌, ◌<◌, ◌≡◌, refl, sym, ◌≢◌, inl, inr, true, false, Option, none, some,
  [], ◌∷◌, ◌++◌, String, str_eq, any, Result, ok, All-append, length, arith, if_ind, ltb,
  if◌then◌else◌, ◌==◌,
}
use clearml_yolo.BatchEstimation.Model.{
  Float, SearchStatus, searching, failed, no_capacity, TrialStatus, success, oom, memory_limit,
  nonfinite, TrialResult, world_size,
}
use clearml_yolo.BatchEstimation.Search.{
  BatchSearch, ceiling, batch_step, observe, advance, discover, confirmed, is_settled, to_confirm,
  after_failure, after_nonfinite, absorb, finish, finish_with,
}
use clearml_yolo.BatchEstimation.Search.Trials.{trial_observation}
use clearml_yolo.BatchEstimation.Search.Trials.Evidence.{IsEvidenced_of_success}
use clearml_yolo.BatchEstimation.Search.Invariant.{
  IsGrounded, IsBracket, IsBelow, IsMeasured, Awaits, IsValid, advance_total,
}

-- The capacities per rank that are still open.
abbrev gap : ℕ → Option ℕ → ℕ → ℕ
gap lower none top = top + 1 - lower
gap lower (some u) top = u - lower

gap_raise :
    (lower c top : ℕ) (o : Option ℕ)
    → lower < c
    → c ≤ top
    → IsBelow c o
    → gap c o top < gap lower o top
gap_raise lower c top none h k b = omega arith
gap_raise lower c top (some u) h k b = omega arith

gap_fall :
    (lower c top : ℕ) (o : Option ℕ)
    → lower < c
    → c ≤ top
    → IsBelow c o
    → c - lower < gap lower o top
gap_fall lower c top none h k b = omega arith
gap_fall lower c top (some u) h k b = omega arith

pub IsBracket-raise :
    (lower c top step : ℕ) (o : Option ℕ)
    → IsBelow c o
    → IsBracket lower o top step
    → IsBracket c o top step
IsBracket-raise lower c top step none b h = tt
IsBracket-raise lower c top step (some u) b h = (b, h.1, h.2)

pub settled_pos :
    (lower c top step : ℕ)
    → is_settled lower (some c) top step ≡ true
    → (c == step) ≡ false
    → lower < c
    → c ≤ top
    → 0 < lower
unfolding is_settled
settled_pos lower c top step h e p q = ground arith

-- An upper bound for the number of trials to come.
abbrev pub measure : BatchSearch → ℕ
measure s = if s.confirming then 1 else 2 + gap s.lower s.upper (ceiling s)

-- The outcome of a step from `s`: no exception, a well-formed search, and less to do.
abbrev pub Progresses : BatchSearch → Result BatchSearch → Type 0
Progresses s r =
    (s' : BatchSearch) × (r ≡ ok s') × IsValid s' × (s'.status ≡ searching → measure s' < measure s)

IsValid-finish_with :
    (s : BatchSearch) (status : SearchStatus) (batch : Option ℕ) (diagnostic : String)
    → IsGrounded s
    → status ≢ searching
    → IsValid (finish_with s status batch diagnostic)
unfolding finish_with
IsValid-finish_with s status batch diagnostic v ends = record {
  grounded = record {
    has_rank = v.has_rank;
    within = v.within;
    on_grid = v.on_grid;
    bracket = v.bracket;
  };
  measured = λ e. absurd (ends e);
  pending = λ e. absurd (ends e);
  finished = λ _. refl;
}

finish_with-Progresses :
    (s t : BatchSearch) (status : SearchStatus) (batch : Option ℕ) (diagnostic : String)
    → IsGrounded t
    → status ≢ searching
    → Progresses s (ok (finish_with t status batch diagnostic))
unfolding finish_with
finish_with-Progresses s t status batch diagnostic v ends =
    (_, refl, IsValid-finish_with t status batch diagnostic v ends, λ e. absurd (ends e))

IsValid-to_confirm :
    (s : BatchSearch) (failure : String)
    → IsGrounded s
    → s.status ≡ searching
    → 0 < s.lower
    → IsValid (record (to_confirm s) { numerical_failure = failure })
unfolding to_confirm
IsValid-to_confirm s failure v active room = record {
  grounded = record {
    has_rank = v.has_rank;
    within = v.within;
    on_grid = v.on_grid;
    bracket = v.bracket;
  };
  measured = λ _ e. cc;
  pending = λ _. (s.lower, refl, (refl, room));
  finished = λ ends. absurd (ends active);
}

IsValid-next :
    (s : BatchSearch) (c : ℕ)
    → IsGrounded s
    → IsMeasured s
    → s.status ≡ searching
    → s.confirming ≡ false
    → Awaits false s c
    → IsValid (record s { next_batch = some (c * world_size s.profile) })
IsValid-next s c v measured active open_search awaits = record {
  grounded = record {
    has_rank = v.has_rank;
    within = v.within;
    on_grid = v.on_grid;
    bracket = v.bracket;
  };
  measured = λ _ _. measured;
  pending = λ _. (
    c,
    refl,
    subst (λ b. Awaits b (record s { next_batch = some (c * world_size s.profile) }) c)
        (sym open_search) awaits,
  );
  finished = λ ends. absurd (ends active);
}

-- The search after a trial is added to its history.
abbrev pub recorded : BatchSearch → TrialResult → String → BatchSearch
recorded s trial diagnostic = record s { trials = s.trials ++ trial ∷ []; diagnostic = diagnostic }

pub recorded-IsGrounded :
    (s : BatchSearch) (trial : TrialResult) (diagnostic : String)
    → IsGrounded s
    → IsGrounded (recorded s trial diagnostic)
recorded-IsGrounded s trial diagnostic v = record {
  has_rank = v.has_rank;
  within = v.within;
  on_grid = v.on_grid;
  bracket = v.bracket;
}

module _ (int_mul : ℕ → Float → ℕ) where
  -- `advance` from a bracket that has become smaller.
  advance-Progresses :
      (s t : BatchSearch)
      → IsGrounded t
      → IsMeasured t
      → t.status ≡ searching
      → t.confirming ≡ false
      → (is_settled t.lower t.upper (ceiling t) (batch_step t) ≡ true → 0 < t.lower)
      → 2 + gap t.lower t.upper (ceiling t) < measure s
      → Progresses s (advance int_mul t)
  unfolding to_confirm
  advance-Progresses s t v measured active open_search room less =
      let (t', e, how) = advance_total int_mul t v measured room in
      elim how [
        | inl (e', pos, _) ↦ (
          t',
          e,
          subst IsValid (sym e') (IsValid-to_confirm t t.numerical_failure v active pos),
          λ _. subst (λ x. measure x < measure s) (sym e') (omega arith),
        )
        | inr (c, e', awaits) ↦ (
          t',
          e,
          subst IsValid (sym e') (IsValid-next t c v measured active open_search awaits),
          λ _. subst (λ x. measure x < measure s) (sym e') (rw open_search less),
        )
      ]

  -- A valid search that awaits a trial of `c` images per rank, outside the confirmation.
  module _ (s : BatchSearch) (c : ℕ) (v : IsValid s) (active : s.status ≡ searching)
      (open_search : s.confirming ≡ false) (awaits : Awaits false s c) where
    measure_open : measure s ≡ 2 + gap s.lower s.upper (ceiling s)
    measure_open = rw open_search

    after_success-Progresses :
        (trial : TrialResult) (diagnostic : String)
        → length trial.peak_memory_bytes ≡ world_size s.profile
        → Progresses s (advance int_mul (record (recorded s trial diagnostic) { lower = c }))
    after_success-Progresses trial diagnostic peaks =
        let (above, within, grid, below) = awaits in
        let smaller = gap_raise s.lower c (ceiling s) s.upper above within below in
        advance-Progresses s (record (recorded s trial diagnostic) { lower = c })
          (record {
            has_rank = v.grounded.has_rank;
            within = within;
            on_grid = grid;
            bracket =
                IsBracket-raise s.lower c (ceiling s) (batch_step s) s.upper below
                  v.grounded.bracket;
          })
          (λ unbounded.
            All-append _ s.trials (trial ∷ []) (v.measured active open_search unbounded)
              (peaks, tt))
          active open_search (λ _. omega arith) (rw measure_open (omega arith))

    after_failure-Progresses :
        (trial : TrialResult) (diagnostic : String)
        → Progresses s (after_failure int_mul (recorded s trial diagnostic) c)
    unfolding after_failure finish
    after_failure-Progresses trial diagnostic =
        let (above, within, grid, below) = awaits in
        let smaller = gap_fall s.lower c (ceiling s) s.upper above within below in
        if_ind (Progresses s) (c == batch_step s)
          (λ _.
            finish_with-Progresses s (recorded s trial diagnostic) no_capacity none diagnostic
              (record {
                has_rank = v.grounded.has_rank;
                within = v.grounded.within;
                on_grid = v.grounded.on_grid;
                bracket = v.grounded.bracket;
              })
              (cc))
          λ coarse.
            advance-Progresses s (record (recorded s trial diagnostic) { upper = some c })
              (record {
                has_rank = v.grounded.has_rank;
                within = v.grounded.within;
                on_grid = v.grounded.on_grid;
                bracket = (above, within, grid);
              })
              (λ unbounded. cc) active open_search
              (λ settled.
                settled_pos s.lower c (ceiling s) (batch_step s) settled coarse above within)
              (rw measure_open (omega arith))

    after_nonfinite-Progresses :
        (trial : TrialResult) (diagnostic : String)
        → Progresses s (ok (after_nonfinite (recorded s trial diagnostic) trial diagnostic))
    unfolding after_nonfinite finish
    after_nonfinite-Progresses trial diagnostic =
        if_ind (λ t. Progresses s (ok t)) (ltb 0 s.lower)
          (λ room. (
            _,
            refl,
            IsValid-to_confirm (recorded s trial diagnostic) _
                (recorded-IsGrounded s trial diagnostic v.grounded) active (ground arith),
            λ _. rw measure_open (omega arith),
          ))
          λ _.
            finish_with-Progresses s (recorded s trial diagnostic) failed none diagnostic
              (recorded-IsGrounded s trial diagnostic v.grounded) (cc)

    discover-Progresses :
        (trial : TrialResult) (status : TrialStatus) (diagnostic : String)
        → trial.global_batch / world_size s.profile ≡ c
        → (status ≡ success → length trial.peak_memory_bytes ≡ world_size s.profile)
        → Progresses s (discover int_mul (recorded s trial diagnostic) trial status diagnostic)
    unfolding discover finish
    discover-Progresses trial success diagnostic per_rank peaks =
        rw per_rank (after_success-Progresses trial diagnostic (peaks refl))
    discover-Progresses trial oom diagnostic per_rank peaks =
        rw per_rank (after_failure-Progresses trial diagnostic)
    discover-Progresses trial memory_limit diagnostic per_rank peaks =
        rw per_rank (after_failure-Progresses trial diagnostic)
    discover-Progresses trial nonfinite diagnostic per_rank peaks =
        after_nonfinite-Progresses trial diagnostic
    discover-Progresses trial _ diagnostic per_rank peaks =
        finish_with-Progresses s (recorded s trial diagnostic) failed none diagnostic
          (recorded-IsGrounded s trial diagnostic v.grounded) (cc)

  -- The confirmation ends the search.
  confirmed-Progresses :
      (s t : BatchSearch) (status : TrialStatus) (diagnostic : String)
      → IsGrounded t
      → Progresses s (ok (confirmed t status diagnostic))
  unfolding confirmed finish
  confirmed-Progresses s t success diagnostic v =
      if_ind (λ u. Progresses s (ok u)) (str_eq t.numerical_failure "")
        (λ _. finish_with-Progresses s t _ _ _ v (ground arith))
        (λ _. finish_with-Progresses s t _ _ _ v (cc))
  confirmed-Progresses s t _ diagnostic v = finish_with-Progresses s t failed none _ v (cc)

  absorb-Progresses :
      (s : BatchSearch) (trial : TrialResult) (o : TrialStatus × String)
      → IsValid s
      → s.status ≡ searching
      → s.next_batch ≡ some trial.global_batch
      → (o.0 ≡ success → length trial.peak_memory_bytes ≡ world_size s.profile)
      → Progresses s (absorb int_mul s trial o)
  unfolding absorb
  absorb-Progresses s trial (status, diagnostic) v active next peaks =
      let (c, e, awaits) = v.pending active in
      let batch : trial.global_batch ≡ c * world_size s.profile = ground arith in
      let per_rank : trial.global_batch / world_size s.profile ≡ c =
        rw batch (mul-div_cancel c v.grounded.has_rank) in
      if_ind (Progresses s) s.confirming
        (λ _.
          confirmed-Progresses s (recorded s trial diagnostic) status diagnostic
            (recorded-IsGrounded s trial diagnostic v.grounded))
        λ open_search.
          discover-Progresses s c v active open_search
            (subst (λ b. Awaits b s c) open_search awaits) trial status diagnostic per_rank peaks

  pub observe-eq-absorb :
      (s : BatchSearch) (trial : TrialResult)
      → s.status ≡ searching
      → s.next_batch ≡ some trial.global_batch
      → any (λ (prior : TrialResult). str_eq prior.trial_id trial.trial_id) s.trials ≡ false
      → observe int_mul s trial
        ≡ absorb int_mul s trial (trial_observation int_mul trial s.profile s.settings)
  unfolding observe
  observe-eq-absorb s trial active next fresh = ground arith

  -- A fresh trial of the pending batch is accepted, leaves a well-formed search, and lowers the
  -- bound of the trials to come.
  pub observe-Progresses :
      (s : BatchSearch) (trial : TrialResult)
      → IsValid s
      → s.status ≡ searching
      → s.next_batch ≡ some trial.global_batch
      → any (λ (prior : TrialResult). str_eq prior.trial_id trial.trial_id) s.trials ≡ false
      → Progresses s (observe int_mul s trial)
  observe-Progresses s trial v active next fresh =
      subst (Progresses s) (sym (observe-eq-absorb s trial active next fresh)) (
        absorb-Progresses s trial (trial_observation int_mul trial s.profile s.settings) v active
          next (λ e. (IsEvidenced_of_success int_mul trial s.profile s.settings e).peak_per_rank))
