-- ===== src/WorkerPool/Reports.antt =====
-- Every key is reported at most once, whatever the calls are.
use clearml_yolo.Base.{
  ℕ, ◌+◌, ◌≤◌, ◌≡◌, refl, Bool, true, false, ◌&&◌, ◌||◌, not, Option, none, some, List, [], ◌∷◌,
  ◌++◌, String, str_eq, any, Result, arith, if_ind, eq_iff, eq_refl, Bool-cases, inl, inr,
}
use mathlib.Core.Path.{subst}
use clearml_yolo.Base.Int.{ℤ}
use clearml_yolo.WorkerPool.{
  poll_worker, WorkerCompletion, Worker, Pool, new_pool, enter, has_context, WorkerCommand, Started,
  not_started, no_tree, running, is_empty_command, register, start, Observed, poll_workers, poll,
  exit, Call, call_enter, call_start, call_poll, call_exit, reported_by, entered_or, call, run,
}

abbrev pub one_if : Bool → ℕ
one_if true = 1
one_if false = 0

-- How often a key is reported.
abbrev pub reports : String → List WorkerCompletion → ℕ
reports key [] = 0
reports key (completed ∷ rest) = one_if (str_eq completed.key key) + reports key rest

-- The workers of a key that were not reported yet.
abbrev pub unreported : String → List Worker → ℕ
unreported key [] = 0
unreported key (worker ∷ workers) =
    one_if (str_eq worker.key key && not worker.reported) + unreported key workers

abbrev pub used : String → Pool → ℕ
used key pool = one_if (any (str_eq key) pool.keys)

unreported-append :
    (key : String) (xs ys : List Worker)
    → unreported key (xs ++ ys) ≡ unreported key xs + unreported key ys
unreported-append key [] ys = omega arith
unreported-append key (x ∷ xs) ys = omega (arith, unreported-append key xs ys)

reports-append :
    (key : String) (xs ys : List WorkerCompletion)
    → reports key (xs ++ ys) ≡ reports key xs + reports key ys
reports-append key [] ys = omega arith
reports-append key (x ∷ xs) ys = omega (arith, reports-append key xs ys)

-- A poll reports a key as often as it stops being unreported.
abbrev Balanced : String → List Worker → List Worker × List WorkerCompletion → Type 0
Balanced key workers r = reports key r.1 + unreported key r.0 ≡ unreported key workers

poll_worker-Balanced :
    (key : String) (worker : Worker) (ended : Option (ℤ × List String)) (workers : List Worker)
    (later : List Worker × List WorkerCompletion)
    → worker.reported ≡ false
    → Balanced key workers later
    → Balanced key (worker ∷ workers) (poll_worker worker ended later)
poll_worker-Balanced key worker none workers (kept, completed) new h = ground (arith, new, h)
poll_worker-Balanced key worker (some (code, [])) workers (kept, completed) new h =
    ground (arith, new, h)
poll_worker-Balanced key worker (some (code, failure ∷ failures)) workers (kept, completed) new h =
    ground (arith, new, h)

poll_workers-Balanced :
    (observed : Observed) (key : String) (workers : List Worker)
    → Balanced key workers (poll_workers observed workers)
unfolding poll_workers
poll_workers-Balanced observed key [] = refl
poll_workers-Balanced observed key (worker ∷ workers) =
    let later = poll_workers-Balanced observed key workers in
    if_ind (Balanced key (worker ∷ workers)) worker.reported (λ old. ground (arith, old, later))
      (λ new.
        poll_worker-Balanced key worker (observed worker.key) workers
          (poll_workers observed workers) new later)

-- A call reports a key, or leaves it unreported, only if it was unreported or is newly used.
abbrev Accounts : Pool → Pool × List WorkerCompletion → Type 0
Accounts pool r =
    (key : String)
    → reports key r.1 + unreported key r.0.workers + used key pool
      ≤ unreported key pool.workers + used key r.0

-- A key that was not used accounts for its new worker.
grown :
    (keys : List String) (key other : String)
    → any (str_eq key) keys ≡ false
    → one_if (str_eq key other && true) + one_if (any (str_eq other) keys)
      ≤ one_if (any (str_eq other) (key ∷ keys))
grown keys key other new = elim (Bool-cases (str_eq key other)) [
  | inl e ↦
      subst
        (λ other.
          one_if (str_eq key other && true) + one_if (any (str_eq other) keys)
          ≤ one_if (any (str_eq other) (key ∷ keys)))
        ((eq_iff key other).0 e) (ground (arith, eq_refl key, new))
  | inr e ↦ ground (arith, e)
]

register-Accounts :
    (pool : Pool) (key : String) (outcome : Started)
    → any (str_eq key) pool.keys ≡ false
    → Accounts pool ((register (record pool { keys = key ∷ pool.keys }) key outcome).0, [])
register-Accounts pool key (not_started problem) new other = ground (arith, new, eq_iff key other)
register-Accounts pool key (no_tree problem []) new other = ground (arith, new, eq_iff key other)
register-Accounts pool key (no_tree problem (failure ∷ failures)) new other = omega (
  arith,
  unreported-append other pool.workers (record { key = key; reported = false } ∷ []),
  grown pool.keys key other new,
)
register-Accounts pool key running new other = omega (
  arith,
  unreported-append other pool.workers (record { key = key; reported = false } ∷ []),
  grown pool.keys key other new,
)

start-Accounts :
    (pool : Pool) (key : String) (command : WorkerCommand) (outcome : Started)
    → Accounts pool ((start pool key command outcome).0, [])
unfolding start
start-Accounts pool key command outcome =
    if_ind (λ (r : Pool × Result (Unit {0})). Accounts pool (r.0, [])) (not (has_context pool))
      (λ _ other. omega arith)
      (λ _.
        if_ind (λ (r : Pool × Result (Unit {0})). Accounts pool (r.0, []))
          (str_eq key "" || is_empty_command command) (λ _ other. omega arith)
          (λ _.
            if_ind (λ (r : Pool × Result (Unit {0})). Accounts pool (r.0, []))
              (any (str_eq key) pool.keys) (λ _ other. omega arith)
              (λ new. register-Accounts pool key outcome new)))

poll-Accounts :
    (pool : Pool) (observed : Observed)
    → Accounts pool ((poll observed pool).0, reported_by (poll observed pool).1)
unfolding poll
poll-Accounts pool observed =
    if_ind (λ (r : Pool × Result (List WorkerCompletion)). Accounts pool (r.0, reported_by r.1))
      (has_context pool)
      (λ _ other. omega (arith, poll_workers-Balanced observed other pool.workers))
      (λ _ other. omega arith)

exit-Accounts : (pool : Pool) (failures : List String) → Accounts pool ((exit failures pool).0, [])
unfolding exit
exit-Accounts pool failures other = ground arith

enter-Accounts : (pool : Pool) → Accounts pool (entered_or pool (enter pool), [])
unfolding enter
enter-Accounts pool other = ground arith

call-Accounts : (pool : Pool) (c : Call) → Accounts pool (call pool c)
unfolding call
call-Accounts pool call_enter = enter-Accounts pool
call-Accounts pool (call_start key command outcome) = start-Accounts pool key command outcome
call-Accounts pool (call_poll observed) = poll-Accounts pool observed
call-Accounts pool (call_exit failures) = exit-Accounts pool failures

pub run-Accounts : (cs : List Call) (pool : Pool) → Accounts pool (run pool cs)
unfolding run
run-Accounts [] pool key = omega arith
run-Accounts (c ∷ cs) pool key = omega (
  arith,
  call-Accounts pool c key,
  run-Accounts cs (call pool c).0 key,
  reports-append key (call pool c).1 (run (call pool c).0 cs).1,
)

one_if_le : (b : Bool) → one_if b ≤ 1
one_if_le true = omega arith
one_if_le false = omega arith

-- Over any calls of the methods of a new pool, whatever the processes do, and also where calls raise,
-- no key is reported more than once.
pub run-reports : (cs : List Call) (key : String) → reports key (run new_pool cs).1 ≤ 1
run-reports cs key =
    omega
      (arith, run-Accounts cs new_pool key, one_if_le (any (str_eq key) (run new_pool cs).0.keys))
