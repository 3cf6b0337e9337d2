-- ===== src/WorkerPool.antt =====
-- adapters/runtime/worker_pool.py: `IndependentWorkerPool` as a state that its methods change. What
-- the operating system does is given to the methods: whether a process started, its exit code, and
-- the failures of each attempt to clean up.
pub mod Reports
mod Examples
use clearml_yolo.Base.Int.{ℤ}
use clearml_yolo.Base.{
  ℕ, Bool, true, false, ◌&&◌, ◌||◌, not, Option, none, some, List, [], ◌∷◌, ◌++◌, String, ◌<>◌,
  join, str_eq, any, keep, Error, Result, ok, err, value_error, runtime_error, if◌then◌else◌,
}

pub record WorkerCompletion : Type 0 where
  pub key : String
  pub exit_code : ℤ
  pub cleanup_complete : Bool
  pub diagnostic : String

-- An owned worker. The process is named by its key.
pub record Worker : Type 0 where
  pub key : String
  pub reported : Bool

-- `_stack is not None` is `entered`; `_workers` keeps the order of insertion.
pub record Pool : Type 0 where
  pub entered : Bool
  pub closed : Bool
  pub workers : List Worker
  pub keys : List String

-- `__init__`
abbrev pub new_pool : Pool
new_pool = record { entered = false; closed = false; workers = []; keys = [] }

-- `__enter__`
unfoldable pub enter : Pool → Result Pool
enter pool =
    if pool.entered || pool.closed
    then err (runtime_error "An independent worker pool cannot be reused")
    else ok (record pool { entered = true })

-- `_require_context`
abbrev pub has_context : Pool → Bool
has_context pool = pool.entered && not pool.closed

-- The command line and the outcome of its start.
pub record WorkerCommand : Type 0 where
  pub argv : List String

pub data Started : Type 0 where
  -- The log could not be opened, or the process not started.
  not_started : Error → Started
  -- The process tree could not be built; the failures are those of the cleanup.
  no_tree : Error → List String → Started
  running : Started

abbrev pub is_empty_command : WorkerCommand → Bool
is_empty_command command = elim command.argv [ [] ↦ true | program ∷ _ ↦ str_eq program "" ]

abbrev pub without : String → List Worker → List Worker
without key = keep (λ (worker : Worker). not (str_eq worker.key key))

-- The end of `start`, once the key is taken.
abbrev pub register : Pool → String → Started → Pool × Result (Unit {0})
register pool key (not_started problem) = (pool, err problem)
register pool key (no_tree problem []) = (pool, err problem)
register pool key (no_tree problem (failure ∷ failures)) = (
  record pool { workers = pool.workers ++ record { key = key; reported = false } ∷ [] },
  err (runtime_error "Worker startup and cleanup failed"),
)
register pool key running =
    (record pool { workers = pool.workers ++ record { key = key; reported = false } ∷ [] }, ok tt)

-- `start`: a key that was used, even by a start that failed, is never taken again.
unfoldable pub start : Pool → String → WorkerCommand → Started → Pool × Result (Unit {0})
start pool key command outcome =
    if not (has_context pool)
    then (pool, err (runtime_error "Independent workers require an active pool context"))
    else if str_eq key "" || is_empty_command command
    then (pool, err (value_error "Worker key and command must be nonempty"))
    else if any (str_eq key) pool.keys
    then (pool, err (value_error ("Worker key '" <> key <> "' was already used")))
    else register (record pool { keys = key ∷ pool.keys }) key outcome

-- The exit code of a worker's process, if it ended, and the failures of its cleanup.
abbrev pub Observed : Type 0
Observed = String → Option (ℤ × List String)

abbrev pub completion : String → ℤ → List String → WorkerCompletion
completion key exit_code failures = record {
  key = key;
  exit_code = exit_code;
  cleanup_complete = elim failures [ [] ↦ true | _ ∷ _ ↦ false ];
  diagnostic = join "; " failures;
}

-- What is kept of a worker that ended: it is kept only if its cleanup failed.
abbrev pub retained : Worker → List String → List Worker
retained worker [] = []
retained worker (_ ∷ _) = record worker { reported = true } ∷ []

-- One unreported worker in the loop of `poll`, before what the loop gives for the later ones.
abbrev pub poll_worker :
    Worker
    → Option (ℤ × List String)
    → List Worker × List WorkerCompletion
    → List Worker × List WorkerCompletion
poll_worker worker none (kept, completed) = (worker ∷ kept, completed)
poll_worker worker (some (code, failures)) (kept, completed) =
    (retained worker failures ++ kept, completion worker.key code failures ∷ completed)

-- The loop of `poll`: the workers that are kept, and the completions.
unfoldable pub poll_workers : Observed → List Worker → List Worker × List WorkerCompletion
poll_workers observed [] = ([], [])
poll_workers observed (worker ∷ workers) =
    let later = poll_workers observed workers in
    if worker.reported
    then (worker ∷ later.0, later.1)
    else poll_worker worker (observed worker.key) later

-- `poll`
unfoldable pub poll : Observed → Pool → Pool × Result (List WorkerCompletion)
unfolding poll_workers
poll observed pool =
    let (kept, completed) = poll_workers observed pool.workers in
    if has_context pool
    then (record pool { workers = kept }, ok completed)
    else (pool, err (runtime_error "Independent workers require an active pool context"))

-- `__exit__`, with the failures of stopping the workers and of leaving the scope.
unfoldable pub exit : List String → Pool → Pool × Result (Unit {0})
exit failures pool =
    let closed = record pool { entered = false; closed = true; workers = [] } in
    if pool.entered
    then (
      closed,
      elim failures [
        | [] ↦ ok tt
        | _ ∷ _ ↦ err (runtime_error "Independent worker cleanup failed")
      ],
    )
    else (pool, err (runtime_error "Independent workers require an active pool context"))

-- A call of one of the methods, with what the operating system does in it.
pub data Call : Type 0 where
  call_enter : Call
  call_start : String → WorkerCommand → Started → Call
  call_poll : Observed → Call
  call_exit : List String → Call

-- The completions that a poll gave.
abbrev pub reported_by : Result (List WorkerCompletion) → List WorkerCompletion
reported_by (ok completed) = completed
reported_by (err _) = []

abbrev pub entered_or : Pool → Result Pool → Pool
entered_or pool (ok pool') = pool'
entered_or pool (err _) = pool

-- The pool after a call, and the completions that the call gave. A call that raises may be followed
-- by others.
unfoldable pub call : Pool → Call → Pool × List WorkerCompletion
unfolding enter start poll exit
call pool call_enter = (entered_or pool (enter pool), [])
call pool (call_start key command outcome) = ((start pool key command outcome).0, [])
call pool (call_poll observed) = let (pool', r) = poll observed pool in (pool', reported_by r)
call pool (call_exit failures) = ((exit failures pool).0, [])

-- The pool after a sequence of calls, and all completions in their order.
unfoldable pub run : Pool → List Call → Pool × List WorkerCompletion
unfolding call
run pool [] = (pool, [])
run pool (c ∷ cs) =
    let (pool₁, first) = call pool c in let (pool₂, rest) = run pool₁ cs in (pool₂, first ++ rest)
