-- ===== src/ProcessTree/Examples.antt =====
-- The process tree on a small host.
use clearml_yolo.Base.{
  ℕ, ◌+◌, ◌==◌, ◌≡◌, refl, sym, inl, inr, ◌↔◌, Bool, true, false, none, some, List, [], ◌∷◌, arith,
  if◌then◌else◌,
}
use clearml_yolo.ProcessTree.{
  Process, Reading, gone, found, Host, Tree, new_tree, has, begin_scan, known_owners, marked_owners,
  extend_unmarked_owners,
}
use mathlib.Core.Path.{subst}
use clearml_yolo.ProcessTree.Marked.{IsStill, marked_owners-keep}
use clearml_yolo.ProcessTree.Closure.{In, Owned, extend_unmarked_owners-iff-Owned}
use clearml_yolo.ProcessTree.Lifecycle.{
  value, out_of_fuel, same_snapshot, owned, live_pids, running,
}
use clearml_yolo.ProcessTree.Quiet.{HasEnded}
use clearml_yolo.ProcessTree.Termination.{Control, signal, adopt_children, terminate}
use clearml_yolo.ProcessTree.Clock.{HostKeepsTime}
use clearml_yolo.ProcessTree.Signals.{ControlKeepsTime}
use clearml_yolo.ProcessTree.Bounded.{terminate-ne-out_of_fuel}
use clearml_yolo.ProcessTree.Ended.{terminate-HasEnded}

abbrev process_at : ℕ → ℕ → ℕ → Bool → Process
process_at pid parent session zombie = record {
  pid = pid;
  parent = parent;
  session = session;
  born = 5 + pid;
  zombie = zombie;
}

-- A worker 10, its child 11 and its grandchild 12, a process 13 of the worker's session, and another.
abbrev family : List Process
family =
    process_at 12 11 90 false
    ∷ process_at 11 10 90 false
    ∷ process_at 10 1 10 false
    ∷ process_at 13 1 10 false
    ∷ process_at 14 1 91 false
    ∷ []

test-extend : extend_unmarked_owners false 10 family (10 ∷ []) ≡ some (12 ∷ 11 ∷ 10 ∷ [])
unfolding extend_unmarked_owners
test-extend = refl

test-extend-session :
    extend_unmarked_owners true 10 family (10 ∷ []) ≡ some (12 ∷ 13 ∷ 11 ∷ 10 ∷ [])
unfolding extend_unmarked_owners
test-extend-session = refl

extend_unmarked_owners-iff-Owned_example :
    (owners' : List ℕ) × (extend_unmarked_owners true 10 family (10 ∷ []) ≡ some owners')
    × ((pid : ℕ) → (has owners' pid ≡ true) ↔ Owned true 10 family (10 ∷ []) pid)
extend_unmarked_owners-iff-Owned_example = extend_unmarked_owners-iff-Owned true 10 family (10 ∷ [])

-- A host with a worker 10 that a signal ends, and its time. It has an unrelated process 14.
abbrev Machine : Type 0
Machine = ℕ × Bool

abbrev alive_now : Machine → ℕ → Reading Process
alive_now (time, lives) pid =
    if pid == 10
    then found (process_at 10 1 10 (if lives then false else true))
    else if pid == 14
    then found (process_at 14 90 91 false)
    else gone

abbrev machine : Host Machine
machine = record {
  pids = λ m. (m, 10 ∷ 14 ∷ []);
  is_own = λ pid m. (m, found true);
  read_process = λ pid m. (m, alive_now m pid);
  has_marker = λ pid m. (m, found (pid == 10));
}

abbrev sleeps : Machine → Machine
sleeps (time, lives) = (50 + time, lives)

abbrev ends_at : ℕ → Machine → Machine
ends_at pid (time, lives) = (time, if pid == 10 then false else lives)

abbrev kernel : Control Machine
kernel = record {
  own_pid = 1;
  open_pidfd = λ pid m. (m, true);
  send_signal = λ pid kills m. ends_at pid m;
  wait = λ pid m. m;
  now = λ m. (m, m.0);
  sleep = sleeps;
}

abbrev worker_tree : Machine → Bool → Tree Machine
worker_tree world marked = record {
  world = world;
  root = 10;
  marked = marked;
  excluded = [];
  born = some 15;
  identities = (10, 15) ∷ [];
  unreadable = [];
  scan_changed = false;
  snapshot = [];
}

abbrev ended_tree : Tree Machine
ended_tree = record (worker_tree (7, false) true) {
  snapshot = (10, 15, true) ∷ (14, 19, false) ∷ [];
}

test-new_tree : new_tree machine 10 true none [] [] (7, true) ≡ some (worker_tree (7, true) true)
unfolding new_tree
test-new_tree = refl

test-new_tree-gone :
    new_tree machine 11 true none [] [] (7, true)
    ≡ some (record (worker_tree (7, true) true) { root = 11; born = none; identities = [] })
unfolding new_tree
test-new_tree-gone = refl

test-live_pids : (live_pids machine (worker_tree (7, true) true)).1 ≡ 10 ∷ []
unfolding owned marked_owners begin_scan known_owners
test-live_pids = refl

test-running : (running machine (worker_tree (7, true) true)).1 ≡ value true
unfolding running marked_owners begin_scan known_owners
test-running = refl

terminate-HasEnded_example :
    (before between : Tree Machine) × HasEnded machine before between
    × HasEnded machine between ended_tree
    × (same_snapshot between.snapshot ended_tree.snapshot ≡ true)
unfolding terminate signal begin_scan marked_owners known_owners adopt_children running
terminate-HasEnded_example =
    terminate-HasEnded machine kernel (some 1) (worker_tree (7, true) true) ended_tree refl

machine_keeps : HostKeepsTime (λ (m : Machine). m.0) machine
machine_keeps = record {
  pids_late = λ w. omega arith;
  own_late = λ pid w. omega arith;
  read_late = λ pid w. omega arith;
  marker_late = λ pid w. omega arith;
}

kernel_keeps : ControlKeepsTime (λ (m : Machine). m.0) kernel
kernel_keeps = record {
  open_late = λ pid w. omega arith;
  signal_late = λ pid kills w. omega arith;
  clock_reads = λ w. (omega arith, omega arith);
  sleep_takes = λ w. omega arith;
}

terminate-ne-out_of_fuel_example :
    ¬ ((terminate machine kernel (some 1) (worker_tree (7, true) true)).1 ≡ out_of_fuel)
terminate-ne-out_of_fuel_example =
    terminate-ne-out_of_fuel (λ (m : Machine). m.0) machine kernel machine_keeps kernel_keeps
      (some 1) (worker_tree (7, true) true)

-- A host on which nothing happens, and its processes.
abbrev still_machine : Host Machine
still_machine = record machine { read_process = λ pid m. (m, alive_now (0, true) pid) }

abbrev still_table : List Process
still_table = process_at 10 1 10 false ∷ process_at 14 90 91 false ∷ []

is_still : IsStill still_machine (λ pid. pid == 10) still_table
is_still = record { same_process = same; same_marker = λ pid w. refl }
  where
    same :
        (process : Process)
        → In process still_table
        → (w : Machine) → still_machine.read_process process.pid w ≡ (w, found process)
    same process (inl e) w =
        subst (λ (p : Process). still_machine.read_process p.pid w ≡ (w, found p)) (sym e) refl
    same process (inr (inl e)) w =
        subst (λ (p : Process). still_machine.read_process p.pid w ≡ (w, found p)) (sym e) refl
    same process (inr (inr m)) w = absurd m

marked_owners-keep_example :
    marked_owners still_machine still_table (worker_tree (7, true) true)
    ≡ (worker_tree (7, true) true, 10 ∷ [])
marked_owners-keep_example =
    marked_owners-keep still_machine (λ pid. pid == 10) still_table (worker_tree (7, true) true)
      is_still
