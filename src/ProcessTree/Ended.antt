-- ===== src/ProcessTree/Ended.antt =====
-- What it means that `terminate` returns.
use clearml_yolo.Base.{ℕ, zero, suc, ◌+◌, leb, ◌≡◌, refl, Bool, true, false, Option, if_ind}
use mathlib.Core.Path.{subst}
use clearml_yolo.ProcessTree.{Host, Tree, with_world}
use clearml_yolo.ProcessTree.Lifecycle.{
  Answer, value, unverifiable, permission, survived, out_of_fuel, same_snapshot, running,
}
use clearml_yolo.ProcessTree.Quiet.{HasEnded, running-no}
use clearml_yolo.ProcessTree.Termination.{
  Control, signal, adopt_if, deadline_error, kill_if, slept, go_on, by_answer, terminate_loop,
  after_signal, terminate,
}

module _ {W : Type 0} (host : Host W) (control : Control W) where
  -- If it returned, `running` had answered no, and nothing came after it.
  abbrev Checked : Tree W × Answer (Unit {0}) → Type 0
  Checked (tree, value tt) = (before : Tree W) × (running host before ≡ (tree, value false))
  Checked (tree, unverifiable pids) = Unit
  Checked (tree, permission) = Unit
  Checked (tree, survived) = Unit
  Checked (tree, out_of_fuel) = Unit

  slept-Checked :
      (next : Tree W → Tree W × Answer (Unit {0})) (r : Tree W × Answer (Unit {0}))
      → ((tree : Tree W) → Checked (next tree))
      → Checked (slept host control next r)
  slept-Checked next (tree, value tt) checks = checks (with_world tree (control.sleep tree.world))
  slept-Checked next (tree, unverifiable pids) checks = tt
  slept-Checked next (tree, permission) checks = tt
  slept-Checked next (tree, survived) checks = tt
  slept-Checked next (tree, out_of_fuel) checks = tt

  deadline_error-Checked :
      (tree : Tree W) (answer : Answer Bool) → Checked (tree, deadline_error host control answer)
  deadline_error-Checked tree (value x) = tt
  deadline_error-Checked tree (unverifiable pids) = tt
  deadline_error-Checked tree permission = tt
  deadline_error-Checked tree survived = tt
  deadline_error-Checked tree out_of_fuel = tt

  go_on-Checked :
      (next : Tree W → Tree W × Answer (Unit {0})) (graceful deadline : ℕ) (tree : Tree W)
      (answer : Answer Bool)
      → ((tree : Tree W) → Checked (next tree))
      → Checked (go_on host control next graceful deadline tree answer)
  go_on-Checked next graceful deadline tree answer checks =
      let (w, time) = control.now tree.world in
      let (w', time') = control.now w in
      if_ind Checked (leb deadline time) (λ _. deadline_error-Checked (with_world tree w) answer)
        (λ _.
          slept-Checked next (kill_if host control (leb graceful time') (with_world tree w'))
            checks)

  by_answer-Checked :
      (next : Tree W → Tree W × Answer (Unit {0})) (graceful deadline : ℕ) (before : Tree W)
      (r : Tree W × Answer Bool)
      → running host before ≡ r
      → ((tree : Tree W) → Checked (next tree))
      → Checked (by_answer host control next graceful deadline r)
  by_answer-Checked next graceful deadline before (tree, value false) e checks = (before, e)
  by_answer-Checked next graceful deadline before (tree, value true) e checks =
      go_on-Checked next graceful deadline tree (value true) checks
  by_answer-Checked next graceful deadline before (tree, unverifiable pids) e checks =
      go_on-Checked next graceful deadline tree (unverifiable pids) checks
  by_answer-Checked next graceful deadline before (tree, permission) e checks = tt
  by_answer-Checked next graceful deadline before (tree, survived) e checks = tt
  by_answer-Checked next graceful deadline before (tree, out_of_fuel) e checks = tt

  terminate_loop-Checked :
      (fuel : ℕ) (parent : Option ℕ) (graceful deadline : ℕ) (tree : Tree W)
      → Checked (terminate_loop host control fuel parent graceful deadline tree)
  unfolding terminate_loop
  terminate_loop-Checked zero parent graceful deadline tree = tt
  terminate_loop-Checked (suc fuel) parent graceful deadline tree =
      by_answer-Checked (terminate_loop host control fuel parent graceful deadline) graceful
        deadline (adopt_if host control parent tree)
        (running host (adopt_if host control parent tree)) refl
        (terminate_loop-Checked fuel parent graceful deadline)

  after_signal-Checked :
      (fuel : ℕ) (parent : Option ℕ) (r : Tree W × Answer (Unit {0}))
      → Checked (after_signal host control fuel parent r)
  after_signal-Checked fuel parent (tree, value tt) =
      let (w, t) = control.now tree.world in
      terminate_loop-Checked fuel parent (t + 2000) (t + 10000) (with_world tree w)
  after_signal-Checked fuel parent (tree, unverifiable pids) = tt
  after_signal-Checked fuel parent (tree, permission) = tt
  after_signal-Checked fuel parent (tree, survived) = tt
  after_signal-Checked fuel parent (tree, out_of_fuel) = tt

  -- If a termination returns, its last two scans, one after the other, saw the same processes. In
  -- both nothing was unreadable and nothing changed, and each process of the table that belongs to
  -- the invocation was a zombie or excluded. With a marker, the processes that belong are the owners
  -- that the scan found; without one, they are also their descendants and the session of the root.
  pub terminate-HasEnded :
      (parent : Option ℕ) (first tree : Tree W)
      → terminate host control parent first ≡ (tree, value tt)
      → (before between : Tree W) × HasEnded host before between
        × HasEnded host between tree
        × (same_snapshot between.snapshot tree.snapshot ≡ true)
  unfolding terminate
  terminate-HasEnded parent first tree e =
      let (before, quiet) = subst Checked e (
        after_signal-Checked 10001 parent
          (signal host control false (adopt_if host control parent first))) in
      let (between, earlier, later, same) = running-no host before tree quiet in
      (before, between, earlier, later, same)
