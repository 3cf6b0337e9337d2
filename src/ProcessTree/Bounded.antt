-- ===== src/ProcessTree/Bounded.antt =====
-- The termination of the owned processes takes a bounded time.
use clearml_yolo.Base.{
  ℕ, zero, suc, ◌+◌, ◌≤◌, ◌<◌, leb, ◌≡◌, Bool, true, false, Option, none, some, List, [], ◌∷◌,
  arith, if_ind,
}
use clearml_yolo.ProcessTree.{Process, Host, Tree, with_world}
use clearml_yolo.ProcessTree.Lifecycle.{
  owned, Answer, value, unverifiable, permission, survived, out_of_fuel, Snapshot, verdict,
  second_verdict, first_verdict, running,
}
use clearml_yolo.ProcessTree.Termination.{
  Control, signal, adopt_if, deadline_error, kill_if, slept, go_on, by_answer, terminate_loop,
  after_signal, terminate,
}
use clearml_yolo.ProcessTree.Clock.{HostKeepsTime, running-late}
use clearml_yolo.ProcessTree.Signals.{
  ControlKeepsTime, Finite, Finite-ne, GoodTree, signal-Good, adopt_if-late,
}

module _ {W : Type 0} (time : W → ℕ) (host : Host W) (control : Control W)
    (keeps : HostKeepsTime time host) (runs : ControlKeepsTime time control) where
  IfFinite : Option (Answer Bool) → Type 0
  IfFinite none = Unit
  IfFinite (some answer) = Finite answer

  verdict-Finite :
      (unreadable : List ℕ) (scan_changed : Bool) (alive : List Process)
      → IfFinite (verdict host unreadable scan_changed alive)
  unfolding IfFinite
  verdict-Finite (pid ∷ unreadable) scan_changed alive = tt
  verdict-Finite [] true alive = tt
  verdict-Finite [] false (process ∷ alive) = tt
  verdict-Finite [] false [] = tt

  second_verdict-Finite :
      (before : Snapshot) (tree : Tree W) (o : Option (Answer Bool))
      → IfFinite o
      → Finite (second_verdict host before tree o).1
  unfolding IfFinite
  second_verdict-Finite before tree none h = tt
  second_verdict-Finite before tree (some answer) h = h

  first_verdict-Finite :
      (tree : Tree W) (o : Option (Answer Bool)) → IfFinite o → Finite (first_verdict host tree o).1
  unfolding IfFinite
  first_verdict-Finite tree (some answer) h = h
  first_verdict-Finite tree none h =
      let (tree', alive) = owned host tree in
      second_verdict-Finite tree.snapshot tree'
        (verdict host tree'.unreadable tree'.scan_changed alive)
        (verdict-Finite tree'.unreadable tree'.scan_changed alive)

  running-Finite : (tree : Tree W) → Finite (running host tree).1
  unfolding running
  running-Finite tree =
      let (tree', alive) = owned host tree in
      first_verdict-Finite tree' (verdict host tree'.unreadable tree'.scan_changed alive)
        (verdict-Finite tree'.unreadable tree'.scan_changed alive)

  kill_if-Good :
      (t : ℕ) (late : Bool) (tree : Tree W)
      → t ≤ time tree.world
      → GoodTree time host control t (kill_if host control late tree)
  kill_if-Good t true tree le = signal-Good time host control keeps runs t true tree le
  kill_if-Good t false tree le = (le, tt)

  slept-Finite :
      (t : ℕ) (next : Tree W → Tree W × Answer (Unit {0})) (r : Tree W × Answer (Unit {0}))
      → GoodTree time host control t r
      → ((tree : Tree W) → t < time tree.world → Finite (next tree).1)
      → Finite (slept host control next r).1
  slept-Finite t next (tree, value tt) h goes =
      goes (with_world tree (control.sleep tree.world))
        (omega (arith, h.0, runs.sleep_takes tree.world))
  slept-Finite t next (tree, unverifiable pids) h goes = tt
  slept-Finite t next (tree, permission) h goes = tt
  slept-Finite t next (tree, survived) h goes = tt
  slept-Finite t next (tree, out_of_fuel) h goes = h.1

  deadline_error-Finite :
      (answer : Answer Bool) → Finite answer → Finite (deadline_error host control answer)
  deadline_error-Finite (value x) h = tt
  deadline_error-Finite (unverifiable pids) h = tt
  deadline_error-Finite permission h = tt
  deadline_error-Finite survived h = tt
  deadline_error-Finite out_of_fuel h = h

  go_on-Finite :
      (next : Tree W → Tree W × Answer (Unit {0})) (graceful deadline : ℕ) (tree : Tree W)
      (answer : Answer Bool)
      → Finite answer
      → ((tree' : Tree W)
          → time tree.world < deadline
          → time tree.world < time tree'.world
          → Finite (next tree').1)
      → Finite (go_on host control next graceful deadline tree answer).1
  go_on-Finite next graceful deadline tree answer h goes =
      let (w, time₁) = control.now tree.world in
      let (w', time₂) = control.now w in
      if_ind (λ (r : Tree W × Answer (Unit {0})). Finite r.1) (leb deadline time₁)
        (λ _. deadline_error-Finite answer h)
        (λ early.
          slept-Finite (time tree.world) next
            (kill_if host control (leb graceful time₂) (with_world tree w'))
            (kill_if-Good (time tree.world) (leb graceful time₂) (with_world tree w')
              (omega (arith, runs.clock_reads tree.world, runs.clock_reads w)))
            (λ tree' later. goes tree' (ground (arith, runs.clock_reads tree.world)) later))

  by_answer-Finite :
      (next : Tree W → Tree W × Answer (Unit {0})) (graceful deadline : ℕ)
      (r : Tree W × Answer Bool)
      → Finite r.1
      → ((tree : Tree W)
          → time r.0.world < deadline
          → time r.0.world < time tree.world
          → Finite (next tree).1)
      → Finite (by_answer host control next graceful deadline r).1
  by_answer-Finite next graceful deadline (tree, value false) h goes = tt
  by_answer-Finite next graceful deadline (tree, value true) h goes =
      go_on-Finite next graceful deadline tree (value true) tt goes
  by_answer-Finite next graceful deadline (tree, unverifiable pids) h goes =
      go_on-Finite next graceful deadline tree (unverifiable pids) tt goes
  by_answer-Finite next graceful deadline (tree, permission) h goes = tt
  by_answer-Finite next graceful deadline (tree, survived) h goes = tt
  by_answer-Finite next graceful deadline (tree, out_of_fuel) h goes = h

  -- Fuel is left at the deadline.
  terminate_loop-Finite :
      (fuel : ℕ) (parent : Option ℕ) (graceful deadline : ℕ) (tree : Tree W)
      → deadline ≤ time tree.world + fuel
      → Finite (terminate_loop host control (suc fuel) parent graceful deadline tree).1
  unfolding terminate_loop
  terminate_loop-Finite zero parent graceful deadline tree le =
      let adopted = adopt_if host control parent tree in
      by_answer-Finite (terminate_loop host control zero parent graceful deadline) graceful deadline
        (running host adopted) (running-Finite adopted)
        (λ tree' early later. absurd (
          omega (
            arith,
            le,
            early,
            adopt_if-late time host control keeps runs parent tree,
            running-late time host keeps adopted,
          )))
  terminate_loop-Finite (suc fuel) parent graceful deadline tree le =
      let adopted = adopt_if host control parent tree in
      by_answer-Finite (terminate_loop host control (suc fuel) parent graceful deadline) graceful
        deadline (running host adopted) (running-Finite adopted)
        (λ tree' early later. terminate_loop-Finite fuel parent graceful deadline tree' (
          omega (
            arith,
            le,
            later,
            adopt_if-late time host control keeps runs parent tree,
            running-late time host keeps adopted,
          )))

  after_signal-Finite :
      (parent : Option ℕ) (r : Tree W × Answer (Unit {0}))
      → Finite r.1
      → Finite (after_signal host control 10001 parent r).1
  after_signal-Finite parent (tree, value tt) h =
      let (w, t) = control.now tree.world in
      terminate_loop-Finite 10000 parent (t + 2000) (t + 10000) (with_world tree w)
        (omega (arith, runs.clock_reads tree.world))
  after_signal-Finite parent (tree, unverifiable pids) h = tt
  after_signal-Finite parent (tree, permission) h = tt
  after_signal-Finite parent (tree, survived) h = tt
  after_signal-Finite parent (tree, out_of_fuel) h = h

  -- If no call of the host turns the clock back, the clock gives a time of its call, and a sleep
  -- takes at least a millisecond, then the termination of any processes ends within its fuel: it
  -- returns, or raises an exception.
  pub terminate-ne-out_of_fuel :
      (parent : Option ℕ) (tree : Tree W) → ¬ ((terminate host control parent tree).1 ≡ out_of_fuel)
  unfolding terminate
  terminate-ne-out_of_fuel parent tree =
      let r = signal host control false (adopt_if host control parent tree) in
      Finite-ne (after_signal host control 10001 parent r).1 (
        after_signal-Finite parent r
          (signal-Good time host control keeps runs zero false (adopt_if host control parent tree)
            (omega arith)).1)
