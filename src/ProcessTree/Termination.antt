-- ===== src/ProcessTree/Termination.antt =====
-- adapters/runtime/process_tree.py: signals to the owned processes, their termination, and reaping.
use clearml_yolo.Base.{
  ℕ, zero, suc, ◌+◌, ◌==◌, leb, Bool, true, false, ◌&&◌, not, Option, none, some, List, [], ◌∷◌,
  ◌++◌, keep, if◌then◌else◌,
}
use clearml_yolo.ProcessTree.{
  Process, Reading, gone, denied, found, Host, Births, set_birth, Tree, with_world, table_of,
}
use clearml_yolo.ProcessTree.Lifecycle.{
  owned, Answer, value, unverifiable, permission, survived, out_of_fuel, running,
}

-- What the host does to processes, with its clock in milliseconds. A `pidfd` is opened or the process
-- is gone; a signal to a process that is gone is ignored, as is a child that is no child.
pub record Control (W : Type 0) : Type 0 where
  pub own_pid : ℕ
  pub open_pidfd : ℕ → W → W × Bool
  pub send_signal : ℕ → Bool → W → W
  pub wait : ℕ → W → W
  pub now : W → W × ℕ
  pub sleep : W → W

module _ {W : Type 0} (host : Host W) (control : Control W) where
  abbrev pub adopt : ℕ → List Process → Tree W → Tree W
  adopt parent [] tree = tree
  adopt parent (process ∷ table) tree = adopt parent table (
      if process.parent == parent
      then record tree { identities = set_birth process.pid process.born tree.identities }
      else tree)

  -- `adopt_children`
  unfoldable pub adopt_children : ℕ → Tree W → Tree W
  adopt_children parent tree =
      let (w, pids) = host.pids tree.world in
      let (tree', table) = table_of host pids (with_world tree w) in adopt parent table tree'

  -- What is sent to a process by what its `stat` gives now, for `_reap` and `signal`.
  abbrev pub act : (W → W) → Process → W × Reading Process → W × Answer (Unit {0})
  act does process (w, gone) = (w, value tt)
  act does process (w, denied) = (w, permission)
  act does process (w, found current) =
      (if current.born == process.born then does w else w, value tt)

  abbrev pub act_if_open : (W → W) → Process → W × Bool → W × Answer (Unit {0})
  act_if_open does process (w, false) = (w, value tt)
  act_if_open does process (w, true) = act does process (host.read_process process.pid w)

  abbrev pub act_on : (W → W) → Process → W → W × Answer (Unit {0})
  act_on does process w = act_if_open does process (control.open_pidfd process.pid w)

  infixl 5 ◌~>◌
  abbrev pub ◌~>◌ : W × Answer (Unit {0}) → (W → W × Answer (Unit {0})) → W × Answer (Unit {0})
  (w, value tt) ~> f = f w
  (w, unverifiable pids) ~> f = (w, unverifiable pids)
  (w, permission) ~> f = (w, permission)
  (w, survived) ~> f = (w, survived)
  (w, out_of_fuel) ~> f = (w, out_of_fuel)

  abbrev pub signal_each : Bool → List Process → W → W × Answer (Unit {0})
  signal_each kills [] w = (w, value tt)
  signal_each kills (process ∷ processes) w =
      act_on (control.send_signal process.pid kills) process w ~> signal_each kills processes

  -- The root comes last.
  abbrev pub root_last : ℕ → List Process → List Process
  root_last root processes =
      keep (λ (process : Process). not (process.pid == root)) processes
      ++ keep (λ (process : Process). process.pid == root) processes

  abbrev pub with_tree : Tree W → W × Answer (Unit {0}) → Tree W × Answer (Unit {0})
  with_tree tree (w, answer) = (with_world tree w, answer)

  -- `signal`: whether it kills.
  unfoldable pub signal : Bool → Tree W → Tree W × Answer (Unit {0})
  unfolding owned
  signal kills tree =
      let (tree', alive) = owned host tree in
      with_tree tree' (signal_each kills (root_last tree.root alive) tree'.world)

  -- `_reap`
  abbrev pub reap : Process → W → W × Answer (Unit {0})
  reap process = act_on (control.wait process.pid) process

  abbrev pub reap_current : ℕ → W × Reading Process → W × Answer (Unit {0})
  reap_current born (w, gone) = (w, value tt)
  reap_current born (w, denied) = (w, permission)
  reap_current born (w, found current) =
      let reaped = reap current w in
      if current.born == born && current.parent == control.own_pid && current.zombie
      then reaped
      else (w, value tt)

  abbrev pub reap_each : Births → W → W × Answer (Unit {0})
  reap_each [] w = (w, value tt)
  reap_each ((pid, born) ∷ births) w =
      reap_current born (host.read_process pid w) ~> reap_each births

  -- `reap_children`
  unfoldable pub reap_children : Tree W → Tree W × Answer (Unit {0})
  reap_children tree = with_tree tree (reap_each tree.identities tree.world)

  abbrev pub adopt_if : Option ℕ → Tree W → Tree W
  adopt_if none tree = tree
  adopt_if (some parent) tree = adopt_children parent tree

  -- The error at the deadline: the one that was caught, or that processes survived.
  abbrev pub deadline_error : Answer Bool → Answer (Unit {0})
  deadline_error (unverifiable pids) = unverifiable pids
  deadline_error (value _) = survived
  deadline_error permission = permission
  deadline_error survived = survived
  deadline_error out_of_fuel = out_of_fuel

  abbrev pub kill_if : Bool → Tree W → Tree W × Answer (Unit {0})
  kill_if late tree = let killed = signal true tree in if late then killed else (tree, value tt)

  abbrev pub slept :
      (Tree W → Tree W × Answer (Unit {0}))
      → Tree W × Answer (Unit {0})
      → Tree W × Answer (Unit {0})
  slept next (tree, value tt) = next (with_world tree (control.sleep tree.world))
  slept next (tree, unverifiable pids) = (tree, unverifiable pids)
  slept next (tree, permission) = (tree, permission)
  slept next (tree, survived) = (tree, survived)
  slept next (tree, out_of_fuel) = (tree, out_of_fuel)

  -- A round in which processes may still run.
  abbrev pub go_on :
      (Tree W → Tree W × Answer (Unit {0}))
      → ℕ
      → ℕ
      → Tree W
      → Answer Bool
      → Tree W × Answer (Unit {0})
  go_on next graceful deadline tree answer =
      let (w, time) = control.now tree.world in
      let (w', time') = control.now w in
      let later = slept next (kill_if (leb graceful time') (with_world tree w')) in
      if leb deadline time then (with_world tree w, deadline_error answer) else later

  abbrev pub by_answer :
      (Tree W → Tree W × Answer (Unit {0}))
      → ℕ
      → ℕ
      → Tree W × Answer Bool
      → Tree W × Answer (Unit {0})
  by_answer next graceful deadline (tree, value false) = (tree, value tt)
  by_answer next graceful deadline (tree, value true) =
      go_on next graceful deadline tree (value true)
  by_answer next graceful deadline (tree, unverifiable pids) =
      go_on next graceful deadline tree (unverifiable pids)
  by_answer next graceful deadline (tree, permission) = (tree, permission)
  by_answer next graceful deadline (tree, survived) = (tree, survived)
  by_answer next graceful deadline (tree, out_of_fuel) = (tree, out_of_fuel)

  -- The loop of `terminate`, on fuel.
  unfoldable pub terminate_loop : ℕ → Option ℕ → ℕ → ℕ → Tree W → Tree W × Answer (Unit {0})
  terminate_loop zero parent graceful deadline tree = (tree, out_of_fuel)
  terminate_loop (suc fuel) parent graceful deadline tree =
      by_answer (terminate_loop fuel parent graceful deadline) graceful deadline
        (running host (adopt_if parent tree))

  abbrev pub after_signal : ℕ → Option ℕ → Tree W × Answer (Unit {0}) → Tree W × Answer (Unit {0})
  after_signal fuel parent (tree, value tt) =
      let (w, time) = control.now tree.world in
      terminate_loop fuel parent (time + 2000) (time + 10000) (with_world tree w)
  after_signal fuel parent (tree, unverifiable pids) = (tree, unverifiable pids)
  after_signal fuel parent (tree, permission) = (tree, permission)
  after_signal fuel parent (tree, survived) = (tree, survived)
  after_signal fuel parent (tree, out_of_fuel) = (tree, out_of_fuel)

  -- `terminate`
  unfoldable pub terminate : Option ℕ → Tree W → Tree W × Answer (Unit {0})
  unfolding terminate_loop
  terminate parent tree = after_signal 10001 parent (signal false (adopt_if parent tree))
