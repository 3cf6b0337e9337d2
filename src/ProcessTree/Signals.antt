-- ===== src/ProcessTree/Signals.antt =====
-- Signals and adoptions end, and turn no clock back.
use clearml_yolo.Base.{
  ℕ, ◌==◌, ◌≤◌, ◌<◌, ◌≡◌, refl, ap, ◌∙◌, Bool, true, false, Option, none, some, List, [], ◌∷◌,
  arith, if_ind, if◌then◌else◌,
}
use clearml_yolo.ProcessTree.{
  Process, Reading, gone, denied, found, Host, Tree, with_world, table_of, set_birth,
}
use clearml_yolo.ProcessTree.Lifecycle.{
  owned, Answer, value, unverifiable, permission, survived, out_of_fuel,
}
use clearml_yolo.ProcessTree.Termination.{
  Control, adopt, adopt_children, act, act_if_open, act_on, ◌~>◌, signal_each, root_last, with_tree,
  signal, adopt_if,
}
use clearml_yolo.ProcessTree.Clock.{HostKeepsTime, table_of-late, owned-late}

-- The clock gives a time of the call, signals do not turn it back, and a sleep takes time.
pub record ControlKeepsTime {W : Type 0} (time : W → ℕ) (control : Control W) : Type 0 where
  pub open_late : (pid : ℕ) (w : W) → time w ≤ time (control.open_pidfd pid w).0
  pub signal_late :
      (pid : ℕ) (kills : Bool) (w : W) → time w ≤ time (control.send_signal pid kills w)
  pub clock_reads :
      (w : W) → time w ≤ (control.now w).1 × (control.now w).1 ≤ time (control.now w).0
  pub sleep_takes : (w : W) → time w < time (control.sleep w)

-- The fuel did not run out.
abbrev pub Finite : {A : Type 0} → Answer A → Type 0
Finite (value x) = Unit
Finite (unverifiable pids) = Unit
Finite permission = Unit
Finite survived = Unit
Finite out_of_fuel = ⊥

pub Finite-ne : {A : Type 0} (answer : Answer A) → Finite answer → ¬ (answer ≡ out_of_fuel)
Finite-ne (value x) h e = absurd (cc (e))
Finite-ne (unverifiable pids) h e = absurd (cc (e))
Finite-ne permission h e = absurd (cc (e))
Finite-ne survived h e = absurd (cc (e))
Finite-ne out_of_fuel h e = absurd h

module _ {W : Type 0} (time : W → ℕ) (host : Host W) (control : Control W) where
  -- What ends, not before the time.
  abbrev pub Good : ℕ → W × Answer (Unit {0}) → Type 0
  Good t r = t ≤ time r.0 × Finite r.1

  abbrev pub GoodTree : ℕ → Tree W × Answer (Unit {0}) → Type 0
  GoodTree t r = t ≤ time r.0.world × Finite r.1

  ~>-Good :
      (t : ℕ) (r : W × Answer (Unit {0})) (f : W → W × Answer (Unit {0}))
      → Good t r
      → ((w : W) → t ≤ time w → Good t (f w))
      → Good t (◌~>◌ host control r f)
  ~>-Good t (w, value tt) f h next = next w h.0
  ~>-Good t (w, unverifiable pids) f h next = h
  ~>-Good t (w, permission) f h next = h
  ~>-Good t (w, survived) f h next = h
  ~>-Good t (w, out_of_fuel) f h next = h

  with_tree-Good :
      (t : ℕ) (tree : Tree W) (r : W × Answer (Unit {0}))
      → Good t r
      → GoodTree t (with_tree host control tree r)
  with_tree-Good t tree (w, answer) h = h

module _ {W : Type 0} (time : W → ℕ) (host : Host W) (control : Control W)
    (keeps : HostKeepsTime time host) (runs : ControlKeepsTime time control) where
  act-Good :
      (t : ℕ) (does : W → W) (process : Process) (r : W × Reading Process)
      → ((w : W) → time w ≤ time (does w))
      → t ≤ time r.0
      → Good time host control t (act host control does process r)
  act-Good t does process (w, gone) late le = (le, tt)
  act-Good t does process (w, denied) late le = (le, tt)
  act-Good t does process (w, found current) late le = (
    if_ind (λ (w' : W). t ≤ time w') (current.born == process.born) (λ _. omega (arith, le, late w))
        (λ _. le),
    tt,
  )

  act_if_open-Good :
      (t : ℕ) (does : W → W) (process : Process) (r : W × Bool)
      → ((w : W) → time w ≤ time (does w))
      → t ≤ time r.0
      → Good time host control t (act_if_open host control does process r)
  act_if_open-Good t does process (w, false) late le = (le, tt)
  act_if_open-Good t does process (w, true) late le =
      act-Good t does process (host.read_process process.pid w) late
        (omega (arith, le, keeps.read_late process.pid w))

  signal_each-Good :
      (t : ℕ) (kills : Bool) (processes : List Process) (w : W)
      → t ≤ time w
      → Good time host control t (signal_each host control kills processes w)
  signal_each-Good t kills [] w le = (le, tt)
  signal_each-Good t kills (process ∷ processes) w le =
      ~>-Good time host control t
        (act_on host control (control.send_signal process.pid kills) process w)
        (signal_each host control kills processes)
        (act_if_open-Good t (control.send_signal process.pid kills) process
          (control.open_pidfd process.pid w) (runs.signal_late process.pid kills)
          (omega (arith, le, runs.open_late process.pid w)))
        (signal_each-Good t kills processes)

  pub signal-Good :
      (t : ℕ) (kills : Bool) (tree : Tree W)
      → t ≤ time tree.world
      → GoodTree time host control t (signal host control kills tree)
  unfolding signal
  signal-Good t kills tree le =
      let (tree', alive) = owned host tree in
      with_tree-Good time host control t tree'
        (signal_each host control kills (root_last host control tree.root alive) tree'.world)
        (signal_each-Good t kills (root_last host control tree.root alive) tree'.world
          (omega (arith, le, owned-late time host keeps tree)))

  adopt-world :
      (parent : ℕ) (table : List Process) (tree : Tree W)
      → (adopt host control parent table tree).world ≡ tree.world
  adopt-world parent [] tree = refl
  adopt-world parent (process ∷ table) tree =
      adopt-world parent table (
        if process.parent == parent
        then record tree { identities = set_birth process.pid process.born tree.identities }
        else tree)
      ∙ if_ind (λ (t : Tree W). t.world ≡ tree.world) (process.parent == parent) (λ _. refl)
          (λ _. refl)

  pub adopt_if-late :
      (parent : Option ℕ) (tree : Tree W)
      → time tree.world ≤ time (adopt_if host control parent tree).world
  unfolding adopt_children
  adopt_if-late none tree = omega arith
  adopt_if-late (some parent) tree =
      let (w, pids) = host.pids tree.world in
      let (tree', table) = table_of host pids (with_world tree w) in
      omega (
        arith,
        keeps.pids_late tree.world,
        table_of-late time host keeps pids (with_world tree w),
        ap time (adopt-world parent table tree'),
      )
