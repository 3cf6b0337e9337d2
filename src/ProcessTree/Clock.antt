-- ===== src/ProcessTree/Clock.antt =====
-- Time does not go back in a scan.
use clearml_yolo.Base.{
  ℕ, ◌==◌, ◌≤◌, ◌≡◌, refl, ap, ◌∙◌, Bool, true, false, ◌&&◌, ◌||◌, not, Option, none, some, List,
  [], ◌∷◌, ◌++◌, map, arith, if_ind,
}
use clearml_yolo.ProcessTree.{
  Process, Reading, gone, denied, found, Host, Births, Tree, has, in_table, is_excluded, is_older,
  same_process, after_read, after_stat, consed, table_of, begin_scan, known_now, known_seen,
  if_owner, known_owners, denied_now, marked_now, environment_read, is_marked, marked_owners,
}
use clearml_yolo.ProcessTree.Lifecycle.{
  record_birth, record_births, all_owners, owned, Answer, verdict, second_verdict, first_verdict,
  running,
}

-- What the host answers takes no negative time.
pub record HostKeepsTime {W : Type 0} (time : W → ℕ) (host : Host W) : Type 0 where
  pub pids_late : (w : W) → time w ≤ time (host.pids w).0
  pub own_late : (pid : ℕ) (w : W) → time w ≤ time (host.is_own pid w).0
  pub read_late : (pid : ℕ) (w : W) → time w ≤ time (host.read_process pid w).0
  pub marker_late : (pid : ℕ) (w : W) → time w ≤ time (host.has_marker pid w).0

module _ {W : Type 0} (time : W → ℕ) (host : Host W) (keeps : HostKeepsTime time host) where
  after_read-late :
      (pid : ℕ) (tree : Tree W) (r : W × Reading Process)
      → time r.0 ≤ time (after_read host pid tree r).0.world
  after_read-late pid tree (w, gone) = omega arith
  after_read-late pid tree (w, denied) = omega arith
  after_read-late pid tree (w, found process) = omega arith

  after_stat-late :
      (pid : ℕ) (tree : Tree W) (r : W × Reading Bool)
      → time r.0 ≤ time (after_stat host pid tree r).0.world
  after_stat-late pid tree (w, gone) = omega arith
  after_stat-late pid tree (w, denied) = omega arith
  after_stat-late pid tree (w, found own) =
      if_ind (λ (r : Tree W × Option Process). time w ≤ time r.0.world)
        (not own && not (has (map (λ (entry : ℕ × ℕ). entry.0) tree.identities) pid))
        (λ _. omega arith)
        (λ _.
          omega (arith, keeps.read_late pid w, after_read-late pid tree (host.read_process pid w)))

  consed-world :
      (o : Option Process) (r : Tree W × List Process)
      → time (consed host o r).0.world ≡ time r.0.world
  consed-world none r = refl
  consed-world (some process) r = refl

  pub table_of-late :
      (pids : List ℕ) (tree : Tree W) → time tree.world ≤ time (table_of host pids tree).0.world
  unfolding table_of
  table_of-late [] tree = omega arith
  table_of-late (pid ∷ pids) tree =
      let read = after_stat host pid tree (host.is_own pid tree.world) in
      omega (
        arith,
        keeps.own_late pid tree.world,
        after_stat-late pid tree (host.is_own pid tree.world),
        table_of-late pids read.0,
        consed-world read.1 (table_of host pids read.0),
      )

  begin_scan-late : (tree : Tree W) → time tree.world ≤ time (begin_scan host tree).0.world
  unfolding begin_scan
  begin_scan-late tree =
      let (w, pids) = host.pids tree.world in
      omega (
        arith,
        keeps.pids_late tree.world,
        table_of-late pids (record tree { world = w; unreadable = []; scan_changed = false }),
      )

  known_now-late :
      (pid born : ℕ) (seen : Process) (tree : Tree W) (r : W × Reading Process)
      → time r.0 ≤ time (known_now host pid born seen tree r).0.world
  known_now-late pid born seen tree (w, gone) = omega arith
  known_now-late pid born seen tree (w, denied) = omega arith
  known_now-late pid born seen tree (w, found current) =
      if_ind (λ (r : Tree W × Bool). time w ≤ time r.0.world)
        (current.born == born && not current.zombie) (λ _. omega arith)
        (λ _.
          if_ind (λ (r : Tree W × Bool). time w ≤ time r.0.world) (same_process current seen)
            (λ _. omega arith) (λ _. omega arith))

  known_seen-late :
      (pid born : ℕ) (o : Option Process) (tree : Tree W)
      → time tree.world ≤ time (known_seen host pid born o tree).0.world
  known_seen-late pid born none tree = omega arith
  known_seen-late pid born (some seen) tree =
      if_ind (λ (r : Tree W × Bool). time tree.world ≤ time r.0.world) (not (seen.born == born))
        (λ _. omega arith)
        (λ _. omega (
          arith,
          keeps.read_late pid tree.world,
          known_now-late pid born seen tree (host.read_process pid tree.world),
        ))

  if_owner-world :
      (pid : ℕ) (owns : Bool) (r : Tree W × List ℕ)
      → time (if_owner host pid owns r).0.world ≡ time r.0.world
  if_owner-world pid true r = refl
  if_owner-world pid false r = refl

  known_owners-late :
      (table : List Process) (births : Births) (tree : Tree W)
      → time tree.world ≤ time (known_owners host table births tree).0.world
  unfolding known_owners
  known_owners-late table [] tree = omega arith
  known_owners-late table ((pid, born) ∷ births) tree =
      let seen = known_seen host pid born (in_table table pid) tree in
      omega (
        arith,
        known_seen-late pid born (in_table table pid) tree,
        known_owners-late table births seen.0,
        if_owner-world pid seen.1 (known_owners host table births seen.0),
      )

  denied_now-late :
      (process : Process) (tree : Tree W) (r : W × Reading Process)
      → time r.0 ≤ time (denied_now host process tree r).0.world
  denied_now-late process tree (w, gone) = omega arith
  denied_now-late process tree (w, denied) = omega arith
  denied_now-late process tree (w, found current) =
      if_ind (λ (r : Tree W × Bool). time w ≤ time r.0.world) current.zombie (λ _. omega arith)
        (λ _. omega arith)

  marked_now-late :
      (process : Process) (marker : Bool) (tree : Tree W) (r : W × Reading Process)
      → time r.0 ≤ time (marked_now host process marker tree r).0.world
  marked_now-late process marker tree (w, gone) = omega arith
  marked_now-late process marker tree (w, denied) = omega (
    arith,
    keeps.read_late process.pid w,
    denied_now-late process tree (host.read_process process.pid w),
  )
  marked_now-late process marker tree (w, found current) =
      if_ind (λ (r : Tree W × Bool). time w ≤ time r.0.world)
        (not (current.born == process.born) || current.zombie) (λ _. omega arith) (λ _. omega arith)

  environment_read-late :
      (process : Process) (tree : Tree W) (r : W × Reading Bool)
      → time r.0 ≤ time (environment_read host process tree r).0.world
  environment_read-late process tree (w, gone) = omega arith
  environment_read-late process tree (w, denied) = omega (
    arith,
    keeps.read_late process.pid w,
    denied_now-late process tree (host.read_process process.pid w),
  )
  environment_read-late process tree (w, found marker) = omega (
    arith,
    keeps.read_late process.pid w,
    marked_now-late process marker tree (host.read_process process.pid w),
  )

  is_marked-late :
      (process : Process) (tree : Tree W)
      → time tree.world ≤ time (is_marked host process tree).0.world
  unfolding is_marked
  is_marked-late process tree =
      if_ind (λ (r : Tree W × Bool). time tree.world ≤ time r.0.world)
        (not tree.marked
          || process.zombie
          || is_excluded tree process
          || is_older tree.born process)
        (λ _. omega arith)
        (λ _. omega (
          arith,
          keeps.marker_late process.pid tree.world,
          environment_read-late process tree (host.has_marker process.pid tree.world),
        ))

  marked_owners-late :
      (table : List Process) (tree : Tree W)
      → time tree.world ≤ time (marked_owners host table tree).0.world
  unfolding marked_owners
  marked_owners-late [] tree = omega arith
  marked_owners-late (process ∷ table) tree =
      let read = is_marked host process tree in
      omega (
        arith,
        is_marked-late process tree,
        marked_owners-late table read.0,
        if_owner-world process.pid read.1 (marked_owners host table read.0),
      )

  record_birth-world :
      (o : Option Process) (tree : Tree W) → (record_birth o tree).world ≡ tree.world
  record_birth-world none tree = refl
  record_birth-world (some process) tree = refl

  record_births-world :
      (table : List Process) (pids : List ℕ) (tree : Tree W)
      → (record_births table pids tree).world ≡ tree.world
  record_births-world table [] tree = refl
  record_births-world table (pid ∷ pids) tree =
      record_births-world table pids (record_birth (in_table table pid) tree)
      ∙ record_birth-world (in_table table pid) tree

  pub owned-late : (tree : Tree W) → time tree.world ≤ time (owned host tree).0.world
  unfolding owned
  owned-late tree =
      let (scanned, table) = begin_scan host tree in
      let (known, before) = known_owners host table scanned.identities scanned in
      let (seen, marked) = marked_owners host table known in
      omega (
        arith,
        begin_scan-late tree,
        known_owners-late table scanned.identities scanned,
        marked_owners-late table known,
        ap time (record_births-world table (all_owners seen table (before ++ marked)) seen),
      )

  second_verdict-world :
      (before : List (ℕ × ℕ × Bool)) (tree : Tree W) (o : Option (Answer Bool))
      → (second_verdict host before tree o).0 ≡ tree
  second_verdict-world before tree none = refl
  second_verdict-world before tree (some answer) = refl

  first_verdict-late :
      (tree : Tree W) (o : Option (Answer Bool))
      → time tree.world ≤ time (first_verdict host tree o).0.world
  first_verdict-late tree (some answer) = omega arith
  first_verdict-late tree none = omega (
    arith,
    owned-late tree,
    ap (λ (t : Tree W). time t.world)
        (second_verdict-world tree.snapshot (owned host tree).0 (
          verdict host (owned host tree).0.unreadable (owned host tree).0.scan_changed
            (owned host tree).1)),
  )

  pub running-late : (tree : Tree W) → time tree.world ≤ time (running host tree).0.world
  unfolding running
  running-late tree = omega (
    arith,
    owned-late tree,
    first_verdict-late (owned host tree).0 (
        verdict host (owned host tree).0.unreadable (owned host tree).0.scan_changed
          (owned host tree).1),
  )
