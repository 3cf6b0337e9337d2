-- ===== src/ProcessTree/Lifecycle.antt =====
-- adapters/runtime/process_tree.py: whether owned processes run, and their termination.
use clearml_yolo.Base.{
  ℕ, ◌==◌, Bool, true, false, ◌&&◌, not, Option, none, some, List, [], ◌∷◌, ◌++◌, map, any, all,
  keep, if◌then◌else◌,
}
use clearml_yolo.ProcessTree.{
  Process, Host, set_birth, Tree, has, in_table, is_excluded, bool_eq, begin_scan, known_owners,
  marked_owners, root_matches, extend_unmarked_owners,
}

-- The owners after `_extend_unmarked_owners`; the loop always ends.
abbrev pub extended : List ℕ → Option (List ℕ) → List ℕ
extended owners none = owners
extended owners (some owners') = owners'

module _ {W : Type 0} where
  abbrev pub record_birth : Option Process → Tree W → Tree W
  record_birth none tree = tree
  record_birth (some process) tree = record tree {
    identities = set_birth process.pid process.born tree.identities;
  }

  abbrev pub record_births : List Process → List ℕ → Tree W → Tree W
  record_births table [] tree = tree
  record_births table (pid ∷ pids) tree =
      record_births table pids (record_birth (in_table table pid) tree)

  -- The processes of the owners that live and are not excluded.
  abbrev pub is_alive : Tree W → List ℕ → Process → Bool
  is_alive tree owners process =
      has owners process.pid && not process.zombie && not (is_excluded tree process)

  abbrev pub all_owners : Tree W → List Process → List ℕ → List ℕ
  all_owners tree table owners =
      if tree.marked
      then owners
      else extended owners (
          extend_unmarked_owners (root_matches tree.born (in_table table tree.root)) tree.root table
            owners)

module _ {W : Type 0} (host : Host W) where
  -- `_owned` after the scan.
  abbrev pub owned_in : List Process → Tree W → Tree W × List Process
  owned_in table tree =
      let (tree', known) = known_owners host table tree.identities tree in
      let (tree'', marked) = marked_owners host table tree' in
      let owners = all_owners tree'' table (known ++ marked) in
      (record_births table owners tree'', keep (is_alive tree'' owners) table)

  -- `_owned`
  unfoldable pub owned : Tree W → Tree W × List Process
  owned tree = let (tree', table) = begin_scan host tree in owned_in table tree'

  -- `live_pids` before it is sorted.
  abbrev pub live_pids : Tree W → Tree W × List ℕ
  live_pids tree =
      let (tree', alive) = owned tree in (tree', map (λ (process : Process). process.pid) alive)

-- What a method gives or raises: `unverifiable` is `UnverifiableProcessTreeError` with the processes,
-- `permission` a `PermissionError`, and `survived` a `RuntimeError`.
pub data Answer (A : Type 0) : Type 0 where
  value : A → Answer A
  unverifiable : List ℕ → Answer A
  permission survived out_of_fuel : Answer A

abbrev pub Snapshot : Type 0
Snapshot = List (ℕ × ℕ × Bool)

abbrev pub same_entry : ℕ × ℕ × Bool → ℕ × ℕ × Bool → Bool
same_entry a b = a.0 == b.0 && a.1 == b.1 && bool_eq a.2 b.2

abbrev pub within : Snapshot → Snapshot → Bool
within a b = all (λ (entry : ℕ × ℕ × Bool). any (same_entry entry) b) a

-- Equality of two sets.
abbrev pub same_snapshot : Snapshot → Snapshot → Bool
same_snapshot a b = within a b && within b a

module _ {W : Type 0} (host : Host W) where
  -- A scan of `running`: an answer, or nothing yet.
  abbrev pub verdict : List ℕ → Bool → List Process → Option (Answer Bool)
  verdict (pid ∷ unreadable) scan_changed alive = some (unverifiable (pid ∷ unreadable))
  verdict [] true alive = some (value true)
  verdict [] false (process ∷ alive) = some (value true)
  verdict [] false [] = none

  abbrev pub second_verdict : Snapshot → Tree W → Option (Answer Bool) → Tree W × Answer Bool
  second_verdict first tree (some answer) = (tree, answer)
  second_verdict first tree none = (tree, value (not (same_snapshot first tree.snapshot)))

  abbrev pub second_scan : Tree W → Tree W × Answer Bool
  second_scan tree =
      let (tree', alive) = owned host tree in
      second_verdict tree.snapshot tree' (verdict tree'.unreadable tree'.scan_changed alive)

  abbrev pub first_verdict : Tree W → Option (Answer Bool) → Tree W × Answer Bool
  first_verdict tree (some answer) = (tree, answer)
  first_verdict tree none = second_scan tree

  -- `running`: two scans in which nothing is owned, unreadable or changed.
  unfoldable pub running : Tree W → Tree W × Answer Bool
  unfolding owned
  running tree =
      let (tree', alive) = owned host tree in
      first_verdict tree' (verdict tree'.unreadable tree'.scan_changed alive)
