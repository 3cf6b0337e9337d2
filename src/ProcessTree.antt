-- ===== src/ProcessTree.antt =====
-- adapters/runtime/process_tree.py: which processes of a Linux host an invocation owns. What the host
-- answers is a parameter, and changes a world of any type.
pub mod Closure
pub mod Lifecycle
pub mod Marked
pub mod Quiet
pub mod Termination
pub mod Clock
pub mod Signals
pub mod Bounded
pub mod Ended
mod Examples
use clearml_yolo.Base.{
  ℕ, zero, suc, ◌+◌, ◌==◌, ltb, leb, Bool, true, false, ◌&&◌, ◌||◌, not, Option, none, some, List,
  [], ◌∷◌, ◌++◌, map, length, any, all, keep, if◌then◌else◌,
}

-- `state == "Z"` is a zombie.
pub record Process : Type 0 where
  pub pid : ℕ
  pub parent : ℕ
  pub session : ℕ
  pub born : ℕ
  pub zombie : Bool

-- What a file of a process gives: it is gone, access is denied, or a value.
pub data Reading (A : Type 0) : Type 0 where
  gone denied : Reading A
  found : A → Reading A

-- The files under /proc: the decimal names, whether a process is of this user, its `stat`, and
-- whether its environment has the marker.
pub record Host (W : Type 0) : Type 0 where
  pub pids : W → W × List ℕ
  pub is_own : ℕ → W → W × Reading Bool
  pub read_process : ℕ → W → W × Reading Process
  pub has_marker : ℕ → W → W × Reading Bool

-- A mapping from a process to its birth.
abbrev pub Births : Type 0
Births = List (ℕ × ℕ)

abbrev pub birth_of : Births → ℕ → Option ℕ
birth_of [] pid = none
birth_of ((other, born) ∷ births) pid =
    let rest = birth_of births pid in if other == pid then some born else rest

abbrev pub set_birth : ℕ → ℕ → Births → Births
set_birth pid born [] = (pid, born) ∷ []
set_birth pid born ((other, old) ∷ births) =
    let rest = set_birth pid born births in
    if other == pid then (other, born) ∷ births else (other, old) ∷ rest

abbrev pub is_birth : Option ℕ → ℕ → Bool
is_birth none born = false
is_birth (some known) born = known == born

-- `LinuxProcessTree`, and the world. A set is a list; the marker itself is the host's.
pub record Tree (W : Type 0) : Type 0 where
  pub world : W
  pub root : ℕ
  pub marked : Bool
  pub excluded : Births
  pub born : Option ℕ
  pub identities : Births
  pub unreadable : List ℕ
  pub scan_changed : Bool
  pub snapshot : List (ℕ × ℕ × Bool)

abbrev pub has : List ℕ → ℕ → Bool
has pids pid = any (λ (other : ℕ). other == pid) pids

abbrev pub in_table : List Process → ℕ → Option Process
in_table [] pid = none
in_table (process ∷ table) pid =
    let rest = in_table table pid in if process.pid == pid then some process else rest

-- `self._excluded.get(pid) == born`
abbrev pub is_excluded : {W : Type 0} → Tree W → Process → Bool
is_excluded tree process = is_birth (birth_of tree.excluded process.pid) process.born

abbrev pub bool_eq : Bool → Bool → Bool
bool_eq true b = b
bool_eq false b = not b

abbrev pub same_process : Process → Process → Bool
same_process p q =
    p.pid == q.pid
    && p.parent == q.parent
    && p.session == q.session
    && p.born == q.born
    && bool_eq p.zombie q.zombie

-- A process that is older than the root is not of its tree.
abbrev pub is_older : Option ℕ → Process → Bool
is_older none process = false
is_older (some born) process = ltb process.born born

module _ {W : Type 0} where
  abbrev pub with_world : Tree W → W → Tree W
  with_world tree w = record tree { world = w }

  abbrev pub changed : Tree W → Tree W
  changed tree = record tree { scan_changed = true }

  abbrev pub add_unreadable : ℕ → Tree W → Tree W
  add_unreadable pid tree = record tree { unreadable = pid ∷ tree.unreadable }

-- The root is recorded, if its birth is known.
abbrev pub with_root : ℕ → Option ℕ → Births → Births
with_root root none identities = identities
with_root root (some born) identities = set_birth root born identities

abbrev pub given_birth : Option ℕ → Option ℕ → Option ℕ
given_birth (some born) initial = some born
given_birth none initial = initial

module _ {W : Type 0} where
  abbrev pub tree_with : ℕ → Bool → Option ℕ → Births → Births → W → Tree W
  tree_with root marked born identities excluded w = record {
    world = w;
    root = root;
    marked = marked;
    excluded = excluded;
    born = born;
    identities = with_root root born identities;
    unreadable = [];
    scan_changed = false;
    snapshot = [];
  }

  abbrev pub initial_tree :
      ℕ → Bool → Option ℕ → Births → Births → W × Reading Process → Option (Tree W)
  initial_tree root marked born identities excluded (w, denied) = none
  initial_tree root marked born identities excluded (w, gone) =
      some (tree_with root marked born identities excluded w)
  initial_tree root marked born identities excluded (w, found initial) =
      some (tree_with root marked (given_birth born (some initial.born)) identities excluded w)

module _ {W : Type 0} (host : Host W) where
  -- `__init__`, unless the root may not be read: then a `PermissionError` is raised.
  unfoldable pub new_tree : ℕ → Bool → Option ℕ → Births → Births → W → Option (Tree W)
  new_tree root marked born identities excluded w =
      initial_tree root marked born identities excluded (host.read_process root w)

  abbrev pub after_read : ℕ → Tree W → W × Reading Process → Tree W × Option Process
  after_read pid tree (w, gone) = (changed (with_world tree w), none)
  after_read pid tree (w, denied) = (add_unreadable pid (with_world tree w), none)
  after_read pid tree (w, found process) = (with_world tree w, some process)

  abbrev pub after_stat : ℕ → Tree W → W × Reading Bool → Tree W × Option Process
  after_stat pid tree (w, gone) = (changed (with_world tree w), none)
  after_stat pid tree (w, denied) = (add_unreadable pid (with_world tree w), none)
  after_stat pid tree (w, found own) =
      if not own && not (has (map (λ (entry : ℕ × ℕ). entry.0) tree.identities) pid)
      then (with_world tree w, none)
      else after_read pid tree (host.read_process pid w)

  abbrev pub consed : Option Process → Tree W × List Process → Tree W × List Process
  consed none (tree, table) = (tree, table)
  consed (some process) (tree, table) = (tree, process ∷ table)

  -- The loop of `_table`.
  unfoldable pub table_of : List ℕ → Tree W → Tree W × List Process
  table_of [] tree = (tree, [])
  table_of (pid ∷ pids) tree =
      let (tree', read) = after_stat pid tree (host.is_own pid tree.world) in
      consed read (table_of pids tree')

  abbrev pub begun : Tree W × List Process → Tree W × List Process
  begun (tree, table) = (
    record tree {
      snapshot =
          map (λ (process : Process). (process.pid, process.born, process.zombie))
            (keep (λ (process : Process). not (is_older tree.born process)) table);
    },
    table,
  )

  -- `_begin_scan`
  unfoldable pub begin_scan : Tree W → Tree W × List Process
  unfolding table_of
  begin_scan tree =
      let (w, pids) = host.pids tree.world in
      begun (table_of pids (record tree { world = w; unreadable = []; scan_changed = false }))

  -- What a recorded process is now, in `_known_owners`.
  abbrev pub known_now : ℕ → ℕ → Process → Tree W → W × Reading Process → Tree W × Bool
  known_now pid born seen tree (w, denied) = (add_unreadable pid (with_world tree w), false)
  known_now pid born seen tree (w, gone) = (changed (with_world tree w), false)
  known_now pid born seen tree (w, found current) =
      if current.born == born && not current.zombie
      then (with_world tree w, true)
      else if same_process current seen
      then (with_world tree w, false)
      else (changed (with_world tree w), false)

  abbrev pub known_seen : ℕ → ℕ → Option Process → Tree W → Tree W × Bool
  known_seen pid born none tree = (tree, false)
  known_seen pid born (some seen) tree =
      if not (seen.born == born)
      then (tree, false)
      else known_now pid born seen tree (host.read_process pid tree.world)

  abbrev pub if_owner : ℕ → Bool → Tree W × List ℕ → Tree W × List ℕ
  if_owner pid true (tree, owners) = (tree, pid ∷ owners)
  if_owner pid false (tree, owners) = (tree, owners)

  -- The loop of `_known_owners` over the recorded births.
  unfoldable pub known_owners : List Process → Births → Tree W → Tree W × List ℕ
  known_owners table [] tree = (tree, [])
  known_owners table ((pid, born) ∷ births) tree =
      let (tree', owns) = known_seen pid born (in_table table pid) tree in
      if_owner pid owns (known_owners table births tree')

  -- The environment is denied: the process may have ended.
  abbrev pub denied_now : Process → Tree W → W × Reading Process → Tree W × Bool
  denied_now process tree (w, gone) = (changed (with_world tree w), false)
  denied_now process tree (w, denied) = (add_unreadable process.pid (with_world tree w), false)
  denied_now process tree (w, found current) =
      if current.zombie
      then (changed (with_world tree w), false)
      else (add_unreadable process.pid (with_world tree w), false)

  -- What `_marked` finds after the environment was read.
  abbrev pub marked_now : Process → Bool → Tree W → W × Reading Process → Tree W × Bool
  marked_now process marker tree (w, gone) = (changed (with_world tree w), false)
  marked_now process marker tree (w, denied) =
      denied_now process tree (host.read_process process.pid w)
  marked_now process marker tree (w, found current) =
      if not (current.born == process.born) || current.zombie
      then (changed (with_world tree w), false)
      else (with_world tree w, marker)

  abbrev pub environment_read : Process → Tree W → W × Reading Bool → Tree W × Bool
  environment_read process tree (w, gone) = (changed (with_world tree w), false)
  environment_read process tree (w, denied) =
      denied_now process tree (host.read_process process.pid w)
  environment_read process tree (w, found marker) =
      marked_now process marker tree (host.read_process process.pid w)

  -- `_marked`
  unfoldable pub is_marked : Process → Tree W → Tree W × Bool
  is_marked process tree =
      if not tree.marked || process.zombie || is_excluded tree process || is_older tree.born process
      then (tree, false)
      else environment_read process tree (host.has_marker process.pid tree.world)

  -- The marked processes of the table.
  unfoldable pub marked_owners : List Process → Tree W → Tree W × List ℕ
  unfolding is_marked
  marked_owners [] tree = (tree, [])
  marked_owners (process ∷ table) tree =
      let (tree', owns) = is_marked process tree in
      if_owner process.pid owns (marked_owners table tree')

-- Whether a session of the root's number is its own.
abbrev pub root_matches : Option ℕ → Option Process → Bool
root_matches none leader = false
root_matches (some born) none = true
root_matches (some born) (some leader) = leader.born == born

-- A process that the loop adds to the owners.
abbrev pub joins : Bool → ℕ → List ℕ → Process → Bool
joins matches root owners process =
    not (has owners process.pid)
    && (has owners process.parent || matches && process.session == root)

-- One round of the `while` loop, with whether it changed the owners.
abbrev pub extend_once : Bool → ℕ → List Process → List ℕ → List ℕ × Bool
extend_once matches root [] owners = (owners, false)
extend_once matches root (process ∷ table) owners =
    let (added, _) = extend_once matches root table (process.pid ∷ owners) in
    let rest = extend_once matches root table owners in
    if joins matches root owners process then (added, true) else rest

-- The loop, on fuel: each round but the last adds a process of the table.
abbrev pub extend_loop : ℕ → Bool → ℕ → List Process → List ℕ → Option (List ℕ)
extend_loop zero matches root table owners = none
extend_loop (suc fuel) matches root table owners =
    let (owners', again) = extend_once matches root table owners in
    let rest = extend_loop fuel matches root table owners' in if again then rest else some owners'

-- `_extend_unmarked_owners`
unfoldable pub extend_unmarked_owners : Bool → ℕ → List Process → List ℕ → Option (List ℕ)
extend_unmarked_owners matches root table owners =
    extend_loop (suc (length table)) matches root table owners
