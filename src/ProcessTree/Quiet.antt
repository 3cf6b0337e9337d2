-- ===== src/ProcessTree/Quiet.antt =====
-- What it means that `running` answers no.
use clearml_yolo.Base.{
  ℕ, ◌≡◌, refl, sym, ap, ◌∙◌, ◌⊎◌, inl, inr, Bool, true, false, not, Option, none, some, List, [],
  ◌∷◌, ◌++◌, keep_empty, All, arith, Bool-cases, if_ind,
}
use mathlib.Core.Path.{subst}
use clearml_yolo.ProcessTree.{
  Process, Host, Births, set_birth, Tree, has, in_table, is_excluded, begin_scan, known_owners,
  marked_owners, root_matches,
}
use clearml_yolo.ProcessTree.Closure.{In, Owned, extend_unmarked_owners-iff-Owned}
use clearml_yolo.ProcessTree.Lifecycle.{
  extended, record_birth, record_births, is_alive, all_owners, owned, Answer, value, same_snapshot,
  verdict, second_verdict, second_scan, first_verdict, running,
}

In-All :
    (P : Process → Type 0) (table : List Process) (process : Process)
    → All P table
    → In process table
    → P process
In-All P [] process h m = absurd m
In-All P (other ∷ table) process h (inl same) = subst P (sym same) h.0
In-All P (other ∷ table) process h (inr m) = In-All P table process h.1 m

-- Who belongs to the invocation: with a marker, the owners that the scan found; without one, also
-- their descendants.
abbrev pub Belongs : Bool → Option ℕ → ℕ → List Process → List ℕ → ℕ → Type 0
Belongs true born root table owners pid = has owners pid ≡ true
Belongs false born root table owners pid =
    Owned (root_matches born (in_table table root)) root table owners pid

module _ {W : Type 0} where
  -- Only the recorded births differ.
  OnlyBirths : Tree W → Tree W → Type 0
  OnlyBirths tree tree' = (births : Births) × (tree' ≡ record tree { identities = births })

  record_birth-OnlyBirths :
      (o : Option Process) (tree : Tree W) → OnlyBirths tree (record_birth o tree)
  unfolding OnlyBirths
  record_birth-OnlyBirths none tree = (tree.identities, refl)
  record_birth-OnlyBirths (some process) tree =
      (set_birth process.pid process.born tree.identities, refl)

  record_births-OnlyBirths :
      (table : List Process) (pids : List ℕ) (tree : Tree W)
      → OnlyBirths tree (record_births table pids tree)
  unfolding OnlyBirths
  record_births-OnlyBirths table [] tree = (tree.identities, refl)
  record_births-OnlyBirths table (pid ∷ pids) tree =
      let (births, e) = record_birth-OnlyBirths (in_table table pid) tree in
      let (births', e') =
        record_births-OnlyBirths table pids (record_birth (in_table table pid) tree) in
      (births', e' ∙ ap (λ (t : Tree W). record t { identities = births' }) e)

  Belongs-all_owners :
      (tree : Tree W) (table : List Process) (owners : List ℕ) (marked : Bool) (pid : ℕ)
      → tree.marked ≡ marked
      → Belongs marked tree.born tree.root table owners pid
      → has (all_owners tree table owners) pid ≡ true
  Belongs-all_owners tree table owners true pid e h = ground arith
  Belongs-all_owners tree table owners false pid e h =
      let (owners', closes, iff) =
        extend_unmarked_owners-iff-Owned (root_matches tree.born (in_table table tree.root))
          tree.root table owners in
      let here : has (extended owners (some owners')) pid ≡ true = (iff pid).1 h in
      if_ind (λ l. has l pid ≡ true) tree.marked (λ m. cc (m, e))
        (λ _. subst (λ o. has (extended owners o) pid ≡ true) (sym closes) here)

module _ {W : Type 0} (host : Host W) where
  -- What a scan that begins in `before` reads, and the owners that it finds.
  abbrev pub table_from : Tree W → List Process
  table_from before = (begin_scan host before).1

  abbrev after_known : Tree W → Tree W × List ℕ
  after_known before =
      let (tree, table) = begin_scan host before in known_owners host table tree.identities tree

  abbrev pub owners_from : Tree W → List ℕ
  owners_from before =
      (after_known before).1 ++ (marked_owners host (table_from before) (after_known before).0).1

  -- A scan from `before` ended in `tree`, with nothing unreadable and no change, and each process
  -- that belongs to the invocation is a zombie or excluded.
  pub record HasEnded (before tree : Tree W) : Type 0 where
    pub scanned : (owned host before).0 ≡ tree
    pub readable : tree.unreadable ≡ []
    pub unchanged : tree.scan_changed ≡ false
    pub ended :
        (process : Process)
        → In process (table_from before)
        → Belongs tree.marked tree.born tree.root
            (table_from before)
            (owners_from before)
            process.pid
        → (process.zombie ≡ true) ⊎ (is_excluded tree process ≡ true)

  verdict-none :
      (unreadable : List ℕ) (scan_changed : Bool) (alive : List Process)
      → verdict host unreadable scan_changed alive ≡ none
      → (unreadable ≡ []) × (scan_changed ≡ false) × (alive ≡ [])
  verdict-none (pid ∷ unreadable) scan_changed alive e = absurd (cc (e))
  verdict-none [] true alive e = absurd (cc (e))
  verdict-none [] false (process ∷ alive) e = absurd (cc (e))
  verdict-none [] false [] e = (refl, refl, refl)

  not_alive :
      (tree : Tree W) (owners : List ℕ) (process : Process)
      → is_alive tree owners process ≡ false
      → has owners process.pid ≡ true
      → (process.zombie ≡ true) ⊎ (is_excluded tree process ≡ true)
  not_alive tree owners process e owns = elim (Bool-cases process.zombie) [
    | inl zombie ↦ inl zombie
    | inr lives ↦ inr (ground arith)
  ]

  owned-HasEnded :
      (before : Tree W)
      → verdict host
          (owned host before).0.unreadable
          (owned host before).0.scan_changed
          (owned host before).1
        ≡ none
      → HasEnded before (owned host before).0
  unfolding owned OnlyBirths
  owned-HasEnded before e =
      let table = table_from before in
      let tree = (marked_owners host table (after_known before).0).0 in
      let owners = all_owners tree table (owners_from before) in
      let (births, same) = record_births-OnlyBirths table owners tree in
      let (readable, unchanged, empty) = verdict-none _ _ _ e in
      record {
        scanned = refl;
        readable = readable;
        unchanged = unchanged;
        ended = λ process m belongs.
            subst (λ (t : Tree W). (process.zombie ≡ true) ⊎ (is_excluded t process ≡ true))
              (sym same)
              (not_alive tree owners process
                (In-All (λ p. is_alive tree owners p ≡ false) table process
                  (keep_empty (is_alive tree owners) table empty) m)
                (Belongs-all_owners tree table (owners_from before) tree.marked process.pid refl (
                  subst
                    (λ (t : Tree W).
                      Belongs t.marked t.born t.root table (owners_from before) process.pid)
                    same belongs)));
      }

  verdict-ne-no :
      (unreadable : List ℕ) (scan_changed : Bool) (alive : List Process) (answer : Answer Bool)
      → verdict host unreadable scan_changed alive ≡ some answer
      → answer ≡ value false
      → ⊥
  verdict-ne-no (pid ∷ unreadable) scan_changed alive answer e denies = ground arith
  verdict-ne-no [] true alive answer e denies = ground arith
  verdict-ne-no [] false (process ∷ alive) answer e denies = ground arith
  verdict-ne-no [] false [] answer e denies = ground arith

  not-false : (b : Bool) → ◌≡◌ {A = Answer Bool} (value (not b)) (value false) → b ≡ true
  not-false true e = refl
  not-false false e = absurd (cc (e))

  second_scan-no :
      (before tree : Tree W)
      → second_scan host before ≡ (tree, value false)
      → HasEnded before tree × (same_snapshot before.snapshot tree.snapshot ≡ true)
  second_scan-no before tree e =
      by_verdict
        (verdict host (owned host before).0.unreadable (owned host before).0.scan_changed
          (owned host before).1)
        refl e
    where
      by_verdict :
          (o : Option (Answer Bool))
          → verdict host
              (owned host before).0.unreadable
              (owned host before).0.scan_changed
              (owned host before).1
            ≡ o
          → second_verdict host before.snapshot (owned host before).0 o ≡ (tree, value false)
          → HasEnded before tree × (same_snapshot before.snapshot tree.snapshot ≡ true)
      by_verdict none quiet e =
          let moved : (owned host before).0 ≡ tree = ap (λ (r : Tree W × Answer Bool). r.0) e in
          (
            subst (HasEnded before) moved (owned-HasEnded before quiet),
            subst (λ (t : Tree W). same_snapshot before.snapshot t.snapshot ≡ true) moved
                (not-false (same_snapshot before.snapshot (owned host before).0.snapshot)
                  (ap (λ (r : Tree W × Answer Bool). r.1) e)),
          )
      by_verdict (some answer) quiet e = absurd (
          verdict-ne-no (owned host before).0.unreadable (owned host before).0.scan_changed
            (owned host before).1 answer quiet (ap (λ (r : Tree W × Answer Bool). r.1) e))

  -- If no process is said to run, two scans, one from the beginning and one after the other, saw the
  -- same processes. In both nothing was unreadable and nothing changed, and each process that belongs to
  -- the invocation was a zombie or excluded.
  pub running-no :
      (first tree : Tree W)
      → running host first ≡ (tree, value false)
      → (between : Tree W) × HasEnded first between
        × HasEnded between tree
        × (same_snapshot between.snapshot tree.snapshot ≡ true)
  unfolding running
  running-no first tree e =
      by_verdict
        (verdict host (owned host first).0.unreadable (owned host first).0.scan_changed
          (owned host first).1)
        refl e
    where
      by_verdict :
          (o : Option (Answer Bool))
          → verdict host
              (owned host first).0.unreadable
              (owned host first).0.scan_changed
              (owned host first).1
            ≡ o
          → first_verdict host (owned host first).0 o ≡ (tree, value false)
          → (between : Tree W) × HasEnded first between
            × HasEnded between tree
            × (same_snapshot between.snapshot tree.snapshot ≡ true)
      by_verdict none quiet e =
          let (ended, same) = second_scan-no (owned host first).0 tree e in
          ((owned host first).0, owned-HasEnded first quiet, ended, same)
      by_verdict (some answer) quiet e = absurd (
          verdict-ne-no (owned host first).0.unreadable (owned host first).0.scan_changed
            (owned host first).1 answer quiet (ap (λ (r : Tree W × Answer Bool). r.1) e))
