-- ===== src/ProcessTree/Marked.antt =====
-- Which processes the marker gives to an invocation, while nothing changes.
use mathlib.Core.Path.{subst}
use clearml_yolo.Base.{
  ℕ, ◌==◌, ==_iff, ◌≡◌, refl, sym, ap, ◌∙◌, inl, inr, Bool, true, false, ◌&&◌, ◌||◌, not, List, [],
  ◌∷◌, map, keep, keep-true, keep-false, if_ind, arith,
}
use clearml_yolo.ProcessTree.{
  Process, Reading, found, Host, Tree, is_excluded, is_older, if_owner, marked_now,
  environment_read, is_marked, marked_owners,
}
use clearml_yolo.ProcessTree.Closure.{In}

-- The host gives each process of the table as it stands there, and whether it has the marker, and
-- nothing changes by asking.
pub record IsStill {W : Type 0} (host : Host W) (marks : ℕ → Bool) (table : List Process)
    : Type 0 where
  pub same_process :
      (process : Process)
      → In process table
      → (w : W) → host.read_process process.pid w ≡ (w, found process)
  pub same_marker : (pid : ℕ) (w : W) → host.has_marker pid w ≡ (w, found (marks pid))

-- A live process of the invocation that has the marker.
abbrev pub carries : {W : Type 0} → (ℕ → Bool) → Tree W → Process → Bool
carries marks tree process =
    tree.marked
    && not process.zombie
    && not (is_excluded tree process)
    && not (is_older tree.born process)
    && marks process.pid

module _ {W : Type 0} (host : Host W) (marks : ℕ → Bool) where
  marked_now-still :
      (process : Process) (marker : Bool) (tree : Tree W) (r : W × Reading Process)
      → r ≡ (tree.world, found process)
      → process.zombie ≡ false
      → marked_now host process marker tree r ≡ (tree, marker)
  marked_now-still process marker tree r e lives =
      subst (λ (s : W × Reading Process). marked_now host process marker tree s ≡ (tree, marker))
        (sym e)
        (if_ind (λ (s : Tree W × Bool). s ≡ (tree, marker))
          (not (process.born == process.born) || process.zombie)
          (λ wrong. absurd (ground (arith, ==_iff process.born process.born))) (λ _. refl))

  is_marked-still :
      (process : Process) (tree : Tree W)
      → host.has_marker process.pid tree.world ≡ (tree.world, found (marks process.pid))
      → host.read_process process.pid tree.world ≡ (tree.world, found process)
      → is_marked host process tree ≡ (tree, carries marks tree process)
  unfolding is_marked
  is_marked-still process tree marker reads =
      if_ind (λ (s : Tree W × Bool). s ≡ (tree, carries marks tree process))
        (not tree.marked
          || process.zombie
          || is_excluded tree process
          || is_older tree.born process)
        (λ out. ap (λ (b : Bool). (tree, b)) (ground arith))
        (λ asked.
          subst
            (λ (s : W × Reading Bool).
              environment_read host process tree s ≡ (tree, carries marks tree process))
            (sym marker)
            (marked_now-still process (marks process.pid) tree
                (host.read_process process.pid tree.world) reads (ground arith)
              ∙ ap (λ (b : Bool). (tree, b)) (ground arith)))

  if_owner-keep :
      (process : Process) (table : List Process) (tree : Tree W) (b : Bool)
      → carries marks tree process ≡ b
      → if_owner host process.pid b
          (tree, map (λ (p : Process). p.pid) (keep (carries marks tree) table))
        ≡ (tree, map (λ (p : Process). p.pid) (keep (carries marks tree) (process ∷ table)))
  if_owner-keep process table tree true e =
      ap (λ (l : List Process). (tree, map (λ (p : Process). p.pid) l))
        (sym (keep-true (carries marks tree) process table e))
  if_owner-keep process table tree false e =
      ap (λ (l : List Process). (tree, map (λ (p : Process). p.pid) l))
        (sym (keep-false (carries marks tree) process table e))

  -- While the host gives each process of the table as it stands there, and nothing changes by asking,
  -- the marker gives an invocation exactly those processes of the table, in its order, that have it
  -- and are neither zombies, nor excluded, nor older than the root, and the tree stays as it is.
  pub marked_owners-keep :
      (table : List Process) (tree : Tree W)
      → IsStill host marks table
      → marked_owners host table tree
        ≡ (tree, map (λ (process : Process). process.pid) (keep (carries marks tree) table))
  unfolding marked_owners
  marked_owners-keep [] tree still = refl
  marked_owners-keep (process ∷ table) tree still =
      let rest : IsStill host marks table = record {
        same_process = λ other m. still.same_process other (inr m);
        same_marker = still.same_marker;
      } in
      let own : is_marked host process tree ≡ (tree, carries marks tree process) =
        is_marked-still process tree (still.same_marker process.pid tree.world)
          (still.same_process process (inl refl) tree.world) in
      ap (λ (r : Tree W × Bool). if_owner host process.pid r.1 (marked_owners host table r.0)) own
      ∙ ap (if_owner host process.pid (carries marks tree process))
          (marked_owners-keep table tree rest)
      ∙ if_owner-keep process table tree (carries marks tree process) refl
