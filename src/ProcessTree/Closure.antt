-- ===== src/ProcessTree/Closure.antt =====
-- `_extend_unmarked_owners` finds the descendants of the owners, and the session of the root.
use clearml_yolo.Base.{
  ℕ, zero, suc, ◌==◌, ◌≤◌, ◌<◌, ◌≡◌, refl, sym, ◌↔◌, ◌⊎◌, inl, inr, Bool, true, false, some, List,
  [], ◌∷◌, length, arith, if_ind, Bool-cases, if◌then◌else◌, ==_iff,
}
use mathlib.Core.Path.{subst}
use mathlib.Core.Logic.{⊎_elim}
use clearml_yolo.ProcessTree.{Process, has, joins, extend_once, extend_loop, extend_unmarked_owners}

-- The process stands in the table.
abbrev pub In : Process → List Process → Type 0
In process [] = ⊥
In process (other ∷ table) = (process ≡ other) ⊎ In process table

-- The processes that belong to an invocation: those known before, those of the root's session, and
-- the children of others.
pub data Owned (matches : Bool) (root : ℕ) (table : List Process) (owners : List ℕ)
    : ℕ → Type 0 where
  known : {pid : ℕ} → has owners pid ≡ true → Owned matches root table owners pid
  session :
      (process : Process) {pid : ℕ}
      → In process table
      → matches ≡ true
      → process.session ≡ root
      → pid ≡ process.pid
      → Owned matches root table owners pid
  child :
      (process : Process) {pid : ℕ}
      → In process table
      → Owned matches root table owners process.parent
      → pid ≡ process.pid
      → Owned matches root table owners pid

module _ (matches : Bool) (root : ℕ) where
  -- A round loses no owner.
  extend_once-grows :
      (table : List Process) (owners : List ℕ) (pid : ℕ)
      → has owners pid ≡ true
      → has (extend_once matches root table owners).0 pid ≡ true
  extend_once-grows [] owners pid h = h
  extend_once-grows (process ∷ table) owners pid h = ground (
    arith,
    extend_once-grows table owners pid,
    extend_once-grows table (process.pid ∷ owners) pid,
  )

  -- A process that joins is of the session of the root, or has a parent among the owners.
  joins_cases :
      (owners : List ℕ) (process : Process)
      → joins matches root owners process ≡ true
      → (has owners process.parent ≡ true) ⊎ ((matches ≡ true) × (process.session ≡ root))
  joins_cases owners process e = elim (Bool-cases (has owners process.parent)) [
    | inl yes_parent ↦ inl yes_parent
    | inr no_parent ↦ inr (ground arith)
  ]

  added_cases :
      (owners : List ℕ) (new pid : ℕ)
      → has (new ∷ owners) pid ≡ true
      → (new ≡ pid) ⊎ (has owners pid ≡ true)
  added_cases owners new pid e = elim (Bool-cases (new == pid)) [
    | inl same ↦ inl ((==_iff new pid).0 same)
    | inr other ↦ inr (ground arith)
  ]

  -- A predicate that is closed under the two ways to join.
  record IsClosed (P : ℕ → Type 0) (table : List Process) : Type 0 where
    by_session :
        (process : Process)
        → In process table
        → matches ≡ true
        → process.session ≡ root
        → P process.pid
    by_parent : (process : Process) → In process table → P process.parent → P process.pid

  IsClosed-tail :
      (P : ℕ → Type 0) (process : Process) (table : List Process)
      → IsClosed P (process ∷ table)
      → IsClosed P table
  IsClosed-tail P process table closed = record {
    by_session = λ p m. closed.by_session p (inr m);
    by_parent = λ p m. closed.by_parent p (inr m);
  }

  joined-holds :
      (P : ℕ → Type 0) (process : Process) (table : List Process) (owners : List ℕ)
      → IsClosed P (process ∷ table)
      → ((pid : ℕ) → has owners pid ≡ true → P pid)
      → joins matches root owners process ≡ true
      → P process.pid
  joined-holds P process table owners closed h e =
      ⊎_elim (λ parent. closed.by_parent process (inl refl) (h process.parent parent))
        (λ both. closed.by_session process (inl refl) both.0 both.1) (joins_cases owners process e)

  -- It holds of the owners after a round, if it held of those before.
  extend_once-sound :
      (P : ℕ → Type 0) (table : List Process) (owners : List ℕ)
      → IsClosed P table
      → ((pid : ℕ) → has owners pid ≡ true → P pid)
      → (pid : ℕ) → has (extend_once matches root table owners).0 pid ≡ true
      → P pid
  extend_once-sound P [] owners closed h = h
  extend_once-sound P (process ∷ table) owners closed h =
      if_ind (λ (r : List ℕ × Bool). (pid : ℕ) → has r.0 pid ≡ true → P pid)
        (joins matches root owners process)
        (λ joined.
          extend_once-sound P table (process.pid ∷ owners) (IsClosed-tail P process table closed)
            (λ pid e.
              ⊎_elim (λ same. subst P same (joined-holds P process table owners closed h joined))
                (h pid) (added_cases owners process.pid pid e)))
        (λ _. extend_once-sound P table owners (IsClosed-tail P process table closed) h)

  -- A round without a change is one in which no process joins.
  extend_once-still :
      (table : List Process) (owners : List ℕ)
      → (extend_once matches root table owners).1 ≡ false
      → ((extend_once matches root table owners).0 ≡ owners)
        × ((process : Process) → In process table → joins matches root owners process ≡ false)
  extend_once-still [] owners e = (refl, λ process m. absurd m)
  extend_once-still (process ∷ table) owners e =
      elim (Bool-cases (joins matches root owners process)) [
        | inl joined ↦ absurd (ground arith)
        | inr apart ↦
            let (same, still) = extend_once-still table owners (ground arith) in
            (
              ground arith,
              λ p m.
                  ⊎_elim (λ here. subst (λ q. joins matches root owners q ≡ false) (sym here) apart)
                    (still p) m,
            )
      ]

  -- The processes of the table that are no owners.
  abbrev left_out : List Process → List ℕ → ℕ
  left_out [] owners = 0
  left_out (process ∷ table) owners =
      if has owners process.pid then left_out table owners else suc (left_out table owners)

  left_out-le : (table : List Process) (owners : List ℕ) → left_out table owners ≤ length table
  left_out-le [] owners = omega arith
  left_out-le (process ∷ table) owners = ground (arith, left_out-le table owners)

  missing_mono :
      (table : List Process) (owners owners' : List ℕ)
      → ((pid : ℕ) → has owners pid ≡ true → has owners' pid ≡ true)
      → left_out table owners' ≤ left_out table owners
  missing_mono [] owners owners' h = omega arith
  missing_mono (process ∷ table) owners owners' h =
      ground (arith, missing_mono table owners owners' h, h process.pid)

  left_out_strict :
      (table : List Process) (owners owners' : List ℕ) (process : Process)
      → ((pid : ℕ) → has owners pid ≡ true → has owners' pid ≡ true)
      → In process table
      → has owners process.pid ≡ false
      → has owners' process.pid ≡ true
      → left_out table owners' < left_out table owners
  left_out_strict [] owners owners' process h m out into = absurd m
  left_out_strict (other ∷ table) owners owners' process h (inl same) out into =
      let out' : has owners other.pid ≡ false =
        subst (λ (p : Process). has owners p.pid ≡ false) same out in
      let into' : has owners' other.pid ≡ true =
        subst (λ (p : Process). has owners' p.pid ≡ true) same into in
      ground (arith, missing_mono table owners owners' h)
  left_out_strict (other ∷ table) owners owners' process h (inr m) out into =
      ground (arith, left_out_strict table owners owners' process h m, h other.pid)

  -- A round with a change adds a process of the table.
  extend_once-added :
      (table : List Process) (owners : List ℕ)
      → (extend_once matches root table owners).1 ≡ true
      → (process : Process) × In process table
        × (has owners process.pid ≡ false)
        × (has (extend_once matches root table owners).0 process.pid ≡ true)
  extend_once-added [] owners e = absurd (cc (e))
  extend_once-added (process ∷ table) owners e =
      elim (Bool-cases (joins matches root owners process)) [
        | inl joined ↦ (
          process,
          inl refl,
          ground arith,
          ground (arith, extend_once-grows table (process.pid ∷ owners) process.pid),
        )
        | inr apart ↦
            let (p, m, out, into) = extend_once-added table owners (ground arith) in
            (p, inr m, out, ground arith)
      ]

  -- What the loop gives.
  record Closes (table : List Process) (owners owners' : List ℕ) : Type 0 where
    grows : (pid : ℕ) → has owners pid ≡ true → has owners' pid ≡ true
    sound : (pid : ℕ) → has owners' pid ≡ true → Owned matches root table owners pid
    still : (process : Process) → In process table → joins matches root owners' process ≡ false

  extend_loop-Closes :
      (fuel : ℕ) (table : List Process) (first owners : List ℕ)
      → left_out table owners < fuel
      → ((pid : ℕ) → has first pid ≡ true → has owners pid ≡ true)
      → ((pid : ℕ) → has owners pid ≡ true → Owned matches root table first pid)
      → (owners' : List ℕ) × (extend_loop fuel matches root table owners ≡ some owners')
        × Closes table first owners'
  extend_loop-Closes zero table first owners lt grows sound = absurd (omega arith)
  extend_loop-Closes (suc fuel) table first owners lt grows sound =
      elim (Bool-cases (extend_once matches root table owners).1) [
        | inl again ↦
            let (process, m, out, into) = extend_once-added table owners again in
            let next = (extend_once matches root table owners).0 in
            let (owners', e, closes) =
              extend_loop-Closes fuel table first next
                (omega (
                  arith,
                  left_out_strict table owners next process (extend_once-grows table owners) m out
                      into,
                ))
                (λ pid h. extend_once-grows table owners pid (grows pid h))
                (extend_once-sound (Owned matches root table first) table owners
                  (record {
                    by_session = λ p m e s. session p m e s refl;
                    by_parent = λ p m o. child p m o refl;
                  })
                  sound) in
            (owners', ground arith, closes)
        | inr ends ↦
            let (same, still) = extend_once-still table owners ends in
            (owners, ground arith, record { grows = grows; sound = sound; still = still })
      ]

  joins-false :
      (owners : List ℕ) (process : Process)
      → joins matches root owners process ≡ false
      → (has owners process.parent ≡ true) ⊎ ((matches ≡ true) × (process.session ≡ root))
      → has owners process.pid ≡ true
  joins-false owners process e (inl parent) = ground arith
  joins-false owners process e (inr same_session) = ground arith

  Closes-complete :
      {table : List Process} {owners owners' : List ℕ} {pid : ℕ}
      → Closes table owners owners'
      → Owned matches root table owners pid
      → has owners' pid ≡ true
  Closes-complete {owners'} {pid} closes (known h) = closes.grows pid h
  Closes-complete {owners'} closes (session process m e s same) =
      subst (λ p. has owners' p ≡ true) (sym same)
        (joins-false owners' process (closes.still process m) (inr (e, s)))
  Closes-complete {owners'} closes (child process m owned same) =
      subst (λ p. has owners' p ≡ true) (sym same)
        (joins-false owners' process (closes.still process m) (inl (Closes-complete closes owned)))

  -- The loop ends within a round more than the table has processes, and what it gives are exactly
  -- the processes that belong: the owners it began with, those of the root's session where that is
  -- its own, and all descendants of these in the table.
  pub extend_unmarked_owners-iff-Owned :
      (table : List Process) (owners : List ℕ)
      → (owners' : List ℕ) × (extend_unmarked_owners matches root table owners ≡ some owners')
        × ((pid : ℕ) → (has owners' pid ≡ true) ↔ Owned matches root table owners pid)
  unfolding extend_unmarked_owners
  extend_unmarked_owners-iff-Owned table owners =
      let (owners', e, closes) =
        extend_loop-Closes (suc (length table)) table owners owners
          (omega (arith, left_out-le table owners)) (λ _ h. h) (λ _ h. known h) in
      (owners', e, λ pid. (closes.sound pid, Closes-complete closes))
