-- ===== src/Redaction/Ends.antt =====
-- The loop of `_redact_assignments` ends, if each match of the pattern has a character.
use clearml_yolo.Base.{
  ℕ, zero, suc, ◌+◌, ◌-◌, ◌≤◌, ◌<◌, ◌≡◌, refl, Option, none, some, ◌++◌, length, arith, codes,
}
use clearml_yolo.Redaction.Bounds.{ScanAt, Within, assignment_end-Within_from}
use clearml_yolo.Redaction.{
  Scan, at, index_error, out_of_fuel, Text, drop, take, assignment_end, Assignment, prepend,
  redact_from, redact_step, redact_loop, redact_assignments,
}

-- A match lies in the text, from the index of the search on, and has a character.
abbrev pub IsMatchAt : Text → ℕ → Assignment → Type 0
IsMatchAt text index found =
    (index ≤ found.start) × (found.start < found.end) × (found.end ≤ length text)

-- There is a value.
abbrev pub Returns : Scan Text → Type 0
Returns = ScanAt (λ _. Unit)

prepend-Returns : (front : Text) (s : Scan Text) → Returns s → Returns (prepend front s)
prepend-Returns front (at rest) h = tt
prepend-Returns front index_error h = h
prepend-Returns front out_of_fuel h = h

module _ (search : Text → ℕ → Option Assignment)
    (finds : (text : Text) (index : ℕ) (found : Assignment)
      → search text index ≡ some found
      → IsMatchAt text index found) where
  redact_from-Returns :
      (next : ℕ → Scan Text) (text pieces : Text) (index : ℕ) (s : Scan ℕ)
      → ((i : ℕ) → index < i → i ≤ length text → Returns (next i))
      → ScanAt (Within text (suc index)) s
      → Returns (redact_from search next pieces s)
  redact_from-Returns next text pieces index (at end) h k =
      prepend-Returns pieces (next end) (h end k.0 k.1)
  redact_from-Returns next text pieces index index_error h k = k
  redact_from-Returns next text pieces index out_of_fuel h k = k

  redact_step-Returns :
      (next : ℕ → Scan Text) (text : Text) (index : ℕ) (o : Option Assignment)
      → ((i : ℕ) → index < i → i ≤ length text → Returns (next i))
      → search text index ≡ o
      → Returns (redact_step search next text index o)
  redact_step-Returns next text index none h e = tt
  redact_step-Returns next text index (some found) h e =
      redact_from-Returns next text
        (take (found.start - index) (drop index text) ++ found.key ++ codes "=<redacted>") index
        (assignment_end text found.end) h
        (assignment_end-Within_from text index found.end (omega (arith, finds text index found e))
          (omega (arith, finds text index found e)))

  redact_loop-Returns :
      (fuel : ℕ) (text : Text) (index : ℕ)
      → index ≤ length text
      → length text < index + fuel
      → Returns (redact_loop search fuel text index)
  redact_loop-Returns zero text index le lt = absurd (omega arith)
  redact_loop-Returns (suc fuel) text index le lt =
      redact_step-Returns (redact_loop search fuel text) text index (search text index)
        (λ i gt inside. redact_loop-Returns fuel text i inside (omega arith)) refl

  -- If each match of the search lies in the text, from the searched index on, and has a character,
  -- the redaction of the assignments of any text returns: no index is out of range, and its loop
  -- makes at most one round more than the text has characters.
  pub redact_assignments-Returns : (text : Text) → Returns (redact_assignments search text)
  unfolding redact_assignments
  redact_assignments-Returns text =
      redact_loop-Returns (suc (length text)) text 0 (omega arith) (omega arith)
