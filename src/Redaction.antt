-- ===== src/Redaction.antt =====
-- core/redaction.py: the end of a value that is redacted, and the loop over the assignments of a
-- text. A text is the list of its code points, and the search for an assignment is a parameter.
pub mod Bounds
pub mod Ends
mod Examples
use clearml_yolo.Base.{
  ℕ, zero, suc, ◌+◌, ◌-◌, ◌==◌, Bool, true, false, ◌||◌, Option, none, some, List, [], ◌∷◌, ◌++◌,
  length, codes, if◌then◌else◌,
}

-- What a scan comes to: a value, an `IndexError`, or the end of the fuel.
pub data Scan (A : Type 0) : Type 0 where
  at : A → Scan A
  index_error : Scan A
  out_of_fuel : Scan A

abbrev pub Text : Type 0
Text = List ℕ

-- `text[index]`, if it is in range.
abbrev pub get_elem? : Text → ℕ → Option ℕ
get_elem? [] index = none
get_elem? (c ∷ text) zero = some c
get_elem? (c ∷ text) (suc index) = get_elem? text index

abbrev pub drop : ℕ → Text → Text
drop zero text = text
drop (suc n) [] = []
drop (suc n) (c ∷ text) = drop n text

abbrev pub take : ℕ → Text → Text
take zero text = []
take (suc n) [] = []
take (suc n) (c ∷ text) = c ∷ take n text

-- What a character is to the scans: a quote, an opener with its closer, a closer, or another one.
pub data Kind : Type 0 where
  quote closer other : Kind
  opener : ℕ → Kind

-- The quotes are 34 and 39; the brackets are 123 and 125, 91 and 93, 40 and 41.
abbrev pub kind_of : ℕ → Kind
kind_of c =
    if c == 34 || c == 39
    then quote
    else if c == 123
    then opener 125
    else if c == 91
    then opener 93
    else if c == 40
    then opener 41
    else if c == 125 || c == 93 || c == 41
    then closer
    else other

-- The loop of `_quoted_end` on the rest of the text: how many of its characters it passes. A
-- backslash, 92, escapes the next one.
abbrev pub quoted_scan : ℕ → Text → ℕ
quoted_scan mark [] = 0
quoted_scan mark (c ∷ []) = 1
quoted_scan mark (c ∷ d ∷ rest) =
    let escaped = quoted_scan mark rest in
    let after = quoted_scan mark (d ∷ rest) in
    if c == 92 then suc (suc escaped) else if c == mark then 1 else suc after

abbrev pub quoted_from : ℕ → Text → Option ℕ → Scan ℕ
quoted_from start rest none = index_error
quoted_from start rest (some mark) = at (start + 1 + quoted_scan mark rest)

-- `_quoted_end`
unfoldable pub quoted_end : Text → ℕ → Scan ℕ
quoted_end text start = quoted_from start (drop (start + 1) text) (get_elem? text start)

module _ (next : ℕ → List ℕ → Scan ℕ) (text : Text) (index : ℕ) where
  -- A closer against the top of the expected ones.
  abbrev pub close : ℕ → List ℕ → Scan ℕ
  close c [] = index_error
  close c (top ∷ []) = if c == top then at (suc index) else at (length text)
  close c (top ∷ below ∷ expected) =
      let rest = next (suc index) (below ∷ expected) in if c == top then rest else at (length text)

  abbrev pub after_quoted : List ℕ → Scan ℕ → Scan ℕ
  after_quoted expected (at end) = next end expected
  after_quoted expected index_error = index_error
  after_quoted expected out_of_fuel = out_of_fuel

  abbrev pub composite_kind : List ℕ → ℕ → Kind → Scan ℕ
  composite_kind expected c quote = after_quoted expected (quoted_end text index)
  composite_kind expected c (opener closing) = next (suc index) (closing ∷ expected)
  composite_kind expected c closer = close c expected
  composite_kind expected c other = next (suc index) expected

  -- One round of the loop of `_composite_end`, by the character at the index.
  abbrev pub composite_step : List ℕ → Option ℕ → Scan ℕ
  composite_step expected none = at (length text)
  composite_step expected (some c) = composite_kind expected c (kind_of c)

abbrev pub composite_scan : ℕ → Text → ℕ → List ℕ → Scan ℕ
composite_scan zero text index expected = out_of_fuel
composite_scan (suc fuel) text index expected =
    composite_step (composite_scan fuel text) text index expected (get_elem? text index)

-- `_composite_end`: every round passes a character, so the length and one more are enough rounds.
unfoldable pub composite_end : Text → ℕ → Scan ℕ
composite_end text start = composite_scan (suc (length text)) text start []

-- The characters before the first of `,` `;` CR LF `}` `]` `)`.
abbrev pub first_delimiter : Text → ℕ
first_delimiter [] = 0
first_delimiter (c ∷ text) =
    let rest = first_delimiter text in
    if c == 44 || c == 59 || c == 13 || c == 10 || c == 125 || c == 93 || c == 41
    then 0
    else suc rest

abbrev pub value_end : Text → ℕ → Kind → Scan ℕ
value_end text start quote = quoted_end text start
value_end text start (opener closing) = composite_end text start
value_end text start closer = at (start + first_delimiter (drop start text))
value_end text start other = at (start + first_delimiter (drop start text))

abbrev pub end_from : Text → ℕ → Option ℕ → Scan ℕ
end_from text start none = index_error
end_from text start (some c) = value_end text start (kind_of c)

-- `_assignment_end`
unfoldable pub assignment_end : Text → ℕ → Scan ℕ
assignment_end text start =
    if start == length text then at start else end_from text start (get_elem? text start)

-- A match of the pattern `_ASSIGNMENT`, with its key.
pub record Assignment : Type 0 where
  pub start : ℕ
  pub end : ℕ
  pub key : Text

-- `prefix` before what the rest of the loop gives.
abbrev pub prepend : Text → Scan Text → Scan Text
prepend front (at rest) = at (front ++ rest)
prepend front index_error = index_error
prepend front out_of_fuel = out_of_fuel

module _ (search : Text → ℕ → Option Assignment) where
  abbrev pub redact_from : (ℕ → Scan Text) → Text → Scan ℕ → Scan Text
  redact_from next pieces (at end) = prepend pieces (next end)
  redact_from next pieces index_error = index_error
  redact_from next pieces out_of_fuel = out_of_fuel

  abbrev pub redact_step : (ℕ → Scan Text) → Text → ℕ → Option Assignment → Scan Text
  redact_step next text index none = at (drop index text)
  redact_step next text index (some found) =
      redact_from next
        (take (found.start - index) (drop index text) ++ found.key ++ codes "=<redacted>")
        (assignment_end text found.end)

  abbrev pub redact_loop : ℕ → Text → ℕ → Scan Text
  redact_loop zero text index = out_of_fuel
  redact_loop (suc fuel) text index =
      redact_step (redact_loop fuel text) text index (search text index)

  -- `_redact_assignments`: every match passes a character.
  unfoldable pub redact_assignments : Text → Scan Text
  redact_assignments text = redact_loop (suc (length text)) text 0
