-- ===== src/Redaction/Examples.antt =====
-- A text with a secret, and the theorems at it.
use clearml_yolo.Base.{
  ℕ, ◌≡◌, refl, Option, none, some, length, arith, codes, ◌==◌, if◌then◌else◌, ◌&&◌,
}
use clearml_yolo.Redaction.{
  at, Text, assignment_end, Assignment, redact_assignments, composite_end, quoted_end,
}
use clearml_yolo.Redaction.Bounds.{ScanAt, Within, assignment_end-Within}
use clearml_yolo.Redaction.Ends.{IsMatchAt, Returns, redact_assignments-Returns}

-- `token={'a': 1} b`
abbrev text : Text
text = codes "token={'a': 1} b"

braces : assignment_end text 6 ≡ at 14
unfolding assignment_end composite_end quoted_end
braces = refl

assignment_end-Within_example : ScanAt (Within text 6) (assignment_end text 6)
assignment_end-Within_example = assignment_end-Within text 6 (omega arith)

-- The one key of the text above, at its start.
abbrev search : Text → ℕ → Option Assignment
search other_text index =
    if index == 0 && length other_text == 16
    then some (record { start = 0; end = 6; key = codes "token" })
    else none

redacted : redact_assignments search text ≡ at (codes "token=<redacted> b")
unfolding redact_assignments assignment_end composite_end quoted_end
redacted = refl

finds :
    (other_text : Text) (index : ℕ) (found : Assignment)
    → search other_text index ≡ some found
    → IsMatchAt other_text index found
finds other_text index found e = ground arith

redact_assignments-Returns_example : Returns (redact_assignments search text)
redact_assignments-Returns_example = redact_assignments-Returns search finds text
