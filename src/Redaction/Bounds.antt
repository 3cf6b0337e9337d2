-- ===== src/Redaction/Bounds.antt =====
-- The scans end in the text, and the loop over the assignments ends.
use clearml_yolo.Base.{
  ℕ, zero, suc, ◌+◌, ◌-◌, ◌==◌, ◌≤◌, ◌<◌, ◌≡◌, refl, sym, Option, none, some, List, [], ◌∷◌, length,
  arith, if_ind,
}
use mathlib.Core.Path.{subst}
use clearml_yolo.Redaction.{
  Scan, at, index_error, out_of_fuel, Text, get_elem?, drop, Kind, quote, closer, other, opener,
  kind_of, quoted_scan, quoted_from, quoted_end, close, after_quoted, composite_kind,
  composite_step, composite_scan, composite_end, first_delimiter, value_end, end_from,
  assignment_end,
}

-- A scan that has a value, and that value has the property.
abbrev pub ScanAt : {A : Type 0} → (A → Type 0) → Scan A → Type 0
ScanAt P (at a) = P a
ScanAt P index_error = ⊥
ScanAt P out_of_fuel = ⊥

ScanAt-map :
    {A : Type 0} {P Q : A → Type 0} (s : Scan A) → ((a : A) → P a → Q a) → ScanAt P s → ScanAt Q s
ScanAt-map (at a) f h = f a h
ScanAt-map index_error f h = h
ScanAt-map out_of_fuel f h = h

-- A position from an index on, in the text or at its end.
abbrev pub Within : Text → ℕ → ℕ → Type 0
Within text index n = (index ≤ n) × (n ≤ length text)

Within-start : (text : Text) (i j n : ℕ) → i ≤ j → Within text j n → Within text i n
Within-start text i j n le h = omega arith

in_range : (text : Text) (i : ℕ) {c : ℕ} → get_elem? text i ≡ some c → i < length text
in_range [] i e = ground arith
in_range (c ∷ text) zero e = omega arith
in_range (c ∷ text) (suc i) e = omega (arith, in_range text i e)

length-drop : (n : ℕ) (text : Text) → length (drop n text) ≡ length text - n
length-drop zero text = omega arith
length-drop (suc n) [] = omega arith
length-drop (suc n) (c ∷ text) = omega (arith, length-drop n text)

quoted_scan-le : (mark : ℕ) (text : Text) → quoted_scan mark text ≤ length text
quoted_scan-le mark [] = omega arith
quoted_scan-le mark (c ∷ []) = omega arith
quoted_scan-le mark (c ∷ d ∷ rest) =
    ground (arith, quoted_scan-le mark rest, quoted_scan-le mark (d ∷ rest))

quoted_end-Within :
    (text : Text) (start : ℕ) {c : ℕ}
    → get_elem? text start ≡ some c
    → ScanAt (Within text (suc start)) (quoted_end text start)
unfolding quoted_end
quoted_end-Within text start {c} e =
    subst (λ o. ScanAt (Within text (suc start)) (quoted_from start (drop (start + 1) text) o))
      (sym e)
      (omega (
        arith,
        quoted_scan-le c (drop (start + 1) text),
        length-drop (start + 1) text,
        in_range text start e,
      ))

-- What the loop is about to do from a later position, with something to expect.
abbrev NextWithin : (ℕ → List ℕ → Scan ℕ) → Text → ℕ → Type 0
NextWithin next text index =
    (i top : ℕ) (below : List ℕ)
    → index < i
    → i ≤ length text
    → ScanAt (Within text i) (next i (top ∷ below))

next-Within :
    (next : ℕ → List ℕ → Scan ℕ) (text : Text) (index i top : ℕ) (below : List ℕ)
    → NextWithin next text index
    → index < i
    → i ≤ length text
    → ScanAt (Within text (suc index)) (next i (top ∷ below))
next-Within next text index i top below h lt le =
    ScanAt-map (next i (top ∷ below)) (λ n k. Within-start text (suc index) i n lt k)
      (h i top below lt le)

after_quoted-Within :
    (next : ℕ → List ℕ → Scan ℕ) (text : Text) (index top : ℕ) (below : List ℕ) (s : Scan ℕ)
    → NextWithin next text index
    → ScanAt (Within text (suc index)) s
    → ScanAt (Within text (suc index)) (after_quoted next text index (top ∷ below) s)
after_quoted-Within next text index top below (at end) h k =
    next-Within next text index end top below h k.0 k.1
after_quoted-Within next text index top below index_error h k = k
after_quoted-Within next text index top below out_of_fuel h k = k

close-Within :
    (next : ℕ → List ℕ → Scan ℕ) (text : Text) (index c top : ℕ) (below : List ℕ)
    → NextWithin next text index
    → index < length text
    → ScanAt (Within text (suc index)) (close next text index c (top ∷ below))
close-Within next text index c top [] h lt =
    if_ind (ScanAt (Within text (suc index))) (c == top) (λ _. omega arith) (λ _. omega arith)
close-Within next text index c top (second ∷ below) h lt =
    if_ind (ScanAt (Within text (suc index))) (c == top)
      (λ _. next-Within next text index (suc index) second below h (omega arith) (omega arith))
      (λ _. omega arith)

composite_kind-Within :
    (next : ℕ → List ℕ → Scan ℕ) (text : Text) (index c top : ℕ) (below : List ℕ) (kind : Kind)
    → NextWithin next text index
    → get_elem? text index ≡ some c
    → ScanAt (Within text (suc index)) (composite_kind next text index (top ∷ below) c kind)
composite_kind-Within next text index c top below quote h e =
    after_quoted-Within next text index top below (quoted_end text index) h
      (quoted_end-Within text index e)
composite_kind-Within next text index c top below (opener closing) h e =
    next-Within next text index (suc index) closing (top ∷ below) h (omega arith)
      (omega (arith, in_range text index e))
composite_kind-Within next text index c top below closer h e =
    close-Within next text index c top below h (in_range text index e)
composite_kind-Within next text index c top below other h e =
    next-Within next text index (suc index) top below h (omega arith)
      (omega (arith, in_range text index e))

composite_step-Within :
    (next : ℕ → List ℕ → Scan ℕ) (text : Text) (index top : ℕ) (below : List ℕ) (o : Option ℕ)
    → NextWithin next text index
    → index ≤ length text
    → get_elem? text index ≡ o
    → ScanAt (Within text index) (composite_step next text index (top ∷ below) o)
composite_step-Within next text index top below none h le e = omega arith
composite_step-Within next text index top below (some c) h le e =
    ScanAt-map (composite_kind next text index (top ∷ below) c (kind_of c))
      (λ n k. Within-start text index (suc index) n (omega arith) k)
      (composite_kind-Within next text index c top below (kind_of c) h e)

composite_scan-Within :
    (fuel : ℕ) (text : Text) (index top : ℕ) (below : List ℕ)
    → index ≤ length text
    → length text < index + fuel
    → ScanAt (Within text index) (composite_scan fuel text index (top ∷ below))
composite_scan-Within zero text index top below le lt = absurd (omega arith)
composite_scan-Within (suc fuel) text index top below le lt =
    composite_step-Within (composite_scan fuel text) text index top below (get_elem? text index)
      (λ i first rest gt inside. composite_scan-Within fuel text i first rest inside (omega arith))
      le refl

composite_first-Within :
    (next : ℕ → List ℕ → Scan ℕ) (text : Text) (start c closing : ℕ)
    → NextWithin next text start
    → get_elem? text start ≡ some c
    → kind_of c ≡ opener closing
    → ScanAt (Within text (suc start)) (composite_step next text start [] (get_elem? text start))
composite_first-Within next text start c closing h e k =
    subst (λ o. ScanAt (Within text (suc start)) (composite_step next text start [] o)) (sym e)
      (subst (λ kind. ScanAt (Within text (suc start)) (composite_kind next text start [] c kind))
        (sym k)
        (next-Within next text start (suc start) closing [] h (omega arith)
          (omega (arith, in_range text start e))))

composite_end-Within :
    (text : Text) (start c closing : ℕ)
    → get_elem? text start ≡ some c
    → kind_of c ≡ opener closing
    → ScanAt (Within text (suc start)) (composite_end text start)
unfolding composite_end
composite_end-Within text start c closing e k =
    composite_first-Within (composite_scan (length text) text) text start c closing
      (λ i first rest gt inside.
        composite_scan-Within (length text) text i first rest inside (omega arith))
      e k

first_delimiter-le : (text : Text) → first_delimiter text ≤ length text
first_delimiter-le [] = omega arith
first_delimiter-le (c ∷ text) = ground (arith, first_delimiter-le text)

value_end-Within :
    (text : Text) (start c : ℕ) (kind : Kind)
    → get_elem? text start ≡ some c
    → kind_of c ≡ kind
    → ScanAt (Within text start) (value_end text start kind)
value_end-Within text start c quote e k =
    ScanAt-map (quoted_end text start)
      (λ n h. Within-start text start (suc start) n (omega arith) h)
      (quoted_end-Within text start e)
value_end-Within text start c (opener closing) e k =
    ScanAt-map (composite_end text start)
      (λ n h. Within-start text start (suc start) n (omega arith) h)
      (composite_end-Within text start c closing e k)
value_end-Within text start c closer e k =
    omega
      (arith, first_delimiter-le (drop start text), length-drop start text, in_range text start e)
value_end-Within text start c other e k =
    omega
      (arith, first_delimiter-le (drop start text), length-drop start text, in_range text start e)

before_end : (text : Text) (i : ℕ) → get_elem? text i ≡ none → length text ≤ i
before_end [] i e = omega arith
before_end (c ∷ text) zero e = ground arith
before_end (c ∷ text) (suc i) e = omega (arith, before_end text i e)

end_from-Within :
    (text : Text) (start : ℕ) (o : Option ℕ)
    → start < length text
    → get_elem? text start ≡ o
    → ScanAt (Within text start) (end_from text start o)
end_from-Within text start none lt e = absurd (omega (arith, before_end text start e))
end_from-Within text start (some c) lt e = value_end-Within text start c (kind_of c) e refl

-- From every position up to the end of the text, the end of the value is found: no index is out of
-- range, no closer meets an empty stack, and the end is between the position and the text's end.
pub assignment_end-Within :
    (text : Text) (start : ℕ)
    → start ≤ length text
    → ScanAt (Within text start) (assignment_end text start)
unfolding assignment_end
assignment_end-Within text start le =
    if_ind (ScanAt (Within text start)) (start == length text) (λ _. omega arith)
      (λ differs. end_from-Within text start (get_elem? text start) (ground arith) refl)

-- The same for an earlier position.
pub assignment_end-Within_from :
    (text : Text) (index start : ℕ)
    → index < start
    → start ≤ length text
    → ScanAt (Within text (suc index)) (assignment_end text start)
assignment_end-Within_from text index start lt le =
    ScanAt-map (assignment_end text start) (λ n h. Within-start text (suc index) start n lt h)
      (assignment_end-Within text start le)
