-- ===== src/WeightBundles/Paths.antt =====
-- A safe member stays below the directory that it is resolved in.
use clearml_yolo.Base.{
  ℕ, ◌≡◌, refl, sym, Bool, false, ◌&&◌, ◌||◌, List, [], ◌∷◌, String, ◌==◌, str_eq, codes, any, ok,
  All, any-All, arith, raise_if-eq-ok, ok-injective, if◌then◌else◌,
}
use clearml_yolo.WeightBundles.{split, has_code, is_special, is_absolute, safe_member}

-- The parts in reverse order, on those that are there.
abbrev pub onto {ℓ} : {A : Type ℓ} → List A → List A → List A
onto [] stack = stack
onto (part ∷ parts) stack = onto parts (part ∷ stack)

-- The directory that a relative path names, the innermost first: an empty part and `.` stay, and
-- `..` goes up.
unfoldable pub resolve : List (List ℕ) → List (List ℕ) → List (List ℕ)
resolve stack [] = stack
resolve [] ((c ∷ d ∷ []) ∷ parts) =
    let up = resolve [] parts in
    let down = resolve ((c ∷ d ∷ []) ∷ []) parts in if (c == b'.') && (d == b'.') then up else down
resolve (top ∷ stack) ((c ∷ d ∷ []) ∷ parts) =
    let up = resolve stack parts in
    let down = resolve ((c ∷ d ∷ []) ∷ top ∷ stack) parts in
    if (c == b'.') && (d == b'.') then up else down
resolve stack ([] ∷ parts) = resolve stack parts
resolve stack ((c ∷ []) ∷ parts) =
    let here = resolve stack parts in
    let down = resolve ((c ∷ []) ∷ stack) parts in if c == b'.' then here else down
resolve stack ((c ∷ d ∷ e ∷ part) ∷ parts) = resolve ((c ∷ d ∷ e ∷ part) ∷ stack) parts

-- Ordinary parts are entered one after the other.
resolve-onto :
    (stack parts : List (List ℕ))
    → All (λ part. is_special part ≡ false) parts
    → resolve stack parts ≡ onto parts stack
unfolding resolve
resolve-onto stack [] h = refl
resolve-onto stack ([] ∷ parts) h = cc
resolve-onto stack ((c ∷ []) ∷ parts) h =
    ground (arith, h.0, resolve-onto ((c ∷ []) ∷ stack) parts h.1)
resolve-onto [] ((c ∷ d ∷ []) ∷ parts) h =
    ground (arith, h.0, resolve-onto ((c ∷ d ∷ []) ∷ []) parts h.1)
resolve-onto (top ∷ stack) ((c ∷ d ∷ []) ∷ parts) h =
    ground (arith, h.0, resolve-onto ((c ∷ d ∷ []) ∷ top ∷ stack) parts h.1)
resolve-onto stack ((c ∷ d ∷ f ∷ part) ∷ parts) h =
    resolve-onto ((c ∷ d ∷ f ∷ part) ∷ stack) parts h.1

last_false : (a b c d e : Bool) → (a || b || c || d || e) ≡ false → e ≡ false
last_false a b c d e h = ground arith

safe_parts :
    (value : String) {value' : String}
    → safe_member value ≡ ok value'
    → (value' ≡ value) × All (λ part. is_special part ≡ false) (split b'/' (codes value))
unfolding safe_member
safe_parts value e =
    let (harmless, same) = raise_if-eq-ok _ _ (ok value) e in
    (
      ok-injective (sym same),
      any-All is_special (split b'/' (codes value)) (
          last_false (str_eq value "") (has_code 92 (codes value)) (has_code b':' (codes value))
            (is_absolute (codes value)) (any is_special (split b'/' (codes value))) harmless),
    )

-- A member that passes is unchanged, and resolving it in any directory enters its parts one after
-- the other, so it stays below the directory.
pub safe_member-resolve :
    (value : String) (stack : List (List ℕ)) {value' : String}
    → safe_member value ≡ ok value'
    → (value' ≡ value)
      × (resolve stack (split b'/' (codes value)) ≡ onto (split b'/' (codes value)) stack)
safe_member-resolve value stack e =
    let (same, parts) = safe_parts value e in
    (same, resolve-onto stack (split b'/' (codes value)) parts)
