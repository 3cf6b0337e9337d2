-- ===== src/ArtifactNames/Portable.antt =====
-- The characters of a component.
use clearml_yolo.Base.{
  ℕ, ◌/◌, ◌%◌, ◌==◌, ◌<◌, ◌≡◌, refl, sym, true, ◌||◌, List, [], ◌∷◌, ok, All, All-append, arith,
  if_ind,
}
use mathlib.Core.Path.{subst}
use clearml_yolo.ArtifactNames.{
  Text, between, is_safe, hex, quote_byte, quote_bytes, dot_text, replace_dots, utf8,
  split_component,
}
use clearml_yolo.ArtifactNames.RoundTrip.{IsCode, IsByte, split_component-ok, utf8-IsByte}

-- A letter, a digit, or one of `_-~%`.
abbrev pub IsPortable : ℕ → Type 0
IsPortable c =
    (between 65 90 c
      || between 97 122 c
      || between 48 57 c
      || c == 95
      || c == 45
      || c == 126
      || c == 37)
    ≡ true

dot_text-IsPortable : (c : ℕ) → (is_safe c || c == 37) ≡ true → All IsPortable (dot_text c)
dot_text-IsPortable c safe =
    if_ind (All IsPortable) (c == 46) (λ _. (refl, (refl, (refl, tt))))
      (λ other. (ground arith, tt))

hex-safe : (d : ℕ) → d < 16 → (is_safe (hex d) || hex d == 37) ≡ true
hex-safe d bound = ground arith

replace_dots-IsPortable :
    (text : Text)
    → All (λ c. (is_safe c || c == 37) ≡ true) text
    → All IsPortable (replace_dots text)
replace_dots-IsPortable [] h = tt
replace_dots-IsPortable (c ∷ text) (safe, h) =
    All-append IsPortable (dot_text c) (replace_dots text) (dot_text-IsPortable c safe)
      (replace_dots-IsPortable text h)

quote_bytes-safe :
    (bytes : List ℕ)
    → All IsByte bytes
    → All (λ c. (is_safe c || c == 37) ≡ true) (quote_bytes bytes)
quote_bytes-safe [] h = tt
quote_bytes-safe (b ∷ bytes) (bound, h) =
    All-append (λ c. (is_safe c || c == 37) ≡ true) (quote_byte b) (quote_bytes bytes)
      (if_ind (All (λ c. (is_safe c || c == 37) ≡ true)) (is_safe b) (λ safe. (ground arith, tt))
        (λ _. (refl, (hex-safe (b / 16) (omega arith), (hex-safe (b % 16) (omega arith), tt)))))
      (quote_bytes-safe bytes h)

-- A component that is returned for a text of code points has only letters, digits and `_-~%`: no dot
-- and no slash.
pub split_component-IsPortable :
    (split component : Text)
    → All IsCode split
    → split_component split ≡ ok component
    → All IsPortable component
split_component-IsPortable split component bound e =
    subst (All IsPortable) (sym (split_component-ok split component e)) (
      replace_dots-IsPortable (quote_bytes (utf8 split))
        (quote_bytes-safe (utf8 split) (utf8-IsByte split bound)))
