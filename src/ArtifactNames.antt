-- ===== src/ArtifactNames.antt =====
-- core/artifact_names.py: the names of the artifacts of a split. A text is the list of its code
-- points, and `quote` is that of Python's library.
pub mod RoundTrip
pub mod Portable
mod Examples
use clearml_yolo.Base.{
  ℕ, ◌+◌, ◌/◌, ◌%◌, ◌==◌, ltb, leb, Bool, true, false, ◌&&◌, ◌||◌, List, [], ◌∷◌, ◌++◌, any, Result,
  ok, err, value_error, if◌then◌else◌,
}

abbrev pub Text : Type 0
Text = List ℕ

abbrev pub between : ℕ → ℕ → ℕ → Bool
between low high c = leb low c && leb c high

-- The encoding refuses a surrogate.
abbrev pub is_surrogate : ℕ → Bool
is_surrogate = between 55296 57343

-- The bytes of a code point in UTF-8.
abbrev pub utf8_char : ℕ → List ℕ
utf8_char c =
    if ltb c 128
    then c ∷ []
    else if ltb c 2048
    then (192 + c / 64) ∷ (128 + c % 64) ∷ []
    else if ltb c 65536
    then (224 + c / 4096) ∷ (128 + c / 64 % 64) ∷ (128 + c % 64) ∷ []
    else (240 + c / 262144) ∷ (128 + c / 4096 % 64) ∷ (128 + c / 64 % 64) ∷ (128 + c % 64) ∷ []

abbrev pub utf8 : Text → List ℕ
utf8 [] = []
utf8 (c ∷ text) = utf8_char c ++ utf8 text

-- Letters, digits and `_.-~` are always safe; `-` and `_` are the argument `safe`.
abbrev pub is_safe : ℕ → Bool
is_safe b =
    between 65 90 b
    || between 97 122 b
    || between 48 57 b
    || b == 95
    || b == 46
    || b == 45
    || b == 126

-- An upper hexadecimal digit.
abbrev pub hex : ℕ → ℕ
hex d = if ltb d 10 then 48 + d else 55 + d

abbrev pub quote_byte : ℕ → Text
quote_byte b = if is_safe b then b ∷ [] else 37 ∷ hex (b / 16) ∷ hex (b % 16) ∷ []

abbrev pub quote_bytes : List ℕ → Text
quote_bytes [] = []
quote_bytes (b ∷ bytes) = quote_byte b ++ quote_bytes bytes

-- `.replace(".", "%2E")`
abbrev pub dot_text : ℕ → Text
dot_text c = if c == 46 then 37 ∷ 50 ∷ 69 ∷ [] else c ∷ []

abbrev pub replace_dots : Text → Text
replace_dots [] = []
replace_dots (c ∷ text) = dot_text c ++ replace_dots text

-- `split_component`
unfoldable pub split_component : Text → Result Text
split_component split =
    if any is_surrogate split
    then err (value_error "surrogates not allowed")
    else ok (replace_dots (quote_bytes (utf8 split)))

abbrev pub named : Text → Result Text → Result Text
named prefix (err problem) = err problem
named prefix (ok component) = ok (prefix ++ 95 ∷ component)

-- `per_split`
unfoldable pub per_split : Text → Text → Result Text
unfolding split_component
per_split prefix split = named prefix (split_component split)
