-- ===== src/Base/Text.antt =====
-- Texts: equality of lists of texts, decimal numbers, and joining.
use Prim.Native.Nat.{ℕ, zero, suc, ◌+◌, ◌/◌, ◌%◌}
use Prim.Native.String.{String, ◌++◌ as append}
use mathlib.Core.Path.{◌≡◌, refl}
use mathlib.Core.Logic.{◌↔◌}
use native.Mathlib.Omega.{arith}
use mathlib.Core.Bool.{Bool, true, false, ◌&&◌, ◌||◌}
use Prim.Native.Char.{code}
use mathlib.Core.List.{List, [], ◌∷◌}
use clearml_yolo.Base.Lists.{all}
use text.Mathlib.TextLemmas.{append-eq-nil_iff}
use clearml_yolo.Base.Tests.{ltb, leb, ◌==◌, if◌then◌else◌}
pub use text.Mathlib.Text.{◌==◌ as str_eq}
pub use text.Mathlib.TextEquality.{eq_iff}
pub use text.Mathlib.TextPositions.{eq_refl}

-- Concatenation of texts.
infixr 65 ◌<>◌
abbrev pub ◌<>◌ : String → String → String
s <> t = append s t

-- A text that begins with a nonempty one is nonempty.
pub append-ne-empty : (s t : String) → str_eq s "" ≡ false → ¬ (s <> t ≡ "")
append-ne-empty s t h e = ground (arith, (append-eq-nil_iff {p = s} {q = t}).0 e, eq_iff s "")

pub ne_of_str_eq-false : (s t : String) → str_eq s t ≡ false → ¬ (s ≡ t)
ne_of_str_eq-false s t h e = ground (arith, eq_iff s t)

-- The code points of a text.
abbrev pub codes : String → List ℕ
codes String.[] = []
codes (String.◌∷◌ c s) = code c ∷ codes s

between : ℕ → ℕ → ℕ → Bool
between low high c = leb low c && leb c high

-- `str.isspace` of one character.
unfoldable pub is_space : ℕ → Bool
unfolding between
is_space c =
    between 9 13 c
    || between 28 32 c
    || (c == 133)
    || (c == 160)
    || (c == 5760)
    || between 8192 8202 c
    || between 8232 8233 c
    || (c == 8239)
    || (c == 8287)
    || (c == 12288)

-- `not s.strip()`
unfoldable pub blank : String → Bool
unfolding is_space
blank s = all is_space (codes s)

-- `s.removesuffix(suffix)` of a nonempty suffix: where the rest is the suffix, nothing is left.
unfoldable pub remove_suffix : String → String → String
remove_suffix suffix String.[] = ""
remove_suffix suffix (String.◌∷◌ c s) =
    let kept = String.◌∷◌ c (remove_suffix suffix s) in
    if str_eq (String.◌∷◌ c s) suffix then "" else kept

digit : ℕ → String
digit zero = "0"
digit (suc zero) = "1"
digit (suc (suc zero)) = "2"
digit (suc (suc (suc zero))) = "3"
digit (suc (suc (suc (suc zero)))) = "4"
digit (suc (suc (suc (suc (suc zero))))) = "5"
digit (suc (suc (suc (suc (suc (suc zero)))))) = "6"
digit (suc (suc (suc (suc (suc (suc (suc zero))))))) = "7"
digit (suc (suc (suc (suc (suc (suc (suc (suc zero)))))))) = "8"
digit _ = "9"

digits : ℕ → ℕ → String
digits zero n = ""
digits (suc fuel) n =
    let more = digits fuel (n / 10) <> digit (n % 10) in if ltb n 10 then digit n else more

-- `str(n)`: a number has fewer digits than its value plus one.
unfoldable pub show : ℕ → String
unfolding digits digit
show n = digits (n + 1) n

-- `separator.join(parts)`
abbrev pub join : String → List String → String
join separator [] = ""
join separator (s ∷ []) = s
join separator (s ∷ t ∷ rest) = s <> separator <> join separator (t ∷ rest)

-- Equality of two tuples of texts.
unfoldable pub texts_eq : List String → List String → Bool
texts_eq [] [] = true
texts_eq (s ∷ ss) (t ∷ ts) = str_eq s t && texts_eq ss ts
texts_eq _ _ = false

pub texts_eq_iff : (ss ts : List String) → (texts_eq ss ts ≡ true) ↔ (ss ≡ ts)
unfolding texts_eq
texts_eq_iff ss ts = (sound ss ts, complete ss ts)
  where
    sound : (ss ts : List String) → texts_eq ss ts ≡ true → ss ≡ ts
    sound [] [] h = refl
    sound (s ∷ ss) (t ∷ ts) h = ground (arith, eq_iff s t, sound ss ts)
    sound [] (t ∷ ts) h = cc
    sound (s ∷ ss) [] h = cc

    complete : (ss ts : List String) → ss ≡ ts → texts_eq ss ts ≡ true
    complete [] [] h = refl
    complete (s ∷ ss) (t ∷ ts) h = ground (arith, eq_iff s t, complete ss ts)
    complete [] (t ∷ ts) h = cc
    complete (s ∷ ss) [] h = cc

show_42 : show 1042 ≡ "1042"
unfolding show
show_42 = refl
