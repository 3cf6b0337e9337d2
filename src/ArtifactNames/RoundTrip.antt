-- ===== src/ArtifactNames/RoundTrip.antt =====
-- What a component decodes to.
use clearml_yolo.Base.{
  ℕ, zero, suc, ◌+◌, ◌-◌, ◌*◌, ◌/◌, ◌%◌, ◌==◌, ltb, ◌≤◌, ◌<◌, ◌≡◌, refl, sym, ap, ◌∙◌, Bool, false,
  List, [], ◌∷◌, ◌++◌, any, Result, ok, err, All, All-append, arith, if_ind, if◌then◌else◌,
}
use mathlib.Core.Path.{subst}
use clearml_yolo.ArtifactNames.{
  Text, is_surrogate, utf8_char, utf8, is_safe, hex, quote_byte, quote_bytes, dot_text,
  replace_dots, split_component, named, per_split,
}

-- A code point, and a byte.
abbrev pub IsCode : ℕ → Type 0
IsCode c = c < 1114112

abbrev pub IsByte : ℕ → Type 0
IsByte b = b < 256

-- Where the decoder of percents stands.
pub data Pending : Type 0 where
  ready first : Pending
  second : ℕ → Pending

abbrev unhex : ℕ → ℕ
unhex c = if ltb c 58 then c - 48 else c - 55

abbrev after : Pending → ℕ → Pending
after ready c = if c == 37 then first else ready
after first c = second c
after (second high) c = ready

abbrev emit : Pending → ℕ → List ℕ → List ℕ
emit ready c rest = if c == 37 then rest else c ∷ rest
emit first c rest = rest
emit (second high) c rest = (16 * unhex high + unhex c) ∷ rest

abbrev unquoted : Pending → Text → List ℕ
unquoted pending [] = []
unquoted pending (c ∷ text) = emit pending c (unquoted (after pending c) text)

-- The bytes that follow the first one of a code point, and the bits that it has.
abbrev more : ℕ → ℕ
more b = if ltb b 224 then 1 else if ltb b 240 then 2 else 3

abbrev bits : ℕ → ℕ
bits b = if ltb b 224 then b - 192 else if ltb b 240 then b - 224 else b - 240

abbrev points : ℕ → ℕ → List ℕ → Text
points awaited value [] = []
points zero value (b ∷ bytes) =
    let single = points zero zero bytes in
    let several = points (more b) (bits b) bytes in if ltb b 128 then b ∷ single else several
points (suc zero) value (b ∷ bytes) = (64 * value + (b - 128)) ∷ points zero zero bytes
points (suc (suc awaited)) value (b ∷ bytes) = points (suc awaited) (64 * value + (b - 128)) bytes

-- The text whose component it is.
unfoldable pub decoded : Text → Text
decoded component = points zero zero (unquoted ready component)

++-assoc : (a b c : List ℕ) → (a ++ b) ++ c ≡ a ++ (b ++ c)
++-assoc [] b c = refl
++-assoc (x ∷ a) b c = ap (λ l. x ∷ l) (++-assoc a b c)

points-several :
    (b awaited value : ℕ) (bytes : List ℕ)
    → 128 ≤ b
    → more b ≡ awaited
    → bits b ≡ value
    → points zero zero (b ∷ bytes) ≡ points awaited value bytes
points-several b awaited value bytes large m v =
    if_ind (λ (l : Text). l ≡ points awaited value bytes) (ltb b 128) (λ small. ground arith)
      (λ _. cc (m, v))

points-utf8_char :
    (c : ℕ) (rest : List ℕ)
    → IsCode c
    → points zero zero (utf8_char c ++ rest) ≡ c ∷ points zero zero rest
points-utf8_char c rest bound =
    if_ind (λ (l : List ℕ). points zero zero (l ++ rest) ≡ c ∷ points zero zero rest) (ltb c 128)
      (λ h.
        if_ind (λ (l : Text). l ≡ c ∷ points zero zero rest) (ltb c 128) (λ _. refl)
          (λ n. cc (h, n)))
      (λ h₁.
        if_ind (λ (l : List ℕ). points zero zero (l ++ rest) ≡ c ∷ points zero zero rest)
          (ltb c 2048)
          (λ h₂.
            points-several (192 + c / 64) 1 (c / 64) ((128 + c % 64) ∷ rest) (omega arith)
              (ground arith) (ground arith)
            ∙ ap (λ n. n ∷ points zero zero rest) (omega arith))
          (λ h₂.
            if_ind (λ (l : List ℕ). points zero zero (l ++ rest) ≡ c ∷ points zero zero rest)
              (ltb c 65536)
              (λ h₃.
                points-several (224 + c / 4096) 2 (c / 4096)
                  ((128 + c / 64 % 64) ∷ (128 + c % 64) ∷ rest) (omega arith) (ground arith)
                  (ground arith)
                ∙ ap (λ n. n ∷ points zero zero rest) (omega arith))
              (λ h₃.
                points-several (240 + c / 262144) 3 (c / 262144)
                  ((128 + c / 4096 % 64) ∷ (128 + c / 64 % 64) ∷ (128 + c % 64) ∷ rest)
                  (omega arith) (ground arith) (ground arith)
                ∙ ap (λ n. n ∷ points zero zero rest) (omega arith))))

points-utf8 : (text : Text) → All IsCode text → points zero zero (utf8 text) ≡ text
points-utf8 [] h = refl
points-utf8 (c ∷ text) (bound, h) =
    points-utf8_char c (utf8 text) bound ∙ ap (λ l. c ∷ l) (points-utf8 text h)

utf8_char-IsByte : (c : ℕ) → IsCode c → All IsByte (utf8_char c)
utf8_char-IsByte c bound =
    if_ind (All IsByte) (ltb c 128) (λ h. (ground arith, tt))
      (λ _.
        if_ind (All IsByte) (ltb c 2048) (λ h. (ground arith, (omega arith, tt)))
          (λ _.
            if_ind (All IsByte) (ltb c 65536)
              (λ h. (ground arith, (omega arith, (omega arith, tt))))
              (λ _. (omega arith, (omega arith, (omega arith, (omega arith, tt)))))))

pub utf8-IsByte : (text : Text) → All IsCode text → All IsByte (utf8 text)
utf8-IsByte [] h = tt
utf8-IsByte (c ∷ text) (bound, h) =
    All-append IsByte (utf8_char c) (utf8 text) (utf8_char-IsByte c bound) (utf8-IsByte text h)

hex-ne-dot : (d : ℕ) → (hex d == 46) ≡ false
hex-ne-dot d = ground arith

unhex-hex : (d : ℕ) → d < 16 → unhex (hex d) ≡ d
unhex-hex d h = ground arith

dot_text-ne : (c : ℕ) → (c == 46) ≡ false → dot_text c ≡ c ∷ []
dot_text-ne c h = if_ind (λ (l : Text). l ≡ c ∷ []) (c == 46) (λ e. cc (e, h)) (λ _. refl)

replace_dots-hex :
    (high low : ℕ) → replace_dots (37 ∷ hex high ∷ hex low ∷ []) ≡ 37 ∷ hex high ∷ hex low ∷ []
replace_dots-hex high low =
    ap (λ (l : Text). 37 ∷ (l ++ (dot_text (hex low) ++ [])))
      (dot_text-ne (hex high) (hex-ne-dot high))
    ∙ ap (λ (l : Text). 37 ∷ hex high ∷ (l ++ [])) (dot_text-ne (hex low) (hex-ne-dot low))

unquoted-plain :
    (c : ℕ) (rest : Text) → (c == 37) ≡ false → unquoted ready (c ∷ rest) ≡ c ∷ unquoted ready rest
unquoted-plain c rest h =
    subst
      (λ (t : Bool).
        (if t
          then unquoted (if t then first else ready) rest
          else c ∷ unquoted (if t then first else ready) rest)
        ≡ c ∷ unquoted ready rest)
      (sym h) refl

unquoted-quote_byte :
    (b : ℕ) (rest : Text)
    → IsByte b
    → unquoted ready (replace_dots (quote_byte b) ++ rest) ≡ b ∷ unquoted ready rest
unquoted-quote_byte b rest bound =
    if_ind (λ (l : Text). unquoted ready (replace_dots l ++ rest) ≡ b ∷ unquoted ready rest)
      (is_safe b)
      (λ safe.
        if_ind (λ (l : Text). unquoted ready ((l ++ []) ++ rest) ≡ b ∷ unquoted ready rest)
          (b == 46) (λ dot. ap (λ n. n ∷ unquoted ready rest) (ground arith))
          (λ _. unquoted-plain b rest (ground arith)))
      (λ _.
        ap (λ (l : Text). unquoted ready (l ++ rest)) (replace_dots-hex (b / 16) (b % 16))
        ∙ ap (λ n. n ∷ unquoted ready rest)
            (omega (arith, unhex-hex (b / 16) (omega arith), unhex-hex (b % 16) (omega arith))))

replace_dots-append :
    (front back : Text) → replace_dots (front ++ back) ≡ replace_dots front ++ replace_dots back
replace_dots-append [] back = refl
replace_dots-append (c ∷ front) back =
    ap (λ l. dot_text c ++ l) (replace_dots-append front back)
    ∙ sym (++-assoc (dot_text c) (replace_dots front) (replace_dots back))

unquoted-quote_bytes :
    (bytes : List ℕ) → All IsByte bytes → unquoted ready (replace_dots (quote_bytes bytes)) ≡ bytes
unquoted-quote_bytes [] h = refl
unquoted-quote_bytes (b ∷ bytes) (bound, h) =
    ap (unquoted ready) (replace_dots-append (quote_byte b) (quote_bytes bytes))
    ∙ unquoted-quote_byte b (replace_dots (quote_bytes bytes)) bound
    ∙ ap (λ l. b ∷ l) (unquoted-quote_bytes bytes h)

pub split_component-ok :
    (split component : Text)
    → split_component split ≡ ok component
    → component ≡ replace_dots (quote_bytes (utf8 split))
unfolding split_component
split_component-ok split component e =
    if_ind
      (λ (r : Result Text). r ≡ ok component → component ≡ replace_dots (quote_bytes (utf8 split)))
      (any is_surrogate split) (λ _ problem. cc (problem)) (λ _ same. cc (same)) e

-- A component that is returned for a text of code points decodes to the text: undo the percents,
-- then UTF-8.
pub decoded-split_component :
    (split component : Text)
    → All IsCode split
    → split_component split ≡ ok component
    → decoded component ≡ split
unfolding decoded
decoded-split_component split component bound e =
    ap (λ l. points zero zero (unquoted ready l)) (split_component-ok split component e)
    ∙ ap (points zero zero) (unquoted-quote_bytes (utf8 split) (utf8-IsByte split bound))
    ∙ points-utf8 split bound

++-cancel : (prefix a b : Text) → prefix ++ a ≡ prefix ++ b → a ≡ b
++-cancel [] a b e = e
++-cancel (c ∷ prefix) a b e = ++-cancel prefix a b (cc (e))

per_split-ok :
    (prefix split name : Text)
    → per_split prefix split ≡ ok name
    → (component : Text) × (split_component split ≡ ok component)
      × (name ≡ prefix ++ 95 ∷ component)
unfolding per_split
per_split-ok prefix split name e = by_result (split_component split) refl e
  where
    by_result :
        (r : Result Text)
        → split_component split ≡ r
        → named prefix r ≡ ok name
        → (component : Text) × (split_component split ≡ ok component)
          × (name ≡ prefix ++ 95 ∷ component)
    by_result (err problem) same e = absurd (cc (e))
    by_result (ok component) same e = (component, same, cc (e))

-- Two texts of code points whose artifacts of one prefix have the same name are the same.
pub per_split_injective :
    (prefix split other name : Text)
    → All IsCode split
    → All IsCode other
    → per_split prefix split ≡ ok name
    → per_split prefix other ≡ ok name
    → split ≡ other
per_split_injective prefix split other name bound bound' e e' =
    let (component, encoded, here) = per_split-ok prefix split name e in
    let (component', encoded', there) = per_split-ok prefix other name e' in
    let same : component ≡ component' =
      ap (λ (l : Text). tail l)
        (++-cancel prefix (95 ∷ component) (95 ∷ component') (sym here ∙ there)) in
    sym (decoded-split_component split component bound encoded)
    ∙ ap decoded same
    ∙ decoded-split_component other component' bound' encoded'
  where
    tail : Text → Text
    tail [] = []
    tail (c ∷ text) = text
