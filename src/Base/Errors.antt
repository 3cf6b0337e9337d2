-- ===== src/Base/Errors.antt =====
-- A Python function that may raise returns a `Result`.
use Prim.Native.String.{String}
use mathlib.Core.Bool.{Bool, true, false}
use clearml_yolo.Base.Tests.{if◌then◌else◌}
use mathlib.Core.Path.{◌≡◌, refl, subst}

-- The exception class with its message.
pub data Error : Type 0 where
  value_error key_error type_error runtime_error : String → Error

-- What a call gives back: its value, or the exception that it raised.
pub data Result {ℓ} (V : Type ℓ) : Type ℓ where
  err : Error → Result V
  ok : V → Result V

infixl 5 ◌>>◌ ◌>>=◌
-- The rest of a function's body, which an exception skips.
abbrev pub ◌>>=◌ {ℓ₁ ℓ₂} : {V : Type ℓ₁} {W : Type ℓ₂} → Result V → (V → Result W) → Result W
err problem >>= rest = err problem
ok value >>= rest = rest value

-- A statement without a value, such as a guard, and what follows it.
abbrev pub ◌>>◌ {ℓ} : {W : Type ℓ} → Result (Unit {0}) → Result W → Result W
err problem >> rest = err problem
ok tt >> rest = rest

-- `if b: raise e`.
abbrev pub raise_if : Bool → Error → Result (Unit {0})
raise_if raises problem = if raises then err problem else ok tt

module _ {ℓ₁ ℓ₂} {V : Type ℓ₁} {W : Type ℓ₂} where
  pub >>=-eq-ok :
      (first : Result V) (rest : V → Result W) {w : W}
      → (first >>= rest) ≡ ok w
      → (v : V) × (first ≡ ok v) × (rest v ≡ ok w)
  >>=-eq-ok (err problem) rest returned = cc
  >>=-eq-ok (ok v) rest returned = (v, refl, returned)

pub ok_of_not_err {ℓ} :
    {A : Type ℓ} (r : Result A) → ((e : Error) → r ≡ err e → ⊥) → (a : A) × (r ≡ ok a)
ok_of_not_err (ok a) h = (a, refl)
ok_of_not_err (err e) h = absurd (h e refl)

-- What holds of the value, if one is returned.
abbrev pub OnOk {ℓ κ} : {A : Type ℓ} → (A → Type κ) → Result A → Type κ
OnOk P (ok a) = P a
OnOk P (err _) = Unit

pub OnOk-intro {ℓ κ} :
    {A : Type ℓ} (P : A → Type κ) (r : Result A) → ((a : A) → r ≡ ok a → P a) → OnOk P r
OnOk-intro P (ok a) h = h a refl
OnOk-intro P (err _) h = tt

pub OnOk_elim {ℓ κ} :
    {A : Type ℓ} (P : A → Type κ) (r : Result A) {a : A} → OnOk P r → r ≡ ok a → P a
OnOk_elim P (ok b) h e = subst P (cc) h
OnOk_elim P (err _) h e = cc

-- A guard that let the function go on.
pub raise_if-eq-ok {ℓ} :
    {A : Type ℓ} (b : Bool) (e : Error) (k : Result A) {a : A}
    → (raise_if b e >> k) ≡ ok a
    → (b ≡ false) × (k ≡ ok a)
raise_if-eq-ok true e k h = cc
raise_if-eq-ok false e k h = (refl, h)

pub ok-injective {ℓ} : {A : Type ℓ} {a b : A} → ok a ≡ ok b → a ≡ b
ok-injective h = cc
