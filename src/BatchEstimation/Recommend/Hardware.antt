-- ===== src/BatchEstimation/Recommend/Hardware.antt =====
-- Sets of hardware as lists: membership, and the entries without repetition.
use clearml_yolo.Base.{
  ℕ, ◌≡◌, refl, ◌↔◌, ◌⊎◌, inl, inr, true, false, List, [], ◌∷◌, String, All, All-map, all_iff,
  eq_iff, arith, if_ind, Bool-cases,
}
use clearml_yolo.BatchEstimation.Recommend.{hardware_same, has_hardware, distinct, same_hardware}

pub hardware_same_iff : (x y : String × ℕ) → (hardware_same x y ≡ true) ↔ (x ≡ y)
hardware_same_iff (n, k) (m, l) = ground (arith, eq_iff n m)

pub hardware_same_refl : (x : String × ℕ) → hardware_same x x ≡ true
hardware_same_refl x = (hardware_same_iff x x).1 refl

has_itself : (x : String × ℕ) (xs : List (String × ℕ)) → has_hardware x (x ∷ xs) ≡ true
has_itself x xs = ground (arith, hardware_same_refl x)

has_later :
    (x y : String × ℕ) (xs : List (String × ℕ))
    → has_hardware x xs ≡ true
    → has_hardware x (y ∷ xs) ≡ true
has_later x y xs h = ground arith

-- Each entry was seen or is among the distinct ones.
pub distinct_covers :
    (seen xs : List (String × ℕ))
    → All (λ x. (has_hardware x seen ≡ true) ⊎ (has_hardware x (distinct seen xs) ≡ true)) xs
unfolding distinct
distinct_covers seen [] = tt
distinct_covers seen (x ∷ xs) =
    if_ind (λ d. All (λ y. (has_hardware y seen ≡ true) ⊎ (has_hardware y d ≡ true)) (x ∷ xs))
      (has_hardware x seen) (λ h. (inl h, distinct_covers seen xs))
      (λ h. (inr (has_itself x _), All-map (moved _ h) xs (distinct_covers (x ∷ seen) xs)))
  where
    moved :
        (d : List (String × ℕ))
        → has_hardware x seen ≡ false
        → (y : String × ℕ) → (has_hardware y (x ∷ seen) ≡ true) ⊎ (has_hardware y d ≡ true)
        → (has_hardware y seen ≡ true) ⊎ (has_hardware y (x ∷ d) ≡ true)
    moved d h y k = ground (arith, k)

pub distinct_within :
    (seen xs : List (String × ℕ)) → All (λ x. has_hardware x xs ≡ true) (distinct seen xs)
unfolding distinct
distinct_within seen [] = tt
distinct_within seen (x ∷ xs) =
    if_ind (All (λ y. has_hardware y (x ∷ xs) ≡ true)) (has_hardware x seen)
      (λ h. All-map (λ y. has_later y x xs) _ (distinct_within seen xs))
      (λ h. (has_itself x xs, All-map (λ y. has_later y x xs) _ (distinct_within (x ∷ seen) xs)))

distinct_seen :
    (seen xs : List (String × ℕ)) (x : String × ℕ)
    → has_hardware x seen ≡ true
    → distinct seen (x ∷ xs) ≡ distinct seen xs
unfolding distinct
distinct_seen seen xs x h = ground arith

pub distinct_new :
    (seen xs : List (String × ℕ)) (x : String × ℕ)
    → has_hardware x seen ≡ false
    → distinct seen (x ∷ xs) ≡ x ∷ distinct (x ∷ seen) xs
unfolding distinct
distinct_new seen xs x h = ground arith

distinct_nil : (seen : List (String × ℕ)) → distinct seen (distinct seen []) ≡ distinct seen []
unfolding distinct
distinct_nil seen = refl

-- The distinct entries are distinct.
pub distinct_idem :
    (seen xs : List (String × ℕ)) → distinct seen (distinct seen xs) ≡ distinct seen xs
distinct_idem seen [] = distinct_nil seen
distinct_idem seen (x ∷ xs) = elim (Bool-cases (has_hardware x seen)) [
  | inl h ↦ cc (distinct_seen seen xs x h, distinct_idem seen xs)
  | inr h ↦ cc (
    distinct_new seen xs x h,
    distinct_new seen (distinct (x ∷ seen) xs) x h,
    distinct_idem (x ∷ seen) xs,
  )
]

pub distinct-same_hardware : (xs : List (String × ℕ)) → same_hardware (distinct [] xs) xs ≡ true
distinct-same_hardware xs = ground (
  arith,
  (all_iff (λ x. has_hardware x xs) (distinct [] xs)).1 (distinct_within [] xs),
  (all_iff (λ x. has_hardware x (distinct [] xs)) xs).1
      (All-map (λ x h. found x h) xs (distinct_covers [] xs)),
)
  where
    found :
        (x : String × ℕ)
        → (has_hardware x [] ≡ true) ⊎ (has_hardware x (distinct [] xs) ≡ true)
        → has_hardware x (distinct [] xs) ≡ true
    found x (inl h) = cc
    found x (inr h) = h
