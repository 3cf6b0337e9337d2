-- ===== src/ArtifactNames/Examples.antt =====
-- Names of artifacts.
use clearml_yolo.Base.{◌≡◌, refl, [], ◌∷◌, ok, err, value_error, All, arith, codes}
use clearml_yolo.ArtifactNames.{Text, split_component, per_split}
use clearml_yolo.ArtifactNames.RoundTrip.{
  IsCode, decoded, decoded-split_component, per_split_injective,
}
use clearml_yolo.ArtifactNames.Portable.{IsPortable, split_component-IsPortable}

-- `te.st/é€😀`
abbrev awkward : Text
awkward = 116 ∷ 101 ∷ 46 ∷ 115 ∷ 116 ∷ 47 ∷ 233 ∷ 8364 ∷ 128512 ∷ []

abbrev awkward_component : Text
awkward_component = codes "te%2Est%2F%C3%A9%E2%82%AC%F0%9F%98%80"

test-split_component : split_component awkward ≡ ok awkward_component
unfolding split_component
test-split_component = refl

test-surrogate : split_component (55357 ∷ []) ≡ err (value_error "surrogates not allowed")
unfolding split_component
test-surrogate = refl

test-per_split :
    per_split (codes "metrics_evaluation") (codes "val") ≡ ok (codes "metrics_evaluation_val")
unfolding per_split
test-per_split = refl

awkward-IsCode : All IsCode awkward
awkward-IsCode = (
  omega arith,
  (
    omega arith,
    (
      omega arith,
      (omega arith, (omega arith, (omega arith, (omega arith, (omega arith, (omega arith, tt)))))),
    ),
  ),
)

decoded-split_component_example : decoded awkward_component ≡ awkward
decoded-split_component_example =
    decoded-split_component awkward awkward_component awkward-IsCode test-split_component

per_split_injective_example : awkward ≡ awkward
unfolding per_split
per_split_injective_example =
    per_split_injective (codes "report_dev") awkward awkward
      (codes "report_dev_te%2Est%2F%C3%A9%E2%82%AC%F0%9F%98%80") awkward-IsCode awkward-IsCode refl
      refl

split_component-IsPortable_example : All IsPortable awkward_component
split_component-IsPortable_example =
    split_component-IsPortable awkward awkward_component awkward-IsCode test-split_component
