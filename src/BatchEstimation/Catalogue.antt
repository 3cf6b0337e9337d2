-- ===== src/BatchEstimation/Catalogue.antt =====
-- `model_catalogue`, `select_models`, `ModelCoverage`, `model_coverage` and `estimate_diagnostic` of
-- core/batch_estimation.py, with the registry `PRESETS` of core/models.py.
use clearml_yolo.Base.{
  ℕ, ◌≡◌, refl, Bool, ◌&&◌, ◌||◌, Option, none, some, List, [], ◌∷◌, ◌++◌, String, ◌<>◌,
  remove_suffix, blank, str_eq, any, keep, map, length, Result, ok, err, value_error, if◌then◌else◌,
  ◌>>=◌,
}
use clearml_yolo.BatchEstimation.Model.{
  ModelVariant, BackendName, ultralytics, deimv2, rfdetr, fasterrcnn, fcos, backend_text,
  backend_eq, success, trial_status_text, TrialResult, search_status_text,
}
use clearml_yolo.BatchEstimation.Case.{EstimateCase, usable}
use clearml_yolo.BatchEstimation.Reuse.{model_eq}

-- The presets of both torchvision detectors.
backbones : List (String × ℕ)
backbones =
    ("resnet50_fpn", 800)
    ∷ ("resnet101_fpn", 800)
    ∷ ("convnext_tiny", 800)
    ∷ ("swin_tiny", 800)
    ∷ ("dinov2_small", 800)
    ∷ ("dinov3_small", 800)
    ∷ []

-- `PRESETS`: the presets of each backend with their resolutions.
unfoldable pub presets : BackendName → List (String × ℕ)
unfolding backbones
presets ultralytics = ("default", 640) ∷ []
presets deimv2 = ("s", 640) ∷ ("m", 640) ∷ ("l", 640) ∷ ("x", 640) ∷ []
presets rfdetr = ("nano", 384) ∷ ("small", 512) ∷ ("medium", 576) ∷ ("large", 704) ∷ []
presets fasterrcnn = backbones
presets fcos = backbones

-- `f"{prefix}{suffix}{after}" for suffix in suffixes`
abbrev pub named : String → List String → String → List String
named prefix [] after = []
named prefix (suffix ∷ suffixes) after = (prefix <> suffix <> after) ∷ named prefix suffixes after

nsmlx : List String
nsmlx = "n" ∷ "s" ∷ "m" ∷ "l" ∷ "x" ∷ []

-- The stems of the YOLO checkpoints.
unfoldable pub yolo : List String
unfolding nsmlx
yolo =
    named "yolov3" ("" ∷ "-spp" ∷ "-tiny" ∷ []) "u"
    ++ named "yolov5" ("n" ∷ "n6" ∷ "s" ∷ "s6" ∷ "m" ∷ "m6" ∷ "l" ∷ "l6" ∷ "x" ∷ "x6" ∷ []) "u"
    ++ named "yolov8" nsmlx ""
    ++ named "yolov9" ("t" ∷ "s" ∷ "m" ∷ "c" ∷ "e" ∷ []) ""
    ++ named "yolov10" ("n" ∷ "s" ∷ "m" ∷ "b" ∷ "l" ∷ "x" ∷ []) ""
    ++ named "yolo11" nsmlx ""
    ++ named "yolo12" nsmlx ""
    ++ named "yolo26" nsmlx ""

abbrev pub yolo_variant : String → ModelVariant
yolo_variant stem = record {
  selection = "ultralytics/" <> stem;
  backend = ultralytics;
  preset = "default";
  architecture = stem <> ".pt";
}

abbrev pub native_variant : BackendName → String × ℕ → ModelVariant
native_variant backend (preset, _) = record {
  selection = backend_text backend <> "/" <> preset;
  backend = backend;
  preset = preset;
  architecture = backend_text backend <> "/" <> preset;
}

-- `model_catalogue`
unfoldable pub model_catalogue : List ModelVariant
unfolding yolo presets
model_catalogue =
    map yolo_variant yolo
    ++ map (native_variant deimv2) (presets deimv2)
    ++ map (native_variant rfdetr) (presets rfdetr)
    ++ map (native_variant fasterrcnn) (presets fasterrcnn)
    ++ map (native_variant fcos) (presets fcos)

-- The names that a YOLO variant also has: its architecture, and that without `.pt`.
is_alias : String → ModelVariant → Bool
unfolding remove_suffix
is_alias name variant =
    backend_eq variant.backend ultralytics
    && (str_eq variant.architecture name || str_eq (remove_suffix ".pt" variant.architecture) name)

abbrev pub has_selection : String → ModelVariant → Bool
has_selection name variant = str_eq variant.selection name

-- The last of the variants that passes a test, as later keys of a dictionary replace earlier ones.
unfoldable pub last_that : (ModelVariant → Bool) → List ModelVariant → Option ModelVariant
last_that test [] = none
last_that test (variant ∷ variants) =
    let here : Option ModelVariant = if test variant then some variant else none in
    elim (last_that test variants) [ some later ↦ some later | none ↦ here ]

-- What `lookup` of `select_models` holds: the aliases were entered after the selections.
unfoldable pub lookup : List ModelVariant → String → Option ModelVariant
unfolding is_alias last_that
lookup catalogue name = elim (last_that (is_alias name) catalogue) [
  | some variant ↦ some variant
  | none ↦ last_that (has_selection name) catalogue
]

-- The loop of `select_models`, with the variants chosen so far.
unfoldable pub choose :
    List ModelVariant → List ModelVariant → List String → Result (List ModelVariant)
unfolding lookup
choose catalogue result [] = ok result
choose catalogue result (selection ∷ selections) = elim (lookup catalogue selection) [
  | none ↦ err (value_error ("Unknown estimator model '" <> selection <> "'"))
  | some variant ↦
      let rest = choose catalogue (result ++ variant ∷ []) selections in
      if any (model_eq variant) result
      then err (value_error ("Model selection contains duplicate '" <> variant.selection <> "'"))
      else rest
]

-- `select_models`.
unfoldable pub select_models : Option (List String) → Result (List ModelVariant)
unfolding choose
select_models none = ok model_catalogue
select_models (some []) = err (value_error "Model selection must not be empty")
select_models (some (selection ∷ selections)) = choose model_catalogue [] (selection ∷ selections)

abbrev pub selection : ModelVariant → String
selection variant = variant.selection

pub record ModelCoverage : Type 0 where
  pub model : ModelVariant
  pub attempts : List EstimateCase

-- `covered`
unfoldable pub covered : ModelCoverage → Bool
covered coverage = any usable coverage.attempts

abbrev pub coverage_of : List EstimateCase → ModelVariant → ModelCoverage
coverage_of cases model = record {
  model = model;
  attempts =
      keep (λ (case : EstimateCase). str_eq case.profile.model.selection model.selection) cases;
}

-- `model_coverage`, over a catalogue of models.
unfoldable pub model_coverage :
    List ModelVariant → List ModelVariant → List EstimateCase → List ModelCoverage
model_coverage catalogue models cases = map (coverage_of cases) (
    keep
      (λ (model : ModelVariant).
        any (λ (chosen : ModelVariant). str_eq chosen.selection model.selection) models)
      catalogue)

-- The failure of the last trial that did not succeed.
unfoldable pub last_failure : List TrialResult → Option String
unfolding blank
last_failure [] = none
last_failure (trial ∷ trials) =
    let text : String =
      if blank trial.diagnostic then trial_status_text trial.status else trial.diagnostic in
    let here : Option String = elim trial.status [ success ↦ none | _ ↦ some text ] in
    elim (last_failure trials) [ some later ↦ some later | none ↦ here ]

-- `estimate_diagnostic`.
unfoldable pub estimate_diagnostic : EstimateCase → String
unfolding last_failure blank
estimate_diagnostic case =
    let failure : String = elim (last_failure case.trials) [
      | some text ↦ text
      | none ↦ search_status_text case.status
    ] in
    if blank case.diagnostic then failure else case.diagnostic

select_two :
    (select_models (some ("yolov8n" ∷ "fcos/swin_tiny" ∷ [])) >>= λ models.
    ok (map selection models))
    ≡ ok ("ultralytics/yolov8n" ∷ "fcos/swin_tiny" ∷ [])
unfolding select_models model_catalogue model_eq
select_two = refl

catalogue_size : length model_catalogue ≡ 64
unfolding model_catalogue
catalogue_size = refl
