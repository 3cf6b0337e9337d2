-- ===== src/BatchEstimation/Diagnostics.antt =====
-- `error_diagnostic` of core/batch_estimation.py: the text of an exception with its notes, and of a
-- group of exceptions with every leaf.
use clearml_yolo.Base.{
  ◌≡◌, refl, List, [], ◌∷◌, String, ◌<>◌, join, Error, value_error, key_error, type_error,
  runtime_error,
}

mutual
  -- An exception with its class, message and notes, or a group of them.
  pub data Exception : Type 0 where
    plain : String → String → List String → Exception
    group : String → String → List String → Exceptions → Exception

  pub data Exceptions : Type 0 where
    end : Exceptions
    also : Exception → Exceptions → Exceptions

-- What one of the code's own `raise` statements gives.
abbrev pub as_exception : Error → Exception
as_exception (value_error message) = plain "ValueError" message []
as_exception (key_error message) = plain "KeyError" message []
as_exception (type_error message) = plain "TypeError" message []
as_exception (runtime_error message) = plain "RuntimeError" message []

-- The class and the message, with the notes if there are any.
abbrev pub headline : String → String → List String → String
headline name message [] = name <> ": " <> message
headline name message (note ∷ notes) =
    name <> ": " <> message <> " (" <> join "; " (note ∷ notes) <> ")"

unfoldable mutual
  pub error_diagnostic : Exception → String
  error_diagnostic (plain name message notes) = headline name message notes
  error_diagnostic (group name message notes leaves) =
      headline name message notes <> " [" <> join "; " (leaf_diagnostics leaves) <> "]"

  pub leaf_diagnostics : Exceptions → List String
  leaf_diagnostics end = []
  leaf_diagnostics (also leaf leaves) = error_diagnostic leaf ∷ leaf_diagnostics leaves

error_diagnostic_group :
    error_diagnostic (
      group "ExceptionGroup" "two" []
        (also (plain "OSError" "disk" ("seen" ∷ [])) (also (plain "KeyError" "k" []) end)))
    ≡ "ExceptionGroup: two [OSError: disk (seen); KeyError: k]"
unfolding error_diagnostic leaf_diagnostics
error_diagnostic_group = refl
