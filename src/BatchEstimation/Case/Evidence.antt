-- ===== src/BatchEstimation/Case/Evidence.antt =====
-- A saved case that is accepted has the outcome that its own trials give.
use mathlib.Core.Path.{subst, subst₂, ap₂}
use clearml_yolo.Base.{
  ◌⊎◌, ltb, ◌||◌, ℕ, ◌<◌, ◌≡◌, refl, sym, ◌∙◌, ap, Bool, true, false, ◌&&◌, not, Option, List, [],
  ◌∷◌, ◌==◌, ==_iff, ok, ◌>>=◌, >>=-eq-ok, ok-injective, map, any-All, raise_if-eq-ok, All, any,
  arith,
}
use clearml_yolo.BatchEstimation.Model.{
  Float, SearchStatus, searching, failed, numerically_limited, search_status_eq, is_usable,
  is_exponential, world_size,
}
use clearml_yolo.BatchEstimation.Search.{BatchSearch, start, replay}
use clearml_yolo.BatchEstimation.Search.Boundary.{Supports, usable-Supports}
use clearml_yolo.BatchEstimation.Case.{
  EstimateCase, EstimateCatalogue, SavedCase, usable, option_eq, compared, verified_evidence,
  load_catalogue, restored, validated_cases, explicit_current_strategies, legacy_statuses,
  lacks_strategy,
}

search_status_eq_sound : (a b : SearchStatus) → search_status_eq a b ≡ true → a ≡ b
search_status_eq_sound a b h = ground arith

option_eq_sound : (a b : Option ℕ) → option_eq a b ≡ true → a ≡ b
option_eq_sound a b h = ground arith

not_failed :
    (status : SearchStatus) → is_usable status ≡ true → search_status_eq status failed ≡ false
not_failed status h = ground arith

-- A case of a usable status passes only if the search over its trials ended the same way.
compared-usable :
    (case : EstimateCase) (search : BatchSearch) {case' : EstimateCase}
    → usable case ≡ true
    → compared case search ≡ ok case'
    → (case' ≡ case)
      × (case.status ≡ search.status)
      × (case.global_batch ≡ search.global_batch)
      × (case.per_gpu_batch ≡ search.per_gpu_batch)
unfolding compared
compared-usable case search u e = ground (
  arith,
  not_failed case.status,
  search_status_eq_sound case.status search.status,
  option_eq_sound case.global_batch search.global_batch,
  option_eq_sound case.per_gpu_batch search.per_gpu_batch,
)

-- The comparison returns the case that it was given.
compared-same :
    (case : EstimateCase) (search : BatchSearch) {case' : EstimateCase}
    → compared case search ≡ ok case'
    → case' ≡ case
unfolding compared
compared-same case search e = ground arith

abbrev HasOnly : (EstimateCase → Bool) → List EstimateCase → Type 0
HasOnly bad cases = All (λ case. bad case ≡ false) cases

abbrev is_numerical : EstimateCase → Bool
is_numerical case = search_status_eq case.status numerically_limited

abbrev is_guided : EstimateCase → Bool
is_guided case = not (is_exponential case.settings.search_strategy)

-- A guard on a version that let the catalogue pass.
guard_version :
    (test : Bool) {A : Type 0} (p : A → Bool) (xs : List A)
    → (test && any p xs) ≡ false
    → test ≡ true
    → All (λ x. p x ≡ false) xs
guard_version test p xs e t = any-All p xs (ground arith)

explicit_inversion :
    (version : ℕ) (saved saved' : List SavedCase)
    → explicit_current_strategies version saved ≡ ok saved'
    → (saved ≡ saved') × (version ≡ 3 → All (λ case. lacks_strategy case ≡ false) saved)
unfolding explicit_current_strategies
explicit_inversion version saved saved' e =
    let (passed, same) = raise_if-eq-ok (version == 3 && any lacks_strategy saved) _ (ok saved) e in
    (
      ok-injective same,
      λ v. guard_version (version == 3) lacks_strategy saved passed ((==_iff version 3).1 v),
    )

legacy_inversion :
    (catalogue result : EstimateCatalogue)
    → legacy_statuses catalogue ≡ ok result
    → (catalogue ≡ result)
      × (catalogue.schema_version ≡ 1 → HasOnly is_numerical catalogue.cases)
      × (catalogue.schema_version < 3 → HasOnly is_guided catalogue.cases)
unfolding legacy_statuses
legacy_inversion catalogue result e =
    let version = catalogue.schema_version in
    let (first, e₁) = raise_if-eq-ok (version == 1 && any is_numerical catalogue.cases) _ _ e in
    let (second, e₂) =
      raise_if-eq-ok (ltb version 3 && any is_guided catalogue.cases) _ (ok catalogue) e₁ in
    (
      ok-injective e₂,
      λ v. guard_version (version == 1) is_numerical catalogue.cases first ((==_iff version 1).1 v),
      λ v. guard_version (ltb version 3) is_guided catalogue.cases second (ground arith),
    )

module _ (int_mul : ℕ → Float → ℕ) where
  -- The search that the validator runs, and its comparison.
  verified_run :
      (case : EstimateCase) {case' : EstimateCase}
      → verified_evidence int_mul case ≡ ok case'
      → (s₀ s : BatchSearch) × (start case.profile case.settings ≡ ok s₀)
        × (replay int_mul s₀ case.trials ≡ ok s)
        × (compared case s ≡ ok case')
  unfolding verified_evidence
  verified_run case e =
      let (_, e₁) = raise_if-eq-ok (search_status_eq case.status searching) _ _ e in
      let (s₀, begun, e₂) =
        >>=-eq-ok (start case.profile case.settings)
          (λ s. replay int_mul s case.trials >>= compared case) e₁ in
      let (s, run, e₃) = >>=-eq-ok (replay int_mul s₀ case.trials) (compared case) e₂ in
      (s₀, s, begun, run, e₃)

  -- An accepted case of a usable status is unchanged, and recommends a positive capacity of the grid
  -- under the ceiling, the same on every GPU, at which one of its own saved trials succeeded.
  pub verified-Supports :
      (case case' : EstimateCase)
      → 0 < world_size case.profile
      → verified_evidence int_mul case ≡ ok case'
      → usable case ≡ true
      → (case' ≡ case)
        × Supports int_mul case.global_batch case.per_gpu_batch case.profile case.settings
            case.trials
  verified-Supports case case' rank e u =
      let (s₀, s, begun, run, matched) = verified_run case e in
      let (same, status, global, per_gpu) = compared-usable case s u matched in
      (
        same,
        subst₂ (λ g p. Supports int_mul g p case.profile case.settings case.trials) (sym global)
            (sym per_gpu)
            (usable-Supports int_mul case.profile case.settings case.trials s₀ s rank begun run
              (subst (λ st. is_usable st ≡ true) status u)),
      )

  verified-same :
      (case case' : EstimateCase) → verified_evidence int_mul case ≡ ok case' → case' ≡ case
  verified-same case case' e =
      let (s₀, s, begun, run, matched) = verified_run case e in compared-same case s matched

  -- Every case passes the validation, and is kept as it is.
  validated_cases-map :
      (saved : List SavedCase) (cases : List EstimateCase)
      → validated_cases int_mul saved ≡ ok cases
      → (cases ≡ map restored saved) × All (λ case. verified_evidence int_mul case ≡ ok case) cases
  unfolding validated_cases
  validated_cases-map [] cases e =
      let none_left : [] ≡ cases = cc in
      subst (λ l. (l ≡ []) × All (λ case. verified_evidence int_mul case ≡ ok case) l) none_left
        (refl, tt)
  validated_cases-map (case ∷ rest) cases e =
      let (first, e₁, e₂) =
        >>=-eq-ok (verified_evidence int_mul (restored case))
          (λ c. validated_cases int_mul rest >>= λ cs. ok (c ∷ cs)) e in
      let (others, e₃, e₄) = >>=-eq-ok (validated_cases int_mul rest) (λ cs. ok (first ∷ cs)) e₂ in
      let (same, valid) = validated_cases-map rest others e₃ in
      let kept = verified-same (restored case) first e₁ in
      subst
        (λ l.
          (l ≡ map restored (case ∷ rest))
          × All (λ case. verified_evidence int_mul case ≡ ok case) l)
        (ok-injective e₄)
        (
          ap₂ ◌∷◌ kept same,
          (subst (λ c. verified_evidence int_mul c ≡ ok first) (sym kept) e₁, valid),
        )

  -- What the catalogue's schema promises of its cases.
  pub record IsLoaded (version : ℕ) (saved : List SavedCase) (catalogue : EstimateCatalogue)
      : Type 0 where
    pub known_version : (version ≡ 1) ⊎ (version ≡ 2) ⊎ (version ≡ 3)
    pub same_version : catalogue.schema_version ≡ version
    pub kept : catalogue.cases ≡ map restored saved
    pub verified : All (λ case. verified_evidence int_mul case ≡ ok case) catalogue.cases
    pub explicit : version ≡ 3 → All (λ case. lacks_strategy case ≡ false) saved
    pub without_numerical : version ≡ 1 → HasOnly is_numerical catalogue.cases
    pub only_exponential : version < 3 → HasOnly is_guided catalogue.cases

  -- A catalogue that is read has a known schema version and keeps its cases, each of which passes its
  -- own validation; schema 3 names every strategy, schema 1 has no numerically limited case, and the
  -- schemas before 3 have the exponential strategy only.
  pub load-IsLoaded :
      (version : ℕ) (saved : List SavedCase) (catalogue : EstimateCatalogue)
      → load_catalogue int_mul version saved ≡ ok catalogue
      → IsLoaded version saved catalogue
  unfolding load_catalogue
  load-IsLoaded version saved catalogue e =
      let (saved', e₁, e₂) = >>=-eq-ok (explicit_current_strategies version saved) _ e in
      let (same, explicit) = explicit_inversion version saved saved' e₁ in
      let (known, e₃) =
        raise_if-eq-ok (not (version == 1 || version == 2 || version == 3)) _ _ e₂ in
      let (cases, e₄, e₅) = >>=-eq-ok (validated_cases int_mul saved') _ e₃ in
      let (kept, verified) = validated_cases-map saved' cases e₄ in
      let (result, no_numerical, no_guided) =
        legacy_inversion (record { schema_version = version; cases = cases }) catalogue e₅ in
      subst (IsLoaded version saved) result (record {
        known_version = ground arith;
        same_version = refl;
        kept = kept ∙ ap (map restored) (sym same);
        verified = verified;
        explicit = explicit;
        without_numerical = no_numerical;
        only_exponential = no_guided;
      })
