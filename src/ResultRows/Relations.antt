-- ===== src/ResultRows/Relations.antt =====
-- The relationships that each row is given are those of its matches.
use mathlib.Core.Path.{subst, ap₂}
use clearml_yolo.Base.Int.{ℤ, pos, negsuc}
use clearml_yolo.Base.{
  ℕ, zero, suc, ◌+◌, ◌≡◌, refl, sym, ap, ◌∙◌, ◌≢◌, ◌↔◌, ◌⊎◌, inl, inr, Option, none, some, List, [],
  ◌∷◌, ◌++◌, String, ◌<>◌, show, Some, Some-append_left, Some-append_right, ok, >>=-eq-ok,
  ok-injective, arith,
}
use clearml_yolo.ResultRows.{
  RowType, ground_truth, prediction, MatchResult, Relationship, Relationships, Mapping, look_up,
  id_of, index_of, entry_of, relationship_lists,
}

abbrev pub get_elem? {ℓ} : {A : Type ℓ} → List A → ℕ → Option A
get_elem? [] index = none
get_elem? (x ∷ xs) zero = some x
get_elem? (x ∷ xs) (suc index) = get_elem? xs index

-- The identity of the row of an index: there is none for -1.
abbrev pub HasRow : Mapping → ℤ → Option String → Type 0
HasRow mapping index none = index ≡ negsuc 0
HasRow mapping index (some id) = (index ≢ negsuc 0) × (look_up mapping index ≡ ok id)

-- The relationship of a match, by its number and the identities of its rows.
abbrev pub relationship_of : String → ℕ → MatchResult → Option String → Option String → Relationship
relationship_of phase number match_ gt_id pred_id = record {
  match_id = phase <> ":" <> show number;
  phase = phase;
  status = match_.type;
  gt_source_row_id = gt_id;
  pred_source_row_id = pred_id;
  gt_index = index_of match_.gt_index;
  pred_index = index_of match_.pred_index;
  gt_label = match_.gt_label;
  pred_label = match_.pred_label;
  confidence = match_.confidence;
  iou = match_.iou;
}

-- The row of the entry on its side of the relationship.
abbrev pub NamesRow : (RowType × String) × Relationship → Type 0
NamesRow ((ground_truth, id), relationship) = relationship.gt_source_row_id ≡ some id
NamesRow ((prediction, id), relationship) = relationship.pred_source_row_id ≡ some id

-- The entry is of a match, by its number: its relationship is that of the match with the rows that
-- the mappings give, and its row is one of these.
pub record IsEntry (phase : String) (gt_mapping pred_mapping : Mapping) (number : ℕ)
    (match_ : MatchResult) (entry : (RowType × String) × Relationship) : Type 0 where
  pub gt_id : Option String
  pub pred_id : Option String
  pub gt_row : HasRow gt_mapping match_.gt_index gt_id
  pub pred_row : HasRow pred_mapping match_.pred_index pred_id
  pub same : entry.1 ≡ relationship_of phase number match_ gt_id pred_id
  pub names : NamesRow entry

-- Some match has the entry.
abbrev pub HasEntry :
    String → Mapping → Mapping → ℕ → List MatchResult → (RowType × String) × Relationship → Type 0
HasEntry phase gt_mapping pred_mapping number matches entry =
    (i : ℕ) × (match_ : MatchResult) × (get_elem? matches i ≡ some match_)
    × IsEntry phase gt_mapping pred_mapping (number + i) match_ entry

pub id_of-HasRow :
    (mapping : Mapping) (index : ℤ) {o : Option String}
    → id_of mapping index ≡ ok o
    → HasRow mapping index o
id_of-HasRow mapping (negsuc zero) e = subst (HasRow mapping (negsuc zero)) (ok-injective e) refl
id_of-HasRow mapping (negsuc (suc n)) e =
    let (id, e₁, e₂) = >>=-eq-ok (look_up mapping (negsuc (suc n))) _ e in
    subst (HasRow mapping (negsuc (suc n))) (ok-injective e₂) ((ground arith, e₁))
id_of-HasRow mapping (pos n) e =
    let (id, e₁, e₂) = >>=-eq-ok (look_up mapping (pos n)) _ e in
    subst (HasRow mapping (pos n)) (ok-injective e₂) ((ground arith, e₁))

HasRow-unique :
    (mapping : Mapping) (index : ℤ) (o o' : Option String)
    → HasRow mapping index o
    → HasRow mapping index o'
    → o ≡ o'
HasRow-unique mapping index none none h h' = refl
HasRow-unique mapping index none (some id) h h' = absurd (h'.0 h)
HasRow-unique mapping index (some id) none h h' = absurd (h.0 h')
HasRow-unique mapping index (some id) (some id') h h' = ap some (ok-injective (sym h.1 ∙ h'.1))

Some-split :
    {A : Type 0} (P : A → Type 0) (xs ys : List A) → Some P (xs ++ ys) → Some P xs ⊎ Some P ys
Some-split P [] ys h = inr h
Some-split P (x ∷ xs) ys (inl h) = inl (inl h)
Some-split P (x ∷ xs) ys (inr h) = elim (Some-split P xs ys h) [
  | inl k ↦ inl (inr k)
  | inr k ↦ inr k
]

abbrev pub In : (RowType × String) × Relationship → Relationships → Type 0
In entry relationships = Some (λ other. entry ≡ other) relationships

entry_of-gt :
    (o : Option String) (relationship : Relationship) (entry : (RowType × String) × Relationship)
    → relationship.gt_source_row_id ≡ o
    → In entry (entry_of ground_truth o relationship)
    → (entry.1 ≡ relationship) × NamesRow entry
entry_of-gt none relationship entry e h = absurd h
entry_of-gt (some id) relationship entry e (inl h) =
    (ap (λ (x : (RowType × String) × Relationship). x.1) h, subst NamesRow (sym h) e)
entry_of-gt (some id) relationship entry e (inr h) = absurd h

entry_of-pred :
    (o : Option String) (relationship : Relationship) (entry : (RowType × String) × Relationship)
    → relationship.pred_source_row_id ≡ o
    → In entry (entry_of prediction o relationship)
    → (entry.1 ≡ relationship) × NamesRow entry
entry_of-pred none relationship entry e h = absurd h
entry_of-pred (some id) relationship entry e (inl h) =
    (ap (λ (x : (RowType × String) × Relationship). x.1) h, subst NamesRow (sym h) e)
entry_of-pred (some id) relationship entry e (inr h) = absurd h

-- An entry of a relationship, by the row that it names.
In-entries :
    (relationship : Relationship) (gt_id pred_id : Option String)
    (entry : (RowType × String) × Relationship)
    → relationship.gt_source_row_id ≡ gt_id
    → relationship.pred_source_row_id ≡ pred_id
    → entry.1 ≡ relationship
    → NamesRow entry
    → In entry
        (entry_of ground_truth gt_id relationship ++ entry_of prediction pred_id relationship)
In-entries relationship gt_id pred_id ((ground_truth, id), found) g p same names =
    Some-append_left _ (entry_of ground_truth gt_id relationship)
      (entry_of prediction pred_id relationship)
      (subst (λ o. In ((ground_truth, id), found) (entry_of ground_truth o relationship))
        (sym names ∙ ap (λ (r : Relationship). r.gt_source_row_id) same ∙ g)
        (inl (ap (λ r. ((ground_truth, id), r)) same)))
In-entries relationship gt_id pred_id ((prediction, id), found) g p same names =
    Some-append_right _ (entry_of ground_truth gt_id relationship)
      (entry_of prediction pred_id relationship)
      (subst (λ o. In ((prediction, id), found) (entry_of prediction o relationship))
        (sym names ∙ ap (λ (r : Relationship). r.pred_source_row_id) same ∙ p)
        (inl (ap (λ r. ((prediction, id), r)) same)))

module _ (phase : String) (gt_mapping pred_mapping : Mapping) where
  -- The entries of one match.
  abbrev entries : ℕ → MatchResult → Option String → Option String → Relationships
  entries number match_ gt_id pred_id =
      entry_of ground_truth gt_id (relationship_of phase number match_ gt_id pred_id)
      ++ entry_of prediction pred_id (relationship_of phase number match_ gt_id pred_id)

  entries-IsEntry :
      (number : ℕ) (match_ : MatchResult) (gt_id pred_id : Option String)
      (entry : (RowType × String) × Relationship)
      → HasRow gt_mapping match_.gt_index gt_id
      → HasRow pred_mapping match_.pred_index pred_id
      → In entry (entries number match_ gt_id pred_id)
      → IsEntry phase gt_mapping pred_mapping number match_ entry
  entries-IsEntry number match_ gt_id pred_id entry g p h =
      let relationship : Relationship = relationship_of phase number match_ gt_id pred_id in
      let (same, names) : (entry.1 ≡ relationship) × NamesRow entry =
        elim (Some-split (λ other. entry ≡ other) (entry_of ground_truth gt_id relationship)
          (entry_of prediction pred_id relationship) h) [
            | inl k ↦ entry_of-gt gt_id relationship entry refl k
            | inr k ↦ entry_of-pred pred_id relationship entry refl k
          ] in
      record {
        gt_id = gt_id;
        pred_id = pred_id;
        gt_row = g;
        pred_row = p;
        same = same;
        names = names;
      }

  IsEntry-entries :
      (number : ℕ) (match_ : MatchResult) (gt_id pred_id : Option String)
      (entry : (RowType × String) × Relationship)
      → HasRow gt_mapping match_.gt_index gt_id
      → HasRow pred_mapping match_.pred_index pred_id
      → IsEntry phase gt_mapping pred_mapping number match_ entry
      → In entry (entries number match_ gt_id pred_id)
  IsEntry-entries number match_ gt_id pred_id entry g p h =
      In-entries (relationship_of phase number match_ gt_id pred_id) gt_id pred_id entry refl refl
        (h.same
          ∙ ap₂ (λ (a b : Option String). relationship_of phase number match_ a b)
              (HasRow-unique gt_mapping match_.gt_index h.gt_id gt_id h.gt_row g)
              (HasRow-unique pred_mapping match_.pred_index h.pred_id pred_id h.pred_row p))
        h.names

  HasEntry-cons :
      (number : ℕ) (match_ : MatchResult) (matches : List MatchResult)
      (entry : (RowType × String) × Relationship)
      → HasEntry phase gt_mapping pred_mapping number (match_ ∷ matches) entry ↔ (
          IsEntry phase gt_mapping pred_mapping number match_ entry
          ⊎ HasEntry phase gt_mapping pred_mapping (suc number) matches entry)
  HasEntry-cons number match_ matches entry = (split, join_)
    where
      split :
          HasEntry phase gt_mapping pred_mapping number (match_ ∷ matches) entry
          → IsEntry phase gt_mapping pred_mapping number match_ entry
            ⊎ HasEntry phase gt_mapping pred_mapping (suc number) matches entry
      split (zero, other, found, h) =
          let here : number + zero ≡ number = omega arith in
          let same : match_ ≡ other = cc (found) in
          inl (
            subst (λ m. IsEntry phase gt_mapping pred_mapping number m entry) (sym same)
              (subst (λ n. IsEntry phase gt_mapping pred_mapping n other entry) here h))
      split (suc i, other, found, h) =
          let later : number + suc i ≡ suc number + i = omega arith in
          inr (
            i,
            other,
            found,
            subst (λ n. IsEntry phase gt_mapping pred_mapping n other entry) later h,
          )

      join_ :
          IsEntry phase gt_mapping pred_mapping number match_ entry
            ⊎ HasEntry phase gt_mapping pred_mapping (suc number) matches entry
          → HasEntry phase gt_mapping pred_mapping number (match_ ∷ matches) entry
      join_ (inl h) =
          let here : number ≡ number + zero = omega arith in
          (
            zero,
            match_,
            refl,
            subst (λ n. IsEntry phase gt_mapping pred_mapping n match_ entry) here h,
          )
      join_ (inr (i, other, found, h)) =
          let later : suc number + i ≡ number + suc i = omega arith in
          (
            suc i,
            other,
            found,
            subst (λ n. IsEntry phase gt_mapping pred_mapping n other entry) later h,
          )

-- If the lists are given, a row has a relationship exactly if some match gives it: the relationship is
-- that of the match, with its number and the rows that the mappings give for its two indices, and the
-- row is one of these. An index of -1 gives no row.
pub relationship_lists-iff-HasEntry :
    (phase : String) (gt_mapping pred_mapping : Mapping) (number : ℕ) (matches : List MatchResult)
    (relationships : Relationships)
    → relationship_lists phase gt_mapping pred_mapping number matches ≡ ok relationships
    → (entry : (RowType × String) × Relationship)
    → In entry relationships ↔ HasEntry phase gt_mapping pred_mapping number matches entry
unfolding relationship_lists
relationship_lists-iff-HasEntry phase gt_mapping pred_mapping number [] relationships e entry = (
  λ h. absurd (subst (In entry) (sym (ok-injective e)) h),
  λ (i, other, found, h). absurd (cc (found)),
)
relationship_lists-iff-HasEntry phase gt_mapping pred_mapping number (match_ ∷ matches)
      relationships e entry =
    let (gt_id, g, e₁) = >>=-eq-ok (id_of gt_mapping match_.gt_index) _ e in
    let (pred_id, p, e₂) = >>=-eq-ok (id_of pred_mapping match_.pred_index) _ e₁ in
    let (rest, later, e₃) =
      >>=-eq-ok (relationship_lists phase gt_mapping pred_mapping (suc number) matches) _ e₂ in
    let own : Relationships = entries phase gt_mapping pred_mapping number match_ gt_id pred_id in
    let gt_row : HasRow gt_mapping match_.gt_index gt_id =
      id_of-HasRow gt_mapping match_.gt_index g in
    let pred_row : HasRow pred_mapping match_.pred_index pred_id =
      id_of-HasRow pred_mapping match_.pred_index p in
    let (sound, complete) =
      relationship_lists-iff-HasEntry phase gt_mapping pred_mapping (suc number) matches rest later
        entry in
    let (split, joined) = HasEntry-cons phase gt_mapping pred_mapping number match_ matches entry in
    (
      λ h.
          joined
            (elim (Some-split (λ other. entry ≡ other) own rest
              (subst (In entry) (sym (ok-injective e₃)) h)) [
                | inl k ↦ inl (
                    entries-IsEntry phase gt_mapping pred_mapping number match_ gt_id pred_id entry
                      gt_row pred_row k)
                | inr k ↦ inr (sound k)
              ]),
      λ h. subst (In entry) (ok-injective e₃) (elim (split h) [
        | inl k ↦ Some-append_left _ own rest (
            IsEntry-entries phase gt_mapping pred_mapping number match_ gt_id pred_id entry gt_row
              pred_row k)
        | inr k ↦ Some-append_right _ own rest (complete k)
      ]),
    )
