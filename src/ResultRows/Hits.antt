-- ===== src/ResultRows/Hits.antt =====
-- Which rows the matches have, and the relationships of a row.
use mathlib.Core.Path.{subst, ap₂}
use clearml_yolo.Base.{
  ℕ, zero, suc, ◌+◌, ◌≡◌, refl, sym, ap, ◌∙◌, ◌↔◌, inl, inr, Bool, true, ◌&&◌, Bool-cases, Option,
  some, List, [], ◌∷◌, String, str_eq, eq_iff, eq_refl, any, keep, keep-true, keep-false, Some, ok,
  >>=-eq-ok, arith,
}
use clearml_yolo.ResultRows.{
  RowType, ground_truth, prediction, MatchType, tp, MatchResult, Relationship, Relationships,
  Mapping, id_of, relationship_lists, same_type, is_true_positive, relationships_of,
  has_true_positive,
}
use clearml_yolo.ResultRows.Relations.{
  get_elem?, HasRow, id_of-HasRow, relationship_of, IsEntry, In, relationship_lists-iff-HasEntry,
}

-- An entry that passes two tests.
any-keep :
    {A : Type 0} (p q : A → Bool) (xs : List A)
    → any q (keep p xs) ≡ true
    → (x : A) × Some (λ y. x ≡ y) xs × (p x ≡ true) × (q x ≡ true)
any-keep p q [] e = absurd (cc (e))
any-keep p q (x ∷ xs) e = elim (Bool-cases (p x)) [
  | inl passes ↦ elim (Bool-cases (q x)) [
    | inl fits ↦ (x, inl refl, passes, fits)
    | inr fails ↦
        let (y, m, h, k) = any-keep p q xs (ground (arith, ap (any q) (keep-true p x xs passes))) in
        (y, inr m, h, k)
  ]
  | inr fails ↦
      let (y, m, h, k) = any-keep p q xs (sym (ap (any q) (keep-false p x xs fails)) ∙ e) in
      (y, inr m, h, k)
]

any-keep_complete :
    {A : Type 0} (p q : A → Bool) (xs : List A) (x : A)
    → Some (λ y. x ≡ y) xs
    → p x ≡ true
    → q x ≡ true
    → any q (keep p xs) ≡ true
any-keep_complete p q [] x m h k = absurd m
any-keep_complete p q (y ∷ xs) x (inl same) h k =
    let passes : p y ≡ true = ap p (sym same) ∙ h in
    let fits : q y ≡ true = ap q (sym same) ∙ k in
    ap (any q) (keep-true p y xs passes) ∙ ground arith
any-keep_complete p q (y ∷ xs) x (inr m) h k =
    let later : any q (keep p xs) ≡ true = any-keep_complete p q xs x m h k in
    elim (Bool-cases (p y)) [
      | inl passes ↦ ap (any q) (keep-true p y xs passes) ∙ ground (arith, later)
      | inr fails ↦ ap (any q) (keep-false p y xs fails) ∙ later
    ]

-- The match has the row, on its side.
abbrev pub Touches : Mapping → Mapping → RowType → String → MatchResult → Type 0
Touches gt_mapping pred_mapping ground_truth id match_ = HasRow gt_mapping match_.gt_index (some id)
Touches gt_mapping pred_mapping prediction id match_ =
    HasRow pred_mapping match_.pred_index (some id)

-- Some match has the row, and some true positive has it.
abbrev pub Touched : Mapping → Mapping → List MatchResult → RowType → String → Type 0
Touched gt_mapping pred_mapping matches row_type id =
    (i : ℕ) × (match_ : MatchResult) × (get_elem? matches i ≡ some match_)
    × Touches gt_mapping pred_mapping row_type id match_

abbrev pub Hit : Mapping → Mapping → List MatchResult → RowType → String → Type 0
Hit gt_mapping pred_mapping matches row_type id =
    (i : ℕ) × (match_ : MatchResult) × (get_elem? matches i ≡ some match_)
    × Touches gt_mapping pred_mapping row_type id match_
    × (match_.type ≡ tp)

is_true_positive_iff : (type : MatchType) → (is_true_positive type ≡ true) ↔ (type ≡ tp)
is_true_positive_iff type = ground arith

own_key : (row_type : RowType) (id : String) → (same_type row_type row_type && str_eq id id) ≡ true
own_key ground_truth id = eq_refl id
own_key prediction id = eq_refl id

key_eq :
    (a row_type : RowType) (b id : String)
    → (same_type a row_type && str_eq b id) ≡ true
    → (a ≡ row_type) × (b ≡ id)
key_eq ground_truth ground_truth b id e = (refl, (eq_iff b id).0 e)
key_eq prediction prediction b id e = (refl, (eq_iff b id).0 e)
key_eq ground_truth prediction b id e = absurd (cc (e))
key_eq prediction ground_truth b id e = absurd (cc (e))

module _ (phase : String) (gt_mapping pred_mapping : Mapping) where
  -- Every match has its rows, if the lists are given.
  relationship_lists-HasRow :
      (number : ℕ) (matches : List MatchResult) {relationships : Relationships} (i : ℕ)
      {match_ : MatchResult}
      → relationship_lists phase gt_mapping pred_mapping number matches ≡ ok relationships
      → get_elem? matches i ≡ some match_
      → (gt_id pred_id : Option String) × HasRow gt_mapping match_.gt_index gt_id
        × HasRow pred_mapping match_.pred_index pred_id
  unfolding relationship_lists
  relationship_lists-HasRow number [] i e found = absurd (cc (found))
  relationship_lists-HasRow number (own ∷ matches) zero {match_} e found =
      let (gt_id, g, e₁) = >>=-eq-ok (id_of gt_mapping own.gt_index) _ e in
      let (pred_id, p, e₂) = >>=-eq-ok (id_of pred_mapping own.pred_index) _ e₁ in
      let same : own ≡ match_ = cc (found) in
      subst
        (λ (m : MatchResult).
          (gt_id pred_id : Option String) × HasRow gt_mapping m.gt_index gt_id
          × HasRow pred_mapping m.pred_index pred_id)
        same
        (
          gt_id,
          pred_id,
          id_of-HasRow gt_mapping own.gt_index g,
          id_of-HasRow pred_mapping own.pred_index p,
        )
  relationship_lists-HasRow number (own ∷ matches) (suc i) e found =
      let (gt_id, g, e₁) = >>=-eq-ok (id_of gt_mapping own.gt_index) _ e in
      let (pred_id, p, e₂) = >>=-eq-ok (id_of pred_mapping own.pred_index) _ e₁ in
      let (rest, later, e₃) =
        >>=-eq-ok (relationship_lists phase gt_mapping pred_mapping (suc number) matches) _ e₂ in
      relationship_lists-HasRow (suc number) matches i later found

  -- The match of an entry has the row of the entry.
  IsEntry-Touches :
      (number : ℕ) (match_ : MatchResult) (row_type : RowType) (id : String) (found : Relationship)
      → IsEntry phase gt_mapping pred_mapping number match_ ((row_type, id), found)
      → Touches gt_mapping pred_mapping row_type id match_
  IsEntry-Touches number match_ ground_truth id found h =
      subst (HasRow gt_mapping match_.gt_index)
        (sym (ap (λ (r : Relationship). r.gt_source_row_id) h.same) ∙ h.names) h.gt_row
  IsEntry-Touches number match_ prediction id found h =
      subst (HasRow pred_mapping match_.pred_index)
        (sym (ap (λ (r : Relationship). r.pred_source_row_id) h.same) ∙ h.names) h.pred_row

  -- A match that has the row gives the row a relationship.
  Touches-IsEntry :
      (number : ℕ) (match_ : MatchResult) (row_type : RowType) (id : String)
      (gt_id pred_id : Option String)
      → HasRow gt_mapping match_.gt_index gt_id
      → HasRow pred_mapping match_.pred_index pred_id
      → Touches gt_mapping pred_mapping row_type id match_
      → (found : Relationship) × IsEntry phase gt_mapping pred_mapping number match_
          ((row_type, id), found)
        × (found.status ≡ match_.type)
  Touches-IsEntry number match_ ground_truth id gt_id pred_id g p h = (
    relationship_of phase number match_ (some id) pred_id,
    record {
      gt_id = some id;
      pred_id = pred_id;
      gt_row = h;
      pred_row = p;
      same = refl;
      names = refl;
    },
    refl,
  )
  Touches-IsEntry number match_ prediction id gt_id pred_id g p h = (
    relationship_of phase number match_ gt_id (some id),
    record {
      gt_id = gt_id;
      pred_id = some id;
      gt_row = g;
      pred_row = h;
      same = refl;
      names = refl;
    },
    refl,
  )

module _ (phase : String) (gt_mapping pred_mapping : Mapping) (number : ℕ)
    (matches : List MatchResult) (relationships : Relationships)
    (given : relationship_lists phase gt_mapping pred_mapping number matches
      ≡ ok relationships) where
  -- A row's relationship that passes a test, with its match.
  any-relationships_of :
      (q : (RowType × String) × Relationship → Bool) (row_type : RowType) (id : String)
      → any q (relationships_of relationships row_type id) ≡ true
      → (found : Relationship) × (i : ℕ) × (match_ : MatchResult) × (get_elem? matches i
          ≡ some match_)
        × IsEntry phase gt_mapping pred_mapping (number + i) match_ ((row_type, id), found)
        × (q ((row_type, id), found) ≡ true)
  any-relationships_of q row_type id e =
      let (x, m, own, fits) =
        any-keep
          (λ (entry : (RowType × String) × Relationship).
            same_type entry.0.0 row_type && str_eq entry.0.1 id)
          q relationships e in
      let (same_type_, same_id) = key_eq x.0.0 row_type x.0.1 id own in
      let same : x ≡ ((row_type, id), x.1) =
        ap₂ (λ (a : RowType) (b : String). ((a, b), x.1)) same_type_ same_id in
      let (i, match_, at_, entry) =
        (relationship_lists-iff-HasEntry phase gt_mapping pred_mapping number matches relationships
            given ((row_type, id), x.1)).0
          (subst (λ (y : (RowType × String) × Relationship). In y relationships) same m) in
      (x.1, i, match_, at_, entry, ap q (sym same) ∙ fits)

  any-relationships_of_complete :
      (q : (RowType × String) × Relationship → Bool) (row_type : RowType) (id : String) (i : ℕ)
      (match_ : MatchResult)
      → get_elem? matches i ≡ some match_
      → Touches gt_mapping pred_mapping row_type id match_
      → ((found : Relationship) → found.status ≡ match_.type → q ((row_type, id), found) ≡ true)
      → any q (relationships_of relationships row_type id) ≡ true
  any-relationships_of_complete q row_type id i match_ at_ touches fits =
      let (gt_id, pred_id, g, p) =
        relationship_lists-HasRow phase gt_mapping pred_mapping number matches i given at_ in
      let (found, entry, status) =
        Touches-IsEntry phase gt_mapping pred_mapping (number + i) match_ row_type id gt_id pred_id
          g p touches in
      any-keep_complete
        (λ (other : (RowType × String) × Relationship).
          same_type other.0.0 row_type && str_eq other.0.1 id)
        q relationships ((row_type, id), found)
        ((relationship_lists-iff-HasEntry phase gt_mapping pred_mapping number matches relationships
            given ((row_type, id), found)).1
          (i, match_, at_, entry))
        (own_key row_type id) (fits found status)

  pub has_true_positive-iff-Hit :
      (row_type : RowType) (id : String)
      → (has_true_positive (relationships_of relationships row_type id) ≡ true)
        ↔ Hit gt_mapping pred_mapping matches row_type id
  has_true_positive-iff-Hit row_type id = (
    λ e.
        let (found, i, match_, at_, entry, hit) =
          any-relationships_of
            (λ (x : (RowType × String) × Relationship). is_true_positive x.1.status) row_type id
            e in
        (
          i,
          match_,
          at_,
          IsEntry-Touches phase gt_mapping pred_mapping (number + i) match_ row_type id found entry,
          sym (ap (λ (r : Relationship). r.status) entry.same)
              ∙ (is_true_positive_iff found.status).0 hit,
        ),
    λ (i, match_, at_, touches, hit).
        any-relationships_of_complete
          (λ (x : (RowType × String) × Relationship). is_true_positive x.1.status) row_type id i
          match_ at_ touches (λ found status. (is_true_positive_iff found.status).1 (status ∙ hit)),
  )

  pub any-iff-Touched :
      (row_type : RowType) (id : String)
      → (any (λ _. true) (relationships_of relationships row_type id) ≡ true)
        ↔ Touched gt_mapping pred_mapping matches row_type id
  any-iff-Touched row_type id = (
    λ e.
        let (found, i, match_, at_, entry, _) = any-relationships_of (λ _. true) row_type id e in
        (
          i,
          match_,
          at_,
          IsEntry-Touches phase gt_mapping pred_mapping (number + i) match_ row_type id found entry,
        ),
    λ (i, match_, at_, touches).
        any-relationships_of_complete (λ _. true) row_type id i match_ at_ touches (λ _ _. refl),
  )
