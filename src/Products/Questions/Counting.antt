-- ===== src/Products/Questions/Counting.antt =====
-- src/products/asset-questions/asset-questions.service.ts: the rows that the query counts for a
-- question.
use shield_api.Common.{
  ℕ, ◌+◌, ◌≤◌, ◌≡◌, refl, sym, ap, ap₂, ◌∙◌, subst, inl, inr, String, Bool, true, false, not, ◌&&◌,
  ◌||◌, List, [], ◌∷◌, Option, none, some, map, filter, head?, is_some, length, includes, distinct,
  In, ltb, eqb, if◌then◌else◌, ◌==◌, eq_iff, eq_refl, arith, Bool-cases,
}
use shield_api.Products.Questions.{
  QuestionType, Question, Condition, Customization, Joined, is_of_types, or_null, left_join,
  on_condition, joined, is_met, is_enabled, row_passes, row_id, grouped_ids,
}
use shield_api.Products.Questions.Joins.{
  includes-filter, includes-distinct, includes-map, length-filter-append, length-filter-filter-map,
  left_join_one, length-filter-or_null,
}

-- The ids of the questions are a primary key.
abbrev pub UniqueIds : List Question → Type 0
UniqueIds [] = Unit
UniqueIds (q ∷ qs) = ((r : Question) → In r qs → r.id == q.id ≡ false) × UniqueIds qs

-- A question has one customization at most: the unique index on `assetQuestionId`.
abbrev pub UniqueCustomizations : List Customization → Type 0
UniqueCustomizations ks = (id : String) → length (filter (λ k. k.asset_question_id == id) ks) ≤ 1

module _ (is_client : Bool) (conditions : List Condition)
    (customizations : List Customization) where
  abbrev pub custom : Question × Option Condition → Option Customization
  custom r =
      if is_client then head? (filter (λ k. k.asset_question_id == r.0.id) customizations) else none

  joined_lem :
      (qs : List Question)
      → UniqueCustomizations customizations
      → joined is_client qs conditions customizations
        ≡ map (λ r. (r, custom r)) (left_join on_condition conditions qs)
  joined_lem qs unique = elim (Bool-cases is_client) [
    | inl e ↦ rw e (left_join_one _ customizations _ (λ r. unique r.0.id))
    | inr e ↦ rw e refl
  ]

  module _ (types : Option (List QuestionType)) (clauses : List (Condition → Bool)) where
    abbrev pub passes : Question × Option Condition → Bool
    passes r = row_passes is_client types clauses (r, custom r)

    -- What the filter asks of the question alone.
    abbrev pub allowed : Question → Bool
    allowed q =
        (q.active && not (is_some q.parent_question_id))
        && ((not is_client || is_enabled (custom (q, none))) && is_of_types types q)

    abbrev pub counts : String → Question × Option Condition → Bool
    counts k r = passes r && row_id (r, custom r) == k

    count_one :
        (k : String) (q : Question) (cs : List Condition)
        → q.id == k ≡ true
        → length (filter (counts k) (or_null q cs))
          ≡ (if allowed q then length (filter (λ c. is_met clauses (some c)) cs) else 0)
    count_one k q cs e =
        length-filter-or_null (counts k) (allowed q) (λ c. is_met clauses (some c)) q cs
          (ground arith) (λ c. ground arith)

    count_other :
        (k : String) (q : Question) (cs : List Condition)
        → q.id == k ≡ false
        → length (filter (counts k) (or_null q cs)) ≡ 0
    count_other k q cs e =
        length-filter-or_null (counts k) false (λ c. false) q cs (ground arith) (λ c. ground arith)

    pub count_none :
        (k : String) (qs : List Question)
        → ((r : Question) → In r qs → r.id == k ≡ false)
        → length (filter (counts k) (left_join on_condition conditions qs)) ≡ 0
    count_none k [] other = refl
    count_none k (q ∷ qs) other =
        let first = count_other k q (filter (on_condition q) conditions) (other q (inl refl)) in
        let rest = count_none k qs (λ r m. other r (inr m)) in
        length-filter-append (counts k) (or_null q (filter (on_condition q) conditions))
          (left_join on_condition conditions qs)
        ∙ ap₂ (λ x y. x + y) first rest

    pub count_lem :
        (q : Question) (qs : List Question)
        → UniqueIds qs
        → In q qs
        → length (filter (counts q.id) (left_join on_condition conditions qs)) ≡ (
            if allowed q
            then length (filter (λ c. is_met clauses (some c)) (filter (on_condition q) conditions))
            else 0)
    count_lem q (r ∷ qs) (fresh, unique) (inl e) =
        subst
          (λ z. length (filter (counts z.id) (left_join on_condition conditions (r ∷ qs))) ≡ (
            if allowed z
            then length (filter (λ c. is_met clauses (some c)) (filter (on_condition z) conditions))
            else 0))
          (sym e)
          (length-filter-append (counts r.id) (or_null r (filter (on_condition r) conditions))
              (left_join on_condition conditions qs)
            ∙ ap₂ (λ x y. x + y)
                (count_one r.id r (filter (on_condition r) conditions) (eq_refl r.id))
                (count_none r.id qs fresh)
            ∙ omega arith)
    count_lem q (r ∷ qs) (fresh, unique) (inr m) =
        length-filter-append (counts q.id) (or_null r (filter (on_condition r) conditions))
          (left_join on_condition conditions qs)
        ∙ ap₂ (λ x y. x + y)
            (count_other q.id r (filter (on_condition r) conditions)
              (ground (arith, fresh q m, eq_iff q.id r.id, eq_iff r.id q.id)))
            (count_lem q qs unique m)
        ∙ omega arith
    count_lem q [] unique m = absurd m

    abbrev pub has_all : ℕ → String → Bool
    has_all n k = ltb 0 n && eqb n (length (filter (λ c. c.asset_question_id == k) conditions))

    pub includes-grouped_ids :
        (qs : List Question) (k : String)
        → UniqueCustomizations customizations
        → includes
            (grouped_ids conditions (
              filter
                (row_passes is_client types clauses)
                (joined is_client qs conditions customizations)))
            k
          ≡ has_all (length (filter (counts k) (left_join on_condition conditions qs))) k
    unfolding grouped_ids
    includes-grouped_ids qs k unique =
        let w = row_passes is_client types clauses in
        let base = left_join on_condition conditions qs in
        let h : Question × Option Condition → Joined = λ r. (r, custom r) in
        let rows = filter w (joined is_client qs conditions customizations) in
        let n : length (filter (λ r. row_id r == k) rows) ≡ length (filter (counts k) base) =
          ap (λ z. length (filter (λ r. row_id r == k) (filter w z))) (joined_lem qs unique)
          ∙ length-filter-filter-map (λ r. row_id r == k) w h base in
        includes-filter _ (distinct (map row_id rows)) k
        ∙ ap₂ (λ x y. x && y)
            (includes-distinct (map row_id rows) k
              ∙ includes-map row_id rows k
              ∙ ap (λ z. ltb 0 z) n)
            (ap (λ z. eqb z (length (filter (λ c. c.asset_question_id == k) conditions))) n)
