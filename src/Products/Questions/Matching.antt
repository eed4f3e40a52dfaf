-- ===== src/Products/Questions/Matching.antt =====
-- src/products/asset-questions/asset-questions.service.ts: the questions that the query finds are
-- those whose conditions the asset meets.
use shield_api.Common.{
  ℕ, ◌≤◌, ◌≡◌, refl, sym, ap, ◌∙◌, subst, ◌↔◌, inl, inr, String, Bool, true, false, not, ◌&&◌, ◌||◌,
  List, [], ◌∷◌, Option, none, some, filter, head?, is_some, length, includes, In, find, find_sound,
  find-none, In-of_filter, In-to_filter, In-of_includes, includes_of_In, ltb, eqb, if◌then◌else◌,
  ◌==◌, eq_iff, arith, Bool-cases, Option-cases,
}
use shield_api.Products.Questions.{
  QuestionType, Question, Condition, Customization, Asset, or_where_clauses, types_of, is_of_types,
  left_join, on_condition, is_met, is_enabled, query, find_question_ids_by_asset,
}
use shield_api.Products.Questions.Joins.{counted_all, count_of_all}
use shield_api.Products.Questions.Clauses.{meets, meets-clauses}
use shield_api.Products.Questions.Counting.{
  UniqueIds, UniqueCustomizations, custom, allowed, counts, has_all, count_none, count_lem,
  includes-grouped_ids,
}

-- The question is asked: it is active and no variant, it is not customized away for a client's
-- request, it is of the type, it has a condition, and the asset meets all of its conditions.
pub record IsAsked (upper : String → String) (is_client : Bool) (asset : Asset)
    (type : Option QuestionType) (conditions : List Condition) (customizations : List Customization)
    (q : Question) : Type 0 where
  pub active : q.active ≡ true
  pub top : q.parent_question_id ≡ none
  pub enabled :
      is_client ≡ true
      → (k : Customization) → In k customizations
      → k.asset_question_id ≡ q.id
      → k.enabled ≡ true
  pub of_type : is_of_types (types_of type) q ≡ true
  pub has_condition : (c : Condition) × (In c conditions × (c.asset_question_id ≡ q.id))
  pub met :
      (c : Condition) → In c conditions → c.asset_question_id ≡ q.id → meets upper asset c ≡ true

filter-never :
    {A : Type 0} (p : A → Bool) (xs : List A) → ((x : A) → p x ≡ false) → length (filter p xs) ≡ 0
filter-never p [] never = refl
filter-never p (x ∷ xs) never = rw (never x) (filter-never p xs never)

some_element : {A : Type 0} (xs : List A) → ltb 0 (length xs) ≡ true → (x : A) × In x xs
some_element [] e = absurd (ground arith)
some_element (x ∷ xs) e = (x, inl refl)

not_empty : {A : Type 0} (x : A) (xs : List A) → In x xs → ltb 0 (length xs) ≡ true
not_empty x (y ∷ xs) m = ground arith
not_empty x [] m = absurd m

head-In : {A : Type 0} (x : A) (xs : List A) → head? xs ≡ some x → In x xs
head-In x (y ∷ ys) e = inl (cc)
head-In x [] e = cc

head_of_one : {A : Type 0} (x : A) (xs : List A) → length xs ≤ 1 → In x xs → head? xs ≡ some x
head_of_one x (y ∷ ys) le (inl e) = ap some (sym e)
head_of_one x (y ∷ z ∷ ys) le (inr m) = absurd (omega arith)
head_of_one x (y ∷ []) le (inr m) = absurd m
head_of_one x [] le m = absurd m

module _ (is_client : Bool) (conditions : List Condition) (customizations : List Customization)
    (types : Option (List QuestionType)) where
  no_clauses :
      (k : String) (r : Question × Option Condition)
      → counts is_client conditions customizations types [] k r ≡ false
  no_clauses k (q, none) = ground arith
  no_clauses k (q, some c) = ground arith

  includes-query :
      (clauses : List (Condition → Bool)) (qs : List Question) (k : String)
      → UniqueCustomizations customizations
      → includes (query is_client types clauses qs conditions customizations) k
        ≡ has_all is_client conditions customizations types clauses
            (length (
              filter
                (counts is_client conditions customizations types clauses k)
                (left_join on_condition conditions qs)))
            k
  includes-query [] qs k unique =
      rw
        (filter-never (counts is_client conditions customizations types [] k)
          (left_join on_condition conditions qs) (no_clauses k))
        refl
  includes-query (c ∷ cs) qs k unique =
      includes-grouped_ids is_client conditions customizations types (c ∷ cs) qs k unique

module _ (upper : String → String) (is_client : Bool) (asset : Asset) (type : Option QuestionType)
    (conditions : List Condition) (customizations : List Customization)
    (one : UniqueCustomizations customizations) where
  abbrev clauses : List (Condition → Bool)
  clauses = or_where_clauses upper asset

  abbrev met_by : Condition → Bool
  met_by c = is_met clauses (some c)

  abbrev its : Question → List Condition
  its q = filter (on_condition q) conditions

  abbrev allows : Question → Bool
  allows = allowed is_client conditions customizations (types_of type) clauses

  met_meets : (c : Condition) → met_by c ≡ meets upper asset c
  met_meets c = meets-clauses upper asset c.asset_question_id c.condition_type c.value

  abbrev Asked : Question → Type 0
  Asked = IsAsked upper is_client asset type conditions customizations

  all_of : (n m : ℕ) → ltb 0 n && eqb n m ≡ true → (n ≡ m) × (ltb 0 m ≡ true)
  all_of n m h = ground arith

  its_In :
      (q : Question) (c : Condition) → In c conditions → c.asset_question_id ≡ q.id → In c (its q)
  its_In q c m e =
      In-to_filter (on_condition q) c conditions m ((eq_iff c.asset_question_id q.id).1 e)

  no_parent : (o : Option String) → is_some o ≡ false → o ≡ none
  no_parent none e = refl
  no_parent (some p) e = cc

  customized :
      (q : Question) (k : Customization)
      → In k customizations
      → k.asset_question_id ≡ q.id
      → head? (filter (λ z. z.asset_question_id == q.id) customizations) ≡ some k
  customized q k m e = head_of_one k _ (one q.id) (
      In-to_filter (λ z. z.asset_question_id == q.id) k customizations m
        ((eq_iff k.asset_question_id q.id).1 e))

  Asked-of :
      (q : Question)
      → allows q ≡ true
      → length (filter met_by (its q)) ≡ length (its q)
      → ltb 0 (length (its q)) ≡ true
      → Asked q
  Asked-of q a all some_c =
      let (c, m) = some_element (its q) some_c in
      let (i, on) = In-of_filter (on_condition q) c conditions m in
      record {
        active = ground arith;
        top = no_parent q.parent_question_id (ground arith);
        enabled = λ client k j e. let head = customized q k j e in ground arith;
        of_type = ground arith;
        has_condition = (c, (i, (eq_iff c.asset_question_id q.id).0 on));
        met = λ d j e. sym (met_meets d) ∙ counted_all met_by (its q) d all (its_In q d j e);
      }

  enabled_custom :
      (q : Question)
      → Asked q
      → not is_client || is_enabled (custom is_client conditions customizations (q, none)) ≡ true
  enabled_custom q asked = elim (Bool-cases is_client) [
    | inr e ↦ ground arith
    | inl e ↦
        let own = filter (λ z. z.asset_question_id == q.id) customizations in
        elim (Option-cases (head? own)) [
          | inl none_left ↦ rw (e, none_left) refl
          | inr (k, f) ↦
              let (i, on) =
                In-of_filter (λ z. z.asset_question_id == q.id) k customizations
                  (head-In k own f) in
              rw (e, f) (asked.enabled e k i ((eq_iff k.asset_question_id q.id).0 on))
        ]
  ]

  allows_of : (q : Question) → Asked q → allows q ≡ true
  allows_of q asked =
      let active = asked.active in
      let top = ap (λ o. is_some o) asked.top in
      let enabled = enabled_custom q asked in let of_type = asked.of_type in ground arith

  all_met : (q : Question) → Asked q → length (filter met_by (its q)) ≡ length (its q)
  all_met q asked = count_of_all met_by (its q) (λ c m.
      let (i, on) = In-of_filter (on_condition q) c conditions m in
      met_meets c ∙ asked.met c i ((eq_iff c.asset_question_id q.id).0 on))

  some_of : (q : Question) → Asked q → ltb 0 (length (its q)) ≡ true
  some_of q asked = let (c, (i, e)) = asked.has_condition in not_empty c (its q) (its_In q c i e)

  abbrev found : List Question → String → Bool
  found qs k =
      includes (find_question_ids_by_asset upper is_client asset type qs conditions customizations)
        k

  abbrev count_for : Question → ℕ
  count_for q = if allows q then length (filter met_by (its q)) else 0

  found_lem :
      (qs : List Question) (q : Question)
      → UniqueIds qs
      → In q qs
      → found qs q.id ≡ (ltb 0 (count_for q) && eqb (count_for q) (length (its q)))
  unfolding find_question_ids_by_asset
  found_lem qs q ids m =
      includes-query is_client conditions customizations (types_of type) clauses qs q.id one
      ∙ ap (λ n. ltb 0 n && eqb n (length (its q)))
          (count_lem is_client conditions customizations (types_of type) clauses q qs ids m)

  found-Asked :
      (qs : List Question) (q : Question) → UniqueIds qs → In q qs → found qs q.id ≡ true → Asked q
  found-Asked qs q ids m h = elim (Bool-cases (allows q)) [
    | inl a ↦
        let (all, some_c) =
          all_of (length (filter met_by (its q))) (length (its q))
            (rw a at (sym (found_lem qs q ids m) ∙ h)) in
        Asked-of q a all some_c
    | inr a ↦ absurd (ground (arith, found_lem qs q ids m))
  ]

  Asked-found :
      (qs : List Question) (q : Question) → UniqueIds qs → In q qs → Asked q → found qs q.id ≡ true
  Asked-found qs q ids m asked =
      found_lem qs q ids m
      ∙ rw (allows_of q asked, all_met q asked) (ground (arith, some_of q asked))

  found-none :
      (qs : List Question) (k : String) → find (λ q. q.id == k) qs ≡ none → found qs k ≡ false
  unfolding find_question_ids_by_asset
  found-none qs k e =
      includes-query is_client conditions customizations (types_of type) clauses qs k one
      ∙ rw
          (count_none is_client conditions customizations (types_of type) clauses k qs
            (λ r m. find-none (λ q. q.id == k) qs r e m))
          refl

-- The query of `findQuestionIdsByAsset`, which counts the conditions that a question has and those
-- that the asset meets, finds exactly the questions that are asked of the asset; ids of questions are
-- unique, and a question has one customization at most.
pub find_question_ids_by_asset_lem :
    (upper : String → String) (is_client : Bool) (asset : Asset) (type : Option QuestionType)
    (questions : List Question) (conditions : List Condition) (customizations : List Customization)
    (k : String)
    → UniqueIds questions
    → UniqueCustomizations customizations
    → In k
        (find_question_ids_by_asset upper is_client asset type questions conditions customizations)
      ↔ ((q : Question) × (In q questions
            × ((q.id ≡ k) × IsAsked upper is_client asset type conditions customizations q)))
find_question_ids_by_asset_lem upper is_client asset type questions conditions customizations k ids
      one =
    (to, from)
  where
    to :
        In k (
          find_question_ids_by_asset upper is_client asset type questions conditions customizations)
        → (q : Question) × (In q questions
            × ((q.id ≡ k) × IsAsked upper is_client asset type conditions customizations q))
    to m =
        let h = includes_of_In _ k m in
        elim (Option-cases (find (λ q. q.id == k) questions)) [
          | inl e ↦
              let no =
                found-none upper is_client asset type conditions customizations one questions k e in
              absurd (cc)
          | inr (q, e) ↦
              let (i, on) = find_sound (λ z. z.id == k) questions q e in
              let same : q.id ≡ k = (eq_iff q.id k).0 on in
              (
                q,
                (
                  i,
                  (
                    same,
                    found-Asked upper is_client asset type conditions customizations one questions q
                        ids i
                        (subst
                          (λ z.
                            includes
                              (find_question_ids_by_asset upper is_client asset type questions
                                conditions customizations)
                              z
                            ≡ true)
                          (sym same) h),
                  ),
                ),
              )
        ]

    from :
        ((q : Question) × (In q questions
            × ((q.id ≡ k) × IsAsked upper is_client asset type conditions customizations q)))
        → In k (
            find_question_ids_by_asset upper is_client asset type questions conditions
              customizations)
    from (q, (i, (same, asked))) =
        subst
          (λ z. In z (
            find_question_ids_by_asset upper is_client asset type questions conditions
              customizations))
          same
          (In-of_includes _ q.id (
            Asked-found upper is_client asset type conditions customizations one questions q ids i
              asked))
