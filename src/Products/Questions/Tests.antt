-- ===== src/Products/Questions/Tests.antt =====
-- The theorem on src/products/asset-questions/asset-questions.service.ts at a few questions.
use shield_api.Common.{
  ◌≡◌, refl, ◌↔◌, inl, inr, String, true, false, List, [], ◌∷◌, none, some, In, includes, map, ◌==◌,
  arith,
}
use shield_api.Products.Questions.{
  ConditionType, QuestionType, Question, Condition, Customization, Asset, grouped_ids,
  find_question_ids_by_asset,
}
use shield_api.Products.Questions.Counting.{UniqueIds, UniqueCustomizations}
use shield_api.Products.Questions.Matching.{IsAsked, find_question_ids_by_asset_lem}

abbrev question : String → Question
question id = record {
  id = id;
  active = true;
  parent_question_id = none;
  question_type = QuestionType.inspection;
}

-- The last question has no condition.
abbrev questions : List Question
questions = question "q1" ∷ question "q2" ∷ question "q3" ∷ question "q4" ∷ []

abbrev condition : String → ConditionType → List String → Condition
condition id t values = record { asset_question_id = id; condition_type = t; value = values }

abbrev conditions : List Condition
conditions =
    condition "q1" ConditionType.product_category ("extinguisher" ∷ [])
    ∷ condition "q1" ConditionType.region ("TX" ∷ "NY" ∷ [])
    ∷ condition "q2" ConditionType.product_category ("extinguisher" ∷ [])
    ∷ condition "q2" ConditionType.metadata ("size:10" ∷ [])
    ∷ condition "q3" ConditionType.product ("p1" ∷ [])
    ∷ []

abbrev customizations : List Customization
customizations = record { asset_question_id = "q3"; enabled = false } ∷ []

abbrev asset : Asset
asset = record {
  product = some (record {
    id = "p1";
    product_category_id = "extinguisher";
    manufacturer_id = "m1";
    metadata = none;
  });
  state = some "Texas";
  metadata = some (("size", "5") ∷ []);
}

only_first :
    find_question_ids_by_asset
      (λ s. s)
      true
      asset
      (some QuestionType.inspection)
      questions
      conditions
      customizations
    ≡ "q1" ∷ []
unfolding find_question_ids_by_asset grouped_ids
only_first = refl

not_customized :
    find_question_ids_by_asset
      (λ s. s)
      false
      asset
      (some QuestionType.inspection)
      questions
      conditions
      customizations
    ≡ "q1" ∷ "q3" ∷ []
unfolding find_question_ids_by_asset grouped_ids
not_customized = refl

other_id :
    (id : String) (qs : List Question)
    → includes (map (λ q. q.id) qs) id ≡ false
    → (r : Question) → In r qs
    → r.id == id ≡ false
other_id id (q ∷ qs) e r (inl here) = ground arith
other_id id (q ∷ qs) e r (inr later) = other_id id qs (ground arith) r later
other_id id [] e r m = absurd m

questions-UniqueIds : UniqueIds questions
questions-UniqueIds = (
  other_id "q1" (question "q2" ∷ question "q3" ∷ question "q4" ∷ []) refl,
  (
    other_id "q2" (question "q3" ∷ question "q4" ∷ []) refl,
    (other_id "q3" (question "q4" ∷ []) refl, (other_id "q4" [] refl, tt)),
  ),
)

customizations-UniqueCustomizations : UniqueCustomizations customizations
customizations-UniqueCustomizations id = ground arith

find_question_ids_example :
    In "q1" (
      find_question_ids_by_asset
        (λ s. s)
        true
        asset
        (some QuestionType.inspection)
        questions
        conditions
        customizations)
    ↔ ((q : Question) × (In q questions
          × ((q.id ≡ (question "q1").id)
              × IsAsked
                  (λ s. s)
                  true
                  asset
                  (some QuestionType.inspection)
                  conditions
                  customizations
                  q)))
find_question_ids_example =
    find_question_ids_by_asset_lem (λ s. s) true asset (some QuestionType.inspection) questions
      conditions customizations "q1" questions-UniqueIds customizations-UniqueCustomizations
