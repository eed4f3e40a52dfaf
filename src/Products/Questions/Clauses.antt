-- ===== src/Products/Questions/Clauses.antt =====
-- src/products/asset-questions/asset-questions.service.ts: what it is for an asset to meet a
-- condition, and the clauses of the query.
use shield_api.Common.{
  ◌≡◌, refl, sym, ap₂, ◌∙◌, String, Bool, false, ◌&&◌, ◌||◌, List, [], ◌∷◌, ◌++◌, Option, none,
  some, any, get_or, truthy?, includes, arith,
}
use shield_api.Products.Questions.{
  ConditionType, Condition, Product, Asset, region, manufacturer, product_category, product,
  metadata, normalize_state, unique_key_pairs, or_where_clauses, product_clauses, region_clauses,
  metadata_clauses,
}

-- The asset has one of the values.
abbrev of_product : Option Product → (Product → String) → List String → Bool
of_product none f values = false
of_product (some p) f values = includes values (f p)

abbrev meets_type : (String → String) → Asset → ConditionType → List String → Bool
meets_type upper a product_category values =
    of_product a.product (λ p. p.product_category_id) values
meets_type upper a manufacturer values = of_product a.product (λ p. p.manufacturer_id) values
meets_type upper a product values = of_product a.product (λ p. p.id) values
meets_type upper a region values =
    truthy? a.state && includes values (normalize_state upper (get_or a.state ""))
meets_type upper a metadata values = any (λ v. includes (unique_key_pairs a) v) values

-- The asset meets the condition: it has one of the values in the field that the condition is on.
abbrev pub meets : (String → String) → Asset → Condition → Bool
meets upper a c = meets_type upper a c.condition_type c.value

abbrev pub clause_holds : Condition → (Condition → Bool) → Bool
clause_holds c clause = clause c

any-append :
    {A : Type 0} (p : A → Bool) (xs ys : List A) → any p (xs ++ ys) ≡ (any p xs || any p ys)
any-append p [] ys = refl
any-append p (x ∷ xs) ys = ground (arith, any-append p xs ys)

abbrev pub cond : String → ConditionType → List String → Condition
cond id t values = record { asset_question_id = id; condition_type = t; value = values }

abbrev by_product : Option Product → ConditionType → List String → Bool
by_product o product_category values = of_product o (λ p. p.product_category_id) values
by_product o manufacturer values = of_product o (λ p. p.manufacturer_id) values
by_product o product values = of_product o (λ p. p.id) values
by_product o _ values = false

product_clauses_lem :
    (o : Option Product) (id : String) (t : ConditionType) (values : List String)
    → any (clause_holds (cond id t values)) (product_clauses o) ≡ by_product o t values
product_clauses_lem none id region values = refl
product_clauses_lem none id manufacturer values = refl
product_clauses_lem none id product_category values = refl
product_clauses_lem none id product values = refl
product_clauses_lem none id metadata values = refl
product_clauses_lem (some p) id region values = refl
product_clauses_lem (some p) id manufacturer values = ground arith
product_clauses_lem (some p) id product_category values = ground arith
product_clauses_lem (some p) id product values = ground arith
product_clauses_lem (some p) id metadata values = refl

abbrev by_region : (String → String) → Option String → ConditionType → List String → Bool
by_region upper s region values = truthy? s && includes values (normalize_state upper (get_or s ""))
by_region upper s _ values = false

region_clauses_lem :
    (upper : String → String) (s : Option String) (id : String) (t : ConditionType)
    (values : List String)
    → any (clause_holds (cond id t values)) (region_clauses upper s) ≡ by_region upper s t values
region_clauses_lem upper s id region values = ground arith
region_clauses_lem upper s id manufacturer values = ground arith
region_clauses_lem upper s id product_category values = ground arith
region_clauses_lem upper s id product values = ground arith
region_clauses_lem upper s id metadata values = ground arith

abbrev by_metadata : List String → ConditionType → List String → Bool
by_metadata pairs metadata values = any (λ v. includes pairs v) values
by_metadata pairs _ values = false

any-none : (values : List String) → any (λ v. includes [] v) values ≡ false
any-none [] = refl
any-none (v ∷ values) = any-none values

metadata_clauses_lem :
    (pairs : List String) (id : String) (t : ConditionType) (values : List String)
    → any (clause_holds (cond id t values)) (metadata_clauses pairs) ≡ by_metadata pairs t values
metadata_clauses_lem [] id region values = refl
metadata_clauses_lem [] id manufacturer values = refl
metadata_clauses_lem [] id product_category values = refl
metadata_clauses_lem [] id product values = refl
metadata_clauses_lem [] id metadata values = sym (any-none values)
metadata_clauses_lem (p ∷ ps) id region values = refl
metadata_clauses_lem (p ∷ ps) id manufacturer values = refl
metadata_clauses_lem (p ∷ ps) id product_category values = refl
metadata_clauses_lem (p ∷ ps) id product values = refl
metadata_clauses_lem (p ∷ ps) id metadata values = ground arith

meets_by :
    (upper : String → String) (a : Asset) (t : ConditionType) (values : List String)
    → (by_product a.product t values
        || (by_region upper a.state t values || by_metadata (unique_key_pairs a) t values))
      ≡ meets_type upper a t values
meets_by upper a region values = ground arith
meets_by upper a manufacturer values = ground arith
meets_by upper a product_category values = ground arith
meets_by upper a product values = ground arith
meets_by upper a metadata values = ground arith

pub meets-clauses :
    (upper : String → String) (a : Asset) (id : String) (t : ConditionType) (values : List String)
    → any (clause_holds (cond id t values)) (or_where_clauses upper a) ≡ meets_type upper a t values
meets-clauses upper a id t values =
    let c = cond id t values in
    let rest = region_clauses upper a.state ++ metadata_clauses (unique_key_pairs a) in
    any-append (clause_holds c) (product_clauses a.product) rest
    ∙ ap₂ (λ x y. x || y) (product_clauses_lem a.product id t values)
        (any-append (clause_holds c) (region_clauses upper a.state)
            (metadata_clauses (unique_key_pairs a))
          ∙ ap₂ (λ x y. x || y) (region_clauses_lem upper a.state id t values)
              (metadata_clauses_lem (unique_key_pairs a) id t values))
    ∙ meets_by upper a t values
