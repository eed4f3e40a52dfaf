-- ===== src/Products/Questions.antt =====
-- src/products/asset-questions/asset-questions.service.ts: the query of `findQuestionIdsByAsset`, as
-- the joins, the filter and the groups of its SQL on lists of rows. The rows that row-level security
-- shows are arguments, and so is `toUpperCase`.
pub mod Joins
pub mod Clauses
pub mod Counting
pub mod Matching
mod Tests
use shield_api.Common.{
  String, Bool, true, false, not, ◌&&◌, ◌||◌, List, [], ◌∷◌, ◌++◌, Option, none, some, map, filter,
  any, flat_map, is_some, length, includes, distinct, get, get_or, truthy?, concat, eqb,
  if◌then◌else◌, ◌==◌,
}

pub data ConditionType : Type 0 where
  region manufacturer product_category product metadata : ConditionType

abbrev pub condition_type_text : ConditionType → String
condition_type_text region = "REGION"
condition_type_text manufacturer = "MANUFACTURER"
condition_type_text product_category = "PRODUCT_CATEGORY"
condition_type_text product = "PRODUCT"
condition_type_text metadata = "METADATA"

pub data QuestionType : Type 0 where
  configuration setup_and_inspection setup inspection : QuestionType

abbrev pub question_type_text : QuestionType → String
question_type_text configuration = "CONFIGURATION"
question_type_text setup_and_inspection = "SETUP_AND_INSPECTION"
question_type_text setup = "SETUP"
question_type_text inspection = "INSPECTION"

-- Rows of AssetQuestion, AssetQuestionCondition and ClientAssetQuestionCustomization.
pub record Question : Type 0 where
  pub id : String
  pub active : Bool
  pub parent_question_id : Option String
  pub question_type : QuestionType

pub record Condition : Type 0 where
  pub asset_question_id : String
  pub condition_type : ConditionType
  pub value : List String

pub record Customization : Type 0 where
  pub asset_question_id : String
  pub enabled : Bool

pub record Product : Type 0 where
  pub id : String
  pub product_category_id : String
  pub manufacturer_id : String
  pub metadata : Option (List (String × String))

-- What the query looks at of an asset. Metadata that is no object is absent.
pub record Asset : Type 0 where
  pub product : Option Product
  pub state : Option String
  pub metadata : Option (List (String × String))

abbrev pub state_abbreviations : List (String × String)
state_abbreviations =
    ("Alabama", "AL")
    ∷ ("Alaska", "AK")
    ∷ ("Arizona", "AZ")
    ∷ ("Arkansas", "AR")
    ∷ ("California", "CA")
    ∷ ("Colorado", "CO")
    ∷ ("Connecticut", "CT")
    ∷ ("Delaware", "DE")
    ∷ ("Florida", "FL")
    ∷ ("Georgia", "GA")
    ∷ ("Hawaii", "HI")
    ∷ ("Idaho", "ID")
    ∷ ("Illinois", "IL")
    ∷ ("Indiana", "IN")
    ∷ ("Iowa", "IA")
    ∷ ("Kansas", "KS")
    ∷ ("Kentucky", "KY")
    ∷ ("Louisiana", "LA")
    ∷ ("Maine", "ME")
    ∷ ("Maryland", "MD")
    ∷ ("Massachusetts", "MA")
    ∷ ("Michigan", "MI")
    ∷ ("Minnesota", "MN")
    ∷ ("Mississippi", "MS")
    ∷ ("Missouri", "MO")
    ∷ ("Montana", "MT")
    ∷ ("Nebraska", "NE")
    ∷ ("Nevada", "NV")
    ∷ ("New Hampshire", "NH")
    ∷ ("New Jersey", "NJ")
    ∷ ("New Mexico", "NM")
    ∷ ("New York", "NY")
    ∷ ("North Carolina", "NC")
    ∷ ("North Dakota", "ND")
    ∷ ("Ohio", "OH")
    ∷ ("Oklahoma", "OK")
    ∷ ("Oregon", "OR")
    ∷ ("Pennsylvania", "PA")
    ∷ ("Rhode Island", "RI")
    ∷ ("South Carolina", "SC")
    ∷ ("South Dakota", "SD")
    ∷ ("Tennessee", "TN")
    ∷ ("Texas", "TX")
    ∷ ("Utah", "UT")
    ∷ ("Vermont", "VT")
    ∷ ("Virginia", "VA")
    ∷ ("Washington", "WA")
    ∷ ("West Virginia", "WV")
    ∷ ("Wisconsin", "WI")
    ∷ ("Wyoming", "WY")
    ∷ []

abbrev pub normalize_state : (String → String) → String → String
normalize_state upper state = get_or (get state state_abbreviations) (upper state)

abbrev pub has_type : ConditionType → Condition → Bool
has_type t c = condition_type_text c.condition_type == condition_type_text t

-- `condition."value" @> to_jsonb(text)`
abbrev pub contains_value : ConditionType → String → Condition → Bool
contains_value t text c = has_type t c && includes c.value text

abbrev pub product_clauses : Option Product → List (Condition → Bool)
product_clauses none = []
product_clauses (some p) =
    contains_value ConditionType.product_category p.product_category_id
    ∷ contains_value ConditionType.manufacturer p.manufacturer_id
    ∷ contains_value ConditionType.product p.id
    ∷ []

abbrev pub region_clauses : (String → String) → Option String → List (Condition → Bool)
region_clauses upper state =
    if truthy? state
    then contains_value ConditionType.region (normalize_state upper (get_or state "")) ∷ []
    else []

abbrev product_metadata : Option Product → List (String × String)
product_metadata none = []
product_metadata (some p) = get_or p.metadata []

abbrev pub unique_key_pairs : Asset → List String
unique_key_pairs a =
    distinct (
      map (λ e. concat (e.0 ∷ ":" ∷ e.1 ∷ [])) (get_or a.metadata [] ++ product_metadata a.product))

abbrev pub metadata_clauses : List String → List (Condition → Bool)
metadata_clauses [] = []
metadata_clauses (p ∷ ps) =
    (λ c. has_type ConditionType.metadata c && any (λ v. includes (p ∷ ps) v) c.value) ∷ []

abbrev pub or_where_clauses : (String → String) → Asset → List (Condition → Bool)
or_where_clauses upper a =
    product_clauses a.product
    ++ (region_clauses upper a.state ++ metadata_clauses (unique_key_pairs a))

-- The types that the filter by type lets through, if there is one.
abbrev pub types_of : Option QuestionType → Option (List QuestionType)
types_of none = none
types_of (some setup_and_inspection) = none
types_of (some setup) = some (QuestionType.setup ∷ QuestionType.setup_and_inspection ∷ [])
types_of (some inspection) = some (QuestionType.inspection ∷ QuestionType.setup_and_inspection ∷ [])
types_of (some configuration) = some (QuestionType.configuration ∷ [])

abbrev pub is_of_types : Option (List QuestionType) → Question → Bool
is_of_types none q = true
is_of_types (some ts) q = any (λ t. question_type_text t == question_type_text q.question_type) ts

-- LEFT JOIN: a row with nothing to join comes with NULL.
abbrev pub or_null : {A B : Type 0} → A → List B → List (A × Option B)
or_null x [] = (x, none) ∷ []
or_null x (y ∷ ys) = (x, some y) ∷ map (λ z. (x, some z)) ys

abbrev pub left_join : {A B : Type 0} → (A → B → Bool) → List B → List A → List (A × Option B)
left_join on ys xs = flat_map (λ x. or_null x (filter (on x) ys)) xs

abbrev pub Joined : Type 0
Joined = (Question × Option Condition) × Option Customization

abbrev pub on_condition : Question → Condition → Bool
on_condition q c = c.asset_question_id == q.id

abbrev pub on_customization : Question × Option Condition → Customization → Bool
on_customization r k = k.asset_question_id == r.0.id

abbrev pub joined : Bool → List Question → List Condition → List Customization → List Joined
joined is_client questions conditions customizations =
    let rows = left_join on_condition conditions questions in
    if is_client then left_join on_customization customizations rows else map (λ r. (r, none)) rows

-- The `OR` of the clauses is not true of NULL.
abbrev pub is_met : List (Condition → Bool) → Option Condition → Bool
is_met clauses none = false
is_met clauses (some c) = any (λ clause. clause c) clauses

abbrev pub is_enabled : Option Customization → Bool
is_enabled none = true
is_enabled (some k) = k.enabled

abbrev pub row_passes : Bool → Option (List QuestionType) → List (Condition → Bool) → Joined → Bool
row_passes is_client types clauses ((q, c), k) =
    (q.active && not (is_some q.parent_question_id))
    && ((not is_client || is_enabled k) && (is_of_types types q && is_met clauses c))

abbrev pub row_id : Joined → String
row_id ((q, c), k) = q.id

-- GROUP BY and HAVING.
unfoldable pub grouped_ids : List Condition → List Joined → List String
grouped_ids conditions rows =
    filter
      (λ id.
        eqb (length (filter (λ r. row_id r == id) rows))
          (length (filter (λ c. c.asset_question_id == id) conditions)))
      (distinct (map row_id rows))

abbrev pub query :
    Bool
    → Option (List QuestionType)
    → List (Condition → Bool)
    → List Question
    → List Condition
    → List Customization
    → List String
query is_client types [] questions conditions customizations = []
query is_client types (clause ∷ clauses) questions conditions customizations =
    grouped_ids conditions (
      filter (row_passes is_client types (clause ∷ clauses))
        (joined is_client questions conditions customizations))

-- `is_client`: the intent of the request is not `system`.
unfoldable pub find_question_ids_by_asset :
    (upper : String → String) (is_client : Bool)
    → Asset
    → Option QuestionType
    → List Question
    → List Condition
    → List Customization
    → List String
unfolding grouped_ids
find_question_ids_by_asset upper is_client asset type questions conditions customizations =
    query is_client (types_of type) (or_where_clauses upper asset) questions conditions
      customizations
