-- ===== src/Assets/Alerts.antt =====
-- src/common/alert-utils.ts: the rules of alerts. JavaScript's numbers, dates and comparisons are a
-- parameter (`Values`). A result that is a text is `some`, and `false` is `none`.
pub mod Messages
pub mod Clauses
pub mod Triggers
pub mod Rules
mod Tests
use shield_api.Common.{
  String, Bool, true, false, not, ◌||◌, List, [], ◌∷◌, Option, none, some, concat, truthy, truthy?,
  get_or, all, find, if◌then◌else◌, ◌==◌,
}

-- A JSON value; arrays, objects and Booleans are `other`, with their text.
pub data Json (Num : Type 0) : Type 0 where
  null : Json Num
  text : String → Json Num
  number : Num → Json Num
  other : String → Json Num

-- What `stringOrNumber` compares: two numbers or two texts.
pub data Scalar (Num : Type 0) : Type 0 where
  num : Num → Scalar Num
  txt : String → Scalar Num

pub record Values : Type 1 where
  pub Num : Type 0
  pub Date : Type 0
  pub now : Date
  -- Number(x) and String(x)
  pub to_number : Json Num → Num
  pub to_text : Json Num → String
  pub lower : String → String
  pub parse_iso : String → Date
  pub is_same_day : Date → Date → Bool
  pub is_after_date : Date → Date → Bool
  pub is_before_date : Date → Date → Bool
  pub difference_in_days : Date → Date → Num
  pub lt : Scalar Num → Scalar Num → Bool
  pub le : Scalar Num → Scalar Num → Bool
  pub same : Scalar Num → Scalar Num → Bool
  -- v.includes(t), v.endsWith(t), v.startsWith(t), with `t` first
  pub text_includes : String → String → Bool
  pub ends_with : String → String → Bool
  pub starts_with : String → String → Bool
  -- in a template string, and by `format(d, 'PP')`
  pub show : Scalar Num → String
  pub show_date : Date → String
  pub format_date : Date → String

-- AssetQuestionResponseType, as far as it matters here
pub data ValueType : Type 0 where
  date_type number_type other_type : ValueType

abbrev pub explain : Bool → String → Option String
explain result message = if result then some message else none

abbrev pub or_else {ℓ} : {A : Type ℓ} → Option A → Option A → Option A
or_else none q = q
or_else (some x) q = some x

-- The result of a branch `if (o !== undefined) return f(o)`.
abbrev pub branch : {A R : Type 0} → Option A → (A → R) → Option R
branch none f = none
branch (some x) f = some (f x)

abbrev pub first_branch : List (Option (Option String)) → Option (Option String)
first_branch [] = none
first_branch (b ∷ bs) = or_else b (first_branch bs)

abbrev pub says : String → String → String
says start rest = concat (start ∷ rest ∷ [])

abbrev pub or_false : Option (Option String) → Option String
or_false none = none
or_false (some r) = r

module _ (js : Values) where
  open js use {
    Num, Date, now, to_number, to_text, lower, parse_iso, is_same_day, is_after_date,
    is_before_date, difference_in_days, lt, le, same, text_includes, ends_with, starts_with, show,
    show_date, format_date,
  }

  pub record Ops : Type 0 where
    pub string : Option (String → String → Option String)
    pub string_or_number : Option (Scalar Num → Scalar Num → Option String)
    pub number_only : Option (Num → Num → Option String)
    pub date : Option (Date → Date → Option String)

  abbrev pub lowered : Json Num → String
  lowered v = lower (to_text v)

  abbrev pub compare : Json Num → ValueType → Json Num → Ops → Option String
  compare value date_type clause ops =
      or_false (branch ops.date (λ f. f (parse_iso (to_text clause)) (parse_iso (to_text value))))
  compare value number_type clause ops = or_false (
      or_else (branch ops.number_only (λ f. f (to_number clause) (to_number value)))
        (branch ops.string_or_number (λ f. f (num (to_number clause)) (num (to_number value)))))
  compare value other_type clause ops = or_false (
      or_else (branch ops.string (λ f. f (lowered clause) (lowered value)))
        (branch ops.string_or_number (λ f. f (txt (lowered clause)) (txt (lowered value)))))

  -- RuleClauseSchema: a text, or an object whose fields may be absent.
  pub record ClauseFields : Type 0 where
    pub empty : Bool
    pub not_empty : Bool
    pub equals : Option String
    pub is_not : Option String
    pub contains : Option String
    pub not_contains : Option String
    pub starts : Option String
    pub ends : Option String
    pub gt : Option (Json Num)
    pub gte : Option (Json Num)
    pub less : Option (Json Num)
    pub lte : Option (Json Num)
    pub before_days_past : Option Num
    pub after_days_past : Option Num
    pub before_days_future : Option Num
    pub after_days_future : Option Num

  pub data RuleClause : Type 0 where
    is_text : String → RuleClause
    fields : ClauseFields → RuleClause

  abbrev pub text_ops : (String → String → Option String) → Ops
  text_ops f = record { string = some f; string_or_number = none; number_only = none; date = none }

  abbrev pub both_ops :
      (Scalar Num → Scalar Num → Option String) → (Date → Date → Option String) → Ops
  both_ops f d = record {
    string = none;
    string_or_number = some f;
    number_only = none;
    date = some d;
  }

  -- value === null || value === undefined || value === ''
  abbrev pub is_empty : Json Num → Bool
  is_empty null = true
  is_empty (text s) = s == ""
  is_empty _ = false

  abbrev pub when : Bool → Option String → Option (Option String)
  when b r = if b then some r else none

  abbrev pub days_past : Json Num → Num
  days_past value = difference_in_days now (parse_iso (to_text value))

  abbrev pub days_future : Json Num → Num
  days_future value = difference_in_days (parse_iso (to_text value)) now

  abbrev pub text_clause : Json Num → ValueType → String → Option String
  text_clause value type s = compare value type (text s) (
      both_ops (λ t v. explain (same t v) (says "value is " (show t)))
        (λ t v. explain (is_same_day t v) (says "value is " (show_date t))))

  abbrev pub text_branch :
      Json Num
      → ValueType
      → (String → String → Bool)
      → String
      → Option String
      → Option (Option String)
  text_branch value type test start o =
      branch o
        (λ x. compare value type (text x) (text_ops (λ t v. explain (test t v) (says start t))))

  abbrev pub both_branch :
      Json Num
      → ValueType
      → (Scalar Num → Scalar Num → Bool)
      → String
      → (Date → Date → Bool)
      → String
      → Option (Json Num)
      → Option (Option String)
  both_branch value type test start date_test date_start o = branch o (λ x. compare value type x (
      both_ops (λ t v. explain (test t v) (says start (show t)))
        (λ t v. explain (date_test t v) (says date_start (format_date t)))))

  abbrev pub days_branch : (Num → Bool) → String → String → Option Num → Option (Option String)
  days_branch test start end o =
      branch o (λ n. explain (test n) (says start (says (show (num n)) end)))

  abbrev pub as_json : Option String → Option (Json Num)
  as_json none = none
  as_json (some s) = some (text s)

  -- The branches on the fields, in their order.
  abbrev pub field_branches : Json Num → ValueType → ClauseFields → List (Option (Option String))
  field_branches value type c =
      text_branch value type text_includes "value contains " c.contains
      ∷ when c.empty (explain (is_empty value) "value is empty")
      ∷ text_branch value type ends_with "value ends with " c.ends
      ∷ both_branch value type same "value is " is_same_day "value is on " (as_json c.equals)
      ∷ both_branch value type (λ t v. lt v t) "value is more than " (λ t v. is_after_date v t)
          "value is after " c.gt
      ∷ both_branch value type (λ t v. le v t) "value is more than or equal to "
          (λ t v. is_same_day t v || is_after_date v t) "value is on or after " c.gte
      ∷ both_branch value type lt "value is less than " (λ t v. is_before_date v t)
          "value is before " c.less
      ∷ both_branch value type le "value is less than or equal to "
          (λ t v. is_same_day t v || is_before_date v t) "value is on or before " c.lte
      ∷ both_branch value type (λ t v. not (same t v)) "value is not "
          (λ t v. not (is_same_day t v)) "value is not on " (as_json c.is_not)
      ∷ text_branch value type (λ t v. not (text_includes t v)) "value doees not contain "
          c.not_contains
      ∷ when c.not_empty (explain (not (is_empty value)) "value is not empty")
      ∷ text_branch value type starts_with "value starts with " c.starts
      ∷ days_branch (λ n. lt (num n) (num (days_past value))) "value is more than "
          " days in the past" c.before_days_past
      ∷ days_branch (λ n. lt (num (days_past value)) (num n)) "value is less than "
          " days in the past" c.after_days_past
      ∷ days_branch (λ n. lt (num (days_future value)) (num n)) "value is less than "
          " days in the future" c.before_days_future
      ∷ days_branch (λ n. lt (num n) (num (days_future value))) "value is more than "
          " days in the future" c.after_days_future
      ∷ []

  unfoldable pub test_alert_rule_clause : Json Num → ValueType → RuleClause → Option String
  test_alert_rule_clause value type (is_text s) = text_clause value type s
  test_alert_rule_clause value type (fields c) =
      or_false (first_branch (field_branches value type c))

  -- `!!rule.value`
  abbrev pub is_clause : Option RuleClause → Bool
  is_clause none = false
  is_clause (some (is_text s)) = truthy s
  is_clause (some (fields c)) = true

  unfoldable pub test_value : Json Num → ValueType → Option RuleClause → Option String
  unfolding test_alert_rule_clause
  test_value value type none = none
  test_value value type (some c) = test_alert_rule_clause value type c

  -- `results.every(Boolean) ? results.join_results(', ') : false`
  abbrev pub join_results : List (Option String) → String
  join_results [] = ""
  join_results (r ∷ []) = get_or r ""
  join_results (r ∷ s ∷ rs) = concat (get_or r "" ∷ ", " ∷ join_results (s ∷ rs) ∷ [])

  abbrev pub every_result : List (Option String) → Option String
  every_result rs = if all truthy? rs then some (join_results rs) else none

  -- `results.find(Boolean) ?? false`
  abbrev pub some_result : List (Option String) → Option String
  some_result rs = or_false (find truthy? rs)

  mutual
    pub data Rule : Type 0 where
      rule : Option RuleClause → MaybeRules → MaybeRules → Rule

    pub data MaybeRules : Type 0 where
      absent : MaybeRules
      rules : RuleList → MaybeRules

    pub data RuleList : Type 0 where
      no_rules : RuleList
      and_rule : Rule → RuleList → RuleList

  unfoldable mutual
    unfolding test_value

    pub test_alert_rule : Json Num → ValueType → Rule → Option String
    test_alert_rule value type (rule v and or) =
        let rest = or_false (or_else (test_and value type and) (test_or value type or)) in
        if is_clause v then test_value value type v else rest

    pub test_and : Json Num → ValueType → MaybeRules → Option (Option String)
    test_and value type absent = none
    test_and value type (rules rs) = some (every_result (test_rules value type rs))

    pub test_or : Json Num → ValueType → MaybeRules → Option (Option String)
    test_or value type absent = none
    test_or value type (rules rs) = some (some_result (test_rules value type rs))

    pub test_rules : Json Num → ValueType → RuleList → List (Option String)
    test_rules value type no_rules = []
    test_rules value type (and_rule r rs) = test_alert_rule value type r ∷ test_rules value type rs
