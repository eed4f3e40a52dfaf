-- ===== src/Assets/Alerts/Clauses.antt =====
-- src/common/alert-utils.ts: when a clause holds of an answer, without its messages.
use shield_api.Common.{
  ◌≡◌, refl, ap, ap₂, ◌∙◌, String, Bool, true, false, not, ◌||◌, ◌==◌, List, [], ◌∷◌, Option, none,
  some, is_some, map,
}
use shield_api.Assets.Alerts.{
  Values, Json, null, text, number, other, Scalar, num, txt, ValueType, date_type, number_type,
  other_type, explain, compare, ClauseFields, RuleClause, is_text, fields, first_branch, or_false,
  says, is_empty, text_branch, both_branch, days_branch, when, as_json, text_ops, both_ops,
  field_branches, test_alert_rule_clause,
}

module _ (js : Values) (value : Json js.Num) (type : ValueType) where
  open js use {
    Num, Date, now, to_number, to_text, lower, parse_iso, is_same_day, is_after_date,
    is_before_date, difference_in_days, lt, le, same, text_includes, ends_with, starts_with,
  }

  -- An answer that is not given, or is the empty text.
  abbrev pub is_blank : Json Num → Bool
  is_blank null = true
  is_blank (text s) = s == ""
  is_blank (number n) = false
  is_blank (other s) = false

  -- A test on texts, in lower case: the bound, then the answer. It is false of dates and numbers.
  abbrev pub on_texts : ValueType → (String → String → Bool) → String → Bool
  on_texts date_type test bound = false
  on_texts number_type test bound = false
  on_texts other_type test bound = test (lower (to_text (text bound))) (lower (to_text value))

  -- A test by the type of the answers: of days, of numbers, or of texts in lower case.
  abbrev pub by_type :
      ValueType → (Scalar Num → Scalar Num → Bool) → (Date → Date → Bool) → Json Num → Bool
  by_type date_type test date_test bound =
      date_test (parse_iso (to_text bound)) (parse_iso (to_text value))
  by_type number_type test date_test bound = test (num (to_number bound)) (num (to_number value))
  by_type other_type test date_test bound =
      test (txt (lower (to_text bound))) (txt (lower (to_text value)))

  abbrev pub given : {A : Type 0} → Option A → (A → Bool) → Option Bool
  given none test = none
  given (some x) test = some (test x)

  abbrev pub is_given : Bool → Bool → Option Bool
  is_given true test = some test
  is_given false test = none

  abbrev given_text : Option String → (Json Num → Bool) → Option Bool
  given_text none test = none
  given_text (some s) test = some (test (text s))

  abbrev pub days_ago : Num
  days_ago = difference_in_days now (parse_iso (to_text value))

  abbrev pub days_ahead : Num
  days_ahead = difference_in_days (parse_iso (to_text value)) now

  -- What each field asks, in the order in which they are looked at. Of numbers and texts, `gt` asks
  -- for an answer below the bound, as the code does, and of dates for one after it.
  abbrev pub conditions : ClauseFields js → List (Option Bool)
  conditions c =
      given c.contains (on_texts type text_includes)
      ∷ is_given c.empty (is_blank value)
      ∷ given c.ends (on_texts type ends_with)
      ∷ given_text c.equals (by_type type same is_same_day)
      ∷ given c.gt (by_type type (λ t v. lt v t) (λ t v. is_after_date v t))
      ∷ given c.gte (by_type type (λ t v. le v t) (λ t v. is_same_day t v || is_after_date v t))
      ∷ given c.less (by_type type lt (λ t v. is_before_date v t))
      ∷ given c.lte (by_type type le (λ t v. is_same_day t v || is_before_date v t))
      ∷ given_text c.is_not (by_type type (λ t v. not (same t v)) (λ t v. not (is_same_day t v)))
      ∷ given c.not_contains (on_texts type (λ t v. not (text_includes t v)))
      ∷ is_given c.not_empty (not (is_blank value))
      ∷ given c.starts (on_texts type starts_with)
      ∷ given c.before_days_past (λ n. lt (num n) (num days_ago))
      ∷ given c.after_days_past (λ n. lt (num days_ago) (num n))
      ∷ given c.before_days_future (λ n. lt (num days_ahead) (num n))
      ∷ given c.after_days_future (λ n. lt (num n) (num days_ahead))
      ∷ []

  -- The first field that is given decides; none holds of nothing.
  abbrev pub first_given : List (Option Bool) → Bool
  first_given [] = false
  first_given (none ∷ rest) = first_given rest
  first_given (some b ∷ rest) = b

  abbrev pub clause_holds : RuleClause js → Bool
  clause_holds (is_text s) = by_type type same is_same_day (text s)
  clause_holds (fields c) = first_given (conditions c)

  abbrev told : Option (Option String) → Option Bool
  told none = none
  told (some r) = some (is_some r)

  told_lem :
      (bs : List (Option (Option String)))
      → is_some (or_false (first_branch bs)) ≡ first_given (map told bs)
  told_lem [] = refl
  told_lem (none ∷ bs) = told_lem bs
  told_lem (some r ∷ bs) = refl

  told-explain : (b : Bool) (m : String) → is_some (explain b m) ≡ b
  told-explain true m = refl
  told-explain false m = refl

  is_blank_lem : is_empty js value ≡ is_blank value
  is_blank_lem = elim value [ null ↦ refl | text s ↦ refl | number n ↦ refl | other s ↦ refl ]

  told-both :
      (test : Scalar Num → Scalar Num → Bool) (date_test : Date → Date → Bool)
      (m : Scalar Num → String) (n : Date → String) (bound : Json Num)
      → is_some (
          compare js value type bound
            (both_ops js (λ t v. explain (test t v) (m t)) (λ t v. explain (date_test t v) (n t))))
        ≡ by_type type test date_test bound
  told-both test date_test m n bound =
      elim type
        as (λ k.
          is_some (
            compare js value k bound (
              both_ops js (λ t v. explain (test t v) (m t)) (λ t v. explain (date_test t v) (n t))))
          ≡ by_type k test date_test bound) [
            | date_type ↦ told-explain _ _
            | number_type ↦ told-explain _ _
            | other_type ↦ told-explain _ _
          ]

  told-text :
      (test : String → String → Bool) (m : String → String) (bound : String)
      → is_some (compare js value type (text bound) (text_ops js (λ t v. explain (test t v) (m t))))
        ≡ on_texts type test bound
  told-text test m bound =
      elim type
        as (λ k.
          is_some (compare js value k (text bound) (text_ops js (λ t v. explain (test t v) (m t))))
          ≡ on_texts k test bound) [
            | date_type ↦ refl
            | number_type ↦ refl
            | other_type ↦ told-explain _ _
          ]

  told-text_branch :
      (test : String → String → Bool) (start : String) (o : Option String)
      → told (text_branch js value type test start o) ≡ given o (on_texts type test)
  told-text_branch test start none = refl
  told-text_branch test start (some x) = ap some (told-text test (says start) x)

  told-both_branch :
      (test : Scalar Num → Scalar Num → Bool) (start : String) (date_test : Date → Date → Bool)
      (date_start : String) (o : Option (Json Num))
      → told (both_branch js value type test start date_test date_start o)
        ≡ given o (by_type type test date_test)
  told-both_branch test start date_test date_start none = refl
  told-both_branch test start date_test date_start (some x) = ap some (
      told-both test date_test (λ t. says start (js.show t))
        (λ t. says date_start (js.format_date t)) x)

  given-as_json :
      (o : Option String) (test : Json Num → Bool) → given (as_json js o) test ≡ given_text o test
  given-as_json none test = refl
  given-as_json (some s) test = refl

  told-days_branch :
      (test : Num → Bool) (start end : String) (o : Option Num)
      → told (days_branch js test start end o) ≡ given o test
  told-days_branch test start end none = refl
  told-days_branch test start end (some n) = ap some (told-explain _ _)

  told-when : (b test : Bool) (m : String) → told (when js b (explain test m)) ≡ is_given b test
  told-when true test m = ap some (told-explain test m)
  told-when false test m = refl

  told-field_branches :
      (c : ClauseFields js) → map told (field_branches js value type c) ≡ conditions c
  told-field_branches c = cons (told-text_branch text_includes _ c.contains) (
      cons (told-when c.empty _ _ ∙ ap (is_given c.empty) is_blank_lem) (
        cons (told-text_branch ends_with _ c.ends) (
          cons
            (told-both_branch same _ is_same_day _ (as_json js c.equals) ∙ given-as_json c.equals _)
            (cons (told-both_branch (λ t v. lt v t) _ (λ t v. is_after_date v t) _ c.gt) (
              cons
                (told-both_branch (λ t v. le v t) _ (λ t v. is_same_day t v || is_after_date v t) _
                  c.gte)
                (cons (told-both_branch lt _ (λ t v. is_before_date v t) _ c.less) (
                  cons
                    (told-both_branch le _ (λ t v. is_same_day t v || is_before_date v t) _ c.lte)
                    (cons
                      (told-both_branch (λ t v. not (same t v)) _ (λ t v. not (is_same_day t v)) _
                          (as_json js c.is_not)
                        ∙ given-as_json c.is_not _)
                      (cons (told-text_branch (λ t v. not (text_includes t v)) _ c.not_contains) (
                        cons
                          (told-when c.not_empty _ _
                            ∙ ap (λ b. is_given c.not_empty (not b)) is_blank_lem)
                          (cons (told-text_branch starts_with _ c.starts) (
                            cons
                              (told-days_branch _ "value is more than " " days in the past"
                                c.before_days_past)
                              (cons
                                (told-days_branch _ "value is less than " " days in the past"
                                  c.after_days_past)
                                (cons
                                  (told-days_branch _ "value is less than " " days in the future"
                                    c.before_days_future)
                                  (cons
                                    (told-days_branch _ "value is more than " " days in the future"
                                      c.after_days_future)
                                    refl)))))))))))))))
    where
      cons :
          {a b : Option Bool} {xs ys : List (Option Bool)}
          → a ≡ b
          → xs ≡ ys
          → ◌≡◌ {A = List (Option Bool)} (a ∷ xs) (b ∷ ys)
      cons e f = ap₂ ◌∷◌ e f

  -- A clause gives a text just when it holds.
  pub clause_holds_lem :
      (c : RuleClause js) → is_some (test_alert_rule_clause js value type c) ≡ clause_holds c
  unfolding test_alert_rule_clause
  clause_holds_lem (is_text s) =
      told-both same is_same_day (λ t. says "value is " (js.show t))
        (λ t. says "value is " (js.show_date t)) (text s)
  clause_holds_lem (fields c) =
      told_lem (field_branches js value type c) ∙ ap first_given (told-field_branches c)
