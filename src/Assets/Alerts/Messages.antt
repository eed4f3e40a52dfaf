-- ===== src/Assets/Alerts/Messages.antt =====
-- src/common/alert-utils.ts: the messages of clauses are not empty.
use Prim.Native.String
use package.text.Mathlib.TextLemmas.{cons-append, cons-ne-nil}
use shield_api.Common.{
  ◌≡◌, refl, sym, ◌∙◌, inl, inr, String, Bool, true, false, not, ◌||◌, List, [], ◌∷◌, Option, none,
  some, is_some, truthy, truthy?, All, ◌==◌, eq_iff, Bool-cases,
}
use shield_api.Assets.Alerts.{
  Values, Json, text, Scalar, ValueType, date_type, number_type, other_type, explain, or_else,
  branch, compare, ClauseFields, RuleClause, is_text, fields, says, is_empty, days_past,
  days_future, text_branch, both_branch, days_branch, as_json, first_branch, field_branches, num,
  test_alert_rule_clause, text_ops, both_ops, when, or_false,
}

-- A result is the empty text only if it is `false`.
pub record Worded (r : Option String) : Type 0 where
  pub agree : truthy? r ≡ is_some r

pub longer : (a b : String) → truthy a ≡ true → truthy (String.◌++◌ a b) ≡ true
longer String.[] b e = absurd (cc)
longer (String.◌∷◌ c a) b e = elim (Bool-cases (String.◌++◌ (String.◌∷◌ c a) b == "")) [
  | inl f ↦ absurd (cons-ne-nil c (String.◌++◌ a b) (sym (cons-append c a b) ∙ (eq_iff _ "").0 f))
  | inr f ↦ rw f refl
]

explain-Worded : (b : Bool) (m : String) → truthy m ≡ true → Worded (explain b m)
explain-Worded true m e = record { agree = e }
explain-Worded false m e = record { agree = refl }

record WordedBranch (p : Option (Option String)) : Type 0 where
  worded : Worded (or_false p)

or_else-Worded :
    (p q : Option (Option String)) → WordedBranch p → WordedBranch q → WordedBranch (or_else p q)
or_else-Worded none q hp hq = hq
or_else-Worded (some r) q hp hq = hp

branch-Worded :
    {A : Type 0} (o : Option A) (f : A → Option String)
    → ((x : A) → Worded (f x))
    → WordedBranch (branch o f)
branch-Worded none f h = record { worded = record { agree = refl } }
branch-Worded (some x) f h = record { worded = h x }

when-Worded : (js : Values) (b : Bool) (r : Option String) → Worded r → WordedBranch (when js b r)
when-Worded js true r h = record { worded = h }
when-Worded js false r h = record { worded = record { agree = refl } }

module _ (js : Values) where
  open js use {
    Num, is_same_day, is_after_date, is_before_date, lt, le, same, text_includes, ends_with,
    starts_with, show, show_date,
  }

  text_ops-Worded :
      (value : Json Num) (type : ValueType) (x : Json Num) (f : String → String → Option String)
      → ((t v : String) → Worded (f t v))
      → Worded (compare js value type x (text_ops js f))
  text_ops-Worded value date_type x f h = record { agree = refl }
  text_ops-Worded value number_type x f h = record { agree = refl }
  text_ops-Worded value other_type x f h = h _ _

  both_ops-Worded :
      (value : Json Num) (type : ValueType) (x : Json Num)
      (f : Scalar Num → Scalar Num → Option String) (d : js.Date → js.Date → Option String)
      → ((t v : Scalar Num) → Worded (f t v))
      → ((t v : js.Date) → Worded (d t v))
      → Worded (compare js value type x (both_ops js f d))
  both_ops-Worded value date_type x f d h k = k _ _
  both_ops-Worded value number_type x f d h k = h _ _
  both_ops-Worded value other_type x f d h k = h _ _

  text_branch-Worded :
      (value : Json Num) (type : ValueType) (test : String → String → Bool) (start : String)
      (o : Option String)
      → truthy start ≡ true
      → WordedBranch (text_branch js value type test start o)
  text_branch-Worded value type test start o h = branch-Worded o _ (λ x.
      text_ops-Worded value type (text x) (λ t v. explain (test t v) (says start t))
        (λ t v. explain-Worded (test t v) (says start t) (longer start _ h)))

  both_branch-Worded :
      (value : Json Num) (type : ValueType) (test : Scalar Num → Scalar Num → Bool) (start : String)
      (date_test : js.Date → js.Date → Bool) (date_start : String) (o : Option (Json Num))
      → truthy start ≡ true
      → truthy date_start ≡ true
      → WordedBranch (both_branch js value type test start date_test date_start o)
  both_branch-Worded value type test start date_test date_start o h k = branch-Worded o _ (λ x.
      both_ops-Worded value type x (λ t v. explain (test t v) (says start (js.show t)))
        (λ t v. explain (date_test t v) (says date_start (js.format_date t)))
        (λ t v. explain-Worded (test t v) (says start (js.show t)) (longer start _ h))
        (λ t v.
          explain-Worded (date_test t v) (says date_start (js.format_date t))
            (longer date_start _ k)))

  days_branch-Worded :
      (test : Num → Bool) (start end : String) (o : Option Num)
      → truthy start ≡ true
      → WordedBranch (days_branch js test start end o)
  days_branch-Worded test start end o h =
      branch-Worded o _
        (λ n. explain-Worded (test n) (says start (says (js.show (num n)) end)) (longer start _ h))

  when_branch-Worded :
      (b test : Bool) (m : String) → truthy m ≡ true → WordedBranch (when js b (explain test m))
  when_branch-Worded b test m h = when-Worded js b (explain test m) (explain-Worded test m h)

  first_branch-Worded :
      (bs : List (Option (Option String))) → All WordedBranch bs → WordedBranch (first_branch bs)
  first_branch-Worded [] h = record { worded = record { agree = refl } }
  first_branch-Worded (b ∷ bs) (h, hs) =
      or_else-Worded b (first_branch bs) h (first_branch-Worded bs hs)

  field_branches-Worded :
      (value : Json Num) (type : ValueType) (c : ClauseFields js)
      → All WordedBranch (field_branches js value type c)
  field_branches-Worded value type c = (
    text_branch-Worded value type text_includes "value contains " c.contains refl,
    (
      when_branch-Worded c.empty (is_empty js value) "value is empty" refl,
      (
        text_branch-Worded value type ends_with "value ends with " c.ends refl,
        (
          both_branch-Worded value type same "value is " is_same_day "value is on "
              (as_json js c.equals) refl refl,
          (
            both_branch-Worded value type (λ t v. lt v t) "value is more than "
                (λ t v. is_after_date v t) "value is after " c.gt refl refl,
            (
              both_branch-Worded value type (λ t v. le v t) "value is more than or equal to "
                  (λ t v. is_same_day t v || is_after_date v t) "value is on or after " c.gte refl
                  refl,
              (
                both_branch-Worded value type lt "value is less than " (λ t v. is_before_date v t)
                    "value is before " c.less refl refl,
                (
                  both_branch-Worded value type le "value is less than or equal to "
                      (λ t v. is_same_day t v || is_before_date v t) "value is on or before " c.lte
                      refl refl,
                  (
                    both_branch-Worded value type (λ t v. not (same t v)) "value is not "
                        (λ t v. not (is_same_day t v)) "value is not on " (as_json js c.is_not) refl
                        refl,
                    (
                      text_branch-Worded value type (λ t v. not (text_includes t v))
                          "value doees not contain " c.not_contains refl,
                      (
                        when_branch-Worded c.not_empty (not (is_empty js value))
                            "value is not empty" refl,
                        (
                          text_branch-Worded value type starts_with "value starts with " c.starts
                              refl,
                          (
                            days_branch-Worded (λ n. lt (num n) (num (days_past js value)))
                                "value is more than " " days in the past" c.before_days_past refl,
                            (
                              days_branch-Worded (λ n. lt (num (days_past js value)) (num n))
                                  "value is less than " " days in the past" c.after_days_past refl,
                              (
                                days_branch-Worded (λ n. lt (num (days_future js value)) (num n))
                                    "value is less than " " days in the future" c.before_days_future
                                    refl,
                                (
                                  days_branch-Worded (λ n. lt (num n) (num (days_future js value)))
                                      "value is more than " " days in the future"
                                      c.after_days_future refl,
                                  tt,
                                ),
                              ),
                            ),
                          ),
                        ),
                      ),
                    ),
                  ),
                ),
              ),
            ),
          ),
        ),
      ),
    ),
  )

  pub test_alert_rule_clause-Worded :
      (value : Json Num) (type : ValueType) (c : RuleClause js)
      → Worded (test_alert_rule_clause js value type c)
  unfolding test_alert_rule_clause
  test_alert_rule_clause-Worded value type (is_text s) =
      both_ops-Worded value type (text s) (λ t v. explain (same t v) (says "value is " (show t)))
        (λ t v. explain (is_same_day t v) (says "value is " (show_date t)))
        (λ t v. explain-Worded (same t v) (says "value is " (show t)) (longer "value is " _ refl))
        (λ t v.
          explain-Worded (is_same_day t v) (says "value is " (show_date t))
            (longer "value is " _ refl))
  test_alert_rule_clause-Worded value type (fields c) =
      (first_branch-Worded (field_branches js value type c)
        (field_branches-Worded value type c)).worded
