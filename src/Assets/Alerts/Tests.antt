-- ===== src/Assets/Alerts/Tests.antt =====
-- src/common/alert-utils.ts: a run of the rules of alerts, with natural numbers for numbers and dates.
use shield_api.Common.{
  Option, true, ◌≡◌, refl, List, [], ◌∷◌, String, ℕ, Bool, false, none, some, ltb, leb, ◌&&◌, ◌==◌,
}
use shield_api.Products.Questions.{inspection}
use shield_api.Assets.Alerts.{
  Values, Json, null, text, number, other, Scalar, num, txt, other_type, is_text, Rule, absent,
  rules, rule, no_rules, and_rule, test_alert_rule,
}
use shield_api.Assets.Alerts.Triggers.{
  Response, Inspection, Alert, AlertCriterion, complete, alert_of, handle_alert_triggers,
}

abbrev text_of : Json ℕ → String
text_of null = "null"
text_of (text s) = s
text_of (number n) = "n"
text_of (other s) = s

abbrev compare_nums : (ℕ → ℕ → Bool) → Scalar ℕ → Scalar ℕ → Bool
compare_nums f (num a) (num b) = f a b
compare_nums f _ _ = false

abbrev is_same : Scalar ℕ → Scalar ℕ → Bool
is_same (num a) (num b) = leb a b && leb b a
is_same (txt a) (txt b) = a == b
is_same _ _ = false

abbrev shown : Scalar ℕ → String
shown (num a) = "n"
shown (txt a) = a

abbrev small : Values
small = record {
  Num = ℕ;
  Date = ℕ;
  now = 9;
  to_number = λ v. 0;
  to_text = text_of;
  lower = λ s. s;
  parse_iso = λ s. 7;
  is_same_day = λ a b. leb a b && leb b a;
  is_after_date = λ a b. ltb b a;
  is_before_date = λ a b. ltb a b;
  difference_in_days = λ a b. a;
  lt = compare_nums ltb;
  le = compare_nums leb;
  same = is_same;
  text_includes = λ v t. v == t;
  ends_with = λ v t. v == t;
  starts_with = λ v t. v == t;
  show = shown;
  show_date = λ d. "day";
  format_date = λ d. "day";
}

-- OR of "no" and of an AND of no rules
abbrev no_or_nothing : Rule small
no_or_nothing = rule none absent (
    rules (
      and_rule (rule (some (is_text "no")) absent absent)
        (and_rule (rule none (rules no_rules) absent) no_rules)))

says_no : test_alert_rule small (text "no") other_type no_or_nothing ≡ some "value is no"
unfolding test_alert_rule
says_no = refl

says_nothing :
    test_alert_rule small (text "yes") other_type (rule none (rules no_rules) absent) ≡ some ""
unfolding test_alert_rule
says_nothing = refl

abbrev empty_criterion : AlertCriterion (Rule small)
empty_criterion = record {
  id = "c";
  alert_level = "URGENT";
  auto_resolve = true;
  rule = rule none (rules no_rules) absent;
}

abbrev answer : Response small (Rule small)
answer = record {
  response_id = "r";
  value = text "yes";
  question_type = inspection;
  value_type = other_type;
  asset_alert_criteria = empty_criterion ∷ [];
}

abbrev visit : Inspection small (Rule small)
visit = record {
  inspection_id = "i";
  created_on = 1;
  modified_on = 2;
  status = complete;
  asset_id = "a";
  site_id = "s";
  client_id = "k";
  responses = answer ∷ [];
}

abbrev parse : Rule small → Option (Rule small)
parse r = some r

abbrev ids : List (Alert small) → List String
ids [] = []
ids (a ∷ rest) = a.criterion_id ∷ ids rest

abbrev blank : Alert small
blank = alert_of small parse visit answer empty_criterion ""

raises_blank : (handle_alert_triggers small parse ids false (some visit)).created ≡ (blank ∷ [])
unfolding handle_alert_triggers test_alert_rule
raises_blank = refl

queues_blank : (handle_alert_triggers small parse ids false (some visit)).queued ≡ ("c" ∷ [])
unfolding handle_alert_triggers test_alert_rule
queues_blank = refl
