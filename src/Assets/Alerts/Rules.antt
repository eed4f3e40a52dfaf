-- ===== src/Assets/Alerts/Rules.antt =====
-- src/common/alert-utils.ts: when a rule fires.

use shield_api.Common.{
  ◌==◌, ◌≡◌, refl, ap, ap₂, ◌∙◌, inl, inr, String, Bool, true, false, not, ◌&&◌, ◌||◌, List, [],
  ◌∷◌, Option, none, some, is_some, truthy, truthy?, all, any, get_or, if◌then◌else◌, Bool-cases,
}
use shield_api.Assets.Alerts.{
  Values, Json, ValueType, or_else, RuleClause, is_text, fields, is_clause, test_value,
  every_result, some_result, or_false, join_results, Rule, RuleList, MaybeRules, absent, rules,
  rule, no_rules, and_rule, test_alert_rule, test_and, test_or, test_rules,
}
use shield_api.Assets.Alerts.Clauses.{clause_holds, clause_holds_lem}
use shield_api.Assets.Alerts.Messages.{longer, test_alert_rule_clause-Worded}

module _ (js : Values) (value : Json js.Num) (type : ValueType) where
  abbrev pub is_listed : RuleList js → Bool
  is_listed no_rules = false
  is_listed (and_rule r rs) = true

  -- A clause is given, and is not the empty text.
  abbrev pub has_clause : Option (RuleClause js) → Bool
  has_clause none = false
  has_clause (some (is_text s)) = not (s == "")
  has_clause (some (fields c)) = true

  abbrev pub value_holds : Option (RuleClause js) → Bool
  value_holds none = false
  value_holds (some c) = clause_holds js value type c

  -- What a rule means: its clause if it has one, else all rules of AND, of which there is one, else
  -- one of the rules of OR.
  mutual
    pub holds : Rule js → Bool
    holds (rule v and or) =
        let rest = get_or (or_else (holds_and and) (holds_or or)) false in
        if has_clause v then value_holds v else rest

    pub holds_and : MaybeRules js → Option Bool
    holds_and absent = none
    holds_and (rules rs) = some (is_listed rs && holds_all rs)

    pub holds_or : MaybeRules js → Option Bool
    holds_or absent = none
    holds_or (rules rs) = some (holds_any rs)

    pub holds_all : RuleList js → Bool
    holds_all no_rules = true
    holds_all (and_rule r rs) = holds r && holds_all rs

    pub holds_any : RuleList js → Bool
    holds_any no_rules = false
    holds_any (and_rule r rs) = holds r || holds_any rs

  abbrev pub is_empty_list : MaybeRules js → Bool
  is_empty_list (rules no_rules) = true
  is_empty_list _ = false

  -- A rule with no clause and with an AND of no rules.
  abbrev pub is_empty_and : Rule js → Bool
  is_empty_and (rule v and or) = not (has_clause v) && is_empty_list and

  value_holds_lem :
      (v : Option (RuleClause js)) → truthy? (test_value js value type v) ≡ value_holds v
  unfolding test_value
  value_holds_lem none = refl
  value_holds_lem (some c) =
      (test_alert_rule_clause-Worded js value type c).agree ∙ clause_holds_lem js value type c

  is_clause_lem : (v : Option (RuleClause js)) → is_clause js v ≡ has_clause v
  is_clause_lem none = refl
  is_clause_lem (some (is_text s)) = refl
  is_clause_lem (some (fields c)) = refl

  join_results-truthy :
      (r : Option String) (rs : List (Option String))
      → truthy? r ≡ true
      → truthy (join_results js (r ∷ rs)) ≡ true
  join_results-truthy none rs e = absurd (cc)
  join_results-truthy (some a) [] e = e
  join_results-truthy (some a) (s ∷ rs) e = longer a _ e

  -- The joined texts of one rule or more are not the empty text.
  every_result-truthy :
      (r : Option String) (rs : List (Option String))
      → (truthy? (every_result js (r ∷ rs)) ≡ all truthy? (r ∷ rs))
        × (is_some (every_result js (r ∷ rs)) ≡ all truthy? (r ∷ rs))
  every_result-truthy r rs = elim (Bool-cases (truthy? r)) [
    | inl e ↦ elim (Bool-cases (all truthy? rs)) [
      | inl f ↦ rw (e, f) (join_results-truthy r rs e, refl)
      | inr f ↦ rw (e, f) (refl, refl)
    ]
    | inr e ↦ rw e (refl, refl)
  ]

  some_result-truthy :
      (rs : List (Option String))
      → (truthy? (some_result js rs) ≡ any truthy? rs)
        × (is_some (some_result js rs) ≡ any truthy? rs)
  some_result-truthy [] = (refl, refl)
  some_result-truthy (none ∷ rs) = some_result-truthy rs
  some_result-truthy (some a ∷ rs) = elim (Bool-cases (truthy a)) [
    | inl e ↦ rw e (e, refl)
    | inr e ↦ rw e (some_result-truthy rs)
  ]

  if-truthy :
      (b : Bool) (p q : Option String) (h k : Bool)
      → truthy? p ≡ h
      → truthy? q ≡ k
      → truthy? (if b then p else q) ≡ (if b then h else k)
  if-truthy true p q h k e f = e
  if-truthy false p q h k e f = f

  abbrev listed : MaybeRules js → RuleList js
  listed absent = no_rules
  listed (rules rs) = rs

  rest_holds :
      (and or : MaybeRules js)
      → all truthy? (test_rules js value type (listed and)) ≡ holds_all (listed and)
      → any truthy? (test_rules js value type (listed or)) ≡ holds_any (listed or)
      → truthy? (or_false (or_else (test_and js value type and) (test_or js value type or)))
        ≡ get_or (or_else (holds_and and) (holds_or or)) false
  unfolding test_alert_rule holds
  rest_holds absent absent h k = refl
  rest_holds absent (rules rs) h k = (some_result-truthy (test_rules js value type rs)).0 ∙ k
  rest_holds (rules no_rules) or h k = refl
  rest_holds (rules (and_rule r rs)) or h k =
      (every_result-truthy (test_alert_rule js value type r) (test_rules js value type rs)).0 ∙ h

  mutual
    unfolding test_alert_rule holds

    rule_holds : (r : Rule js) → truthy? (test_alert_rule js value type r) ≡ holds r
    rule_holds (rule v and or) =
        if-truthy (is_clause js v) _ _ _ _ (value_holds_lem v)
          (rest_holds and or (and_holds and) (or_holds or))
        ∙ ap
            (λ b. if b then value_holds v else get_or (or_else (holds_and and) (holds_or or)) false)
            (is_clause_lem v)

    and_holds :
        (rs : MaybeRules js)
        → all truthy? (test_rules js value type (listed rs)) ≡ holds_all (listed rs)
    and_holds absent = refl
    and_holds (rules rs) = all_holds rs

    or_holds :
        (rs : MaybeRules js)
        → any truthy? (test_rules js value type (listed rs)) ≡ holds_any (listed rs)
    or_holds absent = refl
    or_holds (rules rs) = any_holds rs

    all_holds : (rs : RuleList js) → all truthy? (test_rules js value type rs) ≡ holds_all rs
    all_holds no_rules = refl
    all_holds (and_rule r rs) = ap₂ ◌&&◌ (rule_holds r) (all_holds rs)

    any_holds : (rs : RuleList js) → any truthy? (test_rules js value type rs) ≡ holds_any rs
    any_holds no_rules = refl
    any_holds (and_rule r rs) = ap₂ ◌||◌ (rule_holds r) (any_holds rs)
