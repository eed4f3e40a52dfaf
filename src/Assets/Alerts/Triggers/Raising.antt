-- ===== src/Assets/Alerts/Triggers/Raising.antt =====
-- src/assets/assets/assets.service.ts: which alerts handleAlertTriggers makes.
use shield_api.Common.{◌⊎◌, ◌≡◌, true, false, ◌||◌, Option, none, some, String, In}
use shield_api.Products.Questions.{inspection, setup_and_inspection}
use shield_api.Assets.Alerts.{Values, Rule, test_alert_rule}
use shield_api.Assets.Alerts.Rules.{holds, is_empty_and}
use shield_api.Assets.Alerts.Triggers.{Response, Inspection, AlertCriterion, Alert}

module _ (js : Values) {Stored : Type 0} (safe_parse : Stored → Option (Rule js)) where
  -- An answer to an inspection question and a criterion of that question raise the alert.
  pub record Raises (i : Inspection js Stored) (a : Alert js) : Type 0 where
    pub response : Response js Stored
    pub criterion : AlertCriterion Stored
    pub alert_rule : Rule js
    pub message : String
    pub of_inspection : In response i.responses
    pub inspects :
        (response.question_type ≡ inspection) ⊎ (response.question_type ≡ setup_and_inspection)
    pub of_question : In criterion response.asset_alert_criteria
    pub parsed : safe_parse criterion.rule ≡ some alert_rule
    pub fires :
        (holds js response.value response.value_type alert_rule
          || is_empty_and js response.value response.value_type alert_rule)
        ≡ true
    pub told : test_alert_rule js response.value response.value_type alert_rule ≡ some message
    pub its_message : a.message ≡ message
    pub its_level : a.alert_level ≡ criterion.alert_level
    pub its_times : (a.created_on ≡ i.created_on) × (a.modified_on ≡ i.modified_on)
    pub its_place :
        (a.asset_id ≡ i.asset_id) × (a.site_id ≡ i.site_id) × (a.client_id ≡ i.client_id)
    pub its_cause :
        (a.inspection_id ≡ i.inspection_id)
        × (a.response_id ≡ response.response_id)
        × (a.criterion_id ≡ criterion.id)
    -- A criterion with autoResolve makes an alert that is resolved now, with a note, any other one an
    -- open alert.
    pub its_resolution :
        ((criterion.auto_resolve ≡ true)
          × (a.resolved ≡ true)
          × (a.resolved_on ≡ some js.now)
          × (a.resolution_note ≡ some "Auto-resolved by system."))
        ⊎ ((criterion.auto_resolve ≡ false)
            × (a.resolved ≡ false)
            × (a.resolved_on ≡ none)
            × (a.resolution_note ≡ none))
