-- ===== src/Assets/Alerts/Triggers.antt =====
-- src/assets/assets/assets.service.ts: handleAlertTriggers, the alerts of an inspection. The parser of
-- rules and the identifiers of the rows that the database makes are arguments.
pub mod Raising
use shield_api.Common.{
  ◌≡◌, Bool, true, false, not, List, [], ◌∷◌, Option, none, some, String, filter, flat_map,
  if◌then◌else◌,
}
use shield_api.Products.Questions.{
  QuestionType, configuration, setup, inspection, setup_and_inspection,
}
use shield_api.Assets.Alerts.{Values, Json, ValueType, Rule, test_alert_rule}

pub data InspectionStatus : Type 0 where
  pending complete : InspectionStatus

abbrev pub is_inspection : QuestionType → Bool
is_inspection configuration = false
is_inspection setup = false
is_inspection inspection = true
is_inspection setup_and_inspection = true

abbrev pub is_complete : InspectionStatus → Bool
is_complete pending = false
is_complete complete = true

abbrev pub is_nil : {A : Type 0} → List A → Bool
is_nil [] = true
is_nil (x ∷ xs) = false

pub record AlertCriterion (Stored : Type 0) : Type 0 where
  pub id : String
  pub alert_level : String
  pub auto_resolve : Bool
  pub rule : Stored

module _ (js : Values) where
  pub record Response (Stored : Type 0) : Type 0 where
    pub response_id : String
    pub value : Json js.Num
    pub question_type : QuestionType
    pub value_type : ValueType
    pub asset_alert_criteria : List (AlertCriterion Stored)

  pub record Inspection (Stored : Type 0) : Type 0 where
    pub inspection_id : String
    pub created_on : js.Date
    pub modified_on : js.Date
    pub status : InspectionStatus
    pub asset_id : String
    pub site_id : String
    pub client_id : String
    pub responses : List (Response Stored)

  -- Prisma.AlertCreateManyInput
  pub record Alert : Type 0 where
    pub created_on : js.Date
    pub modified_on : js.Date
    pub alert_level : String
    pub message : String
    pub resolved : Bool
    pub resolved_on : Option js.Date
    pub resolution_note : Option String
    pub asset_id : String
    pub inspection_id : String
    pub response_id : String
    pub criterion_id : String
    pub site_id : String
    pub client_id : String

  -- What a call leaves: the new alerts and the alerts whose e-mails are queued.
  pub record Triggered : Type 0 where
    pub created : List Alert
    pub queued : List String

  module _ {Stored : Type 0} (safe_parse : Stored → Option (Rule js)) where
    abbrev pub alert_of :
        Inspection Stored → Response Stored → AlertCriterion Stored → String → Alert
    alert_of i r c m = record {
      created_on = i.created_on;
      modified_on = i.modified_on;
      alert_level = c.alert_level;
      message = m;
      resolved = c.auto_resolve;
      resolved_on = if c.auto_resolve then some js.now else none;
      resolution_note = if c.auto_resolve then some "Auto-resolved by system." else none;
      asset_id = i.asset_id;
      inspection_id = i.inspection_id;
      response_id = r.response_id;
      criterion_id = c.id;
      site_id = i.site_id;
      client_id = i.client_id;
    }

    -- A rule that does not parse gives `false`.
    abbrev pub result_of : Response Stored → Option (Rule js) → Option String
    result_of r none = none
    result_of r (some x) = test_alert_rule js r.value r.value_type x

    abbrev pub with_message :
        Inspection Stored → Response Stored → AlertCriterion Stored → Option String → List Alert
    with_message i r c none = []
    with_message i r c (some m) = alert_of i r c m ∷ []

    abbrev pub response_alerts : Inspection Stored → Response Stored → List Alert
    response_alerts i r =
        flat_map (λ c. with_message i r c (result_of r (safe_parse c.rule))) r.asset_alert_criteria

    abbrev pub create_inputs : Inspection Stored → List Alert
    create_inputs i =
        flat_map (response_alerts i) (filter (λ r. is_inspection r.question_type) i.responses)

    abbrev pub nothing : Triggered
    nothing = record { created = []; queued = [] }

    -- The part of handleAlertTriggers that follows its createInputs.
    abbrev pub save : (List Alert → List String) → Bool → List Alert → Triggered
    save create_many skip_notifications inputs = if is_nil inputs then nothing else record {
      created = inputs;
      queued = if skip_notifications then [] else create_many inputs;
    }

    unfoldable pub handle_alert_triggers :
        (List Alert → List String) → Bool → Option (Inspection Stored) → Triggered
    handle_alert_triggers create_many skip_notifications none = nothing
    handle_alert_triggers create_many skip_notifications (some i) =
        if not (is_complete i.status)
        then nothing
        else save create_many skip_notifications (create_inputs i)
