-- ===== src/Billing/Webhooks.antt =====
-- What a webhook of Lemon Squeezy does to the database, of src/billing.rs.
use ponswarp_signaling_rs.Common.{
  ℕ, String, Bool, List, Option, none, some, if◌then◌else◌, ◌||◌, ◌==◌, string_eq, unwrap_or,
}
use ponswarp_signaling_rs.Common.Text.{◌<>◌}
use ponswarp_signaling_rs.Database.{Database}
use ponswarp_signaling_rs.Database.Users.{bind_option, try_record_lemonsqueezy_event}
use ponswarp_signaling_rs.Database.Passes.{OrderEntitlement, upsert_lemonsqueezy_order_entitlement}
use ponswarp_signaling_rs.Database.Subscriptions.{
  or_else, LemonSqueezySubscription, set_lemonsqueezy_subscription_status,
  upsert_lemonsqueezy_subscription_entitlement,
}
use ponswarp_signaling_rs.Billing.{
  BillingError, unavailable, bad_webhook, internal, validate_lemonsqueezy_webhook,
}
use ponswarp_signaling_rs.Billing.Plans.{
  PaidPlan, payment, subscription, paid_plan, lemonsqueezy_subscription_status,
}

-- What the code asks of a JSON value: `get`, `pointer`, `as_str`, and the text of a number. `parse`
-- reads a body, and `parse_uuid` an identifier.
pub record EventJson : Type 1 where
  pub Value : Type 0
  pub get : Value → String → Option Value
  pub pointer : Value → String → Option Value
  pub as_str : Value → Option String
  pub number_text : Value → Option String
  pub parse : List ℕ → Option Value
  pub parse_uuid : String → Option String

-- The clock, the identifiers that are made, and which of the two statements fail.
pub record Delivery : Type 0 where
  pub now : ℕ
  pub fresh : String
  pub fresh_user : String
  pub record_fails : Bool
  pub grant_fails : Bool

-- The error of a request, `none` if there is none, and the database afterwards.
abbrev pub Outcome : Type 0
Outcome = Option BillingError × Database

-- A statement of the database: `map_err(BillingError::internal)`.
abbrev pub attempt : (fails : Bool) → Database → Database → Outcome
attempt fails db changed = if fails then (some internal, db) else (none, changed)

module _ (json : EventJson) where
  open json use {Value, get, pointer, as_str, number_text, parse_uuid}

  unfoldable pub value_to_string : Value → Option String
  value_to_string value = or_else (as_str value) (number_text value)

  unfoldable pub custom_data_string : Value → String → Option String
  unfolding value_to_string
  custom_data_string event key =
      bind_option (pointer event ("/meta/custom_data/" <> key)) value_to_string

  abbrev pub text_at : Value → String → Option String
  text_at event path = bind_option (pointer event path) as_str

  abbrev order_of : Delivery → Value → PaidPlan → OrderEntitlement
  order_of d event plan = record {
    user_id = bind_option (custom_data_string event "user_id") parse_uuid;
    email = text_at event "/data/attributes/user_email";
    sku = plan.sku;
    max_total_bytes = plan.max_total_bytes;
    max_file_bytes = plan.max_file_bytes;
    retention_seconds = plan.retention_seconds;
    created_at = d.now;
  }

  unfoldable pub process_lemonsqueezy_order : Delivery → Value → Database → Outcome
  unfolding custom_data_string
  process_lemonsqueezy_order d event db =
      if unwrap_or (text_at event "/data/attributes/status") "" == "paid"
      then elim (custom_data_string event "sku") [
        | none ↦ (some bad_webhook, db)
        | some sku ↦ elim (paid_plan sku) [
          | none ↦ (some bad_webhook, db)
          | some plan ↦ elim plan.checkout_mode [
            | subscription ↦ (none, db)
            | payment ↦ elim (custom_data_string event "checkout_ref") [
              | none ↦ (some bad_webhook, db)
              | some checkout_ref ↦ elim (text_at event "/data/id") [
                | none ↦ (some bad_webhook, db)
                | some order_id ↦ attempt d.grant_fails db (
                    upsert_lemonsqueezy_order_entitlement d.fresh d.fresh_user order_id checkout_ref
                      (order_of d event plan) db)
              ]
            ]
          ]
        ]
      ]
      else (none, db)

  abbrev subscription_of : Delivery → Value → String → LemonSqueezySubscription
  subscription_of d event id = record {
    id = id;
    checkout_ref = custom_data_string event "checkout_ref";
    variant_id = bind_option (pointer event "/data/attributes/variant_id") value_to_string;
    customer_id = bind_option (pointer event "/data/attributes/customer_id") value_to_string;
    payment_update_url = text_at event "/data/attributes/urls/update_payment_method";
    status =
        lemonsqueezy_subscription_status
          (unwrap_or (text_at event "/data/attributes/status") "inactive");
    user_id = bind_option (custom_data_string event "user_id") parse_uuid;
    email = text_at event "/data/attributes/user_email";
    created_at = d.now;
  }

  unfoldable pub process_lemonsqueezy_subscription : Delivery → Value → Database → Outcome
  unfolding custom_data_string value_to_string
  process_lemonsqueezy_subscription d event db =
      elim (paid_plan (unwrap_or (custom_data_string event "sku") "pro_monthly_krw_9900")) [
        | none ↦ (some bad_webhook, db)
        | some plan ↦ elim plan.checkout_mode [
          | payment ↦ (none, db)
          | subscription ↦ elim (text_at event "/data/id") [
            | none ↦ (some bad_webhook, db)
            | some id ↦ attempt d.grant_fails db (
                upsert_lemonsqueezy_subscription_entitlement d.fresh_user
                  (subscription_of d event id) db)
          ]
        ]
      ]

  unfoldable pub set_lemonsqueezy_subscription_inactive : Delivery → Value → Database → Outcome
  set_lemonsqueezy_subscription_inactive d event db = elim (text_at event "/data/id") [
    | none ↦ (some bad_webhook, db)
    | some id ↦
        attempt d.grant_fails db (set_lemonsqueezy_subscription_status id "inactive" d.now db)
  ]

  -- The dispatch on the name of an event that is new.
  unfoldable pub dispatch_lemonsqueezy_event :
      Delivery → (event_type : String) → Value → Database → Outcome
  unfolding process_lemonsqueezy_order process_lemonsqueezy_subscription
      set_lemonsqueezy_subscription_inactive
  dispatch_lemonsqueezy_event d event_type event db =
      if event_type == "order_created"
      then process_lemonsqueezy_order d event db
      else if event_type == "subscription_created" || event_type == "subscription_updated"
      then process_lemonsqueezy_subscription d event db
      else if event_type == "subscription_cancelled"
          || event_type == "subscription_expired"
          || event_type == "subscription_paused"
      then set_lemonsqueezy_subscription_inactive d event db
      else if event_type == "subscription_resumed"
      then process_lemonsqueezy_subscription d event db
      else (none, db)

  -- `name` is the value of the header `x-event-name`.
  abbrev pub event_name : Option String → Value → Option String
  event_name name event = or_else name (text_at event "/meta/event_name")

  unfoldable pub process_lemonsqueezy_event :
      Delivery → (name : Option String) → Value → Database → Outcome
  unfolding dispatch_lemonsqueezy_event
  process_lemonsqueezy_event d name event db = elim (event_name name event) [
    | none ↦ (some bad_webhook, db)
    | some event_type ↦ elim (text_at event "/data/id") [
      | none ↦ (some bad_webhook, db)
      | some resource_id ↦
          if d.record_fails
          then (some internal, db)
          else (let (is_new, recorded) =
                try_record_lemonsqueezy_event (event_type <> ":" <> resource_id) db in
              if is_new
              then dispatch_lemonsqueezy_event d event_type event recorded
              else (none, recorded))
    ]
  ]

  -- The request: `secret` is there if billing is set up, and so is the database; `signature` and
  -- `name` are the headers.
  unfoldable pub lemonsqueezy_webhook :
      (verify_slice : String → List ℕ → List ℕ → Bool)
      → Delivery
      → (has_billing has_database : Bool) → (secret signature name : Option String)
      → (body : List ℕ) → Database
      → Outcome
  unfolding process_lemonsqueezy_event validate_lemonsqueezy_webhook
  lemonsqueezy_webhook verify_slice d has_billing has_database secret signature name body db =
      if has_billing
      then if has_database
        then elim (validate_lemonsqueezy_webhook verify_slice secret signature body) [
          | some error ↦ (some error, db)
          | none ↦ elim (json.parse body) [
            | none ↦ (some bad_webhook, db)
            | some event ↦ process_lemonsqueezy_event d name event db
          ]
        ]
        else (some unavailable, db)
      else (some unavailable, db)
