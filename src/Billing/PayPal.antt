-- ===== src/Billing/PayPal.antt =====
-- What a webhook of PayPal does to the database, of src/billing.rs.
use ponswarp_signaling_rs.Common.{
  ℕ, String, Bool, List, Option, none, some, if◌then◌else◌, ◌||◌, ◌==◌, string_eq, unwrap_or,
}
use ponswarp_signaling_rs.Database.{Database}
use ponswarp_signaling_rs.Database.Users.{bind_option, try_record_paypal_event}
use ponswarp_signaling_rs.Database.Subscriptions.{
  set_paypal_subscription_status, upsert_paypal_subscription_entitlement,
}
use ponswarp_signaling_rs.Billing.{BillingError, unavailable, bad_webhook, internal}
use ponswarp_signaling_rs.Billing.Plans.{paid_plan, parse_subscription_custom_id}
use ponswarp_signaling_rs.Billing.Webhooks.{EventJson, Delivery, Outcome, attempt, text_at}

module _ (json : EventJson) where
  open json use {Value, get, pointer, as_str, parse_uuid}

  abbrev field : Value → String → Option String
  field value key = bind_option (get value key) as_str

  unfoldable pub activate_paypal_subscription : Delivery → Value → Database → Outcome
  activate_paypal_subscription d resource db = elim (field resource "id") [
    | none ↦ (some bad_webhook, db)
    | some id ↦
        (let (sku, user_id) =
            parse_subscription_custom_id parse_uuid
              (unwrap_or (field resource "custom_id") "pro_monthly_krw_9900") in
          elim (paid_plan sku) [
            | none ↦ (some bad_webhook, db)
            | some plan ↦ attempt d.grant_fails db (
                upsert_paypal_subscription_entitlement d.fresh_user id (field resource "plan_id")
                  user_id (text_at json resource "/subscriber/email_address") d.now db)
          ])
  ]

  unfoldable pub deactivate_paypal_subscription : Delivery → Value → Database → Outcome
  deactivate_paypal_subscription d resource db = elim (field resource "id") [
    | none ↦ (some bad_webhook, db)
    | some id ↦ attempt d.grant_fails db (set_paypal_subscription_status id "inactive" d.now db)
  ]

  unfoldable pub process_paypal_event : Delivery → Value → Database → Outcome
  unfolding activate_paypal_subscription deactivate_paypal_subscription
  process_paypal_event d event db = elim (field event "id") [
    | none ↦ (some bad_webhook, db)
    | some event_id ↦ elim (field event "event_type") [
      | none ↦ (some bad_webhook, db)
      | some event_type ↦
          if d.record_fails
          then (some internal, db)
          else (let (is_new, recorded) = try_record_paypal_event event_id db in
              if is_new
              then elim (get event "resource") [
                | none ↦ (some bad_webhook, recorded)
                | some resource ↦
                    if event_type == "BILLING.SUBSCRIPTION.ACTIVATED"
                    then activate_paypal_subscription d resource recorded
                    else if event_type == "BILLING.SUBSCRIPTION.CANCELLED"
                        || event_type == "BILLING.SUBSCRIPTION.SUSPENDED"
                        || event_type == "BILLING.SUBSCRIPTION.EXPIRED"
                    then deactivate_paypal_subscription d resource recorded
                    else (none, recorded)
              ]
              else (none, recorded))
    ]
  ]

  unfoldable pub paypal_webhook :
      (validate : Value → Option BillingError)
      → Delivery
      → (has_billing has_database : Bool) → (body : List ℕ) → Database
      → Outcome
  unfolding process_paypal_event
  paypal_webhook validate d has_billing has_database body db =
      if has_billing
      then if has_database
        then elim (json.parse body) [
          | none ↦ (some bad_webhook, db)
          | some event ↦ elim (validate event) [
            | some error ↦ (some error, db)
            | none ↦ process_paypal_event d event db
          ]
        ]
        else (some unavailable, db)
      else (some unavailable, db)
