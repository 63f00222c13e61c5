-- ===== src/Billing/Examples.antt =====
-- Webhooks at concrete headers and events.
use ponswarp_signaling_rs.Common.{
  ℕ, String, List, [], ◌∷◌, length, Option, none, some, ◌≡◌, refl, ◌↔◌, Bool, true, false, ◌&&◌,
  nat_beq, if◌then◌else◌, ◌==◌, string_eq,
}
use ponswarp_signaling_rs.Common.Text.{trim, as_bytes, ◌<>◌}
use ponswarp_signaling_rs.Common.NameSet
use ponswarp_signaling_rs.Billing.Plans.{paid_plan}
use ponswarp_signaling_rs.Database.Passes.{upsert_lemonsqueezy_order_entitlement}
use ponswarp_signaling_rs.Database.{Database, empty_database}
use ponswarp_signaling_rs.Database.Users.{try_record_lemonsqueezy_event}
use ponswarp_signaling_rs.Billing.Webhooks.{
  EventJson, Delivery, custom_data_string, process_lemonsqueezy_event,
}
use ponswarp_signaling_rs.Billing.Deliveries.{
  HasId, process_lemonsqueezy_event_again, process_lemonsqueezy_event_failed,
}
use ponswarp_signaling_rs.Billing.{
  BillingError, internal, hex_to_bytes, IsHexText, validate_lemonsqueezy_webhook,
  validate_lemonsqueezy_webhook_lem,
}

tests :
    (hex_to_bytes "0aF" ≡ none)
    × (hex_to_bytes "0g" ≡ none)
    × (hex_to_bytes "0AfF" ≡ some (10 ∷ 255 ∷ []))
unfolding hex_to_bytes as_bytes trim
tests = (refl, refl, refl)

-- A code that repeats the body.
abbrev repeats : String → List ℕ → List ℕ → Bool
repeats secret (a ∷ b ∷ []) (c ∷ d ∷ []) = nat_beq a c && nat_beq b d
repeats secret _ _ = false

abbrev sample_body : List ℕ
sample_body = 10 ∷ 255 ∷ []

validate_lemonsqueezy_webhook_lem_example :
    (validate_lemonsqueezy_webhook repeats (some "key") (some "0aff") sample_body ≡ none)
    ↔ (key : String) × (signature : String) × (provided : List ℕ) × (some "key" ≡ some key)
      × (some "0aff" ≡ some signature)
      × IsHexText (as_bytes (trim signature)) provided
      × (repeats key sample_body provided ≡ true)
validate_lemonsqueezy_webhook_lem_example =
    validate_lemonsqueezy_webhook_lem repeats (some "key") (some "0aff") sample_body

-- Events that are texts, all about the same resource.
abbrev text_events : EventJson
text_events = record {
  Value = String;
  get = λ _ _. none;
  pointer = λ event path. if path == "/data/id" then some event else none;
  as_str = λ event. some event;
  number_text = λ _. none;
  parse = λ _. none;
  parse_uuid = λ _. none;
}

abbrev sample_delivery : Bool → Delivery
sample_delivery fails = record {
  now = 10;
  fresh = "pass";
  fresh_user = "user";
  record_fails = false;
  grant_fails = fails;
}

event-HasId : HasId text_events (some "order_created") "7" "order_created" "7"
event-HasId = (refl, refl)

process_lemonsqueezy_event_again_example :
    process_lemonsqueezy_event text_events
      (sample_delivery false)
      (some "order_created")
      "7"
      (process_lemonsqueezy_event text_events
        (sample_delivery false)
        (some "order_created")
        "7"
        empty_database).1
    ≡ (
      none,
      (process_lemonsqueezy_event text_events
          (sample_delivery false)
          (some "order_created")
          "7"
          empty_database).1,
    )
process_lemonsqueezy_event_again_example =
    process_lemonsqueezy_event_again text_events (sample_delivery false) (sample_delivery false)
      (some "order_created") (some "order_created") "7" "7" "order_created" "7" empty_database
      event-HasId event-HasId refl refl

-- A paid order of a pass, with the reference of its checkout.
abbrev order_text : String → Option String
order_text path =
    if path == "/data/id"
    then some "7"
    else if path == "/data/attributes/status"
    then some "paid"
    else if path == "/meta/custom_data/sku"
    then some "drop_100gb_3d"
    else if path == "/meta/custom_data/checkout_ref"
    then some "ref"
    else none

abbrev order_events : EventJson
order_events = record {
  Value = String;
  get = λ _ _. none;
  pointer = λ _ path. order_text path;
  as_str = λ value. some value;
  number_text = λ _. none;
  parse = λ _. none;
  parse_uuid = λ _. none;
}

abbrev deliver : Bool → Database → Option BillingError × Database
deliver fails db =
    process_lemonsqueezy_event order_events (sample_delivery fails) (some "order_created") "order"
      db

-- The order makes a pass where the statement that grants it works, and is an error where it fails.
order_tests :
    (length (deliver false empty_database).1.drop_passes ≡ 1)
    × ((deliver false empty_database).0 ≡ none)
    × ((deliver true empty_database).0 ≡ some internal)
    × ((deliver true empty_database).1.lemonsqueezy_events ≡ "order_created:7" ∷ [])
unfolding process_lemonsqueezy_event try_record_lemonsqueezy_event custom_data_string
    NameSet.contains ◌<>◌ paid_plan upsert_lemonsqueezy_order_entitlement
order_tests = (refl, refl, refl, refl)

process_lemonsqueezy_event_failed_example :
    let first = (deliver true empty_database).1 in
    let second = deliver false first in
    (second.0 ≡ none) × (second.1.drop_passes ≡ []) × (second.1.subscriptions ≡ [])
process_lemonsqueezy_event_failed_example =
    process_lemonsqueezy_event_failed order_events (sample_delivery true) (sample_delivery false)
      (some "order_created") "order" "order_created" "7" empty_database (refl, refl) refl refl refl
