-- ===== src/Billing/Deliveries.antt =====
-- Webhook events that are delivered again, or that share an identifier (src/billing.rs).
use ponswarp_signaling_rs.Common.{
  String, true, false, Option, none, some, string_eq, ◌≡◌, refl, arith, eq_iff, Bool-cases, inl,
  inr,
}
use ponswarp_signaling_rs.Common.NameSet
use ponswarp_signaling_rs.Common.Text.{◌<>◌}
use ponswarp_signaling_rs.Database.{Database}
use ponswarp_signaling_rs.Database.Users.{try_record_lemonsqueezy_event}
use ponswarp_signaling_rs.Database.Passes.{upsert_lemonsqueezy_order_entitlement}
use ponswarp_signaling_rs.Database.Subscriptions.{
  set_lemonsqueezy_subscription_status, upsert_lemonsqueezy_subscription_entitlement,
}
use ponswarp_signaling_rs.Billing.Webhooks.{
  EventJson, Delivery, text_at, event_name, process_lemonsqueezy_order,
  process_lemonsqueezy_subscription, set_lemonsqueezy_subscription_inactive,
  dispatch_lemonsqueezy_event, process_lemonsqueezy_event,
}

module _ (json : EventJson) where
  open json use {Value}

  dispatch-events :
      (d : Delivery) (event_type : String) (event : Value) (db : Database)
      → (dispatch_lemonsqueezy_event json d event_type event db).1.lemonsqueezy_events
        ≡ db.lemonsqueezy_events
  unfolding dispatch_lemonsqueezy_event process_lemonsqueezy_order process_lemonsqueezy_subscription
      set_lemonsqueezy_subscription_inactive upsert_lemonsqueezy_order_entitlement
      upsert_lemonsqueezy_subscription_entitlement set_lemonsqueezy_subscription_status
  dispatch-events d event_type event db = ground arith

  dispatch-failed :
      (d : Delivery) (event_type : String) (event : Value) (db : Database)
      → d.grant_fails ≡ true
      → (dispatch_lemonsqueezy_event json d event_type event db).1 ≡ db
  unfolding dispatch_lemonsqueezy_event process_lemonsqueezy_order process_lemonsqueezy_subscription
      set_lemonsqueezy_subscription_inactive
  dispatch-failed d event_type event db fails = ground arith

  abbrev recorded : String → Database → Database
  recorded id db = (try_record_lemonsqueezy_event id db).1

  recorded-contains :
      (id : String) (db : Database)
      → NameSet.contains id (recorded id db).lemonsqueezy_events ≡ true
  unfolding try_record_lemonsqueezy_event NameSet.contains
  recorded-contains id db = ground (arith, eq_iff id id)

  -- The identifier under which an event is recorded.
  abbrev pub HasId : Option String → Value → (event_type resource_id : String) → Type 0
  HasId name event event_type resource_id =
      (event_name json name event ≡ some event_type)
      × (text_at json event "/data/id" ≡ some resource_id)

  process-recorded :
      (d : Delivery) (name : Option String) (event : Value) (event_type resource_id : String)
      (db : Database)
      → HasId name event event_type resource_id
      → d.record_fails ≡ false
      → NameSet.contains (event_type <> ":" <> resource_id) db.lemonsqueezy_events ≡ true
      → process_lemonsqueezy_event json d name event db ≡ (none, db)
  unfolding process_lemonsqueezy_event try_record_lemonsqueezy_event
  process-recorded d name event event_type resource_id db (named, at) works known =
      rw (process_lemonsqueezy_event, named, at, works, try_record_lemonsqueezy_event, known) refl

  process-contains :
      (d : Delivery) (name : Option String) (event : Value) (event_type resource_id : String)
      (db : Database)
      → HasId name event event_type resource_id
      → d.record_fails ≡ false
      → NameSet.contains
          (event_type <> ":" <> resource_id)
          (process_lemonsqueezy_event json d name event db).1.lemonsqueezy_events
        ≡ true
  unfolding process_lemonsqueezy_event
  process-contains d name event event_type resource_id db (named, at) works =
      elim (Bool-cases (try_record_lemonsqueezy_event (event_type <> ":" <> resource_id) db).0) [
        | inl new ↦
            rw
              (
                process_lemonsqueezy_event,
                named,
                at,
                works,
                new,
                dispatch-events d event_type event (recorded (event_type <> ":" <> resource_id) db),
              )
              (recorded-contains (event_type <> ":" <> resource_id) db)
        | inr old ↦
            rw (process_lemonsqueezy_event, named, at, works, old)
              (recorded-contains (event_type <> ":" <> resource_id) db)
      ]

  -- After an event is recorded, any event of the same name about the same resource is answered
  -- without an error and changes nothing, whatever else it says: also a second update of a
  -- subscription.
  pub process_lemonsqueezy_event_again :
      (d d' : Delivery) (name name' : Option String) (event event' : Value)
      (event_type resource_id : String) (db : Database)
      → HasId name event event_type resource_id
      → HasId name' event' event_type resource_id
      → d.record_fails ≡ false
      → d'.record_fails ≡ false
      → process_lemonsqueezy_event json d' name' event'
          (process_lemonsqueezy_event json d name event db).1
        ≡ (none, (process_lemonsqueezy_event json d name event db).1)
  process_lemonsqueezy_event_again d d' name name' event event' event_type resource_id db h h' w
        w' =
      process-recorded d' name' event' event_type resource_id _ h' w'
        (process-contains d name event event_type resource_id db h w)

  try_record-rest :
      (id : String) (db : Database)
      → ((recorded id db).drop_passes ≡ db.drop_passes)
        × ((recorded id db).subscriptions ≡ db.subscriptions)
  unfolding try_record_lemonsqueezy_event
  try_record-rest id db = ground arith

  process-failed :
      (d : Delivery) (name : Option String) (event : Value) (event_type resource_id : String)
      (db : Database)
      → HasId name event event_type resource_id
      → d.grant_fails ≡ true
      → ((process_lemonsqueezy_event json d name event db).1.drop_passes ≡ db.drop_passes)
        × ((process_lemonsqueezy_event json d name event db).1.subscriptions ≡ db.subscriptions)
  unfolding process_lemonsqueezy_event
  process-failed d name event event_type resource_id db (named, at) fails =
      let id = event_type <> ":" <> resource_id in
      elim (Bool-cases d.record_fails) [
        | inl broken ↦ rw (process_lemonsqueezy_event, named, at, broken) (refl, refl)
        | inr works ↦ elim (Bool-cases (try_record_lemonsqueezy_event id db).0) [
          | inr old ↦ rw (process_lemonsqueezy_event, named, at, works, old) (try_record-rest id db)
          | inl new ↦
              rw
                (
                  process_lemonsqueezy_event,
                  named,
                  at,
                  works,
                  new,
                  dispatch-failed d event_type event (recorded id db) fails,
                )
                (try_record-rest id db)
        ]
      ]

  -- Where the statement that grants what was paid for fails after the event was recorded, no
  -- pass and no subscription is made, neither by this delivery nor by the next one of the event,
  -- which is answered without an error.
  pub process_lemonsqueezy_event_failed :
      (d d' : Delivery) (name : Option String) (event : Value) (event_type resource_id : String)
      (db : Database)
      → HasId name event event_type resource_id
      → d.record_fails ≡ false
      → d.grant_fails ≡ true
      → d'.record_fails ≡ false
      → let first = (process_lemonsqueezy_event json d name event db).1 in
        let second = process_lemonsqueezy_event json d' name event first in
        (second.0 ≡ none)
        × (second.1.drop_passes ≡ db.drop_passes)
        × (second.1.subscriptions ≡ db.subscriptions)
  process_lemonsqueezy_event_failed d d' name event event_type resource_id db h w fails w' =
      let kept = process-failed d name event event_type resource_id db h fails in
      rw
        (process_lemonsqueezy_event_again d d' name name event event event_type resource_id db h h w
          w')
        (refl, kept.0, kept.1)
