-- ===== src/Database/Subscriptions.antt =====
-- Subscriptions, and what a token entitles to, of src/database.rs.

use ponswarp_signaling_rs.Common.{
  ℕ, ◌+◌, ◌*◌, String, Bool, ◌&&◌, ◌||◌, not, List, [], ◌∷◌, Option, none, some, ltb, leb,
  if◌then◌else◌, ◌==◌, string_eq, is_some, unwrap_or,
}
use ponswarp_signaling_rs.Common.Map.{Map}
use ponswarp_signaling_rs.Manifest.{EntitlementRecord, CloudUsageRecord}
use ponswarp_signaling_rs.Database.{to_i64, ShareRow, UsageEvent, SubscriptionRow, Database}
use ponswarp_signaling_rs.Database.Users.{
  holds, normalize_email, bind_option, user_id_for_email, paypal_local_email,
  lemonsqueezy_local_email, upsert, find,
}
use ponswarp_signaling_rs.Database.Passes.{pass_matches, pass_entitlement}

abbrev pub tb : ℕ
tb = 1024 * 1024 * 1024 * 1024

abbrev pub subscription_matches : String → SubscriptionRow → Bool
subscription_matches token row =
    (holds row.paypal_subscription_id token
      || holds row.stripe_checkout_session_id token
      || holds row.lemonsqueezy_subscription_id token
      || holds row.lemonsqueezy_checkout_ref token)
    && (row.status == "active" || row.status == "trialing")

abbrev pub subscription_entitlement : SubscriptionRow → EntitlementRecord
subscription_entitlement row = record {
  owner_user_id = some row.user_id;
  drop_pass_id = none;
  sku = "pro_monthly_krw_9900";
  label = "PonsWarp Pro";
  max_total_bytes = tb;
  max_file_bytes = tb;
  retention_seconds = 7 * 24 * 60 * 60;
  download_limit = some 30;
  monthly_quota_bytes = some (2 * tb);
  concurrent_storage_bytes = some tb;
}

unfoldable pub resolve_entitlement : (token : String) → ℕ → Database → Option EntitlementRecord
unfolding find to_i64
resolve_entitlement token now db = elim (find (pass_matches token now) db.drop_passes) [
  | some row ↦ some (pass_entitlement row)
  | none ↦ elim (find (subscription_matches token) db.subscriptions) [
    | some row ↦ some (subscription_entitlement row)
    | none ↦ none
  ]
]

unfoldable pub completed_bytes : String → ℕ → List UsageEvent → ℕ
completed_bytes user_id start [] = 0
completed_bytes user_id start (usage ∷ rest) =
    (if holds usage.user_id user_id && leb start usage.created_at then usage.bytes else 0)
    + completed_bytes user_id start rest

unfoldable pub reserved_bytes : String → ℕ → Map String ShareRow → ℕ
reserved_bytes user_id now [] = 0
reserved_bytes user_id now ((id, row) ∷ rest) =
    (if holds row.owner_user_id user_id && not (is_some row.deleted_at) && ltb now row.expires_at
      then row.total_size
      else 0)
    + reserved_bytes user_id now rest

unfoldable pub cloud_usage_for_user : String → (start now : ℕ) → Database → CloudUsageRecord
unfolding completed_bytes reserved_bytes to_i64
cloud_usage_for_user user_id start now db = record {
  monthly_completed_bytes = completed_bytes user_id (to_i64 start) db.cloud_usage_events;
  active_reserved_bytes = reserved_bytes user_id (to_i64 now) db.cloud_shares;
}

-- `subscription_id` finds the rows of a provider.
unfoldable pub set_status :
    (SubscriptionRow → Option String)
    → String
    → (status : String) → ℕ
    → List SubscriptionRow
    → List SubscriptionRow
set_status subscription_id id status updated_at [] = []
set_status subscription_id id status updated_at (row ∷ rows) =
    (if holds (subscription_id row) id
      then record row { status = status; updated_at = to_i64 updated_at }
      else row)
    ∷ set_status subscription_id id status updated_at rows

unfoldable pub set_paypal_subscription_status : String → String → ℕ → Database → Database
unfolding set_status
set_paypal_subscription_status id status updated_at db = record db {
  subscriptions =
      set_status (λ (row : SubscriptionRow). row.paypal_subscription_id) id status updated_at
        db.subscriptions;
}

unfoldable pub set_lemonsqueezy_subscription_status : String → String → ℕ → Database → Database
unfolding set_status
set_lemonsqueezy_subscription_status id status updated_at db = record db {
  subscriptions =
      set_status (λ (row : SubscriptionRow). row.lemonsqueezy_subscription_id) id status updated_at
        db.subscriptions;
}

-- The user of a subscription: the one given, the one of the email, or the one of a local address.
unfoldable pub subscribing_user :
    (fresh : String)
    → Option String
    → Option String
    → (local_email : String) → Database
    → String × Database
unfolding user_id_for_email normalize_email
subscribing_user fresh (some user_id) email local_email db = (user_id, db)
subscribing_user fresh none email local_email db =
    let address = unwrap_or (bind_option email normalize_email) local_email in
    let (user_id, known) = user_id_for_email fresh (some address) db in
    (unwrap_or user_id fresh, known)

unfoldable pub upsert_paypal_subscription_entitlement :
    (fresh_user id : String)
    → (plan_id user_id email : Option String) → (created_at : ℕ) → Database
    → Database
unfolding upsert subscribing_user paypal_local_email to_i64
upsert_paypal_subscription_entitlement fresh_user id plan_id user_id email created_at db =
    let (user, known) = subscribing_user fresh_user user_id email (paypal_local_email id) db in
    let made : SubscriptionRow = record {
      user_id = user;
      paypal_subscription_id = some id;
      paypal_plan_id = plan_id;
      stripe_checkout_session_id = none;
      lemonsqueezy_subscription_id = none;
      lemonsqueezy_checkout_ref = none;
      lemonsqueezy_variant_id = none;
      lemonsqueezy_customer_id = none;
      payment_update_url = none;
      status = "active";
      created_at = to_i64 created_at;
      updated_at = to_i64 created_at;
    } in
    record known {
      subscriptions =
          upsert (λ (row : SubscriptionRow). holds row.paypal_subscription_id id)
            (λ row. record row {
              user_id = user;
              paypal_plan_id = plan_id;
              status = "active";
              updated_at = to_i64 created_at;
            })
            made db.subscriptions;
    }

pub record LemonSqueezySubscription : Type 0 where
  pub id : String
  pub checkout_ref : Option String
  pub variant_id : Option String
  pub customer_id : Option String
  pub payment_update_url : Option String
  pub status : String
  pub user_id : Option String
  pub email : Option String
  pub created_at : ℕ

abbrev pub or_else {ℓ} : {A : Type ℓ} → Option A → Option A → Option A
or_else none other = other
or_else (some a) other = some a

-- The periods of the callers are always null, and are left out.
unfoldable pub upsert_lemonsqueezy_subscription_entitlement :
    (fresh_user : String) → LemonSqueezySubscription → Database → Database
unfolding upsert subscribing_user lemonsqueezy_local_email to_i64
upsert_lemonsqueezy_subscription_entitlement fresh_user input db =
    let (user, known) =
      subscribing_user fresh_user input.user_id input.email (lemonsqueezy_local_email input.id)
        db in
    let made : SubscriptionRow = record {
      user_id = user;
      paypal_subscription_id = none;
      paypal_plan_id = none;
      stripe_checkout_session_id = none;
      lemonsqueezy_subscription_id = some input.id;
      lemonsqueezy_checkout_ref = input.checkout_ref;
      lemonsqueezy_variant_id = input.variant_id;
      lemonsqueezy_customer_id = input.customer_id;
      payment_update_url = input.payment_update_url;
      status = input.status;
      created_at = to_i64 input.created_at;
      updated_at = to_i64 input.created_at;
    } in
    record known {
      subscriptions =
          upsert (λ (row : SubscriptionRow). holds row.lemonsqueezy_subscription_id input.id)
            (λ row. record row {
              user_id = user;
              lemonsqueezy_checkout_ref = or_else input.checkout_ref row.lemonsqueezy_checkout_ref;
              lemonsqueezy_variant_id = input.variant_id;
              lemonsqueezy_customer_id = input.customer_id;
              payment_update_url = input.payment_update_url;
              status = input.status;
              updated_at = to_i64 input.created_at;
            })
            made db.subscriptions;
    }
