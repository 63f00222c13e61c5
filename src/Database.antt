-- ===== src/Database.antt =====
-- The tables of the database, of src/database.rs and src/migrations/, as far as cloud shares,
-- drop passes and subscriptions need them. A table is a map by its primary or unique key, and a
-- statement is a function on the tables. All that is stored as a `bigint` comes from a `u64`.
pub mod Shares
pub mod Users
pub mod Passes
pub mod Subscriptions
pub mod Statements
pub mod Downloads
pub mod Limits
pub mod Admissions
pub mod OneUse
pub mod Examples
use ponswarp_signaling_rs.Common.{
  ℕ, String, Bool, List, [], Option, ltb, leb, if◌then◌else◌, ◌^◌, ◌-◌,
}
use ponswarp_signaling_rs.Common.Map.{Map}
use ponswarp_signaling_rs.Manifest.{PlanSnapshot}

-- `i64::try_from(value).unwrap_or(i64::MAX)`.
unfoldable pub to_i64 : ℕ → ℕ
to_i64 value = if ltb value (2 ^ 63) then value else 2 ^ 63 - 1

unfoldable pub to_i32 : ℕ → ℕ
to_i32 value = if ltb value (2 ^ 31) then value else 2 ^ 31 - 1

pub record ShareRow : Type 0 where
  pub id : String
  pub owner_user_id : Option String
  pub drop_pass_id : Option String
  pub plan_snapshot : PlanSnapshot
  pub root_name : String
  pub total_size : ℕ
  pub total_files : ℕ
  pub completed : Bool
  pub password_hash : Option String
  pub download_limit : Option ℕ
  pub download_count : ℕ
  pub created_at : ℕ
  pub expires_at : ℕ
  pub deleted_at : Option ℕ

pub record FileRow : Type 0 where
  pub id : String
  pub share_id : String
  pub name : String
  pub path : String
  pub size : ℕ
  pub content_type : String
  pub last_modified : Option ℕ
  pub object_key : String

pub record SessionRow : Type 0 where
  pub share_id : String
  pub created_at : ℕ
  pub expires_at : ℕ
  pub counted_at : Option ℕ

pub record UsageEvent : Type 0 where
  pub user_id : Option String
  pub share_id : String
  pub bytes : ℕ
  pub created_at : ℕ

pub record PassRow : Type 0 where
  pub id : String
  pub user_id : Option String
  pub email : Option String
  pub paypal_order_id : Option String
  pub paypal_capture_id : Option String
  pub stripe_checkout_session_id : Option String
  pub lemonsqueezy_order_id : Option String
  pub lemonsqueezy_checkout_ref : Option String
  pub sku : String
  pub status : String
  pub max_total_bytes : ℕ
  pub max_file_bytes : ℕ
  pub retention_seconds : ℕ
  pub remaining_uses : ℕ
  pub created_at : ℕ
  pub expires_at : Option ℕ

pub record SubscriptionRow : Type 0 where
  pub user_id : String
  pub paypal_subscription_id : Option String
  pub paypal_plan_id : Option String
  pub stripe_checkout_session_id : Option String
  pub lemonsqueezy_subscription_id : Option String
  pub lemonsqueezy_checkout_ref : Option String
  pub lemonsqueezy_variant_id : Option String
  pub lemonsqueezy_customer_id : Option String
  pub payment_update_url : Option String
  pub status : String
  pub created_at : ℕ
  pub updated_at : ℕ

-- Of the columns of the former payment provider, which are never written, only the one that is
-- read is here. Passes and subscriptions are
-- lists, since several of their columns are unique; events are the identifiers that are recorded.
pub record Database : Type 0 where
  pub users : Map String String
  pub cloud_shares : Map String ShareRow
  pub cloud_share_files : Map String FileRow
  pub cloud_download_sessions : Map String SessionRow
  pub cloud_usage_events : List UsageEvent
  pub drop_passes : List PassRow
  pub subscriptions : List SubscriptionRow
  pub paypal_events : List String
  pub lemonsqueezy_events : List String

abbrev pub empty_database : Database
empty_database = record {
  users = [];
  cloud_shares = [];
  cloud_share_files = [];
  cloud_download_sessions = [];
  cloud_usage_events = [];
  drop_passes = [];
  subscriptions = [];
  paypal_events = [];
  lemonsqueezy_events = [];
}
