-- ===== src/Database/Statements.antt =====
-- Sequences of the statements that src/database.rs sends.
use ponswarp_signaling_rs.Common.{ℕ, String, List, [], ◌∷◌, Option}
use ponswarp_signaling_rs.Manifest.{CloudShareManifest, CloudSharePolicyRecord}
use ponswarp_signaling_rs.Database.{Database}
use ponswarp_signaling_rs.Database.Shares.{
  insert_cloud_share, insert_cloud_download_session, consume_download_session,
  mark_cloud_share_completed, mark_cloud_share_deleted,
}
use ponswarp_signaling_rs.Database.Users.{try_record_paypal_event, try_record_lemonsqueezy_event}
use ponswarp_signaling_rs.Database.Passes.{
  OrderEntitlement, upsert_paypal_order_entitlement, upsert_lemonsqueezy_order_entitlement,
  consume_drop_pass,
}
use ponswarp_signaling_rs.Database.Subscriptions.{
  LemonSqueezySubscription, set_paypal_subscription_status, set_lemonsqueezy_subscription_status,
  upsert_paypal_subscription_entitlement, upsert_lemonsqueezy_subscription_entitlement,
}

-- The statements that write.
pub data Statement : Type 0 where
  insert_share : CloudShareManifest → CloudSharePolicyRecord → Statement
  insert_session : (share_id token_hash : String) → (created_at expires_at : ℕ) → Statement
  consume_session : (share_id token_hash : String) → (now : ℕ) → Statement
  complete_share : (share_id : String) → (total_size created_at : ℕ) → Statement
  delete_share : (share_id : String) → (deleted_at : ℕ) → Statement
  consume_pass : (id : String) → Statement
  paypal_order : (fresh fresh_user order capture : String) → OrderEntitlement → Statement
  lemonsqueezy_order : (fresh fresh_user order checkout_ref : String) → OrderEntitlement → Statement
  paypal_subscription :
      (fresh_user id : String)
      → (plan_id user_id email : Option String) → (created_at : ℕ) → Statement
  lemonsqueezy_subscription : (fresh_user : String) → LemonSqueezySubscription → Statement
  paypal_status : (id status : String) → (updated_at : ℕ) → Statement
  lemonsqueezy_status : (id status : String) → (updated_at : ℕ) → Statement
  paypal_event : (id : String) → Statement
  lemonsqueezy_event : (id : String) → Statement

unfoldable pub apply : Statement → Database → Database
apply (insert_share manifest policy) db = insert_cloud_share manifest policy db
apply (insert_session share h created expires) db =
    insert_cloud_download_session share h created expires db
apply (consume_session share h now) db = (consume_download_session share h now db).1
apply (complete_share share size created) db = mark_cloud_share_completed share size created db
apply (delete_share share at) db = mark_cloud_share_deleted share at db
apply (consume_pass id) db = (consume_drop_pass id db).1
apply (paypal_order fresh user order capture input) db =
    upsert_paypal_order_entitlement fresh user order capture input db
apply (lemonsqueezy_order fresh user order checkout_ref input) db =
    upsert_lemonsqueezy_order_entitlement fresh user order checkout_ref input db
apply (paypal_subscription user id plan_id user_id email created_at) db =
    upsert_paypal_subscription_entitlement user id plan_id user_id email created_at db
apply (lemonsqueezy_subscription user input) db =
    upsert_lemonsqueezy_subscription_entitlement user input db
apply (paypal_status id status at) db = set_paypal_subscription_status id status at db
apply (lemonsqueezy_status id status at) db = set_lemonsqueezy_subscription_status id status at db
apply (paypal_event id) db = (try_record_paypal_event id db).1
apply (lemonsqueezy_event id) db = (try_record_lemonsqueezy_event id db).1

unfoldable pub run_statements : List Statement → Database → Database
run_statements [] db = db
run_statements (statement ∷ rest) db = run_statements rest (apply statement db)
