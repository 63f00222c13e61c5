-- ===== src/Database/Passes.antt =====
-- Drop passes: bought, found and used up, of src/database.rs.

use ponswarp_signaling_rs.Common.{
  ℕ, ◌+◌, ◌*◌, ◌-◌, ◌^◌, String, Bool, true, false, ◌&&◌, ◌||◌, List, [], ◌∷◌, Option, none, some,
  ltb, if◌then◌else◌, ◌==◌, string_eq,
}
use ponswarp_signaling_rs.Manifest.{EntitlementRecord}
use ponswarp_signaling_rs.Database.{to_i64, PassRow, Database}
use ponswarp_signaling_rs.Database.Users.{
  holds, normalize_email, bind_option, user_id_for_email, upsert,
}

-- `saturating_add` on `u64`.
abbrev pub saturating_add : ℕ → ℕ → ℕ
saturating_add a b = if ltb (a + b) (2 ^ 64) then a + b else 2 ^ 64 - 1

unfoldable pub paid_label : String → String
paid_label sku =
    if sku == "drop_100gb_3d"
    then "100GB Drop Pass"
    else if sku == "drop_500gb_7d"
    then "500GB Drop Pass"
    else if sku == "drop_1tb_7d"
    then "1TB Drop Pass"
    else "Cloud Drop Pass"

unfoldable pub drop_pass_download_limit : String → Option ℕ
drop_pass_download_limit sku =
    if sku == "drop_100gb_3d"
    then some 10
    else if sku == "drop_500gb_7d"
    then some 20
    else if sku == "drop_1tb_7d"
    then some 30
    else some 30

-- An order that was paid for: who paid it, and what it is worth.
pub record OrderEntitlement : Type 0 where
  pub user_id : Option String
  pub email : Option String
  pub sku : String
  pub max_total_bytes : ℕ
  pub max_file_bytes : ℕ
  pub retention_seconds : ℕ
  pub created_at : ℕ

abbrev pub month : ℕ
month = 30 * 24 * 60 * 60

-- The columns that a conflict overwrites; a pass that is used up stays so, and the count of its
-- uses is left alone.
abbrev pub renewed : Option String → OrderEntitlement → PassRow → PassRow
renewed user_id input row = record row {
  user_id = user_id;
  email = bind_option input.email normalize_email;
  sku = input.sku;
  status = if row.status == "consumed" then row.status else "active";
  max_total_bytes = to_i64 input.max_total_bytes;
  max_file_bytes = to_i64 input.max_file_bytes;
  retention_seconds = to_i64 input.retention_seconds;
  expires_at = some (to_i64 (saturating_add input.created_at month));
}

abbrev pub new_pass : (fresh : String) → Option String → OrderEntitlement → PassRow
new_pass fresh user_id input = record {
  id = fresh;
  user_id = user_id;
  email = bind_option input.email normalize_email;
  paypal_order_id = none;
  paypal_capture_id = none;
  stripe_checkout_session_id = none;
  lemonsqueezy_order_id = none;
  lemonsqueezy_checkout_ref = none;
  sku = input.sku;
  status = "active";
  max_total_bytes = to_i64 input.max_total_bytes;
  max_file_bytes = to_i64 input.max_file_bytes;
  retention_seconds = to_i64 input.retention_seconds;
  remaining_uses = 1;
  created_at = to_i64 input.created_at;
  expires_at = some (to_i64 (saturating_add input.created_at month));
}

-- The user that pays: the one given, or the one of the email.
unfoldable pub paying_user :
    (fresh : String) → Option String → Option String → ℕ → Database → Option String × Database
unfolding user_id_for_email
paying_user fresh none email created_at db = user_id_for_email fresh email db
paying_user fresh (some user_id) email created_at db = (some user_id, db)

unfoldable pub upsert_paypal_order_entitlement :
    (fresh fresh_user paypal_order_id paypal_capture_id : String)
    → OrderEntitlement
    → Database
    → Database
unfolding upsert paying_user to_i64 normalize_email
upsert_paypal_order_entitlement fresh fresh_user order capture input db =
    let (user_id, known) = paying_user fresh_user input.user_id input.email input.created_at db in
    record known {
      drop_passes =
          upsert (λ (row : PassRow). holds row.paypal_order_id order)
            (λ row. record (renewed user_id input row) { paypal_capture_id = some capture })
            (record (new_pass fresh user_id input) {
              paypal_order_id = some order;
              paypal_capture_id = some capture;
            })
            db.drop_passes;
    }

unfoldable pub upsert_lemonsqueezy_order_entitlement :
    (fresh fresh_user lemonsqueezy_order_id lemonsqueezy_checkout_ref : String)
    → OrderEntitlement
    → Database
    → Database
unfolding upsert paying_user to_i64 normalize_email
upsert_lemonsqueezy_order_entitlement fresh fresh_user order checkout_ref input db =
    let (user_id, known) = paying_user fresh_user input.user_id input.email input.created_at db in
    record known {
      drop_passes =
          upsert (λ (row : PassRow). holds row.lemonsqueezy_checkout_ref checkout_ref)
            (λ row. record (renewed user_id input row) { lemonsqueezy_order_id = some order })
            (record (new_pass fresh user_id input) {
              lemonsqueezy_order_id = some order;
              lemonsqueezy_checkout_ref = some checkout_ref;
            })
            db.drop_passes;
    }

-- A row is found by any of its references, while it can be used.
abbrev pub pass_matches : String → ℕ → PassRow → Bool
pass_matches token now row =
    (holds row.paypal_order_id token
      || holds row.stripe_checkout_session_id token
      || holds row.lemonsqueezy_order_id token
      || holds row.lemonsqueezy_checkout_ref token)
    && row.status == "active"
    && ltb 0 row.remaining_uses
    && elim row.expires_at [ none ↦ true | some expires_at ↦ ltb (to_i64 now) expires_at ]

abbrev pub pass_entitlement : PassRow → EntitlementRecord
pass_entitlement row = record {
  owner_user_id = row.user_id;
  drop_pass_id = some row.id;
  sku = row.sku;
  label = paid_label row.sku;
  max_total_bytes = row.max_total_bytes;
  max_file_bytes = row.max_file_bytes;
  retention_seconds = row.retention_seconds;
  download_limit = drop_pass_download_limit row.sku;
  monthly_quota_bytes = none;
  concurrent_storage_bytes = none;
}

abbrev pub is_unused : String → PassRow → Bool
is_unused id row = row.id == id && row.status == "active" && ltb 0 row.remaining_uses

-- The update of the rows of a pass that can be used; whether there was one is the result.
unfoldable pub consume_rows : String → List PassRow → Bool × List PassRow
consume_rows id [] = (false, [])
consume_rows id (row ∷ rows) =
    let (changed, others) = consume_rows id rows in
    if is_unused id row
    then (true, record row { status = "consumed"; remaining_uses = 0 } ∷ others)
    else (changed, row ∷ others)

unfoldable pub consume_drop_pass : String → Database → Bool × Database
unfolding consume_rows
consume_drop_pass id db =
    let (changed, rows) = consume_rows id db.drop_passes in
    (changed, record db { drop_passes = rows })
