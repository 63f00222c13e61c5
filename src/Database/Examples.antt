-- ===== src/Database/Examples.antt =====
-- Statements on small tables.
use ponswarp_signaling_rs.Common.{
  true, false, List, [], ◌∷◌, none, some, ◌≡◌, refl, string_eq, arith, eq_iff, length, ◌≤◌, String,
}
use ponswarp_signaling_rs.Common.Map.{lookup, contains_key, insert}
use ponswarp_signaling_rs.Manifest.{PlanSnapshot, CloudShareManifest, CloudSharePolicyRecord}
use ponswarp_signaling_rs.Database.{ShareRow, SessionRow, PassRow, Database, empty_database, to_i64}
use ponswarp_signaling_rs.Database.Shares.{
  live_share, open_session, count_download, insert_cloud_download_session, consume_download_session,
}
use ponswarp_signaling_rs.Database.Passes.{consume_drop_pass}
use ponswarp_signaling_rs.Database.Subscriptions.{resolve_entitlement}
use ponswarp_signaling_rs.Database.Statements.{
  Statement, insert_session, consume_session, consume_pass, apply, run_statements,
}
use ponswarp_signaling_rs.Database.Downloads.{tickets, admit, Shows, consume_download_session-admit}
use ponswarp_signaling_rs.Database.Limits.{IsWithin, AreFresh}
use ponswarp_signaling_rs.Database.Admissions.{admitted, is_holder}
use ponswarp_signaling_rs.Database.Admissions.Limited.{admitted-run_statements}
use ponswarp_signaling_rs.Common.NameSet
use ponswarp_signaling_rs.Database.OneUse.{grants, consume_drop_pass-resolve_entitlement}

abbrev pub sample_plan : PlanSnapshot
sample_plan = record {
  sku = "drop_100gb_3d";
  label = "100GB Drop Pass";
  price_krw = none;
  max_total_bytes = 100;
  max_file_bytes = 100;
  retention_seconds = 60;
  download_limit = some 1;
  monthly_quota_bytes = none;
  concurrent_storage_bytes = none;
}

abbrev pub sample_row : ShareRow
sample_row = record {
  id = "share";
  owner_user_id = none;
  drop_pass_id = some "pass";
  plan_snapshot = sample_plan;
  root_name = "root";
  total_size = 10;
  total_files = 1;
  completed = true;
  password_hash = none;
  download_limit = some 1;
  download_count = 0;
  created_at = 0;
  expires_at = 60;
  deleted_at = none;
}

abbrev pub sample_session : SessionRow
sample_session = record { share_id = "share"; created_at = 1; expires_at = 60; counted_at = none }

abbrev pub sample_pass : PassRow
sample_pass = record {
  id = "pass";
  user_id = none;
  email = none;
  paypal_order_id = none;
  paypal_capture_id = none;
  stripe_checkout_session_id = none;
  lemonsqueezy_order_id = some "order";
  lemonsqueezy_checkout_ref = none;
  sku = "drop_100gb_3d";
  status = "active";
  max_total_bytes = 100;
  max_file_bytes = 100;
  retention_seconds = 60;
  remaining_uses = 1;
  created_at = 0;
  expires_at = none;
}

abbrev pub sample_database : Database
sample_database = record empty_database {
  cloud_shares = ("share", sample_row) ∷ [];
  cloud_download_sessions = ("token", sample_session) ∷ [];
  drop_passes = sample_pass ∷ [];
}

abbrev pub sample_manifest : CloudShareManifest
sample_manifest = record {
  share_id = "other";
  root_name = "root";
  total_size = 10;
  total_files = 0;
  created_at = 0;
  expires_at = 60;
  completed = false;
  files = [];
}

abbrev sample_policy : CloudSharePolicyRecord
sample_policy = record {
  plan_snapshot = sample_plan;
  owner_user_id = none;
  drop_pass_id = none;
  password_hash = none;
  download_limit = some 1;
}

starts-IsWithin : IsWithin sample_database
unfolding lookup
starts-IsWithin id row found limit e = ground (arith, found, e)

starts-uncounted : (token : String) → is_holder "share" token sample_database ≡ false
unfolding lookup
starts-uncounted token = ground (arith, eq_iff "token" token)

-- The share of the two tokens takes one download: the first token is let in twice, the second not.
abbrev two_tokens : List Statement
two_tokens =
    insert_session "share" "second" 1 60
    ∷ consume_session "share" "token" 2
    ∷ consume_session "share" "second" 3
    ∷ consume_session "share" "token" 4
    ∷ []

tokens-AreFresh : AreFresh two_tokens sample_database
unfolding contains_key lookup apply
tokens-AreFresh = (refl, (refl, (refl, (refl, tt))))

admitted_test : admitted "share" [] two_tokens sample_database ≡ "token" ∷ []
unfolding apply lookup insert contains_key open_session live_share to_i64 consume_download_session
    count_download insert_cloud_download_session NameSet.insert
admitted_test = refl

abbrev downloaded_row : ShareRow
downloaded_row = record sample_row { download_count = 1 }

row_is_downloaded :
    lookup "share" (run_statements two_tokens sample_database).cloud_shares ≡ some downloaded_row
unfolding run_statements apply lookup insert contains_key open_session live_share to_i64
    consume_download_session count_download insert_cloud_download_session
row_is_downloaded = refl

admitted-run_statements_example :
    (length (admitted "share" [] two_tokens sample_database) ≤ downloaded_row.download_count)
    × (downloaded_row.download_count ≤ 1)
unfolding lookup
admitted-run_statements_example =
    admitted-run_statements two_tokens "share" sample_database downloaded_row 1 starts-IsWithin
      (refl, tt) starts-uncounted tokens-AreFresh row_is_downloaded refl

row_is_live : live_share "share" sample_database ≡ some sample_row
unfolding live_share lookup
row_is_live = refl

session_is_open : open_session "share" "token" 2 sample_database ≡ some sample_session
unfolding open_session lookup to_i64
session_is_open = refl

consume_download_session-admit_example :
    ((consume_download_session "share" "token" 2 sample_database).0
      ≡ (admit "token" (tickets "share" sample_database sample_row)).0)
    × Shows "share"
        (consume_download_session "share" "token" 2 sample_database).1
        (admit "token" (tickets "share" sample_database sample_row)).1
consume_download_session-admit_example =
    consume_download_session-admit "share" "token" 2 sample_database sample_row sample_session
      row_is_live session_is_open

pass_is_consumed : (consume_drop_pass "pass" sample_database).0 ≡ true
unfolding consume_drop_pass
pass_is_consumed = refl

consume_drop_pass-resolve_entitlement_example :
    ((consume_drop_pass "pass"
        (run_statements (consume_pass "pass" ∷ []) (consume_drop_pass "pass" sample_database).1)).0
      ≡ false)
    × (grants "pass" (
          resolve_entitlement "order" 5 (
            run_statements (consume_pass "pass" ∷ []) (consume_drop_pass "pass" sample_database).1))
        ≡ false)
consume_drop_pass-resolve_entitlement_example =
    consume_drop_pass-resolve_entitlement "pass" "order" 5 (consume_pass "pass" ∷ [])
      sample_database ((λ _. refl), tt) pass_is_consumed refl
