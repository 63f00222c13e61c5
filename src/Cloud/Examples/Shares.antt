-- ===== src/Cloud/Examples/Shares.antt =====
-- Requests about cloud shares in a small setting.
use ponswarp_signaling_rs.Common.{
  ℕ, ◌+◌, ◌-◌, ◌*◌, ◌≤◌, ◌<◌, String, true, [], ◌∷◌, none, some, string_eq, ◌≡◌, refl, arith,
}
use ponswarp_signaling_rs.Common.Map.{lookup, insert}
use ponswarp_signaling_rs.Common.Text.{is_empty, trim}
use ponswarp_signaling_rs.Manifest.{EntitlementRecord}
use ponswarp_signaling_rs.Database.{FileRow, to_i64}
use ponswarp_signaling_rs.Database.Examples.{
  sample_row, sample_session, sample_plan, sample_database,
}
use ponswarp_signaling_rs.Database.Shares.{
  live_share, open_session, consume_download_session, count_download, files_of, read_cloud_share,
  cloud_share_access,
}
use ponswarp_signaling_rs.Database.Subscriptions.{
  cloud_usage_for_user, completed_bytes, reserved_bytes,
}
use ponswarp_signaling_rs.Cloud.Examples.{sample_setting}
use ponswarp_signaling_rs.Cloud.World.{World, Result, ok, err}
use ponswarp_signaling_rs.Cloud.Multipart.{presign}
use ponswarp_signaling_rs.Cloud.Secrets.{token_hash, keyed_digest, hex}
use ponswarp_signaling_rs.Cloud.Storage.{find_file, read_share_manifest, reject_expired}
use ponswarp_signaling_rs.Cloud.Access.{given, download_cloud_file_inner, authorize_file_download}
use ponswarp_signaling_rs.Cloud.Access.Download.{download_cloud_file_inner-consume_download_session}
use ponswarp_signaling_rs.Cloud.Policy.{
  CreateCloudFileRequest, CreateCloudShareRequest, ResolvedCloudPolicy, validate_create_request,
  sum_sizes, enforce_paid_usage_limits, check_usage,
}
use ponswarp_signaling_rs.Cloud.Policy.Accepted.{
  IsWithinPolicy, validate_create_request-IsWithinPolicy, enforce_paid_usage_limits-ok,
}

abbrev file_of_share : FileRow
file_of_share = record {
  id = "file";
  share_id = "share";
  name = "a.txt";
  path = "a.txt";
  size = 10;
  content_type = "text/plain";
  last_modified = none;
  object_key = "key";
}

-- The session is stored by the digest of its token.
abbrev pub shared_world : World
shared_world = record {
  tick = 0;
  database = record sample_database {
    cloud_share_files = ("file", file_of_share) ∷ [];
    cloud_download_sessions = ("0aff", sample_session) ∷ [];
  };
  manifests = [];
  objects = ("key", 10) ∷ [];
}

abbrev text_of : Result String → String
text_of (ok text) = text
text_of (err _) = ""

abbrev download : Result String × World
download = download_cloud_file_inner sample_setting "share" "file" (some "token") shared_world

share_is_live : live_share "share" shared_world.database ≡ some sample_row
unfolding live_share lookup
share_is_live = refl

is_downloaded :
    download_cloud_file_inner sample_setting "share" "file" (some "token") shared_world
    ≡ (ok (text_of download.0), download.1)
unfolding download_cloud_file_inner read_share_manifest reject_expired authorize_file_download
    find_file presign token_hash keyed_digest hex read_cloud_share live_share lookup files_of
    cloud_share_access consume_download_session open_session count_download insert trim is_empty
    to_i64
is_downloaded = refl

download_cloud_file_inner-consume_download_session_example :
    (sample_row.completed ≡ true)
    × (sample_setting.clock 1 < sample_row.expires_at)
    × (text : String) × (now : ℕ) × (given (some "token") ≡ some text)
    × (consume_download_session "share" (token_hash sample_setting text) now shared_world.database
        ≡ (true, download.1.database))
download_cloud_file_inner-consume_download_session_example =
    download_cloud_file_inner-consume_download_session sample_setting "share" "file" (some "token")
      shared_world download.1 sample_row (text_of download.0) refl share_is_live refl refl
      is_downloaded

abbrev small_file : ℕ → CreateCloudFileRequest
small_file size = record {
  name = "a";
  path = "a";
  size = size;
  content_type = none;
  last_modified = none;
}

abbrev sample_request : CreateCloudShareRequest
sample_request = record {
  root_name = "root";
  files = small_file 100 ∷ small_file 50 ∷ [];
  entitlement_token = none;
  retention_seconds = none;
  password = none;
  download_limit = none;
}

abbrev pub pass_policy : ResolvedCloudPolicy
pass_policy = record {
  max_files = 2;
  max_total_bytes = 150;
  max_file_bytes = 100;
  retention_seconds = 60;
  plan_snapshot = sample_plan;
  owner_user_id = none;
  drop_pass_id = some "pass";
  password_hash = none;
  download_limit = none;
}

request_is_accepted :
    validate_create_request sample_setting pass_policy sample_request shared_world
    ≡ (ok tt, shared_world)
unfolding validate_create_request sum_sizes
request_is_accepted = refl

validate_create_request-IsWithinPolicy_example : IsWithinPolicy pass_policy sample_request.files
validate_create_request-IsWithinPolicy_example =
    validate_create_request-IsWithinPolicy sample_setting pass_policy sample_request shared_world
      shared_world (ground arith) request_is_accepted

abbrev subscriber : EntitlementRecord
subscriber = record {
  owner_user_id = some "user";
  drop_pass_id = none;
  sku = "pro_monthly_krw_9900";
  label = "PonsWarp Pro";
  max_total_bytes = 100;
  max_file_bytes = 100;
  retention_seconds = 60;
  download_limit = none;
  monthly_quota_bytes = some 200;
  concurrent_storage_bytes = some 100;
}

abbrev checked_usage : Result (Unit {0}) × World
checked_usage = enforce_paid_usage_limits sample_setting "user" subscriber 100 shared_world

usage_is_accepted :
    enforce_paid_usage_limits sample_setting "user" subscriber 100 shared_world
    ≡ (ok tt, checked_usage.1)
unfolding enforce_paid_usage_limits check_usage cloud_usage_for_user completed_bytes reserved_bytes
    to_i64
usage_is_accepted = refl

enforce_paid_usage_limits-ok_example :
    ((cloud_usage_for_user "user"
          (0 - 30 * 24 * 60 * 60)
          0
          shared_world.database).monthly_completed_bytes
        + 100
      ≤ 200)
    × ((cloud_usage_for_user "user"
            (0 - 30 * 24 * 60 * 60)
            0
            shared_world.database).active_reserved_bytes
          + 100
        ≤ 100)
enforce_paid_usage_limits-ok_example =
    enforce_paid_usage_limits-ok sample_setting "user" subscriber 100 200 100 shared_world
      checked_usage.1 refl (ground arith) refl (ground arith) usage_is_accepted
