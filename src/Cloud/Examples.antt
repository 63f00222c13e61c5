-- ===== src/Cloud/Examples.antt =====
-- Cloud shares in small settings.
pub mod Shares
mod Life
use ponswarp_signaling_rs.Common.{
  ℕ, suc, ◌+◌, ◌-◌, ◌*◌, ◌≤◌, ◌<◌, String, Bool, true, false, ◌||◌, List, [], ◌∷◌, Option, none,
  some, is_some, ltb, if◌then◌else◌, ◌==◌, string_eq, length, ◌≡◌, refl, arith, All, ◌↔◌, leb,
}
use ponswarp_signaling_rs.Common.Map.{lookup, contains_key, insert}
use ponswarp_signaling_rs.Common.Text.{◌<>◌, is_empty, trim, as_bytes}
use ponswarp_signaling_rs.Manifest.{
  CloudFileManifest, CloudShareManifest, PlanSnapshot, EntitlementRecord,
}
use ponswarp_signaling_rs.Database.{
  ShareRow, SessionRow, FileRow, PassRow, SubscriptionRow, Database, empty_database, to_i64,
}
use ponswarp_signaling_rs.Database.Shares.{
  live_share, open_session, consume_download_session, count_download, files_of, read_cloud_share,
  cloud_share_access, insert_cloud_share,
}
use ponswarp_signaling_rs.Database.Passes.{consume_drop_pass}
use ponswarp_signaling_rs.Database.Subscriptions.{
  cloud_usage_for_user, completed_bytes, reserved_bytes,
}
use ponswarp_signaling_rs.Cloud.Names.{split_slashes, keep_parts, cleaned, clamp_path, join_slashes}
use ponswarp_signaling_rs.Cloud.Names.Parts.{IsPart, char_count, clamp_path_parts}
use ponswarp_signaling_rs.Cloud.Plans.Sold.{Buyer}
use ponswarp_signaling_rs.Cloud.World.{CloudConfig, Setting, World, Result, ok, err, bad_request}
use ponswarp_signaling_rs.Cloud.Multipart.{
  div_ceil, CloudMultipartUploadTarget, CloudMultipartUploadPart, multipart_part_size,
  multipart_part_count, presign_parts, presign, presign_multipart_upload,
}
use ponswarp_signaling_rs.Cloud.Multipart.Cover.{Covers, AreEven, presign_multipart_upload-Covers}
use ponswarp_signaling_rs.Cloud.Secrets.{
  keyed_digest, password_hash, verify_password_hash, token_hash, hex,
}
use ponswarp_signaling_rs.Cloud.Secrets.Passwords.{verify_password_hash-password_hash}

abbrev sample_config : CloudConfig
sample_config = record {
  prefix = "p";
  retention_seconds = 60;
  upload_url_ttl_seconds = 5;
  download_url_ttl_seconds = 5;
  max_files = 2;
  max_file_bytes = 100;
  max_total_bytes = 150;
}

-- Nothing fails, and the clock is the number of the call.
abbrev pub sample_setting : Setting
sample_setting = record {
  cloud = sample_config;
  has_storage = true;
  has_database = true;
  clock = λ tick. tick;
  random = λ tick. "random";
  fails = λ tick. false;
  upload_ids = λ tick. some "upload";
  presigned = λ request key ttl. key;
  assembled = λ upload_id parts. 10;
  keyed_hmac = λ value. 10 ∷ 255 ∷ [];
  format_bytes = λ bytes. "some";
  order_by = λ files. files;
}

abbrev pub world_of : Database → World
world_of db = record { tick = 0; database = db; manifests = []; objects = [] }

parts_are_left : (is_empty (cleaned "/a/../b") ≡ false) × (char_count (cleaned "/a/../b") ≤ 512)
unfolding split_slashes keep_parts join_slashes ◌<>◌ is_empty
parts_are_left = (refl, ground arith)

clamp_path_parts_example :
    (split_slashes (clamp_path "/a/../b" "name") ≡ keep_parts (split_slashes "/a/../b"))
    × All IsPart (split_slashes (clamp_path "/a/../b" "name"))
    × (clamp_path (clamp_path "/a/../b" "name") "other" ≡ clamp_path "/a/../b" "name")
clamp_path_parts_example =
    clamp_path_parts "/a/../b" "name" "other" parts_are_left.0 parts_are_left.1

-- The target of an upload that is offered, and one without parts otherwise.
abbrev target_of : Result CloudMultipartUploadTarget → CloudMultipartUploadTarget
target_of (ok target) = target
target_of (err _) = record { upload_id = ""; part_size = 0; parts = [] }

-- An upload of nine parts of 64 MiB and a last one of a byte.
abbrev large : ℕ
large = 576 * 1024 * 1024 + 1

abbrev offered : Result CloudMultipartUploadTarget × World
offered = presign_multipart_upload sample_setting "key" "type" large 60 (world_of empty_database)

is_offered :
    presign_multipart_upload sample_setting "key" "type" large 60 (world_of empty_database)
    ≡ (ok (target_of offered.0), offered.1)
unfolding presign_multipart_upload presign_parts presign multipart_part_size multipart_part_count
is_offered = refl

presign_multipart_upload-Covers_example :
    Covers 0 1 large (target_of offered.0).parts
    × (length (target_of offered.0).parts ≤ 10000)
    × (64 * 1024 * 1024 ≤ (target_of offered.0).part_size)
    × (length (target_of offered.0).parts ≡ div_ceil large (target_of offered.0).part_size)
    × AreEven (target_of offered.0).part_size (target_of offered.0).parts
presign_multipart_upload-Covers_example =
    presign_multipart_upload-Covers sample_setting "key" "type" large 60 (world_of empty_database)
      offered.1 (target_of offered.0) is_offered

verify_password_hash-password_hash_example :
    (verify_password_hash sample_setting "other" (password_hash sample_setting "salt" "secret")
      ≡ true)
    ↔ (as_bytes (keyed_digest sample_setting ("salt" <> ":" <> "other"))
        ≡ as_bytes (keyed_digest sample_setting ("salt" <> ":" <> "secret")))
verify_password_hash-password_hash_example =
    verify_password_hash-password_hash sample_setting "salt" "secret" "other"
      (refl, (refl, (refl, (refl, tt))))

abbrev sample_buyer : Buyer
sample_buyer = record { pass_id = "pass"; user_id = some "ann"; email = none; bought_at = 5 }

abbrev sample_subscription : SubscriptionRow
sample_subscription = record {
  user_id = "ann";
  paypal_subscription_id = none;
  paypal_plan_id = none;
  stripe_checkout_session_id = none;
  lemonsqueezy_subscription_id = some "7";
  lemonsqueezy_checkout_ref = some "ref";
  lemonsqueezy_variant_id = none;
  lemonsqueezy_customer_id = none;
  payment_update_url = none;
  status = "active";
  created_at = 5;
  updated_at = 5;
}
