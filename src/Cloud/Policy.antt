-- ===== src/Cloud/Policy.antt =====
-- What a new cloud share may be, of src/handlers/cloud_share.rs: the plan that it is made under,
-- and the check of the request against it.
pub mod Accepted
use ponswarp_signaling_rs.Common.{
  ℕ, suc, ◌+◌, ◌-◌, ◌*◌, ◌%◌, ◌^◌, String, Bool, true, false, ◌&&◌, ◌||◌, not, List, [], ◌∷◌,
  Option, none, some, is_some, unwrap_or, ltb, nat_beq, if◌then◌else◌, length,
}
use ponswarp_signaling_rs.Common.Text.{◌<>◌, is_empty, trim}
use ponswarp_signaling_rs.Manifest.{
  PlanSnapshot, CloudSharePolicyRecord, EntitlementRecord, CloudUsageRecord,
}
use ponswarp_signaling_rs.Database.Shares.{map_option}
use ponswarp_signaling_rs.Database.Passes.{saturating_add}
use ponswarp_signaling_rs.Database.Subscriptions.{resolve_entitlement, cloud_usage_for_user}
use ponswarp_signaling_rs.Cloud.Secrets.{password_hash}
use ponswarp_signaling_rs.Cloud.Multipart.{lift}
use ponswarp_signaling_rs.Cloud.World.{
  CloudShareError, bad_request, forbidden, internal, Result, ok, err, CloudConfig, Setting, World,
  Action, pure, raise, or_raise, ◌>>=◌, ◌>>◌, raise_if, unix_now, random_text, query,
}

pub record CreateCloudFileRequest : Type 0 where
  pub name : String
  pub path : String
  pub size : ℕ
  pub content_type : Option String
  pub last_modified : Option ℕ

pub record CreateCloudShareRequest : Type 0 where
  pub root_name : String
  pub files : List CreateCloudFileRequest
  pub entitlement_token : Option String
  pub retention_seconds : Option ℕ
  pub password : Option String
  pub download_limit : Option ℕ

pub record ResolvedCloudPolicy : Type 0 where
  pub max_files : ℕ
  pub max_total_bytes : ℕ
  pub max_file_bytes : ℕ
  pub retention_seconds : ℕ
  pub plan_snapshot : PlanSnapshot
  pub owner_user_id : Option String
  pub drop_pass_id : Option String
  pub password_hash : Option String
  pub download_limit : Option ℕ

abbrev pub policy_record : ResolvedCloudPolicy → CloudSharePolicyRecord
policy_record policy = record {
  plan_snapshot = policy.plan_snapshot;
  owner_user_id = policy.owner_user_id;
  drop_pass_id = policy.drop_pass_id;
  password_hash = policy.password_hash;
  download_limit = policy.download_limit;
}

-- The sum of the sizes without a bound, and as the code has it, in 64 bits.
unfoldable pub sum_sizes : List CreateCloudFileRequest → ℕ
sum_sizes [] = 0
sum_sizes (file ∷ files) = file.size + sum_sizes files

abbrev pub total_size_of : List CreateCloudFileRequest → ℕ
total_size_of files = sum_sizes files % 2 ^ 64

abbrev pub any_file : (CreateCloudFileRequest → Bool) → List CreateCloudFileRequest → Bool
any_file test [] = false
any_file test (file ∷ files) = test file || any_file test files

-- `value.clamp(1, high)`. Where `high` is 0 the code panics, which is taken as an error here.
unfoldable pub clamp_from_one : (value high : ℕ) → Result ℕ
clamp_from_one value high =
    if nat_beq high 0
    then err internal
    else if nat_beq value 0
    then ok 1
    else if ltb high value
    then ok high
    else ok value

unfoldable pub free_plan_snapshot : CloudConfig → (retention_seconds : ℕ) → PlanSnapshot
free_plan_snapshot config retention_seconds = record {
  sku = "free_cloud_10gb_24h";
  label = "PonsWarp Free";
  price_krw = some 0;
  max_total_bytes = config.max_total_bytes;
  max_file_bytes = config.max_file_bytes;
  retention_seconds = retention_seconds;
  download_limit = none;
  monthly_quota_bytes = none;
  concurrent_storage_bytes = none;
}

-- A text that is given and not blank, trimmed.
abbrev pub trimmed : Option String → Option String
trimmed none = none
trimmed (some text) = if is_empty (trim text) then none else some (trim text)

-- The error where `used` and the request go beyond a quota.
abbrev pub over_quota : (quota : Option ℕ) → (used requested : ℕ) → Bool
over_quota none used requested = false
over_quota (some quota) used requested = ltb quota (saturating_add used requested)

abbrev pub left_of : (quota : Option ℕ) → (used : ℕ) → ℕ
left_of quota used = unwrap_or quota 0 - used

unfoldable pub requested_limit : (requested maximum : Option ℕ) → Result (Option ℕ)
unfolding clamp_from_one
requested_limit none maximum = ok maximum
requested_limit (some requested) none = ok (some requested)
requested_limit (some requested) (some maximum) = elim (clamp_from_one requested maximum) [
  | err e ↦ err e
  | ok limit ↦ ok (some limit)
]

module _ (s : Setting) where
  unfoldable pub check_usage :
      EntitlementRecord → (requested_total_size : ℕ) → CloudUsageRecord → Action (Unit {0})
  check_usage entitlement requested_total_size usage = do
    raise_if
        (over_quota entitlement.monthly_quota_bytes usage.monthly_completed_bytes
          requested_total_size)
        (forbidden (
          "Monthly Cloud Drop quota exceeded. "
          <> s.format_bytes (left_of entitlement.monthly_quota_bytes usage.monthly_completed_bytes)
          <> " available in the current billing window."))
    raise_if
        (over_quota entitlement.concurrent_storage_bytes usage.active_reserved_bytes
          requested_total_size)
        (forbidden (
          "Concurrent Cloud Drop storage limit exceeded. "
          <> s.format_bytes
              (left_of entitlement.concurrent_storage_bytes usage.active_reserved_bytes)
          <> " available until older drops expire."))

  unfoldable pub enforce_paid_usage_limits :
      (owner_user_id : String) → EntitlementRecord → (requested_total_size : ℕ) → Action (Unit {0})
  unfolding check_usage
  enforce_paid_usage_limits owner_user_id entitlement requested_total_size =
      if not (is_some entitlement.monthly_quota_bytes)
        && not (is_some entitlement.concurrent_storage_bytes)
      then pure tt
      else (do
        now ← unix_now s
        usage ←
            query s λ db. (cloud_usage_for_user owner_user_id (now - 30 * 24 * 60 * 60) now db, db)
        check_usage entitlement requested_total_size usage)

  abbrev pub enforce_for : Option String → EntitlementRecord → ℕ → Action (Unit {0})
  enforce_for none entitlement requested = pure tt
  enforce_for (some owner) entitlement requested =
      enforce_paid_usage_limits owner entitlement requested

  unfoldable pub hash_of : Option String → Action (Option String)
  unfolding password_hash
  hash_of none = pure none
  hash_of (some password) = random_text s >>= λ salt. pure (some (password_hash s salt password))

  unfoldable pub paid_policy :
      CreateCloudShareRequest → EntitlementRecord → Action ResolvedCloudPolicy
  unfolding enforce_paid_usage_limits clamp_from_one requested_limit hash_of sum_sizes
  paid_policy request entitlement = do
    enforce_for entitlement.owner_user_id entitlement (total_size_of request.files)
    retention_seconds ← lift (
        clamp_from_one (unwrap_or request.retention_seconds entitlement.retention_seconds)
          entitlement.retention_seconds)
    download_limit ← lift (requested_limit request.download_limit entitlement.download_limit)
    hash ← hash_of (trimmed request.password)
    pure (record {
      max_files = s.cloud.max_files;
      max_total_bytes = entitlement.max_total_bytes;
      max_file_bytes = entitlement.max_file_bytes;
      retention_seconds = retention_seconds;
      plan_snapshot = record {
        sku = entitlement.sku;
        label = entitlement.label;
        price_krw = none;
        max_total_bytes = entitlement.max_total_bytes;
        max_file_bytes = entitlement.max_file_bytes;
        retention_seconds = retention_seconds;
        download_limit = download_limit;
        monthly_quota_bytes = entitlement.monthly_quota_bytes;
        concurrent_storage_bytes = entitlement.concurrent_storage_bytes;
      };
      owner_user_id = entitlement.owner_user_id;
      drop_pass_id = entitlement.drop_pass_id;
      password_hash = hash;
      download_limit = download_limit;
    })

  unfoldable pub free_policy : CreateCloudShareRequest → Action ResolvedCloudPolicy
  unfolding clamp_from_one free_plan_snapshot
  free_policy request = do
    raise_if (is_some (trimmed request.password))
        (bad_request "Password-protected Cloud Drop links require a paid Cloud Drop plan")
    raise_if (is_some request.download_limit) (bad_request "Download limits are not available yet")
    retention_seconds ← lift (
        clamp_from_one (unwrap_or request.retention_seconds s.cloud.retention_seconds)
          s.cloud.retention_seconds)
    pure (record {
      max_files = s.cloud.max_files;
      max_total_bytes = s.cloud.max_total_bytes;
      max_file_bytes = s.cloud.max_file_bytes;
      retention_seconds = retention_seconds;
      plan_snapshot = free_plan_snapshot s.cloud retention_seconds;
      owner_user_id = none;
      drop_pass_id = none;
      password_hash = none;
      download_limit = none;
    })

  abbrev pub policy_for : CreateCloudShareRequest → Option String → Action ResolvedCloudPolicy
  policy_for request none = free_policy request
  policy_for request (some token) =
      if s.has_database
      then (do
        now ← unix_now s
        found ← query s λ db. (resolve_entitlement token now db, db)
        entitlement ← or_raise found (bad_request "Cloud Drop entitlement is not active")
        paid_policy request entitlement)
      else raise (bad_request "Paid Cloud Drop requires billing database")

  unfoldable pub resolve_cloud_policy : CreateCloudShareRequest → Action ResolvedCloudPolicy
  unfolding paid_policy free_policy
  resolve_cloud_policy request = policy_for request (trimmed request.entitlement_token)

  unfoldable pub validate_create_request :
      ResolvedCloudPolicy → CreateCloudShareRequest → Action (Unit {0})
  unfolding sum_sizes
  validate_create_request policy request = do
    raise_if (nat_beq (length request.files) 0) (bad_request "At least one file is required")
    raise_if (ltb policy.max_files (length request.files))
        (bad_request "Too many files in one cloud share")
    raise_if (ltb policy.max_total_bytes (total_size_of request.files)) (
        bad_request (
          "Cloud Drop is limited to "
          <> s.format_bytes policy.max_total_bytes
          <> ". Use direct P2P for unlimited transfer or split files into 10GB batches."))
    raise_if (any_file (λ file. ltb policy.max_file_bytes file.size) request.files) (
        bad_request (
          "Each Cloud Drop file is limited to "
          <> s.format_bytes policy.max_file_bytes
          <> ". Use direct P2P for unlimited transfer or split the file."))
    raise_if (any_file (λ file. nat_beq file.size 0) request.files)
        (bad_request "Empty files are not supported")
