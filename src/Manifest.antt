-- ===== src/Manifest.antt =====
-- What a cloud share is recorded as, of src/handlers/cloud_share.rs, and the policy that is stored
-- with it, of src/database.rs.
use ponswarp_signaling_rs.Common.{ℕ, String, Bool, List, Option}

pub record CloudFileManifest : Type 0 where
  pub id : String
  pub name : String
  pub path : String
  pub size : ℕ
  pub content_type : String
  pub last_modified : Option ℕ
  pub object_key : String

pub record CloudShareManifest : Type 0 where
  pub share_id : String
  pub root_name : String
  pub total_size : ℕ
  pub total_files : ℕ
  pub created_at : ℕ
  pub expires_at : ℕ
  pub completed : Bool
  pub files : List CloudFileManifest

-- The JSON object of a plan; the fields that a free plan leaves out are `none`.
pub record PlanSnapshot : Type 0 where
  pub sku : String
  pub label : String
  pub price_krw : Option ℕ
  pub max_total_bytes : ℕ
  pub max_file_bytes : ℕ
  pub retention_seconds : ℕ
  pub download_limit : Option ℕ
  pub monthly_quota_bytes : Option ℕ
  pub concurrent_storage_bytes : Option ℕ

pub record CloudSharePolicyRecord : Type 0 where
  pub plan_snapshot : PlanSnapshot
  pub owner_user_id : Option String
  pub drop_pass_id : Option String
  pub password_hash : Option String
  pub download_limit : Option ℕ

pub record EntitlementRecord : Type 0 where
  pub owner_user_id : Option String
  pub drop_pass_id : Option String
  pub sku : String
  pub label : String
  pub max_total_bytes : ℕ
  pub max_file_bytes : ℕ
  pub retention_seconds : ℕ
  pub download_limit : Option ℕ
  pub monthly_quota_bytes : Option ℕ
  pub concurrent_storage_bytes : Option ℕ

pub record CloudUsageRecord : Type 0 where
  pub monthly_completed_bytes : ℕ
  pub active_reserved_bytes : ℕ

pub record CloudShareAccessRecord : Type 0 where
  pub password_hash : Option String
  pub download_limit : Option ℕ
