-- ===== src/Cloud/Create.antt =====
-- The making of a cloud share, of src/handlers/cloud_share.rs.
pub mod Spent
use ponswarp_signaling_rs.Common.{
  ℕ, ◌+◌, ◌%◌, ◌^◌, String, Bool, true, false, not, List, [], ◌∷◌, Option, none, some,
  if◌then◌else◌, length,
}
use ponswarp_signaling_rs.Common.Text.{◌<>◌, is_empty, trim}
use ponswarp_signaling_rs.Manifest.{CloudFileManifest, CloudShareManifest}
use ponswarp_signaling_rs.Database.Shares.{insert_cloud_share, mark_cloud_share_deleted}
use ponswarp_signaling_rs.Database.Passes.{consume_drop_pass}
use ponswarp_signaling_rs.Cloud.Names.{clamp_name, clamp_path}
use ponswarp_signaling_rs.Cloud.Multipart.{
  CloudMultipartUploadTarget, should_use_multipart, presign_put, presign_multipart_upload,
}
use ponswarp_signaling_rs.Cloud.Policy.{
  CreateCloudFileRequest, CreateCloudShareRequest, ResolvedCloudPolicy, policy_record,
  total_size_of, resolve_cloud_policy, validate_create_request,
}
use ponswarp_signaling_rs.Cloud.Storage.{file_key, write_manifest, delete_manifest}
use ponswarp_signaling_rs.Cloud.World.{
  CloudShareError, bad_request, Result, ok, err, Setting, World, Action, pure, raise, after, ◌>>=◌,
  ◌>>◌, raise_if, ignore, unix_now, random_text, query, execute, with_database, cloud_storage,
}

pub record PresignedUploadTarget : Type 0 where
  pub upload_url : Option String
  pub multipart : Option CloudMultipartUploadTarget

pub record CloudUploadTarget : Type 0 where
  pub id : String
  pub name : String
  pub path : String
  pub size : ℕ
  pub upload_url : Option String
  pub multipart : Option CloudMultipartUploadTarget

pub record CreateCloudShareResponse : Type 0 where
  pub share_id : String
  pub share_url : String
  pub expires_at : ℕ
  pub upload_url_ttl_seconds : ℕ
  pub files : List CloudUploadTarget

abbrev pub content_type_of : Option String → String
content_type_of none = "application/octet-stream"
content_type_of (some value) = if is_empty (trim value) then "application/octet-stream" else value

-- The sum of the sizes, in 64 bits.
unfoldable pub sum_of_files : List CloudFileManifest → ℕ
sum_of_files [] = 0
sum_of_files (file ∷ files) = (file.size + sum_of_files files) % 2 ^ 64

module _ (s : Setting) where
  unfoldable pub presign_upload_target :
      (object_key content_type : String) → (size ttl_seconds : ℕ) → Action PresignedUploadTarget
  unfolding should_use_multipart presign_multipart_upload presign_put
  presign_upload_target object_key content_type size ttl_seconds =
      if should_use_multipart size
      then (do
        target ← presign_multipart_upload s object_key content_type size ttl_seconds
        pure (record { upload_url = none; multipart = some target }))
      else (do
        url ← presign_put s object_key ttl_seconds
        pure (record { upload_url = some url; multipart = none }))

  -- One round of the loop over the files.
  unfoldable pub file_target :
      (share_id : String) → CreateCloudFileRequest → Action (CloudFileManifest × CloudUploadTarget)
  unfolding presign_upload_target clamp_name clamp_path file_key
  file_target share_id file = do
    id ← random_text s
    upload ←
        presign_upload_target (file_key s share_id id) (content_type_of file.content_type) file.size
          s.cloud.upload_url_ttl_seconds
    pure (
        let name = clamp_name file.name "download.bin" in
        let path = clamp_path file.path name in
        (
          record {
            id = id;
            name = name;
            path = path;
            size = file.size;
            content_type = content_type_of file.content_type;
            last_modified = file.last_modified;
            object_key = file_key s share_id id;
          },
          record {
            id = id;
            name = name;
            path = path;
            size = file.size;
            upload_url = upload.upload_url;
            multipart = upload.multipart;
          },
        ))

  unfoldable pub file_targets :
      (share_id : String)
      → List CreateCloudFileRequest
      → Action (List CloudFileManifest × List CloudUploadTarget)
  unfolding file_target
  file_targets share_id [] = pure ([], [])
  file_targets share_id (file ∷ files) = do
    (made, target) ← file_target share_id file
    (manifests, targets) ← file_targets share_id files
    pure (made ∷ manifests, target ∷ targets)

  -- Best effort: an error of this is dropped.
  unfoldable pub mark_deleted : (share_id : String) → Action (Unit {0})
  mark_deleted share_id =
      with_database s
        (unix_now s >>= λ now. ignore (execute s (mark_cloud_share_deleted share_id now)))

  unfoldable pub write_or_undo : CloudShareManifest → Action (Unit {0})
  unfolding write_manifest mark_deleted
  write_or_undo manifest =
      after (write_manifest s manifest) pure λ e. mark_deleted manifest.share_id >> raise e

  -- A pass that was used up in the meantime takes the share back.
  unfoldable pub consume_pass : (share_id : String) → Option String → Action (Unit {0})
  unfolding consume_drop_pass mark_deleted delete_manifest
  consume_pass share_id none = pure tt
  consume_pass share_id (some pass) = with_database s (do
    consumed ← query s (consume_drop_pass pass)
    if consumed
        then pure tt
        else (mark_deleted share_id
            >> ignore (delete_manifest s share_id)
            >> raise (bad_request "Cloud Drop entitlement was already used")))

  unfoldable pub store_share : ResolvedCloudPolicy → CloudShareManifest → Action (Unit {0})
  unfolding insert_cloud_share write_or_undo consume_pass
  store_share policy manifest = do
    with_database s (execute s (insert_cloud_share manifest (policy_record policy)))
    write_or_undo manifest
    consume_pass manifest.share_id policy.drop_pass_id

  unfoldable pub create_cloud_share_inner :
      CreateCloudShareRequest → Action CreateCloudShareResponse
  unfolding resolve_cloud_policy validate_create_request file_targets store_share clamp_name
      sum_of_files
  create_cloud_share_inner request = do
    cloud_storage s
    policy ← resolve_cloud_policy s request
    validate_create_request s policy request
    now ← unix_now s
    share_id ← random_text s
    (files, targets) ← file_targets share_id request.files
    store_share policy (record {
      share_id = share_id;
      root_name = clamp_name request.root_name "Cloud Drop";
      total_size = sum_of_files files;
      total_files = length files;
      created_at = now;
      expires_at = (now + policy.retention_seconds) % 2 ^ 64;
      completed = false;
      files = files;
    })
    pure (record {
      share_id = share_id;
      share_url = "/cloud/" <> share_id;
      expires_at = (now + policy.retention_seconds) % 2 ^ 64;
      upload_url_ttl_seconds = s.cloud.upload_url_ttl_seconds;
      files = targets;
    })
