-- ===== src/Cloud/Complete.antt =====
-- The end of the uploads of a cloud share, of src/handlers/cloud_share.rs. The number of a part is
-- natural here: a negative one is refused as 0 is.
pub mod Stored
use ponswarp_signaling_rs.Common.{
  ℕ, zero, suc, ◌+◌, String, Bool, true, false, ◌&&◌, string_eq, ◌||◌, not, List, [], ◌∷◌, Option,
  none, some, ltb, leb, nat_beq, if◌then◌else◌, length,
}
use ponswarp_signaling_rs.Common.Map.{insert}
use ponswarp_signaling_rs.Common.NameSet
use ponswarp_signaling_rs.Common.Text.{◌<>◌, is_empty, trim}
use ponswarp_signaling_rs.Manifest.{CloudFileManifest, CloudShareManifest}
use ponswarp_signaling_rs.Database.Shares.{mark_cloud_share_completed}
use ponswarp_signaling_rs.Cloud.Multipart.{should_use_multipart, multipart_part_count, lift}
use ponswarp_signaling_rs.Cloud.Storage.{
  find_file, read_share_manifest, write_manifest, reject_expired, ensure_object_exists,
}
use ponswarp_signaling_rs.Cloud.Access.{PublicCloudShareResponse, public_share}
use ponswarp_signaling_rs.Cloud.World.{
  CloudShareError, bad_request, not_found, conflict, internal, Result, ok, err, Setting, World,
  Action, pure, raise, after, or_raise, ◌>>=◌, ◌>>◌, raise_if, ignore, unix_now, call, execute,
  with_database, cloud_storage,
}

pub record CompleteMultipartUploadPartRequest : Type 0 where
  pub part_number : ℕ
  pub e_tag : String

pub record CompleteMultipartUploadRequest : Type 0 where
  pub file_id : String
  pub upload_id : String
  pub parts : List CompleteMultipartUploadPartRequest

pub record CompleteCloudShareRequest : Type 0 where
  pub uploaded_file_ids : List String
  pub multipart_uploads : List CompleteMultipartUploadRequest

pub record AbortMultipartUploadRequest : Type 0 where
  pub file_id : String
  pub upload_id : String

-- The parts with their trimmed tags, or the error of the first that is not valid.
unfoldable pub completed_parts :
    List CompleteMultipartUploadPartRequest → Result (List (ℕ × String))
completed_parts [] = ok []
completed_parts (part ∷ parts) =
    let rest = completed_parts parts in
    if nat_beq part.part_number 0 || is_empty (trim part.e_tag)
    then err (bad_request "Multipart completion requires valid part numbers and ETags")
    else elim rest [ err e ↦ err e | ok others ↦ ok ((part.part_number, trim part.e_tag) ∷ others) ]

-- `sort_by_key`, which is stable.
unfoldable pub insert_part : ℕ × String → List (ℕ × String) → List (ℕ × String)
insert_part part [] = part ∷ []
insert_part part (other ∷ parts) =
    let later = insert_part part parts in
    if leb part.0 other.0 then part ∷ other ∷ parts else other ∷ later

unfoldable pub sort_parts : List (ℕ × String) → List (ℕ × String)
unfolding insert_part
sort_parts [] = []
sort_parts (part ∷ parts) = insert_part part (sort_parts parts)

-- Whether the numbers go up by one from this one.
unfoldable pub are_consecutive : ℕ → List (ℕ × String) → Bool
are_consecutive number [] = true
are_consecutive number (part ∷ parts) = nat_beq part.0 number && are_consecutive (suc number) parts

unfoldable pub ids_of : List CloudFileManifest → List String
ids_of [] = []
ids_of (file ∷ files) = file.id ∷ ids_of files

abbrev pub is_subset : List String → List String → Bool
is_subset [] ids = true
is_subset (id ∷ rest) ids = NameSet.contains id ids && is_subset rest ids

-- Whether two lists make the same set.
abbrev pub same_set : List String → List String → Bool
same_set left right = is_subset left right && is_subset right left

module _ (s : Setting) where
  unfoldable pub abort_multipart_upload : (object_key upload_id : String) → Action (Unit {0})
  abort_multipart_upload object_key upload_id = call s λ w. (tt, w)

  -- The store puts the parts of the upload together.
  abbrev pub put_together : (object_key upload_id : String) → List (ℕ × String) → Action (Unit {0})
  put_together object_key upload_id parts =
      call s
        λ w. (tt, record w { objects = insert object_key (s.assembled upload_id parts) w.objects })

  unfoldable pub assemble :
      CloudFileManifest → (upload_id : String) → List (ℕ × String) → Action (Unit {0})
  unfolding abort_multipart_upload ensure_object_exists
  assemble file upload_id parts =
      after (put_together file.object_key upload_id parts)
        (λ _. ensure_object_exists s file.object_key file.size)
        (λ _. ignore (abort_multipart_upload file.object_key upload_id) >> raise internal)

  unfoldable pub complete_cloud_file_multipart_upload :
      CloudShareManifest → CompleteMultipartUploadRequest → Action (Unit {0})
  unfolding find_file should_use_multipart multipart_part_count completed_parts sort_parts
      are_consecutive assemble
  complete_cloud_file_multipart_upload manifest request = do
    raise_if manifest.completed (conflict "Share upload is already complete")
    file ← or_raise (find_file request.file_id manifest.files) (not_found "File not found")
    raise_if (not (should_use_multipart file.size))
        (bad_request "Multipart completion is only valid for multipart upload targets")
    raise_if (is_empty (trim request.upload_id)) (bad_request "Multipart upload ID is required")
    expected_parts ← lift (multipart_part_count file.size)
    raise_if (not (nat_beq (length request.parts) expected_parts))
        (bad_request "Uploaded part list does not match the created multipart upload")
    parts ← lift (completed_parts request.parts)
    raise_if (not (are_consecutive 1 (sort_parts parts)))
        (bad_request "Multipart parts must be consecutive and start at 1")
    assemble file (trim request.upload_id) (sort_parts parts)

  -- The loops of a completion.
  unfoldable pub complete_uploads :
      CloudShareManifest → List CompleteMultipartUploadRequest → Action (Unit {0})
  unfolding complete_cloud_file_multipart_upload
  complete_uploads manifest [] = pure tt
  complete_uploads manifest (upload ∷ uploads) =
      complete_cloud_file_multipart_upload manifest upload >> complete_uploads manifest uploads

  unfoldable pub ensure_objects : List CloudFileManifest → Action (Unit {0})
  unfolding ensure_object_exists
  ensure_objects [] = pure tt
  ensure_objects (file ∷ files) =
      ensure_object_exists s file.object_key file.size >> ensure_objects files

  unfoldable pub mark_completed : CloudShareManifest → Action (Unit {0})
  mark_completed manifest = with_database s (
      unix_now s >>= λ now.
      execute s (mark_cloud_share_completed manifest.share_id manifest.total_size now))

  unfoldable pub finish_completion : CloudShareManifest → Action PublicCloudShareResponse
  unfolding ensure_objects mark_completed write_manifest public_share
  finish_completion manifest = do
    ensure_objects manifest.files
    mark_completed manifest
    write_manifest s (record manifest { completed = true })
    public_share s (record manifest { completed = true }) none false

  unfoldable pub complete_cloud_share_inner :
      (share_id : String) → CompleteCloudShareRequest → Action PublicCloudShareResponse
  unfolding read_share_manifest reject_expired ids_of complete_uploads finish_completion
  complete_cloud_share_inner share_id request = do
    cloud_storage s
    manifest ← read_share_manifest s share_id
    reject_expired s manifest
    raise_if (not (same_set (ids_of manifest.files) request.uploaded_file_ids))
        (bad_request "Uploaded file list does not match the created share")
    complete_uploads manifest request.multipart_uploads
    finish_completion manifest

  abbrev pub abort_one : Option CloudFileManifest → (upload_id : String) → Action (Unit {0})
  abort_one none upload_id = pure tt
  abort_one (some file) upload_id =
      if not (should_use_multipart file.size) || is_empty (trim upload_id)
      then pure tt
      else ignore (abort_multipart_upload file.object_key (trim upload_id))

  unfoldable pub abort_uploads :
      CloudShareManifest → List AbortMultipartUploadRequest → Action (Unit {0})
  unfolding find_file abort_multipart_upload should_use_multipart
  abort_uploads manifest [] = pure tt
  abort_uploads manifest (upload ∷ uploads) =
      abort_one (find_file upload.file_id manifest.files) upload.upload_id
      >> abort_uploads manifest uploads

  unfoldable pub abort_cloud_share_uploads_inner :
      (share_id : String) → List AbortMultipartUploadRequest → Action (Unit {0})
  unfolding read_share_manifest abort_uploads
  abort_cloud_share_uploads_inner share_id uploads = do
    cloud_storage s
    manifest ← read_share_manifest s share_id
    abort_uploads manifest uploads
