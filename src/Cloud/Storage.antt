-- ===== src/Cloud/Storage.antt =====
-- The object store of cloud shares, of src/handlers/cloud_share.rs and of `CloudStorage` in
-- src/state.rs. The manifests are its objects under the keys of manifests.
use ponswarp_signaling_rs.Common.{
  ℕ, String, List, [], ◌∷◌, Option, none, some, nat_beq, leb, not, if◌then◌else◌, ◌==◌, string_eq,
}
use ponswarp_signaling_rs.Common.Map.{lookup, insert, remove}
use ponswarp_signaling_rs.Common.Text.{◌<>◌}
use ponswarp_signaling_rs.Manifest.{CloudFileManifest, CloudShareManifest}
use ponswarp_signaling_rs.Database.Shares.{read_cloud_share}
use ponswarp_signaling_rs.Cloud.World.{
  not_found, conflict, gone, Setting, Action, pure, or_raise, ◌>>=◌, raise_if, unix_now, call,
  query,
}

unfoldable pub find_file : (file_id : String) → List CloudFileManifest → Option CloudFileManifest
find_file file_id [] = none
find_file file_id (file ∷ files) =
    let later = find_file file_id files in if file.id == file_id then some file else later

module _ (s : Setting) where
  unfoldable pub manifest_prefix : String
  manifest_prefix = s.cloud.prefix <> "/manifests/"

  unfoldable pub manifest_key : (share_id : String) → String
  unfolding manifest_prefix
  manifest_key share_id = manifest_prefix <> share_id <> ".json"

  unfoldable pub file_key : (share_id file_id : String) → String
  file_key share_id file_id = s.cloud.prefix <> "/shares/" <> share_id <> "/files/" <> file_id

  unfoldable pub write_manifest : CloudShareManifest → Action (Unit {0})
  unfolding manifest_key
  write_manifest manifest = call s λ w.
      (tt, record w { manifests = insert (manifest_key manifest.share_id) manifest w.manifests })

  unfoldable pub delete_manifest : (share_id : String) → Action (Unit {0})
  unfolding manifest_key
  delete_manifest share_id =
      call s λ w. (tt, record w { manifests = remove (manifest_key share_id) w.manifests })

  unfoldable pub read_manifest_by_key : (key : String) → Action CloudShareManifest
  read_manifest_by_key key = do
    found ← call s λ w. (lookup key w.manifests, w)
    or_raise found (not_found "Share not found")

  unfoldable pub read_manifest : (share_id : String) → Action CloudShareManifest
  unfolding read_manifest_by_key manifest_key
  read_manifest share_id = read_manifest_by_key (manifest_key share_id)

  abbrev pub found_or_read :
      (share_id : String) → Option CloudShareManifest → Action CloudShareManifest
  found_or_read share_id none = read_manifest share_id
  found_or_read share_id (some manifest) = pure manifest

  unfoldable pub read_share_manifest : (share_id : String) → Action CloudShareManifest
  unfolding read_manifest
  read_share_manifest share_id =
      if s.has_database
      then (query s λ db. (read_cloud_share s.order_by share_id db, db)) >>= found_or_read share_id
      else read_manifest share_id

  unfoldable pub ensure_object_exists :
      (object_key : String) → (expected_size : ℕ) → Action (Unit {0})
  ensure_object_exists object_key expected_size = do
    found ← call s λ w. (lookup object_key w.objects, w)
    size ← or_raise found (conflict "Uploaded object is not available yet")
    raise_if (not (nat_beq size expected_size))
        (conflict "Uploaded object size does not match the created share")

  unfoldable pub reject_expired : CloudShareManifest → Action (Unit {0})
  reject_expired manifest = do
    now ← unix_now s
    raise_if (leb manifest.expires_at now) (gone "Share has expired")
