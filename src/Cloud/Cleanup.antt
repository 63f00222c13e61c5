-- ===== src/Cloud/Cleanup.antt =====
-- The removal of shares that have run out, of src/handlers/cloud_share.rs. The pages in which the
-- store lists its keys are a parameter.
pub mod Pages
use ponswarp_signaling_rs.Common.{
  ℕ, zero, suc, String, Bool, true, false, List, [], ◌∷◌, Option, none, some, ltb, string_eq,
  if◌then◌else◌,
}
use ponswarp_signaling_rs.Common.Map.{remove}
use ponswarp_signaling_rs.Manifest.{CloudFileManifest, CloudShareManifest}
use ponswarp_signaling_rs.Cloud.Create.{mark_deleted}
use ponswarp_signaling_rs.Cloud.Storage.{read_manifest_by_key}
use ponswarp_signaling_rs.Cloud.World.{
  Result, ok, err, Setting, World, Action, pure, after, ◌>>=◌, ◌>>◌, ignore, unix_now, call,
}

-- A page of keys, and the token of the next one if the list goes on.
pub record Page : Type 0 where
  pub keys : List String
  pub is_truncated : Bool
  pub next_continuation_token : Option String

module _ (s : Setting) where
  unfoldable pub delete_files : List CloudFileManifest → Action (Unit {0})
  delete_files [] = pure tt
  delete_files (file ∷ files) =
      ignore (call s λ w. (tt, record w { objects = remove file.object_key w.objects }))
      >> delete_files files

  unfoldable pub remove_share : (key : String) → CloudShareManifest → Action (Unit {0})
  unfolding delete_files mark_deleted
  remove_share key manifest = do
    delete_files manifest.files
    ignore (call s λ w. (tt, record w { manifests = remove key w.manifests }))
    mark_deleted s manifest.share_id

  -- One round of the inner loop.
  unfoldable pub cleanup_key : (key : String) → Action (Unit {0})
  unfolding read_manifest_by_key remove_share
  cleanup_key key =
      after (read_manifest_by_key s key)
        (λ manifest. unix_now s >>= λ now.
          if ltb now manifest.expires_at then pure tt else remove_share key manifest)
        (λ _. pure tt)

  unfoldable pub cleanup_keys : List String → Action (Unit {0})
  unfolding cleanup_key
  cleanup_keys [] = pure tt
  cleanup_keys (key ∷ keys) = cleanup_key key >> cleanup_keys keys

  -- `list_objects` answers for a continuation token; the rounds of the outer loop are counted by the
  -- fuel, and `none` is a loop that goes on after them.
  module _ (list_objects : Option String → World → Option Page) where
    unfoldable pub cleanup_pages : (fuel : ℕ) → Option String → World → Option World
    unfolding cleanup_keys
    cleanup_pages zero token w = none
    cleanup_pages (suc fuel) token w = elim (list_objects token w) [
      | none ↦ some w
      | some page ↦
          (let w' = (cleanup_keys page.keys w).1 in
            let rest = cleanup_pages fuel page.next_continuation_token w' in
            if page.is_truncated then rest else some w')
    ]

    unfoldable pub cleanup_expired_cloud_shares : (fuel : ℕ) → World → Option World
    unfolding cleanup_pages
    cleanup_expired_cloud_shares fuel w =
        if s.has_storage then cleanup_pages fuel none w else some w
