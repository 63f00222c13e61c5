-- ===== src/Cloud/Examples/Life.antt =====
-- The life of cloud shares in a small setting.
use ponswarp_signaling_rs.Common.{
  ℕ, ◌<◌, String, true, false, [], ◌∷◌, Option, none, some, string_eq, ◌≡◌, refl, arith, All,
}
use ponswarp_signaling_rs.Common.NameSet
use ponswarp_signaling_rs.Common.Map.{lookup, insert}
use ponswarp_signaling_rs.Manifest.{CloudShareManifest}
use ponswarp_signaling_rs.Database.Examples.{sample_manifest}
use ponswarp_signaling_rs.Database.Shares.{
  live_share, files_of, read_cloud_share, insert_cloud_share, mark_cloud_share_completed,
}
use ponswarp_signaling_rs.Database.Passes.{consume_drop_pass, consume_rows}
use ponswarp_signaling_rs.Cloud.Examples.{sample_setting}
use ponswarp_signaling_rs.Cloud.World.{World, Result, ok, err, bad_request}
use ponswarp_signaling_rs.Cloud.Storage.{
  read_share_manifest, reject_expired, manifest_key, ensure_object_exists, write_manifest,
}
use ponswarp_signaling_rs.Cloud.Access.{PublicCloudShareResponse, public_share, public_files}
use ponswarp_signaling_rs.Cloud.Policy.{policy_record}
use ponswarp_signaling_rs.Cloud.Create.{store_share, write_or_undo, consume_pass}
use ponswarp_signaling_rs.Cloud.Create.Spent.{
  store_share-consume_drop_pass, consume_pass-live_share,
}
use ponswarp_signaling_rs.Cloud.Complete.{
  CompleteCloudShareRequest, complete_cloud_share_inner, ids_of, complete_uploads,
  finish_completion, ensure_objects, mark_completed,
}
use ponswarp_signaling_rs.Cloud.Complete.Stored.{IsStored, complete_cloud_share_inner-Completion}
use ponswarp_signaling_rs.Cloud.Cleanup.{Page, cleanup_key, cleanup_expired_cloud_shares}
use ponswarp_signaling_rs.Cloud.Cleanup.Pages.{
  Gone, cleanup_expired_cloud_shares-ends, cleanup_key-Gone,
}
use ponswarp_signaling_rs.Cloud.Examples.Shares.{shared_world, pass_policy}

abbrev sample_completion : CompleteCloudShareRequest
sample_completion = record { uploaded_file_ids = "file" ∷ []; multipart_uploads = [] }

abbrev completed : Result PublicCloudShareResponse × World
completed = complete_cloud_share_inner sample_setting "share" sample_completion shared_world

abbrev response_of : Result PublicCloudShareResponse → PublicCloudShareResponse
response_of (ok response) = response
response_of (err _) = record {
  share_id = "";
  root_name = "";
  total_size = 0;
  total_files = 0;
  created_at = 0;
  expires_at = 0;
  seconds_until_expiry = 0;
  completed = false;
  requires_password = false;
  download_session_token = none;
  files = [];
}

is_completed :
    complete_cloud_share_inner sample_setting "share" sample_completion shared_world
    ≡ (ok (response_of completed.0), completed.1)
unfolding complete_cloud_share_inner read_share_manifest reject_expired ids_of complete_uploads
    finish_completion ensure_objects ensure_object_exists mark_completed write_manifest public_share
    public_files read_cloud_share live_share lookup files_of mark_cloud_share_completed insert
    NameSet.contains
is_completed = refl

complete_cloud_share_inner-Completion_example :
    (manifest : CloudShareManifest) × (All
      (IsStored sample_setting completed.1.objects)
      manifest.files)
    × (lookup (manifest_key sample_setting manifest.share_id) completed.1.manifests
        ≡ some (record manifest { completed = true }))
    × ((response_of completed.0).completed ≡ true)
    × ((response_of completed.0).files ≡ public_files manifest.files)
complete_cloud_share_inner-Completion_example =
    complete_cloud_share_inner-Completion sample_setting "share" sample_completion shared_world
      completed.1 (response_of completed.0) is_completed

abbrev stored : Result (Unit {0}) × World
stored = store_share sample_setting pass_policy sample_manifest shared_world

is_stored : store_share sample_setting pass_policy sample_manifest shared_world ≡ (ok tt, stored.1)
unfolding store_share write_or_undo write_manifest consume_pass insert_cloud_share consume_drop_pass
    consume_rows
is_stored = refl

store_share-consume_drop_pass_example :
    (consume_drop_pass "pass"
        (insert_cloud_share sample_manifest (policy_record pass_policy) shared_world.database)
      ≡ (true, stored.1.database))
    × (lookup (manifest_key sample_setting "other") stored.1.manifests ≡ some sample_manifest)
store_share-consume_drop_pass_example =
    store_share-consume_drop_pass sample_setting refl pass_policy sample_manifest "pass"
      shared_world stored.1 tt refl is_stored

no_pass_is_left : (consume_drop_pass "gone" shared_world.database).0 ≡ false
unfolding consume_drop_pass consume_rows
no_pass_is_left = refl

consume_pass-live_share_example :
    let (result, w') = consume_pass sample_setting "share" (some "gone") shared_world in
    (result ≡ err (bad_request "Cloud Drop entitlement was already used"))
    × (live_share "share" w'.database ≡ none)
    × (lookup (manifest_key sample_setting "share") w'.manifests ≡ none)
consume_pass-live_share_example =
    consume_pass-live_share sample_setting refl "share" "gone" shared_world (λ _. refl)
      no_pass_is_left

-- Two pages of keys.
abbrev two_pages : Option String → World → Option Page
two_pages none w =
    some (record { keys = "a" ∷ []; is_truncated = true; next_continuation_token = some "next" })
two_pages (some token) w =
    some (record { keys = "b" ∷ []; is_truncated = false; next_continuation_token = none })

abbrev pages_left : Option String → ℕ
pages_left none = 1
pages_left (some token) = 0

pages_go_on :
    (token : Option String) (w : World) (page : Page)
    → two_pages token w ≡ some page
    → page.is_truncated ≡ true
    → pages_left page.next_continuation_token < pages_left token
pages_go_on none w page e more = ground (arith, e)
pages_go_on (some token) w page e more = ground (arith, e, more)

cleanup_expired_cloud_shares-ends_example :
    (w' : World) × (cleanup_expired_cloud_shares sample_setting two_pages 2 shared_world ≡ some w')
cleanup_expired_cloud_shares-ends_example =
    cleanup_expired_cloud_shares-ends sample_setting two_pages pages_left pages_go_on shared_world

abbrev late_manifest : CloudShareManifest
late_manifest = record sample_manifest { expires_at = 1 }

abbrev listed_world : World
listed_world = record shared_world { manifests = ("p/manifests/other.json", late_manifest) ∷ [] }

late_is_listed : lookup "p/manifests/other.json" listed_world.manifests ≡ some late_manifest
unfolding lookup
late_is_listed = refl

cleanup_key-Gone_example :
    let w' = (cleanup_key sample_setting "p/manifests/other.json" listed_world).1 in
    (lookup "p/manifests/other.json" w'.manifests ≡ none)
    × All (Gone sample_setting w'.objects) late_manifest.files
    × (live_share "other" w'.database ≡ none)
cleanup_key-Gone_example =
    cleanup_key-Gone sample_setting (λ _. refl) "p/manifests/other.json" late_manifest listed_world
      refl late_is_listed (ground arith)
