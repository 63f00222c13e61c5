-- ===== src/Database/Shares.antt =====
-- The statements on cloud shares, their files and their download sessions, of src/database.rs.
use ponswarp_signaling_rs.Common.{
  ℕ, suc, String, Bool, true, false, ◌&&◌, not, List, [], ◌∷◌, Option, none, some, ltb,
  if◌then◌else◌, ◌==◌, string_eq, is_some, unwrap_or,
}
use ponswarp_signaling_rs.Common.Map.{Map, lookup, contains_key, insert, retain}
use ponswarp_signaling_rs.Manifest.{
  CloudFileManifest, CloudShareManifest, CloudSharePolicyRecord, CloudShareAccessRecord,
}
use ponswarp_signaling_rs.Database.{
  to_i64, to_i32, ShareRow, FileRow, SessionRow, UsageEvent, Database,
}

abbrev pub map_option {ℓ κ} : {A : Type ℓ} {B : Type κ} → (A → B) → Option A → Option B
map_option f none = none
map_option f (some a) = some (f a)

-- On a conflict every column but `download_count` is overwritten, and the share is undeleted.
unfoldable pub insert_share_row :
    CloudShareManifest → CloudSharePolicyRecord → Option ShareRow → ShareRow
unfolding to_i64 to_i32
insert_share_row manifest policy old = record {
  id = manifest.share_id;
  owner_user_id = policy.owner_user_id;
  drop_pass_id = policy.drop_pass_id;
  plan_snapshot = policy.plan_snapshot;
  root_name = manifest.root_name;
  total_size = to_i64 manifest.total_size;
  total_files = to_i32 manifest.total_files;
  completed = manifest.completed;
  password_hash = policy.password_hash;
  download_limit = map_option to_i32 policy.download_limit;
  download_count = unwrap_or (map_option (λ (row : ShareRow). row.download_count) old) 0;
  created_at = to_i64 manifest.created_at;
  expires_at = to_i64 manifest.expires_at;
  deleted_at = none;
}

abbrev pub file_row : String → CloudFileManifest → FileRow
file_row share_id file = record {
  id = file.id;
  share_id = share_id;
  name = file.name;
  path = file.path;
  size = to_i64 file.size;
  content_type = file.content_type;
  last_modified = map_option to_i64 file.last_modified;
  object_key = file.object_key;
}

-- The loop over the files of the manifest.
unfoldable pub insert_files :
    String → List CloudFileManifest → Map String FileRow → Map String FileRow
insert_files share_id [] rows = rows
insert_files share_id (file ∷ files) rows =
    insert_files share_id files (insert file.id (file_row share_id file) rows)

unfoldable pub insert_cloud_share :
    CloudShareManifest → CloudSharePolicyRecord → Database → Database
unfolding insert_share_row insert_files
insert_cloud_share manifest policy db = record db {
  cloud_shares =
      insert manifest.share_id
        (insert_share_row manifest policy (lookup manifest.share_id db.cloud_shares))
        db.cloud_shares;
  cloud_share_files = insert_files manifest.share_id manifest.files db.cloud_share_files;
}

-- The row of a share that is not deleted.
unfoldable pub live_share : String → Database → Option ShareRow
live_share share_id db = elim (lookup share_id db.cloud_shares) [
  | none ↦ none
  | some row ↦ if is_some row.deleted_at then none else some row
]

unfoldable pub cloud_share_access : String → Database → Option CloudShareAccessRecord
unfolding live_share
cloud_share_access share_id db =
    map_option
      (λ (row : ShareRow). record {
        password_hash = row.password_hash;
        download_limit = row.download_limit;
      })
      (live_share share_id db)

unfoldable pub insert_cloud_download_session :
    String → (token_hash : String) → (created_at expires_at : ℕ) → Database → Database
unfolding to_i64
insert_cloud_download_session share_id token_hash created_at expires_at db =
    if contains_key token_hash db.cloud_download_sessions
    then db
    else (let row : SessionRow = record {
      share_id = share_id;
      created_at = to_i64 created_at;
      expires_at = to_i64 expires_at;
      counted_at = none;
    } in
        record db { cloud_download_sessions = insert token_hash row db.cloud_download_sessions })

-- The session of a token, if it is of this share and has not run out.
unfoldable pub open_session : String → String → ℕ → Database → Option SessionRow
unfolding to_i64
open_session share_id token_hash now db = elim (lookup token_hash db.cloud_download_sessions) [
  | none ↦ none
  | some row ↦
      if row.share_id == share_id && ltb (to_i64 now) row.expires_at then some row else none
]

unfoldable pub cloud_download_session_exists : String → String → ℕ → Database → Bool
unfolding open_session
cloud_download_session_exists share_id token_hash now db =
    is_some (open_session share_id token_hash now db)

-- Whether a share takes another download.
abbrev pub has_room : ShareRow → Bool
has_room row = elim row.download_limit [ none ↦ true | some limit ↦ ltb row.download_count limit ]

-- The count of a share goes up by one, if it has room; the number of rows affected is 0 or 1.
unfoldable pub count_download : String → Database → Option Database
unfolding live_share
count_download share_id db = elim (live_share share_id db) [
  | none ↦ none
  | some row ↦
      if has_room row
      then some (record db {
        cloud_shares =
            insert share_id (record row { download_count = suc row.download_count })
              db.cloud_shares;
      })
      else none
]

-- One transaction: where the share has no room, the session is not marked either.
unfoldable pub consume_download_session : String → String → ℕ → Database → Bool × Database
unfolding open_session count_download to_i64
consume_download_session share_id token_hash now db =
    elim (open_session share_id token_hash now db) [
      | none ↦ (false, db)
      | some session ↦
          if is_some session.counted_at then (true, db) else elim (count_download share_id db) [
            | none ↦ (false, db)
            | some counted ↦ (
              true,
              record counted {
                cloud_download_sessions =
                    insert token_hash (record session { counted_at = some (to_i64 now) })
                      db.cloud_download_sessions;
              },
            )
          ]
    ]

unfoldable pub mark_cloud_share_completed :
    String → (total_size created_at : ℕ) → Database → Database
unfolding to_i64
mark_cloud_share_completed share_id total_size created_at db =
    elim (lookup share_id db.cloud_shares) [
      | none ↦ db
      | some row ↦
          (let completion : UsageEvent = record {
            user_id = row.owner_user_id;
            share_id = row.id;
            bytes = to_i64 total_size;
            created_at = to_i64 created_at;
          } in
            record db {
              cloud_shares = insert share_id (record row { completed = true }) db.cloud_shares;
              cloud_usage_events = completion ∷ db.cloud_usage_events;
            })
    ]

unfoldable pub mark_cloud_share_deleted : String → ℕ → Database → Database
unfolding to_i64
mark_cloud_share_deleted share_id deleted_at db = record db {
  cloud_shares = elim (lookup share_id db.cloud_shares) [
    | none ↦ db.cloud_shares
    | some row ↦
        insert share_id (record row { deleted_at = some (to_i64 deleted_at) }) db.cloud_shares
  ];
  cloud_download_sessions =
      retain (λ _ (row : SessionRow). not (row.share_id == share_id)) db.cloud_download_sessions;
}

abbrev pub of_row : FileRow → CloudFileManifest
of_row row = record {
  id = row.id;
  name = row.name;
  path = row.path;
  size = row.size;
  content_type = row.content_type;
  last_modified = row.last_modified;
  object_key = row.object_key;
}

-- The rows of a share, as the map holds them.
unfoldable pub files_of : String → Map String FileRow → List CloudFileManifest
files_of share_id [] = []
files_of share_id ((id, row) ∷ rows) =
    let others = files_of share_id rows in
    if row.share_id == share_id then of_row row ∷ others else others

-- `order_by` is the order of the database by path and identifier.
unfoldable pub read_cloud_share :
    (order_by : List CloudFileManifest → List CloudFileManifest)
    → String
    → Database
    → Option CloudShareManifest
unfolding live_share files_of
read_cloud_share order_by share_id db =
    map_option
      (λ (row : ShareRow). record {
        share_id = row.id;
        root_name = row.root_name;
        total_size = row.total_size;
        total_files = row.total_files;
        created_at = row.created_at;
        expires_at = row.expires_at;
        completed = row.completed;
        files = order_by (files_of share_id db.cloud_share_files);
      })
      (live_share share_id db)
