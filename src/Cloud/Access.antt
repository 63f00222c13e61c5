-- ===== src/Cloud/Access.antt =====
-- Who may look at a cloud share and download its files, of src/handlers/cloud_share.rs.
pub mod Download
use ponswarp_signaling_rs.Common.{
  ℕ, ◌-◌, String, Bool, true, false, ◌&&◌, ◌||◌, not, List, [], ◌∷◌, Option, none, some, is_some,
  if◌then◌else◌,
}
use ponswarp_signaling_rs.Common.Text.{◌<>◌, is_empty, trim}
use ponswarp_signaling_rs.Manifest.{CloudFileManifest, CloudShareManifest, CloudShareAccessRecord}
use ponswarp_signaling_rs.Database.Shares.{
  cloud_share_access, insert_cloud_download_session, cloud_download_session_exists,
  consume_download_session,
}
use ponswarp_signaling_rs.Cloud.Names.{sanitize_ascii_filename}
use ponswarp_signaling_rs.Cloud.Multipart.{presign}
use ponswarp_signaling_rs.Cloud.Secrets.{token_hash, verify_password_hash}
use ponswarp_signaling_rs.Cloud.Storage.{find_file, read_share_manifest, reject_expired}
use ponswarp_signaling_rs.Cloud.World.{
  CloudShareError, not_found, conflict, forbidden, Result, ok, err, Setting, World, Action, pure,
  raise, or_raise, ◌>>=◌, ◌>>◌, raise_if, unix_now, random_text, query, execute, cloud_storage,
}

pub record CloudShareAccessQuery : Type 0 where
  pub password : Option String
  pub download_session_token : Option String

pub record AuthorizedCloudAccess : Type 0 where
  pub download_session_token : Option String
  pub requires_password : Bool

pub record PublicCloudFile : Type 0 where
  pub id : String
  pub name : String
  pub path : String
  pub size : ℕ
  pub content_type : String
  pub last_modified : Option ℕ

pub record PublicCloudShareResponse : Type 0 where
  pub share_id : String
  pub root_name : String
  pub total_size : ℕ
  pub total_files : ℕ
  pub created_at : ℕ
  pub expires_at : ℕ
  pub seconds_until_expiry : ℕ
  pub completed : Bool
  pub requires_password : Bool
  pub download_session_token : Option String
  pub files : List PublicCloudFile

unfoldable pub public_files : List CloudFileManifest → List PublicCloudFile
public_files [] = []
public_files (file ∷ files) =
    record {
      id = file.id;
      name = file.name;
      path = file.path;
      size = file.size;
      content_type = file.content_type;
      last_modified = file.last_modified;
    }
    ∷ public_files files

-- A token that is given and not blank.
abbrev pub given : Option String → Option String
given none = none
given (some token) = if is_empty (trim token) then none else some token

module _ (s : Setting) where
  unfoldable pub public_share :
      CloudShareManifest
      → (download_session_token : Option String) → (requires_password : Bool)
      → Action PublicCloudShareResponse
  unfolding public_files
  public_share manifest download_session_token requires_password = do
    now ← unix_now s
    pure (record {
      share_id = manifest.share_id;
      root_name = manifest.root_name;
      total_size = manifest.total_size;
      total_files = manifest.total_files;
      created_at = manifest.created_at;
      expires_at = manifest.expires_at;
      seconds_until_expiry = manifest.expires_at - now;
      completed = manifest.completed;
      requires_password = requires_password;
      download_session_token = download_session_token;
      files = public_files manifest.files;
    })

  abbrev pub open_access : Action AuthorizedCloudAccess
  open_access = pure (record { download_session_token = none; requires_password = false })

  -- The session that is given, if it is one of the share.
  unfoldable pub has_session : (share_id : String) → Option String → Action Bool
  unfolding token_hash
  has_session share_id none = pure false
  has_session share_id (some token) = do
    now ← unix_now s
    query s λ db. (cloud_download_session_exists share_id (token_hash s token) now db, db)

  unfoldable pub check_password : (expected password : Option String) → Action (Unit {0})
  unfolding verify_password_hash
  check_password none password = pure tt
  check_password (some expected) none = raise (forbidden "Password required")
  check_password (some expected) (some password) =
      raise_if (not (verify_password_hash s password expected)) (forbidden "Invalid password")

  unfoldable pub new_session :
      CloudShareManifest → (protected : Bool) → Action AuthorizedCloudAccess
  unfolding token_hash
  new_session manifest protected = do
    token ← random_text s
    now ← unix_now s
    execute s (
        insert_cloud_download_session manifest.share_id (token_hash s token) now
          manifest.expires_at)
    pure (record { download_session_token = some token; requires_password = protected })

  abbrev pub admit_known :
      CloudShareManifest
      → CloudShareAccessRecord
      → CloudShareAccessQuery
      → Bool
      → Action AuthorizedCloudAccess
  admit_known manifest access request true = pure (record {
    download_session_token = request.download_session_token;
    requires_password = is_some access.password_hash;
  })
  admit_known manifest access request false =
      check_password access.password_hash request.password
      >> new_session manifest (is_some access.password_hash)

  unfoldable pub authorize_guarded :
      CloudShareManifest
      → CloudShareAccessRecord
      → CloudShareAccessQuery
      → Action AuthorizedCloudAccess
  unfolding has_session check_password new_session
  authorize_guarded manifest access request = do
    known ← has_session manifest.share_id (given request.download_session_token)
    admit_known manifest access request known

  abbrev pub is_guarded : CloudShareAccessRecord → Bool
  is_guarded access = is_some access.password_hash || is_some access.download_limit

  abbrev pub authorize_public :
      CloudShareManifest
      → CloudShareAccessQuery
      → Option CloudShareAccessRecord
      → Action AuthorizedCloudAccess
  authorize_public manifest request none = open_access
  authorize_public manifest request (some access) =
      if is_guarded access then authorize_guarded manifest access request else open_access

  unfoldable pub authorize_public_access :
      CloudShareManifest → CloudShareAccessQuery → Action AuthorizedCloudAccess
  unfolding authorize_guarded
  authorize_public_access manifest request =
      if s.has_database
      then (query s λ db. (cloud_share_access manifest.share_id db, db))
        >>= authorize_public manifest request
      else open_access

  abbrev pub consume_session :
      CloudShareManifest
      → (token : Option String) → Option CloudShareAccessRecord
      → Action (Unit {0})
  consume_session manifest token none = pure tt
  consume_session manifest token (some access) =
      if is_guarded access
      then (do
        token ← or_raise (given token) (forbidden "Download session required")
        now ← unix_now s
        allowed ← query s (consume_download_session manifest.share_id (token_hash s token) now)
        raise_if (not allowed) (forbidden "Download limit reached"))
      else pure tt

  unfoldable pub authorize_file_download :
      CloudShareManifest → (token : Option String) → Action (Unit {0})
  unfolding token_hash
  authorize_file_download manifest token =
      if s.has_database
      then (query s λ db. (cloud_share_access manifest.share_id db, db))
        >>= consume_session manifest token
      else pure tt

  unfoldable pub read_public_share :
      (share_id : String) → CloudShareAccessQuery → Action PublicCloudShareResponse
  unfolding read_share_manifest reject_expired authorize_public_access public_share
  read_public_share share_id request = do
    cloud_storage s
    manifest ← read_share_manifest s share_id
    reject_expired s manifest
    access ← authorize_public_access manifest request
    public_share manifest access.download_session_token access.requires_password

  unfoldable pub download_cloud_file_inner :
      (share_id file_id : String) → (token : Option String) → Action String
  unfolding read_share_manifest reject_expired authorize_file_download find_file presign
      sanitize_ascii_filename
  download_cloud_file_inner share_id file_id token = do
    cloud_storage s
    manifest ← read_share_manifest s share_id
    reject_expired s manifest
    raise_if (not manifest.completed) (conflict "Share upload is not complete yet")
    file ← or_raise (find_file file_id manifest.files) (not_found "File not found")
    authorize_file_download manifest token
    presign s ("GET attachment; filename=\"" <> sanitize_ascii_filename file.name <> "\"")
        file.object_key s.cloud.download_url_ttl_seconds
