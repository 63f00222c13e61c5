-- ===== src/Cloud/Access/Download.antt =====
-- When the address of a file is given out (src/handlers/cloud_share.rs).
use ponswarp_signaling_rs.Common.{
  ℕ, suc, ◌<◌, String, true, false, ◌||◌, Option, some, is_some, leb, ◌≡◌, refl, ap, sym, ◌∙◌,
  arith, Bool-cases, Option-cases, inl, inr,
}
use ponswarp_signaling_rs.Common.Text.{◌<>◌}
use ponswarp_signaling_rs.Manifest.{CloudFileManifest, CloudShareManifest, CloudShareAccessRecord}
use ponswarp_signaling_rs.Database.{ShareRow, Database}
use ponswarp_signaling_rs.Database.Shares.{
  live_share, cloud_share_access, consume_download_session, read_cloud_share, files_of,
}
use ponswarp_signaling_rs.Cloud.Names.{sanitize_ascii_filename}
use ponswarp_signaling_rs.Cloud.Multipart.{presign}
use ponswarp_signaling_rs.Cloud.Secrets.{token_hash}
use ponswarp_signaling_rs.Cloud.Storage.{find_file, read_share_manifest, reject_expired}
use ponswarp_signaling_rs.Cloud.Access.{
  given, is_guarded, consume_session, authorize_file_download, download_cloud_file_inner,
}
use ponswarp_signaling_rs.Cloud.World.{Setting, World, Result, ok, Outcome-cases}

leb-false : (a b : ℕ) → leb a b ≡ false → b < a
leb-false a b e = ground arith

module _ (s : Setting) where
  -- A share that has a password or a limit gives no download without a session that is consumed.
  consume_session-ok :
      (manifest : CloudShareManifest) (token : Option String) (access : CloudShareAccessRecord)
      (w : World)
      → is_guarded s access ≡ true
      → (consume_session s manifest token (some access) w).0 ≡ ok tt
      → (text : String) × (given token ≡ some text)
        × (consume_session s manifest token (some access) w).1.database
          ≡ (consume_download_session manifest.share_id
              (token_hash s text)
              (s.clock w.tick)
              w.database).1
        × ((consume_download_session manifest.share_id
              (token_hash s text)
              (s.clock w.tick)
              w.database).0
            ≡ true)
  consume_session-ok manifest token access w guarded e = elim (Option-cases (given token)) [
    | inl blank ↦ absurd (ground (arith, e, guarded, blank))
    | inr (text, given_e) ↦ elim (Bool-cases (s.fails (suc w.tick))) [
      | inl broken ↦ absurd (ground (arith, e, guarded, given_e, broken))
      | inr works ↦ (
        text,
        given_e,
        ground (arith, e, guarded, given_e, works),
        ground (arith, e, guarded, given_e, works),
      )
    ]
  ]

  -- What is read for a share that is there.
  abbrev manifest_of : String → Database → ShareRow → CloudShareManifest
  manifest_of share_id db row = record {
    share_id = row.id;
    root_name = row.root_name;
    total_size = row.total_size;
    total_files = row.total_files;
    created_at = row.created_at;
    expires_at = row.expires_at;
    completed = row.completed;
    files = s.order_by (files_of share_id db.cloud_share_files);
  }

  abbrev access_of : ShareRow → CloudShareAccessRecord
  access_of row = record { password_hash = row.password_hash; download_limit = row.download_limit }

  abbrev later : World → World
  later w = record w { tick = suc w.tick }

  read_cloud_share_live :
      (share_id : String) (db : Database) (row : ShareRow)
      → row.id ≡ share_id
      → live_share share_id db ≡ some row
      → (read_cloud_share s.order_by share_id db ≡ some (manifest_of share_id db row))
        × (cloud_share_access row.id db ≡ some (access_of row))
  unfolding read_cloud_share cloud_share_access
  read_cloud_share_live share_id db row named live =
      (rw (read_cloud_share, live) refl, rw (named, cloud_share_access, live) refl)

  -- The same at the end of a download, where the address is made after it.
  consumed :
      (share_id : String) (token : Option String) (w0 w2 w3 w' : World) (row : ShareRow)
      (manifest : CloudShareManifest) (u : Unit {0}) (request key link : String) (ttl : ℕ)
      → manifest.share_id ≡ share_id
      → w2.database ≡ w0.database
      → is_guarded s (access_of row) ≡ true
      → consume_session s manifest token (some (access_of row)) w2 ≡ (ok u, w3)
      → presign s request key ttl w3 ≡ (ok link, w')
      → (text : String) × (now : ℕ) × (given token ≡ some text)
        × (consume_download_session share_id (token_hash s text) now w0.database
            ≡ (true, w'.database))
  unfolding presign
  consumed share_id token w0 w2 w3 w' row manifest u request key link ttl named from guarded r e =
      let (text, given_e, db_e, let_in) =
        consume_session-ok manifest token (access_of row) w2 guarded
          (ap (λ (p : Result (Unit {0}) × World). p.0) r) in
      let same : w'.database ≡ w3.database = elim (Bool-cases (s.fails w3.tick)) [
        | inl broken ↦ absurd (ground (arith, e, broken))
        | inr works ↦ ground (arith, e, works)
      ] in
      let left : w3.database
          ≡ (consume_download_session manifest.share_id (token_hash s text) (s.clock w2.tick)
              w2.database).1 =
        sym (ap (λ (p : Result (Unit {0}) × World). p.1.database) r) ∙ db_e in
      (text, s.clock w2.tick, given_e, cc)

  module _ (share_id file_id : String) (token : Option String) (w w' : World) (row : ShareRow)
      (link : String) where
    abbrev manifest : CloudShareManifest
    manifest = manifest_of share_id w.database row

    abbrev Granted : Type 0
    Granted = download_cloud_file_inner s share_id file_id token w ≡ (ok link, w')

    -- The tests that a download passes before its session is looked at.
    abbrev Passed : Type 0
    Passed =
        (s.has_storage ≡ true)
        × (s.fails w.tick ≡ false)
        × (leb row.expires_at (s.clock (suc w.tick)) ≡ false)
        × (row.completed ≡ true)
        × (file : CloudFileManifest) × (find_file file_id manifest.files ≡ some file)

    passed :
        s.has_database ≡ true
        → read_cloud_share s.order_by share_id w.database ≡ some manifest
        → Granted
        → Passed
    unfolding download_cloud_file_inner read_share_manifest reject_expired
    passed db read e = elim (Bool-cases s.has_storage) [
      | inr off ↦ absurd (ground (arith, e, off))
      | inl on ↦ elim (Bool-cases (s.fails w.tick)) [
        | inl broken ↦ absurd (ground (arith, e, db, on, broken))
        | inr works ↦ elim (Bool-cases (leb row.expires_at (s.clock (suc w.tick)))) [
          | inl late ↦ absurd (ground (arith, e, db, on, works, read, late))
          | inr intime ↦ elim (Bool-cases row.completed) [
            | inr unfinished ↦ absurd (ground (arith, e, db, on, works, read, intime, unfinished))
            | inl complete ↦ elim (Option-cases (find_file file_id manifest.files)) [
              | inl missing ↦
                  absurd (ground (arith, e, db, on, works, read, intime, complete, missing))
              | inr (file, found) ↦ (on, works, intime, complete, file, found)
            ]
          ]
        ]
      ]
    ]

    -- The consumption that such a download ends with.
    finish_consumed :
        s.has_database ≡ true
        → read_cloud_share s.order_by share_id w.database ≡ some manifest
        → cloud_share_access row.id w.database ≡ some (access_of row)
        → row.id ≡ share_id
        → is_guarded s (access_of row) ≡ true
        → Granted
        → Passed
        → (text : String) × (now : ℕ) × (given token ≡ some text)
          × (consume_download_session share_id (token_hash s text) now w.database
              ≡ (true, w'.database))
    unfolding download_cloud_file_inner read_share_manifest reject_expired authorize_file_download
    finish_consumed db read access named guarded e (on, works, intime, complete, file, found) =
        let w2 = later (later (later w)) in
        elim (Bool-cases (s.fails (suc (suc w.tick)))) [
          | inl broken ↦
              absurd (ground (arith, e, db, on, works, read, intime, complete, found, broken))
          | inr works' ↦
              elim (Outcome-cases (consume_session s manifest token (some (access_of row)) w2)) [
                | inr (error, w3, r) ↦ absurd (
                    ground
                      (arith, e, db, on, works, read, intime, complete, found, works', access, r))
                | inl (u, w3, r) ↦
                    consumed share_id token w w2 w3 w' row manifest u
                      ("GET attachment; filename=\"" <> sanitize_ascii_filename file.name <> "\"")
                      file.object_key link s.cloud.download_url_ttl_seconds named refl guarded r
                      (ground
                        (arith, e, db, on, works, read, intime, complete, found, works', access, r))
              ]
        ]

  -- Where there is a database with a row of the share that is not deleted, is filed under its
  -- identifier, and has a password or a download limit, a link to a file of it is only given when
  -- the share is complete and has not run out, and with a token that is not blank, whose session
  -- the database accepts for a download; it changes in nothing else.
  pub download_cloud_file_inner-consume_download_session :
      (share_id file_id : String) (token : Option String) (w w' : World) (row : ShareRow)
      (link : String)
      → s.has_database ≡ true
      → live_share share_id w.database ≡ some row
      → row.id ≡ share_id
      → is_some row.password_hash || is_some row.download_limit ≡ true
      → download_cloud_file_inner s share_id file_id token w ≡ (ok link, w')
      → (row.completed ≡ true)
        × (s.clock (suc w.tick) < row.expires_at)
        × (text : String) × (now : ℕ) × (given token ≡ some text)
        × (consume_download_session share_id (token_hash s text) now w.database
            ≡ (true, w'.database))
  download_cloud_file_inner-consume_download_session share_id file_id token w w' row link db live
        named guarded e =
      let (read, access) = read_cloud_share_live share_id w.database row named live in
      let p = passed share_id file_id token w w' row link db read e in
      let (text, now, given_e, taken) =
        finish_consumed share_id file_id token w w' row link db read access named guarded e p in
      (p.3, leb-false row.expires_at (s.clock (suc w.tick)) p.2, text, now, given_e, taken)
