-- ===== src/Database/Downloads.antt =====
-- The downloads of a limited share: `consume_download_session` of src/database.rs against counted
-- tickets.
use mathlib.Core.Path.{fun_ext}
use ponswarp_signaling_rs.Common.{
  ℕ, suc, String, Bool, true, false, ◌&&◌, ◌||◌, Option, none, some, ltb, if◌then◌else◌, ◌==◌,
  string_eq, is_some, ◌≡◌, refl, arith, Bool-cases, inl, inr,
}
use ponswarp_signaling_rs.Common.Map.{Map, lookup, insert, lookup-insert, lookup-insert_self}
use ponswarp_signaling_rs.Database.{to_i64, ShareRow, SessionRow, Database}
use ponswarp_signaling_rs.Database.Shares.{
  live_share, open_session, has_room, count_download, consume_download_session,
}

-- What a limited share promises: a number of tickets, each of which a holder keeps.
pub record Tickets : Type 0 where
  pub limit : Option ℕ
  pub used : ℕ
  pub is_holder : String → Bool

abbrev pub has_ticket : Tickets → Bool
has_ticket t = elim t.limit [ none ↦ true | some limit ↦ ltb t.used limit ]

-- A holder is let in again; a newcomer takes a ticket if there is one.
abbrev pub admit : String → Tickets → Bool × Tickets
admit token t =
    if t.is_holder token
    then (true, t)
    else if has_ticket t
    then (
      true,
      record t { used = suc t.used; is_holder = λ other. token == other || t.is_holder other },
    )
    else (false, t)

-- Whether the session of a token is of this share and was counted.
abbrev pub is_counted : String → Option SessionRow → Bool
is_counted share_id none = false
is_counted share_id (some session) = session.share_id == share_id && is_some session.counted_at

-- A share that is there, seen as tickets, whose holders are the tokens by their digests.
abbrev pub tickets : String → Database → ShareRow → Tickets
tickets share_id db row = record {
  limit = row.download_limit;
  used = row.download_count;
  is_holder = λ token. is_counted share_id (lookup token db.cloud_download_sessions);
}

pub live_share-some :
    (share_id : String) (db : Database) (row : ShareRow)
    → live_share share_id db ≡ some row
    → (lookup share_id db.cloud_shares ≡ some row) × (is_some row.deleted_at ≡ false)
unfolding live_share
live_share-some share_id db row live = ground arith

pub open_session-some :
    (share_id token : String) (now : ℕ) (db : Database) (session : SessionRow)
    → open_session share_id token now db ≡ some session
    → (lookup token db.cloud_download_sessions ≡ some session)
      × ((session.share_id == share_id) ≡ true)
unfolding open_session
open_session-some share_id token now db session found = ground arith

-- What an accepted first download leaves.
abbrev counted_row : ShareRow → ShareRow
counted_row row = record row { download_count = suc row.download_count }

count_download-some :
    (share_id : String) (db : Database) (row : ShareRow)
    → live_share share_id db ≡ some row
    → has_room row ≡ true
    → count_download share_id db
      ≡ some (record db { cloud_shares = insert share_id (counted_row row) db.cloud_shares })
unfolding count_download
count_download-some share_id db row live room = rw (live, count_download, room) refl

count_download-none :
    (share_id : String) (db : Database) (row : ShareRow)
    → live_share share_id db ≡ some row
    → has_room row ≡ false
    → count_download share_id db ≡ none
unfolding count_download
count_download-none share_id db row live full = rw (live, count_download, full) refl

abbrev marked : ℕ → SessionRow → SessionRow
marked now session = record session { counted_at = some (to_i64 now) }

is_counted-insert :
    (share_id token other : String) (now : ℕ) (db : Database) (session : SessionRow)
    → (session.share_id == share_id) ≡ true
    → is_counted share_id
        (lookup other (insert token (marked now session) db.cloud_download_sessions))
      ≡ (token == other || is_counted share_id (lookup other db.cloud_download_sessions))
is_counted-insert share_id token other now db session mine =
    rw (lookup-insert token other (marked now session) db.cloud_download_sessions)
      (ground (arith, mine))

-- The three ways that a download by an open session goes.
module _ (share_id token : String) (now : ℕ) (db : Database) (row : ShareRow) (session : SessionRow)
    (live : live_share share_id db ≡ some row)
    (found : open_session share_id token now db ≡ some session) where
  consume_counted :
      is_some session.counted_at ≡ true
      → consume_download_session share_id token now db ≡ (true, db)
  unfolding consume_download_session
  consume_counted again = rw (found, consume_download_session, again) refl

  consume_full :
      is_some session.counted_at ≡ false
      → has_room row ≡ false
      → consume_download_session share_id token now db ≡ (false, db)
  unfolding consume_download_session
  consume_full first full =
      rw (found, consume_download_session, first, count_download-none share_id db row live full)
        refl

  consume_first :
      is_some session.counted_at ≡ false
      → has_room row ≡ true
      → consume_download_session share_id token now db ≡ (
        true,
        record db {
          cloud_shares = insert share_id (counted_row row) db.cloud_shares;
          cloud_download_sessions = insert token (marked now session) db.cloud_download_sessions;
        },
      )
  unfolding consume_download_session
  consume_first first room =
      rw (found, consume_download_session, first, count_download-some share_id db row live room)
        refl

live_share-insert :
    (share_id : String) (db : Database) (row : ShareRow) (sessions : Map String SessionRow)
    → is_some row.deleted_at ≡ false
    → live_share share_id (record db {
      cloud_shares = insert share_id row db.cloud_shares;
      cloud_download_sessions = sessions;
    })
      ≡ some row
unfolding live_share
live_share-insert share_id db row sessions live =
    rw (live_share, lookup-insert_self share_id row db.cloud_shares, live) refl

-- Whether a share is there whose tables say what the tickets say.
abbrev pub Shows : String → Database → Tickets → Type 0
Shows share_id db t =
    (row : ShareRow) × (live_share share_id db ≡ some row) × (tickets share_id db row ≡ t)

-- For a share that is not deleted and a session of it that is open, a download is let in exactly
-- when the tickets admit the token, and the tables show the tickets that are left.
pub consume_download_session-admit :
    (share_id token : String) (now : ℕ) (db : Database) (row : ShareRow) (session : SessionRow)
    → live_share share_id db ≡ some row
    → open_session share_id token now db ≡ some session
    → ((consume_download_session share_id token now db).0
        ≡ (admit token (tickets share_id db row)).0)
      × Shows share_id
          (consume_download_session share_id token now db).1
          (admit token (tickets share_id db row)).1
consume_download_session-admit share_id token now db row session live found =
    let (stored, mine) = open_session-some share_id token now db session found in
    elim (Bool-cases (is_some session.counted_at)) [
      | inl again ↦
          rw
            (
              consume_counted share_id token now db row session live found again,
              stored,
              mine,
              again,
            )
            (refl, (row, live, refl))
      | inr first ↦ elim (Bool-cases (has_room row)) [
        | inr full ↦
            rw
              (
                consume_full share_id token now db row session live found first full,
                stored,
                mine,
                first,
                full,
              )
              (refl, (row, live, refl))
        | inl room ↦
            rw
              (
                consume_first share_id token now db row session live found first room,
                stored,
                mine,
                first,
                room,
              )
              (
                refl,
                (
                  counted_row row,
                  live_share-insert share_id db (counted_row row)
                      (insert token (marked now session) db.cloud_download_sessions)
                      (live_share-some share_id db row live).1,
                  λ i. record {
                    limit = row.download_limit;
                    used = suc row.download_count;
                    is_holder =
                        fun_ext
                          (λ other. is_counted-insert share_id token other now db session mine) i;
                  },
                ),
              )
      ]
    ]
