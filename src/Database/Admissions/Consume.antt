-- ===== src/Database/Admissions/Consume.antt =====
-- What `consume_download_session` of src/database.rs does to the tokens that are let in.
use ponswarp_signaling_rs.Common.{
  ℕ, suc, String, true, false, List, some, is_some, string_eq, ◌==◌, eq_iff, ◌≡◌, refl, arith,
  Option-cases, Bool-cases, inl, inr,
}
use ponswarp_signaling_rs.Common.Map.{lookup, insert, lookup-insert, insert-Distinct}
use ponswarp_signaling_rs.Common.NameSet
use ponswarp_signaling_rs.Database.{to_i64, ShareRow, SessionRow, Database}
use ponswarp_signaling_rs.Database.Shares.{
  live_share, open_session, has_room, count_download, consume_download_session,
}
use ponswarp_signaling_rs.Database.Statements.{consume_session}
use ponswarp_signaling_rs.Database.Downloads.{is_counted, live_share-some, open_session-some}
use ponswarp_signaling_rs.Database.Admissions.{let_in, is_holder, IsAccounted, is_holder-insert}

module _ (share_id : String) (seen : List String) (db : Database)
    (h : IsAccounted share_id seen db) where
  module _ (share token : String) (now : ℕ) where
    -- The tokens that were let in, and the tables, after the statement.
    abbrev Consumed : Type 0
    Consumed =
        IsAccounted share_id (let_in share_id (consume_session share token now) db seen)
          (consume_download_session share token now db).1

    consume_refused : consume_download_session share token now db ≡ (false, db) → Consumed
    consume_refused r =
        rw r
          (elim (Bool-cases (share == share_id)) [ inl same ↦ rw same h | inr other ↦ rw other h ])

    consume_again :
        consume_download_session share token now db ≡ (true, db)
        → is_holder share token db ≡ true
        → Consumed
    unfolding NameSet.insert
    consume_again r held = rw r (elim (Bool-cases (share == share_id)) [
      | inr other ↦ rw other h
      | inl same ↦
          let known : NameSet.contains token seen ≡ true =
            h.0 token (ground (arith, held, same, eq_iff share share_id)) in
          rw (same, NameSet.insert, known) h
    ])

    newly_held :
        (other : String) (session : SessionRow)
        → (share == share_id) ≡ true
        → is_counted share_id (
            lookup other (
              insert token
                (record session { counted_at = some (to_i64 now) })
                db.cloud_download_sessions))
          ≡ true
        → NameSet.contains other (NameSet.insert token seen) ≡ true
    newly_held other session same held =
        rw (NameSet.contains-insert token other seen) (elim (Bool-cases (token == other)) [
          | inl it ↦ rw it refl
          | inr apart ↦
              rw
                (
                  apart,
                  h.0 other (
                      ground (
                        arith,
                        held,
                        apart,
                        lookup-insert token other
                            (record session { counted_at = some (to_i64 now) })
                            db.cloud_download_sessions,
                      )),
                )
                refl
        ])

    consume_newly :
        (row : ShareRow) (session : SessionRow)
        → consume_download_session share token now db ≡ (
          true,
          record db {
            cloud_shares =
                insert share
                  (record row { download_count = suc row.download_count })
                  db.cloud_shares;
            cloud_download_sessions =
                insert token
                  (record session { counted_at = some (to_i64 now) })
                  db.cloud_download_sessions;
          },
        )
        → lookup share db.cloud_shares ≡ some row
        → (session.share_id == share) ≡ true
        → Consumed
    consume_newly row session r live mine = rw r (elim (Bool-cases (share == share_id)) [
      | inl same ↦ rw same (
        λ other held. newly_held other session same held,
        ground (
          arith,
          h.1,
          live,
          same,
          eq_iff share share_id,
          NameSet.length-insert token seen,
          lookup-insert share share_id (record row { download_count = suc row.download_count })
              db.cloud_shares,
        ),
        insert-Distinct token _ db.cloud_download_sessions h.2,
      )
      | inr apart ↦ rw apart (
        λ other held. h.0 other (
            is_holder-insert share_id token other
              (record session { counted_at = some (to_i64 now) }) db.cloud_download_sessions
              (ground (arith, mine, apart, eq_iff session.share_id share)) held),
        ground (
          arith,
          h.1,
          apart,
          lookup-insert share share_id (record row { download_count = suc row.download_count })
              db.cloud_shares,
        ),
        insert-Distinct token _ db.cloud_download_sessions h.2,
      )
    ])

    pub consume-IsAccounted : Consumed
    unfolding consume_download_session count_download
    consume-IsAccounted = elim (Option-cases (open_session share token now db)) [
      | inl e ↦ consume_refused (rw (consume_download_session, e) refl)
      | inr (session, e) ↦
          let (found, mine) = open_session-some share token now db session e in
          elim (Bool-cases (is_some session.counted_at)) [
            | inl counted ↦
                consume_again (rw (consume_download_session, e, counted) refl)
                  (ground (arith, found, mine, counted))
            | inr first ↦ elim (Option-cases (live_share share db)) [
              | inl l ↦
                  consume_refused (rw (consume_download_session, e, first, count_download, l) refl)
              | inr (row, l) ↦ elim (Bool-cases (has_room row)) [
                | inr full ↦
                    consume_refused
                      (rw (consume_download_session, e, first, count_download, l, full) refl)
                | inl room ↦
                    consume_newly row session
                      (rw (consume_download_session, e, first, count_download, l, room) refl)
                      (live_share-some share db row l).0 mine
              ]
            ]
          ]
    ]
