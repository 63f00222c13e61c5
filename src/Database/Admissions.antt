-- ===== src/Database/Admissions.antt =====
-- How many holders of a token are let in to a limited share over all statements of
-- src/database.rs.
pub mod Consume
pub mod Limited
use ponswarp_signaling_rs.Common.{
  ℕ, suc, ◌≤◌, String, Bool, true, false, ◌&&◌, not, List, [], ◌∷◌, Option, none, some, is_some,
  string_eq, if◌then◌else◌, ◌==◌, eq_iff, length, ◌≡◌, refl, sym, arith, Option-cases, Bool-cases,
  inl, inr,
}
use ponswarp_signaling_rs.Common.Map.{
  Map, lookup, contains_key, insert, kept, Distinct, lookup-insert, lookup-retain, insert-Distinct,
  retain-Distinct,
}
use ponswarp_signaling_rs.Common.NameSet
use ponswarp_signaling_rs.Manifest.{CloudShareManifest, CloudSharePolicyRecord}
use ponswarp_signaling_rs.Database.{to_i64, ShareRow, SessionRow, Database}
use ponswarp_signaling_rs.Database.Shares.{
  insert_share_row, insert_cloud_share, insert_cloud_download_session, live_share, open_session,
  has_room, count_download, consume_download_session, mark_cloud_share_completed,
  mark_cloud_share_deleted,
}
use ponswarp_signaling_rs.Database.Users.{try_record_paypal_event, try_record_lemonsqueezy_event}
use ponswarp_signaling_rs.Database.Passes.{
  upsert_paypal_order_entitlement, upsert_lemonsqueezy_order_entitlement, consume_drop_pass,
  paying_user,
}
use ponswarp_signaling_rs.Database.Subscriptions.{
  set_paypal_subscription_status, set_lemonsqueezy_subscription_status, subscribing_user,
  upsert_paypal_subscription_entitlement, upsert_lemonsqueezy_subscription_entitlement,
}
use ponswarp_signaling_rs.Database.Statements.{
  Statement, insert_share, insert_session, consume_session, complete_share, delete_share,
  consume_pass, paypal_order, lemonsqueezy_order, paypal_subscription, lemonsqueezy_subscription,
  paypal_status, lemonsqueezy_status, paypal_event, lemonsqueezy_event, apply, run_statements,
}
use ponswarp_signaling_rs.Database.Downloads.{is_counted, live_share-some, open_session-some}
use ponswarp_signaling_rs.Database.Limits.{
  IsWithin, is_fresh, AreFresh, is_other, other-shares, run_statements-IsWithin,
}

-- The tokens that a share lets in, each of them once, a statement after the other.
abbrev pub let_in : (share_id : String) → Statement → Database → List String → List String
let_in share_id (consume_session share token now) db seen =
    if share == share_id && (consume_download_session share token now db).0
    then NameSet.insert token seen
    else seen
let_in share_id _ db seen = seen

abbrev pub admitted : (share_id : String) → List String → List Statement → Database → List String
admitted share_id seen [] db = seen
admitted share_id seen (statement ∷ rest) db =
    admitted share_id (let_in share_id statement db seen) rest (apply statement db)

-- The count of a share's downloads.
abbrev pub downloads : String → Database → ℕ
downloads share_id db = elim (lookup share_id db.cloud_shares) [
  | none ↦ 0
  | some row ↦ row.download_count
]

-- Whether the token's session is of the share and was counted.
abbrev pub is_holder : String → String → Database → Bool
is_holder share_id token db = is_counted share_id (lookup token db.cloud_download_sessions)

-- Every holder was let in, everyone who was let in is counted, and no token stands twice.
abbrev pub IsAccounted : String → List String → Database → Type 0
IsAccounted share_id seen db =
    ((token : String) → is_holder share_id token db ≡ true → NameSet.contains token seen ≡ true)
    × (length seen ≤ downloads share_id db)
    × Distinct db.cloud_download_sessions

-- A row that is no counted one of the share makes no holder.
pub is_holder-insert :
    (share_id token other : String) (row : SessionRow) (sessions : Map String SessionRow)
    → is_counted share_id (some row) ≡ false
    → is_counted share_id (lookup other (insert token row sessions)) ≡ true
    → is_counted share_id (lookup other sessions) ≡ true
is_holder-insert share_id token other row sessions not_mine held =
    elim (Bool-cases (token == other)) [
      | inl same ↦
          absurd (ground (arith, lookup-insert token other row sessions, held, same, not_mine))
      | inr apart ↦ ground (arith, lookup-insert token other row sessions, held, apart)
    ]

is_holder-kept :
    (share_id : String) (keep : String → SessionRow → Bool) (token : String)
    (found : Option SessionRow)
    → is_counted share_id (kept keep token found) ≡ true
    → is_counted share_id found ≡ true
is_holder-kept share_id keep token none held = held
is_holder-kept share_id keep token (some row) held = ground (arith, held)

module _ (share_id : String) (seen : List String) (db : Database)
    (h : IsAccounted share_id seen db) where
  pub insert_share-IsAccounted :
      (manifest : CloudShareManifest) (policy : CloudSharePolicyRecord)
      → contains_key manifest.share_id db.cloud_shares ≡ false
      → IsAccounted share_id seen (insert_cloud_share manifest policy db)
  unfolding insert_cloud_share contains_key insert_share_row
  insert_share-IsAccounted manifest policy new =
      elim (Option-cases (lookup manifest.share_id db.cloud_shares)) [
        | inr (row, e) ↦ absurd (ground (arith, e, new))
        | inl e ↦
            rw (insert_cloud_share, e)
              (
                h.0,
                ground (
                  arith,
                  h.1,
                  e,
                  eq_iff manifest.share_id share_id,
                  lookup-insert manifest.share_id share_id (insert_share_row manifest policy none)
                      db.cloud_shares,
                ),
                h.2,
              )
      ]

  pub insert_session-IsAccounted :
      (share token : String) (created expires : ℕ)
      → IsAccounted share_id seen (insert_cloud_download_session share token created expires db)
  unfolding insert_cloud_download_session
  insert_session-IsAccounted share token created expires =
      elim (Bool-cases (contains_key token db.cloud_download_sessions)) [
        | inl old ↦ rw (insert_cloud_download_session, old) h
        | inr new ↦
            rw (insert_cloud_download_session, new)
              (
                λ other held. h.0 other (
                    is_holder-insert share_id token other _ db.cloud_download_sessions
                      (ground arith) held),
                h.1,
                insert-Distinct token _ db.cloud_download_sessions h.2,
              )
      ]

  pub complete-IsAccounted :
      (share : String) (size now : ℕ)
      → IsAccounted share_id seen (mark_cloud_share_completed share size now db)
  unfolding mark_cloud_share_completed
  complete-IsAccounted share size now = elim (Option-cases (lookup share db.cloud_shares)) [
    | inl e ↦ rw (mark_cloud_share_completed, e) h
    | inr (row, e) ↦
        rw (mark_cloud_share_completed, e)
          (
            h.0,
            ground (
              arith,
              h.1,
              e,
              eq_iff share share_id,
              lookup-insert share share_id (record row { completed = true }) db.cloud_shares,
            ),
            h.2,
          )
  ]

  downloads-delete :
      (share : String) (now : ℕ)
      → downloads share_id (mark_cloud_share_deleted share now db) ≡ downloads share_id db
  unfolding mark_cloud_share_deleted
  downloads-delete share now = elim (Option-cases (lookup share db.cloud_shares)) [
    | inl e ↦ rw (mark_cloud_share_deleted, e) refl
    | inr (row, e) ↦
        rw (mark_cloud_share_deleted, e)
          (ground (
            arith,
            e,
            eq_iff share share_id,
            lookup-insert share share_id (record row { deleted_at = some (to_i64 now) })
                db.cloud_shares,
          ))
  ]

  abbrev is_outside : String → String → SessionRow → Bool
  is_outside share token row = not (row.share_id == share)

  pub delete-IsAccounted :
      (share : String) (now : ℕ) → IsAccounted share_id seen (mark_cloud_share_deleted share now db)
  unfolding mark_cloud_share_deleted
  delete-IsAccounted share now = (
    λ token held. h.0 token (
        is_holder-kept share_id (is_outside share) token (lookup token db.cloud_download_sessions)
          (rw (sym (lookup-retain (is_outside share) token db.cloud_download_sessions h.2)) held)),
    rw (downloads-delete share now) h.1,
    retain-Distinct (is_outside share) db.cloud_download_sessions h.2,
  )
