-- ===== src/Database/Limits.antt =====
-- That no share is downloaded more often than its limit, over all statements of src/database.rs.
use ponswarp_signaling_rs.Common.{
  ℕ, suc, ◌≤◌, String, Bool, true, false, not, List, [], ◌∷◌, none, some, is_some, string_eq, ◌≡◌,
  refl, arith, Option-cases, Bool-cases, inl, inr,
}
use ponswarp_signaling_rs.Common.Map.{lookup, contains_key, Each, Each-insert}
use ponswarp_signaling_rs.Manifest.{CloudShareManifest, CloudSharePolicyRecord}
use ponswarp_signaling_rs.Database.{ShareRow, Database}
use ponswarp_signaling_rs.Database.Shares.{
  insert_share_row, insert_cloud_share, insert_cloud_download_session, live_share, open_session,
  has_room, count_download, consume_download_session, mark_cloud_share_completed,
  mark_cloud_share_deleted,
}
use ponswarp_signaling_rs.Database.Users.{try_record_paypal_event, try_record_lemonsqueezy_event}
use ponswarp_signaling_rs.Database.Passes.{
  upsert_paypal_order_entitlement, upsert_lemonsqueezy_order_entitlement, consume_drop_pass,
  paying_user,
}
use ponswarp_signaling_rs.Database.Subscriptions.{
  set_paypal_subscription_status, set_lemonsqueezy_subscription_status, subscribing_user,
  upsert_paypal_subscription_entitlement, upsert_lemonsqueezy_subscription_entitlement,
}
use ponswarp_signaling_rs.Database.Statements.{
  Statement, insert_share, insert_session, consume_session, complete_share, delete_share,
  consume_pass, paypal_order, lemonsqueezy_order, paypal_subscription, lemonsqueezy_subscription,
  paypal_status, lemonsqueezy_status, paypal_event, lemonsqueezy_event, apply, run_statements,
}

-- The downloads of a share are within its limit, if it has one.
abbrev pub IsInLimit : String → ShareRow → Type 0
IsInLimit id row = (limit : ℕ) → row.download_limit ≡ some limit → row.download_count ≤ limit

abbrev pub IsWithin : Database → Type 0
IsWithin db = Each IsInLimit db.cloud_shares

-- Whether a share that the statement inserts has an identifier that no row has.
abbrev pub is_fresh : Statement → Database → Bool
is_fresh (insert_share manifest policy) db = not (contains_key manifest.share_id db.cloud_shares)
is_fresh _ db = true

abbrev pub AreFresh : List Statement → Database → Type 0
AreFresh [] db = Unit
AreFresh (statement ∷ rest) db = (is_fresh statement db ≡ true) × AreFresh rest (apply statement db)

insert_share_row-IsInLimit :
    (manifest : CloudShareManifest) (policy : CloudSharePolicyRecord)
    → IsInLimit manifest.share_id (insert_share_row manifest policy none)
unfolding insert_share_row
insert_share_row-IsInLimit manifest policy limit e = ground arith

insert_share-IsWithin :
    (manifest : CloudShareManifest) (policy : CloudSharePolicyRecord) (db : Database)
    → IsWithin db
    → contains_key manifest.share_id db.cloud_shares ≡ false
    → IsWithin (insert_cloud_share manifest policy db)
unfolding insert_cloud_share contains_key
insert_share-IsWithin manifest policy db h new =
    elim (Option-cases (lookup manifest.share_id db.cloud_shares)) [
      | inr (row, e) ↦ absurd (ground (arith, e, new))
      | inl e ↦
          rw (insert_cloud_share, e)
            (Each-insert IsInLimit manifest.share_id (insert_share_row manifest policy none)
              db.cloud_shares h (insert_share_row-IsInLimit manifest policy))
    ]

counted-IsInLimit :
    (id : String) (row : ShareRow)
    → has_room row ≡ true
    → IsInLimit id (record row { download_count = suc row.download_count })
counted-IsInLimit id row room limit e = ground arith

consume-IsWithin :
    (share_id token : String) (now : ℕ) (db : Database)
    → IsWithin db
    → IsWithin (consume_download_session share_id token now db).1
unfolding consume_download_session count_download
consume-IsWithin share_id token now db h =
    elim (Option-cases (open_session share_id token now db)) [
      | inl e ↦ rw (consume_download_session, e) h
      | inr (session, e) ↦ elim (Bool-cases (is_some session.counted_at)) [
        | inl again ↦ rw (consume_download_session, e, again) h
        | inr first ↦ elim (Option-cases (live_share share_id db)) [
          | inl l ↦ rw (consume_download_session, e, first, count_download, l) h
          | inr (row, l) ↦ elim (Bool-cases (has_room row)) [
            | inr full ↦ rw (consume_download_session, e, first, count_download, l, full) h
            | inl room ↦
                rw (consume_download_session, e, first, count_download, l, room)
                  (Each-insert IsInLimit share_id
                    (record row { download_count = suc row.download_count }) db.cloud_shares h
                    (counted-IsInLimit share_id row room))
          ]
        ]
      ]
    ]

complete-IsWithin :
    (share_id : String) (size now : ℕ) (db : Database)
    → IsWithin db
    → IsWithin (mark_cloud_share_completed share_id size now db)
unfolding mark_cloud_share_completed
complete-IsWithin share_id size now db h = elim (Option-cases (lookup share_id db.cloud_shares)) [
  | inl e ↦ rw (mark_cloud_share_completed, e) h
  | inr (row, e) ↦
      rw (mark_cloud_share_completed, e)
        (Each-insert IsInLimit share_id _ db.cloud_shares h (h share_id row e))
]

delete-IsWithin :
    (share_id : String) (now : ℕ) (db : Database)
    → IsWithin db
    → IsWithin (mark_cloud_share_deleted share_id now db)
unfolding mark_cloud_share_deleted
delete-IsWithin share_id now db h = elim (Option-cases (lookup share_id db.cloud_shares)) [
  | inl e ↦ rw (mark_cloud_share_deleted, e) h
  | inr (row, e) ↦
      rw (mark_cloud_share_deleted, e)
        (Each-insert IsInLimit share_id _ db.cloud_shares h (h share_id row e))
]

-- The statements that leave the table of shares alone.
abbrev pub is_other : Statement → Bool
is_other (insert_share _ _) = false
is_other (consume_session _ _ _) = false
is_other (complete_share _ _ _) = false
is_other (delete_share _ _) = false
is_other _ = true

pub other-shares :
    (statement : Statement) (db : Database)
    → is_other statement ≡ true
    → (apply statement db).cloud_shares ≡ db.cloud_shares
unfolding apply insert_cloud_download_session consume_drop_pass upsert_paypal_order_entitlement
    upsert_lemonsqueezy_order_entitlement paying_user upsert_paypal_subscription_entitlement
    upsert_lemonsqueezy_subscription_entitlement subscribing_user set_paypal_subscription_status
    set_lemonsqueezy_subscription_status try_record_paypal_event try_record_lemonsqueezy_event
other-shares (insert_share m p) db h = cc
other-shares (consume_session s t n) db h = cc
other-shares (complete_share s z n) db h = cc
other-shares (delete_share s n) db h = cc
other-shares (insert_session s t c e) db h = ground arith
other-shares (consume_pass id) db h = refl
other-shares (paypal_order f u o c input) db h = ground arith
other-shares (lemonsqueezy_order f u o c input) db h = ground arith
other-shares (paypal_subscription f id plan user email now) db h = ground arith
other-shares (lemonsqueezy_subscription f input) db h = ground arith
other-shares (paypal_status id status now) db h = refl
other-shares (lemonsqueezy_status id status now) db h = refl
other-shares (paypal_event id) db h = ground arith
other-shares (lemonsqueezy_event id) db h = ground arith

apply-IsWithin :
    (statement : Statement) (db : Database)
    → IsWithin db
    → is_fresh statement db ≡ true
    → IsWithin (apply statement db)
unfolding apply
apply-IsWithin (insert_share m p) db h new = insert_share-IsWithin m p db h (ground (arith, new))
apply-IsWithin (consume_session s t n) db h new = consume-IsWithin s t n db h
apply-IsWithin (complete_share s z n) db h new = complete-IsWithin s z n db h
apply-IsWithin (delete_share s n) db h new = delete-IsWithin s n db h
apply-IsWithin (insert_session a b c d) db h new =
    rw (other-shares (insert_session a b c d) db refl) h
apply-IsWithin (consume_pass a) db h new = rw (other-shares (consume_pass a) db refl) h
apply-IsWithin (paypal_order a b c d e) db h new =
    rw (other-shares (paypal_order a b c d e) db refl) h
apply-IsWithin (lemonsqueezy_order a b c d e) db h new =
    rw (other-shares (lemonsqueezy_order a b c d e) db refl) h
apply-IsWithin (paypal_subscription a b c d e f) db h new =
    rw (other-shares (paypal_subscription a b c d e f) db refl) h
apply-IsWithin (lemonsqueezy_subscription a b) db h new =
    rw (other-shares (lemonsqueezy_subscription a b) db refl) h
apply-IsWithin (paypal_status a b c) db h new = rw (other-shares (paypal_status a b c) db refl) h
apply-IsWithin (lemonsqueezy_status a b c) db h new =
    rw (other-shares (lemonsqueezy_status a b c) db refl) h
apply-IsWithin (paypal_event a) db h new = rw (other-shares (paypal_event a) db refl) h
apply-IsWithin (lemonsqueezy_event a) db h new = rw (other-shares (lemonsqueezy_event a) db refl) h

-- Whatever statements run, as long as each share is inserted under an identifier of its own: no
-- share counts more downloads than its limit, if it has one.
pub run_statements-IsWithin :
    (statements : List Statement) (db : Database)
    → IsWithin db
    → AreFresh statements db
    → IsWithin (run_statements statements db)
unfolding run_statements
run_statements-IsWithin [] db h new = h
run_statements-IsWithin (statement ∷ rest) db h (first, new) =
    run_statements-IsWithin rest (apply statement db) (apply-IsWithin statement db h first) new
