-- ===== src/Database/Admissions/Limited.antt =====
-- That a limited share lets in no more holders of a token than its limit (src/database.rs).
use ponswarp_signaling_rs.Common.{
  ℕ, ◌≤◌, String, Bool, true, false, List, [], ◌∷◌, some, string_eq, length, ◌≡◌, refl, arith,
}
use ponswarp_signaling_rs.Common.Map.{lookup, Distinct}
use ponswarp_signaling_rs.Database.{ShareRow, Database}
use ponswarp_signaling_rs.Database.Users.{try_record_paypal_event, try_record_lemonsqueezy_event}
use ponswarp_signaling_rs.Database.Passes.{
  upsert_paypal_order_entitlement, upsert_lemonsqueezy_order_entitlement, consume_drop_pass,
  paying_user,
}
use ponswarp_signaling_rs.Database.Subscriptions.{
  set_paypal_subscription_status, set_lemonsqueezy_subscription_status, subscribing_user,
  upsert_paypal_subscription_entitlement, upsert_lemonsqueezy_subscription_entitlement,
}
use ponswarp_signaling_rs.Database.Statements.{
  Statement, insert_share, insert_session, consume_session, complete_share, delete_share,
  consume_pass, paypal_order, lemonsqueezy_order, paypal_subscription, lemonsqueezy_subscription,
  paypal_status, lemonsqueezy_status, paypal_event, lemonsqueezy_event, apply, run_statements,
}
use ponswarp_signaling_rs.Database.Limits.{
  IsWithin, is_fresh, AreFresh, is_other, other-shares, run_statements-IsWithin,
}
use ponswarp_signaling_rs.Database.Admissions.{
  let_in, admitted, is_holder, IsAccounted, insert_share-IsAccounted, insert_session-IsAccounted,
  complete-IsAccounted, delete-IsAccounted,
}
use ponswarp_signaling_rs.Database.Admissions.Consume.{consume-IsAccounted}

-- The statements that leave the download sessions alone.
abbrev is_apart : Statement → Bool
is_apart (insert_session _ _ _ _) = false
is_apart statement = is_other statement

apart-sessions :
    (statement : Statement) (db : Database)
    → is_apart statement ≡ true
    → (apply statement db).cloud_download_sessions ≡ db.cloud_download_sessions
unfolding apply consume_drop_pass upsert_paypal_order_entitlement
    upsert_lemonsqueezy_order_entitlement paying_user upsert_paypal_subscription_entitlement
    upsert_lemonsqueezy_subscription_entitlement subscribing_user set_paypal_subscription_status
    set_lemonsqueezy_subscription_status try_record_paypal_event try_record_lemonsqueezy_event
apart-sessions (insert_share m p) db h = cc
apart-sessions (consume_session s t n) db h = cc
apart-sessions (complete_share s z n) db h = cc
apart-sessions (delete_share s n) db h = cc
apart-sessions (insert_session s t c e) db h = cc
apart-sessions (consume_pass a) db h = refl
apart-sessions (paypal_order a b c d e) db h = ground arith
apart-sessions (lemonsqueezy_order a b c d e) db h = ground arith
apart-sessions (paypal_subscription a b c d e f) db h = ground arith
apart-sessions (lemonsqueezy_subscription a b) db h = ground arith
apart-sessions (paypal_status a b c) db h = refl
apart-sessions (lemonsqueezy_status a b c) db h = refl
apart-sessions (paypal_event a) db h = ground arith
apart-sessions (lemonsqueezy_event a) db h = ground arith

-- The tables that the accounts are about are as they were.
apart-IsAccounted :
    (statement : Statement) (share_id : String) (seen : List String) (db : Database)
    → IsAccounted share_id seen db
    → is_apart statement ≡ true
    → is_other statement ≡ true
    → IsAccounted share_id seen (apply statement db)
apart-IsAccounted statement share_id seen db h apart other =
    rw (apart-sessions statement db apart, other-shares statement db other) h

apply-IsAccounted :
    (statement : Statement) (share_id : String) (seen : List String) (db : Database)
    → IsAccounted share_id seen db
    → is_fresh statement db ≡ true
    → IsAccounted share_id (let_in share_id statement db seen) (apply statement db)
unfolding apply
apply-IsAccounted (insert_share m p) share_id seen db h new =
    insert_share-IsAccounted share_id seen db h m p (ground (arith, new))
apply-IsAccounted (insert_session s t c e) share_id seen db h new =
    insert_session-IsAccounted share_id seen db h s t c e
apply-IsAccounted (consume_session s t n) share_id seen db h new =
    consume-IsAccounted share_id seen db h s t n
apply-IsAccounted (complete_share s z n) share_id seen db h new =
    complete-IsAccounted share_id seen db h s z n
apply-IsAccounted (delete_share s n) share_id seen db h new =
    delete-IsAccounted share_id seen db h s n
apply-IsAccounted (consume_pass a) share_id seen db h new =
    apart-IsAccounted (consume_pass a) share_id seen db h refl refl
apply-IsAccounted (paypal_order a b c d e) share_id seen db h new =
    apart-IsAccounted (paypal_order a b c d e) share_id seen db h refl refl
apply-IsAccounted (lemonsqueezy_order a b c d e) share_id seen db h new =
    apart-IsAccounted (lemonsqueezy_order a b c d e) share_id seen db h refl refl
apply-IsAccounted (paypal_subscription a b c d e f) share_id seen db h new =
    apart-IsAccounted (paypal_subscription a b c d e f) share_id seen db h refl refl
apply-IsAccounted (lemonsqueezy_subscription a b) share_id seen db h new =
    apart-IsAccounted (lemonsqueezy_subscription a b) share_id seen db h refl refl
apply-IsAccounted (paypal_status a b c) share_id seen db h new =
    apart-IsAccounted (paypal_status a b c) share_id seen db h refl refl
apply-IsAccounted (lemonsqueezy_status a b c) share_id seen db h new =
    apart-IsAccounted (lemonsqueezy_status a b c) share_id seen db h refl refl
apply-IsAccounted (paypal_event a) share_id seen db h new =
    apart-IsAccounted (paypal_event a) share_id seen db h refl refl
apply-IsAccounted (lemonsqueezy_event a) share_id seen db h new =
    apart-IsAccounted (lemonsqueezy_event a) share_id seen db h refl refl

admitted-IsAccounted :
    (statements : List Statement) (share_id : String) (seen : List String) (db : Database)
    → IsAccounted share_id seen db
    → AreFresh statements db
    → IsAccounted share_id (admitted share_id seen statements db) (run_statements statements db)
unfolding run_statements
admitted-IsAccounted [] share_id seen db h new = h
admitted-IsAccounted (statement ∷ rest) share_id seen db h (first, new) =
    admitted-IsAccounted rest share_id (let_in share_id statement db seen) (apply statement db)
      (apply-IsAccounted statement share_id seen db h first) new

-- Whatever statements run, from tables in which every count is within its limit, the tokens of the
-- sessions are distinct and none of the share's sessions is counted, as long as each share is
-- inserted under an identifier of its own: where the share's row at the end has a limit, the tokens
-- that the share has let in, each counted once, are no more than the downloads in the row, and
-- these no more than the limit. A token that was let in may be let in again, any number of times.
pub admitted-run_statements :
    (statements : List Statement) (share_id : String) (db : Database) (row : ShareRow) (limit : ℕ)
    → IsWithin db
    → Distinct db.cloud_download_sessions
    → ((token : String) → is_holder share_id token db ≡ false)
    → AreFresh statements db
    → lookup share_id (run_statements statements db).cloud_shares ≡ some row
    → row.download_limit ≡ some limit
    → (length (admitted share_id [] statements db) ≤ row.download_count)
      × (row.download_count ≤ limit)
admitted-run_statements statements share_id db row limit within distinct uncounted new found
      limited =
    let start : IsAccounted share_id [] db =
      (λ token held. ground (arith, uncounted token, held), omega arith, distinct) in
    (
      ground (arith, (admitted-IsAccounted statements share_id [] db start new).1, found),
      run_statements-IsWithin statements db within new share_id row found limit limited,
    )
