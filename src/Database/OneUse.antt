-- ===== src/Database/OneUse.antt =====
-- That a drop pass is used once, of `consume_drop_pass` in src/database.rs, whatever is bought or
-- delivered again.
use ponswarp_signaling_rs.Common.{
  ℕ, String, Bool, true, false, ◌&&◌, ◌||◌, not, List, [], ◌∷◌, Option, none, some, ◌==◌, string_eq,
  ◌≡◌, refl, arith, eq_iff, Option-cases, Bool-cases, inl, inr, ◌≢◌, sym, ◌∙◌,
}
use ponswarp_signaling_rs.Manifest.{EntitlementRecord}
use ponswarp_signaling_rs.Database.{PassRow, Database}
use ponswarp_signaling_rs.Database.Shares.{
  insert_cloud_share, insert_cloud_download_session, consume_download_session, count_download,
  mark_cloud_share_completed, mark_cloud_share_deleted,
}
use ponswarp_signaling_rs.Database.Users.{
  upsert, find, holds, try_record_paypal_event, try_record_lemonsqueezy_event,
}
use ponswarp_signaling_rs.Database.Passes.{
  OrderEntitlement, consume_rows, consume_drop_pass, pass_matches, renewed, paying_user,
  upsert_paypal_order_entitlement, upsert_lemonsqueezy_order_entitlement,
}
use ponswarp_signaling_rs.Database.Subscriptions.{
  resolve_entitlement, subscription_matches, subscribing_user, set_paypal_subscription_status,
  set_lemonsqueezy_subscription_status, upsert_paypal_subscription_entitlement,
  upsert_lemonsqueezy_subscription_entitlement,
}
use ponswarp_signaling_rs.Database.Statements.{
  Statement, insert_share, insert_session, consume_session, complete_share, delete_share,
  consume_pass, paypal_order, lemonsqueezy_order, paypal_subscription, lemonsqueezy_subscription,
  paypal_status, lemonsqueezy_status, paypal_event, lemonsqueezy_event, apply, run_statements,
}

-- Every row of the pass is used up.
abbrev AreSpent : String → List PassRow → Type 0
AreSpent id [] = Unit
AreSpent id (row ∷ rows) = ((row.id == id) ≡ true → row.status ≡ "consumed") × AreSpent id rows

abbrev pub IsSpent : String → Database → Type 0
IsSpent id db = AreSpent id db.drop_passes

consume_rows-AreSpent_other :
    (id other : String) (rows : List PassRow)
    → AreSpent id rows
    → AreSpent id (consume_rows other rows).1
unfolding consume_rows
consume_rows-AreSpent_other id other [] h = tt
consume_rows-AreSpent_other id other (row ∷ rows) (h, hs) =
    ground (arith, consume_rows-AreSpent_other id other rows hs)

upsert-AreSpent :
    (id : String) (conflicts : PassRow → Bool) (update : PassRow → PassRow) (made : PassRow)
    (rows : List PassRow)
    → ((row : PassRow) → (update row).id ≡ row.id)
    → ((row : PassRow) → row.status ≡ "consumed" → (update row).status ≡ "consumed")
    → (made.id == id) ≡ false
    → AreSpent id rows
    → AreSpent id (upsert conflicts update made rows)
unfolding upsert
upsert-AreSpent id conflicts update made [] same keeps new h = (λ e. cc, tt)
upsert-AreSpent id conflicts update made (row ∷ rows) same keeps new (h, hs) =
    ground
      (arith, same row, keeps row, upsert-AreSpent id conflicts update made rows same keeps new hs)

renewed-id :
    (user_id : Option String) (input : OrderEntitlement) (row : PassRow)
    → (renewed user_id input row).id ≡ row.id
renewed-id user_id input row = refl

renewed-spent :
    (user_id : Option String) (input : OrderEntitlement) (row : PassRow)
    → row.status ≡ "consumed"
    → (renewed user_id input row).status ≡ "consumed"
renewed-spent user_id input row e = ground (arith, e, eq_iff row.status "consumed")

-- Whether the statement may insert a pass under this identifier.
abbrev makes_pass : String → Statement → Bool
makes_pass id (paypal_order fresh _ _ _ _) = fresh == id
makes_pass id (lemonsqueezy_order fresh _ _ _ _) = fresh == id
makes_pass id _ = false

abbrev pub any_makes_pass : String → List Statement → Bool
any_makes_pass id [] = false
any_makes_pass id (statement ∷ rest) = makes_pass id statement || any_makes_pass id rest

consume_session-passes :
    (share_id token : String) (now : ℕ) (db : Database)
    → (consume_download_session share_id token now db).1.drop_passes ≡ db.drop_passes
unfolding consume_download_session count_download
consume_session-passes share_id token now db = ground arith

-- The statements that leave the table of passes alone.
abbrev is_other : Statement → Bool
is_other (consume_pass _) = false
is_other (paypal_order _ _ _ _ _) = false
is_other (lemonsqueezy_order _ _ _ _ _) = false
is_other _ = true

other-passes :
    (statement : Statement) (db : Database)
    → is_other statement ≡ true
    → (apply statement db).drop_passes ≡ db.drop_passes
unfolding apply insert_cloud_share insert_cloud_download_session consume_download_session
    count_download mark_cloud_share_completed mark_cloud_share_deleted
    set_paypal_subscription_status set_lemonsqueezy_subscription_status
    upsert_paypal_subscription_entitlement upsert_lemonsqueezy_subscription_entitlement
    subscribing_user try_record_paypal_event try_record_lemonsqueezy_event
other-passes (consume_pass _) db h = cc
other-passes (paypal_order _ _ _ _ _) db h = cc
other-passes (lemonsqueezy_order _ _ _ _ _) db h = cc
other-passes (insert_share a b) db h = ground arith
other-passes (insert_session a b c d) db h = ground arith
other-passes (consume_session a b c) db h = ground arith
other-passes (complete_share a b c) db h = ground arith
other-passes (delete_share a b) db h = ground arith
other-passes (paypal_subscription a b c d e f) db h = ground arith
other-passes (lemonsqueezy_subscription a b) db h = ground arith
other-passes (paypal_status a b c) db h = ground arith
other-passes (lemonsqueezy_status a b c) db h = ground arith
other-passes (paypal_event a) db h = ground arith
other-passes (lemonsqueezy_event a) db h = ground arith

apply-IsSpent :
    (id : String) (statement : Statement) (db : Database)
    → IsSpent id db
    → makes_pass id statement ≡ false
    → IsSpent id (apply statement db)
unfolding apply consume_drop_pass upsert_paypal_order_entitlement
    upsert_lemonsqueezy_order_entitlement
apply-IsSpent id (consume_pass other) db h new =
    consume_rows-AreSpent_other id other db.drop_passes h
apply-IsSpent id (paypal_order f u o c input) db h new =
    let user = (paying_user u input.user_id input.email input.created_at db).0 in
    upsert-AreSpent id _ (λ row. record (renewed user input row) { paypal_capture_id = some c }) _
      db.drop_passes (λ row. refl) (renewed-spent user input) new h
apply-IsSpent id (lemonsqueezy_order f u o c input) db h new =
    let user = (paying_user u input.user_id input.email input.created_at db).0 in
    upsert-AreSpent id _ (λ row. record (renewed user input row) { lemonsqueezy_order_id = some o })
      _ db.drop_passes (λ row. refl) (renewed-spent user input) new h
apply-IsSpent id (insert_share a b) db h new = rw (other-passes (insert_share a b) db refl) h
apply-IsSpent id (insert_session a b c d) db h new =
    rw (other-passes (insert_session a b c d) db refl) h
apply-IsSpent id (consume_session a b c) db h new =
    rw (other-passes (consume_session a b c) db refl) h
apply-IsSpent id (complete_share a b c) db h new =
    rw (other-passes (complete_share a b c) db refl) h
apply-IsSpent id (delete_share a b) db h new = rw (other-passes (delete_share a b) db refl) h
apply-IsSpent id (paypal_subscription a b c d e f) db h new =
    rw (other-passes (paypal_subscription a b c d e f) db refl) h
apply-IsSpent id (lemonsqueezy_subscription a b) db h new =
    rw (other-passes (lemonsqueezy_subscription a b) db refl) h
apply-IsSpent id (paypal_status a b c) db h new = rw (other-passes (paypal_status a b c) db refl) h
apply-IsSpent id (lemonsqueezy_status a b c) db h new =
    rw (other-passes (lemonsqueezy_status a b c) db refl) h
apply-IsSpent id (paypal_event a) db h new = rw (other-passes (paypal_event a) db refl) h
apply-IsSpent id (lemonsqueezy_event a) db h new =
    rw (other-passes (lemonsqueezy_event a) db refl) h

run_statements-IsSpent :
    (id : String) (statements : List Statement) (db : Database)
    → IsSpent id db
    → any_makes_pass id statements ≡ false
    → IsSpent id (run_statements statements db)
unfolding run_statements
run_statements-IsSpent id [] db h new = h
run_statements-IsSpent id (statement ∷ rest) db h new =
    run_statements-IsSpent id rest (apply statement db)
      (apply-IsSpent id statement db h (ground (arith, new))) (ground (arith, new))

-- No row has the identifier; and at most one has it, which is the primary key.
abbrev is_absent : String → List PassRow → Bool
is_absent id [] = true
is_absent id (row ∷ rows) = not (row.id == id) && is_absent id rows

abbrev pub IsUnique : String → List PassRow → Type 0
IsUnique id [] = Unit
IsUnique id (row ∷ rows) = ((row.id == id) ≡ true → is_absent id rows ≡ true) × IsUnique id rows

consume_rows-absent :
    (id : String) (rows : List PassRow)
    → is_absent id rows ≡ true
    → ((consume_rows id rows).0 ≡ false) × AreSpent id (consume_rows id rows).1
unfolding consume_rows
consume_rows-absent id [] h = (refl, tt)
consume_rows-absent id (row ∷ rows) h = ground (arith, consume_rows-absent id rows)

consume_rows-AreSpent :
    (id : String) (rows : List PassRow)
    → IsUnique id rows
    → (consume_rows id rows).0 ≡ true
    → AreSpent id (consume_rows id rows).1
unfolding consume_rows
consume_rows-AreSpent id [] h e = tt
consume_rows-AreSpent id (row ∷ rows) (h, hs) e =
    ground (arith, e, consume_rows-AreSpent id rows hs, consume_rows-absent id rows)

consumed_ne_active : ◌≢◌ {A = String} "consumed" "active"
consumed_ne_active e = cc ((eq_iff "consumed" "active").1 e)

pass_matches-active :
    (token : String) (now : ℕ) (row : PassRow)
    → pass_matches token now row ≡ true
    → row.status ≡ "active"
pass_matches-active token now row h = ground (arith, h, eq_iff row.status "active")

find-AreSpent :
    (id token : String) (now : ℕ) (rows : List PassRow) (row : PassRow)
    → AreSpent id rows
    → find (pass_matches token now) rows ≡ some row
    → (row.id == id) ≡ false
unfolding find
find-AreSpent id token now [] row h e = cc
find-AreSpent id token now (first ∷ rows) row (h, hs) e =
    elim (Bool-cases (pass_matches token now first)) [
      | inl found ↦ ground (
        arith,
        e,
        found,
        h,
        pass_matches-active token now first found,
        λ (same : (first.id == id) ≡ true).
            consumed_ne_active (sym (h same) ∙ pass_matches-active token now first found),
      )
      | inr other ↦ find-AreSpent id token now rows row hs (ground (arith, e, other))
    ]

-- Whether an entitlement is that of a pass.
abbrev pub grants : String → Option EntitlementRecord → Bool
grants id none = false
grants id (some found) = holds found.drop_pass_id id

consume_rows-spent :
    (id : String) (rows : List PassRow) → AreSpent id rows → (consume_rows id rows).0 ≡ false
unfolding consume_rows
consume_rows-spent id [] h = refl
consume_rows-spent id (row ∷ rows) (h, hs) =
    ground (arith, h, consume_rows-spent id rows hs, consumed_ne_active, eq_iff row.status "active")

resolve_entitlement-spent :
    (id token : String) (now : ℕ) (db : Database)
    → IsSpent id db
    → grants id (resolve_entitlement token now db) ≡ false
unfolding resolve_entitlement
resolve_entitlement-spent id token now db h =
    elim (Option-cases (find (pass_matches token now) db.drop_passes)) [
      | inl e ↦ elim (Option-cases (find (subscription_matches token) db.subscriptions)) [
        | inl f ↦ rw (resolve_entitlement, e, f) refl
        | inr (row, f) ↦ rw (resolve_entitlement, e, f) refl
      ]
      | inr (row, e) ↦
          rw (resolve_entitlement, e) (find-AreSpent id token now db.drop_passes row h e)
    ]

-- Once `consume_drop_pass` has used a pass up, no token entitles to it again and it is not used
-- up a second time, whatever statements run then, those of its own order included, as long as
-- none of them makes a pass under its identifier.
pub consume_drop_pass-resolve_entitlement :
    (id token : String) (now : ℕ) (statements : List Statement) (db : Database)
    → IsUnique id db.drop_passes
    → (consume_drop_pass id db).0 ≡ true
    → any_makes_pass id statements ≡ false
    → ((consume_drop_pass id (run_statements statements (consume_drop_pass id db).1)).0 ≡ false)
      × (grants id
            (resolve_entitlement token now (run_statements statements (consume_drop_pass id db).1))
          ≡ false)
unfolding consume_drop_pass
consume_drop_pass-resolve_entitlement id token now statements db unique used new =
    let spent =
      run_statements-IsSpent id statements (consume_drop_pass id db).1
        (consume_rows-AreSpent id db.drop_passes unique used) new in
    (consume_rows-spent id _ spent, resolve_entitlement-spent id token now _ spent)
