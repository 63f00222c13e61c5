-- ===== src/Cloud/Create/Spent.antt =====
-- That a pass pays for one share (src/handlers/cloud_share.rs).
use ponswarp_signaling_rs.Common.{
  ℕ, suc, String, Bool, true, false, none, some, ◌≡◌, sym, ◌∙◌, subst, arith, Bool-cases,
  Option-cases, inl, inr, string_eq,
}
use ponswarp_signaling_rs.Common.Map.{Map, lookup, remove, lookup-insert_self, lookup-remove_self}
use ponswarp_signaling_rs.Manifest.{CloudShareManifest}
use ponswarp_signaling_rs.Database.{to_i64, Database}
use ponswarp_signaling_rs.Database.Shares.{insert_cloud_share, mark_cloud_share_deleted, live_share}
use ponswarp_signaling_rs.Database.Passes.{consume_drop_pass}
use ponswarp_signaling_rs.Cloud.Policy.{ResolvedCloudPolicy, policy_record}
use ponswarp_signaling_rs.Cloud.Storage.{write_manifest, delete_manifest, manifest_key}
use ponswarp_signaling_rs.Cloud.Create.{write_or_undo, mark_deleted, consume_pass, store_share}
use ponswarp_signaling_rs.Cloud.World.{
  Setting, World, ok, err, bad_request, ◌>>◌, >>=-ok, execute, with_database,
}

pair_of : (p : Bool × Database) (d : Database) → p.0 ≡ true → p.1 ≡ d → p ≡ (true, d)
pair_of p d e h = λ i. (e i, h i)

pub deleted :
    (share_id : String) (now : ℕ) (d : Database)
    → live_share share_id (mark_cloud_share_deleted share_id now d) ≡ none
unfolding live_share mark_cloud_share_deleted
deleted share_id now d = elim (Option-cases (lookup share_id d.cloud_shares)) [
  | inl missing ↦ ground (arith, missing)
  | inr (row, found) ↦ ground (
    arith,
    found,
    lookup-insert_self share_id (record row { deleted_at = some (to_i64 now) }) d.cloud_shares,
  )
]

module _ (s : Setting) (db : s.has_database ≡ true) where
  inserted :
      (policy : ResolvedCloudPolicy) (manifest : CloudShareManifest) (w w' : World) (u : Unit {0})
      → with_database s (execute s (insert_cloud_share manifest (policy_record policy))) w
        ≡ (ok u, w')
      → w'.database ≡ insert_cloud_share manifest (policy_record policy) w.database
  inserted policy manifest w w' u e = elim (Bool-cases (s.fails w.tick)) [
    | inl broken ↦ absurd (ground (arith, e, db, broken))
    | inr works ↦ ground (arith, e, db, works)
  ]

  written :
      (manifest : CloudShareManifest) (w w' : World) (u : Unit {0})
      → write_or_undo s manifest w ≡ (ok u, w')
      → (lookup (manifest_key s manifest.share_id) w'.manifests ≡ some manifest)
        × (w'.database ≡ w.database)
  unfolding write_or_undo write_manifest mark_deleted
  written manifest w w' u e = elim (Bool-cases (s.fails w.tick)) [
    | inl broken ↦ absurd (ground (arith, e, db, broken))
    | inr works ↦ (
      subst
          (λ (m : Map String CloudShareManifest).
            lookup (manifest_key s manifest.share_id) m ≡ some manifest)
          (ground (arith, e, works))
          (lookup-insert_self (manifest_key s manifest.share_id) manifest w.manifests),
      ground (arith, e, works),
    )
  ]

  spent :
      (share_id pass : String) (w w' : World) (u : Unit {0})
      → consume_pass s share_id (some pass) w ≡ (ok u, w')
      → (consume_drop_pass pass w.database ≡ (true, w'.database)) × (w'.manifests ≡ w.manifests)
  unfolding consume_pass mark_deleted delete_manifest
  spent share_id pass w w' u e = elim (Bool-cases (s.fails w.tick)) [
    | inl broken ↦ absurd (ground (arith, e, db, broken))
    | inr works ↦ elim (Bool-cases (consume_drop_pass pass w.database).0) [
      | inr unused ↦ absurd (ground (arith, e, db, works, unused))
      | inl used ↦ (
        pair_of (consume_drop_pass pass w.database) w'.database used
            (ground (arith, e, db, works, used)),
        ground (arith, e, db, works, used),
      )
    ]
  ]

  -- Where there is a database, a share that is made under a pass is stored with that pass consumed in
  -- the database in which the rows of the share have been inserted.
  pub store_share-consume_drop_pass :
      (policy : ResolvedCloudPolicy) (manifest : CloudShareManifest) (pass : String) (w w' : World)
      (u : Unit {0})
      → policy.drop_pass_id ≡ some pass
      → store_share s policy manifest w ≡ (ok u, w')
      → (consume_drop_pass pass (insert_cloud_share manifest (policy_record policy) w.database)
          ≡ (true, w'.database))
        × (lookup (manifest_key s manifest.share_id) w'.manifests ≡ some manifest)
  unfolding store_share
  store_share-consume_drop_pass policy manifest pass w w' u paid e =
      let insertion =
        with_database s (execute s (insert_cloud_share manifest (policy_record policy))) in
      let (u1, w1, e1, r1) =
        >>=-ok insertion
          (λ _. write_or_undo s manifest >> consume_pass s manifest.share_id policy.drop_pass_id) w
          w' u e in
      let (u2, w2, e2, r2) =
        >>=-ok (write_or_undo s manifest)
          (λ _. consume_pass s manifest.share_id policy.drop_pass_id) w1 w' u r1 in
      let (stored, same) = written manifest w1 w2 u2 e2 in
      let (taken, kept) =
        spent manifest.share_id pass w2 w' u
          (subst (λ p. consume_pass s manifest.share_id p w2 ≡ (ok u, w')) paid r2) in
      (
        subst (λ d. consume_drop_pass pass d ≡ (true, w'.database))
            (same ∙ inserted policy manifest w w1 u1 e1) taken,
        subst
            (λ (m : Map String CloudShareManifest).
              lookup (manifest_key s manifest.share_id) m ≡ some manifest)
            (sym kept) stored,
      )

  taken_back :
      (share_id pass : String) (w : World)
      → (consume_drop_pass pass w.database).0 ≡ false
      → s.fails w.tick ≡ false
      → s.fails (suc (suc w.tick)) ≡ false
      → s.fails (suc (suc (suc w.tick))) ≡ false
      → ((consume_pass s share_id (some pass) w).0
          ≡ err (bad_request "Cloud Drop entitlement was already used"))
        × ((consume_pass s share_id (some pass) w).1.database
            ≡ mark_cloud_share_deleted share_id
                (s.clock (suc w.tick))
                (consume_drop_pass pass w.database).1)
        × ((consume_pass s share_id (some pass) w).1.manifests
            ≡ remove (manifest_key s share_id) w.manifests)
  unfolding consume_pass mark_deleted delete_manifest
  taken_back share_id pass w unused f1 f2 f3 = (
    ground (arith, db, unused, f1, f2, f3),
    ground (arith, db, unused, f1, f2, f3),
    ground (arith, db, unused, f1, f2, f3),
  )

  -- Where there is a database, the pass was used up in the meantime, and no call fails, the share is
  -- taken back: the request fails, and neither a row that is not deleted nor a manifest is left.
  pub consume_pass-live_share :
      (share_id pass : String) (w : World)
      → ((n : ℕ) → s.fails n ≡ false)
      → (consume_drop_pass pass w.database).0 ≡ false
      → let (result, w') = consume_pass s share_id (some pass) w in
        (result ≡ err (bad_request "Cloud Drop entitlement was already used"))
        × (live_share share_id w'.database ≡ none)
        × (lookup (manifest_key s share_id) w'.manifests ≡ none)
  consume_pass-live_share share_id pass w works unused =
      let (failed, marked, removed) =
        taken_back share_id pass w unused (works w.tick) (works (suc (suc w.tick)))
          (works (suc (suc (suc w.tick)))) in
      (
        failed,
        subst (λ d. live_share share_id d ≡ none) (sym marked)
            (deleted share_id (s.clock (suc w.tick)) (consume_drop_pass pass w.database).1),
        subst (λ (m : Map String CloudShareManifest). lookup (manifest_key s share_id) m ≡ none)
            (sym removed) (lookup-remove_self (manifest_key s share_id) w.manifests),
      )
