-- ===== src/Cloud/Cleanup/Pages.antt =====
-- What a clean-up does to the shares that it lists (src/handlers/cloud_share.rs).
use ponswarp_signaling_rs.Common.{
  ℕ, zero, suc, ◌≤◌, ◌<◌, String, true, false, List, [], ◌∷◌, Option, none, some, ltb,
  if◌then◌else◌, ◌≡◌, refl, sym, ◌∙◌, ap, subst, arith, All, Bool-cases, Option-cases, inl, inr,
  string_eq,
}
use ponswarp_signaling_rs.Common.Map.{Map, lookup, remove, lookup-remove, lookup-remove_self}
use ponswarp_signaling_rs.Manifest.{CloudFileManifest, CloudShareManifest}
use ponswarp_signaling_rs.Database.Shares.{live_share, mark_cloud_share_deleted}
use ponswarp_signaling_rs.Cloud.Create.{mark_deleted}
use ponswarp_signaling_rs.Cloud.Create.Spent.{deleted}
use ponswarp_signaling_rs.Cloud.Storage.{read_manifest_by_key}
use ponswarp_signaling_rs.Cloud.Cleanup.{
  Page, delete_files, remove_share, cleanup_key, cleanup_keys, cleanup_pages,
  cleanup_expired_cloud_shares,
}
use ponswarp_signaling_rs.Cloud.World.{
  Setting, World, Result, ok, ◌>>=◌, call, pure, or_raise, not_found, unix_now, >>=-step,
  after-step, call-ok,
}

module _ (s : Setting) where
  -- With enough fuel for the pages that are left, a clean-up ends.
  cleanup_pages-ends :
      (list_objects : Option String → World → Option Page) (rank : Option String → ℕ)
      → ((token : Option String) (w : World) (page : Page)
          → list_objects token w ≡ some page
          → page.is_truncated ≡ true
          → rank page.next_continuation_token < rank token)
      → (fuel : ℕ) (token : Option String) (w : World) → rank token < fuel
      → (w' : World) × (cleanup_pages s list_objects fuel token w ≡ some w')
  unfolding cleanup_pages
  cleanup_pages-ends list_objects rank goes_on zero token w h = absurd (omega arith)
  cleanup_pages-ends list_objects rank goes_on (suc fuel) token w h =
      elim (Option-cases (list_objects token w)) [
        | inl failed ↦ (w, ground (arith, failed))
        | inr (page, listed) ↦ elim (Bool-cases page.is_truncated) [
          | inr last ↦ ((cleanup_keys s page.keys w).1, ground (arith, listed, last))
          | inl more ↦
              let next = goes_on token w page listed more in
              let (w', ends) =
                cleanup_pages-ends list_objects rank goes_on fuel page.next_continuation_token
                  (cleanup_keys s page.keys w).1 (omega arith) in
              (w', ground (arith, listed, more, ends))
        ]
      ]

  -- Where every page that goes on leads to a token of a lower rank, a clean-up ends, with fuel for
  -- the rank of the beginning.
  pub cleanup_expired_cloud_shares-ends :
      (list_objects : Option String → World → Option Page) (rank : Option String → ℕ)
      → ((token : Option String) (w : World) (page : Page)
          → list_objects token w ≡ some page
          → page.is_truncated ≡ true
          → rank page.next_continuation_token < rank token)
      → (w : World)
      → (w' : World) × (cleanup_expired_cloud_shares s list_objects (suc (rank none)) w ≡ some w')
  unfolding cleanup_expired_cloud_shares
  cleanup_expired_cloud_shares-ends list_objects rank goes_on w = elim (Bool-cases s.has_storage) [
    | inr off ↦ (w, ground (arith, off))
    | inl on ↦
        let (w', ends) =
          cleanup_pages-ends list_objects rank goes_on (suc (rank none)) none w (omega arith) in
        (w', ground (arith, on, ends))
  ]

  abbrev pub Gone : Map String ℕ → CloudFileManifest → Type 0
  Gone objects file = lookup file.object_key objects ≡ none

  remove-none : (k j : String) (m : Map String ℕ) → lookup j m ≡ none → lookup j (remove k m) ≡ none
  remove-none k j m h = ground (arith, lookup-remove k j m, h)

  read_listed :
      (key : String) (manifest : CloudShareManifest) (w : World)
      → s.fails w.tick ≡ false
      → lookup key w.manifests ≡ some manifest
      → read_manifest_by_key s key w ≡ (ok manifest, record w { tick = suc w.tick })
  unfolding read_manifest_by_key
  read_listed key manifest w works listed =
      >>=-step (call s λ w. (lookup key w.manifests, w))
        (λ found. or_raise found (not_found "Share not found")) w (record w { tick = suc w.tick })
        (lookup key w.manifests) (call-ok s (λ w. (lookup key w.manifests, w)) w works)
      ∙ rw listed refl

  cleaned_up :
      (key : String) (manifest : CloudShareManifest) (w : World)
      → s.fails w.tick ≡ false
      → lookup key w.manifests ≡ some manifest
      → manifest.expires_at ≤ s.clock (suc w.tick)
      → (cleanup_key s key w).1
        ≡ (remove_share s key manifest (record w { tick = suc (suc w.tick) })).1
  unfolding cleanup_key
  cleaned_up key manifest w works listed late =
      elim (Bool-cases (ltb (s.clock (suc w.tick)) manifest.expires_at)) [
        | inl early ↦ absurd (ground (arith, early, late))
        | inr over ↦
            let test = λ (manifest : CloudShareManifest). unix_now s >>= λ now.
            if ltb now manifest.expires_at then pure tt else remove_share s key manifest in
            ap (λ (p : Result (Unit {0}) × World). p.1)
              (after-step (read_manifest_by_key s key) test (λ _. pure tt) w
                (record w { tick = suc w.tick }) manifest (read_listed key manifest w works listed))
            ∙ rw over refl
      ]

  module _ (works : (n : ℕ) → s.fails n ≡ false) where
    abbrev without : World → String → World
    without w key = record w { tick = suc w.tick; objects = remove key w.objects }

    deleted_object :
        (w : World) (key : String)
        → (call s {A = Unit {0}}
            (λ (v : World). (tt, record v { objects = remove key v.objects }))
            w).1
          ≡ without w key
    deleted_object w key = ground (arith, works w.tick)

    -- What the removal of some files does to the world.
    abbrev Removal : List CloudFileManifest → World → World → Type 0
    Removal files w w' =
        All (Gone w'.objects) files
        × ((j : String) → lookup j w.objects ≡ none → lookup j w'.objects ≡ none)
        × (w'.manifests ≡ w.manifests)

    delete_files-Removal :
        (files : List CloudFileManifest) (w : World) → Removal files w (delete_files s files w).1
    unfolding delete_files
    delete_files-Removal [] w = (tt, λ j h. h, refl)
    delete_files-Removal (file ∷ files) w =
        let (gone, keeps, same) = delete_files-Removal files (without w file.object_key) in
        subst (λ v. Removal (file ∷ files) w (delete_files s files v).1)
          (sym (deleted_object w file.object_key))
          (
            (keeps file.object_key (lookup-remove_self file.object_key w.objects), gone),
            λ j h. keeps j (remove-none file.object_key j w.objects h),
            same,
          )

    delete_files-ok :
        (files : List CloudFileManifest) (w : World) → (delete_files s files w).0 ≡ ok tt
    unfolding delete_files
    delete_files-ok [] w = refl
    delete_files-ok (file ∷ files) w =
        delete_files-ok files
          (call s {A = Unit {0}}
            (λ (v : World). (tt, record v { objects = remove file.object_key v.objects })) w).1

    removed_share :
        (key : String) (manifest : CloudShareManifest) (w v : World)
        → s.has_database ≡ true
        → delete_files s manifest.files w ≡ (ok tt, v)
        → let w' = (remove_share s key manifest w).1 in
          (w'.objects ≡ v.objects)
          × (w'.manifests ≡ remove key v.manifests)
          × (w'.database
              ≡ mark_cloud_share_deleted manifest.share_id (s.clock (suc v.tick)) v.database)
    unfolding remove_share mark_deleted
    removed_share key manifest w v db r = (
      ground (arith, r, db, works v.tick, works (suc (suc v.tick))),
      ground (arith, r, db, works v.tick, works (suc (suc v.tick))),
      ground (arith, r, db, works v.tick, works (suc (suc v.tick))),
    )

    -- Where there is a database and no call fails, a listed share that has run out when the clock is
    -- read is removed: its manifest and its files are gone, and its row is deleted.
    pub cleanup_key-Gone :
        (key : String) (manifest : CloudShareManifest) (w : World)
        → s.has_database ≡ true
        → lookup key w.manifests ≡ some manifest
        → manifest.expires_at ≤ s.clock (suc w.tick)
        → let w' = (cleanup_key s key w).1 in
          (lookup key w'.manifests ≡ none)
          × All (Gone w'.objects) manifest.files
          × (live_share manifest.share_id w'.database ≡ none)
    cleanup_key-Gone key manifest w db listed late =
        let w2 = record w { tick = suc (suc w.tick) } in
        let v = (delete_files s manifest.files w2).1 in
        let (gone, _, same) = delete_files-Removal manifest.files w2 in
        let r : delete_files s manifest.files w2 ≡ (ok tt, v) =
          λ i. (delete_files-ok manifest.files w2 i, v) in
        let (objects, manifests, database) = removed_share key manifest w2 v db r in
        subst
          (λ (w' : World).
            (lookup key w'.manifests ≡ none)
            × All (Gone w'.objects) manifest.files
            × (live_share manifest.share_id w'.database ≡ none))
          (sym (cleaned_up key manifest w (works w.tick) listed late))
          (
            subst (λ (m : Map String CloudShareManifest). lookup key m ≡ none) (sym manifests)
                (lookup-remove_self key v.manifests),
            subst (λ o. All (Gone o) manifest.files) (sym objects) gone,
            subst (λ d. live_share manifest.share_id d ≡ none) (sym database)
                (deleted manifest.share_id (s.clock (suc v.tick)) v.database),
          )
