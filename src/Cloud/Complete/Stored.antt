-- ===== src/Cloud/Complete/Stored.antt =====
-- That the files of a completed share are stored (src/handlers/cloud_share.rs).
use ponswarp_signaling_rs.Common.{
  ℕ, suc, String, true, false, not, List, [], ◌∷◌, none, some, nat_beq, nat_beq_iff, ◌≡◌, sym, ◌∙◌,
  ap, subst, arith, All, Bool-cases, Option-cases, inl, inr, string_eq,
}
use ponswarp_signaling_rs.Common.Map.{Map, lookup, lookup-insert_self}
use ponswarp_signaling_rs.Manifest.{CloudFileManifest, CloudShareManifest}
use ponswarp_signaling_rs.Cloud.World.{
  Setting, World, Result, ok, ◌>>=◌, ◌>>◌, >>=-ok, bad_request, raise_if, cloud_storage,
}
use ponswarp_signaling_rs.Cloud.Access.{PublicCloudShareResponse, public_share, public_files}
use ponswarp_signaling_rs.Cloud.Storage.{
  ensure_object_exists, manifest_key, write_manifest, read_share_manifest, reject_expired,
}
use ponswarp_signaling_rs.Cloud.Complete.{
  CompleteCloudShareRequest, ensure_objects, mark_completed, finish_completion, complete_uploads,
  complete_cloud_share_inner, ids_of, same_set,
}

module _ (s : Setting) where
  abbrev pub IsStored : Map String ℕ → CloudFileManifest → Type 0
  IsStored objects file = lookup file.object_key objects ≡ some file.size

  ensure_object_exists-IsStored :
      (key : String) (size : ℕ) (w w' : World) (u : Unit {0})
      → ensure_object_exists s key size w ≡ (ok u, w')
      → (lookup key w.objects ≡ some size) × (w'.objects ≡ w.objects)
  unfolding ensure_object_exists
  ensure_object_exists-IsStored key size w w' u e = elim (Bool-cases (s.fails w.tick)) [
    | inl broken ↦ absurd (ground (arith, e, broken))
    | inr works ↦ elim (Option-cases (lookup key w.objects)) [
      | inl missing ↦ absurd (ground (arith, e, works, missing))
      | inr (found, at) ↦ elim (Bool-cases (nat_beq found size)) [
        | inl same ↦
            (at ∙ ap some ((nat_beq_iff found size).0 same), ground (arith, e, works, at, same))
        | inr other ↦ absurd (ground (arith, e, works, at, other))
      ]
    ]
  ]

  ensure_objects-IsStored :
      (files : List CloudFileManifest) (w w' : World) (u : Unit {0})
      → ensure_objects s files w ≡ (ok u, w')
      → All (IsStored w.objects) files × (w'.objects ≡ w.objects)
  unfolding ensure_objects
  ensure_objects-IsStored [] w w' u e =
      (tt, ap (λ (p : Result (Unit {0}) × World). p.1.objects) (sym e))
  ensure_objects-IsStored (file ∷ files) w w' u e =
      let (u1, w1, first, rest) =
        >>=-ok (ensure_object_exists s file.object_key file.size) (λ _. ensure_objects s files) w w'
          u e in
      let (stored, same) = ensure_object_exists-IsStored file.object_key file.size w w1 u1 first in
      let (others, same') = ensure_objects-IsStored files w1 w' u rest in
      ((stored, subst (λ o. All (IsStored o) files) same others), same' ∙ same)

  mark_completed-objects :
      (manifest : CloudShareManifest) (w w' : World) (u : Unit {0})
      → mark_completed s manifest w ≡ (ok u, w')
      → w'.objects ≡ w.objects
  unfolding mark_completed
  mark_completed-objects manifest w w' u e = elim (Bool-cases s.has_database) [
    | inr off ↦ ground (arith, e, off)
    | inl on ↦ elim (Bool-cases (s.fails (suc w.tick))) [
      | inl broken ↦ absurd (ground (arith, e, on, broken))
      | inr works ↦ ground (arith, e, on, works)
    ]
  ]

  write_manifest-lookup :
      (manifest : CloudShareManifest) (w w' : World) (u : Unit {0})
      → write_manifest s manifest w ≡ (ok u, w')
      → (lookup (manifest_key s manifest.share_id) w'.manifests ≡ some manifest)
        × (w'.objects ≡ w.objects)
  unfolding write_manifest
  write_manifest-lookup manifest w w' u e = elim (Bool-cases (s.fails w.tick)) [
    | inl broken ↦ absurd (ground (arith, e, broken))
    | inr works ↦ (
      subst
          (λ (m : Map String CloudShareManifest).
            lookup (manifest_key s manifest.share_id) m ≡ some manifest)
          (ground (arith, e, works))
          (lookup-insert_self (manifest_key s manifest.share_id) manifest w.manifests),
      ground (arith, e, works),
    )
  ]

  public_share-ok :
      (manifest : CloudShareManifest) (w w' : World) (response : PublicCloudShareResponse)
      → public_share s manifest none false w ≡ (ok response, w')
      → (response.completed ≡ manifest.completed)
        × (response.files ≡ public_files manifest.files)
        × (w'.objects ≡ w.objects)
        × (w'.manifests ≡ w.manifests)
  unfolding public_share
  public_share-ok manifest w w' response e =
      (ground (arith, e), ground (arith, e), ground (arith, e), ground (arith, e))

  -- What a completion says of the share, and leaves behind.
  abbrev Completion : CloudShareManifest → PublicCloudShareResponse → World → Type 0
  Completion manifest response w =
      All (IsStored w.objects) manifest.files
      × (lookup (manifest_key s manifest.share_id) w.manifests
          ≡ some (record manifest { completed = true }))
      × (response.completed ≡ true)
      × (response.files ≡ public_files manifest.files)

  finish_completion-Completion :
      (manifest : CloudShareManifest) (w w' : World) (response : PublicCloudShareResponse)
      → finish_completion s manifest w ≡ (ok response, w')
      → Completion manifest response w'
  unfolding finish_completion
  finish_completion-Completion manifest w w' response e =
      let complete = record manifest { completed = true } in
      let (u1, w1, e1, r1) =
        >>=-ok (ensure_objects s manifest.files)
          (λ _.
            mark_completed s manifest
            >> (write_manifest s complete >> public_share s complete none false))
          w w' response e in
      let (u2, w2, e2, r2) =
        >>=-ok (mark_completed s manifest)
          (λ _. write_manifest s complete >> public_share s complete none false) w1 w' response
          r1 in
      let (u3, w3, e3, r3) =
        >>=-ok (write_manifest s complete) (λ _. public_share s complete none false) w2 w' response
          r2 in
      let (stored, same1) = ensure_objects-IsStored manifest.files w w1 u1 e1 in
      let same2 = mark_completed-objects manifest w1 w2 u2 e2 in
      let (written, same3) = write_manifest-lookup complete w2 w3 u3 e3 in
      let (done, files, same4, same5) = public_share-ok complete w3 w' response r3 in
      (
        subst (λ o. All (IsStored o) manifest.files) (sym (same4 ∙ (same3 ∙ (same2 ∙ same1))))
            stored,
        subst
            (λ (m : Map String CloudShareManifest).
              lookup (manifest_key s manifest.share_id) m ≡ some complete)
            (sym same5) written,
        done,
        files,
      )

  -- After a completion that ends well there is a manifest, all of whose files are stored with their
  -- sizes and are those of the response, which says that the share is complete; it is stored under
  -- its key as completed.
  pub complete_cloud_share_inner-Completion :
      (share_id : String) (request : CompleteCloudShareRequest) (w w' : World)
      (response : PublicCloudShareResponse)
      → complete_cloud_share_inner s share_id request w ≡ (ok response, w')
      → (manifest : CloudShareManifest) × (All (IsStored w'.objects) manifest.files)
        × (lookup (manifest_key s manifest.share_id) w'.manifests
            ≡ some (record manifest { completed = true }))
        × (response.completed ≡ true)
        × (response.files ≡ public_files manifest.files)
  unfolding complete_cloud_share_inner
  complete_cloud_share_inner-Completion share_id request w w' response e =
      let check = λ (manifest : CloudShareManifest).
        raise_if (not (same_set (ids_of manifest.files) request.uploaded_file_ids))
          (bad_request "Uploaded file list does not match the created share") in
      let end = λ (manifest : CloudShareManifest).
        complete_uploads s manifest request.multipart_uploads >> finish_completion s manifest in
      let (u0, w0, e0, r0) =
        >>=-ok (cloud_storage s)
          (λ _. read_share_manifest s share_id >>= λ manifest.
            reject_expired s manifest >> (check manifest >> end manifest))
          w w' response e in
      let (manifest, w1, e1, r1) =
        >>=-ok (read_share_manifest s share_id)
          (λ manifest. reject_expired s manifest >> (check manifest >> end manifest)) w0 w' response
          r0 in
      let (u2, w2, e2, r2) =
        >>=-ok (reject_expired s manifest) (λ _. check manifest >> end manifest) w1 w' response
          r1 in
      let (u3, w3, e3, r3) = >>=-ok (check manifest) (λ _. end manifest) w2 w' response r2 in
      let (u4, w4, e4, r4) =
        >>=-ok (complete_uploads s manifest request.multipart_uploads)
          (λ _. finish_completion s manifest) w3 w' response r3 in
      let (stored, written, done, files) =
        finish_completion-Completion manifest w4 w' response r4 in
      (manifest, stored, written, done, files)
