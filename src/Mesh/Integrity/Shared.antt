-- ===== src/Mesh/Integrity/Shared.antt =====
-- The requests that share a file, revoke a share or publish a file keep the links of
-- the coordinator's maps (src/mesh.rs).
use ponswarp_signaling_rs.Common.{
  ℕ, String, Bool, true, false, ◌&&◌, ◌||◌, Option, none, some, string_eq, pair_eq, ◌≡◌, refl,
  arith, Bool-cases, Option-cases, inl, inr, unwrap_or, ltb, not,
}
use ponswarp_signaling_rs.Common.Map.{lookup, contains_key, insert, lookup-insert_self}
use ponswarp_signaling_rs.Common.Text.{is_empty}
use ponswarp_signaling_rs.Mesh.Handlers
use ponswarp_signaling_rs.Mesh.Publish
use ponswarp_signaling_rs.Mesh.Shares
use ponswarp_signaling_rs.Mesh.Registry.{
  Json, MeshConfig, MeshFile, MeshState, PublishFileRequest, CreateShareRequest,
}
use ponswarp_signaling_rs.Mesh.Integrity.{IsLinked, add_file, add_availability, add_share}

module _ {V : Type 0} (config : MeshConfig) (s : MeshState V) (h : IsLinked s) where
  pub revoke_share_kept :
      (now : ℕ) (share_code : String) → IsLinked (Shares.revoke_share config now share_code s).state
  unfolding Shares.revoke_share
  revoke_share_kept now share_code = elim (Bool-cases config.enabled) [
    | inr off ↦ rw (Shares.revoke_share, off) h
    | inl on ↦ elim (Option-cases (lookup share_code s.shares)) [
      | inl missing ↦ rw (Shares.revoke_share, on, missing) h
      | inr (found, e) ↦
          rw (Shares.revoke_share, on, e)
            (add_share s h share_code _ (h.shares_linked share_code found e))
    ]
  ]

module _ (json : Json) (config : MeshConfig) (s : MeshState json.Value) (h : IsLinked s) where
  -- Whether a creator is named that is no node.
  abbrev is_stray : String → String → Bool
  is_stray w n = not (is_empty n) && not (contains_key (w, n) s.nodes)

  pub create_share_kept :
      (now : ℕ) (raw w : String) (req : CreateShareRequest json.Value)
      → IsLinked (Shares.create_share json config now raw w req s).state
  unfolding Shares.create_share Handlers.workspace_exists Handlers.node_exists Handlers.file_exists
  create_share_kept now raw w req = elim (Bool-cases config.enabled) [
    | inr off ↦ rw (Shares.create_share, off) h
    | inl on ↦ elim (Bool-cases (contains_key w s.workspaces)) [
      | inr missing ↦ rw (Shares.create_share, on, missing) h
      | inl found ↦ elim (Bool-cases (contains_key (w, req.file_id) s.files)) [
        | inr missing ↦ rw (Shares.create_share, on, found, missing) h
        | inl file ↦ elim (Bool-cases (is_stray w (unwrap_or req.created_by_node_id ""))) [
          | inl stray ↦ rw (Shares.create_share, on, found, file, stray) h
          | inr linked ↦
              elim (Bool-cases
                (ltb Handlers.max_mesh_json_bytes (Publish.json_size json req.capabilities))) [
                  | inl large ↦ rw (Shares.create_share, on, found, file, linked, large) h
                  | inr small ↦
                      rw (Shares.create_share, on, found, file, linked, small)
                        (add_share s h _ _ (file, ground (arith, linked), refl))
                ]
        ]
      ]
    ]
  ]

  with_availability_kept :
      (later : ℕ) (w f : String) (availability : Option json.Value) (n : Option String)
      → contains_key (w, f) s.files ≡ true
      → Publish.names_missing_node json s w n ≡ false
      → IsLinked (Publish.with_availability json later w f availability n s)
  unfolding Publish.with_availability Publish.names_missing_node Handlers.node_exists
  with_availability_kept later w f none n file known = h
  with_availability_kept later w f (some v) none file known = h
  with_availability_kept later w f (some v) (some n) file known =
      add_availability s h (w, (f, n)) _ (file, ground (arith, known))

module _ (json : Json) (config : MeshConfig) (s : MeshState json.Value) (h : IsLinked s) where
  known_creator :
      (w : String) (n : Option String)
      → Publish.names_missing_node json s w n ≡ false
      → (is_empty (unwrap_or n "") || contains_key (w, unwrap_or n "") s.nodes) ≡ true
  unfolding Publish.names_missing_node Handlers.node_exists is_empty
  known_creator w none known = refl
  known_creator w (some n) known = ground (arith, known)

  add_published :
      (later : ℕ) (w f : String) (made : MeshFile json.Value) (availability : Option json.Value)
      (n : Option String)
      → made.workspace_id ≡ w
      → made.file_id ≡ f
      → made.created_by_node_id ≡ unwrap_or n ""
      → contains_key w s.workspaces ≡ true
      → Publish.names_missing_node json s w n ≡ false
      → IsLinked (
          Publish.with_availability json later w f availability n
            (record s { files = insert (w, f) made s.files }))
  unfolding contains_key Publish.names_missing_node Handlers.node_exists
  add_published later w f made availability n p q creator found known =
      with_availability_kept json config (record s { files = insert (w, f) made s.files })
        (add_file s h (w, f) made (found, p, q, rw creator (known_creator w n known))) later w f
        availability n (ground (arith, lookup-insert_self (w, f) made s.files)) known

  pub publish_file_kept :
      (now later : ℕ) (uuid w : String) (req : PublishFileRequest json.Value)
      → IsLinked (Publish.publish_file json config now later uuid w req s).state
  unfolding Publish.publish_file Publish.names_missing_node Handlers.workspace_exists
      Handlers.node_exists
  publish_file_kept now later uuid w req = elim (Bool-cases config.enabled) [
    | inr off ↦ rw (Publish.publish_file, off) h
    | inl on ↦ elim (Bool-cases (contains_key w s.workspaces)) [
      | inr missing ↦ rw (Publish.publish_file, on, missing) h
      | inl found ↦
          elim (Bool-cases
            (ltb Handlers.max_mesh_json_bytes (Publish.json_size json req.manifest))) [
              | inl large ↦ rw (Publish.publish_file, on, found, large) h
              | inr small ↦
                  elim (Bool-cases (
                    Publish.names_missing_node json s w
                      (Publish.availability_node json req.availability))) [
                        | inl stray ↦ rw (Publish.publish_file, on, found, small, stray) h
                        | inr known ↦
                            rw (Publish.publish_file, on, found, small, known)
                              (add_published later w _ _ req.availability _ refl refl refl found
                                known)
                      ]
            ]
    ]
  ]
