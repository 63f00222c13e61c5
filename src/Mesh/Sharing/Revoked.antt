-- ===== src/Mesh/Sharing/Revoked.antt =====
-- That a revoked share stays so (src/mesh.rs).
use ponswarp_signaling_rs.Common.{
  ℕ, String, Bool, true, false, ◌||◌, List, [], ◌∷◌, Option, none, some, string_eq, pair_eq, ◌≡◌,
  refl, arith, Bool-cases, Option-cases, is_some, inl, inr, ◌==◌,
}
use ponswarp_signaling_rs.Common.Map.{lookup, lookup-insert}
use ponswarp_signaling_rs.Mesh.{
  Request, mesh_health, mesh_ready, create_workspace, register_node, heartbeat, list_files,
  publish_file, get_file, update_availability, candidates, record_event, create_share,
  resolve_share, revoke_share, share_candidates, record_share_event, handle, serve,
}
use ponswarp_signaling_rs.Mesh.Handlers
use ponswarp_signaling_rs.Mesh.Publish
use ponswarp_signaling_rs.Mesh.Shares
use ponswarp_signaling_rs.Mesh.Registry.{
  Json, MeshConfig, MeshState, MeshShare, PublishFileRequest, CreateShareRequest,
}
use ponswarp_signaling_rs.Mesh.Integrity.Reads.{read_lem}
use ponswarp_signaling_rs.Mesh.Sharing.{made_share}

-- Whether the request stores a share under the code.
abbrev creates : {V : Type 0} → String → Request V → Bool
creates c (create_share _ raw _ req) =
    Handlers.given_or req.code (Shares.generate_share_code raw) == c
creates c _ = false

abbrev pub creates_any : {V : Type 0} → String → List (Request V) → Bool
creates_any c [] = false
creates_any c (request ∷ requests) = creates c request || creates_any c requests

abbrev marked : {V : Type 0} → Option (MeshShare V) → Bool
marked none = false
marked (some found) = is_some found.revoked_at

-- Whether the share of a code is there and is revoked.
abbrev pub is_revoked : {V : Type 0} → String → MeshState V → Bool
is_revoked c s = marked (lookup c s.shares)

module _ {V : Type 0} (config : MeshConfig) (c : String) (s : MeshState V)
    (h : is_revoked c s ≡ true) where
  revoke_share-is_revoked :
      (now : ℕ) (code : String) → is_revoked c (Shares.revoke_share config now code s).state ≡ true
  unfolding Shares.revoke_share
  revoke_share-is_revoked now code = elim (Bool-cases config.enabled) [
    | inr off ↦ rw (Shares.revoke_share, off) h
    | inl on ↦ elim (Option-cases (lookup code s.shares)) [
      | inl missing ↦ rw (Shares.revoke_share, on, missing) h
      | inr (found, e) ↦
          rw (Shares.revoke_share, on, e)
            (rw (lookup-insert code c (record found { revoked_at = some now }) s.shares)
              (ground (arith, h)))
    ]
  ]

module _ (json : Json) (config : MeshConfig) where
  publish_file-shares :
      (now later : ℕ) (uuid w : String) (req : PublishFileRequest json.Value)
      (s : MeshState json.Value)
      → (Publish.publish_file json config now later uuid w req s).state.shares ≡ s.shares
  unfolding Publish.publish_file Publish.with_availability
  publish_file-shares now later uuid w req s = ground arith

  create_share-is_revoked :
      (now : ℕ) (raw w : String) (req : CreateShareRequest json.Value) (c : String)
      (s : MeshState json.Value)
      → is_revoked c s ≡ true
      → (Handlers.given_or req.code (Shares.generate_share_code raw) == c) ≡ false
      → is_revoked c (Shares.create_share json config now raw w req s).state ≡ true
  unfolding Shares.create_share
  create_share-is_revoked now raw w req c s h other = ground (
    arith,
    h,
    other,
    lookup-insert (Handlers.given_or req.code (Shares.generate_share_code raw)) c
        (made_share json config now (Handlers.given_or req.code (Shares.generate_share_code raw)) w
          req)
        s.shares,
  )

  handle-is_revoked :
      (request : Request json.Value) (c : String) (s : MeshState json.Value)
      → is_revoked c s ≡ true
      → creates c request ≡ false
      → is_revoked c (handle json config request s).state ≡ true
  unfolding handle Handlers.create_workspace Handlers.register_node Handlers.heartbeat
      Handlers.update_availability Publish.record_event Shares.record_share_event
  handle-is_revoked mesh_health c s h other = rw (read_lem json config mesh_health s refl) h
  handle-is_revoked mesh_ready c s h other = rw (read_lem json config mesh_ready s refl) h
  handle-is_revoked (list_files k w) c s h other =
      rw (read_lem json config (list_files k w) s refl) h
  handle-is_revoked (get_file w f) c s h other = rw (read_lem json config (get_file w f) s refl) h
  handle-is_revoked (candidates t w f) c s h other =
      rw (read_lem json config (candidates t w f) s refl) h
  handle-is_revoked (resolve_share t d) c s h other =
      rw (read_lem json config (resolve_share t d) s refl) h
  handle-is_revoked (share_candidates t u d) c s h other =
      rw (read_lem json config (share_candidates t u d) s refl) h
  handle-is_revoked (create_workspace t u req) c s h other = ground (arith, h)
  handle-is_revoked (register_node t w req) c s h other = ground (arith, h)
  handle-is_revoked (heartbeat t w n req) c s h other = ground (arith, h)
  handle-is_revoked (update_availability t w f n req) c s h other = ground (arith, h)
  handle-is_revoked (record_event t u w req) c s h other = ground (arith, h)
  handle-is_revoked (record_share_event t l u d req) c s h other = ground (arith, h)
  handle-is_revoked (publish_file t l u w req) c s h other =
      rw (publish_file-shares t l u w req s) h
  handle-is_revoked (revoke_share t d) c s h other = revoke_share-is_revoked config c s h t d
  handle-is_revoked (create_share t raw w req) c s h other =
      create_share-is_revoked t raw w req c s h other

  -- Once a share is revoked it stays so, through all requests but one that makes a share with the
  -- same code.
  pub serve-is_revoked :
      (requests : List (Request json.Value)) (c : String) (s : MeshState json.Value)
      → is_revoked c s ≡ true
      → creates_any c requests ≡ false
      → is_revoked c (serve json config requests s) ≡ true
  unfolding serve
  serve-is_revoked [] c s h others = h
  serve-is_revoked (request ∷ requests) c s h others =
      serve-is_revoked requests c _ (handle-is_revoked request c s h (ground (arith, others)))
        (ground (arith, others))
