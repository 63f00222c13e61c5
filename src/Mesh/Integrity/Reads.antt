-- ===== src/Mesh/Integrity/Reads.antt =====
-- The requests that read only, and a coordinator that is switched off (src/mesh.rs).
use ponswarp_signaling_rs.Common.{Bool, true, false, arith, ◌≡◌, refl}
use ponswarp_signaling_rs.Mesh.{
  Request, mesh_health, mesh_ready, create_workspace, register_node, heartbeat, list_files,
  publish_file, get_file, update_availability, candidates, record_event, create_share,
  resolve_share, revoke_share, share_candidates, record_share_event, handle,
}
use ponswarp_signaling_rs.Mesh.Handlers
use ponswarp_signaling_rs.Mesh.Publish
use ponswarp_signaling_rs.Mesh.Shares
use ponswarp_signaling_rs.Mesh.Registry.{Json, MeshConfig, MeshState, service_unavailable}

abbrev pub is_read : {V : Type 0} → Request V → Bool
is_read mesh_health = true
is_read mesh_ready = true
is_read (list_files _ _) = true
is_read (get_file _ _) = true
is_read (candidates _ _ _) = true
is_read (resolve_share _ _) = true
is_read (share_candidates _ _ _) = true
is_read _ = false

module _ (json : Json) (config : MeshConfig) where
  -- The requests that read a health page, a file, a list of files, the candidates of a file or of
  -- a share, or a share leave the state as it is, whatever the outcome.
  pub read_lem :
      (request : Request json.Value) (s : MeshState json.Value)
      → is_read request ≡ true
      → (handle json config request s).state ≡ s
  unfolding handle Handlers.mesh_health Handlers.mesh_ready Handlers.list_files Handlers.get_file
      Handlers.candidates Shares.resolve_share Shares.share_candidates
  read_lem mesh_health s h = ground arith
  read_lem mesh_ready s h = ground arith
  read_lem (list_files _ _) s h = ground arith
  read_lem (get_file _ _) s h = ground arith
  read_lem (candidates _ _ _) s h = ground arith
  read_lem (resolve_share _ _) s h = ground arith
  read_lem (share_candidates _ _ _) s h = ground arith
  read_lem (create_workspace _ _ _) s h = cc
  read_lem (register_node _ _ _) s h = cc
  read_lem (heartbeat _ _ _ _) s h = cc
  read_lem (publish_file _ _ _ _ _) s h = cc
  read_lem (update_availability _ _ _ _ _) s h = cc
  read_lem (record_event _ _ _ _) s h = cc
  read_lem (create_share _ _ _ _) s h = cc
  read_lem (revoke_share _ _) s h = cc
  read_lem (record_share_event _ _ _ _ _) s h = cc

  -- A coordinator that is switched off answers every request with `service_unavailable` and keeps
  -- its state.
  pub disabled_lem :
      (request : Request json.Value) (s : MeshState json.Value)
      → config.enabled ≡ false
      → ((handle json config request s).status ≡ service_unavailable)
        × ((handle json config request s).state ≡ s)
  unfolding handle Handlers.mesh_health Handlers.mesh_ready Handlers.list_files Handlers.get_file
      Handlers.candidates Shares.resolve_share Shares.share_candidates Handlers.create_workspace
      Handlers.register_node Handlers.heartbeat Publish.publish_file Handlers.update_availability
      Publish.record_event Shares.create_share Shares.revoke_share Shares.record_share_event
  disabled_lem mesh_health s off = rw off (refl, refl)
  disabled_lem mesh_ready s off = rw off (refl, refl)
  disabled_lem (create_workspace _ _ _) s off = rw off (refl, refl)
  disabled_lem (register_node _ _ _) s off = rw off (refl, refl)
  disabled_lem (heartbeat _ _ _ _) s off = rw off (refl, refl)
  disabled_lem (list_files _ _) s off = rw off (refl, refl)
  disabled_lem (publish_file _ _ _ _ _) s off = rw off (refl, refl)
  disabled_lem (get_file _ _) s off = rw off (refl, refl)
  disabled_lem (update_availability _ _ _ _ _) s off = rw off (refl, refl)
  disabled_lem (candidates _ _ _) s off = rw off (refl, refl)
  disabled_lem (record_event _ _ _ _) s off = rw off (refl, refl)
  disabled_lem (create_share _ _ _ _) s off = rw off (refl, refl)
  disabled_lem (resolve_share _ _) s off = rw off (refl, refl)
  disabled_lem (revoke_share _ _) s off = rw off (refl, refl)
  disabled_lem (share_candidates _ _ _) s off = rw off (refl, refl)
  disabled_lem (record_share_event _ _ _ _ _) s off = rw off (refl, refl)
