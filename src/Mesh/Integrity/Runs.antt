-- ===== src/Mesh/Integrity/Runs.antt =====
-- Every request keeps the links of the coordinator's maps (src/mesh.rs).
use ponswarp_signaling_rs.Common.{List, [], ◌∷◌, refl}
use ponswarp_signaling_rs.Mesh.{
  Request, mesh_health, mesh_ready, create_workspace, register_node, heartbeat, list_files,
  publish_file, get_file, update_availability, candidates, record_event, create_share,
  resolve_share, revoke_share, share_candidates, record_share_event, handle, serve,
}
use ponswarp_signaling_rs.Mesh.Registry.{Json, MeshConfig, MeshState, empty_state}
use ponswarp_signaling_rs.Mesh.Integrity.{IsLinked, empty_state-IsLinked}
use ponswarp_signaling_rs.Mesh.Integrity.Kept.{
  create_workspace_kept, register_node_kept, heartbeat_kept, update_availability_kept,
  record_event_kept, record_share_event_kept,
}
use ponswarp_signaling_rs.Mesh.Integrity.Shared.{
  revoke_share_kept, create_share_kept, publish_file_kept,
}
use ponswarp_signaling_rs.Mesh.Integrity.Reads.{read_lem}

module _ (json : Json) (config : MeshConfig) where
  handle_kept :
      (request : Request json.Value) (s : MeshState json.Value)
      → IsLinked s
      → IsLinked (handle json config request s).state
  unfolding handle
  handle_kept mesh_health s h = rw (read_lem json config mesh_health s refl) h
  handle_kept mesh_ready s h = rw (read_lem json config mesh_ready s refl) h
  handle_kept (list_files clock w) s h = rw (read_lem json config (list_files clock w) s refl) h
  handle_kept (get_file w f) s h = rw (read_lem json config (get_file w f) s refl) h
  handle_kept (candidates now w f) s h = rw (read_lem json config (candidates now w f) s refl) h
  handle_kept (resolve_share now c) s h = rw (read_lem json config (resolve_share now c) s refl) h
  handle_kept (share_candidates now later c) s h =
      rw (read_lem json config (share_candidates now later c) s refl) h
  handle_kept (create_workspace now uuid req) s h = create_workspace_kept config s h now uuid req
  handle_kept (register_node now w req) s h = register_node_kept config s h now w req
  handle_kept (heartbeat now w n req) s h = heartbeat_kept config s h now w n req
  handle_kept (publish_file now later uuid w req) s h =
      publish_file_kept json config s h now later uuid w req
  handle_kept (update_availability now w f n req) s h =
      update_availability_kept config s h now w f n req
  handle_kept (record_event now uuid w req) s h = record_event_kept json config s h now uuid w req
  handle_kept (create_share now raw w req) s h = create_share_kept json config s h now raw w req
  handle_kept (revoke_share now c) s h = revoke_share_kept config s h now c
  handle_kept (record_share_event now later uuid c req) s h =
      record_share_event_kept json config s h now later uuid c req

  serve_kept :
      (requests : List (Request json.Value)) (s : MeshState json.Value)
      → IsLinked s
      → IsLinked (serve json config requests s)
  unfolding serve
  serve_kept [] s h = h
  serve_kept (request ∷ requests) s h = serve_kept requests _ (handle_kept request s h)

  -- After any requests to a coordinator that starts empty: the workspace of every node and file
  -- is there, and each of them is filed under its own workspace and name; the node of every
  -- presence is there, and the node and the file of every availability; the workspace of every
  -- event is there; the file of every share is there; the creator of every file and of every share
  -- is a node of its workspace, unless it is left out; and events and shares are filed under their
  -- identifiers.
  pub serve-IsLinked :
      (requests : List (Request json.Value))
      → IsLinked (serve json config requests (empty_state json.Value))
  serve-IsLinked requests = serve_kept requests (empty_state json.Value) empty_state-IsLinked
