-- ===== src/Mesh.antt =====
-- The mesh coordinator of src/mesh.rs: its requests, and what one does. The routes are those of
-- src/main.rs.
pub mod Registry
pub mod Handlers
pub mod Publish
pub mod Shares
pub mod Integrity
pub mod Examples
pub mod Sharing
pub mod RoundTrip
pub mod Providers
use ponswarp_signaling_rs.Common.{ℕ, String, List, [], ◌∷◌}
use Registry.{
  Json, MeshConfig, MeshState, CreateWorkspaceRequest, RegisterNodeRequest, HeartbeatRequest,
  PublishFileRequest, UpdateAvailabilityRequest, RecordEventRequest, CreateShareRequest,
  ShareEventRequest, Reply,
}
use Handlers
use Publish
use Shares

-- A request with its path and body, and the values of the clock and of `Uuid::new_v4` that its
-- handler reads.
pub data Request (V : Type 0) : Type 0 where
  mesh_health : Request V
  mesh_ready : Request V
  create_workspace : (now : ℕ) → (uuid : String) → CreateWorkspaceRequest → Request V
  register_node : (now : ℕ) → (workspace_id : String) → RegisterNodeRequest V → Request V
  heartbeat : (now : ℕ) → (workspace_id node_id : String) → HeartbeatRequest V → Request V
  list_files : (clock : String → ℕ) → (workspace_id : String) → Request V
  publish_file : (now later : ℕ) → (uuid workspace_id : String) → PublishFileRequest V → Request V
  get_file : (workspace_id file_id : String) → Request V
  update_availability :
      (now : ℕ) → (workspace_id file_id node_id : String) → UpdateAvailabilityRequest V → Request V
  candidates : (now : ℕ) → (workspace_id file_id : String) → Request V
  record_event : (now : ℕ) → (uuid workspace_id : String) → RecordEventRequest V → Request V
  create_share : (now : ℕ) → (raw workspace_id : String) → CreateShareRequest V → Request V
  resolve_share : (now : ℕ) → (code : String) → Request V
  revoke_share : (now : ℕ) → (code : String) → Request V
  share_candidates : (now later : ℕ) → (code : String) → Request V
  record_share_event : (now later : ℕ) → (uuid code : String) → ShareEventRequest V → Request V

module _ (json : Json) (config : MeshConfig) where
  open json use {Value}

  unfoldable pub handle : Request Value → MeshState Value → Reply Value
  handle mesh_health s = Handlers.mesh_health config s
  handle mesh_ready s = Handlers.mesh_ready config s
  handle (create_workspace now uuid req) s = Handlers.create_workspace config now uuid req s
  handle (register_node now w req) s = Handlers.register_node config now w req s
  handle (heartbeat now w n req) s = Handlers.heartbeat config now w n req s
  handle (list_files clock w) s = Handlers.list_files config clock w s
  handle (publish_file now later uuid w req) s =
      Publish.publish_file json config now later uuid w req s
  handle (get_file w f) s = Handlers.get_file config w f s
  handle (update_availability now w f n req) s = Handlers.update_availability config now w f n req s
  handle (candidates now w f) s = Handlers.candidates config now w f s
  handle (record_event now uuid w req) s = Publish.record_event json config now uuid w req s
  handle (create_share now raw w req) s = Shares.create_share json config now raw w req s
  handle (resolve_share now code) s = Shares.resolve_share config now code s
  handle (revoke_share now code) s = Shares.revoke_share config now code s
  handle (share_candidates now later code) s = Shares.share_candidates config now later code s
  handle (record_share_event now later uuid code req) s =
      Shares.record_share_event json config now later uuid code req s

  unfoldable pub serve : List (Request Value) → MeshState Value → MeshState Value
  serve [] s = s
  serve (request ∷ requests) s = serve requests (handle request s).state
