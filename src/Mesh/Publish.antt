-- ===== src/Mesh/Publish.antt =====
-- Publishing a file and recording an event, of src/mesh.rs: the handlers that read JSON.
use ponswarp_signaling_rs.Common.{
  ℕ, String, Bool, true, false, not, Option, none, some, ltb, if◌then◌else◌, string_eq, pair_eq,
  unwrap_or,
}
use ponswarp_signaling_rs.Common.Map.{insert}
use ponswarp_signaling_rs.Common.Text.{◌<>◌}
use ponswarp_signaling_rs.Mesh.Registry.{
  Json, MeshConfig, MeshFile, MeshAvailability, MeshEvent, MeshState, PublishFileRequest,
  RecordEventRequest, ok, not_found, payload_too_large, error, published, event, Reply, reply,
}
use ponswarp_signaling_rs.Mesh.Handlers.{
  max_mesh_json_bytes, usize_max, mesh_disabled_response, workspace_exists, node_exists,
}

module _ (json : Json) where
  open json use {Value, get, as_str, as_u64, as_bool, byte_count, empty_array}

  abbrev and_then {ℓ κ} : {A : Type ℓ} {B : Type κ} → Option A → (A → Option B) → Option B
  and_then none f = none
  and_then (some a) f = f a

  unfoldable pub string_field : Value → String → Option String
  string_field value key = and_then (get value key) as_str

  unfoldable pub u64_field : Value → String → Option ℕ
  u64_field value key = and_then (get value key) as_u64

  unfoldable pub json_size : Value → ℕ
  json_size value = unwrap_or (byte_count value) usize_max

  -- Whether the node that an availability names, if any, is missing.
  unfoldable pub names_missing_node : MeshState Value → String → Option String → Bool
  names_missing_node s workspace_id none = false
  names_missing_node s workspace_id (some node_id) = not (node_exists s workspace_id node_id)

  -- The availability that is stored with the file: where one is given and names a node.
  unfoldable pub with_availability :
      ℕ → String → String → Option Value → Option String → MeshState Value → MeshState Value
  with_availability later workspace_id file_id (some availability) (some node_id) s =
      let made : MeshAvailability Value = record {
        workspace_id = workspace_id;
        file_id = file_id;
        node_id = node_id;
        complete = unwrap_or (and_then (get availability "complete") as_bool) true;
        verified_ranges = unwrap_or (get availability "verifiedRanges") empty_array;
        updated_at = later;
        advertise_until = none;
      } in
      record s { availability = insert (workspace_id, (file_id, node_id)) made s.availability }
  with_availability later workspace_id file_id _ _ s = s

  abbrev pub availability_node : Option Value → Option String
  availability_node availability = and_then availability (λ value. string_field value "nodeId")

  unfoldable pub publish_file :
      MeshConfig
      → ℕ
      → ℕ
      → (uuid : String) → String
      → PublishFileRequest Value
      → MeshState Value
      → Reply Value
  publish_file config now later uuid workspace_id req s = mesh_disabled_response config s (
      if not (workspace_exists s workspace_id)
      then reply not_found (error "workspace_not_found") s
      else if ltb max_mesh_json_bytes (json_size req.manifest)
      then reply payload_too_large (error "manifest_too_large") s
      else if names_missing_node s workspace_id (availability_node req.availability)
      then reply not_found (error "node_not_found") s
      else (let node_id = availability_node req.availability in
          let file_id = unwrap_or (string_field req.manifest "fileId") ("file_" <> uuid) in
          let made : MeshFile Value = record {
            workspace_id = workspace_id;
            file_id = file_id;
            name = unwrap_or (string_field req.manifest "name") file_id;
            size_bytes = unwrap_or (u64_field req.manifest "size") 0;
            piece_size = unwrap_or (u64_field req.manifest "pieceSize") 0;
            piece_count = unwrap_or (u64_field req.manifest "pieceCount") 0;
            manifest = req.manifest;
            tags = empty_array;
            created_by_node_id = unwrap_or node_id "";
            created_at = now;
          } in
          reply ok (published file_id made.name made.size_bytes) (
            with_availability later workspace_id file_id req.availability node_id
              (record s { files = insert (workspace_id, file_id) made s.files }))))

  unfoldable pub record_event :
      MeshConfig
      → ℕ
      → (uuid : String) → String
      → RecordEventRequest Value
      → MeshState Value
      → Reply Value
  record_event config now uuid workspace_id req s = mesh_disabled_response config s (
      if not (workspace_exists s workspace_id)
      then reply not_found (error "workspace_not_found") s
      else if ltb max_mesh_json_bytes (json_size req.payload)
      then reply payload_too_large (error "event_too_large") s
      else (let made : MeshEvent Value = record {
        event_id = uuid;
        workspace_id = workspace_id;
        event_type = req.event_type;
        payload = req.payload;
        created_at = now;
      } in
          reply ok (event uuid) (record s { events = insert uuid made s.events })))
