-- ===== src/Mesh/Handlers.antt =====
-- The handlers of workspaces, nodes, files and events, of src/mesh.rs. The values of `now_seconds`
-- and of `Uuid::new_v4` are arguments; a handler that reads the clock twice takes two.
use ponswarp_signaling_rs.Common.{
  ℕ, suc, ◌+◌, ◌-◌, ◌%◌, ◌^◌, ◌*◌, String, Bool, true, false, ◌&&◌, not, List, [], ◌∷◌, Option,
  none, some, ltb, leb, if◌then◌else◌, ◌==◌, string_eq, pair_eq, unwrap_or,
}
use ponswarp_signaling_rs.Common.Map.{Map, lookup, contains_key, insert}
use ponswarp_signaling_rs.Common.Text.{◌<>◌, is_empty, trim}
use ponswarp_signaling_rs.Mesh.Registry.{
  MeshConfig, MeshWorkspace, MeshNode, MeshPresence, MeshFile, MeshAvailability, MeshState,
  CreateWorkspaceRequest, RegisterNodeRequest, HeartbeatRequest, UpdateAvailabilityRequest, ok,
  not_found, service_unavailable, Provider, Listed, error, health, workspace, node, beat, listing,
  file, updated, providers, Reply, reply,
}

abbrev pub max_mesh_json_bytes : ℕ
max_mesh_json_bytes = 64 * 1024

abbrev pub u64_mod : ℕ
u64_mod = 2 ^ 64

-- `usize::MAX`, on a 64-bit machine.
abbrev pub usize_max : ℕ
usize_max = 2 ^ 64 - 1

-- `value.max(1)`.
abbrev pub at_least_one : ℕ → ℕ
at_least_one n = if ltb n 1 then 1 else n

-- A text that is given and not blank, or else another.
abbrev pub given_or : Option String → String → String
given_or none other = other
given_or (some value) other = if is_empty (trim value) then other else value

abbrev pub mesh_disabled_response : {V : Type 0} → MeshConfig → MeshState V → Reply V → Reply V
mesh_disabled_response config s result =
    if config.enabled then result else reply service_unavailable (error "mesh_disabled") s

-- Whether the status of a heartbeat says online; none does.
abbrev pub says_online : Option String → Bool
says_online none = true
says_online (some status) = status == "online"

-- Whether an availability is of this workspace and file.
abbrev pub is_of : String → String → String × (String × String) → Bool
is_of workspace_id file_id key = key.0 == workspace_id && key.1.0 == file_id

module _ {V : Type 0} where
  unfoldable pub workspace_exists : MeshState V → String → Bool
  workspace_exists s workspace_id = contains_key workspace_id s.workspaces

  unfoldable pub node_exists : MeshState V → String → String → Bool
  node_exists s workspace_id node_id = contains_key (workspace_id, node_id) s.nodes

  unfoldable pub file_exists : MeshState V → String → String → Bool
  file_exists s workspace_id file_id = contains_key (workspace_id, file_id) s.files

  unfoldable pub mesh_health : MeshConfig → MeshState V → Reply V
  mesh_health config s =
      if config.enabled
      then reply ok (health true "ok") s
      else reply service_unavailable (health false "disabled") s

  unfoldable pub mesh_ready : MeshConfig → MeshState V → Reply V
  mesh_ready config s =
      if config.enabled
      then reply ok (health true "ready") s
      else reply service_unavailable (health false "disabled") s

  -- `uuid` is the hexadecimal text of a fresh one.
  unfoldable pub create_workspace :
      MeshConfig → ℕ → (uuid : String) → CreateWorkspaceRequest → MeshState V → Reply V
  create_workspace config now uuid req s = mesh_disabled_response config s (
      let id = given_or req.workspace_id ("ws_" <> uuid) in
      let made : MeshWorkspace = record { workspace_id = id; name = req.name; created_at = now } in
      reply ok (workspace id req.name) (record s { workspaces = insert id made s.workspaces }))

  unfoldable pub register_node :
      MeshConfig → ℕ → String → RegisterNodeRequest V → MeshState V → Reply V
  register_node config now workspace_id req s = mesh_disabled_response config s (
      if not (workspace_exists s workspace_id)
      then reply not_found (error "workspace_not_found") s
      else (let status = if config.auto_approve_nodes then "approved" else "pending" in
          let made : MeshNode V = record {
            workspace_id = workspace_id;
            node_id = req.node_id;
            display_name = req.display_name;
            public_key = req.public_key;
            status = status;
            capabilities = req.capabilities;
            created_at = now;
          } in
          reply ok (node req.node_id status)
            (record s { nodes = insert (workspace_id, req.node_id) made s.nodes })))

  -- The sum of the times wraps, as `u64` addition does in a release build.
  unfoldable pub heartbeat :
      MeshConfig → ℕ → String → String → HeartbeatRequest V → MeshState V → Reply V
  heartbeat config now workspace_id node_id req s = mesh_disabled_response config s (
      if not (node_exists s workspace_id node_id)
      then reply not_found (error "node_not_found") s
      else (let ttl = at_least_one (unwrap_or req.ttl_seconds config.presence_ttl_seconds) in
          let made : MeshPresence V = record {
            workspace_id = workspace_id;
            node_id = node_id;
            online = says_online req.status;
            endpoint_hints = req.endpoint_hints;
            load = req.load;
            updated_at = now;
            expires_at = (now + ttl) % u64_mod;
          } in
          reply ok (beat node_id made.online made.expires_at)
            (record s { presence = insert (workspace_id, node_id) made s.presence })))

  unfoldable pub get_file : MeshConfig → String → String → MeshState V → Reply V
  get_file config workspace_id file_id s =
      mesh_disabled_response config s (elim (lookup (workspace_id, file_id) s.files) [
        | none ↦ reply not_found (error "file_not_found") s
        | some found ↦ reply ok (file found.file_id found.name found.size_bytes found.piece_count) s
      ])

  unfoldable pub update_availability :
      MeshConfig
      → ℕ
      → String
      → String
      → String
      → UpdateAvailabilityRequest V
      → MeshState V
      → Reply V
  update_availability config now workspace_id file_id node_id req s =
      mesh_disabled_response config s (
        if not (node_exists s workspace_id node_id)
        then reply not_found (error "node_not_found") s
        else if not (file_exists s workspace_id file_id)
        then reply not_found (error "file_not_found") s
        else (let made : MeshAvailability V = record {
          workspace_id = workspace_id;
          file_id = file_id;
          node_id = node_id;
          complete = req.complete;
          verified_ranges = req.verified_ranges;
          updated_at = now;
          advertise_until = req.advertise_until;
        } in
            reply ok (updated node_id) (record s {
              availability = insert (workspace_id, (file_id, node_id)) made s.availability;
            })))

  -- Whether a node is online and its presence has not run out.
  abbrev pub is_online : ℕ → MeshPresence V → Bool
  is_online now presence = presence.online && leb now presence.expires_at

  abbrev pub online_now : ℕ → Option (MeshPresence V) → Bool
  online_now now none = false
  online_now now (some presence) = is_online now presence

  -- The filter and the count, over the entries.
  unfoldable pub count_online :
      ℕ → MeshState V → String → String → Map (String × (String × String)) (MeshAvailability V) → ℕ
  count_online now s workspace_id file_id [] = 0
  count_online now s workspace_id file_id ((key, available) ∷ rest) =
      let others = count_online now s workspace_id file_id rest in
      if is_of workspace_id file_id key
        && online_now now (lookup (workspace_id, key.1.1) s.presence)
      then suc others
      else others

  unfoldable pub count_online_providers : ℕ → MeshState V → String → String → ℕ
  unfolding count_online
  count_online_providers now s workspace_id file_id =
      count_online now s workspace_id file_id s.availability

  -- The filter and the `filter_map` of the candidates of a file.
  unfoldable pub collect_providers :
      ℕ
      → MeshState V
      → String
      → String
      → Map (String × (String × String)) (MeshAvailability V)
      → List (Provider V)
  collect_providers now s workspace_id file_id [] = []
  collect_providers now s workspace_id file_id ((key, available) ∷ rest) =
      let others = collect_providers now s workspace_id file_id rest in
      if is_of workspace_id file_id key
      then elim (lookup (workspace_id, key.1.1) s.presence) [
        | none ↦ others
        | some presence ↦
            record {
              node_id = key.1.1;
              online = is_online now presence;
              verified_ranges = available.verified_ranges;
              endpoint_hints = presence.endpoint_hints;
            }
            ∷ others
      ]
      else others

  unfoldable pub candidates : MeshConfig → ℕ → String → String → MeshState V → Reply V
  candidates config now workspace_id file_id s = mesh_disabled_response config s (
      if not (file_exists s workspace_id file_id)
      then reply not_found (error "file_not_found") s
      else reply ok
          (providers file_id (collect_providers now s workspace_id file_id s.availability)) s)

  -- The files of a workspace; each count reads the clock anew, `clock file_id`.
  unfoldable pub collect_files :
      (String → ℕ) → MeshState V → String → Map (String × String) (MeshFile V) → List Listed
  collect_files clock s workspace_id [] = []
  collect_files clock s workspace_id ((key, found) ∷ rest) =
      let others = collect_files clock s workspace_id rest in
      if key.0 == workspace_id
      then record {
        file_id = found.file_id;
        name = found.name;
        size_bytes = found.size_bytes;
        piece_count = found.piece_count;
        online_providers =
            count_online_providers (clock found.file_id) s workspace_id found.file_id;
      }
        ∷ others
      else others

  unfoldable pub list_files : MeshConfig → (String → ℕ) → String → MeshState V → Reply V
  list_files config clock workspace_id s = mesh_disabled_response config s (
      if not (workspace_exists s workspace_id)
      then reply not_found (error "workspace_not_found") s
      else reply ok (listing workspace_id (collect_files clock s workspace_id s.files)) s)
