-- ===== src/Mesh/Integrity/Kept.antt =====
-- Every request keeps the links of the coordinator's maps (src/mesh.rs).
use ponswarp_signaling_rs.Common.{
  ℕ, String, true, some, string_eq, pair_eq, ◌≡◌, refl, arith, Bool-cases, Option-cases, inl, inr,
  ltb,
}
use ponswarp_signaling_rs.Common.Map.{lookup, contains_key}
use ponswarp_signaling_rs.Mesh.Handlers
use ponswarp_signaling_rs.Mesh.Publish
use ponswarp_signaling_rs.Mesh.Shares
use ponswarp_signaling_rs.Mesh.Registry.{
  Json, MeshConfig, MeshShare, MeshState, CreateWorkspaceRequest, RegisterNodeRequest,
  HeartbeatRequest, UpdateAvailabilityRequest, RecordEventRequest, ShareEventRequest,
}
use ponswarp_signaling_rs.Mesh.Integrity.{
  IsLinked, add_workspace, add_node, add_presence, add_availability, add_event,
}

module _ {V : Type 0} (config : MeshConfig) (s : MeshState V) (h : IsLinked s) where
  pub create_workspace_kept :
      (now : ℕ) (uuid : String) (req : CreateWorkspaceRequest)
      → IsLinked (Handlers.create_workspace config now uuid req s).state
  unfolding Handlers.create_workspace
  create_workspace_kept now uuid req = elim (Bool-cases config.enabled) [
    | inl on ↦ rw (Handlers.create_workspace, on) (add_workspace s h _ _)
    | inr off ↦ rw (Handlers.create_workspace, off) h
  ]

  pub register_node_kept :
      (now : ℕ) (w : String) (req : RegisterNodeRequest V)
      → IsLinked (Handlers.register_node config now w req s).state
  unfolding Handlers.register_node Handlers.workspace_exists
  register_node_kept now w req = elim (Bool-cases config.enabled) [
    | inr off ↦ rw (Handlers.register_node, off) h
    | inl on ↦ elim (Bool-cases (contains_key w s.workspaces)) [
      | inr missing ↦ rw (Handlers.register_node, on, missing) h
      | inl found ↦
          rw (Handlers.register_node, on, found)
            (add_node s h (w, req.node_id) _ (found, refl, refl))
    ]
  ]

  pub heartbeat_kept :
      (now : ℕ) (w n : String) (req : HeartbeatRequest V)
      → IsLinked (Handlers.heartbeat config now w n req s).state
  unfolding Handlers.heartbeat Handlers.node_exists
  heartbeat_kept now w n req = elim (Bool-cases config.enabled) [
    | inr off ↦ rw (Handlers.heartbeat, off) h
    | inl on ↦ elim (Bool-cases (contains_key (w, n) s.nodes)) [
      | inr missing ↦ rw (Handlers.heartbeat, on, missing) h
      | inl found ↦ rw (Handlers.heartbeat, on, found) (add_presence s h (w, n) _ found)
    ]
  ]

  pub update_availability_kept :
      (now : ℕ) (w f n : String) (req : UpdateAvailabilityRequest V)
      → IsLinked (Handlers.update_availability config now w f n req s).state
  unfolding Handlers.update_availability Handlers.node_exists Handlers.file_exists
  update_availability_kept now w f n req = elim (Bool-cases config.enabled) [
    | inr off ↦ rw (Handlers.update_availability, off) h
    | inl on ↦ elim (Bool-cases (contains_key (w, n) s.nodes)) [
      | inr missing ↦ rw (Handlers.update_availability, on, missing) h
      | inl node ↦ elim (Bool-cases (contains_key (w, f) s.files)) [
        | inr missing ↦ rw (Handlers.update_availability, on, node, missing) h
        | inl file ↦
            rw (Handlers.update_availability, on, node, file)
              (add_availability s h (w, (f, n)) _ (file, node))
      ]
    ]
  ]

module _ {V : Type 0} (s : MeshState V) (h : IsLinked s) where
  pub file_workspace :
      (w f : String) → contains_key (w, f) s.files ≡ true → contains_key w s.workspaces ≡ true
  unfolding contains_key
  file_workspace w f found = elim (Option-cases (lookup (w, f) s.files)) [
    | inl e ↦ ground (arith, e)
    | inr (v, e) ↦ (h.files_linked (w, f) v e).0
  ]

  pub active_share_workspace :
      (now : ℕ) (share_code : String) (found : MeshShare V)
      → Shares.active_share now s share_code ≡ some found
      → contains_key found.workspace_id s.workspaces ≡ true
  unfolding Shares.active_share
  active_share_workspace now share_code found active =
      file_workspace found.workspace_id found.file_id
        (h.shares_linked share_code found (ground (arith, active))).0

module _ (json : Json) (config : MeshConfig) (s : MeshState json.Value) (h : IsLinked s) where
  pub record_event_kept :
      (now : ℕ) (uuid w : String) (req : RecordEventRequest json.Value)
      → IsLinked (Publish.record_event json config now uuid w req s).state
  unfolding Publish.record_event Handlers.workspace_exists
  record_event_kept now uuid w req = elim (Bool-cases config.enabled) [
    | inr off ↦ rw (Publish.record_event, off) h
    | inl on ↦ elim (Bool-cases (contains_key w s.workspaces)) [
      | inr missing ↦ rw (Publish.record_event, on, missing) h
      | inl found ↦
          elim (Bool-cases
            (ltb Handlers.max_mesh_json_bytes (Publish.json_size json req.payload))) [
              | inl large ↦ rw (Publish.record_event, on, found, large) h
              | inr small ↦
                  rw (Publish.record_event, on, found, small) (add_event s h uuid _ (found, refl))
            ]
    ]
  ]

  pub record_share_event_kept :
      (now later : ℕ) (uuid share_code : String) (req : ShareEventRequest json.Value)
      → IsLinked (Shares.record_share_event json config now later uuid share_code req s).state
  unfolding Shares.record_share_event
  record_share_event_kept now later uuid share_code req = elim (Bool-cases config.enabled) [
    | inr off ↦ rw (Shares.record_share_event, off) h
    | inl on ↦ elim (Option-cases (Shares.active_share now s share_code)) [
      | inl none_active ↦ rw (Shares.record_share_event, on, none_active) h
      | inr (found, active) ↦
          elim (Bool-cases
            (ltb Handlers.max_mesh_json_bytes (Publish.json_size json req.payload))) [
              | inl large ↦ rw (Shares.record_share_event, on, active, large) h
              | inr small ↦
                  rw (Shares.record_share_event, on, active, small)
                    (add_event s h uuid _
                      (active_share_workspace s h now share_code found active, refl))
            ]
    ]
  ]
