-- ===== src/Mesh/Integrity.antt =====
-- That no entry of the coordinator's maps names one that is missing (src/mesh.rs).
pub mod Reads
pub mod Kept
pub mod Shared
pub mod Runs
use ponswarp_signaling_rs.Common.{
  ℕ, String, Bool, true, false, ◌||◌, List, [], ◌∷◌, Option, none, some, string_eq, pair_eq, ◌≡◌,
  refl, arith, Bool-cases, Option-cases, is_some, inl, inr, ◌==◌,
}
use ponswarp_signaling_rs.Common.Map.{
  Map, lookup, contains_key, insert, contains_key-insert, Each, Each-insert,
}
use ponswarp_signaling_rs.Common.Text.{is_empty}
use ponswarp_signaling_rs.Mesh.Registry.{
  MeshWorkspace, MeshNode, MeshPresence, MeshFile, MeshAvailability, MeshEvent, MeshShare,
  MeshState, empty_state,
}

module _ {V : Type 0} where
  abbrev pub NodeLinked : MeshState V → String × String → MeshNode V → Type 0
  NodeLinked s key made =
      (contains_key key.0 s.workspaces ≡ true)
      × (made.workspace_id ≡ key.0)
      × (made.node_id ≡ key.1)

  abbrev pub PresenceLinked : MeshState V → String × String → MeshPresence V → Type 0
  PresenceLinked s key made = contains_key key s.nodes ≡ true

  -- The creator of a file may be left out.
  abbrev pub FileLinked : MeshState V → String × String → MeshFile V → Type 0
  FileLinked s key made =
      (contains_key key.0 s.workspaces ≡ true)
      × (made.workspace_id ≡ key.0)
      × (made.file_id ≡ key.1)
      × ((is_empty made.created_by_node_id || contains_key (key.0, made.created_by_node_id) s.nodes)
          ≡ true)

  abbrev pub AvailabilityLinked :
      MeshState V → String × (String × String) → MeshAvailability V → Type 0
  AvailabilityLinked s key made =
      (contains_key (key.0, key.1.0) s.files ≡ true)
      × (contains_key (key.0, key.1.1) s.nodes ≡ true)

  abbrev pub EventLinked : MeshState V → String → MeshEvent V → Type 0
  EventLinked s key made =
      (contains_key made.workspace_id s.workspaces ≡ true) × (made.event_id ≡ key)

  -- The creator of a share may be left out.
  abbrev pub ShareLinked : MeshState V → String → MeshShare V → Type 0
  ShareLinked s key made =
      (contains_key (made.workspace_id, made.file_id) s.files ≡ true)
      × ((is_empty made.created_by_node_id
            || contains_key (made.workspace_id, made.created_by_node_id) s.nodes)
          ≡ true)
      × (made.code ≡ key)

  pub record IsLinked (s : MeshState V) : Type 0 where
    pub nodes_linked : Each (NodeLinked s) s.nodes
    pub presences_linked : Each (PresenceLinked s) s.presence
    pub files_linked : Each (FileLinked s) s.files
    pub availabilities_linked : Each (AvailabilityLinked s) s.availability
    pub events_linked : Each (EventLinked s) s.events
    pub shares_linked : Each (ShareLinked s) s.shares

  pub empty_state-IsLinked : IsLinked (empty_state V)
  unfolding lookup
  empty_state-IsLinked = record {
    nodes_linked = λ k v found. ground arith;
    presences_linked = λ k v found. ground arith;
    files_linked = λ k v found. ground arith;
    availabilities_linked = λ k v found. ground arith;
    events_linked = λ k v found. ground arith;
    shares_linked = λ k v found. ground arith;
  }

  module _ (s : MeshState V) (h : IsLinked s) where
    pub add_workspace :
        (id : String) (made : MeshWorkspace)
        → IsLinked (record s { workspaces = insert id made s.workspaces })
    add_workspace id made = record {
      nodes_linked = λ k v found. (
        contains_key-insert id k.0 made s.workspaces (h.nodes_linked k v found).0,
        (h.nodes_linked k v found).1,
        (h.nodes_linked k v found).2,
      );
      presences_linked = h.presences_linked;
      files_linked = λ k v found. (
        contains_key-insert id k.0 made s.workspaces (h.files_linked k v found).0,
        (h.files_linked k v found).1,
        (h.files_linked k v found).2,
        (h.files_linked k v found).3,
      );
      availabilities_linked = h.availabilities_linked;
      events_linked = λ k v found. (
        contains_key-insert id v.workspace_id made s.workspaces (h.events_linked k v found).0,
        (h.events_linked k v found).1,
      );
      shares_linked = h.shares_linked;
    }

    pub add_node :
        (id : String × String) (made : MeshNode V)
        → NodeLinked s id made
        → IsLinked (record s { nodes = insert id made s.nodes })
    add_node id made linked = record {
      nodes_linked = Each-insert (NodeLinked s) id made s.nodes h.nodes_linked linked;
      presences_linked =
          λ k v found. contains_key-insert id k made s.nodes (h.presences_linked k v found);
      files_linked = λ k v found. (
        (h.files_linked k v found).0,
        (h.files_linked k v found).1,
        (h.files_linked k v found).2,
        ground (
          arith,
          (h.files_linked k v found).3,
          contains_key-insert id (k.0, v.created_by_node_id) made s.nodes,
        ),
      );
      availabilities_linked = λ k v found. (
        (h.availabilities_linked k v found).0,
        contains_key-insert id (k.0, k.1.1) made s.nodes (h.availabilities_linked k v found).1,
      );
      events_linked = h.events_linked;
      shares_linked = λ k v found. (
        (h.shares_linked k v found).0,
        ground (
          arith,
          h.shares_linked k v found,
          contains_key-insert id (v.workspace_id, v.created_by_node_id) made s.nodes,
        ),
        (h.shares_linked k v found).2,
      );
    }

    pub add_presence :
        (id : String × String) (made : MeshPresence V)
        → PresenceLinked s id made
        → IsLinked (record s { presence = insert id made s.presence })
    add_presence id made linked = record {
      nodes_linked = h.nodes_linked;
      presences_linked =
          Each-insert (PresenceLinked s) id made s.presence h.presences_linked linked;
      files_linked = h.files_linked;
      availabilities_linked = h.availabilities_linked;
      events_linked = h.events_linked;
      shares_linked = h.shares_linked;
    }

    pub add_file :
        (id : String × String) (made : MeshFile V)
        → FileLinked s id made
        → IsLinked (record s { files = insert id made s.files })
    add_file id made linked = record {
      nodes_linked = h.nodes_linked;
      presences_linked = h.presences_linked;
      files_linked = Each-insert (FileLinked s) id made s.files h.files_linked linked;
      availabilities_linked = λ k v found. (
        contains_key-insert id (k.0, k.1.0) made s.files (h.availabilities_linked k v found).0,
        (h.availabilities_linked k v found).1,
      );
      events_linked = h.events_linked;
      shares_linked = λ k v found. (
        contains_key-insert id (v.workspace_id, v.file_id) made s.files
            (h.shares_linked k v found).0,
        (h.shares_linked k v found).1,
        (h.shares_linked k v found).2,
      );
    }

    pub add_availability :
        (id : String × (String × String)) (made : MeshAvailability V)
        → AvailabilityLinked s id made
        → IsLinked (record s { availability = insert id made s.availability })
    add_availability id made linked = record {
      nodes_linked = h.nodes_linked;
      presences_linked = h.presences_linked;
      files_linked = h.files_linked;
      availabilities_linked =
          Each-insert (AvailabilityLinked s) id made s.availability h.availabilities_linked linked;
      events_linked = h.events_linked;
      shares_linked = h.shares_linked;
    }

    pub add_event :
        (id : String) (made : MeshEvent V)
        → EventLinked s id made
        → IsLinked (record s { events = insert id made s.events })
    add_event id made linked = record {
      nodes_linked = h.nodes_linked;
      presences_linked = h.presences_linked;
      files_linked = h.files_linked;
      availabilities_linked = h.availabilities_linked;
      events_linked = Each-insert (EventLinked s) id made s.events h.events_linked linked;
      shares_linked = h.shares_linked;
    }

    pub add_share :
        (id : String) (made : MeshShare V)
        → ShareLinked s id made
        → IsLinked (record s { shares = insert id made s.shares })
    add_share id made linked = record {
      nodes_linked = h.nodes_linked;
      presences_linked = h.presences_linked;
      files_linked = h.files_linked;
      availabilities_linked = h.availabilities_linked;
      events_linked = h.events_linked;
      shares_linked = Each-insert (ShareLinked s) id made s.shares h.shares_linked linked;
    }
