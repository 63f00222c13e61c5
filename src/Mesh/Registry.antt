-- ===== src/Mesh/Registry.antt =====
-- The state of the mesh coordinator, the requests' bodies and the responses, of src/mesh.rs.
--
-- A JSON value is serde_json's: its type is the parameter `V` of the records, and what the code
-- asks of a value is the interface `Json`.
use ponswarp_signaling_rs.Common.{ℕ, String, Bool, List, [], Option}
use ponswarp_signaling_rs.Common.Map.{Map}

-- `get`, `as_str`, `as_u64` and `as_bool` of a value, the bytes of its text (`none` if it cannot
-- be written), the empty array, and the object in which a share's event is wrapped.
pub record Json : Type 1 where
  pub Value : Type 0
  pub get : Value → String → Option Value
  pub as_str : Value → Option String
  pub as_u64 : Value → Option ℕ
  pub as_bool : Value → Option Bool
  pub byte_count : Value → Option ℕ
  pub empty_array : Value
  pub share_payload : String → Value → Value

pub record MeshConfig : Type 0 where
  pub enabled : Bool
  pub auto_approve_nodes : Bool
  pub presence_ttl_seconds : ℕ

pub record MeshWorkspace : Type 0 where
  pub workspace_id : String
  pub name : String
  pub created_at : ℕ

pub record MeshNode (V : Type 0) : Type 0 where
  pub workspace_id : String
  pub node_id : String
  pub display_name : String
  pub public_key : String
  pub status : String
  pub capabilities : V
  pub created_at : ℕ

pub record MeshPresence (V : Type 0) : Type 0 where
  pub workspace_id : String
  pub node_id : String
  pub online : Bool
  pub endpoint_hints : V
  pub load : V
  pub updated_at : ℕ
  pub expires_at : ℕ

pub record MeshFile (V : Type 0) : Type 0 where
  pub workspace_id : String
  pub file_id : String
  pub name : String
  pub size_bytes : ℕ
  pub piece_size : ℕ
  pub piece_count : ℕ
  pub manifest : V
  pub tags : V
  pub created_by_node_id : String
  pub created_at : ℕ

pub record MeshAvailability (V : Type 0) : Type 0 where
  pub workspace_id : String
  pub file_id : String
  pub node_id : String
  pub complete : Bool
  pub verified_ranges : V
  pub updated_at : ℕ
  pub advertise_until : Option ℕ

pub record MeshEvent (V : Type 0) : Type 0 where
  pub event_id : String
  pub workspace_id : String
  pub event_type : String
  pub payload : V
  pub created_at : ℕ

pub record MeshShare (V : Type 0) : Type 0 where
  pub code : String
  pub workspace_id : String
  pub file_id : String
  pub created_by_node_id : String
  pub expires_at : ℕ
  pub revoked_at : Option ℕ
  pub capabilities : V
  pub created_at : ℕ

-- The key of an availability is a workspace, a file and a node.
pub record MeshState (V : Type 0) : Type 0 where
  pub workspaces : Map String MeshWorkspace
  pub nodes : Map (String × String) (MeshNode V)
  pub presence : Map (String × String) (MeshPresence V)
  pub files : Map (String × String) (MeshFile V)
  pub availability : Map (String × (String × String)) (MeshAvailability V)
  pub events : Map String (MeshEvent V)
  pub shares : Map String (MeshShare V)

pub record CreateWorkspaceRequest : Type 0 where
  pub workspace_id : Option String
  pub name : String

pub record RegisterNodeRequest (V : Type 0) : Type 0 where
  pub node_id : String
  pub display_name : String
  pub public_key : String
  pub capabilities : V

pub record HeartbeatRequest (V : Type 0) : Type 0 where
  pub status : Option String
  pub endpoint_hints : V
  pub load : V
  pub ttl_seconds : Option ℕ

pub record PublishFileRequest (V : Type 0) : Type 0 where
  pub manifest : V
  pub availability : Option V

pub record UpdateAvailabilityRequest (V : Type 0) : Type 0 where
  pub complete : Bool
  pub verified_ranges : V
  pub advertise_until : Option ℕ

pub record RecordEventRequest (V : Type 0) : Type 0 where
  pub event_type : String
  pub payload : V

pub record CreateShareRequest (V : Type 0) : Type 0 where
  pub code : Option String
  pub file_id : String
  pub created_by_node_id : Option String
  pub ttl_seconds : Option ℕ
  pub capabilities : V

pub record ShareEventRequest (V : Type 0) : Type 0 where
  pub event_type : String
  pub payload : V

pub data StatusCode : Type 0 where
  ok not_found gone payload_too_large service_unavailable : StatusCode

-- A provider of a file, as the two candidate lists show it. `score` is 1.0 or 0.0 by `online`.
pub record Provider (V : Type 0) : Type 0 where
  pub node_id : String
  pub online : Bool
  pub verified_ranges : V
  pub endpoint_hints : V

-- A file in a listing, with the count of its online providers.
pub record Listed : Type 0 where
  pub file_id : String
  pub name : String
  pub size_bytes : ℕ
  pub piece_count : ℕ
  pub online_providers : ℕ

-- The bodies of the responses, a constructor for each shape.
pub data Body (V : Type 0) : Type 0 where
  error : (reason : String) → Body V
  error_at : (reason : String) → (time : ℕ) → Body V
  health : (enabled : Bool) → (status : String) → Body V
  workspace : (workspace_id name : String) → Body V
  node : (node_id status : String) → Body V
  beat : (node_id : String) → (online : Bool) → (expires_at : ℕ) → Body V
  published : (file_id name : String) → (size_bytes : ℕ) → Body V
  listing : (workspace_id : String) → (files : List Listed) → Body V
  file : (file_id name : String) → (size_bytes piece_count : ℕ) → Body V
  updated : (node_id : String) → Body V
  providers : (file_id : String) → (providers : List (Provider V)) → Body V
  share_providers : (code file_id : String) → (providers : List (Provider V)) → Body V
  event : (event_id : String) → Body V
  share : MeshShare V → Body V
  resolved : MeshShare V → MeshFile V → Body V
  revoked : (code : String) → (revoked_at : ℕ) → Body V

abbrev pub Response : Type 0 → Type 0
Response V = StatusCode × Body V

abbrev pub empty_state : (V : Type 0) → MeshState V
empty_state V = record {
  workspaces = [];
  nodes = [];
  presence = [];
  files = [];
  availability = [];
  events = [];
  shares = [];
}

-- What a handler returns: the response, and the state afterwards.
pub record Reply (V : Type 0) : Type 0 where
  pub status : StatusCode
  pub body : Body V
  pub state : MeshState V

abbrev pub reply : {V : Type 0} → StatusCode → Body V → MeshState V → Reply V
reply status body state = record { status = status; body = body; state = state }
