-- ===== src/Protocol.antt =====
-- The messages between a client and the server, of src/protocol/messages.rs.
use ponswarp_signaling_rs.Common.{ℕ, String, Bool, List, Option}

pub data ClientMessage : Type 0 where
  heartbeat : ClientMessage
  join_room : (room_id : String) → ClientMessage
  leave_room : ClientMessage
  offer : (room_id sdp : String) → (target : Option String) → ClientMessage
  answer : (room_id sdp : String) → (target : Option String) → ClientMessage
  ice_candidate : (room_id candidate : String) → (target : Option String) → ClientMessage
  manifest : (room_id manifest : String) → (target : Option String) → ClientMessage
  transfer_ready : (room_id : String) → (target : Option String) → ClientMessage
  transfer_complete : (room_id : String) → (target : Option String) → ClientMessage
  request_turn_config : (room_id : String) → (force_refresh : Option Bool) → ClientMessage
  refresh_turn_credentials : (room_id current_username : String) → ClientMessage
  check_turn_server_status : ClientMessage

pub record IceServer : Type 0 where
  pub urls : List String
  pub username : Option String
  pub credential : Option String
  pub credential_type : Option String

pub record TurnConfigData : Type 0 where
  pub ice_servers : List IceServer
  pub ttl : ℕ
  pub timestamp : ℕ
  pub room_id : String

pub data ServerMessage : Type 0 where
  connected : (socket_id : String) → ServerMessage
  heartbeat_ack : ServerMessage
  error : (code message : String) → ServerMessage
  joined_room : (room_id socket_id : String) → (user_count : ℕ) → ServerMessage
  room_users : (users : List String) → ServerMessage
  peer_joined : (socket_id room_id : String) → ServerMessage
  user_left : (socket_id : String) → ServerMessage
  room_full : (room_id : String) → ServerMessage
  offer : (from sdp : String) → ServerMessage
  answer : (from sdp : String) → ServerMessage
  ice_candidate : (from candidate : String) → ServerMessage
  manifest : (from manifest : String) → ServerMessage
  transfer_ready : (from : String) → ServerMessage
  transfer_complete : (from : String) → ServerMessage
  turn_config :
      (success : Bool) → (payload : Option TurnConfigData) → (error : Option String) → ServerMessage
  turn_server_status_update : (room_id : String) → (timestamp : ℕ) → ServerMessage
