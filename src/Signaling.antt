-- ===== src/Signaling.antt =====
-- The signalling server's shared state, of src/state.rs, and how a message leaves it.
--
-- A session's `UnboundedSender` is the number of its channel, and `sent` is the log of what was
-- handed to the channels, oldest first. The channel's other end is the socket task, which is no
-- part of the state. `tasks` holds the broadcasts given to `tokio::spawn` that have not run yet.
-- `created_at` and `connected_at` are milliseconds on the clock that
-- `Instant::now` reads, which each operation takes as an argument.
pub mod Frame
pub mod Members
pub mod Rooms
pub mod Connection
pub mod Relay
pub mod Turn
pub mod Server
mod Examples
use ponswarp_signaling_rs.Common.{
  ℕ, String, Bool, List, [], ◌∷◌, ◌++◌, Option, none, some, string_eq,
}
use ponswarp_signaling_rs.Common.Map.{Map, lookup}
use ponswarp_signaling_rs.Protocol.{ServerMessage}

pub record RoomConfig : Type 0 where
  pub max_size : ℕ
  pub timeout_ms : ℕ

pub record TurnPorts : Type 0 where
  pub udp : ℕ
  pub tcp : ℕ
  pub tls : ℕ

pub record TurnConfig : Type 0 where
  pub url : String
  pub secret : String
  pub realm : String
  pub enable_tls : Bool
  pub enable_udp : Bool
  pub enable_tcp : Bool
  pub ports : TurnPorts
  pub credential_ttl : ℕ
  pub fallback_servers : List String

pub record Config : Type 0 where
  pub room : RoomConfig
  pub turn : TurnConfig

pub record Room : Type 0 where
  pub id : String
  pub users : List String
  pub created_at : ℕ

pub record PeerSession : Type 0 where
  pub id : String
  pub room_id : Option String
  pub sender : ℕ
  pub connected_at : ℕ

-- A spawned broadcast to a room, its sender left out.
pub record Task : Type 0 where
  pub room_id : String
  pub from : String
  pub message : ServerMessage

pub record AppState : Type 0 where
  pub rooms : Map String Room
  pub peers : Map String PeerSession
  pub config : Config
  pub sent : List (ℕ × ServerMessage)
  pub tasks : List Task

-- `Room::new`.
abbrev pub new_room : String → ℕ → Room
new_room id now = record { id = id; users = []; created_at = now }

-- The state that `AppState::new` makes.
abbrev pub new_state : Config → AppState
new_state config = record { rooms = []; peers = []; config = config; sent = []; tasks = [] }

-- `sender.send(message)`, whose result every caller discards.
abbrev pub send : ℕ → ServerMessage → AppState → AppState
send channel message s = record s { sent = s.sent ++ (channel, message) ∷ [] }

-- `if let Some(session) = state.peers.get(peer_id) { let _ = session.sender.send(message); }`
unfoldable pub send_to_peer : String → ServerMessage → AppState → AppState
send_to_peer peer_id message s = elim (lookup peer_id s.peers) [
  | none ↦ s
  | some session ↦ send session.sender message s
]

-- The loop that sends a message to each of a list of peers.
unfoldable pub send_to_all : List String → ServerMessage → AppState → AppState
send_to_all [] message s = s
send_to_all (peer_id ∷ peers) message s = send_to_all peers message (send_to_peer peer_id message s)
