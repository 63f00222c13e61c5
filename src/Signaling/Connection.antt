-- ===== src/Signaling/Connection.antt =====
-- Opening and closing a connection, of src/handlers/connection.rs.
use ponswarp_signaling_rs.Common.{ℕ, String, none, some, string_eq}
use ponswarp_signaling_rs.Common.Map.{lookup, insert, remove}
use ponswarp_signaling_rs.Protocol.{connected, heartbeat_ack}
use ponswarp_signaling_rs.Signaling.{AppState, PeerSession, send}
use ponswarp_signaling_rs.Signaling.Rooms.{leave_room_internal}

-- `peer_id` is the value of `Uuid::new_v4`, and `sender` the channel of the new socket.
unfoldable pub handle_connection : ℕ → String → ℕ → AppState → AppState
handle_connection now peer_id sender s =
    let session : PeerSession = record {
      id = peer_id;
      room_id = none;
      sender = sender;
      connected_at = now;
    } in
    send sender (connected peer_id) (record s { peers = insert peer_id session s.peers })

unfoldable pub handle_disconnect : String → AppState → AppState
unfolding leave_room_internal
handle_disconnect peer_id s = elim (lookup peer_id s.peers) [
  | none ↦ s
  | some session ↦
      let t = record s { peers = remove peer_id s.peers } in
      elim session.room_id [ none ↦ t | some room_id ↦ leave_room_internal peer_id room_id t ]
]

unfoldable pub handle_heartbeat : ℕ → AppState → AppState
handle_heartbeat sender s = send sender heartbeat_ack s
