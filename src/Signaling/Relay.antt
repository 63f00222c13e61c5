-- ===== src/Signaling/Relay.antt =====
-- Relaying WebRTC signals between peers, of src/handlers/signaling.rs.
pub mod Delivery
use ponswarp_signaling_rs.Common.{
  ℕ, String, Bool, List, [], ◌∷◌, ◌++◌, Option, none, some, if◌then◌else◌, ◌==◌, string_eq,
}
use ponswarp_signaling_rs.Common.Map.{lookup}
use ponswarp_signaling_rs.Protocol.{ServerMessage}
use ponswarp_signaling_rs.Protocol.{ServerMessage}
use ponswarp_signaling_rs.Signaling.{AppState, Task, send_to_peer}

-- The loop of `broadcast_to_room_except`.
unfoldable pub send_to_others : List String → String → ServerMessage → AppState → AppState
send_to_others [] except message s = s
send_to_others (peer_id ∷ peers) except message s =
    send_to_others peers except message
      (if peer_id == except then s else send_to_peer peer_id message s)

unfoldable pub broadcast_to_room_except : String → String → ServerMessage → AppState → AppState
broadcast_to_room_except room_id except message s = elim (lookup room_id s.rooms) [
  | none ↦ s
  | some room ↦ send_to_others room.users except message s
]

-- The branch that all the handlers share: to the target, or to the rest of the room.
unfoldable pub relay : String → String → ServerMessage → Option String → AppState → AppState
unfolding broadcast_to_room_except
relay from room_id message none s = broadcast_to_room_except room_id from message s
relay from room_id message (some target) s = send_to_peer target message s

unfoldable pub handle_offer : String → String → String → Option String → AppState → AppState
unfolding relay
handle_offer from room_id sdp target s = relay from room_id (ServerMessage.offer from sdp) target s

unfoldable pub handle_answer : String → String → String → Option String → AppState → AppState
unfolding relay
handle_answer from room_id sdp target s =
    relay from room_id (ServerMessage.answer from sdp) target s

unfoldable pub handle_ice_candidate : String → String → String → Option String → AppState → AppState
unfolding relay
handle_ice_candidate from room_id candidate target s =
    relay from room_id (ServerMessage.ice_candidate from candidate) target s

unfoldable pub handle_manifest : String → String → String → Option String → AppState → AppState
unfolding relay
handle_manifest from room_id manifest target s =
    relay from room_id (ServerMessage.manifest from manifest) target s

unfoldable pub handle_transfer_ready : String → String → Option String → AppState → AppState
unfolding relay
handle_transfer_ready from room_id target s =
    relay from room_id (ServerMessage.transfer_ready from) target s

-- What the spawned broadcast of a completion signal holds.
abbrev pub completion : String → String → Task
completion from room_id = record {
  room_id = room_id;
  from = from;
  message = ServerMessage.transfer_complete from;
}

-- With no target the broadcast is spawned, and runs at some later time.
unfoldable pub handle_transfer_complete : String → String → Option String → AppState → AppState
handle_transfer_complete from room_id none s = record s {
  tasks = s.tasks ++ completion from room_id ∷ [];
}
handle_transfer_complete from room_id (some target) s =
    send_to_peer target (ServerMessage.transfer_complete from) s

unfoldable pub run_task : Task → AppState → AppState
unfolding broadcast_to_room_except
run_task task s = broadcast_to_room_except task.room_id task.from task.message s
