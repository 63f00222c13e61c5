-- ===== src/Signaling/Rooms.antt =====
-- Joining, leaving and expiring rooms, of src/handlers/room.rs. Each handler runs as one step
-- here; `leave_room_internal` is also cut where the program lets go of the room's lock.
pub mod Valid
pub mod Effect
pub mod Join
pub mod Leave
use ponswarp_signaling_rs.Common.{
  ℕ, ◌-◌, String, Bool, true, false, ◌&&◌, not, List, [], ◌∷◌, Option, none, some, leb, ltb,
  if◌then◌else◌, length, unwrap_or, string_eq,
}
use ponswarp_signaling_rs.Common.Map.{Map, lookup, insert, remove, retain}
use ponswarp_signaling_rs.Common.NameSet
use ponswarp_signaling_rs.Common.Text.{trim}
use ponswarp_signaling_rs.Protocol.{
  ServerMessage, room_full, room_users, joined_room, peer_joined, user_left,
}
use ponswarp_signaling_rs.Signaling.Members.{session_room}
use ponswarp_signaling_rs.Signaling.{
  AppState, Room, PeerSession, new_room, send_to_peer, send_to_all,
}

-- `if let Some(session) = state.peers.get(peer_id) { *session.room_id.write() = room_id }`
unfoldable pub set_session_room : String → Option String → AppState → AppState
set_session_room peer_id room_id s = elim (lookup peer_id s.peers) [
  | none ↦ s
  | some session ↦ record s {
    peers = insert peer_id (record session { room_id = room_id }) s.peers;
  }
]

unfoldable pub broadcast_to_room : String → ServerMessage → AppState → AppState
broadcast_to_room room_id message s = elim (lookup room_id s.rooms) [
  | none ↦ s
  | some room ↦ send_to_all room.users message s
]

-- `state.rooms.entry(room_id).or_insert_with(|| Room::new(room_id))`: the room, and the state
-- that holds it.
unfoldable pub entry : ℕ → String → AppState → Room
entry now room_id s = unwrap_or (lookup room_id s.rooms) (new_room room_id now)

unfoldable pub open_room : ℕ → String → AppState → AppState
unfolding entry
open_room now room_id s = record s { rooms = insert room_id (entry now room_id s) s.rooms }

-- Whether the join is turned down: the room is full, and the peer is not in it already.
unfoldable pub is_rejected : ℕ → Room → String → Bool
is_rejected max_size room peer_id =
    leb max_size (length room.users) && not (NameSet.contains peer_id room.users)

-- The part of the join that changes the room and the session.
unfoldable pub enter : ℕ → String → String → AppState → AppState
unfolding entry open_room set_session_room
enter now peer_id room_id s =
    let room = entry now room_id s in
    set_session_room peer_id (some room_id) (record s {
      rooms = insert room_id (record room { users = NameSet.insert peer_id room.users }) s.rooms;
    })

-- The messages of a join: to the new user, then to those who were there, then to all.
unfoldable pub announce_join : String → String → List String → List String → AppState → AppState
unfolding broadcast_to_room
announce_join peer_id room_id existing_users updated_users s =
    let listed = send_to_peer peer_id (room_users existing_users) s in
    let greeted =
      send_to_peer peer_id (joined_room room_id peer_id (length updated_users)) listed in
    let told = send_to_all existing_users (peer_joined peer_id room_id) greeted in
    broadcast_to_room room_id (room_users updated_users) told

unfoldable pub handle_join_room : ℕ → String → String → AppState → AppState
unfolding is_rejected enter announce_join
handle_join_room now peer_id raw_room_id s =
    let room_id = trim raw_room_id in
    let room = entry now room_id s in
    if is_rejected s.config.room.max_size room peer_id
    then send_to_peer peer_id (room_full room_id) (open_room now room_id s)
    else announce_join peer_id room_id room.users (NameSet.insert peer_id room.users)
        (enter now peer_id room_id s)

-- `leave_room_internal` up to the drop of the room's guard: the peer is taken out, and the list
-- of those who remain is the result.
unfoldable pub leave_remove : String → String → AppState → Option (List String × AppState)
leave_remove peer_id room_id s = elim (lookup room_id s.rooms) [
  | none ↦ none
  | some room ↦
      let updated_users = NameSet.remove peer_id room.users in
      some (
        updated_users,
        record s { rooms = insert room_id (record room { users = updated_users }) s.rooms },
      )
]

-- The messages of a leave, sent after the guard is dropped.
unfoldable pub leave_notify : String → String → List String → AppState → AppState
unfolding broadcast_to_room
leave_notify peer_id room_id updated_users s =
    let told = broadcast_to_room room_id (user_left peer_id) s in
    if ltb 0 (length updated_users)
    then broadcast_to_room room_id (room_users updated_users) told
    else told

-- Its last step: the room is deleted if it was empty when the guard was dropped.
unfoldable pub leave_delete : String → List String → AppState → AppState
leave_delete room_id updated_users s =
    if leb (length updated_users) 0 then record s { rooms = remove room_id s.rooms } else s

unfoldable pub leave_room_internal : String → String → AppState → AppState
unfolding leave_remove leave_notify leave_delete
leave_room_internal peer_id room_id s = elim (leave_remove peer_id room_id s) [
  | none ↦ s
  | some (updated_users, t) ↦
      leave_delete room_id updated_users (leave_notify peer_id room_id updated_users t)
]

unfoldable pub handle_leave_room : String → AppState → AppState
unfolding session_room leave_room_internal set_session_room
handle_leave_room peer_id s = elim (session_room peer_id s.peers) [
  | none ↦ s
  | some room_id ↦ set_session_room peer_id none (leave_room_internal peer_id room_id s)
]

-- The rooms that are no older than the timeout stay. `duration_since` stops at zero.
unfoldable pub cleanup_old_rooms : ℕ → AppState → AppState
cleanup_old_rooms now s = record s {
  rooms = retain (λ _ room. not (ltb s.config.room.timeout_ms (now - room.created_at))) s.rooms;
}
