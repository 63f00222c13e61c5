-- ===== src/Signaling/Server.antt =====
-- The dispatch of src/main.rs: what the server does with a socket's events, and a run of it.
--
-- The serving loop of each socket hands its messages over one at a time. An event here is one
-- such handler, run to its end, a spawned broadcast, or the periodic clean-up; the order of the
-- events of a run is the schedule. The program's runtime may also switch between handlers inside
-- one, which no run of these events shows. Where that matters most, between the two halves of
-- `leave_room_internal`, Interleaved has runs that do switch, and Races what then goes wrong.
pub mod Quiet
pub mod Invariant
pub mod Presence
pub mod Orderly
pub mod Interleaved
pub mod Races
use ponswarp_signaling_rs.Common.{
  ℕ, zero, suc, String, Bool, true, false, List, [], ◌∷◌, Option, none, some, if◌then◌else◌,
}
use ponswarp_signaling_rs.Protocol.{
  ClientMessage, heartbeat, join_room, leave_room, request_turn_config, refresh_turn_credentials,
  check_turn_server_status, turn_config, turn_server_status_update,
}
use ponswarp_signaling_rs.Signaling.{AppState, Config, Task, new_state, send}
use ponswarp_signaling_rs.Signaling.Rooms.{handle_join_room, handle_leave_room, cleanup_old_rooms}
use ponswarp_signaling_rs.Signaling.Connection.{
  handle_connection, handle_disconnect, handle_heartbeat,
}
use ponswarp_signaling_rs.Signaling.Relay.{
  handle_offer, handle_answer, handle_ice_candidate, handle_manifest, handle_transfer_ready,
  handle_transfer_complete, run_task,
}
use ponswarp_signaling_rs.Signaling.Turn.{handle_turn_config_request, validate_credentials}

-- What a handler reads from outside: the monotonic clock in milliseconds, the Unix time in
-- seconds when it starts and when it answers, and the generator of random numbers.
pub record Env : Type 0 where
  pub instant : ℕ
  pub unix_time : ℕ
  pub unix_later : ℕ
  pub random : ℕ

-- The task at an index, and those that are left.
pub take_task : ℕ → List Task → Option (Task × List Task)
take_task n [] = none
take_task zero (task ∷ tasks) = some (task, tasks)
take_task (suc n) (task ∷ tasks) = elim (take_task n tasks) [
  | none ↦ none
  | some (found, rest) ↦ some (found, task ∷ rest)
]

-- Some task that was spawned runs; the runtime chooses which.
unfoldable pub poll : ℕ → AppState → AppState
unfolding take_task run_task
poll n s = elim (take_task n s.tasks) [
  | none ↦ s
  | some (task, rest) ↦ run_task task (record s { tasks = rest })
]

pub data Event : Type 0 where
  connects : Env → (peer_id : String) → (sender : ℕ) → Event
  sends : Env → (peer_id : String) → (sender : ℕ) → ClientMessage → Event
  disconnects : (peer_id : String) → Event
  polls : ℕ → Event
  cleans : Env → Event

module _ (hmac : String → String → String) where
  unfoldable pub handle_client_message : Env → String → ℕ → ClientMessage → AppState → AppState
  handle_client_message env peer_id sender heartbeat s = handle_heartbeat sender s
  handle_client_message env peer_id sender (join_room room_id) s =
      handle_join_room env.instant peer_id room_id s
  handle_client_message env peer_id sender leave_room s = handle_leave_room peer_id s
  handle_client_message env peer_id sender (ClientMessage.offer room_id sdp target) s =
      handle_offer peer_id room_id sdp target s
  handle_client_message env peer_id sender (ClientMessage.answer room_id sdp target) s =
      handle_answer peer_id room_id sdp target s
  handle_client_message env peer_id sender (ClientMessage.ice_candidate room_id candidate target)
        s =
      handle_ice_candidate peer_id room_id candidate target s
  handle_client_message env peer_id sender (ClientMessage.manifest room_id manifest target) s =
      handle_manifest peer_id room_id manifest target s
  handle_client_message env peer_id sender (ClientMessage.transfer_ready room_id target) s =
      handle_transfer_ready peer_id room_id target s
  handle_client_message env peer_id sender (ClientMessage.transfer_complete room_id target) s =
      handle_transfer_complete peer_id room_id target s
  handle_client_message env peer_id sender (request_turn_config room_id force_refresh) s =
      handle_turn_config_request hmac env.unix_time env.unix_later env.random sender room_id s
  handle_client_message env peer_id sender (refresh_turn_credentials room_id current_username) s =
      if validate_credentials env.unix_time current_username
      then send sender (turn_config true none (some "Credentials still valid")) s
      else handle_turn_config_request hmac env.unix_time env.unix_later env.random sender room_id s
  handle_client_message env peer_id sender check_turn_server_status s =
      send sender (turn_server_status_update "" env.unix_time) s

  unfoldable pub step : Event → AppState → AppState
  unfolding handle_client_message
  step (connects env peer_id sender) s = handle_connection env.instant peer_id sender s
  step (sends env peer_id sender message) s = handle_client_message env peer_id sender message s
  step (disconnects peer_id) s = handle_disconnect peer_id s
  step (polls n) s = poll n s
  step (cleans env) s = cleanup_old_rooms env.instant s

  unfoldable pub run : List Event → AppState → AppState
  run [] s = s
  run (event ∷ events) s = run events (step event s)
