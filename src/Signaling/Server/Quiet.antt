-- ===== src/Signaling/Server/Quiet.antt =====
-- The messages that move nobody: all but the requests to join and to leave.
use ponswarp_signaling_rs.Common.{
  ℕ, String, ◌≡◌, refl, Bool, true, false, none, some, arith, inl, inr, Bool-cases, Option-cases,
}
use ponswarp_signaling_rs.Protocol.{
  ClientMessage, heartbeat, join_room, leave_room, request_turn_config, refresh_turn_credentials,
  check_turn_server_status,
}
use ponswarp_signaling_rs.Signaling.{AppState}
use ponswarp_signaling_rs.Signaling.Frame.{SameState, send_to_peer-SameState}
use ponswarp_signaling_rs.Signaling.Connection.{handle_heartbeat}
use ponswarp_signaling_rs.Signaling.Relay.{
  handle_offer, handle_answer, handle_ice_candidate, handle_manifest, handle_transfer_ready,
  handle_transfer_complete,
}
use ponswarp_signaling_rs.Signaling.Relay.Delivery.{relay-SameState, run_task-SameState}
use ponswarp_signaling_rs.Signaling.Turn.{handle_turn_config_request, validate_credentials}
use ponswarp_signaling_rs.Signaling.Server.{Env, handle_client_message, poll, take_task}

-- The rooms, the sessions and the configuration are those of `s`.
pub record Unmoved (s t : AppState) : Type 0 where
  pub rooms : t.rooms ≡ s.rooms
  pub peers : t.peers ≡ s.peers
  pub config : t.config ≡ s.config

unmoved : {s t : AppState} → SameState s t → Unmoved s t
unmoved h = record { rooms = h.rooms; peers = h.peers; config = h.config }

abbrev pub is_quiet : ClientMessage → Bool
is_quiet (join_room _) = false
is_quiet leave_room = false
is_quiet _ = true

turn_request-Unmoved :
    (hmac : String → String → String) (now later random sender : ℕ) (r : String) (s : AppState)
    → Unmoved s (handle_turn_config_request hmac now later random sender r s)
unfolding handle_turn_config_request
turn_request-Unmoved hmac now later random sender r s = ground arith

-- Every message but a request to join or to leave leaves the rooms, the sessions and the
-- configuration as they are.
pub quiet-Unmoved :
    (hmac : String → String → String) (env : Env) (p : String) (sender : ℕ)
    (message : ClientMessage) (s : AppState)
    → is_quiet message ≡ true
    → Unmoved s (handle_client_message hmac env p sender message s)
unfolding handle_client_message handle_heartbeat handle_offer handle_answer handle_ice_candidate
    handle_manifest handle_transfer_ready handle_transfer_complete
quiet-Unmoved hmac env p sender heartbeat s h = record { rooms = refl; peers = refl; config = refl }
quiet-Unmoved hmac env p sender (join_room r) s h = cc
quiet-Unmoved hmac env p sender leave_room s h = cc
quiet-Unmoved hmac env p sender (ClientMessage.offer r x target) s h =
    unmoved (relay-SameState p r _ target s)
quiet-Unmoved hmac env p sender (ClientMessage.answer r x target) s h =
    unmoved (relay-SameState p r _ target s)
quiet-Unmoved hmac env p sender (ClientMessage.ice_candidate r x target) s h =
    unmoved (relay-SameState p r _ target s)
quiet-Unmoved hmac env p sender (ClientMessage.manifest r x target) s h =
    unmoved (relay-SameState p r _ target s)
quiet-Unmoved hmac env p sender (ClientMessage.transfer_ready r target) s h =
    unmoved (relay-SameState p r _ target s)
quiet-Unmoved hmac env p sender (ClientMessage.transfer_complete r none) s h = record {
  rooms = refl;
  peers = refl;
  config = refl;
}
quiet-Unmoved hmac env p sender (ClientMessage.transfer_complete r (some target)) s h =
    unmoved (send_to_peer-SameState target _ s)
quiet-Unmoved hmac env p sender (request_turn_config r force) s h =
    turn_request-Unmoved hmac env.unix_time env.unix_later env.random sender r s
quiet-Unmoved hmac env p sender (refresh_turn_credentials r username) s h =
    elim (Bool-cases (validate_credentials env.unix_time username)) [
      | inl e ↦ rw e (record { rooms = refl; peers = refl; config = refl })
      | inr e ↦ rw e (turn_request-Unmoved hmac env.unix_time env.unix_later env.random sender r s)
    ]
quiet-Unmoved hmac env p sender check_turn_server_status s h = record {
  rooms = refl;
  peers = refl;
  config = refl;
}

pub poll-Unmoved : (n : ℕ) (s : AppState) → Unmoved s (poll n s)
unfolding poll
poll-Unmoved n s = elim (Option-cases (take_task n s.tasks)) [
  | inl e ↦ rw (e, poll) (record { rooms = refl; peers = refl; config = refl })
  | inr ((task, rest), e) ↦
      let same = run_task-SameState task (record s { tasks = rest }) in
      rw (e, poll) (record { rooms = same.rooms; peers = same.peers; config = same.config })
]
