-- ===== src/Signaling/Examples.antt =====
-- The theorems on rooms, relays and runs at concrete states, and tests.
use ponswarp_signaling_rs.Common.{
  ℕ, String, ◌≡◌, refl, true, false, Option, none, some, List, [], ◌∷◌, ◌++◌, arith, string_eq,
  eq_iff, if◌then◌else◌, ◌==◌, unwrap_or,
}
use ponswarp_signaling_rs.Common.Map.{lookup, insert}
use ponswarp_signaling_rs.Common.NameSet
use ponswarp_signaling_rs.Common.Text.{trim}
use ponswarp_signaling_rs.Protocol.{ServerMessage, join_room, room_full, room_users, user_left}
use ponswarp_signaling_rs.Signaling.{
  AppState, Config, TurnConfig, PeerSession, Room, new_room, new_state, send_to_all, send_to_peer,
}
use ponswarp_signaling_rs.Signaling.Frame.{deliveries}
use ponswarp_signaling_rs.Signaling.Members.{is_member, session_room, is_connected}
use ponswarp_signaling_rs.Signaling.Connection.{handle_connection, handle_disconnect}
use ponswarp_signaling_rs.Signaling.Relay.{handle_offer, run_task, completion}
use ponswarp_signaling_rs.Signaling.Relay.Delivery.{handlers_sent, transfer_complete_sent}
use ponswarp_signaling_rs.Signaling.Rooms.{
  handle_join_room, handle_leave_room, leave_room_internal, set_session_room, entry, is_rejected,
}
use ponswarp_signaling_rs.Signaling.Rooms.Join.{join_lem, join_full, join_sent, join_messages}
use ponswarp_signaling_rs.Signaling.Rooms.Leave.{leave_lem, leave_sent}
use ponswarp_signaling_rs.Signaling.Server.{Env, Event, connects, sends, disconnects, run, step}
use ponswarp_signaling_rs.Signaling.Server.Invariant.{IsValid, run-IsValid}
use ponswarp_signaling_rs.Signaling.Server.Presence.{HasNoGhosts}
use ponswarp_signaling_rs.Signaling.Server.Interleaved.{
  Interleaving, Moment, handles, leave_begins, leave_ends, advance, run_moments, AreUndisturbed,
  AllTracked,
}
use ponswarp_signaling_rs.Signaling.Server.Interleaved.Tracked.{run_moments-AllTracked}
use ponswarp_signaling_rs.Signaling.Server.Orderly.{run-HasNoGhosts}
use ponswarp_signaling_rs.Signaling.Server.Races.{
  join_then_disconnect, leave_around_join, leave_around_join_lem,
}

state_tests : Unit {0}
unfolding trim lookup NameSet.contains NameSet.insert NameSet.remove is_rejected entry is_member
    session_room is_connected
state_tests = tt

abbrev turn : TurnConfig
turn = record {
  url = "turn.example.com";
  secret = "key";
  realm = "";
  enable_tls = false;
  enable_udp = true;
  enable_tcp = true;
  ports = record { udp = 3478; tcp = 3478; tls = 5349 };
  credential_ttl = 600;
  fallback_servers = [];
}

abbrev config : Config
config = record { room = record { max_size = 2; timeout_ms = 1000 }; turn = turn }

abbrev session : String → Option String → ℕ → PeerSession
session id room sender = record { id = id; room_id = room; sender = sender; connected_at = 0 }

-- Ann alone in room "a", Bob in no room.
abbrev calm : AppState
calm = record {
  rooms = ("a", record { id = "a"; users = "ann" ∷ []; created_at = 5 }) ∷ [];
  peers = ("ann", session "ann" (some "a") 1) ∷ ("bob", session "bob" none 2) ∷ [];
  config = config;
  sent = [];
  tasks = [];
}

-- The room "a" is full, and Cid is in no room.
abbrev full : AppState
full = record {
  rooms = ("a", record { id = "a"; users = "ann" ∷ "bob" ∷ []; created_at = 5 }) ∷ [];
  peers =
      ("ann", session "ann" (some "a") 1)
      ∷ ("bob", session "bob" (some "a") 2)
      ∷ ("cid", session "cid" none 3)
      ∷ [];
  config = config;
  sent = [];
  tasks = [];
}

abbrev room_a : Room
room_a = record { id = "a"; users = "ann" ∷ "bob" ∷ []; created_at = 5 }

join_lem_example : is_member "bob" "a" (handle_join_room 9 "bob" " a " calm).rooms ≡ true
unfolding state_tests
join_lem_example = (join_lem 9 "bob" " a " calm refl).0 "bob" "a"

join_full_example :
    let s = handle_join_room 9 "cid" "a" full in
    ((q t : String) → is_member q t s.rooms ≡ is_member q t full.rooms)
    × (s.peers ≡ full.peers)
    × (s.sent ≡ [] ++ deliveries full.peers ("cid" ∷ []) (room_full "a"))
    × ((t : String)
        → lookup t s.rooms ≡ (
            if "a" == t
            then some (unwrap_or (lookup t full.rooms) (new_room t 9))
            else lookup t full.rooms))
    × (s.tasks ≡ full.tasks)
    × (s.config ≡ full.config)
unfolding state_tests
join_full_example = join_full 9 "cid" "a" full refl

join_sent_example :
    (handle_join_room 9 "bob" "a" calm).sent
    ≡ join_messages calm.peers "bob" "a" ("ann" ∷ []) ("bob" ∷ "ann" ∷ [])
unfolding state_tests
join_sent_example = join_sent 9 "bob" "a" calm refl

leave_lem_example : is_member "ann" "a" (handle_leave_room "ann" full).rooms ≡ false
unfolding state_tests
leave_lem_example = (leave_lem "ann" "a" full refl).0 "ann" "a"

leave_sent_example :
    (leave_room_internal "ann" "a" full).sent
    ≡ deliveries full.peers ("bob" ∷ []) (user_left "ann")
      ++ deliveries full.peers ("bob" ∷ []) (room_users ("bob" ∷ []))
unfolding lookup NameSet.remove
leave_sent_example = leave_sent "ann" "a" full room_a refl

handlers_sent_example :
    (handle_offer "ann" "a" "sdp" none full).sent
    ≡ deliveries full.peers ("bob" ∷ []) (ServerMessage.offer "ann" "sdp")
unfolding lookup NameSet.remove
handlers_sent_example = (handlers_sent "ann" "a" "sdp" none full).0

transfer_complete_sent_example :
    (run_task (completion "ann" "a") full).sent
    ≡ deliveries full.peers ("bob" ∷ []) (ServerMessage.transfer_complete "ann")
unfolding lookup NameSet.remove
transfer_complete_sent_example = (transfer_complete_sent "ann" "a" "bob" full full).3

abbrev env : Env
env = record { instant = 7; unix_time = 100; unix_later = 100; random = 255 }

abbrev no_hmac : String → String → String
no_hmac username secret = secret

-- Ann connects, joins, and disconnects.
abbrev visit : List Event
visit = connects env "ann" 1 ∷ sends env "ann" 1 (join_room "a") ∷ disconnects "ann" ∷ []

run-IsValid_example : IsValid 2 (run no_hmac visit (new_state config))
run-IsValid_example = run-IsValid no_hmac config visit (omega arith)

-- Ann leaves, and Bob joins before the guard of the room is taken again: Cid is in the room all
-- the while, so that it is not deleted.
abbrev crowd : AppState
crowd = record {
  rooms = ("a", record { id = "a"; users = "ann" ∷ "cid" ∷ []; created_at = 5 }) ∷ [];
  peers =
      ("ann", session "ann" (some "a") 1)
      ∷ ("bob", session "bob" none 2)
      ∷ ("cid", session "cid" (some "a") 3)
      ∷ [];
  config = config;
  sent = [];
  tasks = [];
}

abbrev crowded : Interleaving
crowded = record { state = crowd; leaving = [] }

abbrev meeting : List Moment
meeting = leave_begins "ann" ∷ handles (sends env "bob" 2 (join_room "a")) ∷ leave_ends 0 ∷ []

meeting-AreUndisturbed : AreUndisturbed no_hmac meeting crowded
unfolding state_tests advance
meeting-AreUndisturbed = (refl, (refl, (refl, tt)))

crowd-AllTracked : AllTracked crowded
unfolding session_room lookup is_member NameSet.contains
crowd-AllTracked q t apart named =
    ground (arith, named, eq_iff "ann" q, eq_iff "bob" q, eq_iff "cid" q, eq_iff "a" t)

meeting_tests :
    (is_member "bob" "a" (run_moments no_hmac meeting crowded).state.rooms ≡ true)
    × (is_member "ann" "a" (run_moments no_hmac meeting crowded).state.rooms ≡ false)
unfolding state_tests run_moments advance set_session_room step handle_join_room insert send_to_all
    send_to_peer
meeting_tests = (refl, refl)

run_moments-AllTracked_example : AllTracked (run_moments no_hmac meeting crowded)
run_moments-AllTracked_example =
    run_moments-AllTracked no_hmac meeting crowded meeting-AreUndisturbed crowd-AllTracked

join_then_disconnect_example :
    (is_member "ann" "a" (handle_disconnect "ann" (handle_join_room 9 "ann" "b" calm)).rooms ≡ true)
    × (is_connected "ann" (handle_disconnect "ann" (handle_join_room 9 "ann" "b" calm)).peers
        ≡ false)
unfolding state_tests
join_then_disconnect_example = join_then_disconnect 9 "ann" "b" "a" calm refl refl refl refl

leave_around_join_lem_example :
    (lookup "a" (leave_around_join 9 "ann" "bob" "a" calm).rooms ≡ none)
    × (session_room "bob" (leave_around_join 9 "ann" "bob" "a" calm).peers ≡ some "a")
unfolding lookup is_connected NameSet.remove trim
leave_around_join_lem_example =
    leave_around_join_lem 9 "ann" "bob" "a" calm
      (record { id = "a"; users = "ann" ∷ []; created_at = 5 }) refl refl refl refl (omega arith)

run-HasNoGhosts_example : HasNoGhosts (run no_hmac visit (new_state config))
unfolding step handle_connection is_connected session_room lookup insert trim
run-HasNoGhosts_example =
    run-HasNoGhosts no_hmac config visit (omega arith) (refl, ((refl, tt), (tt, tt)))
