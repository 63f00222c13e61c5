-- ===== src/Signaling/Server/Invariant.antt =====
-- The rooms stay well formed over every run of the server.
use ponswarp_signaling_rs.Common.{
  ℕ, ◌<◌, String, ◌≡◌, refl, sym, subst, ◌∙◌, Option, none, List, [], ◌∷◌, arith, inl, inr,
  Option-cases, Bool-cases, string_eq,
}
use ponswarp_signaling_rs.Common.Map.{lookup, remove}
use ponswarp_signaling_rs.Common.NameSet
use ponswarp_signaling_rs.Common.Text.{trim}
use ponswarp_signaling_rs.Protocol.{ClientMessage, join_room, leave_room, room_full}
use ponswarp_signaling_rs.Signaling.{AppState, Config, new_state}
use ponswarp_signaling_rs.Signaling.Frame.{send_to_peer-SameState}
use ponswarp_signaling_rs.Signaling.Members.{session_room}
use ponswarp_signaling_rs.Signaling.Connection.{handle_connection, handle_disconnect}
use ponswarp_signaling_rs.Signaling.Rooms.{
  handle_join_room, handle_leave_room, leave_room_internal, set_session_room, enter, entry,
  open_room, is_rejected, cleanup_old_rooms,
}
use ponswarp_signaling_rs.Signaling.Rooms.Effect.{
  set_session_room-rooms, leave_room_internal-config, announce_join-SameState,
}
use ponswarp_signaling_rs.Signaling.Rooms.Join.{join_accepted, join_rejected}
use ponswarp_signaling_rs.Signaling.Rooms.Leave.{handle_leave_room-some}
use ponswarp_signaling_rs.Signaling.Rooms.Valid.{
  AreRooms, join-AreRooms, leave_room_internal-AreRooms, cleanup-AreRooms,
}
use ponswarp_signaling_rs.Signaling.Server.{
  Env, Event, connects, sends, disconnects, polls, cleans, handle_client_message, step, run,
}
use ponswarp_signaling_rs.Signaling.Server.Quiet.{Unmoved, quiet-Unmoved, poll-Unmoved}

-- The rooms are well formed for the size limit that the configuration gives.
pub record IsValid (size : ℕ) (s : AppState) : Type 0 where
  pub limit : s.config.room.max_size ≡ size
  pub rooms : AreRooms size s.rooms

module _ (size : ℕ) (pos : 0 < size) where
  Unmoved-IsValid : {s t : AppState} → Unmoved s t → IsValid size s → IsValid size t
  Unmoved-IsValid h v = record { limit = rw h.config v.limit; rooms = rw h.rooms v.rooms }

  join_config :
      (now : ℕ) (p raw : String) (s : AppState) → (handle_join_room now p raw s).config ≡ s.config
  join_config now p raw s =
      let r = trim raw in
      elim (Bool-cases (is_rejected s.config.room.max_size (entry now r s) p)) [
        | inl full ↦ rw (join_rejected now p raw s full) (
            (send_to_peer-SameState p (room_full r) (open_room now r s)).config
            ∙ (unfold open_room in refl))
        | inr room ↦ rw (join_accepted now p raw s room) (
            (announce_join-SameState p r (entry now r s).users
              (NameSet.insert p (entry now r s).users) (enter now p r s)).config
            ∙ (unfold enter set_session_room in ground arith))
      ]

  join-IsValid :
      (now : ℕ) (p raw : String) (s : AppState)
      → IsValid size s
      → IsValid size (handle_join_room now p raw s)
  join-IsValid now p raw s v = record {
    limit = rw (join_config now p raw s) v.limit;
    rooms =
        subst (λ n. AreRooms n (handle_join_room now p raw s).rooms) v.limit
          (join-AreRooms now p raw s (subst (λ n. 0 < n) (sym v.limit) pos)
            (subst (λ n. AreRooms n s.rooms) (sym v.limit) v.rooms));
  }

  leave_room_internal-IsValid :
      (p r : String) (s : AppState) → IsValid size s → IsValid size (leave_room_internal p r s)
  leave_room_internal-IsValid p r s v = record {
    limit = rw (leave_room_internal-config p r s) v.limit;
    rooms = leave_room_internal-AreRooms p r s size v.rooms;
  }

  set_session_room-IsValid :
      (p : String) (r : Option String) (s : AppState)
      → IsValid size s
      → IsValid size (set_session_room p r s)
  set_session_room-IsValid p r s v = record {
    limit = (unfold set_session_room in ground (arith, v.limit));
    rooms = rw (set_session_room-rooms p r s) v.rooms;
  }

  leave-IsValid :
      (p : String) (s : AppState) → IsValid size s → IsValid size (handle_leave_room p s)
  leave-IsValid p s v = elim (Option-cases (session_room p s.peers)) [
    | inl e ↦ (unfold handle_leave_room in rw (e, handle_leave_room) v)
    | inr (r, e) ↦ rw (handle_leave_room-some p r s e) (
        set_session_room-IsValid p none (leave_room_internal p r s)
          (leave_room_internal-IsValid p r s v))
  ]

  disconnect-IsValid :
      (p : String) (s : AppState) → IsValid size s → IsValid size (handle_disconnect p s)
  unfolding handle_disconnect
  disconnect-IsValid p s v = elim (Option-cases (lookup p s.peers)) [
    | inl e ↦ rw (e, handle_disconnect) v
    | inr (session, e) ↦
        let t = record s { peers = remove p s.peers } in
        let w : IsValid size t = record { limit = v.limit; rooms = v.rooms } in
        elim (Option-cases session.room_id) [
          | inl f ↦ rw (e, handle_disconnect, f) w
          | inr (r, f) ↦ rw (e, handle_disconnect, f) (leave_room_internal-IsValid p r t w)
        ]
  ]

  message-IsValid :
      (hmac : String → String → String) (env : Env) (p : String) (sender : ℕ)
      (message : ClientMessage) (s : AppState)
      → IsValid size s
      → IsValid size (handle_client_message hmac env p sender message s)
  message-IsValid hmac env p sender (join_room raw) s v =
      unfold handle_client_message in join-IsValid env.instant p raw s v
  message-IsValid hmac env p sender leave_room s v =
      unfold handle_client_message in leave-IsValid p s v
  message-IsValid hmac env p sender message s v =
      Unmoved-IsValid (quiet-Unmoved hmac env p sender message s refl) v

  -- Where rooms may hold at least one user, every event keeps the rooms well formed: each is filed
  -- under its own trimmed name, holds at least one user and at most `max_size`, and lists none
  -- twice.
  pub step-IsValid :
      (hmac : String → String → String) (event : Event) (s : AppState)
      → IsValid size s
      → IsValid size (step hmac event s)
  unfolding step handle_connection cleanup_old_rooms
  step-IsValid hmac (connects env p sender) s v = record { limit = v.limit; rooms = v.rooms }
  step-IsValid hmac (sends env p sender message) s v = message-IsValid hmac env p sender message s v
  step-IsValid hmac (disconnects p) s v = disconnect-IsValid p s v
  step-IsValid hmac (polls n) s v = Unmoved-IsValid (poll-Unmoved n s) v
  step-IsValid hmac (cleans env) s v = record {
    limit = v.limit;
    rooms = cleanup-AreRooms env.instant s size v.rooms;
  }

  run_from-IsValid :
      (hmac : String → String → String) (events : List Event) (s : AppState)
      → IsValid size s
      → IsValid size (run hmac events s)
  unfolding run
  run_from-IsValid hmac [] s v = v
  run_from-IsValid hmac (event ∷ events) s v =
      run_from-IsValid hmac events (step hmac event s) (step-IsValid hmac event s v)

pub new_state-IsValid : (config : Config) → IsValid config.room.max_size (new_state config)
unfolding lookup
new_state-IsValid config = record {
  limit = refl;
  rooms = record { keys = tt; each = λ r room found. cc };
}

-- So every room that exists after any run from the start, whatever the clients send and in
-- whatever order, is filed under its own trimmed name, holds at least one user and at most
-- `max_size`, which must not be 0, and lists none twice.
pub run-IsValid :
    (hmac : String → String → String) (config : Config) (events : List Event)
    → 0 < config.room.max_size
    → IsValid config.room.max_size (run hmac events (new_state config))
run-IsValid hmac config events pos =
    run_from-IsValid config.room.max_size pos hmac events (new_state config)
      (new_state-IsValid config)
