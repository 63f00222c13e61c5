-- ===== src/Signaling/Server/Orderly.antt =====
-- Clients that leave a room before they join another leave no trace behind.
use ponswarp_signaling_rs.Common.{
  ℕ, ◌<◌, String, ◌≡◌, refl, ap, sym, ◌∙◌, ◌⊎◌, true, false, Option, none, some, List, [], ◌∷◌,
  arith, inl, inr, Option-cases, string_eq, eq_iff,
}
use ponswarp_signaling_rs.Common.Map.{Distinct, lookup, lookup-insert}
use ponswarp_signaling_rs.Common.Text.{trim}
use ponswarp_signaling_rs.Protocol.{ClientMessage, join_room, leave_room}
use ponswarp_signaling_rs.Signaling.{AppState, Config, new_state}
use ponswarp_signaling_rs.Signaling.Members.{is_member, session_room, is_connected}
use ponswarp_signaling_rs.Signaling.Connection.{handle_connection, handle_disconnect}
use ponswarp_signaling_rs.Signaling.Rooms.{handle_join_room, handle_leave_room, cleanup_old_rooms}
use ponswarp_signaling_rs.Signaling.Rooms.Join.{join_lem, join_full}
use ponswarp_signaling_rs.Signaling.Rooms.Leave.{leave_lem, cleanup_lem}
use ponswarp_signaling_rs.Signaling.Server.{
  Env, Event, connects, sends, disconnects, polls, cleans, handle_client_message, step, run,
}
use ponswarp_signaling_rs.Signaling.Server.Invariant.{IsValid, step-IsValid, new_state-IsValid}
use ponswarp_signaling_rs.Signaling.Server.Presence.{HasNoGhosts, disconnect_lem, join_cases}
use ponswarp_signaling_rs.Signaling.Server.Quiet.{Unmoved, quiet-Unmoved, poll-Unmoved}

pub Unmoved-HasNoGhosts : {s t : AppState} → Unmoved s t → HasNoGhosts s → HasNoGhosts t
Unmoved-HasNoGhosts h v = rw (h.rooms, h.peers) v

-- A peer may join from no room, or again the room that it is in.
abbrev pub MayJoin : String → Option String → Type 0
MayJoin r none = Unit
MayJoin r (some current) = current ≡ r

-- What a client that changes rooms only by way of `LeaveRoom` does, and what the server's own
-- calls grant: a new connection has an identifier that no other has and that no room lists, and
-- only connected peers send.
abbrev pub IsOrderlyMessage : String → ClientMessage → AppState → Type 0
IsOrderlyMessage p (join_room raw) s =
    (is_connected p s.peers ≡ true) × MayJoin (trim raw) (session_room p s.peers)
IsOrderlyMessage p _ s = Unit

abbrev pub IsOrderly : Event → AppState → Type 0
IsOrderly (connects env p sender) s = is_connected p s.peers ≡ false
IsOrderly (sends env p sender message) s = IsOrderlyMessage p message s
IsOrderly _ s = Unit

connect-HasNoGhosts :
    (now : ℕ) (p : String) (sender : ℕ) (s : AppState)
    → is_connected p s.peers ≡ false
    → HasNoGhosts s
    → HasNoGhosts (handle_connection now p sender s)
unfolding handle_connection session_room is_connected
connect-HasNoGhosts now p sender s new v q t h = ground (
  arith,
  v q t h,
  lookup-insert p q (record { id = p; room_id = none; sender = sender; connected_at = now })
      s.peers,
  eq_iff p q,
)

may_join :
    (r : String) (current : Option String)
    → MayJoin r current
    → (current ≡ none) ⊎ (current ≡ some r)
may_join r none h = inl refl
may_join r (some c) h = inr (ap some h)

join-HasNoGhosts :
    (now : ℕ) (p raw : String) (s : AppState)
    → is_connected p s.peers ≡ true
    → MayJoin (trim raw) (session_room p s.peers)
    → HasNoGhosts s
    → HasNoGhosts (handle_join_room now p raw s)
join-HasNoGhosts now p raw s on may v q t h = elim (join_cases now p raw s) [
  | inl full ↦
      let (members, peers, _, _, _, _) = join_full now p raw s full in
      ap (session_room q) peers ∙ v q t (sym (members q t) ∙ h)
  | inr room ↦
      let (members, sessions) = join_lem now p raw s room in
      ground (
        arith,
        members q t,
        sessions q,
        v q t,
        eq_iff p q,
        eq_iff (trim raw) t,
        may_join (trim raw) (session_room p s.peers) may,
      )
]

leave-HasNoGhosts :
    (p : String) (s : AppState) → HasNoGhosts s → HasNoGhosts (handle_leave_room p s)
leave-HasNoGhosts p s v q t h = elim (Option-cases (session_room p s.peers)) [
  | inl e ↦
      (unfold handle_leave_room in
        rw (e, handle_leave_room) (v q t (rw (e, handle_leave_room) at h)))
  | inr (r, e) ↦
      let (members, sessions) = leave_lem p r s e in
      ground (arith, members q t, sessions q, v q t, eq_iff p q, eq_iff r t)
]

disconnect-HasNoGhosts :
    (p : String) (s : AppState) → HasNoGhosts s → HasNoGhosts (handle_disconnect p s)
disconnect-HasNoGhosts p s v q t h = elim (Option-cases (session_room p s.peers)) [
  | inl e ↦
      let (members, sessions, _) = disconnect_lem p s in
      ground (arith, members q t, sessions q, v q t, eq_iff p q)
  | inr (r, e) ↦
      let (members, sessions, _) = disconnect_lem p s in
      ground (arith, members q t, sessions q, v q t, eq_iff p q, eq_iff r t)
]

cleanup-HasNoGhosts :
    (now : ℕ) (s : AppState)
    → Distinct s.rooms
    → HasNoGhosts s
    → HasNoGhosts (cleanup_old_rooms now s)
cleanup-HasNoGhosts now s d v q t h =
    let (rooms, peers) = cleanup_lem now s t d in
    ap (session_room q) peers ∙ v q t (unfold is_member in ground (arith, rooms))

module _ (hmac : String → String → String) where
  message-HasNoGhosts :
      (env : Env) (p : String) (sender : ℕ) (message : ClientMessage) (s : AppState)
      → IsOrderlyMessage p message s
      → HasNoGhosts s
      → HasNoGhosts (handle_client_message hmac env p sender message s)
  message-HasNoGhosts env p sender (join_room raw) s (on, may) v =
      unfold handle_client_message in join-HasNoGhosts env.instant p raw s on may v
  message-HasNoGhosts env p sender leave_room s h v =
      unfold handle_client_message in leave-HasNoGhosts p s v
  message-HasNoGhosts env p sender message s h v =
      Unmoved-HasNoGhosts (quiet-Unmoved hmac env p sender message s refl) v

  step-HasNoGhosts :
      (event : Event) (s : AppState)
      → Distinct s.rooms
      → IsOrderly event s
      → HasNoGhosts s
      → HasNoGhosts (step hmac event s)
  unfolding step
  step-HasNoGhosts (connects env p sender) s d h v = connect-HasNoGhosts env.instant p sender s h v
  step-HasNoGhosts (sends env p sender message) s d h v =
      message-HasNoGhosts env p sender message s h v
  step-HasNoGhosts (disconnects p) s d h v = disconnect-HasNoGhosts p s v
  step-HasNoGhosts (polls n) s d h v = Unmoved-HasNoGhosts (poll-Unmoved n s) v
  step-HasNoGhosts (cleans env) s d h v = cleanup-HasNoGhosts env.instant s d v

  -- Every event of a run is orderly in the state that it meets.
  abbrev pub AreOrderly : List Event → AppState → Type 0
  AreOrderly [] s = Unit
  AreOrderly (event ∷ events) s = IsOrderly event s × AreOrderly events (step hmac event s)

  run_from-HasNoGhosts :
      (size : ℕ) (events : List Event) (s : AppState)
      → 0 < size
      → IsValid size s
      → AreOrderly events s
      → HasNoGhosts s
      → HasNoGhosts (run hmac events s)
  unfolding run
  run_from-HasNoGhosts size [] s pos w h v = v
  run_from-HasNoGhosts size (event ∷ events) s pos w (h, hs) v =
      run_from-HasNoGhosts size events (step hmac event s) pos
        (step-IsValid size pos hmac event s w) hs (step-HasNoGhosts event s w.rooms.keys h v)

  new_state-HasNoGhosts : (config : Config) → HasNoGhosts (new_state config)
  unfolding is_member lookup
  new_state-HasNoGhosts config p r h = cc

  -- If every event of a run from the start is orderly, the clean-ups of old rooms included, then
  -- every user that a room lists is connected, and its session names that room; so a user stands
  -- in one room at most.
  pub run-HasNoGhosts :
      (config : Config) (events : List Event)
      → 0 < config.room.max_size
      → AreOrderly events (new_state config)
      → HasNoGhosts (run hmac events (new_state config))
  run-HasNoGhosts config events pos h =
      run_from-HasNoGhosts config.room.max_size events (new_state config) pos
        (new_state-IsValid config) h (new_state-HasNoGhosts config)
