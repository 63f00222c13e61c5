-- ===== src/Signaling/Server/Presence.antt =====
-- How the user lists of the rooms and the rooms that the sessions name agree after each handler.
use ponswarp_signaling_rs.Common.{
  ℕ, String, ◌≡◌, refl, ap, sym, ◌∙◌, ◌⊎◌, Bool, true, false, ◌&&◌, not, Option, none, some, arith,
  if◌then◌else◌, ◌==◌, inl, inr, Option-cases, Bool-cases, string_eq, eq_iff,
}
use ponswarp_signaling_rs.Common.Map.{lookup, remove, lookup-remove}
use ponswarp_signaling_rs.Common.Text.{trim}
use ponswarp_signaling_rs.Protocol.{ClientMessage, join_room, leave_room}
use ponswarp_signaling_rs.Signaling.{AppState}
use ponswarp_signaling_rs.Signaling.Members.{
  is_member, session_room, is_connected, session_room-insert,
}
use ponswarp_signaling_rs.Signaling.Connection.{handle_connection, handle_disconnect}
use ponswarp_signaling_rs.Signaling.Rooms.{handle_join_room, handle_leave_room, entry, is_rejected}
use ponswarp_signaling_rs.Signaling.Rooms.Effect.{
  is_member-leave_room_internal, leave_room_internal-peers,
}
use ponswarp_signaling_rs.Signaling.Rooms.Join.{join_lem, join_full}
use ponswarp_signaling_rs.Signaling.Rooms.Leave.{leave_lem}
use ponswarp_signaling_rs.Signaling.Server.{
  Env, Event, connects, sends, disconnects, polls, cleans, handle_client_message, step,
}
use ponswarp_signaling_rs.Signaling.Server.Quiet.{Unmoved, quiet-Unmoved, poll-Unmoved}

-- The membership that is left when a peer that was in a room, or in none, has gone.
abbrev pub left : String → Option String → String → String → Bool → Bool
left p none q t was = was
left p (some r) q t was = not (p == q && r == t) && was

module _ (p : String) (s : AppState) where
  gone : AppState
  gone = record s { peers = remove p s.peers }

  disconnect_members :
      (q t : String)
      → is_member q t (handle_disconnect p s).rooms
        ≡ left p (session_room p s.peers) q t (is_member q t s.rooms)
  unfolding handle_disconnect session_room gone
  disconnect_members q t = elim (Option-cases (lookup p s.peers)) [
    | inl e ↦ rw (e, handle_disconnect, session_room)
    | inr (session, e) ↦ elim (Option-cases session.room_id) [
      | inl f ↦ rw (e, handle_disconnect, session_room, f)
      | inr (r, f) ↦
          rw (e, handle_disconnect, session_room, f) (is_member-leave_room_internal p r gone q t)
    ]
  ]

  -- The sessions afterwards, at any peer.
  disconnect_sessions :
      (q : String)
      → lookup q (handle_disconnect p s).peers ≡ (if p == q then none else lookup q s.peers)
  unfolding handle_disconnect gone
  disconnect_sessions q = elim (Option-cases (lookup p s.peers)) [
    | inl e ↦ rw (e, handle_disconnect) (ground (arith, eq_iff p q))
    | inr (session, e) ↦ elim (Option-cases session.room_id) [
      | inl f ↦ rw (e, handle_disconnect, f) (lookup-remove p q s.peers)
      | inr (r, f) ↦
          rw (e, handle_disconnect, f, leave_room_internal-peers p r gone)
            (lookup-remove p q s.peers)
    ]
  ]

-- A peer that disconnects leaves the room that its session names, if it names one, and stays in
-- every other that lists it; it has no session afterwards; no other peer moves.
pub disconnect_lem :
    (p : String) (s : AppState)
    → ((q t : String)
        → is_member q t (handle_disconnect p s).rooms
          ≡ left p (session_room p s.peers) q t (is_member q t s.rooms))
      × ((q : String)
          → session_room q (handle_disconnect p s).peers
            ≡ (if p == q then none else session_room q s.peers))
      × (is_connected p (handle_disconnect p s).peers ≡ false)
disconnect_lem p s = (
  disconnect_members p s,
  λ q. (unfold session_room in ground (arith, disconnect_sessions p s q)),
  (unfold is_connected in ground (arith, disconnect_sessions p s p, eq_iff p p)),
)

-- If the session of a peer names a room, the room exists and lists the peer.
abbrev pub IsTracked : (peer_id room_id : String) → AppState → Type 0
IsTracked p r s = session_room p s.peers ≡ some r → is_member p r s.rooms ≡ true

-- Every user of a room is connected, and its session names that room.
abbrev pub HasNoGhosts : AppState → Type 0
HasNoGhosts s = (p r : String) → is_member p r s.rooms ≡ true → session_room p s.peers ≡ some r

pub join_cases :
    (now : ℕ) (p raw : String) (s : AppState)
    → (is_rejected s.config.room.max_size (entry now (trim raw) s) p ≡ true)
      ⊎ (is_rejected s.config.room.max_size (entry now (trim raw) s) p ≡ false)
join_cases now p raw s = Bool-cases (is_rejected s.config.room.max_size (entry now (trim raw) s) p)

join-IsTracked :
    (now : ℕ) (p raw : String) (s : AppState) (q t : String)
    → IsTracked q t s
    → IsTracked q t (handle_join_room now p raw s)
join-IsTracked now p raw s q t v h = elim (join_cases now p raw s) [
  | inl full ↦
      let (members, peers, _, _, _, _) = join_full now p raw s full in
      members q t ∙ v (ap (session_room q) (sym peers) ∙ h)
  | inr room ↦
      let (members, sessions) = join_lem now p raw s room in
      ground (arith, members q t, sessions q, v, eq_iff p q, eq_iff (trim raw) t)
]

leave-IsTracked :
    (p : String) (s : AppState) (q t : String)
    → IsTracked q t s
    → IsTracked q t (handle_leave_room p s)
leave-IsTracked p s q t v h = elim (Option-cases (session_room p s.peers)) [
  | inl e ↦
      (unfold handle_leave_room in rw (e, handle_leave_room) (v (rw (e, handle_leave_room) at h)))
  | inr (r, e) ↦
      let (members, sessions) = leave_lem p r s e in
      ground (arith, members q t, sessions q, v, eq_iff p q)
]

disconnect-IsTracked :
    (p : String) (s : AppState) (q t : String)
    → IsTracked q t s
    → IsTracked q t (handle_disconnect p s)
disconnect-IsTracked p s q t v h =
    let (members, sessions, _) = disconnect_lem p s in
    ground (arith, members q t, sessions q, v, eq_iff p q, Option-cases (session_room p s.peers))

connect-IsTracked :
    (now : ℕ) (p : String) (sender : ℕ) (s : AppState) (q t : String)
    → IsTracked q t s
    → IsTracked q t (handle_connection now p sender s)
unfolding handle_connection
connect-IsTracked now p sender s q t v h = v (
    ground (
      arith,
      session_room-insert q p
          (record { id = p; room_id = none; sender = sender; connected_at = now }) s.peers,
    ))

Unmoved-IsTracked :
    {s u : AppState} (q t : String) → Unmoved s u → IsTracked q t s → IsTracked q t u
Unmoved-IsTracked q t h v = rw (h.rooms, h.peers) v

abbrev pub is_clean : Event → Bool
is_clean (cleans _) = true
is_clean _ = false

module _ (hmac : String → String → String) where
  message-IsTracked :
      (env : Env) (p : String) (sender : ℕ) (message : ClientMessage) (s : AppState) (q t : String)
      → IsTracked q t s
      → IsTracked q t (handle_client_message hmac env p sender message s)
  message-IsTracked env p sender (join_room raw) s q t v =
      unfold handle_client_message in join-IsTracked env.instant p raw s q t v
  message-IsTracked env p sender leave_room s q t v =
      unfold handle_client_message in leave-IsTracked p s q t v
  message-IsTracked env p sender message s q t v =
      Unmoved-IsTracked q t (quiet-Unmoved hmac env p sender message s refl) v

  pub step-IsTracked :
      (event : Event) (s : AppState) (q t : String)
      → is_clean event ≡ false
      → IsTracked q t s
      → IsTracked q t (step hmac event s)
  unfolding step
  step-IsTracked (connects env p sender) s q t h v = connect-IsTracked env.instant p sender s q t v
  step-IsTracked (sends env p sender message) s q t h v =
      message-IsTracked env p sender message s q t v
  step-IsTracked (disconnects p) s q t h v = disconnect-IsTracked p s q t v
  step-IsTracked (polls n) s q t h v = Unmoved-IsTracked q t (poll-Unmoved n s) v
  step-IsTracked (cleans env) s q t h v = cc
