-- ===== src/Signaling/Server/Interleaved.antt =====
-- Runs in which leaves and disconnects are cut where `leave_room_internal` drops the guard of the
-- room: other handlers, and other leaves, run between its two halves (src/handlers/room.rs).
pub mod Tracked
use ponswarp_signaling_rs.Common.{
  ℕ, zero, suc, String, ◌≡◌, refl, sym, Bool, true, false, ◌&&◌, ◌||◌, not, Option, none, some,
  List, [], ◌∷◌, leb, length, arith, if◌then◌else◌, ◌==◌, inl, inr, Option-cases, Bool-cases,
  string_eq, eq_iff,
}
use ponswarp_signaling_rs.Common.Map.{lookup, insert, remove}
use ponswarp_signaling_rs.Common.NameSet
use ponswarp_signaling_rs.Signaling.{AppState, Room}
use ponswarp_signaling_rs.Signaling.Members.{
  is_member, session_room, is_connected, is_member-insert, is_member-remove, session_room-remove,
}
use ponswarp_signaling_rs.Signaling.Rooms.{
  set_session_room, leave_remove, leave_notify, leave_delete,
}
use ponswarp_signaling_rs.Signaling.Rooms.Effect.{
  leave_notify-SameState, leave_delete-rooms, leave_delete-peers, set_session_room-rooms,
  session_room-set_session_room,
}
use ponswarp_signaling_rs.Signaling.Server.{Event, step}
use ponswarp_signaling_rs.Signaling.Server.Presence.{IsTracked, is_clean, step-IsTracked}

-- A leave whose first half is done: who left which room, the users that were left, and whether
-- the session is to be cleared, as by `handle_leave_room`, or is gone, as by `handle_disconnect`.
pub record Leaving : Type 0 where
  pub peer_id : String
  pub room_id : String
  pub updated_users : List String
  pub has_session : Bool

pub record Interleaving : Type 0 where
  pub state : AppState
  pub leaving : List Leaving

pub data Moment : Type 0 where
  handles : Event → Moment
  leave_begins : (peer_id : String) → Moment
  disconnect_begins : (peer_id : String) → Moment
  leave_ends : ℕ → Moment

abbrev pub clear_session : (has_session : Bool) → String → AppState → AppState
clear_session has_session peer_id s = if has_session then set_session_room peer_id none s else s

unfoldable pub begin_leave : Bool → String → String → AppState → List Leaving → Interleaving
unfolding leave_remove
begin_leave has_session peer_id room_id s leaving = elim (leave_remove peer_id room_id s) [
  | none ↦ record { state = clear_session has_session peer_id s; leaving = leaving }
  | some (updated_users, t) ↦ record {
    state = t;
    leaving =
        record {
          peer_id = peer_id;
          room_id = room_id;
          updated_users = updated_users;
          has_session = has_session;
        }
        ∷ leaving;
  }
]

unfoldable pub end_leave : Leaving → AppState → AppState
unfolding leave_notify leave_delete
end_leave l s =
    clear_session l.has_session l.peer_id
      (leave_delete l.room_id l.updated_users (leave_notify l.peer_id l.room_id l.updated_users s))

unfoldable pub take_leaving : ℕ → List Leaving → Option (Leaving × List Leaving)
take_leaving n [] = none
take_leaving zero (l ∷ leaving) = some (l, leaving)
take_leaving (suc n) (l ∷ leaving) = elim (take_leaving n leaving) [
  | none ↦ none
  | some (found, rest) ↦ some (found, l ∷ rest)
]

-- Whether the peer is in the midst of a leave that will clear its session.
abbrev pub is_leaving : String → List Leaving → Bool
is_leaving q [] = false
is_leaving q (l ∷ leaving) = (l.has_session && l.peer_id == q) || is_leaving q leaving

-- Whether nobody is in the room, or there is no such room.
abbrev pub is_deserted : String → AppState → Bool
is_deserted room_id s = elim (lookup room_id s.rooms) [
  | none ↦ true
  | some room ↦ leb (length room.users) 0
]

abbrev pub is_still_empty : Option (Leaving × List Leaving) → AppState → Bool
is_still_empty none s = true
is_still_empty (some (l, rest)) s = not (leb (length l.updated_users) 0) || is_deserted l.room_id s

module _ (hmac : String → String → String) where
  unfoldable pub advance : Moment → Interleaving → Interleaving
  unfolding begin_leave end_leave take_leaving session_room
  advance (handles event) i = record i { state = step hmac event i.state }
  advance (leave_begins peer_id) i = elim (session_room peer_id i.state.peers) [
    | none ↦ i
    | some room_id ↦ begin_leave true peer_id room_id i.state i.leaving
  ]
  advance (disconnect_begins peer_id) i = elim (lookup peer_id i.state.peers) [
    | none ↦ i
    | some session ↦
        let t = record i.state { peers = remove peer_id i.state.peers } in
        elim session.room_id [
          | none ↦ record i { state = t }
          | some room_id ↦ begin_leave false peer_id room_id t i.leaving
        ]
  ]
  advance (leave_ends n) i = elim (take_leaving n i.leaving) [
    | none ↦ i
    | some (l, rest) ↦ record { state = end_leave l i.state; leaving = rest }
  ]

  unfoldable pub run_moments : List Moment → Interleaving → Interleaving
  run_moments [] i = i
  run_moments (moment ∷ moments) i = run_moments moments (advance moment i)

  -- No clean-up runs, and nobody has joined a room in between when a leave deletes it.
  abbrev pub is_undisturbed : Moment → Interleaving → Bool
  is_undisturbed (handles event) i = not (is_clean event)
  is_undisturbed (leave_ends n) i = is_still_empty (take_leaving n i.leaving) i.state
  is_undisturbed _ i = true

  abbrev pub AreUndisturbed : List Moment → Interleaving → Type 0
  AreUndisturbed [] i = Unit
  AreUndisturbed (moment ∷ moments) i =
      (is_undisturbed moment i ≡ true) × AreUndisturbed moments (advance moment i)

-- The room that a session names exists and lists the peer, unless the peer is leaving.
abbrev pub IsTrackedApart : (peer_id room_id : String) → Interleaving → Type 0
IsTrackedApart q t i = is_leaving q i.leaving ≡ false → IsTracked q t i.state

abbrev pub AllTracked : Interleaving → Type 0
AllTracked i = (peer_id room_id : String) → IsTrackedApart peer_id room_id i
