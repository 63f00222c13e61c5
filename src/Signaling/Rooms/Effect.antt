-- ===== src/Signaling/Rooms/Effect.antt =====
-- What each operation on rooms does to the members and the sessions; sending changes neither.
use ponswarp_signaling_rs.Common.{
  ℕ, String, ◌≡◌, refl, ◌∙◌, false, ◌&&◌, ◌||◌, not, Option, none, some, arith, ltb, leb,
  if◌then◌else◌, ◌==◌, string_eq, eq_iff, inl, inr, Option-cases, Bool-cases, length, List, [], ◌∷◌,
  ◌++◌, ◌≤◌,
}
use ponswarp_signaling_rs.Common.Map.{Map, lookup, insert, remove, lookup-insert, lookup-remove}
use ponswarp_signaling_rs.Common.NameSet
use ponswarp_signaling_rs.Protocol.{ServerMessage, room_users, joined_room, peer_joined, user_left}
use ponswarp_signaling_rs.Signaling.{AppState, Room}
use ponswarp_signaling_rs.Signaling.Frame.{
  SameState, SameState-refl, SameState-trans, send_to_peer-SameState, send_to_all-SameState,
  deliveries, send_to_all-sent,
}
use ponswarp_signaling_rs.Signaling.Members.{
  is_member, session_room, is_connected, is_member-insert, session_room-insert,
}
use ponswarp_signaling_rs.Signaling.Rooms.{
  set_session_room, broadcast_to_room, entry, enter, announce_join, leave_remove, leave_notify,
  leave_delete, leave_room_internal,
}

pub broadcast_to_room-SameState :
    (r : String) (message : ServerMessage) (s : AppState)
    → SameState s (broadcast_to_room r message s)
unfolding broadcast_to_room
broadcast_to_room-SameState r message s = elim (Option-cases (lookup r s.rooms)) [
  | inl e ↦ rw (e, broadcast_to_room) (SameState-refl s)
  | inr (room, e) ↦ rw (e, broadcast_to_room) (send_to_all-SameState room.users message s)
]

pub broadcast_to_room-sent :
    (r : String) (message : ServerMessage) (s : AppState) (room : Room)
    → lookup r s.rooms ≡ some room
    → (broadcast_to_room r message s).sent ≡ s.sent ++ deliveries s.peers room.users message
unfolding broadcast_to_room
broadcast_to_room-sent r message s room e =
    rw (e, broadcast_to_room) (send_to_all-sent room.users message s)

pub announce_join-SameState :
    (p r : String) (existing updated : List String) (s : AppState)
    → SameState s (announce_join p r existing updated s)
unfolding announce_join
announce_join-SameState p r existing updated s =
    SameState-trans (send_to_peer-SameState p (room_users existing) s) (
      SameState-trans (send_to_peer-SameState p (joined_room r p (length updated)) _) (
        SameState-trans (send_to_all-SameState existing (peer_joined p r) _)
          (broadcast_to_room-SameState r (room_users updated) _)))

pub leave_notify-SameState :
    (p r : String) (updated : List String) (s : AppState) → SameState s (leave_notify p r updated s)
unfolding leave_notify
leave_notify-SameState p r updated s = elim (Bool-cases (ltb 0 (length updated))) [
  | inl more ↦ rw more (
      SameState-trans (broadcast_to_room-SameState r (user_left p) s)
        (broadcast_to_room-SameState r (room_users updated) _))
  | inr last ↦ rw last (broadcast_to_room-SameState r (user_left p) s)
]

pub set_session_room-rooms :
    (p : String) (r : Option String) (s : AppState) → (set_session_room p r s).rooms ≡ s.rooms
unfolding set_session_room
set_session_room-rooms p r s = ground arith

pub session_room-set_session_room :
    (p : String) (r : Option String) (s : AppState) (q : String)
    → session_room q (set_session_room p r s).peers
      ≡ (if (p == q) && is_connected p s.peers then r else session_room q s.peers)
unfolding set_session_room is_connected
session_room-set_session_room p r s q = elim (Option-cases (lookup p s.peers)) [
  | inl e ↦ ground arith
  | inr (session, e) ↦
      rw (e, set_session_room)
        (ground (arith, session_room-insert q p (record session { room_id = r }) s.peers))
]

-- The rooms after a join that is let in.
pub enter-rooms :
    (now : ℕ) (p r : String) (s : AppState)
    → (enter now p r s).rooms
      ≡ insert r (record (entry now r s) { users = NameSet.insert p (entry now r s).users }) s.rooms
unfolding enter
enter-rooms now p r s = set_session_room-rooms p (some r) _

contains-entry :
    (now : ℕ) (r : String) (s : AppState) (q : String)
    → NameSet.contains q (entry now r s).users ≡ is_member q r s.rooms
unfolding entry is_member NameSet.contains
contains-entry now r s q = ground arith

pub is_member-enter :
    (now : ℕ) (p r : String) (s : AppState) (q t : String)
    → is_member q t (enter now p r s).rooms ≡ ((r == t && p == q) || is_member q t s.rooms)
is_member-enter now p r s q t =
    rw (enter-rooms now p r s, is_member-insert)
      (ground (
        arith,
        NameSet.contains-insert p q (entry now r s).users,
        contains-entry now r s q,
        eq_iff r t,
      ))

-- What is left of the rooms when a peer is taken out of one.
unfoldable pub rooms_without : String → String → Map String Room → Map String Room
rooms_without p r rooms = elim (lookup r rooms) [
  | none ↦ rooms
  | some room ↦
      let users = NameSet.remove p room.users in
      let m = insert r (record room { users = users }) rooms in
      if leb (length users) 0 then remove r m else m
]

pub leave_delete-rooms :
    (r : String) (users : List String) (s : AppState)
    → (leave_delete r users s).rooms ≡ (if leb (length users) 0 then remove r s.rooms else s.rooms)
unfolding leave_delete
leave_delete-rooms r users s = ground arith

pub leave_delete-peers :
    (r : String) (users : List String) (s : AppState) → (leave_delete r users s).peers ≡ s.peers
unfolding leave_delete
leave_delete-peers r users s = ground arith

leave_delete-config :
    (r : String) (users : List String) (s : AppState) → (leave_delete r users s).config ≡ s.config
unfolding leave_delete
leave_delete-config r users s = ground arith

pub leave_room_internal-rooms :
    (p r : String) (s : AppState) → (leave_room_internal p r s).rooms ≡ rooms_without p r s.rooms
unfolding leave_room_internal rooms_without leave_remove
leave_room_internal-rooms p r s = elim (Option-cases (lookup r s.rooms)) [
  | inl e ↦ rw (e, leave_room_internal, rooms_without)
  | inr (room, e) ↦
      rw (e, leave_room_internal, rooms_without)
        (rw (
          leave_delete-rooms r (NameSet.remove p room.users) _,
          (leave_notify-SameState p r (NameSet.remove p room.users) _).rooms,
        ))
]

pub leave_room_internal-peers :
    (p r : String) (s : AppState) → (leave_room_internal p r s).peers ≡ s.peers
unfolding leave_room_internal leave_remove
leave_room_internal-peers p r s = elim (Option-cases (lookup r s.rooms)) [
  | inl e ↦ rw (e, leave_room_internal)
  | inr (room, e) ↦
      rw (e, leave_room_internal)
        (leave_delete-peers r (NameSet.remove p room.users) _
          ∙ (leave_notify-SameState p r (NameSet.remove p room.users) _).peers)
]

pub leave_room_internal-config :
    (p r : String) (s : AppState) → (leave_room_internal p r s).config ≡ s.config
unfolding leave_room_internal leave_remove
leave_room_internal-config p r s = elim (Option-cases (lookup r s.rooms)) [
  | inl e ↦ rw (e, leave_room_internal)
  | inr (room, e) ↦
      rw (e, leave_room_internal)
        (leave_delete-config r (NameSet.remove p room.users) _
          ∙ (leave_notify-SameState p r (NameSet.remove p room.users) _).config)
]

-- A list without members is empty, so deleting the room takes no member away.
not_contains_of_empty :
    (users : List String) (q : String) → length users ≤ 0 → NameSet.contains q users ≡ false
unfolding NameSet.contains
not_contains_of_empty [] q h = refl
not_contains_of_empty (x ∷ users) q h = absurd (omega arith)

pub is_member-rooms_without :
    (p r : String) (rooms : Map String Room) (q t : String)
    → is_member q t (rooms_without p r rooms) ≡ (not (p == q && r == t) && is_member q t rooms)
unfolding rooms_without
is_member-rooms_without p r rooms q t = elim (Option-cases (lookup r rooms)) [
  | inl e ↦ rw (e, rooms_without) (unfold is_member in ground (arith, eq_iff r t))
  | inr (room, e) ↦
      let users = NameSet.remove p room.users in
      let m = insert r (record room { users = users }) rooms in
      rw (e, rooms_without)
        (unfold is_member in
          ground (
            arith,
            lookup-insert r t (record room { users = users }) rooms,
            lookup-remove r t m,
            NameSet.contains-remove p q room.users,
            not_contains_of_empty users q,
            eq_iff r t,
          ))
]

pub is_member-leave_room_internal :
    (p r : String) (s : AppState) (q t : String)
    → is_member q t (leave_room_internal p r s).rooms
      ≡ (not (p == q && r == t) && is_member q t s.rooms)
is_member-leave_room_internal p r s q t =
    rw (leave_room_internal-rooms p r s) (is_member-rooms_without p r s.rooms q t)
