-- ===== src/Signaling/Rooms/Leave.antt =====
-- What `leave_room_internal`, `handle_leave_room` and `cleanup_old_rooms` of src/handlers/room.rs do.
use mathlib.Core.List.{append_assoc}
use ponswarp_signaling_rs.Common.{
  ℕ, ◌-◌, String, ◌≡◌, refl, ◌∙◌, true, false, ◌&&◌, not, Option, none, some, List, [], ◌∷◌, ◌++◌,
  arith, leb, ltb, if◌then◌else◌, ◌==◌, string_eq, eq_iff, inl, inr, Bool-cases, length,
}
use ponswarp_signaling_rs.Common.Map.{
  Map, Distinct, lookup, insert, remove, lookup-insert, lookup-remove, lookup-insert_self,
  lookup-retain,
}
use ponswarp_signaling_rs.Common.NameSet
use ponswarp_signaling_rs.Protocol.{ServerMessage, room_users, user_left}
use ponswarp_signaling_rs.Signaling.{AppState, PeerSession, Room}
use ponswarp_signaling_rs.Signaling.Frame.{deliveries, deliveries-nil}
use ponswarp_signaling_rs.Signaling.Members.{is_member, session_room, is_connected}
use ponswarp_signaling_rs.Signaling.Rooms.{
  set_session_room, broadcast_to_room, leave_remove, leave_notify, leave_delete,
  leave_room_internal, handle_leave_room, cleanup_old_rooms,
}
use ponswarp_signaling_rs.Signaling.Rooms.Effect.{
  rooms_without, leave_room_internal-rooms, leave_room_internal-peers,
  is_member-leave_room_internal, set_session_room-rooms, session_room-set_session_room,
  broadcast_to_room-SameState, broadcast_to_room-sent,
}

connected_of_session_room :
    (p r : String) (peers : Map String PeerSession)
    → session_room p peers ≡ some r
    → is_connected p peers ≡ true
unfolding session_room is_connected
connected_of_session_room p r peers h = ground arith

pub handle_leave_room-some :
    (p r : String) (s : AppState)
    → session_room p s.peers ≡ some r
    → handle_leave_room p s ≡ set_session_room p none (leave_room_internal p r s)
unfolding handle_leave_room
handle_leave_room-some p r s e = rw (e, handle_leave_room)

-- A peer whose session names a room leaves that room and stays in every other that lists it, no
-- other peer moves, and the session names no room afterwards.
pub leave_lem :
    (p r : String) (s : AppState)
    → session_room p s.peers ≡ some r
    → ((q t : String)
        → is_member q t (handle_leave_room p s).rooms
          ≡ (not (p == q && r == t) && is_member q t s.rooms))
      × ((q : String)
          → session_room q (handle_leave_room p s).peers
            ≡ (if p == q then none else session_room q s.peers))
leave_lem p r s h = rw (handle_leave_room-some p r s h) (
  λ q t.
      rw (set_session_room-rooms p none (leave_room_internal p r s))
        (is_member-leave_room_internal p r s q t),
  λ q. ground (
    arith,
    session_room-set_session_room p none (leave_room_internal p r s) q,
    leave_room_internal-peers p r s,
    connected_of_session_room p r s.peers h,
  ),
)

rooms_without_found :
    (p r : String) (rooms : Map String Room) (room : Room)
    → lookup r rooms ≡ some room
    → rooms_without p r rooms ≡ (
        let users = NameSet.remove p room.users in
        let m = insert r (record room { users = users }) rooms in
        if leb (length users) 0 then remove r m else m)
unfolding rooms_without
rooms_without_found p r rooms room e = rw (e, rooms_without)

-- When a peer leaves a room that exists, the room is deleted if nobody is left in it, and
-- otherwise stays with the others; every other room stays as it is.
pub leave_deletes :
    (p r : String) (s : AppState) (room : Room) (t : String)
    → lookup r s.rooms ≡ some room
    → lookup t (leave_room_internal p r s).rooms ≡ (
        if r == t
        then (if leb (length (NameSet.remove p room.users)) 0
            then none
            else some (record room { users = NameSet.remove p room.users }))
        else lookup t s.rooms)
leave_deletes p r s room t e =
    let joined = record room { users = NameSet.remove p room.users } in
    let m = insert r joined s.rooms in
    rw (leave_room_internal-rooms p r s, rooms_without_found p r s.rooms room e)
      (ground (arith, lookup-remove r t m, lookup-insert r t joined s.rooms, eq_iff r t))

leave_notify-sent :
    (p r : String) (s : AppState) (room : Room)
    → lookup r s.rooms ≡ some room
    → (leave_notify p r room.users s).sent
      ≡ s.sent
        ++ (deliveries s.peers room.users (user_left p)
            ++ deliveries s.peers room.users (room_users room.users))
unfolding leave_notify
leave_notify-sent p r s room e =
    let told = broadcast_to_room r (user_left p) s in
    let same = broadcast_to_room-SameState r (user_left p) s in
    let found : lookup r told.rooms ≡ some room = rw same.rooms e in
    elim (Bool-cases (ltb 0 (length room.users))) [
      | inl more ↦ rw more (
          broadcast_to_room-sent r (room_users room.users) told room found
          ∙ rw (same.peers, broadcast_to_room-sent r (user_left p) s room e)
              (append_assoc s.sent _ _))
      | inr last ↦ rw last (
          broadcast_to_room-sent r (user_left p) s room e
          ∙ no_deliveries s.peers (user_left p) (room_users room.users) s.sent room.users last)
    ]
  where
    no_deliveries :
        (peers : Map String PeerSession) (m n : ServerMessage) (log : List (ℕ × ServerMessage))
        (users : List String)
        → ltb 0 (length users) ≡ false
        → log ++ deliveries peers users m
          ≡ log ++ (deliveries peers users m ++ deliveries peers users n)
    no_deliveries peers m n log [] h = simp deliveries-nil
    no_deliveries peers m n log (x ∷ xs) h = ground arith

leave_delete-sent :
    (r : String) (users : List String) (s : AppState) → (leave_delete r users s).sent ≡ s.sent
unfolding leave_delete
leave_delete-sent r users s = ground arith

-- A leave tells each connected user that stays in the room that the peer has left, and then the
-- new list of users; nobody else is told anything, not even the peer that leaves.
pub leave_sent :
    (p r : String) (s : AppState) (room : Room)
    → lookup r s.rooms ≡ some room
    → (leave_room_internal p r s).sent
      ≡ s.sent
        ++ (deliveries s.peers (NameSet.remove p room.users) (user_left p)
            ++ deliveries s.peers
                (NameSet.remove p room.users)
                (room_users (NameSet.remove p room.users)))
unfolding leave_room_internal leave_remove
leave_sent p r s room e =
    let joined = record room { users = NameSet.remove p room.users } in
    rw (e, leave_room_internal)
      (leave_delete-sent r joined.users _
        ∙ leave_notify-sent p r (record s { rooms = insert r joined s.rooms }) joined
            (lookup-insert_self r joined s.rooms))

-- A room that the clean-up finds, if it is not too old.
abbrev pub unexpired : ℕ → ℕ → Option Room → Option Room
unexpired now timeout none = none
unexpired now timeout (some room) = if ltb timeout (now - room.created_at) then none else some room

-- The clean-up deletes the rooms whose age has passed the timeout, whoever is in them, keeps
-- every other room as it is, and changes no session, so that the sessions of a deleted room's
-- users go on naming it.
pub cleanup_lem :
    (now : ℕ) (s : AppState) (r : String)
    → Distinct s.rooms
    → (lookup r (cleanup_old_rooms now s).rooms
        ≡ unexpired now s.config.room.timeout_ms (lookup r s.rooms))
      × ((cleanup_old_rooms now s).peers ≡ s.peers)
unfolding cleanup_old_rooms
cleanup_lem now s r d = (
  ground (
    arith,
    lookup-retain
        (λ (_ : String) (x : Room). not (ltb s.config.room.timeout_ms (now - x.created_at))) r
        s.rooms d,
  ),
  refl,
)
