-- ===== src/Signaling/Rooms/Join.antt =====
-- What `handle_join_room` of src/handlers/room.rs does on its two branches.
use mathlib.Core.List.{append_assoc}
use ponswarp_signaling_rs.Common.{
  ℕ, String, ◌≡◌, refl, ◌∙◌, true, false, ◌&&◌, ◌||◌, Option, some, List, [], ◌∷◌, ◌++◌, arith,
  if◌then◌else◌, unwrap_or, ◌==◌, string_eq, eq_iff, inl, inr, Option-cases, length,
}
use ponswarp_signaling_rs.Common.Map.{Map, lookup, lookup-insert, lookup-insert_self}
use ponswarp_signaling_rs.Common.NameSet
use ponswarp_signaling_rs.Common.Text.{trim}
use ponswarp_signaling_rs.Protocol.{ServerMessage, room_users, joined_room, peer_joined, room_full}
use ponswarp_signaling_rs.Signaling.{
  AppState, PeerSession, Room, new_room, send_to_peer, send_to_all,
}
use ponswarp_signaling_rs.Signaling.Frame.{
  SameState-trans, deliveries, send_to_peer-SameState, send_to_all-SameState, send_to_peer-sent,
  send_to_all-sent,
}
use ponswarp_signaling_rs.Signaling.Members.{is_member, session_room, is_connected}
use ponswarp_signaling_rs.Signaling.Rooms.{
  set_session_room, entry, open_room, is_rejected, enter, announce_join, handle_join_room,
}
use ponswarp_signaling_rs.Signaling.Rooms.Effect.{
  broadcast_to_room-sent, announce_join-SameState, is_member-enter, enter-rooms,
  session_room-set_session_room,
}

-- The state after a join that is let in, up to its messages.
pub join_accepted :
    (now : ℕ) (p raw : String) (s : AppState)
    → is_rejected s.config.room.max_size (entry now (trim raw) s) p ≡ false
    → handle_join_room now p raw s
      ≡ announce_join p
          (trim raw)
          (entry now (trim raw) s).users
          (NameSet.insert p (entry now (trim raw) s).users)
          (enter now p (trim raw) s)
unfolding handle_join_room
join_accepted now p raw s e = rw e

pub join_rejected :
    (now : ℕ) (p raw : String) (s : AppState)
    → is_rejected s.config.room.max_size (entry now (trim raw) s) p ≡ true
    → handle_join_room now p raw s
      ≡ send_to_peer p (room_full (trim raw)) (open_room now (trim raw) s)
unfolding handle_join_room
join_rejected now p raw s e = rw e

pub session_room-enter :
    (now : ℕ) (p r : String) (s : AppState) (q : String)
    → session_room q (enter now p r s).peers
      ≡ (if (p == q) && is_connected p s.peers then some r else session_room q s.peers)
unfolding enter
session_room-enter now p r s q = session_room-set_session_room p (some r) _ q

-- A join that is let in adds the peer to the room whose name is the request's, trimmed, and to
-- no other, takes nobody out of any room, and makes the peer's session, if it is connected, name
-- that room; every other session keeps its room.
pub join_lem :
    (now : ℕ) (p raw : String) (s : AppState)
    → is_rejected s.config.room.max_size (entry now (trim raw) s) p ≡ false
    → ((q t : String)
        → is_member q t (handle_join_room now p raw s).rooms
          ≡ ((trim raw == t && p == q) || is_member q t s.rooms))
      × ((q : String)
          → session_room q (handle_join_room now p raw s).peers ≡ (
              if (p == q) && is_connected p s.peers
              then some (trim raw)
              else session_room q s.peers))
join_lem now p raw s e =
    let r = trim raw in
    let same =
      announce_join-SameState p r (entry now r s).users (NameSet.insert p (entry now r s).users)
        (enter now p r s) in
    rw (join_accepted now p raw s e) (
      λ q t. rw same.rooms (is_member-enter now p r s q t),
      λ q. rw same.peers (session_room-enter now p r s q),
    )

is_member-open_room :
    (now : ℕ) (r : String) (s : AppState) (q t : String)
    → is_member q t (open_room now r s).rooms ≡ is_member q t s.rooms
unfolding open_room entry is_member NameSet.contains
is_member-open_room now r s q t =
    ground (arith, lookup-insert r t (entry now r s) s.rooms, eq_iff r t)

lookup-open_room :
    (now : ℕ) (r : String) (s : AppState) (t : String)
    → lookup t (open_room now r s).rooms
      ≡ (if r == t then some (unwrap_or (lookup t s.rooms) (new_room t now)) else lookup t s.rooms)
unfolding open_room entry
lookup-open_room now r s t = ground (arith, lookup-insert r t (entry now r s) s.rooms, eq_iff r t)

-- A join that is turned down leaves every room and every session as it is, except that a room of
-- the requested name that does not exist is opened, empty; nobody is moved. It sends `RoomFull` to
-- the peer that asked, if it is connected, and nothing else to anyone, and spawns no task.
pub join_full :
    (now : ℕ) (p raw : String) (s : AppState)
    → is_rejected s.config.room.max_size (entry now (trim raw) s) p ≡ true
    → ((q t : String) → is_member q t (handle_join_room now p raw s).rooms ≡ is_member q t s.rooms)
      × ((handle_join_room now p raw s).peers ≡ s.peers)
      × ((handle_join_room now p raw s).sent
          ≡ s.sent ++ deliveries s.peers (p ∷ []) (room_full (trim raw)))
      × ((t : String)
          → lookup t (handle_join_room now p raw s).rooms ≡ (
              if trim raw == t
              then some (unwrap_or (lookup t s.rooms) (new_room t now))
              else lookup t s.rooms))
      × ((handle_join_room now p raw s).tasks ≡ s.tasks)
      × ((handle_join_room now p raw s).config ≡ s.config)
join_full now p raw s e =
    let r = trim raw in
    let t = open_room now r s in
    let same = send_to_peer-SameState p (room_full r) t in
    rw (join_rejected now p raw s e) (
      λ q u. rw same.rooms (is_member-open_room now r s q u),
      same.peers ∙ (unfold open_room in refl),
      send_to_peer-sent p (room_full r) t ∙ (unfold open_room in refl),
      λ u. rw same.rooms (lookup-open_room now r s u),
      same.tasks ∙ (unfold open_room in refl),
      same.config ∙ (unfold open_room in refl),
    )

-- A peer that is in the room already is never turned down, however full the room is.
pub rejoin_accepted :
    (now : ℕ) (p r : String) (s : AppState)
    → is_member p r s.rooms ≡ true
    → is_rejected s.config.room.max_size (entry now r s) p ≡ false
unfolding is_rejected entry is_member
rejoin_accepted now p r s h = ground arith

deliveries-set_session_room :
    (p : String) (r : Option String) (s : AppState) (ps : List String) (message : ServerMessage)
    → deliveries (set_session_room p r s).peers ps message ≡ deliveries s.peers ps message
unfolding deliveries set_session_room
deliveries-set_session_room p r s [] message = refl
deliveries-set_session_room p r s (q ∷ ps) message = elim (Option-cases (lookup p s.peers)) [
  | inl e ↦ rw (e, set_session_room)
  | inr (session, e) ↦ ground (
    arith,
    deliveries-set_session_room p r s ps message,
    lookup-insert p q (record session { room_id = r }) s.peers,
    eq_iff p q,
  )
]

-- The messages of a join: the old list and the confirmation to the peer, the arrival to those
-- that were there, and the new list to all.
pub join_messages :
    Map String PeerSession → String → String → List String → List String → List (ℕ × ServerMessage)
join_messages peers p r existing updated =
    deliveries peers (p ∷ []) (room_users existing)
    ++ (deliveries peers (p ∷ []) (joined_room r p (length updated))
        ++ (deliveries peers existing (peer_joined p r)
            ++ deliveries peers updated (room_users updated)))

announce_join-sent :
    (p r : String) (existing : List String) (s : AppState) (room : Room)
    → lookup r s.rooms ≡ some room
    → (announce_join p r existing room.users s).sent
      ≡ s.sent ++ join_messages s.peers p r existing room.users
unfolding announce_join join_messages
announce_join-sent p r existing s room e =
    let m₁ = room_users existing in
    let m₂ = joined_room r p (length room.users) in
    let m₃ = peer_joined p r in
    let s₁ = send_to_peer p m₁ s in
    let s₂ = send_to_peer p m₂ s₁ in
    let s₃ = send_to_all existing m₃ s₂ in
    let h₁ = send_to_peer-SameState p m₁ s in
    let h₂ = SameState-trans h₁ (send_to_peer-SameState p m₂ s₁) in
    let h₃ = SameState-trans h₂ (send_to_all-SameState existing m₃ s₂) in
    let found : lookup r s₃.rooms ≡ some room = rw h₃.rooms e in
    broadcast_to_room-sent r (room_users room.users) s₃ room found
    ∙ rw
        (
          h₃.peers,
          send_to_all-sent existing m₃ s₂,
          h₂.peers,
          send_to_peer-sent p m₂ s₁,
          h₁.peers,
          send_to_peer-sent p m₁ s,
        )
        (simp append_assoc)

enter-sent : (now : ℕ) (p r : String) (s : AppState) → (enter now p r s).sent ≡ s.sent
unfolding enter set_session_room
enter-sent now p r s = ground arith

deliveries-enter :
    (now : ℕ) (p r : String) (s : AppState) (ps : List String) (message : ServerMessage)
    → deliveries (enter now p r s).peers ps message ≡ deliveries s.peers ps message
unfolding enter
deliveries-enter now p r s ps message = deliveries-set_session_room p (some r) _ ps message

-- A join that is let in sends exactly these messages, in this order: to the peer the list of the
-- users that were in the room and the confirmation with the new count, to each of those users
-- the peer's arrival, and to every user of the room, the peer included, the new list. Users that
-- are not connected are passed over, and no other channel gets anything.
pub join_sent :
    (now : ℕ) (p raw : String) (s : AppState)
    → is_rejected s.config.room.max_size (entry now (trim raw) s) p ≡ false
    → (handle_join_room now p raw s).sent
      ≡ s.sent
        ++ join_messages s.peers p
            (trim raw)
            (entry now (trim raw) s).users
            (NameSet.insert p (entry now (trim raw) s).users)
join_sent now p raw s e =
    let r = trim raw in
    let room = entry now r s in
    let joined = record room { users = NameSet.insert p room.users } in
    rw (join_accepted now p raw s e) (
      announce_join-sent p r room.users (enter now p r s) joined
        (rw (enter-rooms now p r s) (lookup-insert_self r joined s.rooms))
      ∙ rw (enter-sent now p r s) (
          unfold join_messages in
          simp (
            deliveries-enter now p r s (p ∷ []),
            deliveries-enter now p r s room.users,
            deliveries-enter now p r s joined.users,
          )))
