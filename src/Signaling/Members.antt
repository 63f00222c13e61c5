-- ===== src/Signaling/Members.antt =====
-- The two views of who is where: the user lists of the rooms, and the room that a session names.
use ponswarp_signaling_rs.Common.{
  String, ◌≡◌, Bool, false, Option, none, some, arith, if◌then◌else◌, ◌==◌, string_eq, eq_iff,
  is_some,
}
use ponswarp_signaling_rs.Common.Map.{Map, lookup, insert, remove, lookup-insert, lookup-remove}
use ponswarp_signaling_rs.Common.NameSet.{contains}
use ponswarp_signaling_rs.Signaling.{Room, PeerSession}

-- Whether a room lists a peer.
unfoldable pub is_member : String → String → Map String Room → Bool
is_member peer_id room_id rooms = elim (lookup room_id rooms) [
  | none ↦ false
  | some room ↦ contains peer_id room.users
]

-- The room that a peer's session names, if the peer is connected and in one.
unfoldable pub session_room : String → Map String PeerSession → Option String
session_room peer_id peers = elim (lookup peer_id peers) [
  | none ↦ none
  | some session ↦ session.room_id
]

unfoldable pub is_connected : String → Map String PeerSession → Bool
is_connected peer_id peers = is_some (lookup peer_id peers)

pub is_member-insert :
    (q t r : String) (room : Room) (rooms : Map String Room)
    → is_member q t (insert r room rooms)
      ≡ (if r == t then contains q room.users else is_member q t rooms)
unfolding is_member
is_member-insert q t r room rooms = ground (arith, lookup-insert r t room rooms, eq_iff r t)

pub is_member-remove :
    (q t r : String) (rooms : Map String Room)
    → is_member q t (remove r rooms) ≡ (if r == t then false else is_member q t rooms)
unfolding is_member
is_member-remove q t r rooms = ground (arith, lookup-remove r t rooms, eq_iff r t)

pub session_room-insert :
    (q p : String) (session : PeerSession) (peers : Map String PeerSession)
    → session_room q (insert p session peers)
      ≡ (if p == q then session.room_id else session_room q peers)
unfolding session_room
session_room-insert q p session peers = ground (arith, lookup-insert p q session peers, eq_iff p q)

pub session_room-remove :
    (q p : String) (peers : Map String PeerSession)
    → session_room q (remove p peers) ≡ (if p == q then none else session_room q peers)
unfolding session_room
session_room-remove q p peers = ground (arith, lookup-remove p q peers, eq_iff p q)
