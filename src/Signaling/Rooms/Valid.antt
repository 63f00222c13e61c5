-- ===== src/Signaling/Rooms/Valid.antt =====
-- When the rooms are well formed, and that every operation on rooms keeps them so.
use ponswarp_signaling_rs.Common.{
  ℕ, ◌≤◌, ◌<◌, String, ◌≡◌, refl, true, false, ◌&&◌, not, arith, leb, string_eq, eq_iff, inl, inr,
  Option-cases, Bool-cases, length, [], ◌⊎◌,
}
use ponswarp_signaling_rs.Common.Map.{
  Map, Distinct, Each, lookup, insert, insert-Distinct, remove-Distinct, retain-Distinct,
  Each-insert, Each-retain, lookup-insert, lookup-remove,
}
use ponswarp_signaling_rs.Common.NameSet
use ponswarp_signaling_rs.Common.Text.{trim, trim_idempotent}
use ponswarp_signaling_rs.Protocol.{room_full}
use ponswarp_signaling_rs.Signaling.{AppState, Room, new_room}
use ponswarp_signaling_rs.Signaling.Frame.{send_to_peer-SameState}
use ponswarp_signaling_rs.Signaling.Rooms.{
  entry, open_room, is_rejected, enter, handle_join_room, leave_room_internal, cleanup_old_rooms,
}
use ponswarp_signaling_rs.Signaling.Rooms.Effect.{
  announce_join-SameState, enter-rooms, rooms_without, leave_room_internal-rooms,
}
use ponswarp_signaling_rs.Signaling.Rooms.Join.{join_accepted, join_rejected}

-- A room is filed under its own name, which has no white space at its ends, has at least one user
-- and at most `max_size`, and lists none twice.
pub record IsRoom (max_size : ℕ) (name : String) (room : Room) : Type 0 where
  pub filed : room.id ≡ name
  pub trimmed : trim name ≡ name
  pub occupied : 0 < length room.users
  pub bounded : length room.users ≤ max_size
  pub distinct : NameSet.Distinct room.users

pub record AreRooms (max_size : ℕ) (rooms : Map String Room) : Type 0 where
  pub keys : Distinct rooms
  pub each : Each (IsRoom max_size) rooms

-- A room that is there already, or a new one: all but occupied.
entry-cases :
    (now : ℕ) (r : String) (s : AppState) (max_size : ℕ)
    → AreRooms max_size s.rooms
    → IsRoom max_size r (entry now r s) ⊎ (entry now r s ≡ new_room r now)
unfolding entry
entry-cases now r s max_size v = elim (Option-cases (lookup r s.rooms)) [
  | inl e ↦ inr (rw e)
  | inr (room, e) ↦ inl (rw e (v.each r room e))
]

joined-IsRoom :
    (max_size : ℕ) (p r : String) (room : Room)
    → IsRoom max_size r room
    → is_rejected max_size room p ≡ false
    → IsRoom max_size r (record room { users = NameSet.insert p room.users })
unfolding is_rejected
joined-IsRoom max_size p r room v e = record {
  filed = v.filed;
  trimmed = v.trimmed;
  occupied = ground (arith, NameSet.length-insert p room.users, v.occupied);
  bounded = ground (arith, NameSet.length-insert p room.users, v.bounded);
  distinct = NameSet.insert-Distinct p room.users v.distinct;
}

first-IsRoom :
    (max_size now : ℕ) (p r : String)
    → trim r ≡ r
    → is_rejected max_size (new_room r now) p ≡ false
    → IsRoom max_size r (record (new_room r now) { users = NameSet.insert p [] })
unfolding is_rejected NameSet.insert
first-IsRoom max_size now p r t e = record {
  filed = refl;
  trimmed = t;
  occupied = omega arith;
  bounded = ground arith;
  distinct = (refl, tt);
}

enter-AreRooms :
    (now : ℕ) (p r : String) (s : AppState) (max_size : ℕ)
    → AreRooms max_size s.rooms
    → trim r ≡ r
    → is_rejected max_size (entry now r s) p ≡ false
    → AreRooms max_size (enter now p r s).rooms
enter-AreRooms now p r s max_size v t e =
    let joined = record (entry now r s) { users = NameSet.insert p (entry now r s).users } in
    let room : IsRoom max_size r joined = elim (entry-cases now r s max_size v) [
      | inl old ↦ joined-IsRoom max_size p r (entry now r s) old e
      | inr new ↦ rw new (first-IsRoom max_size now p r t (rw new at e))
    ] in
    rw (enter-rooms now p r s) (record {
      keys = insert-Distinct r joined s.rooms v.keys;
      each = Each-insert (IsRoom max_size) r joined s.rooms v.each room;
    })

-- A join is turned down only by a room that is full, and so there.
rejected-IsRoom :
    (now : ℕ) (p r : String) (s : AppState) (max_size : ℕ)
    → 0 < max_size
    → AreRooms max_size s.rooms
    → is_rejected max_size (entry now r s) p ≡ true
    → IsRoom max_size r (entry now r s)
unfolding is_rejected
rejected-IsRoom now p r s max_size pos v e = elim (entry-cases now r s max_size v) [
  | inl old ↦ old
  | inr new ↦ absurd (absurd_of_new (rw new at e))
]
  where
    absurd_of_new :
        leb max_size (length (new_room r now).users)
            && not (NameSet.contains p (new_room r now).users)
          ≡ true
        → ⊥
    absurd_of_new h = ground arith

open_room-AreRooms :
    (now : ℕ) (r : String) (s : AppState) (max_size : ℕ)
    → AreRooms max_size s.rooms
    → IsRoom max_size r (entry now r s)
    → AreRooms max_size (open_room now r s).rooms
unfolding open_room
open_room-AreRooms now r s max_size v room = record {
  keys = insert-Distinct r (entry now r s) s.rooms v.keys;
  each = Each-insert (IsRoom max_size) r (entry now r s) s.rooms v.each room;
}

pub join-AreRooms :
    (now : ℕ) (p raw : String) (s : AppState)
    → 0 < s.config.room.max_size
    → AreRooms s.config.room.max_size s.rooms
    → AreRooms s.config.room.max_size (handle_join_room now p raw s).rooms
join-AreRooms now p raw s pos v =
    let r = trim raw in
    let size = s.config.room.max_size in
    elim (Bool-cases (is_rejected size (entry now r s) p)) [
      | inl full ↦
          rw
            (
              join_rejected now p raw s full,
              (send_to_peer-SameState p (room_full r) (open_room now r s)).rooms,
            )
            (open_room-AreRooms now r s size v (rejected-IsRoom now p r s size pos v full))
      | inr room ↦
          rw
            (
              join_accepted now p raw s room,
              (announce_join-SameState p r (entry now r s).users
                  (NameSet.insert p (entry now r s).users) (enter now p r s)).rooms,
            )
            (enter-AreRooms now p r s size v (trim_idempotent raw) room)
    ]

rooms_without-AreRooms :
    (p r : String) (rooms : Map String Room) (max_size : ℕ)
    → AreRooms max_size rooms
    → AreRooms max_size (rooms_without p r rooms)
unfolding rooms_without
rooms_without-AreRooms p r rooms max_size v = elim (Option-cases (lookup r rooms)) [
  | inl e ↦ rw (e, rooms_without) v
  | inr (room, e) ↦
      let users = NameSet.remove p room.users in
      let rest = record room { users = users } in
      let old = v.each r room e in
      let keys = insert-Distinct r rest rooms v.keys in
      elim (Bool-cases (leb (length users) 0)) [
        | inl empty ↦
            rw (e, rooms_without, empty)
              (record {
                keys = remove-Distinct r (insert r rest rooms) keys;
                each = λ t found h. v.each t found (
                    ground (
                      arith,
                      lookup-remove r t (insert r rest rooms),
                      lookup-insert r t rest rooms,
                      eq_iff r t,
                    ));
              })
        | inr some_left ↦
            rw (e, rooms_without, some_left)
              (record {
                keys = keys;
                each = Each-insert (IsRoom max_size) r rest rooms v.each (record {
                  filed = old.filed;
                  trimmed = old.trimmed;
                  occupied = ground arith;
                  bounded = omega (arith, NameSet.length-remove-le p room.users, old.bounded);
                  distinct = NameSet.remove-Distinct p room.users old.distinct;
                });
              })
      ]
]

pub leave_room_internal-AreRooms :
    (p r : String) (s : AppState) (max_size : ℕ)
    → AreRooms max_size s.rooms
    → AreRooms max_size (leave_room_internal p r s).rooms
leave_room_internal-AreRooms p r s max_size v =
    rw (leave_room_internal-rooms p r s) (rooms_without-AreRooms p r s.rooms max_size v)

pub cleanup-AreRooms :
    (now : ℕ) (s : AppState) (max_size : ℕ)
    → AreRooms max_size s.rooms
    → AreRooms max_size (cleanup_old_rooms now s).rooms
unfolding cleanup_old_rooms
cleanup-AreRooms now s max_size v = record {
  keys = retain-Distinct _ s.rooms v.keys;
  each = Each-retain (IsRoom max_size) _ s.rooms v.keys v.each;
}
