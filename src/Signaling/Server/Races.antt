-- ===== src/Signaling/Server/Races.antt =====
-- Two ways in which the lists and the sessions come apart: a join without a leave, and a join
-- that falls between the two lock scopes of `leave_room_internal`.
use ponswarp_signaling_rs.Common.{
  ℕ, ◌<◌, String, ◌≡◌, ap, ◌∙◌, true, false, none, some, List, arith, ◌==◌, string_eq, eq_iff,
  length,
}
use ponswarp_signaling_rs.Common.Map.{lookup, insert, lookup-insert_self, lookup-remove_self}
use ponswarp_signaling_rs.Common.NameSet
use ponswarp_signaling_rs.Common.Text.{trim}
use ponswarp_signaling_rs.Signaling.{AppState, Room}
use ponswarp_signaling_rs.Signaling.Members.{is_member, session_room, is_connected}
use ponswarp_signaling_rs.Signaling.Connection.{handle_disconnect}
use ponswarp_signaling_rs.Signaling.Rooms.{
  handle_join_room, entry, is_rejected, leave_remove, leave_notify, leave_delete,
}
use ponswarp_signaling_rs.Signaling.Rooms.Effect.{
  leave_notify-SameState, leave_delete-rooms, leave_delete-peers,
}
use ponswarp_signaling_rs.Signaling.Rooms.Join.{join_lem}
use ponswarp_signaling_rs.Signaling.Server.Presence.{disconnect_lem}

-- A peer that is in one room, joins another without leaving the first, and then disconnects,
-- stays in the first room's list: it is a user of that room and has no session.
pub join_then_disconnect :
    (now : ℕ) (p raw old : String) (s : AppState)
    → is_member p old s.rooms ≡ true
    → is_connected p s.peers ≡ true
    → (trim raw == old) ≡ false
    → is_rejected s.config.room.max_size (entry now (trim raw) s) p ≡ false
    → let t = handle_disconnect p (handle_join_room now p raw s) in
      (is_member p old t.rooms ≡ true) × (is_connected p t.peers ≡ false)
join_then_disconnect now p raw old s was on other room =
    let u = handle_join_room now p raw s in
    let (joined, moved) = join_lem now p raw s room in
    let (members, sessions, off) = disconnect_lem p u in
    let at_new : session_room p u.peers ≡ some (trim raw) = ground (arith, moved p, eq_iff p p) in
    let still : is_member p old (handle_disconnect p u).rooms ≡ true =
      ground (arith, members p old, joined p old, at_new) in
    (still, off)

-- A leave by the last user of a room, with a join by another peer between the two moments at
-- which the leave holds the room's lock.
unfoldable pub leave_around_join : ℕ → String → String → String → AppState → AppState
unfolding leave_remove leave_notify leave_delete
leave_around_join now p q r s = elim (leave_remove p r s) [
  | none ↦ handle_join_room now q r s
  | some (users, t) ↦ leave_delete r users (leave_notify p r users (handle_join_room now q r t))
]

leave_remove_found :
    (p r : String) (s : AppState) (room : Room)
    → lookup r s.rooms ≡ some room
    → leave_remove p r s
      ≡ some (
        NameSet.remove p room.users,
        record s { rooms = insert r (record room { users = NameSet.remove p room.users }) s.rooms },
      )
unfolding leave_remove
leave_remove_found p r s room e = rw (e, leave_remove)

entry_found :
    (now : ℕ) (r : String) (s : AppState) (room : Room)
    → lookup r s.rooms ≡ some room
    → entry now r s ≡ room
unfolding entry
entry_found now r s room e = rw e

not_rejected_of_empty :
    (size : ℕ) (room : Room) (q : String)
    → 0 < size
    → length room.users ≡ 0
    → is_rejected size room q ≡ false
unfolding is_rejected
not_rejected_of_empty size room q pos e = ground arith

leave_around_join_found :
    (now : ℕ) (p q r : String) (s : AppState) (users : List String) (t : AppState)
    → leave_remove p r s ≡ some (users, t)
    → leave_around_join now p q r s
      ≡ leave_delete r users (leave_notify p r users (handle_join_room now q r t))
unfolding leave_around_join
leave_around_join_found now p q r s users t e = rw (e, leave_around_join)

-- The delete of a room that was empty at the first lock scope, whoever is in it now.
deleted :
    (p r : String) (users : List String) (v : AppState)
    → length users ≡ 0
    → (lookup r (leave_delete r users (leave_notify p r users v)).rooms ≡ none)
      × ((leave_delete r users (leave_notify p r users v)).peers ≡ v.peers)
deleted p r users v h =
    let told = leave_notify p r users v in
    (
      ground (arith, leave_delete-rooms r users told, lookup-remove_self r told.rooms),
      leave_delete-peers r users told ∙ (leave_notify-SameState p r users v).peers,
    )

-- When another connected peer joins a room between the two lock scopes of the leave by which the
-- last user goes, the newcomer is let in, and then its room is deleted: its session names a room
-- that does not exist.
pub leave_around_join_lem :
    (now : ℕ) (p q r : String) (s : AppState) (room : Room)
    → lookup r s.rooms ≡ some room
    → length (NameSet.remove p room.users) ≡ 0
    → trim r ≡ r
    → is_connected q s.peers ≡ true
    → 0 < s.config.room.max_size
    → (lookup r (leave_around_join now p q r s).rooms ≡ none)
      × (session_room q (leave_around_join now p q r s).peers ≡ some r)
leave_around_join_lem now p q r s room e last t on pos =
    let users = NameSet.remove p room.users in
    let rest = record room { users = users } in
    let u = record s { rooms = insert r rest s.rooms } in
    let found : entry now (trim r) u ≡ rest =
      rw t (entry_found now r u rest (lookup-insert_self r rest s.rooms)) in
    let free : is_rejected s.config.room.max_size (entry now (trim r) u) q ≡ false =
      rw found (not_rejected_of_empty s.config.room.max_size rest q pos last) in
    let (members, sessions) = join_lem now q r u free in
    let (none_left, peers) = deleted p r users (handle_join_room now q r u) last in
    rw (leave_around_join_found now p q r s users u (leave_remove_found p r s room e))
      (none_left, ap (session_room q) peers ∙ ground (arith, sessions q, eq_iff q q, t))
