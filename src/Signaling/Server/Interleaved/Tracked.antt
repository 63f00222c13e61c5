-- ===== src/Signaling/Server/Interleaved/Tracked.antt =====
-- That sessions and lists agree where handlers interleave with the halves of leaves, and that the
-- halves in a row are the handlers (src/handlers/room.rs and src/handlers/connection.rs).
use ponswarp_signaling_rs.Common.{
  ℕ, zero, suc, String, ◌≡◌, refl, sym, Bool, true, false, ◌&&◌, ◌||◌, not, none, some, List, [],
  ◌∷◌, leb, length, arith, if◌then◌else◌, ◌==◌, inl, inr, Option-cases, Bool-cases, string_eq,
  eq_iff,
}
use ponswarp_signaling_rs.Common.Map.{lookup, insert, remove}
use ponswarp_signaling_rs.Common.NameSet
use ponswarp_signaling_rs.Signaling.{AppState, Room}
use ponswarp_signaling_rs.Signaling.Members.{
  is_member, session_room, is_connected, is_member-insert, is_member-remove, session_room-remove,
}
use ponswarp_signaling_rs.Signaling.Rooms.{
  leave_remove, leave_notify, leave_delete, handle_leave_room,
}
use ponswarp_signaling_rs.Signaling.Rooms.Effect.{
  leave_notify-SameState, leave_delete-rooms, leave_delete-peers, set_session_room-rooms,
  session_room-set_session_room,
}
use ponswarp_signaling_rs.Signaling.Server.Presence.{IsTracked, step-IsTracked}
use ponswarp_signaling_rs.Signaling.Connection.{handle_disconnect}
use ponswarp_signaling_rs.Signaling.Server.Interleaved.{
  Leaving, Interleaving, Moment, handles, leave_begins, disconnect_begins, leave_ends,
  clear_session, begin_leave, end_leave, take_leaving, is_leaving, is_deserted, advance,
  run_moments, is_undisturbed, AreUndisturbed, IsTrackedApart, AllTracked,
}

session_room-clear :
    (has : Bool) (p : String) (s : AppState) (q : String)
    → session_room q (clear_session has p s).peers
      ≡ (if has && p == q then none else session_room q s.peers)
unfolding is_connected session_room
session_room-clear false p s q = refl
session_room-clear true p s q =
    rw (session_room-set_session_room p none s q) (ground (arith, eq_iff p q))

rooms-clear : (has : Bool) (p : String) (s : AppState) → (clear_session has p s).rooms ≡ s.rooms
rooms-clear false p s = refl
rooms-clear true p s = set_session_room-rooms p none s

is_member-without :
    (p r q t : String) (s : AppState) (room : Room)
    → lookup r s.rooms ≡ some room
    → (p == q) ≡ false
    → is_member q t s.rooms ≡ true
    → is_member q t (insert r (record room { users = NameSet.remove p room.users }) s.rooms) ≡ true
unfolding is_member
is_member-without p r q t s room e other h =
    let left_in = record room { users = NameSet.remove p room.users } in
    ground (
      arith,
      e,
      other,
      h,
      is_member-insert q t r left_in s.rooms,
      NameSet.contains-remove p q room.users,
      eq_iff r t,
    )

begin_leave-IsTrackedApart :
    (has : Bool) (p r : String) (s : AppState) (leaving : List Leaving) (q t : String)
    → (has ≡ false → session_room p s.peers ≡ none)
    → (is_leaving q leaving ≡ false → IsTracked q t s)
    → IsTrackedApart q t (begin_leave has p r s leaving)
unfolding begin_leave
begin_leave-IsTrackedApart has p r s leaving q t gone v = elim (Option-cases (lookup r s.rooms)) [
  | inl e ↦
      rw (begin_leave, leave_remove, e)
        (λ apart named.
          rw (rooms-clear has p s) (ground (arith, v, apart, named, session_room-clear has p s q)))
  | inr (room, e) ↦
      rw (begin_leave, leave_remove, e)
        (λ apart named. elim (Bool-cases (p == q)) [
          | inr other ↦
              is_member-without p r q t s room e other (v (ground (arith, apart, other)) named)
          | inl same ↦ elim (Bool-cases has) [
            | inl on ↦ absurd (ground (arith, apart, on, same))
            | inr off ↦ absurd (ground (arith, gone off, same, eq_iff p q, named))
          ]
        ])
]

take_leaving-is_leaving :
    (n : ℕ) (leaving rest : List Leaving) (l : Leaving) (q : String)
    → take_leaving n leaving ≡ some (l, rest)
    → is_leaving q leaving ≡ (l.has_session && l.peer_id == q || is_leaving q rest)
unfolding take_leaving
take_leaving-is_leaving n [] rest l q e = absurd (ground (arith, e))
take_leaving-is_leaving zero (k ∷ leaving) rest l q e = ground (arith, e)
take_leaving-is_leaving (suc n) (k ∷ leaving) rest l q e =
    elim (Option-cases (take_leaving n leaving)) [
      | inl f ↦ absurd (ground (arith, e, f))
      | inr ((found, others), f) ↦
          ground (arith, e, f, take_leaving-is_leaving n leaving others found q f)
    ]

not_member_of_deserted :
    (q r : String) (s : AppState) → is_deserted r s ≡ true → is_member q r s.rooms ≡ false
unfolding is_member
not_member_of_deserted q r s empty = elim (Option-cases (lookup r s.rooms)) [
  | inl e ↦ ground (arith, e)
  | inr (room, e) ↦ elim (Bool-cases (NameSet.contains q room.users)) [
    | inr out ↦ ground (arith, e, out)
    | inl inside ↦
        absurd (ground (arith, empty, e, NameSet.nonempty_of_contains q room.users inside))
  ]
]

-- Deleting a room that nobody is in takes nobody out.
is_member-leave_delete :
    (q t r : String) (users : List String) (s : AppState)
    → (not (leb (length users) 0) || is_deserted r s) ≡ true
    → is_member q t s.rooms ≡ true
    → is_member q t (leave_delete r users s).rooms ≡ true
is_member-leave_delete q t r users s empty h =
    rw (leave_delete-rooms r users s) (elim (Bool-cases (leb (length users) 0)) [
      | inr some_left ↦ rw some_left h
      | inl none_left ↦
          let gone = not_member_of_deserted q r s (ground (arith, empty, none_left)) in
          rw (none_left, is_member-remove q t r s.rooms) (ground (arith, gone, h, eq_iff r t))
    ])

is_deserted-SameState :
    (r : String) (s u : AppState) → u.rooms ≡ s.rooms → is_deserted r u ≡ is_deserted r s
is_deserted-SameState r s u e = rw e refl

end_leave-IsTrackedApart :
    (l : Leaving) (rest leaving : List Leaving) (s : AppState) (q t : String)
    → is_leaving q leaving ≡ (l.has_session && l.peer_id == q || is_leaving q rest)
    → (not (leb (length l.updated_users) 0) || is_deserted l.room_id s) ≡ true
    → (is_leaving q leaving ≡ false → IsTracked q t s)
    → IsTrackedApart q t (record { state = end_leave l s; leaving = rest })
unfolding end_leave
end_leave-IsTrackedApart l rest leaving s q t split empty v apart named =
    let told = leave_notify l.peer_id l.room_id l.updated_users s in
    let same = leave_notify-SameState l.peer_id l.room_id l.updated_users s in
    let done = leave_delete l.room_id l.updated_users told in
    let sessions = session_room-clear l.has_session l.peer_id done q in
    elim (Bool-cases (l.has_session && l.peer_id == q)) [
      | inl cleared ↦ absurd (ground (arith, named, sessions, cleared))
      | inr kept ↦
          let was : session_room q done.peers ≡ some t = ground (arith, named, sessions, kept) in
          let before : session_room q s.peers ≡ some t =
            rw (sym same.peers, sym (leave_delete-peers l.room_id l.updated_users told)) was in
          let member = v (ground (arith, split, kept, apart)) before in
          rw (rooms-clear l.has_session l.peer_id done) (
            is_member-leave_delete q t l.room_id l.updated_users told
              (rw (is_deserted-SameState l.room_id s told same.rooms) empty) (rw same.rooms member))
    ]

gone-IsTracked :
    (p : String) (s : AppState) (q t : String)
    → IsTracked q t s
    → IsTracked q t (record s { peers = remove p s.peers })
gone-IsTracked p s q t v named = v (ground (arith, named, session_room-remove q p s.peers))

no_session : (p : String) (s : AppState) → session_room p (remove p s.peers) ≡ none
no_session p s = ground (arith, session_room-remove p p s.peers, eq_iff p p)

module _ (hmac : String → String → String) where
  advance-IsTrackedApart :
      (moment : Moment) (i : Interleaving) (q t : String)
      → is_undisturbed hmac moment i ≡ true
      → IsTrackedApart q t i
      → IsTrackedApart q t (advance hmac moment i)
  unfolding advance
  advance-IsTrackedApart (handles event) i q t ok v =
      λ apart. step-IsTracked hmac event i.state q t (ground (arith, ok)) (v apart)
  advance-IsTrackedApart (leave_begins p) i q t ok v =
      elim (Option-cases (session_room p i.state.peers)) [
        | inl e ↦ rw (advance, e) v
        | inr (r, e) ↦
            rw (advance, e)
              (begin_leave-IsTrackedApart true p r i.state i.leaving q t
                (λ off. ground (arith, off)) v)
      ]
  advance-IsTrackedApart (disconnect_begins p) i q t ok v =
      elim (Option-cases (lookup p i.state.peers)) [
        | inl e ↦ rw (advance, e) v
        | inr (session, e) ↦ elim (Option-cases session.room_id) [
          | inl f ↦ rw (advance, e, f) (λ apart. gone-IsTracked p i.state q t (v apart))
          | inr (r, f) ↦
              rw (advance, e, f)
                (begin_leave-IsTrackedApart false p r
                  (record i.state { peers = remove p i.state.peers }) i.leaving q t
                  (λ off. no_session p i.state) (λ apart. gone-IsTracked p i.state q t (v apart)))
        ]
      ]
  advance-IsTrackedApart (leave_ends n) i q t ok v =
      elim (Option-cases (take_leaving n i.leaving)) [
        | inl e ↦ rw (advance, e) v
        | inr ((l, rest), e) ↦
            rw (advance, e)
              (end_leave-IsTrackedApart l rest i.leaving i.state q t
                (take_leaving-is_leaving n i.leaving rest l q e) (ground (arith, ok, e)) v)
      ]

  -- Handlers, and the two halves of leaves and disconnects, run in any order, whatever the clients
  -- send. As long as no clean-up runs, and as long as no leave that saw its room empty deletes it
  -- when somebody has joined it in between, then at the end, as at the start, the room that a
  -- session names exists and lists the peer, for every peer that is not in the midst of a leave.
  pub run_moments-AllTracked :
      (moments : List Moment) (i : Interleaving)
      → AreUndisturbed hmac moments i
      → AllTracked i
      → AllTracked (run_moments hmac moments i)
  unfolding run_moments
  run_moments-AllTracked [] i h v = v
  run_moments-AllTracked (moment ∷ moments) i (h, hs) v =
      run_moments-AllTracked moments (advance hmac moment i) hs
        (λ q t. advance-IsTrackedApart moment i q t h (v q t))

  -- The two halves of a leave in a row, with no other leave in between, are the whole handler.
  leave_ends-leave_begins :
      (p : String) (s : AppState)
      → (advance hmac
          (leave_ends 0)
          (advance hmac (leave_begins p) (record { state = s; leaving = [] }))).state
        ≡ handle_leave_room p s
  unfolding advance handle_leave_room
  leave_ends-leave_begins p s = elim (Option-cases (session_room p s.peers)) [
    | inl e ↦ ground (arith, e)
    | inr (r, e) ↦ elim (Option-cases (leave_remove p r s)) [
      | inl f ↦ ground (arith, e, f)
      | inr ((users, t), f) ↦ ground (arith, e, f)
    ]
  ]

  disconnect_halves :
      (p : String) (s : AppState)
      → (advance hmac
          (leave_ends 0)
          (advance hmac (disconnect_begins p) (record { state = s; leaving = [] }))).state
        ≡ handle_disconnect p s
  unfolding advance handle_disconnect
  disconnect_halves p s = elim (Option-cases (lookup p s.peers)) [
    | inl e ↦ ground (arith, e)
    | inr (session, e) ↦ elim (Option-cases session.room_id) [
      | inl f ↦ ground (arith, e, f)
      | inr (r, f) ↦
          elim (Option-cases (leave_remove p r (record s { peers = remove p s.peers }))) [
            | inl g ↦ ground (arith, e, f, g)
            | inr ((users, t), g) ↦ ground (arith, e, f, g)
          ]
    ]
  ]
