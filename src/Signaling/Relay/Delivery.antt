-- ===== src/Signaling/Relay/Delivery.antt =====
-- Who receives a relayed signal, and that relaying moves nobody.
use ponswarp_signaling_rs.Common.{
  String, ◌≡◌, refl, Option, none, some, List, [], ◌∷◌, ◌++◌, ◌==◌, string_eq, inl, inr,
  Option-cases, Bool-cases,
}
use ponswarp_signaling_rs.Common.Map.{lookup}
use ponswarp_signaling_rs.Common.NameSet
use ponswarp_signaling_rs.Protocol.{ServerMessage}
use ponswarp_signaling_rs.Signaling.{AppState, Room, Task, send_to_peer, send_to_all}
use ponswarp_signaling_rs.Signaling.Frame.{
  SameState, SameState-refl, deliveries, send_to_peer-SameState, send_to_all-SameState,
  send_to_peer-sent, send_to_all-sent,
}
use ponswarp_signaling_rs.Signaling.Relay.{
  send_to_others, broadcast_to_room_except, relay, run_task, completion, handle_offer,
  handle_answer, handle_ice_candidate, handle_manifest, handle_transfer_ready,
  handle_transfer_complete,
}

-- The loop that skips a peer is the plain loop over the others.
send_to_others-remove :
    (users : List String) (except : String) (message : ServerMessage) (s : AppState)
    → send_to_others users except message s ≡ send_to_all (NameSet.remove except users) message s
unfolding send_to_others send_to_all NameSet.remove
send_to_others-remove [] except message s = refl
send_to_others-remove (q ∷ users) except message s = elim (Bool-cases (q == except)) [
  | inl e ↦ rw e (send_to_others-remove users except message s)
  | inr e ↦ rw e (send_to_others-remove users except message (send_to_peer q message s))
]

pub broadcast_to_room_except-SameState :
    (r except : String) (message : ServerMessage) (s : AppState)
    → SameState s (broadcast_to_room_except r except message s)
unfolding broadcast_to_room_except
broadcast_to_room_except-SameState r except message s = elim (Option-cases (lookup r s.rooms)) [
  | inl e ↦ rw (e, broadcast_to_room_except) (SameState-refl s)
  | inr (room, e) ↦
      rw (e, broadcast_to_room_except, send_to_others-remove room.users except message s)
        (send_to_all-SameState (NameSet.remove except room.users) message s)
]

pub relay-SameState :
    (from r : String) (message : ServerMessage) (target : Option String) (s : AppState)
    → SameState s (relay from r message target s)
unfolding relay
relay-SameState from r message none s = broadcast_to_room_except-SameState r from message s
relay-SameState from r message (some target) s = send_to_peer-SameState target message s

broadcast_to_room_except-sent :
    (r except : String) (message : ServerMessage) (s : AppState) (room : Room)
    → lookup r s.rooms ≡ some room
    → (broadcast_to_room_except r except message s).sent
      ≡ s.sent ++ deliveries s.peers (NameSet.remove except room.users) message
unfolding broadcast_to_room_except
broadcast_to_room_except-sent r except message s room e =
    rw (e, broadcast_to_room_except, send_to_others-remove room.users except message s)
      (send_to_all-sent (NameSet.remove except room.users) message s)

-- Those that a signal goes to: the target if one is named, and otherwise the room without the
-- peer that sends it.
abbrev pub recipients : String → Option Room → Option String → List String
recipients from room (some target) = target ∷ []
recipients from none none = []
recipients from (some room) none = NameSet.remove from room.users

relay_sent :
    (from r : String) (message : ServerMessage) (target : Option String) (s : AppState)
    → (relay from r message target s).sent
      ≡ s.sent ++ deliveries s.peers (recipients from (lookup r s.rooms) target) message
unfolding relay send_to_all
relay_sent from r message (some target) s = send_to_peer-sent target message s
relay_sent from r message none s = elim (Option-cases (lookup r s.rooms)) [
  | inl e ↦ rw (e, broadcast_to_room_except) (send_to_all-sent [] message s)
  | inr (room, e) ↦ rw e (broadcast_to_room_except-sent r from message s room e)
]

-- An offer, an answer, an ICE candidate, a manifest and a ready signal all go, once each and with
-- the sender's name in them, to the recipients that are connected, and to nobody else: to the
-- target if one is named, and otherwise to the users of the room but the sender.
pub handlers_sent :
    (from r text : String) (target : Option String) (s : AppState)
    → let to = deliveries s.peers (recipients from (lookup r s.rooms) target) in
      ((handle_offer from r text target s).sent ≡ s.sent ++ to (ServerMessage.offer from text))
      × ((handle_answer from r text target s).sent ≡ s.sent ++ to (ServerMessage.answer from text))
      × ((handle_ice_candidate from r text target s).sent
          ≡ s.sent ++ to (ServerMessage.ice_candidate from text))
      × ((handle_manifest from r text target s).sent
          ≡ s.sent ++ to (ServerMessage.manifest from text))
      × ((handle_transfer_ready from r target s).sent
          ≡ s.sent ++ to (ServerMessage.transfer_ready from))
unfolding handle_offer handle_answer handle_ice_candidate handle_manifest handle_transfer_ready
handlers_sent from r text target s = (
  relay_sent from r _ target s,
  relay_sent from r _ target s,
  relay_sent from r _ target s,
  relay_sent from r _ target s,
  relay_sent from r _ target s,
)

-- A completion signal with a target goes to the target at once. Without one it sends nothing yet
-- and leaves one task behind, and that task, in whatever state it runs, sends the signal once to
-- each connected user that the room then has, but the sender.
pub transfer_complete_sent :
    (from r target : String) (s later : AppState)
    → ((handle_transfer_complete from r (some target) s).sent
        ≡ s.sent ++ deliveries s.peers (target ∷ []) (ServerMessage.transfer_complete from))
      × ((handle_transfer_complete from r none s).sent ≡ s.sent)
      × ((handle_transfer_complete from r none s).tasks ≡ s.tasks ++ completion from r ∷ [])
      × ((run_task (completion from r) later).sent
          ≡ later.sent
            ++ deliveries later.peers
                (recipients from (lookup r later.rooms) none)
                (ServerMessage.transfer_complete from))
unfolding handle_transfer_complete lookup relay
transfer_complete_sent from r target s later = (
  send_to_peer-sent target (ServerMessage.transfer_complete from) s,
  refl,
  refl,
  unfold run_task in relay_sent from r (ServerMessage.transfer_complete from) none later,
)

pub run_task-SameState : (task : Task) (s : AppState) → SameState s (run_task task s)
unfolding run_task
run_task-SameState task s = broadcast_to_room_except-SameState task.room_id task.from task.message s
