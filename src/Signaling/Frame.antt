-- ===== src/Signaling/Frame.antt =====
-- What sending messages leaves alone, and what it appends to the log.
use mathlib.Core.List.{append_assoc, append-nil}
use ponswarp_signaling_rs.Common.{
  ℕ, String, ◌≡◌, refl, ◌∙◌, List, [], ◌∷◌, ◌++◌, none, some, arith, string_eq,
}
use ponswarp_signaling_rs.Common.Map.{Map, lookup}
use ponswarp_signaling_rs.Protocol.{ServerMessage}
use ponswarp_signaling_rs.Signaling.{AppState, PeerSession, send_to_peer, send_to_all}

-- All but the log is as in `s`.
pub record SameState (s t : AppState) : Type 0 where
  pub rooms : t.rooms ≡ s.rooms
  pub peers : t.peers ≡ s.peers
  pub config : t.config ≡ s.config
  pub tasks : t.tasks ≡ s.tasks

pub SameState-refl : (s : AppState) → SameState s s
SameState-refl s = record { rooms = refl; peers = refl; config = refl; tasks = refl }

pub SameState-trans : {s t u : AppState} → SameState s t → SameState t u → SameState s u
SameState-trans h k = record {
  rooms = k.rooms ∙ h.rooms;
  peers = k.peers ∙ h.peers;
  config = k.config ∙ h.config;
  tasks = k.tasks ∙ h.tasks;
}

-- What a message to a list of peers puts on the channels: one copy for each that is connected.
unfoldable pub deliveries :
    Map String PeerSession → List String → ServerMessage → List (ℕ × ServerMessage)
deliveries peers [] message = []
deliveries peers (p ∷ ps) message = elim (lookup p peers) [
  | none ↦ deliveries peers ps message
  | some session ↦ (session.sender, message) ∷ deliveries peers ps message
]

pub send_to_peer-SameState :
    (p : String) (message : ServerMessage) (s : AppState) → SameState s (send_to_peer p message s)
unfolding send_to_peer
send_to_peer-SameState p message s = ground arith

pub send_to_all-SameState :
    (ps : List String) (message : ServerMessage) (s : AppState)
    → SameState s (send_to_all ps message s)
unfolding send_to_all
send_to_all-SameState [] message s = SameState-refl s
send_to_all-SameState (p ∷ ps) message s =
    SameState-trans (send_to_peer-SameState p message s)
      (send_to_all-SameState ps message (send_to_peer p message s))

pub send_to_peer-sent :
    (p : String) (message : ServerMessage) (s : AppState)
    → (send_to_peer p message s).sent ≡ s.sent ++ deliveries s.peers (p ∷ []) message
unfolding send_to_peer deliveries
send_to_peer-sent p message s = ground (arith, append-nil s.sent)

pub deliveries-cons :
    (peers : Map String PeerSession) (p : String) (ps : List String) (message : ServerMessage)
    → deliveries peers (p ∷ ps) message
      ≡ deliveries peers (p ∷ []) message ++ deliveries peers ps message
unfolding deliveries
deliveries-cons peers p ps message = ground arith

pub deliveries-nil :
    (peers : Map String PeerSession) (message : ServerMessage) → deliveries peers [] message ≡ []
unfolding deliveries
deliveries-nil peers message = refl

pub send_to_all-sent :
    (ps : List String) (message : ServerMessage) (s : AppState)
    → (send_to_all ps message s).sent ≡ s.sent ++ deliveries s.peers ps message
unfolding send_to_all
send_to_all-sent [] message s = rw (deliveries-nil, append-nil)
send_to_all-sent (p ∷ ps) message s =
    send_to_all-sent ps message (send_to_peer p message s)
    ∙ rw
        (
          (send_to_peer-SameState p message s).peers,
          send_to_peer-sent p message s,
          deliveries-cons s.peers p ps message,
        )
        (append_assoc s.sent _ _)
