-- ===== src/Signaling/Turn/Schemes.antt =====
-- What `build_ice_servers` of src/handlers/turn.rs hands out.
use mathlib.Core.List.{map}
use ponswarp_signaling_rs.Common.{
  ℕ, String, Bool, true, false, ◌||◌, ◌≡◌, refl, ◌⊎◌, inl, inr, List, [], ◌∷◌, ◌++◌, Option, none,
  some, arith, if◌then◌else◌, Bool-cases, Option-cases, All, All-append, All-if, ◌==◌, string_eq,
  eq_iff,
}
use ponswarp_signaling_rs.Common.NameSet
use ponswarp_signaling_rs.Common.Text.{◌<>◌, is_empty, trim, starts_with}
use ponswarp_signaling_rs.Protocol.{IceServer}
use ponswarp_signaling_rs.Signaling.{TurnConfig}
use ponswarp_signaling_rs.Signaling.Turn.{
  turn_url, turns_url, stun_url, with_password, without_password, push_new, turn_urls,
  fallback_server, fallback_servers, build_ice_servers,
}
use ponswarp_signaling_rs.Signaling.Turn.Host.{normalize_turn_host}

-- A URL that a browser takes for a TURN server.
abbrev pub is_turn_url : String → Bool
is_turn_url url = starts_with "turn:" url || starts_with "turns:" url

-- A server has one URL; a STUN server has no credentials, and a TURN server has all of them.
abbrev pub IsStun : IceServer → Type 0
IsStun server = (url : String) × (starts_with "stun:" url ≡ true) × (server ≡ without_password url)

abbrev pub IsTurn : String → String → IceServer → Type 0
IsTurn username password server =
    (url : String) × (is_turn_url url ≡ true) × (server ≡ with_password username password url)

abbrev pub IsIceServer : String → String → IceServer → Type 0
IsIceServer username password server = IsStun server ⊎ IsTurn username password server

turn_url-is_turn_url : (host : String) (port : ℕ) → is_turn_url (turn_url host port) ≡ true
unfolding starts_with ◌<>◌
turn_url-is_turn_url host port = refl

turns_url-is_turn_url : (host : String) (port : ℕ) → is_turn_url (turns_url host port) ≡ true
unfolding starts_with ◌<>◌
turns_url-is_turn_url host port = refl

stun_url-starts_with : (host : String) (port : ℕ) → starts_with "stun:" (stun_url host port) ≡ true
unfolding starts_with ◌<>◌
stun_url-starts_with host port = refl

abbrev AreTurnUrls : List String → Type 0
AreTurnUrls urls = All (λ url. is_turn_url url ≡ true) urls

push_new-AreTurnUrls :
    (url : String) (urls : List String)
    → is_turn_url url ≡ true
    → AreTurnUrls urls
    → AreTurnUrls (push_new url urls)
unfolding push_new
push_new-AreTurnUrls url urls h k = elim (Bool-cases (NameSet.contains url urls)) [
  | inl e ↦ rw e k
  | inr e ↦ rw e (All-append (λ u. is_turn_url u ≡ true) urls (url ∷ []) k (h, tt))
]

turn_urls-AreTurnUrls : (config : TurnConfig) (host : String) → AreTurnUrls (turn_urls config host)
unfolding turn_urls
turn_urls-AreTurnUrls config host =
    let udp =
      All-if (λ url. is_turn_url url ≡ true) config.enable_udp _ []
        (turn_url-is_turn_url host config.ports.udp, tt) tt in
    let tcp =
      All-if (λ url. is_turn_url url ≡ true) config.enable_tcp _ _
        (push_new-AreTurnUrls _ _ (turn_url-is_turn_url host config.ports.tcp) udp) udp in
    All-if (λ url. is_turn_url url ≡ true) config.enable_tls _ _
      (push_new-AreTurnUrls _ _ (turns_url-is_turn_url host config.ports.tls) tcp) tcp

contains-append :
    (a b : String) (xs : List String)
    → NameSet.contains a (xs ++ b ∷ []) ≡ (NameSet.contains a xs || b == a)
unfolding NameSet.contains
contains-append a b [] = ground arith
contains-append a b (x ∷ xs) = ground (arith, contains-append a b xs)

append-Distinct :
    (b : String) (xs : List String)
    → NameSet.contains b xs ≡ false
    → NameSet.Distinct xs
    → NameSet.Distinct (xs ++ b ∷ [])
unfolding NameSet.contains
append-Distinct b [] h d = (refl, tt)
append-Distinct b (x ∷ xs) h (new, d) =
    ground (arith, append-Distinct b xs, contains-append x b xs, eq_iff b x, eq_iff x b)

push_new-Distinct :
    (url : String) (urls : List String)
    → NameSet.Distinct urls
    → NameSet.Distinct (push_new url urls)
unfolding push_new
push_new-Distinct url urls d = ground (arith, append-Distinct url urls)

-- No TURN URL is handed out twice, also where ports coincide.
pub turn_urls-Distinct :
    (config : TurnConfig) (host : String) → NameSet.Distinct (turn_urls config host)
unfolding turn_urls NameSet.contains
turn_urls-Distinct config host = grind (arith, push_new-Distinct)

module _ (config : TurnConfig) (username password : String) where
  -- A fallback entry gives a server of the right kind, if it gives one.
  abbrev IsFallback : Option IceServer → Type 0
  IsFallback none = Unit
  IsFallback (some server) = IsIceServer username password server

  composed-is_turn_url :
      (fallback : String)
      → is_turn_url (
          if config.enable_tls
          then turns_url fallback config.ports.tls
          else turn_url fallback config.ports.udp)
        ≡ true
  composed-is_turn_url fallback = elim (Bool-cases config.enable_tls) [
    | inl e ↦ rw e (turns_url-is_turn_url fallback config.ports.tls)
    | inr e ↦ rw e (turn_url-is_turn_url fallback config.ports.udp)
  ]

  fallback_server-IsFallback :
      (entry : String) → IsFallback (fallback_server config username password entry)
  unfolding fallback_server
  fallback_server-IsFallback entry =
      let fallback = trim entry in
      elim (Bool-cases (is_empty fallback)) [
        | inl e ↦ rw e tt
        | inr e ↦ elim (Bool-cases (starts_with "stun:" fallback)) [
          | inl f ↦ rw (e, f) (inl (fallback, f, refl))
          | inr f ↦ elim (Bool-cases (is_turn_url fallback)) [
            | inl g ↦ rw (e, f, g) (inr (fallback, g, refl))
            | inr g ↦ rw (e, f, g) (inr (_, composed-is_turn_url fallback, refl))
          ]
        ]
      ]

  fallback_servers-All :
      (entries : List String)
      → All (IsIceServer username password) (fallback_servers config username password entries)
  unfolding fallback_servers
  fallback_servers-All [] = tt
  fallback_servers-All (entry ∷ entries) =
      let one = fallback_server-IsFallback entry in
      let rest = fallback_servers-All entries in
      elim (Option-cases (fallback_server config username password entry)) [
        | inl e ↦ rw (e, fallback_servers) rest
        | inr (server, e) ↦ rw (e, fallback_servers) (rw e at one, rest)
      ]

  map-All :
      (urls : List String)
      → AreTurnUrls urls
      → All (IsIceServer username password) (map (with_password username password) urls)
  map-All [] h = tt
  map-All (url ∷ urls) (h, hs) = (inr (url, h, refl), map-All urls hs)

  -- Every ICE server that is handed out has exactly one URL, and is either a STUN server, whose
  -- URL begins with `stun:` and which carries no credentials, or a TURN server, whose URL begins
  -- with `turn:` or `turns:` and which carries the user name and the password. This holds for the
  -- server of the configuration and for every fallback entry, whatever it says.
  pub build_ice_servers-All :
      All (IsIceServer username password) (build_ice_servers config username password)
  unfolding build_ice_servers
  build_ice_servers-All =
      let host = normalize_turn_host config.url in
      let P = IsIceServer username password in
      All-append P _ _ (map-All _ (turn_urls-AreTurnUrls config host)) (
        All-append P _ _ (fallback_servers-All config.fallback_servers) (
          All-if P config.enable_udp _ []
            (inl (_, stun_url-starts_with host config.ports.udp, refl), tt) tt))
