-- ===== src/Signaling/Turn.antt =====
-- TURN credentials and the list of ICE servers, of src/handlers/turn.rs.
--
-- HMAC-SHA1 and Base64 come from third-party crates: `hmac username secret` stands for
-- `generate_hmac_hash`, the Base64 text of the digest. The Unix time in seconds and the random
-- number of a request are arguments.
pub mod Host
pub mod Schemes
pub mod Credentials
pub mod Plain
mod Examples
use mathlib.Core.List.{map}
use ponswarp_signaling_rs.Common.{
  ℕ, ◌+◌, ◌-◌, ◌%◌, ◌^◌, String, Bool, true, false, ◌||◌, List, [], ◌∷◌, ◌++◌, Option, none, some,
  ltb, if◌then◌else◌,
}
use ponswarp_signaling_rs.Common.Decimal.{show_decimal, show_hex, parse_unsigned}
use ponswarp_signaling_rs.Common.NameSet.{contains}
use ponswarp_signaling_rs.Common.Text.{◌<>◌, is_empty, trim, starts_with}
use ponswarp_signaling_rs.Protocol.{IceServer, TurnConfigData, turn_config}
use ponswarp_signaling_rs.Signaling.{AppState, TurnConfig, send}
use Host.{last_segment, normalize_turn_host}

abbrev pub u64_mod : ℕ
u64_mod = 2 ^ 64

abbrev pub u64_max : ℕ
u64_max = u64_mod - 1

-- The URL templates.
abbrev pub turn_url : String → ℕ → String
turn_url host port = "turn:" <> host <> ":" <> show_decimal port

abbrev pub turns_url : String → ℕ → String
turns_url host port = "turns:" <> host <> ":" <> show_decimal port <> "?transport=tcp"

abbrev pub stun_url : String → ℕ → String
stun_url host port = "stun:" <> host <> ":" <> show_decimal port

abbrev pub with_password : String → String → String → IceServer
with_password username password url = record {
  urls = url ∷ [];
  username = some username;
  credential = some password;
  credential_type = some "password";
}

abbrev pub without_password : String → IceServer
without_password url = record {
  urls = url ∷ [];
  username = none;
  credential = none;
  credential_type = none;
}

-- `if !turn_urls.contains(&url) { turn_urls.push(url) }`
unfoldable pub push_new : String → List String → List String
unfolding contains
push_new url urls = if contains url urls then urls else urls ++ (url ∷ [])

unfoldable pub turn_urls : TurnConfig → String → List String
unfolding push_new
turn_urls config host =
    let udp = if config.enable_udp then turn_url host config.ports.udp ∷ [] else [] in
    let tcp = if config.enable_tcp then push_new (turn_url host config.ports.tcp) udp else udp in
    if config.enable_tls then push_new (turns_url host config.ports.tls) tcp else tcp

-- One round of the loop over the fallback servers; a blank entry adds nothing.
unfoldable pub fallback_server : TurnConfig → String → String → String → Option IceServer
unfolding trim is_empty starts_with
fallback_server config username password entry =
    let fallback = trim entry in
    if is_empty fallback
    then none
    else if starts_with "stun:" fallback
    then some (without_password fallback)
    else if starts_with "turn:" fallback || starts_with "turns:" fallback
    then some (with_password username password fallback)
    else some (
        with_password username password (
          if config.enable_tls
          then turns_url fallback config.ports.tls
          else turn_url fallback config.ports.udp))

unfoldable pub fallback_servers : TurnConfig → String → String → List String → List IceServer
unfolding fallback_server
fallback_servers config username password [] = []
fallback_servers config username password (entry ∷ rest) =
    let servers = fallback_servers config username password rest in
    elim (fallback_server config username password entry) [
      | none ↦ servers
      | some server ↦ server ∷ servers
    ]

unfoldable pub build_ice_servers : TurnConfig → String → String → List IceServer
unfolding normalize_turn_host turn_urls fallback_servers
build_ice_servers config username password =
    let host = normalize_turn_host config.url in
    map (with_password username password) (turn_urls config host)
    ++ (fallback_servers config username password config.fallback_servers
        ++ (if config.enable_udp
            then without_password (stun_url host config.ports.udp) ∷ []
            else []))

-- `format!("{}:{}", format!("user_{}_{:x}", now, random), expiry_time)`
unfoldable pub credential_username : ℕ → ℕ → ℕ → String
credential_username now random expiry_time =
    ("user_" <> show_decimal now <> "_" <> show_hex random) <> ":" <> show_decimal expiry_time

module _ (hmac : String → String → String) where
  -- The sum of the expiry time wraps, as `u64` addition does in a release build.
  unfoldable pub generate_credentials : ℕ → ℕ → TurnConfig → List IceServer
  unfolding credential_username build_ice_servers
  generate_credentials now random config =
      let expiry_time = (now + config.credential_ttl) % u64_mod in
      let username = credential_username now random expiry_time in
      build_ice_servers config username (hmac username config.secret)

  -- `now` is the clock when the credentials are made, `later` when the answer is.
  unfoldable pub handle_turn_config_request : ℕ → ℕ → ℕ → ℕ → String → AppState → AppState
  unfolding is_empty generate_credentials
  handle_turn_config_request now later random sender room_id s =
      let config = s.config.turn in
      if is_empty config.url || is_empty config.secret
      then send sender (turn_config false none (some "TURN server not configured")) s
      else send sender
          (turn_config true
            (some (record {
              ice_servers = generate_credentials now random config;
              ttl = config.credential_ttl;
              timestamp = later;
              room_id = room_id;
            }))
            none)
          s

unfoldable pub validate_credentials : ℕ → String → Bool
unfolding last_segment parse_unsigned
validate_credentials now username = elim (parse_unsigned u64_max (last_segment b':' username)) [
  | none ↦ false
  | some expiry_time ↦ ltb now expiry_time
]
