-- ===== src/Signaling/Turn/Examples.antt =====
-- The theorems on TURN at concrete inputs.
use ponswarp_signaling_rs.Common.{String, ◌≡◌, refl, [], ◌∷◌, true, All, arith}
use ponswarp_signaling_rs.Common.Decimal.{show_decimal}
use ponswarp_signaling_rs.Common.Text.{◌<>◌}
use ponswarp_signaling_rs.Signaling.{TurnConfig}
use ponswarp_signaling_rs.Signaling.Turn.{turn_urls, generate_credentials, validate_credentials}
use ponswarp_signaling_rs.Signaling.Turn.Credentials.{
  IsValidUntil, generate_credentials-IsValidUntil, validate_credentials-<>,
}

abbrev google : TurnConfig
google = record {
  url = "turn:localhost:3478";
  secret = "key";
  realm = "";
  enable_tls = true;
  enable_udp = true;
  enable_tcp = true;
  ports = record { udp = 3478; tcp = 3478; tls = 443 };
  credential_ttl = 600;
  fallback_servers = "stun:stun.l.google.com:19302" ∷ " " ∷ "relay.example.com" ∷ [];
}

turn_urls_test :
    turn_urls google "localhost" ≡ "turn:localhost:3478" ∷ "turns:localhost:443?transport=tcp" ∷ []
unfolding turn_urls ◌<>◌ show_decimal
turn_urls_test = refl

abbrev keyed : String → String → String
keyed username secret = secret

generate_credentials-IsValidUntil_example :
    All
      (λ server. IsValidUntil 1500 1600 server.username)
      (generate_credentials keyed 1000 255 google)
generate_credentials-IsValidUntil_example =
    generate_credentials-IsValidUntil keyed 1000 255 1500 google (omega arith)

validate_credentials-<>_example :
    validate_credentials 1000 ("nobody" <> ":" <> show_decimal 2000) ≡ true
validate_credentials-<>_example = validate_credentials-<> 1000 2000 "nobody" (omega arith)
