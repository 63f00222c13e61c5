-- ===== src/Signaling/Turn/Credentials.antt =====
-- The user names that the server issues, and what `validate_credentials` reads of a user name.
use Prim.Native.Char.{Char, code}
use Prim.Native.String.{[], ◌∷◌}
use ponswarp_signaling_rs.Common.{
  ℕ, ◌+◌, ◌%◌, ◌<◌, ◌≤◌, String, Bool, true, not, ◌≡◌, refl, inl, inr, Option, none, some, arith,
  ltb, nat_beq, All, All-mono,
}
use ponswarp_signaling_rs.Common.Decimal.{show_decimal}
use ponswarp_signaling_rs.Common.Decimal.RoundTrip.{
  AllCodes, show_decimal-AllCodes, parse_unsigned-show_decimal,
}
use ponswarp_signaling_rs.Common.Text.{◌<>◌}
use ponswarp_signaling_rs.Protocol.{IceServer}
use ponswarp_signaling_rs.Signaling.{TurnConfig}
use ponswarp_signaling_rs.Signaling.Turn.{
  u64_mod, u64_max, credential_username, generate_credentials, build_ice_servers,
  validate_credentials,
}
use ponswarp_signaling_rs.Signaling.Turn.Host.{rsplit_once, last_segment}
use ponswarp_signaling_rs.Signaling.Turn.Schemes.{IsIceServer, build_ice_servers-All}

-- The codes other than `c`.
abbrev pub is_not : ℕ → ℕ → Bool
is_not c n = not (nat_beq n c)

pub rsplit_once-eq-none :
    (c : ℕ) (digits : (d : ℕ) → d < 10 → is_not c (b'0' + d) ≡ true) (s : String)
    → AllCodes (is_not c) digits s
    → rsplit_once c s ≡ none
unfolding rsplit_once
rsplit_once-eq-none c digits [] h = refl
rsplit_once-eq-none c digits (d ∷ s) (h, hs) =
    let rest = rsplit_once-eq-none c digits s hs in rw rest (ground arith)

-- The split at the last `c` of a text, where the part behind it has none.
pub rsplit_once-<> :
    (c : ℕ) (x : String) (d : Char) (y : String)
    → nat_beq (code d) c ≡ true
    → rsplit_once c y ≡ none
    → rsplit_once c (x <> (d ∷ y)) ≡ some (x, y)
unfolding rsplit_once ◌<>◌
rsplit_once-<> c [] d y h e = rw (e, rsplit_once) (rw h)
rsplit_once-<> c (b ∷ x) d y h e = rw (rsplit_once-<> c x d y h e)

pub digits_not_colon : (d : ℕ) → d < 10 → is_not b':' (b'0' + d) ≡ true
digits_not_colon d h = ground arith

last_segment-<> :
    (x : String) (n : ℕ) → last_segment b':' (x <> ":" <> show_decimal n) ≡ show_decimal n
unfolding last_segment ◌<>◌ show_decimal
last_segment-<> x n = rw (
  rsplit_once-<> b':' x ":" (show_decimal n) refl (
      rsplit_once-eq-none b':' digits_not_colon (show_decimal n)
        (show_decimal-AllCodes (is_not b':') digits_not_colon n)),
  last_segment,
)

-- Whatever stands before the last colon, a user name is valid until the time behind it: the
-- check reads no secret, no digest and no other part of the name.
pub validate_credentials-<> :
    (now expiry_time : ℕ) (anything : String)
    → expiry_time ≤ u64_max
    → validate_credentials now (anything <> ":" <> show_decimal expiry_time) ≡ ltb now expiry_time
unfolding validate_credentials
validate_credentials-<> now expiry_time anything h = rw (
  last_segment-<> anything expiry_time,
  parse_unsigned-show_decimal u64_max expiry_time h,
  validate_credentials,
)

-- What a server with credentials is asked.
abbrev pub IsValidUntil : ℕ → ℕ → Option String → Type 0
IsValidUntil later expiry_time none = Unit
IsValidUntil later expiry_time (some username) =
    validate_credentials later username ≡ ltb later expiry_time

ice_server-IsValidUntil :
    (later now random expiry_time : ℕ) (password : String) (server : IceServer)
    → expiry_time ≤ u64_max
    → IsIceServer (credential_username now random expiry_time) password server
    → IsValidUntil later expiry_time server.username
unfolding credential_username
ice_server-IsValidUntil later now random expiry_time password server h (inl (url, _, e)) = rw e tt
ice_server-IsValidUntil later now random expiry_time password server h (inr (url, _, e)) =
    rw e (validate_credentials-<> later expiry_time _ h)

-- Every user name that the server issues at time `now` is found valid at a time exactly when that
-- time is before `now` plus the configured lifetime, where this sum fits 64 bits; the servers
-- that are handed out without a user name need none.
pub generate_credentials-IsValidUntil :
    (hmac : String → String → String) (now random later : ℕ) (config : TurnConfig)
    → now + config.credential_ttl < u64_mod
    → All
        (λ server. IsValidUntil later (now + config.credential_ttl) server.username)
        (generate_credentials hmac now random config)
unfolding generate_credentials
generate_credentials-IsValidUntil hmac now random later config h =
    let fits : (now + config.credential_ttl) % u64_mod ≡ now + config.credential_ttl =
      omega arith in
    let username = credential_username now random (now + config.credential_ttl) in
    let password = hmac username config.secret in
    rw fits (
      All-mono (IsIceServer username password)
        (λ server. IsValidUntil later (now + config.credential_ttl) server.username)
        (λ server.
          ice_server-IsValidUntil later now random (now + config.credential_ttl) password server
            (omega arith))
        (build_ice_servers config username password)
        (build_ice_servers-All config username password))
