-- ===== src/Signaling/Turn/Host.antt =====
-- The host of a TURN URL, of `normalize_turn_host` in src/handlers/turn.rs, and the operations on
-- texts that it uses.
use Prim.Native.Char.{code}
use Prim.Native.String.{[], ◌∷◌}
use ponswarp_signaling_rs.Common.{
  ℕ, suc, String, ◌&&◌, Option, none, some, nat_beq, if◌then◌else◌, unwrap_or, ◌≡◌, refl,
}
use ponswarp_signaling_rs.Common.Decimal.{parse_unsigned}
use ponswarp_signaling_rs.Common.Text.{trim, strip_prefix, starts_with}

-- `s.split(c).next()`: the text in front of the first `c`, all of it if there is none.
unfoldable pub before_first : ℕ → String → String
before_first c [] = []
before_first c (d ∷ s) = if nat_beq (code d) c then [] else d ∷ before_first c s

-- `s.rsplit_once(c)`: the texts around the last `c`.
unfoldable pub rsplit_once : ℕ → String → Option (String × String)
rsplit_once c [] = none
rsplit_once c (d ∷ s) = elim (rsplit_once c s) [
  | none ↦ if nat_beq (code d) c then some ([], s) else none
  | some (l, r) ↦ some (d ∷ l, r)
]

-- `s.split(c).next_back()`.
unfoldable pub last_segment : ℕ → String → String
unfolding rsplit_once
last_segment c s = elim (rsplit_once c s) [ none ↦ s | some (l, r) ↦ r ]

-- `s.matches(c).count()`.
unfoldable pub count_char : ℕ → String → ℕ
count_char c [] = 0
count_char c (d ∷ s) = if nat_beq (code d) c then suc (count_char c s) else count_char c s

-- `s[..=s.find(c)]`: up to the first `c` and with it, if there is one.
unfoldable pub through_first : ℕ → String → Option String
through_first c [] = none
through_first c (d ∷ s) =
    if nat_beq (code d) c
    then some (d ∷ [])
    else elim (through_first c s) [ none ↦ none | some t ↦ some (d ∷ t) ]

-- `s.trim_start_matches("//")`.
unfoldable pub trim_slashes : String → String
trim_slashes [] = []
trim_slashes (c ∷ []) = c ∷ []
trim_slashes (c ∷ d ∷ s) =
    if nat_beq (code c) b'/' && nat_beq (code d) b'/' then trim_slashes s else c ∷ d ∷ s

abbrev pub u16_max : ℕ
u16_max = 65535

-- `.or_else`, on the scheme that stands in front.
unfoldable pub strip_scheme : String → String
unfolding strip_prefix
strip_scheme s = elim (strip_prefix "turns:" s) [
  | some rest ↦ rest
  | none ↦ elim (strip_prefix "turn:" s) [
    | some rest ↦ rest
    | none ↦ unwrap_or (strip_prefix "stun:" s) s
  ]
]

-- The last step: a port behind the only colon is cut off.
unfoldable pub strip_port : String → String
unfolding count_char rsplit_once parse_unsigned
strip_port host =
    if nat_beq (count_char b':' host) 1
    then elim (rsplit_once b':' host) [
      | none ↦ host
      | some (candidate_host, candidate_port) ↦ elim (parse_unsigned u16_max candidate_port) [
        | none ↦ host
        | some port ↦ candidate_host
      ]
    ]
    else host

unfoldable pub normalize_turn_host : String → String
normalize_turn_host raw =
    let host = trim_slashes (before_first b'?' (strip_scheme (trim raw))) in
    let bracketed = if starts_with "[" host then through_first b']' host else none in
    elim bracketed [ some address ↦ address | none ↦ strip_port host ]

hosts :
    (normalize_turn_host "turn:localhost:3478" ≡ "localhost")
    × (normalize_turn_host " turns:ponslink.com:443?transport=tcp" ≡ "ponslink.com")
    × (normalize_turn_host "//[::1]:3478" ≡ "[::1]")
    × (normalize_turn_host "fe80::1" ≡ "fe80::1")
unfolding normalize_turn_host trim strip_scheme before_first trim_slashes starts_with through_first
    strip_port
hosts = (refl, refl, refl, refl)
