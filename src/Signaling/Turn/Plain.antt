-- ===== src/Signaling/Turn/Plain.antt =====
-- `normalize_turn_host` of src/handlers/turn.rs on plain host names.
use Prim.Native.Char.{code}
use Prim.Native.String.{[], ◌∷◌}
use ponswarp_signaling_rs.Common.{
  ℕ, ◌+◌, ◌<◌, ◌≤◌, String, Bool, true, false, not, ◌&&◌, ◌≡◌, refl, ◌∙◌, ap, none, some, arith,
  nat_beq,
}
use ponswarp_signaling_rs.Common.Decimal.{show_decimal}
use ponswarp_signaling_rs.Common.Decimal.RoundTrip.{
  AllCodes, show_decimal-AllCodes, parse_unsigned-show_decimal,
}
use ponswarp_signaling_rs.Common.Text.{
  ◌<>◌, trim, trim_start, trim_end, is_whitespace, is_space, strip_prefix, starts_with,
}
use ponswarp_signaling_rs.Signaling.Turn.Credentials.{
  is_not, rsplit_once-<>, rsplit_once-eq-none, digits_not_colon,
}
use ponswarp_signaling_rs.Signaling.Turn.Host.{
  u16_max, before_first, rsplit_once, count_char, trim_slashes, strip_scheme, strip_port,
  normalize_turn_host,
}

-- The codes that have no meaning in a TURN URL but as a part of the host or as a colon: no white
-- space and none of `?/[`.
abbrev pub is_tame : ℕ → Bool
is_tame n = not (is_space n) && not (nat_beq n b'?') && not (nat_beq n b'/') && not (nat_beq n b'[')

abbrev IsTame : String → Type 0
IsTame [] = Unit
IsTame (c ∷ s) = (is_tame (code c) ≡ true) × IsTame s

-- A host name of such characters, without a colon.
abbrev pub IsPlain : String → Type 0
IsPlain [] = Unit
IsPlain (c ∷ s) = (is_tame (code c) ≡ true) × (nat_beq (code c) b':' ≡ false) × IsPlain s

plain-IsTame : (s : String) → IsPlain s → IsTame s
plain-IsTame [] h = tt
plain-IsTame (c ∷ s) (h, _, hs) = (h, plain-IsTame s hs)

append-IsTame : (s t : String) → IsTame s → IsTame t → IsTame (s <> t)
unfolding ◌<>◌
append-IsTame [] t h k = k
append-IsTame (c ∷ s) t (h, hs) k = (h, append-IsTame s t hs k)

digits_tame : (d : ℕ) → d < 10 → is_tame (b'0' + d) ≡ true
unfolding is_space
digits_tame d h = ground arith

codes-IsTame : (s : String) → AllCodes is_tame digits_tame s → IsTame s
codes-IsTame [] h = tt
codes-IsTame (c ∷ s) (h, hs) = (h, codes-IsTame s hs)

port-IsTame : (n : ℕ) → IsTame (show_decimal n)
port-IsTame n = codes-IsTame (show_decimal n) (show_decimal-AllCodes is_tame digits_tame n)

-- On tame texts nothing is trimmed, cut off or taken for a bracket.
trim_end_tame : (s : String) → IsTame s → trim_end s ≡ s
unfolding trim_end is_whitespace
trim_end_tame [] h = refl
trim_end_tame (c ∷ s) (h, hs) = rw (trim_end_tame s hs) (ground arith)

-- The first character is kept.
trim_start_tame : (s : String) → IsTame s → trim_start s ≡ s
unfolding trim_start is_whitespace
trim_start_tame [] h = refl
trim_start_tame (c ∷ s) (h, hs) = ground arith

trim_tame : (s : String) → IsTame s → trim s ≡ s
unfolding trim
trim_tame s h = ap trim_end (trim_start_tame s h) ∙ trim_end_tame s h

before_first_tame : (s : String) → IsTame s → before_first b'?' s ≡ s
unfolding before_first
before_first_tame [] h = refl
before_first_tame (c ∷ s) (h, hs) = ground (arith, before_first_tame s hs)

trim_slashes_tame : (s : String) → IsTame s → trim_slashes s ≡ s
unfolding trim_slashes
trim_slashes_tame [] h = refl
trim_slashes_tame (c ∷ []) h = refl
trim_slashes_tame (c ∷ d ∷ s) (h, (k, hs)) = ground arith

no_bracket : (s : String) → IsTame s → starts_with "[" s ≡ false
unfolding starts_with
no_bracket [] h = refl
no_bracket (c ∷ s) (h, hs) = ground arith

-- What is left to do for a text that is tame once its scheme is cut off.
normalize_tame :
    (raw s : String)
    → trim raw ≡ raw
    → strip_scheme raw ≡ s
    → IsTame s
    → normalize_turn_host raw ≡ strip_port s
unfolding normalize_turn_host
normalize_tame raw s t e h =
    let cut : trim_slashes (before_first b'?' (strip_scheme (trim raw))) ≡ s =
      rw (t, e, before_first_tame s h, trim_slashes_tame s h) in
    rw (cut, normalize_turn_host) (rw (no_bracket s h) (ap strip_port cut))

count_char_plain : (s : String) → IsPlain s → count_char b':' s ≡ 0
unfolding count_char
count_char_plain [] h = refl
count_char_plain (c ∷ s) (_, h, hs) = rw h (count_char_plain s hs)

count_char-<> : (c : ℕ) (s t : String) → count_char c (s <> t) ≡ count_char c s + count_char c t
unfolding count_char ◌<>◌
count_char-<> c [] t = omega arith
count_char-<> c (d ∷ s) t = ground (arith, count_char-<> c s t)

strip_prefix_plain : (p s : String) → IsPlain s → strip_prefix (p <> ":") s ≡ none
unfolding strip_prefix ◌<>◌
strip_prefix_plain [] [] h = refl
strip_prefix_plain [] (c ∷ s) (_, h, _) = ground arith
strip_prefix_plain (d ∷ p) [] h = refl
strip_prefix_plain (d ∷ p) (c ∷ s) (_, _, hs) = ground (arith, strip_prefix_plain p s hs)

strip_scheme_plain : (s : String) → IsPlain s → strip_scheme s ≡ s
unfolding strip_scheme ◌<>◌
strip_scheme_plain s h = ground (
  arith,
  strip_prefix_plain "turns" s h,
  strip_prefix_plain "turn" s h,
  strip_prefix_plain "stun" s h,
)

strip_port_plain : (s : String) → IsPlain s → strip_port s ≡ s
unfolding strip_port
strip_port_plain s h = rw (count_char_plain s h)

digits_no_colon : (n : ℕ) → rsplit_once b':' (show_decimal n) ≡ none
digits_no_colon n =
    rsplit_once-eq-none b':' digits_not_colon (show_decimal n)
      (show_decimal-AllCodes (is_not b':') digits_not_colon n)

count_char-none : (c : ℕ) (s : String) → rsplit_once c s ≡ none → count_char c s ≡ 0
unfolding rsplit_once count_char
count_char-none c [] h = refl
count_char-none c (d ∷ s) h = ground (arith, count_char-none c s)

-- The text behind the scheme, with a port.
with_port : String → ℕ → String
with_port host port = host <> ":" <> show_decimal port

strip_port-with_port :
    (host : String) (port : ℕ)
    → IsPlain host
    → port ≤ u16_max
    → strip_port (with_port host port) ≡ host
unfolding strip_port with_port
strip_port-with_port host port h fits =
    let one : count_char b':' (host <> ":" <> show_decimal port) ≡ 1 =
      (unfold count_char ◌<>◌ in
        omega (
          arith,
          count_char-<> b':' host (":" <> show_decimal port),
          count_char_plain host h,
          count_char-none b':' (show_decimal port) (digits_no_colon port),
        )) in
    let parts : rsplit_once b':' (host <> ":" <> show_decimal port)
        ≡ some (host, show_decimal port) =
      (unfold ◌<>◌ in
        rsplit_once-<> b':' host ":" (show_decimal port) refl (digits_no_colon port)) in
    rw (one, parts, parse_unsigned-show_decimal u16_max port fits, strip_port)

with_port-IsTame : (host : String) (port : ℕ) → IsPlain host → IsTame (with_port host port)
unfolding with_port
with_port-IsTame host port h =
    append-IsTame host (":" <> show_decimal port) (plain-IsTame host h)
      (append-IsTame ":" (show_decimal port) (unfold is_space in (refl, tt)) (port-IsTame port))

behind_scheme :
    (scheme host : String) (port : ℕ)
    → IsPlain host
    → port ≤ u16_max
    → IsTame scheme
    → strip_scheme (scheme <> with_port host port) ≡ with_port host port
    → normalize_turn_host (scheme <> with_port host port) ≡ host
behind_scheme scheme host port h fits k e =
    let t = with_port-IsTame host port h in
    normalize_tame (scheme <> with_port host port) (with_port host port)
      (trim_tame _ (append-IsTame scheme (with_port host port) k t)) e t
    ∙ strip_port-with_port host port h fits

-- A host name without white space and without any of `:?/[` is normalised to itself, and so is
-- the same name behind any of the schemes `turn:`, `turns:` and `stun:` and in front of any port
-- below 65536, whose scheme and port are cut off.
pub normalize_turn_host_plain :
    (host : String) (port : ℕ)
    → IsPlain host
    → port ≤ u16_max
    → (normalize_turn_host host ≡ host)
      × (normalize_turn_host ("turn:" <> host <> ":" <> show_decimal port) ≡ host)
      × (normalize_turn_host ("turns:" <> host <> ":" <> show_decimal port) ≡ host)
      × (normalize_turn_host ("stun:" <> host <> ":" <> show_decimal port) ≡ host)
unfolding with_port
normalize_turn_host_plain host port h fits =
    let t = plain-IsTame host h in
    (
      normalize_tame host host (trim_tame host t) (strip_scheme_plain host h) t
          ∙ strip_port_plain host h,
      behind_scheme "turn:" host port h fits
          (unfold is_space in (refl, (refl, (refl, (refl, (refl, tt))))))
          (unfold strip_scheme ◌<>◌ in refl),
      behind_scheme "turns:" host port h fits
          (unfold is_space in (refl, (refl, (refl, (refl, (refl, (refl, tt)))))))
          (unfold strip_scheme ◌<>◌ in refl),
      behind_scheme "stun:" host port h fits
          (unfold is_space in (refl, (refl, (refl, (refl, (refl, tt))))))
          (unfold strip_scheme ◌<>◌ in refl),
    )
