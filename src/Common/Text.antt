-- ===== src/Common/Text.antt =====
-- Operations on texts, by characters: joining, and Rust's `trim`, `starts_with`, `strip_prefix`.
use Prim.Native.Char.{Char, code}
use Prim.Native.String.{String, [], ◌∷◌}
use mathlib.Core.Path.{◌≡◌, refl}
use mathlib.Core.Bool.{Bool, true, false, ◌||◌, ◌&&◌}
use mathlib.Core.Logic.{inl, inr}
use mathlib.Core.Option.{Option, none, some}
use Prim.Native.Nat.{ℕ}
use native.Mathlib.Omega.{arith}
use mathlib.Core.List.{List, ◌++◌}
use ponswarp_signaling_rs.Common.Utf8.{utf8, no_bytes}
use ponswarp_signaling_rs.Common.Tests.{if◌then◌else◌, leb, nat_beq, is_some, Bool-cases}

infixr 65 ◌<>◌
unfoldable pub ◌<>◌ : String → String → String
[] <> t = t
(c ∷ s) <> t = c ∷ (s <> t)

unfoldable pub is_empty : String → Bool
is_empty [] = true
is_empty (c ∷ s) = false

-- The code points with the Unicode property White_Space, which `char::is_whitespace` tests.
unfoldable pub is_space : ℕ → Bool
is_space n =
    (leb 0x9 n && leb n 0xd)
    || nat_beq n 0x20
    || nat_beq n 0x85
    || nat_beq n 0xa0
    || nat_beq n 0x1680
    || (leb 0x2000 n && leb n 0x200a)
    || nat_beq n 0x2028
    || nat_beq n 0x2029
    || nat_beq n 0x202f
    || nat_beq n 0x205f
    || nat_beq n 0x3000

unfoldable pub is_whitespace : Char → Bool
is_whitespace c = is_space (code c)

unfoldable pub trim_start : String → String
trim_start [] = []
trim_start (c ∷ s) = if is_whitespace c then trim_start s else c ∷ s

unfoldable pub trim_end : String → String
trim_end [] = []
trim_end (c ∷ s) =
    let rest = trim_end s in if is_whitespace c && is_empty rest then [] else c ∷ rest

unfoldable pub trim : String → String
unfolding trim_start trim_end is_whitespace is_space is_empty
trim s = trim_end (trim_start s)

unfoldable pub strip_prefix : String → String → Option String
strip_prefix [] s = some s
strip_prefix (c ∷ p) [] = none
strip_prefix (c ∷ p) (d ∷ s) = if nat_beq (code c) (code d) then strip_prefix p s else none

unfoldable pub starts_with : String → String → Bool
unfolding strip_prefix
starts_with p s = is_some (strip_prefix p s)

trim_end_idempotent : (s : String) → trim_end (trim_end s) ≡ trim_end s
unfolding trim_end
trim_end_idempotent [] = refl
trim_end_idempotent (c ∷ s) = elim (Bool-cases (is_whitespace c && is_empty (trim_end s))) [
  | inl e ↦ rw e
  | inr e ↦ rw e (rw (trim_end_idempotent s) (rw e))
]

trim_start-trim_end-trim_start :
    (s : String) → trim_start (trim_end (trim_start s)) ≡ trim_end (trim_start s)
unfolding trim_start trim_end
trim_start-trim_end-trim_start [] = refl
trim_start-trim_end-trim_start (c ∷ s) = ground (arith, trim_start-trim_end-trim_start s)

pub trim_idempotent : (s : String) → trim (trim s) ≡ trim s
unfolding trim
trim_idempotent s = rw trim_start-trim_end-trim_start (trim_end_idempotent (trim_start s))

trim_test : trim " \t room 1 \n" ≡ "room 1"
unfolding trim
trim_test = refl

-- `s.as_bytes()`.
unfoldable pub as_bytes : String → List ℕ
as_bytes [] = no_bytes
as_bytes (c ∷ s) = utf8 (code c) ++ as_bytes s
