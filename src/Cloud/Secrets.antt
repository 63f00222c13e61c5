-- ===== src/Cloud/Secrets.antt =====
-- Passwords and tokens of cloud shares, of src/handlers/cloud_share.rs. The HMAC-SHA256 under the
-- secret of the sessions is a field of the setting.
pub mod Compare
pub mod Passwords
use Prim.Native.Char.{Char, code}
use Prim.Native.Nat.{bit_or, bit_xor}
use Prim.Native.String
use ponswarp_signaling_rs.Common.{
  ℕ, ◌/◌, ◌%◌, String, Bool, true, false, ◌&&◌, List, [], ◌∷◌, nat_beq, if◌then◌else◌, ◌==◌,
  string_eq, length,
}
use ponswarp_signaling_rs.Common.Decimal.{digit_char}
use ponswarp_signaling_rs.Common.Text.{◌<>◌, as_bytes}
use ponswarp_signaling_rs.Cloud.Names.{grow_first}
use ponswarp_signaling_rs.Cloud.World.{Setting}

-- The two digits of a byte are `byte >> 4` and `byte & 0x0f`.
unfoldable pub hex : List ℕ → String
hex [] = ""
hex (byte ∷ bytes) =
    String.◌∷◌ (digit_char (byte / 16)) (String.◌∷◌ (digit_char (byte % 16)) (hex bytes))

-- The fold over the pairs of bytes.
unfoldable pub differences : ℕ → List ℕ → List ℕ → ℕ
differences diff [] right = diff
differences diff (a ∷ left) [] = diff
differences diff (a ∷ left) (b ∷ right) = differences (bit_or diff (bit_xor a b)) left right

unfoldable pub constant_time_eq : (left right : List ℕ) → Bool
unfolding differences
constant_time_eq left right =
    if nat_beq (length left) (length right) then nat_beq (differences 0 left right) 0 else false

-- `s.split(c)`.
unfoldable pub split : ℕ → String → List String
split c String.[] = "" ∷ []
split c (String.◌∷◌ d s) =
    let parts = split c s in if nat_beq (code d) c then "" ∷ parts else grow_first d parts

module _ (s : Setting) where
  unfoldable pub keyed_digest : String → String
  unfolding hex
  keyed_digest value = hex (s.keyed_hmac value)

  unfoldable pub token_hash : String → String
  unfolding keyed_digest
  token_hash token = keyed_digest token

  -- `salt` is the random text of 16 bytes.
  unfoldable pub password_hash : (salt password : String) → String
  unfolding keyed_digest
  password_hash salt password =
      "hmac-sha256:v1:" <> salt <> ":" <> keyed_digest (salt <> ":" <> password)

  abbrev pub check_parts : (password : String) → List String → Bool
  check_parts password (scheme ∷ version ∷ salt ∷ digest ∷ []) =
      scheme == "hmac-sha256"
      && version == "v1"
      && constant_time_eq (as_bytes (keyed_digest (salt <> ":" <> password))) (as_bytes digest)
  check_parts password _ = false

  unfoldable pub verify_password_hash : (password expected : String) → Bool
  unfolding keyed_digest constant_time_eq split
  verify_password_hash password expected = check_parts password (split b':' expected)
