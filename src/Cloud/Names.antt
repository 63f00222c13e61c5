-- ===== src/Cloud/Names.antt =====
-- The names and paths that a cloud share stores, of `clamp_name`, `clamp_path` and
-- `sanitize_ascii_filename` in src/handlers/cloud_share.rs.
pub mod Parts
use Prim.Native.Char.{Char, code}
use Prim.Native.String
use ponswarp_signaling_rs.Common.{
  ℕ, zero, suc, String, Bool, true, false, ◌&&◌, ◌||◌, not, List, [], ◌∷◌, nat_beq, leb,
  if◌then◌else◌, ◌==◌, string_eq, ◌≡◌, refl,
}
use ponswarp_signaling_rs.Common.Text.{◌<>◌, is_empty, trim}

-- `s.chars().take(n)`.
unfoldable pub take : ℕ → String → String
take zero s = ""
take (suc n) String.[] = ""
take (suc n) (String.◌∷◌ c s) = String.◌∷◌ c (take n s)

unfoldable pub clamp_name : (value fallback : String) → String
unfolding take
clamp_name value fallback =
    let trimmed = trim value in if is_empty trimmed then fallback else take 180 trimmed

abbrev pub grow_first : Char → List String → List String
grow_first c [] = String.◌∷◌ c "" ∷ []
grow_first c (part ∷ parts) = String.◌∷◌ c part ∷ parts

-- `path.split('/')`.
unfoldable pub split_slashes : String → List String
split_slashes String.[] = "" ∷ []
split_slashes (String.◌∷◌ c s) =
    let parts = split_slashes s in if nat_beq (code c) b'/' then "" ∷ parts else grow_first c parts

abbrev pub is_kept : String → Bool
is_kept part = not (is_empty part) && not (part == ".") && not (part == "..")

unfoldable pub keep_parts : List String → List String
keep_parts [] = []
keep_parts (part ∷ parts) =
    let others = keep_parts parts in if is_kept part then part ∷ others else others

-- `.join("/")`.
unfoldable pub join_slashes : List String → String
join_slashes [] = ""
join_slashes (part ∷ []) = part
join_slashes (part ∷ next ∷ parts) = part <> "/" <> join_slashes (next ∷ parts)

abbrev pub cleaned : String → String
cleaned path = join_slashes (keep_parts (split_slashes path))

unfoldable pub clamp_path : (path fallback_name : String) → String
unfolding take split_slashes keep_parts join_slashes
clamp_path path fallback_name =
    if is_empty (cleaned path) then fallback_name else take 512 (cleaned path)

-- A character of a header's file name: quotes, back slashes and all that is not printable ASCII
-- are replaced.
abbrev pub sanitized_char : Char → Char
sanitized_char c =
    if nat_beq (code c) b'"' || nat_beq (code c) b'\\'
    then "_"
    else if leb 32 (code c) && leb (code c) 126
    then c
    else "_"

unfoldable pub sanitize_ascii_filename : String → String
sanitize_ascii_filename String.[] = ""
sanitize_ascii_filename (String.◌∷◌ c s) = String.◌∷◌ (sanitized_char c) (sanitize_ascii_filename s)

paths :
    (clamp_path "a//./b/../c" "x" ≡ "a/b/c")
    × (clamp_path "/../" "x" ≡ "x")
    × (sanitize_ascii_filename "a\"b\\c" ≡ "a_b_c")
    × (clamp_name "  " "x" ≡ "x")
unfolding clamp_path sanitize_ascii_filename clamp_name is_empty ◌<>◌ trim
paths = (refl, refl, refl, refl)
