-- ===== src/Cloud/Names/Parts.antt =====
-- What `clamp_path` leaves of a path (src/handlers/cloud_share.rs).
use Prim.Native.Char.{Char, code}
use ponswarp_signaling_rs.Common.{
  ℕ, zero, suc, ◌+◌, ◌≤◌, String, true, false, List, [], ◌∷◌, nat_beq, string_eq, ◌≡◌, refl, arith,
  All, Bool-cases, inl, inr, ap, ◌∙◌,
}
use ponswarp_signaling_rs.Common.Text.{◌<>◌, is_empty}
use ponswarp_signaling_rs.Cloud.Names.{
  take, grow_first, split_slashes, is_kept, keep_parts, join_slashes, cleaned, clamp_path,
}

-- The number of characters of a text.
abbrev pub char_count : String → ℕ
char_count String.[] = 0
char_count (String.◌∷◌ c s) = suc (char_count s)

abbrev pub HasNoSlash : String → Type 0
HasNoSlash String.[] = Unit
HasNoSlash (String.◌∷◌ c s) = (nat_beq (code c) b'/' ≡ false) × HasNoSlash s

-- A part that a path may have.
abbrev pub IsPart : String → Type 0
IsPart part = (is_kept part ≡ true) × HasNoSlash part

take_all : (n : ℕ) (s : String) → char_count s ≤ n → take n s ≡ s
unfolding take
take_all zero String.[] h = refl
take_all zero (String.◌∷◌ c s) h = absurd (omega arith)
take_all (suc n) String.[] h = refl
take_all (suc n) (String.◌∷◌ c s) h = ap (String.◌∷◌ c) (take_all n s (omega arith))

grow_first-All :
    (c : Char) (parts : List String)
    → nat_beq (code c) b'/' ≡ false
    → All HasNoSlash parts
    → All HasNoSlash (grow_first c parts)
grow_first-All c [] e h = ((e, tt), tt)
grow_first-All c (part ∷ parts) e (h, hs) = ((e, h), hs)

split_slashes-All : (s : String) → All HasNoSlash (split_slashes s)
unfolding split_slashes
split_slashes-All String.[] = (tt, tt)
split_slashes-All (String.◌∷◌ c s) = elim (Bool-cases (nat_beq (code c) b'/')) [
  | inl slash ↦ rw (split_slashes, slash) (tt, split_slashes-All s)
  | inr other ↦
      rw (split_slashes, other) (grow_first-All c (split_slashes s) other (split_slashes-All s))
]

keep_parts-All : (parts : List String) → All HasNoSlash parts → All IsPart (keep_parts parts)
unfolding keep_parts
keep_parts-All [] h = tt
keep_parts-All (part ∷ parts) (h, hs) = elim (Bool-cases (is_kept part)) [
  | inl kept ↦ rw (keep_parts, kept) ((kept, h), keep_parts-All parts hs)
  | inr dropped ↦ rw (keep_parts, dropped) (keep_parts-All parts hs)
]

keep_parts-same : (parts : List String) → All IsPart parts → keep_parts parts ≡ parts
unfolding keep_parts
keep_parts-same [] h = refl
keep_parts-same (part ∷ parts) ((kept, h), hs) =
    rw (keep_parts, kept) (ap (◌∷◌ part) (keep_parts-same parts hs))

-- A part in front of a slash, and a part alone, are split off as they are.
split_slashes-<> :
    (part rest : String)
    → HasNoSlash part
    → split_slashes (part <> "/" <> rest) ≡ part ∷ split_slashes rest
unfolding split_slashes ◌<>◌
split_slashes-<> String.[] rest h = refl
split_slashes-<> (String.◌∷◌ c s) rest (e, h) = rw (e, split_slashes-<> s rest h) refl

split_slashes_part : (part : String) → HasNoSlash part → split_slashes part ≡ part ∷ []
unfolding split_slashes
split_slashes_part String.[] h = refl
split_slashes_part (String.◌∷◌ c s) (e, h) = rw (e, split_slashes_part s h) refl

split_slashes-join_slashes :
    (part : String) (parts : List String)
    → All IsPart (part ∷ parts)
    → split_slashes (join_slashes (part ∷ parts)) ≡ part ∷ parts
unfolding join_slashes
split_slashes-join_slashes part [] ((k, h), hs) = split_slashes_part part h
split_slashes-join_slashes part (next ∷ parts) ((k, h), hs) =
    split_slashes-<> part (join_slashes (next ∷ parts)) h
    ∙ ap (◌∷◌ part) (split_slashes-join_slashes next parts hs)

-- A cleaned path that is not empty is split into its parts, and cleaned to itself.
split_slashes-cleaned :
    (parts : List String)
    → All IsPart parts
    → is_empty (join_slashes parts) ≡ false
    → split_slashes (join_slashes parts) ≡ parts
unfolding join_slashes is_empty
split_slashes-cleaned [] h e = cc
split_slashes-cleaned (part ∷ parts) h e = split_slashes-join_slashes part parts h

-- A path that has a part left, and no more than 512 characters of such parts, is stored with
-- exactly its parts that are neither empty nor `.` nor `..`, and storing it again changes nothing.
pub clamp_path_parts :
    (path name other : String)
    → is_empty (cleaned path) ≡ false
    → char_count (cleaned path) ≤ 512
    → (split_slashes (clamp_path path name) ≡ keep_parts (split_slashes path))
      × All IsPart (split_slashes (clamp_path path name))
      × (clamp_path (clamp_path path name) other ≡ clamp_path path name)
unfolding clamp_path
clamp_path_parts path name other full short =
    let kept = keep_parts-All (split_slashes path) (split_slashes-All path) in
    let split = split_slashes-cleaned (keep_parts (split_slashes path)) kept full in
    let whole = take_all 512 (cleaned path) short in
    rw (full, whole, split)
      (refl, kept, rw (keep_parts-same (keep_parts (split_slashes path)) kept, full, whole) refl)

-- Where no part of the path is left, the fallback name is stored as it is, whatever it is.
pub clamp_path_fallback :
    (path name : String) → is_empty (cleaned path) ≡ true → clamp_path path name ≡ name
unfolding clamp_path
clamp_path_fallback path name e = rw (e) refl

take-<> : (s t : String) (m n : ℕ) → char_count s + n ≡ m → take m (s <> t) ≡ s <> take n t
unfolding ◌<>◌ take
take-<> String.[] t m n e = let same : m ≡ n = omega arith in rw same refl
take-<> (String.◌∷◌ c s) t zero n e = absurd (omega arith)
take-<> (String.◌∷◌ c s) t (suc m) n e = ap (String.◌∷◌ c) (take-<> s t m n (omega arith))

not_empty-<> : (s t : String) → is_empty s ≡ false → is_empty (s <> t) ≡ false
unfolding is_empty ◌<>◌
not_empty-<> String.[] t h = cc
not_empty-<> (String.◌∷◌ c s) t h = refl

hidden-IsPart : IsPart "..x"
unfolding is_empty
hidden-IsPart = (refl, (refl, (refl, (refl, tt))))

cut_part : take 3 ("/" <> "..x") ≡ "/" <> ".."
unfolding take ◌<>◌
cut_part = refl

-- The cut after 512 characters can leave `..` as the last part: it does for a part of 509
-- characters that is followed by a part `..x`.
pub clamp_path_cut :
    (part name : String)
    → IsPart part
    → char_count part ≡ 509
    → clamp_path (part <> "/" <> "..x") name ≡ part <> "/" <> ".."
unfolding clamp_path
clamp_path_cut part name (kept, h) count =
    let parts : All IsPart (part ∷ "..x" ∷ []) = ((kept, h), (hidden-IsPart, tt)) in
    let e : cleaned (part <> "/" <> "..x") ≡ part <> "/" <> "..x" =
      ap (λ ps. join_slashes (keep_parts ps)) (split_slashes-join_slashes part ("..x" ∷ []) parts)
      ∙ ap join_slashes (keep_parts-same (part ∷ "..x" ∷ []) parts) in
    rw
      (
        e,
        not_empty-<> part ("/" <> "..x") (ground (arith, kept)),
        take-<> part ("/" <> "..x") 512 3 (omega arith),
      )
      (ap (◌<>◌ part) cut_part)
