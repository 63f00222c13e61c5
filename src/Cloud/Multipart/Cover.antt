-- ===== src/Cloud/Multipart/Cover.antt =====
-- That the parts of a large upload make up the file (src/handlers/cloud_share.rs).
use ponswarp_signaling_rs.Common.{
  ℕ, zero, suc, ◌+◌, ◌-◌, ◌*◌, ◌^◌, ◌≤◌, ◌<◌, String, List, [], ◌∷◌, ltb, nat_beq, if◌then◌else◌,
  ◌≡◌, refl, arith, length, Bool-cases, inl, inr, ap, subst, sym, ◌∙◌,
}
use ponswarp_signaling_rs.Cloud.World.{Result, ok, err, Setting, World, Outcome-cases}
use ponswarp_signaling_rs.Cloud.Multipart.{
  div_ceil, CloudMultipartUploadPart, CloudMultipartUploadTarget, presign, presign_parts,
  presign_multipart_upload, presign_ttl,
}
use ponswarp_signaling_rs.Cloud.Multipart.Sizes.{
  div_ceil_bounds, value_of, part_shape, presign_multipart_upload-steps, no_ceil, positive,
}

minus_one : (a b : ℕ) → a + 1 ≡ b → b - 1 ≡ a
minus_one a b e = omega arith

abbrev parts_of : Result (List CloudMultipartUploadPart) → List CloudMultipartUploadPart
parts_of (ok parts) = parts
parts_of (err _) = []

-- The parts follow one another from an offset up to the size, are numbered on, and none is empty.
abbrev pub Covers : (offset number size : ℕ) → List CloudMultipartUploadPart → Type 0
Covers offset number size [] = offset ≡ size
Covers offset number size (part ∷ parts) =
    (part.part_number ≡ number)
    × (part.offset ≡ offset)
    × (0 < part.size)
    × Covers (offset + part.size) (number + 1) size parts

-- All parts but the last have the size that is given, and the last is no larger.
abbrev pub AreEven : ℕ → List CloudMultipartUploadPart → Type 0
AreEven part_size [] = Unit
AreEven part_size (part ∷ []) = part.size ≤ part_size
AreEven part_size (part ∷ next ∷ rest) = (part.size ≡ part_size) × AreEven part_size (next ∷ rest)

AreEven-◌∷◌ :
    (part_size left : ℕ) (part : CloudMultipartUploadPart) (rest : List CloudMultipartUploadPart)
    → part.size ≡ part_size
    → length rest ≡ suc left
    → AreEven part_size rest
    → AreEven part_size (part ∷ rest)
AreEven-◌∷◌ part_size left part [] same long even = absurd (ground (arith, long))
AreEven-◌∷◌ part_size left part (next ∷ rest) same long even = (same, even)

module _ (s : Setting) (key : String) (size part_size part_count ttl : ℕ) where
  abbrev made : ℕ → String → CloudMultipartUploadPart
  made index url = record {
    part_number = index + 1;
    offset = index * part_size;
    size = if nat_beq (index + 1) part_count then size - index * part_size else part_size;
    upload_url = url;
  }

  presign_parts-suc :
      (index left : ℕ) (w : World) (parts : List CloudMultipartUploadPart)
      → (presign_parts s key size part_size part_count ttl index (suc left) w).0 ≡ ok parts
      → (url : String) × (rest : List CloudMultipartUploadPart) × (w' : World) × ((presign_parts s
            key size part_size part_count ttl
            (index + 1)
            left
            w').0
          ≡ ok rest)
        × (parts ≡ made index url ∷ rest)
  unfolding presign_parts presign
  presign_parts-suc index left w parts e = elim (Bool-cases (ltb (index + 1) (2 ^ 31))) [
    | inr large ↦ absurd (ground (arith, e, large))
    | inl fits ↦ elim (Bool-cases (s.fails w.tick)) [
      | inl broken ↦ absurd (ground (arith, e, fits, broken))
      | inr works ↦
          elim (Outcome-cases (
            presign_parts s key size part_size part_count ttl (index + 1) left
              (record w { tick = suc w.tick }))) [
                | inr (error, w', r) ↦ absurd (ground (arith, e, fits, works, r))
                | inl (rest, w', r) ↦ (
                  s.presigned "PART" key (presign_ttl s ttl),
                  rest,
                  record w { tick = suc w.tick },
                  ap (λ (p : Result (List CloudMultipartUploadPart) × World). p.0) r,
                  ground (arith, e, fits, works, r),
                )
              ]
    ]
  ]

  module _ (pos : 0 < part_size) (fits : size ≤ part_count * part_size)
      (tight : (part_count - 1) * part_size < size) where
    index_tight : (index : ℕ) → index + 1 ≡ part_count → index * part_size < size
    index_tight index count =
        subst (λ i. i * part_size < size) (minus_one index part_count count) tight

    index_fits : (index : ℕ) → index + 1 ≡ part_count → size ≤ index * part_size + part_size
    index_fits index count =
        let at_index : size ≤ (index + 1) * part_size =
          subst (λ b. size ≤ b * part_size) (sym count) fits in
        grind arith

    last_size :
        (index : ℕ) (url : String)
        → index + 1 ≡ part_count
        → ((made index url).size ≡ size - index * part_size)
          × (index * part_size < size)
          × (size ≤ index * part_size + part_size)
    last_size index url count = elim (Bool-cases (nat_beq (index + 1) part_count)) [
      | inl same ↦ (rw same refl, index_tight index count, index_fits index count)
      | inr other ↦ absurd (ground (arith, count, other))
    ]

    inner_size :
        (index left : ℕ) (url : String)
        → index + suc (suc left) ≡ part_count
        → (made index url).size ≡ part_size
    inner_size index left url count = elim (Bool-cases (nat_beq (index + 1) part_count)) [
      | inl same ↦ absurd (ground (arith, count, same))
      | inr other ↦ rw other refl
    ]

    presign_parts-Covers :
        (left index : ℕ) (w : World) (parts : List CloudMultipartUploadPart)
        → index + suc left ≡ part_count
        → (presign_parts s key size part_size part_count ttl index (suc left) w).0 ≡ ok parts
        → Covers (index * part_size) (index + 1) size parts
          × (length parts ≡ suc left)
          × AreEven part_size parts
    unfolding presign_parts
    presign_parts-Covers zero index w parts count e =
        let (url, rest, w', r, made_e) = presign_parts-suc index zero w parts e in
        let (size_e, inside, upto) = last_size index url count in
        rw (made_e, sym (ap parts_of r))
          (
            (refl, refl, rw size_e (omega arith), rw size_e (omega arith)),
            refl,
            rw size_e (omega arith),
          )
    presign_parts-Covers (suc left) index w parts count e =
        let (url, rest, w', r, made_e) = presign_parts-suc index (suc left) w parts e in
        let (covers, len, even) = presign_parts-Covers left (index + 1) w' rest (omega arith) r in
        let size_e = inner_size index left url count in
        rw made_e (
          (
            refl,
            refl,
            rw size_e pos,
            rw size_e (subst (λ o. Covers o (index + 1 + 1) size rest) (grind arith) covers),
          ),
          ap suc len,
          AreEven-◌∷◌ part_size left (made index url) rest size_e len even,
        )

all_parts-Covers :
    (s : Setting) (key : String) (size part_size part_count ttl : ℕ) (w : World)
    (parts : List CloudMultipartUploadPart)
    → 0 < size
    → 0 < part_size
    → part_count ≡ div_ceil size part_size
    → (presign_parts s key size part_size part_count ttl 0 part_count w).0 ≡ ok parts
    → Covers 0 1 size parts × (length parts ≡ part_count) × AreEven part_size parts
all_parts-Covers s key size part_size zero ttl w parts pos large ceil r = absurd (
    let (_, _, some_part) = div_ceil_bounds size part_size pos large in
    no_ceil (div_ceil size part_size) ceil some_part)
all_parts-Covers s key size part_size (suc left) ttl w parts pos large ceil r =
    let (fits, tight, _) = div_ceil_bounds size part_size pos large in
    let none_before : 0 * part_size ≡ 0 = omega arith in
    subst (λ o. Covers o 1 size parts × (length parts ≡ suc left) × AreEven part_size parts)
      none_before
      (presign_parts-Covers s key size part_size (suc left) ttl large
        (subst (λ n. size ≤ n * part_size) (sym ceil) fits)
        (subst (λ n. (n - 1) * part_size < size) (sym ceil) tight) left 0 w parts (omega arith) r)

-- Where a large upload is offered, its parts are numbered from 1 on, follow one another from the
-- first byte to the last, none is empty, there are at most 10000 of them, as many as the size
-- takes, and all but the last have the size that is given, of 64 MiB or more; the last is no
-- larger than that.
pub presign_multipart_upload-Covers :
    (s : Setting) (key content_type : String) (size ttl : ℕ) (w w' : World)
    (target : CloudMultipartUploadTarget)
    → presign_multipart_upload s key content_type size ttl w ≡ (ok target, w')
    → Covers 0 1 size target.parts
      × (length target.parts ≤ 10000)
      × (64 * 1024 * 1024 ≤ target.part_size)
      × (length target.parts ≡ div_ceil size target.part_size)
      × AreEven target.part_size target.parts
unfolding presign_multipart_upload
presign_multipart_upload-Covers s key content_type size ttl w w' target e =
    let (part_count, w1, sized, counted, r) =
      presign_multipart_upload-steps s key content_type size ttl w w' target e in
    let (part_size, sized', pos, large, ceil, few) = part_shape size part_count counted in
    let same : part_size ≡ target.part_size = ap value_of (sym sized' ∙ sized) in
    let (covers, len, even) =
      all_parts-Covers s key size target.part_size part_count ttl w1 target.parts pos
        (subst (λ p. 0 < p) same (positive part_size large))
        (subst (λ p. part_count ≡ div_ceil size p) same ceil) r in
    (
      covers,
      subst (λ n. n ≤ 10000) (sym len) few,
      subst (λ p. 64 * 1024 * 1024 ≤ p) same large,
      len ∙ subst (λ p. part_count ≡ div_ceil size p) same ceil,
      even,
    )
