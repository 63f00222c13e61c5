-- ===== src/Cloud/Multipart/Sizes.antt =====
-- The number and the size of the parts of a large upload (src/handlers/cloud_share.rs).
use ponswarp_signaling_rs.Common.{
  ℕ, suc, ◌-◌, ◌*◌, ◌%◌, ◌≤◌, ◌<◌, String, false, ◌||◌, ltb, nat_beq, ◌≡◌, refl, arith, Bool-cases,
  Option-cases, inl, inr, ap, sym, ◌∙◌, ◌⊎◌,
}
use ponswarp_signaling_rs.Cloud.World.{
  CloudShareError, Result, ok, err, Setting, World, Outcome-cases,
}
use ponswarp_signaling_rs.Cloud.Multipart.{
  multipart_upload_part_bytes, max_multipart_parts, max, div_ceil, multipart_part_size,
  count_of_parts, multipart_part_count, CloudMultipartUploadTarget, presign_parts,
  presign_multipart_upload,
}

pub div_ceil_bounds :
    (a b : ℕ)
    → 0 < a
    → 0 < b
    → (a ≤ div_ceil a b * b) × ((div_ceil a b - 1) * b < a) × (0 < div_ceil a b)
div_ceil_bounds a b pos h = elim (Bool-cases (ltb 0 (a % b))) [
  | inl more ↦ rw more (grind arith, grind arith, omega arith)
  | inr exact ↦ rw exact (grind arith, grind arith, grind arith)
]

ok-cases :
    {A : Type 0} → (r : Result A) → ((a : A) × (r ≡ ok a)) ⊎ ((e : CloudShareError) × (r ≡ err e))
ok-cases (ok a) = inl (a, refl)
ok-cases (err e) = inr (e, refl)

abbrev pub value_of : Result ℕ → ℕ
value_of (ok a) = a
value_of (err _) = 0

max-left : (a b : ℕ) → a ≤ max a b
max-left a b = ground arith

few_of : (n : ℕ) → nat_beq n 0 || ltb max_multipart_parts n ≡ false → n ≤ 10000
few_of n e = ground arith

count_of_parts-ok :
    (size part_size count : ℕ)
    → count_of_parts size part_size ≡ ok count
    → (count ≡ div_ceil size part_size) × (count ≤ 10000)
count_of_parts-ok size part_size count e =
    elim (Bool-cases
      (nat_beq (div_ceil size part_size) 0 || ltb max_multipart_parts (div_ceil size part_size))) [
        | inl refused ↦ absurd (ground (arith, e, refused))
        | inr taken ↦
            let result : count_of_parts size part_size ≡ ok (div_ceil size part_size) =
              rw taken refl in
            let same : count ≡ div_ceil size part_size = ap value_of (sym e ∙ result) in
            (same, rw same (few_of (div_ceil size part_size) taken))
      ]

-- What the sizes of an upload of parts are, if it is offered at all.
pub part_shape :
    (size : ℕ) (count : ℕ)
    → multipart_part_count size ≡ ok count
    → (part_size : ℕ) × (multipart_part_size size ≡ ok part_size)
      × (0 < size)
      × (64 * 1024 * 1024 ≤ part_size)
      × (count ≡ div_ceil size part_size)
      × (count ≤ 10000)
unfolding multipart_part_count multipart_part_size
part_shape size count e = elim (Bool-cases (nat_beq size 0)) [
  | inl empty ↦ absurd (ground (arith, e, empty))
  | inr nonempty ↦
      let part_size =
        max multipart_upload_part_bytes
          (max (div_ceil size max_multipart_parts) (5 * 1024 * 1024)) in
      let sized : multipart_part_size size ≡ ok part_size = rw nonempty refl in
      let counts : multipart_part_count size ≡ count_of_parts size part_size =
        rw (multipart_part_count, nonempty) refl in
      let counted : count_of_parts size part_size ≡ ok count = sym counts ∙ e in
      let (is_ceil, few) = count_of_parts-ok size part_size count counted in
      (
        part_size,
        sized,
        ground (arith, nonempty),
        max-left multipart_upload_part_bytes
            (max (div_ceil size max_multipart_parts) (5 * 1024 * 1024)),
        is_ceil,
        few,
      )
]

-- The steps of an upload that is offered.
pub presign_multipart_upload-steps :
    (s : Setting) (key content_type : String) (size ttl : ℕ) (w w' : World)
    (target : CloudMultipartUploadTarget)
    → presign_multipart_upload s key content_type size ttl w ≡ (ok target, w')
    → (part_count : ℕ) × (w1 : World) × (multipart_part_size size ≡ ok target.part_size)
      × (multipart_part_count size ≡ ok part_count)
      × ((presign_parts s key size target.part_size part_count ttl 0 part_count w1).0
          ≡ ok target.parts)
unfolding presign_multipart_upload
presign_multipart_upload-steps s key content_type size ttl w w' target e =
    let w1 = record w { tick = suc w.tick } in
    elim (Bool-cases (s.fails w.tick)) [
      | inl broken ↦ absurd (ground (arith, e, broken))
      | inr works ↦ elim (Option-cases (s.upload_ids w.tick)) [
        | inl nameless ↦ absurd (ground (arith, e, works, nameless))
        | inr (upload_id, named) ↦ elim (ok-cases (multipart_part_count size)) [
          | inr (error, counted) ↦ elim (ok-cases (multipart_part_size size)) [
            | inr (error', sized) ↦ absurd (ground (arith, e, works, named, sized))
            | inl (part_size, sized) ↦ absurd (ground (arith, e, works, named, sized, counted))
          ]
          | inl (part_count, counted) ↦
              let (part_size, sized, _, _, _, _) = part_shape size part_count counted in
              elim (Outcome-cases
                (presign_parts s key size part_size part_count ttl 0 part_count w1)) [
                  | inr (error, w2, r) ↦ absurd (ground (arith, e, works, named, sized, counted, r))
                  | inl (parts, w2, r) ↦ (
                    part_count,
                    w1,
                    ground (arith, e, works, named, sized, counted, r),
                    counted,
                    ground (arith, e, works, named, sized, counted, r),
                  )
                ]
        ]
      ]
    ]

pub no_ceil : (n : ℕ) → 0 ≡ n → ¬ 0 < n
no_ceil n e h = omega arith

pub positive : (n : ℕ) → 64 * 1024 * 1024 ≤ n → 0 < n
positive n h = omega arith
