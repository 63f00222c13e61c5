-- ===== src/Cloud/Multipart.antt =====
-- The parts of a large upload, of src/handlers/cloud_share.rs.
pub mod Sizes
pub mod Cover
use ponswarp_signaling_rs.Common.{
  ℕ, zero, suc, ◌+◌, ◌-◌, ◌*◌, ◌/◌, ◌%◌, ◌^◌, String, Bool, true, false, ◌||◌, List, [], ◌∷◌,
  Option, none, some, ltb, leb, nat_beq, if◌then◌else◌, ◌≡◌, refl,
}
use ponswarp_signaling_rs.Cloud.World.{
  CloudShareError, bad_request, internal, Result, ok, err, Setting, World, Action, pure, raise,
  or_raise, ◌>>=◌, ◌>>◌, call,
}

abbrev pub multipart_upload_threshold_bytes : ℕ
multipart_upload_threshold_bytes = 512 * 1024 * 1024

abbrev pub multipart_upload_part_bytes : ℕ
multipart_upload_part_bytes = 64 * 1024 * 1024

abbrev pub max_multipart_parts : ℕ
max_multipart_parts = 10000

abbrev pub max : ℕ → ℕ → ℕ
max a b = if ltb a b then b else a

-- `a.div_ceil(b)`.
abbrev pub div_ceil : ℕ → ℕ → ℕ
div_ceil a b = if ltb 0 (a % b) then a / b + 1 else a / b

unfoldable pub should_use_multipart : ℕ → Bool
should_use_multipart size = ltb multipart_upload_threshold_bytes size

unfoldable pub multipart_part_size : ℕ → Result ℕ
multipart_part_size size =
    if nat_beq size 0
    then err (bad_request "Empty files are not supported")
    else ok (
        max multipart_upload_part_bytes (max (div_ceil size max_multipart_parts) (5 * 1024 * 1024)))

abbrev pub count_of_parts : ℕ → ℕ → Result ℕ
count_of_parts size part_size =
    let part_count = div_ceil size part_size in
    if nat_beq part_count 0 || ltb max_multipart_parts part_count
    then err (bad_request "File is too large for multipart Cloud Drop upload")
    else ok part_count

unfoldable pub multipart_part_count : ℕ → Result ℕ
unfolding multipart_part_size
multipart_part_count size = elim (multipart_part_size size) [
  | err e ↦ err e
  | ok part_size ↦ count_of_parts size part_size
]

pub record CloudMultipartUploadPart : Type 0 where
  pub part_number : ℕ
  pub offset : ℕ
  pub size : ℕ
  pub upload_url : String

pub record CloudMultipartUploadTarget : Type 0 where
  pub upload_id : String
  pub part_size : ℕ
  pub parts : List CloudMultipartUploadPart

abbrev pub lift : {A : Type 0} → Result A → Action A
lift r w = (r, w)

module _ (s : Setting) where
  -- `presign_config` cuts the time to live at a week.
  abbrev pub presign_ttl : ℕ → ℕ
  presign_ttl ttl_seconds = if ltb 604800 ttl_seconds then 604800 else ttl_seconds

  unfoldable pub presign : (request key : String) → (ttl_seconds : ℕ) → Action String
  presign request key ttl_seconds =
      call s λ w. (s.presigned request key (presign_ttl ttl_seconds), w)

  unfoldable pub presign_put : (object_key : String) → (ttl_seconds : ℕ) → Action String
  unfolding presign
  presign_put object_key ttl_seconds = presign "PUT" object_key ttl_seconds

  -- The loop over `index`, with the count of parts that are left.
  unfoldable pub presign_parts :
      (object_key : String)
      → (size part_size part_count ttl_seconds index left : ℕ)
      → Action (List CloudMultipartUploadPart)
  presign_parts object_key size part_size part_count ttl_seconds index zero = pure []
  presign_parts object_key size part_size part_count ttl_seconds index (suc left) = do
    part_number ← lift (if ltb (index + 1) (2 ^ 31) then ok (index + 1) else err internal)
    url ← presign "PART" object_key ttl_seconds
    rest ← presign_parts object_key size part_size part_count ttl_seconds (index + 1) left
    pure (
        record {
          part_number = part_number;
          offset = index * part_size;
          size = if nat_beq (index + 1) part_count then size - index * part_size else part_size;
          upload_url = url;
        }
        ∷ rest)

  unfoldable pub presign_multipart_upload :
      (object_key content_type : String)
      → (size ttl_seconds : ℕ) → Action CloudMultipartUploadTarget
  unfolding presign_parts multipart_part_size multipart_part_count
  presign_multipart_upload object_key content_type size ttl_seconds = do
    given ← call s λ w. (s.upload_ids w.tick, w)
    upload_id ← or_raise given internal
    part_size ← lift (multipart_part_size size)
    part_count ← lift (multipart_part_count size)
    parts ← presign_parts object_key size part_size part_count ttl_seconds 0 part_count
    pure (record { upload_id = upload_id; part_size = part_size; parts = parts })
