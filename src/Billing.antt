-- ===== src/Billing.antt =====
-- The signature of a webhook, of src/billing.rs: `hex_to_bytes` and what compares its result. The
-- check of the HMAC-SHA256 is a parameter.
pub mod Plans
pub mod Webhooks
pub mod PayPal
pub mod Deliveries
mod Examples
use ponswarp_signaling_rs.Common.{
  ℕ, suc, ◌+◌, ◌-◌, ◌*◌, ◌/◌, ◌%◌, ◌<◌, ◌≤◌, String, Bool, true, false, ◌&&◌, List, [], ◌∷◌, Option,
  none, some, ltb, leb, nat_beq, if◌then◌else◌, ◌≡◌, refl, arith, length, All, ◌++◌, Option-cases,
  Bool-cases, subst, sym, ◌∙◌, inl, inr, ◌↔◌, ◌⊎◌,
}
use ponswarp_signaling_rs.Common.Text.{trim, as_bytes}

unfoldable pub hex_value : ℕ → Option ℕ
hex_value byte =
    if leb b'0' byte && leb byte b'9'
    then some (byte - b'0')
    else if leb b'a' byte && leb byte b'f'
    then some (byte - b'a' + 10)
    else if leb b'A' byte && leb byte b'F'
    then some (byte - b'A' + 10)
    else none

abbrev pub join_digits : Option ℕ → Option ℕ → Option (List ℕ) → Option (List ℕ)
join_digits (some high) (some low) (some bytes) = some ((high * 16 + low) ∷ bytes)
join_digits _ _ _ = none

-- The loop over `chunks_exact(2)`, which leaves a last odd byte out. Both digits are below 16, so
-- `(high << 4) | low` is their sum.
unfoldable pub decode_chunks : List ℕ → Option (List ℕ)
unfolding hex_value
decode_chunks [] = some []
decode_chunks (a ∷ []) = some []
decode_chunks (a ∷ b ∷ rest) = join_digits (hex_value a) (hex_value b) (decode_chunks rest)

unfoldable pub hex_to_bytes : String → Option (List ℕ)
unfolding as_bytes decode_chunks
hex_to_bytes value =
    let bytes = as_bytes (trim value) in
    if nat_beq (length bytes % 2) 0 then decode_chunks bytes else none

-- What a webhook request comes to, by the status of the answer.
pub data BillingError : Type 0 where
  unavailable bad_webhook internal : BillingError

-- `verify_slice` says whether some bytes are the HMAC of a body under a secret.
module _ (verify_slice : (secret : String) → (body provided : List ℕ) → Bool) where
  abbrev verified : String → List ℕ → Option (List ℕ) → Option BillingError
  verified secret body none = some bad_webhook
  verified secret body (some provided) =
      if verify_slice secret body provided then none else some bad_webhook

  -- The secret of the settings, if there are any, and the value of the header `x-signature`;
  -- `none` is a signature that is accepted.
  unfoldable pub validate_lemonsqueezy_webhook :
      (secret header : Option String) → (body : List ℕ) → Option BillingError
  unfolding hex_to_bytes
  validate_lemonsqueezy_webhook none header body = some unavailable
  validate_lemonsqueezy_webhook (some secret) none body = some bad_webhook
  validate_lemonsqueezy_webhook (some secret) (some signature) body =
      verified secret body (hex_to_bytes signature)

-- The two lower-case hexadecimal digits of each byte, as character codes.
abbrev pub lower_hex_digit : ℕ → ℕ
lower_hex_digit n = if ltb n 10 then 48 + n else 87 + n

abbrev pub lower_hex : List ℕ → List ℕ
lower_hex [] = []
lower_hex (b ∷ bs) = lower_hex_digit (b / 16) ∷ lower_hex_digit (b % 16) ∷ lower_hex bs

hex_value-lower_hex_digit : (n : ℕ) → n < 16 → hex_value (lower_hex_digit n) ≡ some n
unfolding hex_value
hex_value-lower_hex_digit n h = ground arith

decode_chunks-lower_hex :
    (bs : List ℕ) → All (λ b. b < 256) bs → decode_chunks (lower_hex bs) ≡ some bs
unfolding decode_chunks
decode_chunks-lower_hex [] h = refl
decode_chunks-lower_hex (b ∷ bs) (p, h) = ground (
  arith,
  hex_value-lower_hex_digit (b / 16),
  hex_value-lower_hex_digit (b % 16),
  decode_chunks-lower_hex bs h,
)

length-lower_hex : (bs : List ℕ) → length (lower_hex bs) ≡ 2 * length bs
length-lower_hex [] = refl
length-lower_hex (b ∷ bs) = ground (arith, length-lower_hex bs)

even : (n : ℕ) → nat_beq (2 * n % 2) 0 ≡ true
even n = ground arith

-- A header that is, but for white space around it, the lower-case hexadecimal text of a sequence
-- of bytes is decoded to these bytes.
pub hex_to_bytes-lower_hex :
    (bs : List ℕ) (value : String)
    → All (λ b. b < 256) bs
    → as_bytes (trim value) ≡ lower_hex bs
    → hex_to_bytes value ≡ some bs
unfolding hex_to_bytes
hex_to_bytes-lower_hex bs value h e =
    rw (e, length-lower_hex bs, even (length bs)) (decode_chunks-lower_hex bs h)

-- A character code is a hexadecimal digit, in either case, of a value.
abbrev pub IsDigit : (char value : ℕ) → Type 0
IsDigit char value =
    ((value < 10) × (char ≡ 48 + value))
    ⊎ ((10 ≤ value) × (value < 16) × ((char ≡ 87 + value) ⊎ (char ≡ 55 + value)))

-- A text is the hexadecimal text of a sequence of bytes: two digits each, the high one first.
abbrev pub IsHexText : (chars bytes : List ℕ) → Type 0
IsHexText [] [] = Unit
IsHexText (a ∷ b ∷ chars) (byte ∷ bytes) =
    ((high : ℕ) × (low : ℕ) × IsDigit a high × IsDigit b low × (byte ≡ high * 16 + low))
    × IsHexText chars bytes
IsHexText _ _ = ⊥

hex_value-IsDigit : (char value : ℕ) → hex_value char ≡ some value → IsDigit char value
unfolding hex_value
hex_value-IsDigit char value e = ground arith

IsDigit-hex_value : (char value : ℕ) → IsDigit char value → hex_value char ≡ some value
unfolding hex_value
IsDigit-hex_value char value h = ground arith

join_digits-some :
    (x y : Option ℕ) (z : Option (List ℕ)) (bytes : List ℕ)
    → join_digits x y z ≡ some bytes
    → (high : ℕ) × (low : ℕ) × (rest : List ℕ) × (x ≡ some high)
      × (y ≡ some low)
      × (z ≡ some rest)
      × ((high * 16 + low) ∷ rest ≡ bytes)
join_digits-some none y z bytes e = absurd (ground (arith, e))
join_digits-some (some high) none z bytes e = absurd (ground (arith, e))
join_digits-some (some high) (some low) none bytes e = absurd (ground (arith, e))
join_digits-some (some high) (some low) (some rest) bytes e =
    (high, low, rest, refl, refl, refl, ground (arith, e))

whole_after : (n : ℕ) → nat_beq (suc (suc n) % 2) 0 ≡ nat_beq (n % 2) 0
whole_after n = ground arith

decode_chunks-IsHexText :
    (chars bytes : List ℕ)
    → decode_chunks chars ≡ some bytes
    → nat_beq (length chars % 2) 0 ≡ true
    → IsHexText chars bytes
unfolding decode_chunks
decode_chunks-IsHexText [] [] e whole = tt
decode_chunks-IsHexText [] (byte ∷ bytes) e whole = absurd (ground (arith, e))
decode_chunks-IsHexText (a ∷ []) bytes e whole = absurd (ground (arith, whole))
decode_chunks-IsHexText (a ∷ b ∷ chars) bytes e whole =
    let (high, low, rest, p, q, r, made) =
      join_digits-some (hex_value a) (hex_value b) (decode_chunks chars) bytes e in
    subst (IsHexText (a ∷ b ∷ chars)) made (
      (high, low, hex_value-IsDigit a high p, hex_value-IsDigit b low q, refl),
      decode_chunks-IsHexText chars rest r ((sym (whole_after (length chars)) ∙ whole)),
    )

IsHexText-decode_chunks :
    (chars bytes : List ℕ)
    → IsHexText chars bytes
    → (decode_chunks chars ≡ some bytes) × (nat_beq (length chars % 2) 0 ≡ true)
unfolding decode_chunks
IsHexText-decode_chunks [] [] h = (refl, refl)
IsHexText-decode_chunks [] (byte ∷ bytes) h = absurd h
IsHexText-decode_chunks (a ∷ []) bytes h = absurd h
IsHexText-decode_chunks (a ∷ b ∷ chars) [] h = absurd h
IsHexText-decode_chunks (a ∷ b ∷ chars) (byte ∷ bytes) ((high, low, p, q, e), h) =
    let (rest, whole) = IsHexText-decode_chunks chars bytes h in
    (
      rw (IsDigit-hex_value a high p, IsDigit-hex_value b low q, rest, e) refl,
      whole_after (length chars) ∙ whole,
    )

hex_to_bytes-IsHexText :
    (value : String) (bytes : List ℕ)
    → (hex_to_bytes value ≡ some bytes) ↔ IsHexText (as_bytes (trim value)) bytes
unfolding hex_to_bytes
hex_to_bytes-IsHexText value bytes = (
  λ h. elim (Bool-cases (nat_beq (length (as_bytes (trim value)) % 2) 0)) [
    | inl whole ↦ decode_chunks-IsHexText _ bytes (ground (arith, h, whole)) whole
    | inr odd ↦ absurd (ground (arith, h, odd))
  ],
  λ h. let (decoded, whole) = IsHexText-decode_chunks _ bytes h in rw (whole, decoded) refl,
)

-- A webhook is accepted exactly if there are settings and a header, the header is, but for white
-- space around it, the text of some bytes, two hexadecimal digits in either case for each, and these
-- bytes verify as the HMAC of the body under the secret of the settings.
pub validate_lemonsqueezy_webhook_lem :
    (verify_slice : String → List ℕ → List ℕ → Bool) (secret header : Option String) (body : List ℕ)
    → (validate_lemonsqueezy_webhook verify_slice secret header body ≡ none)
      ↔ (key : String) × (signature : String) × (provided : List ℕ) × (secret ≡ some key)
        × (header ≡ some signature)
        × IsHexText (as_bytes (trim signature)) provided
        × (verify_slice key body provided ≡ true)
unfolding validate_lemonsqueezy_webhook
validate_lemonsqueezy_webhook_lem v none header body =
    (λ h. ground arith, λ (k, g, p, a, b, c, d). ground arith)
validate_lemonsqueezy_webhook_lem v (some k) none body =
    (λ h. ground arith, λ (k', g, p, a, b, c, d). ground arith)
validate_lemonsqueezy_webhook_lem v (some k) (some g) body = (
  λ h. elim (Option-cases (hex_to_bytes g)) [
    | inl e ↦ ground (arith, e, h)
    | inr (p, e) ↦ (k, g, p, refl, refl, (hex_to_bytes-IsHexText g p).0 e, ground (arith, e, h))
  ],
  λ (k', g', p, a, b, c, d). ground (arith, a, b, (hex_to_bytes-IsHexText g' p).1 c, d),
)
