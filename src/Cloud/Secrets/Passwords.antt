-- ===== src/Cloud/Secrets/Passwords.antt =====
-- That a stored password is checked as it was set (src/handlers/cloud_share.rs).
use Prim.Native.Char.{code}
use ponswarp_signaling_rs.Common.{
  ℕ, zero, suc, ◌/◌, ◌%◌, String, true, false, List, [], ◌∷◌, nat_beq, ◌≡◌, refl, sym, subst, ◌↔◌,
  string_eq,
}
use ponswarp_signaling_rs.Common.Decimal.{digit_char}
use ponswarp_signaling_rs.Common.Text.{◌<>◌, as_bytes}
use ponswarp_signaling_rs.Cloud.World.{Setting}
use ponswarp_signaling_rs.Cloud.Secrets.{
  hex, split, keyed_digest, password_hash, verify_password_hash, check_parts,
}
use ponswarp_signaling_rs.Cloud.Secrets.Compare.{constant_time_eq-same}

-- No character of the text is a colon.
abbrev pub LacksColon : String → Type 0
LacksColon String.[] = Unit
LacksColon (String.◌∷◌ d s) = (nat_beq (code d) b':' ≡ false) × LacksColon s

split-LacksColon : (s : String) → LacksColon s → split b':' s ≡ s ∷ []
unfolding split
split-LacksColon String.[] h = refl
split-LacksColon (String.◌∷◌ d s) (other, h) = rw (other, split-LacksColon s h) refl

split-<> : (s rest : String) → LacksColon s → split b':' (s <> ":" <> rest) ≡ s ∷ split b':' rest
unfolding split ◌<>◌
split-<> String.[] rest h = refl
split-<> (String.◌∷◌ d s) rest (other, h) = rw (other, split-<> s rest h) refl

digit_char-LacksColon : (n : ℕ) → nat_beq (code (digit_char n)) b':' ≡ false
digit_char-LacksColon zero = refl
digit_char-LacksColon (suc zero) = refl
digit_char-LacksColon (suc (suc zero)) = refl
digit_char-LacksColon (suc (suc (suc zero))) = refl
digit_char-LacksColon (suc (suc (suc (suc zero)))) = refl
digit_char-LacksColon (suc (suc (suc (suc (suc zero))))) = refl
digit_char-LacksColon (suc (suc (suc (suc (suc (suc zero)))))) = refl
digit_char-LacksColon (suc (suc (suc (suc (suc (suc (suc zero))))))) = refl
digit_char-LacksColon (suc (suc (suc (suc (suc (suc (suc (suc zero)))))))) = refl
digit_char-LacksColon (suc (suc (suc (suc (suc (suc (suc (suc (suc zero))))))))) = refl
digit_char-LacksColon (suc (suc (suc (suc (suc (suc (suc (suc (suc (suc zero)))))))))) = refl
digit_char-LacksColon (suc (suc (suc (suc (suc (suc (suc (suc (suc (suc (suc zero))))))))))) = refl
digit_char-LacksColon (suc (suc (suc (suc (suc (suc (suc (suc (suc (suc (suc (suc zero)))))))))))) =
    refl
digit_char-LacksColon
      (suc (suc (suc (suc (suc (suc (suc (suc (suc (suc (suc (suc (suc zero))))))))))))) =
    refl
digit_char-LacksColon
      (suc (suc (suc (suc (suc (suc (suc (suc (suc (suc (suc (suc (suc (suc zero)))))))))))))) =
    refl
digit_char-LacksColon
      (suc
        (suc (suc (suc (suc (suc (suc (suc (suc (suc (suc (suc (suc (suc (suc zero))))))))))))))) =
    refl
digit_char-LacksColon
      (suc (
        suc
          (suc (suc (suc (suc (suc (suc (suc (suc (suc (suc (suc (suc (suc (suc n)))))))))))))))) =
    refl

hex-LacksColon : (bytes : List ℕ) → LacksColon (hex bytes)
unfolding hex
hex-LacksColon [] = tt
hex-LacksColon (byte ∷ bytes) =
    (digit_char-LacksColon (byte / 16), (digit_char-LacksColon (byte % 16), hex-LacksColon bytes))

-- A password passes the check of a stored one exactly when the digests of the two, under the salt
-- of the stored one, have the same bytes; the password itself passes. The salt has no colon.
pub verify_password_hash-password_hash :
    (s : Setting) (salt password other : String)
    → LacksColon salt
    → (verify_password_hash s other (password_hash s salt password) ≡ true) ↔ (
        as_bytes (keyed_digest s (salt <> ":" <> other))
        ≡ as_bytes (keyed_digest s (salt <> ":" <> password)))
unfolding verify_password_hash password_hash keyed_digest ◌<>◌
verify_password_hash-password_hash s salt password other h =
    let digest = hex (s.keyed_hmac (salt <> ":" <> password)) in
    let parts : split b':' (password_hash s salt password)
        ≡ "hmac-sha256" ∷ "v1" ∷ salt ∷ digest ∷ [] =
      rw
        (
          split-<> salt digest h,
          split-LacksColon digest (hex-LacksColon (s.keyed_hmac (salt <> ":" <> password))),
        )
        refl in
    subst
      (λ ps.
        (check_parts s other ps ≡ true)
        ↔ (as_bytes (keyed_digest s (salt <> ":" <> other)) ≡ as_bytes digest))
      (sym parts)
      (constant_time_eq-same (as_bytes (keyed_digest s (salt <> ":" <> other))) (as_bytes digest))
