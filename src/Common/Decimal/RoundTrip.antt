-- ===== src/Common/Decimal/RoundTrip.antt =====
-- Parsing a printed number gives it back, and what characters a printed number has.
use Prim.Native.Char.{code}
use Prim.Native.String.{String, [], ◌∷◌}
use Prim.Native.Nat.{ℕ, zero, suc, ◌+◌, ◌*◌, ◌/◌, ◌%◌, ◌<◌, ◌≤◌}
use mathlib.Core.Path.{◌≡◌, refl, ◌∙◌, ap}
use mathlib.Core.Logic.{inl, inr}
use mathlib.Core.Bool.{Bool, true, false}
use mathlib.Core.Option.{some}
use native.Mathlib.Omega.{arith}
use ponswarp_signaling_rs.Common.Tests.{ltb, Bool-cases}
use ponswarp_signaling_rs.Common.Decimal.{
  digit_char, print_digits, show_decimal, is_digit, parse_digits, parse_unsigned,
}

code-digit_char : (d : ℕ) → d < 10 → code (digit_char d) ≡ b'0' + d
code-digit_char zero h = refl
code-digit_char (suc zero) h = refl
code-digit_char (suc (suc zero)) h = refl
code-digit_char (suc (suc (suc zero))) h = refl
code-digit_char (suc (suc (suc (suc zero)))) h = refl
code-digit_char (suc (suc (suc (suc (suc zero))))) h = refl
code-digit_char (suc (suc (suc (suc (suc (suc zero)))))) h = refl
code-digit_char (suc (suc (suc (suc (suc (suc (suc zero))))))) h = refl
code-digit_char (suc (suc (suc (suc (suc (suc (suc (suc zero)))))))) h = refl
code-digit_char (suc (suc (suc (suc (suc (suc (suc (suc (suc zero))))))))) h = refl
code-digit_char (suc (suc (suc (suc (suc (suc (suc (suc (suc (suc d)))))))))) h =
    absurd (omega arith)

-- A predicate on the characters, which every digit meets.
module _ (P : ℕ → Bool) (digits : (d : ℕ) → d < 10 → P (b'0' + d) ≡ true) where
  abbrev pub AllCodes : String → Type 0
  AllCodes [] = Unit
  AllCodes (c ∷ s) = (P (code c) ≡ true) × AllCodes s

  print_digits-AllCodes :
      (fuel n : ℕ) (rest : String) → AllCodes rest → AllCodes (print_digits fuel 10 n rest)
  unfolding print_digits
  print_digits-AllCodes zero n rest h = h
  print_digits-AllCodes (suc fuel) n rest h = elim (Bool-cases (ltb n 10)) [
    | inl small ↦
        let below : n < 10 = ground arith in
        rw small (rw (code-digit_char n below) (digits n below), h)
    | inr big ↦ rw big (
        print_digits-AllCodes fuel (n / 10) (digit_char (n % 10) ∷ rest)
          (rw (code-digit_char (n % 10) (omega arith)) (digits (n % 10) (omega arith)), h))
  ]

  pub show_decimal-AllCodes : (n : ℕ) → AllCodes (show_decimal n)
  unfolding show_decimal
  show_decimal-AllCodes n = print_digits-AllCodes (suc n) n [] tt

digit_step :
    (max acc d : ℕ) (rest : String)
    → d < 10
    → acc * 10 + d ≤ max
    → parse_digits max acc (digit_char d ∷ rest) ≡ parse_digits max (acc * 10 + d) rest
unfolding parse_digits is_digit
digit_step max acc d rest h k = ground (arith, code-digit_char d h)

parse-print_digits :
    (max fuel n : ℕ) (rest : String)
    → n < fuel
    → n ≤ max
    → parse_digits max 0 (print_digits fuel 10 n rest) ≡ parse_digits max n rest
unfolding print_digits
parse-print_digits max zero n rest h k = absurd (omega arith)
parse-print_digits max (suc fuel) n rest h k = elim (Bool-cases (ltb n 10)) [
  | inl small ↦ rw small (
      digit_step max 0 n rest (ground arith) (omega arith)
      ∙ ap (λ x. parse_digits max x rest) (omega arith))
  | inr big ↦ rw big (
      parse-print_digits max fuel (n / 10) (digit_char (n % 10) ∷ rest) (ground arith) (omega arith)
      ∙ digit_step max (n / 10) (n % 10) rest (omega arith) (omega arith)
      ∙ ap (λ x. parse_digits max x rest) (omega arith))
]

-- Whether a text begins with a digit.
starts_digit : String → Bool
starts_digit [] = false
starts_digit (c ∷ s) = is_digit c

print_digits-starts_digit :
    (fuel n : ℕ) (rest : String) → n < fuel → starts_digit (print_digits fuel 10 n rest) ≡ true
unfolding print_digits starts_digit is_digit
print_digits-starts_digit zero n rest h = absurd (omega arith)
print_digits-starts_digit (suc fuel) n rest h = elim (Bool-cases (ltb n 10)) [
  | inl small ↦ rw small (ground (arith, code-digit_char n (ground arith)))
  | inr big ↦
      rw big (print_digits-starts_digit fuel (n / 10) (digit_char (n % 10) ∷ rest) (ground arith))
]

parse_unsigned_digits :
    (max : ℕ) (s : String) → starts_digit s ≡ true → parse_unsigned max s ≡ parse_digits max 0 s
unfolding parse_unsigned starts_digit is_digit
parse_unsigned_digits max [] h = cc
parse_unsigned_digits max (c ∷ s) h = ground arith

-- A number that fits is read back from its decimal digits.
pub parse_unsigned-show_decimal :
    (max n : ℕ) → n ≤ max → parse_unsigned max (show_decimal n) ≡ some n
unfolding show_decimal
parse_unsigned-show_decimal max n h =
    parse_unsigned_digits max _ (print_digits-starts_digit (suc n) n [] (omega arith))
    ∙ parse-print_digits max (suc n) n [] (omega arith) h
    ∙ (unfold parse_digits in refl)
