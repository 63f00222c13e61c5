-- ===== src/Common/Decimal.antt =====
-- Printing numbers in a base up to 16, as `format!` does, and Rust's `str::parse` for unsigned
-- integers.
pub mod RoundTrip
use Prim.Native.Char.{Char, code}
use Prim.Native.String.{String, [], ◌∷◌}
use Prim.Native.Nat.{ℕ, zero, suc, ◌+◌, ◌-◌, ◌*◌, ◌/◌, ◌%◌}
use mathlib.Core.Path.{◌≡◌, refl}
use mathlib.Core.Bool.{Bool, ◌&&◌}
use mathlib.Core.Option.{Option, none, some}
use ponswarp_signaling_rs.Common.Tests.{if◌then◌else◌, leb, ltb, nat_beq}

-- The digit of a value below 16.
abbrev pub digit_char : ℕ → Char
digit_char zero = "0"
digit_char (suc zero) = "1"
digit_char (suc (suc zero)) = "2"
digit_char (suc (suc (suc zero))) = "3"
digit_char (suc (suc (suc (suc zero)))) = "4"
digit_char (suc (suc (suc (suc (suc zero))))) = "5"
digit_char (suc (suc (suc (suc (suc (suc zero)))))) = "6"
digit_char (suc (suc (suc (suc (suc (suc (suc zero))))))) = "7"
digit_char (suc (suc (suc (suc (suc (suc (suc (suc zero)))))))) = "8"
digit_char (suc (suc (suc (suc (suc (suc (suc (suc (suc zero))))))))) = "9"
digit_char (suc (suc (suc (suc (suc (suc (suc (suc (suc (suc n)))))))))) = letter n
  where
    letter : ℕ → Char
    letter zero = "a"
    letter (suc zero) = "b"
    letter (suc (suc zero)) = "c"
    letter (suc (suc (suc zero))) = "d"
    letter (suc (suc (suc (suc zero)))) = "e"
    letter _ = "f"

-- The digits of `n` in front of `rest`, with fuel for the number of digits.
unfoldable pub print_digits : ℕ → ℕ → ℕ → String → String
print_digits zero base n rest = rest
print_digits (suc fuel) base n rest =
    let longer = print_digits fuel base (n / base) (digit_char (n % base) ∷ rest) in
    if ltb n base then digit_char n ∷ rest else longer

-- `{}` and `{:x}`. A number has no more digits than its successor.
unfoldable pub show_decimal : ℕ → String
unfolding print_digits
show_decimal n = print_digits (suc n) 10 n []

unfoldable pub show_hex : ℕ → String
unfolding print_digits
show_hex n = print_digits (suc n) 16 n []

unfoldable pub is_digit : Char → Bool
is_digit c = leb b'0' (code c) && leb (code c) b'9'

-- The digits that are left, after those of value `acc`; a value above `max` overflows.
unfoldable pub parse_digits : ℕ → ℕ → String → Option ℕ
parse_digits max acc [] = some acc
parse_digits max acc (c ∷ s) =
    let next = acc * 10 + (code c - b'0') in
    if is_digit c && leb next max then parse_digits max next s else none

abbrev is_plus : Char → Bool
is_plus c = nat_beq (code c) b'+'

abbrev pub nonempty_digits : ℕ → String → Option ℕ
nonempty_digits max [] = none
nonempty_digits max (c ∷ s) = parse_digits max 0 (c ∷ s)

-- `s.parse::<uN>()` with `max` the largest value: one leading `+` is allowed.
unfoldable pub parse_unsigned : ℕ → String → Option ℕ
unfolding parse_digits is_digit
parse_unsigned max [] = none
parse_unsigned max (c ∷ s) = if is_plus c then nonempty_digits max s else parse_digits max 0 (c ∷ s)

decimal_tests : (show_decimal 9070 ≡ "9070") × (show_hex 0xbeef ≡ "beef")
unfolding show_decimal show_hex
decimal_tests = (refl, refl)

parse_tests :
    (parse_unsigned 65535 "3478" ≡ some 3478)
    × (parse_unsigned 65535 "65536" ≡ none)
    × (parse_unsigned 65535 "+" ≡ none)
    × (parse_unsigned 65535 "+7" ≡ some 7)
unfolding parse_unsigned
parse_tests = (refl, refl, refl, refl)
