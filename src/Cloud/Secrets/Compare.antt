-- ===== src/Cloud/Secrets/Compare.antt =====
-- That the comparison in constant time is equality (src/handlers/cloud_share.rs).
use Prim.Native.Nat.{bit_or, bit_xor, bit_or-bitwise, bit_xor-bitwise, digits, differ, max}
use ponswarp_signaling_rs.Common.{
  ℕ, zero, suc, ◌/◌, ◌%◌, ◌≤◌, true, List, [], ◌∷◌, nat_beq, ◌≡◌, refl, ap, sym, subst, ◌∙◌, arith,
  length, Bool-cases, inl, inr, ◌↔◌, nat_beq_iff,
}
use ponswarp_signaling_rs.Cloud.Secrets.{differences, constant_time_eq}

differ-same : (x y : ℕ) → differ x y ≡ 0 → x ≡ y
differ-same zero y e = sym e
differ-same (suc x) zero e = e
differ-same (suc x) (suc y) e = ap suc (differ-same x y e)

differ_self : (x : ℕ) → differ x x ≡ 0
differ_self zero = refl
differ_self (suc x) = differ_self x

digits-same : (n a b : ℕ) → a ≤ n → digits (λ b. b) differ n a b ≡ 0 → a ≡ b
digits-same zero zero b h e = sym e
digits-same zero (suc a) b h e = absurd (omega arith)
digits-same (suc n) zero b h e = sym e
digits-same (suc n) (suc a) b h e = omega (
  arith,
  differ-same (suc a % 2) (b % 2) (omega arith),
  digits-same n (suc a / 2) (b / 2) (omega arith) (omega arith),
)

digits_self : (n a : ℕ) → a ≤ n → digits (λ b. b) differ n a a ≡ 0
digits_self zero zero h = refl
digits_self zero (suc a) h = absurd (omega arith)
digits_self (suc n) zero h = refl
digits_self (suc n) (suc a) h =
    omega (arith, differ_self (suc a % 2), digits_self n (suc a / 2) (omega arith))

bit_xor-same : (a b : ℕ) → bit_xor a b ≡ 0 → a ≡ b
bit_xor-same a b e = digits-same a a b (omega arith) (sym (bit_xor-bitwise a b) ∙ e)

max-zeros : (x y : ℕ) → max x y ≡ 0 → (x ≡ 0) × (y ≡ 0)
max-zeros x y e = (omega arith, omega arith)

digits-zeros : (n a b : ℕ) → a ≤ n → digits (λ b. b) max n a b ≡ 0 → (a ≡ 0) × (b ≡ 0)
digits-zeros zero zero b h e = (refl, e)
digits-zeros zero (suc a) b h e = absurd (omega arith)
digits-zeros (suc n) zero b h e = (refl, e)
digits-zeros (suc n) (suc a) b h e =
    let (left, right) = digits-zeros n (suc a / 2) (b / 2) (omega arith) (omega arith) in
    let (low, high) = max-zeros (suc a % 2) (b % 2) (omega arith) in (omega arith, omega arith)

bit_or-zeros : (a b : ℕ) → bit_or a b ≡ 0 → (a ≡ 0) × (b ≡ 0)
bit_or-zeros a b e = digits-zeros a a b (omega arith) (sym (bit_or-bitwise a b) ∙ e)

bit_or-bit_xor : (a : ℕ) → bit_or 0 (bit_xor a a) ≡ 0
bit_or-bit_xor a =
    bit_or-bitwise 0 (bit_xor a a) ∙ (bit_xor-bitwise a a ∙ digits_self a a (omega arith))

differences-same :
    (diff : ℕ) (left right : List ℕ)
    → length left ≡ length right
    → differences diff left right ≡ 0
    → (diff ≡ 0) × (left ≡ right)
unfolding differences
differences-same diff [] [] h e = (e, refl)
differences-same diff [] (b ∷ right) h e = absurd (omega arith)
differences-same diff (a ∷ left) [] h e = absurd (omega arith)
differences-same diff (a ∷ left) (b ∷ right) h e =
    let (none_yet, rest) =
      differences-same (bit_or diff (bit_xor a b)) left right (omega arith) e in
    let (none_before, same) = bit_or-zeros diff (bit_xor a b) none_yet in
    (none_before, rw (bit_xor-same a b same, rest) refl)

differences_self : (left : List ℕ) → differences 0 left left ≡ 0
unfolding differences
differences_self [] = refl
differences_self (a ∷ left) = rw (bit_or-bit_xor a) (differences_self left)

pub constant_time_eq-same :
    (left right : List ℕ) → (constant_time_eq left right ≡ true) ↔ (left ≡ right)
unfolding constant_time_eq
constant_time_eq-same left right = (there, back)
  where
    there : constant_time_eq left right ≡ true → left ≡ right
    there e = elim (Bool-cases (nat_beq (length left) (length right))) [
      | inl alike ↦
          (differences-same 0 left right ((nat_beq_iff _ _).0 alike)
            ((nat_beq_iff _ _).0 (ground (arith, e, alike)))).1
      | inr unlike ↦ absurd (ground (arith, e, unlike))
    ]

    back : left ≡ right → constant_time_eq left right ≡ true
    back same =
        subst (λ other. constant_time_eq left other ≡ true) same
          (ground (arith, differences_self left))
