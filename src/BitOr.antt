-- ===== src/BitOr.antt =====
-- Laws of inclusive or, and of one bit of a number, at variables.
use mimo26f_afd.Prelude.{
  ℕ, zero, suc, ◌+◌, ◌*◌, ◌/◌, ◌%◌, ◌≤◌, ◌≡◌, max, refl, ap, bit_or, arith, lowest_digit,
}
use Prim.Native.Nat.{bit_or-bitwise}

pub bit_or-digit : (a b : ℕ) → bit_or a b ≡ bit_or (a / 2) (b / 2) * 2 + max (a % 2) (b % 2)
bit_or-digit a b =
    let step = lowest_digit (λ b. b) max (λ b. omega arith) a b in
    omega (arith, bit_or-bitwise a b, bit_or-bitwise (a / 2) (b / 2))

bit_or-zero_below : (n a : ℕ) → a ≤ n → bit_or a 0 ≡ a
bit_or-zero_below zero zero h = refl
bit_or-zero_below zero (suc a) h = absurd (omega arith)
bit_or-zero_below (suc n) a h =
    omega (arith, bit_or-digit a 0, bit_or-zero_below n (a / 2) (omega arith))

pub bit_or-zero : (a : ℕ) → bit_or a 0 ≡ a
bit_or-zero a = bit_or-zero_below a a (omega arith)

pub bit_or-next : (a v r : ℕ) → bit_or a (v / 2) ≡ r → bit_or (2 * a) v ≡ 2 * r + v % 2
bit_or-next a v r e =
    let half : 2 * a / 2 ≡ a = omega arith in
    let same : bit_or (2 * a / 2) (v / 2) ≡ bit_or a (v / 2) = ap (λ x. bit_or x (v / 2)) half in
    omega (arith, bit_or-digit (2 * a) v)
