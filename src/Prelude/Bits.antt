-- ===== src/Prelude/Bits.antt =====
-- Laws of exclusive or, and of a mask of ones, at variables.
use Prim.Native.Nat.{
  ℕ, zero, suc, ◌+◌, ◌*◌, ◌/◌, ◌%◌, ◌≤◌, ◌<◌, min, bit_and, bit_xor, bit_and-bitwise,
  bit_xor-bitwise, digits, differ,
}
use mathlib.Core.Path.{◌≡◌, refl, sym, ap, ◌∙◌}
use native.Mathlib.Omega.{arith}

-- The digits of a result, from the lowest on, for an operation that fits its value at a first number
-- that has run out.
module _ (z : ℕ → ℕ) (f : ℕ → ℕ → ℕ) (stops : (b : ℕ) → z b ≡ z (b / 2) * 2 + f 0 (b % 2)) where
  enough_digits : (n m a b : ℕ) → a ≤ n → a ≤ m → digits z f n a b ≡ digits z f m a b
  enough_digits zero zero a b h k = refl
  enough_digits zero (suc m) zero b h k = refl
  enough_digits zero (suc m) (suc a) b h k = absurd (omega arith)
  enough_digits (suc n) zero zero b h k = refl
  enough_digits (suc n) zero (suc a) b h k = absurd (omega arith)
  enough_digits (suc n) (suc m) zero b h k = refl
  enough_digits (suc n) (suc m) (suc a) b h k =
      ap (λ d. d * 2 + f (suc a % 2) (b % 2))
        (enough_digits n m (suc a / 2) (b / 2) (omega arith) (omega arith))

  pub lowest_digit :
      (a b : ℕ) → digits z f a a b ≡ digits z f (a / 2) (a / 2) (b / 2) * 2 + f (a % 2) (b % 2)
  lowest_digit zero b = stops b
  lowest_digit (suc a) b =
      ap (λ d. d * 2 + f (suc a % 2) (b % 2))
        (enough_digits a (suc a / 2) (suc a / 2) (b / 2) (omega arith) (omega arith))

differ_digits : (a b : ℕ) → a < 2 → b < 2 → differ a b ≡ (a + b) % 2
differ_digits zero b h k = omega arith
differ_digits (suc zero) zero h k = refl
differ_digits (suc zero) (suc zero) h k = refl
differ_digits (suc zero) (suc (suc b)) h k = absurd (omega arith)
differ_digits (suc (suc a)) b h k = absurd (omega arith)

pub bit_xor-digit : (a b : ℕ) → bit_xor a b ≡ bit_xor (a / 2) (b / 2) * 2 + (a + b) % 2
bit_xor-digit a b =
    let low = differ_digits (a % 2) (b % 2) (omega arith) (omega arith) in
    let step = lowest_digit (λ b. b) differ (λ b. omega arith) a b in
    omega (arith, bit_xor-bitwise a b, bit_xor-bitwise (a / 2) (b / 2))

pub bit_and-digit : (a b : ℕ) → bit_and a b ≡ bit_and (a / 2) (b / 2) * 2 + min (a % 2) (b % 2)
bit_and-digit a b =
    let step = lowest_digit (λ b. 0) min (λ b. omega arith) a b in
    omega (arith, bit_and-bitwise a b, bit_and-bitwise (a / 2) (b / 2))

pub bit_xor-half : (a b : ℕ) → bit_xor a b / 2 ≡ bit_xor (a / 2) (b / 2)
bit_xor-half a b = omega (arith, bit_xor-digit a b)

pub bit_xor-parity : (a b : ℕ) → bit_xor a b % 2 ≡ (a + b) % 2
bit_xor-parity a b = omega (arith, bit_xor-digit a b)

pub zero-bit_xor : (b : ℕ) → bit_xor 0 b ≡ b
zero-bit_xor b = bit_xor-bitwise 0 b

-- The laws by induction on a bound of the numbers.
bit_xor-comm_below : (n a b : ℕ) → a ≤ n → b ≤ n → bit_xor a b ≡ bit_xor b a
bit_xor-comm_below zero zero zero h k = refl
bit_xor-comm_below zero zero (suc b) h k = absurd (omega arith)
bit_xor-comm_below zero (suc a) b h k = absurd (omega arith)
bit_xor-comm_below (suc n) a b h k =
    let rest = bit_xor-comm_below n (a / 2) (b / 2) (omega arith) (omega arith) in
    omega (arith, bit_xor-digit a b, bit_xor-digit b a)

pub bit_xor_comm : (a b : ℕ) → bit_xor a b ≡ bit_xor b a
bit_xor_comm a b = bit_xor-comm_below (a + b) a b (omega arith) (omega arith)

bit_xor-assoc_below :
    (n a b c : ℕ) → a ≤ n → b ≤ n → c ≤ n → bit_xor (bit_xor a b) c ≡ bit_xor a (bit_xor b c)
bit_xor-assoc_below zero zero zero c h k l =
    ap (λ x. bit_xor x c) (zero-bit_xor 0) ∙ sym (zero-bit_xor (bit_xor 0 c))
bit_xor-assoc_below zero zero (suc b) c h k l = absurd (omega arith)
bit_xor-assoc_below zero (suc a) b c h k l = absurd (omega arith)
bit_xor-assoc_below (suc n) a b c h k l =
    let rest =
      bit_xor-assoc_below n (a / 2) (b / 2) (c / 2) (omega arith) (omega arith) (omega arith) in
    let left = bit_xor-digit (bit_xor a b) c in
    let right = bit_xor-digit a (bit_xor b c) in
    let left_half : bit_xor (bit_xor a b / 2) (c / 2) ≡ bit_xor (bit_xor (a / 2) (b / 2)) (c / 2) =
      ap (λ x. bit_xor x (c / 2)) (bit_xor-half a b) in
    let right_half : bit_xor (a / 2) (bit_xor b c / 2) ≡ bit_xor (a / 2) (bit_xor (b / 2) (c / 2)) =
      ap (bit_xor (a / 2)) (bit_xor-half b c) in
    omega (arith, bit_xor-parity a b, bit_xor-parity b c)

pub bit_xor_assoc : (a b c : ℕ) → bit_xor (bit_xor a b) c ≡ bit_xor a (bit_xor b c)
bit_xor_assoc a b c =
    bit_xor-assoc_below (a + b + c) a b c (omega arith) (omega arith) (omega arith)

bit_xor-self_below : (n a : ℕ) → a ≤ n → bit_xor a a ≡ 0
bit_xor-self_below zero zero h = refl
bit_xor-self_below zero (suc a) h = absurd (omega arith)
bit_xor-self_below (suc n) a h =
    omega (arith, bit_xor-self_below n (a / 2) (omega arith), bit_xor-digit a a)

pub bit_xor_self : (a : ℕ) → bit_xor a a ≡ 0
bit_xor_self a = bit_xor-self_below a a (omega arith)

zero-bit_and : (b : ℕ) → bit_and 0 b ≡ 0
zero-bit_and b = bit_and-bitwise 0 b

bit_and-zero_below : (n a : ℕ) → a ≤ n → bit_and a 0 ≡ 0
bit_and-zero_below zero zero h = refl
bit_and-zero_below zero (suc a) h = absurd (omega arith)
bit_and-zero_below (suc n) a h =
    omega (arith, bit_and-zero_below n (a / 2) (omega arith), bit_and-digit a 0)

-- A mask of ones takes a remainder.
pub bit_and-one : (a : ℕ) → bit_and a 1 ≡ a % 2
bit_and-one a = omega (arith, bit_and-digit a 1, bit_and-zero_below (a / 2) (a / 2) (omega arith))

bit_and-next : (a m r : ℕ) → bit_and (a / 2) m ≡ r → bit_and a (2 * m + 1) ≡ 2 * r + a % 2
bit_and-next a m r e =
    let half : (2 * m + 1) / 2 ≡ m = omega arith in
    let same : bit_and (a / 2) ((2 * m + 1) / 2) ≡ bit_and (a / 2) m = ap (bit_and (a / 2)) half in
    omega (arith, bit_and-digit a (2 * m + 1))

bit_and-fifteen : (a : ℕ) → bit_and a 0xf ≡ a % 16
bit_and-fifteen a =
    let r =
      bit_and-next a 7 _
        (bit_and-next (a / 2) 3 _ (bit_and-next (a / 2 / 2) 1 _ (bit_and-one (a / 2 / 2 / 2)))) in
    omega arith

pub bit_and-byte : (a : ℕ) → bit_and a 0xff ≡ a % 256
bit_and-byte a =
    let r = bit_and-next a 127 _ (
      bit_and-next (a / 2) 63 _ (
        bit_and-next (a / 2 / 2) 31 _
          (bit_and-next (a / 2 / 2 / 2) 15 _ (bit_and-fifteen (a / 2 / 2 / 2 / 2))))) in
    omega arith
