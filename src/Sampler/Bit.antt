-- ===== src/Sampler/Bit.antt =====
-- One bit of a number under inclusive or.
use mimo26f_afd.Prelude.{
  ℕ, Bool, true, false, zero, suc, ◌*◌, ◌/◌, ◌%◌, ◌^◌, ◌≤◌, ◌<◌, ◌≡◌, ◌==◌, not, sym, ap, ◌∙◌,
  bit_and, bit_or, bit_and-digit, bit_and-one, arith, if◌then◌else◌,
}
use mimo26f_afd.BitOr.{bit_or-digit, bit_or-zero}
use native.Mathlib.Nat.{pow-le-pow_right}

pow-suc : (k : ℕ) → 2 ^ suc k ≡ 2 * 2 ^ k
pow-suc k = omega arith

pub pow-pos : (k : ℕ) → 0 < 2 ^ k
pow-pos zero = omega arith
pow-pos (suc k) = omega (arith, pow-suc k, pow-pos k)

pub pow-lt : (k : ℕ) → k < 64 → 2 ^ k < 2 ^ 64
pow-lt k h =
    let le : 2 ^ k ≤ 2 ^ 63 =
      pow-le-pow_right {n = 2} (omega arith) {i = k} {j = 63} (omega arith) in
    omega arith

-- Bit `k` of `a`.
abbrev pub bit_at : ℕ → ℕ → Bool
bit_at a k = not (bit_and a (2 ^ k) == 0)

bit_and-pow : (a k : ℕ) → bit_and a (2 ^ suc k) ≡ 2 * bit_and (a / 2) (2 ^ k)
bit_and-pow a k =
    let half : 2 ^ suc k / 2 ≡ 2 ^ k = omega (arith, pow-suc k) in
    let low : 2 ^ suc k % 2 ≡ 0 = omega (arith, pow-suc k) in
    let same : bit_and (a / 2) (2 ^ suc k / 2) ≡ bit_and (a / 2) (2 ^ k) =
      ap (bit_and (a / 2)) half in
    omega (arith, bit_and-digit a (2 ^ suc k))

bit_or-pow :
    (a k : ℕ)
    → (bit_or a (2 ^ suc k) / 2 ≡ bit_or (a / 2) (2 ^ k)) × (bit_or a (2 ^ suc k) % 2 ≡ a % 2)
bit_or-pow a k =
    let half : 2 ^ suc k / 2 ≡ 2 ^ k = omega (arith, pow-suc k) in
    let low : 2 ^ suc k % 2 ≡ 0 = omega (arith, pow-suc k) in
    let same : bit_or (a / 2) (2 ^ suc k / 2) ≡ bit_or (a / 2) (2 ^ k) = ap (bit_or (a / 2)) half in
    let d = bit_or-digit a (2 ^ suc k) in (omega arith, omega arith)

bit_or-one : (a : ℕ) → (bit_or a 1 / 2 ≡ a / 2) × (bit_or a 1 % 2 ≡ 1)
bit_or-one a = let d = bit_or-digit a 1 in let z = bit_or-zero (a / 2) in (omega arith, omega arith)

bit_test : (x y : ℕ) → (x ≡ 0 → y ≡ 0) → (y ≡ 0 → x ≡ 0) → not (x == 0) ≡ not (y == 0)
bit_test x y h g = ground arith

bit_at-suc : (a k : ℕ) → bit_at a (suc k) ≡ bit_at (a / 2) k
bit_at-suc a k =
    let e = bit_and-pow a k in
    bit_test (bit_and a (2 ^ suc k)) (bit_and (a / 2) (2 ^ k)) (λ h. omega arith) (λ h. omega arith)

bit_at-first : (a : ℕ) → bit_at a 0 ≡ not (a % 2 == 0)
bit_at-first a = ap (λ x. not (x == 0)) (bit_and-one a)

-- Setting bit `k` sets that bit and no other.
pub bit_at-bit_or :
    (k j a : ℕ) → bit_at (bit_or a (2 ^ k)) j ≡ (if k == j then true else bit_at a j)
bit_at-bit_or zero zero a = bit_at-first (bit_or a 1) ∙ ap (λ x. not (x == 0)) (bit_or-one a).1
bit_at-bit_or zero (suc j) a =
    bit_at-suc (bit_or a 1) j
    ∙ (ap (λ x. bit_at x j) (bit_or-one a).0 ∙ (sym (bit_at-suc a j) ∙ other))
  where
    other : bit_at a (suc j) ≡ (if zero == suc j then true else bit_at a (suc j))
    other = ground arith
bit_at-bit_or (suc k) zero a =
    bit_at-first (bit_or a (2 ^ suc k))
    ∙ (ap (λ x. not (x == 0)) (bit_or-pow a k).1 ∙ (sym (bit_at-first a) ∙ other))
  where
    other : bit_at a 0 ≡ (if suc k == zero then true else bit_at a 0)
    other = ground arith
bit_at-bit_or (suc k) (suc j) a =
    bit_at-suc (bit_or a (2 ^ suc k)) j
    ∙ (ap (λ x. bit_at x j) (bit_or-pow a k).0
        ∙ (bit_at-bit_or k j (a / 2)
            ∙ ap (λ x. if k == j then true else x) (sym (bit_at-suc a j))
            ∙ same))
  where
    same :
        (if k == j then true else bit_at a (suc j))
        ≡ (if suc k == suc j then true else bit_at a (suc j))
    same = ground arith

pub bit_at_zero : (k : ℕ) → bit_at 0 k ≡ false
bit_at_zero zero = bit_at-first 0
bit_at_zero (suc k) = bit_at-suc 0 k ∙ bit_at_zero k
