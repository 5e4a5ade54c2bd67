-- ===== src/Wire/Crc/Table.antt =====
-- The table walk computes the bit-by-bit checksum.
use mimo26f_afd.Prelude.{
  ℕ, Bool, zero, suc, ◌+◌, ◌-◌, ◌*◌, ◌/◌, ◌%◌, ◌^◌, ◌<◌, ◌==◌, ◌≡◌, ◌⊎◌, refl, sym, ap, ◌∙◌, arith,
  inl, inr, true, ==-true, bit_and, bit_xor, none, List, [], ◌∷◌, get_or, All, bit_xor-digit,
  bit_xor-half, bit_xor-parity, zero-bit_xor, bit_xor_comm, bit_xor_assoc, bit_xor_self,
  bit_and-one, bit_and-byte,
}
use mimo26f_afd.Wire.Crc.{
  castagnoli, castagnoli_poly, bit_step, bit_steps, table_from, build_table, update_table,
  update_castagnoli, update_family, crc32c_with, bitwise_loop, crc32c_bitwise, invert,
}

odd_or_even : (a : ℕ) → (a % 2 ≡ 0) ⊎ (a % 2 ≡ 1)
odd_or_even a = ground arith

bit_step-even : (p a : ℕ) → a % 2 ≡ 0 → bit_step p a ≡ a / 2
bit_step-even p a h =
    let low : (bit_and a 1 == 0) ≡ true = ==-true (bit_and a 1) 0 (omega (arith, bit_and-one a)) in
    rw low refl

bit_step-odd : (p a : ℕ) → a % 2 ≡ 1 → bit_step p a ≡ bit_xor p (a / 2)
bit_step-odd p a h = let one : bit_and a 1 ≡ 1 = omega (arith, bit_and-one a) in rw one refl

-- The three ways to move a polynomial out of an exclusive or.
out_left : (p a b : ℕ) → bit_xor p (bit_xor a b) ≡ bit_xor (bit_xor p a) b
out_left p a b = sym (bit_xor_assoc p a b)

out_right : (p a b : ℕ) → bit_xor p (bit_xor a b) ≡ bit_xor a (bit_xor p b)
out_right p a b =
    sym (bit_xor_assoc p a b) ∙ (ap (λ x. bit_xor x b) (bit_xor_comm p a) ∙ bit_xor_assoc a p b)

out_twice : (p a b : ℕ) → bit_xor a b ≡ bit_xor (bit_xor p a) (bit_xor p b)
out_twice p a b =
    sym (zero-bit_xor (bit_xor a b))
    ∙ (ap (λ x. bit_xor x (bit_xor a b)) (sym (bit_xor_self p))
        ∙ (bit_xor_assoc p p (bit_xor a b)
            ∙ (ap (bit_xor p) (out_right p a b) ∙ out_left p a (bit_xor p b))))

-- One step respects exclusive or.
bit_step-bit_xor : (p a b : ℕ) → bit_step p (bit_xor a b) ≡ bit_xor (bit_step p a) (bit_step p b)
bit_step-bit_xor p a b = elim (odd_or_even a) [
  | inl ea ↦ elim (odd_or_even b) [
    | inl eb ↦
        rw (bit_step-even p a ea, bit_step-even p b eb)
          (bit_step-even p (bit_xor a b) (omega (arith, bit_xor-parity a b)) ∙ bit_xor-half a b)
    | inr eb ↦
        rw (bit_step-even p a ea, bit_step-odd p b eb)
          (bit_step-odd p (bit_xor a b) (omega (arith, bit_xor-parity a b))
            ∙ (ap (bit_xor p) (bit_xor-half a b) ∙ out_right p (a / 2) (b / 2)))
  ]
  | inr ea ↦ elim (odd_or_even b) [
    | inl eb ↦
        rw (bit_step-odd p a ea, bit_step-even p b eb)
          (bit_step-odd p (bit_xor a b) (omega (arith, bit_xor-parity a b))
            ∙ (ap (bit_xor p) (bit_xor-half a b) ∙ out_left p (a / 2) (b / 2)))
    | inr eb ↦
        rw (bit_step-odd p a ea, bit_step-odd p b eb)
          (bit_step-even p (bit_xor a b) (omega (arith, bit_xor-parity a b))
            ∙ (bit_xor-half a b ∙ out_twice p (a / 2) (b / 2)))
  ]
]

bit_steps-bit_xor :
    (n p a b : ℕ) → bit_steps n p (bit_xor a b) ≡ bit_xor (bit_steps n p a) (bit_steps n p b)
bit_steps-bit_xor zero p a b = refl
bit_steps-bit_xor (suc n) p a b =
    ap (bit_steps n p) (bit_step-bit_xor p a b)
    ∙ bit_steps-bit_xor n p (bit_step p a) (bit_step p b)

-- `h` moved up by `n` digits, and the numbers of at most `n` digits.
shifted : ℕ → ℕ → ℕ
shifted zero h = h
shifted (suc n) h = 2 * shifted n h

limit : ℕ → ℕ
limit zero = 1
limit (suc n) = 2 * limit n

-- `n` steps on a number with `n` zeros at the end only move it down.
bit_steps-shifted : (n p h : ℕ) → bit_steps n p (shifted n h) ≡ h
unfolding shifted
bit_steps-shifted zero p h = refl
bit_steps-shifted (suc n) p h =
    ap (bit_steps n p) (bit_step-even p (2 * shifted n h) (omega arith) ∙ omega arith)
    ∙ bit_steps-shifted n p h

bit_xor-shifted : (n l h : ℕ) → l < limit n → bit_xor l (shifted n h) ≡ l + shifted n h
unfolding shifted limit
bit_xor-shifted zero l h lt =
    let none_left : l ≡ 0 = omega arith in rw none_left (zero-bit_xor h ∙ omega arith)
bit_xor-shifted (suc n) l h lt =
    let half : 2 * shifted n h / 2 ≡ shifted n h = omega arith in
    let same : bit_xor (l / 2) (2 * shifted n h / 2) ≡ bit_xor (l / 2) (shifted n h) =
      ap (bit_xor (l / 2)) half in
    omega (arith, bit_xor-digit l (2 * shifted n h), bit_xor-shifted n (l / 2) h (omega arith))

-- A number is its lowest byte and the rest.
split_byte : (x : ℕ) → x ≡ bit_xor (x % 256) (shifted 8 (x / 256))
unfolding shifted limit
split_byte x = omega (arith, bit_xor-shifted 8 (x % 256) (x / 256) (omega arith))

get_or-table_from : (n k i p : ℕ) → i < n → get_or (table_from n k p) i 0 ≡ bit_steps 8 p (k + i)
get_or-table_from zero k i p h = absurd (omega arith)
get_or-table_from (suc n) k zero p h = ap (bit_steps 8 p) (omega arith)
get_or-table_from (suc n) k (suc i) p h =
    get_or-table_from n (k + 1) i p (omega arith) ∙ ap (bit_steps 8 p) (omega arith)

-- `x` moved down by `n` digits.
high : ℕ → ℕ → ℕ
high zero x = x
high (suc n) x = high n (x / 2)

high-bit_xor : (n a b : ℕ) → high n (bit_xor a b) ≡ bit_xor (high n a) (high n b)
unfolding high
high-bit_xor zero a b = refl
high-bit_xor (suc n) a b = ap (high n) (bit_xor-half a b) ∙ high-bit_xor n (a / 2) (b / 2)

high_byte : (x : ℕ) → high 8 x ≡ x / 256
unfolding high
high_byte x = omega arith

-- A byte does not reach the bits above the lowest eight.
above_byte : (crc b : ℕ) → b < 256 → bit_xor crc b / 256 ≡ crc / 256
above_byte crc b small =
    let gone : high 8 b ≡ 0 = high_byte b ∙ omega arith in
    sym (high_byte (bit_xor crc b))
    ∙ (high-bit_xor 8 crc b
        ∙ (ap (bit_xor (high 8 crc)) gone
            ∙ (bit_xor_comm (high 8 crc) 0 ∙ (zero-bit_xor (high 8 crc) ∙ high_byte crc))))

-- One byte by the table.
table_step :
    (p crc b : ℕ)
    → b < 256
    → bit_xor (get_or (table_from 256 0 p) (bit_and (bit_xor crc b) 0xff) 0) (crc / 2 ^ 8)
      ≡ bit_steps 8 p (bit_xor crc b)
table_step p crc b small =
    let x = bit_xor crc b in
    let lo = x % 256 in
    let hi = x / 256 in
    let entry : get_or (table_from 256 0 p) (bit_and x 0xff) 0 ≡ bit_steps 8 p lo =
      ap (λ i. get_or (table_from 256 0 p) i 0) (bit_and-byte x)
      ∙ (get_or-table_from 256 0 lo p (omega arith) ∙ ap (bit_steps 8 p) (omega arith)) in
    let rest : crc / 2 ^ 8 ≡ bit_steps 8 p (shifted 8 hi) =
      sym (above_byte crc b small) ∙ sym (bit_steps-shifted 8 p hi) in
    ap (λ e. bit_xor e (crc / 2 ^ 8)) entry
    ∙ (ap (bit_xor (bit_steps 8 p lo)) rest
        ∙ (sym (bit_steps-bit_xor 8 p lo (shifted 8 hi)) ∙ ap (bit_steps 8 p) (sym (split_byte x))))

pub update_table-bitwise_loop :
    (bytes : List ℕ) (crc : ℕ)
    → All (λ b. b < 256) bytes
    → update_table (table_from 256 0 castagnoli_poly) crc bytes ≡ bitwise_loop crc bytes
unfolding update_table bitwise_loop
update_table-bitwise_loop [] crc h = refl
update_table-bitwise_loop (b ∷ bytes) crc (small, h) =
    ap (λ c. update_table (table_from 256 0 castagnoli_poly) c bytes)
      (table_step castagnoli_poly crc b small)
    ∙ update_table-bitwise_loop bytes (bit_steps 8 castagnoli_poly (bit_xor crc b)) h

-- On bytes below 256, the checksum by the table is the checksum bit by bit.
pub crc32c_with-bitwise :
    (bytes : List ℕ) (off : Bool)
    → All (λ b. b < 256) bytes
    → crc32c_with (record { crc_disabled = off; hardware = none }) castagnoli bytes
      ≡ crc32c_bitwise bytes
unfolding crc32c_with update_family update_castagnoli build_table crc32c_bitwise
crc32c_with-bitwise bytes off h = ap invert (update_table-bitwise_loop bytes (2 ^ 32 - 1) h)
