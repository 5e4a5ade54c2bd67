-- ===== src/Wire/Tests/Checksums.antt =====
-- Checksums on a machine with CRC instructions: their documented behaviour, written out.
use mimo26f_afd.Prelude.{
  ℕ, false, zero, suc, ◌-◌, ◌*◌, ◌/◌, ◌%◌, ◌^◌, ◌<◌, ◌≡◌, refl, ap, arith, bit_xor, bit_xor-digit,
  some, List, [], ◌∷◌, replicate, ◌++◌, length, ◌∙◌,
}
use mathlib.Core.Path.{ap₂}
use mimo26f_afd.Wire.Bytes.{put, to_le_bytes, from_le_bytes, from_le_bytes-cons}
use mimo26f_afd.Wire.Crc.{
  CrcInstructions, sse42, Process, castagnoli, castagnoli_poly, bit_step, bit_steps, tail_loop,
  chunk_loop, update_sse42, update_arm_crc, crc32c_with, crc32c_zeroed, crc32c_bitwise,
  bitwise_loop,
}
use mimo26f_afd.Wire.Crc.Hardware.{Bytes, Documented}
use mimo26f_afd.Wire.Crc.Zeroed.{crc32c_zeroed_lem}

limit : ℕ → ℕ
limit zero = 1
limit (suc n) = 2 * limit n

bit_xor-below : (n a b : ℕ) → a < limit n → b < limit n → bit_xor a b < limit n
unfolding limit
bit_xor-below zero zero zero h k = omega arith
bit_xor-below zero zero (suc b) h k = absurd (omega arith)
bit_xor-below zero (suc a) b h k = absurd (omega arith)
bit_xor-below (suc n) a b h k =
    omega (arith, bit_xor-digit a b, bit_xor-below n (a / 2) (b / 2) (omega arith) (omega arith))

in_32_bits : limit 32 ≡ 2 ^ 32
unfolding limit
in_32_bits = refl

bit_xor-u32 : (a b : ℕ) → a < 2 ^ 32 → b < 2 ^ 32 → bit_xor a b < 2 ^ 32
bit_xor-u32 a b h k = omega (
  arith,
  in_32_bits,
  bit_xor-below 32 a b (omega (arith, in_32_bits)) (omega (arith, in_32_bits)),
)

bit_steps-u32 : (n c : ℕ) → c < 2 ^ 32 → bit_steps n castagnoli_poly c < 2 ^ 32
bit_steps-u32 zero c h = h
bit_steps-u32 (suc n) c h =
    bit_steps-u32 n (bit_step castagnoli_poly c)
      (ground (arith, bit_xor-u32 castagnoli_poly (c / 2)))

abbrev byte_at_a_time : ℕ → ℕ → ℕ
byte_at_a_time crc b = bit_steps 8 castagnoli_poly (bit_xor crc b)

abbrev cpu : CrcInstructions
cpu = record {
  crc32_u8 = byte_at_a_time;
  crc32_u64 = λ crc word. tail_loop byte_at_a_time crc (to_le_bytes 8 word);
}

to_le_bytes-from_le_bytes :
    (xs : List ℕ) → Bytes xs → to_le_bytes (length xs) (from_le_bytes xs) ≡ xs
to_le_bytes-from_le_bytes [] h = refl
to_le_bytes-from_le_bytes (x ∷ xs) (low, h) =
    let digit : from_le_bytes (x ∷ xs) % 256 ≡ x = omega (arith, from_le_bytes-cons x xs) in
    let rest : from_le_bytes (x ∷ xs) / 256 ≡ from_le_bytes xs =
      omega (arith, from_le_bytes-cons x xs) in
    ap₂ (λ d l. d ∷ l) digit (ap (to_le_bytes (length xs)) rest ∙ to_le_bytes-from_le_bytes xs h)

cpu-Documented : Documented cpu
cpu-Documented = record {
  byte = λ crc b h low. refl;
  word = λ crc a b c d e f g h range small.
      ap (tail_loop byte_at_a_time crc)
        (to_le_bytes-from_le_bytes (a ∷ b ∷ c ∷ d ∷ e ∷ f ∷ g ∷ h ∷ []) small);
  range = λ crc b h low. bit_steps-u32 8 (bit_xor crc b) (bit_xor-u32 crc b h (omega arith));
}

abbrev by_sse42 : Process
by_sse42 = record { crc_disabled = false; hardware = some (sse42 cpu) }

-- 23 bytes: two chunks of eight and a tail of seven.
abbrev payload : List ℕ
payload = replicate 20 5 ++ (1 ∷ 2 ∷ 3 ∷ [])

chunks_and_tail : update_sse42 cpu (2 ^ 32 - 1) payload ≡ bitwise_loop (2 ^ 32 - 1) payload
unfolding update_sse42 chunk_loop tail_loop bitwise_loop from_le_bytes
chunks_and_tail = refl

chunks_and_tail_on_arm : update_arm_crc cpu (2 ^ 32 - 1) payload ≡ bitwise_loop (2 ^ 32 - 1) payload
unfolding update_arm_crc chunk_loop tail_loop bitwise_loop from_le_bytes
chunks_and_tail_on_arm = refl

all_fives : (n : ℕ) → Bytes (replicate n 5)
all_fives zero = tt
all_fives (suc n) = (omega arith, all_fives n)

crc32c_zeroed_lem_example :
    (crc32c_zeroed by_sse42 castagnoli (replicate 200 5) 121
      ≡ crc32c_with by_sse42 castagnoli (put (replicate 200 5) 121 (replicate 4 0)))
    × (crc32c_zeroed by_sse42 castagnoli (replicate 200 5) 121
        ≡ crc32c_bitwise (put (replicate 200 5) 121 (replicate 4 0)))
crc32c_zeroed_lem_example =
    crc32c_zeroed_lem by_sse42 castagnoli (replicate 200 5) 121 cpu-Documented (all_fives 200)
