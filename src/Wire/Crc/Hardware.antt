-- ===== src/Wire/Crc/Hardware.antt =====
-- crates/mimo26-wire/src/crc32c.rs: the update on CRC instructions works through the bytes one by one.
use mimo26f_afd.Prelude.{
  ℕ, zero, suc, ◌*◌, ◌/◌, ◌%◌, ◌^◌, ◌≤◌, ◌<◌, ◌≡◌, refl, sym, ap, ◌∙◌, arith, bit_xor, List, [],
  ◌∷◌, ◌++◌, length, length-take, length-drop, take, drop, take-append-drop, All,
}
use mimo26f_afd.Wire.Bytes.{from_le_bytes}
use mimo26f_afd.Wire.Crc.{
  CrcInstructions, chunk_loop, tail_loop, update_sse42, update_arm_crc, bit_steps, bitwise_loop,
  castagnoli_poly,
}

abbrev pub Bytes : List ℕ → Type 0
Bytes xs = All (λ b. b < 256) xs

-- What the processors' manuals say of the instructions: that on a byte takes the CRC32C's eight steps, the
-- one on eight bytes does as that on a byte for each of its bytes from the lowest on, and the result has
-- 32 bits.
pub record Documented (cpu : CrcInstructions) : Type 0 where
  pub byte :
      (crc b : ℕ)
      → crc < 2 ^ 32
      → b < 256
      → cpu.crc32_u8 crc b ≡ bit_steps 8 castagnoli_poly (bit_xor crc b)
  pub word :
      (crc a b c d e f g h : ℕ)
      → crc < 2 ^ 32
      → Bytes (a ∷ b ∷ c ∷ d ∷ e ∷ f ∷ g ∷ h ∷ [])
      → cpu.crc32_u64 crc (from_le_bytes (a ∷ b ∷ c ∷ d ∷ e ∷ f ∷ g ∷ h ∷ []))
        ≡ tail_loop cpu.crc32_u8 crc (a ∷ b ∷ c ∷ d ∷ e ∷ f ∷ g ∷ h ∷ [])
  pub range : (crc b : ℕ) → crc < 2 ^ 32 → b < 256 → cpu.crc32_u8 crc b < 2 ^ 32

pub tail_loop-append :
    (run : ℕ → ℕ → ℕ) (xs ys : List ℕ) (crc : ℕ)
    → tail_loop run crc (xs ++ ys) ≡ tail_loop run (tail_loop run crc xs) ys
unfolding tail_loop
tail_loop-append run [] ys crc = refl
tail_loop-append run (x ∷ xs) ys crc = tail_loop-append run xs ys (run crc x)

pub Bytes-take : (n : ℕ) (xs : List ℕ) → Bytes xs → Bytes (take n xs)
Bytes-take zero xs h = tt
Bytes-take (suc n) [] h = tt
Bytes-take (suc n) (x ∷ xs) (low, h) = (low, Bytes-take n xs h)

pub Bytes-drop : (n : ℕ) (xs : List ℕ) → Bytes xs → Bytes (drop n xs)
Bytes-drop zero xs h = h
Bytes-drop (suc n) [] h = tt
Bytes-drop (suc n) (x ∷ xs) (low, h) = Bytes-drop n xs h

module _ (cpu : CrcInstructions) (doc : Documented cpu) where
  pub tail_loop-range :
      (xs : List ℕ) (crc : ℕ) → crc < 2 ^ 32 → Bytes xs → tail_loop cpu.crc32_u8 crc xs < 2 ^ 32
  unfolding tail_loop
  tail_loop-range [] crc h small = h
  tail_loop-range (x ∷ xs) crc h (low, small) =
      tail_loop-range xs (cpu.crc32_u8 crc x) (doc.range crc x h low) small

  -- The first eight bytes at once, and one by one.
  one_chunk :
      (xs : List ℕ) (crc : ℕ)
      → crc < 2 ^ 32
      → Bytes xs
      → length xs ≡ 8
      → cpu.crc32_u64 crc (from_le_bytes xs) ≡ tail_loop cpu.crc32_u8 crc xs
  one_chunk [] crc h small len = absurd (omega arith)
  one_chunk (a ∷ []) crc h small len = absurd (omega arith)
  one_chunk (a ∷ b ∷ []) crc h small len = absurd (omega arith)
  one_chunk (a ∷ b ∷ c ∷ []) crc h small len = absurd (omega arith)
  one_chunk (a ∷ b ∷ c ∷ d ∷ []) crc h small len = absurd (omega arith)
  one_chunk (a ∷ b ∷ c ∷ d ∷ e ∷ []) crc h small len = absurd (omega arith)
  one_chunk (a ∷ b ∷ c ∷ d ∷ e ∷ f ∷ []) crc h small len = absurd (omega arith)
  one_chunk (a ∷ b ∷ c ∷ d ∷ e ∷ f ∷ g ∷ []) crc h small len = absurd (omega arith)
  one_chunk (a ∷ b ∷ c ∷ d ∷ e ∷ f ∷ g ∷ k ∷ []) crc h small len =
      doc.word crc a b c d e f g k h small
  one_chunk (a ∷ b ∷ c ∷ d ∷ e ∷ f ∷ g ∷ k ∷ l ∷ xs) crc h small len = absurd (omega arith)

  -- The loop over the chunks and that over the remainder are one loop over the bytes.
  chunk_loop-tail_loop :
      (left : ℕ) (crc : ℕ) (bytes : List ℕ)
      → left * 8 ≤ length bytes
      → crc < 2 ^ 32
      → Bytes bytes
      → let out = chunk_loop cpu.crc32_u64 left crc bytes in
        (out.0 < 2 ^ 32) × (tail_loop cpu.crc32_u8 out.0 out.1 ≡ tail_loop cpu.crc32_u8 crc bytes)
  unfolding chunk_loop
  chunk_loop-tail_loop zero crc bytes fits h small = (h, refl)
  chunk_loop-tail_loop (suc left) crc bytes fits h small =
      let low = Bytes-take 8 bytes small in
      let chunk : cpu.crc32_u64 crc (from_le_bytes (take 8 bytes))
          ≡ tail_loop cpu.crc32_u8 crc (take 8 bytes) =
        one_chunk (take 8 bytes) crc h low (omega (arith, length-take 8 bytes)) in
      let next = tail_loop cpu.crc32_u8 crc (take 8 bytes) in
      let (range, rest) =
        chunk_loop-tail_loop left next (drop 8 bytes) (omega (arith, length-drop 8 bytes))
          (tail_loop-range (take 8 bytes) crc h low) (Bytes-drop 8 bytes small) in
      rw (chunk, chunk_loop)
        (
          range,
          rest
              ∙ (sym (tail_loop-append cpu.crc32_u8 (take 8 bytes) (drop 8 bytes) crc)
                  ∙ ap (tail_loop cpu.crc32_u8 crc) (take-append-drop 8 bytes)),
        )

  pub update_sse42-tail_loop :
      (crc : ℕ) (bytes : List ℕ)
      → crc < 2 ^ 32
      → Bytes bytes
      → update_sse42 cpu crc bytes ≡ tail_loop cpu.crc32_u8 crc bytes
  unfolding update_sse42
  update_sse42-tail_loop crc bytes h small =
      let (range, same) = chunk_loop-tail_loop (length bytes / 8) crc bytes (omega arith) h small in
      let out = chunk_loop cpu.crc32_u64 (length bytes / 8) crc bytes in
      let fits : out.0 % 2 ^ 32 ≡ out.0 = omega arith in
      ap (λ c. tail_loop cpu.crc32_u8 c out.1) fits ∙ same

  pub update_arm_crc-tail_loop :
      (crc : ℕ) (bytes : List ℕ)
      → crc < 2 ^ 32
      → Bytes bytes
      → update_arm_crc cpu crc bytes ≡ tail_loop cpu.crc32_u8 crc bytes
  unfolding update_arm_crc
  update_arm_crc-tail_loop crc bytes h small =
      (chunk_loop-tail_loop (length bytes / 8) crc bytes (omega arith) h small).1

  pub tail_loop-bitwise_loop :
      (bytes : List ℕ) (crc : ℕ)
      → crc < 2 ^ 32
      → Bytes bytes
      → tail_loop cpu.crc32_u8 crc bytes ≡ bitwise_loop crc bytes
  unfolding tail_loop bitwise_loop
  tail_loop-bitwise_loop [] crc h small = refl
  tail_loop-bitwise_loop (b ∷ bytes) crc h (low, small) =
      tail_loop-bitwise_loop bytes (cpu.crc32_u8 crc b) (doc.range crc b h low) small
      ∙ ap (λ c. bitwise_loop c bytes) (doc.byte crc b h low)
