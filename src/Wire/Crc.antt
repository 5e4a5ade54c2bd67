-- ===== src/Wire/Crc.antt =====
-- crates/mimo26-wire/src/crc32c.rs, and the seal and the check of frame.rs. The CRC instructions
-- of the machine and the switch that turns checksums off are the process's.
pub mod Sealed
pub mod Framed
pub mod Hardware
pub mod Zeroed
pub mod Table
use mimo26f_afd.Prelude.{
  ℕ, Bool, zero, suc, ◌+◌, ◌-◌, ◌/◌, ◌%◌, ◌^◌, ◌==◌, not, if◌then◌else◌, bit_and, bit_xor, Option,
  none, some, List, [], ◌∷◌, ◌++◌, length, take, drop, replicate, get_or, Result, ok, err, ◌>>=◌,
}
use mimo26f_afd.Wire.Naive.{WireNaive, has, crc32_ieee, crc_header_exempt, crc_unchecked}
use mimo26f_afd.Wire.Error.{WireError, corrupt}
use mimo26f_afd.Wire.Layout.{header_len}
use mimo26f_afd.Wire.Bytes.{put, get, to_le_bytes, from_le_bytes}

pub data CrcFamily : Type 0 where
  castagnoli ieee : CrcFamily

-- One round of the inner loop of `build_table`.
abbrev pub bit_step : ℕ → ℕ → ℕ
bit_step poly c = if not (bit_and c 1 == 0) then bit_xor poly (c / 2) else c / 2

-- `while k < 8`, by the rounds left.
abbrev pub bit_steps : ℕ → ℕ → ℕ → ℕ
bit_steps zero poly c = c
bit_steps (suc rounds) poly c = bit_steps rounds poly (bit_step poly c)

-- `while i < 256`, by the rounds left.
abbrev pub table_from : ℕ → ℕ → ℕ → List ℕ
table_from zero i poly = []
table_from (suc rounds) i poly = bit_steps 8 poly i ∷ table_from rounds (i + 1) poly

pub build_table : ℕ → List ℕ
build_table poly = table_from 256 0 poly

abbrev pub castagnoli_poly : ℕ
castagnoli_poly = 0x82f63b78

abbrev pub ieee_poly : ℕ
ieee_poly = 0xedb88320

pub update_table : List ℕ → ℕ → List ℕ → ℕ
update_table table crc [] = crc
update_table table crc (b ∷ bytes) =
    update_table table (bit_xor (get_or table (bit_and (bit_xor crc b) 0xff) 0) (crc / 2 ^ 8)) bytes

-- The instructions that accumulate a CRC over one byte and over eight: `_mm_crc32_u8` and
-- `_mm_crc32_u64`, or `__crc32cb` and `__crc32cd`.
pub record CrcInstructions : Type 0 where
  pub crc32_u8 : ℕ → ℕ → ℕ
  pub crc32_u64 : ℕ → ℕ → ℕ

-- The processor features that `update_castagnoli` asks for.
pub data Feature : Type 0 where
  sse42 : CrcInstructions → Feature
  arm_crc : CrcInstructions → Feature

-- What a process brings with it: whether MIMO26_WIRE_NOCRC is set, and the feature where the machine has
-- one.
pub record Process : Type 0 where
  pub crc_disabled : Bool
  pub hardware : Option Feature

-- `for c in bytes.chunks_exact(8)`, by the chunks left; the result has the bytes behind them too.
unfoldable pub chunk_loop : (ℕ → ℕ → ℕ) → ℕ → ℕ → List ℕ → ℕ × List ℕ
chunk_loop crc32_u64 zero crc bytes = (crc, bytes)
chunk_loop crc32_u64 (suc left) crc bytes =
    chunk_loop crc32_u64 left (crc32_u64 crc (from_le_bytes (take 8 bytes))) (drop 8 bytes)

-- `for &b in chunks.remainder()`
unfoldable pub tail_loop : (ℕ → ℕ → ℕ) → ℕ → List ℕ → ℕ
tail_loop crc32_u8 crc [] = crc
tail_loop crc32_u8 crc (b ∷ bytes) = tail_loop crc32_u8 (crc32_u8 crc b) bytes

-- The running CRC of the loop over the chunks is an u64 here.
unfoldable pub update_sse42 : CrcInstructions → ℕ → List ℕ → ℕ
update_sse42 cpu crc bytes =
    let (crc64, remainder) = chunk_loop cpu.crc32_u64 (length bytes / 8) crc bytes in
    tail_loop cpu.crc32_u8 (crc64 % 2 ^ 32) remainder

unfoldable pub update_arm_crc : CrcInstructions → ℕ → List ℕ → ℕ
update_arm_crc cpu crc bytes =
    let (crc, remainder) = chunk_loop cpu.crc32_u64 (length bytes / 8) crc bytes in
    tail_loop cpu.crc32_u8 crc remainder

pub update_castagnoli : Process → ℕ → List ℕ → ℕ
unfolding build_table
update_castagnoli proc crc bytes = elim proc.hardware [
  | none ↦ update_table (build_table castagnoli_poly) crc bytes
  | some (sse42 cpu) ↦ update_sse42 cpu crc bytes
  | some (arm_crc cpu) ↦ update_arm_crc cpu crc bytes
]

pub update_family : Process → CrcFamily → ℕ → List ℕ → ℕ
unfolding update_castagnoli build_table
update_family proc castagnoli crc bytes = update_castagnoli proc crc bytes
update_family proc ieee crc bytes = update_table (build_table ieee_poly) crc bytes

pub family_for : WireNaive → CrcFamily
family_for naive = if has naive crc32_ieee then ieee else castagnoli

-- `!x` on u32
abbrev pub invert : ℕ → ℕ
invert x = 2 ^ 32 - 1 - x

pub crc32c_with : Process → CrcFamily → List ℕ → ℕ
unfolding update_family
crc32c_with proc family bytes = invert (update_family proc family (invert 0) bytes)

pub crc32c_zeroed : Process → CrcFamily → List ℕ → ℕ → ℕ
unfolding update_family
crc32c_zeroed proc family bytes crc_off =
    let crc = invert 0 in
    let crc = update_family proc family crc (take crc_off bytes) in
    let crc = update_family proc family crc (replicate 4 0) in
    let crc = update_family proc family crc (drop (crc_off + 4) bytes) in invert crc

pub compute_crc : Process → List ℕ → WireNaive → ℕ
unfolding family_for crc32c_with crc32c_zeroed
compute_crc proc bytes naive =
    if has naive crc_header_exempt
    then crc32c_with proc (family_for naive) (drop header_len bytes)
    else crc32c_zeroed proc (family_for naive) bytes 120

unfoldable pub seal : Process → List ℕ → WireNaive → List ℕ
unfolding compute_crc
seal proc frame naive =
    if proc.crc_disabled
    then frame
    else put frame 120 (to_le_bytes 4 (compute_crc proc frame naive))

pub verify_crc : Process → List ℕ → WireNaive → ℕ → Result WireError (Unit {0})
unfolding compute_crc
verify_crc proc bytes naive seq =
    if has naive crc_unchecked then ok tt else if proc.crc_disabled then ok tt else (do
      let want = compute_crc proc bytes naive
      got ← get 4 bytes 120
      if not (want == got) then err (corrupt seq want got) else ok tt)

-- `crc32c_bitwise`: the loop over the bytes.
unfoldable pub bitwise_loop : ℕ → List ℕ → ℕ
bitwise_loop crc [] = crc
bitwise_loop crc (b ∷ bytes) = bitwise_loop (bit_steps 8 castagnoli_poly (bit_xor crc b)) bytes

unfoldable pub crc32c_bitwise : List ℕ → ℕ
unfolding bitwise_loop
crc32c_bitwise bytes = invert (bitwise_loop (2 ^ 32 - 1) bytes)
