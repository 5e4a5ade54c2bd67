-- ===== src/Wire/Crc/Zeroed.antt =====
-- The streamed checksum of a frame whose checksum bytes count as zero.
use mimo26f_afd.Prelude.{
  ℕ, Bool, ◌+◌, ◌/◌, ◌^◌, ◌<◌, bit_xor, bit_and, get_or, ◌≡◌, refl, sym, ap, ◌∙◌, arith, Option,
  none, some, List, [], ◌∷◌, ◌++◌, take, drop, replicate,
}
use mimo26f_afd.Wire.Bytes.{put}
use mimo26f_afd.Wire.Crc.{
  Feature, sse42, arm_crc, Process, CrcFamily, castagnoli, ieee, ieee_poly, castagnoli_poly,
  table_from, update_table, tail_loop, update_castagnoli, update_family, crc32c_with, crc32c_zeroed,
  invert, build_table, bitwise_loop, crc32c_bitwise,
}
use mimo26f_afd.Wire.Crc.Hardware.{
  Bytes, Documented, Bytes-take, Bytes-drop, tail_loop-append, tail_loop-range,
  tail_loop-bitwise_loop, update_sse42-tail_loop, update_arm_crc-tail_loop,
}
use mimo26f_afd.Wire.Crc.Table.{update_table-bitwise_loop}

-- The instructions of a machine that has them do as documented.
abbrev pub AsDocumented : Option Feature → Type 0
AsDocumented none = Unit {0}
AsDocumented (some (sse42 cpu)) = Documented cpu
AsDocumented (some (arm_crc cpu)) = Documented cpu

-- The running checksum fits the u32 that the instructions take.
abbrev InRange : Option Feature → ℕ → Type 0
InRange none crc = Unit {0}
InRange (some f) crc = crc < 2 ^ 32

Bytes-append : (a b : List ℕ) → Bytes a → Bytes b → Bytes (a ++ b)
Bytes-append [] b h k = k
Bytes-append (x ∷ a) b (low, h) k = (low, Bytes-append a b h k)

update_table-append :
    (table a : List ℕ) (crc : ℕ) (b : List ℕ)
    → update_table table crc (a ++ b) ≡ update_table table (update_table table crc a) b
unfolding update_table
update_table-append table [] crc b = refl
update_table-append table (x ∷ a) crc b =
    update_table-append table a
      (bit_xor (get_or table (bit_and (bit_xor crc x) 0xff) 0) (crc / 2 ^ 8)) b

-- What `update_castagnoli` does with a first part and a rest, on every machine.
record Streams (proc : Process) (crc : ℕ) (a b : List ℕ) : Type 0 where
  parts :
      update_castagnoli proc crc (a ++ b) ≡ update_castagnoli proc (update_castagnoli proc crc a) b
  range : InRange proc.hardware (update_castagnoli proc crc a)
  reference : update_castagnoli proc crc a ≡ bitwise_loop crc a

update_castagnoli-Streams :
    (off : Bool) (hw : Option Feature) (crc : ℕ) (a b : List ℕ)
    → AsDocumented hw
    → InRange hw crc
    → Bytes a
    → Bytes b
    → Streams (record { crc_disabled = off; hardware = hw }) crc a b
unfolding update_castagnoli build_table
update_castagnoli-Streams off none crc a b doc h small more = record {
  parts = update_table-append (table_from 256 0 castagnoli_poly) a crc b;
  range = tt;
  reference = update_table-bitwise_loop a crc small;
}
update_castagnoli-Streams off (some (sse42 cpu)) crc a b doc h small more =
    let first = update_sse42-tail_loop cpu doc crc a h small in
    let within = tail_loop-range cpu doc a crc h small in
    record {
      parts =
          update_sse42-tail_loop cpu doc crc (a ++ b) h (Bytes-append a b small more)
          ∙ (tail_loop-append cpu.crc32_u8 a b crc
              ∙ rw first (
                  sym
                    (update_sse42-tail_loop cpu doc (tail_loop cpu.crc32_u8 crc a) b within more)));
      range = rw first within;
      reference = first ∙ tail_loop-bitwise_loop cpu doc a crc h small;
    }
update_castagnoli-Streams off (some (arm_crc cpu)) crc a b doc h small more =
    let first = update_arm_crc-tail_loop cpu doc crc a h small in
    let within = tail_loop-range cpu doc a crc h small in
    record {
      parts =
          update_arm_crc-tail_loop cpu doc crc (a ++ b) h (Bytes-append a b small more)
          ∙ (tail_loop-append cpu.crc32_u8 a b crc
              ∙ rw first (
                  sym (
                    update_arm_crc-tail_loop cpu doc (tail_loop cpu.crc32_u8 crc a) b within
                      more)));
      range = rw first within;
      reference = first ∙ tail_loop-bitwise_loop cpu doc a crc h small;
    }

start_InRange : (hw : Option Feature) → InRange hw (invert 0)
start_InRange none = tt
start_InRange (some f) = omega arith

-- In three parts, of which the second is `z`.
three_parts :
    (proc : Process) (family : CrcFamily) (a z b : List ℕ)
    → AsDocumented proc.hardware
    → Bytes a
    → Bytes z
    → Bytes b
    → update_family proc family
        (update_family proc family (update_family proc family (invert 0) a) z)
        b
      ≡ update_family proc family (invert 0) (a ++ (z ++ b))
unfolding update_family build_table
three_parts proc ieee a z b doc sa sz sb =
    let table = table_from 256 0 ieee_poly in
    sym (update_table-append table a (invert 0) (z ++ b) ∙ update_table-append table z _ b)
three_parts proc castagnoli a z b doc sa sz sb =
    let one =
      update_castagnoli-Streams proc.crc_disabled proc.hardware (invert 0) a (z ++ b) doc
        (start_InRange proc.hardware) sa (Bytes-append z b sz sb) in
    let two = update_castagnoli-Streams proc.crc_disabled proc.hardware _ z b doc one.range sz sb in
    sym (one.parts ∙ two.parts)

-- On every machine whose CRC instructions, if it has them, do as documented, and for bytes below 256: the
-- checksum in three parts, with four zero bytes in place of those at `crc_off`, is the checksum of
-- the bytes with these four set to zero, however the parts fall into the chunks of eight that the
-- instructions take. For the Castagnoli family it is the checksum that the bit-by-bit reference gives.
pub crc32c_zeroed_lem :
    (proc : Process) (family : CrcFamily) (bytes : List ℕ) (crc_off : ℕ)
    → AsDocumented proc.hardware
    → Bytes bytes
    → (crc32c_zeroed proc family bytes crc_off
        ≡ crc32c_with proc family (put bytes crc_off (replicate 4 0)))
      × (crc32c_zeroed proc castagnoli bytes crc_off
          ≡ crc32c_bitwise (put bytes crc_off (replicate 4 0)))
unfolding crc32c_zeroed crc32c_with crc32c_bitwise update_family
crc32c_zeroed_lem proc family bytes crc_off doc small =
    let first = Bytes-take crc_off bytes small in
    let last = Bytes-drop (crc_off + 4) bytes small in
    let zeros : Bytes (replicate 4 0) =
      (omega arith, (omega arith, (omega arith, (omega arith, tt)))) in
    let a = take crc_off bytes in
    let b = drop (crc_off + 4) bytes in
    let whole =
      Bytes-append a (replicate 4 0 ++ b) first (Bytes-append (replicate 4 0) b zeros last) in
    let all =
      update_castagnoli-Streams proc.crc_disabled proc.hardware (invert 0)
        (a ++ (replicate 4 0 ++ b)) [] doc (start_InRange proc.hardware) whole tt in
    (
      ap invert (three_parts proc family a (replicate 4 0) b doc first zeros last),
      ap invert
          (three_parts proc castagnoli a (replicate 4 0) b doc first zeros last ∙ all.reference),
    )
