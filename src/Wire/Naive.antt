-- ===== src/Wire/Naive.antt =====
-- crates/mimo26-wire/src/naive.rs: the bits that select a known-wrong variant of a routine.
use mimo26f_afd.Prelude.{ℕ, ◌==◌, ◌^◌, Bool, not, bit_and}

-- `WireNaive(u32)`
abbrev pub WireNaive : Type 0
WireNaive = ℕ

unfoldable pub has : WireNaive → ℕ → Bool
has naive bit = not (bit_and naive bit == 0)

-- WireNaive::NONE
abbrev pub naive_none : WireNaive
naive_none = 0

abbrev pub k16_scales : ℕ
k16_scales = 2 ^ 0

abbrev pub row_scaled_dtype : ℕ
row_scaled_dtype = 2 ^ 1

abbrev pub fp32_return : ℕ
fp32_return = 2 ^ 2

abbrev pub per_route_return : ℕ
per_route_return = 2 ^ 3

abbrev pub route_field_swap : ℕ
route_field_swap = 2 ^ 4

abbrev pub desc_field_drift : ℕ
desc_field_drift = 2 ^ 5

abbrev pub dtype_recode : ℕ
dtype_recode = 2 ^ 6

abbrev pub crc32_ieee : ℕ
crc32_ieee = 2 ^ 7

abbrev pub crc_header_exempt : ℕ
crc_header_exempt = 2 ^ 8

abbrev pub crc_unchecked : ℕ
crc_unchecked = 2 ^ 9

abbrev pub seq_ignored : ℕ
seq_ignored = 2 ^ 10

abbrev pub dup_double_count : ℕ
dup_double_count = 2 ^ 11

abbrev pub accum_by_arrival : ℕ
accum_by_arrival = 2 ^ 12

abbrev pub rank_sum_by_arrival : ℕ
rank_sum_by_arrival = 2 ^ 14

abbrev pub bf16_truncate : ℕ
bf16_truncate = 2 ^ 13
