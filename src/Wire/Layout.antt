-- ===== src/Wire/Layout.antt =====
-- crates/mimo26-wire/src/layout.rs: row sizes and the wire codes of the enums.
pub mod Codes
use mimo26f_afd.Prelude.{
  ℕ, ◌+◌, ◌-◌, ◌*◌, ◌/◌, ◌%◌, ◌^◌, ◌==◌, ◌||◌, not, if◌then◌else◌, List, [], ◌∷◌, Result, ok, err,
}
use mimo26f_afd.Wire.Naive.{
  WireNaive, has, k16_scales, row_scaled_dtype, fp32_return, per_route_return, dtype_recode,
}
use mimo26f_afd.Wire.Error.{WireError, bad_code, dim_mismatch}

-- b"DS41RTE3"
abbrev pub magic : List ℕ
magic = 68 ∷ 83 ∷ 52 ∷ 49 ∷ 82 ∷ 84 ∷ 69 ∷ 51 ∷ []

abbrev pub version : ℕ
version = 3

abbrev pub kind_request : ℕ
kind_request = 1

abbrev pub kind_return : ℕ
kind_return = 2

abbrev pub header_len : ℕ
header_len = 128

abbrev pub row_descriptor_len : ℕ
row_descriptor_len = 40

abbrev pub route_entry_len : ℕ
route_entry_len = 12

abbrev pub hidden : ℕ
hidden = 4096

abbrev pub topk : ℕ
topk = 8

abbrev pub sparks : ℕ
sparks = 4

abbrev pub k32 : ℕ
k32 = 32

abbrev pub k16 : ℕ
k16 = 16

-- RETURN_ROW_BYTES
abbrev pub compact_row_bytes : ℕ
compact_row_bytes = hidden * 2

pub data Dtype : Type 0 where
  bf16 f16 fp8_debug nvfp4_e2m1_fp8_e4m3 fp8_e4m3_row_scaled f32 fp8_e4m3_ue8m0_k32 : Dtype

pub data SourceKind : Type 0 where
  decode prefill mtp_verify benchmark : SourceKind

pub data Status : Type 0 where
  status_ok status_error : Status

-- `self as u16`
pub dtype_number : Dtype → ℕ
dtype_number bf16 = 1
dtype_number f16 = 2
dtype_number fp8_debug = 3
dtype_number nvfp4_e2m1_fp8_e4m3 = 4
dtype_number fp8_e4m3_row_scaled = 5
dtype_number f32 = 6
dtype_number fp8_e4m3_ue8m0_k32 = 7

-- Dtype::code
pub dtype_code : Dtype → WireNaive → ℕ
unfolding dtype_number
dtype_code d naive =
    if has naive dtype_recode then (dtype_number d + 100) % 2 ^ 16 else dtype_number d

-- The match of `Dtype::from_code`.
pub dtype_of_raw : ℕ → ℕ → Result WireError Dtype
dtype_of_raw code raw =
    if raw == 1
    then ok bf16
    else if raw == 2
    then ok f16
    else if raw == 3
    then ok fp8_debug
    else if raw == 4
    then ok nvfp4_e2m1_fp8_e4m3
    else if raw == 5
    then ok fp8_e4m3_row_scaled
    else if raw == 6
    then ok f32
    else if raw == 7
    then ok fp8_e4m3_ue8m0_k32
    else err (bad_code "payload_dtype" code)

-- Dtype::from_code
pub dtype_from_code : ℕ → WireNaive → Result WireError Dtype
dtype_from_code code naive =
    dtype_of_raw code (if has naive dtype_recode then (code + 2 ^ 16 - 100) % 2 ^ 16 else code)

-- SourceKind::code
pub source_kind_code : SourceKind → ℕ
source_kind_code decode = 1
source_kind_code prefill = 2
source_kind_code mtp_verify = 3
source_kind_code benchmark = 4

-- SourceKind::from_code
pub source_kind_from_code : ℕ → Result WireError SourceKind
source_kind_from_code code =
    if code == 1
    then ok decode
    else if code == 2
    then ok prefill
    else if code == 3
    then ok mtp_verify
    else if code == 4
    then ok benchmark
    else err (bad_code "source_kind" code)

-- Status::code
pub status_code : Status → ℕ
status_code status_ok = 0
status_code status_error = 1

-- Status::from_code
pub status_from_code : ℕ → Result WireError Status
status_from_code code =
    if code == 0
    then ok status_ok
    else if code == 1
    then ok status_error
    else err (bad_code "status" code)

pub ue8m0_k32_row_bytes : ℕ → Result WireError ℕ
ue8m0_k32_row_bytes elements =
    if elements == 0 || not (elements % k32 == 0)
    then err (dim_mismatch "ue8m0_k32_row_width" k32 elements)
    else ok (elements + elements / k32)

unfoldable pub scale_k : WireNaive → ℕ
scale_k naive = if has naive k16_scales then k16 else k32

unfoldable pub hidden_row_bytes : WireNaive → ℕ
unfolding scale_k
hidden_row_bytes naive =
    if has naive row_scaled_dtype then hidden + 4 else hidden + hidden / scale_k naive

unfoldable pub request_row_bytes : WireNaive → ℕ
unfolding hidden_row_bytes
request_row_bytes naive = row_descriptor_len + hidden_row_bytes naive + topk * route_entry_len

-- On usize: the products wrap.
unfoldable pub return_row_bytes : ℕ → WireNaive → ℕ
return_row_bytes route_count naive =
    if has naive per_route_return
    then route_count * hidden * 2 % 2 ^ 64
    else if has naive fp32_return
    then hidden * 4
    else compact_row_bytes
