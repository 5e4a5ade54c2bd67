-- ===== src/Wire/Layout/Codes.antt =====
-- The wire codes read back, and the row sizes of the contract.
use mimo26f_afd.Prelude.{
  ℕ, ◌+◌, ◌-◌, ◌%◌, ◌≤◌, ◌<◌, ◌^◌, ◌≡◌, refl, arith, Bool-cases, inl, inr, ok, false,
}
use mimo26f_afd.Wire.Naive.{
  WireNaive, has, per_route_return, fp32_return, dtype_recode, row_scaled_dtype, k16_scales,
}
use mimo26f_afd.Wire.Layout.{
  hidden, scale_k, return_row_bytes, hidden_row_bytes, request_row_bytes, SourceKind, Status, Dtype,
  source_kind_code, source_kind_from_code, decode, prefill, mtp_verify, benchmark, status_code,
  status_from_code, status_ok, status_error, dtype_number, dtype_of_raw, dtype_code,
  dtype_from_code, bf16, f16, fp8_debug, nvfp4_e2m1_fp8_e4m3, fp8_e4m3_row_scaled, f32,
  fp8_e4m3_ue8m0_k32,
}

pub source_kind_lem : (k : SourceKind) → source_kind_from_code (source_kind_code k) ≡ ok k
unfolding source_kind_from_code source_kind_code
source_kind_lem decode = refl
source_kind_lem prefill = refl
source_kind_lem mtp_verify = refl
source_kind_lem benchmark = refl

pub source_kind-lt : (k : SourceKind) → source_kind_code k < 256 ^ 2
unfolding source_kind_code
source_kind-lt decode = omega arith
source_kind-lt prefill = omega arith
source_kind-lt mtp_verify = omega arith
source_kind-lt benchmark = omega arith

pub status_lem : (s : Status) → status_from_code (status_code s) ≡ ok s
unfolding status_from_code status_code
status_lem status_ok = refl
status_lem status_error = refl

pub status-lt : (s : Status) → status_code s < 256 ^ 4
unfolding status_code
status-lt status_ok = omega arith
status-lt status_error = omega arith

dtype_number_lem : (code : ℕ) (d : Dtype) → dtype_of_raw code (dtype_number d) ≡ ok d
unfolding dtype_of_raw dtype_number
dtype_number_lem code bf16 = refl
dtype_number_lem code f16 = refl
dtype_number_lem code fp8_debug = refl
dtype_number_lem code nvfp4_e2m1_fp8_e4m3 = refl
dtype_number_lem code fp8_e4m3_row_scaled = refl
dtype_number_lem code f32 = refl
dtype_number_lem code fp8_e4m3_ue8m0_k32 = refl

dtype_number-lt : (d : Dtype) → dtype_number d < 8
unfolding dtype_number
dtype_number-lt bf16 = omega arith
dtype_number-lt f16 = omega arith
dtype_number-lt fp8_debug = omega arith
dtype_number-lt nvfp4_e2m1_fp8_e4m3 = omega arith
dtype_number-lt fp8_e4m3_row_scaled = omega arith
dtype_number-lt f32 = omega arith
dtype_number-lt fp8_e4m3_ue8m0_k32 = omega arith

pub dtype_lem : (d : Dtype) (naive : WireNaive) → dtype_from_code (dtype_code d naive) naive ≡ ok d
unfolding dtype_from_code dtype_code
dtype_lem d naive = elim (Bool-cases (has naive dtype_recode)) [
  | inl e ↦
      let back : ((dtype_number d + 100) % 2 ^ 16 + 2 ^ 16 - 100) % 2 ^ 16 ≡ dtype_number d =
        omega (arith, dtype_number-lt d) in
      rw (e, back) (dtype_number_lem _ d)
  | inr e ↦ rw e (dtype_number_lem _ d)
]

pub dtype-lt : (d : Dtype) (naive : WireNaive) → dtype_code d naive < 256 ^ 2
unfolding dtype_code
dtype-lt d naive = ground (arith, dtype_number-lt d)

pub hidden_row_bytes-range :
    (naive : WireNaive) → (hidden ≤ hidden_row_bytes naive) × (hidden_row_bytes naive ≤ 4352)
unfolding hidden_row_bytes scale_k
hidden_row_bytes-range naive = elim (Bool-cases (has naive row_scaled_dtype)) [
  | inl e ↦ rw e (omega arith, omega arith)
  | inr e ↦ elim (Bool-cases (has naive k16_scales)) [
    | inl f ↦ rw (e, f) (omega arith, omega arith)
    | inr f ↦ rw (e, f) (omega arith, omega arith)
  ]
]

pub request_row_bytes-eq :
    (naive : WireNaive) → request_row_bytes naive ≡ 136 + hidden_row_bytes naive
unfolding request_row_bytes
request_row_bytes-eq naive = omega arith

pub return_row_bytes-compact :
    (route_count : ℕ) (naive : WireNaive)
    → has naive per_route_return ≡ false
    → has naive fp32_return ≡ false
    → return_row_bytes route_count naive ≡ 8192
unfolding return_row_bytes
return_row_bytes-compact route_count naive p q = rw (p, q) refl
