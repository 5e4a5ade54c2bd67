-- ===== src/Wire/Return.antt =====
-- crates/mimo26-wire/src/frame.rs: return frames, and the dispatch on the kind of a frame. f32 values
-- are parameters here only through the conversions of bf16.rs, which work on their bits.
pub mod RoundTrip
pub mod InPlace
use mimo26f_afd.Prelude.{
  ℕ, Bool, true, false, zero, suc, ◌+◌, ◌-◌, ◌*◌, ◌/◌, ◌%◌, ◌^◌, ◌==◌, ◌&&◌, ◌||◌, not, ltb, leb,
  if◌then◌else◌, bit_and, bit_or, none, some, List, [], ◌∷◌, ◌++◌, length, take, drop, Result, ok,
  err, ◌>>=◌,
}
use mimo26f_afd.Word.{checked_add64}
use mimo26f_afd.Wire.Naive.{WireNaive, has, per_route_return, fp32_return, bf16_truncate}
use mimo26f_afd.Wire.Error.{WireError, dim_mismatch, bad_kind, unpresummed_return}
use mimo26f_afd.Wire.Layout.{
  Dtype, Status, status_ok, status_error, decode, dtype_code, header_len, hidden, kind_request,
  kind_return, return_row_bytes, bf16, f16, fp8_debug, nvfp4_e2m1_fp8_e4m3, fp8_e4m3_row_scaled,
  f32, fp8_e4m3_ue8m0_k32,
}
use mimo26f_afd.Wire.Bytes.{to_le_bytes, from_le_bytes}
use mimo26f_afd.Wire.Header.{HeaderFields, write_header, parse_header, refuse_if}
use mimo26f_afd.Wire.Crc.{Process, seal, verify_crc}
use mimo26f_afd.Wire.Request.{RequestFrame, decode_request, checked_mul, as_u32, usize_max}

-- FLAG_RETURN_REQUIRED
abbrev pub flag_return_required : ℕ
flag_return_required = 2 ^ 9 + 2 ^ 16

pub record ReturnRow : Type 0 where
  pub codes : List ℕ

pub record ReturnFrame : Type 0 where
  pub request_id : ℕ
  pub placement_version : ℕ
  pub layer_id : ℕ
  pub executor_id : ℕ
  pub token_position : ℕ
  pub status : Status
  pub flags : ℕ
  pub route_count : ℕ
  pub seq : ℕ
  pub rows : List ReturnRow

pub data Frame : Type 0 where
  request : RequestFrame → Frame
  return_frame : ReturnFrame → Frame

-- Frame::seq
unfoldable pub seq_of : Frame → ℕ
seq_of (request r) = r.seq
seq_of (return_frame r) = r.seq

-- The bits of `bf16_to_f32`.
abbrev pub bf16_to_f32 : ℕ → ℕ
bf16_to_f32 bits = bits * 2 ^ 16

pub f32_to_bf16_rne : ℕ → ℕ
f32_to_bf16_rne bits =
    let sign = bit_and (bits / 2 ^ 16) 0x8000 in
    let mag = bits % 2 ^ 31 in
    let rounded = (mag + (0x7fff + mag / 2 ^ 16 % 2)) % 2 ^ 32 in
    let clamped = if leb 0x7f800000 rounded then 0x7f800000 else rounded in
    if ltb 0x7f800000 mag then bit_or sign 0x7fff else bit_or sign (clamped / 2 ^ 16)

pub f32_to_bf16 : ℕ → WireNaive → ℕ
unfolding f32_to_bf16_rne
f32_to_bf16 bits naive = if has naive bf16_truncate then bits / 2 ^ 16 else f32_to_bf16_rne bits

-- The checks that `encode_return_seq` makes on each row.
pub check_codes : List ReturnRow → Result WireError (Unit {0})
check_codes [] = ok tt
check_codes (row ∷ rows) =
    let rest = check_codes rows in
    if not (length row.codes == hidden)
    then err (dim_mismatch "return_row_codes" hidden (length row.codes))
    else rest

pub codes_wire : List ℕ → List ℕ
codes_wire [] = []
codes_wire (code ∷ codes) = to_le_bytes 2 code ++ codes_wire codes

pub fp32_wire : List ℕ → List ℕ
fp32_wire [] = []
fp32_wire (code ∷ codes) = to_le_bytes 4 (bf16_to_f32 code) ++ fp32_wire codes

-- `for _ in 0..frame.route_count`
pub copies_wire : ℕ → List ℕ → List ℕ
copies_wire zero codes = []
copies_wire (suc n) codes = codes_wire codes ++ copies_wire n codes

pub return_rows_wire : Bool → Bool → ℕ → List ReturnRow → List ℕ
return_rows_wire fp32 per_route route_count [] = []
return_rows_wire fp32 per_route route_count (row ∷ rows) =
    let rest = return_rows_wire fp32 per_route route_count rows in
    (if fp32
      then fp32_wire row.codes
      else if per_route
      then copies_wire route_count row.codes
      else codes_wire row.codes)
    ++ rest

abbrev pub is_per_route : WireNaive → Bool
is_per_route naive = has naive per_route_return

abbrev pub is_fp32 : WireNaive → Bool
is_fp32 naive = not (is_per_route naive) && has naive fp32_return

pub return_header : ReturnFrame → ℕ → ℕ → WireNaive → Result WireError HeaderFields
return_header frame rows seq naive = do
  let block = return_row_bytes frame.route_count naive
  payload_bytes ← checked_mul rows block "payload_bytes"
  wire_len ← elim (checked_add64 header_len payload_bytes) [
    | none ↦ err (dim_mismatch "wire_bytes" 0 usize_max)
    | some n ↦ ok n
  ]
  row_count ← as_u32 rows "row_count"
  route_count ← as_u32 frame.route_count "route_count"
  row_stride_bytes ← as_u32 block "row_stride_bytes"
  ok (record {
    kind = kind_return;
    request_id = frame.request_id;
    placement_version = frame.placement_version;
    layer_id = frame.layer_id;
    row_count = row_count;
    dim = hidden;
    dtype = if is_fp32 naive then f32 else bf16;
    source_kind = decode;
    route_count = route_count;
    row_descriptor_bytes = 0;
    route_bytes = 0;
    payload_bytes = payload_bytes;
    logical_payload_bytes = payload_bytes;
    wire_bytes = wire_len;
    flags = frame.flags;
    row_stride_bytes = row_stride_bytes;
    status = frame.status;
    executor_id = frame.executor_id;
    token_position = frame.token_position;
    seq = seq;
  })

pub encode_return_seq : Process → ReturnFrame → ℕ → WireNaive → Result WireError (List ℕ)
encode_return_seq proc frame seq naive = do
  _ ← refuse_if (length frame.rows == 0) (dim_mismatch "rows" 1 0)
  _ ← refuse_if (frame.route_count == 0) (dim_mismatch "route_count" 1 0)
  _ ← check_codes frame.rows
  h ← return_header frame (length frame.rows) seq naive
  ok (
      seal proc
        (write_header h naive
          ++ return_rows_wire (is_fp32 naive) (is_per_route naive) frame.route_count frame.rows)
        naive)

pub encode_return : Process → ReturnFrame → WireNaive → Result WireError (List ℕ)
encode_return proc frame naive = encode_return_seq proc frame frame.seq naive

-- The codes of one block, `n` of them. A whole block has as many bytes as that takes.
pub read_codes : ℕ → List ℕ → List ℕ
read_codes zero block = []
read_codes (suc n) block = from_le_bytes (take 2 block) ∷ read_codes n (drop 2 block)

pub read_fp32 : ℕ → List ℕ → WireNaive → List ℕ
read_fp32 zero block naive = []
read_fp32 (suc n) block naive =
    f32_to_bf16 (from_le_bytes (take 4 block)) naive ∷ read_fp32 n (drop 4 block) naive

abbrev pub bad_return_dtype : Dtype → WireNaive → Result WireError (List ℕ)
bad_return_dtype d naive = err (dim_mismatch "return_payload_dtype" 1 (dtype_code d naive))

-- The match on the dtype, for one block.
pub read_block : Dtype → HeaderFields → List ℕ → WireNaive → Result WireError (List ℕ)
read_block f32 h block naive =
    if not (h.row_stride_bytes == hidden * 4)
    then err (dim_mismatch "f32_row_stride" (hidden * 4) h.row_stride_bytes)
    else ok (read_fp32 hidden block naive)
read_block bf16 h block naive =
    let copies = h.row_stride_bytes / (hidden * 2) in
    if not (h.row_stride_bytes % (hidden * 2) == 0)
    then err (dim_mismatch "bf16_row_stride" (hidden * 2) h.row_stride_bytes)
    else if not (copies == 1) && not (copies == h.route_count)
    then err (dim_mismatch "bf16_row_copies" 1 copies)
    else ok (read_codes hidden block)
read_block f16 h block naive = bad_return_dtype f16 naive
read_block fp8_debug h block naive = bad_return_dtype fp8_debug naive
read_block nvfp4_e2m1_fp8_e4m3 h block naive = bad_return_dtype nvfp4_e2m1_fp8_e4m3 naive
read_block fp8_e4m3_row_scaled h block naive = bad_return_dtype fp8_e4m3_row_scaled naive
read_block fp8_e4m3_ue8m0_k32 h block naive = bad_return_dtype fp8_e4m3_ue8m0_k32 naive

-- `for i in 0..rows`, by the rows left.
pub read_blocks : ℕ → ℕ → HeaderFields → List ℕ → WireNaive → Result WireError (List ReturnRow)
read_blocks zero i h body naive = ok []
read_blocks (suc left) i h body naive = do
  codes ← read_block h.dtype h (take h.row_stride_bytes (drop (i * h.row_stride_bytes) body)) naive
  rows ← read_blocks left (i + 1) h body naive
  ok (record { codes = codes } ∷ rows)

-- `h.status == Status::Ok`
abbrev pub is_ok : Status → Bool
is_ok status_ok = true
is_ok status_error = false

-- The checks of `decode_return` before the rows are read.
pub check_return : HeaderFields → List ℕ → Result WireError (Unit {0})
check_return h bytes = do
  _ ←
      refuse_if
        (is_ok h.status && not (bit_and h.flags flag_return_required == flag_return_required))
        (unpresummed_return h.flags)
  _ ← refuse_if (h.row_count == 0) (dim_mismatch "row_count" 1 0)
  _ ← refuse_if (not (h.dim == hidden)) (dim_mismatch "output_dim" hidden h.dim)
  payload_bytes ← checked_mul h.row_count h.row_stride_bytes "payload_bytes"
  _ ←
      refuse_if (not (h.payload_bytes == payload_bytes))
        (dim_mismatch "payload_bytes" payload_bytes h.payload_bytes)
  _ ← refuse_if (not (h.row_descriptor_bytes == 0) || not (h.route_bytes == 0)) (
      dim_mismatch "return_row_descriptor_bytes" 0
        ((h.row_descriptor_bytes + h.route_bytes) % 2 ^ 32))
  let body_len = length (drop header_len bytes)
  _ ← refuse_if (not (body_len == payload_bytes)) (dim_mismatch "body_len" payload_bytes body_len)
  refuse_if (h.route_count == 0) (dim_mismatch "route_count" 1 0)

pub decode_return : HeaderFields → List ℕ → WireNaive → Result WireError ReturnFrame
decode_return h bytes naive = do
  _ ← check_return h bytes
  rows ← read_blocks h.row_count 0 h (drop header_len bytes) naive
  ok (record {
    request_id = h.request_id;
    placement_version = h.placement_version;
    layer_id = h.layer_id;
    executor_id = h.executor_id;
    token_position = h.token_position;
    status = h.status;
    flags = h.flags;
    route_count = h.route_count;
    seq = h.seq;
    rows = rows;
  })

unfoldable pub decode_frame : Process → List ℕ → WireNaive → Result WireError Frame
decode_frame proc bytes naive = do
  h ← parse_header bytes naive
  _ ← verify_crc proc bytes naive h.seq
  if h.kind == kind_request
      then (do r ← decode_request h bytes naive; ok (request r))
      else if h.kind == kind_return
      then (do r ← decode_return h bytes naive; ok (return_frame r))
      else err (bad_kind h.kind)
