-- ===== src/Wire/Request.antt =====
-- crates/mimo26-wire/src/frame.rs: request frames.
pub mod Size
pub mod Sent
pub mod RoundTrip
use Prim.Native.String.{String}
use mimo26f_afd.Prelude.{
  ℕ, zero, suc, ◌+◌, ◌-◌, ◌*◌, ◌%◌, ◌^◌, ◌==◌, not, ltb, if◌then◌else◌, none, some, List, [], ◌∷◌,
  ◌++◌, length, take, drop, Result, ok, err, ◌>>=◌,
}
use mimo26f_afd.Word.{checked_mul64, checked_add64}
use mimo26f_afd.Wire.Naive.{WireNaive, has, row_scaled_dtype}
use mimo26f_afd.Wire.Error.{WireError, dim_mismatch}
use mimo26f_afd.Wire.Layout.{
  Dtype, SourceKind, Status, status_ok, fp8_e4m3_row_scaled, fp8_e4m3_ue8m0_k32, dtype_code,
  header_len, row_descriptor_len, route_entry_len, hidden, kind_request, hidden_row_bytes,
  request_row_bytes, bf16, f16, fp8_debug, nvfp4_e2m1_fp8_e4m3, f32,
}
use mimo26f_afd.Wire.Row.{
  RowDescriptor, RouteEntry, row_descriptor_wire, row_descriptor_from_wire, route_entry_wire,
  route_entry_from_wire, validate_rows_routes,
}
use mimo26f_afd.Wire.Header.{HeaderFields, write_header, refuse_if}
use mimo26f_afd.Wire.Crc.{Process, seal}

pub record HiddenRow : Type 0 where
  pub payload : List ℕ
  pub scales : List ℕ

pub record RequestFrame : Type 0 where
  pub request_id : ℕ
  pub placement_version : ℕ
  pub layer_id : ℕ
  pub executor_id : ℕ
  pub source_kind : SourceKind
  pub token_position : ℕ
  pub flags : ℕ
  pub seq : ℕ
  pub rows : List RowDescriptor
  pub routes : List RouteEntry
  pub hidden_rows : List HiddenRow

-- usize::MAX
abbrev pub usize_max : ℕ
usize_max = 2 ^ 64 - 1

unfoldable pub checked_mul : ℕ → ℕ → String → Result WireError ℕ
checked_mul a b field = elim (checked_mul64 a b) [
  | none ↦ err (dim_mismatch field 0 usize_max)
  | some n ↦ ok n
]

unfoldable pub as_u32 : ℕ → String → Result WireError ℕ
as_u32 v field = if ltb v (2 ^ 32) then ok v else err (dim_mismatch field (2 ^ 32 - 1) v)

-- The loop over `frame.hidden_rows`.
pub check_hidden : ℕ → List HiddenRow → Result WireError (Unit {0})
check_hidden scales_len [] = ok tt
check_hidden scales_len (h ∷ hs) =
    let rest = check_hidden scales_len hs in
    if not (length h.payload == hidden)
    then err (dim_mismatch "hidden.payload" hidden (length h.payload))
    else if not (length h.scales == scales_len)
    then err (dim_mismatch "hidden.scales" scales_len (length h.scales))
    else rest

pub request_dtype : WireNaive → Dtype
request_dtype naive = if has naive row_scaled_dtype then fp8_e4m3_row_scaled else fp8_e4m3_ue8m0_k32

pub rows_wire : List RowDescriptor → WireNaive → List ℕ
rows_wire [] naive = []
rows_wire (row ∷ rows) naive = row_descriptor_wire row naive ++ rows_wire rows naive

pub routes_wire : List RouteEntry → WireNaive → List ℕ
routes_wire [] naive = []
routes_wire (r ∷ routes) naive = route_entry_wire r naive ++ routes_wire routes naive

pub hidden_wire : List HiddenRow → List ℕ
hidden_wire [] = []
hidden_wire (h ∷ hs) = h.payload ++ (h.scales ++ hidden_wire hs)

-- The header fields of a request, from the sizes that `encode_request_seq` computes.
pub request_header : RequestFrame → ℕ → WireNaive → Result WireError HeaderFields
request_header frame seq naive = do
  let rows = length frame.rows
  let routes = length frame.routes
  let hidden_row = hidden_row_bytes naive
  row_descriptor_bytes ← checked_mul rows row_descriptor_len "row_descriptor_bytes"
  route_bytes ← checked_mul routes route_entry_len "route_bytes"
  payload_bytes ← checked_mul rows hidden_row "payload_bytes"
  logical_bytes ← checked_mul rows (request_row_bytes naive) "logical_payload_bytes"
  wire_len ←
      elim (checked_add64 header_len
        ((row_descriptor_bytes + route_bytes + payload_bytes) % 2 ^ 64)) [
          | none ↦ err (dim_mismatch "wire_bytes" 0 usize_max)
          | some n ↦ ok n
        ]
  row_count ← as_u32 rows "row_count"
  route_count ← as_u32 routes "route_count"
  row_descriptor_bytes32 ← as_u32 row_descriptor_bytes "row_descriptor_bytes"
  route_bytes32 ← as_u32 route_bytes "route_bytes"
  row_stride_bytes ← as_u32 hidden_row "row_stride_bytes"
  ok (record {
    kind = kind_request;
    request_id = frame.request_id;
    placement_version = frame.placement_version;
    layer_id = frame.layer_id;
    row_count = row_count;
    dim = hidden;
    dtype = request_dtype naive;
    source_kind = frame.source_kind;
    route_count = route_count;
    row_descriptor_bytes = row_descriptor_bytes32;
    route_bytes = route_bytes32;
    payload_bytes = payload_bytes;
    logical_payload_bytes = logical_bytes;
    wire_bytes = wire_len;
    flags = frame.flags;
    row_stride_bytes = row_stride_bytes;
    status = status_ok;
    executor_id = frame.executor_id;
    token_position = frame.token_position;
    seq = seq;
  })

unfoldable pub encode_request_seq :
    Process → RequestFrame → ℕ → WireNaive → Result WireError (List ℕ)
encode_request_seq proc frame seq naive = do
  _ ← refuse_if (length frame.rows == 0) (dim_mismatch "rows" 1 0)
  _ ←
      refuse_if (not (length frame.hidden_rows == length frame.rows))
        (dim_mismatch "hidden_rows" (length frame.rows) (length frame.hidden_rows))
  _ ← validate_rows_routes frame.rows frame.routes
  _ ← check_hidden (hidden_row_bytes naive - hidden) frame.hidden_rows
  h ← request_header frame seq naive
  ok (
      seal proc
        (write_header h naive
          ++ (rows_wire frame.rows naive
              ++ (routes_wire frame.routes naive ++ hidden_wire frame.hidden_rows)))
        naive)

pub encode_request : Process → RequestFrame → WireNaive → Result WireError (List ℕ)
encode_request proc frame naive = encode_request_seq proc frame frame.seq naive

-- The match on the dtype in `decode_request`.
pub check_request_dtype : Dtype → WireNaive → Result WireError (Unit {0})
check_request_dtype fp8_e4m3_ue8m0_k32 naive = ok tt
check_request_dtype fp8_e4m3_row_scaled naive = ok tt
check_request_dtype bf16 naive =
    err (dim_mismatch "request_payload_dtype" 7 (dtype_code bf16 naive))
check_request_dtype f16 naive = err (dim_mismatch "request_payload_dtype" 7 (dtype_code f16 naive))
check_request_dtype fp8_debug naive =
    err (dim_mismatch "request_payload_dtype" 7 (dtype_code fp8_debug naive))
check_request_dtype nvfp4_e2m1_fp8_e4m3 naive =
    err (dim_mismatch "request_payload_dtype" 7 (dtype_code nvfp4_e2m1_fp8_e4m3 naive))
check_request_dtype f32 naive = err (dim_mismatch "request_payload_dtype" 7 (dtype_code f32 naive))

-- `for i in 0..rows`, by the rows left.
unfoldable pub read_rows : ℕ → ℕ → List ℕ → WireNaive → Result WireError (List RowDescriptor)
read_rows zero i body naive = ok []
read_rows (suc left) i body naive = do
  row ← row_descriptor_from_wire body (i * row_descriptor_len) naive
  rows ← read_rows left (i + 1) body naive
  ok (row ∷ rows)

-- `for j in 0..routes`, by the entries left.
unfoldable pub read_routes : ℕ → ℕ → ℕ → List ℕ → WireNaive → Result WireError (List RouteEntry)
read_routes zero base j body naive = ok []
read_routes (suc left) base j body naive = do
  r ← route_entry_from_wire body (base + j * route_entry_len) naive
  routes ← read_routes left base (j + 1) body naive
  ok (r ∷ routes)

-- The loop over the hidden rows, by the rows left.
pub read_hidden : ℕ → ℕ → ℕ → ℕ → List ℕ → List HiddenRow
read_hidden zero base i stride body = []
read_hidden (suc left) base i stride body =
    let at = base + i * stride in
    record {
      payload = take hidden (drop at body);
      scales = take (stride - hidden) (drop (at + hidden) body);
    }
    ∷ read_hidden left base (i + 1) stride body

-- The checks of `decode_request` before the rows are read; they give `route_bytes` and the sizes.
pub check_request : HeaderFields → List ℕ → WireNaive → Result WireError (ℕ × ℕ)
check_request h bytes naive = do
  _ ← refuse_if (h.row_count == 0) (dim_mismatch "row_count" 1 0)
  row_descriptor_bytes ← checked_mul h.row_count row_descriptor_len "row_descriptor_bytes"
  route_bytes ← checked_mul h.route_count route_entry_len "route_bytes"
  _ ←
      refuse_if (not (h.row_descriptor_bytes == row_descriptor_bytes))
        (dim_mismatch "row_descriptor_bytes" row_descriptor_bytes h.row_descriptor_bytes)
  _ ←
      refuse_if (not (h.route_bytes == route_bytes))
        (dim_mismatch "route_bytes" route_bytes h.route_bytes)
  _ ← refuse_if (not (h.dim == hidden)) (dim_mismatch "hidden_dim" hidden h.dim)
  _ ← check_request_dtype h.dtype naive
  _ ←
      refuse_if (ltb h.row_stride_bytes hidden)
        (dim_mismatch "row_stride_bytes" hidden h.row_stride_bytes)
  payload_bytes ← checked_mul h.row_count h.row_stride_bytes "payload_bytes"
  _ ←
      refuse_if (not (h.payload_bytes == payload_bytes))
        (dim_mismatch "payload_bytes" payload_bytes h.payload_bytes)
  let body_len = length (drop header_len bytes)
  let want = (row_descriptor_bytes + route_bytes + payload_bytes) % 2 ^ 64
  _ ← refuse_if (not (body_len == want)) (dim_mismatch "body_len" want body_len)
  ok (row_descriptor_bytes, route_bytes)

unfoldable pub decode_request : HeaderFields → List ℕ → WireNaive → Result WireError RequestFrame
decode_request h bytes naive = do
  sizes ← check_request h bytes naive
  let body = drop header_len bytes
  rows ← read_rows h.row_count 0 body naive
  routes ← read_routes h.route_count sizes.0 0 body naive
  _ ← validate_rows_routes rows routes
  ok (record {
    request_id = h.request_id;
    placement_version = h.placement_version;
    layer_id = h.layer_id;
    executor_id = h.executor_id;
    source_kind = h.source_kind;
    token_position = h.token_position;
    flags = h.flags;
    seq = h.seq;
    rows = rows;
    routes = routes;
    hidden_rows = read_hidden h.row_count (sizes.0 + sizes.1) 0 h.row_stride_bytes body;
  })
