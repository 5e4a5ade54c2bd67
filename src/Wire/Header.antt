-- ===== src/Wire/Header.antt =====
-- crates/mimo26-wire/src/frame.rs: the header of a frame.
pub mod RoundTrip
use mimo26f_afd.Prelude.{
  ℕ, Bool, ◌+◌, ◌-◌, ◌%◌, ◌^◌, ◌==◌, ◌||◌, ◌&&◌, not, ltb, leb, if◌then◌else◌, Option, none, some,
  List, [], ◌∷◌, ◌++◌, length, take, drop, replicate, Result, ok, err, ◌>>=◌, ◌≐◌, List_eq,
}
use mimo26f_afd.Wire.Naive.{WireNaive}
use mimo26f_afd.Wire.Error.{
  WireError, too_short, truncated, trailing_bytes, bad_magic, bad_version, bad_kind, bad_header_len,
}
use mimo26f_afd.Wire.Layout.{
  Dtype, SourceKind, Status, dtype_code, dtype_from_code, source_kind_code, source_kind_from_code,
  status_code, status_from_code, header_len, magic, version, kind_request, kind_return,
}
use mimo26f_afd.Wire.Bytes.{put, get, to_le_bytes, from_le_bytes}

pub record HeaderFields : Type 0 where
  pub kind : ℕ
  pub request_id : ℕ
  pub placement_version : ℕ
  pub layer_id : ℕ
  pub row_count : ℕ
  pub dim : ℕ
  pub dtype : Dtype
  pub source_kind : SourceKind
  pub route_count : ℕ
  pub row_descriptor_bytes : ℕ
  pub route_bytes : ℕ
  pub payload_bytes : ℕ
  pub logical_payload_bytes : ℕ
  pub wire_bytes : ℕ
  pub flags : ℕ
  pub row_stride_bytes : ℕ
  pub status : Status
  pub executor_id : ℕ
  pub token_position : ℕ
  pub seq : ℕ

-- The 128 bytes that `write_header` appends.
pub write_header : HeaderFields → WireNaive → List ℕ
write_header h naive =
    let b = replicate header_len 0 in
    let b = put b 0 magic in
    let b = put b 8 (to_le_bytes 2 version) in
    let b = put b 10 (to_le_bytes 2 h.kind) in
    let b = put b 12 (to_le_bytes 4 header_len) in
    let b = put b 16 (to_le_bytes 8 h.request_id) in
    let b = put b 24 (to_le_bytes 8 h.placement_version) in
    let b = put b 32 (to_le_bytes 4 h.layer_id) in
    let b = put b 36 (to_le_bytes 4 h.row_count) in
    let b = put b 40 (to_le_bytes 4 h.dim) in
    let b = put b 44 (to_le_bytes 2 (dtype_code h.dtype naive)) in
    let b = put b 46 (to_le_bytes 2 (source_kind_code h.source_kind)) in
    let b = put b 48 (to_le_bytes 4 h.route_count) in
    let b = put b 52 (to_le_bytes 4 h.row_descriptor_bytes) in
    let b = put b 56 (to_le_bytes 4 h.route_bytes) in
    let b = put b 60 (to_le_bytes 8 h.payload_bytes) in
    let b = put b 68 (to_le_bytes 8 h.logical_payload_bytes) in
    let b = put b 76 (to_le_bytes 8 h.wire_bytes) in
    let b = put b 84 (to_le_bytes 4 h.flags) in
    let b = put b 88 (to_le_bytes 4 h.row_stride_bytes) in
    let b = put b 92 (to_le_bytes 4 (status_code h.status)) in
    let b = put b 96 (to_le_bytes 8 h.executor_id) in
    let b = put b 104 (to_le_bytes 8 h.token_position) in put b 112 (to_le_bytes 8 h.seq)

-- The record at the end of `parse_header`; `kind` and `wire_bytes` were read before.
pub read_header : List ℕ → WireNaive → ℕ → ℕ → Result WireError HeaderFields
read_header bytes naive kind wire_bytes = do
  request_id ← get 8 bytes 16
  placement_version ← get 8 bytes 24
  layer_id ← get 4 bytes 32
  row_count ← get 4 bytes 36
  dim ← get 4 bytes 40
  dtype_raw ← get 2 bytes 44
  dtype ← dtype_from_code dtype_raw naive
  source_kind_raw ← get 2 bytes 46
  source_kind ← source_kind_from_code source_kind_raw
  route_count ← get 4 bytes 48
  row_descriptor_bytes ← get 4 bytes 52
  route_bytes ← get 4 bytes 56
  payload_bytes ← get 8 bytes 60
  logical_payload_bytes ← get 8 bytes 68
  flags ← get 4 bytes 84
  row_stride_bytes ← get 4 bytes 88
  status_raw ← get 4 bytes 92
  status ← status_from_code status_raw
  executor_id ← get 8 bytes 96
  token_position ← get 8 bytes 104
  seq ← get 8 bytes 112
  ok (record {
    kind = kind;
    request_id = request_id;
    placement_version = placement_version;
    layer_id = layer_id;
    row_count = row_count;
    dim = dim;
    dtype = dtype;
    source_kind = source_kind;
    route_count = route_count;
    row_descriptor_bytes = row_descriptor_bytes;
    route_bytes = route_bytes;
    payload_bytes = payload_bytes;
    logical_payload_bytes = logical_payload_bytes;
    wire_bytes = wire_bytes;
    flags = flags;
    row_stride_bytes = row_stride_bytes;
    status = status;
    executor_id = executor_id;
    token_position = token_position;
    seq = seq;
  })

-- `if bad { return Err(e) }`
abbrev pub refuse_if : Bool → WireError → Result WireError (Unit {0})
refuse_if bad e = if bad then err e else ok tt

unfoldable pub parse_header : List ℕ → WireNaive → Result WireError HeaderFields
unfolding read_header
parse_header bytes naive = do
  _ ← refuse_if (ltb (length bytes) header_len) (too_short header_len (length bytes))
  _ ← refuse_if (not (take 8 (drop 0 bytes) ≐ magic)) (bad_magic (take 8 (drop 0 bytes)))
  found_version ← get 2 bytes 8
  _ ← refuse_if (not (found_version == version)) (bad_version found_version)
  kind ← get 2 bytes 10
  _ ← refuse_if (not (kind == kind_request) && not (kind == kind_return)) (bad_kind kind)
  found_len ← get 4 bytes 12
  _ ← refuse_if (not (found_len == header_len)) (bad_header_len found_len)
  declared ← get 8 bytes 76
  _ ← refuse_if (ltb (length bytes) declared) (truncated declared (length bytes))
  _ ← refuse_if (ltb declared (length bytes)) (trailing_bytes declared (length bytes))
  read_header bytes naive kind declared

pub frame_seq : List ℕ → Option ℕ
frame_seq bytes =
    if ltb (length bytes) 120 then none else elim (get 8 bytes 112) [ ok v ↦ some v | err e ↦ none ]
