-- ===== src/Wire/Header/RoundTrip.antt =====
-- A header reads back what was written, in front of any body.
use mimo26f_afd.Prelude.{
  ℕ, ◌≤◌, ◌<◌, ◌^◌, ◌≡◌, ◌⊎◌, inl, inr, refl, ◌∙◌, arith, ltb, ltb-false, ◌==◌, ◌&&◌, not, true,
  false, List, ◌++◌, length, length-append, take, drop, take-append_left, ok, ◌≐◌, List_eq,
}
use mimo26f_afd.Wire.Naive.{WireNaive}
use mimo26f_afd.Wire.Layout.{
  dtype_code, source_kind_code, status_code, magic, version, header_len, kind_request, kind_return,
}
use mimo26f_afd.Wire.Layout.Codes.{
  dtype_lem, dtype-lt, source_kind_lem, source_kind-lt, status_lem, status-lt,
}
use mimo26f_afd.Wire.Bytes.{put, to_le_bytes, Holds, get-Holds, Holds-append}
use mimo26f_afd.Wire.Header.{HeaderFields, write_header, read_header, parse_header}

-- The numbers of a header are values of their machine types.
pub record IsHeader (h : HeaderFields) : Type 0 where
  pub kind : (h.kind ≡ kind_request) ⊎ (h.kind ≡ kind_return)
  pub request_id : h.request_id < 2 ^ 64
  pub placement_version : h.placement_version < 2 ^ 64
  pub layer_id : h.layer_id < 2 ^ 32
  pub row_count : h.row_count < 2 ^ 32
  pub dim : h.dim < 2 ^ 32
  pub route_count : h.route_count < 2 ^ 32
  pub row_descriptor_bytes : h.row_descriptor_bytes < 2 ^ 32
  pub route_bytes : h.route_bytes < 2 ^ 32
  pub payload_bytes : h.payload_bytes < 2 ^ 64
  pub logical_payload_bytes : h.logical_payload_bytes < 2 ^ 64
  pub flags : h.flags < 2 ^ 32
  pub row_stride_bytes : h.row_stride_bytes < 2 ^ 32
  pub executor_id : h.executor_id < 2 ^ 64
  pub token_position : h.token_position < 2 ^ 64
  pub seq : h.seq < 2 ^ 64
  pub wire_bytes : h.wire_bytes < 2 ^ 64

-- Every field that is read after the checks stands in `b`.
pub record HoldsFields (h : HeaderFields) (naive : WireNaive) (b : List ℕ) : Type 0 where
  pub request_id : Holds b 8 16 (h.request_id)
  pub placement_version : Holds b 8 24 (h.placement_version)
  pub layer_id : Holds b 4 32 (h.layer_id)
  pub row_count : Holds b 4 36 (h.row_count)
  pub dim : Holds b 4 40 (h.dim)
  pub dtype : Holds b 2 44 (dtype_code h.dtype naive)
  pub source_kind : Holds b 2 46 (source_kind_code h.source_kind)
  pub route_count : Holds b 4 48 (h.route_count)
  pub row_descriptor_bytes : Holds b 4 52 (h.row_descriptor_bytes)
  pub route_bytes : Holds b 4 56 (h.route_bytes)
  pub payload_bytes : Holds b 8 60 (h.payload_bytes)
  pub logical_payload_bytes : Holds b 8 68 (h.logical_payload_bytes)
  pub flags : Holds b 4 84 (h.flags)
  pub row_stride_bytes : Holds b 4 88 (h.row_stride_bytes)
  pub status : Holds b 4 92 (status_code h.status)
  pub executor_id : Holds b 8 96 (h.executor_id)
  pub token_position : Holds b 8 104 (h.token_position)
  pub seq : Holds b 8 112 (h.seq)

-- The fields that the checks read stand in `b`.
pub record HoldsHeader (h : HeaderFields) (naive : WireNaive) (b : List ℕ) : Type 0 where
  pub size : header_len ≤ length b
  pub magic_bytes : take 8 (drop 0 b) ≡ magic
  pub version_field : Holds b 2 8 version
  pub kind_field : Holds b 2 10 h.kind
  pub len_field : Holds b 4 12 header_len
  pub wire_bytes_field : Holds b 8 76 h.wire_bytes
  pub fields : HoldsFields h naive b

write_header-HoldsFields :
    (h : HeaderFields) (naive : WireNaive) → HoldsFields h naive (write_header h naive)
unfolding write_header
write_header-HoldsFields h naive = record {
  request_id = (omega arith, refl);
  placement_version = (omega arith, refl);
  layer_id = (omega arith, refl);
  row_count = (omega arith, refl);
  dim = (omega arith, refl);
  dtype = (omega arith, refl);
  source_kind = (omega arith, refl);
  route_count = (omega arith, refl);
  row_descriptor_bytes = (omega arith, refl);
  route_bytes = (omega arith, refl);
  payload_bytes = (omega arith, refl);
  logical_payload_bytes = (omega arith, refl);
  flags = (omega arith, refl);
  row_stride_bytes = (omega arith, refl);
  status = (omega arith, refl);
  executor_id = (omega arith, refl);
  token_position = (omega arith, refl);
  seq = (omega arith, refl);
}

pub write_header-HoldsHeader :
    (h : HeaderFields) (naive : WireNaive) → HoldsHeader h naive (write_header h naive)
unfolding write_header
write_header-HoldsHeader h naive = record {
  size = omega arith;
  magic_bytes = refl;
  version_field = (omega arith, refl);
  kind_field = (omega arith, refl);
  len_field = (omega arith, refl);
  wire_bytes_field = (omega arith, refl);
  fields = write_header-HoldsFields h naive;
}

read_header-HoldsFields :
    (h : HeaderFields) (naive : WireNaive) (b : List ℕ)
    → IsHeader h
    → HoldsFields h naive b
    → read_header b naive h.kind h.wire_bytes ≡ ok h
unfolding read_header
read_header-HoldsFields h naive b i r =
    rw
      (
        get-Holds b 8 16 h.request_id i.request_id r.request_id,
        get-Holds b 8 24 h.placement_version i.placement_version r.placement_version,
        get-Holds b 4 32 h.layer_id i.layer_id r.layer_id,
        get-Holds b 4 36 h.row_count i.row_count r.row_count,
        get-Holds b 4 40 h.dim i.dim r.dim,
        get-Holds b 2 44 (dtype_code h.dtype naive) (dtype-lt h.dtype naive) r.dtype,
        dtype_lem h.dtype naive,
        get-Holds b 2 46 (source_kind_code h.source_kind) (source_kind-lt h.source_kind)
            r.source_kind,
        source_kind_lem h.source_kind,
        get-Holds b 4 48 h.route_count i.route_count r.route_count,
        get-Holds b 4 52 h.row_descriptor_bytes i.row_descriptor_bytes r.row_descriptor_bytes,
        get-Holds b 4 56 h.route_bytes i.route_bytes r.route_bytes,
        get-Holds b 8 60 h.payload_bytes i.payload_bytes r.payload_bytes,
        get-Holds b 8 68 h.logical_payload_bytes i.logical_payload_bytes r.logical_payload_bytes,
        get-Holds b 4 84 h.flags i.flags r.flags,
        get-Holds b 4 88 h.row_stride_bytes i.row_stride_bytes r.row_stride_bytes,
        get-Holds b 4 92 (status_code h.status) (status-lt h.status) r.status,
        status_lem h.status,
        get-Holds b 8 96 h.executor_id i.executor_id r.executor_id,
        get-Holds b 8 104 h.token_position i.token_position r.token_position,
        get-Holds b 8 112 h.seq i.seq r.seq,
      )
      refl

HoldsFields-append :
    (h : HeaderFields) (naive : WireNaive) (b rest : List ℕ)
    → HoldsFields h naive b
    → HoldsFields h naive (b ++ rest)
HoldsFields-append h naive b rest r = record {
  request_id = Holds-append b rest 8 16 _ r.request_id;
  placement_version = Holds-append b rest 8 24 _ r.placement_version;
  layer_id = Holds-append b rest 4 32 _ r.layer_id;
  row_count = Holds-append b rest 4 36 _ r.row_count;
  dim = Holds-append b rest 4 40 _ r.dim;
  dtype = Holds-append b rest 2 44 _ r.dtype;
  source_kind = Holds-append b rest 2 46 _ r.source_kind;
  route_count = Holds-append b rest 4 48 _ r.route_count;
  row_descriptor_bytes = Holds-append b rest 4 52 _ r.row_descriptor_bytes;
  route_bytes = Holds-append b rest 4 56 _ r.route_bytes;
  payload_bytes = Holds-append b rest 8 60 _ r.payload_bytes;
  logical_payload_bytes = Holds-append b rest 8 68 _ r.logical_payload_bytes;
  flags = Holds-append b rest 4 84 _ r.flags;
  row_stride_bytes = Holds-append b rest 4 88 _ r.row_stride_bytes;
  status = Holds-append b rest 4 92 _ r.status;
  executor_id = Holds-append b rest 8 96 _ r.executor_id;
  token_position = Holds-append b rest 8 104 _ r.token_position;
  seq = Holds-append b rest 8 112 _ r.seq;
}

pub HoldsHeader-append :
    (h : HeaderFields) (naive : WireNaive) (b rest : List ℕ)
    → HoldsHeader h naive b
    → HoldsHeader h naive (b ++ rest)
HoldsHeader-append h naive b rest r = record {
  size = omega (arith, r.size, length-append b rest);
  magic_bytes = take-append_left 8 b rest (omega (arith, r.size)) ∙ r.magic_bytes;
  version_field = Holds-append b rest 2 8 version r.version_field;
  kind_field = Holds-append b rest 2 10 _ r.kind_field;
  len_field = Holds-append b rest 4 12 header_len r.len_field;
  wire_bytes_field = Holds-append b rest 8 76 _ r.wire_bytes_field;
  fields = HoldsFields-append h naive b rest r.fields;
}

sealed-HoldsFields :
    (h : HeaderFields) (naive : WireNaive) (crc : ℕ)
    → HoldsFields h naive (put (write_header h naive) 120 (to_le_bytes 4 crc))
unfolding write_header
sealed-HoldsFields h naive crc = record {
  request_id = (omega arith, refl);
  placement_version = (omega arith, refl);
  layer_id = (omega arith, refl);
  row_count = (omega arith, refl);
  dim = (omega arith, refl);
  dtype = (omega arith, refl);
  source_kind = (omega arith, refl);
  route_count = (omega arith, refl);
  row_descriptor_bytes = (omega arith, refl);
  route_bytes = (omega arith, refl);
  payload_bytes = (omega arith, refl);
  logical_payload_bytes = (omega arith, refl);
  flags = (omega arith, refl);
  row_stride_bytes = (omega arith, refl);
  status = (omega arith, refl);
  executor_id = (omega arith, refl);
  token_position = (omega arith, refl);
  seq = (omega arith, refl);
}

-- The checksum is written behind the fields.
pub sealed-HoldsHeader :
    (h : HeaderFields) (naive : WireNaive) (crc : ℕ)
    → HoldsHeader h naive (put (write_header h naive) 120 (to_le_bytes 4 crc))
unfolding write_header
sealed-HoldsHeader h naive crc = record {
  size = omega arith;
  magic_bytes = refl;
  version_field = (omega arith, refl);
  kind_field = (omega arith, refl);
  len_field = (omega arith, refl);
  wire_bytes_field = (omega arith, refl);
  fields = sealed-HoldsFields h naive crc;
}

pub length-write_header :
    (h : HeaderFields) (naive : WireNaive) → length (write_header h naive) ≡ header_len
unfolding write_header
length-write_header h naive = refl

pub length-sealed :
    (h : HeaderFields) (naive : WireNaive) (crc : ℕ)
    → length (put (write_header h naive) 120 (to_le_bytes 4 crc)) ≡ header_len
unfolding write_header
length-sealed h naive crc = refl

kind-lt : (k : ℕ) → (k ≡ kind_request) ⊎ (k ≡ kind_return) → k < 256 ^ 2
kind-lt k (inl e) = omega arith
kind-lt k (inr e) = omega arith

kind_known :
    (k : ℕ)
    → (k ≡ kind_request) ⊎ (k ≡ kind_return)
    → (not (k == kind_request) && not (k == kind_return)) ≡ false
kind_known k (inl e) = rw e refl
kind_known k (inr e) = rw e refl

-- A buffer of just the declared length that holds a header's fields parses to that header.
pub parse_header-HoldsHeader :
    (h : HeaderFields) (naive : WireNaive) (b : List ℕ)
    → IsHeader h
    → HoldsHeader h naive b
    → length b ≡ h.wire_bytes
    → parse_header b naive ≡ ok h
unfolding parse_header
parse_header-HoldsHeader h naive b i r exact =
    let long : ltb (length b) header_len ≡ false = ltb-false (length b) header_len r.size in
    let same_magic : (take 8 (drop 0 b) ≐ magic) ≡ true =
      (List_eq.beq_iff (take 8 (drop 0 b)) magic).1 r.magic_bytes in
    let not_short : ltb (length b) h.wire_bytes ≡ false =
      ltb-false (length b) h.wire_bytes (omega (arith, exact)) in
    let not_long : ltb h.wire_bytes (length b) ≡ false =
      ltb-false h.wire_bytes (length b) (omega (arith, exact)) in
    rw
      (
        long,
        same_magic,
        get-Holds b 2 8 version (omega arith) r.version_field,
        get-Holds b 2 10 h.kind (kind-lt h.kind i.kind) r.kind_field,
        kind_known h.kind i.kind,
        get-Holds b 4 12 header_len (omega arith) r.len_field,
        get-Holds b 8 76 h.wire_bytes i.wire_bytes r.wire_bytes_field,
        not_short,
        not_long,
      )
      (read_header-HoldsFields h naive b i r.fields)
