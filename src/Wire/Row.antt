-- ===== src/Wire/Row.antt =====
-- crates/mimo26-wire/src/frame.rs: row descriptors and route entries. A gate weight is the 32 bits of
-- its f32, which `to_le_bytes` and `from_le_bytes` pass on unchanged.
pub mod RoundTrip
use mimo26f_afd.Prelude.{
  ℕ, zero, suc, ◌+◌, ◌-◌, ◌*◌, ◌%◌, ◌^◌, leb, ltb, if◌then◌else◌, List, [], ◌∷◌, ◌++◌, length, take,
  drop, replicate, Result, ok, err, ◌>>=◌,
}
use mimo26f_afd.Word.{add64}
use mimo26f_afd.Wire.Naive.{WireNaive, has, desc_field_drift, route_field_swap}
use mimo26f_afd.Wire.Error.{WireError, too_short, route_range_bad, route_row_mismatch}
use mimo26f_afd.Wire.Layout.{
  SourceKind, source_kind_code, source_kind_from_code, row_descriptor_len, route_entry_len,
}
use mimo26f_afd.Wire.Bytes.{put, get, to_le_bytes}

pub record RowDescriptor : Type 0 where
  pub row_id : ℕ
  pub source_kind : SourceKind
  pub source_request_id : ℕ
  pub token_position : ℕ
  pub route_offset : ℕ
  pub route_count : ℕ

pub record RouteEntry : Type 0 where
  pub row_index : ℕ
  pub expert_id : ℕ
  pub gate_weight : ℕ

-- `(id_at, pos_at)`
abbrev pub id_and_position : WireNaive → ℕ × ℕ
id_and_position naive = if has naive desc_field_drift then (20, 12) else (12, 20)

-- A descriptor with its two identity fields at the given places.
pub write_row : RowDescriptor → ℕ × ℕ → List ℕ
write_row row (id_at, pos_at) =
    let b = replicate row_descriptor_len 0 in
    let b = put b 0 (to_le_bytes 8 row.row_id) in
    let b = put b 8 (to_le_bytes 2 (source_kind_code row.source_kind)) in
    let b = put b id_at (to_le_bytes 8 row.source_request_id) in
    let b = put b pos_at (to_le_bytes 8 row.token_position) in
    let b = put b 28 (to_le_bytes 4 row.route_offset) in put b 32 (to_le_bytes 4 row.route_count)

pub row_descriptor_wire : RowDescriptor → WireNaive → List ℕ
row_descriptor_wire row naive = write_row row (id_and_position naive)

-- The descriptor in the 40 bytes `b`.
pub read_row : List ℕ → ℕ × ℕ → Result WireError RowDescriptor
read_row b (id_at, pos_at) = do
  row_id ← get 8 b 0
  kind ← get 2 b 8
  source_kind ← source_kind_from_code kind
  source_request_id ← get 8 b id_at
  token_position ← get 8 b pos_at
  route_offset ← get 4 b 28
  route_count ← get 4 b 32
  ok (record {
    row_id = row_id;
    source_kind = source_kind;
    source_request_id = source_request_id;
    token_position = token_position;
    route_offset = route_offset;
    route_count = route_count;
  })

pub row_descriptor_from_wire : List ℕ → ℕ → WireNaive → Result WireError RowDescriptor
row_descriptor_from_wire bytes offset naive =
    if leb (offset + row_descriptor_len) (length bytes)
    then read_row (take row_descriptor_len (drop offset bytes)) (id_and_position naive)
    else err (too_short (add64 offset row_descriptor_len) (length bytes))

-- `(id_at, w_at)`
abbrev pub id_and_weight : WireNaive → ℕ × ℕ
id_and_weight naive = if has naive route_field_swap then (8, 4) else (4, 8)

-- An entry with its expert and its weight at the given places.
pub write_route : RouteEntry → ℕ × ℕ → List ℕ
write_route r (id_at, w_at) =
    let b = replicate route_entry_len 0 in
    let b = put b 0 (to_le_bytes 4 r.row_index) in
    let b = put b id_at (to_le_bytes 4 r.expert_id) in put b w_at (to_le_bytes 4 r.gate_weight)

pub route_entry_wire : RouteEntry → WireNaive → List ℕ
route_entry_wire r naive = write_route r (id_and_weight naive)

-- The entry in the 12 bytes `b`.
pub read_route : List ℕ → ℕ × ℕ → Result WireError RouteEntry
read_route b (id_at, w_at) = do
  row_index ← get 4 b 0
  expert_id ← get 4 b id_at
  gate_weight ← get 4 b w_at
  ok (record { row_index = row_index; expert_id = expert_id; gate_weight = gate_weight })

pub route_entry_from_wire : List ℕ → ℕ → WireNaive → Result WireError RouteEntry
route_entry_from_wire bytes offset naive =
    if leb (offset + route_entry_len) (length bytes)
    then read_route (take route_entry_len (drop offset bytes)) (id_and_weight naive)
    else err (too_short (add64 offset route_entry_len) (length bytes))

-- The two loops of `validate_rows_routes`, by the entries left.
unfoldable pub validate_rows : ℕ → List RowDescriptor → ℕ → Result WireError (Unit {0})
validate_rows i [] routes = ok tt
validate_rows i (row ∷ rows) routes =
    let rest = validate_rows (i + 1) rows routes in
    if ltb routes (row.route_offset + row.route_count) then err (route_range_bad i) else rest

unfoldable pub validate_routes : ℕ → List RouteEntry → ℕ → Result WireError (Unit {0})
validate_routes j [] rows = ok tt
validate_routes j (r ∷ routes) rows =
    let rest = validate_routes (j + 1) routes rows in
    if leb rows r.row_index then err (route_row_mismatch j r.row_index (rows % 2 ^ 32)) else rest

unfoldable pub validate_rows_routes :
    List RowDescriptor → List RouteEntry → Result WireError (Unit {0})
validate_rows_routes rows routes = do
  u ← validate_rows 0 rows (length routes)
  validate_routes 0 routes (length rows)
