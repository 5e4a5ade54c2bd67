-- ===== src/Wire/View.antt =====
-- crates/mimo26-wire/src/frame.rs: a request frame that is read where it lies. Its checks before the
-- rows are those of `decode_request`, written out a second time in the source.
pub mod Loops
pub mod Agrees
use mimo26f_afd.Prelude.{
  ℕ, zero, suc, ◌+◌, ◌*◌, ◌%◌, ◌^◌, ◌==◌, not, ltb, leb, if◌then◌else◌, List, drop, Result, ok, err,
  ◌>>=◌,
}
use mimo26f_afd.Wire.Naive.{WireNaive}
use mimo26f_afd.Wire.Error.{WireError, bad_kind, route_range_bad, route_row_mismatch}
use mimo26f_afd.Wire.Layout.{
  SourceKind, header_len, kind_request, row_descriptor_len, route_entry_len,
}
use mimo26f_afd.Wire.Row.{
  RowDescriptor, RouteEntry, row_descriptor_from_wire, route_entry_from_wire,
}
use mimo26f_afd.Wire.Header.{HeaderFields, parse_header, refuse_if}
use mimo26f_afd.Wire.Crc.{Process, verify_crc}
use mimo26f_afd.Wire.Request.{check_request}

pub record RequestView : Type 0 where
  pub request_id : ℕ
  pub placement_version : ℕ
  pub layer_id : ℕ
  pub executor_id : ℕ
  pub source_kind : SourceKind
  pub token_position : ℕ
  pub flags : ℕ
  pub seq : ℕ
  pub rows : ℕ
  pub routes : ℕ
  pub row_stride : ℕ
  pub naive : WireNaive
  pub body : List ℕ
  pub route_base : ℕ
  pub hidden_base : ℕ

-- RequestView::row
unfoldable pub row_at : RequestView → ℕ → Result WireError RowDescriptor
row_at v i = row_descriptor_from_wire v.body (i * row_descriptor_len) v.naive

-- RequestView::route
unfoldable pub route_at : RequestView → ℕ → Result WireError RouteEntry
route_at v j = route_entry_from_wire v.body (v.route_base + j * route_entry_len) v.naive

-- RequestView::hidden
unfoldable pub hidden_at : RequestView → List ℕ
hidden_at v = drop v.hidden_base v.body

-- The record that `parse` makes before it checks the entries.
pub view_of : HeaderFields → ℕ × ℕ → List ℕ → WireNaive → RequestView
view_of h sizes bytes naive = record {
  request_id = h.request_id;
  placement_version = h.placement_version;
  layer_id = h.layer_id;
  executor_id = h.executor_id;
  source_kind = h.source_kind;
  token_position = h.token_position;
  flags = h.flags;
  seq = h.seq;
  rows = h.row_count;
  routes = h.route_count;
  row_stride = h.row_stride_bytes;
  naive = naive;
  body = drop header_len bytes;
  route_base = sizes.0;
  hidden_base = sizes.0 + sizes.1;
}

-- `for i in 0..rows`, by the rows left.
pub check_rows : ℕ → ℕ → RequestView → Result WireError (Unit {0})
unfolding row_at
check_rows zero i v = ok tt
check_rows (suc left) i v = do
  row ← row_at v i
  _ ← refuse_if (ltb v.routes (row.route_offset + row.route_count)) (route_range_bad i)
  check_rows left (i + 1) v

-- `for j in 0..routes`, by the entries left.
pub check_routes : ℕ → ℕ → RequestView → Result WireError (Unit {0})
unfolding route_at
check_routes zero j v = ok tt
check_routes (suc left) j v = do
  r ← route_at v j
  _ ← refuse_if (leb v.rows r.row_index) (route_row_mismatch j r.row_index (v.rows % 2 ^ 32))
  check_routes left (j + 1) v

-- RequestView::parse
pub parse : Process → List ℕ → WireNaive → Result WireError RequestView
unfolding view_of
parse proc bytes naive = do
  h ← parse_header bytes naive
  _ ← verify_crc proc bytes naive h.seq
  _ ← refuse_if (not (h.kind == kind_request)) (bad_kind h.kind)
  sizes ← check_request h bytes naive
  let v = view_of h sizes bytes naive
  _ ← check_rows v.rows 0 v
  _ ← check_routes v.routes 0 v
  ok v
