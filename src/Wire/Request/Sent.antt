-- ===== src/Wire/Request/Sent.antt =====
-- What a request that can be sent encodes to.
use Prim.Native.String.{String}
use mimo26f_afd.Prelude.{
  ℕ, ◌+◌, ◌-◌, ◌*◌, ◌%◌, ◌^◌, ◌≤◌, ◌<◌, ◌==◌, ltb, lt→ltb, ==-true, ◌≡◌, refl, inl, arith, true,
  false, List, [], ◌∷◌, ◌++◌, length, All, ok,
}
use mimo26f_afd.Wire.Naive.{WireNaive}
use mimo26f_afd.Wire.Layout.{hidden, kind_request, hidden_row_bytes, request_row_bytes, status_ok}
use mimo26f_afd.Wire.Layout.Codes.{hidden_row_bytes-range, request_row_bytes-eq}
use mimo26f_afd.Wire.Row.{validate_rows_routes}
use mimo26f_afd.Wire.Row.RoundTrip.{IsRow, IsRoute}
use mimo26f_afd.Wire.Header.{HeaderFields, write_header}
use mimo26f_afd.Wire.Header.RoundTrip.{IsHeader}
use mimo26f_afd.Wire.Crc.{Process, seal}
use mimo26f_afd.Wire.Request.{
  HiddenRow, RequestFrame, checked_mul, as_u32, check_hidden, request_dtype, rows_wire, routes_wire,
  hidden_wire, request_header, encode_request_seq, encode_request,
}
use mimo26f_afd.Wire.Request.Size.{IsHidden}

-- The numbers of a frame are values of their machine types, its tables are below 4 GiB, every hidden
-- row has the size of the variant, there is one for each row, and the routes fit the rows.
pub record IsSendable (frame : RequestFrame) (naive : WireNaive) : Type 0 where
  pub request_id : frame.request_id < 2 ^ 64
  pub placement_version : frame.placement_version < 2 ^ 64
  pub layer_id : frame.layer_id < 2 ^ 32
  pub executor_id : frame.executor_id < 2 ^ 64
  pub token_position : frame.token_position < 2 ^ 64
  pub flags : frame.flags < 2 ^ 32
  pub seq : frame.seq < 2 ^ 64
  pub rows : All IsRow frame.rows
  pub routes : All IsRoute frame.routes
  pub hidden_rows : All (IsHidden (hidden_row_bytes naive)) frame.hidden_rows
  pub counts : length frame.hidden_rows ≡ length frame.rows
  pub some_rows : 0 < length frame.rows
  pub few_rows : length frame.rows * 40 < 2 ^ 32
  pub few_routes : length frame.routes * 12 < 2 ^ 32
  pub ranges : validate_rows_routes frame.rows frame.routes ≡ ok tt

pub checked_mul-fits :
    (a b : ℕ) (field : String) → a * b < 2 ^ 64 → checked_mul a b field ≡ ok (a * b)
unfolding checked_mul
checked_mul-fits a b field h = rw (lt→ltb (a * b) (2 ^ 64) h, checked_mul) refl

pub as_u32-fits : (v : ℕ) (field : String) → v < 2 ^ 32 → as_u32 v field ≡ ok v
unfolding as_u32
as_u32-fits v field h = rw (lt→ltb v (2 ^ 32) h) refl

mul-le : (a b m n : ℕ) → a ≤ m → b ≤ n → a * b ≤ m * n
mul-le a b m n h k = grind arith

-- The header that the frame is sent with.
abbrev pub sent_header : RequestFrame → WireNaive → HeaderFields
sent_header frame naive = record {
  kind = kind_request;
  request_id = frame.request_id;
  placement_version = frame.placement_version;
  layer_id = frame.layer_id;
  row_count = length frame.rows;
  dim = hidden;
  dtype = request_dtype naive;
  source_kind = frame.source_kind;
  route_count = length frame.routes;
  row_descriptor_bytes = length frame.rows * 40;
  route_bytes = length frame.routes * 12;
  payload_bytes = length frame.rows * hidden_row_bytes naive;
  logical_payload_bytes = length frame.rows * request_row_bytes naive;
  wire_bytes =
      128
      + (length frame.rows * 40
          + length frame.routes * 12
          + length frame.rows * hidden_row_bytes naive);
  flags = frame.flags;
  row_stride_bytes = hidden_row_bytes naive;
  status = status_ok;
  executor_id = frame.executor_id;
  token_position = frame.token_position;
  seq = frame.seq;
}

abbrev pub sent_body : RequestFrame → WireNaive → List ℕ
sent_body frame naive =
    rows_wire frame.rows naive ++ (routes_wire frame.routes naive ++ hidden_wire frame.hidden_rows)

pub payload-lt :
    (frame : RequestFrame) (naive : WireNaive)
    → IsSendable frame naive
    → length frame.rows * hidden_row_bytes naive < 2 ^ 45
payload-lt frame naive i = omega (
  arith,
  i.few_rows,
  mul-le (length frame.rows) (hidden_row_bytes naive) (2 ^ 27) 4352 (omega (arith, i.few_rows))
      (hidden_row_bytes-range naive).1,
)

logical-lt :
    (frame : RequestFrame) (naive : WireNaive)
    → IsSendable frame naive
    → length frame.rows * request_row_bytes naive < 2 ^ 45
logical-lt frame naive i = omega (
  arith,
  i.few_rows,
  mul-le (length frame.rows) (request_row_bytes naive) (2 ^ 27) 4488 (omega (arith, i.few_rows))
      (omega (arith, request_row_bytes-eq naive, hidden_row_bytes-range naive)),
)

request_header-sent :
    (frame : RequestFrame) (naive : WireNaive)
    → IsSendable frame naive
    → request_header frame frame.seq naive ≡ ok (sent_header frame naive)
unfolding request_header
request_header-sent frame naive i =
    let rows = length frame.rows in
    let routes = length frame.routes in
    let payload = payload-lt frame naive i in
    let total = rows * 40 + routes * 12 + rows * hidden_row_bytes naive in
    let wraps : total % 2 ^ 64 ≡ total = omega (arith, i.few_rows, i.few_routes) in
    let fits : ltb (128 + total) (2 ^ 64) ≡ true =
      lt→ltb (128 + total) (2 ^ 64) (omega (arith, i.few_rows, i.few_routes)) in
    rw
      (
        checked_mul-fits rows 40 "row_descriptor_bytes" (omega (arith, i.few_rows)),
        checked_mul-fits routes 12 "route_bytes" (omega (arith, i.few_routes)),
        checked_mul-fits rows (hidden_row_bytes naive) "payload_bytes" (omega arith),
        checked_mul-fits rows (request_row_bytes naive) "logical_payload_bytes"
            (omega (arith, logical-lt frame naive i)),
        wraps,
        fits,
        as_u32-fits rows "row_count" (omega (arith, i.few_rows)),
        as_u32-fits routes "route_count" (omega (arith, i.few_routes)),
        as_u32-fits (rows * 40) "row_descriptor_bytes" i.few_rows,
        as_u32-fits (routes * 12) "route_bytes" i.few_routes,
        as_u32-fits (hidden_row_bytes naive) "row_stride_bytes"
            (omega (arith, hidden_row_bytes-range naive)),
      )
      refl

pub sent_header-IsHeader :
    (frame : RequestFrame) (naive : WireNaive)
    → IsSendable frame naive
    → IsHeader (sent_header frame naive)
sent_header-IsHeader frame naive i = record {
  kind = inl refl;
  request_id = i.request_id;
  placement_version = i.placement_version;
  layer_id = i.layer_id;
  row_count = omega (arith, i.few_rows);
  dim = omega arith;
  route_count = omega (arith, i.few_routes);
  row_descriptor_bytes = i.few_rows;
  route_bytes = i.few_routes;
  payload_bytes = omega (arith, payload-lt frame naive i);
  logical_payload_bytes = omega (arith, logical-lt frame naive i);
  flags = i.flags;
  row_stride_bytes = omega (arith, hidden_row_bytes-range naive);
  executor_id = i.executor_id;
  token_position = i.token_position;
  seq = i.seq;
  wire_bytes = omega (arith, payload-lt frame naive i, i.few_rows, i.few_routes);
}

check_hidden-IsHidden :
    (stride : ℕ) (hs : List HiddenRow)
    → All (IsHidden stride) hs
    → check_hidden (stride - hidden) hs ≡ ok tt
unfolding check_hidden
check_hidden-IsHidden stride [] i = refl
check_hidden-IsHidden stride (h ∷ hs) ((p, s), i) =
    rw
      (
        ==-true (length h.payload) hidden p,
        ==-true (length h.scales) (stride - hidden) (omega arith),
      )
      (check_hidden-IsHidden stride hs i)

-- A frame that can be sent encodes, to its header and its tables under the seal.
pub encode_request-sent :
    (proc : Process) (frame : RequestFrame) (naive : WireNaive)
    → IsSendable frame naive
    → encode_request proc frame naive
      ≡ ok (seal proc (write_header (sent_header frame naive) naive ++ sent_body frame naive) naive)
unfolding encode_request encode_request_seq
encode_request-sent proc frame naive i =
    let nonempty : (length frame.rows == 0) ≡ false = ground (arith, i.some_rows) in
    rw
      (
        nonempty,
        ==-true (length frame.hidden_rows) (length frame.rows) i.counts,
        i.ranges,
        check_hidden-IsHidden (hidden_row_bytes naive) frame.hidden_rows i.hidden_rows,
        request_header-sent frame naive i,
      )
      refl

-- The explicit number stands in for that of the frame.
pub encode_request_seq-encode_request :
    (proc : Process) (frame : RequestFrame) (seq : ℕ) (naive : WireNaive)
    → encode_request_seq proc frame seq naive
      ≡ encode_request proc (record frame { seq = seq }) naive
unfolding encode_request encode_request_seq request_header
encode_request_seq-encode_request proc frame seq naive = refl

pub IsSendable-seq :
    (frame : RequestFrame) (naive : WireNaive) (seq : ℕ)
    → IsSendable frame naive
    → seq < 2 ^ 64
    → IsSendable (record frame { seq = seq }) naive
IsSendable-seq frame naive seq i h = record {
  request_id = i.request_id;
  placement_version = i.placement_version;
  layer_id = i.layer_id;
  executor_id = i.executor_id;
  token_position = i.token_position;
  flags = i.flags;
  seq = h;
  rows = i.rows;
  routes = i.routes;
  hidden_rows = i.hidden_rows;
  counts = i.counts;
  some_rows = i.some_rows;
  few_rows = i.few_rows;
  few_routes = i.few_routes;
  ranges = i.ranges;
}
