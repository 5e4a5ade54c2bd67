-- ===== src/Wire/View/Agrees.antt =====
-- A view parses where the frame decodes, and reads the same request.
use mimo26f_afd.Prelude.{
  ℕ, ◌+◌, ◌==◌, not, ◌≡◌, refl, ap, ◌∙◌, inl, inr, arith, true, false, Bool-cases, if◌then◌else◌,
  List, some, get_elem?, length, drop, Result, ok, err, ◌>>=◌,
}
use mimo26f_afd.Wire.Naive.{WireNaive}
use mimo26f_afd.Wire.Error.{WireError, bad_kind}
use mimo26f_afd.Wire.Layout.{header_len, kind_request, kind_return}
use mimo26f_afd.Wire.Row.{
  RowDescriptor, RouteEntry, validate_rows, validate_routes, validate_rows_routes,
}
use mimo26f_afd.Wire.Header.{HeaderFields, parse_header, refuse_if}
use mimo26f_afd.Wire.Crc.{Process, verify_crc}
use mimo26f_afd.Wire.Request.{
  RequestFrame, read_rows, read_routes, read_hidden, check_request, decode_request,
}
use mimo26f_afd.Wire.Return.{Frame, request, return_frame, decode_frame, decode_return}
use mimo26f_afd.Wire.View.{RequestView, row_at, route_at, view_of, check_rows, check_routes, parse}
use mimo26f_afd.Wire.View.Loops.{
  bind_ok, refuse_if_ok, RowsRead, check_rows-RowsRead, RowsRead-check_rows, RoutesRead,
  check_routes-RoutesRead, RoutesRead-check_routes, read_rows-row_at, read_routes-route_at,
  length-read_rows, length-read_routes, validate_both,
}

-- A view and a frame are the same request.
pub record Matches (v : RequestView) (f : RequestFrame) : Type 0 where
  pub request_id : v.request_id ≡ f.request_id
  pub placement_version : v.placement_version ≡ f.placement_version
  pub layer_id : v.layer_id ≡ f.layer_id
  pub executor_id : v.executor_id ≡ f.executor_id
  pub source_kind : v.source_kind ≡ f.source_kind
  pub token_position : v.token_position ≡ f.token_position
  pub flags : v.flags ≡ f.flags
  pub seq : v.seq ≡ f.seq
  pub row_count : length f.rows ≡ v.rows
  pub rows : (i : ℕ) (row : RowDescriptor) → get_elem? f.rows i ≡ some row → row_at v i ≡ ok row
  pub route_count : length f.routes ≡ v.routes
  pub routes : (j : ℕ) (r : RouteEntry) → get_elem? f.routes j ≡ some r → route_at v j ≡ ok r
  pub hidden : read_hidden v.rows v.hidden_base 0 v.row_stride v.body ≡ f.hidden_rows

-- The frame that `decode_request` makes of the parts.
abbrev frame_of :
    HeaderFields → ℕ × ℕ → List ℕ → List RowDescriptor → List RouteEntry → RequestFrame
frame_of h sizes bytes rows routes = record {
  request_id = h.request_id;
  placement_version = h.placement_version;
  layer_id = h.layer_id;
  executor_id = h.executor_id;
  source_kind = h.source_kind;
  token_position = h.token_position;
  flags = h.flags;
  seq = h.seq;
  rows = rows;
  routes = routes;
  hidden_rows =
      read_hidden h.row_count (sizes.0 + sizes.1) 0 h.row_stride_bytes (drop header_len bytes);
}

view_of-Matches :
    (h : HeaderFields) (sizes : ℕ × ℕ) (bytes : List ℕ) (naive : WireNaive)
    (rows : List RowDescriptor) (routes : List RouteEntry)
    → read_rows h.row_count 0 (drop header_len bytes) naive ≡ ok rows
    → read_routes h.route_count sizes.0 0 (drop header_len bytes) naive ≡ ok routes
    → length rows ≡ h.row_count
    → length routes ≡ h.route_count
    → Matches (view_of h sizes bytes naive) (frame_of h sizes bytes rows routes)
unfolding view_of
view_of-Matches h sizes bytes naive rows routes rd rt nr nt =
    let v = view_of h sizes bytes naive in
    record {
      request_id = refl;
      placement_version = refl;
      layer_id = refl;
      executor_id = refl;
      source_kind = refl;
      token_position = refl;
      flags = refl;
      seq = refl;
      row_count = nr;
      rows =
          λ i row g. ap (row_at v) (omega arith) ∙ read_rows-row_at h.row_count 0 i v rows row rd g;
      route_count = nt;
      routes = λ j r g.
          ap (route_at v) (omega arith) ∙ read_routes-route_at h.route_count 0 j v routes r rt g;
      hidden = refl;
    }

kind_is_request : (k : ℕ) → not (k == kind_request) ≡ false → (k == kind_request) ≡ true
kind_is_request k h = elim (Bool-cases (k == kind_request)) [ inl e ↦ e | inr e ↦ absurd (cc) ]

not-kind_request : (k : ℕ) → (k == kind_request) ≡ true → not (k == kind_request) ≡ false
not-kind_request k h = rw h refl

decode_request-view :
    (h : HeaderFields) (sizes : ℕ × ℕ) (bytes : List ℕ) (naive : WireNaive)
    → check_request h bytes naive ≡ ok sizes
    → (rows : RowsRead h.row_count 0 (view_of h sizes bytes naive))
    → (routes : RoutesRead h.route_count 0 (view_of h sizes bytes naive))
    → decode_request h bytes naive ≡ ok (frame_of h sizes bytes rows.0 routes.0)
unfolding decode_request view_of validate_rows_routes
decode_request-view h sizes bytes naive sized (rows, rd, rv, nr) (routes, td, tv, nt) =
    let ranges : validate_rows 0 rows (length routes) ≡ ok tt = rw nt rv in
    let targets : validate_routes 0 routes (length rows) ≡ ok tt = rw nr tv in
    rw (sized, rd, td, ranges, targets) refl

ok_injective : (a b : RequestView) → ◌≡◌ {A = Result WireError RequestView} (ok a) (ok b) → a ≡ b
ok_injective a b h = cc

frame_injective :
    (a b : RequestFrame) → ◌≡◌ {A = Result WireError RequestFrame} (ok a) (ok b) → a ≡ b
frame_injective a b h = cc

-- A request that a view or a frame stands for.
abbrev Parsed : Process → List ℕ → WireNaive → HeaderFields → ℕ × ℕ → Type 0
Parsed proc bytes naive h sizes =
    (parse_header bytes naive ≡ ok h)
    × ((verify_crc proc bytes naive h.seq ≡ ok tt)
        × (((h.kind == kind_request) ≡ true) × (check_request h bytes naive ≡ ok sizes)))

frame_of_view :
    (proc : Process) (bytes : List ℕ) (naive : WireNaive) (v : RequestView) (h : HeaderFields)
    (sizes : ℕ × ℕ)
    → Parsed proc bytes naive h sizes
    → RowsRead h.row_count 0 (view_of h sizes bytes naive)
    → RoutesRead h.route_count 0 (view_of h sizes bytes naive)
    → view_of h sizes bytes naive ≡ v
    → (f : RequestFrame) × (decode_frame proc bytes naive ≡ ok (request f)) × Matches v f
unfolding decode_frame view_of
frame_of_view proc bytes naive v h sizes (parsed, (verified, (known, sized))) (rows, rd, rv, nr)
      (routes, td, tv, nt) same =
    let matches = view_of-Matches h sizes bytes naive rows routes rd td nr nt in
    (
      frame_of h sizes bytes rows routes,
      rw
          (
            parsed,
            verified,
            known,
            decode_request-view h sizes bytes naive sized (rows, rd, rv, nr) (routes, td, tv, nt),
          )
          refl,
      rw same at matches,
    )

parse-decode_frame :
    (proc : Process) (bytes : List ℕ) (naive : WireNaive) (v : RequestView)
    → parse proc bytes naive ≡ ok v
    → (f : RequestFrame) × (decode_frame proc bytes naive ≡ ok (request f)) × Matches v f
unfolding parse view_of
parse-decode_frame proc bytes naive v e =
    let (h, parsed, e1) = bind_ok (parse_header bytes naive) _ v e in
    let (u, verified, e2) = bind_ok (verify_crc proc bytes naive h.seq) _ v e1 in
    let (w, kind, e3) =
      bind_ok (refuse_if (not (h.kind == kind_request)) (bad_kind h.kind)) _ v e2 in
    let (sizes, sized, e4) = bind_ok (check_request h bytes naive) _ v e3 in
    let made = view_of h sizes bytes naive in
    let (x, rows_fit, e5) = bind_ok (check_rows h.row_count 0 made) _ v e4 in
    let (y, routes_fit, e6) = bind_ok (check_routes h.route_count 0 made) _ v e5 in
    let known =
      kind_is_request h.kind
        (refuse_if_ok (not (h.kind == kind_request)) (bad_kind h.kind) w kind) in
    frame_of_view proc bytes naive v h sizes (parsed, (verified, (known, sized)))
      (check_rows-RowsRead h.row_count 0 made rows_fit)
      (check_routes-RoutesRead h.route_count 0 made routes_fit) (ok_injective made v e6)

view_of_frame :
    (proc : Process) (bytes : List ℕ) (naive : WireNaive) (f : RequestFrame) (h : HeaderFields)
    (sizes : ℕ × ℕ) (rows : List RowDescriptor) (routes : List RouteEntry)
    → Parsed proc bytes naive h sizes
    → read_rows h.row_count 0 (drop header_len bytes) naive ≡ ok rows
    → read_routes h.route_count sizes.0 0 (drop header_len bytes) naive ≡ ok routes
    → validate_rows_routes rows routes ≡ ok tt
    → frame_of h sizes bytes rows routes ≡ f
    → (v : RequestView) × (parse proc bytes naive ≡ ok v) × Matches v f
unfolding parse view_of
view_of_frame proc bytes naive f h sizes rows routes (parsed, (verified, (known, sized))) rd td
      valid same =
    let made = view_of h sizes bytes naive in
    let nr = length-read_rows h.row_count 0 (drop header_len bytes) naive rows rd in
    let nt = length-read_routes h.route_count sizes.0 0 (drop header_len bytes) naive routes td in
    let matches = view_of-Matches h sizes bytes naive rows routes rd td nr nt in
    let (rows_valid, routes_valid) =
      validate_both rows routes h.row_count h.route_count nr nt valid in
    let rows_fit : check_rows h.row_count 0 made ≡ ok tt =
      RowsRead-check_rows h.row_count 0 made rows rd rows_valid in
    let routes_fit : check_routes h.route_count 0 made ≡ ok tt =
      RoutesRead-check_routes h.route_count 0 made routes td routes_valid in
    (
      made,
      rw (parsed, verified, not-kind_request h.kind known, sized, rows_fit, routes_fit) refl,
      rw same at matches,
    )

-- A frame that decodes to a request went through the request's part.
decoded_parts :
    (h : HeaderFields) (bytes : List ℕ) (naive : WireNaive) (f : RequestFrame)
    → (if h.kind == kind_request
        then (do r ← decode_request h bytes naive; ok (request r))
        else if h.kind == kind_return
        then (do r ← decode_return h bytes naive; ok (return_frame r))
        else err (bad_kind h.kind))
      ≡ ok (request f)
    → ((h.kind == kind_request) ≡ true) × (decode_request h bytes naive ≡ ok f)
decoded_parts h bytes naive f e = elim (Bool-cases (h.kind == kind_request)) [
  | inl is ↦
      let (r, decoded, same) = bind_ok (decode_request h bytes naive) _ (request f) (rw is at e) in
      let equal : r ≡ f = cc in (is, decoded ∙ ap ok equal)
  | inr is_not ↦ elim (Bool-cases (h.kind == kind_return)) [
    | inl ret ↦
        let (r, decoded, same) =
          bind_ok (decode_return h bytes naive) _ (request f) (rw ret at (rw is_not at e)) in
        absurd (cc)
    | inr other ↦
        let wrong : ◌≡◌ {A = Result WireError Frame} (err (bad_kind h.kind)) (ok (request f)) =
          rw other at (rw is_not at e) in
        absurd (cc)
  ]
]

decode_frame-parse :
    (proc : Process) (bytes : List ℕ) (naive : WireNaive) (f : RequestFrame)
    → decode_frame proc bytes naive ≡ ok (request f)
    → (v : RequestView) × (parse proc bytes naive ≡ ok v) × Matches v f
unfolding decode_frame decode_request
decode_frame-parse proc bytes naive f e =
    let (h, parsed, e1) = bind_ok (parse_header bytes naive) _ (request f) e in
    let (u, verified, e2) = bind_ok (verify_crc proc bytes naive h.seq) _ (request f) e1 in
    let (known, decoded) = decoded_parts h bytes naive f e2 in
    let (sizes, sized, e3) = bind_ok (check_request h bytes naive) _ f decoded in
    let (rows, rd, e4) = bind_ok (read_rows h.row_count 0 (drop header_len bytes) naive) _ f e3 in
    let (routes, td, e5) =
      bind_ok (read_routes h.route_count sizes.0 0 (drop header_len bytes) naive) _ f e4 in
    let (w, valid, e6) = bind_ok (validate_rows_routes rows routes) _ f e5 in
    view_of_frame proc bytes naive f h sizes rows routes (parsed, (verified, (known, sized))) rd td
      valid (frame_injective (frame_of h sizes bytes rows routes) f e6)

-- A view and the decoder accept the same byte strings as request frames, and read the same request.
pub record Agrees (proc : Process) (bytes : List ℕ) (naive : WireNaive) : Type 0 where
  pub to_frame :
      (v : RequestView)
      → parse proc bytes naive ≡ ok v
      → (f : RequestFrame) × (decode_frame proc bytes naive ≡ ok (request f)) × Matches v f
  pub to_view :
      (f : RequestFrame)
      → decode_frame proc bytes naive ≡ ok (request f)
      → (v : RequestView) × (parse proc bytes naive ≡ ok v) × Matches v f

-- On every byte string: `RequestView::parse` gives a view exactly where `decode_frame` gives a request
-- frame, and then the header fields of the two are the same, they have as many rows and routes, each
-- row and route that the view reads in place is the frame's, and so are the hidden rows.
pub parse-Agrees : (proc : Process) (bytes : List ℕ) (naive : WireNaive) → Agrees proc bytes naive
parse-Agrees proc bytes naive = record {
  to_frame = parse-decode_frame proc bytes naive;
  to_view = decode_frame-parse proc bytes naive;
}
