-- ===== src/Wire/Request/RoundTrip.antt =====
-- The body of a request that can be sent reads back.
use mimo26f_afd.Prelude.{
  ℕ, ◌+◌, ◌*◌, ◌%◌, ◌^◌, ◌==◌, ltb, ltb-false, ==-true, ◌≡◌, refl, sym, ap, ◌∙◌, inl, inr,
  Bool-cases, arith, false, List, [], ◌++◌, length, length-append, drop, append_assoc, append-nil,
  ok,
}
use mimo26f_afd.Wire.Naive.{WireNaive, has, row_scaled_dtype}
use mimo26f_afd.Wire.Layout.{header_len, hidden, hidden_row_bytes}
use mimo26f_afd.Wire.Layout.Codes.{hidden_row_bytes-range}
use mimo26f_afd.Wire.Crc.Sealed.{drop-append_end}
use mimo26f_afd.Wire.Request.{
  RequestFrame, request_dtype, rows_wire, routes_wire, hidden_wire, check_request_dtype, read_rows,
  read_routes, read_hidden, check_request, decode_request,
}
use mimo26f_afd.Wire.Request.Size.{
  length-rows_wire, length-routes_wire, length-hidden_wire, read_rows-rows_wire,
  read_routes-routes_wire, read_hidden-hidden_wire,
}
use mimo26f_afd.Wire.Request.Sent.{IsSendable, checked_mul-fits, sent_header, sent_body, payload-lt}

pub length-sent_body :
    (frame : RequestFrame) (naive : WireNaive)
    → IsSendable frame naive
    → length (sent_body frame naive)
      ≡ length frame.rows * 40
        + length frame.routes * 12
        + length frame.rows * hidden_row_bytes naive
length-sent_body frame naive i =
    let h : length (hidden_wire frame.hidden_rows) ≡ length frame.rows * hidden_row_bytes naive =
      length-hidden_wire (hidden_row_bytes naive) frame.hidden_rows i.hidden_rows
      ∙ ap (λ n. n * hidden_row_bytes naive) i.counts in
    omega (
      arith,
      length-append (rows_wire frame.rows naive)
          (routes_wire frame.routes naive ++ hidden_wire frame.hidden_rows),
      length-append (routes_wire frame.routes naive) (hidden_wire frame.hidden_rows),
      length-rows_wire frame.rows naive,
      length-routes_wire frame.routes naive,
    )

request_dtype-known : (naive : WireNaive) → check_request_dtype (request_dtype naive) naive ≡ ok tt
unfolding check_request_dtype request_dtype
request_dtype-known naive = elim (Bool-cases (has naive row_scaled_dtype)) [
  | inl e ↦ rw e refl
  | inr e ↦ rw e refl
]

check_request-sent :
    (frame : RequestFrame) (naive : WireNaive) (bytes : List ℕ)
    → IsSendable frame naive
    → drop header_len bytes ≡ sent_body frame naive
    → check_request (sent_header frame naive) bytes naive
      ≡ ok (length frame.rows * 40, length frame.routes * 12)
unfolding check_request
check_request-sent frame naive bytes i e =
    let rows = length frame.rows in
    let routes = length frame.routes in
    let stride = hidden_row_bytes naive in
    let total = rows * 40 + routes * 12 + rows * stride in
    let nonempty : (rows == 0) ≡ false = ground (arith, i.some_rows) in
    let wide : ltb stride hidden ≡ false =
      ltb-false stride hidden (hidden_row_bytes-range naive).0 in
    let wraps : total % 2 ^ 64 ≡ total =
      omega (arith, i.few_rows, i.few_routes, payload-lt frame naive i) in
    rw
      (
        nonempty,
        checked_mul-fits rows 40 "row_descriptor_bytes" (omega (arith, i.few_rows)),
        checked_mul-fits routes 12 "route_bytes" (omega (arith, i.few_routes)),
        ==-true (rows * 40) (rows * 40) refl,
        ==-true (routes * 12) (routes * 12) refl,
        request_dtype-known naive,
        wide,
        checked_mul-fits rows stride "payload_bytes" (omega (arith, payload-lt frame naive i)),
        ==-true (rows * stride) (rows * stride) refl,
        e,
        wraps,
        ==-true (length (sent_body frame naive)) total (length-sent_body frame naive i),
      )
      refl

-- Behind the 128 bytes of a header, the body of a frame that can be sent decodes to the frame.
pub decode_request-sent :
    (frame : RequestFrame) (naive : WireNaive) (head : List ℕ)
    → IsSendable frame naive
    → length head ≡ header_len
    → decode_request (sent_header frame naive) (head ++ sent_body frame naive) naive ≡ ok frame
unfolding decode_request
decode_request-sent frame naive head i e =
    let rows = rows_wire frame.rows naive in
    let routes = routes_wire frame.routes naive in
    let hidden_part = hidden_wire frame.hidden_rows in
    let body = sent_body frame naive in
    let at_body : drop header_len (head ++ body) ≡ body =
      drop-append_end header_len head body (sym e) in
    let read_first : read_rows (length frame.rows) 0 body naive ≡ ok frame.rows =
      read_rows-rows_wire frame.rows naive 0 [] (routes ++ hidden_part) i.rows (omega arith) in
    let read_second : read_routes (length frame.routes) (length frame.rows * 40) 0 body naive
        ≡ ok frame.routes =
      read_routes-routes_wire frame.routes naive (length frame.rows * 40) 0 rows hidden_part
        i.routes (omega (arith, length-rows_wire frame.rows naive)) in
    let whole : (rows ++ routes) ++ (hidden_part ++ []) ≡ body =
      ap (λ l. (rows ++ routes) ++ l) (append-nil hidden_part)
      ∙ append_assoc rows routes hidden_part in
    let read_third : read_hidden (length frame.rows)
          (length frame.rows * 40 + length frame.routes * 12) 0 (hidden_row_bytes naive) body
        ≡ frame.hidden_rows =
      rw (sym i.counts, sym whole)
        (read_hidden-hidden_wire frame.hidden_rows _ 0 (hidden_row_bytes naive) (rows ++ routes) []
          i.hidden_rows
          (omega (
            arith,
            length-append rows routes,
            length-rows_wire frame.rows naive,
            length-routes_wire frame.routes naive,
            i.counts,
          ))) in
    rw
      (
        check_request-sent frame naive (head ++ body) i at_body,
        at_body,
        read_first,
        read_second,
        i.ranges,
        read_third,
      )
      refl
