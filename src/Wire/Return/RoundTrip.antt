-- ===== src/Wire/Return/RoundTrip.antt =====
-- What a compact return encodes to, and that its body reads back.
use mimo26f_afd.Prelude.{
  ℕ, ◌+◌, ◌*◌, ◌^◌, ◌<◌, ◌==◌, ◌&&◌, not, ltb, lt→ltb, ==-true, ◌≡◌, refl, sym, ap, ◌∙◌, inr, arith,
  bit_and, true, false, List, [], ◌∷◌, ◌++◌, length, length-append, take, drop, append_assoc, All,
  ok,
}
use mimo26f_afd.Wire.Naive.{WireNaive, has, per_route_return, fp32_return}
use mimo26f_afd.Wire.Layout.{header_len, hidden, kind_return, bf16, decode}
use mimo26f_afd.Wire.Layout.Codes.{return_row_bytes-compact}
use mimo26f_afd.Wire.Bytes.{from_le_bytes-to_le_bytes}
use mimo26f_afd.Wire.Header.{HeaderFields, write_header}
use mimo26f_afd.Wire.Header.RoundTrip.{IsHeader}
use mimo26f_afd.Wire.Crc.{Process, seal}
use mimo26f_afd.Wire.Crc.Sealed.{drop-append_end}
use mimo26f_afd.Wire.Request.Sent.{checked_mul-fits, as_u32-fits}
use mimo26f_afd.Wire.Request.Size.{take-drop_part}
use mimo26f_afd.Wire.Return.{
  ReturnRow, ReturnFrame, check_codes, codes_wire, return_rows_wire, return_header,
  encode_return_seq, encode_return, read_codes, read_block, read_blocks, check_return,
  decode_return, is_ok, flag_return_required,
}

-- Neither of the variants that change the dtype or the number of the rows is selected.
pub record IsCompact (naive : WireNaive) : Type 0 where
  pub one_sum : has naive per_route_return ≡ false
  pub bf16_rows : has naive fp32_return ≡ false

abbrev pub IsCodes : ReturnRow → Type 0
IsCodes row = (length row.codes ≡ hidden) × All (λ code. code < 2 ^ 16) row.codes

-- The numbers of a frame are values of their machine types, its body is below 4 GiB, every row has 4096
-- codes, and a frame of status Ok carries the flags of a reduced return.
pub record IsReturn (frame : ReturnFrame) : Type 0 where
  pub request_id : frame.request_id < 2 ^ 64
  pub placement_version : frame.placement_version < 2 ^ 64
  pub layer_id : frame.layer_id < 2 ^ 32
  pub executor_id : frame.executor_id < 2 ^ 64
  pub token_position : frame.token_position < 2 ^ 64
  pub flags : frame.flags < 2 ^ 32
  pub seq : frame.seq < 2 ^ 64
  pub some_routes : 0 < frame.route_count
  pub few_routes : frame.route_count < 2 ^ 32
  pub some_rows : 0 < length frame.rows
  pub few_rows : length frame.rows < 2 ^ 19
  pub rows : All IsCodes frame.rows
  pub reduced :
      (is_ok frame.status && not (bit_and frame.flags flag_return_required == flag_return_required))
      ≡ false

pub read_codes-codes_wire :
    (codes : List ℕ)
    → All (λ code. code < 2 ^ 16) codes
    → read_codes (length codes) (codes_wire codes) ≡ codes
unfolding read_codes codes_wire
read_codes-codes_wire [] h = refl
read_codes-codes_wire (code ∷ codes) (h, hs) =
    rw (from_le_bytes-to_le_bytes 2 code h, read_codes-codes_wire codes hs) refl

length-codes_wire : (codes : List ℕ) → length (codes_wire codes) ≡ length codes * 2
unfolding codes_wire
length-codes_wire [] = refl
length-codes_wire (code ∷ codes) = omega (arith, length-codes_wire codes)

-- The rows of a compact return on the wire.
abbrev rows_bytes : List ReturnRow → List ℕ
rows_bytes rows = return_rows_wire false false 0 rows

return_rows_wire-count :
    (n : ℕ) (rows : List ReturnRow) → return_rows_wire false false n rows ≡ rows_bytes rows
unfolding return_rows_wire
return_rows_wire-count n [] = refl
return_rows_wire-count n (row ∷ rows) =
    ap (λ l. codes_wire row.codes ++ l) (return_rows_wire-count n rows)

length-rows_bytes :
    (rows : List ReturnRow) → All IsCodes rows → length (rows_bytes rows) ≡ length rows * 8192
unfolding return_rows_wire
length-rows_bytes [] i = refl
length-rows_bytes (row ∷ rows) ((l, c), i) = omega (
  arith,
  length-append (codes_wire row.codes) (rows_bytes rows),
  length-codes_wire row.codes,
  length-rows_bytes rows i,
)

abbrev pub sent_return : ReturnFrame → HeaderFields
sent_return frame = record {
  kind = kind_return;
  request_id = frame.request_id;
  placement_version = frame.placement_version;
  layer_id = frame.layer_id;
  row_count = length frame.rows;
  dim = hidden;
  dtype = bf16;
  source_kind = decode;
  route_count = frame.route_count;
  row_descriptor_bytes = 0;
  route_bytes = 0;
  payload_bytes = length frame.rows * 8192;
  logical_payload_bytes = length frame.rows * 8192;
  wire_bytes = 128 + length frame.rows * 8192;
  flags = frame.flags;
  row_stride_bytes = 8192;
  status = frame.status;
  executor_id = frame.executor_id;
  token_position = frame.token_position;
  seq = frame.seq;
}

pub sent_return-IsHeader : (frame : ReturnFrame) → IsReturn frame → IsHeader (sent_return frame)
sent_return-IsHeader frame i = record {
  kind = inr refl;
  request_id = i.request_id;
  placement_version = i.placement_version;
  layer_id = i.layer_id;
  row_count = omega (arith, i.few_rows);
  dim = omega arith;
  route_count = i.few_routes;
  row_descriptor_bytes = omega arith;
  route_bytes = omega arith;
  payload_bytes = omega (arith, i.few_rows);
  logical_payload_bytes = omega (arith, i.few_rows);
  flags = i.flags;
  row_stride_bytes = omega arith;
  executor_id = i.executor_id;
  token_position = i.token_position;
  seq = i.seq;
  wire_bytes = omega (arith, i.few_rows);
}

pub check_codes-IsCodes : (rows : List ReturnRow) → All IsCodes rows → check_codes rows ≡ ok tt
unfolding check_codes
check_codes-IsCodes [] i = refl
check_codes-IsCodes (row ∷ rows) ((l, c), i) =
    rw (==-true (length row.codes) hidden l) (check_codes-IsCodes rows i)

return_header-sent :
    (frame : ReturnFrame) (naive : WireNaive)
    → IsReturn frame
    → IsCompact naive
    → return_header frame (length frame.rows) frame.seq naive ≡ ok (sent_return frame)
unfolding return_header
return_header-sent frame naive i c =
    let rows = length frame.rows in
    let fits : ltb (128 + rows * 8192) (2 ^ 64) ≡ true =
      lt→ltb (128 + rows * 8192) (2 ^ 64) (omega (arith, i.few_rows)) in
    rw
      (
        return_row_bytes-compact frame.route_count naive c.one_sum c.bf16_rows,
        c.one_sum,
        c.bf16_rows,
        checked_mul-fits rows 8192 "payload_bytes" (omega (arith, i.few_rows)),
        fits,
        as_u32-fits rows "row_count" (omega (arith, i.few_rows)),
        as_u32-fits frame.route_count "route_count" i.few_routes,
        as_u32-fits 8192 "row_stride_bytes" (omega arith),
      )
      refl

abbrev pub return_body : ReturnFrame → List ℕ
return_body frame = return_rows_wire false false frame.route_count frame.rows

pub encode_return-sent :
    (proc : Process) (frame : ReturnFrame) (naive : WireNaive)
    → IsReturn frame
    → IsCompact naive
    → encode_return proc frame naive
      ≡ ok (seal proc (write_header (sent_return frame) naive ++ return_body frame) naive)
unfolding encode_return encode_return_seq
encode_return-sent proc frame naive i c =
    let some_rows : (length frame.rows == 0) ≡ false = ground (arith, i.some_rows) in
    let some_routes : (frame.route_count == 0) ≡ false = ground (arith, i.some_routes) in
    rw
      (
        some_rows,
        some_routes,
        check_codes-IsCodes frame.rows i.rows,
        return_header-sent frame naive i c,
        c.one_sum,
        c.bf16_rows,
      )
      refl

pub length-return_body :
    (frame : ReturnFrame) → IsReturn frame → length (return_body frame) ≡ length frame.rows * 8192
length-return_body frame i =
    rw (return_rows_wire-count frame.route_count frame.rows) (length-rows_bytes frame.rows i.rows)

read_block-codes_wire :
    (frame : ReturnFrame) (row : ReturnRow) (naive : WireNaive)
    → IsCodes row
    → read_block bf16 (sent_return frame) (codes_wire row.codes) naive ≡ ok row.codes
unfolding read_block
read_block-codes_wire frame row naive (l, c) =
    ap ok
      (ap (λ n. read_codes n (codes_wire row.codes)) (sym l) ∙ read_codes-codes_wire row.codes c)

read_blocks-rows :
    (frame : ReturnFrame) (rows : List ReturnRow) (naive : WireNaive) (n i : ℕ) (pre : List ℕ)
    → All IsCodes rows
    → length pre ≡ i * 8192
    → read_blocks
        (length rows)
        i
        (sent_return frame)
        (pre ++ return_rows_wire false false n rows)
        naive
      ≡ ok rows
unfolding read_blocks return_rows_wire
read_blocks-rows frame [] naive n i pre a e = refl
read_blocks-rows frame (row ∷ rows) naive n i pre ((l, c), a) e =
    let b = codes_wire row.codes in
    let rest = return_rows_wire false false n rows in
    let block : take 8192 (drop (i * 8192) (pre ++ (b ++ rest))) ≡ b =
      take-drop_part 8192 (i * 8192) pre b rest (omega (arith, length-codes_wire row.codes))
        (sym e) in
    let others : read_blocks (length rows) (i + 1) (sent_return frame) (pre ++ (b ++ rest)) naive
        ≡ ok rows =
      rw (← append_assoc pre b rest) (
        read_blocks-rows frame rows naive n (i + 1) (pre ++ b) a
          (omega (arith, length-append pre b, length-codes_wire row.codes))) in
    rw (block, read_block-codes_wire frame row naive (l, c), others) refl

check_return-sent :
    (frame : ReturnFrame) (bytes : List ℕ)
    → IsReturn frame
    → drop header_len bytes ≡ return_body frame
    → check_return (sent_return frame) bytes ≡ ok tt
unfolding check_return
check_return-sent frame bytes i e =
    let rows = length frame.rows in
    let some_rows : (rows == 0) ≡ false = ground (arith, i.some_rows) in
    let some_routes : (frame.route_count == 0) ≡ false = ground (arith, i.some_routes) in
    rw
      (
        i.reduced,
        some_rows,
        checked_mul-fits rows 8192 "payload_bytes" (omega (arith, i.few_rows)),
        ==-true (rows * 8192) (rows * 8192) refl,
        e,
        ==-true (length (return_body frame)) (rows * 8192) (length-return_body frame i),
        some_routes,
      )
      refl

-- Behind the 128 bytes of a header, the body of a compact return decodes to the frame.
pub decode_return-sent :
    (frame : ReturnFrame) (naive : WireNaive) (head : List ℕ)
    → IsReturn frame
    → length head ≡ header_len
    → decode_return (sent_return frame) (head ++ return_body frame) naive ≡ ok frame
unfolding decode_return
decode_return-sent frame naive head i e =
    let at_body : drop header_len (head ++ return_body frame) ≡ return_body frame =
      drop-append_end header_len head (return_body frame) (sym e) in
    rw
      (
        check_return-sent frame (head ++ return_body frame) i at_body,
        at_body,
        read_blocks-rows frame frame.rows naive frame.route_count 0 [] i.rows (omega arith),
      )
      refl
