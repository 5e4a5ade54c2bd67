-- ===== src/Wire/RoundTrip.antt =====
-- Frames decode to what was encoded.
use mimo26f_afd.Prelude.{◌≡◌, refl, arith, ◌++◌, ok, ◌>>=◌}
use mimo26f_afd.Wire.Naive.{WireNaive}
use mimo26f_afd.Wire.Header.{write_header}
use mimo26f_afd.Wire.Crc.{Process, seal}
use mimo26f_afd.Wire.Crc.Framed.{seal-Opens}
use mimo26f_afd.Wire.Request.{RequestFrame, encode_request}
use mimo26f_afd.Wire.Request.Sent.{
  IsSendable, sent_header, sent_body, sent_header-IsHeader, encode_request-sent,
}
use mimo26f_afd.Wire.Request.RoundTrip.{length-sent_body, decode_request-sent}
use mimo26f_afd.Wire.Return.{ReturnFrame, request, return_frame, encode_return, decode_frame}
use mimo26f_afd.Wire.Return.RoundTrip.{
  IsReturn, IsCompact, sent_return, return_body, sent_return-IsHeader, encode_return-sent,
  length-return_body, decode_return-sent,
}

decode_frame-request :
    (proc : Process) (frame : RequestFrame) (naive : WireNaive)
    → IsSendable frame naive
    → decode_frame proc
        (seal proc (write_header (sent_header frame naive) naive ++ sent_body frame naive) naive)
        naive
      ≡ ok (request frame)
unfolding decode_frame
decode_frame-request proc frame naive i =
    let o =
      seal-Opens proc (sent_header frame naive) naive (sent_body frame naive)
        (sent_header-IsHeader frame naive i) (omega (arith, length-sent_body frame naive i)) in
    rw (o.parsed, o.checked, o.split, decode_request-sent frame naive o.head i o.size) refl

decode_frame-return :
    (proc : Process) (frame : ReturnFrame) (naive : WireNaive)
    → IsReturn frame
    → decode_frame proc
        (seal proc (write_header (sent_return frame) naive ++ return_body frame) naive)
        naive
      ≡ ok (return_frame frame)
unfolding decode_frame
decode_frame-return proc frame naive i =
    let o =
      seal-Opens proc (sent_return frame) naive (return_body frame) (sent_return-IsHeader frame i)
        (omega (arith, length-return_body frame i)) in
    rw (o.parsed, o.checked, o.split, decode_return-sent frame naive o.head i o.size) refl

-- A request frame that can be sent encodes, and the bytes decode to just that frame, under every
-- variant and with checksums on or off and in hardware or by table, the same on both sides. A frame
-- can be sent where its numbers are values of their types, it has a row, each row has a hidden row of
-- the variant's size, the routes fit the rows, and each of its tables is below 4 GiB.
pub decode_frame-encode_request :
    (proc : Process) (frame : RequestFrame) (naive : WireNaive)
    → IsSendable frame naive
    → (do b ← encode_request proc frame naive; decode_frame proc b naive) ≡ ok (request frame)
decode_frame-encode_request proc frame naive i =
    rw (encode_request-sent proc frame naive i) (decode_frame-request proc frame naive i)

-- A return frame encodes, and the bytes decode to just that frame, under every variant that keeps the
-- rows compact and with checksums on or off and in hardware or by table, the same on both sides;
-- provided that its numbers are values of their types, it has a route and from 1 to 2 ^ 19 - 1 rows of
-- 4096 codes, and it has both reduction flags where its status is Ok.
pub decode_frame-encode_return :
    (proc : Process) (frame : ReturnFrame) (naive : WireNaive)
    → IsReturn frame
    → IsCompact naive
    → (do b ← encode_return proc frame naive; decode_frame proc b naive) ≡ ok (return_frame frame)
decode_frame-encode_return proc frame naive i c =
    rw (encode_return-sent proc frame naive i c) (decode_frame-return proc frame naive i)
