-- ===== src/Wire/Tests.antt =====
-- Frames of one row.
mod Streams
mod Sums
mod Checksums
use mimo26f_afd.Prelude.{
  ℕ, false, zero, suc, ◌+◌, ◌^◌, ◌≡◌, ◌<◌, refl, ap, ◌∙◌, sym, arith, inl, inr, ltb, if◌then◌else◌,
  none, some, List, [], ◌∷◌, ◌++◌, map, take, replicate, length, length-replicate, get_elem?, All,
  Result, ok, err, ◌>>=◌,
}
use mimo26f_afd.Wire.Naive.{naive_none, has, seq_ignored}
use mimo26f_afd.Wire.Error.{WireError, too_short, dim_mismatch, retry_exhausted, disposition}
use mimo26f_afd.Wire.Layout.{
  decode, status_ok, hidden_row_bytes, scale_k, request_row_bytes, return_row_bytes,
}
use mimo26f_afd.Wire.Row.{
  RowDescriptor, RouteEntry, row_descriptor_wire, row_descriptor_from_wire, route_entry_wire,
  route_entry_from_wire, validate_rows, validate_routes, validate_rows_routes,
}
use mimo26f_afd.Wire.Row.RoundTrip.{row_descriptor_lem, route_entry_lem}
use mimo26f_afd.Wire.Header.{write_header, parse_header}
use mimo26f_afd.Wire.Crc.{
  Process, seal, verify_crc, castagnoli, crc32c_with, crc32c_zeroed, crc32c_bitwise, bitwise_loop,
}
use mimo26f_afd.Wire.Crc.Sealed.{verify_crc-seal}
use mimo26f_afd.Wire.Crc.Zeroed.{crc32c_zeroed_lem}
use mimo26f_afd.Wire.Bytes.{put}
use mimo26f_afd.Wire.Request.{RequestFrame, encode_request, encode_request_seq}
use mimo26f_afd.Wire.Request.Sent.{
  IsSendable, sent_header, sent_body, encode_request-sent, encode_request_seq-encode_request,
  IsSendable-seq,
}
use mimo26f_afd.Wire.Return.{
  ReturnFrame, request, return_frame, encode_return, encode_return_seq, decode_frame,
}
use mimo26f_afd.Wire.Return.RoundTrip.{IsReturn, IsCompact, check_codes-IsCodes, return_body}
use mimo26f_afd.Wire.Return.InPlace.{
  return_header_seq, seal_in_place, return_header_seq-encode_return_seq,
}
use mimo26f_afd.Wire.RoundTrip.{decode_frame-encode_request, decode_frame-encode_return}
use mimo26f_afd.Wire.Stream.{
  new_sender, new_receiver, send_request, receive, settle, retry_loop, retry_until,
}
use mimo26f_afd.Wire.Crc.Table.{crc32c_with-bitwise}
use mimo26f_afd.Wire.View.Agrees.{Agrees, parse-Agrees}
use mimo26f_afd.Wire.Stream.Order.{Receives, receive-Receives}
use mimo26f_afd.Wire.Stream.Delivery.{send_all, stamped, receive-send_all}
use mimo26f_afd.Wire.Stream.Gap.{receive-send_request}
use mimo26f_afd.Wire.Stream.Retry.{Retries, retry_until-Retries}

-- The row contracts of the source's static guards.
sizes :
    (hidden_row_bytes naive_none ≡ 4224)
    × (request_row_bytes naive_none ≡ 4360)
    × (return_row_bytes 8 naive_none ≡ 8192)
unfolding hidden_row_bytes scale_k has request_row_bytes return_row_bytes
sizes = (refl, refl, refl)

pub none_strict : has naive_none seq_ignored ≡ false
unfolding has
none_strict = refl

abbrev pub by_table : Process
by_table = record { crc_disabled = false; hardware = none }

abbrev row : RowDescriptor
row = record {
  row_id = 7;
  source_kind = decode;
  source_request_id = 300;
  token_position = 70000;
  route_offset = 0;
  route_count = 1;
}

abbrev entry : RouteEntry
entry = record { row_index = 0; expert_id = 513; gate_weight = 0x3f800000 }

verify_crc-seal_example :
    verify_crc by_table (seal by_table (replicate 200 5) naive_none) naive_none 3 ≡ ok tt
verify_crc-seal_example = verify_crc-seal by_table (replicate 200 5) naive_none 3 (omega arith)

abbrev pub one_row : RequestFrame
one_row = record {
  request_id = 12;
  placement_version = 1;
  layer_id = 3;
  executor_id = 2;
  source_kind = decode;
  token_position = 0;
  flags = 0;
  seq = 0;
  rows = row ∷ [];
  routes = entry ∷ [];
  hidden_rows = record { payload = replicate 4096 17; scales = replicate 128 127 } ∷ [];
}

one_row-ranges : validate_rows_routes one_row.rows one_row.routes ≡ ok tt
unfolding validate_rows_routes validate_rows validate_routes
one_row-ranges = refl

pub one_row-IsSendable : IsSendable one_row naive_none
one_row-IsSendable = record {
  request_id = omega arith;
  placement_version = omega arith;
  layer_id = omega arith;
  executor_id = omega arith;
  token_position = omega arith;
  flags = omega arith;
  seq = omega arith;
  rows = (
    record {
      row_id = omega arith;
      source_request_id = omega arith;
      token_position = omega arith;
      route_offset = omega arith;
      route_count = omega arith;
    },
    tt,
  );
  routes =
      (record { row_index = omega arith; expert_id = omega arith; gate_weight = omega arith }, tt);
  hidden_rows = (
    (
      length-replicate {A = ℕ} 4096 17,
      ap (λ n. n + 4096) (length-replicate {A = ℕ} 128 127) ∙ sym sizes.0,
    ),
    tt,
  );
  counts = refl;
  some_rows = omega arith;
  few_rows = omega arith;
  few_routes = omega arith;
  ranges = one_row-ranges;
}

decode_frame-encode_request_example :
    (do b ← encode_request by_table one_row naive_none; decode_frame by_table b naive_none)
    ≡ ok (request one_row)
decode_frame-encode_request_example =
    decode_frame-encode_request by_table one_row naive_none one_row-IsSendable

all_small : (n : ℕ) → All (λ code. code < 2 ^ 16) (replicate n 300)
all_small zero = tt
all_small (suc n) = (omega arith, all_small n)

abbrev one_partial : ReturnFrame
one_partial = record {
  request_id = 12;
  placement_version = 1;
  layer_id = 3;
  executor_id = 2;
  token_position = 0;
  status = status_ok;
  flags = 2 ^ 9 + 2 ^ 16;
  route_count = 8;
  seq = 5;
  rows = record { codes = replicate 4096 300 } ∷ [];
}

one_partial-IsReturn : IsReturn one_partial
one_partial-IsReturn = record {
  request_id = omega arith;
  placement_version = omega arith;
  layer_id = omega arith;
  executor_id = omega arith;
  token_position = omega arith;
  flags = omega arith;
  seq = omega arith;
  some_routes = omega arith;
  few_routes = omega arith;
  some_rows = omega arith;
  few_rows = omega arith;
  rows = ((length-replicate {A = ℕ} 4096 300, all_small 4096), tt);
  reduced = refl;
}

naive_none-IsCompact : IsCompact naive_none
unfolding has
naive_none-IsCompact = record { one_sum = refl; bf16_rows = refl }

decode_frame-encode_return_example :
    (do b ← encode_return by_table one_partial naive_none; decode_frame by_table b naive_none)
    ≡ ok (return_frame one_partial)
decode_frame-encode_return_example =
    decode_frame-encode_return by_table one_partial naive_none one_partial-IsReturn
      naive_none-IsCompact

abbrev check_digits : List ℕ
check_digits = 49 ∷ 50 ∷ 51 ∷ 52 ∷ 53 ∷ 54 ∷ 55 ∷ 56 ∷ 57 ∷ []

crc32c_with-bitwise_example :
    crc32c_with by_table castagnoli check_digits ≡ crc32c_bitwise check_digits
crc32c_with-bitwise_example = crc32c_with-bitwise check_digits false (
  omega arith,
  (
    omega arith,
    (
      omega arith,
      (omega arith, (omega arith, (omega arith, (omega arith, (omega arith, (omega arith, tt)))))),
    ),
  ),
)

-- RFC 3720's value for "123456789".
check_value : crc32c_bitwise check_digits ≡ 0xe3069283
unfolding crc32c_bitwise bitwise_loop
check_value = refl

return_header_seq-encode_return_seq_example :
    (do
      head ← return_header_seq one_partial (length one_partial.rows) 5 naive_none
      ok (seal_in_place by_table (head ++ return_body one_partial) naive_none))
    ≡ encode_return_seq by_table one_partial 5 naive_none
return_header_seq-encode_return_seq_example =
    return_header_seq-encode_return_seq by_table one_partial 5 naive_none naive_none-IsCompact
      (check_codes-IsCodes one_partial.rows (IsReturn.rows one_partial-IsReturn))
