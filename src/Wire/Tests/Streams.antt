-- ===== src/Wire/Tests/Streams.antt =====
-- Streams of frames of one row.
use mimo26f_afd.Prelude.{
  ℕ, ◌+◌, ◌≡◌, refl, ap, ◌∙◌, arith, inl, inr, ltb, if◌then◌else◌, some, List, [], ◌∷◌, ◌++◌, map,
  take, get_elem?, Result, ok, err,
}
use mimo26f_afd.Wire.Naive.{naive_none}
use mimo26f_afd.Wire.Error.{WireError, too_short, dim_mismatch, retry_exhausted, disposition}
use mimo26f_afd.Wire.Header.{write_header, parse_header}
use mimo26f_afd.Wire.Crc.{seal}
use mimo26f_afd.Wire.Request.{RequestFrame, encode_request_seq}
use mimo26f_afd.Wire.Request.Sent.{
  sent_header, sent_body, encode_request-sent, encode_request_seq-encode_request, IsSendable-seq,
}
use mimo26f_afd.Wire.Return.{request, decode_frame}
use mimo26f_afd.Wire.Stream.{
  new_sender, new_receiver, send_request, receive, settle, retry_loop, retry_until,
}
use mimo26f_afd.Wire.View.Agrees.{Agrees, parse-Agrees}
use mimo26f_afd.Wire.Stream.Order.{Receives, receive-Receives}
use mimo26f_afd.Wire.Stream.Delivery.{send_all, stamped, receive-send_all}
use mimo26f_afd.Wire.Stream.Gap.{receive-send_request}
use mimo26f_afd.Wire.Stream.Retry.{Retries, retry_until-Retries}
use mimo26f_afd.Wire.Tests.{none_strict, by_table, one_row, one_row-IsSendable}

-- The first answer of a sender.
first_bytes :
    (fs : List RequestFrame)
    → get_elem? (send_all by_table (new_sender naive_none) (one_row ∷ fs)) 0
      ≡ some (
          ok (
            seal by_table
              (write_header (sent_header one_row naive_none) naive_none
                ++ sent_body one_row naive_none)
              naive_none))
unfolding send_all send_request new_sender
first_bytes fs = ap some (
    encode_request_seq-encode_request by_table one_row 0 naive_none
    ∙ encode_request-sent by_table one_row naive_none one_row-IsSendable)

abbrev first : List ℕ
first =
    seal by_table
      (write_header (sent_header one_row naive_none) naive_none ++ sent_body one_row naive_none)
      naive_none

cut_short : decode_frame by_table (1 ∷ 2 ∷ []) naive_none ≡ err (too_short 128 2)
unfolding decode_frame parse_header
cut_short = refl

-- The first frame arrives twice, and a cut one between.
receive-send_all_example :
    (receive by_table (new_receiver naive_none) (first ∷ (1 ∷ 2 ∷ []) ∷ first ∷ [])).1
    ≡ map request (
        take
          (receive by_table
            (new_receiver naive_none)
            (first ∷ (1 ∷ 2 ∷ []) ∷ first ∷ [])).0.expected
          (stamped 0 (one_row ∷ one_row ∷ [])))
receive-send_all_example =
    receive-send_all by_table naive_none (one_row ∷ one_row ∷ [])
      (first ∷ (1 ∷ 2 ∷ []) ∷ first ∷ []) none_strict (one_row-IsSendable, (one_row-IsSendable, tt))
      (omega arith) (omega arith)
      (
        inl (0, first_bytes (one_row ∷ [])),
        (inr (too_short 128 2, cut_short), (inl (0, first_bytes (one_row ∷ [])), tt)),
      )

receive-Receives_example :
    Receives by_table
      (new_receiver naive_none)
      ((1 ∷ 2 ∷ []) ∷ first ∷ [])
      (receive by_table (new_receiver naive_none) ((1 ∷ 2 ∷ []) ∷ first ∷ []))
unfolding new_receiver
receive-Receives_example =
    receive-Receives by_table (new_receiver naive_none) ((1 ∷ 2 ∷ []) ∷ first ∷ []) none_strict
      (omega arith)

-- Fails twice with a cut frame, and succeeds from the third call on.
abbrev third_time : ℕ → ℕ × Result WireError ℕ
third_time n = (n + 1, if ltb n 2 then err (too_short 128 n) else ok n)

retry_until-Retries_example : Retries third_time 5 0 0 (retry_until 5 third_time 0)
retry_until-Retries_example = retry_until-Retries third_time 5 0

succeeds : retry_until 5 third_time 0 ≡ some (3, ok 2)
unfolding retry_until retry_loop settle disposition
succeeds = refl

gives_up : retry_until 2 third_time 0 ≡ some (2, err (retry_exhausted 1 (too_short 128 1)))
unfolding retry_until retry_loop settle disposition
gives_up = refl

-- A whole frame parses in place as well.
parse-Agrees_example : Agrees by_table first naive_none
parse-Agrees_example = parse-Agrees by_table first naive_none

-- A request with no row does not encode; it takes the number 0.
abbrev no_row : RequestFrame
no_row = record one_row { rows = []; hidden_rows = [] }

no_row_fails :
    (send_request by_table (new_sender naive_none) no_row).1 ≡ err (dim_mismatch "rows" 1 0)
unfolding send_request encode_request_seq
no_row_fails = refl

abbrev second_row : RequestFrame
second_row = record one_row { seq = 1 }

abbrev second : List ℕ
second =
    seal by_table
      (write_header (sent_header second_row naive_none) naive_none
        ++ sent_body second_row naive_none)
      naive_none

second_bytes :
    get_elem?
      (send_all by_table (send_request by_table (new_sender naive_none) no_row).0 (one_row ∷ []))
      0
    ≡ some (ok second)
unfolding send_all send_request new_sender
second_bytes = ap some (
    encode_request_seq-encode_request by_table one_row 1 naive_none
    ∙ encode_request-sent by_table second_row naive_none
        (IsSendable-seq one_row naive_none 1 one_row-IsSendable (omega arith)))

receive-send_request_example :
    receive by_table (new_receiver naive_none) (second ∷ second ∷ [])
    ≡ (new_receiver naive_none, [])
unfolding new_sender new_receiver
receive-send_request_example =
    receive-send_request by_table (new_sender naive_none) no_row (dim_mismatch "rows" 1 0)
      (one_row ∷ []) (new_receiver naive_none) (second ∷ second ∷ []) refl none_strict refl
      (omega arith) no_row_fails (one_row-IsSendable, tt)
      (inl (0, second_bytes), (inl (0, second_bytes), tt))
