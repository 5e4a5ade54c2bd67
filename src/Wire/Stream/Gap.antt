-- ===== src/Wire/Stream/Gap.antt =====
-- A frame that does not encode still takes a number.
use mimo26f_afd.Prelude.{
  ℕ, ◌+◌, ◌^◌, ◌<◌, ◌≡◌, ◌⊎◌, refl, ap, ◌∙◌, inl, inr, arith, false, some, List, [], ◌∷◌, length,
  get_elem?, All, ok, err,
}
use mimo26f_afd.Word.{add64}
use mimo26f_afd.Wire.Naive.{has, seq_ignored}
use mimo26f_afd.Wire.Error.{WireError, out_of_order}
use mimo26f_afd.Wire.Crc.{Process}
use mimo26f_afd.Wire.Request.{RequestFrame}
use mimo26f_afd.Wire.Request.Sent.{IsSendable}
use mimo26f_afd.Wire.Return.{request, seq_of, decode_frame}
use mimo26f_afd.Wire.Stream.{StreamSender, send_request, StreamReceiver, accept, receive}
use mimo26f_afd.Wire.Stream.Order.{accept-Accepts, receive_step}
use mimo26f_afd.Wire.Stream.Delivery.{send_all, sent_decodes}

-- A byte string is one that the sender gives out for the frames, or does not decode.
abbrev pub ComesFrom : Process → StreamSender → List RequestFrame → List ℕ → Type 0
ComesFrom proc s later b =
    ((i : ℕ) × (get_elem? (send_all proc s later) i ≡ some (ok b)))
    ⊎ ((e : WireError) × (decode_frame proc b s.naive ≡ err e))

-- A frame of a later number, or none, leaves the receiver as it is.
refused :
    (proc : Process) (s : StreamSender) (later : List RequestFrame) (r : StreamReceiver)
    (b : List ℕ)
    → r.naive ≡ s.naive
    → has r.naive seq_ignored ≡ false
    → r.expected < s.next_seq
    → s.next_seq + length later < 2 ^ 64
    → All (λ g. IsSendable g s.naive) later
    → ComesFrom proc s later b
    → (e : WireError) × (accept proc r b ≡ (r, err e))
unfolding seq_of
refused proc s later r b same strict gap small a (inr (e, fails)) =
    let rule = accept-Accepts proc r b strict (omega arith) in
    (e, rule.broken e (ap (decode_frame proc b) same ∙ fails))
refused proc s later r b same strict gap small a (inl (i, out)) =
    let rule = accept-Accepts proc r b strict (omega arith) in
    let (g, at_place, number, decodes) =
      sent_decodes proc s.naive s.next_seq i s later b refl refl small a out in
    (
      out_of_order r.expected g.seq,
      rule.early (request g) (ap (decode_frame proc b) same ∙ decodes) (omega arith),
    )

receive_refused :
    (proc : Process) (s : StreamSender) (later : List RequestFrame) (r : StreamReceiver)
    (inputs : List (List ℕ))
    → r.naive ≡ s.naive
    → has r.naive seq_ignored ≡ false
    → r.expected < s.next_seq
    → s.next_seq + length later < 2 ^ 64
    → All (λ g. IsSendable g s.naive) later
    → All (ComesFrom proc s later) inputs
    → receive proc r inputs ≡ (r, [])
unfolding receive
receive_refused proc s later r [] same strict gap small a h = refl
receive_refused proc s later r (b ∷ inputs) same strict gap small a (h, hs) =
    let (e, no_frame) = refused proc s later r b same strict gap small a h in
    let rest = receive_refused proc s later r inputs same strict gap small a hs in
    receive_step proc r r b inputs (err e) no_frame ∙ rw rest refl

-- A sender and a receiver of the same variant that are in step, the bit SEQ_IGNORED clear, and a frame
-- that the sender fails to encode: from then on
-- the receiver accepts nothing, whichever frames that can be sent the sender goes on to give out, and
-- in whatever order and however often they or broken byte strings arrive; as long as the numbers stay
-- below 2 ^ 64.
pub receive-send_request :
    (proc : Process) (s : StreamSender) (failed : RequestFrame) (e : WireError)
    (later : List RequestFrame) (r : StreamReceiver) (inputs : List (List ℕ))
    → r.naive ≡ s.naive
    → has r.naive seq_ignored ≡ false
    → r.expected ≡ s.next_seq
    → s.next_seq + 1 + length later < 2 ^ 64
    → (send_request proc s failed).1 ≡ err e
    → All (λ g. IsSendable g s.naive) later
    → All (ComesFrom proc (send_request proc s failed).0 later) inputs
    → receive proc r inputs ≡ (r, [])
unfolding send_request
receive-send_request proc s failed e later r inputs same strict step small fails a h =
    let next : add64 s.next_seq 1 ≡ s.next_seq + 1 = omega arith in
    receive_refused proc (send_request proc s failed).0 later r inputs same strict (omega arith)
      (omega arith) a h
