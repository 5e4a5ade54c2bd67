-- ===== src/Wire/Stream.antt =====
-- crates/mimo26-wire/src/l4.rs: the sequence numbers of a stream and the bounded retry.
pub mod Order
pub mod Delivery
pub mod Gap
pub mod Retry
use mimo26f_afd.Prelude.{
  ℕ, zero, suc, ◌+◌, ◌==◌, ltb, if◌then◌else◌, Option, none, some, List, [], ◌∷◌, Result, ok, err,
  ◌>>=◌,
}
use mimo26f_afd.Word.{add64}
use mimo26f_afd.Wire.Naive.{WireNaive, has, seq_ignored}
use mimo26f_afd.Wire.Error.{
  WireError, duplicate, out_of_order, retry_exhausted, Disposition, retry, drop_idempotent,
  fail_loud, disposition,
}
use mimo26f_afd.Wire.Crc.{Process}
use mimo26f_afd.Wire.Request.{RequestFrame, encode_request_seq}
use mimo26f_afd.Wire.Return.{ReturnFrame, Frame, seq_of, encode_return_seq, decode_frame}

pub record StreamSender : Type 0 where
  pub naive : WireNaive
  pub next_seq : ℕ

-- StreamSender::new
unfoldable pub new_sender : WireNaive → StreamSender
new_sender naive = record { naive = naive; next_seq = 0 }

-- The sender behind a call, and the sequence number.
pub take_seq : StreamSender → StreamSender × ℕ
take_seq s = (record s { next_seq = add64 s.next_seq 1 }, s.next_seq)

-- StreamSender::encode_request
unfoldable pub send_request :
    Process → StreamSender → RequestFrame → StreamSender × Result WireError (List ℕ)
send_request proc s f =
    (record s { next_seq = add64 s.next_seq 1 }, encode_request_seq proc f s.next_seq s.naive)

-- StreamSender::encode_return
pub send_return : Process → StreamSender → ReturnFrame → StreamSender × Result WireError (List ℕ)
send_return proc s f =
    (record s { next_seq = add64 s.next_seq 1 }, encode_return_seq proc f s.next_seq s.naive)

pub record StreamReceiver : Type 0 where
  pub naive : WireNaive
  pub expected : ℕ

-- StreamReceiver::new
unfoldable pub new_receiver : WireNaive → StreamReceiver
new_receiver naive = record { naive = naive; expected = 0 }

pub accept_seq : StreamReceiver → ℕ → StreamReceiver × Result WireError (Unit {0})
accept_seq r seq =
    if has r.naive seq_ignored
    then (r, ok tt)
    else if seq == r.expected
    then (record r { expected = add64 r.expected 1 }, ok tt)
    else if ltb seq r.expected
    then (r, err (duplicate seq r.expected))
    else (r, err (out_of_order r.expected seq))

-- The part of `accept` behind the decoding.
pub accept_frame : StreamReceiver → Frame → StreamReceiver × Result WireError Frame
accept_frame r f =
    let seq = seq_of f in
    if has r.naive seq_ignored
    then (r, ok f)
    else if seq == r.expected
    then (record r { expected = add64 r.expected 1 }, ok f)
    else if ltb seq r.expected
    then (r, err (duplicate seq r.expected))
    else (r, err (out_of_order r.expected seq))

pub accept : Process → StreamReceiver → List ℕ → StreamReceiver × Result WireError Frame
accept proc r bytes = elim (decode_frame proc bytes r.naive) [
  | ok f ↦ accept_frame r f
  | err e ↦ (r, err e)
]

abbrev pub keep : Result WireError Frame → List Frame → List Frame
keep (ok f) frames = f ∷ frames
keep (err e) frames = frames

-- The frames that a receiver accepts of the byte strings that reach it.
pub receive : Process → StreamReceiver → List (List ℕ) → StreamReceiver × List Frame
receive proc r [] = (r, [])
receive proc r (bytes ∷ more) =
    let step = accept proc r bytes in
    let rest = receive proc step.0 more in (rest.0, keep step.1 rest.1)

module _ {T : Type 0} where
  -- What `retry_until` makes of one answer: a result, or the number of retries from here on.
  -- `attempts + 1` stays at most `max_attempts`, so the u32 does not wrap.
  unfoldable pub settle : ℕ → ℕ → Result WireError T → Option (Result WireError T)
  settle max_attempts attempts (ok v) = some (ok v)
  settle max_attempts attempts (err e) = elim (disposition e) [
    | retry ↦
        if ltb (attempts + 1) max_attempts then none else some (err (retry_exhausted attempts e))
    | drop_idempotent ↦ some (err e)
    | fail_loud ↦ some (err e)
  ]

module _ {S T : Type 0} where
  -- The loop of `retry_until` over an operation with a state of its own, on fuel; `none` is no fuel left.
  unfoldable pub retry_loop :
      ℕ → ℕ → ℕ → (S → S × Result WireError T) → S → Option (S × Result WireError T)
  retry_loop zero max_attempts attempts op s = none
  retry_loop (suc fuel) max_attempts attempts op s =
      let (t, r) = op s in
      let again = retry_loop fuel max_attempts (attempts + 1) op t in
      elim (settle max_attempts attempts r) [ none ↦ again | some out ↦ some (t, out) ]

  -- An operation runs at most `max_attempts` times, and once where that is 0.
  unfoldable pub retry_until :
      ℕ → (S → S × Result WireError T) → S → Option (S × Result WireError T)
  retry_until max_attempts op s = retry_loop (max_attempts + 1) max_attempts 0 op s
