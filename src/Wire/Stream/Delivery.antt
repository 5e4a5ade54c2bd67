-- ===== src/Wire/Stream/Delivery.antt =====
-- A sender, a network and a receiver: what is accepted is a prefix of what was sent.
use mimo26f_afd.Prelude.{
  ℕ, zero, suc, ◌+◌, ◌^◌, ◌<◌, ◌≡◌, ◌⊎◌, refl, sym, ap, ◌∙◌, inl, inr, arith, false, some, List, [],
  ◌∷◌, map, length, take, drop, get_elem?, All, Result, ok, err, ◌>>=◌,
}
use mimo26f_afd.Word.{add64}
use mimo26f_afd.Wire.Naive.{WireNaive, has, seq_ignored}
use mimo26f_afd.Wire.Error.{WireError}
use mimo26f_afd.Wire.Crc.{Process}
use mimo26f_afd.Wire.Request.{RequestFrame, encode_request}
use mimo26f_afd.Wire.Request.Sent.{IsSendable, IsSendable-seq, encode_request_seq-encode_request}
use mimo26f_afd.Wire.Return.{Frame, request, seq_of, decode_frame}
use mimo26f_afd.Wire.RoundTrip.{decode_frame-encode_request}
use mimo26f_afd.Wire.Stream.{StreamSender, new_sender, send_request, new_receiver, receive}
use mimo26f_afd.Wire.Stream.Order.{IsNumbered, AreFrom, receive-Receives}

-- The answers of a sender that is handed the frames one after the other.
unfoldable pub send_all :
    Process → StreamSender → List RequestFrame → List (Result WireError (List ℕ))
send_all proc s [] = []
send_all proc s (f ∷ fs) = let (t, out) = send_request proc s f in out ∷ send_all proc t fs

-- The frames with the numbers from `n` on.
abbrev pub stamped : ℕ → List RequestFrame → List RequestFrame
stamped n [] = []
stamped n (f ∷ fs) = record f { seq = n } ∷ stamped (n + 1) fs

-- Frame `f` is the frame of its number among `frames`.
abbrev IsSent : List RequestFrame → Frame → Type 0
IsSent frames f = (g : RequestFrame) × (get_elem? frames (seq_of f) ≡ some g) × (f ≡ request g)

ok_injective : {a b : Result WireError (List ℕ)} → some a ≡ some b → a ≡ b
ok_injective h = cc

-- A byte string that a sender gave out decodes to the frame at its place, under its number.
pub sent_decodes :
    (proc : Process) (naive : WireNaive) (n i : ℕ) (s : StreamSender) (fs : List RequestFrame)
    (b : List ℕ)
    → s.naive ≡ naive
    → s.next_seq ≡ n
    → n + length fs < 2 ^ 64
    → All (λ f. IsSendable f naive) fs
    → get_elem? (send_all proc s fs) i ≡ some (ok b)
    → (g : RequestFrame) × (get_elem? (stamped n fs) i ≡ some g)
      × (g.seq ≡ n + i)
      × (decode_frame proc b naive ≡ ok (request g))
unfolding send_all send_request
sent_decodes proc naive n i s [] b v e small a h = absurd (cc)
sent_decodes proc naive n zero s (f ∷ fs) b v e small (a, rest) h =
    let g = record f { seq = n } in
    let encoded : encode_request proc g naive ≡ ok b =
      sym (encode_request_seq-encode_request proc f n naive) ∙ rw (sym e, sym v) (ok_injective h) in
    let round : (do c ← encode_request proc g naive; decode_frame proc c naive) ≡ ok (request g) =
      decode_frame-encode_request proc g naive (IsSendable-seq f naive n a (omega arith)) in
    (g, refl, omega arith, rw encoded at round)
sent_decodes proc naive n (suc i) s (f ∷ fs) b v e small (a, rest) h =
    let (g, at_place, number, decodes) =
      sent_decodes proc naive (n + 1) i (record s { next_seq = add64 s.next_seq 1 }) fs b v
        (omega arith) (omega arith) rest h in
    (g, at_place, omega arith, decodes)

-- A byte string that arrives is one that the sender gave out, or does not decode.
abbrev pub Arrives : Process → WireNaive → List RequestFrame → List ℕ → Type 0
Arrives proc naive sent b =
    ((i : ℕ) × (get_elem? (send_all proc (new_sender naive) sent) i ≡ some (ok b)))
    ⊎ ((e : WireError) × (decode_frame proc b naive ≡ err e))

Arrives-IsSent :
    (proc : Process) (naive : WireNaive) (sent : List RequestFrame) (b : List ℕ) (f : Frame)
    → All (λ g. IsSendable g naive) sent
    → length sent < 2 ^ 64
    → Arrives proc naive sent b
    → decode_frame proc b naive ≡ ok f
    → IsSent (stamped 0 sent) f
unfolding new_sender seq_of
Arrives-IsSent proc naive sent b f a small (inr (e, fails)) h = absurd (cc)
Arrives-IsSent proc naive sent b f a small (inl (i, out)) h =
    let (g, at_place, number, decodes) =
      sent_decodes proc naive 0 i (new_sender naive) sent b refl refl (omega arith) a out in
    let same : f ≡ request g = cc in
    let place : seq_of f ≡ i = ap seq_of same ∙ omega arith in
    (g, ap (get_elem? (stamped 0 sent)) place ∙ at_place, same)

all-IsSent :
    (proc : Process) (naive : WireNaive) (sent : List RequestFrame) (inputs : List (List ℕ))
    (fs : List Frame)
    → All (λ g. IsSendable g naive) sent
    → length sent < 2 ^ 64
    → All (Arrives proc naive sent) inputs
    → AreFrom proc naive inputs fs
    → All (IsSent (stamped 0 sent)) fs
all-IsSent proc naive sent inputs [] a small h from_inputs = tt
all-IsSent proc naive sent [] (f ∷ fs) a small h from_inputs = absurd from_inputs
all-IsSent proc naive sent (b ∷ inputs) (f ∷ fs) a small (h, hs) (inl (decoded, from_inputs)) = (
  Arrives-IsSent proc naive sent b f a small h decoded,
  all-IsSent proc naive sent inputs fs a small hs from_inputs,
)
all-IsSent proc naive sent (b ∷ inputs) (f ∷ fs) a small (h, hs) (inr from_inputs) =
    all-IsSent proc naive sent inputs (f ∷ fs) a small hs from_inputs

drop_cong : {A : Type 0} (m n : ℕ) (xs : List A) → m ≡ n → drop m xs ≡ drop n xs
drop_cong m n xs e = ap (λ k. drop k xs) e

drop-get_elem? :
    {A : Type 0} (xs : List A) (n : ℕ) (x : A)
    → get_elem? xs n ≡ some x
    → drop n xs ≡ x ∷ drop (n + 1) xs
drop-get_elem? [] n x h = absurd (cc)
drop-get_elem? (y ∷ xs) zero x h = cc
drop-get_elem? (y ∷ xs) (suc n) x h =
    let next : drop (suc n + 1) (y ∷ xs) ≡ drop (n + 1) xs =
      drop_cong (suc n + 1) (suc (n + 1)) (y ∷ xs) (omega arith) in
    drop-get_elem? xs n x h ∙ ap (λ l. x ∷ l) (sym next)

numbered_prefix :
    (frames : List RequestFrame) (n : ℕ) (fs : List Frame)
    → IsNumbered n fs
    → All (IsSent frames) fs
    → fs ≡ map request (take (length fs) (drop n frames))
numbered_prefix frames n [] numbered a = refl
numbered_prefix frames n (f ∷ fs) (number, numbered) ((g, at_place, same), a) =
    let rest = numbered_prefix frames (n + 1) fs numbered a in
    let split = drop-get_elem? frames n g (ap (get_elem? frames) (sym number) ∙ at_place) in
    rw split (ap (λ h. h ∷ fs) same ∙ ap (λ l. request g ∷ l) rest)

-- A sender numbers the request frames that it is handed, fewer than 2 ^ 64, all of which can be sent.
-- The network gives a receiver with the bit SEQ_IGNORED clear any byte strings, each as often and in whatever order it likes, as long as each is one
-- that the sender gave out or one that does not decode, and there are fewer than 2 ^ 64. Then the
-- frames that the receiver accepts are the first ones sent, in the order of sending, each once, as many
-- as the number that it expects next.
pub receive-send_all :
    (proc : Process) (naive : WireNaive) (sent : List RequestFrame) (inputs : List (List ℕ))
    → has naive seq_ignored ≡ false
    → All (λ g. IsSendable g naive) sent
    → length sent < 2 ^ 64
    → length inputs < 2 ^ 64
    → All (Arrives proc naive sent) inputs
    → (receive proc (new_receiver naive) inputs).1
      ≡ map request (take (receive proc (new_receiver naive) inputs).0.expected (stamped 0 sent))
unfolding new_receiver
receive-send_all proc naive sent inputs strict a small few h =
    let r = receive-Receives proc (new_receiver naive) inputs strict (omega arith) in
    let frames = (receive proc (new_receiver naive) inputs).1 in
    let count : length frames ≡ (receive proc (new_receiver naive) inputs).0.expected =
      omega (arith, r.count) in
    numbered_prefix (stamped 0 sent) 0 frames r.numbered
      (all-IsSent proc naive sent inputs frames a small h r.from_inputs)
    ∙ ap (λ k. map request (take k (stamped 0 sent))) count
