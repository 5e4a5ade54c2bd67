-- ===== src/Wire/Stream/Order.antt =====
-- What a receiver accepts is in order, with no gap and nothing twice.
use mimo26f_afd.Prelude.{
  ℕ, ◌+◌, ◌^◌, ◌<◌, ◌==◌, ltb, ◌≡◌, ◌⊎◌, refl, ap, ◌∙◌, inl, inr, arith, Result-cases, true, false,
  List, [], ◌∷◌, length, Result, ok, err,
}
use mimo26f_afd.Word.{add64}
use mimo26f_afd.Wire.Naive.{has, seq_ignored}
use mimo26f_afd.Wire.Error.{WireError, duplicate, out_of_order}
use mimo26f_afd.Wire.Crc.{Process}
use mimo26f_afd.Wire.Return.{Frame, seq_of, decode_frame}
use mimo26f_afd.Wire.Stream.{StreamReceiver, accept_frame, accept, keep, receive}

-- One call of `accept`: the frame of the expected number moves the receiver on, and any other answer
-- leaves it.
pub record Accepts (proc : Process) (r : StreamReceiver) (bytes : List ℕ)
    (out : StreamReceiver × Result WireError Frame) : Type 0 where
  pub taken :
      (f : Frame)
      → decode_frame proc bytes r.naive ≡ ok f
      → seq_of f ≡ r.expected
      → out ≡ (record r { expected = r.expected + 1 }, ok f)
  pub old :
      (f : Frame)
      → decode_frame proc bytes r.naive ≡ ok f
      → seq_of f < r.expected
      → out ≡ (r, err (duplicate (seq_of f) r.expected))
  pub early :
      (f : Frame)
      → decode_frame proc bytes r.naive ≡ ok f
      → r.expected < seq_of f
      → out ≡ (r, err (out_of_order r.expected (seq_of f)))
  pub broken : (e : WireError) → decode_frame proc bytes r.naive ≡ err e → out ≡ (r, err e)

order : (a b : ℕ) → (a ≡ b) ⊎ ((a < b) ⊎ (b < a))
order a b = ground arith

accept_known :
    (proc : Process) (r : StreamReceiver) (bytes : List ℕ) (f : Frame)
    → decode_frame proc bytes r.naive ≡ ok f
    → accept proc r bytes ≡ accept_frame r f
unfolding accept
accept_known proc r bytes f e = rw (e, accept) refl

-- A receiver that keeps the order, below the last number.
pub accept-Accepts :
    (proc : Process) (r : StreamReceiver) (bytes : List ℕ)
    → has r.naive seq_ignored ≡ false
    → r.expected + 1 < 2 ^ 64
    → Accepts proc r bytes (accept proc r bytes)
unfolding accept_frame accept
accept-Accepts proc r bytes strict small = record {
  taken = λ f e same.
      let hit : (seq_of f == r.expected) ≡ true = ground (arith, same) in
      let next : add64 r.expected 1 ≡ r.expected + 1 = omega arith in
      accept_known proc r bytes f e ∙ rw (strict, hit, next, accept_frame) refl;
  old = λ f e lt.
      let miss : (seq_of f == r.expected) ≡ false = ground arith in
      let below : ltb (seq_of f) r.expected ≡ true = ground arith in
      accept_known proc r bytes f e ∙ rw (strict, miss, below, accept_frame) refl;
  early = λ f e lt.
      let miss : (seq_of f == r.expected) ≡ false = ground arith in
      let above : ltb (seq_of f) r.expected ≡ false = ground arith in
      accept_known proc r bytes f e ∙ rw (strict, miss, above, accept_frame) refl;
  broken = λ x e. rw (e, accept) refl;
}

-- What one call comes to.
abbrev pub Outcome :
    Process → StreamReceiver → List ℕ → StreamReceiver × Result WireError Frame → Type 0
Outcome proc r bytes out =
    ((f : Frame) × (decode_frame proc bytes r.naive ≡ ok f)
      × (seq_of f ≡ r.expected)
      × (out ≡ (record r { expected = r.expected + 1 }, ok f)))
    ⊎ ((e : WireError) × (out ≡ (r, err e)))

pub accept-Outcome :
    (proc : Process) (r : StreamReceiver) (bytes : List ℕ)
    → has r.naive seq_ignored ≡ false
    → r.expected + 1 < 2 ^ 64
    → Outcome proc r bytes (accept proc r bytes)
accept-Outcome proc r bytes strict small =
    let a = accept-Accepts proc r bytes strict small in
    elim (Result-cases (decode_frame proc bytes r.naive)) [
      | inl (f, e) ↦ elim (order (seq_of f) r.expected) [
        | inl same ↦ inl (f, e, same, a.taken f e same)
        | inr (inl lt) ↦ inr (_, a.old f e lt)
        | inr (inr gt) ↦ inr (_, a.early f e gt)
      ]
      | inr (x, e) ↦ inr (x, a.broken x e)
    ]

-- The frames carry the numbers from `n` on.
abbrev pub IsNumbered : ℕ → List Frame → Type 0
IsNumbered n [] = Unit {0}
IsNumbered n (f ∷ fs) = (seq_of f ≡ n) × IsNumbered (n + 1) fs

-- The frames come from the byte strings, in their order.
abbrev pub AreFrom : Process → ℕ → List (List ℕ) → List Frame → Type 0
AreFrom proc naive inputs [] = Unit {0}
AreFrom proc naive [] (f ∷ fs) = ⊥
AreFrom proc naive (b ∷ inputs) (f ∷ fs) =
    ((decode_frame proc b naive ≡ ok f) × AreFrom proc naive inputs fs)
    ⊎ AreFrom proc naive inputs (f ∷ fs)

skip-AreFrom :
    (proc : Process) (naive : ℕ) (b : List ℕ) (inputs : List (List ℕ)) (fs : List Frame)
    → AreFrom proc naive inputs fs
    → AreFrom proc naive (b ∷ inputs) fs
skip-AreFrom proc naive b inputs [] h = tt
skip-AreFrom proc naive b inputs (f ∷ fs) h = inr h

pub record Receives (proc : Process) (r : StreamReceiver) (inputs : List (List ℕ))
    (out : StreamReceiver × List Frame) : Type 0 where
  pub numbered : IsNumbered r.expected out.1
  pub from_inputs : AreFrom proc r.naive inputs out.1
  pub count : out.0.expected ≡ r.expected + length out.1
  pub same_variant : out.0.naive ≡ r.naive

pub receive_step :
    (proc : Process) (r s : StreamReceiver) (b : List ℕ) (inputs : List (List ℕ))
    (out : Result WireError Frame)
    → accept proc r b ≡ (s, out)
    → receive proc r (b ∷ inputs) ≡ ((receive proc s inputs).0, keep out (receive proc s inputs).1)
unfolding receive
receive_step proc r s b inputs out e =
    ap
      (λ (p : StreamReceiver × Result WireError Frame).
        ((receive proc p.0 inputs).0, keep p.1 (receive proc p.0 inputs).1))
      e

-- Whatever byte strings reach a receiver that checks the order, in whatever order and however often,
-- and fewer than 2 ^ 64 in all: the frames that it accepts each decode from a string that arrived, in
-- the order of arrival, carry the numbers from its expected one on without a gap or a repetition, and
-- it expects the next number afterwards.
pub receive-Receives :
    (proc : Process) (r : StreamReceiver) (inputs : List (List ℕ))
    → has r.naive seq_ignored ≡ false
    → r.expected + length inputs < 2 ^ 64
    → Receives proc r inputs (receive proc r inputs)
unfolding receive
receive-Receives proc r [] strict small = record {
  numbered = tt;
  from_inputs = tt;
  count = omega arith;
  same_variant = refl;
}
receive-Receives proc r (b ∷ inputs) strict small =
    elim (accept-Outcome proc r b strict (omega arith)) [
      | inl (f, decoded, same, e) ↦
          let s = record r { expected = r.expected + 1 } in
          let rest = receive-Receives proc s inputs strict (omega arith) in
          rw (receive_step proc r s b inputs (ok f) e) (record {
            numbered = (same, rest.numbered);
            from_inputs = inl (decoded, rest.from_inputs);
            count = rest.count ∙ omega arith;
            same_variant = rest.same_variant;
          })
      | inr (x, e) ↦
          let rest = receive-Receives proc r inputs strict (omega arith) in
          rw (receive_step proc r r b inputs (err x) e) (record {
            numbered = rest.numbered;
            from_inputs = skip-AreFrom proc r.naive b inputs _ rest.from_inputs;
            count = rest.count;
            same_variant = rest.same_variant;
          })
    ]
