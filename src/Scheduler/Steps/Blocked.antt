-- ===== src/Scheduler/Steps/Blocked.antt =====
-- A front request with no prompt token left to prefill keeps its place for ever.
use mimo26f_afd.Prelude.{
  ℕ, zero, suc, ◌≤◌, ◌≡◌, refl, sym, ap, ◌∙◌, List, ◌∷◌, map, arith, List-cases, inl, inr, All,
}
use mimo26f_afd.Scheduler.{
  Request, Scheduler, Step, prefill_chunk, start, round, advance, next_step, steps,
}

abbrev pub NoPrefill : Step → Type 0
NoPrefill (prefill_chunk id pos len) = ⊥
NoPrefill _ = Unit

abbrev pub ids : List Request → List ℕ
ids = map (λ (r : Request). r.id)

abbrev started : Request → Request
started r = record r { state = unfold start in start r.state }

-- One call: the front stays, with the prompt and the position that it had.
record Stays (s : Scheduler) (front : Request) (rest : List Request) (out : Scheduler × Step)
    : Type 0 where
  none_prefilled : NoPrefill out.1
  lanes : out.0.decoding ≡ s.decoding
  same : out.0.pending ≡ started front ∷ rest

next_step-Stays :
    (s : Scheduler) (front : Request) (rest : List Request)
    → s.pending ≡ front ∷ rest
    → front.prompt_tokens ≤ front.prefill_pos
    → Stays s front rest (next_step s)
unfolding next_step advance round
next_step-Stays s front rest e h = elim (List-cases s.decoding) [
  | inl d ↦ rw (e, next_step) (ground arith)
  | inr (r, rs, d) ↦ rw (e, next_step) (ground arith)
]

-- Where the front request has its whole prompt prefilled already, as one with an empty prompt has from
-- the start, no number of calls of `next_step` hands out a prefill chunk again or changes the lanes:
-- the queue keeps every request in it.
pub steps_blocked :
    (n : ℕ) (s : Scheduler) (front : Request) (rest : List Request)
    → s.pending ≡ front ∷ rest
    → front.prompt_tokens ≤ front.prefill_pos
    → All NoPrefill (steps n s).1
      × ((steps n s).0.decoding ≡ s.decoding)
      × (ids (steps n s).0.pending ≡ ids s.pending)
unfolding steps
steps_blocked zero s front rest e h = (tt, refl, refl)
steps_blocked (suc n) s front rest e h =
    let now = next_step-Stays s front rest e h in
    let later = steps_blocked n (next_step s).0 _ rest now.same h in
    (
      (now.none_prefilled, later.0),
      later.1 ∙ now.lanes,
      later.2 ∙ (ap ids now.same ∙ sym (ap ids e)),
    )
