-- ===== src/Scheduler/Steps.antt =====
-- What `next_step` hands out: the front request's prefill follows `chunks`, piece by piece.
pub mod Blocked
use mimo26f_afd.Prelude.{
  ℕ, zero, suc, ◌+◌, ◌-◌, ◌≤◌, ◌<◌, ◌^◌, min, ◌≡◌, refl, ap, some, List, [], ◌∷◌, ◌++◌, map, length,
  arith, Bool-cases, inl, inr, ltb, leb, true, false, if◌then◌else◌,
}
use mimo26f_afd.Word.{add64}
use mimo26f_afd.Scheduler.{
  RequestState, Request, Scheduler, Step, prefill_chunk, start, advance, next_step, steps, chunks,
  new_request,
}
use mimo26f_afd.Scheduler.Chunks.{Tiles, chunks-Tiles}

-- The request when its prompt is prefilled.
abbrev pub prefilled : Request → Request
prefilled r = record r { state = RequestState.decoding; prefill_pos = r.prompt_tokens }

-- The front request moved to the lanes.
abbrev pub promoted : Scheduler → Request → List Request → Scheduler
promoted s front rest = record s { pending = rest; decoding = s.decoding ++ (prefilled front ∷ []) }

abbrev pub piece : Request → ℕ × ℕ → Step
piece r (pos, len) = prefill_chunk r.id pos len

Tiles-le : (chunk pos end : ℕ) (out : List (ℕ × ℕ)) → Tiles chunk pos end out → pos ≤ end
Tiles-le c pos end [] t = omega arith
Tiles-le c pos end ((start, len) ∷ rest) (a, b, d, e, t) =
    omega (arith, Tiles-le c (pos + len) end rest t)

-- One call of `next_step`: the last piece promotes the front, and any other leaves it in place.
next_step-last :
    (s : Scheduler) (front : Request) (rest : List Request) (len : ℕ)
    → s.pending ≡ front ∷ rest
    → front.prompt_tokens < 2 ^ 63
    → 0 < len
    → len ≤ s.config.prefill_chunk
    → front.prefill_pos + len ≡ front.prompt_tokens
    → next_step s ≡ (promoted s front rest, prefill_chunk front.id front.prefill_pos len)
unfolding next_step advance
next_step-last s front rest len e small h0 h1 h2 = rw (e, next_step) (ground arith)

abbrev moved : Scheduler → Request → List Request → ℕ → Scheduler
moved s front rest len = record s {
  pending =
      record front {
        state = unfold start in start front.state;
        prefill_pos = front.prefill_pos + len;
      }
      ∷ rest;
}

next_step-more :
    (s : Scheduler) (front : Request) (rest : List Request) (len : ℕ)
    → s.pending ≡ front ∷ rest
    → front.prompt_tokens < 2 ^ 63
    → 0 < len
    → s.config.prefill_chunk ≡ len
    → front.prefill_pos + len < front.prompt_tokens
    → next_step s ≡ (moved s front rest len, prefill_chunk front.id front.prefill_pos len)
unfolding next_step advance
next_step-more s front rest len e small h0 full h1 = rw (e, next_step) (ground arith)

steps-suc :
    (n : ℕ) (s s' s'' : Scheduler) (st : Step) (sts : List Step)
    → next_step s ≡ (s', st)
    → steps n s' ≡ (s'', sts)
    → steps (suc n) s ≡ (s'', st ∷ sts)
unfolding steps
steps-suc n s s' s'' st sts e f = rw (e, f)

steps-zero : (s : Scheduler) → steps 0 s ≡ (s, [])
unfolding steps
steps-zero s = refl

steps-Tiles :
    (out : List (ℕ × ℕ)) (s : Scheduler) (front : Request) (rest : List Request)
    → s.pending ≡ front ∷ rest
    → front.prompt_tokens < 2 ^ 63
    → front.prefill_pos < front.prompt_tokens
    → Tiles s.config.prefill_chunk front.prefill_pos front.prompt_tokens out
    → steps (length out) s ≡ (promoted s front rest, map (piece front) out)
steps-Tiles [] s front rest e small more t = absurd (omega arith)
steps-Tiles ((p, len) ∷ []) s front rest e small more (a, b, c, d, t) = rw a (
    steps-suc 0 s (promoted s front rest) _ _ [] (next_step-last s front rest len e small b c t)
      (steps-zero _))
steps-Tiles ((p, len) ∷ (q, k) ∷ out) s front rest e small more (a, b, c, d, t) =
    let left =
      Tiles-le s.config.prefill_chunk (front.prefill_pos + len + k) front.prompt_tokens out t.4 in
    let full : s.config.prefill_chunk ≡ len = ground (arith, left) in
    let s' = moved s front rest len in
    rw a (
      steps-suc (length ((q, k) ∷ out)) s s' _ _ _
        (next_step-more s front rest len e small b full (omega arith))
        (steps-Tiles ((q, k) ∷ out) s' _ rest refl small (omega arith) t))

-- A request of `Request::new` that holds a reservation of `n` bytes.
abbrev pub queued : ℕ → ℕ → ℕ → ℕ → Request
queued id prompt_tokens max_tokens n = record (new_request id prompt_tokens max_tokens) {
  reservation = n;
}

-- For a front request of `Request::new` with a prompt of 1 to 2 ^ 63 - 1 tokens, and a chunk size
-- that is not 0: as many calls of `next_step` as `chunks` has pieces hand out exactly these pieces,
-- in order, and leave the request as the last lane with its prompt prefilled. The other queued
-- requests, the other lanes and the pool are as before.
pub steps-chunks :
    (s : Scheduler) (id prompt_tokens max_tokens n : ℕ) (rest : List Request)
    → s.pending ≡ queued id prompt_tokens max_tokens n ∷ rest
    → 0 < prompt_tokens
    → prompt_tokens < 2 ^ 63
    → 0 < s.config.prefill_chunk
    → (out : List (ℕ × ℕ)) × (chunks s prompt_tokens ≡ some out)
      × (steps (length out) s ≡ (
        promoted s (queued id prompt_tokens max_tokens n) rest,
        map (piece (queued id prompt_tokens max_tokens n)) out,
      ))
unfolding new_request
steps-chunks s id p m n rest e h0 h1 h2 =
    let (out, run, tiles) = chunks-Tiles s p h1 h2 in
    (out, run, steps-Tiles out s _ rest e h1 h0 tiles)
