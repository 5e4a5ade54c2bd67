-- ===== src/Scheduler/Chunks.antt =====
-- `chunks` against what a split of the prompt has to be.
use mimo26f_afd.Prelude.{
  ℕ, zero, suc, ◌+◌, ◌-◌, ◌≤◌, ◌<◌, ◌^◌, min, ◌≡◌, refl, some, List, [], ◌∷◌, arith, Bool-cases,
  inl, inr, ltb,
}
use mimo26f_afd.Word.{add64}
use mimo26f_afd.Scheduler.{Scheduler, chunks_loop, chunks}

-- The pieces `(start, len)` cover `[pos, end)` in order with no gap and no overlap, none is empty or
-- longer than a chunk, and only the last may be shorter.
abbrev pub Tiles : ℕ → ℕ → ℕ → List (ℕ × ℕ) → Type 0
Tiles chunk pos end [] = pos ≡ end
Tiles chunk pos end ((start, len) ∷ rest) =
    (start ≡ pos)
    × (0 < len)
    × (len ≤ chunk)
    × (len < chunk → pos + len ≡ end)
    × Tiles chunk (pos + len) end rest

pub chunks_loop-Tiles :
    (fuel pos prompt_tokens chunk : ℕ)
    → prompt_tokens < 2 ^ 63
    → 0 < chunk
    → pos ≤ prompt_tokens
    → prompt_tokens - pos < fuel
    → (out : List (ℕ × ℕ)) × (chunks_loop fuel pos prompt_tokens chunk ≡ some out)
      × Tiles chunk pos prompt_tokens out
unfolding chunks_loop
chunks_loop-Tiles zero pos p c hp hc hl hf = absurd (omega arith)
chunks_loop-Tiles (suc fuel) pos p c hp hc hl hf = elim (Bool-cases (ltb pos p)) [
  | inl more ↦
      let len = min (p - pos) c in
      let (out, run, tiles) =
        chunks_loop-Tiles fuel (pos + len) p c hp hc (ground arith) (ground arith) in
      let here : add64 pos len ≡ pos + len = ground arith in
      (
        (pos, len) ∷ out,
        rw (more, here, run),
        (refl, ground arith, ground arith, ground arith, tiles),
      )
  | inr done ↦ ([], ground arith, ground arith)
]

-- For a prompt below 2 ^ 63 tokens and a chunk size that is not 0, `chunks` ends, and its pieces
-- cover the prompt in order with no gap and no overlap, none empty or longer than a chunk, and only
-- the last one shorter.
pub chunks-Tiles :
    (s : Scheduler) (prompt_tokens : ℕ)
    → prompt_tokens < 2 ^ 63
    → 0 < s.config.prefill_chunk
    → (out : List (ℕ × ℕ)) × (chunks s prompt_tokens ≡ some out)
      × Tiles s.config.prefill_chunk 0 prompt_tokens out
unfolding chunks
chunks-Tiles s p hp hc =
    chunks_loop-Tiles (suc p) 0 p s.config.prefill_chunk hp hc (omega arith) (omega arith)
