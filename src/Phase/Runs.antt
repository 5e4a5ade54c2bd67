-- ===== src/Phase/Runs.antt =====
-- `run_length_encode`: the runs tile the positions, each holds one phase, and they spell the stream.
use mimo26f_afd.Prelude.{
  ℕ, zero, suc, ◌+◌, ◌-◌, ◌<◌, ◌≡◌, ◌≢◌, refl, ap, sym, ◌∙◌, List, [], ◌∷◌, ◌++◌, length, replicate,
  arith, Bool-cases, inl, inr, ◌≐◌,
}
use mimo26f_afd.Phase.Keys.{Phase, Phase_eq}
use mimo26f_afd.Phase.{rle_loop, run_length_encode}

abbrev pub Run : Type 0
Run = Phase × ℕ × ℕ

-- The stream that a list of runs stands for.
abbrev pub expand : List Run → List Phase
expand [] = []
expand ((p, start, end) ∷ rs) = replicate (end - start) p ++ expand rs

-- The next run, if there is one, is of another phase.
abbrev pub Differs : Phase → List Run → Type 0
Differs p [] = Unit
Differs p ((q, start, end) ∷ rs) = p ≢ q

-- The runs are not empty, follow one another from `pos` to `end`, and change the phase each time.
abbrev pub IsRuns : ℕ → ℕ → List Run → Type 0
IsRuns pos end [] = pos ≡ end
IsRuns pos end ((p, s, e) ∷ rs) = (s ≡ pos) × (s < e) × Differs p rs × IsRuns e end rs

replicate_snoc :
    (n : ℕ) (p : Phase) (rest : List Phase)
    → replicate (suc n) p ++ rest ≡ replicate n p ++ (p ∷ rest)
replicate_snoc zero p rest = refl
replicate_snoc (suc n) p rest = ap (λ l. p ∷ l) (replicate_snoc n p rest)

rle_loop-expand :
    (n : ℕ) (cur : Phase) (start pos : ℕ) (rest : List Phase)
    → start < pos
    → n ≡ pos + length rest
    → expand (rle_loop n cur start pos rest) ≡ replicate (pos - start) cur ++ rest
unfolding rle_loop
rle_loop-expand n cur start pos [] h e = let here : n ≡ pos = omega arith in rw here refl
rle_loop-expand n cur start pos (p ∷ rest) h e = elim (Bool-cases (p ≐ cur)) [
  | inl same ↦
      let one : p ≡ cur = (Phase_eq.beq_iff p cur).0 same in
      let more : pos + 1 - start ≡ suc (pos - start) = omega arith in
      rw same (
        rle_loop-expand n cur start (pos + 1) rest (omega arith) (omega arith)
        ∙ rw (more, replicate_snoc, one))
  | inr other ↦
      let unit : pos + 1 - pos ≡ 1 = omega arith in
      rw other (
        ap (λ l. replicate (pos - start) cur ++ l)
          (rle_loop-expand n p pos (pos + 1) rest (omega arith) (omega arith) ∙ rw unit))
]

rle_loop-Differs :
    (n : ℕ) (cur q : Phase) (start pos : ℕ) (rest : List Phase)
    → q ≢ cur
    → Differs q (rle_loop n cur start pos rest)
unfolding rle_loop
rle_loop-Differs n cur q start pos [] h = h
rle_loop-Differs n cur q start pos (p ∷ rest) h = elim (Bool-cases (p ≐ cur)) [
  | inl same ↦ rw same (rle_loop-Differs n cur q start (pos + 1) rest h)
  | inr other ↦ rw other h
]

rle_loop-IsRuns :
    (n : ℕ) (cur : Phase) (start pos : ℕ) (rest : List Phase)
    → start < pos
    → n ≡ pos + length rest
    → IsRuns start n (rle_loop n cur start pos rest)
unfolding rle_loop
rle_loop-IsRuns n cur start pos [] h e = (refl, omega arith, tt, refl)
rle_loop-IsRuns n cur start pos (p ∷ rest) h e = elim (Bool-cases (p ≐ cur)) [
  | inl same ↦ rw same (rle_loop-IsRuns n cur start (pos + 1) rest (omega arith) (omega arith))
  | inr other ↦
      let apart : cur ≢ p = λ q. cc (other, (Phase_eq.beq_iff p cur).1 (sym q)) in
      rw other (
        refl,
        h,
        rle_loop-Differs n p cur pos (pos + 1) rest apart,
        rle_loop-IsRuns n p pos (pos + 1) rest (omega arith) (omega arith),
      )
]

-- On every stream of phases, the runs of `run_length_encode` spell the stream exactly, follow one
-- another from position 0 to the end with none empty, and neighbours differ in phase: no run spans two
-- phases and no run could be longer.
pub run_length_encode_lem :
    (phases : List Phase)
    → (expand (run_length_encode phases) ≡ phases)
      × IsRuns 0 (length phases) (run_length_encode phases)
unfolding run_length_encode
run_length_encode_lem [] = (refl, refl)
run_length_encode_lem (p ∷ rest) = (
  rle_loop-expand _ p 0 1 rest (omega arith) (omega arith),
  rle_loop-IsRuns _ p 0 1 rest (omega arith) (omega arith),
)
