-- ===== src/Scheduler/Tests.antt =====
-- Runs of the scheduler, and the theorems at concrete inputs.
use mimo26f_afd.Prelude.{ℕ, ◌≡◌, ◌≢◌, ◌⊎◌, refl, some, none, List, [], ◌∷◌, map, length, arith, All}
use mimo26f_afd.Pool
use mimo26f_afd.Pool.{KvPool, request_reservation}
use mimo26f_afd.Scheduler.{
  Request, Scheduler, prefill_chunk, decode_round, default_config, new, new_request, chunks,
  chunks_loop, next_step, finish, submit, Op, submit_new, step, finish_id, apply, run, steps,
}
use mimo26f_afd.Scheduler.Chunks.{Tiles, chunks-Tiles}
use mimo26f_afd.Scheduler.Account.{IsBalanced, run-IsBalanced}
use mimo26f_afd.Scheduler.Lanes.{IsStaged, run-IsStaged, Finishes, finish_lem}
use mimo26f_afd.Scheduler.Steps.{queued, promoted, piece, steps-chunks}
use mimo26f_afd.Scheduler.Steps.Blocked.{NoPrefill, ids, steps_blocked}

abbrev gib : ℕ
gib = 1_073_741_824

abbrev script : List Op
script =
    submit_new 1 5000 100 ∷ submit_new 2 300 65536 ∷ step ∷ step ∷ step ∷ step ∷ finish_id 1 ∷ []

chunks_5000 :
    chunks (new default_config (Pool.new gib)) 5000
    ≡ some ((0, 2048) ∷ (2048, 2048) ∷ (4096, 904) ∷ [])
unfolding chunks chunks_loop new
chunks_5000 = refl

steps_of_script :
    (steps 5 (
      run
        (submit_new 1 5000 100 ∷ submit_new 2 300 65536 ∷ [])
        (new default_config (Pool.new gib)))).1
    ≡ prefill_chunk 1 0 2048
      ∷ prefill_chunk 1 2048 2048
      ∷ prefill_chunk 1 4096 904
      ∷ prefill_chunk 2 0 300
      ∷ decode_round (1 ∷ 2 ∷ [])
      ∷ []
unfolding steps run apply submit Pool.admit Pool.new new next_step new_request request_reservation
steps_of_script = refl

run-IsBalanced_example : IsBalanced (run script (new default_config (Pool.new gib)))
run-IsBalanced_example = run-IsBalanced script default_config gib (omega arith) (omega arith)

run-IsStaged_example : IsStaged (run script (new default_config (Pool.new gib)))
run-IsStaged_example = run-IsStaged script default_config (Pool.new gib) (omega arith)

abbrev waiting : Scheduler
waiting = record {
  config = default_config;
  pool = record { total = gib; used = 70_379_520 };
  pending = queued 7 5000 100 70_379_520 ∷ [];
  decoding = [];
}

chunks-Tiles_example :
    (out : List (ℕ × ℕ)) × (chunks waiting 5000 ≡ some out) × Tiles 2048 0 5000 out
chunks-Tiles_example = chunks-Tiles waiting 5000 (omega arith) (omega arith)

steps-chunks_example :
    (out : List (ℕ × ℕ)) × (chunks waiting 5000 ≡ some out)
    × (steps (length out) waiting ≡ (
      promoted waiting (queued 7 5000 100 70_379_520) [],
      map (piece (queued 7 5000 100 70_379_520)) out,
    ))
steps-chunks_example =
    steps-chunks waiting 7 5000 100 70_379_520 [] refl (omega arith) (omega arith) (omega arith)

-- A request with an empty prompt in front of another one.
abbrev stuck : Scheduler
stuck = record waiting { pending = queued 6 0 100 12_779_520 ∷ queued 7 5000 100 70_379_520 ∷ [] }

steps_blocked_example :
    All NoPrefill (steps 9 stuck).1
    × ((steps 9 stuck).0.decoding ≡ [])
    × (ids (steps 9 stuck).0.pending ≡ ids stuck.pending)
unfolding new_request
steps_blocked_example = steps_blocked 9 stuck (queued 6 0 100 12_779_520) _ refl (omega arith)

abbrev decoding_one : Scheduler
decoding_one = record waiting { pending = []; decoding = queued 7 5000 100 70_379_520 ∷ [] }

decoding_one-IsBalanced : IsBalanced decoding_one
unfolding new_request
decoding_one-IsBalanced = omega arith

finish_lem_example :
    ((finish decoding_one 7 ≡ (decoding_one, none))
      × All (λ (q : Request). q.id ≢ 7) decoding_one.decoding)
    ⊎ Finishes decoding_one 7 (finish decoding_one 7)
finish_lem_example = finish_lem decoding_one 7 decoding_one-IsBalanced
