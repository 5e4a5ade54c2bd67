-- ===== src/Scheduler/Account.antt =====
-- The scheduler's KV reservations against the pool: nothing leaks and nothing is released twice.
use mimo26f_afd.Prelude.{
  ℕ, ◌+◌, ◌-◌, ◌<◌, ◌^◌, ◌≡◌, ap, some, List, [], ◌∷◌, arith, inl, inr, min, sum_by, sum_by-append,
  All, List-cases, Option-cases,
}
use mimo26f_afd.Word.{add64}
use mimo26f_afd.Pool
use mimo26f_afd.Pool.{KvPool, Admission, default_admit_reserve, request_reservation}
use mimo26f_afd.Pool.Bounds.{IsValid, IsSmall, request_reservation-lt}
use mimo26f_afd.Scheduler.{
  RequestState, Request, Scheduler, SchedulerConfig, new, submit, start, round, advance, next_step,
  split_last, preempt_lowest_priority, take_lane, finish, Op, submit_new, step, preempt, finish_id,
  apply, run, new_request,
}

-- The bytes that the requests of a list hold.
abbrev pub reserved : List Request → ℕ
reserved = sum_by (λ (r : Request). r.reservation)

abbrev pub OpIsSmall : Op → Type 0
OpIsSmall (submit_new id prompt_tokens max_tokens) = IsSmall prompt_tokens max_tokens
OpIsSmall _ = Unit

-- The pool's `used` is exactly what the queued and the decoding requests hold.
pub record IsBalanced (s : Scheduler) : Type 0 where
  pub valid : IsValid s.pool
  pub exact : s.pool.used ≡ reserved s.pending + reserved s.decoding

submit-IsBalanced :
    (s : Scheduler) (req : Request)
    → IsSmall req.prompt_tokens req.max_tokens
    → IsBalanced s
    → IsBalanced (submit s req).0
unfolding submit Pool.admit
submit-IsBalanced s req small b =
    let need = request_reservation req.prompt_tokens req.max_tokens default_admit_reserve in
    let fits =
      request_reservation-lt req.prompt_tokens req.max_tokens default_admit_reserve small in
    let queued =
      sum_by-append (λ (r : Request). r.reservation) s.pending
        (record req { reservation = need; state = RequestState.pending } ∷ []) in
    ground arith

pub round-state : (s : Scheduler) → (round s).0 ≡ s
unfolding round
round-state s = ground arith

advance-IsBalanced :
    (s : Scheduler) (front : Request) (rest : List Request)
    → s.pending ≡ front ∷ rest
    → IsBalanced s
    → IsBalanced (advance s front rest).0
unfolding advance
advance-IsBalanced s front rest e b =
    let held = ap reserved e in
    let moved_in = sum_by-append (λ (r : Request). r.reservation) s.decoding in
    let pos =
      add64 front.prefill_pos
        (min (front.prompt_tokens - front.prefill_pos) s.config.prefill_chunk) in
    let lane : Request = record front { state = RequestState.decoding; prefill_pos = pos } in
    ground (
      arith,
      moved_in (lane ∷ []),
      round-state (record s { pending = record front { state = start front.state } ∷ rest }),
    )

next_step-IsBalanced : (s : Scheduler) → IsBalanced s → IsBalanced (next_step s).0
unfolding next_step
next_step-IsBalanced s b = elim (List-cases s.pending) [
  | inl e ↦ rw (e, next_step, round-state) b
  | inr (front, rest, e) ↦ rw (e, next_step) (advance-IsBalanced s front rest e b)
]

split_last-reserved :
    (r : Request) (rs : List Request)
    → let (front, last) = split_last r rs in reserved front + last.reservation ≡ reserved (r ∷ rs)
unfolding split_last
split_last-reserved r [] = omega arith
split_last-reserved r (q ∷ qs) = omega (arith, split_last-reserved q qs)

preempt-IsBalanced : (s : Scheduler) → IsBalanced s → IsBalanced (preempt_lowest_priority s).0
unfolding preempt_lowest_priority Pool.release
preempt-IsBalanced s b = elim (List-cases s.decoding) [
  | inl e ↦ rw (e, preempt_lowest_priority) b
  | inr (r, rs, e) ↦
      let held = ap reserved e in
      rw (e, preempt_lowest_priority) (ground (arith, split_last-reserved r rs))
]

pub take_lane-reserved :
    (id : ℕ) (rs : List Request) {r : Request} {rest : List Request}
    → take_lane id rs ≡ some (r, rest)
    → reserved rest + r.reservation ≡ reserved rs
unfolding take_lane
take_lane-reserved id [] h = cc
take_lane-reserved id (q ∷ qs) {r} {rest} h = elim (Option-cases (take_lane id qs)) [
  | inl e ↦ ground arith
  | inr ((r', rest'), e) ↦ ground (arith, take_lane-reserved id qs e)
]

finish-IsBalanced : (s : Scheduler) (id : ℕ) → IsBalanced s → IsBalanced (finish s id).0
unfolding finish Pool.release
finish-IsBalanced s id b = elim (Option-cases (take_lane id s.decoding)) [
  | inl e ↦ rw (e, finish) b
  | inr ((r, rest), e) ↦ rw (e, finish) (ground (arith, take_lane-reserved id s.decoding e))
]

pub apply-IsBalanced :
    (op : Op) (s : Scheduler) → OpIsSmall op → IsBalanced s → IsBalanced (apply op s)
unfolding apply
apply-IsBalanced (submit_new id p m) s small b =
    submit-IsBalanced s (new_request id p m) (unfold new_request in small) b
apply-IsBalanced step s small b = next_step-IsBalanced s b
apply-IsBalanced preempt s small b = preempt-IsBalanced s b
apply-IsBalanced (finish_id id) s small b = finish-IsBalanced s id b

run-IsBalanced_from :
    (ops : List Op) (s : Scheduler) → All OpIsSmall ops → IsBalanced s → IsBalanced (run ops s)
unfolding run
run-IsBalanced_from [] s small b = b
run-IsBalanced_from (op ∷ ops) s small b =
    run-IsBalanced_from ops (apply op s) small.1 (apply-IsBalanced op s small.0 b)

-- After any sequence of operations on a new scheduler over a pool below 2 ^ 62 bytes, with requests of
-- fewer than 2 ^ 48 tokens, the pool's used bytes are exactly the reservations of the requests that
-- are queued or decoding, and they fit in the pool.
pub run-IsBalanced :
    (ops : List Op) (config : SchedulerConfig) (bytes : ℕ)
    → bytes < 2 ^ 62
    → All OpIsSmall ops
    → IsBalanced (run ops (new config (Pool.new bytes)))
unfolding new Pool.new
run-IsBalanced ops config bytes h small = run-IsBalanced_from ops _ small (omega arith)
