-- ===== src/Scheduler.antt =====
-- crates/mimo26-coordinator/src/scheduler.rs: admitted requests prefill in chunks, then decode in
-- lanes. The queue `pending` is a list with its front first; `decoding` has the oldest lane first.
pub mod Chunks
pub mod Account
pub mod Steps
pub mod Lanes
mod Tests
use mimo26f_afd.Prelude.{
  ℕ, zero, suc, ◌+◌, ◌-◌, min, Bool, true, false, ltb, leb, ◌==◌, if◌then◌else◌, Option, none, some,
  List, [], ◌∷◌, ◌++◌, map, length,
}
use mimo26f_afd.Word.{add64}
use mimo26f_afd.Pool
use mimo26f_afd.Pool.{KvPool, Admission, default_admit_reserve}

pub data RequestState : Type 0 where
  pending prefilling decoding done : RequestState

pub record Request : Type 0 where
  pub id : ℕ
  pub prompt_tokens : ℕ
  pub max_tokens : ℕ
  pub state : RequestState
  pub prefill_pos : ℕ
  pub reservation : ℕ

-- Request::new
pub new_request : ℕ → ℕ → ℕ → Request
new_request id prompt_tokens max_tokens = record {
  id = id;
  prompt_tokens = prompt_tokens;
  max_tokens = max_tokens;
  state = RequestState.pending;
  prefill_pos = 0;
  reservation = 0;
}

pub record SchedulerConfig : Type 0 where
  pub prefill_chunk : ℕ
  pub long_context_threshold : ℕ
  pub max_concurrency : ℕ

-- SchedulerConfig::default
abbrev pub default_config : SchedulerConfig
default_config = record {
  prefill_chunk = 2048;
  long_context_threshold = 524_288;
  max_concurrency = 8;
}

pub data Step : Type 0 where
  prefill_chunk : ℕ → ℕ → ℕ → Step
  decode_round : List ℕ → Step
  idle : Step

pub data SubmitOutcome : Type 0 where
  accepted rejected : SubmitOutcome

pub record Scheduler : Type 0 where
  pub config : SchedulerConfig
  pub pool : KvPool
  pub pending : List Request
  pub decoding : List Request

pub new : SchedulerConfig → KvPool → Scheduler
new config pool = record { config = config; pool = pool; pending = []; decoding = [] }

pub is_long_context : Scheduler → ℕ → Bool
is_long_context s prompt_tokens = ltb s.config.long_context_threshold prompt_tokens

pub concurrency_for : Scheduler → ℕ → ℕ
unfolding is_long_context
concurrency_for s prompt_tokens =
    if is_long_context s prompt_tokens then 1 else s.config.max_concurrency

-- The loop of `chunks`, from `pos` on; `none` when the fuel runs out.
pub chunks_loop : ℕ → ℕ → ℕ → ℕ → Option (List (ℕ × ℕ))
chunks_loop zero pos prompt_tokens chunk = none
chunks_loop (suc fuel) pos prompt_tokens chunk =
    let len = min (prompt_tokens - pos) chunk in
    let rest = chunks_loop fuel (add64 pos len) prompt_tokens chunk in
    if ltb pos prompt_tokens
    then (elim rest [ none ↦ none | some out ↦ some ((pos, len) ∷ out) ])
    else some []

-- A round moves `pos` on by a token at least where `prefill_chunk` is not 0.
pub chunks : Scheduler → ℕ → Option (List (ℕ × ℕ))
chunks s prompt_tokens = chunks_loop (suc prompt_tokens) 0 prompt_tokens s.config.prefill_chunk

-- What follows the pool's answer in `submit`.
pub enqueue : Scheduler → Request → KvPool × Admission → Scheduler × SubmitOutcome
enqueue s req (pool, Admission.admitted n) = (
  record s {
    pool = pool;
    pending = s.pending ++ (record req { reservation = n; state = RequestState.pending } ∷ []);
  },
  accepted,
)
enqueue s req (pool, Admission.rejected) = (record s { pool = pool }, SubmitOutcome.rejected)

pub submit : Scheduler → Request → Scheduler × SubmitOutcome
unfolding enqueue
submit s req =
    enqueue s req (Pool.admit s.pool req.prompt_tokens req.max_tokens default_admit_reserve)

-- `if req.state == Pending { req.state = Prefilling }`
pub start : RequestState → RequestState
start RequestState.pending = RequestState.prefilling
start st = st

-- The part of `next_step` behind the prefill: a round over the lanes, or nothing.
pub round : Scheduler → Scheduler × Step
round s = elim s.decoding [
  | [] ↦ (s, idle)
  | r ∷ rs ↦ (s, decode_round (map (λ (q : Request). q.id) (r ∷ rs)))
]

-- The front of the queue takes its next chunk, or has none left to take.
pub advance : Scheduler → Request → List Request → Scheduler × Step
unfolding start round
advance s front rest =
    let req = record front { state = start front.state } in
    let remaining = req.prompt_tokens - req.prefill_pos in
    let len = min remaining s.config.prefill_chunk in
    let moved = record req { prefill_pos = add64 req.prefill_pos len } in
    if ltb 0 remaining
    then (if leb moved.prompt_tokens moved.prefill_pos
        then (
          record s {
            pending = rest;
            decoding = s.decoding ++ (record moved { state = RequestState.decoding } ∷ []);
          },
          prefill_chunk req.id req.prefill_pos len,
        )
        else (record s { pending = moved ∷ rest }, prefill_chunk req.id req.prefill_pos len))
    else round (record s { pending = req ∷ rest })

pub next_step : Scheduler → Scheduler × Step
unfolding advance round
next_step s = elim s.pending [ [] ↦ round s | front ∷ rest ↦ advance s front rest ]

-- release_reservation
pub release : Scheduler → Request → Scheduler
release s req = record s { pool = Pool.release s.pool req.reservation }

-- The last lane, and the lanes before it.
pub split_last : Request → List Request → List Request × Request
split_last r [] = ([], r)
split_last r (q ∷ qs) = let (front, last) = split_last q qs in (r ∷ front, last)

pub preempt_lowest_priority : Scheduler → Scheduler × Option Request
unfolding release split_last
preempt_lowest_priority s = elim s.decoding [
  | [] ↦ (s, none)
  | r ∷ rs ↦
      let (front, last) = split_last r rs in
      (release (record s { decoding = front }) last, some last)
]

-- `iter().position(..)` with `remove`: the first lane of that id, and the others.
pub take_lane : ℕ → List Request → Option (Request × List Request)
take_lane id [] = none
take_lane id (r ∷ rs) =
    let rest = take_lane id rs in
    if r.id == id
    then some (r, rs)
    else (elim rest [ none ↦ none | some (q, qs) ↦ some (q, r ∷ qs) ])

pub finish : Scheduler → ℕ → Scheduler × Option Request
unfolding release take_lane
finish s id = elim (take_lane id s.decoding) [
  | none ↦ (s, none)
  | some (req, rest) ↦
      (release (record s { decoding = rest }) req, some (record req { state = RequestState.done }))
]

-- The calls of a serving loop, in order; its requests are made by `Request::new`.
pub data Op : Type 0 where
  submit_new : ℕ → ℕ → ℕ → Op
  step preempt : Op
  finish_id : ℕ → Op

pub apply : Op → Scheduler → Scheduler
apply (submit_new id prompt_tokens max_tokens) s =
    (submit s (new_request id prompt_tokens max_tokens)).0
apply step s = (next_step s).0
apply preempt s = (preempt_lowest_priority s).0
apply (finish_id id) s = (finish s id).0

pub run : List Op → Scheduler → Scheduler
run [] s = s
run (op ∷ ops) s = run ops (apply op s)

-- `n` calls of `next_step`, with what they return.
pub steps : ℕ → Scheduler → Scheduler × List Step
steps zero s = (s, [])
steps (suc n) s = let (s', out) = next_step s in let (s'', outs) = steps n s' in (s'', out ∷ outs)
