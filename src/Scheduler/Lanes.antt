-- ===== src/Scheduler/Lanes.antt =====
-- The lanes and the queue: what stage every request is in, and which lane `finish` takes.
use mimo26f_afd.Prelude.{
  ℕ, ◌+◌, ◌-◌, ◌≤◌, ◌<◌, ◌^◌, min, ◌≡◌, ◌≢◌, ◌⊎◌, refl, Option, none, some, List, [], ◌∷◌, ◌++◌,
  arith, inl, inr, ltb, leb, Bool-cases, List-cases, Option-cases, ◌==◌, All, All-append,
}
use mimo26f_afd.Word.{add64}
use mimo26f_afd.Pool
use mimo26f_afd.Pool.{KvPool, Admission}
use mimo26f_afd.Scheduler.{
  RequestState, Request, Scheduler, SchedulerConfig, new, enqueue, submit, start, advance,
  next_step, release, split_last, preempt_lowest_priority, take_lane, finish, Op, submit_new, step,
  preempt, finish_id, apply, run, new_request,
}
use mimo26f_afd.Scheduler.Account.{round-state, IsBalanced, take_lane-reserved}

-- A queued request waits or prefills, and its position is in its prompt.
pub record IsQueued (r : Request) : Type 0 where
  pub waits : (r.state ≡ RequestState.pending) ⊎ (r.state ≡ RequestState.prefilling)
  pub inside : r.prefill_pos ≤ r.prompt_tokens
  pub small : r.prompt_tokens < 2 ^ 63

-- A lane decodes, with its whole prompt prefilled.
pub record IsLane (r : Request) : Type 0 where
  pub decodes : r.state ≡ RequestState.decoding
  pub whole : r.prefill_pos ≡ r.prompt_tokens

pub record IsStaged (s : Scheduler) : Type 0 where
  pub queue : All IsQueued s.pending
  pub lanes : All IsLane s.decoding

start-waits :
    (r : RequestState)
    → (r ≡ RequestState.pending) ⊎ (r ≡ RequestState.prefilling)
    → (start r ≡ RequestState.pending) ⊎ (start r ≡ RequestState.prefilling)
unfolding start
start-waits r h = ground arith

advance-IsStaged :
    (s : Scheduler) (front : Request) (rest : List Request)
    → IsQueued front
    → All IsQueued rest
    → All IsLane s.decoding
    → IsStaged (advance s front rest).0
unfolding advance
advance-IsStaged s front rest q qs ls =
    elim (Bool-cases (ltb 0 (front.prompt_tokens - front.prefill_pos))) [
      | inl more ↦ elim (Bool-cases (leb front.prompt_tokens pos)) [
        | inl last ↦
            rw (more, last)
              (record {
                queue = qs;
                lanes =
                    All-append IsLane s.decoding _ ls
                      (record { decodes = refl; whole = ground arith }, tt);
              })
        | inr not_last ↦
            rw (more, not_last)
              (record {
                queue = (
                  record {
                    waits = start-waits front.state q.waits;
                    inside = ground arith;
                    small = q.small;
                  },
                  qs,
                );
                lanes = ls;
              })
      ]
      | inr nothing ↦
          rw (nothing, round-state)
            (record {
              queue = (
                record {
                  waits = start-waits front.state q.waits;
                  inside = q.inside;
                  small = q.small;
                },
                qs,
              );
              lanes = ls;
            })
    ]
  where
    pos : ℕ
    pos =
        add64 front.prefill_pos
          (min (front.prompt_tokens - front.prefill_pos) s.config.prefill_chunk)

next_step-IsStaged : (s : Scheduler) → IsStaged s → IsStaged (next_step s).0
unfolding next_step
next_step-IsStaged s h = elim (List-cases s.pending) [
  | inl e ↦ rw (e, next_step, round-state) h
  | inr (front, rest, e) ↦
      let qs : All IsQueued (front ∷ rest) = rw e at h.queue in
      rw (e, next_step) (advance-IsStaged s front rest qs.0 qs.1 h.lanes)
]

split_last-IsLane :
    (r : Request) (rs : List Request) → All IsLane (r ∷ rs) → All IsLane (split_last r rs).0
unfolding split_last
split_last-IsLane r [] h = tt
split_last-IsLane r (q ∷ qs) h = (h.0, split_last-IsLane q qs h.1)

preempt-IsStaged : (s : Scheduler) → IsStaged s → IsStaged (preempt_lowest_priority s).0
unfolding preempt_lowest_priority
preempt-IsStaged s h = elim (List-cases s.decoding) [
  | inl e ↦ rw (e, preempt_lowest_priority) h
  | inr (r, rs, e) ↦
      rw (e, preempt_lowest_priority)
        (record { queue = h.queue; lanes = split_last-IsLane r rs (rw e at h.lanes) })
]

-- `take_lane` removes the first lane of that id, and keeps the others in order.
pub record Takes (id : ℕ) (lanes : List Request) (r : Request) (rest : List Request) : Type 0 where
  pub before : List Request
  pub after : List Request
  pub split : lanes ≡ before ++ (r ∷ after)
  pub joined : rest ≡ before ++ after
  pub found : r.id ≡ id
  pub first : All (λ (q : Request). q.id ≢ id) before

take_lane-Takes :
    (id : ℕ) (lanes : List Request) {r : Request} {rest : List Request}
    → take_lane id lanes ≡ some (r, rest)
    → Takes id lanes r rest
unfolding take_lane
take_lane-Takes id [] h = cc
take_lane-Takes id (q ∷ qs) {r} {rest} h = elim (Bool-cases (q.id == id)) [
  | inl here ↦ record {
    before = [];
    after = qs;
    split = ground arith;
    joined = ground arith;
    found = ground arith;
    first = tt;
  }
  | inr other ↦ elim (Option-cases (take_lane id qs)) [
    | inl e ↦ absurd (ground arith)
    | inr ((r', rest'), e) ↦
        let t = take_lane-Takes id qs e in
        let same : (r' ≡ r) × ((q ∷ rest') ≡ rest) = ground arith in
        record {
          before = q ∷ t.before;
          after = t.after;
          split = ground arith;
          joined = ground arith;
          found = ground arith;
          first = (ground arith, t.first);
        }
  ]
]

pub All-remove {ℓ κ} :
    {A : Type ℓ} (P : A → Type κ) (x : A) (before after : List A)
    → All P (before ++ (x ∷ after))
    → All P (before ++ after)
All-remove P x [] after h = h.1
All-remove P x (y ∷ before) after h = (h.0, All-remove P x before after h.1)

finish-IsStaged : (s : Scheduler) (id : ℕ) → IsStaged s → IsStaged (finish s id).0
unfolding finish release
finish-IsStaged s id h = elim (Option-cases (take_lane id s.decoding)) [
  | inl e ↦ rw (e, finish) h
  | inr ((r, rest), e) ↦
      let t = take_lane-Takes id s.decoding e in
      rw (e, finish)
        (record {
          queue = h.queue;
          lanes = rw t.joined (All-remove IsLane r t.before t.after (rw t.split at h.lanes));
        })
]

enqueue-IsStaged :
    (s : Scheduler) (req : Request) (answer : KvPool × Admission)
    → req.prefill_pos ≤ req.prompt_tokens
    → req.prompt_tokens < 2 ^ 63
    → IsStaged s
    → IsStaged (enqueue s req answer).0
unfolding enqueue
enqueue-IsStaged s req (pool, Admission.admitted n) inside small h = record {
  queue =
      All-append IsQueued s.pending _ h.queue
        (record { waits = inl refl; inside = inside; small = small }, tt);
  lanes = h.lanes;
}
enqueue-IsStaged s req (pool, Admission.rejected) inside small h = record {
  queue = h.queue;
  lanes = h.lanes;
}

submit-IsStaged :
    (s : Scheduler) (id prompt_tokens max_tokens : ℕ)
    → prompt_tokens < 2 ^ 63
    → IsStaged s
    → IsStaged (submit s (new_request id prompt_tokens max_tokens)).0
unfolding submit new_request
submit-IsStaged s id p m small h = enqueue-IsStaged s (new_request id p m) _ (omega arith) small h

abbrev pub HasPrompt : Op → Type 0
HasPrompt (submit_new id prompt_tokens max_tokens) = prompt_tokens < 2 ^ 63
HasPrompt _ = Unit

apply-IsStaged : (op : Op) (s : Scheduler) → HasPrompt op → IsStaged s → IsStaged (apply op s)
unfolding apply
apply-IsStaged (submit_new id p m) s small h = submit-IsStaged s id p m small h
apply-IsStaged step s small h = next_step-IsStaged s h
apply-IsStaged preempt s small h = preempt-IsStaged s h
apply-IsStaged (finish_id id) s small h = finish-IsStaged s id h

run-IsStaged_from :
    (ops : List Op) (s : Scheduler) → All HasPrompt ops → IsStaged s → IsStaged (run ops s)
unfolding run
run-IsStaged_from [] s small h = h
run-IsStaged_from (op ∷ ops) s small h =
    run-IsStaged_from ops (apply op s) small.1 (apply-IsStaged op s small.0 h)

-- After any sequence of operations on a new scheduler, with prompts below 2 ^ 63 tokens: every lane
-- is in state Decoding with its whole prompt prefilled, and every queued request is Pending or
-- Prefilling with a position inside its prompt.
pub run-IsStaged :
    (ops : List Op) (config : SchedulerConfig) (pool : KvPool)
    → All HasPrompt ops
    → IsStaged (run ops (new config pool))
unfolding new
run-IsStaged ops config pool small =
    run-IsStaged_from ops _ small (record { queue = tt; lanes = tt })

take_lane-none :
    (id : ℕ) (lanes : List Request)
    → take_lane id lanes ≡ none
    → All (λ (q : Request). q.id ≢ id) lanes
unfolding take_lane
take_lane-none id [] h = tt
take_lane-none id (q ∷ qs) h = elim (Option-cases (take_lane id qs)) [
  | inl e ↦ (ground arith, take_lane-none id qs e)
  | inr ((r, rest), e) ↦ absurd (ground arith)
]

-- A lane of that id is finished.
pub record Finishes (s : Scheduler) (id : ℕ) (out : Scheduler × Option Request) : Type 0 where
  pub lane : Request
  pub others : List Request
  pub takes : Takes id s.decoding lane others
  pub gives : out.1 ≡ some (record lane { state = RequestState.done })
  pub keeps : (out.0.decoding ≡ others) × (out.0.pending ≡ s.pending)
  pub frees : out.0.pool.used + lane.reservation ≡ s.pool.used

-- On a balanced scheduler `finish id` either finds no lane of that id, and then changes nothing; or it
-- takes the first lane of that id, keeps the other lanes in order and the queue, returns the request
-- as Done, and gives back exactly the bytes that the request had reserved.
pub finish_lem :
    (s : Scheduler) (id : ℕ)
    → IsBalanced s
    → ((finish s id ≡ (s, none)) × All (λ (q : Request). q.id ≢ id) s.decoding)
      ⊎ Finishes s id (finish s id)
unfolding finish release Pool.release
finish_lem s id b = elim (Option-cases (take_lane id s.decoding)) [
  | inl e ↦ inl (rw (e, finish), take_lane-none id s.decoding e)
  | inr ((r, rest), e) ↦
      rw (e, finish)
        (inr (record {
          lane = r;
          others = rest;
          takes = take_lane-Takes id s.decoding e;
          gives = refl;
          keeps = (refl, refl);
          frees = ground (arith, take_lane-reserved id s.decoding e);
        }))
]
