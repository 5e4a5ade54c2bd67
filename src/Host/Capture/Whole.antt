-- ===== src/Host/Capture/Whole.antt =====
-- crates/mimo26-coordinator/src/hostcache.rs: every way through `capture` accounts for its slots.
use mimo26f_afd.Prelude.{
  ℕ, ◌+◌, ◌-◌, ◌%◌, ◌^◌, ◌<◌, ◌≡◌, refl, ap, ◌==◌, ltb, ◌||◌, Option, none, some, List, [], ◌∷◌,
  length, ok, err, Result-cases, arith, Option-cases, Bool-cases, inl, inr, sum_by, ◌≐◌, List_eq,
}
use mimo26f_afd.Word.{add64}
use mimo26f_afd.Host.{
  Slot, Snapshot, After, Kind, HostCache, alloc_page, alloc_state, drop_refs, give_state,
  page_chain, kv_page_rows, min_tokens,
}
use mimo26f_afd.Host.Device.{Device}
use mimo26f_afd.Host.Capture.{
  Outcome, all_held, exhausted, failed, write_slot, or_else, touch, hold_pages, store_state,
  store_tail, store, capture,
}
use mimo26f_afd.Host.Counts.{count, all_uses, IsCounted, tail_weight, page_weight, state_weight}
use mimo26f_afd.Host.Alloc.{AllocsState, alloc_page-AllocsPage, alloc_state-AllocsState}
use mimo26f_afd.Host.Capture.Hold.{Holds, hold_pages-Holds, allocated_as}
use mimo26f_afd.Host.Capture.Kept.{
  Captures, tail_list, tail_list_weight, gives_back, gives_up, keeps_snapshot,
}

state_allocated_as :
    (held : List ℕ) (c : HostCache) (out : HostCache × Option Slot) (o : Option Slot)
    → out.1 ≡ o
    → AllocsState held c out
    → AllocsState held c (out.0, o)
state_allocated_as held c out o e al = rw (← e) al

given_state :
    (held : List ℕ) (slot : Slot) (c : HostCache)
    → IsCounted held c
    → IsCounted held (give_state slot c)
given_state held slot c k = record {
  unique = k.unique;
  exact = k.exact;
  positive = k.positive;
  bounded = k.bounded;
}

written_page :
    (held : List ℕ) (slot : Slot) (b : List ℕ) (c : HostCache)
    → IsCounted held c
    → IsCounted held (record c { pages = write_slot slot b c.pages })
written_page held slot b c k = record {
  unique = k.unique;
  exact = k.exact;
  positive = k.positive;
  bounded = k.bounded;
}

module _ (d : Device) (kv : d.Kv) (state : d.State) (swa_rows : ℕ) (toks : List ℕ) (after : After)
    (kind : Kind) (pages states : (Slot → ℕ) → ℕ) where
  open d use {export_ga_page, sync_export, copy_state}

  store_state-Captures :
      (held : List ℕ) (n : ℕ) (t : Option Slot) (c : HostCache)
      → IsCounted held c
      → ((w : Slot → ℕ) → page_weight w c + tail_weight w t ≡ pages w)
      → ((w : Slot → ℕ) → state_weight w c ≡ states w)
      → Captures pages states (store_state d kv state swa_rows toks after kind held n t c)
  unfolding store_state
  store_state-Captures held n t c k p s = elim (Result-cases (sync_export kv)) [
    | inr (e, bad) ↦
        rw (bad, store_state)
          (gives_up pages states held (tail_list t) c e k
            (λ w. omega (arith, p w, tail_list_weight w t)) s)
    | inl (done, good) ↦
        let a = (alloc_state c).0 in
        let al = alloc_state-AllocsState held c k in
        elim (Option-cases (alloc_state c).1) [
          | inl full ↦
              let got = state_allocated_as held c (alloc_state c) none full al in
              rw (good, store_state)
                (rw (full, store_state)
                  (gives_back pages states held t a (ok tt) got.counted
                    (λ w. omega (arith, got.pages_kept w, p w))
                    (λ w. omega (arith, got.states_kept w, s w))))
          | inr (slot, found) ↦
              let got = state_allocated_as held c (alloc_state c) (some slot) found al in
              elim (Result-cases (copy_state kv state)) [
                | inr (e, bad) ↦
                    rw (good, store_state)
                      (rw (found, store_state)
                        (rw bad (
                          gives_back pages states held t (give_state slot a) (err e)
                            (given_state held slot a got.counted)
                            (λ w. omega (arith, got.pages_kept w, p w))
                            (λ w. omega (arith, got.states_kept w, s w)))))
                | inl (b, copied) ↦
                    rw (good, store_state)
                      (rw (found, store_state)
                        (rw copied (
                          keeps_snapshot pages states a _ b _ got.counted
                            (λ w. omega (arith, got.pages_kept w, p w))
                            (λ w. omega (arith, got.states_kept w, s w)))))
              ]
        ]
  ]

  store_tail-Captures :
      (held : List ℕ) (n : ℕ) (c : HostCache)
      → IsCounted held c
      → ((w : Slot → ℕ) → page_weight w c ≡ pages w)
      → ((w : Slot → ℕ) → state_weight w c ≡ states w)
      → Captures pages states (store_tail d kv state swa_rows toks after kind held n c)
  unfolding store_tail
  store_tail-Captures held n c k p s = elim (Bool-cases (length toks % kv_page_rows == 0)) [
    | inl whole ↦ rw whole (store_state-Captures held n none c k (λ w. omega (arith, p w)) s)
    | inr rest ↦
        let a = (alloc_page c).0 in
        let al = alloc_page-AllocsPage held c k in
        elim (Option-cases (alloc_page c).1) [
          | inl full ↦
              let got = allocated_as held c (alloc_page c) none full al in
              rw rest (
                rw (full, store_tail)
                  (gives_back pages states held none a (ok tt) got.counted
                    (λ w. omega (arith, got.pages_kept w, p w))
                    (λ w. omega (arith, got.states_kept w, s w))))
          | inr (slot, found) ↦
              let got = allocated_as held c (alloc_page c) (some slot) found al in
              let rem = length toks % kv_page_rows in
              elim (Result-cases (export_ga_page kv (length toks - rem) rem)) [
                | inr (e, bad) ↦ rw rest (
                    rw (found, store_tail)
                      (rw bad (
                        gives_up pages states held (slot ∷ []) a e got.counted
                          (λ w. omega (arith, got.pages_kept w, p w))
                          (λ w. omega (arith, got.states_kept w, s w)))))
                | inl (b, good) ↦ rw rest (
                    rw (found, store_tail)
                      (rw good (
                        store_state-Captures held n (some slot)
                          (record a { pages = write_slot slot b a.pages })
                          (written_page held slot b a got.counted)
                          (λ w. omega (arith, got.pages_kept w, p w))
                          (λ w. omega (arith, got.states_kept w, s w)))))
              ]
        ]
  ]

  ended :
      (c a : HostCache) (held : List ℕ) (n : ℕ) (o : Outcome)
      → Holds c (a, held, n, o)
      → ((w : Slot → ℕ) → page_weight w c ≡ pages w)
      → ((w : Slot → ℕ) → state_weight w c ≡ states w)
      → Captures pages states (elim o [
        | all_held ↦ store_tail d kv state swa_rows toks after kind held n a
        | exhausted ↦ (drop_refs held a, ok tt)
        | failed e ↦ (a, err e)
      ])
  ended c a held n all_held h p s =
      store_tail-Captures held n a h.counted
        (λ w.
          (let none_lost = h.none_lost tt in
            omega (arith, h.pages_kept w, p w, ap (λ l. sum_by w l) none_lost)))
        (λ w. omega (arith, h.states_kept w, s w))
  ended c a held n exhausted h p s =
      gives_back pages states held none a (ok tt) h.counted
        (λ w.
          (let none_lost = h.none_lost tt in
            omega (arith, h.pages_kept w, p w, ap (λ l. sum_by w l) none_lost)))
        (λ w. omega (arith, h.states_kept w, s w))
  ended c a held n (failed e) h p s =
      gives_up pages states held h.lost a e h.counted (λ w. omega (arith, h.pages_kept w, p w))
        (λ w. omega (arith, h.states_kept w, s w))

  store-Captures :
      (lane : ℕ → ℕ → List ℕ → ℕ) (c : HostCache)
      → IsCounted [] c
      → length (page_chain lane toks) + all_uses c.snaps < 2 ^ 32
      → ((w : Slot → ℕ) → page_weight w c ≡ pages w)
      → ((w : Slot → ℕ) → state_weight w c ≡ states w)
      → Captures pages states (store d lane kv state swa_rows toks after kind c)
  unfolding store
  store-Captures lane c k room p s =
      let out = hold_pages d kv 0 (page_chain lane toks) [] 0 c in
      ended c out.0 out.1 out.2 out.3
        (hold_pages-Holds d kv 0 (page_chain lane toks) [] 0 c k (omega arith)) p s

-- What `touch` changes in a snapshot counts in no weight.
touch_sum :
    (f : Snapshot → ℕ)
    → ((s : Snapshot) (now : ℕ) (x : After) → f (record s { last_use = now; after = x }) ≡ f s)
    → (toks : List ℕ) (now : ℕ) (after : After) (snaps out : List Snapshot)
    → touch toks now after snaps ≡ some out
    → sum_by f out ≡ sum_by f snaps
unfolding touch
touch_sum f same toks now after [] out e = absurd (cc)
touch_sum f same toks now after (s ∷ snaps) out e = elim (Bool-cases (s.tokens ≐ toks)) [
  | inl found ↦
      let filled : After = record {
        greedy = or_else s.after.greedy after.greedy;
        logits = or_else s.after.logits after.logits;
      } in
      let got = rw found at e in
      let here : record s { last_use = now; after = filled } ∷ snaps ≡ out = cc in
      omega (arith, same s now filled, ap (sum_by f) here)
  | inr other ↦ elim (Option-cases (touch toks now after snaps)) [
    | inl gone ↦ let got = rw (other, gone) at e in absurd (cc)
    | inr (rest, more) ↦
        let got = rw (other, more) at e in
        let here : s ∷ rest ≡ out = cc in
        omega (arith, touch_sum f same toks now after snaps rest more, ap (sum_by f) here)
  ]
]

touched :
    (c : HostCache) (toks : List ℕ) (now : ℕ) (after : After) (out : List Snapshot)
    → touch toks now after c.snaps ≡ some out
    → IsCounted [] c
    → Captures
        (λ w. page_weight w c)
        (λ w. state_weight w c)
        (record c { clock = now; snaps = out }, ok tt)
touched c toks now after out e k = record {
  held = [];
  lost = [];
  counted = record {
    unique = k.unique;
    exact = λ id. omega (
      arith,
      k.exact id,
      touch_sum (λ s. count id s.pages) (λ s n x. refl) toks now after c.snaps out e,
    );
    positive = k.positive;
    bounded = omega (
      arith,
      k.bounded,
      touch_sum (λ s. length s.pages) (λ s n x. refl) toks now after c.snaps out e,
    );
  };
  pages_kept = λ w.
      omega
        (arith, touch_sum (λ s. tail_weight w s.tail) (λ s n x. refl) toks now after c.snaps out e);
  states_kept =
      λ w. omega (arith, touch_sum (λ s. w s.state) (λ s n x. refl) toks now after c.snaps out e);
  none_lost = λ h. (refl, refl);
}

pub clocked : (c : HostCache) (now : ℕ) → IsCounted [] c → IsCounted [] (record c { clock = now })
clocked c now k = record {
  unique = k.unique;
  exact = k.exact;
  positive = k.positive;
  bounded = k.bounded;
}

-- On a cache whose references are counted, with room for the new ones in 32 bits, and on every device:
-- `capture` keeps the references of the page table equal to those of the snapshots and of `held`, keeps
-- every state slot, and keeps every page slot free, in the table, in a tail, or in `lost`; where it
-- returns with no error, `held` and `lost` are empty.
pub capture-Captures :
    (d : Device) (lane : ℕ → ℕ → List ℕ → ℕ) (c : HostCache) (kv : d.Kv) (toks : List ℕ)
    (after : After) (kind : Kind) (state : d.State) (swa_rows : ℕ)
    → IsCounted [] c
    → length (page_chain lane toks) + all_uses c.snaps < 2 ^ 32
    → Captures
        (λ w. page_weight w c)
        (λ w. state_weight w c)
        (capture d lane c kv toks after kind state swa_rows)
unfolding capture drop_refs
capture-Captures d lane c kv toks after kind state swa_rows k room =
    elim (Bool-cases (ltb (length toks) min_tokens || ltb (d.tokens kv) (length toks))) [
      | inl skipped ↦ rw skipped (
          gives_back (λ w. page_weight w c) (λ w. state_weight w c) [] none c (ok tt) k
            (λ w. omega arith) (λ w. refl))
      | inr wanted ↦
          let now = add64 c.clock 1 in
          elim (Option-cases (touch toks now after c.snaps)) [
            | inr (out, found) ↦
                rw wanted (rw (found, capture) (touched c toks now after out found k))
            | inl fresh ↦ rw wanted (
                rw (fresh, capture)
                  (store-Captures d kv state swa_rows toks after kind (λ w. page_weight w c)
                    (λ w. state_weight w c) lane (record c { clock = now }) (clocked c now k) room
                    (λ w. refl) (λ w. refl)))
          ]
    ]
