-- ===== src/Host/Capture/Leak.antt =====
-- crates/mimo26-coordinator/src/hostcache.rs: an export of rows fails in `capture`.
use mimo26f_afd.Prelude.{
  ℕ, ◌+◌, ◌-◌, ◌%◌, ◌^◌, ◌≤◌, ◌<◌, ◌≡◌, refl, ap, ◌==◌, ◌&&◌, ◌||◌, ltb, if◌then◌else◌, ==_iff,
  Option, none, some, List, [], length, Result, ok, err, arith, Option-cases, Bool-cases,
  Result-cases, inl, inr, ℕ_eq, sum_by, List_eq,
}
use Prim.Native.String.{String}
use mimo26f_afd.Word.{add64}
use mimo26f_afd.Host.{
  Slot, HostCache, After, Kind, page_chain, alloc_page, alloc_state, drop_refs, kv_page_rows,
  min_tokens,
}
use mimo26f_afd.Host.Device.{Device}
use mimo26f_afd.Host.Alloc.{alloc_page-AllocsPage}
use mimo26f_afd.Host.Capture.{
  Outcome, all_held, exhausted, failed, write_slot, touch, hold_pages, store_state, store_tail,
  store, capture,
}
use mimo26f_afd.Host.Capture.Hold.{Holds, hold_pages-Holds, allocated_as}
use mimo26f_afd.Host.Capture.Whole.{clocked}
use mimo26f_afd.Host.Counts.{all_uses, IsCounted, page_weight}

abbrev pub at : Slot → Slot → ℕ
at s t = if t.0 == s.0 && t.1 == s.1 then 1 else 0

-- How many times a page slot is free, of a page of the table, or the tail of a snapshot.
abbrev pub places : Slot → HostCache → ℕ
places s c = page_weight (at s) c

-- One page slot that had a place has none; the measures of the others add up as before.
pub record Loses (before after : HostCache) : Type 0 where
  pub slot : Slot
  pub was_there : places slot before ≡ 1
  pub nowhere : places slot after ≡ 0
  pub measures : (w : Slot → ℕ) → page_weight w after + w slot ≡ page_weight w before
  pub others : (s : Slot) → at s slot ≡ 0 → places s after ≡ places s before

abbrev Lost : ((Slot → ℕ) → ℕ) → HostCache → Type 0
Lost pages c = (slot : Slot) × ((w : Slot → ℕ) → page_weight w c + w slot ≡ pages w)

abbrev Leaks : ((Slot → ℕ) → ℕ) → HostCache × Result String (Unit {0}) → Type 0
Leaks pages out = (e : String) → out.1 ≡ err e → Lost pages out.0

fine-Leaks :
    (pages : (Slot → ℕ) → ℕ) (out : HostCache × Result String (Unit {0}))
    → out.1 ≡ ok tt
    → Leaks pages out
fine-Leaks pages out fine e bad = absurd (cc)

module _ (d : Device) (kv : d.Kv) (state : d.State) (swa_rows : ℕ) (toks : List ℕ) (after : After)
    (kind : Kind) (b : List ℕ) (synced : d.sync_export kv ≡ ok tt)
    (copied : d.copy_state kv state ≡ ok b) (pages : (Slot → ℕ) → ℕ) where
  open d use {export_ga_page}

  store_state_fine :
      (held : List ℕ) (n : ℕ) (t : Option Slot) (c : HostCache)
      → (store_state d kv state swa_rows toks after kind held n t c).1 ≡ ok tt
  unfolding store_state
  store_state_fine held n t c = elim (Option-cases (alloc_state c).1) [
    | inl full ↦ rw (synced, store_state) (rw (full, store_state) refl)
    | inr (slot, found) ↦
        rw (synced, store_state) (rw (found, store_state) (rw (copied, store_state) refl))
  ]

  store_state-Leaks :
      (held : List ℕ) (n : ℕ) (t : Option Slot) (c : HostCache)
      → Leaks pages (store_state d kv state swa_rows toks after kind held n t c)
  store_state-Leaks held n t c =
      fine-Leaks pages (store_state d kv state swa_rows toks after kind held n t c)
        (store_state_fine held n t c)

  store_tail-Leaks :
      (held : List ℕ) (n : ℕ) (c : HostCache)
      → IsCounted held c
      → ((w : Slot → ℕ) → page_weight w c ≡ pages w)
      → Leaks pages (store_tail d kv state swa_rows toks after kind held n c)
  unfolding store_tail
  store_tail-Leaks held n c k p = elim (Bool-cases (length toks % kv_page_rows == 0)) [
    | inl whole ↦ rw whole (store_state-Leaks held n none c)
    | inr rest ↦
        let a = (alloc_page c).0 in
        let al = alloc_page-AllocsPage held c k in
        elim (Option-cases (alloc_page c).1) [
          | inl full ↦ rw rest (rw (full, store_tail) (λ e bad. absurd (cc)))
          | inr (slot, found) ↦
              let got = allocated_as held c (alloc_page c) (some slot) found al in
              let rem = length toks % kv_page_rows in
              elim (Result-cases (export_ga_page kv (length toks - rem) rem)) [
                | inr (e, bad) ↦ rw rest (
                    rw (found, store_tail)
                      (rw bad (λ e same. (slot, λ w. omega (arith, got.pages_kept w, p w)))))
                | inl (rows, good) ↦ rw rest (
                    rw (found, store_tail)
                      (rw good (
                        store_state-Leaks held n (some slot)
                          (record a { pages = write_slot slot rows a.pages }))))
              ]
        ]
  ]

  ended :
      (c a : HostCache) (held : List ℕ) (n : ℕ) (o : Outcome)
      → Holds c (a, held, n, o)
      → ((w : Slot → ℕ) → page_weight w c ≡ pages w)
      → Leaks pages (elim o [
        | all_held ↦ store_tail d kv state swa_rows toks after kind held n a
        | exhausted ↦ (drop_refs held a, ok tt)
        | failed e ↦ (a, err e)
      ])
  ended c a held n all_held h p = store_tail-Leaks held n a h.counted (λ w.
      (let none_lost = h.none_lost tt in
        omega (arith, h.pages_kept w, p w, ap (λ l. sum_by w l) none_lost)))
  ended c a held n exhausted h p = λ e bad. absurd (cc)
  ended c a held n (failed e) h p = λ other same.
      (let (slot, one) = h.one_lost e refl in
        (slot, λ w. omega (arith, h.pages_kept w, p w, ap (λ l. sum_by w l) one)))

  store-Leaks :
      (lane : ℕ → ℕ → List ℕ → ℕ) (c : HostCache)
      → IsCounted [] c
      → length (page_chain lane toks) + all_uses c.snaps < 2 ^ 32
      → ((w : Slot → ℕ) → page_weight w c ≡ pages w)
      → Leaks pages (store d lane kv state swa_rows toks after kind c)
  unfolding store
  store-Leaks lane c k room p =
      let out = hold_pages d kv 0 (page_chain lane toks) [] 0 c in
      ended c out.0 out.1 out.2 out.3
        (hold_pages-Holds d kv 0 (page_chain lane toks) [] 0 c k (omega arith)) p

  capture-Leaks :
      (lane : ℕ → ℕ → List ℕ → ℕ) (c : HostCache)
      → IsCounted [] c
      → length (page_chain lane toks) + all_uses c.snaps < 2 ^ 32
      → ((w : Slot → ℕ) → page_weight w c ≡ pages w)
      → Leaks pages (capture d lane c kv toks after kind state swa_rows)
  unfolding capture
  capture-Leaks lane c k room p =
      elim (Bool-cases (ltb (length toks) min_tokens || ltb (d.tokens kv) (length toks))) [
        | inl skipped ↦ rw skipped (λ e bad. absurd (cc))
        | inr wanted ↦
            let now = add64 c.clock 1 in
            elim (Option-cases (touch toks now after c.snaps)) [
              | inr (out, found) ↦ rw wanted (rw (found, capture) (λ e bad. absurd (cc)))
              | inl fresh ↦ rw wanted (
                  rw (fresh, capture)
                    (store-Leaks lane (record c { clock = now }) (clocked c now k) room p))
            ]
      ]

at_self : (s : Slot) → at s s ≡ 1
at_self s = ground (arith, ==_iff s.0 s.0, ==_iff s.1 s.1)

-- On a cache whose references are counted, with room for the new ones in 32 bits, and where no page
-- slot has two places: where the device finishes its exports and copies the state, and `capture` still
-- returns an error, there is a page slot that had one place among the free slots, the pages of the table
-- and the tails of the snapshots, and has none in the cache that `capture` leaves; all other page slots
-- have as many places as before.
pub capture_leaks :
    (d : Device) (lane : ℕ → ℕ → List ℕ → ℕ) (c : HostCache) (kv : d.Kv) (toks : List ℕ)
    (after : After) (kind : Kind) (state : d.State) (swa_rows : ℕ) (b : List ℕ) (e : String)
    → IsCounted [] c
    → length (page_chain lane toks) + all_uses c.snaps < 2 ^ 32
    → ((s : Slot) → places s c ≤ 1)
    → d.sync_export kv ≡ ok tt
    → d.copy_state kv state ≡ ok b
    → (capture d lane c kv toks after kind state swa_rows).1 ≡ err e
    → Loses c (capture d lane c kv toks after kind state swa_rows).0
capture_leaks d lane c kv toks after kind state swa_rows b e k room unique synced copied bad =
    let (slot, gone) =
      capture-Leaks d kv state swa_rows toks after kind b synced copied (λ w. page_weight w c) lane
        c k room (λ w. refl) e bad in
    record {
      slot = slot;
      was_there = omega (arith, gone (at slot), unique slot, at_self slot);
      nowhere = omega (arith, gone (at slot), unique slot, at_self slot);
      measures = gone;
      others = λ s other. omega (arith, gone (at s));
    }
