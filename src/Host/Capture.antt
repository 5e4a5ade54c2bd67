-- ===== src/Host/Capture.antt =====
-- crates/mimo26-coordinator/src/hostcache.rs: `capture`.
pub mod Hold
pub mod Kept
pub mod Whole
pub mod Leak
use mimo26f_afd.Prelude.{
  ℕ, Bool, true, false, ◌+◌, ◌-◌, ◌*◌, ◌/◌, ◌%◌, ◌==◌, ◌&&◌, ◌||◌, not, ltb, leb, ◌≐◌,
  if◌then◌else◌, Option, none, some, List, [], ◌∷◌, ◌++◌, length, take, drop, Result, ok, err,
  ◌>>=◌, get_elem?, set, ℕ_eq, List_eq,
}
use Prim.Native.String.{String}
use mimo26f_afd.Word.{add32, add64}
use mimo26f_afd.Dict
use mimo26f_afd.Dict.{Dict}
use mimo26f_afd.Host.Device.{Device}
use mimo26f_afd.Host.{
  Slot, Arena, Page, After, Snapshot, HostCache, Kind, kv_page_rows, min_tokens, page_chain,
  drop_refs, give_tail, give_state, alloc_page, alloc_state, serves,
}

-- A write through `Arena::get_mut`.
abbrev pub write_slot : Slot → List ℕ → Arena → Arena
write_slot (s, at) b a = record a { bytes = λ t. if t.0 == s && t.1 == at then b else a.bytes t }

-- How the loop over the chain ends.
pub data Outcome : Type 0 where
  all_held : Outcome
  exhausted : Outcome
  failed : String → Outcome

abbrev pub or_else {ℓ} : {A : Type ℓ} → Option A → Option A → Option A
or_else none b = b
or_else (some a) b = some a

-- The first snapshot of these very tokens, used now and with what follows filled in.
unfoldable pub touch : List ℕ → ℕ → After → List Snapshot → Option (List Snapshot)
touch tokens now after [] = none
touch tokens now after (s ∷ snaps) =
    let later : Option (List Snapshot) = elim (touch tokens now after snaps) [
      | none ↦ none
      | some rest ↦ some (s ∷ rest)
    ] in
    if s.tokens ≐ tokens
    then some (
        record s {
          last_use = now;
          after = record {
            greedy = or_else s.after.greedy after.greedy;
            logits = or_else s.after.logits after.logits;
          };
        }
        ∷ snaps)
    else later

module _ (d : Device) where
  open d use {Kv, State, tokens, export_ga_page, sync_export, copy_state, draft_state_bytes}

  -- The loop over the chain: the pages held so far, and how many of them were written.
  unfoldable pub hold_pages :
      Kv → ℕ → List ℕ → List ℕ → ℕ → HostCache → HostCache × List ℕ × ℕ × Outcome
  hold_pages kv i [] held written c = (c, held, written, all_held)
  hold_pages kv i (id ∷ chain) held written c = elim (Dict.get id c.page_map) [
    | some p ↦
        hold_pages kv (i + 1) chain (held ++ (id ∷ [])) written
          (record c { page_map = Dict.insert id (record p { refs = add32 p.refs 1 }) c.page_map })
    | none ↦
        let (c', found) = alloc_page c in
        elim found [
          | none ↦ (c', held, written, exhausted)
          | some slot ↦ elim (export_ga_page kv (i * kv_page_rows) kv_page_rows) [
            | err e ↦ (c', held, written, failed e)
            | ok b ↦ hold_pages kv (i + 1) chain (held ++ (id ∷ [])) (written + 1) (record c' {
              pages = write_slot slot b c'.pages;
              page_map = Dict.insert id (record { slot = slot; refs = 1 }) c'.page_map;
            })
          ]
        ]
  ]

  -- From the state slot on.
  pub store_state :
      Kv
      → State
      → ℕ
      → List ℕ
      → After
      → Kind
      → List ℕ
      → ℕ
      → Option Slot
      → HostCache
      → HostCache × Result String (Unit {0})
  store_state kv state swa_rows toks after kind held written tail c = elim (sync_export kv) [
    | err e ↦ (c, err e)
    | ok done ↦
        let (c', found) = alloc_state c in
        elim found [
          | none ↦ (drop_refs held (give_tail tail c'), ok tt)
          | some slot ↦ elim (copy_state kv state) [
            | err e ↦ (drop_refs held (give_tail tail (give_state slot c')), err e)
            | ok b ↦ (
              record c' {
                states = write_slot slot b c'.states;
                snaps =
                    c'.snaps
                    ++ (record {
                      tokens = toks;
                      pages = held;
                      tail = tail;
                      state = slot;
                      swa_rows = swa_rows;
                      has_draft = ltb 0 (draft_state_bytes kv);
                      after = after;
                      kind = kind;
                      last_use = c'.clock;
                    }
                        ∷ []);
                stats = record c'.stats {
                  captures = add64 c'.stats.captures 1;
                  pages_written = add64 c'.stats.pages_written written;
                };
              },
              ok tt,
            )
          ]
        ]
  ]

  -- From the rows past the last full page on.
  pub store_tail :
      Kv
      → State
      → ℕ
      → List ℕ
      → After
      → Kind
      → List ℕ
      → ℕ
      → HostCache
      → HostCache × Result String (Unit {0})
  unfolding store_state
  store_tail kv state swa_rows toks after kind held written c =
      let n = length toks in
      let rem = n % kv_page_rows in
      if rem == 0
      then store_state kv state swa_rows toks after kind held written none c
      else (let (c', found) = alloc_page c in
          elim found [
            | none ↦ (drop_refs held c', ok tt)
            | some slot ↦ elim (export_ga_page kv (n - rem) rem) [
              | err e ↦ (c', err e)
              | ok b ↦
                  store_state kv state swa_rows toks after kind held written (some slot)
                    (record c' { pages = write_slot slot b c'.pages })
            ]
          ])

  unfoldable pub store :
      (ℕ → ℕ → List ℕ → ℕ)
      → Kv
      → State
      → ℕ
      → List ℕ
      → After
      → Kind
      → HostCache
      → HostCache × Result String (Unit {0})
  unfolding hold_pages store_tail
  store lane kv state swa_rows toks after kind c =
      let (c', held, written, outcome) = hold_pages kv 0 (page_chain lane toks) [] 0 c in
      elim outcome [
        | all_held ↦ store_tail kv state swa_rows toks after kind held written c'
        | exhausted ↦ (drop_refs held c', ok tt)
        | failed e ↦ (c', err e)
      ]

  unfoldable pub capture :
      (ℕ → ℕ → List ℕ → ℕ)
      → HostCache
      → Kv
      → List ℕ
      → After
      → Kind
      → State
      → ℕ
      → HostCache × Result String (Unit {0})
  unfolding store touch
  capture lane c kv toks after kind state swa_rows =
      if ltb (length toks) min_tokens || ltb (tokens kv) (length toks)
      then (c, ok tt)
      else (let c' = record c { clock = add64 c.clock 1 } in
          elim (touch toks c'.clock after c'.snaps) [
            | some snaps ↦ (record c' { snaps = snaps }, ok tt)
            | none ↦ store lane kv state swa_rows toks after kind c'
          ])
