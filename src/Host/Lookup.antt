-- ===== src/Host/Lookup.antt =====
-- crates/mimo26-coordinator/src/hostcache.rs: `lookup`, `lookup_for` and `restore`.
pub mod Chain
pub mod Longest
pub mod Usable
use mimo26f_afd.Prelude.{
  ℕ, Bool, true, false, ◌+◌, ◌-◌, ◌*◌, ◌/◌, ◌%◌, ◌==◌, ◌&&◌, not, ltb, leb, ◌≐◌, if◌then◌else◌,
  Option, none, some, List, [], ◌∷◌, length, take, drop, Result, ok, err, ◌>>=◌, get_elem?, set,
  ℕ_eq, List_eq,
}
use Prim.Native.String.{String}
use mimo26f_afd.Word.{add64}
use mimo26f_afd.Dict
use mimo26f_afd.Host.Device.{Device}
use mimo26f_afd.Host.{
  Slot, Arena, Page, After, Snapshot, HostCache, Kind, kv_page_rows, page_chain, serves,
}

-- The pages whose ids stand in `chain[..full]`, and the rows past them.
pub fits : (ℕ → ℕ → List ℕ → ℕ) → List ℕ → Snapshot → Bool
fits lane prompt s =
    let n = length s.tokens in
    let full = n / kv_page_rows in
    (s.pages ≐ take full (page_chain lane prompt))
    && (drop (full * kv_page_rows) s.tokens ≐ drop (full * kv_page_rows) (take n prompt))

-- Not `best.is_some_and(|b| self.snaps[b].tokens.len() >= n)`.
abbrev pub longer_than : Option (ℕ × ℕ) → ℕ → Bool
longer_than none n = true
longer_than (some (b, m)) n = ltb m n

pub lookup_loop :
    (ℕ → ℕ → List ℕ → ℕ) → List ℕ → ℕ → Option (ℕ × ℕ) → List Snapshot → Option (ℕ × ℕ)
unfolding fits
lookup_loop lane prompt i best [] = best
lookup_loop lane prompt i best (s ∷ snaps) =
    let n = length s.tokens in
    lookup_loop lane prompt (i + 1)
      (if leb n (length prompt) && (longer_than best n && fits lane prompt s)
        then some (i, n)
        else best)
      snaps

unfoldable pub lookup : (ℕ → ℕ → List ℕ → ℕ) → HostCache → List ℕ → Option (ℕ × ℕ)
unfolding lookup_loop
lookup lane c prompt = lookup_loop lane prompt 0 none c.snaps

-- `self.snaps[i].after.serves(sampled)`
abbrev pub serves_at : HostCache → Bool → ℕ → Bool
serves_at c sampled i = elim (get_elem? c.snaps i) [
  | none ↦ false
  | some s ↦ serves s.after sampled
]

unfoldable pub lookup_for : (ℕ → ℕ → List ℕ → ℕ) → HostCache → List ℕ → Bool → Option (ℕ × ℕ)
lookup_for lane c prompt sampled = elim (lookup lane c prompt) [
  | none ↦ none
  | some (i, n) ↦
      if n == length prompt && not (serves_at c sampled i)
      then lookup lane c (take (length prompt - 1) prompt)
      else some (i, n)
]

module _ (d : Device) where
  open d use {
    Kv, reset, reserve_ga, import_ga_page, finish_ga_import, import_swa, import_draft, set_tokens,
  }

  -- The loop over the pages of a snapshot.
  pub import_pages : HostCache → List ℕ → Kv → Result String Kv
  import_pages c [] kv = ok kv
  import_pages c (id ∷ ids) kv = elim (Dict.get id c.page_map) [
    | none ↦ err "hostcache: snapshot page missing"
    | some p ↦ (do
      kv' ← import_ga_page kv kv_page_rows (c.pages.bytes p.slot)
      import_pages c ids kv')
  ]

  pub import_tail : HostCache → Snapshot → Kv → Result String Kv
  import_tail c s kv = elim s.tail [
    | none ↦ ok kv
    | some slot ↦ import_ga_page kv (length s.tokens % kv_page_rows) (c.pages.bytes slot)
  ]

  pub import_state : HostCache → Snapshot → Kv → Result String Kv
  import_state c s kv = do
    let buf = c.states.bytes s.state
    kv' ← import_swa kv s.swa_rows (take c.swa_bytes buf)
    if s.has_draft then import_draft kv' (drop c.swa_bytes buf) else ok kv'

  -- `none` where the index is out of range, at which the source panics.
  pub restore : HostCache → ℕ → Kv → Option (HostCache × Result String (Kv × ℕ × After × Kind))
  unfolding import_pages import_tail import_state
  restore c idx kv = elim (get_elem? c.snaps idx) [
    | none ↦ none
    | some s ↦
        let now = add64 c.clock 1 in
        let n = length s.tokens in
        let c' = record c { clock = now; snaps = set c.snaps idx (record s { last_use = now }) } in
        let loaded : Result String Kv = (do
          fresh ← reserve_ga (reset kv) n
          paged ← import_pages c' s.pages fresh
          tailed ← import_tail c' s paged
          synced ← finish_ga_import tailed
          import_state c' s synced) in
        elim loaded [
          | err e ↦ some (c', err e)
          | ok kv' ↦ some (
            record c' {
              stats = record c'.stats {
                restores = add64 c'.stats.restores 1;
                restored_tokens = add64 c'.stats.restored_tokens n;
              };
            },
            ok (set_tokens kv' n, n, s.after, s.kind),
          )
        ]
  ]
