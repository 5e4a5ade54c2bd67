-- ===== src/Host.antt =====
-- crates/mimo26-coordinator/src/hostcache.rs: the host tier of retained snapshots, with the slots of its
-- arenas, the reference counts of its shared pages and its order of eviction. `After` is that of
-- sampling.rs.
pub mod Device
pub mod Capture
pub mod Lookup
pub mod Counts
pub mod Victim
pub mod Remove
pub mod Evict
pub mod Alloc
mod Tests
use mimo26f_afd.Prelude.{
  ℕ, Bool, true, false, zero, suc, ◌+◌, ◌-◌, ◌*◌, ◌/◌, ◌%◌, ◌^◌, ◌==◌, ◌&&◌, ◌||◌, not, ltb, leb,
  ◌≐◌, if◌then◌else◌, Option, none, some, List, [], ◌∷◌, ◌++◌, length, take, drop, map, set,
  get_elem?, get_or, ℕ_eq,
}
use mimo26f_afd.Word.{add32, add64, u32_mod}
use mimo26f_afd.Dict
use mimo26f_afd.Dict.{Dict}

abbrev pub kv_page_rows : ℕ
kv_page_rows = 256

abbrev pub min_tokens : ℕ
min_tokens = 512

pub data Kind : Type 0 where
  prompt turn : Kind

-- A slot of an arena: its slab, and its offset there.
abbrev pub Slot : Type 0
Slot = ℕ × ℕ

-- The slots that are free, the last pushed first, and the bytes written to each slot.
pub record Arena : Type 0 where
  pub free : List Slot
  pub bytes : Slot → List ℕ

pub record Page : Type 0 where
  pub slot : Slot
  pub refs : ℕ

-- The bits of each logit stand for it.
pub record After : Type 0 where
  pub greedy : Option ℕ
  pub logits : Option (List ℕ)

pub serves : After → Bool → Bool
serves after sampled =
    if sampled
    then elim after.logits [ none ↦ false | some row ↦ true ]
    else elim after.greedy [ none ↦ false | some token ↦ true ]

pub record Snapshot : Type 0 where
  pub tokens : List ℕ
  pub pages : List ℕ
  pub tail : Option Slot
  pub state : Slot
  pub swa_rows : ℕ
  pub has_draft : Bool
  pub after : After
  pub kind : Kind
  pub last_use : ℕ

pub record Stats : Type 0 where
  pub captures : ℕ
  pub restores : ℕ
  pub restored_tokens : ℕ
  pub evicted : ℕ
  pub pages_written : ℕ

pub record HostCache : Type 0 where
  pub pages : Arena
  pub states : Arena
  pub page_map : Dict ℕ Page
  pub snaps : List Snapshot
  pub clock : ℕ
  pub swa_bytes : ℕ
  pub stats : Stats

-- `chunks_exact(KV_PAGE_ROWS)` with the chain's last id; `lane` is one hasher of the standard library,
-- from a seed, the id before and a block.
pub chain_loop : (ℕ → ℕ → List ℕ → ℕ) → ℕ → ℕ → List ℕ → List ℕ
chain_loop lane zero prev tokens = []
chain_loop lane (suc rounds) prev tokens =
    let block = take kv_page_rows tokens in
    let id = lane 0x6d69_6d6f prev block * 2 ^ 64 + lane 0x3236_6b76 prev block in
    id ∷ chain_loop lane rounds id (drop kv_page_rows tokens)

pub page_chain : (ℕ → ℕ → List ℕ → ℕ) → List ℕ → List ℕ
unfolding chain_loop
page_chain lane tokens = chain_loop lane (length tokens / kv_page_rows) 0 tokens

-- The order of `min_by_key`: by last use, and at equal use a prompt snapshot before a turn snapshot.
abbrev pub is_turn : Kind → Bool
is_turn prompt = false
is_turn turn = true

abbrev pub before : Kind × ℕ → Kind × ℕ → Bool
before (k, a) (l, b) = ltb a b || (a == b && (not (is_turn k) && is_turn l))

-- `min_by_key` keeps the first of equal keys.
pub victim_loop : ℕ → ℕ → Kind × ℕ → List (Kind × ℕ) → ℕ
victim_loop i best key [] = best
victim_loop i best key (s ∷ snaps) =
    let moved = victim_loop (suc i) i s snaps in
    let stays = victim_loop (suc i) best key snaps in if before s key then moved else stays

pub victim : List (Kind × ℕ) → Option ℕ
unfolding victim_loop
victim [] = none
victim (s ∷ snaps) = some (victim_loop 1 0 s snaps)

-- Vec::swap_remove
pub swap_remove {ℓ} : {A : Type ℓ} → ℕ → List A → Option (A × List A)
swap_remove i xs = elim (get_elem? xs i) [
  | none ↦ none
  | some x ↦ some (x, take (length xs - 1) (set xs i (get_or xs (length xs - 1) x)))
]

-- The body of the loop over page ids in `release` and in the closure `abort` of `capture`.
pub drop_ref : HostCache → ℕ → HostCache
drop_ref c id = elim (Dict.get id c.page_map) [
  | none ↦ c
  | some p ↦
      let refs = (p.refs + u32_mod - 1) % u32_mod in
      if refs == 0
      then record c {
        page_map = Dict.remove id c.page_map;
        pages = record c.pages { free = p.slot ∷ c.pages.free };
      }
      else record c { page_map = Dict.insert id (record p { refs = refs }) c.page_map }
]

pub drop_refs : List ℕ → HostCache → HostCache
unfolding drop_ref
drop_refs [] c = c
drop_refs (id ∷ ids) c = drop_refs ids (drop_ref c id)

-- `if let Some(t) = tail { self.pages.free.push(t) }`
abbrev pub give_tail : Option Slot → HostCache → HostCache
give_tail none c = c
give_tail (some slot) c = record c { pages = record c.pages { free = slot ∷ c.pages.free } }

abbrev pub give_state : Slot → HostCache → HostCache
give_state slot c = record c { states = record c.states { free = slot ∷ c.states.free } }

pub release : HostCache → Snapshot → HostCache
unfolding drop_refs
release c s = drop_refs s.pages (give_tail s.tail (give_state s.state c))

abbrev pub key_of : Snapshot → Kind × ℕ
key_of s = (s.kind, s.last_use)

pub evict_one : HostCache → HostCache × Bool
unfolding victim swap_remove release
evict_one c = elim (victim (map key_of c.snaps)) [
  | none ↦ (c, false)
  | some i ↦ elim (swap_remove i c.snaps) [
    | none ↦ (c, false)
    | some (s, rest) ↦
        let c' = release (record c { snaps = rest }) s in
        (record c' { stats = record c'.stats { evicted = add64 c'.stats.evicted 1 } }, true)
  ]
]

-- The loop of `alloc_page` on fuel: each round that does not return evicts a snapshot.
pub alloc_page_loop : ℕ → HostCache → HostCache × Option Slot
unfolding evict_one
alloc_page_loop zero c = (c, none)
alloc_page_loop (suc fuel) c = elim c.pages.free [
  | slot ∷ free ↦ (record c { pages = record c.pages { free = free } }, some slot)
  | [] ↦
      let (c', evicted) = evict_one c in
      let again = alloc_page_loop fuel c' in if evicted then again else (c', none)
]

pub alloc_page : HostCache → HostCache × Option Slot
unfolding alloc_page_loop
alloc_page c = alloc_page_loop (length c.snaps + 1) c

pub alloc_state_loop : ℕ → HostCache → HostCache × Option Slot
unfolding evict_one
alloc_state_loop zero c = (c, none)
alloc_state_loop (suc fuel) c = elim c.states.free [
  | slot ∷ free ↦ (record c { states = record c.states { free = free } }, some slot)
  | [] ↦
      let (c', evicted) = evict_one c in
      let again = alloc_state_loop fuel c' in if evicted then again else (c', none)
]

pub alloc_state : HostCache → HostCache × Option Slot
unfolding alloc_state_loop
alloc_state c = alloc_state_loop (length c.snaps + 1) c
