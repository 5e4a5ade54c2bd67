-- ===== src/Host/Tests.antt =====
-- The host cache on small inputs.
use mimo26f_afd.Prelude.{
  ℕ, true, false, ◌≤◌, ◌==◌, ==_iff, if◌then◌else◌, ◌+◌, ◌-◌, ◌^◌, ◌*◌, ◌≡◌, refl, none, some, List,
  [], ◌∷◌, ◌++◌, length, take, replicate, Result, ok, err, arith, All, sum_by, ℕ_eq,
}
use Prim.Native.String.{String}
use mimo26f_afd.Dict
use mimo26f_afd.Host.{
  Slot, Snapshot, Stats, After, prompt, turn, HostCache, page_chain, chain_loop, victim, alloc_page,
  serves,
}
use mimo26f_afd.Host.Device.{Device}
use mimo26f_afd.Host.Capture.{capture, store, hold_pages, touch}
use mimo26f_afd.Host.Counts.{IsCounted, page_weight, state_weight}
use mimo26f_afd.Host.Alloc.{AllocsPage, alloc_page-AllocsPage}
use mimo26f_afd.Host.Victim.{Picks, victim-Picks}
use mimo26f_afd.Host.Capture.Kept.{Captures}
use mimo26f_afd.Host.Capture.Whole.{capture-Captures}
use mimo26f_afd.Host.Capture.Leak.{places, Loses, capture_leaks}
use mimo26f_afd.Host.Lookup.{lookup, lookup_for}
use mimo26f_afd.Host.Lookup.Chain.{IsNamed}
use mimo26f_afd.Host.Lookup.Longest.{Best, lookup-Best}
use mimo26f_afd.Host.Lookup.Usable.{Finds, lookup_for-Finds}

abbrev no_stats : Stats
no_stats = record {
  captures = 0;
  restores = 0;
  restored_tokens = 0;
  evicted = 0;
  pages_written = 0;
}

abbrev fresh : HostCache
fresh = record {
  pages = record { free = (0, 0) ∷ (0, 10) ∷ (0, 20) ∷ []; bytes = λ s. [] };
  states = record { free = (0, 0) ∷ []; bytes = λ s. [] };
  page_map = [];
  snaps = [];
  clock = 0;
  swa_bytes = 2;
  stats = no_stats;
}

fresh-IsCounted : IsCounted [] fresh
unfolding Dict.get
fresh-IsCounted = record {
  unique = tt;
  exact = λ id. refl;
  positive = λ id p e. absurd (cc);
  bounded = omega arith;
}

-- A device of `n` tokens whose exports succeed or fail, and whose imports note the rows.
abbrev device : Result String (List ℕ) → Device
device exports = record {
  Kv = ℕ;
  State = ℕ;
  tokens = λ kv. kv;
  draft_state_bytes = λ kv. 0;
  export_ga_page = λ kv r n. exports;
  sync_export = λ kv. ok tt;
  copy_state = λ kv s. ok (s ∷ []);
  reset = λ kv. 0;
  reserve_ga = λ kv n. ok kv;
  import_ga_page = λ kv n b. ok (kv + n);
  finish_ga_import = λ kv. ok kv;
  import_swa = λ kv rows b. ok kv;
  import_draft = λ kv b. ok kv;
  set_tokens = λ kv n. n;
}

abbrev follows : After
follows = record { greedy = some 5; logits = none }

abbrev lane : ℕ → ℕ → List ℕ → ℕ
lane seed prev block = seed + prev + sum_by (λ x. x) block

abbrev toks : List ℕ
toks = replicate 512 3

two_pages : length (page_chain lane toks) ≡ 2
unfolding page_chain
two_pages = refl

capture-Captures_example :
    Captures
      (λ w. page_weight w fresh)
      (λ w. state_weight w fresh)
      (capture (device (ok (1 ∷ []))) lane fresh 600 toks follows prompt 7 3)
capture-Captures_example =
    capture-Captures (device (ok (1 ∷ []))) lane fresh 600 toks follows prompt 7 3 fresh-IsCounted
      (omega (arith, two_pages))

abbrev first_id : ℕ
first_id = lane 0x6d69_6d6f 0 (replicate 256 3) * 2 ^ 64 + lane 0x3236_6b76 0 (replicate 256 3)

abbrev later_ids : List ℕ
later_ids = chain_loop lane 1 first_id (replicate 256 3)

-- A device whose export of the second page fails.
abbrev half_device : Device
half_device = record (device (ok [])) {
  export_ga_page = λ kv r n. if r == 256 then err "no rows" else ok (r ∷ []);
}

fresh-places : (s : Slot) → places s fresh ≤ 1
fresh-places s = ground (arith, ==_iff 0 s.0, ==_iff 0 s.1, ==_iff 10 s.1, ==_iff 20 s.1)

second_fails : (capture half_device lane fresh 600 toks follows prompt 7 3).1 ≡ err "no rows"
unfolding capture store hold_pages alloc_page page_chain touch Dict.get Dict.insert
second_fails = refl

capture_leaks_example : Loses fresh (capture half_device lane fresh 600 toks follows prompt 7 3).0
capture_leaks_example =
    capture_leaks half_device lane fresh 600 toks follows prompt 7 3 (7 ∷ []) "no rows"
      fresh-IsCounted (omega (arith, two_pages)) fresh-places refl refl second_fails

alloc_page-AllocsPage_example : AllocsPage [] fresh (alloc_page fresh)
alloc_page-AllocsPage_example = alloc_page-AllocsPage [] fresh fresh-IsCounted

victim_old : victim ((turn, 3) ∷ (prompt, 9) ∷ (turn, 10) ∷ []) ≡ some 0
unfolding victim
victim_old = refl

victim_prompt_first : victim ((turn, 5) ∷ (prompt, 5) ∷ []) ≡ some 1
unfolding victim
victim_prompt_first = refl

victim-Picks_example : Picks ((turn, 5) ∷ (prompt, 5) ∷ []) (victim ((turn, 5) ∷ (prompt, 5) ∷ []))
victim-Picks_example = victim-Picks ((turn, 5) ∷ (prompt, 5) ∷ [])

abbrev block : List ℕ
block = replicate 256 3

abbrev held_at : List ℕ → ℕ → Snapshot
held_at rest slot = record {
  tokens = block ++ rest;
  pages = first_id ∷ [];
  tail = some (0, slot);
  state = (0, slot);
  swa_rows = 3;
  has_draft = false;
  after = follows;
  kind = turn;
  last_use = 1;
}

abbrev holding : HostCache
holding = record fresh {
  snaps = held_at (1 ∷ []) 10 ∷ held_at (9 ∷ []) 20 ∷ held_at (1 ∷ 2 ∷ []) 30 ∷ [];
}

abbrev asked : List ℕ
asked = block ++ (1 ∷ 2 ∷ [])

holding-IsNamed : All (IsNamed lane asked) holding.snaps
unfolding page_chain
holding-IsNamed = (
  record { named = refl; no_collision = λ h. refl },
  (
    record { named = refl; no_collision = λ h. refl },
    (record { named = refl; no_collision = λ h. refl }, tt),
  ),
)

lookup-Best_example : Best holding.snaps asked 3 (lookup lane holding asked)
lookup-Best_example = lookup-Best lane holding asked holding-IsNamed

asked_shorter-IsNamed : All (IsNamed lane (take (length asked - 1) asked)) holding.snaps
unfolding page_chain
asked_shorter-IsNamed = (
  record { named = refl; no_collision = λ h. refl },
  (
    record { named = refl; no_collision = λ h. refl },
    (record { named = refl; no_collision = λ h. refl }, tt),
  ),
)

-- A sampled request, for which no snapshot has logits.
lookup_for-Finds_example : Finds holding asked true (lookup_for lane holding asked true)
lookup_for-Finds_example =
    lookup_for-Finds lane holding asked true (omega arith) holding-IsNamed asked_shorter-IsNamed

finds_shorter_one : lookup_for lane holding asked true ≡ some (0, 257)
unfolding lookup_for lookup page_chain serves
finds_shorter_one = refl
