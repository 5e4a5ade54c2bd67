-- ===== src/Host/Evict.antt =====
-- crates/mimo26-coordinator/src/hostcache.rs: slots and references under eviction and allocation.
use mimo26f_afd.Prelude.{
  ℕ, Bool, true, false, suc, ◌+◌, ◌≤◌, ◌≡◌, refl, ◌∙◌, Option, none, some, List, [], ◌∷◌, ◌++◌,
  length, map, length-append, length-map, sum_by-append, arith, Option-cases, inl, inr,
}
use mimo26f_afd.Host.{
  Slot, Snapshot, Stats, HostCache, drop_ref, key_of, victim, release, drop_refs, give_tail,
  give_state, evict_one,
}
use mimo26f_afd.Host.Counts.{
  one, count, uses, all_uses, IsCounted, Keeps, tail_weight, page_weight, state_weight,
  drop_refs-Keeps,
}
use mimo26f_afd.Host.Remove.{Removes, swap_remove-Removes}
use mimo26f_afd.Host.Victim.{victim-Picks}

pub count-append : (id : ℕ) (xs ys : List ℕ) → count id (xs ++ ys) ≡ count id xs + count id ys
count-append id xs ys = sum_by-append (one id) xs ys

-- Slots that go free while nothing else changes.
give-IsCounted :
    (held : List ℕ) (t : Option Slot) (slot : Slot) (c : HostCache)
    → IsCounted held c
    → IsCounted held (give_tail t (give_state slot c))
give-IsCounted held none slot c k = record {
  unique = k.unique;
  exact = k.exact;
  positive = k.positive;
  bounded = k.bounded;
}
give-IsCounted held (some t) slot c k = record {
  unique = k.unique;
  exact = k.exact;
  positive = k.positive;
  bounded = k.bounded;
}

give_page_weight :
    (w : Slot → ℕ) (t : Option Slot) (slot : Slot) (c : HostCache)
    → page_weight w (give_tail t (give_state slot c)) ≡ page_weight w c + tail_weight w t
give_page_weight w none slot c = omega arith
give_page_weight w (some t) slot c = omega arith

give_state_weight :
    (w : Slot → ℕ) (t : Option Slot) (slot : Slot) (c : HostCache)
    → state_weight w (give_tail t (give_state slot c)) ≡ state_weight w c + w slot
give_state_weight w none slot c = omega arith
give_state_weight w (some t) slot c = omega arith

-- The references of a snapshot that leaves are held by the release of it.
removed-IsCounted :
    (held : List ℕ) (c : HostCache) (s : Snapshot) (rest : List Snapshot)
    → Removes c.snaps s rest
    → IsCounted held c
    → IsCounted (s.pages ++ held) (record c { snaps = rest })
removed-IsCounted held c s rest r k = record {
  unique = k.unique;
  exact =
      λ id. omega (arith, k.exact id, count-append id s.pages held, r.kept (λ t. count id t.pages));
  positive = k.positive;
  bounded = omega (arith, k.bounded, length-append s.pages held, r.kept (λ t. length t.pages));
}

release-Keeps :
    (held : List ℕ) (c : HostCache) (s : Snapshot) (rest : List Snapshot)
    → Removes c.snaps s rest
    → IsCounted held c
    → Keeps held c (release (record c { snaps = rest }) s)
unfolding release
release-Keeps held c s rest r k =
    let c0 = record c { snaps = rest } in
    let freed =
      drop_refs-Keeps s.pages held (give_tail s.tail (give_state s.state c0)) (
        give-IsCounted (s.pages ++ held) s.tail s.state c0 (removed-IsCounted held c s rest r k)) in
    record {
      counted = freed.counted;
      pages_kept = λ w. omega (
        arith,
        freed.pages_kept w,
        give_page_weight w s.tail s.state c0,
        r.kept (λ t. tail_weight w t.tail),
      );
      states_kept = λ w. omega (
        arith,
        freed.states_kept w,
        give_state_weight w s.tail s.state c0,
        r.kept (λ t. w t.state),
      );
    }

drop_ref-snaps : (c : HostCache) (id : ℕ) → (drop_ref c id).snaps ≡ c.snaps
unfolding drop_ref
drop_ref-snaps c id = ground arith

drop_refs-snaps : (ids : List ℕ) (c : HostCache) → (drop_refs ids c).snaps ≡ c.snaps
unfolding drop_refs
drop_refs-snaps [] c = refl
drop_refs-snaps (id ∷ ids) c = drop_refs-snaps ids (drop_ref c id) ∙ drop_ref-snaps c id

give_snaps :
    (t : Option Slot) (slot : Slot) (c : HostCache)
    → (give_tail t (give_state slot c)).snaps ≡ c.snaps
give_snaps none slot c = refl
give_snaps (some t) slot c = refl

release-snaps : (c : HostCache) (s : Snapshot) → (release c s).snaps ≡ c.snaps
unfolding release
release-snaps c s =
    drop_refs-snaps s.pages (give_tail s.tail (give_state s.state c)) ∙ give_snaps s.tail s.state c

-- One eviction, with references `held` by what is under way.
pub record Evicts (held : List ℕ) (c : HostCache) (out : HostCache × Bool) : Type 0 where
  pub keeps : Keeps held c out.0
  pub fewer : (id : ℕ) → uses id out.0.snaps ≤ uses id c.snaps
  pub fewer_all : all_uses out.0.snaps ≤ all_uses c.snaps
  pub none_left : out.1 ≡ false → (c.snaps ≡ []) × (out.0 ≡ c)
  pub one_less : out.1 ≡ true → suc (length out.0.snaps) ≡ length c.snaps

nothing_evicted :
    (held : List ℕ) (c : HostCache) → IsCounted held c → c.snaps ≡ [] → Evicts held c (c, false)
nothing_evicted held c k e = record {
  keeps = record { counted = k; pages_kept = λ w. refl; states_kept = λ w. refl };
  fewer = λ id. omega arith;
  fewer_all = omega arith;
  none_left = λ h. (e, refl);
  one_less = λ h. absurd (cc);
}

map_empty : (snaps : List Snapshot) → map key_of snaps ≡ [] → snaps ≡ []
map_empty [] h = refl
map_empty (s ∷ snaps) h = absurd (cc)

IsCounted-stats :
    (held : List ℕ) (c : HostCache) (n : Stats)
    → IsCounted held c
    → IsCounted held (record c { stats = n })
IsCounted-stats held c n k = record {
  unique = k.unique;
  exact = k.exact;
  positive = k.positive;
  bounded = k.bounded;
}

one_evicted :
    (held : List ℕ) (c : HostCache) (s : Snapshot) (rest : List Snapshot) (n : Stats)
    → Removes c.snaps s rest
    → IsCounted held c
    → Evicts held c (record (release (record c { snaps = rest }) s) { stats = n }, true)
one_evicted held c s rest n r k =
    let out = release-Keeps held c s rest r k in
    let same = release-snaps (record c { snaps = rest }) s in
    record {
      keeps = record {
        counted = IsCounted-stats held _ n out.counted;
        pages_kept = out.pages_kept;
        states_kept = out.states_kept;
      };
      fewer = λ id. rw same (omega (arith, r.kept (λ t. count id t.pages)));
      fewer_all = rw same (omega (arith, r.kept (λ t. length t.pages)));
      none_left = λ h. absurd (cc);
      one_less = λ h. rw same r.shorter;
    }

pub evict_one-Evicts :
    (held : List ℕ) (c : HostCache) → IsCounted held c → Evicts held c (evict_one c)
unfolding evict_one
evict_one-Evicts held c k = elim (Option-cases (victim (map key_of c.snaps))) [
  | inl e ↦
      let picks = rw e at (victim-Picks (map key_of c.snaps)) in
      rw (e, evict_one) (nothing_evicted held c k (map_empty c.snaps picks))
  | inr (i, e) ↦
      let picks = rw e at (victim-Picks (map key_of c.snaps)) in
      let (s, rest, taken, here, r) =
        swap_remove-Removes i c.snaps (omega (arith, picks.2, length-map c.snaps key_of)) in
      rw (e, evict_one) (rw (taken) (one_evicted held c s rest _ r k))
]
