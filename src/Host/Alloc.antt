-- ===== src/Host/Alloc.antt =====
-- crates/mimo26-coordinator/src/hostcache.rs: `alloc_page` and `alloc_state` end, and account for slots.
use mimo26f_afd.Prelude.{
  ℕ, Bool, true, false, zero, suc, ◌+◌, ◌≤◌, ◌<◌, ◌≡◌, refl, ap, ◌∙◌, Option, none, some, List, [],
  ◌∷◌, length, arith, Bool-cases, List-cases, inl, inr, if◌then◌else◌,
}
use mimo26f_afd.Host.{
  Slot, HostCache, evict_one, alloc_page, alloc_page_loop, alloc_state, alloc_state_loop,
}
use mimo26f_afd.Host.Counts.{uses, all_uses, IsCounted, tail_weight, page_weight, state_weight}
use mimo26f_afd.Host.Evict.{Evicts, evict_one-Evicts}

-- An allocation of a page slot: the slot that it answers has left the cache, and nothing else has. It
-- answers none only where every snapshot is gone and no slot is free.
pub record AllocsPage (held : List ℕ) (c : HostCache) (out : HostCache × Option Slot) : Type 0 where
  pub counted : IsCounted held out.0
  pub pages_kept : (w : Slot → ℕ) → page_weight w out.0 + tail_weight w out.1 ≡ page_weight w c
  pub states_kept : (w : Slot → ℕ) → state_weight w out.0 ≡ state_weight w c
  pub fewer : (id : ℕ) → uses id out.0.snaps ≤ uses id c.snaps
  pub fewer_all : all_uses out.0.snaps ≤ all_uses c.snaps
  pub none_left : out.1 ≡ none → (out.0.snaps ≡ []) × (out.0.pages.free ≡ [])

-- The same for a state slot.
pub record AllocsState (held : List ℕ) (c : HostCache) (out : HostCache × Option Slot)
    : Type 0 where
  pub counted : IsCounted held out.0
  pub pages_kept : (w : Slot → ℕ) → page_weight w out.0 ≡ page_weight w c
  pub states_kept : (w : Slot → ℕ) → state_weight w out.0 + tail_weight w out.1 ≡ state_weight w c
  pub fewer : (id : ℕ) → uses id out.0.snaps ≤ uses id c.snaps
  pub fewer_all : all_uses out.0.snaps ≤ all_uses c.snaps
  pub none_left : out.1 ≡ none → (out.0.snaps ≡ []) × (out.0.states.free ≡ [])

module _ (held : List ℕ) where
  page_taken :
      (c : HostCache) (slot : Slot) (free : List Slot)
      → c.pages.free ≡ slot ∷ free
      → IsCounted held c
      → AllocsPage held c (record c { pages = record c.pages { free = free } }, some slot)
  page_taken c slot free e k = record {
    counted = record {
      unique = k.unique;
      exact = k.exact;
      positive = k.positive;
      bounded = k.bounded;
    };
    pages_kept = λ w. rw e (omega arith);
    states_kept = λ w. refl;
    fewer = λ id. omega arith;
    fewer_all = omega arith;
    none_left = λ h. absurd (cc);
  }

  page_evicted :
      (c d : HostCache) (out : HostCache × Option Slot)
      → Evicts held c (d, true)
      → AllocsPage held d out
      → AllocsPage held c out
  page_evicted c d out v a = record {
    counted = a.counted;
    pages_kept = λ w. a.pages_kept w ∙ v.keeps.pages_kept w;
    states_kept = λ w. a.states_kept w ∙ v.keeps.states_kept w;
    fewer = λ id. omega (arith, a.fewer id, v.fewer id);
    fewer_all = omega (arith, a.fewer_all, v.fewer_all);
    none_left = a.none_left;
  }

  page_not_taken :
      (c d : HostCache) → Evicts held c (d, false) → c.pages.free ≡ [] → AllocsPage held c (d, none)
  page_not_taken c d v e = record {
    counted = v.keeps.counted;
    pages_kept = λ w. omega (arith, v.keeps.pages_kept w);
    states_kept = v.keeps.states_kept;
    fewer = v.fewer;
    fewer_all = v.fewer_all;
    none_left = λ h.
        (let (gone, same) = v.none_left refl in
          (
            ap (λ (x : HostCache). x.snaps) same ∙ gone,
            ap (λ (x : HostCache). x.pages.free) same ∙ e,
          ));
  }

pub page_hit :
    (fuel : ℕ) (c : HostCache) (slot : Slot) (free : List Slot)
    → c.pages.free ≡ slot ∷ free
    → alloc_page_loop (suc fuel) c
      ≡ (record c { pages = record c.pages { free = free } }, some slot)
unfolding alloc_page_loop
page_hit fuel c slot free e = rw (e, alloc_page_loop) refl

page_miss :
    (fuel : ℕ) (c : HostCache)
    → c.pages.free ≡ []
    → alloc_page_loop (suc fuel) c
      ≡ (if (evict_one c).1 then alloc_page_loop fuel (evict_one c).0 else ((evict_one c).0, none))
unfolding alloc_page_loop
page_miss fuel c e = ground arith

evicted_as :
    (held : List ℕ) (c : HostCache) (b : Bool)
    → (evict_one c).1 ≡ b
    → Evicts held c (evict_one c)
    → Evicts held c ((evict_one c).0, b)
evicted_as held c b e v = record {
  keeps = v.keeps;
  fewer = v.fewer;
  fewer_all = v.fewer_all;
  none_left = λ h. v.none_left (e ∙ h);
  one_less = λ h. v.one_less (e ∙ h);
}

alloc_page_loop-AllocsPage :
    (held : List ℕ) (fuel : ℕ) (c : HostCache)
    → length c.snaps < fuel
    → IsCounted held c
    → AllocsPage held c (alloc_page_loop fuel c)
alloc_page_loop-AllocsPage held zero c h k = absurd (omega arith)
alloc_page_loop-AllocsPage held (suc fuel) c h k = elim (List-cases c.pages.free) [
  | inr (slot, free, e) ↦ rw (page_hit fuel c slot free e) (page_taken held c slot free e k)
  | inl e ↦
      let v = evict_one-Evicts held c k in
      elim (Bool-cases (evict_one c).1) [
        | inl more ↦
            let go =
              alloc_page_loop-AllocsPage held fuel (evict_one c).0 (omega (arith, v.one_less more))
                v.keeps.counted in
            rw (page_miss fuel c e, more)
              (page_evicted held c (evict_one c).0 _ (evicted_as held c true more v) go)
        | inr done ↦
            rw (page_miss fuel c e, done)
              (page_not_taken held c (evict_one c).0 (evicted_as held c false done v) e)
      ]
]

-- With the references counted, `alloc_page` ends and keeps them counted. The slot that it answers is
-- the only one that leaves the page slots, state slots stay, and it answers none only where no snapshot
-- and no free page slot is left.
pub alloc_page-AllocsPage :
    (held : List ℕ) (c : HostCache) → IsCounted held c → AllocsPage held c (alloc_page c)
unfolding alloc_page
alloc_page-AllocsPage held c k =
    alloc_page_loop-AllocsPage held (length c.snaps + 1) c (omega arith) k

module _ (held : List ℕ) where
  state_taken :
      (c : HostCache) (slot : Slot) (free : List Slot)
      → c.states.free ≡ slot ∷ free
      → IsCounted held c
      → AllocsState held c (record c { states = record c.states { free = free } }, some slot)
  state_taken c slot free e k = record {
    counted = record {
      unique = k.unique;
      exact = k.exact;
      positive = k.positive;
      bounded = k.bounded;
    };
    pages_kept = λ w. refl;
    states_kept = λ w. rw e (omega arith);
    fewer = λ id. omega arith;
    fewer_all = omega arith;
    none_left = λ h. absurd (cc);
  }

  state_evicted :
      (c d : HostCache) (out : HostCache × Option Slot)
      → Evicts held c (d, true)
      → AllocsState held d out
      → AllocsState held c out
  state_evicted c d out v a = record {
    counted = a.counted;
    pages_kept = λ w. a.pages_kept w ∙ v.keeps.pages_kept w;
    states_kept = λ w. a.states_kept w ∙ v.keeps.states_kept w;
    fewer = λ id. omega (arith, a.fewer id, v.fewer id);
    fewer_all = omega (arith, a.fewer_all, v.fewer_all);
    none_left = a.none_left;
  }

  state_not_taken :
      (c d : HostCache)
      → Evicts held c (d, false)
      → c.states.free ≡ []
      → AllocsState held c (d, none)
  state_not_taken c d v e = record {
    counted = v.keeps.counted;
    pages_kept = v.keeps.pages_kept;
    states_kept = λ w. omega (arith, v.keeps.states_kept w);
    fewer = v.fewer;
    fewer_all = v.fewer_all;
    none_left = λ h.
        (let (gone, same) = v.none_left refl in
          (
            ap (λ (x : HostCache). x.snaps) same ∙ gone,
            ap (λ (x : HostCache). x.states.free) same ∙ e,
          ));
  }

state_hit :
    (fuel : ℕ) (c : HostCache) (slot : Slot) (free : List Slot)
    → c.states.free ≡ slot ∷ free
    → alloc_state_loop (suc fuel) c
      ≡ (record c { states = record c.states { free = free } }, some slot)
unfolding alloc_state_loop
state_hit fuel c slot free e = rw (e, alloc_state_loop) refl

state_miss :
    (fuel : ℕ) (c : HostCache)
    → c.states.free ≡ []
    → alloc_state_loop (suc fuel) c
      ≡ (if (evict_one c).1 then alloc_state_loop fuel (evict_one c).0 else ((evict_one c).0, none))
unfolding alloc_state_loop
state_miss fuel c e = ground arith

alloc_state_loop-AllocsState :
    (held : List ℕ) (fuel : ℕ) (c : HostCache)
    → length c.snaps < fuel
    → IsCounted held c
    → AllocsState held c (alloc_state_loop fuel c)
alloc_state_loop-AllocsState held zero c h k = absurd (omega arith)
alloc_state_loop-AllocsState held (suc fuel) c h k = elim (List-cases c.states.free) [
  | inr (slot, free, e) ↦ rw (state_hit fuel c slot free e) (state_taken held c slot free e k)
  | inl e ↦
      let v = evict_one-Evicts held c k in
      elim (Bool-cases (evict_one c).1) [
        | inl more ↦
            let go =
              alloc_state_loop-AllocsState held fuel (evict_one c).0
                (omega (arith, v.one_less more)) v.keeps.counted in
            rw (state_miss fuel c e, more)
              (state_evicted held c (evict_one c).0 _ (evicted_as held c true more v) go)
        | inr done ↦
            rw (state_miss fuel c e, done)
              (state_not_taken held c (evict_one c).0 (evicted_as held c false done v) e)
      ]
]

-- With the references counted, `alloc_state` ends and keeps them counted. The slot that it answers is
-- the only one that leaves the state slots, page slots stay, and it answers none only where no snapshot
-- and no free state slot is left.
pub alloc_state-AllocsState :
    (held : List ℕ) (c : HostCache) → IsCounted held c → AllocsState held c (alloc_state c)
unfolding alloc_state
alloc_state-AllocsState held c k =
    alloc_state_loop-AllocsState held (length c.snaps + 1) c (omega arith) k
