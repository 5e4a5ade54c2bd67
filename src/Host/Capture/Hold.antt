-- ===== src/Host/Capture/Hold.antt =====
-- crates/mimo26-coordinator/src/hostcache.rs: the pages that a capture shares or writes.
use mimo26f_afd.Prelude.{
  ℕ, ◌+◌, ◌*◌, ◌^◌, ◌≤◌, ◌<◌, ◌≡◌, refl, ◌∙◌, Option, none, some, List, [], ◌∷◌, ◌++◌, length,
  length-append, Result-cases, arith, Option-cases, inl, inr, ℕ_eq, ==_iff, sum_by,
}
use Prim.Native.String.{String}
use mimo26f_afd.Word.{add32}
use mimo26f_afd.Dict
use mimo26f_afd.Dict.{IsUnique}
use mimo26f_afd.Dict.Laws.{get-insert, insert-IsUnique, weight-insert, weight-replace}
use mimo26f_afd.Host.{Slot, Page, HostCache, alloc_page, kv_page_rows}
use mimo26f_afd.Host.Device.{Device}
use mimo26f_afd.Host.Capture.{Outcome, all_held, exhausted, failed, write_slot, hold_pages}
use mimo26f_afd.Host.Counts.{
  count, uses, all_uses, refs_at, refs_at-insert, IsCounted, page_weight, state_weight,
  count-le-length, uses-le-all_uses,
}
use mimo26f_afd.Host.Evict.{count-append}
use mimo26f_afd.Host.Alloc.{AllocsPage, alloc_page-AllocsPage}

refs_none : (id : ℕ) (c : HostCache) → Dict.get id c.page_map ≡ none → refs_at id c.page_map ≡ 0
refs_none id c e = ground arith

none_of_refs :
    (id : ℕ) (held : List ℕ) (c : HostCache)
    → IsCounted held c
    → refs_at id c.page_map ≡ 0
    → Dict.get id c.page_map ≡ none
none_of_refs id held c k e = elim (Option-cases (Dict.get id c.page_map)) [
  | inl h ↦ h
  | inr (p, h) ↦ absurd (ground (arith, k.positive id p h))
]

module _ (id : ℕ) (held : List ℕ) (c : HostCache) (k : IsCounted held c)
    (room : length held + 1 + all_uses c.snaps < 2 ^ 32) where
  -- A page that the table has gets one more reference.
  shared :
      (p : Page)
      → Dict.get id c.page_map ≡ some p
      → IsCounted
          (held ++ (id ∷ []))
          (record c { page_map = Dict.insert id (record p { refs = add32 p.refs 1 }) c.page_map })
  shared p here =
      let total : p.refs ≡ count id held + uses id c.snaps = ground (arith, k.exact id) in
      let more : add32 p.refs 1 ≡ p.refs + 1 =
        omega (arith, count-le-length id held, uses-le-all_uses id c.snaps) in
      record {
        unique = insert-IsUnique id _ c.page_map k.unique;
        exact = λ j. ground (
          arith,
          refs_at-insert id j (record p { refs = add32 p.refs 1 }) c.page_map,
          k.exact j,
          count-append j held (id ∷ []),
          ==_iff id j,
        );
        positive = λ j q e. ground (
          arith,
          get-insert id j (record p { refs = add32 p.refs 1 }) c.page_map,
          k.positive j q,
        );
        bounded = omega (arith, length-append held (id ∷ []));
      }

  shared_weight :
      (w : Slot → ℕ) (p : Page)
      → Dict.get id c.page_map ≡ some p
      → page_weight w
          (record c { page_map = Dict.insert id (record p { refs = add32 p.refs 1 }) c.page_map })
        ≡ page_weight w c
  shared_weight w p here = omega (
    arith,
    weight-replace (λ (e : ℕ × Page). w e.1.slot) id (record p { refs = add32 p.refs 1 }) p
        c.page_map k.unique here,
  )

  -- A page that the table lacks gets a slot, and the one reference to it.
  written :
      (slot : Slot) (b : List ℕ)
      → Dict.get id c.page_map ≡ none
      → IsCounted (held ++ (id ∷ [])) (record c {
        pages = write_slot slot b c.pages;
        page_map = Dict.insert id (record { slot = slot; refs = 1 }) c.page_map;
      })
  written slot b here = record {
    unique = insert-IsUnique id _ c.page_map k.unique;
    exact = λ j. ground (
      arith,
      refs_at-insert id j (record { slot = slot; refs = 1 }) c.page_map,
      k.exact j,
      k.exact id,
      refs_none id c here,
      count-append j held (id ∷ []),
      ==_iff id j,
    );
    positive = λ j q e.
        ground
          (arith, get-insert id j (record { slot = slot; refs = 1 }) c.page_map, k.positive j q);
    bounded = omega (arith, length-append held (id ∷ []));
  }

abbrev pub DidNotFail : Outcome → Type 0
DidNotFail all_held = Unit {0}
DidNotFail exhausted = Unit {0}
DidNotFail (failed e) = ⊥

-- Where the loop ends, its references are counted, and a slot is lost just where an export failed.
pub record Holds (c : HostCache) (out : HostCache × List ℕ × ℕ × Outcome) : Type 0 where
  pub counted : IsCounted out.1 out.0
  pub lost : List Slot
  pub pages_kept : (w : Slot → ℕ) → page_weight w out.0 + sum_by w lost ≡ page_weight w c
  pub states_kept : (w : Slot → ℕ) → state_weight w out.0 ≡ state_weight w c
  pub none_lost : DidNotFail out.3 → lost ≡ []
  pub one_lost : (e : String) → out.3 ≡ failed e → (slot : Slot) × (lost ≡ slot ∷ [])

after_step :
    (c d : HostCache) (out : HostCache × List ℕ × ℕ × Outcome)
    → ((w : Slot → ℕ) → page_weight w d ≡ page_weight w c)
    → ((w : Slot → ℕ) → state_weight w d ≡ state_weight w c)
    → Holds d out
    → Holds c out
after_step c d out p s h = record {
  counted = h.counted;
  lost = h.lost;
  pages_kept = λ w. h.pages_kept w ∙ p w;
  states_kept = λ w. h.states_kept w ∙ s w;
  none_lost = h.none_lost;
  one_lost = h.one_lost;
}

still_none :
    (id : ℕ) (held : List ℕ) (c d : HostCache)
    → IsCounted held c
    → IsCounted held d
    → uses id d.snaps ≤ uses id c.snaps
    → Dict.get id c.page_map ≡ none
    → Dict.get id d.page_map ≡ none
still_none id held c d k l fewer e =
    none_of_refs id held d l (omega (arith, l.exact id, k.exact id, refs_none id c e))

pub allocated_as :
    (held : List ℕ) (c : HostCache) (out : HostCache × Option Slot) (o : Option Slot)
    → out.1 ≡ o
    → AllocsPage held c out
    → AllocsPage held c (out.0, o)
allocated_as held c out o e al = rw (← e) al

module _ (d : Device) (kv : d.Kv) where
  open d use {export_ga_page}

  stopped :
      (c : HostCache) (held : List ℕ) (n : ℕ) (a : HostCache)
      → AllocsPage held c (a, none)
      → Holds c (a, held, n, exhausted)
  stopped c held n a al = record {
    counted = al.counted;
    lost = [];
    pages_kept = al.pages_kept;
    states_kept = al.states_kept;
    none_lost = λ h. refl;
    one_lost = λ e h. absurd (cc);
  }

  exported_or_lost :
      (c : HostCache) (held : List ℕ) (n : ℕ) (slot : Slot) (a : HostCache) (e : String)
      → AllocsPage held c (a, some slot)
      → Holds c (a, held, n, failed e)
  exported_or_lost c held n slot a e al = record {
    counted = al.counted;
    lost = slot ∷ [];
    pages_kept = λ w. omega (arith, al.pages_kept w);
    states_kept = al.states_kept;
    none_lost = λ h. absurd h;
    one_lost = λ other h. (slot, refl);
  }

  pub hold_pages-Holds :
      (i : ℕ) (chain held : List ℕ) (n : ℕ) (c : HostCache)
      → IsCounted held c
      → length held + length chain + all_uses c.snaps < 2 ^ 32
      → Holds c (hold_pages d kv i chain held n c)
  unfolding hold_pages
  hold_pages-Holds i [] held n c k room = record {
    counted = k;
    lost = [];
    pages_kept = λ w. omega arith;
    states_kept = λ w. refl;
    none_lost = λ h. refl;
    one_lost = λ e h. absurd (cc);
  }
  hold_pages-Holds i (id ∷ chain) held n c k room = elim (Option-cases (Dict.get id c.page_map)) [
    | inr (p, here) ↦
        let next = record c {
          page_map = Dict.insert id (record p { refs = add32 p.refs 1 }) c.page_map;
        } in
        let go =
          hold_pages-Holds (i + 1) chain (held ++ (id ∷ [])) n next
            (shared id held c k (omega arith) p here)
            (omega (arith, length-append held (id ∷ []))) in
        rw (here, hold_pages)
          (after_step c next _ (λ w. shared_weight id held c k (omega arith) w p here) (λ w. refl)
            go)
    | inl here ↦
        let a = (alloc_page c).0 in
        let al = alloc_page-AllocsPage held c k in
        elim (Option-cases (alloc_page c).1) [
          | inl full ↦
              rw (here, hold_pages)
                (rw (full, hold_pages) (stopped c held n a (allocated_as held c _ none full al)))
          | inr (slot, found) ↦
              let got = allocated_as held c (alloc_page c) (some slot) found al in
              elim (Result-cases (export_ga_page kv (i * kv_page_rows) kv_page_rows)) [
                | inr (e, bad) ↦
                    rw (here, hold_pages)
                      (rw (found, hold_pages) (rw bad (exported_or_lost c held n slot a e got)))
                | inl (b, good) ↦
                    let absent = still_none id held c a k got.counted (got.fewer id) here in
                    let small : length held + 1 + all_uses a.snaps < 2 ^ 32 =
                      omega (arith, got.fewer_all) in
                    let next = record a {
                      pages = write_slot slot b a.pages;
                      page_map = Dict.insert id (record { slot = slot; refs = 1 }) a.page_map;
                    } in
                    let go =
                      hold_pages-Holds (i + 1) chain (held ++ (id ∷ [])) (n + 1) next
                        (written id held a got.counted small slot b absent)
                        (omega (arith, length-append held (id ∷ []), got.fewer_all)) in
                    rw (here, hold_pages)
                      (rw (found, hold_pages)
                        (rw good (
                          after_step c next _
                            (λ w. omega (
                              arith,
                              got.pages_kept w,
                              weight-insert (λ (e : ℕ × Page). w e.1.slot) id
                                  (record { slot = slot; refs = 1 }) a.page_map absent,
                            ))
                            got.states_kept go)))
              ]
        ]
  ]
