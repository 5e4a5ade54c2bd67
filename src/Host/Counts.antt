-- ===== src/Host/Counts.antt =====
-- crates/mimo26-coordinator/src/hostcache.rs: references to pages, and slots, under `release` and
-- `evict_one`.
use mimo26f_afd.Prelude.{
  ℕ, zero, suc, ◌+◌, ◌-◌, ◌%◌, ◌^◌, ◌≤◌, ◌<◌, ◌≡◌, refl, ◌∙◌, ◌⊎◌, ◌==◌, if◌then◌else◌, Option,
  none, some, List, [], ◌∷◌, ◌++◌, length, Option-cases, inl, inr, arith, sum_by, ℕ_eq, ==_iff,
  false,
}
use mimo26f_afd.Word.{u32_mod}
use mimo26f_afd.Dict
use mimo26f_afd.Dict.{Dict, IsUnique}
use mimo26f_afd.Dict.Laws.{
  get-remove, get-insert, remove-IsUnique, insert-IsUnique, weight, weight-remove, weight-replace,
}
use mimo26f_afd.Host.{Slot, Page, Snapshot, HostCache, drop_ref, drop_refs}

abbrev pub one : ℕ → ℕ → ℕ
one id x = if x == id then 1 else 0

abbrev pub count : ℕ → List ℕ → ℕ
count id xs = sum_by (one id) xs

-- The references that the table counts for an id.
abbrev pub refs_at : ℕ → Dict ℕ Page → ℕ
refs_at id m = elim (Dict.get id m) [ none ↦ 0 | some p ↦ p.refs ]

-- The references that snapshots have.
abbrev pub uses : ℕ → List Snapshot → ℕ
uses id snaps = sum_by (λ s. count id s.pages) snaps

abbrev pub all_uses : List Snapshot → ℕ
all_uses snaps = sum_by (λ s. length s.pages) snaps

-- Beside the snapshots, `held` has references too: those of a capture or of a release that is under way.
pub record IsCounted (held : List ℕ) (c : HostCache) : Type 0 where
  pub unique : IsUnique c.page_map
  pub exact : (id : ℕ) → refs_at id c.page_map ≡ count id held + uses id c.snaps
  pub positive : (id : ℕ) (p : Page) → Dict.get id c.page_map ≡ some p → 0 < p.refs
  pub bounded : length held + all_uses c.snaps < 2 ^ 32

pub count-le-length : (id : ℕ) (xs : List ℕ) → count id xs ≤ length xs
count-le-length id [] = omega arith
count-le-length id (x ∷ xs) = ground (arith, count-le-length id xs)

pub uses-le-all_uses : (id : ℕ) (snaps : List Snapshot) → uses id snaps ≤ all_uses snaps
uses-le-all_uses id [] = omega arith
uses-le-all_uses id (s ∷ snaps) =
    omega (arith, uses-le-all_uses id snaps, count-le-length id s.pages)

-- A measure of slots, summed over the page slots that are free, in the table, or the tail of a snapshot.
abbrev pub tail_weight : (Slot → ℕ) → Option Slot → ℕ
tail_weight w none = 0
tail_weight w (some slot) = w slot

abbrev pub page_weight : (Slot → ℕ) → HostCache → ℕ
page_weight w c =
    sum_by w c.pages.free
    + weight (λ (e : ℕ × Page). w e.1.slot) c.page_map
    + sum_by (λ s. tail_weight w s.tail) c.snaps

-- The same over the state slots.
abbrev pub state_weight : (Slot → ℕ) → HostCache → ℕ
state_weight w c = sum_by w c.states.free + sum_by (λ s. w s.state) c.snaps

-- What an operation keeps that gives no reference away and takes no slot.
pub record Keeps (held : List ℕ) (c c' : HostCache) : Type 0 where
  pub counted : IsCounted held c'
  pub pages_kept : (w : Slot → ℕ) → page_weight w c' ≡ page_weight w c
  pub states_kept : (w : Slot → ℕ) → state_weight w c' ≡ state_weight w c

ℕ-cases : (n : ℕ) → (n ≡ 0) ⊎ ((m : ℕ) × (n ≡ suc m))
ℕ-cases zero = inl refl
ℕ-cases (suc m) = inr (m, refl)

found :
    (id : ℕ) (m : Dict ℕ Page) (n : ℕ)
    → refs_at id m ≡ suc n
    → (p : Page) × (Dict.get id m ≡ some p) × (p.refs ≡ suc n)
found id m n e = elim (Option-cases (Dict.get id m)) [
  | inl none_here ↦ absurd (ground arith)
  | inr (p, here) ↦ (p, here, ground arith)
]

drop_ref_last :
    (id : ℕ) (c : HostCache) (p : Page)
    → Dict.get id c.page_map ≡ some p
    → p.refs ≡ 1
    → drop_ref c id ≡ record c {
      page_map = Dict.remove id c.page_map;
      pages = record c.pages { free = p.slot ∷ c.pages.free };
    }
unfolding drop_ref
drop_ref_last id c p here last =
    let none_left : (p.refs + u32_mod - 1) % u32_mod ≡ 0 = omega arith in
    rw (here, drop_ref) (rw none_left refl)

drop_ref_more :
    (id : ℕ) (c : HostCache) (p : Page) (n : ℕ)
    → Dict.get id c.page_map ≡ some p
    → p.refs ≡ suc (suc n)
    → suc n < 2 ^ 32
    → drop_ref c id ≡ record c { page_map = Dict.insert id (record p { refs = suc n }) c.page_map }
unfolding drop_ref
drop_ref_more id c p n here more small =
    let left : (p.refs + u32_mod - 1) % u32_mod ≡ suc n = omega arith in
    let some_left : (suc n == 0) ≡ false = ground arith in
    rw (here, drop_ref) (rw (left, some_left) refl)

pub refs_at-remove :
    (id j : ℕ) (m : Dict ℕ Page)
    → refs_at j (Dict.remove id m) ≡ (if id == j then 0 else refs_at j m)
refs_at-remove id j m = ground (arith, get-remove id j m)

pub refs_at-insert :
    (id j : ℕ) (p : Page) (m : Dict ℕ Page)
    → refs_at j (Dict.insert id p m) ≡ (if id == j then p.refs else refs_at j m)
refs_at-insert id j p m = ground (arith, get-insert id j p m)

module _ (id : ℕ) (held : List ℕ) (c : HostCache) (k : IsCounted (id ∷ held) c) (p : Page)
    (here : Dict.get id c.page_map ≡ some p) where
  last-Keeps :
      p.refs ≡ 1
      → Keeps held c (record c {
        page_map = Dict.remove id c.page_map;
        pages = record c.pages { free = p.slot ∷ c.pages.free };
      })
  last-Keeps last = record {
    counted = record {
      unique = remove-IsUnique id c.page_map k.unique;
      exact = λ j.
          ground (
            arith,
            refs_at-remove id j c.page_map,
            k.exact j,
            ==_iff id j,
            ==_iff id id,
            k.exact id,
          );
      positive = λ j q e. ground (arith, get-remove id j c.page_map, k.positive j q);
      bounded = omega (arith, k.bounded);
    };
    pages_kept = λ w.
        omega (arith, weight-remove (λ (e : ℕ × Page). w e.1.slot) id p c.page_map k.unique here);
    states_kept = λ w. refl;
  }

  more-Keeps :
      (n : ℕ)
      → p.refs ≡ suc (suc n)
      → Keeps held c (record c { page_map = Dict.insert id (record p { refs = suc n }) c.page_map })
  more-Keeps n more = record {
    counted = record {
      unique = insert-IsUnique id _ c.page_map k.unique;
      exact = λ j. ground (
        arith,
        refs_at-insert id j (record p { refs = suc n }) c.page_map,
        k.exact j,
        ==_iff id j,
        ==_iff id id,
        k.exact id,
      );
      positive = λ j q e.
          ground (arith, get-insert id j (record p { refs = suc n }) c.page_map, k.positive j q);
      bounded = omega (arith, k.bounded);
    };
    pages_kept = λ w. omega (
      arith,
      weight-replace (λ (e : ℕ × Page). w e.1.slot) id (record p { refs = suc n }) p c.page_map
          k.unique here,
    );
    states_kept = λ w. refl;
  }

pub drop_ref-Keeps :
    (id : ℕ) (held : List ℕ) (c : HostCache)
    → IsCounted (id ∷ held) c
    → Keeps held c (drop_ref c id)
drop_ref-Keeps id held c k =
    let total : refs_at id c.page_map ≡ suc (count id held + uses id c.snaps) =
      ground (arith, k.exact id, ==_iff id id) in
    let (p, here, refs) = found id c.page_map _ total in
    elim (ℕ-cases (count id held + uses id c.snaps)) [
      | inl e ↦
          rw (drop_ref_last id c p here (omega arith)) (last-Keeps id held c k p here (omega arith))
      | inr (n, e) ↦
          rw
            (drop_ref_more id c p n here (omega arith)
              (omega (arith, k.bounded, count-le-length id held, uses-le-all_uses id c.snaps)))
            (more-Keeps id held c k p here n (omega arith))
    ]

Keeps-trans :
    (held : List ℕ) (a b c : HostCache)
    → (held' : List ℕ) → Keeps held' a b
    → Keeps held b c
    → Keeps held a c
Keeps-trans held a b c held' k l = record {
  counted = l.counted;
  pages_kept = λ w. l.pages_kept w ∙ k.pages_kept w;
  states_kept = λ w. l.states_kept w ∙ k.states_kept w;
}

pub drop_refs-Keeps :
    (ids held : List ℕ) (c : HostCache) → IsCounted (ids ++ held) c → Keeps held c (drop_refs ids c)
unfolding drop_refs
drop_refs-Keeps [] held c k = record {
  counted = k;
  pages_kept = λ w. refl;
  states_kept = λ w. refl;
}
drop_refs-Keeps (id ∷ ids) held c k =
    let first = drop_ref-Keeps id (ids ++ held) c k in
    Keeps-trans held c (drop_ref c id) (drop_refs ids (drop_ref c id)) (ids ++ held) first
      (drop_refs-Keeps ids held (drop_ref c id) first.counted)
