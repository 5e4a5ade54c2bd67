-- ===== src/Host/Lookup/Longest.antt =====
-- crates/mimo26-coordinator/src/hostcache.rs: which snapshot `lookup` finds.
use mimo26f_afd.Prelude.{
  ℕ, Bool, true, false, suc, ◌+◌, ◌≤◌, ◌<◌, ◌≡◌, refl, ap, ◌∙◌, ◌&&◌, leb, ◌⊎◌, Option, none, some,
  List, [], ◌∷◌, length, get_elem?, arith, Bool-cases, inl, inr, All,
}
use mimo26f_afd.Host.{Snapshot, HostCache}
use mimo26f_afd.Host.Lookup.{fits, lookup, longer_than, lookup_loop}
use mimo26f_afd.Host.Lookup.Chain.{IsPrefix, IsNamed, prefix_of_fits, fits_of_prefix}

-- The best of the first `i` snapshots: none where no one is a prefix of the prompt, and otherwise a
-- prefix that no other one of them is longer than.
abbrev pub Best : List Snapshot → List ℕ → ℕ → Option (ℕ × ℕ) → Type 0
Best all prompt i none =
    (j : ℕ) (s : Snapshot) → j < i → get_elem? all j ≡ some s → IsPrefix s prompt → ⊥
Best all prompt i (some (b, n)) =
    (s : Snapshot) × (get_elem? all b ≡ some s)
    × (length s.tokens ≡ n)
    × IsPrefix s prompt
    × ((j : ℕ) (t : Snapshot)
        → j < i
        → get_elem? all j ≡ some t
        → IsPrefix t prompt
        → length t.tokens ≤ n)

below_suc : (j i : ℕ) → j < suc i → (j < i) ⊎ (j ≡ i)
below_suc j i h = omega arith

module _ (lane : ℕ → ℕ → List ℕ → ℕ) (prompt : List ℕ) (all : List Snapshot) where
  -- The snapshot at `i` is a longer prefix.
  taken :
      (i : ℕ) (best : Option (ℕ × ℕ)) (s : Snapshot)
      → get_elem? all i ≡ some s
      → IsPrefix s prompt
      → longer_than best (length s.tokens) ≡ true
      → Best all prompt i best
      → Best all prompt (suc i) (some (i, length s.tokens))
  taken i none s here p l b = (
    s,
    here,
    refl,
    p,
    λ j t below e q. elim (below_suc j i below) [
      | inl old ↦ absurd (b j t old e q)
      | inr new ↦
          let same : t ≡ s = cc (ap (get_elem? all) new) in
          omega (arith, ap (λ (x : Snapshot). length x.tokens) same)
    ],
  )
  taken i (some (k, m)) s here p l b = (
    s,
    here,
    refl,
    p,
    λ j t below e q. elim (below_suc j i below) [
      | inl old ↦ (let le = b.4 j t old e q in ground arith)
      | inr new ↦
          let same : t ≡ s = cc (ap (get_elem? all) new) in
          omega (arith, ap (λ (x : Snapshot). length x.tokens) same)
    ],
  )

  -- The snapshot at `i` is no prefix, or not longer.
  passed :
      (i : ℕ) (best : Option (ℕ × ℕ)) (s : Snapshot)
      → get_elem? all i ≡ some s
      → (IsPrefix s prompt → longer_than best (length s.tokens) ≡ false)
      → Best all prompt i best
      → Best all prompt (suc i) best
  passed i none s here l b = λ j t below e q. elim (below_suc j i below) [
    | inl old ↦ b j t old e q
    | inr new ↦
        let same : t ≡ s = cc (ap (get_elem? all) new) in absurd (true_false (l (rw same at q)))
  ]
    where
      true_false : ◌≡◌ {A = Bool} true false → ⊥
      true_false e = cc
  passed i (some (k, m)) s here l b = (
    b.0,
    b.1,
    b.2,
    b.3,
    λ j t below e q. elim (below_suc j i below) [
      | inl old ↦ b.4 j t old e q
      | inr new ↦
          let same : t ≡ s = cc (ap (get_elem? all) new) in
          let no = l (rw same at q) in
          let size = ap (λ (x : Snapshot). length x.tokens) same in ground arith
    ],
  )

  lookup_loop-Best :
      (i : ℕ) (best : Option (ℕ × ℕ)) (rest : List Snapshot)
      → ((m : ℕ) → get_elem? all (i + m) ≡ get_elem? rest m)
      → All (IsNamed lane prompt) rest
      → Best all prompt i best
      → Best all prompt (i + length rest) (lookup_loop lane prompt i best rest)
  unfolding lookup_loop
  lookup_loop-Best i best [] tail k b = let same : i + 0 ≡ i = omega arith in rw same b
  lookup_loop-Best i best (s ∷ rest) tail (ks, k) b =
      let n = length s.tokens in
      let here : get_elem? all i ≡ some s = ap (get_elem? all) (omega arith) ∙ tail 0 in
      let next : (m : ℕ) → get_elem? all (i + 1 + m) ≡ get_elem? rest m =
        λ m. ap (get_elem? all) (omega arith) ∙ tail (suc m) in
      let same : i + suc (length rest) ≡ i + 1 + length rest = omega arith in
      let one : suc i ≡ i + 1 = omega arith in
      elim (Bool-cases (leb n (length prompt) && (longer_than best n && fits lane prompt s))) [
        | inl yes_fits ↦
            let short : n ≤ length prompt = ground arith in
            let p = prefix_of_fits lane prompt s ks short (ground arith) in
            let b' = rw one at (taken i best s here p (ground arith) b) in
            rw (same, yes_fits) (lookup_loop-Best (i + 1) (some (i, n)) rest next k b')
        | inr no_fits ↦
            let b' = rw one at (
              passed i best s here
                (λ p.
                  (let f = fits_of_prefix lane prompt s ks p.short p in
                    let le = p.short in ground arith))
                b) in
            rw (same, no_fits) (lookup_loop-Best (i + 1) best rest next k b')
      ]

-- Where each snapshot's pages are named for its tokens, and names of pages do not collide with those of
-- the prompt: `lookup` finds none exactly where no snapshot's tokens are a prefix of the prompt, and
-- otherwise a prefix of the greatest length, with that length.
pub lookup-Best :
    (lane : ℕ → ℕ → List ℕ → ℕ) (c : HostCache) (prompt : List ℕ)
    → All (IsNamed lane prompt) c.snaps
    → Best c.snaps prompt (length c.snaps) (lookup lane c prompt)
unfolding lookup
lookup-Best lane c prompt k =
    let start : Best c.snaps prompt 0 none = λ j s h e p. absurd (omega arith) in
    let same : 0 + length c.snaps ≡ length c.snaps = omega arith in
    let next : (m : ℕ) → get_elem? c.snaps (0 + m) ≡ get_elem? c.snaps m =
      λ m. ap (get_elem? c.snaps) (omega arith) in
    rw same at (lookup_loop-Best lane prompt c.snaps 0 none c.snaps next k start)
