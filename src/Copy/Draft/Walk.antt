-- ===== src/Copy/Draft/Walk.antt =====
-- The walk over earlier occurrences ends at one whose backward match is the longest of those tried.
use mimo26f_afd.Prelude.{
  ℕ, zero, suc, ◌+◌, ◌-◌, ◌≤◌, ◌<◌, ◌≡◌, ==_iff, leb, ◌&&◌, ◌⊎◌, inl, inr, ◌∙◌, Bool-cases, List,
  [], ◌∷◌, length, get_or, arith, ltb, ◌==◌, true, false, All, if◌then◌else◌,
}
use mimo26f_afd.Copy.{CopyIndex, match_len, extend, none_pos, extend_len, backward_len, walk}
use mimo26f_afd.Copy.Index.{IsIndex, EndsGram}

extend_len-le :
    (fuel len q : ℕ) (ctx : List ℕ)
    → (len ≤ extend_len fuel len q ctx) × (extend_len fuel len q ctx ≤ len + fuel)
unfolding extend_len
extend_len-le zero len q ctx = omega arith
extend_len-le (suc fuel) len q ctx = ground (arith, extend_len-le fuel (len + 1) q ctx)

pub backward_len_bounds :
    (q : ℕ) (ctx : List ℕ) → (match_len ≤ backward_len q ctx) × (backward_len q ctx ≤ extend)
unfolding backward_len
backward_len_bounds q ctx = omega (arith, extend_len-le (extend - match_len) match_len q ctx)

-- Past the gram, the context reads the same back from `q` as from its end, for `m` tokens.
abbrev pub AgreesBack : List ℕ → ℕ → ℕ → Type 0
AgreesBack ctx q m =
    (i : ℕ)
    → match_len ≤ i
    → i < m
    → (i ≤ q) × (get_or ctx (q - i) 0 ≡ get_or ctx (length ctx - 1 - i) 0)

-- A length that agrees in all but its last token, and in that one too.
one_more :
    (len q : ℕ) (ctx : List ℕ)
    → AgreesBack ctx q len
    → len ≤ q
    → get_or ctx (q - len) 0 ≡ get_or ctx (length ctx - 1 - len) 0
    → AgreesBack ctx q (len + 1)
one_more len q ctx before inside same i low lt = elim (Bool-cases (ltb i len)) [
  | inl less ↦ before i low (ground arith)
  | inr last ↦ let here : i ≡ len = ground arith in rw here (inside, same)
]

extend_len-AgreesBack :
    (fuel len q : ℕ) (ctx : List ℕ)
    → AgreesBack ctx q len
    → AgreesBack ctx q (extend_len fuel len q ctx)
unfolding extend_len
extend_len-AgreesBack zero len q ctx h = h
extend_len-AgreesBack (suc fuel) len q ctx h =
    let test =
      ltb len extend
      && (leb len q && get_or ctx (q - len) 0 == get_or ctx (length ctx - 1 - len) 0) in
    elim (Bool-cases test) [
      | inl more ↦ rw more (
          extend_len-AgreesBack fuel (len + 1) q ctx (
            one_more len q ctx h (ground arith) (
              ground
                (arith, ==_iff (get_or ctx (q - len) 0) (get_or ctx (length ctx - 1 - len) 0)))))
      | inr stop ↦ rw stop h
    ]

extend_len-most :
    (fuel len m q : ℕ) (ctx : List ℕ)
    → AgreesBack ctx q m
    → match_len ≤ len
    → m ≤ len + fuel
    → m ≤ extend
    → m ≤ extend_len fuel len q ctx
unfolding extend_len
extend_len-most zero len m q ctx h low few short = omega arith
extend_len-most (suc fuel) len m q ctx h low few short = elim (Bool-cases (ltb len m)) [
  | inl more ↦
      let (inside, same) = h len low (ground arith) in
      let in_extend : ltb len extend ≡ true = ground arith in
      let in_context : leb len q ≡ true = ground arith in
      let equal : (get_or ctx (q - len) 0 == get_or ctx (length ctx - 1 - len) 0) ≡ true =
        (==_iff _ _).1 same in
      rw (in_extend, in_context, equal)
        (extend_len-most fuel (len + 1) m q ctx h (omega arith) (omega arith) short)
  | inr done ↦ let at_least = extend_len-le (suc fuel) len q ctx in ground arith
]

-- What `backward_len` finds is the longest agreement of up to `extend` tokens.
pub backward_len-AgreesBack :
    (p q m : ℕ) (ctx : List ℕ)
    → backward_len q ctx ≤ backward_len p ctx
    → m ≤ extend
    → AgreesBack ctx q m
    → AgreesBack ctx p m
unfolding backward_len
backward_len-AgreesBack p q m ctx less short h i low lt =
    let most =
      extend_len-most (extend - match_len) match_len m q ctx h (omega arith) (omega arith) short in
    extend_len-AgreesBack (extend - match_len) match_len p ctx (λ j lo hi. absurd (omega arith)) i
      low (omega arith)

-- The first `left` occurrences from `p` on, newest first.
pub chain : ℕ → ℕ → List ℕ → List ℕ
chain zero p prev = []
chain (suc left) p prev =
    let rest = chain left (get_or prev p none_pos) prev in if p == none_pos then [] else p ∷ rest

-- An occurrence of the gram `g` that the index knows.
abbrev pub Occurs : List ℕ → CopyIndex → List ℕ → ℕ → Type 0
Occurs ctx c g p = (p < length c.prev) × EndsGram ctx p g

link-Occurs :
    (ctx g : List ℕ) (c : CopyIndex) (p : ℕ)
    → IsIndex ctx c
    → Occurs ctx c g p
    → (get_or c.prev p none_pos ≡ none_pos) ⊎ Occurs ctx c g (get_or c.prev p none_pos)
link-Occurs ctx g c p i (lt, (fits, same)) = elim (i.links p lt) [
  | inl e ↦ inl e
  | inr (lt', (fits', same')) ↦ inr (omega arith, (fits', same' ∙ same))
]

-- What the walk returns: an occurrence with a backward match at least as long as `at_least` and as
-- those of all the occurrences tried.
pub record Best (ctx g : List ℕ) (c : CopyIndex) (at_least : ℕ) (tried : List ℕ) (p : ℕ)
    : Type 0 where
  pub occurs : Occurs ctx c g p
  pub least : at_least ≤ backward_len p ctx
  pub longest : All (λ q. backward_len q ctx ≤ backward_len p ctx) tried

All-below :
    (p : ℕ) (ctx : List ℕ)
    → backward_len p ctx ≡ extend
    → (qs : List ℕ) → All (λ q. backward_len q ctx ≤ backward_len p ctx) qs
All-below p ctx full [] = tt
All-below p ctx full (q ∷ qs) = (omega (arith, backward_len_bounds q ctx), All-below p ctx full qs)

walk-Best :
    (left p best : ℕ) (ctx g : List ℕ) (c : CopyIndex)
    → IsIndex ctx c
    → (p ≡ none_pos) ⊎ Occurs ctx c g p
    → Occurs ctx c g best
    → Best ctx g c
        (backward_len best ctx)
        (chain left p c.prev)
        (walk left p best (backward_len best ctx) c.prev ctx)
unfolding walk chain
walk-Best zero p best ctx g c i hp hb = record { occurs = hb; least = omega arith; longest = tt }
walk-Best (suc left) p best ctx g c i (inl e) hb =
    rw e (record { occurs = hb; least = omega arith; longest = tt })
walk-Best (suc left) p best ctx g c i (inr hp) hb =
    let here : (p == none_pos) ≡ false = ground (arith, i.known, i.short, hp.0) in
    rw here (elim (Bool-cases (ltb (backward_len best ctx) (backward_len p ctx))) [
      | inl better ↦ elim (Bool-cases (backward_len p ctx == extend)) [
        | inl full ↦
            rw (better, full)
              (record {
                occurs = hp;
                least = ground arith;
                longest = (
                  omega arith,
                  All-below p ctx (ground arith) (chain left (get_or c.prev p none_pos) c.prev),
                );
              })
        | inr partly ↦
            let rest =
              walk-Best left (get_or c.prev p none_pos) p ctx g c i (link-Occurs ctx g c p i hp)
                hp in
            rw (better, partly)
              (record {
                occurs = rest.occurs;
                least = ground (arith, rest.least);
                longest = (rest.least, rest.longest);
              })
      ]
      | inr no_better ↦
          let rest =
            walk-Best left (get_or c.prev p none_pos) best ctx g c i (link-Occurs ctx g c p i hp)
              hb in
          rw no_better (record {
            occurs = rest.occurs;
            least = rest.least;
            longest = (ground (arith, rest.least), rest.longest);
          })
    ])

-- The walk as `propose` starts it, with nothing found yet.
pub walk-Best_newest :
    (left newest : ℕ) (ctx g : List ℕ) (c : CopyIndex)
    → IsIndex ctx c
    → Occurs ctx c g newest
    → Best ctx g c match_len
        (chain (suc left) newest c.prev)
        (walk (suc left) newest none_pos 0 c.prev ctx)
unfolding walk chain
walk-Best_newest left newest ctx g c i h =
    let here : (newest == none_pos) ≡ false = ground (arith, i.known, i.short, h.0) in
    let bounds = backward_len_bounds newest ctx in
    let better : ltb 0 (backward_len newest ctx) ≡ true = ground arith in
    rw (here, better)
      (elim (Bool-cases (backward_len newest ctx == extend)) [
        | inl full ↦ rw full (record {
          occurs = h;
          least = bounds.0;
          longest = (
            omega arith,
            All-below newest ctx (ground arith) (chain left (get_or c.prev newest none_pos) c.prev),
          );
        })
        | inr partly ↦
            let rest =
              walk-Best left (get_or c.prev newest none_pos) newest ctx g c i
                (link-Occurs ctx g c newest i h) h in
            rw partly (record {
              occurs = rest.occurs;
              least = omega (arith, rest.least);
              longest = (rest.least, rest.longest);
            })
      ])
