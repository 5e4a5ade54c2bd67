-- ===== src/Host/Victim.antt =====
-- crates/mimo26-coordinator/src/hostcache.rs: which snapshot `victim` picks.
use mimo26f_afd.Prelude.{
  Option, ◌⊎◌, ℕ, Bool, true, false, suc, ◌+◌, ◌<◌, ◌≡◌, refl, ap, none, some, List, [], ◌∷◌,
  get_elem?, arith, Bool-cases, inl, inr, length, ◌∙◌, sym,
}
use mimo26f_afd.Host.{Kind, prompt, turn, before, victim, victim_loop}

before_trans : (a b c : Kind × ℕ) → before a b ≡ true → before b c ≡ true → before a c ≡ true
before_trans (k, a) (l, b) (m, c) h g = ground arith

before_chain : (a b c : Kind × ℕ) → before a b ≡ true → before c b ≡ false → before a c ≡ true
before_chain (prompt, a) (prompt, b) (prompt, c) h g = ground arith
before_chain (prompt, a) (prompt, b) (turn, c) h g = ground arith
before_chain (prompt, a) (turn, b) (prompt, c) h g = ground arith
before_chain (prompt, a) (turn, b) (turn, c) h g = ground arith
before_chain (turn, a) (prompt, b) (prompt, c) h g = ground arith
before_chain (turn, a) (prompt, b) (turn, c) h g = ground arith
before_chain (turn, a) (turn, b) (prompt, c) h g = ground arith
before_chain (turn, a) (turn, b) (turn, c) h g = ground arith

-- `best`, with the key `key`, is the least of the first `i`, and the first of these.
pub record IsLeast (snaps : List (Kind × ℕ)) (i best : ℕ) (key : Kind × ℕ) : Type 0 where
  pub stands : get_elem? snaps best ≡ some key
  pub least : (j : ℕ) (k : Kind × ℕ) → j < i → get_elem? snaps j ≡ some k → before k key ≡ false
  pub first : (j : ℕ) (k : Kind × ℕ) → j < best → get_elem? snaps j ≡ some k → before key k ≡ true

before_self : (a : Kind × ℕ) → before a a ≡ false
before_self (prompt, a) = ground arith
before_self (turn, a) = ground arith

not_before : (a b c : Kind × ℕ) → before b c ≡ true → before a c ≡ false → before a b ≡ false
not_before a b c h g = elim (Bool-cases (before a b)) [
  | inl e ↦ absurd (false_true (sym g ∙ before_trans a b c e h))
  | inr e ↦ e
]
  where
    false_true : ◌≡◌ {A = Bool} false true → ⊥
    false_true e = cc

below_suc : (j i : ℕ) → j < suc i → (j < i) ⊎ (j ≡ i)
below_suc j i h = omega arith

module _ (all : List (Kind × ℕ)) where
  moved-IsLeast :
      (i best : ℕ) (key s : Kind × ℕ)
      → get_elem? all i ≡ some s
      → before s key ≡ true
      → best < i
      → IsLeast all i best key
      → IsLeast all (suc i) i s
  moved-IsLeast i best key s here h lt l = record {
    stands = here;
    least = λ j k below e. elim (below_suc j i below) [
      | inl old ↦ not_before k s key h (l.least j k old e)
      | inr new ↦ let same : k ≡ s = cc (ap (get_elem? all) new) in rw same (before_self s)
    ];
    first = λ j k old e. before_chain s key k h (l.least j k old e);
  }

  stays-IsLeast :
      (i best : ℕ) (key s : Kind × ℕ)
      → get_elem? all i ≡ some s
      → before s key ≡ false
      → IsLeast all i best key
      → IsLeast all (suc i) best key
  stays-IsLeast i best key s here h l = record {
    stands = l.stands;
    least = λ j k below e. elim (below_suc j i below) [
      | inl old ↦ l.least j k old e
      | inr new ↦ let same : k ≡ s = cc (ap (get_elem? all) new) in rw same h
    ];
    first = l.first;
  }

  victim_loop-IsLeast :
      (i best : ℕ) (key : Kind × ℕ) (rest : List (Kind × ℕ))
      → ((m : ℕ) → get_elem? all (i + m) ≡ get_elem? rest m)
      → best < i
      → IsLeast all i best key
      → (k : Kind × ℕ) × IsLeast all (i + length rest) (victim_loop i best key rest) k
        × (victim_loop i best key rest < i + length rest)
  unfolding victim_loop
  victim_loop-IsLeast i best key [] tail lt l =
      let same : i + 0 ≡ i = omega arith in (key, rw same l, omega arith)
  victim_loop-IsLeast i best key (s ∷ rest) tail lt l =
      let here : get_elem? all i ≡ some s = ap (get_elem? all) (omega arith) ∙ tail 0 in
      let next : (m : ℕ) → get_elem? all (suc i + m) ≡ get_elem? rest m =
        λ m. ap (get_elem? all) (omega arith) ∙ tail (suc m) in
      let same : i + suc (length rest) ≡ suc i + length rest = omega arith in
      elim (Bool-cases (before s key)) [
        | inl h ↦
            let go =
              victim_loop-IsLeast (suc i) i s rest next (omega arith)
                (moved-IsLeast i best key s here h lt l) in
            rw (h, same) go
        | inr h ↦
            let go =
              victim_loop-IsLeast (suc i) best key rest next (omega arith)
                (stays-IsLeast i best key s here h l) in
            rw (h, same) go
      ]

-- What `victim` answers on the keys of the snapshots.
abbrev pub Picks : List (Kind × ℕ) → Option ℕ → Type 0
Picks snaps none = snaps ≡ []
Picks snaps (some i) = (k : Kind × ℕ) × IsLeast snaps (length snaps) i k × (i < length snaps)

-- `victim` answers nothing exactly where there is no snapshot. Otherwise it answers the index of a
-- snapshot before which no other comes, by last use and then prompt snapshots before turn snapshots, and
-- the first of those.
pub victim-Picks : (snaps : List (Kind × ℕ)) → Picks snaps (victim snaps)
unfolding victim
victim-Picks [] = refl
victim-Picks (s ∷ snaps) =
    let start : IsLeast (s ∷ snaps) 1 0 s = record {
      stands = refl;
      least = λ j k h e.
          (let zero_j : j ≡ 0 = omega arith in
            let same : k ≡ s = cc (ap (get_elem? (s ∷ snaps)) zero_j) in rw same (before_self s));
      first = λ j k h e. absurd (omega arith);
    } in
    let next : (m : ℕ) → get_elem? (s ∷ snaps) (1 + m) ≡ get_elem? snaps m =
      λ m. (let same : 1 + m ≡ suc m = omega arith in ap (get_elem? (s ∷ snaps)) same) in
    let go = victim_loop-IsLeast (s ∷ snaps) 1 0 s snaps next (omega arith) start in
    let same : suc (length snaps) ≡ 1 + length snaps = omega arith in rw same go
