-- ===== src/Attn/Ring/Bound.antt =====
-- crates/mimo26-attn/src/cache.rs: the binary search `lower_bound_i64` and the minimum of a batch.
use mimo26f_afd.Prelude.{
  ℕ, true, false, zero, suc, ◌+◌, ◌-◌, ◌/◌, ◌≤◌, ◌<◌, ◌≡◌, refl, inl, inr, Bool-cases, arith, ltb,
  List, [], ◌∷◌, ◌++◌, length, length-append, drop, get_or, ap,
}
use mimo26f_afd.Int.{ℤ, pos, pos_part, neg_part, ltb_ℤ}
use mimo26f_afd.Attn.Ring.{bound_loop, lower_bound, least_from, least}

abbrev pub at_index : List ℤ → ℕ → ℤ
at_index v i = get_or v i (pos 0)

-- No later element is less than an earlier one.
unfoldable pub Sorted : List ℤ → Type 0
Sorted v = (i j : ℕ) → i ≤ j → j < length v → ltb_ℤ (at_index v j) (at_index v i) ≡ false

-- The index `k` parts the elements less than `x` from the others.
pub record Parts (v : List ℤ) (x : ℤ) (k : ℕ) : Type 0 where
  pub inside : k ≤ length v
  pub less : (i : ℕ) → i < k → ltb_ℤ (at_index v i) x ≡ true
  pub not_less : (i : ℕ) → k ≤ i → i < length v → ltb_ℤ (at_index v i) x ≡ false

ltb_ℤ-trans_left : (a b x : ℤ) → ltb_ℤ b a ≡ false → ltb_ℤ b x ≡ true → ltb_ℤ a x ≡ true
ltb_ℤ-trans_left a b x h g = ground arith

ltb_ℤ-trans_right : (a b x : ℤ) → ltb_ℤ b a ≡ false → ltb_ℤ a x ≡ false → ltb_ℤ b x ≡ false
ltb_ℤ-trans_right a b x h g = ground arith

bound_loop-Parts :
    (fuel : ℕ) (v : List ℤ) (x : ℤ) (lo hi : ℕ)
    → Sorted v
    → hi ≤ lo + fuel
    → lo ≤ hi
    → hi ≤ length v
    → ((i : ℕ) → i < lo → ltb_ℤ (at_index v i) x ≡ true)
    → ((i : ℕ) → hi ≤ i → i < length v → ltb_ℤ (at_index v i) x ≡ false)
    → Parts v x (bound_loop fuel v x lo hi)
unfolding bound_loop Sorted
bound_loop-Parts zero v x lo hi order enough le in_range left right = record {
  inside = omega arith;
  less = left;
  not_less = λ i p q. right i (omega arith) q;
}
bound_loop-Parts (suc fuel) v x lo hi order enough le in_range left right =
    let mid = (lo + hi) / 2 in
    elim (Bool-cases (ltb lo hi)) [
      | inl more ↦ elim (Bool-cases (ltb_ℤ (at_index v mid) x)) [
        | inl low ↦ rw more (
            rw low (
              bound_loop-Parts fuel v x (mid + 1) hi order (ground arith) (ground arith) in_range
                (λ i p.
                  ltb_ℤ-trans_left (at_index v i) (at_index v mid) x
                    (order i mid (omega arith) (ground arith)) low)
                right))
        | inr high ↦ rw more (
            rw high (
              bound_loop-Parts fuel v x lo mid order (ground arith) (ground arith) (ground arith)
                left
                (λ i p q.
                  ltb_ℤ-trans_right (at_index v mid) (at_index v i) x (order mid i p q) high)))
      ]
      | inr at_end ↦ rw at_end (record {
        inside = omega arith;
        less = left;
        not_less = λ i p q. right i (ground arith) q;
      })
    ]

-- On positions that never decrease the binary search stops at the index before which every position
-- is less than `x` and from which on none is.
pub lower_bound-Parts : (v : List ℤ) (x : ℤ) → Sorted v → Parts v x (lower_bound v x)
unfolding lower_bound
lower_bound-Parts v x order =
    bound_loop-Parts (length v) v x 0 (length v) order (omega arith) (omega arith) (omega arith)
      (λ i h. absurd (omega arith)) (λ i p q. absurd (omega arith))

-- Each element is less than the next.
unfoldable pub Increasing : List ℤ → Type 0
Increasing v = (i : ℕ) → suc i < length v → ltb_ℤ (at_index v i) (at_index v (suc i)) ≡ true

-- An increasing list of integers gains at least 1 at each step.
pub Increasing-gap :
    (v : List ℤ) (i d j : ℕ)
    → Increasing v
    → i + d ≡ j
    → j < length v
    → pos_part (at_index v i) + neg_part (at_index v j) + d
      ≤ pos_part (at_index v j) + neg_part (at_index v i)
unfolding Increasing
Increasing-gap v i zero j up e h = let same : i ≡ j = omega arith in rw same (omega arith)
Increasing-gap v i (suc d) zero up e h = absurd (omega arith)
Increasing-gap v i (suc d) (suc j) up e h =
    let before = Increasing-gap v i d j up (omega arith) (omega arith) in
    let step = up j h in ground arith

pub Increasing-Sorted : (v : List ℤ) → Increasing v → Sorted v
unfolding Sorted
Increasing-Sorted v up i j p q =
    let far = Increasing-gap v i (j - i) j up (omega arith) q in ground arith

least_from-first :
    (m : ℤ) (xs : List ℤ)
    → ((i : ℕ) → i < length xs → ltb_ℤ (at_index xs i) m ≡ false)
    → least_from m xs ≡ m
unfolding least_from
least_from-first m [] h = refl
least_from-first m (x ∷ xs) h =
    let first : ltb_ℤ x m ≡ false = h 0 (omega arith) in
    rw first (least_from-first m xs (λ i p. h (suc i) (omega arith)))

drop_old : {A : Type 0} (xs ys : List A) (n : ℕ) → n ≡ length xs → drop n (xs ++ ys) ≡ ys
drop_old [] ys zero h = refl
drop_old [] ys (suc n) h = absurd (omega arith)
drop_old (x ∷ xs) ys zero h = absurd (omega arith)
drop_old (x ∷ xs) ys (suc n) h = drop_old xs ys n (omega arith)

pub get_old : (xs ys : List ℤ) (i j : ℕ) → j ≡ length xs + i → at_index (xs ++ ys) j ≡ at_index ys i
get_old [] ys i j h = ap (at_index ys) (omega arith)
get_old (x ∷ xs) ys i zero h = absurd (omega arith)
get_old (x ∷ xs) ys i (suc j) h = get_old xs ys i j (omega arith)

-- The minimum of a batch that continues a sorted list is its first position.
pub least-batch :
    (xs ys : List ℤ) (y : ℤ)
    → Sorted (xs ++ (y ∷ ys))
    → least (drop (length (xs ++ (y ∷ ys)) - length (y ∷ ys)) (xs ++ (y ∷ ys))) ≡ y
unfolding least Sorted
least-batch xs ys y order =
    let n = length-append xs (y ∷ ys) in
    rw (drop_old xs (y ∷ ys) (length (xs ++ (y ∷ ys)) - length (y ∷ ys)) (omega arith)) (
      least_from-first y ys (λ i p.
        let first = get_old xs (y ∷ ys) 0 (length xs) (omega arith) in
        let later = get_old xs (y ∷ ys) (suc i) (length xs + suc i) refl in
        let fact = order (length xs) (length xs + suc i) (omega arith) (omega arith) in
        let with_later = rw later at fact in rw first at with_later))
