-- ===== src/Attn/Ring/Evicted.antt =====
-- crates/mimo26-attn/src/cache.rs: which rows `SwaRing::evict_count` gives up.
use mimo26f_afd.Prelude.{
  ℕ, Bool, true, false, suc, ◌+◌, ◌-◌, ◌%◌, ◌^◌, ◌≤◌, ◌<◌, ◌≡◌, refl, inl, inr, Bool-cases, not, ap,
  arith, ltb, leb, List, ◌∷◌, ◌++◌, length, length-append, min, max,
}
use mimo26f_afd.Int.{ℤ, pos, negsuc, pos_part, neg_part, sub_ℕ, ltb_ℤ, ◌+ℤ◌, ◌-ℤ◌, wrap64}
use mimo26f_afd.Attn.{has, evict_keep_last}
use mimo26f_afd.Attn.Ring.{lower_bound, evict_count}
use mimo26f_afd.Attn.Ring.Bound.{
  at_index, Parts, lower_bound-Parts, Increasing, Increasing-gap, Increasing-Sorted, get_old,
  least-batch,
}

-- A query at `query` sees a row at `row` when `query - window < row`.
pub sees : ℕ → ℕ → ℤ → Bool
sees window query row = ltb (query + neg_part row) (pos_part row + window)

-- The first `count` rows are out of the window of a query at `query`, and no other is.
pub record Evicts (v : List ℤ) (window query count : ℕ) : Type 0 where
  pub inside : count ≤ length v
  pub hidden : (i : ℕ) → i < count → sees window query (at_index v i) ≡ false
  pub seen : (i : ℕ) → count ≤ i → i < length v → sees window query (at_index v i) ≡ true

wrap64_small : (n : ℕ) → n < 2 ^ 63 → wrap64 (pos n) ≡ pos n
unfolding wrap64
wrap64_small n h =
    let r : n % 2 ^ 64 ≡ n = omega arith in
    let low : ltb n (2 ^ 63) ≡ true = ground arith in rw r (rw low refl)

wrap64_negative : (n : ℕ) → n < 2 ^ 63 → wrap64 (negsuc n) ≡ negsuc n
unfolding wrap64
wrap64_negative n h =
    let r : n % 2 ^ 64 ≡ n = omega arith in
    let low : ltb n (2 ^ 63) ≡ true = ground arith in rw r (rw low refl)

wrap64-sub_ℕ : (a b : ℕ) → a < 2 ^ 63 → b ≤ 2 ^ 63 → wrap64 (sub_ℕ a b) ≡ sub_ℕ a b
wrap64-sub_ℕ a b h g = elim (Bool-cases (leb b a)) [
  | inl le ↦ rw le (wrap64_small (a - b) (ground arith))
  | inr more ↦ rw more (wrap64_negative (b - a - 1) (ground arith))
]

sub_ℕ-cancel : (a b c d : ℕ) → a + d ≡ c + b → sub_ℕ a b ≡ sub_ℕ c d
sub_ℕ-cancel a b c d h = elim (Bool-cases (leb b a)) [
  | inl le ↦
      let also : leb d c ≡ true = ground arith in
      let same : a - b ≡ c - d = ground arith in rw le (rw also (ap pos same))
  | inr more ↦
      let also : leb d c ≡ false = ground arith in
      let same : b - a - 1 ≡ d - c - 1 = ground arith in rw more (rw also (ap negsuc same))
]

sub_ℕ-add : (a b c : ℕ) → sub_ℕ a b +ℤ pos c ≡ sub_ℕ (a + c) b
unfolding ◌+ℤ◌
sub_ℕ-add a b c = elim (Bool-cases (leb b a)) [
  | inl le ↦ rw le (sub_ℕ-cancel (a - b + c) (0 + 0) (a + c) b (ground arith))
  | inr more ↦ rw more (sub_ℕ-cancel (0 + c) (suc (b - a - 1) + 0) (a + c) b (ground arith))
]

keep_from_lem :
    (p w : ℕ)
    → p < 2 ^ 63
    → 1 ≤ w
    → w < 2 ^ 63
    → wrap64 (wrap64 (pos p -ℤ wrap64 (pos w)) +ℤ pos 1) ≡ sub_ℕ (p + 1) w
unfolding ◌-ℤ◌
keep_from_lem p w h lo hi =
    let start : pos p -ℤ pos w ≡ sub_ℕ p w = sub_ℕ-cancel (p + 0) (0 + w) p w (omega arith) in
    let again : sub_ℕ (p + 1) w ≡ sub_ℕ p (w - 1) =
      sub_ℕ-cancel (p + 1) w p (w - 1) (omega arith) in
    rw (wrap64_small w hi) (
      rw start (
        rw (wrap64-sub_ℕ p w h (omega arith))
          (rw (sub_ℕ-add p w 1) (rw again (wrap64-sub_ℕ p (w - 1) h (omega arith))))))

keep_from-sees : (p w : ℕ) (a : ℤ) → ltb_ℤ a (sub_ℕ (p + 1) w) ≡ not (sees w p a)
unfolding sees
keep_from-sees p w a = elim (Bool-cases (leb w (p + 1))) [
  | inl le ↦ rw le (ground arith)
  | inr more ↦ rw more (ground arith)
]

-- No more rows are trimmed than the window hides.
trim_below :
    (xs ys : List ℤ) (p w k : ℕ)
    → Increasing (xs ++ (pos p ∷ ys))
    → 1 ≤ w
    → Parts (xs ++ (pos p ∷ ys)) (sub_ℕ (p + 1) w) k
    → length (xs ++ (pos p ∷ ys)) - (w + length (pos p ∷ ys)) ≤ k
unfolding sees
trim_below xs ys p w k up lo parts =
    let v = xs ++ (pos p ∷ ys) in
    let n : length v ≡ length xs + suc (length ys) = length-append xs (pos p ∷ ys) in
    elim (Bool-cases (leb k (length xs))) [
      | inl below ↦
          let kept = parts.not_less k (omega arith) (ground arith) in
          let visible = rw (keep_from-sees p w (at_index v k)) at kept in
          let far =
            Increasing-gap v k (length xs - k) (length xs) up (ground arith) (omega arith) in
          let first : at_index v (length xs) ≡ pos p =
            get_old xs (pos p ∷ ys) 0 (length xs) (omega arith) in
          let near = rw first at far in ground arith
      | inr above ↦ ground arith
    ]

pub evict_count-Evicts :
    (xs ys : List ℤ) (p w naive : ℕ)
    → Increasing (xs ++ (pos p ∷ ys))
    → p < 2 ^ 63
    → 1 ≤ w
    → w < 2 ^ 63
    → has naive evict_keep_last ≡ false
    → Evicts
        (xs ++ (pos p ∷ ys))
        w
        p
        (evict_count (xs ++ (pos p ∷ ys)) w (length (pos p ∷ ys)) naive)
unfolding evict_count
evict_count-Evicts xs ys p w naive up h lo hi correct =
    let v = xs ++ (pos p ∷ ys) in
    let order = Increasing-Sorted v up in
    let batch_min = least-batch xs ys (pos p) order in
    let k = lower_bound v (sub_ℕ (p + 1) w) in
    let parts = lower_bound-Parts v (sub_ℕ (p + 1) w) order in
    let trim = trim_below xs ys p w k up lo parts in
    let exact : min (length v) (max k (length v - (w + length (pos p ∷ ys)))) ≡ k =
      (let m = parts.inside in omega arith) in
    rw correct (
      rw batch_min (
        rw (keep_from_lem p w h lo hi) (
          rw exact (record {
            inside = parts.inside;
            hidden = λ i q.
                (let f = rw (keep_from-sees p w (at_index v i)) at (parts.less i q) in
                  ground arith);
            seen = λ i q r.
                (let f = rw (keep_from-sees p w (at_index v i)) at (parts.not_less i q r) in
                  ground arith);
          }))))
