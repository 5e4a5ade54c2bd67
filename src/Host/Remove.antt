-- ===== src/Host/Remove.antt =====
-- crates/mimo26-coordinator/src/hostcache.rs: what `Vec::swap_remove` takes out and what it leaves.
use mimo26f_afd.Prelude.{
  ℕ, zero, suc, ◌+◌, ◌-◌, ◌<◌, ◌≡◌, refl, ap, some, List, [], ◌∷◌, length, take, set, get_elem?,
  get_or, length-set, sum_by, arith,
}
use mimo26f_afd.Host.{swap_remove}

module _ {ℓ} {A : Type ℓ} where
  -- The last entry, and what stands before it.
  sum_by-set :
      (f : A → ℕ) (xs : List A) (i : ℕ) (x y : A)
      → get_elem? xs i ≡ some x
      → sum_by f (set xs i y) + f x ≡ sum_by f xs + f y
  sum_by-set f [] i x y h = absurd (ground arith)
  sum_by-set f (a ∷ xs) zero x y h = ground arith
  sum_by-set f (a ∷ xs) (suc i) x y h = omega (arith, sum_by-set f xs i x y h)

  sum_by-take_last :
      (f : A → ℕ) (x : A) (xs : List A) (d : A)
      → sum_by f (take (length xs) (x ∷ xs)) + f (get_or (x ∷ xs) (length xs) d) ≡ sum_by f (x ∷ xs)
  sum_by-take_last f x [] d = omega arith
  sum_by-take_last f x (y ∷ xs) d = omega (arith, sum_by-take_last f y xs d)

  length-take_last : (x : A) (xs : List A) → length (take (length xs) (x ∷ xs)) ≡ length xs
  length-take_last x [] = refl
  length-take_last x (y ∷ xs) = ap suc (length-take_last y xs)

  get_or-set_same :
      (xs : List A) (i k : ℕ) (y d : A)
      → y ≡ get_or xs k d
      → get_or (set xs i y) k d ≡ get_or xs k d
  get_or-set_same [] i k y d h = refl
  get_or-set_same (x ∷ xs) zero zero y d h = h
  get_or-set_same (x ∷ xs) zero (suc k) y d h = refl
  get_or-set_same (x ∷ xs) (suc i) zero y d h = refl
  get_or-set_same (x ∷ xs) (suc i) (suc k) y d h = get_or-set_same xs i k y d h

  get_below : (xs : List A) (i : ℕ) → i < length xs → (x : A) × (get_elem? xs i ≡ some x)
  get_below [] i h = absurd (omega arith)
  get_below (x ∷ xs) zero h = (x, refl)
  get_below (x ∷ xs) (suc i) h = get_below xs i (omega arith)

  -- The entries without the last, for a list that is not empty.
  take_but_last :
      (f : A → ℕ) (ys : List A) (n : ℕ) (d : A)
      → length ys ≡ suc n
      → (sum_by f (take n ys) + f (get_or ys n d) ≡ sum_by f ys) × (length (take n ys) ≡ n)
  take_but_last f [] n d h = absurd (omega arith)
  take_but_last f (y ∷ ys) n d h =
      let same : length ys ≡ n = omega arith in
      (rw (← same) (sum_by-take_last f y ys d), rw (← same) (length-take_last y ys))

  -- What leaves the list, and what stays, in another order.
  pub record Removes (xs : List A) (x : A) (rest : List A) : Type ℓ where
    pub kept : (f : A → ℕ) → sum_by f rest + f x ≡ sum_by f xs
    pub shorter : suc (length rest) ≡ length xs

  pub swap_remove-Removes :
      (i : ℕ) (xs : List A)
      → i < length xs
      → (x : A) × (rest : List A) × (swap_remove i xs ≡ some (x, rest))
        × (get_elem? xs i ≡ some x)
        × Removes xs x rest
  unfolding swap_remove
  swap_remove-Removes i xs h =
      let (x, here) = get_below xs i h in
      let n = length xs - 1 in
      let last = get_or xs n x in
      let all : length (set xs i last) ≡ suc n = omega (arith, length-set xs i last) in
      (
        x,
        take n (set xs i last),
        rw (here, swap_remove) refl,
        here,
        record {
          kept = λ f.
              (let same : f (get_or (set xs i last) n x) ≡ f last =
                  ap f (get_or-set_same xs i n last x refl) in
                omega (
                  arith,
                  (take_but_last f (set xs i last) n x all).0,
                  sum_by-set f xs i x last here,
                ));
          shorter = omega (arith, (take_but_last (λ a. 0) (set xs i last) n x all).1);
        },
      )
