-- ===== src/Dict/Laws.antt =====
-- What clients know of a map: reads after writes, and sums over the values.
use mimo26f_afd.Prelude.{
  ℕ, ◌+◌, none, some, [], ◌∷◌, ◌≡◌, refl, if◌then◌else◌, Eq, ◌≐◌, sum_by, arith, Bool-cases, inl,
  inr,
}
use mathlib.Core.Path.{ap₂}
use mimo26f_afd.Dict.{Dict, get, remove, insert, IsUnique}

module _ {ℓ κ} {K : Type ℓ} {V : Type κ} ⦃e : Eq K⦄ where
  pub get-remove : (k j : K) (m : Dict K V) → get j (remove k m) ≡ (if k ≐ j then none else get j m)
  unfolding get remove
  get-remove k j [] = ground arith
  get-remove k j ((i, v) ∷ m) =
      ground (arith, get-remove k j m, e.beq_iff i k, e.beq_iff i j, e.beq_iff k j)

  pub get-insert :
      (k j : K) (v : V) (m : Dict K V) → get j (insert k v m) ≡ (if k ≐ j then some v else get j m)
  unfolding get insert
  get-insert k j v m = ground (arith, get-remove k j m)

  pub remove-IsUnique : (k : K) (m : Dict K V) → IsUnique m → IsUnique (remove k m)
  unfolding remove
  remove-IsUnique k [] u = tt
  remove-IsUnique k ((j, v) ∷ m) u = elim (Bool-cases (j ≐ k)) [
    | inl same ↦ rw same (remove-IsUnique k m u.1)
    | inr other ↦ rw other (ground (arith, get-remove k j m), remove-IsUnique k m u.1)
  ]

  pub insert-IsUnique : (k : K) (v : V) (m : Dict K V) → IsUnique m → IsUnique (insert k v m)
  unfolding insert
  insert-IsUnique k v m u = (ground (arith, get-remove k k m, e.beq_iff k k), remove-IsUnique k m u)

  pub remove_of_none : (k : K) (m : Dict K V) → get k m ≡ none → remove k m ≡ m
  unfolding get remove
  remove_of_none k [] h = refl
  remove_of_none k ((j, v) ∷ m) h = ground (arith, remove_of_none k m)

  -- The weight of a map: a measure summed over its entries.
  abbrev pub weight : (K × V → ℕ) → Dict K V → ℕ
  weight f m = sum_by f m

  pub weight-remove :
      (f : K × V → ℕ) (k : K) (v : V) (m : Dict K V)
      → IsUnique m
      → get k m ≡ some v
      → weight f (remove k m) + f (k, v) ≡ weight f m
  unfolding get remove
  weight-remove f k v [] u h = cc
  weight-remove f k v ((j, w) ∷ m) u h = elim (Bool-cases (j ≐ k)) [
    | inl same ↦
        let here : j ≡ k = (e.beq_iff j k).0 same in
        let gone : remove k m ≡ m = remove_of_none k m (rw here at u.0) in
        let kept : w ≡ v = ground arith in
        rw (same, gone) (ground (arith, here, kept, ap₂ (λ a b. f (a, b)) here kept))
    | inr other ↦ rw other (omega (arith, weight-remove f k v m u.1 (rw other at h)))
  ]

  pub weight-insert :
      (f : K × V → ℕ) (k : K) (v : V) (m : Dict K V)
      → get k m ≡ none
      → weight f (insert k v m) ≡ f (k, v) + weight f m
  unfolding insert
  weight-insert f k v m h = rw (remove_of_none k m h)

  -- Writing over an entry: the old value's weight goes, and the new one's comes.
  pub weight-replace :
      (f : K × V → ℕ) (k : K) (v w : V) (m : Dict K V)
      → IsUnique m
      → get k m ≡ some w
      → weight f (insert k v m) + f (k, w) ≡ f (k, v) + weight f m
  unfolding insert
  weight-replace f k v w m u h = omega (arith, weight-remove f k w m u h)
