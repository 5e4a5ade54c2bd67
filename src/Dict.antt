-- ===== src/Dict.antt =====
-- A `HashMap` as an association list with one entry for each key. No code modelled here iterates over
-- a map, so the order of the entries stands for nothing.
pub mod Laws
use mimo26f_afd.Prelude.{
  Bool, true, false, Option, none, some, List, [], ◌∷◌, ◌≡◌, if◌then◌else◌, Eq, ◌≐◌, sum_by, ℕ, All,
  not,
}

abbrev pub Dict {ℓ κ} : Type ℓ → Type κ → Type (ℓ ⊔ κ)
Dict K V = List (K × V)

module _ {ℓ κ} {K : Type ℓ} {V : Type κ} ⦃e : Eq K⦄ where
  unfoldable pub get : K → Dict K V → Option V
  get k [] = none
  get k ((j, v) ∷ m) = if j ≐ k then some v else get k m

  -- HashMap::remove, without the value that it returns.
  unfoldable pub remove : K → Dict K V → Dict K V
  remove k [] = []
  remove k ((j, v) ∷ m) = let rest = remove k m in if j ≐ k then rest else (j, v) ∷ rest

  unfoldable pub insert : K → V → Dict K V → Dict K V
  unfolding remove
  insert k v m = (k, v) ∷ remove k m

  -- No two entries have the same key.
  abbrev pub IsUnique : Dict K V → Type κ
  IsUnique [] = Unit {κ}
  IsUnique ((k, v) ∷ m) = (get k m ≡ none) × IsUnique m
