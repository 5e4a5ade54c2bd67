-- ===== src/Attn/Paged/Pages.antt =====
-- crates/mimo26-attn/src/cache.rs: the pages of a `GaPaged` as one row after another.
use mimo26f_afd.Prelude.{
  ℕ, zero, suc, true, ◌+◌, ◌-◌, ◌≤◌, ◌≡◌, refl, ap, ◌∙◌, arith, leb, List, [], ◌∷◌, ◌++◌,
  append-nil, append_assoc, length, length-append, length-take, length-drop, set, take, drop,
  take-append-drop, ok,
}
use mathlib.Core.Path.{sym}
use mimo26f_afd.Attn.Rows.{slice}
use mimo26f_afd.Attn.Paged.{at_slot}

-- One list after another.
unfoldable pub flat {ℓ κ} : {A : Type ℓ} {B : Type κ} → (A → List B) → List A → List B
flat f [] = []
flat f (x ∷ xs) = f x ++ flat f xs

pub flat-append {ℓ κ} :
    {A : Type ℓ} {B : Type κ} (f : A → List B) (xs ys : List A)
    → flat f (xs ++ ys) ≡ flat f xs ++ flat f ys
unfolding flat
flat-append f [] ys = refl
flat-append f (x ∷ xs) ys =
    ap (λ l. f x ++ l) (flat-append f xs ys) ∙ sym (append_assoc (f x) (flat f xs) (flat f ys))

pub flat-end {ℓ κ} :
    {A : Type ℓ} {B : Type κ} (f : A → List B) (xs : List A) (y : A)
    → flat f (xs ++ (y ∷ [])) ≡ flat f xs ++ f y
unfolding flat
flat-end f xs y = flat-append f xs (y ∷ []) ∙ ap (λ l. flat f xs ++ l) (append-nil (f y))

-- 0, 1, ... below `n`
unfoldable pub upto : ℕ → List ℕ
upto zero = []
upto (suc n) = upto n ++ (n ∷ [])

pub length-upto : (n : ℕ) → length (upto n) ≡ n
unfolding upto
length-upto zero = refl
length-upto (suc n) = omega (arith, length-append (upto n) (n ∷ []), length-upto n)

pub at_slot-end {ℓ} :
    {A : Type ℓ} (xs : List A) (y : A) (i : ℕ) → i ≡ length xs → at_slot (xs ++ (y ∷ [])) i ≡ ok y
unfolding at_slot
at_slot-end [] y zero h = refl
at_slot-end [] y (suc i) h = absurd (omega arith)
at_slot-end (x ∷ xs) y zero h = absurd (omega arith)
at_slot-end (x ∷ xs) y (suc i) h = at_slot-end xs y i (omega arith)

pub set-end {ℓ} :
    {A : Type ℓ} (xs : List A) (y z : A) (i : ℕ)
    → i ≡ length xs
    → set (xs ++ (y ∷ [])) i z ≡ xs ++ (z ∷ [])
set-end [] y z zero h = refl
set-end [] y z (suc i) h = absurd (omega arith)
set-end (x ∷ xs) y z zero h = absurd (omega arith)
set-end (x ∷ xs) y z (suc i) h = ap (λ l. x ∷ l) (set-end xs y z i (omega arith))

drop-nil {ℓ} : {A : Type ℓ} (n : ℕ) → drop {A = A} n [] ≡ []
drop-nil zero = refl
drop-nil (suc n) = refl

pub drop-drop {ℓ} :
    {A : Type ℓ} (a b c : ℕ) (xs : List A) → c ≡ b + a → drop a (drop b xs) ≡ drop c xs
drop-drop a zero c xs h = (let same : a ≡ c = omega arith in ap (λ n. drop n xs) same)
drop-drop a (suc b) zero xs h = absurd (omega arith)
drop-drop a (suc b) (suc c) [] h = drop-nil a
drop-drop a (suc b) (suc c) (x ∷ xs) h = drop-drop a b c xs (omega arith)

-- A slice and what is behind it.
pub slice-parts {ℓ} :
    {A : Type ℓ} (lo hi : ℕ) (xs : List A)
    → lo ≤ hi
    → hi ≤ length xs
    → (mid : List A) × ((slice lo hi xs ≡ ok mid)
        × ((length mid ≡ hi - lo) × (mid ++ drop hi xs ≡ drop lo xs)))
unfolding slice
slice-parts lo hi xs p q =
    let first : leb lo hi ≡ true = ground arith in
    let second : leb hi (length xs) ≡ true = ground arith in
    let back : drop (hi - lo) (drop lo xs) ≡ drop hi xs =
      drop-drop (hi - lo) lo hi xs (omega arith) in
    rw first (
      rw second (
        take (hi - lo) (drop lo xs),
        (
          refl,
          (
            omega (arith, length-take (hi - lo) (drop lo xs), length-drop lo xs),
            ap (λ l. take (hi - lo) (drop lo xs) ++ l) (sym back)
                ∙ take-append-drop (hi - lo) (drop lo xs),
          ),
        ),
      ))
