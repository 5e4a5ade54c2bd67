-- ===== src/Attn/Paged/Located.antt =====
-- crates/mimo26-attn/src/cache.rs: the page and the place in it of a row of `GaPaged`.
use mimo26f_afd.Prelude.{
  ℕ, zero, suc, ◌+◌, ◌*◌, ◌≤◌, ◌<◌, ◌≡◌, refl, ap, ◌∙◌, arith, List, [], ◌∷◌, ◌++◌, length,
  length-append, take, drop, take-append_left, drop-append_left, length-drop, ok,
  get_elem?-append_left, Bool-cases, inl, inr, ltb,
}
use mathlib.Core.Path.{sym}
use native.Mathlib.Nat.{mul-le-mul_right}
use mimo26f_afd.Attn.{Floats}
use mimo26f_afd.Attn.Rows.{RowStore}
use mimo26f_afd.Attn.Paged.{at_slot}
use mimo26f_afd.Attn.Paged.Pages.{flat, flat-append, upto, length-upto, at_slot-end}
use mimo26f_afd.Attn.Paged.Flat.{Page, Full, Last, closed, opened}

pub take-add {ℓ} :
    {A : Type ℓ} (m n c : ℕ) (xs : List A) → c ≡ m + n → take c xs ≡ take m xs ++ take n (drop m xs)
take-add zero n c xs h = (let same : c ≡ n = omega arith in ap (λ n. take n xs) same)
take-add (suc m) n zero xs h = absurd (omega arith)
take-add (suc m) zero (suc c) [] h = refl
take-add (suc m) (suc n) (suc c) [] h = refl
take-add (suc m) n (suc c) (x ∷ xs) h = ap (λ l. x ∷ l) (take-add m n c xs (omega arith))

pub drop-behind {ℓ} :
    {A : Type ℓ} (xs ys : List A) (m n : ℕ) → n ≡ length xs + m → drop n (xs ++ ys) ≡ drop m ys
drop-behind [] ys m n h = (let same : n ≡ m = omega arith in ap (λ n. drop n ys) same)
drop-behind (x ∷ xs) ys m zero h = absurd (omega arith)
drop-behind (x ∷ xs) ys m (suc n) h = drop-behind xs ys m n (omega arith)

-- The middle one of three lists.
pub middle {ℓ} :
    {A : Type ℓ} (before xs behind : List A) (from count start : ℕ)
    → start ≡ length before + from
    → from + count ≤ length xs
    → take count (drop start (before ++ (xs ++ behind))) ≡ take count (drop from xs)
middle before xs behind from count start h le =
    ap (take count) (
      drop-behind before (xs ++ behind) from start h
      ∙ drop-append_left from xs behind (omega arith))
    ∙ take-append_left count (drop from xs) behind (omega (arith, length-drop from xs))

at_slot-append_left {ℓ} :
    {A : Type ℓ} (xs ys : List A) (i : ℕ) → i < length xs → at_slot (xs ++ ys) i ≡ at_slot xs i
unfolding at_slot
at_slot-append_left xs ys i h = rw (get_elem?-append_left xs ys i h, at_slot) refl

pub at_slot-upto : (n i : ℕ) → i < n → at_slot (upto n) i ≡ ok i
unfolding upto
at_slot-upto zero i h = absurd (omega arith)
at_slot-upto (suc n) i h = elim (Bool-cases (ltb i n)) [
  | inl before ↦
      let inside : i < length (upto n) = (let m = length-upto n in ground arith) in
      at_slot-append_left (upto n) (n ∷ []) i inside ∙ at_slot-upto n i (ground arith)
  | inr here ↦
      let same : i ≡ n = ground arith in rw same (at_slot-end (upto n) n n (sym (length-upto n)))
]

pub at_slot-middle {ℓ} :
    {A : Type ℓ} (before behind : List A) (x : A) (i : ℕ)
    → length before ≡ i
    → at_slot (before ++ (x ∷ behind)) i ≡ ok x
unfolding at_slot
at_slot-middle [] behind x zero h = refl
at_slot-middle [] behind x (suc i) h = absurd (omega arith)
at_slot-middle (b ∷ before) behind x zero h = absurd (omega arith)
at_slot-middle (b ∷ before) behind x (suc i) h = at_slot-middle before behind x i (omega arith)

module _ (o : Floats) where
  open o use {F}

  pub record Located (t : RowStore F) (size : ℕ) (slots : List (RowStore F)) (page end : ℕ)
      : Type 0 where
    pub before : List (RowStore F)
    pub store : RowStore F
    pub behind : List (RowStore F)
    pub have : ℕ
    pub parts : slots ≡ before ++ (store ∷ behind)
    pub index : length before ≡ page
    pub pages : Full o t size before
    pub holds : Page o t store have
    pub inside : end ≤ have

  pub locate :
      (t : RowStore F) (size : ℕ) (full last : List (RowStore F)) (off page end : ℕ)
      → Full o t size full
      → Last o t size last off
      → 1 ≤ end
      → end ≤ size
      → page * size + end ≤ length full * size + off
      → Located t size (full ++ last) page end
  unfolding Full
  locate t size [] [] zero page end pages closed more le within = absurd (omega arith)
  locate t size [] _ off zero end pages (opened s rows some less p) more le within = record {
    before = [];
    store = s;
    behind = [];
    have = off;
    parts = refl;
    index = refl;
    pages = tt;
    holds = p;
    inside = omega arith;
  }
  locate t size [] _ off (suc page) end pages (opened s rows some less p) more le within =
      absurd (omega arith)
  locate t size (x ∷ full) last off zero end (p, pages) rest more le within = record {
    before = [];
    store = x;
    behind = full ++ last;
    have = size;
    parts = refl;
    index = refl;
    pages = tt;
    holds = p;
    inside = le;
  }
  locate t size (x ∷ full) last off (suc page) end (p, pages) rest more le within =
      let r = locate t size full last off page end pages rest more le (omega arith) in
      record {
        before = x ∷ r.before;
        store = r.store;
        behind = r.behind;
        have = r.have;
        parts = ap (λ l. x ∷ l) r.parts;
        index = ap suc r.index;
        pages = (p, r.pages);
        holds = r.holds;
        inside = r.inside;
      }

  pub Page-keys :
      (t s : RowStore F) (rows : ℕ) → Page o t s rows → length s.f32_k ≡ rows * (t.n_kv * t.d_qk)
  Page-keys t s rows p = rw⁻¹ p.same_kv (rw⁻¹ p.same_qk p.holds.keys)

  pub Page-values :
      (t s : RowStore F) (rows : ℕ) → Page o t s rows → length s.f32_v ≡ rows * (t.n_kv * t.d_v)
  Page-values t s rows p = rw⁻¹ p.same_kv (rw⁻¹ p.same_v p.holds.values)

  pub flat-Full :
      (t : RowStore F) (size a : ℕ) (f : RowStore F → List F) (ss : List (RowStore F))
      → ((s : RowStore F) → Page o t s size → length (f s) ≡ size * a)
      → Full o t size ss
      → length (flat f ss) ≡ length ss * (size * a)
  unfolding flat Full
  flat-Full t size a f [] h pages = omega arith
  flat-Full t size a f (s ∷ ss) h (p, pages) =
      omega (arith, length-append (f s) (flat f ss), h s p, flat-Full t size a f ss h pages)

  -- The rows of a located page, read from the rows of all pages.
  pub Located-rows :
      (t : RowStore F) (size a : ℕ) (f : RowStore F → List F) (slots : List (RowStore F))
      (page from count start : ℕ)
      → ((s : RowStore F) (rows : ℕ) → Page o t s rows → length (f s) ≡ rows * a)
      → (r : Located t size slots page (from + count)) → start ≡ page * size + from
      → take (count * a) (drop (start * a) (flat f slots))
        ≡ take (count * a) (drop (from * a) (f r.store))
  unfolding flat
  Located-rows t size a f slots page from count start h r e =
      let whole : flat f slots ≡ flat f r.before ++ (f r.store ++ flat f r.behind) =
        ap (flat f) r.parts ∙ flat-append f r.before (r.store ∷ r.behind) in
      let front : length (flat f r.before) ≡ page * (size * a) =
        flat-Full t size a f r.before (λ s p. h s size p) r.pages
        ∙ ap (λ n. n * (size * a)) r.index in
      let at : start * a ≡ length (flat f r.before) + from * a =
        ap (λ n. n * a) e ∙ omega (arith, front) in
      let rows = h r.store r.have r.holds in
      let room : (from + count) * a ≤ r.have * a = mul-le-mul_right a r.inside in
      ap (λ l. take (count * a) (drop (start * a) l)) whole
      ∙ middle (flat f r.before) (f r.store) (flat f r.behind) (from * a) (count * a) (start * a) at
          (omega (arith, rows, room))
