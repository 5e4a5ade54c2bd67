-- ===== src/Attn/Rows/Stored.antt =====
-- crates/mimo26-attn/src/cache.rs: a `RowStore` in the f32 mode and what it holds.
use mimo26f_afd.Prelude.{
  ℕ, true, false, zero, suc, ◌+◌, ◌-◌, ◌*◌, ◌≤◌, ◌≡◌, refl, ap, ◌∙◌, arith, leb, ◌==◌, ==_iff,
  if◌then◌else◌, none, List, ◌++◌, map, length, length-append, length-map, length-drop, drop, ok,
}
use mimo26f_afd.Attn.{has, vscale_after_store, f32, Floats}
use mimo26f_afd.Attn.Rows.{RowStore, append_rows, drop_front, drain_rows, drain_to, scale_mode}

pub drop_none : {A : Type 0} (c a : ℕ) (xs : List A) → 0 ≡ c → xs ≡ drop (c * a) xs
drop_none zero a xs h = (let none_left : 0 ≡ 0 * a = omega arith in ap (λ n. drop n xs) none_left)
drop_none (suc c) a xs h = absurd (omega arith)

row_split : (m n a len : ℕ) → len ≡ (n + m) * a → (n * a ≤ len) × (len - n * a ≡ m * a)
row_split m n a len h = (omega arith, omega arith)

pub row_part :
    (rows n a len : ℕ) → len ≡ rows * a → n ≤ rows → (n * a ≤ len) × (len - n * a ≡ (rows - n) * a)
row_part rows n a len h le =
    let total : rows ≡ n + (rows - n) = omega arith in
    row_split (rows - n) n a len (h ∙ ap (λ r. r * a) total)

module _ (o : Floats) where
  open o use {F, one, mul}

  -- A store that holds `rows` rows of floats.
  pub record Holds (s : RowStore F) (rows : ℕ) : Type 0 where
    pub plain : s.mode ≡ f32
    pub counted : s.n_rows ≡ rows
    pub keys : length s.f32_k ≡ rows * (s.n_kv * s.d_qk)
    pub values : length s.f32_v ≡ rows * (s.n_kv * s.d_v)

  -- What the store scales values by on the way in.
  unfoldable pub scale_in : RowStore F → ℕ → F
  scale_in s naive = if has naive vscale_after_store then one else s.value_scale

  -- The store after `append` of a batch, and after `drop_front` of `n` rows.
  unfoldable pub joined : RowStore F → List F → List F → ℕ → ℕ → RowStore F
  unfolding scale_in
  joined s k v n naive = record s {
    f32_k = s.f32_k ++ k;
    f32_v = s.f32_v ++ map (λ x. mul x (scale_in s naive)) v;
    n_rows = s.n_rows + n;
  }

  unfoldable pub dropped : RowStore F → ℕ → RowStore F
  dropped s n = record s {
    f32_k = drop (n * (s.n_kv * s.d_qk)) s.f32_k;
    f32_v = drop (n * (s.n_kv * s.d_v)) s.f32_v;
    n_rows = s.n_rows - n;
  }

  pub append_rows-joined :
      (s : RowStore F) (rows n naive : ℕ) (k v : List F)
      → Holds s rows
      → 1 ≤ n
      → length k ≡ n * s.n_kv * s.d_qk
      → length v ≡ n * s.n_kv * s.d_v
      → append_rows o s k v n naive ≡ ok (joined s k v n naive)
  unfolding append_rows joined scale_in scale_mode
  append_rows-joined s rows n naive k v held more same_k same_v =
      let good_k : (length k == n * s.n_kv * s.d_qk) ≡ true = (==_iff _ _).1 same_k in
      let good_v : (length v == n * s.n_kv * s.d_v) ≡ true = (==_iff _ _).1 same_v in
      let some_rows : (n == 0) ≡ false = ground arith in
      rw good_k (rw good_v (rw some_rows (simp held.plain refl)))

  drain_to-length :
      {A : Type 0} (n : ℕ) (xs : List A) → n ≤ length xs → drain_to n xs ≡ ok (drop n xs)
  unfolding drain_to
  drain_to-length n xs h = let fits : leb n (length xs) ≡ true = ground arith in rw fits refl

  drain_rows-dropped :
      (s : RowStore F) (n : ℕ)
      → s.mode ≡ f32
      → n * (s.n_kv * s.d_qk) ≤ length s.f32_k
      → n * (s.n_kv * s.d_v) ≤ length s.f32_v
      → drain_rows o s n ≡ ok (dropped s n)
  unfolding drain_rows dropped scale_mode
  drain_rows-dropped s n plain k_fits v_fits =
      let mode : scale_mode s.mode ≡ none = ap scale_mode plain in
      let keys = drain_to-length (n * (s.n_kv * s.d_qk)) s.f32_k k_fits in
      let values = drain_to-length (n * (s.n_kv * s.d_v)) s.f32_v v_fits in
      rw (mode, drain_rows) (rw keys (rw values refl))

  pub drop_front-dropped :
      (s : RowStore F) (rows n : ℕ)
      → Holds s rows
      → 1 ≤ n
      → n ≤ rows
      → drop_front o s n ≡ ok (dropped s n)
  unfolding drop_front
  drop_front-dropped s rows n held more le =
      let fits : leb n s.n_rows ≡ true = (let c = held.counted in ground arith) in
      let some_rows : (n == 0) ≡ false = ground arith in
      let keys = (row_part rows n (s.n_kv * s.d_qk) (length s.f32_k) held.keys le).0 in
      let values = (row_part rows n (s.n_kv * s.d_v) (length s.f32_v) held.values le).0 in
      rw fits (rw some_rows (drain_rows-dropped s n held.plain keys values))

  pub Holds-joined :
      (s : RowStore F) (rows n naive : ℕ) (k v : List F)
      → Holds s rows
      → length k ≡ n * s.n_kv * s.d_qk
      → length v ≡ n * s.n_kv * s.d_v
      → Holds (joined s k v n naive) (rows + n)
  unfolding joined scale_in
  Holds-joined s rows n naive k v held same_k same_v = record {
    plain = held.plain;
    counted = ap (λ m. m + n) held.counted;
    keys = omega (arith, held.keys, same_k, length-append s.f32_k k);
    values = omega (
      arith,
      held.values,
      same_v,
      length-append s.f32_v (map (λ x. mul x (scale_in s naive)) v),
      length-map v (λ x. mul x (scale_in s naive)),
    );
  }

  pub Holds-dropped :
      (s : RowStore F) (rows n : ℕ) → Holds s rows → n ≤ rows → Holds (dropped s n) (rows - n)
  unfolding dropped
  Holds-dropped s rows n held le = record {
    plain = held.plain;
    counted = ap (λ m. m - n) held.counted;
    keys =
        length-drop (n * (s.n_kv * s.d_qk)) s.f32_k
        ∙ (row_part rows n (s.n_kv * s.d_qk) (length s.f32_k) held.keys le).1;
    values =
        length-drop (n * (s.n_kv * s.d_v)) s.f32_v
        ∙ (row_part rows n (s.n_kv * s.d_v) (length s.f32_v) held.values le).1;
  }
