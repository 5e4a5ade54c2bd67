-- ===== src/Attn/Paged/Read.antt =====
-- crates/mimo26-attn/src/cache.rs: `GaPaged::rows_range`, read from one list of rows.
use mimo26f_afd.Prelude.{
  ℕ, zero, suc, true, false, ◌+◌, ◌-◌, ◌*◌, ◌/◌, ◌%◌, ◌≤◌, ◌<◌, ◌≡◌, refl, ap, ◌∙◌, inl, inr,
  Bool-cases, arith, ltb, leb, min, List, [], ◌∷◌, ◌++◌, append-nil, append_assoc, length,
  length-append, take, drop, Result, ok, none,
}
use mathlib.Core.Path.{sym, ap₂}
use native.Mathlib.Nat.{mul-le-mul_right, mod-lt, div-add-mod'}
use mimo26f_afd.Attn.{has, vscale_on_read, f32, Fault, Floats}
use mimo26f_afd.Attn.Rows.{RowStore, read_rows, rows_range, slice, scale_mode}
use mimo26f_afd.Attn.Paged.{GaPaged, at_slot, page_of, slot_of, read_round, read_loop, paged_range}
use mimo26f_afd.Attn.Paged.Pages.{flat, drop-drop}
use mimo26f_afd.Attn.Paged.Flat.{Page, IsPaged, keys, values}
use mimo26f_afd.Attn.Paged.Located.{
  take-add, at_slot-upto, at_slot-middle, locate, Page-keys, Page-values, Located-rows,
}

module _ (o : Floats) where
  open o use {F, one, is_one}

  -- `count` rows of `a` numbers each, from row `start` on.
  unfoldable pub rows_of : ℕ → ℕ → ℕ → List F → List F
  rows_of start count a xs = take (count * a) (drop (start * a) xs)

  slice-rows :
      (from count have a a' : ℕ) (xs : List F)
      → from + count ≤ have
      → length xs ≡ have * a
      → a' ≡ a
      → slice (from * a') ((from + count) * a') xs ≡ ok (rows_of from count a xs)
  unfolding slice rows_of
  slice-rows from count have a a' xs le size same =
      let up : from * a ≤ (from + count) * a = omega arith in
      let room = mul-le-mul_right a le in
      let first : leb (from * a) ((from + count) * a) ≡ true = ground arith in
      let second : leb ((from + count) * a) (length xs) ≡ true = ground arith in
      let width : (from + count) * a - from * a ≡ count * a = omega arith in
      rw same (rw first (rw second (rw width refl)))

  read_rows-plain :
      (s : RowStore F) (naive : ℕ)
      → s.mode ≡ f32
      → has naive vscale_on_read ≡ false
      → is_one one ≡ true
      → read_rows o s naive ≡ ok (s.f32_k, s.f32_v)
  unfolding read_rows scale_mode
  read_rows-plain s naive plain once unit =
      let mode : scale_mode s.mode ≡ none = ap scale_mode plain in
      rw (mode, read_rows) (rw once (rw unit refl))

  -- One page's part of a range.
  rows_range-Page :
      (t s : RowStore F) (have from count naive : ℕ)
      → Page o t s have
      → from + count ≤ have
      → has naive vscale_on_read ≡ false
      → is_one one ≡ true
      → rows_range o s from (from + count) naive
        ≡ ok (
          rows_of from count (t.n_kv * t.d_qk) s.f32_k,
          rows_of from count (t.n_kv * t.d_v) s.f32_v,
        )
  unfolding rows_range
  rows_range-Page t s have from count naive p le once unit =
      let first : leb (from + count) s.n_rows ≡ true = (let c = p.holds.counted in ground arith) in
      let second : leb from (from + count) ≡ true = ground arith in
      let width_k : s.n_kv * s.d_qk ≡ t.n_kv * t.d_qk = rw p.same_kv (rw p.same_qk refl) in
      let width_v : s.n_kv * s.d_v ≡ t.n_kv * t.d_v = rw p.same_kv (rw p.same_v refl) in
      let k =
        slice-rows from count have (t.n_kv * t.d_qk) (s.n_kv * s.d_qk) s.f32_k le
          (Page-keys o t s have p) width_k in
      let v =
        slice-rows from count have (t.n_kv * t.d_v) (s.n_kv * s.d_v) s.f32_v le
          (Page-values o t s have p) width_v in
      rw first (rw second (rw (read_rows-plain s naive p.holds.plain once unit) (rw k (rw v refl))))

  read_round-rows :
      (rest : ℕ → List F → List F → Result Fault (List F × List F)) (g : GaPaged F)
      (w : IsPaged o g) (t hi naive page off : ℕ) (k v : List F)
      → t ≡ page * g.page_tokens + off
      → off < g.page_tokens
      → t < hi
      → hi ≤ g.n_rows
      → has naive vscale_on_read ≡ false
      → is_one one ≡ true
      → let count = min (g.page_tokens - off) (hi - t) in
        let d = g.store_template in
        read_round o rest g t hi k v naive (page, off)
        ≡ rest
            (t + count)
            (k ++ rows_of t count (d.n_kv * d.d_qk) (keys o g))
            (v ++ rows_of t count (d.n_kv * d.d_v) (values o g))
  unfolding keys values rows_of slot_of read_round
  read_round-rows rest g w t hi naive page off k v at less more within once unit =
      let d = g.store_template in
      let count = min (g.page_tokens - off) (hi - t) in
      let known = w.rows in
      let r =
        locate o d g.page_tokens w.full w.last w.off page (off + count) w.pages w.rest (omega arith)
          (omega arith) (omega arith) in
      let parts = w.slots ∙ r.parts in
      let few : page < length (w.full ++ w.last) =
        (let n = ap length r.parts in
          let m = length-append r.before (r.store ∷ r.behind) in let i = r.index in omega arith) in
      let slot : at_slot g.page_table page ≡ ok page =
        ap (λ l. at_slot l page) w.table ∙ at_slot-upto (length (w.full ++ w.last)) page few in
      let store : at_slot g.slots page ≡ ok r.store =
        ap (λ l. at_slot l page) parts ∙ at_slot-middle r.before r.behind r.store page r.index in
      let read = rows_range-Page d r.store r.have off count naive r.holds r.inside once unit in
      let pages =
        λ (a : ℕ) (f : RowStore F → List F)
            (h : (s : RowStore F) (rows : ℕ) → Page o d s rows → length (f s) ≡ rows * a).
          ap (λ l. take (count * a) (drop (t * a) (flat f l))) w.slots
          ∙ Located-rows o d g.page_tokens a f (w.full ++ w.last) page off count t h r at in
      let k_rows = pages (d.n_kv * d.d_qk) (λ s. s.f32_k) (λ s n p. Page-keys o d s n p) in
      let v_rows = pages (d.n_kv * d.d_v) (λ s. s.f32_v) (λ s n p. Page-values o d s n p) in
      rw (slot, read_round) (rw store (rw read (rw k_rows (rw v_rows refl))))

  rows_none : (start a : ℕ) (xs : List F) → rows_of start 0 a xs ≡ []
  unfolding rows_of
  rows_none start a xs =
      (let none_left : 0 * a ≡ 0 = omega arith in ap (λ n. take n (drop (start * a) xs)) none_left)

  rows_join :
      (start m n c a : ℕ) (xs : List F)
      → c ≡ m + n
      → rows_of start m a xs ++ rows_of (start + m) n a xs ≡ rows_of start c a xs
  unfolding rows_of
  rows_join start m n c a xs e =
      let total : c * a ≡ m * a + n * a = ap (λ x. x * a) e ∙ omega arith in
      let behind = drop-drop (m * a) (start * a) ((start + m) * a) xs (omega arith) in
      sym (
        take-add (m * a) (n * a) (c * a) (drop (start * a) xs) total
        ∙ ap (λ l. take (m * a) (drop (start * a) xs) ++ take (n * a) l) behind)

  rows_behind :
      (k : List F) (start m n c a : ℕ) (xs : List F)
      → c ≡ m + n
      → (k ++ rows_of start m a xs) ++ rows_of (start + m) n a xs ≡ k ++ rows_of start c a xs
  rows_behind k start m n c a xs e =
      append_assoc k (rows_of start m a xs) (rows_of (start + m) n a xs)
      ∙ ap (λ l. k ++ l) (rows_join start m n c a xs e)

  read_loop-rows :
      (fuel : ℕ) (g : GaPaged F) (w : IsPaged o g) (t hi naive : ℕ) (k v : List F)
      → hi ≤ t + fuel
      → t ≤ hi
      → hi ≤ g.n_rows
      → has naive vscale_on_read ≡ false
      → is_one one ≡ true
      → let d = g.store_template in
        read_loop o fuel g t hi k v naive
        ≡ ok (
          k ++ rows_of t (hi - t) (d.n_kv * d.d_qk) (keys o g),
          v ++ rows_of t (hi - t) (d.n_kv * d.d_v) (values o g),
        )
  unfolding read_loop page_of
  read_loop-rows zero g w t hi naive k v enough le within once unit =
      let d = g.store_template in
      let at_end : hi - t ≡ 0 = omega arith in
      rw at_end (
        rw (rows_none t (d.n_kv * d.d_qk) (keys o g)) (
          rw (rows_none t (d.n_kv * d.d_v) (values o g))
            (rw (append-nil k) (rw (append-nil v) refl))))
  read_loop-rows (suc fuel) g w t hi naive k v enough le within once unit =
      let d = g.store_template in
      elim (Bool-cases (ltb t hi)) [
        | inr over ↦
            let at_end : hi - t ≡ 0 = ground arith in
            rw over (
              rw at_end (
                rw (rows_none t (d.n_kv * d.d_qk) (keys o g)) (
                  rw (rows_none t (d.n_kv * d.d_v) (values o g))
                    (rw (append-nil k) (rw (append-nil v) refl)))))
        | inl more ↦
            let page = t / g.page_tokens in
            let off = t % g.page_tokens in
            let count = min (g.page_tokens - off) (hi - t) in
            let at : t ≡ page * g.page_tokens + off = sym (div-add-mod' t g.page_tokens) in
            let less : off < g.page_tokens = mod-lt t w.some_tokens in
            let before : t < hi = ground arith in
            let parts : hi - t ≡ count + (hi - (t + count)) = omega arith in
            let rest = λ (t : ℕ) (k v : List F). read_loop o fuel g t hi k v naive in
            let round =
              read_round-rows rest g w t hi naive page off k v at less before within once unit in
            let later =
              read_loop-rows fuel g w (t + count) hi naive
                (k ++ rows_of t count (d.n_kv * d.d_qk) (keys o g))
                (v ++ rows_of t count (d.n_kv * d.d_v) (values o g)) (omega arith) (omega arith)
                within once unit in
            rw more (
              rw round (
                later
                ∙ ap₂ (λ x y. ok (x, y))
                    (rows_behind k t count (hi - (t + count)) (hi - t) (d.n_kv * d.d_qk) (keys o g)
                      parts)
                    (rows_behind v t count (hi - (t + count)) (hi - t) (d.n_kv * d.d_v) (values o g)
                      parts)))
      ]

  -- In the f32 mode, where the bit VSCALE_ON_READ is clear and 1.0 equals itself, reading a range of rows
  -- through the page table succeeds and returns that range of the rows of all pages read one after
  -- another, whatever pages it spans.
  pub paged_range-rows :
      (g : GaPaged F) (lo hi naive : ℕ)
      → IsPaged o g
      → lo ≤ hi
      → hi ≤ g.n_rows
      → has naive vscale_on_read ≡ false
      → is_one one ≡ true
      → let d = g.store_template in
        paged_range o g lo hi naive
        ≡ ok (
          rows_of lo (hi - lo) (d.n_kv * d.d_qk) (keys o g),
          rows_of lo (hi - lo) (d.n_kv * d.d_v) (values o g),
        )
  unfolding paged_range
  paged_range-rows g lo hi naive w le within once unit =
      let first : leb hi g.n_rows ≡ true = ground arith in
      let second : leb lo hi ≡ true = ground arith in
      rw first (
        rw second
          (read_loop-rows (hi - lo) g w lo hi naive [] [] (omega arith) le within once unit))
