-- ===== src/Attn/Paged/Round.antt =====
-- crates/mimo26-attn/src/cache.rs: one round of `GaPaged::append`.
use mimo26f_afd.Prelude.{
  ℕ, zero, suc, ◌+◌, ◌-◌, ◌*◌, ◌/◌, ◌%◌, ◌≤◌, ◌<◌, ◌≡◌, refl, ap, ◌∙◌, arith, if◌then◌else◌, List,
  [], ◌∷◌, ◌++◌, append-nil, append_assoc, map, length, drop, ok,
}
use mathlib.Core.Path.{sym, subst}
use native.Mathlib.Nat.{mul-add-div_right, div-eq_of_lt, mul-add-mod_self_right, mod-eq_of_lt}
use mimo26f_afd.Attn.{f32, Floats, has, vscale_after_store}
use mimo26f_afd.Attn.Rows.{RowStore, slice}
use mimo26f_afd.Attn.Rows.Stored.{scale_in, joined, row_part}
use mimo26f_afd.Attn.Paged.{GaPaged, filled_slot}
use mimo26f_afd.Attn.Paged.Pages.{slice-parts}
use mimo26f_afd.Attn.Paged.Flat.{Page, Last, closed, opened, IsPaged, keys, values}
use mimo26f_afd.Attn.Paged.Room.{
  Room, after, Page-joined, filled_slot-Room, after-IsPaged, after-flat,
}

drop_all : {A : Type 0} (n : ℕ) (xs : List A) → length xs ≡ n → drop n xs ≡ []
drop_all zero [] h = refl
drop_all zero (x ∷ xs) h = absurd (omega arith)
drop_all (suc n) [] h = refl
drop_all (suc n) (x ∷ xs) h = drop_all n xs (omega arith)

pub glue :
    {A : Type 0} {end middle d : List A} (begin b c : List A)
    → end ≡ middle ++ c
    → middle ≡ begin ++ b
    → b ++ c ≡ d
    → end ≡ begin ++ d
glue begin b c p q s = p ∙ (ap (λ l. l ++ c) q ∙ (append_assoc begin b c ∙ ap (λ l. begin ++ l) s))

module _ (o : Floats) where
  open o use {F, one, mul}

  -- The values as the store keeps them.
  unfoldable pub stored_values : RowStore F → ℕ → List F → List F
  unfolding scale_in
  stored_values t naive v = map (λ x. mul x (scale_in o t naive)) v

  -- What a cache is after `n` rows: pages still in order, and the rows behind the old ones.
  pub record Extended (g g' : GaPaged F) (k v : List F) (n naive : ℕ) : Type 0 where
    pub whole : IsPaged o g'
    pub template : g'.store_template ≡ g.store_template
    pub size : g'.page_tokens ≡ g.page_tokens
    pub rows : g'.n_rows ≡ g.n_rows + n
    pub key_rows : keys o g' ≡ keys o g ++ k
    pub value_rows : values o g' ≡ values o g ++ stored_values g.store_template naive v

  pub offset_below :
      (t : RowStore F) (size off : ℕ) (last : List (RowStore F))
      → 1 ≤ size
      → Last o t size last off
      → off < size
  offset_below t size zero [] h closed = h
  offset_below t size off _ h (opened s rows more less page) = less

  pub quotient : (n q r m : ℕ) → n ≡ q * m + r → r < m → 1 ≤ m → n / m ≡ q
  quotient n q r m h less pos =
      ap (λ x. x / m) h ∙ (mul-add-div_right pos q r ∙ (let z = div-eq_of_lt less in omega arith))

  pub remainder : (n q r m : ℕ) → n ≡ q * m + r → r < m → n % m ≡ r
  remainder n q r m h less = ap (λ x. x % m) h ∙ (mul-add-mod_self_right q m r ∙ mod-eq_of_lt less)

  pub finished :
      (g : GaPaged F) (k v : List F) (n done naive : ℕ)
      → IsPaged o g
      → done ≡ n
      → length k ≡ n * (g.store_template.n_kv * g.store_template.d_qk)
      → length v ≡ n * (g.store_template.n_kv * g.store_template.d_v)
      → Extended g g
          (drop (done * (g.store_template.n_kv * g.store_template.d_qk)) k)
          (drop (done * (g.store_template.n_kv * g.store_template.d_v)) v)
          (n - done)
          naive
  unfolding stored_values
  finished g k v n done naive w at_end same_k same_v =
      let t = g.store_template in
      let no_k =
        drop_all (done * (t.n_kv * t.d_qk)) k
          (same_k ∙ ap (λ m. m * (t.n_kv * t.d_qk)) (sym at_end)) in
      let no_v =
        drop_all (done * (t.n_kv * t.d_v)) v
          (same_v ∙ ap (λ m. m * (t.n_kv * t.d_v)) (sym at_end)) in
      record {
        whole = w;
        template = refl;
        size = refl;
        rows = omega arith;
        key_rows = sym (ap (λ l. keys o g ++ l) no_k ∙ append-nil (keys o g));
        value_rows =
            sym (ap (λ l. values o g ++ stored_values t naive l) no_v ∙ append-nil (values o g));
      }

  -- What one round of the loop does: the cache takes the parts `k` and `v` of the batch.
  pub record Round (g g' : GaPaged F) (k_raw v_raw : List F) (done rows naive : ℕ) : Type 0 where
    pub k : List F
    pub v : List F
    pub cut_k :
        k ++ drop ((done + rows) * (g.store_template.n_kv * g.store_template.d_qk)) k_raw
        ≡ drop (done * (g.store_template.n_kv * g.store_template.d_qk)) k_raw
    pub cut_v :
        v ++ drop ((done + rows) * (g.store_template.n_kv * g.store_template.d_v)) v_raw
        ≡ drop (done * (g.store_template.n_kv * g.store_template.d_v)) v_raw
    pub taken : Extended g g' k v rows naive

  -- `slice` of `rows` rows of a plane of `n` rows.
  row_slice :
      (lo rows n a : ℕ) (xs : List F)
      → lo + rows ≤ n
      → length xs ≡ n * a
      → (mid : List F) × ((slice (lo * a) ((lo + rows) * a) xs ≡ ok mid)
          × ((length mid ≡ rows * a) × (mid ++ drop ((lo + rows) * a) xs ≡ drop (lo * a) xs)))
  row_slice lo rows n a xs le h =
      let up : lo * a ≤ (lo + rows) * a = omega arith in
      let (mid, (cut, (size, parts))) =
        slice-parts (lo * a) ((lo + rows) * a) xs up
          ((row_part n (lo + rows) a (length xs) h le).0) in
      (mid, (cut, (omega arith, parts)))

  scale_in-Page :
      (t s : RowStore F) (off naive : ℕ) → Page o t s off → scale_in o s naive ≡ scale_in o t naive
  unfolding scale_in
  scale_in-Page t s off naive page =
      ap (λ x. if has naive vscale_after_store then one else x) page.same_scale

  pub filled_slot-Round :
      (g grown : GaPaged F) (full : List (RowStore F)) (off n done rows naive : ℕ)
      (k_raw v_raw : List F)
      → (room : Room o g grown full off) → g.store_template.mode ≡ f32
      → g.n_rows ≡ length full * g.page_tokens + off
      → 1 ≤ rows
      → off + rows ≤ g.page_tokens
      → done + rows ≤ n
      → length k_raw ≡ n * (g.store_template.n_kv * g.store_template.d_qk)
      → length v_raw ≡ n * (g.store_template.n_kv * g.store_template.d_v)
      → (store : RowStore F) × ((filled_slot o grown (length full) k_raw v_raw done rows naive
            ≡ ok (length full, store))
          × Round g
              (after o grown (length full) store (g.n_rows + rows))
              k_raw
              v_raw
              done
              rows
              naive)
  unfolding keys values after stored_values joined
  filled_slot-Round g grown full off n done rows naive k_raw v_raw room plain counted more fits le
        same_k same_v =
      let t = g.store_template in
      let back = sym room.template in
      let (k, (slice_k, (length_k, cut_k))) =
        row_slice done rows n (t.n_kv * t.d_qk) k_raw le same_k in
      let (v, (slice_v, (length_v, cut_v))) =
        row_slice done rows n (t.n_kv * t.d_v) v_raw le same_v in
      let store = joined o room.page k v rows naive in
      let length_k' = subst (λ t. length k ≡ rows * (t.n_kv * t.d_qk)) back length_k in
      let length_v' = subst (λ t. length v ≡ rows * (t.n_kv * t.d_v)) back length_v in
      let run =
        filled_slot-Room o g grown full off done rows naive k_raw v_raw k v room more
          (subst
            (λ t. slice (done * (t.n_kv * t.d_qk)) ((done + rows) * (t.n_kv * t.d_qk)) k_raw ≡ ok k)
            back slice_k)
          (subst
            (λ t. slice (done * (t.n_kv * t.d_v)) ((done + rows) * (t.n_kv * t.d_v)) v_raw ≡ ok v)
            back slice_v)
          length_k' length_v' in
      let page =
        Page-joined o grown.store_template room.page off rows naive k v room.holds length_k'
          length_v' in
      let counted' : g.n_rows + rows ≡ length full * grown.page_tokens + (off + rows) =
        rw room.size (omega arith) in
      let whole =
        after-IsPaged o g grown full off rows (g.n_rows + rows) store room more (rw room.size fits)
          (ap (λ t. t.mode) room.template ∙ plain) counted' page in
      let scaled =
        scale_in-Page grown.store_template room.page off naive room.holds
        ∙ ap (λ t. scale_in o t naive) room.template in
      let new_keys =
        after-flat o (λ s. s.f32_k) grown.slots full room.page store k room.slots refl in
      let new_values =
        after-flat o (λ s. s.f32_v) grown.slots full room.page store (stored_values t naive v)
          room.slots (ap (λ x. room.page.f32_v ++ map (λ y. mul y x) v) scaled) in
      (
        store,
        (
          run,
          record {
            k = k;
            v = v;
            cut_k = cut_k;
            cut_v = cut_v;
            taken = record {
              whole = whole;
              template = room.template;
              size = room.size;
              rows = refl;
              key_rows = new_keys ∙ ap (λ l. l ++ k) room.same_keys;
              value_rows = new_values ∙ ap (λ l. l ++ stored_values t naive v) room.same_values;
            };
          },
        ),
      )
