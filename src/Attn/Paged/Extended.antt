-- ===== src/Attn/Paged/Extended.antt =====
-- crates/mimo26-attn/src/cache.rs: the loop of `GaPaged::append`.
use mimo26f_afd.Prelude.{
  ℕ, zero, suc, ◌+◌, ◌-◌, ◌*◌, ◌/◌, ◌%◌, ◌≤◌, ◌<◌, ◌≡◌, refl, ap, ◌∙◌, inl, inr, Bool-cases, arith,
  ltb, min, List, ◌++◌, map, length, drop, Result, ok,
}
use mathlib.Core.Path.{sym, subst}
use mathlib.Core.List.{map-append}
use mimo26f_afd.Attn.{Fault, Floats}
use mimo26f_afd.Attn.Rows.{RowStore}
use mimo26f_afd.Attn.Rows.Stored.{scale_in}
use mimo26f_afd.Attn.Paged.{
  GaPaged, grow_table, filled_slot, append_round, append_loop, append_paged,
}
use mimo26f_afd.Attn.Paged.Flat.{IsPaged, keys, values}
use mimo26f_afd.Attn.Paged.Room.{grow_table-Room, after}
use mimo26f_afd.Attn.Paged.Round.{
  glue, stored_values, Extended, offset_below, quotient, remainder, finished, Round,
  filled_slot-Round,
}

module _ (o : Floats) where
  open o use {F, one, mul}

  -- One round and the rest of the loop.
  Round-Extended :
      (g g2 g' : GaPaged F) (k_raw v_raw : List F) (n done rows naive : ℕ)
      → Round o g g2 k_raw v_raw done rows naive
      → done + rows ≤ n
      → Extended o g2 g'
          (drop ((done + rows) * (g2.store_template.n_kv * g2.store_template.d_qk)) k_raw)
          (drop ((done + rows) * (g2.store_template.n_kv * g2.store_template.d_v)) v_raw)
          (n - (done + rows))
          naive
      → Extended o g g'
          (drop (done * (g.store_template.n_kv * g.store_template.d_qk)) k_raw)
          (drop (done * (g.store_template.n_kv * g.store_template.d_v)) v_raw)
          (n - done)
          naive
  unfolding stored_values
  Round-Extended g g2 g' k_raw v_raw n done rows naive round le later =
      let t = g.store_template in
      let same = round.taken.template in
      let later_k =
        subst (λ t. keys o g' ≡ keys o g2 ++ drop ((done + rows) * (t.n_kv * t.d_qk)) k_raw) same
          later.key_rows in
      let later_v =
        subst
          (λ t.
            values o g'
            ≡ values o g2
              ++ stored_values o t naive (drop ((done + rows) * (t.n_kv * t.d_v)) v_raw))
          same later.value_rows in
      let f : F → F = λ x. mul x (scale_in o t naive) in
      let rest_v = drop ((done + rows) * (t.n_kv * t.d_v)) v_raw in
      record {
        whole = later.whole;
        template = later.template ∙ same;
        size = later.size ∙ round.taken.size;
        rows = omega (arith, later.rows, round.taken.rows);
        key_rows = glue (keys o g) round.k _ later_k round.taken.key_rows round.cut_k;
        value_rows =
            glue (values o g) (map f round.v) (map f rest_v) later_v round.taken.value_rows
              (sym (map-append f round.v rest_v) ∙ ap (map f) round.cut_v);
      }

  append_round-filled :
      (rest : GaPaged F → ℕ → GaPaged F × Result Fault (Unit {0})) (g : GaPaged F) (k v : List F)
      (n done naive page off : ℕ) (store : RowStore F)
      → let rows = min (g.page_tokens - off) (n - done) in
        let grown = grow_table o g page in
        filled_slot o grown page k v done rows naive ≡ ok (page, store)
        → append_round o rest g k v n done naive page off
          ≡ rest (after o grown page store (g.n_rows + rows)) (done + rows)
  unfolding append_round after
  append_round-filled rest g k v n done naive page off store run = rw (run, append_round) refl

  append_loop-Extended :
      (fuel : ℕ) (g : GaPaged F) (k v : List F) (n done naive : ℕ)
      → IsPaged o g
      → n ≤ done + fuel
      → done ≤ n
      → length k ≡ n * (g.store_template.n_kv * g.store_template.d_qk)
      → length v ≡ n * (g.store_template.n_kv * g.store_template.d_v)
      → (g' : GaPaged F) × ((append_loop o fuel g k v n done naive ≡ (g', ok tt))
          × Extended o g g'
              (drop (done * (g.store_template.n_kv * g.store_template.d_qk)) k)
              (drop (done * (g.store_template.n_kv * g.store_template.d_v)) v)
              (n - done)
              naive)
  unfolding append_loop after
  append_loop-Extended zero g k v n done naive w enough le same_k same_v =
      (g, (refl, finished o g k v n done naive w (omega arith) same_k same_v))
  append_loop-Extended (suc fuel) g k v n done naive w enough le same_k same_v =
      elim (Bool-cases (ltb done n)) [
        | inr at_end ↦
            rw at_end (g, (refl, finished o g k v n done naive w (ground arith) same_k same_v))
        | inl more ↦
            let less =
              offset_below o g.store_template g.page_tokens w.off w.last w.some_tokens w.rest in
            let page : g.n_rows / g.page_tokens ≡ length w.full =
              quotient o _ _ w.off _ w.rows less w.some_tokens in
            let off : g.n_rows % g.page_tokens ≡ w.off = remainder o _ _ w.off _ w.rows less in
            let rows = min (g.page_tokens - w.off) (n - done) in
            let grown = grow_table o g (length w.full) in
            let room =
              grow_table-Room o g w.full w.last w.off w.plain w.some_tokens w.pages w.slots w.table
                w.rest in
            let some_rows : 1 ≤ rows = (let h : done < n = ground arith in omega arith) in
            let (store, (run, round)) =
              filled_slot-Round o g grown w.full w.off n done rows naive k v room w.plain w.rows
                some_rows (omega arith) (omega arith) same_k same_v in
            let g2 = after o grown (length w.full) store (g.n_rows + rows) in
            let (g', (tail, later)) =
              append_loop-Extended fuel g2 k v n (done + rows) naive round.taken.whole (omega arith)
                (omega arith)
                (subst (λ t. length k ≡ n * (t.n_kv * t.d_qk)) (sym room.template) same_k)
                (subst (λ t. length v ≡ n * (t.n_kv * t.d_v)) (sym room.template) same_v) in
            let rest = λ (next : GaPaged F) (done : ℕ). append_loop o fuel next k v n done naive in
            let whole_round =
              append_round-filled rest g k v n done naive (length w.full) w.off store run in
            rw more (
              rw page (
                rw off (
                  rw whole_round (
                    g',
                    (tail, Round-Extended g g2 g' k v n done rows naive round (omega arith) later),
                  ))))
      ]

  -- In the f32 mode, from pages in order and with planes of `n` rows each, `append` succeeds: the pages
  -- stay in order (each full but the last, in the slots 0, 1, ...), and the rows of all pages read one
  -- after another are the old ones followed by the keys and the scaled values of the batch, however
  -- the batch spills over pages.
  pub append_paged-Extended :
      (g : GaPaged F) (k v : List F) (n naive : ℕ)
      → IsPaged o g
      → length k ≡ n * (g.store_template.n_kv * g.store_template.d_qk)
      → length v ≡ n * (g.store_template.n_kv * g.store_template.d_v)
      → (g' : GaPaged F) × ((append_paged o g k v n naive ≡ (g', ok tt))
          × Extended o g g' k v n naive)
  unfolding append_paged
  append_paged-Extended g k v n naive w same_k same_v =
      let t = g.store_template in
      let (g', (run, whole)) =
        append_loop-Extended n g k v n 0 naive w (omega arith) (omega arith) same_k same_v in
      let none_k : 0 * (t.n_kv * t.d_qk) ≡ 0 = omega arith in
      let none_v : 0 * (t.n_kv * t.d_v) ≡ 0 = omega arith in
      (
        g',
        (
          run,
          record {
            whole = whole.whole;
            template = whole.template;
            size = whole.size;
            rows = omega (arith, whole.rows);
            key_rows = whole.key_rows ∙ ap (λ c. keys o g ++ drop c k) none_k;
            value_rows =
                whole.value_rows
                ∙ ap (λ c. values o g ++ stored_values o t naive (drop c v)) none_v;
          },
        ),
      )
