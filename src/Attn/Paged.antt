-- ===== src/Attn/Paged.antt =====
-- crates/mimo26-attn/src/cache.rs: `GaPaged`, the pages of one full-attention layer. An operation that fails
-- part of the way returns the state it has reached with the error.
pub mod Pages
pub mod Flat
pub mod Room
pub mod Round
pub mod Extended
pub mod Located
pub mod Read
use mimo26f_afd.Prelude.{
  ℕ, zero, suc, true, false, ◌+◌, ◌-◌, ◌*◌, ◌/◌, ◌%◌, ◌==◌, ◌&&◌, ltb, leb, if◌then◌else◌, min,
  Option, none, some, List, [], ◌∷◌, ◌++◌, length, get_elem?, set, Result, ok, err, ◌>>=◌,
}
use mimo26f_afd.Attn.{Fault, panic, StoreMode, Floats}
use mimo26f_afd.Attn.Rows.{
  RowStore, new_store, append_rows, rows_range, slice, scale_mode, layout_of, kv_bytes_per_token,
}

pub record GaPaged (F : Type 0) : Type 0 where
  pub store_template : RowStore F
  pub page_tokens : ℕ
  pub page_table : List ℕ
  pub slots : List (RowStore F)
  pub n_rows : ℕ

-- `xs[i]`, which panics past the end.
unfoldable pub at_slot {ℓ} : {A : Type ℓ} → List A → ℕ → Result Fault A
at_slot xs i = elim (get_elem? xs i) [ none ↦ err panic | some x ↦ ok x ]

module _ (o : Floats) where
  open o use {F}

  unfoldable pub new_paged : StoreMode → ℕ → ℕ → ℕ → F → GaPaged F
  unfolding new_store
  new_paged mode n_kv d_qk d_v value_scale = record {
    store_template = new_store o mode n_kv d_qk d_v value_scale;
    page_tokens = 256;
    page_table = [];
    slots = [];
    n_rows = 0;
  }

  unfoldable pub with_page_tokens : GaPaged F → ℕ → Result Fault (GaPaged F)
  with_page_tokens g page_tokens =
      if leb 1 page_tokens then ok (record g { page_tokens = page_tokens }) else err panic

  unfoldable pub page_of : GaPaged F → ℕ → ℕ × ℕ
  page_of g token = (token / g.page_tokens, token % g.page_tokens)

  unfoldable pub slot_of : GaPaged F → ℕ → Result Fault ℕ
  unfolding at_slot
  slot_of g logical_page = at_slot g.page_table logical_page

  -- The bytes of the pages, with 4 to an f32.
  unfoldable pub pool_bytes : GaPaged F → ℕ → ℕ
  unfolding kv_bytes_per_token layout_of scale_mode
  pool_bytes g naive =
      let t = g.store_template in
      let tokens = length g.slots * g.page_tokens in
      elim (scale_mode t.mode) [
        | none ↦ tokens * t.n_kv * (t.d_qk + t.d_v) * 4
        | some mode ↦ tokens * kv_bytes_per_token (layout_of mode naive) t.n_kv t.d_qk t.d_v
      ]

  -- A new page where the next row starts one.
  unfoldable pub grow_table : GaPaged F → ℕ → GaPaged F
  unfolding new_store
  grow_table g logical_page =
      if logical_page == length g.page_table
      then (let t = g.store_template in
          let fresh = new_store o t.mode t.n_kv t.d_qk t.d_v t.value_scale in
          record g {
            slots = g.slots ++ (fresh ∷ []);
            page_table = g.page_table ++ (length g.slots ∷ []);
          })
      else g

  -- The store of the next page's rows and its slot, after `rows` rows are added.
  unfoldable pub filled_slot :
      GaPaged F → ℕ → List F → List F → ℕ → ℕ → ℕ → Result Fault (ℕ × RowStore F)
  unfolding append_rows at_slot slice
  filled_slot g logical_page k_raw v_raw done rows naive = do
    let t = g.store_template
    let k_len = t.n_kv * t.d_qk
    let v_len = t.n_kv * t.d_v
    slot ← at_slot g.page_table logical_page
    k ← slice (done * k_len) ((done + rows) * k_len) k_raw
    v ← slice (done * v_len) ((done + rows) * v_len) v_raw
    store ← at_slot g.slots slot
    filled ← append_rows o store k v rows naive
    ok (slot, filled)

  -- One round of `GaPaged::append` for the next row's page and offset, and then `rest`.
  unfoldable pub append_round :
      (GaPaged F → ℕ → GaPaged F × Result Fault (Unit {0}))
      → GaPaged F
      → List F
      → List F
      → ℕ
      → ℕ
      → ℕ
      → ℕ
      → ℕ
      → GaPaged F × Result Fault (Unit {0})
  append_round rest g k_raw v_raw n done naive logical_page off =
      let rows = min (g.page_tokens - off) (n - done) in
      let grown = grow_table g logical_page in
      elim (filled_slot grown logical_page k_raw v_raw done rows naive) [
        | err e ↦ (grown, err e)
        | ok (slot, filled) ↦
            rest (record grown { slots = set grown.slots slot filled; n_rows = g.n_rows + rows })
              (done + rows)
      ]

  -- The loop of `GaPaged::append`, on fuel.
  unfoldable pub append_loop :
      ℕ → GaPaged F → List F → List F → ℕ → ℕ → ℕ → GaPaged F × Result Fault (Unit {0})
  append_loop zero g k_raw v_raw n done naive = (g, ok tt)
  append_loop (suc fuel) g k_raw v_raw n done naive =
      let rest = λ (next : GaPaged F) (done : ℕ). append_loop fuel next k_raw v_raw n done naive in
      if ltb done n
      then append_round rest g k_raw v_raw n done naive (g.n_rows / g.page_tokens)
          (g.n_rows % g.page_tokens)
      else (g, ok tt)

  unfoldable pub append_paged :
      GaPaged F → List F → List F → ℕ → ℕ → GaPaged F × Result Fault (Unit {0})
  unfolding append_loop
  append_paged g k_raw v_raw n naive = append_loop n g k_raw v_raw n 0 naive

  -- One round of `GaPaged::rows_range` for the next row's page and offset, and then `rest`.
  unfoldable pub read_round :
      (ℕ → List F → List F → Result Fault (List F × List F))
      → GaPaged F
      → ℕ
      → ℕ
      → List F
      → List F
      → ℕ
      → ℕ × ℕ
      → Result Fault (List F × List F)
  read_round rest g t hi k v naive (page, off) = do
    let rows = min (g.page_tokens - off) (hi - t)
    slot ← slot_of g page
    store ← at_slot g.slots slot
    (pk, pv) ← rows_range o store off (off + rows) naive
    rest (t + rows) (k ++ pk) (v ++ pv)

  -- The loop of `GaPaged::rows_range`, on fuel.
  unfoldable pub read_loop :
      ℕ → GaPaged F → ℕ → ℕ → List F → List F → ℕ → Result Fault (List F × List F)
  read_loop zero g t hi k v naive = ok (k, v)
  read_loop (suc fuel) g t hi k v naive =
      let rest = λ (t : ℕ) (k v : List F). read_loop fuel g t hi k v naive in
      if ltb t hi then read_round rest g t hi k v naive (page_of g t) else ok (k, v)

  unfoldable pub paged_range : GaPaged F → ℕ → ℕ → ℕ → Result Fault (List F × List F)
  paged_range g lo hi naive =
      if leb hi g.n_rows && leb lo hi then read_loop (hi - lo) g lo hi [] [] naive else err panic

  unfoldable pub page_rows : GaPaged F → ℕ → ℕ → Result Fault (List F × List F)
  unfolding slot_of at_slot rows_range
  page_rows g logical_page naive = do
    slot ← slot_of g logical_page
    let lo = logical_page * g.page_tokens
    let hi = min (lo + g.page_tokens) g.n_rows
    if ltb lo hi
        then (at_slot g.slots slot >>= λ store. rows_range o store 0 (hi - lo) naive)
        else err panic
