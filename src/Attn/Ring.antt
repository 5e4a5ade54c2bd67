-- ===== src/Attn/Ring.antt =====
-- crates/mimo26-attn/src/cache.rs: `SwaRing`, the rows of one sliding-window layer. Positions are i64.
pub mod Bound
pub mod Evicted
pub mod Appended
use mimo26f_afd.Prelude.{
  ℕ, Bool, true, false, zero, suc, ◌+◌, ◌-◌, ◌/◌, ◌==◌, ltb, if◌then◌else◌, Option, none, some,
  List, [], ◌∷◌, ◌++◌, length, drop, get_or, min, max, Result, ok, err, ◌>>=◌,
}
use mimo26f_afd.Int.{ℤ, pos, negsuc, ltb_ℤ, ◌+ℤ◌, ◌-ℤ◌, wrap64}
use mimo26f_afd.Attn.{
  has, evict_keep_last, AttnError, kv_layout, Fault, attn, panic, StoreMode, Floats,
}
use mimo26f_afd.Attn.Rows.{RowStore, new_store, append_rows, read_rows, drop_front}

pub record SwaRing (F : Type 0) : Type 0 where
  pub store : RowStore F
  pub at : List ℤ
  pub window : ℕ

-- The loop of `lower_bound_i64`, on fuel.
unfoldable pub bound_loop : ℕ → List ℤ → ℤ → ℕ → ℕ → ℕ
bound_loop zero v x lo hi = lo
bound_loop (suc fuel) v x lo hi =
    let mid = (lo + hi) / 2 in
    let above = bound_loop fuel v x (mid + 1) hi in
    let below = bound_loop fuel v x lo mid in
    if ltb lo hi then (if ltb_ℤ (get_or v mid (pos 0)) x then above else below) else lo

unfoldable pub lower_bound : List ℤ → ℤ → ℕ
unfolding bound_loop
lower_bound v x = bound_loop (length v) v x 0 (length v)

-- `.iter().copied().min().unwrap_or(0)`
unfoldable pub least_from : ℤ → List ℤ → ℤ
least_from m [] = m
least_from m (x ∷ xs) = least_from (if ltb_ℤ x m then x else m) xs

unfoldable pub least : List ℤ → ℤ
unfolding least_from
least [] = pos 0
least (x ∷ xs) = least_from x xs

unfoldable pub evict_count : List ℤ → ℕ → ℕ → ℕ → ℕ
unfolding least lower_bound
evict_count at window batch_rows naive =
    let n = length at in
    let batch_min = least (drop (n - batch_rows) at) in
    let keep_from = wrap64 (wrap64 (batch_min -ℤ wrap64 (pos window)) +ℤ pos 1) in
    let drop_keep = lower_bound at keep_from in
    let drop_trim = n - (window + batch_rows) in
    if has naive evict_keep_last then n - window else min n (max drop_keep drop_trim)

unfoldable pub last_of : List ℤ → Option ℤ
last_of [] = none
last_of (x ∷ []) = some x
last_of (x ∷ y ∷ xs) = last_of (y ∷ xs)

module _ (o : Floats) where
  open o use {F}

  unfoldable pub new_ring : StoreMode → ℕ → ℕ → ℕ → ℕ → F → SwaRing F
  unfolding new_store
  new_ring mode n_kv d_qk d_v window value_scale = record {
    store = new_store o mode n_kv d_qk d_v value_scale;
    at = [];
    window = window;
  }

  -- The eviction at the end of `SwaRing::append`.
  unfoldable pub evict_front : SwaRing F → ℕ → ℕ → Result Fault (SwaRing F)
  unfolding drop_front evict_count
  evict_front r n naive =
      let count = evict_count r.at r.window n naive in
      if ltb 0 count
      then (do
        kept ← drop_front o r.store count
        ok (record r { store = kept; at = drop count r.at }))
      else ok r

  -- `SwaRing::append` from the call of the store on.
  unfoldable pub store_batch : SwaRing F → List F → List F → List ℤ → ℕ → Result Fault (SwaRing F)
  unfolding append_rows evict_front
  store_batch r k_raw v_raw positions naive = do
    let n = length positions
    store ← append_rows o r.store k_raw v_raw n naive
    evict_front (record { store = store; at = r.at ++ positions; window = r.window }) n naive

  unfoldable pub append_batch : SwaRing F → List F → List F → List ℤ → ℕ → Result Fault (SwaRing F)
  unfolding store_batch last_of
  append_batch r k_raw v_raw [] naive = ok r
  append_batch r k_raw v_raw (p ∷ ps) naive = elim (last_of r.at) [
    | none ↦ store_batch r k_raw v_raw (p ∷ ps) naive
    | some last ↦
        if ltb_ℤ p last
        then err (attn (kv_layout (p ∷ last ∷ [])))
        else store_batch r k_raw v_raw (p ∷ ps) naive
  ]

  -- `SwaRing::get`
  unfoldable pub visible_rows : SwaRing F → ℕ → Result Fault ((List F × List F) × List ℤ)
  unfolding read_rows
  visible_rows r naive = do rows ← read_rows o r.store naive; ok (rows, r.at)
