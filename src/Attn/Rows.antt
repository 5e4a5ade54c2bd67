-- ===== src/Attn/Rows.antt =====
-- crates/mimo26-attn/src/cache.rs: `RowStore`.
pub mod Stored
use mimo26f_afd.Prelude.{
  ℕ, Bool, true, false, ◌+◌, ◌-◌, ◌*◌, ◌/◌, ◌==◌, ◌&&◌, ◌||◌, not, leb, if◌then◌else◌, Option, none,
  some, List, [], ◌∷◌, ◌++◌, map, length, take, drop, Result, ok, err, ◌>>=◌,
}
use mimo26f_afd.Word.{add64}
use mimo26f_afd.Attn.{
  has, vscale_after_store, vscale_on_read, block128_shared_scales, shape_mismatch, Fault, attn,
  panic, ScaleMode, unit_scale, per_token_head, StoreMode, f32, fp8_unit, fp8_per_token_head,
  Layout, unit_layout, per_token_head_layout, block128_shared, EncodedKv, Floats,
}

unfoldable pub scale_mode : StoreMode → Option ScaleMode
scale_mode f32 = none
scale_mode fp8_unit = some unit_scale
scale_mode fp8_per_token_head = some per_token_head

unfoldable pub same_layout : Layout → Layout → Bool
same_layout unit_layout unit_layout = true
same_layout per_token_head_layout per_token_head_layout = true
same_layout block128_shared block128_shared = true
same_layout a b = false

-- shared_blocks_per_row of fp8kv.rs
unfoldable pub shared_blocks_per_row : ℕ → ℕ → ℕ → ℕ
shared_blocks_per_row n_kv d_qk d_v = (n_kv * (d_qk + d_v) + 127) / 128

-- Layout::of
unfoldable pub layout_of : ScaleMode → ℕ → Layout
layout_of mode naive =
    if has naive block128_shared_scales
    then block128_shared
    else elim mode [ unit_scale ↦ unit_layout | per_token_head ↦ per_token_head_layout ]

-- The codes and the scales, of 4 bytes each.
unfoldable pub kv_bytes_per_token : Layout → ℕ → ℕ → ℕ → ℕ
unfolding shared_blocks_per_row
kv_bytes_per_token layout n_kv d_qk d_v =
    let codes = n_kv * (d_qk + d_v) in
    elim layout [
      | unit_layout ↦ codes
      | per_token_head_layout ↦ codes + n_kv * 2 * 4
      | block128_shared ↦ codes + shared_blocks_per_row n_kv d_qk d_v * 4
    ]

module _ {F : Type 0} where
  unfoldable pub merge_encoded : EncodedKv F → EncodedKv F → Result Fault (EncodedKv F)
  unfolding same_layout
  merge_encoded dst src =
      if same_layout dst.layout src.layout && dst.n_kv == src.n_kv
      then ok (record dst {
        k_codes = dst.k_codes ++ src.k_codes;
        v_codes = dst.v_codes ++ src.v_codes;
        k_scales = dst.k_scales ++ src.k_scales;
        v_scales = dst.v_scales ++ src.v_scales;
        shared_scales = dst.shared_scales ++ src.shared_scales;
        clip_count = add64 dst.clip_count src.clip_count;
        n_tok = dst.n_tok + src.n_tok;
      })
      else err panic

-- `xs.drain(..n)`, which panics past the end.
unfoldable pub drain_to {ℓ} : {A : Type ℓ} → ℕ → List A → Result Fault (List A)
drain_to n xs = if leb n (length xs) then ok (drop n xs) else err panic

-- `xs[lo..hi]`, which panics past the end.
unfoldable pub slice {ℓ} : {A : Type ℓ} → ℕ → ℕ → List A → Result Fault (List A)
slice lo hi xs =
    if leb lo hi && leb hi (length xs) then ok (take (hi - lo) (drop lo xs)) else err panic

module _ {F : Type 0} where
  -- The front of an encoded store that `drop_front` drains.
  unfoldable pub drain_encoded : ℕ → ℕ → ℕ → ℕ → EncodedKv F → Result Fault (EncodedKv F)
  unfolding shared_blocks_per_row drain_to
  drain_encoded n n_kv d_qk d_v enc = do
    k_codes ← drain_to (n * (n_kv * d_qk)) enc.k_codes
    v_codes ← drain_to (n * (n_kv * d_v)) enc.v_codes
    let codes = record enc { k_codes = k_codes; v_codes = v_codes; n_tok = enc.n_tok - n }
    elim enc.layout [
      | unit_layout ↦ ok codes
      | per_token_head_layout ↦ (do
        k_scales ← drain_to (n * n_kv) enc.k_scales
        v_scales ← drain_to (n * n_kv) enc.v_scales
        ok (record codes { k_scales = k_scales; v_scales = v_scales }))
      | block128_shared ↦ (do
        shared ← drain_to (n * shared_blocks_per_row n_kv d_qk d_v) enc.shared_scales
        ok (record codes { shared_scales = shared }))
    ]

-- The fields of `RowStore`, over the floats.
pub record RowStore (F : Type 0) : Type 0 where
  pub mode : StoreMode
  pub n_kv : ℕ
  pub d_qk : ℕ
  pub d_v : ℕ
  pub value_scale : F
  pub f32_k : List F
  pub f32_v : List F
  pub enc : Option (EncodedKv F)
  pub n_rows : ℕ

module _ (o : Floats) where
  open o use {F, one, mul, is_one, encode_kv, decode_kv}

  unfoldable pub new_store : StoreMode → ℕ → ℕ → ℕ → F → RowStore F
  new_store mode n_kv d_qk d_v value_scale = record {
    mode = mode;
    n_kv = n_kv;
    d_qk = d_qk;
    d_v = d_v;
    value_scale = value_scale;
    f32_k = [];
    f32_v = [];
    enc = none;
    n_rows = 0;
  }

  -- The two FP8 modes of `RowStore::append`.
  unfoldable pub append_encoded :
      RowStore F → ScaleMode → List F → List F → ℕ → ℕ → Result Fault (RowStore F)
  unfolding merge_encoded
  append_encoded s mode k_raw v_stored n naive =
      elim (encode_kv k_raw v_stored n s.n_kv s.d_qk s.d_v mode naive) [
        | err e ↦ err (attn e)
        | ok chunk ↦ elim s.enc [
          | none ↦ ok (record s { enc = some chunk; n_rows = s.n_rows + n })
          | some dst ↦ elim (merge_encoded dst chunk) [
            | err e ↦ err e
            | ok merged ↦ ok (record s { enc = some merged; n_rows = s.n_rows + n })
          ]
        ]
      ]

  unfoldable pub append_rows : RowStore F → List F → List F → ℕ → ℕ → Result Fault (RowStore F)
  unfolding append_encoded scale_mode
  append_rows s k_raw v_raw n naive =
      if not (length k_raw == n * s.n_kv * s.d_qk) || not (length v_raw == n * s.n_kv * s.d_v)
      then err
          (attn (shape_mismatch (length k_raw ∷ length v_raw ∷ n ∷ s.n_kv ∷ s.d_qk ∷ s.d_v ∷ [])))
      else if n == 0
      then ok s
      else (let scale = if has naive vscale_after_store then one else s.value_scale in
          let v_stored = map (λ x. mul x scale) v_raw in
          elim (scale_mode s.mode) [
            | none ↦ ok (record s {
              f32_k = s.f32_k ++ k_raw;
              f32_v = s.f32_v ++ v_stored;
              n_rows = s.n_rows + n;
            })
            | some mode ↦ append_encoded s mode k_raw v_stored n naive
          ])

  -- `RowStore::rows`
  unfoldable pub read_rows : RowStore F → ℕ → Result Fault (List F × List F)
  unfolding scale_mode
  read_rows s naive =
      let scale = if has naive vscale_on_read then s.value_scale else one in
      elim (scale_mode s.mode) [
        | none ↦ ok (s.f32_k, if is_one scale then s.f32_v else map (λ x. mul x scale) s.f32_v)
        | some mode ↦ elim s.enc [ none ↦ err panic | some enc ↦ ok (decode_kv enc scale) ]
      ]

  unfoldable pub rows_range : RowStore F → ℕ → ℕ → ℕ → Result Fault (List F × List F)
  unfolding read_rows slice
  rows_range s lo hi naive =
      if leb hi s.n_rows && leb lo hi
      then (do
        (k, v) ← read_rows s naive
        k_rows ← slice (lo * (s.n_kv * s.d_qk)) (hi * (s.n_kv * s.d_qk)) k
        v_rows ← slice (lo * (s.n_kv * s.d_v)) (hi * (s.n_kv * s.d_v)) v
        ok (k_rows, v_rows))
      else err panic

  -- The storage that `drop_front` drains.
  unfoldable pub drain_rows : RowStore F → ℕ → Result Fault (RowStore F)
  unfolding drain_encoded drain_to scale_mode
  drain_rows s n = elim (scale_mode s.mode) [
    | none ↦ (do
      k ← drain_to (n * (s.n_kv * s.d_qk)) s.f32_k
      v ← drain_to (n * (s.n_kv * s.d_v)) s.f32_v
      ok (record s { f32_k = k; f32_v = v; n_rows = s.n_rows - n }))
    | some mode ↦ elim s.enc [
      | none ↦ err panic
      | some enc ↦ (do
        drained ← drain_encoded n s.n_kv s.d_qk s.d_v enc
        ok (record s { enc = some drained; n_rows = s.n_rows - n }))
    ]
  ]

  unfoldable pub drop_front : RowStore F → ℕ → Result Fault (RowStore F)
  unfolding drain_rows
  drop_front s n =
      if not (leb n s.n_rows) then err panic else if n == 0 then ok s else drain_rows s n
