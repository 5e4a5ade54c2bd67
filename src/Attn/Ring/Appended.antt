-- ===== src/Attn/Ring/Appended.antt =====
-- crates/mimo26-attn/src/cache.rs: `SwaRing::append` in the f32 mode.
use mimo26f_afd.Prelude.{
  ℕ, false, suc, ◌*◌, ◌^◌, ◌≤◌, ◌<◌, ◌≡◌, refl, inl, inr, Bool-cases, ap, arith, ltb, some,
  Option-cases, List, [], ◌∷◌, ◌++◌, map, length, length-append, length-drop, drop, ok,
}
use mathlib.Core.Path.{subst, sym}
use mathlib.Core.Option.{some-injective, none-ne-some}
use mimo26f_afd.Int.{ℤ, pos, ltb_ℤ}
use mimo26f_afd.Attn.{has, evict_keep_last, Floats}
use mimo26f_afd.Attn.Ring.{SwaRing, evict_count, evict_front, last_of, store_batch, append_batch}
use mimo26f_afd.Attn.Ring.Bound.{Increasing}
use mimo26f_afd.Attn.Ring.Evicted.{Evicts, evict_count-Evicts}
use mimo26f_afd.Attn.Rows.Stored.{
  Holds, scale_in, joined, dropped, append_rows-joined, drop_front-dropped, Holds-joined,
  Holds-dropped, drop_none,
}

module _ (o : Floats) where
  open o use {F, one, mul}

  -- A ring in the f32 mode whose positions are those of its rows.
  unfoldable pub IsWhole : SwaRing F → Type 0
  IsWhole r = Holds o r.store (length r.at)

  -- What the ring `r` is after a batch of `k`, `v` and `batch` of which `count` rows were given up.
  pub record Appended (r : SwaRing F) (k v : List F) (batch : List ℤ) (naive count : ℕ)
      (r' : SwaRing F) : Type 0 where
    pub positions : r'.at ≡ drop count (r.at ++ batch)
    pub key_rows :
        r'.store.f32_k ≡ drop (count * (r.store.n_kv * r.store.d_qk)) (r.store.f32_k ++ k)
    pub value_rows :
        r'.store.f32_v
        ≡ drop
            (count * (r.store.n_kv * r.store.d_v))
            (r.store.f32_v ++ map (λ x. mul x (scale_in o r.store naive)) v)
    pub whole : IsWhole r'

  evict_front-Appended :
      (r : SwaRing F) (k v : List F) (batch : List ℤ) (naive : ℕ)
      → IsWhole r
      → length k ≡ length batch * r.store.n_kv * r.store.d_qk
      → length v ≡ length batch * r.store.n_kv * r.store.d_v
      → let count = evict_count (r.at ++ batch) r.window (length batch) naive in
        count ≤ length (r.at ++ batch)
        → (r' : SwaRing F) × ((evict_front o
                (record {
                  store = joined o r.store k v (length batch) naive;
                  at = r.at ++ batch;
                  window = r.window;
                })
                (length batch)
                naive
              ≡ ok r')
            × Appended r k v batch naive count r')
  unfolding evict_front IsWhole dropped joined
  evict_front-Appended r k v batch naive held same_k same_v inside =
      let n = length batch in
      let at = r.at ++ batch in
      let count = evict_count at r.window n naive in
      let store = joined o r.store k v n naive in
      let held' : Holds o store (length at) =
        subst (Holds o store) (sym (length-append r.at batch))
          (Holds-joined o r.store (length r.at) n naive k v held same_k same_v) in
      elim (Bool-cases (ltb 0 count)) [
        | inl some_rows ↦
            let drained =
              drop_front-dropped o store (length at) count held' (ground arith) inside in
            rw some_rows (
              rw drained (
                record { store = dropped o store count; at = drop count at; window = r.window },
                (
                  refl,
                  record {
                    positions = refl;
                    key_rows = refl;
                    value_rows = refl;
                    whole =
                        subst (Holds o (dropped o store count)) (sym (length-drop count at))
                          (Holds-dropped o store (length at) count held' inside);
                  },
                ),
              ))
        | inr no_rows ↦
            let none_left : 0 ≡ count = ground arith in
            rw no_rows (
              record { store = store; at = at; window = r.window },
              (
                refl,
                record {
                  positions = ap (λ c. drop c at) none_left;
                  key_rows = drop_none count (r.store.n_kv * r.store.d_qk) store.f32_k none_left;
                  value_rows = drop_none count (r.store.n_kv * r.store.d_v) store.f32_v none_left;
                  whole = held';
                },
              ),
            )
      ]

  last_of-Increasing :
      (xs ys : List ℤ) (y last : ℤ)
      → Increasing (xs ++ (y ∷ ys))
      → last_of xs ≡ some last
      → ltb_ℤ y last ≡ false
  unfolding last_of Increasing
  last_of-Increasing [] ys y last up h = absurd (none-ne-some last h)
  last_of-Increasing (x ∷ []) ys y last up h =
      let same : x ≡ last = some-injective x last h in
      let next = rw same at (up 0 (omega arith)) in ground arith
  last_of-Increasing (x ∷ z ∷ xs) ys y last up h =
      last_of-Increasing (z ∷ xs) ys y last (λ i p. up (suc i) (omega arith)) h

  -- Without the bit EVICT_KEEP_LAST, a batch of the right shape whose positions continue the increasing
  -- positions of a ring in the f32 mode is stored: `append` succeeds, gives up exactly the leading rows
  -- that the batch's first query, at `p`, no longer sees, keeps the others in order with the scaled
  -- values of the batch behind them, and leaves as many positions as rows.
  pub append_batch-Appended :
      (r : SwaRing F) (k v : List F) (p : ℕ) (ps : List ℤ) (naive : ℕ)
      → IsWhole r
      → length k ≡ length (pos p ∷ ps) * r.store.n_kv * r.store.d_qk
      → length v ≡ length (pos p ∷ ps) * r.store.n_kv * r.store.d_v
      → Increasing (r.at ++ (pos p ∷ ps))
      → p < 2 ^ 63
      → 1 ≤ r.window
      → r.window < 2 ^ 63
      → has naive evict_keep_last ≡ false
      → (count : ℕ) × (r' : SwaRing F) × ((append_batch o r k v (pos p ∷ ps) naive ≡ ok r')
          × (Evicts (r.at ++ (pos p ∷ ps)) r.window p count
              × Appended r k v (pos p ∷ ps) naive count r'))
  unfolding append_batch store_batch IsWhole
  append_batch-Appended r k v p ps naive held same_k same_v up h lo hi correct =
      let batch = pos p ∷ ps in
      let count = evict_count (r.at ++ batch) r.window (length batch) naive in
      let evicts = evict_count-Evicts r.at ps p r.window naive up h lo hi correct in
      let (r', (run, appended)) =
        evict_front-Appended r k v batch naive held same_k same_v evicts.inside in
      let stored =
        append_rows-joined o r.store (length r.at) (length batch) naive k v held (omega arith)
          same_k same_v in
      elim (Option-cases (last_of r.at)) [
        | inl empty ↦ rw (empty, append_batch) (rw stored (count, r', (run, (evicts, appended))))
        | inr (last, is_last) ↦
            let later = last_of-Increasing r.at ps (pos p) last up is_last in
            rw (is_last, append_batch) (rw later (rw stored (count, r', (run, (evicts, appended)))))
      ]
