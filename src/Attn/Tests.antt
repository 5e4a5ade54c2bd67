-- ===== src/Attn/Tests.antt =====
-- A ring of window 2 with one key and one value to a row, over numbers as floats.
use mimo26f_afd.Prelude.{ℕ, zero, suc, none, ◌*◌, ◌==◌, ◌≡◌, refl, arith, [], List, ◌∷◌, ok, err}
use mimo26f_afd.Int.{pos, wrap64, ◌+ℤ◌, ◌-ℤ◌}
use mimo26f_afd.Attn.{shape_mismatch, unit_layout, kv_layout, attn, f32, Floats}
use mimo26f_afd.Attn.Rows.{RowStore, kv_bytes_per_token, rows_range}
use mimo26f_afd.Attn.Paged.{
  GaPaged, grow_table, filled_slot, append_round, append_paged, paged_range, read_loop, read_round,
  pool_bytes, page_of, slot_of, page_rows,
}
use mimo26f_afd.Attn.Paged.Pages.{upto}
use mimo26f_afd.Attn.Paged.Flat.{Full, opened, IsPaged, keys, values}
use mimo26f_afd.Attn.Paged.Round.{Extended}
use mimo26f_afd.Attn.Paged.Read.{rows_of, paged_range-rows}
use mimo26f_afd.Attn.Paged.Extended.{append_paged-Extended}
use mimo26f_afd.Attn.Ring.{SwaRing, append_batch, lower_bound}
use mimo26f_afd.Attn.Ring.Bound.{Sorted, Increasing, Increasing-Sorted, Parts, lower_bound-Parts}
use mimo26f_afd.Attn.Ring.Evicted.{Evicts}
use mimo26f_afd.Attn.Ring.Appended.{IsWhole, Appended, append_batch-Appended}

abbrev whole_numbers : Floats
whole_numbers = record {
  F = ℕ;
  one = 1;
  mul = λ x y. x * y;
  is_one = λ x. x == 1;
  encode_kv = λ k v n a b c m naive. err (shape_mismatch []);
  decode_kv = λ enc scale. ([], []);
}

abbrev three_rows : SwaRing ℕ
three_rows = record {
  store = record {
    mode = f32;
    n_kv = 1;
    d_qk = 1;
    d_v = 1;
    value_scale = 3;
    f32_k = 10 ∷ 11 ∷ 12 ∷ [];
    f32_v = 0 ∷ 3 ∷ 6 ∷ [];
    enc = none;
    n_rows = 3;
  };
  at = pos 4 ∷ pos 5 ∷ pos 6 ∷ [];
  window = 2;
}

-- A batch of two keeps the row before it.
appended_two :
    append_batch whole_numbers three_rows (13 ∷ 14 ∷ []) (7 ∷ 8 ∷ []) (pos 7 ∷ pos 8 ∷ []) 0
    ≡ ok (record {
      store = record {
        mode = f32;
        n_kv = 1;
        d_qk = 1;
        d_v = 1;
        value_scale = 3;
        f32_k = 12 ∷ 13 ∷ 14 ∷ [];
        f32_v = 6 ∷ 21 ∷ 24 ∷ [];
        enc = none;
        n_rows = 3;
      };
      at = pos 6 ∷ pos 7 ∷ pos 8 ∷ [];
      window = 2;
    })
unfolding append_batch wrap64 ◌+ℤ◌ ◌-ℤ◌
appended_two = refl

-- A position behind the last one is refused.
refused_back :
    append_batch whole_numbers three_rows (13 ∷ []) (7 ∷ []) (pos 5 ∷ []) 0
    ≡ err (attn (kv_layout (pos 5 ∷ pos 6 ∷ [])))
unfolding append_batch
refused_back = refl

five_up : Increasing (pos 4 ∷ pos 5 ∷ pos 6 ∷ pos 7 ∷ pos 8 ∷ [])
unfolding Increasing
five_up zero h = refl
five_up (suc zero) h = refl
five_up (suc (suc zero)) h = refl
five_up (suc (suc (suc zero))) h = refl
five_up (suc (suc (suc (suc i)))) h = absurd (omega arith)

five_up-Sorted : Sorted (pos 4 ∷ pos 5 ∷ pos 6 ∷ pos 7 ∷ pos 8 ∷ [])
five_up-Sorted = Increasing-Sorted (pos 4 ∷ pos 5 ∷ pos 6 ∷ pos 7 ∷ pos 8 ∷ []) five_up

three_rows-IsWhole : IsWhole whole_numbers three_rows
unfolding IsWhole
three_rows-IsWhole = record { plain = refl; counted = refl; keys = refl; values = refl }

lower_bound-Parts_example :
    Parts
      (pos 4 ∷ pos 5 ∷ pos 6 ∷ pos 7 ∷ pos 8 ∷ [])
      (pos 6)
      (lower_bound (pos 4 ∷ pos 5 ∷ pos 6 ∷ pos 7 ∷ pos 8 ∷ []) (pos 6))
lower_bound-Parts_example =
    lower_bound-Parts (pos 4 ∷ pos 5 ∷ pos 6 ∷ pos 7 ∷ pos 8 ∷ []) (pos 6) five_up-Sorted

append_batch-Appended_example :
    (count : ℕ) × (r' : SwaRing ℕ) × ((append_batch whole_numbers three_rows
          (13 ∷ 14 ∷ [])
          (7 ∷ 8 ∷ [])
          (pos 7 ∷ pos 8 ∷ [])
          0
        ≡ ok r')
      × (Evicts (pos 4 ∷ pos 5 ∷ pos 6 ∷ pos 7 ∷ pos 8 ∷ []) 2 7 count
          × Appended whole_numbers three_rows
              (13 ∷ 14 ∷ [])
              (7 ∷ 8 ∷ [])
              (pos 7 ∷ pos 8 ∷ [])
              0
              count
              r'))
append_batch-Appended_example =
    append_batch-Appended whole_numbers three_rows (13 ∷ 14 ∷ []) (7 ∷ 8 ∷ []) 7 (pos 8 ∷ []) 0
      three_rows-IsWhole refl refl five_up (omega arith) (omega arith) (omega arith) refl

-- Pages of two rows, the last one with one row in it.
abbrev store_of : List ℕ → List ℕ → ℕ → RowStore ℕ
store_of k v n = record {
  mode = f32;
  n_kv = 1;
  d_qk = 1;
  d_v = 1;
  value_scale = 3;
  f32_k = k;
  f32_v = v;
  enc = none;
  n_rows = n;
}

abbrev two_pages : GaPaged ℕ
two_pages = record {
  store_template = store_of [] [] 0;
  page_tokens = 2;
  page_table = 0 ∷ 1 ∷ [];
  slots = store_of (10 ∷ 11 ∷ []) (0 ∷ 3 ∷ []) 2 ∷ store_of (12 ∷ []) (6 ∷ []) 1 ∷ [];
  n_rows = 3;
}

-- Four rows fill the second page, a third and half of a fourth.
appended_four :
    append_paged whole_numbers two_pages (13 ∷ 14 ∷ 15 ∷ 16 ∷ []) (3 ∷ 4 ∷ 5 ∷ 6 ∷ []) 4 0 ≡ (
      record {
        store_template = store_of [] [] 0;
        page_tokens = 2;
        page_table = 0 ∷ 1 ∷ 2 ∷ 3 ∷ [];
        slots =
            store_of (10 ∷ 11 ∷ []) (0 ∷ 3 ∷ []) 2
            ∷ store_of (12 ∷ 13 ∷ []) (6 ∷ 9 ∷ []) 2
            ∷ store_of (14 ∷ 15 ∷ []) (12 ∷ 15 ∷ []) 2
            ∷ store_of (16 ∷ []) (18 ∷ []) 1
            ∷ [];
        n_rows = 7;
      },
      ok tt,
    )
unfolding append_paged append_round grow_table filled_slot
appended_four = refl

-- A range that spans pages, and a page.
read_two : paged_range whole_numbers two_pages 1 3 0 ≡ ok (11 ∷ 12 ∷ [], 3 ∷ 6 ∷ [])
unfolding paged_range read_loop read_round page_of slot_of rows_range
read_two = refl

read_last : page_rows whole_numbers two_pages 1 0 ≡ ok (12 ∷ [], 6 ∷ [])
unfolding page_rows
read_last = refl

two_pages-IsPaged : IsPaged whole_numbers two_pages
unfolding Full upto
two_pages-IsPaged = record {
  plain = refl;
  some_tokens = omega arith;
  full = store_of (10 ∷ 11 ∷ []) (0 ∷ 3 ∷ []) 2 ∷ [];
  last = store_of (12 ∷ []) (6 ∷ []) 1 ∷ [];
  off = 1;
  slots = refl;
  pages = (
    record {
      holds = record { plain = refl; counted = refl; keys = refl; values = refl };
      same_kv = refl;
      same_qk = refl;
      same_v = refl;
      same_scale = refl;
    },
    tt,
  );
  rest = opened (store_of (12 ∷ []) (6 ∷ []) 1) 1 (omega arith) (omega arith) (record {
    holds = record { plain = refl; counted = refl; keys = refl; values = refl };
    same_kv = refl;
    same_qk = refl;
    same_v = refl;
    same_scale = refl;
  });
  table = refl;
  rows = refl;
}

append_paged-Extended_example :
    (g' : GaPaged ℕ) × ((append_paged whole_numbers two_pages
          (13 ∷ 14 ∷ 15 ∷ 16 ∷ [])
          (3 ∷ 4 ∷ 5 ∷ 6 ∷ [])
          4
          0
        ≡ (g', ok tt))
      × Extended whole_numbers two_pages g' (13 ∷ 14 ∷ 15 ∷ 16 ∷ []) (3 ∷ 4 ∷ 5 ∷ 6 ∷ []) 4 0)
append_paged-Extended_example =
    append_paged-Extended whole_numbers two_pages (13 ∷ 14 ∷ 15 ∷ 16 ∷ []) (3 ∷ 4 ∷ 5 ∷ 6 ∷ []) 4 0
      two_pages-IsPaged refl refl

paged_range-rows_example :
    paged_range whole_numbers two_pages 1 3 0
    ≡ ok (
      rows_of whole_numbers 1 2 1 (keys whole_numbers two_pages),
      rows_of whole_numbers 1 2 1 (values whole_numbers two_pages),
    )
paged_range-rows_example =
    paged_range-rows whole_numbers two_pages 1 3 0 two_pages-IsPaged (omega arith) (omega arith)
      refl refl

-- Two pages of two rows of two f32 values.
two_pages_bytes : pool_bytes whole_numbers two_pages 0 ≡ 32
unfolding pool_bytes
two_pages_bytes = refl

-- The layout without scales takes 11520 bytes a token at the dimensions of the model's nine layers.
real_bytes : kv_bytes_per_token unit_layout 4 192 128 * 9 ≡ 11520
unfolding kv_bytes_per_token
real_bytes = refl
