-- ===== src/Wire/Tests/Sums.antt =====
-- Partials of two tokens of one number each, added as natural numbers.
use mimo26f_afd.Prelude.{ℕ, false, ◌+◌, ◌*◌, ◌^◌, ◌≡◌, refl, List, [], ◌∷◌, ok, err}
use mimo26f_afd.Wire.Naive.{has, naive_none}
use mimo26f_afd.Wire.Error.{slot_filled, incomplete}
use mimo26f_afd.Wire.Layout.{status_ok}
use mimo26f_afd.Wire.Return.{ReturnFrame}
use mimo26f_afd.Wire.Sum.{
  CoordinatorSum, new_sum, key_of, accept_row, accept_rows, accumulate, sum_result,
}
use mimo26f_afd.Wire.Sum.Once.{Once, IsOnce}
use mimo26f_afd.Wire.Sum.Again.{accumulate_all, accumulate-again}

abbrev plus : ℕ → ℕ → ℕ
plus x y = x + y

-- The frame of a rank with both rows.
abbrev partial : ℕ → ℕ → ReturnFrame
partial rank code = record {
  request_id = 12;
  placement_version = 1;
  layer_id = 3;
  executor_id = rank;
  token_position = 0;
  status = status_ok;
  flags = 0;
  route_count = 8;
  seq = 5;
  rows = record { codes = code ∷ [] } ∷ record { codes = (code + 1) ∷ [] } ∷ [];
}

abbrev two_rows : CoordinatorSum
two_rows = record {
  naive = naive_none;
  rows = 2;
  hidden = 1;
  seen = [];
  distinct = 0;
  acc = 0 ∷ 0 ∷ [];
  arrivals = 0;
  rank_buf = 0 ∷ 0 ∷ 0 ∷ 0 ∷ 0 ∷ 0 ∷ 0 ∷ 0 ∷ [];
  slot_rank_count = 0 ∷ 0 ∷ [];
}

two_rows-new : new_sum 2 1 naive_none ≡ two_rows
unfolding new_sum
two_rows-new = refl

abbrev all_ranks : List ReturnFrame
all_ranks = partial 2 5 ∷ partial 0 1 ∷ partial 3 7 ∷ partial 1 3 ∷ []

-- The sums once all four ranks are there.
four_summed :
    sum_result (accumulate_all plus all_ranks two_rows)
    ≡ ok ((5 + 1 + 7 + 3) * 2 ^ 16 ∷ (6 + 2 + 8 + 4) * 2 ^ 16 ∷ [])
unfolding sum_result accumulate_all accumulate accept_rows accept_row
four_summed = refl

three_missing : sum_result (accumulate_all plus (partial 2 5 ∷ []) two_rows) ≡ err (incomplete 2 8)
unfolding sum_result accumulate_all accumulate accept_rows accept_row
three_missing = refl

first_taken : (accumulate plus two_rows (partial 2 5)).1 ≡ ok tt
unfolding accumulate accept_rows accept_row
first_taken = refl

no_doubles : has naive_none (2 ^ 11) ≡ false
unfolding has
no_doubles = refl

two_rows-IsOnce : IsOnce two_rows
unfolding Once
two_rows-IsOnce = record { slots = tt; counted = refl }

accumulate-again_example :
    (accumulate plus
        (accumulate_all plus
          (partial 0 1 ∷ partial 2 9 ∷ [])
          (accumulate plus two_rows (partial 2 5)).0)
        (partial 2 5)
      ≡ (
        accumulate_all plus
            (partial 0 1 ∷ partial 2 9 ∷ [])
            (accumulate plus two_rows (partial 2 5)).0,
        err (slot_filled (key_of (partial 2 5) 0)),
      ))
    × (IsOnce two_rows
        → IsOnce (
            accumulate_all plus
              (partial 0 1 ∷ partial 2 9 ∷ [])
              (accumulate plus two_rows (partial 2 5)).0))
accumulate-again_example =
    accumulate-again plus two_rows (partial 2 5) (record { codes = 5 ∷ [] })
      (record { codes = (5 + 1) ∷ [] } ∷ []) (partial 0 1 ∷ partial 2 9 ∷ []) no_doubles refl
      first_taken
