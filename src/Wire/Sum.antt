-- ===== src/Wire/Sum.antt =====
-- crates/mimo26-wire/src/l4.rs: `CoordinatorSum`, the sum of the Sparks' partials. An f32 is its 32 bits and
-- its addition is the argument `add`. The sizes of the buffers, `rows` and `hidden`, are those of `new`, so
-- that no index of the guarded code is out of range.
pub mod Once
pub mod Again
use mimo26f_afd.Prelude.{
  ℕ, Bool, true, false, zero, suc, ◌+◌, ◌*◌, ◌/◌, ◌%◌, ◌^◌, ◌==◌, ◌&&◌, ◌||◌, not, ltb, leb,
  if◌then◌else◌, List, [], ◌∷◌, ◌++◌, length, get_or, set, replicate, Result, ok, err,
}
use mimo26f_afd.Wire.Naive.{WireNaive, has, dup_double_count, accum_by_arrival, rank_sum_by_arrival}
use mimo26f_afd.Wire.Error.{
  SlotKey, WireError, dim_mismatch, slot_filled, spark_reported_error, incomplete,
}
use mimo26f_afd.Wire.Layout.{sparks, Status, status_ok, status_error}
use mimo26f_afd.Wire.Request.{usize_max}
use mimo26f_afd.Wire.Return.{ReturnRow, ReturnFrame, bf16_to_f32}

pub record CoordinatorSum : Type 0 where
  pub naive : WireNaive
  pub rows : ℕ
  pub hidden : ℕ
  pub seen : List SlotKey
  pub distinct : ℕ
  pub acc : List ℕ
  pub arrivals : ℕ
  pub rank_buf : List ℕ
  pub slot_rank_count : List ℕ

unfoldable pub new_sum : ℕ → ℕ → WireNaive → CoordinatorSum
new_sum rows hidden naive = record {
  naive = naive;
  rows = rows;
  hidden = hidden;
  seen = [];
  distinct = 0;
  acc = replicate (rows * hidden) 0;
  arrivals = 0;
  rank_buf = replicate (sparks * rows * hidden) 0;
  slot_rank_count = replicate rows 0;
}

unfoldable pub is_complete : CoordinatorSum → Bool
is_complete s = s.distinct == s.rows * sparks

abbrev pub same_slot : SlotKey → SlotKey → Bool
same_slot a b =
    a.request_id == b.request_id
    && (a.layer_id == b.layer_id
        && (a.token_position == b.token_position && a.executor_id == b.executor_id))

-- `seen.contains`
unfoldable pub has_slot : List SlotKey → SlotKey → Bool
has_slot [] key = false
has_slot (x ∷ xs) key = same_slot x key || has_slot xs key

abbrev pub key_of : ReturnFrame → ℕ → SlotKey
key_of f token = record {
  request_id = f.request_id;
  layer_id = f.layer_id;
  token_position = token;
  executor_id = f.executor_id;
}

module _ (add : ℕ → ℕ → ℕ) where
  -- `buf[base + i] += bf16_to_f32(code)` for each code
  unfoldable pub add_codes : List ℕ → ℕ → List ℕ → List ℕ
  add_codes buf base [] = buf
  add_codes buf base (code ∷ codes) =
      add_codes (set buf base (add (get_or buf base 0) (bf16_to_f32 code))) (base + 1) codes

  -- The sum of one element over the ranks from `rank` on.
  unfoldable pub rank_sum : ℕ → List ℕ → ℕ → ℕ → ℕ → ℕ
  rank_sum zero buf stride at sum = sum
  rank_sum (suc left) buf stride at sum =
      rank_sum left buf stride (at + stride) (add sum (get_or buf at 0))

  -- The sums of the `left` elements from `at` on.
  unfoldable pub sum_row : ℕ → List ℕ → List ℕ → ℕ → ℕ → List ℕ
  unfolding rank_sum
  sum_row zero acc buf stride at = acc
  sum_row (suc left) acc buf stride at =
      sum_row left (set acc at (rank_sum sparks buf stride at 0)) buf stride (at + 1)

  -- The buffers after a row of codes for `slot_row`.
  unfoldable pub add_row : CoordinatorSum → ℕ → ℕ → List ℕ → CoordinatorSum
  unfolding add_codes sum_row has
  add_row s rank slot_row codes =
      let base = slot_row * s.hidden in
      let stride = s.rows * s.hidden in
      let buffered = add_codes s.rank_buf (rank * stride + base) codes in
      if has s.naive rank_sum_by_arrival
      then record s { acc = add_codes s.acc base codes }
      else if get_or s.slot_rank_count slot_row 0 == sparks
      then record s { rank_buf = buffered; acc = sum_row s.hidden s.acc buffered stride base }
      else record s { rank_buf = buffered }

  -- A row that is taken: the bookkeeping, and then the buffers.
  unfoldable pub take_row : CoordinatorSum → SlotKey → Bool → ℕ → ℕ → List ℕ → CoordinatorSum
  unfolding add_row has
  take_row s key is_dup rank token codes =
      let slot_row =
        if has s.naive accum_by_arrival then (s.arrivals / sparks) % s.rows else token in
      let counted = record s { arrivals = s.arrivals + 1; seen = s.seen ++ (key ∷ []) } in
      let fresh = record counted {
        distinct = s.distinct + 1;
        slot_rank_count =
            set s.slot_rank_count slot_row ((get_or s.slot_rank_count slot_row 0 + 1) % 2 ^ 8);
      } in
      add_row (if is_dup then counted else fresh) rank slot_row codes

  -- The body of the loop for the row of number `r`.
  unfoldable pub accept_row :
      CoordinatorSum → ReturnFrame → ℕ → ReturnRow → CoordinatorSum × Result WireError (Unit {0})
  unfolding take_row has has_slot
  accept_row s f r row =
      let token = f.token_position + r in
      let key = key_of f token in
      let is_dup = has_slot s.seen key in
      if leb (2 ^ 64) token
      then (s, err (dim_mismatch "token_position" s.rows usize_max))
      else if leb s.rows token
      then (s, err (dim_mismatch "token_position" s.rows token))
      else if not (length row.codes == s.hidden)
      then (s, err (dim_mismatch "return_row_codes" s.hidden (length row.codes)))
      else if is_dup && not (has s.naive dup_double_count)
      then (s, err (slot_filled key))
      else (take_row s key is_dup f.executor_id token row.codes, ok tt)

  unfoldable pub accept_rows :
      CoordinatorSum
      → ReturnFrame
      → ℕ
      → List ReturnRow
      → CoordinatorSum × Result WireError (Unit {0})
  accept_rows s f r [] = (s, ok tt)
  accept_rows s f r (row ∷ rows) =
      let (s', result) = accept_row s f r row in
      elim result [ err e ↦ (s', err e) | ok u ↦ accept_rows s' f (r + 1) rows ]

  unfoldable pub accumulate :
      CoordinatorSum → ReturnFrame → CoordinatorSum × Result WireError (Unit {0})
  accumulate s f = elim f.status [
    | status_ok ↦
        if leb sparks f.executor_id
        then (s, err (dim_mismatch "executor_id" sparks f.executor_id))
        else accept_rows s f 0 f.rows
    | status_error ↦ (s, err (spark_reported_error f.executor_id))
  ]

-- `CoordinatorSum::result`
unfoldable pub sum_result : CoordinatorSum → Result WireError (List ℕ)
sum_result s =
    let need = s.rows * sparks in
    if not (s.distinct == need) then err (incomplete s.distinct need) else ok s.acc
