-- ===== src/Wire/Error.antt =====
-- crates/mimo26-wire/src/error.rs: the errors of the wire and what a caller must do about each.
use Prim.Native.String.{String}
use mimo26f_afd.Prelude.{ℕ, List}

-- `SlotKey` of l4.rs, which an error carries.
pub record SlotKey : Type 0 where
  pub request_id : ℕ
  pub layer_id : ℕ
  pub token_position : ℕ
  pub executor_id : ℕ

pub data Disposition : Type 0 where
  retry drop_idempotent fail_loud : Disposition

-- The fields stand in the order of the source; a field's name is a string.
pub data WireError : Type 0 where
  too_short : (need got : ℕ) → WireError
  truncated : (declared got : ℕ) → WireError
  trailing_bytes : (declared got : ℕ) → WireError
  bad_magic : List ℕ → WireError
  bad_version : ℕ → WireError
  bad_kind : ℕ → WireError
  bad_header_len : ℕ → WireError
  dim_mismatch : (field : String) (want got : ℕ) → WireError
  bad_code : (field : String) (code : ℕ) → WireError
  corrupt : (seq want got : ℕ) → WireError
  duplicate : (seq expected : ℕ) → WireError
  out_of_order : (expected got : ℕ) → WireError
  route_row_mismatch : (entry row_index rows : ℕ) → WireError
  route_range_bad : (row : ℕ) → WireError
  unpresummed_return : (flags : ℕ) → WireError
  slot_filled : SlotKey → WireError
  spark_reported_error : (executor_id : ℕ) → WireError
  incomplete : (filled need : ℕ) → WireError
  retry_exhausted : (attempts : ℕ) (cause : WireError) → WireError
  unknown_request : (request_id : ℕ) → WireError

unfoldable pub disposition : WireError → Disposition
disposition (too_short need got) = retry
disposition (truncated declared got) = retry
disposition (corrupt seq want got) = retry
disposition (out_of_order expected got) = retry
disposition (duplicate seq expected) = drop_idempotent
disposition (slot_filled slot) = drop_idempotent
disposition (trailing_bytes declared got) = fail_loud
disposition (bad_magic m) = fail_loud
disposition (bad_version v) = fail_loud
disposition (bad_kind k) = fail_loud
disposition (bad_header_len n) = fail_loud
disposition (dim_mismatch field want got) = fail_loud
disposition (bad_code field code) = fail_loud
disposition (route_row_mismatch entry row_index rows) = fail_loud
disposition (route_range_bad row) = fail_loud
disposition (unpresummed_return flags) = fail_loud
disposition (spark_reported_error executor_id) = fail_loud
disposition (incomplete filled need) = fail_loud
disposition (retry_exhausted attempts cause) = fail_loud
disposition (unknown_request request_id) = fail_loud
