-- ===== src/Attn.antt =====
-- crates/mimo26-attn/src/cache.rs: the storage of keys and values. A failed assertion or an index out of
-- range, at which the source panics, is `panic`.
pub mod Rows
pub mod Ring
pub mod Paged
mod Tests
use mimo26f_afd.Prelude.{
  ℕ, Bool, ◌+◌, ◌-◌, ◌==◌, ◌^◌, not, leb, if◌then◌else◌, bit_and, List, length, take, drop, Result,
  ok, err,
}
use mimo26f_afd.Int.{ℤ}

-- NaiveBits::has
abbrev pub has : ℕ → ℕ → Bool
has naive bit = not (bit_and naive bit == 0)

abbrev pub vscale_after_store : ℕ
vscale_after_store = 2 ^ 8

abbrev pub vscale_on_read : ℕ
vscale_on_read = 2 ^ 9

abbrev pub evict_keep_last : ℕ
evict_keep_last = 2 ^ 10

abbrev pub block128_shared_scales : ℕ
block128_shared_scales = 2 ^ 12

-- The errors with the numbers that their texts show.
pub data AttnError : Type 0 where
  shape_mismatch : List ℕ → AttnError
  sink_not_supported : AttnError
  sink_length : ℕ → ℕ → AttnError
  kv_layout : List ℤ → AttnError

pub data Fault : Type 0 where
  attn : AttnError → Fault
  panic : Fault

pub data ScaleMode : Type 0 where
  unit_scale per_token_head : ScaleMode

pub data StoreMode : Type 0 where
  f32 fp8_unit fp8_per_token_head : StoreMode

pub data Layout : Type 0 where
  unit_layout per_token_head_layout block128_shared : Layout

-- EncodedKv of fp8kv.rs, over the floats.
pub record EncodedKv (F : Type 0) : Type 0 where
  pub layout : Layout
  pub n_tok : ℕ
  pub n_kv : ℕ
  pub d_qk : ℕ
  pub d_v : ℕ
  pub k_codes : List ℕ
  pub v_codes : List ℕ
  pub k_scales : List F
  pub v_scales : List F
  pub shared_scales : List F
  pub clip_count : ℕ

-- The arithmetic of f32, and the codec of fp8kv.rs, which is made of it.
pub record Floats : Type 1 where
  pub F : Type 0
  pub one : F
  pub mul : F → F → F
  -- x == 1.0
  pub is_one : F → Bool
  pub encode_kv : List F → List F → ℕ → ℕ → ℕ → ℕ → ScaleMode → ℕ → Result AttnError (EncodedKv F)
  pub decode_kv : EncodedKv F → F → List F × List F
