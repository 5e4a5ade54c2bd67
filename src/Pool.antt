-- ===== src/Pool.antt =====
-- crates/mimo26-coordinator/src/kv_pool.rs: the byte accounting of the KV pool. `admit` gates new
-- requests, `grow` and `release` follow the running ones. u64 arithmetic wraps as in a release build.
pub mod Bounds
mod Tests
use mimo26f_afd.Prelude.{ℕ, ◌+◌, ◌-◌, ◌*◌, min, Bool, true, false, ltb, if◌then◌else◌}
use mimo26f_afd.Word.{add64, mul64}

-- GA KV bytes per token.
abbrev pub ga_kv_bytes_per_token : ℕ
ga_kv_bytes_per_token = 9 * 4 * (192 + 128)

-- SWA ring bytes per sequence.
abbrev pub swa_ring_bytes_per_seq : ℕ
swa_ring_bytes_per_seq = 39 * 8 * (192 + 128) * 128

-- Output quantum reserved at admission.
abbrev pub default_admit_reserve : ℕ
default_admit_reserve = 8192

unfoldable pub request_reservation : ℕ → ℕ → ℕ → ℕ
request_reservation prompt_tokens max_tokens admit_reserve =
    let output_reserve = min max_tokens admit_reserve in
    add64 (add64 (mul64 prompt_tokens ga_kv_bytes_per_token) swa_ring_bytes_per_seq)
      (mul64 output_reserve ga_kv_bytes_per_token)

pub full_lifetime_reservation : ℕ → ℕ → ℕ
full_lifetime_reservation prompt_tokens max_tokens =
    add64 (add64 (mul64 prompt_tokens ga_kv_bytes_per_token) swa_ring_bytes_per_seq)
      (mul64 max_tokens ga_kv_bytes_per_token)

pub data Admission : Type 0 where
  admitted : ℕ → Admission
  rejected : Admission

pub record KvPool : Type 0 where
  pub total : ℕ
  pub used : ℕ

unfoldable pub new : ℕ → KvPool
new measured_bytes = record { total = measured_bytes; used = 0 }

-- Saturating subtraction is the subtraction of ℕ.
pub free : KvPool → ℕ
free p = p.total - p.used

unfoldable pub admit : KvPool → ℕ → ℕ → ℕ → KvPool × Admission
admit p prompt_tokens max_tokens admit_reserve =
    let reservation = request_reservation prompt_tokens max_tokens admit_reserve in
    if ltb p.total (add64 p.used reservation)
    then (p, rejected)
    else (record p { used = add64 p.used reservation }, admitted reservation)

pub grow : KvPool → ℕ → KvPool × ℕ
grow p extra_tokens =
    let extra = mul64 extra_tokens ga_kv_bytes_per_token in
    (record p { used = add64 p.used extra }, extra)

unfoldable pub reserve_bytes : KvPool → ℕ → KvPool × Bool
reserve_bytes p bytes =
    if ltb p.total (add64 p.used bytes)
    then (p, false)
    else (record p { used = add64 p.used bytes }, true)

unfoldable pub release : KvPool → ℕ → KvPool
release p reservation = record p { used = p.used - reservation }
