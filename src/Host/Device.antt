-- ===== src/Host/Device.antt =====
-- What crates/mimo26-coordinator/src/hostcache.rs asks of the device's key-value cache, `DeviceKv` of
-- dforward.rs, whose operations are calls of the CUDA runtime.
use mimo26f_afd.Prelude.{ℕ, List, Result}
use Prim.Native.String.{String}

pub record Device : Type 1 where
  pub Kv : Type 0
  -- A device buffer with the state of one position.
  pub State : Type 0
  pub tokens : Kv → ℕ
  pub draft_state_bytes : Kv → ℕ
  -- Rows `[r0, r0 + n)` of every layer, as one page.
  pub export_ga_page : Kv → ℕ → ℕ → Result String (List ℕ)
  pub sync_export : Kv → Result String (Unit {0})
  -- The copy of the state to the host.
  pub copy_state : Kv → State → Result String (List ℕ)
  pub reset : Kv → Kv
  pub reserve_ga : Kv → ℕ → Result String Kv
  pub import_ga_page : Kv → ℕ → List ℕ → Result String Kv
  pub finish_ga_import : Kv → Result String Kv
  pub import_swa : Kv → ℕ → List ℕ → Result String Kv
  pub import_draft : Kv → List ℕ → Result String Kv
  pub set_tokens : Kv → ℕ → Kv
