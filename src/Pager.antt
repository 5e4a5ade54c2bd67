-- ===== src/Pager.antt =====
-- crates/mimo26-coordinator/src/paging.rs: the page table over the pool's byte accounting.
pub mod Bytes
pub mod Serve
mod Tests
use mimo26f_afd.Prelude.{
  ℕ, Bool, true, false, Option, none, some, List, [], ◌∷◌, length, replicate, if◌then◌else◌, ◌==◌,
}
use mimo26f_afd.Dict
use mimo26f_afd.Dict.{Dict}
use mimo26f_afd.Pool
use mimo26f_afd.Pool.{KvPool}
use mimo26f_afd.Phase.{
  KvPage, key, PageState, PhaseError, Result, ok, err, HitVerdict, ArmRegistry, validate_cache_hit,
}
use mimo26f_afd.Phase.Keys.{Phase, PageKey, PageKey_eq}

pub data PagerError : Type 0 where
  pool_rejected not_found : PagerError
  phase : PhaseError → PagerError

pub record Pager : Type 0 where
  pub pool : KvPool
  pub pages : Dict PageKey (KvPage × ℕ)

pub new : KvPool → Pager
new pool = record { pool = pool; pages = [] }

pub used_bytes : Pager → ℕ
used_bytes p = p.pool.used

pub total_bytes : Pager → ℕ
total_bytes p = p.pool.total

pub len : Pager → ℕ
len p = length p.pages

pub is_empty : Pager → Bool
is_empty p = length p.pages == 0

-- The entry of a page goes in once its bytes are reserved.
pub allocate : Pager → KvPage → ℕ → Pager × Result PagerError (Unit {0})
unfolding key
allocate p page bytes =
    let (pool, reserved) = Pool.reserve_bytes p.pool bytes in
    if reserved
    then (record { pool = pool; pages = Dict.insert (key page) (page, bytes) p.pages }, ok tt)
    else (record p { pool = pool }, err pool_rejected)

-- `?` on a phase error: `From<PhaseError>`.
pub from_phase : Result PhaseError HitVerdict → Result PagerError HitVerdict
from_phase (ok v) = ok v
from_phase (err e) = err (phase e)

pub lookup : Pager → PageKey → Phase → ArmRegistry → Result PagerError HitVerdict
unfolding from_phase
lookup p k requested_phase registry = elim (Dict.get k p.pages) [
  | none ↦ err not_found
  | some (page, bytes) ↦ from_phase (validate_cache_hit page requested_phase registry)
]

pub get : Pager → PageKey → Option KvPage
get p k = elim (Dict.get k p.pages) [ none ↦ none | some (page, bytes) ↦ some page ]

pub cleared_digest : List ℕ
cleared_digest = replicate 32 0

-- The page as `evict` hands it out.
pub invalidated : KvPage → KvPage
unfolding cleared_digest
invalidated page = record page { state = PageState.invalid; payload_digest = cleared_digest }

pub evict : Pager → PageKey → Pager × Option KvPage
unfolding invalidated
evict p k = elim (Dict.get k p.pages) [
  | none ↦ (p, none)
  | some (page, bytes) ↦ (
    record { pool = Pool.release p.pool bytes; pages = Dict.remove k p.pages },
    some (invalidated page),
  )
]

-- The calls that change a table.
pub data Op : Type 0 where
  put : KvPage → ℕ → Op
  drop : PageKey → Op

unfoldable pub apply : Op → Pager → Pager
apply (put page bytes) p = (allocate p page bytes).0
apply (drop k) p = (evict p k).0

unfoldable pub run : List Op → Pager → Pager
run [] p = p
run (op ∷ ops) p = run ops (apply op p)
