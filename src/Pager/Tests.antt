-- ===== src/Pager/Tests.antt =====
-- Runs of the pager, and the theorems at concrete inputs.
use mimo26f_afd.Prelude.{ℕ, ◌≡◌, refl, List, [], ◌∷◌, arith, replicate}
use mimo26f_afd.Dict
use mimo26f_afd.Pool.{KvPool}
use mimo26f_afd.Pool
use mimo26f_afd.Phase.Keys.{context, initial_prefill, Phase-discrete}
use mimo26f_afd.Phase.{
  KvPage, key, e_fp32, ga, PageState, HitVerdict, Result, ok, ArmRegistry, register, set_phi,
  phi_for, arm_named, arm_for, validate_cache_hit,
}
use mimo26f_afd.Phase
use mimo26f_afd.Phase.Registry.{Op as RegistryOp, add_arm, map_phase, build, build-IsSound}
use mimo26f_afd.Pager.{Pager, new, allocate, lookup, evict, Op, put, apply, run}
use mimo26f_afd.Pager.Bytes.{IsAccounted, Allocates, allocate-Allocates, Evicts, evict-Evicts}
use mimo26f_afd.Pager.Serve.{ServedFrom, lookup-ServedFrom}

abbrev page : KvPage
page = record {
  prefix_key = 77;
  position_range = (0, 256);
  layer_kind = ga;
  phase_tag = context;
  arm_id = "e-fp32-v1";
  arm_version = 1;
  phi_version = 1;
  derivation_path = initial_prefill;
  payload_digest = replicate 32 9;
  state = PageState.valid;
}

abbrev page_bytes : ℕ
page_bytes = 2_949_120

-- A table with `page` in it.
abbrev one_page : Pager
one_page = record {
  pool = record { total = 10_000_000; used = page_bytes };
  pages = (unfold key in key page, (page, page_bytes)) ∷ [];
}

one_page-IsAccounted : IsAccounted 0 one_page
unfolding Dict.get
one_page-IsAccounted = record { valid = omega arith; unique = (refl, tt); exact = omega arith }

-- The second page at one key: its predecessor's bytes are lost.
allocate-Allocates_example :
    Allocates 0 one_page
      (record page { arm_version = 2 })
      3_000_000
      (allocate one_page (record page { arm_version = 2 }) 3_000_000)
allocate-Allocates_example =
    allocate-Allocates 0 one_page (record page { arm_version = 2 }) 3_000_000 (omega arith)
      one_page-IsAccounted

evict-Evicts_example : Evicts 0 one_page (key page) (evict one_page (key page))
evict-Evicts_example = evict-Evicts 0 one_page (key page) one_page-IsAccounted

abbrev calls : List RegistryOp
calls =
    add_arm (record { id = "e-fp32-v1"; version = 1; lattice = e_fp32 })
    ∷ map_phase context "e-fp32-v1"
    ∷ []

abbrev registry : ArmRegistry
registry = build calls Phase.new

abbrev ops : List Op
ops = put page page_bytes ∷ []

abbrev pool : KvPool
pool = record { total = 10_000_000; used = 0 }

hit : lookup (run ops (new pool)) (key page) context registry ≡ ok HitVerdict.valid
unfolding lookup run apply allocate new key Pool.reserve_bytes Dict.get Dict.insert
    validate_cache_hit arm_for phi_for arm_named Phase.new register set_phi Phase-discrete
hit = refl

lookup-ServedFrom_example : ServedFrom (run ops (new pool)) (key page) context registry
lookup-ServedFrom_example =
    lookup-ServedFrom ops pool (key page) context registry (build-IsSound calls (omega arith)) hit
