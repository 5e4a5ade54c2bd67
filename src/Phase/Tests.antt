-- ===== src/Phase/Tests.antt =====
-- Runs of the phase contract, and the theorems at concrete inputs.
use mimo26f_afd.Prelude.{◌≡◌, ◌≢◌, ◌↔◌, refl, List, [], ◌∷◌, arith, replicate}
use mimo26f_afd.Dict
use mimo26f_afd.Phase.Keys.{
  context, generated, prefix_cache_hit, initial_prefill, Phase-discrete, Path-discrete,
}
use mimo26f_afd.Phase.{
  Arm, e_fp32, e_bf16, unrelated, class_for, Lattice-discrete, KvPage, ga, PageState, HitVerdict,
  ok, err, unregistered_quad, ArmRegistry, new, register, set_phi, allow_path, bump_phi_version,
  quad, phi_for, arm_named, arm_for, resolve, validate_cache_hit, rle_loop, run_length_encode,
}
use mimo26f_afd.Phase.Registry.{
  Op, add_arm, map_phase, allow, build, IsSound, build-IsSound, Resolves, resolve_iff, resolve-bump,
}
use mimo26f_afd.Phase.Hits.{Serves, validate_valid_iff, validate_stale_iff}
use mimo26f_afd.Phase.Runs.{expand, IsRuns, run_length_encode_lem}

abbrev single_arm : Arm
single_arm = record { id = "e-fp32-v1"; version = 1; lattice = e_fp32 }

abbrev calls : List Op
calls =
    add_arm single_arm
    ∷ map_phase context "e-fp32-v1"
    ∷ allow context "e-fp32-v1" initial_prefill
    ∷ []

abbrev registry : ArmRegistry
registry = build calls new

abbrev page : KvPage
page = record {
  prefix_key = 77;
  position_range = (0, 256);
  layer_kind = ga;
  phase_tag = context;
  arm_id = "e-fp32-v1";
  arm_version = 1;
  phi_version = 1;
  derivation_path = initial_prefill;
  payload_digest = replicate 32 9;
  state = PageState.valid;
}

registry-IsSound : IsSound registry
registry-IsSound = build-IsSound calls (omega arith)

build-IsSound_example : IsSound (build calls new)
build-IsSound_example = build-IsSound calls (omega arith)

resolve_ok : resolve registry context initial_prefill ≡ ok single_arm
unfolding resolve phi_for arm_named new register set_phi allow_path Dict.get Dict.insert
    Phase-discrete Path-discrete
resolve_ok = refl

resolve_refuses :
    resolve registry context prefix_cache_hit
    ≡ err (unregistered_quad (quad registry context "e-fp32-v1" prefix_cache_hit))
unfolding resolve phi_for arm_named new register set_phi allow_path Dict.get Dict.insert
    Phase-discrete Path-discrete
resolve_refuses = refl

hit_valid : validate_cache_hit page context registry ≡ ok HitVerdict.valid
unfolding validate_cache_hit arm_for phi_for arm_named new register set_phi allow_path Dict.get
    Dict.insert Phase-discrete
hit_valid = refl

classes : class_for single_arm (record { id = "other"; version = 1; lattice = e_bf16 }) ≡ unrelated
unfolding class_for Lattice-discrete
classes = refl

runs :
    run_length_encode (context ∷ context ∷ generated ∷ context ∷ [])
    ≡ (context, 0, 2) ∷ (generated, 2, 3) ∷ (context, 3, 4) ∷ []
unfolding run_length_encode rle_loop Phase-discrete
runs = refl

resolve_iff_example :
    (resolve registry context initial_prefill ≡ ok single_arm)
    ↔ Resolves registry context initial_prefill single_arm
resolve_iff_example = resolve_iff registry context initial_prefill single_arm

resolve-bump_example : resolve (bump_phi_version registry).0 context initial_prefill ≢ ok single_arm
unfolding new register set_phi allow_path
resolve-bump_example =
    resolve-bump registry context initial_prefill single_arm (omega arith) registry-IsSound

validate_valid_iff_example :
    (validate_cache_hit page context registry ≡ ok HitVerdict.valid) ↔ Serves page context registry
validate_valid_iff_example = validate_valid_iff page context registry registry-IsSound

validate_stale_iff_example :
    (validate_cache_hit page generated registry ≡ ok HitVerdict.stale)
    ↔ (page.phi_version ≢ registry.phi_version)
validate_stale_iff_example = validate_stale_iff page generated registry

run_length_encode_lem_example :
    (expand (run_length_encode (context ∷ generated ∷ [])) ≡ context ∷ generated ∷ [])
    × IsRuns 0 2 (run_length_encode (context ∷ generated ∷ []))
run_length_encode_lem_example = run_length_encode_lem (context ∷ generated ∷ [])
