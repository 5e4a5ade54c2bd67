-- ===== src/Phase.antt =====
-- crates/mimo26-coordinator/src/phase.rs: KV pages, the arm registry and the phase contract. Hash maps
-- are `Dict`s and a hash set is a `Dict` to the unit type.
pub mod Keys
pub mod Registry
pub mod Hits
pub mod Runs
mod Tests
use Prim.Native.String.{String}
pub use mimo26f_afd.Prelude.{Result, ok, err, ◌>>=◌, Result-cases}
use mimo26f_afd.Prelude.{
  ℕ, ◌+◌, ◌==◌, Bool, true, false, Option, none, some, List, [], ◌∷◌, not, if◌then◌else◌, length,
  ◌≐◌, ◌≡◌, refl, ◌⊎◌, inl, inr, decided,
}
use mimo26f_afd.Word.{add32}
use mimo26f_afd.Dict
use mimo26f_afd.Dict.{Dict}
use mimo26f_afd.Prelude.{String_eq}
use Keys.{Phase, context, generated, DerivationPath, ArmId, Quad, PageKey, Phase_eq, Quad_eq}

pub data Role : Type 0 where
  user system assistant tool : Role

pub phase_for_role : Role → Phase
phase_for_role assistant = generated
phase_for_role _ = context

pub data Lattice : Type 0 where
  e_fp32 e_bf16 e_w4a8_v1 : Lattice

pub record Arm : Type 0 where
  pub id : ArmId
  pub version : ℕ
  pub lattice : Lattice

-- The constructor for "no claim" is `unrelated`; the source says `None`.
pub data EquivClass : Type 0 where
  bitwise tolerance unrelated : EquivClass

unfoldable pub Lattice-discrete : Discrete Lattice
Lattice-discrete = hlevel

pub class_for : Arm → Arm → EquivClass
class_for a b =
    if a.id ≐ b.id
    then bitwise
    else if decided Lattice-discrete a.lattice b.lattice
    then tolerance
    else unrelated

pub data LayerKind : Type 0 where
  ga swa : LayerKind

pub data PageState : Type 0 where
  valid invalid stale : PageState

-- The payload digest is a list of bytes.
pub record KvPage : Type 0 where
  pub prefix_key : ℕ
  pub position_range : ℕ × ℕ
  pub layer_kind : LayerKind
  pub phase_tag : Phase
  pub arm_id : ArmId
  pub arm_version : ℕ
  pub phi_version : ℕ
  pub derivation_path : DerivationPath
  pub payload_digest : List ℕ
  pub state : PageState

unfoldable pub key : KvPage → PageKey
key p = record {
  prefix_key = p.prefix_key;
  position_range = p.position_range;
  phase_tag = p.phase_tag;
}

pub data PhaseError : Type 0 where
  unregistered_phase : Phase → PhaseError
  unregistered_arm : ArmId → PhaseError
  unregistered_quad : Quad → PhaseError
  phase_tag_mismatch : (stored requested : Phase) → PhaseError
  arm_mismatch : (stored expected : ArmId) → PhaseError
  missing_span : ℕ → PhaseError

pub data HitVerdict : Type 0 where
  valid stale : HitVerdict

pub record ArmRegistry : Type 0 where
  pub phi_version : ℕ
  pub phi : Dict Phase ArmId
  pub arms : Dict ArmId Arm
  pub legal : Dict Quad (Unit {0})

-- ArmRegistry::new
unfoldable pub new : ArmRegistry
new = record { phi_version = 1; phi = []; arms = []; legal = [] }

pub bump_phi_version : ArmRegistry → ArmRegistry × ℕ
bump_phi_version r = let v = add32 r.phi_version 1 in (record r { phi_version = v }, v)

unfoldable pub register : ArmRegistry → Arm → ArmRegistry
register r arm = record r { arms = Dict.insert arm.id arm r.arms }

unfoldable pub set_phi : ArmRegistry → Phase → ArmId → ArmRegistry
set_phi r phase arm = record r { phi = Dict.insert phase arm r.phi }

abbrev pub quad : ArmRegistry → Phase → ArmId → DerivationPath → Quad
quad r phase arm path = record {
  phi_version = r.phi_version;
  phase = phase;
  arm = arm;
  path = path;
}

pub allow_path : ArmRegistry → Phase → ArmId → DerivationPath → ArmRegistry
allow_path r phase arm path = record r { legal = Dict.insert (quad r phase arm path) tt r.legal }

-- `ok_or`: the lookups of Φ and of the arms, with their errors.
unfoldable pub phi_for : ArmRegistry → Phase → Result PhaseError ArmId
phi_for r phase = elim (Dict.get phase r.phi) [
  | none ↦ err (unregistered_phase phase)
  | some id ↦ ok id
]

unfoldable pub arm_named : ArmRegistry → ArmId → Result PhaseError Arm
arm_named r id = elim (Dict.get id r.arms) [ none ↦ err (unregistered_arm id) | some arm ↦ ok arm ]

unfoldable pub arm_for : ArmRegistry → Phase → Result PhaseError Arm
unfolding phi_for arm_named
arm_for r phase = do id ← phi_for r phase; arm_named r id

pub resolve : ArmRegistry → Phase → DerivationPath → Result PhaseError Arm
unfolding phi_for arm_named
resolve r phase path = do
  id ← phi_for r phase
  arm ← arm_named r id
  elim (Dict.get (quad r phase id path) r.legal) [
    | none ↦ err (unregistered_quad (quad r phase id path))
    | some u ↦ ok arm
  ]

unfoldable pub validate_cache_hit : KvPage → Phase → ArmRegistry → Result PhaseError HitVerdict
validate_cache_hit stored requested_phase registry =
    if not (stored.phi_version == registry.phi_version)
    then ok HitVerdict.stale
    else if not (stored.phase_tag ≐ requested_phase)
    then err (phase_tag_mismatch stored.phase_tag requested_phase)
    else (do
      arm ← arm_for registry stored.phase_tag
      if not (stored.arm_id ≐ arm.id)
          then err (arm_mismatch stored.arm_id arm.id)
          else ok HitVerdict.valid)

-- The loop of `run_length_encode`: `pos` is the position of the next phase, `n` the number of phases.
pub rle_loop : ℕ → Phase → ℕ → ℕ → List Phase → List (Phase × ℕ × ℕ)
rle_loop n cur start pos [] = (cur, start, n) ∷ []
rle_loop n cur start pos (p ∷ rest) =
    let longer = rle_loop n cur start (pos + 1) rest in
    let fresh = (cur, start, pos) ∷ rle_loop n p pos (pos + 1) rest in
    if p ≐ cur then longer else fresh

pub run_length_encode : List Phase → List (Phase × ℕ × ℕ)
run_length_encode [] = []
run_length_encode (first ∷ rest) = rle_loop (length (first ∷ rest)) first 0 1 rest
