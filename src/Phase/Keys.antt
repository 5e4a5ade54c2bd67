-- ===== src/Phase/Keys.antt =====
-- The keys of the maps in phase.rs, with their equality tests.
use Prim.Native.String.{String}
use mimo26f_afd.Prelude.{
  ℕ, ◌==◌, ◌≡◌, ◌↔◌, Bool, ◌&&◌, Eq, true, ◌≐◌, arith, decided, decided_iff, String_eq,
}

pub data Phase : Type 0 where
  context generated : Phase

unfoldable pub Phase-discrete : Discrete Phase
Phase-discrete = hlevel

instance abbrev pub Phase_eq : Eq Phase
Phase_eq = record { beq = decided Phase-discrete; beq_iff = decided_iff Phase-discrete }

pub data DerivationPath : Type 0 where
  initial_prefill chunked_prefill_continuation prefix_cache_hit eviction_rebuild prefix_resend
        preemption_resume continue_request rejected_draft_rederivation history_divergence :
      DerivationPath

unfoldable pub Path-discrete : Discrete DerivationPath
Path-discrete = hlevel

-- An arm is identified by its name.
abbrev pub ArmId : Type 0
ArmId = String

pub record Quad : Type 0 where
  pub phi_version : ℕ
  pub phase : Phase
  pub arm : ArmId
  pub path : DerivationPath

abbrev pub quad_beq : Quad → Quad → Bool
quad_beq a b =
    a.phi_version == b.phi_version
    && (a.phase ≐ b.phase && (a.arm ≐ b.arm && decided Path-discrete a.path b.path))

pub quad_beq_iff : (a b : Quad) → (quad_beq a b ≡ true) ↔ (a ≡ b)
quad_beq_iff a b = ground (
  arith,
  Phase_eq.beq_iff a.phase b.phase,
  String_eq.beq_iff a.arm b.arm,
  decided_iff Path-discrete a.path b.path,
)

instance abbrev pub Quad_eq : Eq Quad
Quad_eq = record { beq = quad_beq; beq_iff = quad_beq_iff }

-- The key of a page in the cache: the phase is part of it.
pub record PageKey : Type 0 where
  pub prefix_key : ℕ
  pub position_range : ℕ × ℕ
  pub phase_tag : Phase

abbrev pub key_beq : PageKey → PageKey → Bool
key_beq a b =
    a.prefix_key == b.prefix_key
    && (a.position_range.0 == b.position_range.0
        && (a.position_range.1 == b.position_range.1 && (a.phase_tag ≐ b.phase_tag)))

pub key_beq_iff : (a b : PageKey) → (key_beq a b ≡ true) ↔ (a ≡ b)
key_beq_iff a b = ground (arith, Phase_eq.beq_iff a.phase_tag b.phase_tag)

instance abbrev pub PageKey_eq : Eq PageKey
PageKey_eq = record { beq = key_beq; beq_iff = key_beq_iff }
