-- ===== src/Phase/Hits.antt =====
-- `validate_cache_hit`: which stored pages may serve a request.
use mimo26f_afd.Prelude.{
  ◌≡◌, ◌≢◌, ◌↔◌, sym, some, arith, Bool-cases, inl, inr, ◌≐◌, String_eq, true, ◌==◌,
}
use mimo26f_afd.Dict
use mimo26f_afd.Phase.Keys.{Phase, Phase_eq}
use mimo26f_afd.Phase.{
  Arm, ok, ArmRegistry, KvPage, HitVerdict, arm_for, validate_cache_hit, Result-cases, phi_for,
  arm_named,
}
use mimo26f_afd.Phase.Registry.{IsSound, arm_for-own_id}

-- The page was written in this epoch, for this phase, with the registered arm that Φ maps it to.
pub record Serves (page : KvPage) (requested : Phase) (r : ArmRegistry) : Type 0 where
  pub epoch : page.phi_version ≡ r.phi_version
  pub tag : page.phase_tag ≡ requested
  pub mapped : Dict.get requested r.phi ≡ some page.arm_id
  pub arm : Arm
  pub named : Dict.get page.arm_id r.arms ≡ some arm

Serves-of_valid :
    (page : KvPage) (requested : Phase) (r : ArmRegistry)
    → IsSound r
    → validate_cache_hit page requested r ≡ ok HitVerdict.valid
    → Serves page requested r
unfolding validate_cache_hit
Serves-of_valid page requested r s h = elim (Bool-cases (page.phi_version == r.phi_version)) [
  | inr old ↦ absurd (ground arith)
  | inl epoch ↦ elim (Bool-cases (page.phase_tag ≐ requested)) [
    | inr other ↦ absurd (ground arith)
    | inl tag ↦ elim (Result-cases (arm_for r page.phase_tag)) [
      | inr (e, f) ↦ absurd (ground arith)
      | inl (a, f) ↦
          let own = arm_for-own_id r page.phase_tag a s f in
          let same : page.arm_id ≡ a.id = ground (arith, String_eq.beq_iff page.arm_id a.id) in
          let tag' = (Phase_eq.beq_iff page.phase_tag requested).0 tag in
          record {
            epoch = ground arith;
            tag = tag';
            mapped = rw (← tag', same) own.0;
            arm = a;
            named = rw same own.1;
          }
    ]
  ]
]

valid_of_Serves :
    (page : KvPage) (requested : Phase) (r : ArmRegistry)
    → IsSound r
    → Serves page requested r
    → validate_cache_hit page requested r ≡ ok HitVerdict.valid
unfolding validate_cache_hit arm_for
valid_of_Serves page requested r s v =
    let epoch : (page.phi_version == r.phi_version) ≡ true = ground (arith, v.epoch) in
    let tag = (Phase_eq.beq_iff page.phase_tag requested).1 v.tag in
    let mapped : Dict.get page.phase_tag r.phi ≡ some page.arm_id = rw v.tag v.mapped in
    let own = (String_eq.beq_iff page.arm_id v.arm.id).1 (sym (s.own_id _ _ v.named)) in
    rw (epoch, tag) (rw (mapped, phi_for) (rw (v.named, arm_named) (rw own)))

-- On a sound registry a stored page is a valid hit exactly when it was written in the current epoch,
-- its phase is the requested one, and its arm is registered and is the one that Φ maps the phase to.
pub validate_valid_iff :
    (page : KvPage) (requested : Phase) (r : ArmRegistry)
    → IsSound r
    → (validate_cache_hit page requested r ≡ ok HitVerdict.valid) ↔ Serves page requested r
validate_valid_iff page requested r s =
    (Serves-of_valid page requested r s, valid_of_Serves page requested r s)

-- A stored page is stale exactly when its epoch is not the registry's, whatever else differs: an
-- upgrade is never reported as corruption, and corruption in the current epoch never as an upgrade.
pub validate_stale_iff :
    (page : KvPage) (requested : Phase) (r : ArmRegistry)
    → (validate_cache_hit page requested r ≡ ok HitVerdict.stale)
      ↔ (page.phi_version ≢ r.phi_version)
unfolding validate_cache_hit
validate_stale_iff page requested r = elim (Result-cases (arm_for r page.phase_tag)) [
  | inl (a, f) ↦ ground arith
  | inr (e, f) ↦ ground arith
]
