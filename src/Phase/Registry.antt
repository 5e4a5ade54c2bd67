-- ===== src/Phase/Registry.antt =====
-- What the arm registry answers, and that a new epoch invalidates what older ones allowed.
use mimo26f_afd.Prelude.{
  ◌+◌, ◌≤◌, ◌<◌, ◌^◌, ◌≡◌, ◌≢◌, ◌↔◌, sym, some, List, [], ◌∷◌, arith, Option-cases, inl, inr,
  length, String_eq,
}
use mathlib.Core.Path.{subst}
use mimo26f_afd.Dict
use mimo26f_afd.Dict.{Dict}
use mimo26f_afd.Dict.Laws.{get-insert}
use mimo26f_afd.Phase.Keys.{Phase, DerivationPath, ArmId, Quad, Phase_eq, Quad_eq}
use mimo26f_afd.Phase.{
  Arm, ok, ArmRegistry, new, bump_phi_version, register, set_phi, allow_path, quad, phi_for,
  arm_named, arm_for, resolve,
}

-- What an answer of `resolve` rests on.
pub record Resolves (r : ArmRegistry) (phase : Phase) (path : DerivationPath) (arm : Arm)
    : Type 0 where
  pub id : ArmId
  pub mapped : Dict.get phase r.phi ≡ some id
  pub named : Dict.get id r.arms ≡ some arm
  pub allowed : Dict.get (quad r phase id path) r.legal ≡ some tt

Resolves-of_ok :
    (r : ArmRegistry) (phase : Phase) (path : DerivationPath) (arm : Arm)
    → resolve r phase path ≡ ok arm
    → Resolves r phase path arm
unfolding resolve
Resolves-of_ok r phase path arm h = elim (Option-cases (Dict.get phase r.phi)) [
  | inl e ↦ absurd (ground arith)
  | inr (id, e) ↦ elim (Option-cases (Dict.get id r.arms)) [
    | inl f ↦ absurd (ground arith)
    | inr (a, f) ↦ elim (Option-cases (Dict.get (quad r phase id path) r.legal)) [
      | inl g ↦ absurd (ground arith)
      | inr (tt, g) ↦ record { id = id; mapped = e; named = rw f (ground arith); allowed = g }
    ]
  ]
]

-- `resolve` answers an arm exactly when the phase is mapped to a registered arm of that id and the
-- quadruple of the current epoch is legal: there is no default arm.
pub resolve_iff :
    (r : ArmRegistry) (phase : Phase) (path : DerivationPath) (arm : Arm)
    → (resolve r phase path ≡ ok arm) ↔ Resolves r phase path arm
unfolding resolve
resolve_iff r phase path arm = (
  Resolves-of_ok r phase path arm,
  λ s. rw (s.mapped, phi_for) (rw (s.named, arm_named) (rw s.allowed)),
)

-- The calls that build a registry.
pub data Op : Type 0 where
  bump : Op
  add_arm : Arm → Op
  map_phase : Phase → ArmId → Op
  allow : Phase → ArmId → DerivationPath → Op

abbrev pub apply : Op → ArmRegistry → ArmRegistry
apply bump r = (bump_phi_version r).0
apply (add_arm a) r = register r a
apply (map_phase p id) r = set_phi r p id
apply (allow p id path) r = allow_path r p id path

abbrev pub build : List Op → ArmRegistry → ArmRegistry
build [] r = r
build (op ∷ ops) r = build ops (apply op r)

-- Arms are stored under their own ids, and no legal quadruple is of an epoch to come.
pub record IsSound (r : ArmRegistry) : Type 0 where
  pub own_id : (id : ArmId) (a : Arm) → Dict.get id r.arms ≡ some a → a.id ≡ id
  pub past : (q : Quad) → Dict.get q r.legal ≡ some tt → q.phi_version ≤ r.phi_version

apply-IsSound :
    (op : Op) (r : ArmRegistry) → r.phi_version + 1 < 2 ^ 32 → IsSound r → IsSound (apply op r)
unfolding bump_phi_version register set_phi allow_path
apply-IsSound bump r small s = record { own_id = s.own_id; past = λ q h. omega (arith, s.past q h) }
apply-IsSound (add_arm a) r small s = record {
  own_id = λ id b h.
      ground (arith, get-insert a.id id a r.arms, s.own_id id b, String_eq.beq_iff a.id id);
  past = s.past;
}
apply-IsSound (map_phase p id) r small s = record { own_id = s.own_id; past = s.past }
apply-IsSound (allow p id path) r small s = record {
  own_id = s.own_id;
  past = λ q h. ground (
    arith,
    get-insert (quad r p id path) q tt r.legal,
    s.past q,
    Quad_eq.beq_iff (quad r p id path) q,
  );
}

version-apply-le : (op : Op) (r : ArmRegistry) → (apply op r).phi_version ≤ r.phi_version + 1
unfolding bump_phi_version register set_phi allow_path
version-apply-le bump r = omega arith
version-apply-le (add_arm a) r = omega arith
version-apply-le (map_phase p id) r = omega arith
version-apply-le (allow p id path) r = omega arith

build-IsSound_from :
    (ops : List Op) (r : ArmRegistry)
    → r.phi_version + length ops < 2 ^ 32
    → IsSound r
    → IsSound (build ops r)
build-IsSound_from [] r small s = s
build-IsSound_from (op ∷ ops) r small s =
    build-IsSound_from ops (apply op r) (omega (arith, version-apply-le op r))
      (apply-IsSound op r (omega arith) s)

-- A registry that fewer than 2 ^ 31 calls built from the empty one stores each arm under its own id,
-- and holds no legal quadruple of an epoch that has not come yet.
pub build-IsSound : (ops : List Op) → length ops < 2 ^ 31 → IsSound (build ops new)
unfolding new Dict.get
build-IsSound ops small =
    build-IsSound_from ops new (omega arith) (record { own_id = λ id a h. cc; past = λ q h. cc })

-- On a sound registry whose epoch is below 2 ^ 32 - 1, a new epoch makes every derivation path of
-- every phase unresolvable until it is allowed again: no answer of `resolve` outlives its epoch.
pub resolve-bump :
    (r : ArmRegistry) (phase : Phase) (path : DerivationPath) (arm : Arm)
    → r.phi_version + 1 < 2 ^ 32
    → IsSound r
    → resolve (bump_phi_version r).0 phase path ≢ ok arm
unfolding bump_phi_version
resolve-bump r phase path arm small s h =
    let rests = Resolves-of_ok (bump_phi_version r).0 phase path arm h in
    absurd (omega (arith, s.past _ rests.allowed))

-- An arm that a sound registry answers for a phase is the one that Φ maps the phase to.
pub arm_for-own_id :
    (r : ArmRegistry) (phase : Phase) (a : Arm)
    → IsSound r
    → arm_for r phase ≡ ok a
    → (Dict.get phase r.phi ≡ some a.id) × (Dict.get a.id r.arms ≡ some a)
unfolding arm_for
arm_for-own_id r phase a s h = elim (Option-cases (Dict.get phase r.phi)) [
  | inl e ↦ absurd (ground arith)
  | inr (id, e) ↦ elim (Option-cases (Dict.get id r.arms)) [
    | inl f ↦ absurd (ground arith)
    | inr (b, f) ↦
        let same : b ≡ a = ground arith in
        let own : a.id ≡ id = rw same at (s.own_id id b f) in
        (rw own e, subst (λ (i : ArmId). Dict.get i r.arms ≡ some a) (sym own) (rw same at f))
  ]
]
