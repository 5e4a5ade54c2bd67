-- ===== src/Pager/Serve.antt =====
-- What a lookup may serve: pages stand under their own key, so no phase serves the other.
use mimo26f_afd.Prelude.{
  ℕ, ◌≡◌, refl, sym, ap, ◌∙◌, some, List, [], ◌∷◌, arith, Option-cases, Bool-cases, inl, inr,
}
use mimo26f_afd.Dict
use mimo26f_afd.Dict.Laws.{get-remove, get-insert}
use mimo26f_afd.Pool
use mimo26f_afd.Pool.{KvPool}
use mimo26f_afd.Phase.{
  KvPage, key, PhaseError, Result, ok, err, HitVerdict, ArmRegistry, validate_cache_hit,
}
use mimo26f_afd.Phase.Registry.{IsSound}
use mimo26f_afd.Phase.Hits.{Serves, validate_valid_iff}
use mimo26f_afd.Phase.Keys.{Phase, PageKey, PageKey_eq}
use mimo26f_afd.Pager.{Pager, new, allocate, from_phase, lookup, evict, Op, put, drop, apply, run}

-- Every page stands under its own key.
abbrev pub IsKeyed : Pager → Type 0
IsKeyed p =
    (k : PageKey) (page : KvPage) (bytes : ℕ)
    → Dict.get k p.pages ≡ some (page, bytes)
    → key page ≡ k

allocate-IsKeyed :
    (p : Pager) (page : KvPage) (bytes : ℕ) → IsKeyed p → IsKeyed (allocate p page bytes).0
unfolding allocate
allocate-IsKeyed p page bytes h k q b e = elim (Bool-cases (Pool.reserve_bytes p.pool bytes).1) [
  | inl fits ↦ ground (
    arith,
    get-insert (key page) k (page, bytes) p.pages,
    h k q b,
    PageKey_eq.beq_iff (key page) k,
  )
  | inr full ↦ h k q b (rw full at e)
]

evict-IsKeyed : (p : Pager) (k : PageKey) → IsKeyed p → IsKeyed (evict p k).0
unfolding evict
evict-IsKeyed p k h = elim (Option-cases (Dict.get k p.pages)) [
  | inl e ↦ rw (e, evict) h
  | inr ((page, bytes), e) ↦
      rw (e, evict) (λ j q b f. h j q b (ground (arith, get-remove k j p.pages)))
]

apply-IsKeyed : (op : Op) (p : Pager) → IsKeyed p → IsKeyed (apply op p)
unfolding apply
apply-IsKeyed (put page bytes) p h = allocate-IsKeyed p page bytes h
apply-IsKeyed (drop k) p h = evict-IsKeyed p k h

run-IsKeyed_from : (ops : List Op) (p : Pager) → IsKeyed p → IsKeyed (run ops p)
unfolding run
run-IsKeyed_from [] p h = h
run-IsKeyed_from (op ∷ ops) p h = run-IsKeyed_from ops (apply op p) (apply-IsKeyed op p h)

new-IsKeyed : (pool : KvPool) → IsKeyed (new pool)
unfolding new Dict.get
new-IsKeyed pool k page bytes e = cc

-- What a valid answer of `lookup` at a key rests on.
pub record ServedFrom (p : Pager) (k : PageKey) (requested : Phase) (r : ArmRegistry) : Type 0 where
  pub page : KvPage
  pub bytes : ℕ
  pub stored : Dict.get k p.pages ≡ some (page, bytes)
  pub same_phase : k.phase_tag ≡ requested
  pub serves : Serves page requested r

served_from :
    (p : Pager) (k : PageKey) (requested : Phase) (r : ArmRegistry)
    → IsKeyed p
    → IsSound r
    → lookup p k requested r ≡ ok HitVerdict.valid
    → ServedFrom p k requested r
unfolding lookup
served_from p k requested r h s e = elim (Option-cases (Dict.get k p.pages)) [
  | inl f ↦ absurd (ground arith)
  | inr ((page, bytes), f) ↦
      let hit : from_phase (validate_cache_hit page requested r) ≡ ok HitVerdict.valid =
        ground arith in
      let v = (validate_valid_iff page requested r s).0 (from_phase_valid _ hit) in
      record {
        page = page;
        bytes = bytes;
        stored = f;
        same_phase =
            sym (ap (λ (q : PageKey). q.phase_tag) (h k page bytes f)) ∙ (unfold key in v.tag);
        serves = v;
      }
]
  where
    from_phase_valid :
        (v : Result PhaseError HitVerdict)
        → from_phase v ≡ ok HitVerdict.valid
        → v ≡ ok HitVerdict.valid
    from_phase_valid (ok HitVerdict.valid) g = refl
    from_phase_valid (ok HitVerdict.stale) g = cc
    from_phase_valid (err x) g = cc

-- After any allocations and evictions, and against a sound registry: a lookup answers a valid hit only
-- from a page that is stored under the key it asked for, of the requested phase, which is also the
-- phase of the key, of the current epoch, and with the arm that Φ maps the phase to.
pub lookup-ServedFrom :
    (ops : List Op) (pool : KvPool) (k : PageKey) (requested : Phase) (r : ArmRegistry)
    → IsSound r
    → lookup (run ops (new pool)) k requested r ≡ ok HitVerdict.valid
    → ServedFrom (run ops (new pool)) k requested r
lookup-ServedFrom ops pool k requested r s e =
    served_from (run ops (new pool)) k requested r
      (run-IsKeyed_from ops (new pool) (new-IsKeyed pool)) s e
