-- ===== src/Host/Lookup/Usable.antt =====
-- crates/mimo26-coordinator/src/hostcache.rs: which snapshot `lookup_for` finds.
use mimo26f_afd.Prelude.{
  ℕ, Bool, true, zero, suc, ◌-◌, ◌≤◌, ◌<◌, ◌≡◌, refl, sym, ◌∙◌, ◌==◌, ◌&&◌, not, Option, none, some,
  List, [], ◌∷◌, length, take, length-take, get_elem?, arith, Bool-cases, Option-cases, inl, inr,
  if◌then◌else◌, All,
}
use mimo26f_afd.Host.{Snapshot, HostCache, serves}
use mimo26f_afd.Host.Lookup.{lookup, serves_at, lookup_for}
use mimo26f_afd.Host.Lookup.Chain.{IsPrefix, IsNamed, take-take}
use mimo26f_afd.Host.Lookup.Longest.{Best, lookup-Best}

-- What a request finds: a prefix of its prompt that serves it where it is the whole prompt, and that no
-- prefix shorter than the prompt is longer than.
abbrev pub Finds : HostCache → List ℕ → Bool → Option (ℕ × ℕ) → Type 0
Finds c prompt sampled none =
    (j : ℕ) (t : Snapshot)
    → get_elem? c.snaps j ≡ some t
    → IsPrefix t prompt
    → length t.tokens < length prompt
    → ⊥
Finds c prompt sampled (some (i, n)) =
    (s : Snapshot) × (get_elem? c.snaps i ≡ some s)
    × (length s.tokens ≡ n)
    × IsPrefix s prompt
    × (n ≡ length prompt → serves s.after sampled ≡ true)
    × ((j : ℕ) (t : Snapshot)
        → get_elem? c.snaps j ≡ some t
        → IsPrefix t prompt
        → length t.tokens < length prompt
        → length t.tokens ≤ n)

stands_below : {A : Type 0} (xs : List A) (j : ℕ) (x : A) → get_elem? xs j ≡ some x → j < length xs
stands_below [] j x e = absurd (cc)
stands_below (y ∷ xs) zero x e = omega arith
stands_below (y ∷ xs) (suc j) x e = omega (arith, stands_below xs j x e)

shorter_prefix :
    (t : Snapshot) (prompt : List ℕ)
    → IsPrefix t prompt
    → length t.tokens < length prompt
    → IsPrefix t (take (length prompt - 1) prompt)
shorter_prefix t prompt p lt = record {
  short = omega (arith, length-take (length prompt - 1) prompt);
  same = p.same ∙ sym (take-take (length t.tokens) (length prompt - 1) prompt (omega arith));
}

longer_prefix :
    (s : Snapshot) (prompt : List ℕ)
    → 0 < length prompt
    → IsPrefix s (take (length prompt - 1) prompt)
    → IsPrefix s prompt × (length s.tokens < length prompt)
longer_prefix s prompt some_tokens p =
    let size = length-take (length prompt - 1) prompt in
    let short = p.short in
    let lt : length s.tokens < length prompt = omega arith in
    (
      record {
        short = omega arith;
        same = p.same ∙ take-take (length s.tokens) (length prompt - 1) prompt (omega arith);
      },
      lt,
    )

-- The search among the prefixes that are shorter than the prompt.
Finds-shorter :
    (c : HostCache) (prompt : List ℕ) (sampled : Bool) (out : Option (ℕ × ℕ))
    → 0 < length prompt
    → Best c.snaps (take (length prompt - 1) prompt) (length c.snaps) out
    → Finds c prompt sampled out
Finds-shorter c prompt sampled none some_tokens b =
    λ j t e p lt. b j t (stands_below c.snaps j t e) e (shorter_prefix t prompt p lt)
Finds-shorter c prompt sampled (some (i, n)) some_tokens (s, here, size, p, best) =
    let (whole, lt) = longer_prefix s prompt some_tokens p in
    (
      s,
      here,
      size,
      whole,
      λ h. absurd (omega arith),
      λ j t e q lt'. best j t (stands_below c.snaps j t e) e (shorter_prefix t prompt q lt'),
    )

Finds-Best :
    (c : HostCache) (prompt : List ℕ) (sampled : Bool) (i n : ℕ)
    → (n ≡ length prompt → serves_at c sampled i ≡ true)
    → Best c.snaps prompt (length c.snaps) (some (i, n))
    → Finds c prompt sampled (some (i, n))
Finds-Best c prompt sampled i n usable (s, here, size, p, best) = (
  s,
  here,
  size,
  p,
  λ h. rw (here, serves_at) at (usable h),
  λ j t e q lt. best j t (stands_below c.snaps j t e) e q,
)

module _ (lane : ℕ → ℕ → List ℕ → ℕ) (c : HostCache) (prompt : List ℕ) (sampled : Bool) where
  lookup_hit :
      (i n : ℕ)
      → lookup lane c prompt ≡ some (i, n)
      → lookup_for lane c prompt sampled ≡ (
          if n == length prompt && not (serves_at c sampled i)
          then lookup lane c (take (length prompt - 1) prompt)
          else some (i, n))
  unfolding lookup_for
  lookup_hit i n e = rw (e, lookup_for) refl

  lookup_missed : lookup lane c prompt ≡ none → lookup_for lane c prompt sampled ≡ none
  unfolding lookup_for
  lookup_missed e = rw (e, lookup_for) refl

-- For a prompt of at least one token, on a cache as in `lookup-Best` for the prompt and for the prompt
-- without its last token: a snapshot of the whole prompt that `lookup_for` finds serves the request, and
-- `lookup_for` finds a longest one of the prefixes shorter than the prompt, or a longer prefix.
pub lookup_for-Finds :
    (lane : ℕ → ℕ → List ℕ → ℕ) (c : HostCache) (prompt : List ℕ) (sampled : Bool)
    → 0 < length prompt
    → All (IsNamed lane prompt) c.snaps
    → All (IsNamed lane (take (length prompt - 1) prompt)) c.snaps
    → Finds c prompt sampled (lookup_for lane c prompt sampled)
lookup_for-Finds lane c prompt sampled some_tokens k l =
    let b = lookup-Best lane c prompt k in
    elim (Option-cases (lookup lane c prompt)) [
      | inl e ↦
          let b' = rw e at b in
          rw (lookup_missed lane c prompt sampled e)
            (λ j t here p lt. b' j t (stands_below c.snaps j t here) here p)
      | inr ((i, n), e) ↦
          let b' = rw e at b in
          elim (Bool-cases (n == length prompt && not (serves_at c sampled i))) [
            | inl gives_way ↦
                rw (lookup_hit lane c prompt sampled i n e, gives_way)
                  (Finds-shorter c prompt sampled _ some_tokens
                    (lookup-Best lane c (take (length prompt - 1) prompt) l))
            | inr stays ↦
                rw (lookup_hit lane c prompt sampled i n e, stays)
                  (Finds-Best c prompt sampled i n (λ h. ground (arith, h)) b')
          ]
    ]
