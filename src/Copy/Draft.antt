-- ===== src/Copy/Draft.antt =====
-- What a proposal is: a copy of what followed an earlier occurrence of the context's last tokens.
mod Walk
use mimo26f_afd.Prelude.{
  ℕ, zero, suc, ◌+◌, ◌-◌, ◌≤◌, ◌<◌, ◌^◌, ◌≡◌, ◌≢◌, ◌⊎◌, inl, inr, refl, sym, ap, ◌∙◌, Bool-cases,
  Option, none, some, List, [], ◌∷◌, ◌++◌, map, length, get_or, get_elem?, take, drop, arith, ltb,
  leb, true, false, All, length-append, Option-cases, ◌≐◌, if◌then◌else◌, ◌||◌, List_eq,
  append_assoc, get_elem?-append_left, get_elem?-append_right, get_elem?-eq-get_or, length-drop,
  take_all,
}
use mimo26f_afd.Dict
use mimo26f_afd.Copy.{
  CopyIndex, default, match_len, extend, none_pos, candidates, as_u32, gram_at, index_ctx,
  backward_len, walk, emit, draft, propose,
}
use mimo26f_afd.Copy.Index.{IsIndex, EndsGram, index_ctx-IsIndex}
use Walk.{chain, AgreesBack, backward_len-AgreesBack, Best, Occurs, walk-Best_newest}

-- `out` repeats `ctx ++ out` from position `from` on.
abbrev pub Repeats : List ℕ → ℕ → List ℕ → Type 0
Repeats ctx from out =
    (j : ℕ) → j < length out → get_elem? out j ≡ get_elem? (ctx ++ out) (from + j)

-- One more token of the copy.
emit_step :
    (from n t : ℕ) (ctx out : List ℕ)
    → from < length ctx
    → n ≡ length out
    → Repeats ctx from out
    → get_elem? (ctx ++ out) (from + n) ≡ some t
    → Repeats ctx from (out ++ (t ∷ []))
emit_step from n t ctx out h e r new j lt = elim (Bool-cases (ltb j n)) [
  | inl inside ↦
      get_elem?-append_left out (t ∷ []) j (ground arith)
      ∙ (r j (ground arith) ∙ sym (shifted j (ground arith)))
  | inr end ↦
      let here : j ≡ n = ground (arith, length-append out (t ∷ [])) in
      get_elem?-append_right out (t ∷ []) 0 j (omega arith)
      ∙ sym (shifted j (omega arith) ∙ (ap (λ i. get_elem? (ctx ++ out) (from + i)) here ∙ new))
]
  where
    shifted :
        (i : ℕ)
        → i ≤ length out
        → get_elem? (ctx ++ (out ++ (t ∷ []))) (from + i) ≡ get_elem? (ctx ++ out) (from + i)
    shifted i le = rw (← append_assoc ctx out (t ∷ [])) (
        get_elem?-append_left (ctx ++ out) (t ∷ []) (from + i)
          (omega (arith, length-append ctx out)))

next_token :
    (from j : ℕ) (ctx out : List ℕ)
    → from < length ctx
    → j ≡ length out
    → get_elem? (ctx ++ out) (from + j)
      ≡ some (
          if ltb (from + j) (length ctx)
          then get_or ctx (from + j) 0
          else get_or out (from + j - length ctx) 0)
next_token from j ctx out h e = elim (Bool-cases (ltb (from + j) (length ctx))) [
  | inl inside ↦ rw inside (
      get_elem?-append_left ctx out (from + j) (ground arith)
      ∙ get_elem?-eq-get_or ctx (from + j) 0 (ground arith))
  | inr beyond ↦ rw beyond (
      get_elem?-append_right ctx out (from + j - length ctx) (from + j) (ground arith)
      ∙ get_elem?-eq-get_or out (from + j - length ctx) 0 (ground arith))
]

emit-Repeats :
    (rounds j from : ℕ) (ctx out : List ℕ)
    → from < length ctx
    → j ≡ length out
    → Repeats ctx from out
    → Repeats ctx from (emit rounds j from ctx out)
      × (length (emit rounds j from ctx out) ≡ j + rounds)
unfolding emit
emit-Repeats zero j from ctx out h e r = (r, omega arith)
emit-Repeats (suc rounds) j from ctx out h e r =
    let (again, long) =
      emit-Repeats rounds (j + 1) from ctx (out ++ (_ ∷ [])) h
        (omega (arith, length-append out (_ ∷ [])))
        (emit_step from j _ ctx out h e r (next_token from j ctx out h e)) in
    (again, long ∙ (omega arith))

-- The copy of `k` tokens that a proposal is. It starts at `from`, behind an occurrence of the last
-- `match_len` tokens that lies before the end of the context. However far back, up to `extend` tokens,
-- one of the earlier occurrences tried, newest first, agrees with the end of the context, the
-- occurrence taken agrees as far.
pub record IsCopy (ctx : List ℕ) (k : ℕ) (c : CopyIndex) (out : List ℕ) : Type 0 where
  pub from : ℕ
  pub newest : ℕ
  pub earlier : (match_len ≤ from) × (from < length ctx)
  pub matches : gram_at ctx (from - 1) ≡ gram_at ctx (length ctx - 1)
  pub found : Dict.get (gram_at ctx (length ctx - 1)) c.head ≡ some newest
  pub furthest :
      All
        (λ q. (m : ℕ) → m ≤ extend → AgreesBack ctx q m → AgreesBack ctx (from - 1) m)
        (chain candidates newest c.prev)
  pub count : length out ≡ k
  pub copied : Repeats ctx from out

All-furthest :
    (p : ℕ) (ctx qs : List ℕ)
    → All (λ q. backward_len q ctx ≤ backward_len p ctx) qs
    → All (λ q. (m : ℕ) → m ≤ extend → AgreesBack ctx q m → AgreesBack ctx p m) qs
All-furthest p ctx [] h = tt
All-furthest p ctx (q ∷ qs) (less, h) =
    (λ m short. backward_len-AgreesBack p q m ctx less short, All-furthest p ctx qs h)

draft_lem :
    (ctx : List ℕ) (k : ℕ) (c : CopyIndex)
    → IsIndex ctx c
    → length c.prev + 1 ≤ length ctx
    → ((draft ctx k c ≡ []) × (Dict.get (gram_at ctx (length ctx - 1)) c.head ≡ none))
      ⊎ IsCopy ctx k c (draft ctx k c)
unfolding draft
draft_lem ctx k c i h = elim (Option-cases (Dict.get (gram_at ctx (length ctx - 1)) c.head)) [
  | inl e ↦ inl (rw (e, draft), e)
  | inr (newest, e) ↦
      let best =
        walk-Best_newest 63 newest ctx (gram_at ctx (length ctx - 1)) c i (i.heads _ newest e) in
      let p = walk candidates newest none_pos 0 c.prev ctx in
      let (copied, count) =
        emit-Repeats k 0 (p + 1) ctx [] (omega (arith, best.occurs.0)) refl
          (λ j lt. absurd (omega arith)) in
      let back : p + 1 - 1 ≡ p = omega arith in
      rw (e, draft)
        (inr (record {
          from = p + 1;
          newest = newest;
          earlier = (best.occurs.1.0, omega (arith, best.occurs.0));
          matches = ap (gram_at ctx) back ∙ best.occurs.1.1;
          found = e;
          furthest = rw back (All-furthest p ctx (chain candidates newest c.prev) best.longest);
          count = count ∙ (omega arith);
          copied = copied;
        }))
]

-- No position before the last one ends the gram that the context ends in.
abbrev pub NoEarlier : List ℕ → Type 0
NoEarlier ctx =
    (p : ℕ) → match_len ≤ p + 1 → p + 1 < length ctx → gram_at ctx p ≢ gram_at ctx (length ctx - 1)

-- One call of `propose` with the index `c`.
pub record Proposes (ctx : List ℕ) (k : ℕ) (c : CopyIndex) (out : CopyIndex × List ℕ) : Type 0 where
  pub index : IsIndex ctx out.0
  pub nothing : (k < 2) ⊎ (length ctx ≤ match_len) → out ≡ (c, [])
  pub behind : 2 ≤ k → match_len < length ctx → length out.0.prev + 1 ≡ length ctx
  pub copies :
      2 ≤ k → match_len < length ctx → ((out.1 ≡ []) × NoEarlier ctx) ⊎ IsCopy ctx k out.0 out.1

-- With an index of a part of the context that leaves out its last token at least, `propose` gives
-- nothing and leaves the index as it is when `k < 2` or the context has at most `match_len` tokens.
-- Otherwise it extends the index to one that leaves out the last token only, and gives either nothing,
-- and then the last `match_len` tokens occur nowhere before, or `k` tokens: those that follow an
-- earlier occurrence of the last `match_len` tokens, the copy running on into itself where it reaches
-- the end. As far back, up to `extend` tokens, as any of the occurrences tried agrees with the end of
-- the context, the one taken agrees too.
pub propose-Proposes :
    (ctx : List ℕ) (k : ℕ) (c : CopyIndex)
    → IsIndex ctx c
    → length c.prev + 1 ≤ length ctx
    → Proposes ctx k c (propose c ctx k)
unfolding propose
propose-Proposes ctx k c i h = elim (Bool-cases (ltb k 2 || leb (length ctx) match_len)) [
  | inl skip ↦ rw skip (record {
    index = i;
    nothing = λ why. refl;
    behind = λ two long. absurd (ground arith);
    copies = λ two long. absurd (ground arith);
  })
  | inr go ↦
      let (j, known) = index_ctx-IsIndex ctx c (omega arith) i in
      let behind : length (index_ctx ctx c).prev + 1 ≡ length ctx = omega arith in
      rw go (record {
        index = j;
        nothing = λ why. absurd (ground arith);
        behind = λ two long. behind;
        copies = λ two long. elim (draft_lem ctx k (index_ctx ctx c) j (omega arith)) [
          | inl (empty, none_found) ↦ inl (
            empty,
            λ p fits lt same.
                let (q, hit) = j.seen p (omega arith) fits in
                cc (none_found, hit, ap (λ g. Dict.get g (index_ctx ctx c).head) same),
          )
          | inr copy ↦ inr copy
        ];
      })
]
