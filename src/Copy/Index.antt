-- ===== src/Copy/Index.antt =====
-- The gram index is sound: every entry and every link names an earlier place with the same gram.
use mimo26f_afd.Prelude.{
  ℕ, zero, suc, ◌+◌, ◌-◌, ◌≤◌, ◌<◌, max, ◌≡◌, ◌≢◌, ◌⊎◌, inl, inr, refl, sym, ap, ◌∙◌, Bool-cases,
  Option, none, some, List, [], ◌∷◌, ◌++◌, map, length, get_or, take, drop, arith, ltb, List_eq,
  length-append, get_or-append_left, get_or-append_end, take-append_left, drop-append_left,
  length-drop, ◌≐◌,
}
use mimo26f_afd.Dict
use mimo26f_afd.Dict.Laws.{get-insert}
use mimo26f_afd.Copy.{
  CopyIndex, default, match_len, none_pos, as_u32, gram_at, or_none, index_one, index_from,
  index_ctx,
}

-- Position `p` of the context ends a gram.
abbrev pub EndsGram : List ℕ → ℕ → List ℕ → Type 0
EndsGram ctx p g = (match_len ≤ p + 1) × (gram_at ctx p ≡ g)

-- What a link at position `q` may hold.
abbrev pub IsLink : List ℕ → ℕ → ℕ → Type 0
IsLink ctx q p = (p ≡ none_pos) ⊎ ((p < q) × EndsGram ctx p (gram_at ctx q))

-- The index knows the positions before `length c.prev`, and what it says of them is true of `ctx`.
pub record IsIndex (ctx : List ℕ) (c : CopyIndex) : Type 0 where
  pub short : length ctx < none_pos
  pub known : length c.prev ≤ length ctx
  pub heads :
      (g : List ℕ) (p : ℕ) → Dict.get g c.head ≡ some p → (p < length c.prev) × EndsGram ctx p g
  pub links : (q : ℕ) → q < length c.prev → IsLink ctx q (get_or c.prev q none_pos)
  pub seen :
      (q : ℕ)
      → q < length c.prev
      → match_len ≤ q + 1
      → (p : ℕ) × (Dict.get (gram_at ctx q) c.head ≡ some p)

-- A gram inside a context is the same when the context has grown.
pub gram_at-append :
    (ctx more : List ℕ) (p : ℕ)
    → p < length ctx
    → match_len ≤ p + 1
    → gram_at (ctx ++ more) p ≡ gram_at ctx p
unfolding gram_at
gram_at-append ctx more p h e = ap (map as_u32) (
    ap (take match_len) (drop-append_left (p + 1 - match_len) ctx more (omega arith))
    ∙ take-append_left match_len (drop (p + 1 - match_len) ctx) more
        (omega (arith, length-drop (p + 1 - match_len) ctx)))

IsLink-append :
    (ctx more : List ℕ) (q p : ℕ) → q < length ctx → IsLink ctx q p → IsLink (ctx ++ more) q p
IsLink-append ctx more q p h (inl e) = inl e
IsLink-append ctx more q p h (inr (lt, (fits, same))) = inr (
  lt,
  (
    fits,
    gram_at-append ctx more p (omega arith) fits
        ∙ (same ∙ sym (gram_at-append ctx more q h (omega arith))),
  ),
)

-- An index of a context is an index of every context that continues it.
pub IsIndex-append :
    (ctx more : List ℕ) (c : CopyIndex)
    → length (ctx ++ more) < none_pos
    → IsIndex ctx c
    → IsIndex (ctx ++ more) c
IsIndex-append ctx more c short i = record {
  short = short;
  known = omega (arith, length-append ctx more, i.known);
  heads = λ g p h.
      let (lt, ends) = i.heads g p h in
      (lt, (ends.0, gram_at-append ctx more p (omega (arith, i.known)) ends.0 ∙ ends.1));
  links = λ q h. IsLink-append ctx more q _ (omega (arith, i.known)) (i.links q h);
  seen = λ q h fits. rw (gram_at-append ctx more q (omega (arith, i.known)) fits) (i.seen q h fits);
}

push-IsLink :
    (ctx prev : List ℕ) (v : ℕ)
    → ((q : ℕ) → q < length prev → IsLink ctx q (get_or prev q none_pos))
    → IsLink ctx (length prev) v
    → (q : ℕ) → q < length (prev ++ (v ∷ []))
    → IsLink ctx q (get_or (prev ++ (v ∷ [])) q none_pos)
push-IsLink ctx prev v old new q h = elim (Bool-cases (ltb q (length prev))) [
  | inl inside ↦
      rw (get_or-append_left prev (v ∷ []) q none_pos (ground arith)) (old q (ground arith))
  | inr end ↦
      let here : q ≡ length prev = ground (arith, length-append prev (v ∷ [])) in
      rw (get_or-append_end prev v q none_pos here) (rw here new)
]

or_none-IsLink :
    (ctx : List ℕ) (c : CopyIndex) (o : Option ℕ)
    → IsIndex ctx c
    → Dict.get (gram_at ctx (length c.prev)) c.head ≡ o
    → IsLink ctx (length c.prev) (or_none o)
unfolding or_none
or_none-IsLink ctx c none i e = inl refl
or_none-IsLink ctx c (some p) i e = inr (i.heads _ p e)

index_one-IsIndex :
    (ctx : List ℕ) (p : ℕ) (c : CopyIndex)
    → p ≡ length c.prev
    → p < length ctx
    → IsIndex ctx c
    → IsIndex ctx (index_one ctx p c)
unfolding index_one
index_one-IsIndex ctx p c e h i = elim (Bool-cases (ltb (p + 1) match_len)) [
  | inl early ↦ rw early (record {
    short = i.short;
    known = omega (arith, length-append c.prev (none_pos ∷ []));
    heads = λ g q f.
        (omega (arith, i.heads g q f, length-append c.prev (none_pos ∷ [])), (i.heads g q f).1);
    links = push-IsLink ctx c.prev none_pos i.links (inl refl);
    seen = λ q lt fits. i.seen q (ground (arith, length-append c.prev (none_pos ∷ []))) fits;
  })
  | inr late ↦
      let v = or_none (Dict.get (gram_at ctx p) c.head) in
      let longer = length-append c.prev (v ∷ []) in
      let small : as_u32 p ≡ p = omega (arith, i.short) in
      rw late (record {
        short = i.short;
        known = omega arith;
        heads = λ g q f. elim (Bool-cases (gram_at ctx p ≐ g)) [
          | inl same ↦
              let gram = (List_eq.beq_iff (gram_at ctx p) g).0 same in
              let at : p ≡ q = ground (arith, get-insert (gram_at ctx p) g (as_u32 p) c.head) in
              (omega arith, (ground arith, ap (gram_at ctx) (sym at) ∙ gram))
          | inr other ↦
              let old : Dict.get g c.head ≡ some q =
                ground (arith, get-insert (gram_at ctx p) g (as_u32 p) c.head) in
              let was = i.heads g q old in (omega arith, was.1)
        ];
        links =
            push-IsLink ctx c.prev v i.links
              (or_none-IsLink ctx c _ i (ap (λ (r : ℕ). Dict.get (gram_at ctx r) c.head) (sym e)));
        seen = λ q lt fits. elim (Bool-cases (gram_at ctx p ≐ gram_at ctx q)) [
          | inl same ↦
              (as_u32 p, get-insert (gram_at ctx p) (gram_at ctx q) (as_u32 p) c.head ∙ rw same)
          | inr other ↦
              let apart : q ≢ p = λ same. cc (
                other,
                (List_eq.beq_iff (gram_at ctx p) (gram_at ctx q)).1 (ap (gram_at ctx) (sym same)),
              ) in
              let (r, old) = i.seen q (omega arith) fits in
              (r, get-insert (gram_at ctx p) (gram_at ctx q) (as_u32 p) c.head ∙ rw (other, old))
        ];
      })
]

pub length-index_one :
    (ctx : List ℕ) (p : ℕ) (c : CopyIndex) → length (index_one ctx p c).prev ≡ length c.prev + 1
unfolding index_one
length-index_one ctx p c = ground (
  arith,
  length-append c.prev (none_pos ∷ []),
  length-append c.prev (or_none (Dict.get (gram_at ctx p) c.head) ∷ []),
)

index_from-IsIndex :
    (rounds p : ℕ) (ctx : List ℕ) (c : CopyIndex)
    → p ≡ length c.prev
    → p + rounds ≤ length ctx
    → IsIndex ctx c
    → IsIndex ctx (index_from rounds p ctx c)
      × (length (index_from rounds p ctx c).prev ≡ p + rounds)
unfolding index_from
index_from-IsIndex zero p ctx c e h i = (i, omega arith)
index_from-IsIndex (suc rounds) p ctx c e h i =
    let (j, l) =
      index_from-IsIndex rounds (p + 1) ctx (index_one ctx p c)
        (omega (arith, length-index_one ctx p c)) (omega arith)
        (index_one-IsIndex ctx p c e (omega arith) i) in
    (j, omega arith)

-- Indexing a context that continues the indexed one gives an index of it, up to its last token.
pub index_ctx-IsIndex :
    (ctx : List ℕ) (c : CopyIndex)
    → 0 < length ctx
    → IsIndex ctx c
    → IsIndex ctx (index_ctx ctx c)
      × (length (index_ctx ctx c).prev ≡ max (length ctx - 1) (length c.prev))
unfolding index_ctx
index_ctx-IsIndex ctx c h i =
    let (j, l) =
      index_from-IsIndex (length ctx - 1 - length c.prev) (length c.prev) ctx c refl
        (omega (arith, i.known)) i in
    (j, omega arith)

pub default-IsIndex : (ctx : List ℕ) → length ctx < none_pos → IsIndex ctx default
unfolding default Dict.get
default-IsIndex ctx h = record {
  short = h;
  known = omega arith;
  heads = λ g p e. cc;
  links = λ q lt. absurd (omega arith);
  seen = λ q lt. absurd (omega arith);
}
