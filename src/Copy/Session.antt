-- ===== src/Copy/Session.antt =====
-- A request's calls of `propose`, the context growing between them.
use mimo26f_afd.Prelude.{
  ℕ, zero, suc, ◌+◌, ◌-◌, ◌≤◌, ◌<◌, ◌≡◌, inl, inr, refl, sym, ap, ◌∙◌, Bool-cases, List, [], ◌∷◌,
  ◌++◌, length, arith, ltb, leb, length-append, ◌||◌,
}
use mimo26f_afd.Copy.{CopyIndex, default, match_len, index_one, index_from, index_ctx, propose}
use mimo26f_afd.Copy.Index.{gram_at-append, length-index_one}

-- The drafts of a request whose context grows by `more` before each call.
pub session : List ℕ → CopyIndex → List (List ℕ × ℕ) → List (List ℕ)
session ctx c [] = []
session ctx c ((more, k) ∷ calls) =
    let (d, out) = propose c (ctx ++ more) k in out ∷ session (ctx ++ more) d calls

-- The same calls, each with an index of its own.
pub fresh : List ℕ → List (List ℕ × ℕ) → List (List ℕ)
fresh ctx [] = []
fresh ctx ((more, k) ∷ calls) = (propose default (ctx ++ more) k).1 ∷ fresh (ctx ++ more) calls

index_one-append :
    (ctx more : List ℕ) (p : ℕ) (c : CopyIndex)
    → p < length ctx
    → index_one (ctx ++ more) p c ≡ index_one ctx p c
unfolding index_one
index_one-append ctx more p c h = elim (Bool-cases (ltb (p + 1) match_len)) [
  | inl early ↦ rw early refl
  | inr late ↦ rw (late, gram_at-append ctx more p h (ground arith)) refl
]

index_from-append :
    (rounds p : ℕ) (ctx more : List ℕ) (c : CopyIndex)
    → p + rounds ≤ length ctx
    → index_from rounds p (ctx ++ more) c ≡ index_from rounds p ctx c
unfolding index_from
index_from-append zero p ctx more c h = refl
index_from-append (suc rounds) p ctx more c h =
    rw (index_one-append ctx more p c (omega arith))
      (index_from-append rounds (p + 1) ctx more (index_one ctx p c) (omega arith))

index_from_cong :
    {a b p q : ℕ} (ctx : List ℕ) (c : CopyIndex)
    → a ≡ b
    → p ≡ q
    → index_from a p ctx c ≡ index_from b q ctx c
index_from_cong ctx c e f = cc

index_from-add :
    (a b p : ℕ) (ctx : List ℕ) (c : CopyIndex)
    → index_from (a + b) p ctx c ≡ index_from b (p + a) ctx (index_from a p ctx c)
unfolding index_from
index_from-add zero b p ctx c =
    index_from_cong {a = 0 + b} {b = b} {p = p} {q = p + 0} ctx c (omega arith) (omega arith)
index_from-add (suc a) b p ctx c =
    index_from_cong {a = suc a + b} {b = suc (a + b)} {p = p} {q = p} ctx c (omega arith) refl
    ∙ (index_from-add a b (p + 1) ctx (index_one ctx p c)
        ∙ index_from_cong {a = b} {b = b} {p = p + 1 + a} {q = p + suc a} ctx
            (index_from a (p + 1) ctx (index_one ctx p c)) refl (omega arith))

length-index_from :
    (rounds p : ℕ) (ctx : List ℕ) (c : CopyIndex)
    → length (index_from rounds p ctx c).prev ≡ length c.prev + rounds
unfolding index_from
length-index_from zero p ctx c = omega arith
length-index_from (suc rounds) p ctx c =
    length-index_from rounds (p + 1) ctx (index_one ctx p c)
    ∙ omega (arith, length-index_one ctx p c)

-- The index is the one that a first call would build as far as it goes.
abbrev IsBuilt : List ℕ → CopyIndex → Type 0
IsBuilt ctx c = (c ≡ index_from (length c.prev) 0 ctx default) × (length c.prev ≤ length ctx - 1)

index_ctx-default :
    (ctx : List ℕ) → index_ctx ctx default ≡ index_from (length ctx - 1) 0 ctx default
unfolding index_ctx default
index_ctx-default ctx = index_from_cong ctx default (omega arith) refl

index_ctx-IsBuilt :
    (ctx : List ℕ) (c : CopyIndex) → IsBuilt ctx c → index_ctx ctx c ≡ index_ctx ctx default
unfolding index_ctx
index_ctx-IsBuilt ctx c (e, h) =
    let a = length c.prev in
    let b = length ctx - 1 - a in
    ap (index_from b a ctx) e
    ∙ (index_from_cong ctx _ refl (omega arith)
        ∙ (sym (index_from-add a b 0 ctx default)
            ∙ (index_from_cong ctx default (omega arith) refl ∙ sym (index_ctx-default ctx))))

IsBuilt-append : (ctx more : List ℕ) (c : CopyIndex) → IsBuilt ctx c → IsBuilt (ctx ++ more) c
IsBuilt-append ctx more c (e, h) = (
  e ∙ sym (index_from-append (length c.prev) 0 ctx more default (omega arith)),
  omega (arith, length-append ctx more),
)

index_ctx-default-IsBuilt : (ctx : List ℕ) → IsBuilt ctx (index_ctx ctx default)
unfolding default
index_ctx-default-IsBuilt ctx =
    let l = length-index_from (length ctx - 1) 0 ctx default in
    rw (index_ctx-default ctx)
      (index_from_cong ctx default (omega (arith, l)) refl, omega (arith, l))

propose-IsBuilt :
    (ctx : List ℕ) (k : ℕ) (c : CopyIndex)
    → IsBuilt ctx c
    → ((propose c ctx k).1 ≡ (propose default ctx k).1) × IsBuilt ctx (propose c ctx k).0
unfolding propose
propose-IsBuilt ctx k c b = elim (Bool-cases (ltb k 2 || leb (length ctx) match_len)) [
  | inl skip ↦ rw skip (refl, b)
  | inr go ↦ rw (go, index_ctx-IsBuilt ctx c b) (refl, index_ctx-default-IsBuilt ctx)
]

session_built :
    (ctx : List ℕ) (c : CopyIndex) (calls : List (List ℕ × ℕ))
    → IsBuilt ctx c
    → session ctx c calls ≡ fresh ctx calls
unfolding session fresh
session_built ctx c [] b = refl
session_built ctx c ((more, k) ∷ calls) b =
    let (same, next) = propose-IsBuilt (ctx ++ more) k c (IsBuilt-append ctx more c b) in
    rw (same, session_built (ctx ++ more) (propose c (ctx ++ more) k).0 calls next) refl

-- Over any sequence of calls between which the context only grows, one index that is extended from
-- call to call gives the drafts that an index built anew for each call would give.
pub session-fresh : (calls : List (List ℕ × ℕ)) → session [] default calls ≡ fresh [] calls
unfolding index_from default
session-fresh calls = session_built [] default calls (refl, omega arith)
