-- ===== src/Copy.antt =====
-- crates/mimo26-coordinator/src/copy.rs: drafts copied from a request's own context. A read past the
-- end of a list, which would panic, gives a default here; the index invariant of Copy/Index rules it
-- out.
pub mod Index
pub mod Draft
pub mod Session
mod Tests
use mimo26f_afd.Prelude.{
  ℕ, zero, suc, ◌+◌, ◌-◌, ◌*◌, ◌%◌, ◌^◌, Bool, true, false, ◌&&◌, ◌||◌, ltb, leb, ◌==◌,
  if◌then◌else◌, Option, none, some, List, [], ◌∷◌, ◌++◌, map, length, get_or, take, drop, List_eq,
}
use mimo26f_afd.Dict
use mimo26f_afd.Dict.{Dict}

-- MATCH, EXTEND, CANDIDATES and NONE
abbrev pub match_len : ℕ
match_len = 8

abbrev pub extend : ℕ
extend = 64

abbrev pub candidates : ℕ
candidates = 64

abbrev pub none_pos : ℕ
none_pos = 2 ^ 32 - 1

-- `head`: the last position of each gram seen; `prev`: the position before with the same gram.
pub record CopyIndex : Type 0 where
  pub head : Dict (List ℕ) ℕ
  pub prev : List ℕ

-- CopyIndex::default
pub default : CopyIndex
default = record { head = []; prev = [] }

-- `as u32`
abbrev pub as_u32 : ℕ → ℕ
as_u32 t = t % 2 ^ 32

-- `gram(&ctx[p + 1 - MATCH..=p])`
pub gram_at : List ℕ → ℕ → List ℕ
gram_at ctx p = map as_u32 (take match_len (drop (p + 1 - match_len) ctx))

-- `.unwrap_or(NONE)`
pub or_none : Option ℕ → ℕ
or_none none = none_pos
or_none (some p) = p

-- One round of the indexing loop.
pub index_one : List ℕ → ℕ → CopyIndex → CopyIndex
index_one ctx p c =
    let g = gram_at ctx p in
    if ltb (p + 1) match_len then record c { prev = c.prev ++ (none_pos ∷ []) } else record {
      head = Dict.insert g (as_u32 p) c.head;
      prev = c.prev ++ (or_none (Dict.get g c.head) ∷ []);
    }

-- `for p in self.prev.len()..n - 1`, by the rounds left.
pub index_from : ℕ → ℕ → List ℕ → CopyIndex → CopyIndex
index_from zero p ctx c = c
index_from (suc rounds) p ctx c = index_from rounds (p + 1) ctx (index_one ctx p c)

pub index_ctx : List ℕ → CopyIndex → CopyIndex
index_ctx ctx c = index_from (length ctx - 1 - length c.prev) (length c.prev) ctx c

-- `while len < EXTEND && len <= q && ctx[q - len] == ctx[n - 1 - len] { len += 1; }`; each round
-- raises `len`, so the fuel `EXTEND - MATCH` is enough.
pub extend_len : ℕ → ℕ → ℕ → List ℕ → ℕ
extend_len zero len q ctx = len
extend_len (suc fuel) len q ctx =
    let more = extend_len fuel (len + 1) q ctx in
    if ltb len extend
      && (leb len q && get_or ctx (q - len) 0 == get_or ctx (length ctx - 1 - len) 0)
    then more
    else len

pub backward_len : ℕ → List ℕ → ℕ
backward_len q ctx = extend_len (extend - match_len) match_len q ctx

-- `while p != NONE && tried < CANDIDATES`, by the candidates left; the result is `best`.
pub walk : ℕ → ℕ → ℕ → ℕ → List ℕ → List ℕ → ℕ
walk zero p best best_len prev ctx = best
walk (suc left) p best best_len prev ctx =
    let len = backward_len p ctx in
    let next = get_or prev p none_pos in
    let better = walk left next p len prev ctx in
    let same = walk left next best best_len prev ctx in
    if p == none_pos
    then best
    else if ltb best_len len
    then (if len == extend then p else better)
    else same

-- `for j in 0..k`, by the rounds left.
pub emit : ℕ → ℕ → ℕ → List ℕ → List ℕ → List ℕ
emit zero j from ctx out = out
emit (suc rounds) j from ctx out =
    let n = length ctx in
    let t = if ltb (from + j) n then get_or ctx (from + j) 0 else get_or out (from + j - n) 0 in
    emit rounds (j + 1) from ctx (out ++ (t ∷ []))

-- The part of `propose` behind the indexing.
pub draft : List ℕ → ℕ → CopyIndex → List ℕ
draft ctx k c = elim (Dict.get (gram_at ctx (length ctx - 1)) c.head) [
  | none ↦ []
  | some newest ↦ emit k 0 (walk candidates newest none_pos 0 c.prev ctx + 1) ctx []
]

pub propose : CopyIndex → List ℕ → ℕ → CopyIndex × List ℕ
unfolding draft index_ctx
propose c ctx k =
    let indexed = index_ctx ctx c in
    if ltb k 2 || leb (length ctx) match_len then (c, []) else (indexed, draft ctx k indexed)
