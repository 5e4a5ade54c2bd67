-- ===== src/Sampler/Seen.antt =====
-- crates/mimo26-coordinator/src/sampler.rs: the bitmap against the set of the tokens marked.
use mimo26f_afd.Prelude.{
  ℕ, Bool, true, false, zero, suc, ◌+◌, ◌/◌, ◌%◌, ◌^◌, ◌<◌, ◌≡◌, ◌==◌, ==_iff, ltb, refl, ap, ◌∙◌,
  bit_or, arith, if◌then◌else◌, Option, none, some, List, [], ◌∷◌, length, set, get_or, replicate,
  length-set, length-replicate, All, Bool-cases, inl, inr,
}
use mimo26f_afd.Sampler.{SeenSet, new, mark, contains}
use mimo26f_afd.Sampler.Bit.{bit_at, bit_at-bit_or, bit_at_zero, pow-lt}

get_or-set :
    (xs : List ℕ) (i k y : ℕ)
    → i < length xs
    → get_or (set xs i y) k 0 ≡ (if i == k then y else get_or xs k 0)
get_or-set [] i k y h = absurd (omega arith)
get_or-set (x ∷ xs) zero zero y h = refl
get_or-set (x ∷ xs) zero (suc k) y h = ground arith
get_or-set (x ∷ xs) (suc i) zero y h = ground arith
get_or-set (x ∷ xs) (suc i) (suc k) y h = get_or-set xs i k y (omega arith) ∙ same
  where
    same : (if i == k then y else get_or xs k 0) ≡ (if suc i == suc k then y else get_or xs k 0)
    same = ground arith

get_or-replicate : (n k : ℕ) → get_or (replicate n 0) k 0 ≡ zero
get_or-replicate zero k = refl
get_or-replicate (suc n) zero = refl
get_or-replicate (suc n) (suc k) = get_or-replicate n k

-- A set of tokens, and one more token in it.
abbrev pub TokenSet : Type 0
TokenSet = ℕ → Bool

abbrev pub empty : TokenSet
empty j = false

abbrev pub insert : ℕ → TokenSet → TokenSet
insert id p j = if id == j then true else p j

-- The bitmap holds the tokens of `p` below the size of the vocabulary.
pub record Refines (s : SeenSet) (p : TokenSet) : Type 0 where
  pub words : length s.bits ≡ (s.vocab + 63) / 64
  pub agrees : (j : ℕ) → j < s.vocab → bit_at (get_or s.bits (j / 64) 0) (j % 64) ≡ p j

shift : (j : ℕ) → 2 ^ (j % 64) % 2 ^ 64 ≡ 2 ^ (j % 64)
shift j = omega (arith, pow-lt (j % 64) (omega arith))

new-Refines : (vocab : ℕ) → Refines (new vocab) empty
unfolding new
new-Refines vocab = record {
  words = length-replicate ((vocab + 63) / 64) 0;
  agrees = λ j h.
      ap (λ x. bit_at x (j % 64)) (get_or-replicate ((vocab + 63) / 64) (j / 64))
      ∙ bit_at_zero (j % 64);
}

marked : SeenSet → ℕ → SeenSet
marked s id = record s {
  bits = set s.bits (id / 64) (bit_or (get_or s.bits (id / 64) 0) (2 ^ (id % 64)));
}

mark-marked : (s : SeenSet) (id : ℕ) → id < s.vocab → mark s id ≡ some (marked s id)
unfolding mark marked
mark-marked s id h = let inside : ltb id s.vocab ≡ true = ground arith in rw (inside, shift id) refl

same_word :
    (id j : ℕ) (p : TokenSet) (x : Bool)
    → id / 64 ≡ j / 64
    → x ≡ p j
    → (if id % 64 == j % 64 then true else x) ≡ insert id p j
same_word id j p x e h = ground arith

other_word :
    (id j : ℕ) (p : TokenSet) (x : Bool) → (id / 64 == j / 64) ≡ false → x ≡ p j → x ≡ insert id p j
other_word id j p x e h = ground arith

marked-Refines :
    (s : SeenSet) (p : TokenSet) (id : ℕ)
    → id < s.vocab
    → Refines s p
    → Refines (marked s id) (insert id p)
unfolding marked
marked-Refines s p id h r =
    let old = get_or s.bits (id / 64) 0 in
    let word = bit_or old (2 ^ (id % 64)) in
    record {
      words = length-set s.bits (id / 64) word ∙ r.words;
      agrees = λ j below.
          (let here = get_or-set s.bits (id / 64) (j / 64) word (omega (arith, r.words)) in
            elim (Bool-cases (id / 64 == j / 64)) [
              | inl same ↦
                  let e : id / 64 ≡ j / 64 = (==_iff (id / 64) (j / 64)).0 same in
                  let now = ap (λ x. bit_at x (j % 64)) (rw same at here) in
                  let before = ap (λ x. bit_at (get_or s.bits x 0) (j % 64)) e ∙ r.agrees j below in
                  now
                  ∙ (bit_at-bit_or (id % 64) (j % 64) old
                      ∙ same_word id j p (bit_at old (j % 64)) e before)
              | inr other ↦
                  let now = ap (λ x. bit_at x (j % 64)) (rw other at here) in
                  now ∙ other_word id j p _ other (r.agrees j below)
            ]);
    }

-- The marks of a request, from the first on.
abbrev pub mark_all : List ℕ → Option SeenSet → Option SeenSet
mark_all [] s = s
mark_all (id ∷ ids) none = none
mark_all (id ∷ ids) (some s) = mark_all ids (mark s id)

abbrev pub insert_all : List ℕ → TokenSet → TokenSet
insert_all [] p = p
insert_all (id ∷ ids) p = insert_all ids (insert id p)

-- What reads of a bitmap say: the set's answer below the size of the vocabulary, a panic above.
abbrev pub Reads : Option SeenSet → ℕ → TokenSet → Type 0
Reads none vocab p = ⊥
Reads (some s) vocab p = (j : ℕ) → contains s j ≡ (if ltb j vocab then some (p j) else none)

contains-Refines : (s : SeenSet) (p : TokenSet) → Refines s p → Reads (some s) s.vocab p
unfolding contains
contains-Refines s p r j = elim (Bool-cases (ltb j s.vocab)) [
  | inl inside ↦
      let below : j < s.vocab = ground arith in rw (inside, shift j) (ap some (r.agrees j below))
  | inr outside ↦ rw outside refl
]

marks-Refines :
    (ids : List ℕ) (s : SeenSet) (p : TokenSet)
    → All (λ id. id < s.vocab) ids
    → Refines s p
    → Reads (mark_all ids (some s)) s.vocab (insert_all ids p)
unfolding marked
marks-Refines [] s p h r = contains-Refines s p r
marks-Refines (id ∷ ids) s p (here, h) r =
    rw (mark-marked s id here)
      (marks-Refines ids (marked s id) (insert id p) h (marked-Refines s p id here r))

-- The bitmap against a set of tokens: after marking any tokens below the size of the vocabulary, starting
-- from nothing, reading a token answers whether it was marked, and panics exactly where it is not below
-- that size.
pub mark_all-new :
    (vocab : ℕ) (ids : List ℕ)
    → All (λ id. id < vocab) ids
    → Reads (mark_all ids (some (new vocab))) vocab (insert_all ids empty)
unfolding new
mark_all-new vocab ids h = marks-Refines ids (new vocab) empty h (new-Refines vocab)
