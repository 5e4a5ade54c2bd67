-- ===== src/Host/Lookup/Chain.antt =====
-- crates/mimo26-coordinator/src/hostcache.rs: the page ids of a prefix, and the test of `lookup`.
use mimo26f_afd.Prelude.{
  ℕ, Bool, true, zero, suc, ◌+◌, ◌-◌, ◌*◌, ◌/◌, ◌^◌, ◌≤◌, ◌≡◌, refl, sym, ap, ◌∙◌, ◌&&◌, List, [],
  ◌∷◌, ◌++◌, length, take, drop, take-append-drop, length-take, arith, List_eq, list_beq_iff,
}
use mathlib.Core.Path.{ap₂}
use mimo26f_afd.Host.{Snapshot, kv_page_rows, page_chain, chain_loop}
use mimo26f_afd.Host.Lookup.{fits}

module _ {ℓ} {A : Type ℓ} where
  pub take-take : (k n : ℕ) (xs : List A) → k ≤ n → take k (take n xs) ≡ take k xs
  take-take zero n xs h = refl
  take-take (suc k) zero xs h = absurd (omega arith)
  take-take (suc k) (suc n) [] h = refl
  take-take (suc k) (suc n) (x ∷ xs) h = ap (λ l. x ∷ l) (take-take k n xs (omega arith))

  drop-take : (k n m : ℕ) (xs : List A) → n ≡ k + m → drop k (take n xs) ≡ take m (drop k xs)
  drop-take zero n m xs h = ap (λ i. take i xs) (omega arith)
  drop-take (suc k) zero m xs h = absurd (omega arith)
  drop-take (suc k) (suc n) zero [] h = refl
  drop-take (suc k) (suc n) (suc m) [] h = refl
  drop-take (suc k) (suc n) m (x ∷ xs) h = drop-take k n m xs (omega arith)

and_true : {a b : Bool} → a ≡ true → b ≡ true → (a && b) ≡ true
and_true h g = ground arith

chain_loop-take :
    (lane : ℕ → ℕ → List ℕ → ℕ) (r s prev n : ℕ) (xs : List ℕ)
    → r ≤ s
    → r * 256 ≤ n
    → chain_loop lane r prev (take n xs) ≡ take r (chain_loop lane s prev xs)
unfolding chain_loop
chain_loop-take lane zero s prev n xs h g = refl
chain_loop-take lane (suc r) zero prev n xs h g = absurd (omega arith)
chain_loop-take lane (suc r) (suc s) prev n xs h g =
    let head = take-take kv_page_rows n xs (omega arith) in
    let rest = drop-take kv_page_rows n (n - kv_page_rows) xs (omega arith) in
    let block = take kv_page_rows xs in
    let id = lane 0x6d69_6d6f prev block * 2 ^ 64 + lane 0x3236_6b76 prev block in
    rw (head, rest)
      (ap (λ l. id ∷ l)
        (chain_loop-take lane r s id (n - kv_page_rows) (drop kv_page_rows xs) (omega arith)
          (omega arith)))

page_chain-take :
    (lane : ℕ → ℕ → List ℕ → ℕ) (n : ℕ) (xs : List ℕ)
    → n ≤ length xs
    → page_chain lane (take n xs) ≡ take (n / kv_page_rows) (page_chain lane xs)
unfolding page_chain
page_chain-take lane n xs h =
    let whole : length (take n xs) ≡ n = omega (arith, length-take n xs) in
    rw whole (
      chain_loop-take lane (n / kv_page_rows) (length xs / kv_page_rows) 0 n xs (omega arith)
        (omega arith))

-- The snapshot's tokens are the first of the prompt's.
pub record IsPrefix (s : Snapshot) (prompt : List ℕ) : Type 0 where
  pub short : length s.tokens ≤ length prompt
  pub same : s.tokens ≡ take (length s.tokens) prompt

-- The pages of a snapshot are named for its tokens, and where the names of its full pages are those of
-- the prompt's first pages, the tokens are the same too.
pub record IsNamed (lane : ℕ → ℕ → List ℕ → ℕ) (prompt : List ℕ) (s : Snapshot) : Type 0 where
  pub named : s.pages ≡ page_chain lane s.tokens
  pub no_collision :
      s.pages ≡ take (length s.tokens / kv_page_rows) (page_chain lane prompt)
      → take (length s.tokens / kv_page_rows * kv_page_rows) s.tokens
        ≡ take (length s.tokens / kv_page_rows * kv_page_rows) prompt

module _ (lane : ℕ → ℕ → List ℕ → ℕ) (prompt : List ℕ) (s : Snapshot) (k : IsNamed lane prompt s)
    (short : length s.tokens ≤ length prompt) where
  pub prefix_of_fits : fits lane prompt s ≡ true → IsPrefix s prompt
  unfolding fits
  prefix_of_fits h =
      let n = length s.tokens in
      let full = n / kv_page_rows * kv_page_rows in
      let pages =
        (list_beq_iff s.pages (take (n / kv_page_rows) (page_chain lane prompt))).0
          (ground arith) in
      let rest = (list_beq_iff (drop full s.tokens) (drop full (take n prompt))).0 (ground arith) in
      let start = k.no_collision pages in
      record {
        short = short;
        same =
            sym (take-append-drop full s.tokens)
            ∙ (ap₂ ◌++◌ (start ∙ sym (take-take full n prompt (omega arith))) rest
                ∙ take-append-drop full (take n prompt));
      }

  pub fits_of_prefix : IsPrefix s prompt → fits lane prompt s ≡ true
  unfolding fits
  fits_of_prefix p =
      let n = length s.tokens in
      let full = n / kv_page_rows * kv_page_rows in
      let pages : s.pages ≡ take (n / kv_page_rows) (page_chain lane prompt) =
        k.named ∙ (ap (page_chain lane) p.same ∙ page_chain-take lane n prompt short) in
      let one = (list_beq_iff s.pages (take (n / kv_page_rows) (page_chain lane prompt))).1 pages in
      let two =
        (list_beq_iff (drop full s.tokens) (drop full (take n prompt))).1 (ap (drop full) p.same) in
      and_true one two
