-- ===== src/Pager/Bytes.antt =====
-- The pool's used bytes against the bytes of the pages in the table.
use mimo26f_afd.Prelude.{
  ℕ, ◌+◌, ◌≤◌, ◌<◌, ◌^◌, ◌≡◌, ◌≢◌, refl, Option, none, some, arith, Option-cases, inl, inr, ltb,
  true, false,
}
use mimo26f_afd.Word.{add64}
use mimo26f_afd.Dict
use mimo26f_afd.Dict.{Dict, IsUnique}
use mimo26f_afd.Dict.Laws.{
  get-remove, get-insert, remove-IsUnique, insert-IsUnique, weight, weight-remove, weight-insert,
  weight-replace,
}
use mimo26f_afd.Pool
use mimo26f_afd.Pool.{KvPool}
use mimo26f_afd.Pool.Bounds.{IsValid}
use mimo26f_afd.Phase.{KvPage, key, Result, ok, err}
use mimo26f_afd.Phase.Keys.{PageKey, PageKey_eq}
use mimo26f_afd.Pager.{Pager, PagerError, pool_rejected, allocate, invalidated, evict}

abbrev pub bytes_of : PageKey × (KvPage × ℕ) → ℕ
bytes_of e = e.1.1

-- The bytes of the pages in the table.
abbrev pub held : Dict PageKey (KvPage × ℕ) → ℕ
held m = weight bytes_of m

-- The bytes of the page that an allocation at `k` replaces.
abbrev pub replaced : PageKey → Dict PageKey (KvPage × ℕ) → ℕ
replaced k m = elim (Dict.get k m) [ none ↦ 0 | some (page, bytes) ↦ bytes ]

-- The pool's used bytes are those of the pages in the table and `lost` bytes that no page has.
pub record IsAccounted (lost : ℕ) (p : Pager) : Type 0 where
  pub valid : IsValid p.pool
  pub unique : IsUnique p.pages
  pub exact : p.pool.used ≡ held p.pages + lost

-- An allocation on an accounted table.
pub record Allocates (lost : ℕ) (p : Pager) (page : KvPage) (bytes : ℕ)
    (out : Pager × Result PagerError (Unit {0})) : Type 0 where
  pub fits :
      p.pool.used + bytes ≤ p.pool.total
      → (out.1 ≡ ok tt)
        × (Dict.get (key page) out.0.pages ≡ some (page, bytes))
        × IsAccounted (lost + replaced (key page) p.pages) out.0
  pub full : p.pool.total < p.pool.used + bytes → (out.1 ≡ err pool_rejected) × (out.0 ≡ p)

held-insert :
    (k : PageKey) (page : KvPage) (bytes : ℕ) (m : Dict PageKey (KvPage × ℕ))
    → IsUnique m
    → held (Dict.insert k (page, bytes) m) + replaced k m ≡ bytes + held m
held-insert k page bytes m u = elim (Option-cases (Dict.get k m)) [
  | inl e ↦ rw (e, replaced) (omega (arith, weight-insert bytes_of k (page, bytes) m e))
  | inr ((q, b), e) ↦
      rw (e, replaced) (omega (arith, weight-replace bytes_of k (page, bytes) (q, b) m u e))
]

-- On an accounted table and a page below 2 ^ 62 bytes: the page goes in exactly when its bytes fit in
-- the pool, and then the bytes of a page that it replaces at the same key are lost to the pool; where
-- they do not fit, nothing changes.
pub allocate-Allocates :
    (lost : ℕ) (p : Pager) (page : KvPage) (bytes : ℕ)
    → bytes < 2 ^ 62
    → IsAccounted lost p
    → Allocates lost p page bytes (allocate p page bytes)
unfolding allocate Pool.reserve_bytes
allocate-Allocates lost p page bytes small a = record {
  fits = λ h.
      let room : ltb p.pool.total (add64 p.pool.used bytes) ≡ false = ground arith in
      let here = get-insert (key page) (key page) (page, bytes) p.pages in
      rw room (
        refl,
        ground (arith, here, PageKey_eq.beq_iff (key page) (key page)),
        record {
          valid = omega arith;
          unique = insert-IsUnique (key page) (page, bytes) p.pages a.unique;
          exact = omega (arith, held-insert (key page) page bytes p.pages a.unique);
        },
      );
  full = λ h.
      let over : ltb p.pool.total (add64 p.pool.used bytes) ≡ true = ground arith in
      rw over (refl, refl);
}

-- An eviction on an accounted table.
pub record Evicts (lost : ℕ) (p : Pager) (k : PageKey) (out : Pager × Option KvPage) : Type 0 where
  pub accounted : IsAccounted lost out.0
  pub gone : Dict.get k out.0.pages ≡ none
  pub others : (j : PageKey) → j ≢ k → Dict.get j out.0.pages ≡ Dict.get j p.pages
  pub absent : Dict.get k p.pages ≡ none → (out.0 ≡ p) × (out.1 ≡ none)
  pub present :
      (page : KvPage) (bytes : ℕ)
      → Dict.get k p.pages ≡ some (page, bytes)
      → (out.1 ≡ some (invalidated page)) × (out.0.pool.used + bytes ≡ p.pool.used)

-- On an accounted table `evict` takes out just the page at the key, returns it invalid and with its
-- digest cleared, and gives back exactly its bytes; at a key with no page it changes nothing.
pub evict-Evicts :
    (lost : ℕ) (p : Pager) (k : PageKey) → IsAccounted lost p → Evicts lost p k (evict p k)
unfolding evict Pool.release
evict-Evicts lost p k a = elim (Option-cases (Dict.get k p.pages)) [
  | inl e ↦
      rw (e, evict)
        (record {
          accounted = a;
          gone = e;
          others = λ j ne. refl;
          absent = λ h. (refl, refl);
          present = λ page bytes h. cc;
        })
  | inr ((q, b), e) ↦
      rw (e, evict)
        (let less = weight-remove bytes_of k (q, b) p.pages a.unique e in
          record {
            accounted = record {
              valid = omega arith;
              unique = remove-IsUnique k p.pages a.unique;
              exact = omega arith;
            };
            gone = ground (arith, get-remove k k p.pages, PageKey_eq.beq_iff k k);
            others = λ j ne. ground (arith, get-remove k j p.pages, PageKey_eq.beq_iff k j);
            absent = λ h. cc;
            present = λ page bytes h. ground arith;
          })
]
