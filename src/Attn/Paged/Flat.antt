-- ===== src/Attn/Paged/Flat.antt =====
-- crates/mimo26-attn/src/cache.rs: `GaPaged::append` in the f32 mode, as an append to one list of rows.
use mimo26f_afd.Prelude.{ℕ, ◌+◌, ◌*◌, ◌≤◌, ◌<◌, ◌≡◌, List, [], ◌∷◌, ◌++◌, length}
use mimo26f_afd.Attn.{f32, Floats}
use mimo26f_afd.Attn.Rows.{RowStore}
use mimo26f_afd.Attn.Rows.Stored.{Holds}
use mimo26f_afd.Attn.Paged.{GaPaged}
use mimo26f_afd.Attn.Paged.Pages.{flat, upto}

module _ (o : Floats) where
  open o use {F, one, mul}

  -- A page of `rows` rows in the shape of the template.
  pub record Page (t s : RowStore F) (rows : ℕ) : Type 0 where
    pub holds : Holds o s rows
    pub same_kv : s.n_kv ≡ t.n_kv
    pub same_qk : s.d_qk ≡ t.d_qk
    pub same_v : s.d_v ≡ t.d_v
    pub same_scale : s.value_scale ≡ t.value_scale

  -- The pages before the last are full.
  unfoldable pub Full : RowStore F → ℕ → List (RowStore F) → Type 0
  Full t size [] = Unit
  Full t size (s ∷ ss) = Page t s size × Full t size ss

  pub Full-end :
      (t : RowStore F) (size : ℕ) (ss : List (RowStore F)) (s : RowStore F)
      → Full t size ss
      → Page t s size
      → Full t size (ss ++ (s ∷ []))
  unfolding Full
  Full-end t size [] s h p = (p, tt)
  Full-end t size (x ∷ ss) s (q, h) p = (q, Full-end t size ss s h p)

  -- The last page, where it is not full.
  pub data Last (t : RowStore F) (size : ℕ) : List (RowStore F) → ℕ → Type 0 where
    closed : Last t size [] 0
    opened :
        (s : RowStore F) (rows : ℕ)
        → 1 ≤ rows
        → rows < size
        → Page t s rows
        → Last t size (s ∷ []) rows

  pub record IsPaged (g : GaPaged F) : Type 0 where
    pub plain : g.store_template.mode ≡ f32
    pub some_tokens : 1 ≤ g.page_tokens
    pub full : List (RowStore F)
    pub last : List (RowStore F)
    pub off : ℕ
    pub slots : g.slots ≡ full ++ last
    pub pages : Full g.store_template g.page_tokens full
    pub rest : Last g.store_template g.page_tokens last off
    pub table : g.page_table ≡ upto (length (full ++ last))
    pub rows : g.n_rows ≡ length full * g.page_tokens + off

  -- The rows of all pages, one after another.
  unfoldable pub keys : GaPaged F → List F
  unfolding flat
  keys g = flat (λ s. s.f32_k) g.slots

  unfoldable pub values : GaPaged F → List F
  unfolding flat
  values g = flat (λ s. s.f32_v) g.slots
