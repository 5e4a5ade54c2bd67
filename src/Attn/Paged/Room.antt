-- ===== src/Attn/Paged/Room.antt =====
-- crates/mimo26-attn/src/cache.rs: the page that takes the next rows of `GaPaged::append`.
use mimo26f_afd.Prelude.{
  ℕ, zero, suc, true, false, ◌+◌, ◌*◌, ◌≤◌, ◌<◌, ◌≡◌, refl, ap, ◌∙◌, inl, inr, Bool-cases, arith,
  ltb, ◌==◌, ==_iff, List, [], ◌∷◌, ◌++◌, append-nil, append_assoc, length, length-append, set, ok,
}
use mathlib.Core.Path.{sym, subst}
use mimo26f_afd.Attn.{f32, Floats}
use mimo26f_afd.Attn.Rows.{RowStore, new_store, slice}
use mimo26f_afd.Attn.Rows.Stored.{joined, append_rows-joined, Holds-joined}
use mimo26f_afd.Attn.Paged.{GaPaged, at_slot, grow_table, filled_slot}
use mimo26f_afd.Attn.Paged.Pages.{flat, flat-end, upto, length-upto, at_slot-end, set-end}
use mimo26f_afd.Attn.Paged.Flat.{Page, Full, Full-end, Last, closed, opened, IsPaged, keys, values}

plane : (len rows a b a' b' : ℕ) → len ≡ rows * (a * b) → a' ≡ a → b' ≡ b → len ≡ rows * a' * b'
plane len rows a b a' b' h e f = rw e (rw f (h ∙ omega arith))

module _ (o : Floats) where
  open o use {F, one, mul}

  -- The cache with room for a row: `page` is the page that takes it.
  pub record Room (g grown : GaPaged F) (full : List (RowStore F)) (off : ℕ) : Type 0 where
    pub page : RowStore F
    pub slots : grown.slots ≡ full ++ (page ∷ [])
    pub table : grown.page_table ≡ upto (suc (length full))
    pub pages : Full o grown.store_template grown.page_tokens full
    pub holds : Page o grown.store_template page off
    pub space : off < grown.page_tokens
    pub template : grown.store_template ≡ g.store_template
    pub size : grown.page_tokens ≡ g.page_tokens
    pub same_keys : keys o grown ≡ keys o g
    pub same_values : values o grown ≡ values o g

  pub grow_table-Room :
      (g : GaPaged F) (full last : List (RowStore F)) (off : ℕ)
      → g.store_template.mode ≡ f32
      → 1 ≤ g.page_tokens
      → Full o g.store_template g.page_tokens full
      → g.slots ≡ full ++ last
      → g.page_table ≡ upto (length (full ++ last))
      → Last o g.store_template g.page_tokens last off
      → Room g (grow_table o g (length full)) full off
  unfolding grow_table keys values new_store upto flat
  grow_table-Room g full [] zero plain size pages slots table closed =
      let all_full : g.slots ≡ full = slots ∙ append-nil full in
      let as_many : length (full ++ []) ≡ length full = ap length (append-nil full) in
      let entries : length g.page_table ≡ length full =
        ap length table ∙ (length-upto (length (full ++ [])) ∙ as_many) in
      let due : (length full == length g.page_table) ≡ true = (==_iff _ _).1 (sym entries) in
      let t = g.store_template in
      let fresh = new_store o t.mode t.n_kv t.d_qk t.d_v t.value_scale in
      rw due (record {
        page = fresh;
        slots = ap (λ l. l ++ (fresh ∷ [])) all_full;
        table =
            ap (λ l. l ++ (length g.slots ∷ [])) (table ∙ ap upto as_many)
            ∙ ap (λ n. upto (length full) ++ (n ∷ [])) (ap length all_full);
        pages = pages;
        holds = record {
          holds = record {
            plain = plain;
            counted = refl;
            keys = omega arith;
            values = omega arith;
          };
          same_kv = refl;
          same_qk = refl;
          same_v = refl;
          same_scale = refl;
        };
        space = size;
        template = refl;
        size = refl;
        same_keys =
            flat-end (λ s. s.f32_k) g.slots fresh ∙ append-nil (flat (λ s. s.f32_k) g.slots);
        same_values =
            flat-end (λ s. s.f32_v) g.slots fresh ∙ append-nil (flat (λ s. s.f32_v) g.slots);
      })
  grow_table-Room g full _ off plain size pages slots table (opened s rows more less page) =
      let as_many : length (full ++ (s ∷ [])) ≡ suc (length full) =
        omega (arith, length-append full (s ∷ [])) in
      let entries : length g.page_table ≡ suc (length full) =
        ap length table ∙ (length-upto (length (full ++ (s ∷ []))) ∙ as_many) in
      let here : (length full == length g.page_table) ≡ false = ground arith in
      rw here (record {
        page = s;
        slots = slots;
        table = table ∙ ap upto as_many;
        pages = pages;
        holds = page;
        space = less;
        template = refl;
        size = refl;
        same_keys = refl;
        same_values = refl;
      })

  -- The cache with a filled slot.
  unfoldable pub after : GaPaged F → ℕ → RowStore F → ℕ → GaPaged F
  after grown slot store n_rows = record grown {
    slots = set grown.slots slot store;
    n_rows = n_rows;
  }

  pub Page-joined :
      (t s : RowStore F) (off rows naive : ℕ) (k v : List F)
      → Page o t s off
      → length k ≡ rows * (t.n_kv * t.d_qk)
      → length v ≡ rows * (t.n_kv * t.d_v)
      → Page o t (joined o s k v rows naive) (off + rows)
  unfolding joined
  Page-joined t s off rows naive k v page same_k same_v = record {
    holds =
        Holds-joined o s off rows naive k v page.holds
          (plane _ rows _ _ _ _ same_k page.same_kv page.same_qk)
          (plane _ rows _ _ _ _ same_v page.same_kv page.same_v);
    same_kv = page.same_kv;
    same_qk = page.same_qk;
    same_v = page.same_v;
    same_scale = page.same_scale;
  }

  pub filled_slot-Room :
      (g grown : GaPaged F) (full : List (RowStore F)) (off done rows naive : ℕ)
      (k_raw v_raw k v : List F)
      → (room : Room g grown full off) → 1 ≤ rows
      → let t = grown.store_template in
        slice (done * (t.n_kv * t.d_qk)) ((done + rows) * (t.n_kv * t.d_qk)) k_raw ≡ ok k
        → slice (done * (t.n_kv * t.d_v)) ((done + rows) * (t.n_kv * t.d_v)) v_raw ≡ ok v
        → length k ≡ rows * (t.n_kv * t.d_qk)
        → length v ≡ rows * (t.n_kv * t.d_v)
        → filled_slot o grown (length full) k_raw v_raw done rows naive
          ≡ ok (length full, joined o room.page k v rows naive)
  unfolding filled_slot upto
  filled_slot-Room g grown full off done rows naive k_raw v_raw k v room more cut_k cut_v same_k
        same_v =
      let slot : at_slot grown.page_table (length full) ≡ ok (length full) =
        ap (λ l. at_slot l (length full)) room.table
        ∙ at_slot-end (upto (length full)) (length full) (length full)
            (sym (length-upto (length full))) in
      let store : at_slot grown.slots (length full) ≡ ok room.page =
        ap (λ l. at_slot l (length full)) room.slots
        ∙ at_slot-end full room.page (length full) refl in
      let stored =
        append_rows-joined o room.page off rows naive k v room.holds.holds more
          (plane _ rows _ _ _ _ same_k room.holds.same_kv room.holds.same_qk)
          (plane _ rows _ _ _ _ same_v room.holds.same_kv room.holds.same_v) in
      rw slot (rw cut_k (rw cut_v (rw store (rw stored refl))))

  pub after-IsPaged :
      (g grown : GaPaged F) (full : List (RowStore F)) (off rows n_rows : ℕ) (store : RowStore F)
      → (room : Room g grown full off) → 1 ≤ rows
      → off + rows ≤ grown.page_tokens
      → grown.store_template.mode ≡ f32
      → n_rows ≡ length full * grown.page_tokens + (off + rows)
      → Page o grown.store_template store (off + rows)
      → IsPaged o (after grown (length full) store n_rows)
  unfolding after
  after-IsPaged g grown full off rows n_rows store room more fits plain counted page =
      let slots : set grown.slots (length full) store ≡ full ++ (store ∷ []) =
        ap (λ l. set l (length full) store) room.slots
        ∙ set-end full room.page store (length full) refl in
      let as_many : length (full ++ (store ∷ [])) ≡ suc (length full) =
        omega (arith, length-append full (store ∷ [])) in
      elim (Bool-cases (ltb (off + rows) grown.page_tokens)) [
        | inl room_left ↦ record {
          plain = plain;
          some_tokens = omega arith;
          full = full;
          last = store ∷ [];
          off = off + rows;
          slots = slots;
          pages = room.pages;
          rest = opened store (off + rows) (omega arith) (ground arith) page;
          table = room.table ∙ ap upto (sym as_many);
          rows = counted;
        }
        | inr filled_up ↦
            let whole : off + rows ≡ grown.page_tokens = ground arith in
            let with_none = append-nil (full ++ (store ∷ [])) in
            record {
              plain = plain;
              some_tokens = omega arith;
              full = full ++ (store ∷ []);
              last = [];
              off = 0;
              slots = slots ∙ sym with_none;
              pages =
                  Full-end o grown.store_template grown.page_tokens full store room.pages
                    (subst (Page o grown.store_template store) whole page);
              rest = closed;
              table = room.table ∙ ap upto (sym as_many ∙ sym (ap length with_none));
              rows =
                  (let m : length (full ++ (store ∷ [])) * grown.page_tokens
                        ≡ suc (length full) * grown.page_tokens =
                      ap (λ n. n * grown.page_tokens) as_many in
                    omega arith);
            }
      ]

  pub after-flat :
      (f : RowStore F → List F) (slots full : List (RowStore F)) (page store : RowStore F)
      (more : List F)
      → slots ≡ full ++ (page ∷ [])
      → f store ≡ f page ++ more
      → flat f (set slots (length full) store) ≡ flat f slots ++ more
  after-flat f slots full page store more e grows =
      ap (λ l. flat f (set l (length full) store)) e
      ∙ (ap (flat f) (set-end full page store (length full) refl)
          ∙ (flat-end f full store
              ∙ (ap (λ l. flat f full ++ l) grows
                  ∙ (sym (append_assoc (flat f full) (f page) more)
                      ∙ ap (λ l. l ++ more) (sym (flat-end f full page) ∙ ap (flat f) (sym e))))))
