-- ===== src/Wire/Sum/Once.antt =====
-- crates/mimo26-wire/src/l4.rs: `CoordinatorSum` counts each slot once.
use mimo26f_afd.Prelude.{
  ℕ, true, false, ◌+◌, ◌^◌, ◌≡◌, refl, ap, ◌∙◌, inl, inr, Bool-cases, arith, ◌==◌, ◌||◌, leb, List,
  [], ◌∷◌, ◌++◌, length, length-append, get_or, Result, ok, err,
}
use mathlib.Core.Path.{sym, subst}
use mimo26f_afd.Wire.Naive.{has, dup_double_count, rank_sum_by_arrival}
use mimo26f_afd.Wire.Error.{SlotKey, WireError}
use mimo26f_afd.Wire.Layout.{sparks}
use mimo26f_afd.Wire.Return.{ReturnRow, ReturnFrame}
use mimo26f_afd.Wire.Sum.{
  CoordinatorSum, same_slot, has_slot, key_of, add_row, take_row, accept_row,
}

same_slot_comm : (a b : SlotKey) → same_slot a b ≡ same_slot b a
same_slot_comm a b = ground arith

same_slot_refl : (a : SlotKey) → same_slot a a ≡ true
same_slot_refl a = ground arith

has_slot-end :
    (xs : List SlotKey) (y key : SlotKey)
    → has_slot (xs ++ (y ∷ [])) key ≡ (has_slot xs key || same_slot y key)
unfolding has_slot
has_slot-end [] y key = ground arith
has_slot-end (x ∷ xs) y key = ground (arith, has_slot-end xs y key)

pub has_slot-new : (xs : List SlotKey) (y : SlotKey) → has_slot (xs ++ (y ∷ [])) y ≡ true
has_slot-new xs y = has_slot-end xs y y ∙ (rw (same_slot_refl y) (ground arith))

-- No slot twice.
unfoldable pub Once : List SlotKey → Type 0
Once [] = Unit
Once (x ∷ xs) = (has_slot xs x ≡ false) × Once xs

Once-end :
    (xs : List SlotKey) (y : SlotKey) → Once xs → has_slot xs y ≡ false → Once (xs ++ (y ∷ []))
unfolding Once has_slot
Once-end [] y once new = (refl, tt)
Once-end (x ∷ xs) y (first, once) new =
    let apart : same_slot x y ≡ false = ground arith in
    let other : same_slot y x ≡ false = sym (same_slot_comm x y) ∙ apart in
    let rest : has_slot xs y ≡ false = ground arith in
    (has_slot-end xs y x ∙ rw first (rw other refl), Once-end xs y once rest)

-- What `add_row` leaves alone.
record Kept (s s' : CoordinatorSum) : Type 0 where
  naive : s'.naive ≡ s.naive
  rows : s'.rows ≡ s.rows
  hidden : s'.hidden ≡ s.hidden
  seen : s'.seen ≡ s.seen
  distinct : s'.distinct ≡ s.distinct

-- What a fresh row does to the bookkeeping.
pub record Taken (s : CoordinatorSum) (key : SlotKey) (s' : CoordinatorSum) : Type 0 where
  pub naive : s'.naive ≡ s.naive
  pub rows : s'.rows ≡ s.rows
  pub hidden : s'.hidden ≡ s.hidden
  pub seen : s'.seen ≡ s.seen ++ (key ∷ [])
  pub distinct : s'.distinct ≡ s.distinct + 1

-- Each slot counted once.
pub record IsOnce (s : CoordinatorSum) : Type 0 where
  pub slots : Once s.seen
  pub counted : s.distinct ≡ length s.seen

-- The sizes stay, no slot is forgotten, and no slot is counted twice.
pub record Grows (s s' : CoordinatorSum) : Type 0 where
  pub naive : s'.naive ≡ s.naive
  pub rows : s'.rows ≡ s.rows
  pub hidden : s'.hidden ≡ s.hidden
  pub seen : (key : SlotKey) → has_slot s.seen key ≡ true → has_slot s'.seen key ≡ true
  pub once : IsOnce s → IsOnce s'

pub Grows-refl : (s : CoordinatorSum) → Grows s s
Grows-refl s = record { naive = refl; rows = refl; hidden = refl; seen = λ key h. h; once = λ h. h }

pub Grows-trans : (a b c : CoordinatorSum) → Grows a b → Grows b c → Grows a c
Grows-trans a b c g h = record {
  naive = h.naive ∙ g.naive;
  rows = h.rows ∙ g.rows;
  hidden = h.hidden ∙ g.hidden;
  seen = λ key p. h.seen key (g.seen key p);
  once = λ p. h.once (g.once p);
}

pub Taken-Grows :
    (s s' : CoordinatorSum) (key : SlotKey)
    → has_slot s.seen key ≡ false
    → Taken s key s'
    → Grows s s'
Taken-Grows s s' key new t = record {
  naive = t.naive;
  rows = t.rows;
  hidden = t.hidden;
  seen = λ k p. ap (λ l. has_slot l k) t.seen ∙ (has_slot-end s.seen key k ∙ (rw p refl));
  once = λ h. record {
    slots = subst Once (sym t.seen) (Once-end s.seen key h.slots new);
    counted =
        t.distinct
        ∙ (ap (λ n. n + 1) h.counted ∙ sym (ap length t.seen ∙ length-append s.seen (key ∷ [])));
  };
}

module _ (add : ℕ → ℕ → ℕ) where
  add_row-Kept :
      (s : CoordinatorSum) (rank slot_row : ℕ) (codes : List ℕ)
      → Kept s (add_row add s rank slot_row codes)
  unfolding add_row
  add_row-Kept s rank slot_row codes = elim (Bool-cases (has s.naive rank_sum_by_arrival)) [
    | inl direct ↦
        rw direct
          (record { naive = refl; rows = refl; hidden = refl; seen = refl; distinct = refl })
    | inr buffered ↦ elim (Bool-cases (get_or s.slot_rank_count slot_row 0 == sparks)) [
      | inl full ↦ rw buffered (
          rw full
            (record { naive = refl; rows = refl; hidden = refl; seen = refl; distinct = refl }))
      | inr more ↦ rw buffered (
          rw more
            (record { naive = refl; rows = refl; hidden = refl; seen = refl; distinct = refl }))
    ]
  ]

  Kept-Taken :
      (s counted s' : CoordinatorSum) (key : SlotKey)
      → Kept counted s'
      → Taken s key counted
      → Taken s key s'
  Kept-Taken s counted s' key k t = record {
    naive = k.naive ∙ t.naive;
    rows = k.rows ∙ t.rows;
    hidden = k.hidden ∙ t.hidden;
    seen = k.seen ∙ t.seen;
    distinct = k.distinct ∙ t.distinct;
  }

  take_row-Taken :
      (s : CoordinatorSum) (key : SlotKey) (rank token : ℕ) (codes : List ℕ)
      → Taken s key (take_row add s key false rank token codes)
  unfolding take_row
  take_row-Taken s key rank token codes =
      Kept-Taken s _ _ key (add_row-Kept _ rank _ codes)
        (record { naive = refl; rows = refl; hidden = refl; seen = refl; distinct = refl })

  -- A row is refused, and nothing changes, or it fills a new slot.
  pub data Step (s : CoordinatorSum) (f : ReturnFrame) (r : ℕ) (row : ReturnRow)
      : CoordinatorSum × Result WireError (Unit {0}) → Type 0 where
    refused : (e : WireError) → Step s f r row (s, err e)
    taken :
        (s' : CoordinatorSum)
        → Taken s (key_of f (f.token_position + r)) s'
        → has_slot s.seen (key_of f (f.token_position + r)) ≡ false
        → leb (2 ^ 64) (f.token_position + r) ≡ false
        → leb s.rows (f.token_position + r) ≡ false
        → (length row.codes == s.hidden) ≡ true
        → Step s f r row (s', ok tt)

  pub accept_row-Step :
      (s : CoordinatorSum) (f : ReturnFrame) (r : ℕ) (row : ReturnRow)
      → has s.naive dup_double_count ≡ false
      → Step s f r row (accept_row add s f r row)
  unfolding accept_row
  accept_row-Step s f r row once =
      let token = f.token_position + r in
      let key = key_of f token in
      elim (Bool-cases (leb (2 ^ 64) token)) [
        | inl wide ↦ rw wide (refused _)
        | inr small ↦ elim (Bool-cases (leb s.rows token)) [
          | inl outside ↦ rw small (rw outside (refused _))
          | inr inside ↦ elim (Bool-cases (length row.codes == s.hidden)) [
            | inr other ↦ rw small (rw inside (rw other (refused _)))
            | inl width ↦ elim (Bool-cases (has_slot s.seen key)) [
              | inl filled ↦ rw small (rw inside (rw width (rw filled (rw once (refused _)))))
              | inr new ↦ rw small (
                  rw inside (
                    rw width (
                      rw new (
                        taken _ (take_row-Taken s key f.executor_id token row.codes) new small
                          inside width))))
            ]
          ]
        ]
      ]
