-- ===== src/Wire/Sum/Again.antt =====
-- crates/mimo26-wire/src/l4.rs: a return frame that comes again after `CoordinatorSum` took it.
use mimo26f_afd.Prelude.{
  ℕ, true, false, ◌+◌, ◌^◌, ◌≡◌, refl, ap, ◌∙◌, inl, inr, Bool-cases, arith, ◌==◌, leb, List, [],
  ◌∷◌, length, Result, ok, err,
}
use mathlib.Core.Path.{sym, subst}
use mimo26f_afd.Wire.Naive.{has, dup_double_count}
use mimo26f_afd.Wire.Error.{WireError, slot_filled, spark_reported_error, dim_mismatch}
use mimo26f_afd.Wire.Layout.{sparks, Status, status_ok, status_error}
use mimo26f_afd.Wire.Return.{ReturnRow, ReturnFrame}
use mimo26f_afd.Wire.Sum.{CoordinatorSum, has_slot, key_of, accept_row, accept_rows, accumulate}
use mimo26f_afd.Wire.Sum.Once.{
  IsOnce, Grows, Grows-refl, Grows-trans, Taken-Grows, Step, refused, taken, accept_row-Step,
  has_slot-new,
}

module _ (add : ℕ → ℕ → ℕ) where
  -- The rest of the loop behind a row.
  behind_row :
      ReturnFrame
      → ℕ
      → List ReturnRow
      → CoordinatorSum × Result WireError (Unit {0})
      → CoordinatorSum × Result WireError (Unit {0})
  behind_row f r rows x =
      let (s', result) = x in
      elim result [ err e ↦ (s', err e) | ok u ↦ accept_rows add s' f (r + 1) rows ]

  behind_row-Grows :
      (s : CoordinatorSum) (f : ReturnFrame) (r : ℕ) (row : ReturnRow) (rows : List ReturnRow)
      (x : CoordinatorSum × Result WireError (Unit {0}))
      → has s.naive dup_double_count ≡ false
      → Step add s f r row x
      → ((s' : CoordinatorSum)
          → has s'.naive dup_double_count ≡ false
          → Grows s' (accept_rows add s' f (r + 1) rows).0)
      → Grows s (behind_row f r rows x).0
  unfolding behind_row
  behind_row-Grows s f r row rows _ once (refused e) rest = Grows-refl s
  behind_row-Grows s f r row rows _ once (taken s' t new small inside width) rest =
      Grows-trans s s' _ (Taken-Grows s s' _ new t)
        (rest s' (ap (λ n. has n dup_double_count) t.naive ∙ once))

  accept_rows-Grows :
      (s : CoordinatorSum) (f : ReturnFrame) (r : ℕ) (rows : List ReturnRow)
      → has s.naive dup_double_count ≡ false
      → Grows s (accept_rows add s f r rows).0
  unfolding accept_rows behind_row
  accept_rows-Grows s f r [] once = Grows-refl s
  accept_rows-Grows s f r (row ∷ rows) once =
      behind_row-Grows s f r row rows (accept_row add s f r row) once
        (accept_row-Step add s f r row once) (λ s' h. accept_rows-Grows s' f (r + 1) rows h)

  accumulate_ok :
      (s : CoordinatorSum) (f : ReturnFrame) (st : Status)
      → f.status ≡ st
      → has s.naive dup_double_count ≡ false
      → Grows s (accumulate add s f).0
  unfolding accumulate
  accumulate_ok s f status_error e once = rw (e, accumulate) (Grows-refl s)
  accumulate_ok s f status_ok e once = elim (Bool-cases (leb sparks f.executor_id)) [
    | inl outside ↦ rw (e, accumulate) (rw outside (Grows-refl s))
    | inr inside ↦ rw (e, accumulate) (rw inside (accept_rows-Grows s f 0 f.rows once))
  ]

  -- The frames of a layer, one after another; what a frame is refused with is the caller's.
  unfoldable pub accumulate_all : List ReturnFrame → CoordinatorSum → CoordinatorSum
  accumulate_all [] s = s
  accumulate_all (f ∷ fs) s = accumulate_all fs (accumulate add s f).0

  accumulate_all-Grows :
      (fs : List ReturnFrame) (s : CoordinatorSum)
      → has s.naive dup_double_count ≡ false
      → Grows s (accumulate_all fs s)
  unfolding accumulate_all
  accumulate_all-Grows [] s once = Grows-refl s
  accumulate_all-Grows (f ∷ fs) s once =
      let g = accumulate_ok s f f.status refl once in
      Grows-trans s _ _ g
        (accumulate_all-Grows fs _ (ap (λ n. has n dup_double_count) g.naive ∙ once))

  -- What is known of a frame that was taken.
  record Accepted (s : CoordinatorSum) (f : ReturnFrame) (row : ReturnRow) (s' : CoordinatorSum)
      : Type 0 where
    good : f.status ≡ status_ok
    ranked : leb sparks f.executor_id ≡ false
    small : leb (2 ^ 64) (f.token_position + 0) ≡ false
    inside : leb s.rows (f.token_position + 0) ≡ false
    width : (length row.codes == s.hidden) ≡ true
    grows : Grows s s'
    filled : has_slot s'.seen (key_of f (f.token_position + 0)) ≡ true

  behind_row-Accepted :
      (s : CoordinatorSum) (f : ReturnFrame) (row : ReturnRow) (rows : List ReturnRow)
      (x : CoordinatorSum × Result WireError (Unit {0}))
      → f.status ≡ status_ok
      → leb sparks f.executor_id ≡ false
      → has s.naive dup_double_count ≡ false
      → Step add s f 0 row x
      → (behind_row f 0 rows x).1 ≡ ok tt
      → Accepted s f row (behind_row f 0 rows x).0
  unfolding behind_row
  behind_row-Accepted s f row rows _ good ranked once (refused e) h = absurd (cc)
  behind_row-Accepted s f row rows _ good ranked once (taken s' t new small inside width) h =
      let g = Taken-Grows s s' (key_of f (f.token_position + 0)) new t in
      let later =
        accept_rows-Grows s' f (0 + 1) rows (ap (λ n. has n dup_double_count) t.naive ∙ once) in
      record {
        good = good;
        ranked = ranked;
        small = small;
        inside = inside;
        width = width;
        grows = Grows-trans s s' _ g later;
        filled = later.seen _ (
            ap (λ l. has_slot l (key_of f (f.token_position + 0))) t.seen
            ∙ has_slot-new s.seen (key_of f (f.token_position + 0)));
      }

  accumulate-rows :
      (s : CoordinatorSum) (f : ReturnFrame) (row : ReturnRow) (rows : List ReturnRow)
      → f.status ≡ status_ok
      → leb sparks f.executor_id ≡ false
      → f.rows ≡ row ∷ rows
      → accumulate add s f ≡ behind_row f 0 rows (accept_row add s f 0 row)
  unfolding accumulate accept_rows behind_row
  accumulate-rows s f row rows good ranked some =
      let loop : accumulate add s f ≡ accept_rows add s f 0 f.rows =
        simp (good, accumulate) (rw ranked refl) in
      loop ∙ ap (accept_rows add s f 0) some

  accumulate-Accepted :
      (s : CoordinatorSum) (f : ReturnFrame) (row : ReturnRow) (rows : List ReturnRow) (st : Status)
      → f.status ≡ st
      → f.rows ≡ row ∷ rows
      → has s.naive dup_double_count ≡ false
      → (accumulate add s f).1 ≡ ok tt
      → Accepted s f row (accumulate add s f).0
  unfolding accumulate
  accumulate-Accepted s f row rows status_error e some once h =
      let refusal : (accumulate add s f).1 ≡ err (spark_reported_error f.executor_id) =
        rw (e, accumulate) refl in
      absurd (cc)
  accumulate-Accepted s f row rows status_ok e some once h =
      elim (Bool-cases (leb sparks f.executor_id)) [
        | inl outside ↦
            let refusal : (accumulate add s f).1
                ≡ err (dim_mismatch "executor_id" sparks f.executor_id) =
              rw (e, accumulate) (rw outside refl) in
            absurd (cc)
        | inr ranked ↦
            let run = accumulate-rows s f row rows e ranked some in
            subst (λ x. x.1 ≡ ok tt → Accepted s f row x.0) (sym run)
              (behind_row-Accepted s f row rows (accept_row add s f 0 row) e ranked once
                (accept_row-Step add s f 0 row once))
              h
      ]

  accept_row-filled :
      (s : CoordinatorSum) (f : ReturnFrame) (row : ReturnRow)
      → has s.naive dup_double_count ≡ false
      → leb (2 ^ 64) (f.token_position + 0) ≡ false
      → leb s.rows (f.token_position + 0) ≡ false
      → (length row.codes == s.hidden) ≡ true
      → has_slot s.seen (key_of f (f.token_position + 0)) ≡ true
      → accept_row add s f 0 row ≡ (s, err (slot_filled (key_of f (f.token_position + 0))))
  unfolding accept_row
  accept_row-filled s f row once small inside width filled =
      rw (small, accept_row) (rw inside (rw width (rw filled (rw once refl))))

  -- Where the bit DUP_DOUBLE_COUNT is clear, a frame with rows that was taken is refused with
  -- SlotFilled of its first slot when it comes again, whatever frames came in between, and its
  -- second coming changes nothing; the slots counted stay free of repetition.
  pub accumulate-again :
      (s : CoordinatorSum) (f : ReturnFrame) (row : ReturnRow) (rows : List ReturnRow)
      (between : List ReturnFrame)
      → has s.naive dup_double_count ≡ false
      → f.rows ≡ row ∷ rows
      → (accumulate add s f).1 ≡ ok tt
      → let later = accumulate_all between (accumulate add s f).0 in
        (accumulate add later f ≡ (later, err (slot_filled (key_of f f.token_position))))
        × (IsOnce s → IsOnce later)
  unfolding behind_row
  accumulate-again s f row rows between once some h =
      let a = accumulate-Accepted s f row rows f.status refl some once h in
      let next = (accumulate add s f).0 in
      let later = accumulate_all between next in
      let more =
        accumulate_all-Grows between next (ap (λ n. has n dup_double_count) a.grows.naive ∙ once) in
      let all = Grows-trans s next later a.grows more in
      let refusal =
        accept_row-filled later f row (ap (λ n. has n dup_double_count) all.naive ∙ once) a.small
          (ap (λ n. leb n (f.token_position + 0)) all.rows ∙ a.inside)
          (ap (λ n. length row.codes == n) all.hidden ∙ a.width) (more.seen _ a.filled) in
      let here : f.token_position + 0 ≡ f.token_position = omega arith in
      (
        accumulate-rows later f row rows a.good a.ranked some
            ∙ (ap (behind_row f 0 rows) refusal
                ∙ ap (λ t. (later, err (slot_filled (key_of f t)))) here),
        all.once,
      )
