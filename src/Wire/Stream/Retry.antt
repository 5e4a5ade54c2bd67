-- ===== src/Wire/Stream/Retry.antt =====
-- The bounded retry stops, and what it answers.
use mimo26f_afd.Prelude.{
  ℕ, zero, suc, ◌+◌, ◌≤◌, ◌<◌, ◌≡◌, ◌⊎◌, Result-cases, inl, inr, refl, sym, ap, arith, ltb,
  Bool-cases, Option, none, some, Result, err,
}
use mimo26f_afd.Wire.Error.{
  WireError, retry_exhausted, Disposition, retry, drop_idempotent, fail_loud, disposition,
}
use mimo26f_afd.Wire.Stream.{settle, retry_loop, retry_until}

retry_or_not : (d : Disposition) → (d ≡ retry) ⊎ (¬ (d ≡ retry))
retry_or_not retry = inl refl
retry_or_not drop_idempotent = inr (λ e. cc)
retry_or_not fail_loud = inr (λ e. cc)

disposition_cases : (d : Disposition) → (d ≡ retry) ⊎ ((d ≡ drop_idempotent) ⊎ (d ≡ fail_loud))
disposition_cases retry = inl refl
disposition_cases drop_idempotent = inr (inl refl)
disposition_cases fail_loud = inr (inr refl)

module _ {S T : Type 0} (op : S → S × Result WireError T) where
  -- The state behind `n` calls, and the answer to the call that follows them.
  pub after : ℕ → S → S
  after zero s = s
  after (suc n) s = after n (op s).0

  abbrev pub answer : ℕ → S → Result WireError T
  unfolding after
  answer n s = (op (after n s)).1

  -- The answer is an error that asks for a retry.
  abbrev pub AsksRetry : Result WireError T → Type 0
  AsksRetry r = (e : WireError) × (r ≡ err e) × (disposition e ≡ retry)

  -- What the loop gives: all calls but the last asked for a retry. The last is passed on, or it asked for
  -- one retry more than is allowed.
  pub record Retries (max_attempts attempts : ℕ) (s : S) (out : Option (S × Result WireError T))
      : Type 0 where
    pub calls : ℕ
    pub bounded : (attempts + calls < max_attempts) ⊎ (calls ≡ 0)
    pub asked : (i : ℕ) → i < calls → AsksRetry (answer i s)
    pub result : Result WireError T
    pub output : out ≡ some (after (suc calls) s, result)
    pub passed :
        ((result ≡ answer calls s) × ¬ AsksRetry (answer calls s))
        ⊎ ((e : WireError) × (answer calls s ≡ err e)
            × (disposition e ≡ retry)
            × (result ≡ err (retry_exhausted (attempts + calls) e))
            × (max_attempts ≤ attempts + calls + 1))

  -- The first call is the last.
  last_passed :
      (fuel max_attempts attempts : ℕ) (s : S)
      → settle max_attempts attempts (op s).1 ≡ some (op s).1
      → ¬ AsksRetry (op s).1
      → Retries max_attempts attempts s (retry_loop (suc fuel) max_attempts attempts op s)
  unfolding retry_loop after
  last_passed fuel max_attempts attempts s settled calm = record {
    calls = 0;
    bounded = inr refl;
    asked = λ i lt. absurd (omega arith);
    result = (op s).1;
    output = rw (settled, retry_loop) refl;
    passed = inl (refl, calm);
  }

  last_exhausted :
      (fuel max_attempts attempts : ℕ) (s : S) (e : WireError)
      → (op s).1 ≡ err e
      → disposition e ≡ retry
      → settle max_attempts attempts (op s).1 ≡ some (err (retry_exhausted attempts e))
      → max_attempts ≤ attempts + 1
      → Retries max_attempts attempts s (retry_loop (suc fuel) max_attempts attempts op s)
  unfolding retry_loop after
  last_exhausted fuel max_attempts attempts s e is_err asks settled spent =
      let same : attempts ≡ attempts + 0 = omega arith in
      record {
        calls = 0;
        bounded = inr refl;
        asked = λ i lt. absurd (omega arith);
        result = err (retry_exhausted attempts e);
        output = rw (settled, retry_loop) refl;
        passed = inr (e, is_err, asks, ap (λ n. err (retry_exhausted n e)) same, omega arith);
      }

  settle_calm :
      (max_attempts attempts : ℕ) (e : WireError)
      → ¬ (disposition e ≡ retry)
      → settle {T = T} max_attempts attempts (err e) ≡ some (err e)
  unfolding settle
  settle_calm max_attempts attempts e calm = elim (disposition_cases (disposition e)) [
    | inl asks ↦ absurd (calm asks)
    | inr (inl drop) ↦ rw (drop, settle) refl
    | inr (inr fail) ↦ rw (fail, settle) refl
  ]

  asked_suc :
      (s : S) (n : ℕ)
      → AsksRetry (op s).1
      → ((i : ℕ) → i < n → AsksRetry (answer i (op s).0))
      → (i : ℕ) → i < suc n
      → AsksRetry (answer i s)
  unfolding after
  asked_suc s n first rest zero lt = first
  asked_suc s n first rest (suc i) lt = rest i (omega arith)

  one_more :
      (fuel max_attempts attempts : ℕ) (s : S)
      → AsksRetry (op s).1
      → settle max_attempts attempts (op s).1 ≡ none
      → attempts + 1 < max_attempts
      → Retries max_attempts
          (attempts + 1)
          (op s).0
          (retry_loop fuel max_attempts (attempts + 1) op (op s).0)
      → Retries max_attempts attempts s (retry_loop (suc fuel) max_attempts attempts op s)
  unfolding retry_loop after
  one_more fuel max_attempts attempts s asks settled left r =
      let shift : attempts + 1 + r.calls ≡ attempts + suc r.calls = omega arith in
      record {
        calls = suc r.calls;
        bounded = inl (ground (arith, r.bounded));
        asked = asked_suc s r.calls asks r.asked;
        result = r.result;
        output = rw (settled, r.output, retry_loop) refl;
        passed = rw (sym shift) r.passed;
      }

  retry_loop-Retries :
      (fuel max_attempts attempts : ℕ) (s : S)
      → max_attempts < attempts + fuel
      → 0 < fuel
      → Retries max_attempts attempts s (retry_loop fuel max_attempts attempts op s)
  unfolding settle
  retry_loop-Retries zero max_attempts attempts s h pos = absurd (omega arith)
  retry_loop-Retries (suc fuel) max_attempts attempts s h pos = elim (Result-cases (op s).1) [
    | inl (v, e) ↦ last_passed fuel max_attempts attempts s (rw (e, settle) refl) (λ (f, g, d). cc)
    | inr (x, e) ↦ elim (retry_or_not (disposition x)) [
      | inl asks ↦ elim (Bool-cases (ltb (attempts + 1) max_attempts)) [
        | inl left ↦
            one_more fuel max_attempts attempts s (x, e, asks) (rw (e, asks, left, settle) refl)
              (ground arith)
              (retry_loop-Retries fuel max_attempts (attempts + 1) (op s).0 (omega arith)
                (ground arith))
        | inr spent ↦
            last_exhausted fuel max_attempts attempts s x e asks (rw (e, asks, spent, settle) refl)
              (ground arith)
      ]
      | inr calm ↦
          last_passed fuel max_attempts attempts s (rw e (settle_calm max_attempts attempts x calm))
            (λ (y, f, d). calm (cc))
    ]
  ]

-- For every operation, `retry_until` ends. It calls the operation at most `max_attempts` times, or once
-- where that is 0, and every call but the last asked for a retry. The last answer is passed on unless
-- it asks for one too; then the allowed calls are used up and the answer is `RetryExhausted` with the
-- number of retries made and that last error.
pub retry_until-Retries :
    {S T : Type 0} (op : S → S × Result WireError T) (max_attempts : ℕ) (s : S)
    → Retries op max_attempts 0 s (retry_until max_attempts op s)
unfolding retry_until
retry_until-Retries op max_attempts s =
    retry_loop-Retries op (max_attempts + 1) max_attempts 0 s (omega arith) (omega arith)
