-- ===== src/Pool/Bounds.antt =====
-- What admission promises: the pool never goes over the measured bytes, and only new work is gated.
use mimo26f_afd.Prelude.{ℕ, ◌+◌, ◌-◌, ◌*◌, ◌^◌, ◌≤◌, ◌<◌, min, ◌≡◌, arith}
use mimo26f_afd.Pool.{
  ga_kv_bytes_per_token, request_reservation, full_lifetime_reservation, Admission, admitted,
  rejected, KvPool, free, admit, grow, release,
}

-- The pool of a real device: its size is far from the end of a u64, and not over-committed.
pub record IsValid (p : KvPool) : Type 0 where
  pub small : p.total < 2 ^ 62
  pub fits : p.used ≤ p.total

-- A request whose token counts are below 2 ^ 48.
pub record IsSmall (prompt_tokens max_tokens : ℕ) : Type 0 where
  pub prompt : prompt_tokens < 2 ^ 48
  pub output : max_tokens < 2 ^ 48

-- For token counts below 2 ^ 48 the reservation does not wrap.
pub request_reservation_lem :
    (prompt_tokens max_tokens admit_reserve : ℕ)
    → IsSmall prompt_tokens max_tokens
    → request_reservation prompt_tokens max_tokens admit_reserve
      ≡ (prompt_tokens + min max_tokens admit_reserve) * 11520 + 12779520
unfolding request_reservation
request_reservation_lem p m r s = omega arith

pub request_reservation-lt :
    (prompt_tokens max_tokens admit_reserve : ℕ)
    → IsSmall prompt_tokens max_tokens
    → request_reservation prompt_tokens max_tokens admit_reserve < 2 ^ 63
request_reservation-lt p m r s = omega (arith, request_reservation_lem p m r s)

-- For token counts below 2 ^ 48, the grow-on-demand reservation never exceeds the full lifetime
-- reservation, and saves exactly the bytes of the output tokens beyond the admission quantum.
pub reservation_saving :
    (prompt_tokens max_tokens admit_reserve : ℕ)
    → IsSmall prompt_tokens max_tokens
    → request_reservation prompt_tokens max_tokens admit_reserve
        + (max_tokens - admit_reserve) * ga_kv_bytes_per_token
      ≡ full_lifetime_reservation prompt_tokens max_tokens
unfolding full_lifetime_reservation
reservation_saving p m r s = omega (arith, request_reservation_lem p m r s)

-- The three facts about one admission on a valid pool.
pub record AdmitsExactly (p : KvPool) (need : ℕ) (out : KvPool × Admission) : Type 0 where
  pub valid : IsValid out.0
  pub taken : need ≤ free p → (out.1 ≡ admitted need) × (free out.0 + need ≡ free p)
  pub refused : free p < need → (out.1 ≡ rejected) × (out.0 ≡ p)

-- On a valid pool and for token counts below 2 ^ 48: a request is admitted exactly when its
-- reservation fits in the free bytes; then exactly that many bytes leave the free ones. A refused
-- request changes nothing. Either way the pool stays within its measured size.
pub admit-AdmitsExactly :
    (p : KvPool) (prompt_tokens max_tokens admit_reserve : ℕ)
    → IsValid p
    → IsSmall prompt_tokens max_tokens
    → AdmitsExactly p
        (request_reservation prompt_tokens max_tokens admit_reserve)
        (admit p prompt_tokens max_tokens admit_reserve)
unfolding admit free
admit-AdmitsExactly p a b c v s =
    let small = request_reservation-lt a b c s in
    record { valid = ground arith; taken = λ h. ground arith; refused = λ h. ground arith }

-- Releasing what an admission reserved gives back the pool as it was before.
pub release-admit :
    (p : KvPool) (prompt_tokens max_tokens admit_reserve n : ℕ)
    → IsValid p
    → IsSmall prompt_tokens max_tokens
    → (admit p prompt_tokens max_tokens admit_reserve).1 ≡ admitted n
    → release (admit p prompt_tokens max_tokens admit_reserve).0 n ≡ p
unfolding admit release
release-admit p a b c n v s h = let small = request_reservation-lt a b c s in ground arith

-- `grow` never refuses and may take the pool over its measured size: afterwards no byte is free, and
-- every request is refused until bytes come back.
pub admit-grow_over :
    (p : KvPool) (extra prompt_tokens max_tokens admit_reserve : ℕ)
    → IsValid p
    → IsSmall prompt_tokens max_tokens
    → extra < 2 ^ 48
    → free p < extra * ga_kv_bytes_per_token
    → let q = (grow p extra).0 in
      (q.used ≡ p.used + extra * ga_kv_bytes_per_token)
      × (free q ≡ 0)
      × ((admit q prompt_tokens max_tokens admit_reserve).1 ≡ rejected)
unfolding admit grow free
admit-grow_over p e a b c v s he hf =
    let small = request_reservation-lt a b c s in (omega arith, omega arith, ground arith)
