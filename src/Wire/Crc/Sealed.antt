-- ===== src/Wire/Crc/Sealed.antt =====
-- A sealed frame passes the check.
use mimo26f_afd.Prelude.{
  ℕ, zero, suc, ◌+◌, ◌-◌, ◌≤◌, ◌<◌, ◌^◌, ◌≡◌, refl, sym, ap, ◌∙◌, arith, ==-true, Bool-cases, inl,
  inr, List, [], ◌∷◌, ◌++◌, length, length-append, length-take, length-drop, take, drop,
  take-append_left, take_all, ok,
}
use mimo26f_afd.Wire.Naive.{WireNaive, has, crc_header_exempt, crc_unchecked}
use mimo26f_afd.Wire.Bytes.{put, get, get_field, to_le_bytes, length-to_le_bytes}
use mimo26f_afd.Wire.Crc.{
  Process, compute_crc, seal, verify_crc, crc32c_with, crc32c_zeroed, family_for,
}

drop-append_over :
    (n : ℕ) (xs ys : List ℕ) → length xs ≤ n → drop n (xs ++ ys) ≡ drop (n - length xs) ys
drop-append_over n [] ys h = ap (λ m. drop m ys) (omega arith)
drop-append_over zero (x ∷ xs) ys h = absurd (omega arith)
drop-append_over (suc n) (x ∷ xs) ys h =
    drop-append_over n xs ys (omega arith) ∙ ap (λ m. drop m ys) (omega arith)

pub drop-append_end : (n : ℕ) (xs ys : List ℕ) → n ≡ length xs → drop n (xs ++ ys) ≡ ys
drop-append_end zero [] ys h = refl
drop-append_end (suc n) [] ys h = absurd (omega arith)
drop-append_end zero (x ∷ xs) ys h = absurd (omega arith)
drop-append_end (suc n) (x ∷ xs) ys h = drop-append_end n xs ys (omega arith)

drop_cong : (m n : ℕ) (xs : List ℕ) → m ≡ n → drop m xs ≡ drop n xs
drop_cong m n xs e = ap (λ k. drop k xs) e

drop_nil : (n : ℕ) → drop {A = ℕ} n [] ≡ []
drop_nil zero = refl
drop_nil (suc n) = refl

drop-drop : (m n : ℕ) (xs : List ℕ) → drop m (drop n xs) ≡ drop (n + m) xs
drop-drop m zero xs = ap (λ k. drop k xs) (omega arith)
drop-drop m (suc n) [] = drop_nil m ∙ sym (drop_nil (suc n + m))
drop-drop m (suc n) (x ∷ xs) =
    drop-drop m n xs ∙ drop_cong (suc (n + m)) (suc n + m) (x ∷ xs) (omega arith)

-- What a write leaves as it was.
take-put : (at : ℕ) (out v : List ℕ) → at ≤ length out → take at (put out at v) ≡ take at out
take-put at out v h =
    take-append_left at (take at out) (v ++ drop (at + length v) out)
      (omega (arith, length-take at out))
    ∙ take_all at (take at out) (omega (arith, length-take at out))

drop-put :
    (at n : ℕ) (out v : List ℕ)
    → at ≤ length out
    → at + length v ≤ n
    → drop n (put out at v) ≡ drop n out
drop-put at n out v h le =
    drop-append_over n (take at out) (v ++ drop (at + length v) out)
      (omega (arith, length-take at out))
    ∙ (ap (λ m. drop m (v ++ drop (at + length v) out)) (omega (arith, length-take at out))
        ∙ (drop-append_over (n - at) v (drop (at + length v) out) (omega arith)
            ∙ (drop-drop (n - at - length v) (at + length v) out
                ∙ ap (λ m. drop m out) (omega arith))))

pub length-put :
    (out : List ℕ) (at : ℕ) (v : List ℕ)
    → at + length v ≤ length out
    → length (put out at v) ≡ length out
length-put out at v h = omega (
  arith,
  length-append (take at out) (v ++ drop (at + length v) out),
  length-append v (drop (at + length v) out),
  length-take at out,
  length-drop (at + length v) out,
)

-- The checksum does not see the bytes that it is written to.
compute_crc-put :
    (proc : Process) (out : List ℕ) (naive : WireNaive) (v : List ℕ)
    → 128 ≤ length out
    → length v ≡ 4
    → compute_crc proc (put out 120 v) naive ≡ compute_crc proc out naive
unfolding compute_crc crc32c_zeroed
compute_crc-put proc out naive v h e = elim (Bool-cases (has naive crc_header_exempt)) [
  | inl body ↦ rw body (
      ap (crc32c_with proc (family_for naive))
        (drop-put 120 128 out v (omega arith) (omega (arith, e))))
  | inr whole ↦
      rw
        (
          whole,
          take-put 120 out v (omega arith),
          drop-put 120 124 out v (omega arith) (omega (arith, e)),
        )
        refl
]

-- The 4 bytes at 120 read back.
get-put :
    (out : List ℕ) (crc : ℕ)
    → 128 ≤ length out
    → crc < 256 ^ 4
    → get 4 (put out 120 (to_le_bytes 4 crc)) 120 ≡ ok crc
get-put out crc h small =
    get_field 4 120 crc (put out 120 (to_le_bytes 4 crc)) small
      (omega (arith, length-put out 120 (to_le_bytes 4 crc) (omega arith)))
      (ap (take 4) (
        drop-append_end 120 (take 120 out) (to_le_bytes 4 crc ++ drop 124 out)
          (omega (arith, length-take 120 out))))

compute_crc-lt :
    (proc : Process) (out : List ℕ) (naive : WireNaive) → compute_crc proc out naive < 256 ^ 4
unfolding compute_crc crc32c_with crc32c_zeroed
compute_crc-lt proc out naive = elim (Bool-cases (has naive crc_header_exempt)) [
  | inl body ↦ rw body (omega arith)
  | inr whole ↦ rw whole (omega arith)
]

-- A frame of at least a header that was sealed passes the check of the same process and variant, as
-- does one that was not sealed because the process runs with checksums off.
pub verify_crc-seal :
    (proc : Process) (frame : List ℕ) (naive : WireNaive) (seq : ℕ)
    → 128 ≤ length frame
    → verify_crc proc (seal proc frame naive) naive seq ≡ ok tt
unfolding verify_crc seal
verify_crc-seal proc frame naive seq h = elim (Bool-cases (has naive crc_unchecked)) [
  | inl trust ↦ rw trust refl
  | inr check ↦ elim (Bool-cases proc.crc_disabled) [
    | inl off ↦ rw (check, off) refl
    | inr on ↦
        let crc = compute_crc proc frame naive in
        rw
          (
            check,
            on,
            compute_crc-put proc frame naive (to_le_bytes 4 crc) h (length-to_le_bytes 4 crc),
            get-put frame crc h (compute_crc-lt proc frame naive),
            ==-true crc crc refl,
          )
          refl
  ]
]
