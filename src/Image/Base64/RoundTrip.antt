-- ===== src/Image/Base64/RoundTrip.antt =====
-- crates/mimo26-image/src/base64.rs: the decoder undoes RFC 4648's encoding.
use mimo26f_afd.Prelude.{
  ℕ, false, ◌+◌, ◌*◌, ◌/◌, ◌%◌, ◌^◌, ◌<◌, ◌≡◌, refl, sym, ap, ◌∙◌, ◌==◌, List, [], ◌∷◌, ◌++◌,
  append_assoc, append-nil, ok, arith, All,
}
use mathlib.Core.Path.{ap₂}
use mimo26f_afd.Image.Base64.{Sextets, digit, decode_loop, finish, decode}
use mimo26f_afd.Image.Base64.Step.{
  char_of, bit_or-sextet, decode_loop-char_of, decode_loop-pad, decode_loop-end, Spaced,
  decode_loop-Spaced,
}

-- RFC 4648, section 4.
abbrev pub encode : List ℕ → List ℕ
encode [] = []
encode (a ∷ []) = char_of (a / 4) ∷ char_of (a % 4 * 16) ∷ b'=' ∷ b'=' ∷ []
encode (a ∷ b ∷ []) =
    char_of (a / 4) ∷ char_of (a % 4 * 16 + b / 16) ∷ char_of (b % 16 * 4) ∷ b'=' ∷ []
encode (a ∷ b ∷ c ∷ rest) =
    char_of (a / 4)
    ∷ char_of (a % 4 * 16 + b / 16)
    ∷ char_of (b % 16 * 4 + c / 64)
    ∷ char_of (c % 64)
    ∷ encode rest

abbrev state : ℕ → ℕ → ℕ → List ℕ → Sextets
state acc n pads out = record { acc = acc; n = n; pads = pads; out = out }

digit_held :
    (acc n v : ℕ) (out : List ℕ)
    → acc < 2 ^ 18
    → v < 64
    → (n + 1 == 4) ≡ false
    → digit (state acc n 0 out) v ≡ state (acc * 64 + v) (n + 1) 0 out
unfolding digit
digit_held acc n v out h g more = rw (bit_or-sextet acc v h g, more) refl

digit_full :
    (acc v : ℕ) (out : List ℕ)
    → acc < 2 ^ 18
    → v < 64
    → digit (state acc 3 0 out) v
      ≡ state 0 0 0 (
          out
          ++ ((acc * 64 + v) / 2 ^ 16 % 256
              ∷ (acc * 64 + v) / 2 ^ 8 % 256
              ∷ (acc * 64 + v) % 256
              ∷ []))
unfolding digit
digit_full acc v out h g = rw (bit_or-sextet acc v h g) refl

-- One digit read where fewer than three are held.
read_digit :
    (i acc n v : ℕ) (out rest : List ℕ)
    → acc < 2 ^ 18
    → v < 64
    → (n + 1 == 4) ≡ false
    → decode_loop i (state acc n 0 out) (char_of v ∷ rest)
      ≡ decode_loop (i + 1) (state (acc * 64 + v) (n + 1) 0 out) rest
read_digit i acc n v out rest h g more =
    decode_loop-char_of i (state acc n 0 out) v rest g refl
    ∙ ap (λ s. decode_loop (i + 1) s rest) (digit_held acc n v out h g more)

read_group :
    (i a b c : ℕ) (out rest : List ℕ)
    → a < 256
    → b < 256
    → c < 256
    → decode_loop i (state 0 0 0 out) (
        char_of (a / 4)
        ∷ char_of (a % 4 * 16 + b / 16)
        ∷ char_of (b % 16 * 4 + c / 64)
        ∷ char_of (c % 64)
        ∷ rest)
      ≡ decode_loop (i + 1 + 1 + 1 + 1) (state 0 0 0 (out ++ (a ∷ b ∷ c ∷ []))) rest
read_group i a b c out rest ha hb hc =
    let v1 = a % 4 * 16 + b / 16 in
    let v2 = b % 16 * 4 + c / 64 in
    let acc1 = 0 * 64 + a / 4 in
    let acc2 = acc1 * 64 + v1 in
    let acc3 = acc2 * 64 + v2 in
    let bytes : (acc3 * 64 + c % 64) / 2 ^ 16 % 256
          ∷ (acc3 * 64 + c % 64) / 2 ^ 8 % 256
          ∷ (acc3 * 64 + c % 64) % 256
          ∷ []
        ≡ a ∷ b ∷ c ∷ [] =
      three (omega arith) (omega arith) (omega arith) in
    read_digit i 0 0 (a / 4) out _ (omega arith) (omega arith) refl
    ∙ (read_digit (i + 1) acc1 1 v1 out _ (omega arith) (omega arith) refl
        ∙ (read_digit (i + 1 + 1) acc2 2 v2 out _ (omega arith) (omega arith) refl
            ∙ (decode_loop-char_of (i + 1 + 1 + 1) (state acc3 3 0 out) (c % 64) rest (omega arith)
                  refl
                ∙ ap (λ s. decode_loop (i + 1 + 1 + 1 + 1) s rest)
                    (digit_full acc3 (c % 64) out (omega arith) (omega arith)
                      ∙ ap (λ l. state 0 0 0 (out ++ l)) bytes))))
  where
    three : {x y z p q r : ℕ} → x ≡ p → y ≡ q → z ≡ r → x ∷ y ∷ z ∷ [] ≡ p ∷ q ∷ r ∷ []
    three e f g = cc

-- Where the loop ends after the encoding of `bytes`, and what is made of that.
abbrev Reads : ℕ → List ℕ → List ℕ → Type 0
Reads i out bytes =
    (s : Sextets) × (decode_loop i (state 0 0 0 out) (encode bytes) ≡ ok s)
    × (finish s ≡ ok (out ++ bytes))

read_one : (i a : ℕ) (out : List ℕ) → a < 256 → Reads i out (a ∷ [])
unfolding finish
read_one i a out h =
    let acc1 = 0 * 64 + a / 4 in
    let acc2 = acc1 * 64 + a % 4 * 16 in
    let byte : acc2 / 2 ^ 4 % 256 ≡ a = omega arith in
    (
      state acc2 2 2 out,
      read_digit i 0 0 (a / 4) out _ (omega arith) (omega arith) refl
          ∙ (read_digit (i + 1) acc1 1 (a % 4 * 16) out _ (omega arith) (omega arith) refl
              ∙ (decode_loop-pad (i + 1 + 1) (state acc2 2 0 out) _
                  ∙ (decode_loop-pad (i + 1 + 1 + 1) (state acc2 2 1 out) []
                      ∙ decode_loop-end _ _))),
      ap (λ x. ok (out ++ (x ∷ []))) byte,
    )

read_two : (i a b : ℕ) (out : List ℕ) → a < 256 → b < 256 → Reads i out (a ∷ b ∷ [])
unfolding finish
read_two i a b out h g =
    let v1 = a % 4 * 16 + b / 16 in
    let acc1 = 0 * 64 + a / 4 in
    let acc2 = acc1 * 64 + v1 in
    let acc3 = acc2 * 64 + b % 16 * 4 in
    let first : acc3 / 2 ^ 10 % 256 ≡ a = omega arith in
    let second : acc3 / 2 ^ 2 % 256 ≡ b = omega arith in
    (
      state acc3 3 1 out,
      read_digit i 0 0 (a / 4) out _ (omega arith) (omega arith) refl
          ∙ (read_digit (i + 1) acc1 1 v1 out _ (omega arith) (omega arith) refl
              ∙ (read_digit (i + 1 + 1) acc2 2 (b % 16 * 4) out _ (omega arith) (omega arith) refl
                  ∙ (decode_loop-pad (i + 1 + 1 + 1) (state acc3 3 0 out) []
                      ∙ decode_loop-end _ _))),
      ap₂ (λ x y. ok (out ++ (x ∷ y ∷ []))) first second,
    )

reads : (bytes : List ℕ) → All (λ b. b < 256) bytes → (i : ℕ) (out : List ℕ) → Reads i out bytes
unfolding finish
reads [] h i out = (state 0 0 0 out, decode_loop-end _ _, ap ok (sym (append-nil out)))
reads (a ∷ []) (ha, h) i out = read_one i a out ha
reads (a ∷ b ∷ []) (ha, (hb, h)) i out = read_two i a b out ha hb
reads (a ∷ b ∷ c ∷ rest) (ha, (hb, (hc, h))) i out =
    let (s, loops, ends) = reads rest h (i + 1 + 1 + 1 + 1) (out ++ (a ∷ b ∷ c ∷ [])) in
    (
      s,
      read_group i a b c out (encode rest) ha hb hc ∙ loops,
      ends ∙ ap ok (append_assoc out (a ∷ b ∷ c ∷ []) rest),
    )

-- For every list of bytes, `decode` gives back the bytes from their encoding by RFC 4648 with its
-- padding, with whitespace put in anywhere.
pub decode-encode :
    (bytes text : List ℕ)
    → All (λ b. b < 256) bytes
    → Spaced (encode bytes) text
    → decode text ≡ ok bytes
unfolding decode
decode-encode bytes text h p =
    let (s, loops, ends) = reads bytes h 0 [] in
    rw (decode_loop-Spaced p 0 0 _ s loops, decode) ends
