-- ===== src/Image/Base64/Step.antt =====
-- crates/mimo26-image/src/base64.rs: one character of the loop.
use mimo26f_afd.Prelude.{
  ℕ, Bool, true, false, zero, suc, ◌+◌, ◌-◌, ◌*◌, ◌/◌, ◌%◌, ◌^◌, ◌<◌, ◌≤◌, ◌≡◌, refl, ap, ◌∙◌, ◌==◌,
  ==_iff, ◌||◌, ltb, if◌then◌else◌, bit_or, List, [], ◌∷◌, get_or, ok, arith,
}
use mimo26f_afd.BitOr.{bit_or-next, bit_or-zero}
use mimo26f_afd.Image.Base64.{Sextets, digit, decode_loop, build_table, invalid, skip, pad}

-- RFC 4648's character of a digit.
abbrev pub char_of : ℕ → ℕ
char_of v =
    if ltb v 26
    then b'A' + v
    else if ltb v 52
    then b'a' + (v - 26)
    else if ltb v 62
    then b'0' + (v - 52)
    else if v == 62
    then b'+'
    else b'/'

-- A test of `count` numbers from `low` on.
run_of : (ℕ → Bool) → ℕ → ℕ → Bool
run_of test low zero = true
run_of test low (suc count) =
    let rest = run_of test (suc low) count in if test low then rest else false

run_of-member :
    (test : ℕ → Bool) (low count c : ℕ)
    → run_of test low count ≡ true
    → low ≤ c
    → c < low + count
    → test c ≡ true
unfolding run_of
run_of-member test low zero c all from to = absurd (omega arith)
run_of-member test low (suc count) c all from to =
    ground (arith, run_of-member test (suc low) count c)

table_digits : run_of (λ v. get_or build_table (char_of v) invalid == v) 0 64 ≡ true
unfolding run_of build_table
table_digits = refl

pub table-char_of : (v : ℕ) → v < 64 → get_or build_table (char_of v) invalid ≡ v
table-char_of v h = (==_iff _ v).0 (run_of-member _ 0 64 v table_digits (omega arith) (omega arith))

pub table-pad : get_or build_table b'=' invalid ≡ pad
unfolding build_table
table-pad = refl

-- A digit goes below the digits held.
pub bit_or-sextet : (a v : ℕ) → a < 2 ^ 18 → v < 64 → bit_or (a * 2 ^ 6 % 2 ^ 32) v ≡ a * 64 + v
bit_or-sextet a v h g =
    let whole : a * 2 ^ 6 % 2 ^ 32 ≡ 2 * (2 * (2 * (2 * (2 * (2 * a))))) = omega arith in
    let none_left : v / 2 / 2 / 2 / 2 / 2 / 2 ≡ 0 = omega arith in
    let low : bit_or a (v / 2 / 2 / 2 / 2 / 2 / 2) ≡ a = ap (bit_or a) none_left ∙ bit_or-zero a in
    let r = bit_or-next _ v _ (
      bit_or-next _ (v / 2) _ (
        bit_or-next _ (v / 2 / 2) _ (
          bit_or-next _ (v / 2 / 2 / 2) _ (
            bit_or-next _ (v / 2 / 2 / 2 / 2) _ (bit_or-next a (v / 2 / 2 / 2 / 2 / 2) _ low))))) in
    ap (λ x. bit_or x v) whole ∙ (r ∙ omega arith)

-- The whitespace of ASCII.
abbrev pub is_space : ℕ → Bool
is_space c = c == 0x20 || (c == 0x09 || (c == 0x0a || (c == 0x0b || (c == 0x0c || c == 0x0d))))

abbrev skips : ℕ → Bool
skips c = if is_space c then get_or build_table c invalid == skip else true

table_spaces : run_of skips 0 33 ≡ true
unfolding run_of build_table
table_spaces = refl

pub table-is_space : (c : ℕ) → is_space c ≡ true → get_or build_table c invalid ≡ skip
table-is_space c h =
    let small : c < 33 = ground arith in
    let all = run_of-member skips 0 33 c table_spaces (omega arith) (omega arith) in
    (==_iff _ skip).0 (rw h at all)

pub decode_loop-char_of :
    (i : ℕ) (s : Sextets) (v : ℕ) (rest : List ℕ)
    → v < 64
    → s.pads ≡ 0
    → decode_loop i s (char_of v ∷ rest) ≡ decode_loop (i + 1) (digit s v) rest
unfolding decode_loop
decode_loop-char_of i s v rest h none_yet =
    let value = table-char_of v h in
    let low : ltb v 64 ≡ true = ground arith in
    let no_pad : ltb 0 s.pads ≡ false = ground arith in rw value (rw low (rw no_pad refl))

pub decode_loop-pad :
    (i : ℕ) (s : Sextets) (rest : List ℕ)
    → decode_loop i s (b'=' ∷ rest) ≡ decode_loop (i + 1) (record s { pads = s.pads + 1 }) rest
unfolding decode_loop
decode_loop-pad i s rest = rw table-pad refl

-- The same text with whitespace put in anywhere.
pub data Spaced : List ℕ → List ℕ → Type 0 where
  done : Spaced [] []
  keep : {xs ys : List ℕ} (c : ℕ) → Spaced xs ys → Spaced (c ∷ xs) (c ∷ ys)
  space : {xs ys : List ℕ} (c : ℕ) → is_space c ≡ true → Spaced xs ys → Spaced xs (c ∷ ys)

pub decode_loop-Spaced :
    {xs ys : List ℕ}
    → Spaced xs ys
    → (i j : ℕ) (s r : Sextets) → decode_loop i s xs ≡ ok r
    → decode_loop j s ys ≡ ok r
unfolding decode_loop
decode_loop-Spaced done i j s r h = h
decode_loop-Spaced (keep c p) i j s r h = ground (
  arith,
  decode_loop-Spaced p (i + 1) (j + 1) (digit s (get_or build_table c invalid)) r,
  decode_loop-Spaced p (i + 1) (j + 1) s r,
  decode_loop-Spaced p (i + 1) (j + 1) (record s { pads = s.pads + 1 }) r,
)
decode_loop-Spaced (space c white p) i j s r h =
    let value = table-is_space c white in rw value (decode_loop-Spaced p i (j + 1) s r h)

pub decode_loop-end : (i : ℕ) (s : Sextets) → decode_loop i s [] ≡ ok s
unfolding decode_loop
decode_loop-end i s = refl
