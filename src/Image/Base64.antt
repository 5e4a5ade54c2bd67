-- ===== src/Image/Base64.antt =====
-- crates/mimo26-image/src/base64.rs: base64 payloads of data URLs. Each message of `bail!` is a
-- constructor with the values that the message shows.
pub mod RoundTrip
pub mod Step
mod Tests
use mimo26f_afd.Prelude.{
  ℕ, Bool, zero, suc, ◌+◌, ◌*◌, ◌/◌, ◌%◌, ◌^◌, ◌==◌, ltb, if◌then◌else◌, bit_or, List, [], ◌∷◌,
  ◌++◌, set, get_or, replicate, Result, ok, err,
}

-- The values of the table that are no digits.
abbrev pub invalid : ℕ
invalid = 0xff

abbrev pub skip : ℕ
skip = 0xfe

abbrev pub pad : ℕ
pad = 0xfd

-- `while i < 26`, with the rounds left.
letters : ℕ → ℕ → List ℕ → List ℕ
letters zero i t = t
letters (suc rounds) i t = letters rounds (i + 1) (set (set t (b'A' + i) i) (b'a' + i) (26 + i))

-- `while d < 10`, with the rounds left.
decimals : ℕ → ℕ → List ℕ → List ℕ
decimals zero d t = t
decimals (suc rounds) d t = decimals rounds (d + 1) (set t (b'0' + d) (52 + d))

pub build_table : List ℕ
unfolding letters decimals
build_table =
    let t = decimals 10 0 (letters 26 0 (replicate 256 invalid)) in
    let t = set (set (set (set t b'+' 62) b'-' 62) b'/' 63) b'_' 63 in
    let t = set (set (set t b'=' pad) 0x20 skip) 0x09 skip in
    set (set (set (set t 0x0a skip) 0x0d skip) 0x0b skip) 0x0c skip

pub data Base64Error : Type 0 where
  after_padding : ℕ → Base64Error
  invalid_byte : ℕ → ℕ → Base64Error
  truncated : Base64Error
  bad_padding : Base64Error

-- The variables of the loop: `acc`, `n`, `pads` and `out`.
pub record Sextets : Type 0 where
  pub acc : ℕ
  pub n : ℕ
  pub pads : ℕ
  pub out : List ℕ

-- One digit of value `v`.
pub digit : Sextets → ℕ → Sextets
digit s v =
    let acc = bit_or (s.acc * 2 ^ 6 % 2 ^ 32) v in
    if s.n + 1 == 4
    then record {
      acc = 0;
      n = 0;
      pads = s.pads;
      out = s.out ++ (acc / 2 ^ 16 % 256 ∷ acc / 2 ^ 8 % 256 ∷ acc % 256 ∷ []);
    }
    else record s { acc = acc; n = s.n + 1 }

pub decode_loop : ℕ → Sextets → List ℕ → Result Base64Error Sextets
unfolding digit
decode_loop i s [] = ok s
decode_loop i s (c ∷ input) =
    let v = get_or build_table c invalid in
    let more = decode_loop (i + 1) (digit s v) input in
    let same = decode_loop (i + 1) s input in
    let padded = decode_loop (i + 1) (record s { pads = s.pads + 1 }) input in
    if ltb v 64
    then (if ltb 0 s.pads then err (after_padding i) else more)
    else if v == skip
    then same
    else if v == pad
    then padded
    else err (invalid_byte c i)

-- `match (n, pads)`
pub finish : Sextets → Result Base64Error (List ℕ)
finish s =
    if s.n == 0
    then (if s.pads == 0 then ok s.out else err bad_padding)
    else if s.n == 1
    then err truncated
    else if s.n == 2
    then (if s.pads == 0
        then ok (s.out ++ (s.acc / 2 ^ 4 % 256 ∷ []))
        else if s.pads == 2
        then ok (s.out ++ (s.acc / 2 ^ 4 % 256 ∷ []))
        else err bad_padding)
    else if s.n == 3
    then (if s.pads == 0
        then ok (s.out ++ (s.acc / 2 ^ 10 % 256 ∷ s.acc / 2 ^ 2 % 256 ∷ []))
        else if s.pads == 1
        then ok (s.out ++ (s.acc / 2 ^ 10 % 256 ∷ s.acc / 2 ^ 2 % 256 ∷ []))
        else err bad_padding)
    else err bad_padding

unfoldable pub decode : List ℕ → Result Base64Error (List ℕ)
unfolding decode_loop finish build_table
decode input = elim (decode_loop 0 (record { acc = 0; n = 0; pads = 0; out = [] }) input) [
  | err e ↦ err e
  | ok s ↦ finish s
]
