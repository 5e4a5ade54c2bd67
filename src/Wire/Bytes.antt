-- ===== src/Wire/Bytes.antt =====
-- Little-endian fields in a byte buffer: the put and get helpers of crates/mimo26-wire/src/frame.rs.
use mimo26f_afd.Prelude.{
  ℕ, zero, suc, ◌+◌, ◌*◌, ◌/◌, ◌%◌, ◌^◌, ◌≤◌, ◌<◌, ◌≡◌, refl, ap, ◌∙◌, Bool-cases, inl, inr, arith,
  leb, if◌then◌else◌, List, [], ◌∷◌, ◌++◌, length, length-append, drop-append_left,
  take-append_left, length-drop, take, drop, Result, ok, err,
}
use mimo26f_afd.Word.{add64}
use mimo26f_afd.Wire.Error.{WireError, too_short}

-- `to_le_bytes` of a number of `w` bytes.
abbrev pub to_le_bytes : ℕ → ℕ → List ℕ
to_le_bytes zero v = []
to_le_bytes (suc w) v = v % 256 ∷ to_le_bytes w (v / 256)

-- `from_le_bytes`
unfoldable pub from_le_bytes : List ℕ → ℕ
from_le_bytes [] = 0
from_le_bytes (b ∷ bs) = b + 256 * from_le_bytes bs

-- `out[at..at + v.len()].copy_from_slice(v)`, as put_u16, put_u32 and put_u64 call it
abbrev pub put : List ℕ → ℕ → List ℕ → List ℕ
put out at v = take at out ++ (v ++ drop (at + length v) out)

-- get_u16, get_u32, get_u64 and get_f32 by the width. A slice is shorter than 2 ^ 64 bytes, so a sum
-- that `checked_add` refuses is beyond the length too.
pub get : ℕ → List ℕ → ℕ → Result WireError ℕ
get w bytes at =
    if leb (at + w) (length bytes)
    then ok (from_le_bytes (take w (drop at bytes)))
    else err (too_short (add64 at w) (length bytes))

pub from_le_bytes-cons : (b : ℕ) (bs : List ℕ) → from_le_bytes (b ∷ bs) ≡ b + 256 * from_le_bytes bs
unfolding from_le_bytes
from_le_bytes-cons b bs = refl

pub from_le_bytes-to_le_bytes : (w v : ℕ) → v < 256 ^ w → from_le_bytes (to_le_bytes w v) ≡ v
unfolding from_le_bytes
from_le_bytes-to_le_bytes zero v h = omega arith
from_le_bytes-to_le_bytes (suc w) v h =
    omega (arith, from_le_bytes-to_le_bytes w (v / 256) (omega arith))

pub length-to_le_bytes : (w v : ℕ) → length (to_le_bytes w v) ≡ w
length-to_le_bytes zero v = refl
length-to_le_bytes (suc w) v = ap suc (length-to_le_bytes w (v / 256))

-- A field whose bytes stand at its place reads back.
pub get_field :
    (w at v : ℕ) (bytes : List ℕ)
    → v < 256 ^ w
    → at + w ≤ length bytes
    → take w (drop at bytes) ≡ to_le_bytes w v
    → get w bytes at ≡ ok v
unfolding get
get_field w at v bytes h fits e = elim (Bool-cases (leb (at + w) (length bytes))) [
  | inl fit ↦ rw (fit, e, from_le_bytes-to_le_bytes w v h) refl
  | inr cut ↦ absurd (ground arith)
]

-- A slice that stands in the middle of a buffer.
pub take-drop_middle :
    (pre xs post : List ℕ) → take (length xs) (drop (length pre) (pre ++ (xs ++ post))) ≡ xs
take-drop_middle [] [] post = refl
take-drop_middle [] (x ∷ xs) post = ap (λ l. x ∷ l) (take-drop_middle [] xs post)
take-drop_middle (p ∷ pre) xs post = take-drop_middle pre xs post

-- `b` holds the value `v` of `w` bytes at `at`.
abbrev pub Holds : List ℕ → ℕ → ℕ → ℕ → Type 0
Holds b w at v = (at + w ≤ length b) × (take w (drop at b) ≡ to_le_bytes w v)

pub get-Holds : (b : List ℕ) (w at v : ℕ) → v < 256 ^ w → Holds b w at v → get w b at ≡ ok v
get-Holds b w at v small (fits, e) = get_field w at v b small fits e

pub Holds-append : (b rest : List ℕ) (w at v : ℕ) → Holds b w at v → Holds (b ++ rest) w at v
Holds-append b rest w at v (fits, e) = (
  omega (arith, length-append b rest),
  ap (take w) (drop-append_left at b rest (omega arith))
      ∙ (take-append_left w (drop at b) rest (omega (arith, length-drop at b)) ∙ e),
)

pub length-append_middle :
    (pre xs post : List ℕ) → length (pre ++ (xs ++ post)) ≡ length pre + (length xs + length post)
length-append_middle pre xs post =
    omega (arith, length-append pre (xs ++ post), length-append xs post)
