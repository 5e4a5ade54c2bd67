-- ===== src/Image/Base64/Tests.antt =====
-- The vectors of RFC 4648 and the rejections that the source tests.
use mimo26f_afd.Prelude.{ℕ, ◌≡◌, refl, List, [], ◌∷◌, ok, err, arith}
use mimo26f_afd.Image.Base64.{decode, after_padding, truncated, bad_padding, invalid_byte}
use mimo26f_afd.Image.Base64.Step.{Spaced, done, keep, space}
use mimo26f_afd.Image.Base64.RoundTrip.{encode, decode-encode}

-- "Zm9vYg==" with a space and a line feed.
abbrev foob : List ℕ
foob = b'Z' ∷ 0x20 ∷ b'm' ∷ b'9' ∷ b'v' ∷ b'Y' ∷ b'g' ∷ b'=' ∷ b'=' ∷ 0x0a ∷ []

foob-Spaced : Spaced (encode (b'f' ∷ b'o' ∷ b'o' ∷ b'b' ∷ [])) foob
foob-Spaced = keep b'Z' (
    space 0x20 refl (
      keep b'm' (
        keep b'9'
          (keep b'v' (keep b'Y' (keep b'g' (keep b'=' (keep b'=' (space 0x0a refl done)))))))))

decode-encode_example : decode foob ≡ ok (b'f' ∷ b'o' ∷ b'o' ∷ b'b' ∷ [])
decode-encode_example =
    decode-encode (b'f' ∷ b'o' ∷ b'o' ∷ b'b' ∷ []) foob
      (omega arith, (omega arith, (omega arith, (omega arith, tt)))) foob-Spaced

url_safe : decode (b'-' ∷ b'_' ∷ b'8' ∷ b'=' ∷ []) ≡ ok (0xfb ∷ 0xff ∷ [])
unfolding decode
url_safe = refl

one_sextet : decode (b'Z' ∷ []) ≡ err truncated
unfolding decode
one_sextet = refl

data_after_pad : decode (b'Z' ∷ b'g' ∷ b'=' ∷ b'a' ∷ []) ≡ err (after_padding 3)
unfolding decode
data_after_pad = refl

three_pads : decode (b'Z' ∷ b'g' ∷ b'=' ∷ b'=' ∷ b'=' ∷ []) ≡ err bad_padding
unfolding decode
three_pads = refl

no_digit : decode (b'Z' ∷ b'm' ∷ b'!' ∷ []) ≡ err (invalid_byte b'!' 2)
unfolding decode
no_digit = refl
