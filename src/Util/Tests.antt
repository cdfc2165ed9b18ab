-- ===== src/Util/Tests.antt =====
-- Inputs that meet the hypotheses of the theorems about the codecs, and runs.
use libnode.Base.{◌+◌, ◌≤◌, ◌≡◌, refl, none, some, codes, length, arith}
use libnode.Util.Percent.{
  percent_encode, percent_decode, buffer_length, is_unreserved, encode_into, encode_loop,
  encode_byte, escape, decode_loop, c_string,
}
use libnode.Util.Reference.{percent_encode-bounds}
use libnode.Util.Roundtrip.{percent_decode-percent_encode}

spaced_encoded : percent_encode (codes "a b") ≡ codes "a%20b"
unfolding percent_encode encode_into encode_loop encode_byte escape is_unreserved
spaced_encoded = refl

-- The room wraps around at the second byte, and the third is written all the same.
wrapped_encoded : percent_encode (codes "///") ≡ codes "%2F%2F%2F"
unfolding percent_encode encode_into encode_loop encode_byte escape is_unreserved
wrapped_encoded = refl

four_encoded : percent_encode (codes "////") ≡ codes "%2F%2F%2"
unfolding percent_encode encode_into encode_loop encode_byte escape is_unreserved
four_encoded = refl

percent_encode-bounds_example :
    length (percent_encode (codes "///")) + 1 ≤ buffer_length (codes "///")
percent_encode-bounds_example = percent_encode-bounds (codes "///") (omega arith)

percent_decode-percent_encode_example :
    percent_decode (λ t. t) (percent_encode (codes "a b")) ≡ some (codes "a b")
unfolding is_unreserved
percent_decode-percent_encode_example =
    percent_decode-percent_encode (λ t. t) (codes "a b")
      (omega arith, (omega arith, (omega arith, tt))) (omega arith) (omega arith) refl

lone_percent : percent_decode (λ t. t) (codes "a%") ≡ some (codes "a")
unfolding percent_decode decode_loop c_string
lone_percent = refl

-- The decoder reads behind the end mark.
short_escape : percent_decode (λ t. t) (codes "a%2") ≡ none
unfolding percent_decode decode_loop c_string
short_escape = refl
