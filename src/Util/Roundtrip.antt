-- ===== src/Util/Roundtrip.antt =====
-- percentDecode() of what percentEncode() wrote.
use libnode.Base.{
  ℕ, ◌+◌, ◌-◌, ◌*◌, ◌/◌, ◌%◌, ◌≤◌, ◌<◌, ◌≡◌, refl, ap, ◌∙◌, true, false, some, [], ◌∷◌, arith,
  length, length-append, Bool-cases, inl, inr, ◌==◌,
}
use libnode.Net.Socket.State.{Bytes}
use libnode.Util.Hex.{AllBytes}
use libnode.Util.Percent.{
  sub_word, is_unreserved, hex_char, hex_value, escape, encode_byte, encode_loop, encode_into,
  buffer_length, percent_encode, cons_ok, decode_loop, c_string, percent_decode, word,
}
use libnode.Util.Reference.{
  written, encode_all, need, encode_loop-encode_all, percent_encode-bounds,
}

hex_value-hex_char : (v : ℕ) → v < 16 → hex_value (hex_char v) ≡ v
unfolding hex_value
hex_value-hex_char v h = ground arith

decode_plain :
    (c : ℕ) (rest : Bytes) (room : ℕ)
    → is_unreserved c ≡ true
    → 1 ≤ room
    → decode_loop (c ∷ rest) room ≡ cons_ok c (decode_loop rest (room - 1))
unfolding decode_loop is_unreserved
decode_plain c [] room u h = ground arith
decode_plain c (d ∷ []) room u h = ground arith
decode_plain c (d ∷ e ∷ rest) room u h = ground arith

decode_escaped :
    (c : ℕ) (rest : Bytes) (room : ℕ)
    → c < 256
    → 1 ≤ room
    → decode_loop (37 ∷ hex_char (c / 16) ∷ hex_char (c % 16) ∷ rest) room
      ≡ cons_ok c (decode_loop rest (room - 1))
unfolding decode_loop
decode_escaped c rest room b h =
    let high = hex_value-hex_char (c / 16) (omega arith) in
    let low = hex_value-hex_char (c % 16) (omega arith) in ground (arith, high, low)

decode_loop-encode_all :
    (s : Bytes) (room : ℕ) → AllBytes s → length s ≤ room → decode_loop (encode_all s) room ≡ some s
unfolding decode_loop
decode_loop-encode_all [] room a h = refl
decode_loop-encode_all (c ∷ cs) room a h =
    let rest = decode_loop-encode_all cs (room - 1) a.1 (omega (arith, h)) in
    elim (Bool-cases (is_unreserved c)) [
      | inl u ↦
          rw u (decode_plain c (encode_all cs) room u (omega (arith, h)) ∙ ap (cons_ok c) rest)
      | inr u ↦
          rw u (decode_escaped c (encode_all cs) room a.0 (omega (arith, h)) ∙ ap (cons_ok c) rest)
    ]

length-encode_all : (s : Bytes) → length s ≤ length (encode_all s)
length-encode_all [] = omega arith
length-encode_all (c ∷ cs) =
    omega
      (arith, length-append {0} (written c) (encode_all cs), length-written c, length-encode_all cs)
  where
    length-written : (c : ℕ) → 1 ≤ length (written c)
    length-written c = ground arith

hex_char-zero : (v : ℕ) → (hex_char v == 0) ≡ false
hex_char-zero v = ground arith

unreserved-zero : (c : ℕ) → is_unreserved c ≡ true → (c == 0) ≡ false
unfolding is_unreserved
unreserved-zero c h = ground arith

-- The encoding has no end mark in it.
c_string-encode_all : (s : Bytes) → c_string (encode_all s) ≡ encode_all s
unfolding c_string
c_string-encode_all [] = refl
c_string-encode_all (c ∷ cs) = elim (Bool-cases (is_unreserved c)) [
  | inl u ↦ rw (u, unreserved-zero c u) (ap (λ t. c ∷ t) (c_string-encode_all cs))
  | inr u ↦
      rw (u, hex_char-zero (c / 16), hex_char-zero (c % 16))
        (ap (λ t. 37 ∷ hex_char (c / 16) ∷ hex_char (c % 16) ∷ t) (c_string-encode_all cs))
]

decoded_whole :
    (to_std : Bytes → Bytes) (t s : Bytes)
    → to_std t ≡ t
    → c_string t ≡ t
    → decode_loop t (length t) ≡ some s
    → length t < word
    → percent_decode to_std t ≡ some s
unfolding percent_decode decode_loop
decoded_whole to_std [] s e z h b = h
decoded_whole to_std (c ∷ t) s e z h b =
    let room : sub_word (length (c ∷ t) + 1) 1 ≡ length (c ∷ t) = ground arith in rw (e, z, room) h

percent_encode_whole :
    (s : Bytes) → need s ≤ 3 * length s → length s * 3 + 1 < word → percent_encode s ≡ encode_all s
unfolding percent_encode encode_into
percent_encode_whole s h b =
    let room : sub_word (buffer_length s) 1 ≡ 3 * length s = ground arith in
    rw room (encode_loop-encode_all s (3 * length s) h)

-- A text of bytes at most half of which need an escape, whose buffer's length is a word, is decoded
-- to itself from its percent encoding, when toStdString() keeps that encoding, which is ASCII.
pub percent_decode-percent_encode :
    (to_std : Bytes → Bytes) (s : Bytes)
    → AllBytes s
    → need s ≤ 3 * length s
    → length s * 3 + 1 < word
    → to_std (percent_encode s) ≡ percent_encode s
    → percent_decode to_std (percent_encode s) ≡ some s
percent_decode-percent_encode to_std s a h b e =
    decoded_whole to_std (percent_encode s) s e
      (rw (percent_encode_whole s h b) (c_string-encode_all s))
      (rw (percent_encode_whole s h b)
        (decode_loop-encode_all s (length (encode_all s)) a (length-encode_all s)))
      (omega (arith, percent_encode-bounds s b))

second_cut :
    (a b : ℕ)
    → is_unreserved a ≡ false
    → is_unreserved b ≡ false
    → percent_encode (a ∷ b ∷ []) ≡ 37 ∷ hex_char (a / 16) ∷ hex_char (a % 16) ∷ 37 ∷ []
unfolding percent_encode encode_into encode_loop encode_byte escape
second_cut a b ha hb = rw (ha, hb) refl

decode_cut :
    (a : ℕ)
    → a < 256
    → decode_loop (37 ∷ hex_char (a / 16) ∷ hex_char (a % 16) ∷ 37 ∷ []) 4 ≡ some (a ∷ [])
unfolding decode_loop
decode_cut a small =
    let high = hex_value-hex_char (a / 16) (omega arith) in
    let low = hex_value-hex_char (a % 16) (omega arith) in ground (arith, high, low)

c_string_cut :
    (a : ℕ)
    → c_string (37 ∷ hex_char (a / 16) ∷ hex_char (a % 16) ∷ 37 ∷ [])
      ≡ 37 ∷ hex_char (a / 16) ∷ hex_char (a % 16) ∷ 37 ∷ []
unfolding c_string
c_string_cut a = rw (hex_char-zero (a / 16), hex_char-zero (a % 16)) refl

-- Of two bytes that both need an escape, the second is cut off behind its '%', and the decoding
-- gives the first alone.
percent_encode_cut :
    (a b : ℕ)
    → is_unreserved a ≡ false
    → is_unreserved b ≡ false
    → a < 256
    → (percent_encode (a ∷ b ∷ []) ≡ 37 ∷ hex_char (a / 16) ∷ hex_char (a % 16) ∷ 37 ∷ [])
      × (percent_decode (λ t. t) (percent_encode (a ∷ b ∷ [])) ≡ some (a ∷ []))
percent_encode_cut a b ha hb small =
    let cut = second_cut a b ha hb in
    let text = 37 ∷ hex_char (a / 16) ∷ hex_char (a % 16) ∷ 37 ∷ [] in
    (
      cut,
      rw cut (
          decoded_whole (λ t. t) text (a ∷ []) refl (c_string_cut a) (decode_cut a small)
            (omega arith)),
    )
