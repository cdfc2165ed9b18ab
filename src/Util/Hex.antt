-- ===== src/Util/Hex.antt =====
-- hexEncode() and hexDecode() (src/util.cpp).
use libnode.Base.{
  ℕ, ◌+◌, ◌-◌, ◌*◌, ◌/◌, ◌%◌, ◌<◌, ◌≡◌, refl, ap, ◌∙◌, ◌&&◌, Option, none, some, [], ◌∷◌, arith,
  ltb, leb, if◌then◌else◌, ◌>>=◌,
}
use mathlib.Core.Path.{subst}
use libnode.Net.Socket.State.{Bytes}

-- A digit from 0 to 15.
abbrev pub hex_digit : ℕ → ℕ
hex_digit n = if ltb n 10 then n + 48 else n - 10 + 97

unfoldable pub hex_encode : Bytes → Bytes
hex_encode [] = []
hex_encode (b ∷ bs) = hex_digit (b / 16) ∷ hex_digit (b % 16) ∷ hex_encode bs

-- decodeHex(): lower case only.
unfoldable pub decode_hex : ℕ → Option ℕ
decode_hex c =
    if leb 48 c && leb c 57
    then some (c - 48)
    else if leb 97 c && leb c 102
    then some (c - 97 + 10)
    else none

abbrev pub decode_pair : ℕ → ℕ → Option ℕ
decode_pair c d = decode_hex c >>= λ m. decode_hex d >>= λ l. some (m * 16 + l)

abbrev pub cons_both : Option ℕ → Option Bytes → Option Bytes
cons_both none bs = none
cons_both (some b) none = none
cons_both (some b) (some bs) = some (b ∷ bs)

-- hexDecode(): `none` is null, also for a text of odd length.
unfoldable pub hex_decode : Bytes → Option Bytes
hex_decode [] = some []
hex_decode (c ∷ []) = none
hex_decode (c ∷ d ∷ cs) = cons_both (decode_pair c d) (hex_decode cs)

abbrev pub AllBytes : Bytes → Type 0
AllBytes [] = Unit {0}
AllBytes (b ∷ bs) = (b < 256) × AllBytes bs

decode_hex-hex_digit : (n : ℕ) → n < 16 → decode_hex (hex_digit n) ≡ some n
unfolding decode_hex
decode_hex-hex_digit n h = ground arith

decode_pair-hex_digit :
    (b : ℕ) → b < 256 → decode_pair (hex_digit (b / 16)) (hex_digit (b % 16)) ≡ some b
decode_pair-hex_digit b h =
    rw (decode_hex-hex_digit (b / 16) (omega arith), decode_hex-hex_digit (b % 16) (omega arith))
      (ap some (omega arith))

hex_decode-hex_encode : (bs : Bytes) → AllBytes bs → hex_decode (hex_encode bs) ≡ some bs
unfolding hex_decode hex_encode
hex_decode-hex_encode [] a = refl
hex_decode-hex_encode (b ∷ bs) a =
    rw (decode_pair-hex_digit b a.0, hex_decode-hex_encode bs a.1) refl

hex_digit-decode_hex : (c n : ℕ) → decode_hex c ≡ some n → (hex_digit n ≡ c) × (n < 16)
unfolding decode_hex
hex_digit-decode_hex c n h = ground arith

digits_back :
    (c d m l b : ℕ)
    → decode_hex c ≡ some m
    → decode_hex d ≡ some l
    → m * 16 + l ≡ b
    → (hex_digit (b / 16) ≡ c) × (hex_digit (b % 16) ≡ d) × (b < 256)
digits_back c d m l b hc hd hb =
    let high = hex_digit-decode_hex c m hc in
    let low = hex_digit-decode_hex d l hd in
    let div : b / 16 ≡ m = omega (arith, low.1, hb) in
    let rem : b % 16 ≡ l = omega (arith, low.1, hb) in
    (ap hex_digit div ∙ high.0, ap hex_digit rem ∙ low.0, omega (arith, high.1, low.1, hb))

pair_back :
    (c d b : ℕ)
    → decode_pair c d ≡ some b
    → (hex_digit (b / 16) ≡ c) × (hex_digit (b % 16) ≡ d) × (b < 256)
pair_back c d b h = go (decode_hex c) (decode_hex d) refl refl h
  where
    go :
        (o o' : Option ℕ)
        → decode_hex c ≡ o
        → decode_hex d ≡ o'
        → o >>= (λ m. o' >>= λ l. some (m * 16 + l)) ≡ some b
        → (hex_digit (b / 16) ≡ c) × (hex_digit (b % 16) ≡ d) × (b < 256)
    go none o' e e' h = absurd (cc)
    go (some m) none e e' h = absurd (cc)
    go (some m) (some l) e e' h = digits_back c d m l b e e' (cc)

hex_encode-hex_decode : (t bs : Bytes) → hex_decode t ≡ some bs → (hex_encode bs ≡ t) × AllBytes bs
unfolding hex_decode hex_encode
hex_encode-hex_decode [] bs h =
    let same : [] ≡ bs = cc in subst (λ l. (hex_encode l ≡ []) × AllBytes l) same (refl, tt)
hex_encode-hex_decode (c ∷ []) bs h = absurd (cc)
hex_encode-hex_decode (c ∷ d ∷ cs) bs h =
    go (decode_pair c d) (hex_decode cs) bs refl (λ r e. hex_encode-hex_decode cs r e) h
  where
    go :
        (p : Option ℕ) (o : Option Bytes) (bs : Bytes)
        → decode_pair c d ≡ p
        → ((r : Bytes) → o ≡ some r → (hex_encode r ≡ cs) × AllBytes r)
        → cons_both p o ≡ some bs
        → (hex_encode bs ≡ c ∷ d ∷ cs) × AllBytes bs
    go none o bs e ih h = absurd (cc)
    go (some b) none bs e ih h = absurd (cc)
    go (some b) (some r) bs e ih h =
        let back = pair_back c d b e in
        let rest = ih r refl in
        let same : b ∷ r ≡ bs = cc in
        subst (λ l. (hex_encode l ≡ c ∷ d ∷ cs) × AllBytes l) same
          ((rw (back.0, back.1, rest.0) refl, (back.2, rest.1)))

-- hexEncode() and hexDecode() undo each other: bytes that are encoded are decoded to themselves, and
-- a text that is decoded is the encoding of the result, which is bytes.
hex_round_trip :
    (bs t r : Bytes)
    → AllBytes bs
    → hex_decode t ≡ some r
    → (hex_decode (hex_encode bs) ≡ some bs) × (hex_encode r ≡ t) × AllBytes r
hex_round_trip bs t r a h =
    let back = hex_encode-hex_decode t r h in (hex_decode-hex_encode bs a, back.0, back.1)
