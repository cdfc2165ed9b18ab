-- ===== src/Util/Reference.antt =====
-- What percentEncode() is to write, without a bound, and how much room its loop takes for that.
use libnode.Base.{
  ℕ, ◌+◌, ◌-◌, ◌*◌, ◌/◌, ◌%◌, ◌≤◌, ◌<◌, ◌≡◌, refl, false, Option, none, some, [], ◌∷◌, ◌++◌, arith,
  length, length-append, if◌then◌else◌, ◌==◌,
}
use libnode.Net.Socket.State.{Bytes}
use libnode.Util.Percent.{
  sub_word, is_unreserved, hex_char, escape, encode_byte, go_on, encode_loop, encode_into,
  buffer_length, percent_encode, word,
}

abbrev pub written : ℕ → Bytes
written c = if is_unreserved c then c ∷ [] else 37 ∷ hex_char (c / 16) ∷ hex_char (c % 16) ∷ []

-- Each byte as it is or escaped.
abbrev pub encode_all : Bytes → Bytes
encode_all [] = []
encode_all (c ∷ cs) = written c ++ encode_all cs

-- The room that the loop takes for a byte.
abbrev pub price : ℕ → ℕ
price c = if is_unreserved c then 1 else 5

abbrev pub need : Bytes → ℕ
need [] = 0
need (c ∷ cs) = price c + need cs

encode_byte_lem :
    (room c : ℕ) → price c ≤ room → encode_byte room c ≡ (written c, some (room - price c))
unfolding encode_byte escape
encode_byte_lem room c h = ground arith

price_pos : (c : ℕ) → 1 ≤ price c
price_pos c = ground arith

has_room : (room c : ℕ) → price c ≤ room → (room == 0) ≡ false
has_room room c h = ground (arith, price_pos c)

-- With the room that the bytes need, the loop writes each byte as it is or escaped.
pub encode_loop-encode_all :
    (s : Bytes) (room : ℕ) → need s ≤ room → encode_loop s room ≡ encode_all s
unfolding encode_loop
encode_loop-encode_all [] room h = refl
encode_loop-encode_all (c ∷ cs) room h =
    let fits : price c ≤ room = omega (arith, h) in
    let rest : need cs ≤ room - price c = omega (arith, h) in
    rw
      (
        has_room room c fits,
        encode_byte_lem room c fits,
        encode_loop-encode_all cs (room - price c) rest,
      )
      refl

length-encode_byte : (room c : ℕ) → length (encode_byte room c).0 ≤ 3
unfolding encode_byte escape
length-encode_byte room c = ground arith

length-go_on :
    (r : Bytes × Option ℕ) (rest : ℕ → Bytes) (k : ℕ)
    → length r.0 ≤ 3
    → ((left : ℕ) → length (rest left) ≤ k)
    → length (go_on r rest) ≤ 3 + k
length-go_on (bytes, none) rest k h g = omega (arith, h)
length-go_on (bytes, some left) rest k h g =
    omega (arith, length-append bytes (rest left), h, g left)

-- The loop writes at most three bytes for each byte of the source, wherever it stops.
pub length-encode_loop : (s : Bytes) (room : ℕ) → length (encode_loop s room) ≤ 3 * length s
unfolding encode_loop
length-encode_loop [] room = omega arith
length-encode_loop (c ∷ cs) room =
    let rest =
      length-go_on (encode_byte room c) (λ left. encode_loop cs left) (3 * length cs)
        (length-encode_byte room c) (λ left. length-encode_loop cs left) in
    ground (arith, rest)

-- percentEncode() of a text writes no more than its buffer has room for, with the end mark, although
-- the room that is left may wrap around.
pub percent_encode-bounds :
    (s : Bytes) → length s * 3 + 1 < word → length (percent_encode s) + 1 ≤ buffer_length s
unfolding percent_encode encode_into
percent_encode-bounds s h = omega (arith, length-encode_loop s (sub_word (buffer_length s) 1))
