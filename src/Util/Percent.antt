-- ===== src/Util/Percent.antt =====
-- percentEncode() and percentDecode() (src/util.cpp). The room that is left in the buffer is a
-- Size, a word of 64 bits, and its subtractions wrap around.
use libnode.Base.{
  ℕ, ◌+◌, ◌-◌, ◌*◌, ◌/◌, ◌%◌, Bool, ◌&&◌, ◌||◌, Option, none, some, [], ◌∷◌, ◌++◌, ltb, leb,
  if◌then◌else◌, ◌==◌, length,
}
use libnode.Net.Socket.State.{Bytes}

abbrev pub word : ℕ
word = 18446744073709551616

-- `room -= k`.
abbrev pub sub_word : ℕ → ℕ → ℕ
sub_word room k = if leb k room then room - k else room + word - k

unfoldable pub is_unreserved : ℕ → Bool
is_unreserved c =
    (leb 65 c && leb c 90)
    || (leb 97 c && leb c 122)
    || (leb 48 c && leb c 57)
    || (c == 45)
    || (c == 46)
    || (c == 95)
    || (c == 126)

abbrev pub hex_char : ℕ → ℕ
hex_char v = if leb 16 v then 48 else if ltb v 10 then v + 48 else v - 10 + 65

-- The escape of a byte within the room: what is written, and the room that is left at the end of
-- the round, unless the loop breaks.
unfoldable pub escape : ℕ → ℕ → Bytes × Option ℕ
escape room c =
    let first = sub_word room 1 in
    let second = sub_word first 1 in
    if first == 0
    then (37 ∷ [], none)
    else if second == 0
    then (37 ∷ hex_char (c / 16) ∷ [], none)
    else (37 ∷ hex_char (c / 16) ∷ hex_char (c % 16) ∷ [], some (sub_word (sub_word second 2) 1))

-- One round of the loop.
unfoldable pub encode_byte : ℕ → ℕ → Bytes × Option ℕ
encode_byte room c = if is_unreserved c then (c ∷ [], some (sub_word room 1)) else escape room c

abbrev pub go_on : Bytes × Option ℕ → (ℕ → Bytes) → Bytes
go_on (bytes, none) rest = bytes
go_on (bytes, some left) rest = bytes ++ rest left

-- The loop of percentEncode(), on the rest of the source.
unfoldable pub encode_loop : Bytes → ℕ → Bytes
encode_loop [] room = []
encode_loop (c ∷ cs) room =
    if room == 0 then [] else go_on (encode_byte room c) (λ left. encode_loop cs left)

-- percentEncode() into a buffer of a length.
unfoldable pub encode_into : ℕ → Bytes → Bytes
encode_into len source = encode_loop source (sub_word len 1)

-- percentEncode() of the bytes of a text.
abbrev pub buffer_length : Bytes → ℕ
buffer_length source = (length source * 3 + 1) % word

unfoldable pub percent_encode : Bytes → Bytes
percent_encode source = encode_into (buffer_length source) source

unfoldable pub hex_value : ℕ → ℕ
hex_value c =
    if leb 48 c && leb c 57
    then c - 48
    else if leb 65 c && leb c 70
    then c - 65 + 10
    else if leb 97 c && leb c 102
    then c - 97 + 10
    else 0

abbrev pub cons_ok : ℕ → Option Bytes → Option Bytes
cons_ok c none = none
cons_ok c (some bs) = some (c ∷ bs)

-- The loop of percentDecode(), on the rest of the source up to its end mark; `none` is a read behind
-- that mark.
unfoldable pub decode_loop : Bytes → ℕ → Option Bytes
decode_loop [] room = some []
decode_loop (c ∷ []) room =
    if room == 0
    then some []
    else if c == 37
    then some []
    else some ((if c == 43 then 32 else c) ∷ [])
decode_loop (c ∷ d ∷ []) room =
    if room == 0
    then some []
    else if c == 37
    then none
    else cons_ok (if c == 43 then 32 else c) (decode_loop (d ∷ []) (sub_word room 1))
decode_loop (c ∷ d ∷ e ∷ cs) room =
    let escaped = λ (u : Unit {0}). decode_loop cs (sub_word room 1) in
    let plain = λ (u : Unit {0}). decode_loop (d ∷ e ∷ cs) (sub_word room 1) in
    if room == 0
    then some []
    else if c == 37
    then cons_ok ((hex_value d * 16 + hex_value e) % 256) (escaped tt)
    else cons_ok (if c == 43 then 32 else c) (plain tt)

-- A C string: the bytes before the first end mark.
unfoldable pub c_string : Bytes → Bytes
c_string [] = []
c_string (c ∷ cs) = if c == 0 then [] else c ∷ c_string cs

-- percentDecode() of a text, where `to_std` is String::toStdString(): the bytes that String::create()
-- makes a text of, in the encoding that is asked for.
unfoldable pub percent_decode : (Bytes → Bytes) → Bytes → Option Bytes
percent_decode to_std [] = some []
percent_decode to_std (c ∷ str) =
    decode_loop (c_string (to_std (c ∷ str))) (sub_word (length (c ∷ str) + 1) 1)
