-- ===== src/Http/Message/Told.antt =====
-- The text of the header that storeHeader() composes.
use libnode.Base.{◌≡◌, Bool, not, ◌&&◌, ◌||◌, some, List, [], ◌∷◌, ◌++◌, codes, if◌then◌else◌}
use libnode.Net.Socket.State.{Bytes}
use libnode.Http.Message.State.{Codec, HeaderValue, one, many, Message}
use libnode.Http.Message.Head.{keeps_alive}

abbrev pub line_of : Bytes → Bytes → Bytes
line_of field value = field ++ (codes ": " ++ (value ++ (13 ∷ 10 ∷ [])))

abbrev pub many_lines : Bytes → List Bytes → Bytes
many_lines field [] = []
many_lines field (v ∷ vs) = line_of field v ++ many_lines field vs

abbrev pub value_lines : Bytes → HeaderValue → Bytes
value_lines field (one v) = line_of field v
value_lines field (many vs) = many_lines field vs

-- The lines of the headers that are given, in their order, an array being a line for each value.
abbrev pub given_lines : List (Bytes × HeaderValue) → Bytes
given_lines [] = []
given_lines ((field, v) ∷ hs) = value_lines field v ++ given_lines hs

-- The Date line that is added, with the date, unless one is given or none is wanted.
abbrev pub date_line : Bool → Bytes → Bytes
date_line added date = if added then line_of (codes "Date") date else []

-- The Connection line that is added unless one is given.
abbrev pub connection_line : Bool → Bool → Bytes
connection_line given alive =
    if given
    then []
    else if alive
    then line_of (codes "Connection") (codes "keep-alive")
    else line_of (codes "Connection") (codes "close")

-- The Transfer-Encoding line that is added to a message that has a body and is chunked by default,
-- unless it or a Content-Length is given.
abbrev pub framing_line : Bool → Bool → Bool → Bytes
framing_line given body default =
    if not given && (body && default)
    then line_of (codes "Transfer-Encoding") (codes "chunked")
    else []

-- The header of `t` has the first line, the given lines, the lines that are added, and an empty one.
abbrev pub Told :
    {P : Type 0} → Bytes → List (Bytes × HeaderValue) → Bytes → Message P → Bool → Bool → Type 0
Told first_line hs date t body default =
    t.header
    ≡ some (
        first_line
        ++ (given_lines hs
            ++ (date_line (t.send_date && not t.sent_date) date
                ++ (connection_line t.sent_connection (keeps_alive t)
                    ++ (framing_line (t.sent_content_length || t.sent_transfer_encoding) body
                          default
                        ++ (13 ∷ 10 ∷ []))))))

module _ {P : Type 0} (cd : Codec) where
  -- The flags that the added lines depend on.
  abbrev Alike : Message P → Message P → Type 0
  Alike m t =
      (t.sent_connection ≡ m.sent_connection)
      × (keeps_alive t ≡ keeps_alive m)
      × (t.sent_content_length ≡ m.sent_content_length)
      × (t.sent_transfer_encoding ≡ m.sent_transfer_encoding)
      × (t.send_date ≡ m.send_date)
      × (t.sent_date ≡ m.sent_date)
      × (t.has_body ≡ m.has_body)
      × (t.use_chunked_by_default ≡ m.use_chunked_by_default)
