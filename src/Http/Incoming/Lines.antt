-- ===== src/Http/Incoming/Lines.antt =====
-- IncomingMessage::addHeaderLine() and setHeader().
use libnode.Base.{Bool, false, ◌||◌, Option, none, some, List, [], ◌∷◌, ◌++◌, codes, if◌then◌else◌}
use libnode.Net.Socket.State.{Bytes}
use libnode.Http.HeaderScanner.{to_lower, is_prefix}
use libnode.Http.Message.State.{HeaderValue, one, many}
use libnode.Http.Message.Head.{text_eq, put_value}
use libnode.Http.Incoming.State.{Incoming}

-- What becomes of several lines of one field: an array, one joined text, or the last one.
pub data FieldKind : Type 0 where
  listed joined single : FieldKind

unfoldable pub is_one_of : Bytes → List Bytes → Bool
is_one_of f [] = false
is_one_of f (k ∷ ks) = text_eq f k || is_one_of f ks

abbrev pub joined_fields : List Bytes
joined_fields =
    codes "accept"
    ∷ codes "accept-charset"
    ∷ codes "accept-encoding"
    ∷ codes "accept-language"
    ∷ codes "connection"
    ∷ codes "cookie"
    ∷ codes "pragma"
    ∷ codes "link"
    ∷ codes "www-authenticate"
    ∷ codes "proxy-authenticate"
    ∷ codes "sec-websocket-extensions"
    ∷ codes "sec-websocket-protocol"
    ∷ []

-- The tests of addHeaderLine().
unfoldable pub field_kind : Bytes → FieldKind
field_kind field =
    if text_eq field (codes "set-cookie")
    then listed
    else if is_prefix (codes "x-") field || is_one_of field joined_fields
    then joined
    else single

unfoldable pub get_value : Bytes → List (Bytes × HeaderValue) → Option HeaderValue
get_value k [] = none
get_value k ((k', v) ∷ rest) = if text_eq k' k then some v else get_value k rest

-- `dest->put(field, ...)`.
abbrev pub put_dest : Bytes → HeaderValue → Incoming → Incoming
put_dest field v m =
    if m.complete
    then record m { trailers = put_value field v m.trailers }
    else record m { headers = put_value field v m.headers }

-- An array that is there is changed where it stands, in `headers_`.
abbrev pub add_listed : Option HeaderValue → Bytes → Bytes → Incoming → Incoming
add_listed (some (many vs)) field value m = record m {
  headers = put_value field (many (vs ++ value ∷ [])) m.headers;
}
add_listed (some (one v)) field value m = put_dest field (many (value ∷ [])) m
add_listed none field value m = put_dest field (many (value ∷ [])) m

abbrev pub add_joined : Option HeaderValue → Bytes → Bytes → Incoming → Incoming
add_joined (some (one v)) field value m = put_dest field (one (v ++ (codes ", " ++ value))) m
add_joined (some (many vs)) field value m = put_dest field (one value) m
add_joined none field value m = put_dest field (one value) m

abbrev pub add_as : FieldKind → Bytes → Bytes → Incoming → Incoming
add_as listed field value m = add_listed (get_value field m.headers) field value m
add_as joined field value m = add_joined (get_value field m.headers) field value m
add_as single field value m = put_dest field (one value) m

unfoldable pub add_header_line : Bytes → Bytes → Incoming → Incoming
add_header_line name value m = let field = to_lower name in add_as (field_kind field) field value m

-- The loop over the lines.
unfoldable pub add_header_lines : List (Bytes × Bytes) → Incoming → Incoming
add_header_lines [] m = m
add_header_lines ((name, value) ∷ rest) m = add_header_lines rest (add_header_line name value m)

unfoldable pub set_header : Bytes → Bytes → Incoming → Incoming
set_header name value m = record m { headers = put_value (to_lower name) (one value) m.headers }

unfoldable pub get_header : Bytes → Incoming → Option Bytes
get_header name m = elim (get_value name m.headers) [
  | some (one v) ↦ some v
  | some (many vs) ↦ none
  | none ↦ none
]
