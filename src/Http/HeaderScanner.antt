-- ===== src/Http/HeaderScanner.antt =====
-- scanHeaderField() (include/libnode/detail/http/header_scanner.h, which re2c made of
-- header_scanner.re): the longest rule that is a prefix of the field wins, letters being compared
-- without their case, and without such a rule the field is lowered.
use Prim.Native.String.{String}
use libnode.Base.{
  ◌+◌, ◌≡◌, refl, Bool, true, false, ◌&&◌, Option, none, some, List, [], ◌∷◌, ◌++◌, codes, length,
  ltb, leb, if◌then◌else◌, ◌==◌,
}
use libnode.Net.Socket.State.{Bytes}

-- The rules; LHEADER_X, which a rule returns, is its name in lower case.
abbrev pub known_fields : List String
known_fields =
    "Cache-Control" ∷ "Connection" ∷ "Date" ∷ "Pragma" ∷ "Trailer" ∷ "Transfer-Encoding" ∷ "Upgrade"
    ∷ "Via" ∷ "Warning" ∷ "Allow" ∷ "Content-Encoding" ∷ "Content-Language" ∷ "Content-Length"
    ∷ "Content-Location" ∷ "Content-MD5" ∷ "Content-Range" ∷ "Content-Type" ∷ "Expires"
    ∷ "Last-Modified" ∷ "Accept" ∷ "Accept-Charset" ∷ "Accept-Encoding" ∷ "Accept-Language"
    ∷ "Authorization" ∷ "Expect" ∷ "From" ∷ "Host" ∷ "If-Modified-Since" ∷ "If-Match"
    ∷ "If-None-Match" ∷ "If-Range" ∷ "If-Unmodified-Since" ∷ "Max-Forwards" ∷ "Proxy-Authorization"
    ∷ "Range" ∷ "Referer" ∷ "TE" ∷ "User-Agent" ∷ "Accept-Ranges" ∷ "Age" ∷ "ETag" ∷ "Location"
    ∷ "Proxy-Authenticate" ∷ "Retry-After" ∷ "Server" ∷ "Vary" ∷ "WWW-Authenticate" ∷ "Link"
    ∷ "Cookie" ∷ "Set-Cookie" ∷ "Origin" ∷ "Access-Control-Request-Method"
    ∷ "Access-Control-Request-Headers" ∷ "Access-Control-Allow-Origin"
    ∷ "Access-Control-Allow-Credentials" ∷ "Access-Control-Expose-Headers"
    ∷ "Access-Control-Max-Age" ∷ "Access-Control-Allow-Methods" ∷ "Access-Control-Allow-Headers"
    ∷ "Sec-WebSocket-Key" ∷ "Sec-WebSocket-Extensions" ∷ "Sec-WebSocket-Accept"
    ∷ "Sec-WebSocket-Protocol" ∷ "Sec-WebSocket-Version" ∷ "DAV" ∷ "Depth" ∷ "Destination" ∷ "If"
    ∷ "Lock-Token" ∷ "Overwrite" ∷ "Status-URI" ∷ "Timeout" ∷ []

-- toLowerCase(), on the letters A to Z.
unfoldable pub to_lower : Bytes → Bytes
to_lower [] = []
to_lower (x ∷ xs) = (if leb 65 x && leb x 90 then x + 32 else x) ∷ to_lower xs

unfoldable pub is_prefix : Bytes → Bytes → Bool
is_prefix [] ys = true
is_prefix (x ∷ xs) [] = false
is_prefix (x ∷ xs) (y ∷ ys) = (x == y) && is_prefix xs ys

abbrev pub longer : Bytes → Option Bytes → Option Bytes
longer k none = some k
longer k (some best) = if ltb (length best) (length k) then some k else some best

-- The longest rule that is a prefix of a field in lower case.
unfoldable pub longest_match : Bytes → List String → Option Bytes
longest_match low [] = none
longest_match low (k ∷ ks) =
    let best = longest_match low ks in
    if is_prefix (to_lower (codes k)) low then longer (to_lower (codes k)) best else best

unfoldable pub scan_header_field : Bytes → Bytes
scan_header_field field = elim (longest_match (to_lower field) known_fields) [
  | none ↦ to_lower field
  | some k ↦ k
]

-- A field whose name goes on behind a known name is taken for the known field, whatever follows:
-- Server-Timing for Server, Expect-CT for Expect, Test for TE.
pub scan_header_field_prefix :
    (rest : Bytes)
    → (scan_header_field (codes "Server" ++ (codes "-Timing" ++ rest)) ≡ codes "server")
      × (scan_header_field (codes "Expect-CT" ++ rest) ≡ codes "expect")
      × (scan_header_field (codes "Test" ++ rest) ≡ codes "te")
unfolding scan_header_field longest_match is_prefix to_lower
scan_header_field_prefix rest = (refl, refl, refl)
