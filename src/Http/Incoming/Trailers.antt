-- ===== src/Http/Incoming/Trailers.antt =====
-- What addHeaderLine() does with the trailers, which come once the message is complete.
use libnode.Base.{arith, ◌≡◌, refl, true, some, List, [], ◌∷◌, ◌++◌, codes}
use libnode.Net.Socket.State.{Bytes}
use libnode.Http.HeaderScanner.{to_lower}
use libnode.Http.Message.State.{HeaderValue, one, many}
use libnode.Http.Incoming.State.{Incoming}
use libnode.Http.Incoming.Lines.{listed, joined, field_kind, get_value, put_dest, add_header_line}
use libnode.Http.Incoming.Joining.{put_own}

put_trailer :
    (f : Bytes) (v : HeaderValue) (m : Incoming)
    → m.complete ≡ true
    → get_value f (put_dest f v m).trailers ≡ some v
put_trailer f v m c = ground (arith, put_own f v m.trailers)

-- A trailer of a joined field whose header the message has is joined to that header, whatever
-- trailers of the field came before it.
trailer_joined :
    (n v h : Bytes) (m : Incoming)
    → m.complete ≡ true
    → field_kind (to_lower n) ≡ joined
    → get_value (to_lower n) m.headers ≡ some (one h)
    → get_value (to_lower n) (add_header_line n v m).trailers ≡ some (one (h ++ (codes ", " ++ v)))
unfolding add_header_line
trailer_joined n v h m c k e =
    rw k (simp e (put_trailer (to_lower n) (one (h ++ (codes ", " ++ v))) m c))

-- A Set-Cookie trailer of a message with a Set-Cookie header goes to the headers.
pub trailer_cookie :
    (n v : Bytes) (hs : List Bytes) (m : Incoming)
    → field_kind (to_lower n) ≡ listed
    → get_value (to_lower n) m.headers ≡ some (many hs)
    → ((add_header_line n v m).trailers ≡ m.trailers)
      × (get_value (to_lower n) (add_header_line n v m).headers ≡ some (many (hs ++ v ∷ [])))
unfolding add_header_line
trailer_cookie n v hs m k e =
    rw k (simp e (refl, put_own (to_lower n) (many (hs ++ v ∷ [])) m.headers))
