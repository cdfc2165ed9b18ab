-- ===== src/Http/Message/Head.antt =====
-- How http::OutgoingMessage makes its header, and write(), end() and the header fields.
use libnode.Base.{
  ℕ, Bool, true, false, not, ◌&&◌, ◌||◌, Option, none, some, List, [], ◌∷◌, ◌++◌, leb, ltb,
  if◌then◌else◌, ◌==◌, codes, is_some,
}
use libnode.Net.Socket.State.{Bytes, text, no_encoding}
use libnode.Http.Message.State.{Stream, Codec, HeaderValue, one, many, Message}
use libnode.Http.Message.Ops.{is_empty, send}

unfoldable pub text_eq : Bytes → Bytes → Bool
text_eq [] [] = true
text_eq [] (y ∷ ys) = false
text_eq (x ∷ xs) [] = false
text_eq (x ∷ xs) (y ∷ ys) = (x == y) && text_eq xs ys

abbrev pub crlf : Bytes
crlf = 13 ∷ 10 ∷ []

abbrev colon : Bytes
colon = codes ": "

-- A header line.
abbrev pub line : Bytes → Bytes → Bytes
line field value = field ++ (colon ++ (value ++ crlf))

-- `headers_` and `headerNames_` are maps.
unfoldable pub get_entry : Bytes → List (Bytes × Bytes) → Option Bytes
get_entry k [] = none
get_entry k ((k', v) ∷ rest) = if text_eq k' k then some v else get_entry k rest

unfoldable pub put_entry : Bytes → Bytes → List (Bytes × Bytes) → List (Bytes × Bytes)
put_entry k v [] = (k, v) ∷ []
put_entry k v ((k', v') ∷ rest) =
    if text_eq k' k then (k', v) ∷ rest else (k', v') ∷ put_entry k v rest

unfoldable pub remove_entry : Bytes → List (Bytes × Bytes) → List (Bytes × Bytes)
remove_entry k [] = []
remove_entry k ((k', v) ∷ rest) = if text_eq k' k then rest else (k', v) ∷ remove_entry k rest

abbrev pub or_empty {ℓ} : {A : Type ℓ} → Option (List A) → List A
or_empty none = []
or_empty (some l) = l

-- renderHeaders(): the values under the names as they were written.
unfoldable pub render_entries :
    List (Bytes × Bytes) → List (Bytes × Bytes) → List (Bytes × HeaderValue)
render_entries names [] = []
render_entries names ((k, v) ∷ rest) =
    (or_empty (get_entry k names), one v) ∷ render_entries names rest

unfoldable pub put_value :
    Bytes → HeaderValue → List (Bytes × HeaderValue) → List (Bytes × HeaderValue)
put_value k v [] = (k, v) ∷ []
put_value k v ((k', v') ∷ rest) =
    if text_eq k' k then (k', v) ∷ rest else (k', v') ∷ put_value k v rest

-- `hs->put(entry->getKey(), entry->getValue())` for each entry of writeHead()'s argument.
unfoldable pub put_values :
    List (Bytes × HeaderValue) → List (Bytes × HeaderValue) → List (Bytes × HeaderValue)
put_values hs [] = hs
put_values hs ((k, v) ∷ rest) = put_values (put_value k v hs) rest

-- The headers of writeHead(): the stored ones, the given ones, or both.
unfoldable pub merge_headers :
    {P : Type 0}
    → Message P
    → Option (List (Bytes × HeaderValue))
    → Option (List (Bytes × HeaderValue))
merge_headers m obj =
    let rendered = render_entries m.header_names m.headers in
    if is_empty m.headers
    then obj
    else if is_some m.header
    then none
    else some (elim obj [ none ↦ rendered | some o ↦ put_values rendered o ])

-- Where writeHead() breaks its assertion on resBuf_, or puts given headers through the null that
-- renderHeaders() is once there is a header.
abbrev pub misuses_head : {P : Type 0} → Message P → Option (List (Bytes × HeaderValue)) → Bool
misuses_head m obj =
    not (is_empty (or_empty m.res_buf))
    || (is_some m.header && (is_some obj && not (is_empty m.headers)))

-- 204, 304 and 1xx have no body.
abbrev pub bodiless : ℕ → Bool
bodiless code = (code == 204) || (code == 304) || (leb 100 code && ltb code 200)

module _ {P : Type 0} where
  unfoldable pub mark_connection : Bytes → Message P → Message P
  mark_connection value m =
      if text_eq value (codes "close")
      then record m { sent_connection = true; last = true }
      else record m { sent_connection = true; should_keep_alive = true }

  unfoldable pub mark_transfer_encoding : Bytes → Message P → Message P
  mark_transfer_encoding value m =
      if text_eq value (codes "chunked")
      then record m { sent_transfer_encoding = true; chunked_encoding = true }
      else record m { sent_transfer_encoding = true }

  -- The flags that store() sets.
  unfoldable pub mark_field : Bytes → Bytes → Message P → Message P
  mark_field lower value m =
      if text_eq lower (codes "connection")
      then mark_connection value m
      else if text_eq lower (codes "transfer-encoding")
      then mark_transfer_encoding value m
      else if text_eq lower (codes "content-length")
      then record m { sent_content_length = true }
      else if text_eq lower (codes "date")
      then record m { sent_date = true }
      else if text_eq lower (codes "expect")
      then record m { sent_expect = true }
      else m

  unfoldable pub unmark : Message P → Message P
  unmark m = record m {
    sent_connection = false;
    sent_content_length = false;
    sent_transfer_encoding = false;
    sent_date = false;
    sent_expect = false;
  }

  -- Whether a Connection header that storeHeader() adds says keep-alive.
  abbrev pub keeps_alive : Message P → Bool
  keeps_alive m =
      m.should_keep_alive && (m.sent_content_length || m.use_chunked_by_default || m.has_agent)

module _ {P : Type 0} (cd : Codec) where
  unfoldable pub store : Bytes → Bytes → Bytes × Message P → Bytes × Message P
  store field value (acc, m) = (acc ++ line field value, mark_field (cd.scan field) value m)

  unfoldable pub store_many : Bytes → List Bytes → Bytes × Message P → Bytes × Message P
  store_many field [] am = am
  store_many field (v ∷ vs) am = store_many field vs (store field v am)

  unfoldable pub store_value : Bytes → HeaderValue → Bytes × Message P → Bytes × Message P
  store_value field (one v) am = store field v am
  store_value field (many vs) am = store_many field vs am

  unfoldable pub store_all : List (Bytes × HeaderValue) → Bytes × Message P → Bytes × Message P
  store_all [] am = am
  store_all ((field, v) ∷ rest) am = store_all rest (store_value field v am)

  -- The default headers of storeHeader(), in their order.
  unfoldable pub default_date : Bytes × Message P → Bytes × Message P
  default_date (acc, m) =
      if m.send_date && not m.sent_date
      then (acc ++ line (codes "Date") cd.utc_date, m)
      else (acc, m)

  unfoldable pub default_connection : Bytes × Message P → Bytes × Message P
  default_connection (acc, m) =
      if m.sent_connection
      then (acc, m)
      else if keeps_alive m
      then (acc ++ line (codes "Connection") (codes "keep-alive"), m)
      else (acc ++ line (codes "Connection") (codes "close"), record m { last = true })

  unfoldable pub default_framing : Bytes × Message P → Bytes × Message P
  default_framing (acc, m) =
      if m.sent_content_length || m.sent_transfer_encoding
      then (acc, m)
      else if not m.has_body
      then (acc, record m { chunked_encoding = false })
      else if m.use_chunked_by_default
      then (
        acc ++ line (codes "Transfer-Encoding") (codes "chunked"),
        record m { chunked_encoding = true },
      )
      else (acc, record m { last = true })

  unfoldable pub close_header : Bytes × Message P → Message P
  close_header (acc, m) = record m {
    res_buf = some (acc ++ crlf);
    header = some (acc ++ crlf);
    header_sent = false;
  }

  -- storeHeader() but for its last line.
  unfoldable pub compose_header :
      Bytes → Option (List (Bytes × HeaderValue)) → Message P → Message P
  compose_header first_line hs m = close_header (
      default_framing
        (default_connection (default_date (store_all (or_empty hs) (first_line, unmark m)))))

module _ {P : Type 0} (stream : Stream P) (cd : Codec) where
  unfoldable pub store_header : Bytes → Option (List (Bytes × HeaderValue)) → Message P → Message P
  store_header first_line hs m₀ =
      let m = compose_header cd first_line hs m₀ in
      if m.sent_expect then (send stream (text []) no_encoding m).0 else m
